-- ===== src/Config/Overrides.antt =====
-- `apply_cli_overrides` of src/main.rs: which of the file's settings the command line keeps.
use selkies_core.Prelude.{ℕ, ◌≡◌, refl, false, none}
use selkies_core.Config.{Config, Args, apply_cli_overrides}

-- The file's display size, replaced by another.
abbrev pub resized : Config → ℕ → ℕ → Config
resized c w h = record c { display = record c.display { width = w; height = h } }

-- No option is given but the two sizes, which the command line always has.
pub record OnlySizes (a : Args) : Type 0 where
  pub port : a.http_port ≡ none
  pub auth : a.basic_auth_enabled ≡ none
  pub user : a.basic_auth_user ≡ none
  pub password : a.basic_auth_password ≡ none
  pub binary : a.binary_clipboard_enabled ≡ none
  pub commands : a.commands_enabled ≡ none
  pub transfers : a.file_transfers ≡ none
  pub dir : a.upload_dir ≡ none
  pub candidate : a.webrtc_public_candidate ≡ none
  pub host_header : a.webrtc_candidate_from_host_header ≡ none
  pub tls : a.tls ≡ false

-- The display size of the settings file has no effect: whatever sizes stand there, the
-- configuration after the overrides is the same, and its sizes are the command line's.
pub apply_cli_overrides-resized :
    (c : Config) (a : Args) (w h : ℕ)
    → (apply_cli_overrides (resized c w h) a ≡ apply_cli_overrides c a)
      × ((apply_cli_overrides c a).display.width ≡ a.width)
      × ((apply_cli_overrides c a).display.height ≡ a.height)
unfolding apply_cli_overrides
apply_cli_overrides-resized c a w h = (refl, refl, refl)

-- When no option but the sizes is given, everything else in the settings file stays as it is.
pub apply_cli_overrides-OnlySizes :
    (c : Config) (a : Args) → OnlySizes a → apply_cli_overrides c a ≡ resized c a.width a.height
unfolding apply_cli_overrides
apply_cli_overrides-OnlySizes c a o =
    rw
      (
        o.port, o.auth, o.user, o.password, o.binary, o.commands, o.transfers, o.dir, o.candidate,
        o.host_header, o.tls,
      )
      refl
