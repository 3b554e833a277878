-- ===== src/Http/Auth.antt =====
-- `basic_auth_middleware` and `change_password_handler` of src/web/http_server.rs: who gets in.
use selkies_core.Prelude.{
  starts_with, starts_with-some, ◌≤◌, ◌<◌, ◌≡◌, inl, inr, ◌↔◌, refl, sym, ap, ◌∙◌, true, false, not,
  ◌&&◌, ◌∷◌, ◌++◌, Option, none, some, Bytes, Text, codes, same, same_iff, same_refl, strip_prefix,
  strip_prefix-append, strip_prefix-some, split_once-append, split_once-some, Free, and_then-some,
  ltb, if-intro, if-false, if_not-true, lt→ltb, Bool-cases, Option-cases, arith,
}
use selkies_core.Http.{
  AuthState, Request, Codec, PasswordReply, is_open_path, expected_password, credentials, matches,
  header_matches, basic_auth_middleware, utf8_len, change_password,
}

-- The password that now holds: the changed one, if there is one, or else the configured one.
pub data Holds (s : AuthState) (password : Text) : Type 0 where
  changed_to : s.password_override ≡ some password → Holds s password
  configured : s.password_override ≡ none → password ≡ s.password → Holds s password

-- The paths that need no password.
pub data IsOpen (path : Text) : Type 0 where
  health : path ≡ codes "/health" → IsOpen path
  manifest : path ≡ codes "/manifest.json" → IsOpen path
  service_worker : path ≡ codes "/sw.js" → IsOpen path
  icon : (name : Text) → path ≡ codes "/icons/" ++ name → IsOpen path

-- The header carries the configured user and the password that now holds.
pub record Presents (cd : Codec) (s : AuthState) (value : Text) : Type 0 where
  pub encoded : Text
  pub decoded : Bytes
  pub password : Text
  pub holds : Holds s password
  pub header : value ≡ codes "Basic " ++ encoded
  pub base64 : cd.decode encoded ≡ some decoded
  pub utf8 : cd.from_utf8 decoded ≡ some (s.user ++ 58 ∷ password)

pub data Admitted (cd : Codec) (s : AuthState) (req : Request) : Type 0 where
  auth_off : s.enabled ≡ false → Admitted cd s req
  open_path : IsOpen req.path → Admitted cd s req
  known : (value : Text) → req.authorization ≡ some value → Presents cd s value → Admitted cd s req

expected_password-Holds : (s : AuthState) → Holds s (expected_password s)
expected_password-Holds s = elim (Option-cases s.password_override) [
  | inl none_there ↦ configured none_there (rw none_there refl)
  | inr (p, there) ↦ changed_to (rw there refl)
]

Holds-expected_password :
    (s : AuthState) (password : Text) → Holds s password → password ≡ expected_password s
Holds-expected_password s password (changed_to e) = rw e refl
Holds-expected_password s password (configured none_there e) = rw none_there e

is_open_path-IsOpen : (path : Text) → (is_open_path path ≡ true) ↔ IsOpen path
unfolding is_open_path same starts_with strip_prefix
is_open_path-IsOpen path = (opens, is_open)
  where
    opens : is_open_path path ≡ true → IsOpen path
    opens h = elim (Bool-cases (same path (codes "/health"))) [
      | inl e ↦ health ((same_iff _ _).0 e)
      | inr h1 ↦ elim (Bool-cases (same path (codes "/manifest.json"))) [
        | inl e ↦ manifest ((same_iff _ _).0 e)
        | inr h2 ↦ elim (Bool-cases (same path (codes "/sw.js"))) [
          | inl e ↦ service_worker ((same_iff _ _).0 e)
          | inr h3 ↦
              let below : starts_with path (codes "/icons/") ≡ true = rw (h1, h2, h3) at h in
              let (name, e) = starts_with-some path (codes "/icons/") below in icon name e
        ]
      ]
    ]

    is_open : IsOpen path → is_open_path path ≡ true
    is_open (health e) = rw e refl
    is_open (manifest e) = rw e refl
    is_open (service_worker e) = rw e refl
    is_open (icon name e) = rw e refl

matches-Presents :
    (cd : Codec) (s : AuthState) (value : Text)
    → Free 58 s.user
    → matches s (credentials cd value) ≡ true
    → Presents cd s value
unfolding credentials
matches-Presents cd s value colon h = elim (Option-cases (credentials cd value)) [
  | inl none_there ↦
      let refused : matches s (credentials cd value) ≡ false = rw none_there refl in cc
  | inr ((user, pass), there) ↦
      let shown : matches s (credentials cd value)
          ≡ (same user s.user && same pass (expected_password s)) =
        rw there refl in
      let both : (same user s.user && same pass (expected_password s)) ≡ true = sym shown ∙ h in
      let user_is : user ≡ s.user = (same_iff user s.user).0 (ground arith) in
      let pass_is : pass ≡ expected_password s =
        (same_iff pass (expected_password s)).0 (ground arith) in
      let (encoded, e1, h1) = and_then-some (strip_prefix value (codes "Basic ")) _ there in
      let (decoded, e2, h2) = and_then-some (cd.decode encoded) _ h1 in
      let (str, e3, h3) = and_then-some (cd.from_utf8 decoded) _ h2 in
      let (str_is, _) = split_once-some 58 str user pass h3 in
      let str_is' : str ≡ s.user ++ 58 ∷ expected_password s =
        str_is ∙ rw (user_is, pass_is) refl in
      record {
        encoded = encoded;
        decoded = decoded;
        password = expected_password s;
        holds = expected_password-Holds s;
        header = strip_prefix-some value (codes "Basic ") encoded e1;
        base64 = e2;
        utf8 = e3 ∙ ap some str_is';
      }
]

Presents-matches :
    (cd : Codec) (s : AuthState) (value : Text)
    → Free 58 s.user
    → Presents cd s value
    → matches s (credentials cd value) ≡ true
unfolding credentials
Presents-matches cd s value colon p =
    rw
      (
        p.header,
        strip_prefix-append (codes "Basic ") p.encoded,
        p.base64,
        p.utf8,
        Holds-expected_password s p.password p.holds,
        split_once-append 58 s.user (expected_password s) colon,
        same_refl s.user,
        same_refl (expected_password s),
      )
      refl

-- A request is handed on exactly when the check is off, the path is /health, /manifest.json or
-- /sw.js or begins with /icons/, or the header is `Basic ` and the base64 of the UTF-8 of the
-- configured user, a colon and the password that now holds (the changed one, if it was changed).
-- The configured user holds no colon.
pub basic_auth_middleware_iff :
    (cd : Codec) (s : AuthState) (req : Request)
    → Free 58 s.user
    → (basic_auth_middleware cd s req ≡ true) ↔ Admitted cd s req
unfolding basic_auth_middleware header_matches
basic_auth_middleware_iff cd s req colon = (passed, admits)
  where
    by_header :
        (o : Option Text) → req.authorization ≡ o → header_matches cd s o ≡ true → Admitted cd s req
    by_header none e h = cc
    by_header (some value) e h = known value e (matches-Presents cd s value colon h)

    passed : basic_auth_middleware cd s req ≡ true → Admitted cd s req
    passed h = elim (Bool-cases s.enabled) [
      | inr off ↦ auth_off off
      | inl on ↦ elim (Bool-cases (is_open_path req.path)) [
        | inl o ↦ open_path ((is_open_path-IsOpen req.path).0 o)
        | inr c ↦
            let opened : basic_auth_middleware cd s req ≡ header_matches cd s req.authorization =
              if_not-true s.enabled _ _ on ∙ if-false (is_open_path req.path) _ _ c in
            by_header req.authorization refl (sym opened ∙ h)
      ]
    ]

    admits : Admitted cd s req → basic_auth_middleware cd s req ≡ true
    admits (auth_off e) = rw e refl
    admits (open_path e) =
        if-intro (λ b. b ≡ true) (not s.enabled) (λ o. refl)
          λ o.
            if-intro (λ b. b ≡ true) (is_open_path req.path) (λ p. refl)
              λ p. let o : is_open_path req.path ≡ true = (is_open_path-IsOpen req.path).1 e in cc
    admits (known value e p) =
        if-intro (λ b. b ≡ true) (not s.enabled) (λ o. refl)
          λ o.
            if-intro (λ b. b ≡ true) (is_open_path req.path) (λ o. refl)
              λ o. ap (header_matches cd s) e ∙ Presents-matches cd s value colon p

-- A password of four bytes or more, in UTF-8, is accepted and replaces the old one: from then on a
-- header with the configured user's name and another password is refused, and one with the new
-- password is let through. A shorter or a missing one is refused and changes nothing.
pub change_password_lem :
    (cd : Codec) (s : AuthState) (new_password value user pass : Text)
    → credentials cd value ≡ some (user, pass)
    → (4 ≤ utf8_len new_password
        → ((change_password (some new_password) s).0 ≡ PasswordReply.changed)
          × ((header_matches cd (change_password (some new_password) s).1 (some value) ≡ true)
              ↔ ((user ≡ s.user) × (pass ≡ new_password))))
      × (utf8_len new_password < 4
          → change_password (some new_password) s ≡ (PasswordReply.too_short, s))
      × (change_password none s ≡ (PasswordReply.missing, s))
unfolding change_password header_matches
change_password_lem cd s new_password value user pass there = (
  (λ long.
      let t : ltb (utf8_len new_password) 4 ≡ false = ground arith in
      rw t (
        rw there (
          refl,
          (
            (λ both. (
              (same_iff user s.user).0 (ground arith),
              (same_iff pass new_password).0 (ground arith),
            )),
            λ (u, p). rw (u, p, same_refl s.user, same_refl new_password) refl,
          ),
        ))),
  (λ short. rw (lt→ltb _ _ short) refl),
  refl,
)
