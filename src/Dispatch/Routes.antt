-- ===== src/Dispatch/Routes.antt =====
-- `handle_datachannel_data` of src/webrtc/rtc_session.rs: the way of an input message past all the
-- other handlers, and of a request for a display size up to the compositor.
use selkies_core.Prelude.{
  ℕ, ◌≤◌, ◌<◌, ◌≡◌, refl, sym, ◌∙◌, Bool, true, false, not, ◌&&◌, List, [], ◌∷◌, ◌++◌, Option, none,
  some, append-nil, Bytes, Text, codes, same, starts_with, strip_prefix, trim_start_matches-append,
  split_once, split_once-append, show, show-head, show-Free_above, parse_u32, from_str_radix-show,
  ltb, leb, ◌==◌, if◌then◌else◌, unwrap_or, Bool-cases, inl, inr, arith, ok, err,
}
use selkies_core.Shared.{
  SharedState, handle_command_message, resize_display, apply_pending_resize, settle,
  set_display_size,
}
use selkies_core.Upload.{handle_control_message}
use selkies_core.Clipboard.{handle_message, Services, ClipboardReceiver}
use selkies_core.Settings.{handle_simple_message, if_some}
use selkies_core.Input.{InputEventData, Parsed, parse_input_text}
use selkies_core.Dispatch.{
  World, Outside, behind, offer_upload, offer_clipboard, offer_command, offer_simple, perform_all,
  receiver, parse_size, resize_to, send_parsed, send_input, handle_client, handle_settings,
  handle_text, handle_datachannel_data,
}

-- The messages of the input protocol, by their tag, but for those under c, which the clipboard's
-- handler takes first.
pub data InputTag : Type 0 where
  move move_by button wheel key key_down key_up typed ping : InputTag

abbrev pub tag_text : InputTag → Text
tag_text InputTag.move = codes "m"
tag_text InputTag.move_by = codes "m2"
tag_text InputTag.button = codes "b"
tag_text InputTag.wheel = codes "w"
tag_text InputTag.key = codes "k"
tag_text InputTag.key_down = codes "kd"
tag_text InputTag.key_up = codes "ku"
tag_text InputTag.typed = codes "t"
tag_text InputTag.ping = codes "p"

-- The events of a message that is parsed.
abbrev pub events_of : Parsed → List InputEventData
events_of (ok e) = e ∷ []
events_of (err e) = []

-- A handler that is offered a message leaves the clipboard's log as it was.
abbrev passed : World → World
passed w = record w { clipboard = receiver w; clipboard_log = w.clipboard_log ++ [] }

either_way : {A : Type 0} (b : Bool) (x : A) → (if b then x else x) ≡ x
either_way b x = ground arith

-- What the handlers in front of the input parser say to an input message.
record Passes (t : Text) : Type 1 where
  pong : starts_with t (codes "pong") ≡ false
  upload :
      (w : World) {Value : Type 0} (o : Outside Value) → offer_upload o.file_system t w ≡ (false, w)
  clipboard : (sv : Services) (s : ClipboardReceiver) → handle_message sv t s ≡ (false, s)
  command : (w : World) {Value : Type 0} (o : Outside Value) → offer_command o t w ≡ (false, w)
  settings : starts_with t (codes "SETTINGS,") ≡ false
  simple : (w : World) → offer_simple t w ≡ (false, w)

module _ (rest : Text) where
  Passes-input : (g : InputTag) → Passes (tag_text g ++ b',' ∷ rest)
  unfolding starts_with strip_prefix same handle_message offer_upload handle_control_message
      offer_command handle_command_message offer_simple handle_simple_message
  Passes-input InputTag.move = record {
    pong = refl;
    upload = λ w o. refl;
    clipboard = λ sv s. either_way (not s.enabled) (false, s);
    command = λ w o. refl;
    settings = refl;
    simple = λ w. refl;
  }
  Passes-input _ = record {
    pong = refl;
    upload = λ w o. refl;
    clipboard = λ sv s. either_way (not s.enabled) (false, s);
    command = λ w o. refl;
    settings = refl;
    simple = λ w. refl;
  }

  to_input :
      (g : InputTag) (w : World)
      → handle_client (tag_text g ++ b',' ∷ rest) w ≡ send_input (tag_text g ++ b',' ∷ rest) w
  unfolding handle_client starts_with strip_prefix same
  to_input InputTag.move w = refl
  to_input _ w = refl

-- A message that every handler passes reaches the client's own tests.
handle_text-Passes :
    {Value : Type 0} (o : Outside Value) (t : Text) (w : World)
    → Passes t
    → handle_text o t w ≡ handle_client t (passed w)
unfolding handle_text offer_clipboard handle_settings perform_all
handle_text-Passes o t w p =
    rw
      (
        p.pong,
        p.upload w o,
        p.clipboard o.services (receiver w),
        p.command (passed w) o,
        p.settings,
        p.simple (passed w),
      )
      refl

-- What stands in a state and no input message changes.
pub record SameBut (w w' : World) : Type 0 where
  pub upload : w'.upload ≡ w.upload
  pub clipboard : receiver w' ≡ receiver w
  pub settings : w'.settings ≡ w.settings
  pub shared : w'.shared ≡ w.shared
  pub last_pong : w'.last_pong ≡ w.last_pong
  pub clipboard_log : w'.clipboard_log ≡ w.clipboard_log

send_input-passed :
    (t : Text) (w : World)
    → SameBut w (send_input t (passed w))
      × ((send_input t (passed w)).events ≡ w.events ++ events_of (parse_input_text t))
unfolding send_input
send_input-passed t w = go (parse_input_text t)
  where
    go :
        (r : Parsed)
        → SameBut w (send_parsed r (passed w))
          × ((send_parsed r (passed w)).events ≡ w.events ++ events_of r)
    go (ok e) = (
      record {
        upload = refl;
        clipboard = refl;
        settings = refl;
        shared = refl;
        last_pong = refl;
        clipboard_log = append-nil w.clipboard_log;
      },
      refl,
    )
    go (err e) = (
      record {
        upload = refl;
        clipboard = refl;
        settings = refl;
        shared = refl;
        last_pong = refl;
        clipboard_log = append-nil w.clipboard_log;
      },
      sym (append-nil w.events),
    )

-- A message of the input protocol under one of the tags m, m2, b, w, k, kd, ku, t and p, with
-- anything behind the comma, is taken by no other handler: the event it is parsed to, if it is one,
-- is sent, once, and nothing else changes. The bytes are the message's text in UTF-8.
pub handle_datachannel_data-input :
    {Value : Type 0} (o : Outside Value) (bytes : Bytes) (g : InputTag) (rest : Text) (w : World)
    → o.from_utf8 bytes ≡ some (tag_text g ++ b',' ∷ rest)
    → SameBut w (handle_datachannel_data o (record { binary = false; payload = bytes }) w)
      × ((handle_datachannel_data o (record { binary = false; payload = bytes }) w).events
          ≡ w.events ++ events_of (parse_input_text (tag_text g ++ b',' ∷ rest)))
unfolding handle_datachannel_data
handle_datachannel_data-input o bytes g rest w h =
    rw
      (
        h,
        handle_text-Passes o (tag_text g ++ b',' ∷ rest) w (Passes-input rest g),
        to_input rest g (passed w),
      )
      (send_input-passed (tag_text g ++ b',' ∷ rest) w)

strip_prefix-number : (c n : ℕ) (p s : Text) → 57 < c → strip_prefix (show n ++ s) (c ∷ p) ≡ none
unfolding strip_prefix
strip_prefix-number c n p s h = let (d, t, e, _, top) = show-head n in rw e (ground arith)

abbrev pub resize_message : ℕ → ℕ → Text
resize_message width height = codes "r," ++ (show width ++ (b'x' ∷ show height))

-- A display has at least one pixel, and at most 7680 by 4320.
abbrev pub fits : ℕ → ℕ → Bool
fits width height = ltb 0 width && ltb 0 height && leb width 7680 && leb height 4320

parse_size-message :
    (width height : ℕ)
    → width ≤ 4294967295
    → height ≤ 4294967295
    → parse_size (behind (resize_message width height) (codes "r,"))
      ≡ (if fits width height then some (width, height) else none)
unfolding parse_size
parse_size-message width height hw hh =
    let at_x : split_once b'x' (show width ++ (b'x' ∷ show height))
        ≡ some (show width, show height) =
      split_once-append b'x' (show width) (show height)
        (show-Free_above b'x' width (omega arith)) in
    let payload : behind (resize_message width height) (codes "r,")
        ≡ show width ++ (b'x' ∷ show height) =
      trim_start_matches-append 114 (44 ∷ []) (show width ++ (b'x' ∷ show height))
        (strip_prefix-number 114 width (44 ∷ []) (b'x' ∷ show height) (omega arith)) in
    let w_is : parse_u32 (show width) ≡ some width = from_str_radix-show _ width hw in
    let h_is : parse_u32 (show height) ≡ some height = from_str_radix-show _ height hh in
    rw (payload, at_x, w_is, h_is) refl

Passes-resize : (rest : Text) → Passes (codes "r," ++ rest)
unfolding starts_with strip_prefix same handle_message offer_upload handle_control_message
    offer_command handle_command_message offer_simple handle_simple_message
Passes-resize rest = record {
  pong = refl;
  upload = λ w o. refl;
  clipboard = λ sv s. either_way (not s.enabled) (false, s);
  command = λ w o. refl;
  settings = refl;
  simple = λ w. refl;
}

to_resize :
    (rest : Text) (w : World)
    → handle_client (codes "r," ++ rest) w
      ≡ if_some (parse_size (behind (codes "r," ++ rest) (codes "r,"))) resize_to w
unfolding handle_client starts_with strip_prefix same
to_resize rest w = refl

-- The shared state after a request for a size.
resize_text :
    {Value : Type 0} (o : Outside Value) (width height : ℕ) (w : World)
    → width ≤ 4294967295
    → height ≤ 4294967295
    → (handle_text o (resize_message width height) w).shared
      ≡ (if fits width height then resize_display width height w.shared else w.shared)
resize_text o width height w hw hh =
    let rest = show width ++ (b'x' ∷ show height) in
    rw
      (
        handle_text-Passes o (codes "r," ++ rest) w (Passes-resize rest),
        to_resize rest (passed w),
        parse_size-message width height hw hh,
      )
      (ground arith)

abbrev pub same_size : ℕ × ℕ → ℕ → ℕ → Bool
same_size size width height = size.0 == width && size.1 == height

-- A display that accepts every size.
abbrev pub accept_all : ℕ → ℕ → Bool
accept_all width height = true

settled :
    (size : Option (ℕ × ℕ)) (s : SharedState)
    → ((settle accept_all size s).display_size ≡ unwrap_or size s.display_size)
      × ((settle accept_all size s).pending_resize ≡ s.pending_resize)
unfolding set_display_size
settled none s = (refl, refl)
settled (some (a, b)) s = (refl, refl)

turn :
    (s : SharedState)
    → ((apply_pending_resize accept_all s).display_size ≡ unwrap_or s.pending_resize s.display_size)
      × ((apply_pending_resize accept_all s).pending_resize ≡ none)
unfolding apply_pending_resize
turn s = settled s.pending_resize (record s { pending_resize = none })

after_request :
    (width height : ℕ) (s : SharedState)
    → unwrap_or
        (resize_display width height s).pending_resize
        (resize_display width height s).display_size
      ≡ (if same_size s.display_size width height
          then unwrap_or s.pending_resize s.display_size
          else (width, height))
unfolding resize_display
after_request width height s = elim (Bool-cases (same_size s.display_size width height)) [
  | inl e ↦ rw (resize_display, e) refl
  | inr e ↦ rw (resize_display, e) refl
]

-- A client that asks for a display of `width` by `height` pixels, with the message
-- `r,<width>x<height>`, gets it at the compositor's next turn, when it is at least 1 by 1 and at
-- most 7680 by 4320; another size changes nothing of the shared state. There is one exception: a
-- request for the size that the display has already does not cancel an earlier request that still
-- waits, so the display takes that earlier size. Nothing waits after the turn. The numbers are
-- `u32`s, the bytes are the message's text in UTF-8, and the display accepts every size.
pub apply_pending_resize-message :
    {Value : Type 0} (o : Outside Value) (bytes : Bytes) (width height : ℕ) (w : World)
    → width ≤ 4294967295
    → height ≤ 4294967295
    → o.from_utf8 bytes ≡ some (resize_message width height)
    → (let asked =
          (handle_datachannel_data o (record { binary = false; payload = bytes }) w).shared in
        (fits width height ≡ false → asked ≡ w.shared)
        × (fits width height ≡ true
            → ((apply_pending_resize accept_all asked).display_size ≡ (
                if same_size w.shared.display_size width height
                then unwrap_or w.shared.pending_resize w.shared.display_size
                else (width, height)))
              × ((apply_pending_resize accept_all asked).pending_resize ≡ none)))
unfolding handle_datachannel_data
apply_pending_resize-message o bytes width height w hw hh h =
    let heard : (handle_datachannel_data o (record { binary = false; payload = bytes }) w).shared
        ≡ (handle_text o (resize_message width height) w).shared =
      rw h refl in
    let asked = heard ∙ resize_text o width height w hw hh in
    (
      (λ e. asked ∙ rw e refl),
      (λ e.
          let queued = asked ∙ rw e refl in
          rw queued (
            (turn (resize_display width height w.shared)).0 ∙ after_request width height w.shared,
            (turn (resize_display width height w.shared)).1,
          )),
    )
