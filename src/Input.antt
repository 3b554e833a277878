-- ===== src/Input.antt =====
-- src/input.rs and src/webrtc/data_channel.rs: input events, and the parser of the text protocol.
-- Signed fields are integers, unsigned ones native numbers; Input/Bounds shows their ranges.
pub mod RoundTrip
pub mod Bounds
use selkies_core.Prelude.{
  ℕ, Bool, true, false, ◌||◌, List, [], ◌∷◌, ◌++◌, Option, if◌then◌else◌, Text, codes, same,
  starts_with, split, join, drop, ℤ, pos, parse_u8, parse_u32, parse_u64, parse_i32, parse_i16,
  from_str_radix, Result, ok, err, ◌>>=◌, or_fail, unwrap_or,
}

pub data InputEvent : Type 0 where
  mouse_move mouse_button mouse_wheel keyboard keyboard_reset : InputEvent
  text_input clipboard ping window_focus window_close : InputEvent

pub record InputEventData : Type 0 where
  pub event_type : InputEvent
  pub mouse_x : ℤ
  pub mouse_y : ℤ
  pub mouse_button : ℕ
  pub button_pressed : Bool
  pub wheel_delta_x : ℤ
  pub wheel_delta_y : ℤ
  pub keysym : ℕ
  pub key_pressed : Bool
  pub button_mask : ℕ
  pub text : Text
  pub timestamp : ℕ
  pub window_id : ℕ

-- `InputEventData::default()`.
abbrev pub default : InputEventData
default = record {
  event_type = InputEvent.mouse_move;
  mouse_x = pos 0;
  mouse_y = pos 0;
  mouse_button = 0;
  button_pressed = false;
  wheel_delta_x = pos 0;
  wheel_delta_y = pos 0;
  keysym = 0;
  key_pressed = false;
  button_mask = 0;
  text = [];
  timestamp = 0;
  window_id = 0;
}

pub data WebrtcError : Type 0 where
  data_channel_error : Text → WebrtcError

abbrev pub Parsed : Type 0
Parsed = Result WebrtcError InputEventData

abbrev pub fail {ℓ} : {A : Type ℓ} → Text → Result WebrtcError A
fail message = err (data_channel_error message)

abbrev pub parsed {ℓ} : {A : Type ℓ} → Option A → Text → Result WebrtcError A
parsed o message = or_fail o (data_channel_error message)

-- `parts[3].parse().unwrap_or(0)`, if there is such a part.
abbrev pub mask_of : List Text → ℕ
mask_of [] = 0
mask_of (m ∷ more) = unwrap_or (parse_u32 m) 0

-- Each arm, on the parts behind the tag.
unfoldable pub parse_m : List Text → Parsed
parse_m (x ∷ y ∷ more) = do
  mx ← parsed (parse_i32 x) (codes "Invalid mouse X")
  my ← parsed (parse_i32 y) (codes "Invalid mouse Y")
  ok (record default {
    event_type = InputEvent.mouse_move;
    mouse_x = mx;
    mouse_y = my;
    button_mask = mask_of more;
  })
parse_m _ = fail (codes "Invalid mouse move format")

unfoldable pub parse_m2 : List Text → Parsed
parse_m2 (x ∷ y ∷ more) = do
  mx ← parsed (parse_i32 x) (codes "Invalid mouse dX")
  my ← parsed (parse_i32 y) (codes "Invalid mouse dY")
  ok (record default {
    event_type = InputEvent.mouse_move;
    mouse_x = mx;
    mouse_y = my;
    text = codes "relative";
    button_mask = mask_of more;
  })
parse_m2 _ = fail (codes "Invalid relative mouse move format")

unfoldable pub parse_b : List Text → Parsed
parse_b (b ∷ p ∷ more) = do
  button ← parsed (parse_u8 b) (codes "Invalid button number")
  ok (record default {
    event_type = InputEvent.mouse_button;
    mouse_button = button;
    button_pressed = same p (codes "1");
  })
parse_b _ = fail (codes "Invalid mouse button format")

unfoldable pub parse_w : List Text → Parsed
parse_w (x ∷ y ∷ more) = do
  dx ← parsed (parse_i16 x) (codes "Invalid wheel delta X")
  dy ← parsed (parse_i16 y) (codes "Invalid wheel delta Y")
  ok (record default {
    event_type = InputEvent.mouse_wheel;
    wheel_delta_x = dx;
    wheel_delta_y = dy;
  })
parse_w _ = fail (codes "Invalid mouse wheel format")

unfoldable pub parse_keysym : Text → Result WebrtcError ℕ
parse_keysym s =
    if starts_with s (codes "0x") || starts_with s (codes "0X")
    then parsed (from_str_radix 16 4294967295 (drop 2 s)) (codes "Invalid hex keysym")
    else parsed (parse_u32 s) (codes "Invalid keysym")

abbrev pub key_event : ℕ → Bool → InputEventData
key_event sym pressed = record default {
  event_type = InputEvent.keyboard;
  keysym = sym;
  key_pressed = pressed;
}

unfoldable pub parse_k : List Text → Parsed
parse_k (k ∷ p ∷ more) = do sym ← parse_keysym k; ok (key_event sym (same p (codes "1")))
parse_k _ = fail (codes "Invalid keyboard format")

unfoldable pub parse_kd : List Text → Parsed
parse_kd (k ∷ more) = do sym ← parse_keysym k; ok (key_event sym true)
parse_kd _ = fail (codes "Invalid kd format")

unfoldable pub parse_ku : List Text → Parsed
parse_ku (k ∷ more) = do sym ← parse_keysym k; ok (key_event sym false)
parse_ku _ = fail (codes "Invalid ku format")

-- `parts[1..].join(",")`, for text and for the clipboard.
unfoldable pub parse_text : InputEvent → Text → List Text → Parsed
parse_text kind message [] = fail message
parse_text kind message (p ∷ ps) =
    ok (record default { event_type = kind; text = join b',' (p ∷ ps) })

unfoldable pub parse_p : List Text → Parsed
parse_p [] = ok (record default { event_type = InputEvent.ping })
parse_p (t ∷ more) =
    ok (record default { event_type = InputEvent.ping; timestamp = unwrap_or (parse_u64 t) 0 })

-- `match parts[0]`.
unfoldable pub parse_parts : Text → List Text → Parsed
parse_parts tag rest =
    if same tag (codes "m")
    then parse_m rest
    else if same tag (codes "m2")
    then parse_m2 rest
    else if same tag (codes "b")
    then parse_b rest
    else if same tag (codes "w")
    then parse_w rest
    else if same tag (codes "k")
    then parse_k rest
    else if same tag (codes "kd")
    then parse_kd rest
    else if same tag (codes "ku")
    then parse_ku rest
    else if same tag (codes "t")
    then parse_text InputEvent.text_input (codes "Invalid text input format") rest
    else if same tag (codes "c")
    then parse_text InputEvent.clipboard (codes "Invalid clipboard format") rest
    else if same tag (codes "p")
    then parse_p rest
    else fail (codes "Unknown input type: " ++ tag)

abbrev pub on_parts : List Text → Parsed
on_parts [] = fail (codes "Empty input message")
on_parts (tag ∷ rest) = parse_parts tag rest

unfoldable pub parse_input_text : Text → Parsed
unfolding parse_parts
parse_input_text text = on_parts (split b',' text)

unfoldable pub format_output_message : Text → Text → Text
format_output_message msg_type message = msg_type ++ (b',' ∷ message)
