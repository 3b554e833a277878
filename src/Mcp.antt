-- ===== src/Mcp.antt =====
-- src/mcp/mod.rs and the parameters of src/mcp/tools.rs: the tools of the MCP server. A tool gives
-- its answer and what it sends, in order; its pauses are left out. The answer is the message's
-- form with what is written into it. A call that fails sends what it sent before the failure.
-- The screenshot and the screen's statistics are not modelled.
pub mod Calls
pub mod Released
pub mod Typed
pub mod Within
use selkies_core.Prelude.{
  ℕ, ◌-◌, ◌<◌, Bool, true, false, not, ◌&&◌, ◌||◌, List, [], ◌∷◌, ◌++◌, map, reverse, Option, none,
  some, Bytes, Text, codes, length, same, ltb, leb, ◌==◌, if◌then◌else◌, ℤ, pos, negsuc, Result, ok,
  err, unwrap_or,
}
use selkies_core.Input.{InputEvent, InputEventData, default, key_event}
use selkies_core.Keyboard.{
  KeyError, char_needs_shift, get_unshifted_char, char_to_keysym, parse_key_combo,
}

-- The base64 codec, `String::from_utf8_lossy` and `str::to_lowercase`.
pub record Codecs : Type 0 where
  pub encode : Text → Text
  pub decode : Text → Option Bytes
  pub from_utf8_lossy : Bytes → Text
  pub to_lowercase : Text → Text

-- The fields of the shared state that the tools read.
pub record McpState : Type 0 where
  pub display_size : ℕ × ℕ
  pub clipboard : Option Text
  pub last_taskbar_json : Option Text

-- An event for the compositor; text for the clipboard, which is marked as changed.
pub data Effect : Type 0 where
  input : InputEventData → Effect
  clipboard_incoming : Text → Effect

pub data McpError : Type 0 where
  out_of_bounds : ℤ → ℤ → ℕ × ℕ → McpError
  unknown_button : Text → McpError
  key_error : KeyError → McpError
  base64_decode : McpError

pub data Content : Type 0 where
  moved : ℤ → ℤ → Content
  clicked : Bool → Text → ℤ → ℤ → Content
  scrolled : ℤ → ℤ → Content
  typed : ℕ → Bool → Content
  typed_lines : ℕ → Content
  pressed : Text → Content
  clipboard_updated : Content
  focused : ℕ → Content
  closed : ℕ → Content
  plain : Text → Content

abbrev pub ToolResult : Type 0
ToolResult = Result McpError Content × List Effect

-- `?`: a failure ends the tool.
infixl 5 ◌>>=◌
abbrev pub ◌>>=◌ {ℓ} : {A : Type ℓ} → Result McpError A → (A → ToolResult) → ToolResult
err e >>= f = (err e, [])
ok a >>= f = f a

-- `w as i32`, which wraps.
abbrev pub as_i32 : ℕ → ℤ
as_i32 w = if ltb w 2147483648 then pos w else negsuc (4294967295 - w)

-- `x < 0 || x >= w as i32`.
abbrev pub is_off : ℤ → ℤ → Bool
is_off (negsuc n) w = true
is_off (pos x) (pos w) = leb w x
is_off (pos x) (negsuc n) = true

unfoldable pub validate_coords : ℤ → ℤ → McpState → Result McpError (Unit {0})
validate_coords x y s =
    if is_off x (as_i32 s.display_size.0) || is_off y (as_i32 s.display_size.1)
    then err (out_of_bounds x y s.display_size)
    else ok tt

abbrev pub send_key : ℕ → Bool → Effect
send_key keysym down = input (key_event keysym down)

unfoldable pub type_char : ℕ → List Effect
type_char c =
    let needs_shift = char_needs_shift c in
    let sym = char_to_keysym (if needs_shift then get_unshifted_char c else c) in
    let tap = send_key sym true ∷ send_key sym false ∷ [] in
    if needs_shift then send_key 0xffe1 true ∷ (tap ++ send_key 0xffe1 false ∷ []) else tap

abbrev pub send_text_input : Text → Effect
send_text_input text = input (record default { event_type = InputEvent.text_input; text = text })

-- ASCII and no control character.
unfoldable pub text_is_ascii_typeable : Text → Bool
text_is_ascii_typeable [] = true
text_is_ascii_typeable (c ∷ text) =
    (ltb c 128 && not (ltb c 32 || c == 127)) && text_is_ascii_typeable text

unfoldable pub type_chars : Text → List Effect
type_chars [] = []
type_chars (c ∷ text) = type_char c ++ type_chars text

unfoldable pub type_text : Text → List Effect
type_text text = if text_is_ascii_typeable text then type_chars text else send_text_input text ∷ []

abbrev pub press_enter : List Effect
press_enter = send_key 0xff0d true ∷ send_key 0xff0d false ∷ []

abbrev pub move_to : ℤ → ℤ → Effect
move_to x y =
    input (record default { event_type = InputEvent.mouse_move; mouse_x = x; mouse_y = y })

abbrev pub button_event : ℤ → ℤ → ℕ → Bool → Effect
button_event x y button down = input (record default {
  event_type = InputEvent.mouse_button;
  mouse_x = x;
  mouse_y = y;
  mouse_button = button;
  button_pressed = down;
})

unfoldable pub mouse_move : ℤ → ℤ → McpState → ToolResult
mouse_move x y s = validate_coords x y s >>= λ _. (ok (moved x y), move_to x y ∷ [])

abbrev pub button_number : Text → Option ℕ
button_number button =
    if same button (codes "left")
    then some 0
    else if same button (codes "middle")
    then some 1
    else if same button (codes "right")
    then some 2
    else none

unfoldable pub click : ℤ → ℤ → ℕ → List Effect
click x y button = button_event x y button true ∷ button_event x y button false ∷ []

-- With the cursor moved first.
unfoldable pub click_with : Text → ℤ → ℤ → Bool → Option ℕ → ToolResult
click_with button x y double none = (err (unknown_button button), move_to x y ∷ [])
click_with button x y double (some b) = (
  ok (clicked double button x y),
  move_to x y ∷ (click x y b ++ (if double then click x y b else [])),
)

unfoldable pub mouse_click : Text → ℤ → ℤ → Bool → McpState → ToolResult
mouse_click button x y double s =
    validate_coords x y s >>= λ _. click_with button x y double (button_number button)

unfoldable pub mouse_scroll : ℤ → ℤ → ToolResult
mouse_scroll dx dy = (
  ok (scrolled dx dy),
  input (record default {
    event_type = InputEvent.mouse_wheel;
    wheel_delta_x = dx;
    wheel_delta_y = dy;
  })
      ∷ [],
)

unfoldable pub keyboard_type : Text → Bool → ToolResult
keyboard_type text enter =
    (ok (typed (length text) enter), type_text text ++ (if enter then press_enter else []))

unfoldable pub type_lines : List Text → List Effect
type_lines [] = []
type_lines (line ∷ lines) = type_text line ++ press_enter ++ type_lines lines

unfoldable pub keyboard_type_multiline : List Text → ToolResult
keyboard_type_multiline lines = (ok (typed_lines (length lines)), type_lines lines)

-- The modifiers are pressed in order, and released in reverse.
unfoldable pub press_combo : List ℕ → ℕ → List Effect
press_combo modifiers main_sym =
    map (λ m. send_key m true) modifiers
    ++ send_key main_sym true ∷ send_key main_sym false ∷ []
    ++ map (λ m. send_key m false) (reverse modifiers)

abbrev pub or_key_error {ℓ} : {A : Type ℓ} → Result KeyError A → Result McpError A
or_key_error (ok a) = ok a
or_key_error (err e) = err (key_error e)

unfoldable pub keyboard_key : Codecs → Text → ToolResult
keyboard_key k key = or_key_error (parse_key_combo k.to_lowercase key) >>= λ combo.
    (ok (pressed key), press_combo combo.0 combo.1)

unfoldable pub decoded : Codecs → Option Bytes → Result McpError Content
decoded k none = err base64_decode
decoded k (some bytes) = ok (plain (k.from_utf8_lossy bytes))

unfoldable pub text_of : Codecs → Option Text → Result McpError Content
text_of k none = ok (plain (codes "(clipboard empty)"))
text_of k (some b64) = decoded k (k.decode b64)

unfoldable pub clipboard_read : Codecs → McpState → ToolResult
clipboard_read k s = (text_of k s.clipboard, [])

unfoldable pub clipboard_write : Codecs → Text → ToolResult
clipboard_write k text = (ok clipboard_updated, clipboard_incoming (k.encode text) ∷ [])

unfoldable pub list_windows : McpState → ToolResult
list_windows s = (ok (plain (unwrap_or s.last_taskbar_json (codes "{\"windows\":[]}"))), [])

abbrev window_event : InputEvent → ℕ → Effect
window_event kind id = input (record default { event_type = kind; window_id = id })

unfoldable pub window_focus : ℕ → ToolResult
window_focus id = (ok (focused id), window_event InputEvent.window_focus id ∷ [])

unfoldable pub window_close : ℕ → ToolResult
window_close id = (ok (closed id), window_event InputEvent.window_close id ∷ [])
