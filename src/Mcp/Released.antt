-- ===== src/Mcp/Released.antt =====
-- src/mcp/mod.rs: what a tool presses, it releases.
use selkies_core.Prelude.{
  ℕ, ◌≡◌, refl, ◌∙◌, ap, Bool, true, false, List, [], ◌∷◌, ◌++◌, Option, none, some, Text, ◌==◌,
  ==_refl, if◌then◌else◌, if-intro, Result, ok, err, ℤ, append_assoc,
}
use mathlib.Core.List.{map-append, reverse-cons}
use selkies_core.Input.{InputEvent, InputEventData}
use selkies_core.Keyboard.{char_needs_shift, parse_key_combo}
use selkies_core.Mcp.{
  Codecs, McpState, Effect, send_key, type_char, text_is_ascii_typeable, type_chars, type_text,
  type_lines, press_enter, validate_coords, button_number, click, click_with, press_combo,
  ToolResult, McpError, or_key_error, ◌>>=◌,
}
use selkies_core.Mcp
use selkies_core.Mcp.Calls.{Call, call_tool, run_calls}

-- What is held down, the last press first.
pub data Held : Type 0 where
  key button : ℕ → Held

abbrev pub release_key : ℕ → List Held → Option (List Held)
release_key k (Held.key j ∷ held) = if k == j then some held else none
release_key k _ = none

abbrev pub release_button : ℕ → List Held → Option (List Held)
release_button b (Held.button j ∷ held) = if b == j then some held else none
release_button b _ = none

abbrev pub follow_event : InputEvent → InputEventData → List Held → Option (List Held)
follow_event InputEvent.keyboard e held =
    if e.key_pressed then some (Held.key e.keysym ∷ held) else release_key e.keysym held
follow_event InputEvent.mouse_button e held =
    if e.button_pressed
    then some (Held.button e.mouse_button ∷ held)
    else release_button e.mouse_button held
follow_event _ e held = some held

-- `none`: a release of what was not pressed last.
abbrev pub follow : Effect → List Held → Option (List Held)
follow (Effect.input e) held = follow_event e.event_type e held
follow (Effect.clipboard_incoming t) held = some held

abbrev pub and_follow : (List Held → Option (List Held)) → Option (List Held) → Option (List Held)
and_follow f none = none
and_follow f (some held) = f held

unfoldable pub follow_all : List Effect → List Held → Option (List Held)
follow_all [] held = some held
follow_all (e ∷ es) held = and_follow (follow_all es) (follow e held)

abbrev IsReleased : List Effect → Type 0
IsReleased es = (held : List Held) → follow_all es held ≡ some held

follow_all-append :
    (es fs : List Effect) (held : List Held)
    → follow_all (es ++ fs) held ≡ and_follow (follow_all fs) (follow_all es held)
unfolding follow_all
follow_all-append [] fs held = refl
follow_all-append (e ∷ es) fs held =
    elim (follow e held)
      as (λ o.
        and_follow (follow_all (es ++ fs)) o
        ≡ and_follow (follow_all fs) (and_follow (follow_all es) o)) [
          | none ↦ refl
          | some held' ↦ follow_all-append es fs held'
        ]

append-IsReleased : (es fs : List Effect) → IsReleased es → IsReleased fs → IsReleased (es ++ fs)
append-IsReleased es fs h g held =
    follow_all-append es fs held ∙ ap (and_follow (follow_all fs)) (h held) ∙ g held

-- A key held around what leaves nothing held.
around-IsReleased :
    (k : ℕ) (es : List Effect)
    → IsReleased es
    → IsReleased (send_key k true ∷ (es ++ send_key k false ∷ []))
unfolding follow_all
around-IsReleased k es h held =
    follow_all-append es (send_key k false ∷ []) (Held.key k ∷ held)
    ∙ rw (h (Held.key k ∷ held), ==_refl k) refl

none-IsReleased : IsReleased []
unfolding follow_all
none-IsReleased held = refl

type_char-IsReleased : (c : ℕ) → IsReleased (type_char c)
unfolding type_char
type_char-IsReleased c =
    if-intro IsReleased (char_needs_shift c)
      (λ e. around-IsReleased _ _ (around-IsReleased _ [] none-IsReleased))
      (λ e. around-IsReleased _ [] none-IsReleased)

type_chars-IsReleased : (text : Text) → IsReleased (type_chars text)
unfolding type_chars
type_chars-IsReleased [] = none-IsReleased
type_chars-IsReleased (c ∷ text) =
    append-IsReleased _ _ (type_char-IsReleased c) (type_chars-IsReleased text)

enter-IsReleased : IsReleased press_enter
enter-IsReleased = around-IsReleased 0xff0d [] none-IsReleased

type_text-IsReleased : (text : Text) → IsReleased (type_text text)
unfolding type_text follow_all
type_text-IsReleased text =
    if-intro IsReleased (text_is_ascii_typeable text) (λ e. type_chars-IsReleased text)
      (λ e held. refl)

type_lines-IsReleased : (lines : List Text) → IsReleased (type_lines lines)
unfolding type_lines
type_lines-IsReleased [] = none-IsReleased
type_lines-IsReleased (line ∷ lines) =
    append-IsReleased (type_text line ++ press_enter) (type_lines lines)
      (append-IsReleased (type_text line) press_enter (type_text-IsReleased line) enter-IsReleased)
      (type_lines-IsReleased lines)

press_combo-cons :
    (m : ℕ) (ms : List ℕ) (k : ℕ)
    → press_combo (m ∷ ms) k ≡ send_key m true ∷ (press_combo ms k ++ send_key m false ∷ [])
unfolding press_combo
press_combo-cons m ms k = simp (reverse-cons, map-append, append_assoc)

press_combo-IsReleased : (ms : List ℕ) (k : ℕ) → IsReleased (press_combo ms k)
unfolding press_combo
press_combo-IsReleased [] k = around-IsReleased k [] none-IsReleased
press_combo-IsReleased (m ∷ ms) k =
    rw (press_combo-cons m ms k)
      (around-IsReleased m (press_combo ms k) (press_combo-IsReleased ms k))

click-IsReleased : (x y : ℤ) (b : ℕ) → IsReleased (click x y b)
unfolding click follow_all
click-IsReleased x y b held = rw (==_refl b) refl

click_with-IsReleased :
    (name : Text) (x y : ℤ) (double : Bool) (b : Option ℕ)
    → IsReleased (click_with name x y double b).1
unfolding click_with follow_all
click_with-IsReleased name x y double none = λ held. refl
click_with-IsReleased name x y true (some b) =
    append-IsReleased (click x y b) _ (click-IsReleased x y b) (click-IsReleased x y b)
click_with-IsReleased name x y false (some b) =
    append-IsReleased (click x y b) [] (click-IsReleased x y b) none-IsReleased

>>=-IsReleased {ℓ} :
    {A : Type ℓ} (r : Result McpError A) (f : A → ToolResult)
    → ((a : A) → IsReleased (f a).1)
    → IsReleased (r >>= f).1
>>=-IsReleased (err e) f h = none-IsReleased
>>=-IsReleased (ok a) f h = h a

call_tool-IsReleased : (k : Codecs) (c : Call) (s : McpState) → IsReleased (call_tool k c s).1
unfolding call_tool Mcp.mouse_move Mcp.mouse_click Mcp.mouse_scroll Mcp.keyboard_type
    Mcp.keyboard_type_multiline Mcp.keyboard_key Mcp.clipboard_read Mcp.list_windows
    Mcp.clipboard_write Mcp.window_focus Mcp.window_close follow_all
call_tool-IsReleased k (Call.mouse_move x y) s =
    >>=-IsReleased (validate_coords x y s) _ (λ _ held. refl)
call_tool-IsReleased k (Call.mouse_click name x y double) s =
    >>=-IsReleased (validate_coords x y s) _
      (λ _. click_with-IsReleased name x y double (button_number name))
call_tool-IsReleased k (Call.mouse_scroll dx dy) s = λ held. refl
call_tool-IsReleased k (Call.keyboard_type text enter) s =
    append-IsReleased (type_text text) _ (type_text-IsReleased text)
      (if-intro IsReleased enter (λ e. enter-IsReleased) (λ e. none-IsReleased))
call_tool-IsReleased k (Call.keyboard_type_multiline lines) s = type_lines-IsReleased lines
call_tool-IsReleased k (Call.keyboard_key name) s =
    >>=-IsReleased (or_key_error (parse_key_combo k.to_lowercase name)) _
      (λ combo. press_combo-IsReleased combo.0 combo.1)
call_tool-IsReleased k Call.clipboard_read s = none-IsReleased
call_tool-IsReleased k Call.list_windows s = none-IsReleased
call_tool-IsReleased k (Call.clipboard_write text) s = λ held. refl
call_tool-IsReleased k (Call.window_focus id) s = λ held. refl
call_tool-IsReleased k (Call.window_close id) s = λ held. refl

-- Whatever tools are called, also with arguments that are refused, each release is of the key or
-- the button that was pressed last and is still down, and at the end what was held before is held,
-- and nothing more.
pub run_calls-follow :
    (k : Codecs) (calls : List (Call × McpState)) (held : List Held)
    → follow_all (run_calls k calls) held ≡ some held
unfolding run_calls
run_calls-follow k [] = none-IsReleased
run_calls-follow k ((c, s) ∷ calls) =
    append-IsReleased _ _ (call_tool-IsReleased k c s) (run_calls-follow k calls)
