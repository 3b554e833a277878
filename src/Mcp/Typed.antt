-- ===== src/Mcp/Typed.antt =====
-- src/mcp/mod.rs: what the tools type, read back through the compositor's table of keycodes with a
-- US keyboard.
use selkies_core.Prelude.{
  same, same_iff, ◌+◌, ℕ, zero, suc, ◌≡◌, ◌<◌, refl, ◌∙◌, ap, Bool, true, false, not, ◌&&◌, ◌||◌,
  List, [], ◌∷◌, ◌++◌, Option, none, some, Text, codes, ltb, ◌==◌, ==_iff, if◌then◌else◌,
  Bool-cases, inl, inr, arith, append_assoc, append-nil, sym,
}
use selkies_core.Input.{InputEvent, InputEventData}
use selkies_core.Keyboard.{keysym_to_keycode, char_needs_shift, get_unshifted_char, char_to_keysym}
use selkies_core.Mcp.{
  Effect, send_key, type_char, text_is_ascii_typeable, type_chars, type_text, type_lines,
  press_enter, keyboard_type, keyboard_type_multiline,
}

-- The rows of a US keyboard: the first keycode, and the characters without and with Shift.
abbrev pub rows : List (ℕ × Text × Text)
rows =
    (10, codes "1234567890-=", codes "!@#$%^&*()_+")
    ∷ (24, codes "qwertyuiop[]", codes "QWERTYUIOP{}")
    ∷ (38, codes "asdfghjkl;'`", codes "ASDFGHJKL:\"~")
    ∷ (51, codes "\\zxcvbnm,./", codes "|ZXCVBNM<>?")
    ∷ (65, codes " ", codes " ")
    ∷ (36, 10 ∷ [], 10 ∷ [])
    ∷ []

unfoldable pub at_place : ℕ → ℕ → Text → Text
at_place code first [] = []
at_place code first (c ∷ cs) = if code == first then c ∷ [] else at_place code (first + 1) cs

unfoldable pub typed_by : Bool → ℕ → List (ℕ × Text × Text) → Text
typed_by shift code [] = []
typed_by shift code ((first, plain, shifted) ∷ more) =
    at_place code first (if shift then shifted else plain) ++ typed_by shift code more

-- Whether Shift is down, and the text so far.
abbrev pub hear_key : Option ℕ → Bool → Bool × Text → Bool × Text
hear_key none pressed (shift, text) = (shift, text)
hear_key (some code) pressed (shift, text) =
    if code == 50
    then (pressed, text)
    else (shift, text ++ (if pressed then typed_by shift code rows else []))

abbrev pub hear_event : InputEvent → InputEventData → Bool × Text → Bool × Text
hear_event InputEvent.keyboard e heard = hear_key (keysym_to_keycode e.keysym) e.key_pressed heard
hear_event InputEvent.text_input e heard = (heard.0, heard.1 ++ e.text)
hear_event _ e heard = heard

abbrev pub hear : Effect → Bool × Text → Bool × Text
hear (Effect.input e) heard = hear_event e.event_type e heard
hear (Effect.clipboard_incoming t) heard = heard

unfoldable pub hear_all : List Effect → Bool × Text → Bool × Text
hear_all [] heard = heard
hear_all (e ∷ es) heard = hear_all es (hear e heard)

hear_all-append :
    (es fs : List Effect) (heard : Bool × Text)
    → hear_all (es ++ fs) heard ≡ hear_all fs (hear_all es heard)
unfolding hear_all
hear_all-append [] fs heard = refl
hear_all-append (e ∷ es) fs heard = hear_all-append es fs (hear e heard)

-- What is typed is the text, and Shift is up before and after.
abbrev Types : List Effect → Text → Type 0
Types es text = (before : Text) → hear_all es (false, before) ≡ (false, before ++ text)

append-Types :
    (es fs : List Effect) (text more : Text)
    → Types es text
    → Types fs more
    → Types (es ++ fs) (text ++ more)
append-Types es fs text more h g before =
    hear_all-append es fs (false, before)
    ∙ ap (hear_all fs) (h before)
    ∙ g (before ++ text)
    ∙ ap (λ t. (false, t)) (append_assoc before text more)

none-Types : Types [] []
unfolding hear_all
none-Types before = ap (λ t. (false, t)) (sym (append-nil before))

-- The key of a character: not Shift's, and it types the character with Shift held as needed.
abbrev key_types : ℕ → Bool → Option ℕ → Bool
key_types c shift none = false
key_types c shift (some code) = not (code == 50) && same (typed_by shift code rows) (c ∷ [])

unfoldable pub is_typed : ℕ → Bool
is_typed c =
    let shift = char_needs_shift c in
    key_types c shift
      (keysym_to_keycode (char_to_keysym (if shift then get_unshifted_char c else c)))

all_below : (ℕ → Bool) → ℕ → Bool
all_below test zero = true
all_below test (suc n) = test n && all_below test n

table : all_below (λ c. ltb c 32 || is_typed c) 127 ≡ true
unfolding all_below is_typed keysym_to_keycode char_needs_shift get_unshifted_char char_to_keysym
    typed_by at_place same
table = refl

all_below_lem : (test : ℕ → Bool) (n c : ℕ) → all_below test n ≡ true → c < n → test c ≡ true
unfolding all_below
all_below_lem test zero c h lt = absurd (omega arith)
all_below_lem test (suc n) c h lt = elim (Bool-cases (c == n)) [
  | inl e ↦ let at : c ≡ n = (==_iff c n).0 e in rw at (ground arith)
  | inr e ↦ all_below_lem test n c (ground arith) (ground arith)
]

hear_key-types :
    (c : ℕ) (shift : Bool) (o : Option ℕ) (before : Text)
    → key_types c shift o ≡ true
    → (hear_key o true (shift, before) ≡ (shift, before ++ c ∷ []))
      × (hear_key o false (shift, before) ≡ (shift, before))
hear_key-types c shift none before h = cc
hear_key-types c shift (some code) before h =
    let other : (code == 50) ≡ false = ground arith in
    let types : typed_by shift code rows ≡ c ∷ [] = (same_iff _ _).0 (ground arith) in
    (rw (other, types) refl, rw (other, append-nil before) refl)

tap-types :
    (c k : ℕ) (shift : Bool) (before : Text) (more : List Effect)
    → key_types c shift (keysym_to_keycode k) ≡ true
    → hear_all (send_key k true ∷ send_key k false ∷ more) (shift, before)
      ≡ hear_all more (shift, before ++ c ∷ [])
unfolding hear_all
tap-types c k shift before more h =
    ap (λ t. hear_all (send_key k false ∷ more) t)
      (hear_key-types c shift (keysym_to_keycode k) before h).0
    ∙ ap (λ t. hear_all more t)
        (hear_key-types c shift (keysym_to_keycode k) (before ++ c ∷ []) h).1

type_char-Types : (c : ℕ) → is_typed c ≡ true → Types (type_char c) (c ∷ [])
unfolding type_char is_typed hear_all keysym_to_keycode
type_char-Types c h before = elim (Bool-cases (char_needs_shift c)) [
  | inl e ↦ rw e (
      tap-types c (char_to_keysym (get_unshifted_char c)) true before (send_key 0xffe1 false ∷ [])
        (rw e at h))
  | inr e ↦ rw e (tap-types c (char_to_keysym c) false before [] (rw e at h))
]

type_chars-Types : (text : Text) → text_is_ascii_typeable text ≡ true → Types (type_chars text) text
unfolding type_chars text_is_ascii_typeable hear_all
type_chars-Types [] h = none-Types
type_chars-Types (c ∷ text) h =
    let both : (ltb c 32 || is_typed c) ≡ true =
      all_below_lem (λ c. ltb c 32 || is_typed c) 127 c table (ground arith) in
    append-Types (type_char c) (type_chars text) (c ∷ []) text (type_char-Types c (ground arith))
      (type_chars-Types text (ground arith))

type_text-Types : (text : Text) → Types (type_text text) text
unfolding type_text hear_all
type_text-Types text = elim (Bool-cases (text_is_ascii_typeable text)) [
  | inl e ↦ rw e (type_chars-Types text e)
  | inr e ↦ rw e (λ before. refl)
]

enter-Types : Types press_enter (10 ∷ [])
unfolding hear_all keysym_to_keycode typed_by at_place
enter-Types before = ap (λ t. (false, t)) (append-nil (before ++ 10 ∷ []))

enter_if-Types :
    (enter : Bool) → Types (if enter then press_enter else []) (if enter then 10 ∷ [] else [])
enter_if-Types true = enter-Types
enter_if-Types false = none-Types

-- The lines, each ended by a line feed.
abbrev pub ended : List Text → Text
ended [] = []
ended (line ∷ lines) = (line ++ 10 ∷ []) ++ ended lines

type_lines-Types : (lines : List Text) → Types (type_lines lines) (ended lines)
unfolding type_lines hear_all
type_lines-Types [] = none-Types
type_lines-Types (line ∷ lines) =
    append-Types (type_text line ++ press_enter) (type_lines lines) (line ++ 10 ∷ []) (ended lines)
      (append-Types (type_text line) press_enter line (10 ∷ []) (type_text-Types line) enter-Types)
      (type_lines-Types lines)

-- Any text that is typed, whatever its characters, reaches a focused program as that text, with a
-- line feed behind it if Enter is asked for, and lines reach it as those lines, each ended by a
-- line feed: read through the compositor's keycodes on a US keyboard, or as text input. Shift is up
-- again at the end.
pub hear_all-typed :
    (text : Text) (enter : Bool) (lines : List Text) (before : Text)
    → (hear_all (keyboard_type text enter).1 (false, before)
        ≡ (false, before ++ (text ++ (if enter then 10 ∷ [] else []))))
      × (hear_all (keyboard_type_multiline lines).1 (false, before)
          ≡ (false, before ++ ended lines))
unfolding keyboard_type keyboard_type_multiline
hear_all-typed text enter lines before = (
  append-Types (type_text text) _ text _ (type_text-Types text) (enter_if-Types enter) before,
  type_lines-Types lines before,
)
