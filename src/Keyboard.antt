-- ===== src/Keyboard.antt =====
-- src/mcp/keyboard.rs: key names, combinations and the shifted characters of a US keyboard, and
-- `keysym_to_keycode` of src/main.rs. Each `match` is a table, in the order of its arms.
-- `str::to_lowercase`, which follows Unicode, is a parameter.
pub mod Typing
pub mod Combos
use selkies_core.Prelude.{
  ℕ, ◌+◌, ◌<◌, Bool, true, false, ◌&&◌, ◌||◌, List, [], ◌∷◌, Option, none, some, Text, codes, same,
  split, ltb, leb, ◌==◌, if◌then◌else◌, unwrap_or, Result, ok, err, or_fail, ◌>>=◌, last?,
}

-- The arm of a number, and of a name.
abbrev pub arm : ℕ → List (ℕ × ℕ) → Option ℕ
arm k [] = none
arm k ((a, b) ∷ rows) = if k == a then some b else arm k rows

unfoldable pub named_arm : Text → List (Text × ℕ) → Option ℕ
named_arm name [] = none
named_arm name ((a, b) ∷ rows) = if same name a then some b else named_arm name rows

abbrev pub keycodes : List (ℕ × ℕ)
keycodes =
    (0x61, 38)
    ∷ (0x41, 38)
    ∷ (0x62, 56)
    ∷ (0x42, 56)
    ∷ (0x63, 54)
    ∷ (0x43, 54)
    ∷ (0x64, 40)
    ∷ (0x44, 40)
    ∷ (0x65, 26)
    ∷ (0x45, 26)
    ∷ (0x66, 41)
    ∷ (0x46, 41)
    ∷ (0x67, 42)
    ∷ (0x47, 42)
    ∷ (0x68, 43)
    ∷ (0x48, 43)
    ∷ (0x69, 31)
    ∷ (0x49, 31)
    ∷ (0x6a, 44)
    ∷ (0x4a, 44)
    ∷ (0x6b, 45)
    ∷ (0x4b, 45)
    ∷ (0x6c, 46)
    ∷ (0x4c, 46)
    ∷ (0x6d, 58)
    ∷ (0x4d, 58)
    ∷ (0x6e, 57)
    ∷ (0x4e, 57)
    ∷ (0x6f, 32)
    ∷ (0x4f, 32)
    ∷ (0x70, 33)
    ∷ (0x50, 33)
    ∷ (0x71, 24)
    ∷ (0x51, 24)
    ∷ (0x72, 27)
    ∷ (0x52, 27)
    ∷ (0x73, 39)
    ∷ (0x53, 39)
    ∷ (0x74, 28)
    ∷ (0x54, 28)
    ∷ (0x75, 30)
    ∷ (0x55, 30)
    ∷ (0x76, 55)
    ∷ (0x56, 55)
    ∷ (0x77, 25)
    ∷ (0x57, 25)
    ∷ (0x78, 53)
    ∷ (0x58, 53)
    ∷ (0x79, 29)
    ∷ (0x59, 29)
    ∷ (0x7a, 52)
    ∷ (0x5a, 52)
    ∷ (0x30, 19)
    ∷ (0x29, 19)
    ∷ (0x31, 10)
    ∷ (0x21, 10)
    ∷ (0x32, 11)
    ∷ (0x40, 11)
    ∷ (0x33, 12)
    ∷ (0x23, 12)
    ∷ (0x34, 13)
    ∷ (0x24, 13)
    ∷ (0x35, 14)
    ∷ (0x25, 14)
    ∷ (0x36, 15)
    ∷ (0x5e, 15)
    ∷ (0x37, 16)
    ∷ (0x26, 16)
    ∷ (0x38, 17)
    ∷ (0x2a, 17)
    ∷ (0x39, 18)
    ∷ (0x28, 18)
    ∷ (0xffbe, 67)
    ∷ (0xffbf, 68)
    ∷ (0xffc0, 69)
    ∷ (0xffc1, 70)
    ∷ (0xffc2, 71)
    ∷ (0xffc3, 72)
    ∷ (0xffc4, 73)
    ∷ (0xffc5, 74)
    ∷ (0xffc6, 75)
    ∷ (0xffc7, 76)
    ∷ (0xffc8, 95)
    ∷ (0xffc9, 96)
    ∷ (0xffe1, 50)
    ∷ (0xffe2, 62)
    ∷ (0xffe3, 37)
    ∷ (0xffe4, 105)
    ∷ (0xffe9, 64)
    ∷ (0xffea, 108)
    ∷ (0xffeb, 133)
    ∷ (0xffec, 134)
    ∷ (0xffe5, 66)
    ∷ (0xff0d, 36)
    ∷ (0xff1b, 9)
    ∷ (0xff08, 22)
    ∷ (0xff09, 23)
    ∷ (0x20, 65)
    ∷ (0xffff, 119)
    ∷ (0xff63, 118)
    ∷ (0xff50, 110)
    ∷ (0xff57, 115)
    ∷ (0xff55, 112)
    ∷ (0xff56, 117)
    ∷ (0xff51, 113)
    ∷ (0xff52, 111)
    ∷ (0xff53, 114)
    ∷ (0xff54, 116)
    ∷ (0x2d, 20)
    ∷ (0x5f, 20)
    ∷ (0x3d, 21)
    ∷ (0x2b, 21)
    ∷ (0x5b, 34)
    ∷ (0x7b, 34)
    ∷ (0x5d, 35)
    ∷ (0x7d, 35)
    ∷ (0x5c, 51)
    ∷ (0x7c, 51)
    ∷ (0x3b, 47)
    ∷ (0x3a, 47)
    ∷ (0x27, 48)
    ∷ (0x22, 48)
    ∷ (0x60, 49)
    ∷ (0x7e, 49)
    ∷ (0x2c, 59)
    ∷ (0x3c, 59)
    ∷ (0x2e, 60)
    ∷ (0x3e, 60)
    ∷ (0x2f, 61)
    ∷ (0x3f, 61)
    ∷ (0xff13, 127)
    ∷ (0xff14, 78)
    ∷ (0xff61, 107)
    ∷ (0xff7f, 77)
    ∷ []

unfoldable pub keysym_to_keycode : ℕ → Option ℕ
keysym_to_keycode keysym = arm keysym keycodes

-- The shifted symbols and the keys they share.
abbrev pub shifted : List (ℕ × ℕ)
shifted =
    (126, 96)
    ∷ (33, 49)
    ∷ (64, 50)
    ∷ (35, 51)
    ∷ (36, 52)
    ∷ (37, 53)
    ∷ (94, 54)
    ∷ (38, 55)
    ∷ (42, 56)
    ∷ (40, 57)
    ∷ (41, 48)
    ∷ (95, 45)
    ∷ (43, 61)
    ∷ (123, 91)
    ∷ (125, 93)
    ∷ (124, 92)
    ∷ (58, 59)
    ∷ (34, 39)
    ∷ (60, 44)
    ∷ (62, 46)
    ∷ (63, 47)
    ∷ []

abbrev pub is_upper : ℕ → Bool
is_upper c = leb 65 c && leb c 90

abbrev pub has_arm : Option ℕ → Bool
has_arm none = false
has_arm (some k) = true

unfoldable pub char_needs_shift : ℕ → Bool
char_needs_shift c = has_arm (arm c shifted) || is_upper c

unfoldable pub get_unshifted_char : ℕ → ℕ
get_unshifted_char c = unwrap_or (arm c shifted) (if is_upper c then c + 32 else c)

-- `0x01000000 | c`: a character is below that bit.
unfoldable pub char_to_keysym : ℕ → ℕ
char_to_keysym c = if leb 32 c && leb c 126 then c else 0x01000000 + c

abbrev pub modifiers : List (Text × ℕ)
modifiers =
    (codes "ctrl", 0xffe3)
    ∷ (codes "control", 0xffe3)
    ∷ (codes "shift", 0xffe1)
    ∷ (codes "alt", 0xffe9)
    ∷ (codes "super", 0xffeb)
    ∷ (codes "meta", 0xffeb)
    ∷ (codes "cmd", 0xffeb)
    ∷ (codes "win", 0xffeb)
    ∷ []

abbrev pub key_names : List (Text × ℕ)
key_names =
    (codes "return", 0xff0d)
    ∷ (codes "enter", 0xff0d)
    ∷ (codes "tab", 0xff09)
    ∷ (codes "backspace", 0xff08)
    ∷ (codes "back", 0xff08)
    ∷ (codes "delete", 0xffff)
    ∷ (codes "del", 0xffff)
    ∷ (codes "escape", 0xff1b)
    ∷ (codes "esc", 0xff1b)
    ∷ (codes "space", 0x0020)
    ∷ (codes "home", 0xff50)
    ∷ (codes "end", 0xff57)
    ∷ (codes "pageup", 0xff55)
    ∷ (codes "page_up", 0xff55)
    ∷ (codes "pagedown", 0xff56)
    ∷ (codes "page_down", 0xff56)
    ∷ (codes "insert", 0xff63)
    ∷ (codes "up", 0xff52)
    ∷ (codes "arrowup", 0xff52)
    ∷ (codes "down", 0xff54)
    ∷ (codes "arrowdown", 0xff54)
    ∷ (codes "left", 0xff51)
    ∷ (codes "arrowleft", 0xff51)
    ∷ (codes "right", 0xff53)
    ∷ (codes "arrowright", 0xff53)
    ∷ (codes "f1", 0xffbe)
    ∷ (codes "f2", 0xffbf)
    ∷ (codes "f3", 0xffc0)
    ∷ (codes "f4", 0xffc1)
    ∷ (codes "f5", 0xffc2)
    ∷ (codes "f6", 0xffc3)
    ∷ (codes "f7", 0xffc4)
    ∷ (codes "f8", 0xffc5)
    ∷ (codes "f9", 0xffc6)
    ∷ (codes "f10", 0xffc7)
    ∷ (codes "f11", 0xffc8)
    ∷ (codes "f12", 0xffc9)
    ∷ (codes "ctrl", 0xffe3)
    ∷ (codes "control", 0xffe3)
    ∷ (codes "shift", 0xffe1)
    ∷ (codes "alt", 0xffe9)
    ∷ (codes "super", 0xffeb)
    ∷ (codes "meta", 0xffeb)
    ∷ (codes "cmd", 0xffeb)
    ∷ (codes "win", 0xffeb)
    ∷ (codes "capslock", 0xffe5)
    ∷ (codes "caps_lock", 0xffe5)
    ∷ (codes "numlock", 0xff7f)
    ∷ (codes "num_lock", 0xff7f)
    ∷ (codes "scrolllock", 0xff14)
    ∷ (codes "scroll_lock", 0xff14)
    ∷ (codes "print", 0xff61)
    ∷ (codes "printscreen", 0xff61)
    ∷ (codes "pause", 0xff13)
    ∷ (codes "menu", 0xff67)
    ∷ []

unfoldable pub modifier_keysym : (Text → Text) → Text → Option ℕ
unfolding named_arm
modifier_keysym to_lowercase name = named_arm (to_lowercase name) modifiers

unfoldable pub named_keysym : (Text → Text) → Text → Option ℕ
unfolding named_arm
named_keysym to_lowercase name = named_arm (to_lowercase name) key_names

-- A name of one byte is a character.
unfoldable pub get_keysym : (Text → Text) → Text → Option ℕ
unfolding named_keysym char_to_keysym
get_keysym to_lowercase (c ∷ []) =
    if ltb c 128 then some (char_to_keysym c) else named_keysym to_lowercase (c ∷ [])
get_keysym to_lowercase name = named_keysym to_lowercase name

pub data KeyError : Type 0 where
  empty : KeyError
  unknown_modifier : Text → KeyError
  unknown_key : Text → KeyError

-- The loop over the modifiers' names, and the key behind them.
unfoldable pub parse_names : (Text → Text) → List Text → Result KeyError (List ℕ × ℕ)
unfolding modifier_keysym get_keysym
parse_names lower [] = err KeyError.empty
parse_names lower (key ∷ []) = do
  main_sym ← or_fail (get_keysym lower key) (KeyError.unknown_key key)
  ok ([], main_sym)
parse_names lower (m ∷ n ∷ parts) = do
  sym ← or_fail (modifier_keysym lower m) (KeyError.unknown_modifier m)
  (syms, main_sym) ← parse_names lower (n ∷ parts)
  ok (sym ∷ syms, main_sym)

unfoldable pub parse_key_combo : (Text → Text) → Text → Result KeyError (List ℕ × ℕ)
unfolding parse_names
parse_key_combo lower [] = err KeyError.empty
parse_key_combo lower (c ∷ key) = parse_names lower (split 43 (c ∷ key))
