-- ===== src/Keyboard/Typing.antt =====
-- src/mcp/keyboard.rs against `keysym_to_keycode` of src/main.rs: what can be typed.
use selkies_core.Prelude.{
  ℕ, zero, suc, ◌≡◌, inl, inr, ◌≤◌, ◌<◌, refl, sym, ap, Bool, true, false, not, ◌&&◌, ◌||◌, List,
  [], ◌∷◌, Option, none, some, OnSome, Text, is_some, same, ltb, ◌==◌, ==_iff, if-intro, Bool-cases,
  arith,
}
use selkies_core.Keyboard.{
  keysym_to_keycode, char_needs_shift, get_unshifted_char, char_to_keysym, named_arm, key_names,
  named_keysym,
}

abbrev same_code : Option ℕ → Option ℕ → Bool
same_code (some a) (some b) = a == b
same_code _ _ = false

-- The character has a key, its unshifted form is on the same key and needs no shift, and is the
-- character itself when that needs none.
unfoldable pub is_typeable : ℕ → Bool
is_typeable c =
    let base = get_unshifted_char c in
    same_code (keysym_to_keycode (char_to_keysym c)) (keysym_to_keycode (char_to_keysym base))
    && not (char_needs_shift base)
    && (char_needs_shift c || base == c)

all_below : (ℕ → Bool) → ℕ → Bool
all_below test zero = true
all_below test (suc n) = test n && all_below test n

all_below_lem : (test : ℕ → Bool) (n c : ℕ) → all_below test n ≡ true → c < n → test c ≡ true
unfolding all_below
all_below_lem test zero c h lt = absurd (omega arith)
all_below_lem test (suc n) c h lt = elim (Bool-cases (c == n)) [
  | inl e ↦ let at : c ≡ n = (==_iff c n).0 e in rw at (ground arith)
  | inr e ↦ all_below_lem test n c (ground arith) (ground arith)
]

table : all_below (λ c. ltb c 32 || is_typeable c) 127 ≡ true
unfolding all_below is_typeable keysym_to_keycode char_needs_shift get_unshifted_char char_to_keysym
table = refl

same_code-some : (a b : Option ℕ) → same_code a b ≡ true → (k : ℕ) × (a ≡ some k) × (b ≡ some k)
same_code-some none none h = cc
same_code-some none (some y) h = cc
same_code-some (some x) none h = cc
same_code-some (some x) (some y) h = (x, refl, ap some (sym ((==_iff x y).0 h)))

-- Every printable ASCII character can be typed: it has a key; its unshifted form is on the same
-- key and needs no shift; and a character that needs no shift is its own unshifted form.
pub char_to_keysym-typeable :
    (c : ℕ)
    → 32 ≤ c
    → c ≤ 126
    → ((k : ℕ) × (keysym_to_keycode (char_to_keysym c) ≡ some k)
        × (keysym_to_keycode (char_to_keysym (get_unshifted_char c)) ≡ some k))
      × (char_needs_shift (get_unshifted_char c) ≡ false)
      × (char_needs_shift c ≡ false → get_unshifted_char c ≡ c)
unfolding is_typeable
char_to_keysym-typeable c lo hi =
    let base = get_unshifted_char c in
    let both : (ltb c 32 || is_typeable c) ≡ true =
      all_below_lem (λ c. ltb c 32 || is_typeable c) 127 c table (omega arith) in
    let low : ltb c 32 ≡ false = ground arith in
    let typeable : is_typeable c ≡ true = ground arith in
    let code : same_code (keysym_to_keycode (char_to_keysym c))
          (keysym_to_keycode (char_to_keysym base))
        ≡ true =
      ground arith in
    let plain : char_needs_shift base ≡ false = ground arith in
    let itself : (char_needs_shift c || base == c) ≡ true = ground arith in
    (same_code-some _ _ code, plain, λ e. (==_iff base c).0 (ground arith))

-- A keysym with a key, or that of the menu key.
abbrev pub HasKey : ℕ → Type 0
HasKey k = (is_some (keysym_to_keycode k) || k == 0xff67) ≡ true

all_keys : List (Text × ℕ) → Bool
all_keys [] = true
all_keys ((a, k) ∷ rows) = (is_some (keysym_to_keycode k) || k == 0xff67) && all_keys rows

named_arm-HasKey :
    (name : Text) (rows : List (Text × ℕ))
    → all_keys rows ≡ true
    → OnSome HasKey (named_arm name rows)
unfolding all_keys named_arm
named_arm-HasKey name [] h = tt
named_arm-HasKey name ((a, k) ∷ rows) h =
    if-intro (OnSome HasKey) (same name a) (λ e. ground arith)
      (λ e. named_arm-HasKey name rows (ground arith))

key_names-all : all_keys key_names ≡ true
unfolding all_keys keysym_to_keycode
key_names-all = refl

-- Every named key that is known has a keysym that has a key, but for one: the keysym of the menu
-- key, 0xff67, has none.
pub named_keysym-HasKey :
    (lower : Text → Text) (name : Text)
    → OnSome HasKey (named_keysym lower name) × (keysym_to_keycode 0xff67 ≡ none)
unfolding named_keysym keysym_to_keycode
named_keysym-HasKey lower name = (named_arm-HasKey (lower name) key_names key_names-all, refl)
