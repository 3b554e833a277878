-- ===== src/Keyboard/Combos.antt =====
-- `parse_key_combo` of src/mcp/keyboard.rs: combinations as they are written.
use selkies_core.Prelude.{
  ℕ, ◌≡◌, refl, ◌∙◌, ap, false, List, [], ◌∷◌, ◌++◌, map, some, Text, All, Free, is_empty, split,
  split-append, split-Free, ok,
}
use selkies_core.Keyboard.{modifier_keysym, get_keysym, parse_names, parse_key_combo}

-- `Ctrl+Alt+Delete`: the modifiers' names, each with its keysym, and the key.
abbrev pub combo : List (Text × ℕ) → Text → Text
combo [] key = key
combo ((m, sym) ∷ ms) key = m ++ 43 ∷ combo ms key

-- The names are known, with these keysyms, and hold no plus sign.
abbrev pub AreKnown : (Text → Text) → List (Text × ℕ) → Type 0
AreKnown lower ms = All (λ m. (modifier_keysym lower m.0 ≡ some m.1) × Free 43 m.0) ms

split-combo :
    (lower : Text → Text) (ms : List (Text × ℕ)) (key : Text)
    → AreKnown lower ms
    → Free 43 key
    → split 43 (combo ms key) ≡ map (λ m. m.0) ms ++ key ∷ []
split-combo lower [] key h f = split-Free 43 key f
split-combo lower ((m, sym) ∷ ms) key ((known, free), h) f =
    split-append 43 m (combo ms key) free ∙ ap (◌∷◌ m) (split-combo lower ms key h f)

parse_names-known :
    (lower : Text → Text) (ms : List (Text × ℕ)) (key : Text) (k : ℕ)
    → AreKnown lower ms
    → get_keysym lower key ≡ some k
    → parse_names lower (map (λ m. m.0) ms ++ key ∷ []) ≡ ok (map (λ m. m.1) ms, k)
unfolding parse_names
parse_names-known lower [] key k h e = rw e refl
parse_names-known lower ((m, sym) ∷ []) key k ((known, free), h) e = rw (known, e) refl
parse_names-known lower ((m, sym) ∷ (n, sym') ∷ ms) key k ((known, free), h) e =
    rw (known, parse_names-known lower ((n, sym') ∷ ms) key k h e) refl

parse_key_combo-split :
    (lower : Text → Text) (t : Text)
    → is_empty t ≡ false
    → parse_key_combo lower t ≡ parse_names lower (split 43 t)
unfolding parse_key_combo
parse_key_combo-split lower [] h = cc
parse_key_combo-split lower (c ∷ t) h = refl

combo-not-empty :
    (ms : List (Text × ℕ)) (key : Text) → is_empty key ≡ false → is_empty (combo ms key) ≡ false
combo-not-empty [] key h = h
combo-not-empty (([], sym) ∷ ms) key h = refl
combo-not-empty ((c ∷ m, sym) ∷ ms) key h = refl

-- A combination of known modifiers and a known key, none of them holding a plus sign, is read back
-- as the modifiers' keysyms, in order, and the key's.
pub parse_key_combo-combo :
    (lower : Text → Text) (ms : List (Text × ℕ)) (key : Text) (k : ℕ)
    → AreKnown lower ms
    → get_keysym lower key ≡ some k
    → Free 43 key
    → is_empty key ≡ false
    → parse_key_combo lower (combo ms key) ≡ ok (map (λ m. m.1) ms, k)
parse_key_combo-combo lower ms key k h e f some_key =
    parse_key_combo-split lower (combo ms key) (combo-not-empty ms key some_key)
    ∙ ap (parse_names lower) (split-combo lower ms key h f)
    ∙ parse_names-known lower ms key k h e
