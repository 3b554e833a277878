-- ===== src/Tests/Keys.antt =====
-- The keyboard's tables at a character and at a name.
use selkies_core.Prelude.{
  List, [], ◌∷◌, ok, refl, ℕ, ◌≡◌, some, none, false, OnSome, Text, codes, arith,
}
use selkies_core.Keyboard.{modifier_keysym, get_keysym, parse_key_combo}
use selkies_core.Keyboard.Combos.{combo, AreKnown, parse_key_combo-combo}

-- The names as they are written, in lower case.
abbrev unchanged : Text → Text
unchanged t = t

-- Ctrl+Alt+delete, in lower case.
abbrev held : List (Text × ℕ)
held = (codes "ctrl", 0xffe3) ∷ (codes "alt", 0xffe9) ∷ []

held-AreKnown : AreKnown unchanged held
unfolding modifier_keysym selkies_core.Prelude.same
held-AreKnown =
    ((refl, (refl, (refl, (refl, (refl, tt))))), ((refl, (refl, (refl, (refl, tt)))), tt))

delete-keysym : get_keysym unchanged (codes "del") ≡ some 0xffff
unfolding get_keysym selkies_core.Prelude.same
delete-keysym = refl

parse_key_combo-combo_example :
    parse_key_combo unchanged (combo held (codes "del")) ≡ ok (0xffe3 ∷ 0xffe9 ∷ [], 0xffff)
parse_key_combo-combo_example =
    parse_key_combo-combo unchanged held (codes "del") 0xffff held-AreKnown delete-keysym
      (refl, (refl, (refl, tt))) refl
