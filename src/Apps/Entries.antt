-- ===== src/Apps/Entries.antt =====
-- src/pake_apps/process.rs: lemmas on the entries of the process manager.
use selkies_core.Prelude.{
  ℕ, ◌≡◌, refl, Bool, true, false, ◌||◌, List, [], ◌∷◌, Option, none, some, Text, same, same_iff,
  same_refl, ◌==◌, arith, Bool-cases, inl, inr, ==_iff, ==_refl, ap, if-intro, All,
}
use selkies_core.Apps.Process.{
  lookup, remove, contains, erase, is_alive, ended, retained, crashed_ids,
}

abbrev pub is_none {ℓ} : {A : Type ℓ} → Option A → Bool
is_none none = true
is_none (some a) = false

pub is_none-eq {ℓ} : {A : Type ℓ} (o : Option A) → is_none o ≡ true → o ≡ none
is_none-eq none h = refl
is_none-eq (some a) h = cc

-- An id has one entry.
abbrev pub IsUnique : List (Text × ℕ) → Type 0
IsUnique [] = Unit
IsUnique ((a, p) ∷ rows) = (lookup a rows ≡ none) × IsUnique rows

unfoldable pub is_tracked : ℕ → List (Text × ℕ) → Bool
is_tracked pid [] = false
is_tracked pid ((a, p) ∷ rows) = pid == p || is_tracked pid rows

pub lookup-remove : (id : Text) (rows : List (Text × ℕ)) → lookup id (remove id rows) ≡ none
unfolding lookup remove
lookup-remove id [] = refl
lookup-remove id ((a, p) ∷ rows) = ground (arith, lookup-remove id rows)

pub lookup-remove-none :
    (id j : Text) (rows : List (Text × ℕ))
    → lookup id rows ≡ none
    → lookup id (remove j rows) ≡ none
unfolding lookup remove
lookup-remove-none id j [] h = refl
lookup-remove-none id j ((a, p) ∷ rows) h = ground (arith, lookup-remove-none id j rows)

pub remove-IsUnique :
    (id : Text) (rows : List (Text × ℕ)) → IsUnique rows → IsUnique (remove id rows)
unfolding remove
remove-IsUnique id [] h = tt
remove-IsUnique id ((a, p) ∷ rows) h =
    if-intro IsUnique (same id a) (λ e. remove-IsUnique id rows h.1)
      (λ e. (lookup-remove-none a id rows h.0, remove-IsUnique id rows h.1))

pub remove-absent :
    (id : Text) (rows : List (Text × ℕ)) → lookup id rows ≡ none → remove id rows ≡ rows
unfolding lookup remove
remove-absent id [] h = refl
remove-absent id ((a, p) ∷ rows) h = ground (arith, remove-absent id rows)

pub is_tracked-remove :
    (q : ℕ) (id : Text) (p : ℕ) (rows : List (Text × ℕ))
    → IsUnique rows
    → lookup id rows ≡ some p
    → (q == p) ≡ false
    → is_tracked q rows ≡ true
    → is_tracked q (remove id rows) ≡ true
unfolding lookup remove is_tracked
is_tracked-remove q id p [] u h e t = t
is_tracked-remove q id p ((a, r) ∷ rows) u h e t = elim (Bool-cases (same id a)) [
  | inl at ↦
      let is_a : id ≡ a = (same_iff id a).0 at in
      let gone : remove id rows ≡ rows = remove-absent id rows (rw is_a u.0) in
      rw (at, gone) (ground arith)
  | inr other ↦ rw other (ground (arith, is_tracked-remove q id p rows u.1))
]

pub is_alive-ended :
    (q p : ℕ) (alive : List ℕ)
    → is_alive q (ended p alive) ≡ true
    → ((q == p) ≡ false) × (is_alive q alive ≡ true)
unfolding is_alive ended
is_alive-ended q p [] h = cc
is_alive-ended q p (r ∷ alive) h = ground (arith, is_alive-ended q p alive)

pub contains-erase : (id : Text) (ids : List Text) → contains id (erase id ids) ≡ false
unfolding contains erase
contains-erase id [] = refl
contains-erase id (a ∷ ids) = ground (arith, contains-erase id ids)

pub contains-erase_sub :
    (j id : Text) (ids : List Text) → contains j (erase id ids) ≡ true → contains j ids ≡ true
unfolding contains erase
contains-erase_sub j id [] h = h
contains-erase_sub j id (a ∷ ids) h = ground (arith, contains-erase_sub j id ids)

-- The ids to launch have no entry and are different.
abbrev pub IsReady : List (Text × ℕ) → List Text → Type 0
IsReady rows [] = Unit
IsReady rows (c ∷ cs) = (lookup c rows ≡ none) × All (λ d. same d c ≡ false) cs × IsReady rows cs

pub cons-IsReady :
    (a : Text) (p : ℕ) (rows : List (Text × ℕ)) (cs : List Text)
    → All (λ c. same c a ≡ false) cs
    → IsReady rows cs
    → IsReady ((a, p) ∷ rows) cs
unfolding lookup
cons-IsReady a p rows [] h r = tt
cons-IsReady a p rows (c ∷ cs) (other, h) (absent, distinct, r) =
    (rw other absent, distinct, cons-IsReady a p rows cs h r)

pub same_sym : (s t : Text) → same s t ≡ false → same t s ≡ false
same_sym s t h = elim (Bool-cases (same t s)) [
  | inl e ↦ let at : t ≡ s = (same_iff t s).0 e in absurd (cc (ap (λ u. same u t) at, same_refl t))
  | inr e ↦ e
]

pub crashed_ids-fresh :
    (a : Text) (alive : List ℕ) (ids : List Text) (rows : List (Text × ℕ))
    → lookup a rows ≡ none
    → All (λ c. same c a ≡ false) (crashed_ids alive ids rows)
unfolding lookup crashed_ids
crashed_ids-fresh a alive ids [] h = tt
crashed_ids-fresh a alive ids ((b, p) ∷ rows) h =
    let other : same a b ≡ false = ground arith in
    let rest = crashed_ids-fresh a alive ids rows (ground arith) in
    if-intro (All (λ c. same c a ≡ false)) (is_alive p alive || contains b ids) (λ e. rest)
      (λ e. (same_sym a b other, rest))

pub lookup-retained :
    (a : Text) (alive : List ℕ) (rows : List (Text × ℕ))
    → lookup a rows ≡ none
    → lookup a (retained alive rows) ≡ none
unfolding lookup retained
lookup-retained a alive [] h = refl
lookup-retained a alive ((b, p) ∷ rows) h = ground (arith, lookup-retained a alive rows)

pub retained-IsUnique :
    (alive : List ℕ) (rows : List (Text × ℕ)) → IsUnique rows → IsUnique (retained alive rows)
unfolding retained
retained-IsUnique alive [] u = tt
retained-IsUnique alive ((a, p) ∷ rows) u =
    let rest = retained-IsUnique alive rows u.1 in
    if-intro IsUnique (is_alive p alive) (λ e. (lookup-retained a alive rows u.0, rest)) (λ e. rest)

pub is_tracked-retained :
    (q : ℕ) (alive : List ℕ) (rows : List (Text × ℕ))
    → is_alive q alive ≡ true
    → is_tracked q rows ≡ true
    → is_tracked q (retained alive rows) ≡ true
unfolding is_tracked retained
is_tracked-retained q alive [] live h = h
is_tracked-retained q alive ((a, p) ∷ rows) live h = elim (Bool-cases (q == p)) [
  | inl e ↦ let at : q ≡ p = (==_iff q p).0 e in rw (← at) (rw live (rw (==_refl q) refl))
  | inr e ↦ ground (arith, is_tracked-retained q alive rows live)
]

pub crashed_ids-IsReady :
    (alive : List ℕ) (ids : List Text) (rows : List (Text × ℕ))
    → IsUnique rows
    → IsReady (retained alive rows) (crashed_ids alive ids rows)
unfolding retained crashed_ids
crashed_ids-IsReady alive ids [] u = tt
crashed_ids-IsReady alive ids ((a, p) ∷ rows) (absent, u) =
    let rest = crashed_ids-IsReady alive ids rows u in
    elim (Bool-cases (is_alive p alive)) [
      | inl live ↦ rw live (
          cons-IsReady a p (retained alive rows) (crashed_ids alive ids rows)
            (crashed_ids-fresh a alive ids rows absent) rest)
      | inr dead ↦ rw dead (
          if-intro (IsReady (retained alive rows)) (contains a ids) (λ e. rest)
            (λ e. (
              lookup-retained a alive rows absent,
              crashed_ids-fresh a alive ids rows absent,
              rest,
            )))
    ]
