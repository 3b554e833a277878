-- ===== src/Prelude/Strings.antt =====
-- Rust's `str` as the list of its characters' code points, with the operations of the standard
-- library that the program uses. A pattern in the source is an ASCII literal, so that walking
-- characters and walking bytes agree.
use Prim.Native.Nat.{ℕ, zero, suc, ◌+◌}
use Prim.Native.Char.{code}
use Prim.Native.String.{String}
use mathlib.Core.Path.{◌≡◌, refl, ap, ◌∙◌, sym}
use mathlib.Core.Logic.{◌↔◌, inl, inr}
use mathlib.Core.Bool.{Bool, true, false, ◌&&◌, ◌||◌, not}
use mathlib.Core.Option.{Option, none, some}
use mathlib.Core.List.{List, [], ◌∷◌, ◌++◌, map, reverse, reverse-reverse, reverse-cons}
use native.Mathlib.Omega.{arith}
use selkies_core.Prelude.Tests.{leb, ◌==◌, if◌then◌else◌, ==_refl, ==_iff, Bool-cases, Option-cases}
use selkies_core.Prelude.Lists.{length, All, All-reverse}
use selkies_core.Prelude.Results.{is_some}

abbrev pub Text : Type 0
Text = List ℕ

-- The characters of a literal.
abbrev pub codes : String → Text
codes String.[] = []
codes (String.◌∷◌ c s) = code c ∷ codes s

-- `==` on texts.
unfoldable pub same : Text → Text → Bool
same [] [] = true
same (x ∷ xs) (y ∷ ys) = x == y && same xs ys
same _ _ = false

pub same_iff : (s t : Text) → (same s t ≡ true) ↔ (s ≡ t)
unfolding same
same_iff (x ∷ s) (y ∷ t) = ground (arith, same_iff s t)
same_iff _ _ = ground arith

pub same_refl : (s : Text) → same s s ≡ true
same_refl s = (same_iff s s).1 refl

unfoldable pub strip_prefix : Text → Text → Option Text
strip_prefix s [] = some s
strip_prefix [] (y ∷ p) = none
strip_prefix (x ∷ s) (y ∷ p) = if x == y then strip_prefix s p else none

unfoldable pub starts_with : Text → Text → Bool
unfolding strip_prefix
starts_with s p = is_some (strip_prefix s p)

pub strip_prefix-append : (p s : Text) → strip_prefix (p ++ s) p ≡ some s
unfolding strip_prefix
strip_prefix-append [] s = refl
strip_prefix-append (x ∷ p) s = ground (arith, strip_prefix-append p s)

pub starts_with-append : (p s : Text) → starts_with (p ++ s) p ≡ true
unfolding starts_with
starts_with-append p s = ap is_some (strip_prefix-append p s)

-- `s.trim_start_matches(p)`: the prefix is taken off as often as it stands there. The pattern is
-- not empty, so the length of the text is fuel enough.
trim_fuel : ℕ → Text → Text → Text
trim_fuel zero s p = s
trim_fuel (suc fuel) s p = elim (strip_prefix s p) [ none ↦ s | some rest ↦ trim_fuel fuel rest p ]

unfoldable pub trim_start_matches : Text → Text → Text
unfolding trim_fuel strip_prefix
trim_start_matches s p = trim_fuel (length s) s p

trim_fuel-stop : (n : ℕ) (s p : Text) → strip_prefix s p ≡ none → trim_fuel n s p ≡ s
unfolding trim_fuel
trim_fuel-stop zero s p h = refl
trim_fuel-stop (suc n) s p h = rw (h, trim_fuel) refl

-- A prefix that stands there once is taken off, and no more.
pub trim_start_matches-append :
    (c : ℕ) (p s : Text)
    → strip_prefix s (c ∷ p) ≡ none
    → trim_start_matches ((c ∷ p) ++ s) (c ∷ p) ≡ s
unfolding trim_start_matches
trim_start_matches-append c p s h =
    rw (trim_start_matches, trim_fuel, strip_prefix-append (c ∷ p) s, trim_fuel)
      (trim_fuel-stop (length (p ++ s)) s (c ∷ p) h)

abbrev within : ℕ → ℕ → ℕ → Bool
within lo hi c = leb lo c && leb c hi

-- `char::is_whitespace`, the Unicode property White_Space.
unfoldable pub is_whitespace : ℕ → Bool
is_whitespace c =
    within 0x09 0x0d c
    || c == 0x20
    || c == 0x85
    || c == 0xa0
    || c == 0x1680
    || within 0x2000 0x200a c
    || c == 0x2028
    || c == 0x2029
    || c == 0x202f
    || c == 0x205f
    || c == 0x3000

-- `s.trim_start_matches(test)` for a test on characters.
unfoldable pub trim_start_while : (ℕ → Bool) → Text → Text
trim_start_while test [] = []
trim_start_while test (c ∷ s) = if test c then trim_start_while test s else c ∷ s

unfoldable pub trim : Text → Text
unfolding trim_start_while is_whitespace
trim s = reverse (trim_start_while is_whitespace (reverse (trim_start_while is_whitespace s)))

abbrev pub cons_head : ℕ → List Text → List Text
cons_head c [] = (c ∷ []) ∷ []
cons_head c (p ∷ ps) = (c ∷ p) ∷ ps

-- `s.split(c)`; never empty.
unfoldable pub split : ℕ → Text → List Text
split c [] = [] ∷ []
split c (x ∷ s) = let rest = split c s in if x == c then [] ∷ rest else cons_head x rest

-- `s.split_once(c)`.
unfoldable pub split_once : ℕ → Text → Option (Text × Text)
split_once c [] = none
split_once c (x ∷ s) =
    let rest = split_once c s in
    if x == c then some ([], s) else elim rest [ none ↦ none | some (a, b) ↦ some (x ∷ a, b) ]

-- `parts.join(",")`.
unfoldable pub join : ℕ → List Text → Text
join c [] = []
join c (p ∷ []) = p
join c (p ∷ q ∷ ps) = p ++ (c ∷ join c (q ∷ ps))

pub split-cons : (c : ℕ) (s : Text) → (p : Text) × (ps : List Text) × (split c s ≡ p ∷ ps)
unfolding split
split-cons c [] = ([], [], refl)
split-cons c (x ∷ s) =
    let (p, ps, e) = split-cons c s in
    elim (x == c)
      as (λ b.
        (q : Text) × (qs : List Text) × ((if b then [] ∷ split c s else cons_head x (split c s))
          ≡ q ∷ qs)) [ true ↦ ([], split c s, refl) | false ↦ (x ∷ p, ps, ground (arith, e)) ]

join-cons_head : (c x : ℕ) (p : Text) (ps : List Text) → join c ((x ∷ p) ∷ ps) ≡ x ∷ join c (p ∷ ps)
unfolding join
join-cons_head c x p [] = refl
join-cons_head c x p (q ∷ ps) = refl

join_empty : (c : ℕ) (p : Text) (ps : List Text) → join c ([] ∷ p ∷ ps) ≡ c ∷ join c (p ∷ ps)
unfolding join
join_empty c p ps = refl

-- Joining the parts of a text gives the text.
pub join-split : (c : ℕ) (s : Text) → join c (split c s) ≡ s
unfolding split
join-split c [] = unfold join in refl
join-split c (x ∷ s) =
    let (p, ps, e) = split-cons c s in
    let ih = join-split c s in
    ground (arith, e, ih, join-cons_head c x p ps, join_empty c p ps, ==_iff x c)

-- The character does not stand in the text.
abbrev pub Free : ℕ → Text → Type 0
Free c [] = Unit
Free c (x ∷ s) = ((x == c) ≡ false) × Free c s

-- A first part with no separator is split off as it stands.
pub split-append : (c : ℕ) (p s : Text) → Free c p → split c (p ++ (c ∷ s)) ≡ p ∷ split c s
unfolding split
split-append c [] s h = rw (==_refl c)
split-append c (x ∷ p) s h = rw (h.0, split-append c p s h.1)

pub split-Free : (c : ℕ) (p : Text) → Free c p → split c p ≡ p ∷ []
unfolding split
split-Free c [] h = refl
split-Free c (x ∷ p) h = rw (h.0, split-Free c p h.1)

pub split_once-append : (c : ℕ) (p s : Text) → Free c p → split_once c (p ++ (c ∷ s)) ≡ some (p, s)
unfolding split_once
split_once-append c [] s h = rw (==_refl c)
split_once-append c (x ∷ p) s h = rw (h.0, split_once-append c p s h.1)

-- `str::to_ascii_lowercase`.
unfoldable pub to_ascii_lowercase : Text → Text
to_ascii_lowercase s = map (λ c. if leb 65 c && leb c 90 then c + 32 else c) s

-- `eq_ignore_ascii_case`.
abbrev pub eq_ignore_ascii_case : Text → Text → Bool
eq_ignore_ascii_case s t = same (to_ascii_lowercase s) (to_ascii_lowercase t)

abbrev pub is_empty {ℓ} : {A : Type ℓ} → List A → Bool
is_empty [] = true
is_empty (x ∷ xs) = false

-- A prefix that ends in a character which the text lacks does not stand there.
pub strip_prefix-Free : (c : ℕ) (p s : Text) → Free c s → strip_prefix s (p ++ c ∷ []) ≡ none
unfolding strip_prefix
strip_prefix-Free c [] [] f = refl
strip_prefix-Free c [] (x ∷ s) f = ground arith
strip_prefix-Free c (y ∷ p) [] f = refl
strip_prefix-Free c (y ∷ p) (x ∷ s) f = ground (arith, strip_prefix-Free c p s f.1)

trim_start_while-none :
    (test : ℕ → Bool) (s : Text) → All (λ c. test c ≡ false) s → trim_start_while test s ≡ s
unfolding trim_start_while
trim_start_while-none test [] h = refl
trim_start_while-none test (c ∷ s) h = rw (h.0) refl

-- A text without white space is its own trimming.
pub trim-none : (s : Text) → All (λ c. is_whitespace c ≡ false) s → trim s ≡ s
unfolding trim
trim-none s h =
    rw
      (
        trim_start_while-none is_whitespace s h,
        trim_start_while-none is_whitespace (reverse s)
            (All-reverse (λ c. is_whitespace c ≡ false) s h),
      )
      (reverse-reverse s)

-- What stands behind a prefix, and around a separator, read backwards.
pub strip_prefix-some : (s p r : Text) → strip_prefix s p ≡ some r → s ≡ p ++ r
unfolding strip_prefix
strip_prefix-some s [] r h = cc
strip_prefix-some [] (y ∷ p) r h = cc
strip_prefix-some (x ∷ s) (y ∷ p) r h = elim (Bool-cases (x == y)) [
  | inl e ↦
      let same_char : x ≡ y = (==_iff x y).0 e in
      let opened : (if x == y then strip_prefix s p else none) ≡ strip_prefix s p = rw e refl in
      rw (same_char, strip_prefix-some s p r (sym opened ∙ h)) refl
  | inr e ↦ let shut : (if x == y then strip_prefix s p else none) ≡ none = rw e refl in cc
]

pub starts_with-some : (s p : Text) → starts_with s p ≡ true → (r : Text) × (s ≡ p ++ r)
unfolding starts_with
starts_with-some s p h = elim (Option-cases (strip_prefix s p)) [
  | inl e ↦ let no : is_some (strip_prefix s p) ≡ false = rw e refl in cc
  | inr (r, e) ↦ (r, strip_prefix-some s p r e)
]

-- Not all of the characters are white space.
abbrev pub has_visible : Text → Bool
has_visible [] = false
has_visible (c ∷ s) = not (is_whitespace c) || has_visible s

has_visible-append : (s t : Text) → has_visible (s ++ t) ≡ (has_visible s || has_visible t)
has_visible-append [] t = refl
has_visible-append (c ∷ s) t = ground (arith, has_visible-append s t)

has_visible-reverse : (s : Text) → has_visible (reverse s) ≡ has_visible s
has_visible-reverse [] = refl
has_visible-reverse (c ∷ s) =
    rw (reverse-cons c s, has_visible-append (reverse s) (c ∷ []))
      (ground (arith, has_visible-reverse s))

has_visible-trim_start : (s : Text) → has_visible (trim_start_while is_whitespace s) ≡ has_visible s
unfolding trim_start_while
has_visible-trim_start [] = refl
has_visible-trim_start (c ∷ s) = ground (arith, has_visible-trim_start s)

is_empty-trim_start : (s : Text) → is_empty (trim_start_while is_whitespace s) ≡ not (has_visible s)
unfolding trim_start_while
is_empty-trim_start [] = refl
is_empty-trim_start (c ∷ s) = ground (arith, is_empty-trim_start s)

is_empty-snoc : (s : Text) (c : ℕ) → is_empty (s ++ c ∷ []) ≡ false
is_empty-snoc [] c = refl
is_empty-snoc (x ∷ s) c = refl

is_empty-reverse : (s : Text) → is_empty (reverse s) ≡ is_empty s
is_empty-reverse [] = refl
is_empty-reverse (c ∷ s) = rw (reverse-cons c s) (is_empty-snoc (reverse s) c)

-- A text is trimmed to nothing exactly when it is all white space.
pub is_empty-trim : (s : Text) → is_empty (trim s) ≡ not (has_visible s)
unfolding trim
is_empty-trim s =
    is_empty-reverse (trim_start_while is_whitespace (reverse (trim_start_while is_whitespace s)))
    ∙ is_empty-trim_start (reverse (trim_start_while is_whitespace s))
    ∙ ap not (has_visible-reverse (trim_start_while is_whitespace s) ∙ has_visible-trim_start s)

first_part : Option (Text × Text) → Text
first_part none = []
first_part (some (a, b)) = a

second_part : Option (Text × Text) → Text
second_part none = []
second_part (some (a, b)) = b

pub split_once-some :
    (c : ℕ) (s a b : Text) → split_once c s ≡ some (a, b) → (s ≡ a ++ c ∷ b) × Free c a
unfolding split_once first_part second_part
split_once-some c [] a b h = cc
split_once-some c (x ∷ s) a b h = elim (Bool-cases (x == c)) [
  | inl e ↦
      let same_char : x ≡ c = (==_iff x c).0 e in
      let opened : split_once c (x ∷ s) ≡ some ([], s) = rw (split_once, e) refl in
      let parts : some ([], s) ≡ some (a, b) = sym opened ∙ h in
      let a_is : [] ≡ a = ap first_part parts in
      let b_is : s ≡ b = ap second_part parts in rw (same_char, ← a_is, ← b_is) (refl, tt)
  | inr e ↦ elim (Option-cases (split_once c s)) [
    | inl n ↦ let shut : split_once c (x ∷ s) ≡ none = rw (split_once, e, n) refl in cc
    | inr ((a', b'), k) ↦
        let opened : split_once c (x ∷ s) ≡ some (x ∷ a', b') = rw (split_once, e, k) refl in
        let parts : some (x ∷ a', b') ≡ some (a, b) = sym opened ∙ h in
        let a_is : x ∷ a' ≡ a = ap first_part parts in
        let b_is : b' ≡ b = ap second_part parts in
        let (is, free) = split_once-some c s a' b' k in
        rw (← a_is, ← b_is) (ap (◌∷◌ x) is, (e, free))
  ]
]
