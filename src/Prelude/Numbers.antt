-- ===== src/Prelude/Numbers.antt =====
-- `str::parse` and `from_str_radix` for the integer types, and decimal printing. The types are
-- ranges of the native numbers; `i32` and `i16` values are integers.
use Prim.Native.Nat.{ℕ, zero, suc, ◌+◌, ◌-◌, ◌*◌, ◌/◌, ◌%◌, ◌≤◌, ◌<◌}
use mathlib.Core.Path.{◌≡◌, refl, ap, ◌∙◌, sym}
use mathlib.Core.Bool.{false, ◌&&◌, ◌||◌}
use mathlib.Core.Option.{Option, none, some}
use mathlib.Core.Option
use mathlib.Core.List.{[], ◌∷◌}
use native.Mathlib.Omega.{arith}
use selkies_core.Prelude.Tests.{
  ltb, leb, ◌==◌, if◌then◌else◌, Bool-cases, ltb→lt, leb→le, Option-cases,
}
use mathlib.Core.Logic.{inl, inr}
use selkies_core.Prelude.Strings.{Text, Free, trim, trim-none, is_whitespace}
use selkies_core.Prelude.Lists.{All}
use selkies_core.Prelude.Results.{and_then, and_then-some}

pub data ℤ : Type 0 where
  pos : ℕ → ℤ
  negsuc : ℕ → ℤ

-- `-n`.
abbrev pub neg : ℕ → ℤ
neg zero = pos 0
neg (suc n) = negsuc n

-- `char::to_digit`.
unfoldable pub to_digit : ℕ → ℕ → Option ℕ
to_digit radix c =
    let value =
      if leb b'0' c && leb c b'9'
      then c - b'0'
      else if leb b'a' c && leb c b'z'
      then c - b'a' + 10
      else if leb b'A' c && leb c b'Z'
      then c - b'A' + 10
      else radix in
    if ltb value radix then some value else none

-- The digits behind `acc`; a value above `top` is an overflow.
unfoldable pub digits_onto : ℕ → ℕ → ℕ → Text → Option ℕ
unfolding to_digit
digits_onto radix top acc [] = some acc
digits_onto radix top acc (c ∷ s) =
    and_then (to_digit radix c)
      λ d. if leb (acc * radix + d) top then digits_onto radix top (acc * radix + d) s else none

-- `uN::from_str_radix`: an optional plus sign, then at least one digit.
unfoldable pub from_str_radix : ℕ → ℕ → Text → Option ℕ
from_str_radix radix top [] = none
from_str_radix radix top (c ∷ []) =
    if c == b'+' || c == b'-' then none else digits_onto radix top 0 (c ∷ [])
from_str_radix radix top (c ∷ d ∷ s) =
    if c == b'+' then digits_onto radix top 0 (d ∷ s) else digits_onto radix top 0 (c ∷ d ∷ s)

abbrev pub parse_u8 : Text → Option ℕ
parse_u8 = from_str_radix 10 255

abbrev pub parse_u16 : Text → Option ℕ
parse_u16 = from_str_radix 10 65535

abbrev pub parse_u32 : Text → Option ℕ
parse_u32 = from_str_radix 10 4294967295

abbrev pub parse_u64 : Text → Option ℕ
parse_u64 = from_str_radix 10 18446744073709551615

-- `iN::from_str` for the type whose largest value is `top`: a minus sign, too, and one more value
-- below zero.
unfoldable pub parse_signed : ℕ → Text → Option ℤ
unfolding from_str_radix
parse_signed top [] = none
parse_signed top (c ∷ []) = Option.map pos (from_str_radix 10 top (c ∷ []))
parse_signed top (c ∷ d ∷ s) =
    if c == b'-'
    then Option.map neg (digits_onto 10 (top + 1) 0 (d ∷ s))
    else Option.map pos (from_str_radix 10 top (c ∷ d ∷ s))

abbrev pub parse_i32 : Text → Option ℤ
parse_i32 = parse_signed 2147483647

abbrev pub parse_i16 : Text → Option ℤ
parse_i16 = parse_signed 32767

-- A number parsed is within its type.
pub digits_onto-le :
    (radix top acc : ℕ) (s : Text) {n : ℕ}
    → acc ≤ top
    → digits_onto radix top acc s ≡ some n
    → n ≤ top
unfolding digits_onto
digits_onto-le radix top acc [] h e = ground arith
digits_onto-le radix top acc (c ∷ s) {n} h e =
    let (d, _, e') = and_then-some (to_digit radix c) _ e in
    elim (Bool-cases (leb (acc * radix + d) top)) [
      | inl fits ↦ digits_onto-le radix top (acc * radix + d) s (leb→le _ _ fits) (rw fits at e')
      | inr over ↦ absurd (none_ne_some (rw over at e'))
    ]
  where
    none_ne_some : none ≡ some n → ⊥
    none_ne_some x = cc

pub from_str_radix-le :
    (radix top : ℕ) (s : Text) {n : ℕ} → from_str_radix radix top s ≡ some n → n ≤ top
unfolding from_str_radix
from_str_radix-le radix top [] e = cc
from_str_radix-le radix top (c ∷ []) {n} e =
    ground (arith, digits_onto-le radix top 0 (c ∷ []) {n = n})
from_str_radix-le radix top (c ∷ d ∷ s) {n} e = ground (
  arith,
  digits_onto-le radix top 0 (d ∷ s) {n = n},
  digits_onto-le radix top 0 (c ∷ d ∷ s) {n = n},
)

-- `Display` of an unsigned number, in front of `rest`.
show_fuel : ℕ → ℕ → Text → Text
show_fuel zero n rest = rest
show_fuel (suc fuel) n rest =
    let more = show_fuel fuel (n / 10) ((n % 10 + 48) ∷ rest) in
    if ltb n 10 then (n + 48) ∷ rest else more

unfoldable pub show : ℕ → Text
unfolding show_fuel
show n = show_fuel (suc n) n []

unfoldable pub show_signed : ℤ → Text
show_signed (pos n) = show n
show_signed (negsuc n) = b'-' ∷ show (suc n)

abbrev IsDigit : ℕ → Type 0
IsDigit c = (48 ≤ c) × (c ≤ 57)

digits_onto-digit :
    (top acc d : ℕ) (s : Text)
    → d < 10
    → acc * 10 + d ≤ top
    → digits_onto 10 top acc ((d + 48) ∷ s) ≡ digits_onto 10 top (acc * 10 + d) s
unfolding digits_onto
digits_onto-digit top acc d s h le = ground arith

digits_onto-show_fuel :
    (fuel n top : ℕ) (rest : Text)
    → n < fuel
    → n ≤ top
    → digits_onto 10 top 0 (show_fuel fuel n rest) ≡ digits_onto 10 top n rest
unfolding show_fuel
digits_onto-show_fuel zero n top rest h le = absurd (omega arith)
digits_onto-show_fuel (suc fuel) n top rest h le = elim (Bool-cases (ltb n 10)) [
  | inl one ↦
      let e : 0 * 10 + n ≡ n = omega arith in
      rw one (digits_onto-digit top 0 n rest (ltb→lt _ _ one) (omega arith) ∙ rw e)
  | inr more ↦
      let e : n / 10 * 10 + n % 10 ≡ n = omega arith in
      rw more (
        digits_onto-show_fuel fuel (n / 10) top _ (ground arith) (omega arith)
        ∙ digits_onto-digit top (n / 10) (n % 10) rest (omega arith) (omega arith)
        ∙ rw e)
]

-- The text starts with a digit.
show_fuel-head :
    (fuel n : ℕ) (rest : Text)
    → n < fuel
    → (c : ℕ) × (s : Text) × (show_fuel fuel n rest ≡ c ∷ s) × (48 ≤ c) × (c ≤ 57)
unfolding show_fuel
show_fuel-head zero n rest h = absurd (omega arith)
show_fuel-head (suc fuel) n rest h = elim (Bool-cases (ltb n 10)) [
  | inl one ↦ (n + 48, rest, rw one, omega arith, ground arith)
  | inr more ↦ rw more (show_fuel-head fuel (n / 10) _ (ground arith))
]

show_fuel-Free :
    (c fuel n : ℕ) (rest : Text) → c < 48 → Free c rest → Free c (show_fuel fuel n rest)
unfolding show_fuel
show_fuel-Free c zero n rest h f = f
show_fuel-Free c (suc fuel) n rest h f = elim (Bool-cases (ltb n 10)) [
  | inl one ↦ rw one (ground arith, f)
  | inr more ↦ rw more (show_fuel-Free c fuel (n / 10) _ h (ground arith, f))
]

pub show-head : (n : ℕ) → (c : ℕ) × (s : Text) × (show n ≡ c ∷ s) × (48 ≤ c) × (c ≤ 57)
unfolding show
show-head n = show_fuel-head (suc n) n [] (omega arith)

pub show-Free : (c n : ℕ) → c < 48 → Free c (show n)
unfolding show
show-Free c n h = show_fuel-Free c (suc n) n [] h tt

show_fuel-IsDigit :
    (fuel n : ℕ) (rest : Text) → All IsDigit rest → All IsDigit (show_fuel fuel n rest)
unfolding show_fuel
show_fuel-IsDigit zero n rest h = h
show_fuel-IsDigit (suc fuel) n rest h = elim (Bool-cases (ltb n 10)) [
  | inl one ↦ rw one (ground arith, h)
  | inr more ↦ rw more (show_fuel-IsDigit fuel (n / 10) _ (ground arith, h))
]

digits_trim : (s : Text) → All IsDigit s → All (λ c. is_whitespace c ≡ false) s
unfolding is_whitespace
digits_trim [] h = tt
digits_trim (c ∷ s) (h, hs) = (let (lo, hi) = h in ground arith, digits_trim s hs)

digits-Free : (c : ℕ) (s : Text) → 57 < c → All IsDigit s → Free c s
digits-Free c [] h d = tt
digits-Free c (x ∷ s) h (d, ds) = (let (_, hi) = d in ground arith, digits-Free c s h ds)

-- No character above the digits stands in a printed number.
pub show-Free_above : (c n : ℕ) → 57 < c → Free c (show n)
unfolding show
show-Free_above c n h = digits-Free c _ h (show_fuel-IsDigit (suc n) n [] tt)

-- A printed number has no white space around it.
pub trim-show : (n : ℕ) → trim (show n) ≡ show n
unfolding show
trim-show n = trim-none (show n) (digits_trim _ (show_fuel-IsDigit (suc n) n [] tt))

from_str_radix-digits :
    (top c : ℕ) (s : Text) → 48 ≤ c → from_str_radix 10 top (c ∷ s) ≡ digits_onto 10 top 0 (c ∷ s)
unfolding from_str_radix
from_str_radix-digits top c [] h = ground arith
from_str_radix-digits top c (d ∷ s) h = ground arith

-- A number that its type holds is read back from its decimal form.
pub from_str_radix-show : (top n : ℕ) → n ≤ top → from_str_radix 10 top (show n) ≡ some n
unfolding show
from_str_radix-show top n h =
    let (c, s, e, digit, _) = show_fuel-head (suc n) n [] (omega arith) in
    rw e (
      from_str_radix-digits top c s digit
      ∙ ap (digits_onto 10 top 0) (sym e)
      ∙ digits_onto-show_fuel (suc n) n top [] (omega arith) h
      ∙ unfold digits_onto in refl)

-- So are signed numbers.
abbrev pub InRange : ℕ → ℤ → Type 0
InRange top (pos n) = n ≤ top
InRange top (negsuc n) = n ≤ top

parse_signed-digits :
    (top c : ℕ) (s : Text)
    → 48 ≤ c
    → parse_signed top (c ∷ s) ≡ Option.map pos (from_str_radix 10 top (c ∷ s))
unfolding parse_signed
parse_signed-digits top c [] h = refl
parse_signed-digits top c (d ∷ s) h = ground arith

parse_signed-minus :
    (top c : ℕ) (s : Text)
    → 48 ≤ c
    → parse_signed top (b'-' ∷ c ∷ s) ≡ Option.map neg (from_str_radix 10 (top + 1) (c ∷ s))
unfolding parse_signed
parse_signed-minus top c s h = ap (Option.map neg) (sym (from_str_radix-digits (top + 1) c s h))

pub parse_signed-show :
    (top : ℕ) (z : ℤ) → InRange top z → parse_signed top (show_signed z) ≡ some z
unfolding show_signed
parse_signed-show top (pos n) h =
    let (c, s, is, digit, _) = show-head n in
    let back : from_str_radix 10 top (c ∷ s) ≡ some n = rw (← is) (from_str_radix-show top n h) in
    rw (is, parse_signed-digits top c s digit, back)
parse_signed-show top (negsuc n) h =
    let (c, s, is, digit, _) = show-head (suc n) in
    let back : from_str_radix 10 (top + 1) (c ∷ s) ≡ some (suc n) =
      rw (← is) (from_str_radix-show (top + 1) (suc n) (omega arith)) in
    rw (is, parse_signed-minus top c s digit, back)

pub show_signed-Free : (c : ℕ) (z : ℤ) → c < 45 → Free c (show_signed z)
unfolding show_signed
show_signed-Free c (pos n) h = show-Free c n (omega arith)
show_signed-Free c (negsuc n) h = (ground arith, show-Free c (suc n) (omega arith))

-- The value, if there is one, has the property.
abbrev pub OnSome {ℓ κ} : {A : Type ℓ} → (A → Type κ) → Option A → Type κ
OnSome P none = Unit
OnSome P (some a) = P a

pub from_str_radix-bound :
    (radix top : ℕ) (s : Text) → OnSome (λ n. n ≤ top) (from_str_radix radix top s)
from_str_radix-bound radix top s = elim (Option-cases (from_str_radix radix top s)) [
  | inl e ↦ rw e tt
  | inr (n, e) ↦ rw e (from_str_radix-le radix top s e)
]

digits_onto-bound : (top : ℕ) (s : Text) → OnSome (λ n. n ≤ top) (digits_onto 10 top 0 s)
digits_onto-bound top s = elim (Option-cases (digits_onto 10 top 0 s)) [
  | inl e ↦ rw e tt
  | inr (n, e) ↦ rw e (digits_onto-le 10 top 0 s (omega arith) e)
]

InRange-pos :
    (top : ℕ) (o : Option ℕ) → OnSome (λ n. n ≤ top) o → OnSome (InRange top) (Option.map pos o)
InRange-pos top none h = tt
InRange-pos top (some n) h = h

InRange-neg :
    (top : ℕ) (o : Option ℕ) → OnSome (λ n. n ≤ top + 1) o → OnSome (InRange top) (Option.map neg o)
InRange-neg top none h = tt
InRange-neg top (some zero) h = omega arith
InRange-neg top (some (suc n)) h = let k : suc n ≤ top + 1 = h in omega (arith, k)

pub parse_signed-InRange : (top : ℕ) (s : Text) → OnSome (InRange top) (parse_signed top s)
unfolding parse_signed
parse_signed-InRange top [] = tt
parse_signed-InRange top (c ∷ []) =
    InRange-pos top (from_str_radix 10 top (c ∷ [])) (from_str_radix-bound 10 top (c ∷ []))
parse_signed-InRange top (c ∷ d ∷ s) = elim (Bool-cases (c == b'-')) [
  | inl minus ↦
      rw minus
        (InRange-neg top (digits_onto 10 (top + 1) 0 (d ∷ s)) (digits_onto-bound (top + 1) (d ∷ s)))
  | inr plain ↦ rw plain (
      InRange-pos top (from_str_radix 10 top (c ∷ d ∷ s)) (from_str_radix-bound 10 top (c ∷ d ∷ s)))
]
