-- ===== src/Signaling/Slices.antt =====
-- src/webrtc/signaling.rs: the texts on which the parser panics, where it cuts a message that it does
-- not know after 50 bytes.
use selkies_core.Prelude.{
  ℕ, ◌+◌, ◌-◌, ◌<◌, ◌≡◌, refl, sym, ap, ◌∙◌, ◌↔◌, true, false, [], ◌∷◌, ◌++◌, Option, none, some,
  Text, codes, starts_with, trim, ltb, ltb→lt, lt→ltb, ◌==◌, Bool-cases, Option-cases, inl, inr,
  arith, err,
}
use selkies_core.Signaling.{ParseError, Parsed, len_utf8, slice_to, unknown_format, parse}

-- The bytes of a text in UTF-8.
pub byte_length : Text → ℕ
byte_length [] = 0
byte_length (c ∷ s) = len_utf8 c + byte_length s

-- The `n`-th byte is inside the character behind `before`.
pub record Inside (n : ℕ) (t : Text) : Type 0 where
  pub before : Text
  pub char : ℕ
  pub after : Text
  pub made_of : t ≡ before ++ (char ∷ after)
  pub starts : byte_length before < n
  pub ends : n < byte_length before + len_utf8 char

len_positive : (c : ℕ) → 0 < len_utf8 c
len_positive c = ground arith

slice_to-Inside : (n : ℕ) (t : Text) → slice_to n t ≡ none → Inside n t
unfolding slice_to byte_length
slice_to-Inside n [] h = cc
slice_to-Inside n (c ∷ s) h = elim (Bool-cases (n == 0)) [
  | inl z ↦ absurd (no_cut (rw z at h))
  | inr z ↦ elim (Bool-cases (ltb n (len_utf8 c))) [
    | inl short ↦ record {
      before = [];
      char = c;
      after = s;
      made_of = refl;
      starts = ground arith;
      ends = let k = ltb→lt _ _ short in omega arith;
    }
    | inr long ↦ elim (Option-cases (slice_to (n - len_utf8 c) s)) [
      | inl cut ↦ further (slice_to-Inside (n - len_utf8 c) s cut) long
      | inr (t, whole) ↦ absurd (no_cut (rw (z, long, whole) at h))
    ]
  ]
]
  where
    no_cut : {t : Text} → some t ≡ none → ⊥
    no_cut h = cc

    further : Inside (n - len_utf8 c) s → ltb n (len_utf8 c) ≡ false → Inside n (c ∷ s)
    further i long =
        let starts = i.starts in
        let ends = i.ends in
        record {
          before = c ∷ i.before;
          char = i.char;
          after = i.after;
          made_of = ap (◌∷◌ c) i.made_of;
          starts = ground arith;
          ends = ground arith;
        }

past : (n len rest : ℕ) → ltb n len ≡ false → len + rest < n → rest < n - len
past n len rest e h = ground arith

cut_inside :
    (n : ℕ) (p : Text) (c : ℕ) (s : Text)
    → byte_length p < n
    → n < byte_length p + len_utf8 c
    → slice_to n (p ++ (c ∷ s)) ≡ none
unfolding slice_to byte_length
cut_inside n [] c s h k =
    let some_left : (n == 0) ≡ false = ground arith in
    let short : ltb n (len_utf8 c) ≡ true = lt→ltb _ _ (omega arith) in rw (some_left, short) refl
cut_inside n (x ∷ p) c s h k =
    let positive = len_positive x in
    let some_left : (n == 0) ≡ false = ground arith in
    elim (Bool-cases (ltb n (len_utf8 x))) [
      | inl early ↦ rw (some_left, early) refl
      | inr late ↦
          let rest = cut_inside (n - len_utf8 x) p c s (left_of late) (right_of late) in
          rw (some_left, late, rest) refl
    ]
  where
    left_of : ltb n (len_utf8 x) ≡ false → byte_length p < n - len_utf8 x
    left_of late = past n (len_utf8 x) (byte_length p) late h

    right_of : ltb n (len_utf8 x) ≡ false → n - len_utf8 x < byte_length p + len_utf8 c
    right_of late = omega arith

-- A text that is not JSON and not in the legacy form makes the parser panic exactly when its 50th
-- byte in UTF-8, white space around the text left out, is followed by a byte of the same
-- character; any other such text is refused with an error.
pub parse-panicked_iff :
    (from_json : Text → Parsed) (raw : Text)
    → starts_with (trim raw) (codes "{") ≡ false
    → starts_with (trim raw) (codes "webrtc,") ≡ false
    → (parse from_json raw ≡ err ParseError.panicked) ↔ Inside 50 (trim raw)
unfolding parse
parse-panicked_iff from_json raw json legacy = (
  (λ h. slice_to-Inside 50 (trim raw) (cut (slice_to 50 (trim raw)) (sym reached ∙ h))),
  (λ i.
      let stopped : slice_to 50 (trim raw) ≡ none =
        rw i.made_of (cut_inside 50 i.before i.char i.after i.starts i.ends) in
      reached ∙ ap unknown_format stopped),
)
  where
    reached : parse from_json raw ≡ unknown_format (slice_to 50 (trim raw))
    reached = rw (json, legacy) refl

    cut : (o : Option Text) → unknown_format o ≡ err ParseError.panicked → o ≡ none
    cut none h = refl
    cut (some t) h = cc
