-- ===== src/Signaling/Trimmed.antt =====
-- src/webrtc/signaling.rs: what trimming, which `SignalingParser::parse` begins with, does to a
-- message in the legacy form.
use selkies_core.Prelude.{
  ℕ, ◌≡◌, refl, ◌∙◌, Bool, false, Bool-cases, inl, inr, [], ◌∷◌, ◌++◌, append_assoc, reverse, Text,
  trim_start_while, is_whitespace, Free, arith,
}
use mathlib.Core.List.{reverse-cons, reverse-reverse, reverse-append}

-- `s.trim_end()`.
unfoldable pub trim_end : Text → Text
unfolding trim_start_while is_whitespace
trim_end s = reverse (trim_start_while is_whitespace (reverse s))

Free-append : (c : ℕ) (s t : Text) → Free c s → Free c t → Free c (s ++ t)
Free-append c [] t f g = g
Free-append c (x ∷ s) t f g = (f.0, Free-append c s t f.1 g)

Free-reverse : (c : ℕ) (s : Text) → Free c s → Free c (reverse s)
Free-reverse c [] f = tt
Free-reverse c (x ∷ s) f =
    rw (reverse-cons x s) (Free-append c (reverse s) (x ∷ []) (Free-reverse c s f.1) (f.0, tt))

Free-trim_start : (c : ℕ) (test : ℕ → Bool) (s : Text) → Free c s → Free c (trim_start_while test s)
unfolding trim_start_while
Free-trim_start c test [] f = tt
Free-trim_start c test (x ∷ s) f = let ih = Free-trim_start c test s f.1 in ground arith

pub Free-trim_end : (c : ℕ) (s : Text) → Free c s → Free c (trim_end s)
unfolding trim_end
Free-trim_end c s f =
    Free-reverse c _ (Free-trim_start c is_whitespace (reverse s) (Free-reverse c s f))

-- A character that is no white space stops the trimming.
trim_start-append :
    (s t : Text) (c : ℕ)
    → is_whitespace c ≡ false
    → trim_start_while is_whitespace (s ++ (c ∷ t)) ≡ trim_start_while is_whitespace s ++ (c ∷ t)
unfolding trim_start_while
trim_start-append [] t c h = rw h refl
trim_start-append (x ∷ s) t c h =
    let ih = trim_start-append s t c h in
    elim (Bool-cases (is_whitespace x)) [ inl space ↦ rw space ih | inr other ↦ rw other refl ]

reverse-middle : (s t : Text) (c : ℕ) → reverse (s ++ (c ∷ t)) ≡ reverse t ++ (c ∷ reverse s)
reverse-middle s t c =
    reverse-append s (c ∷ t) ∙ rw (reverse-cons c t) (append_assoc (reverse t) (c ∷ []) (reverse s))

pub trim_end-append :
    (s t : Text) (c : ℕ) → is_whitespace c ≡ false → trim_end (s ++ (c ∷ t)) ≡ s ++ (c ∷ trim_end t)
unfolding trim_end
trim_end-append s t c h =
    rw
      (
        reverse-middle s t c,
        trim_start-append (reverse t) (reverse s) c h,
        reverse-middle (trim_start_while is_whitespace (reverse t)) (reverse s) c,
        reverse-reverse s,
      )
      refl
