-- ===== src/Framing/Steps.antt =====
-- What one call of `next_packet` can do, and how further bytes change it.
use selkies_core.Prelude.{
  ℕ, suc, ◌+◌, ◌*◌, ◌<◌, ◌≡◌, refl, ◌∙◌, inl, inr, false, [], ◌∷◌, ◌++◌, some, none, arith, Bytes,
  length, take, drop, length-append, length-drop, take-append_le, drop-append_le, ltb, ◌==◌,
  if◌then◌else◌, Bool-cases, ok, err,
}
use selkies_core.Framing.{
  TcpFrameError, zero_length, frame_too_large, TcpFrameDecoder, Next, extend, next_packet,
}

abbrev decoder : Bytes → TcpFrameDecoder
decoder buf = record { buf = buf }

-- On a whole header, with the header taken off.
abbrev pub by_size : ℕ → Bytes → Bytes → Next
by_size size body buf =
    if size == 0
    then (err zero_length, decoder buf)
    else if ltb 65535 size
    then (err (frame_too_large size), decoder buf)
    else if ltb (length body) size
    then (ok none, decoder buf)
    else (ok (some (take size body)), decoder (drop size body))

pub next_packet-by_size :
    (x y : ℕ) (r : Bytes) → next_packet (decoder (x ∷ y ∷ r)) ≡ by_size (x * 256 + y) r (x ∷ y ∷ r)
unfolding next_packet
next_packet-by_size x y r =
    let e : 2 + (x * 256 + y) ≡ suc (suc (x * 256 + y)) = omega arith in rw e (ground arith)

-- What a call does, and does again once more bytes have come in.
pub data Outcome (d : TcpFrameDecoder) : Type 0 where
  waits : next_packet d ≡ (ok none, d) → Outcome d
  fails :
      (e : TcpFrameError)
      → next_packet d ≡ (err e, d)
      → ((more : Bytes) → next_packet (extend d more) ≡ (err e, extend d more))
      → Outcome d
  takes :
      (p r : Bytes)
      → next_packet d ≡ (ok (some p), decoder r)
      → length r < length d.buf
      → ((more : Bytes) → next_packet (extend d more) ≡ (ok (some p), decoder (r ++ more)))
      → Outcome d

outcome_by_size : (x y : ℕ) (r : Bytes) → Outcome (decoder (x ∷ y ∷ r))
outcome_by_size x y r = elim (Bool-cases (size == 0)) [
  | inl zero_size ↦
      fails zero_length (next_packet-by_size x y r ∙ rw zero_size)
        (λ more. next_packet-by_size x y (r ++ more) ∙ rw zero_size)
  | inr some_size ↦ elim (Bool-cases (ltb 65535 size)) [
    | inl large ↦
        fails (frame_too_large size) (next_packet-by_size x y r ∙ rw (some_size, large))
          (λ more. next_packet-by_size x y (r ++ more) ∙ rw (some_size, large))
    | inr fits ↦ elim (Bool-cases (ltb (length r) size)) [
      | inl short ↦ waits (next_packet-by_size x y r ∙ rw (some_size, fits, short))
      | inr whole ↦
          takes (take size r) (drop size r)
            (next_packet-by_size x y r ∙ rw (some_size, fits, whole))
            (omega (arith, length-drop size r))
            (λ more. next_packet-by_size x y (r ++ more) ∙ more_whole more some_size fits whole)
    ]
  ]
]
  where
    size : ℕ
    size = x * 256 + y

    more_whole :
        (more : Bytes)
        → (size == 0) ≡ false
        → ltb 65535 size ≡ false
        → ltb (length r) size ≡ false
        → by_size size (r ++ more) (x ∷ y ∷ (r ++ more))
          ≡ (ok (some (take size r)), decoder (drop size r ++ more))
    more_whole more a b c =
        ground (arith, length-append r more, take-append_le size r more, drop-append_le size r more)

pub outcome : (d : TcpFrameDecoder) → Outcome d
outcome d = of_buf d.buf
  where
    of_buf : (buf : Bytes) → Outcome (decoder buf)
    of_buf [] = waits (unfold next_packet in refl)
    of_buf (x ∷ []) = waits (unfold next_packet in refl)
    of_buf (x ∷ y ∷ r) = outcome_by_size x y r
