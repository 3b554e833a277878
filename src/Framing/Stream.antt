-- ===== src/Framing/Stream.antt =====
-- The packets taken from a stream do not depend on how TCP cuts it into reads.
use selkies_core.Prelude.{
  ℕ, zero, suc, ◌≤◌, ◌<◌, ◌≡◌, refl, sym, ap, ◌∙◌, List, [], ◌∷◌, ◌++◌, flatten, append-nil,
  append_assoc, some, none, arith, Bytes, length, length-append, ok, err, Option-cases, inl, inr,
}
use selkies_core.Framing.{
  TcpFrameError, TcpFrameDecoder, extend, next_packet, Drained, drain_fuel, drain, read_chunks,
}
use selkies_core.Framing.Steps.{waits, fails, takes, outcome}

-- What the loop leaves when the decoder waits, fails, or hands over a packet.
module _ (fuel : ℕ) (d : TcpFrameDecoder) where
  drain_fuel-waits :
      next_packet d ≡ (ok none, d)
      → drain_fuel (suc fuel) d ≡ record { packets = []; failure = none; decoder = d }
  unfolding drain_fuel
  drain_fuel-waits h = rw (h, drain_fuel) (rw h)

  drain_fuel-fails :
      (e : TcpFrameError)
      → next_packet d ≡ (err e, d)
      → drain_fuel (suc fuel) d ≡ record { packets = []; failure = some e; decoder = d }
  unfolding drain_fuel
  drain_fuel-fails e h = rw (h, drain_fuel) (rw h)

abbrev prepend : List Bytes → Drained → Drained
prepend ps r = record r { packets = ps ++ r.packets }

drain_fuel-takes :
    (fuel : ℕ) (d d' : TcpFrameDecoder) (p : Bytes)
    → next_packet d ≡ (ok (some p), d')
    → drain_fuel (suc fuel) d ≡ prepend (p ∷ []) (drain_fuel fuel d')
unfolding drain_fuel
drain_fuel-takes fuel d d' p h = rw (h, drain_fuel) (rw h)

empty-waits : (d : TcpFrameDecoder) → length d.buf ≤ 0 → next_packet d ≡ (ok none, d)
unfolding next_packet
empty-waits d h = ground arith

-- Any fuel from the length of the buffer on gives the same.
drain_fuel_enough :
    (f g : ℕ) (d : TcpFrameDecoder)
    → length d.buf ≤ f
    → length d.buf ≤ g
    → drain_fuel f d ≡ drain_fuel g d
unfolding drain_fuel
drain_fuel_enough zero zero d hf hg = refl
drain_fuel_enough zero (suc g) d hf hg = sym (drain_fuel-waits g d (empty-waits d (omega arith)))
drain_fuel_enough (suc f) zero d hf hg = drain_fuel-waits f d (empty-waits d (omega arith))
drain_fuel_enough (suc f) (suc g) d hf hg = elim (outcome d) [
  | waits w ↦ drain_fuel-waits f d w ∙ sym (drain_fuel-waits g d w)
  | fails e w _ ↦ drain_fuel-fails f d e w ∙ sym (drain_fuel-fails g d e w)
  | takes p r w less _ ↦
      drain_fuel-takes f d _ p w
      ∙ ap (prepend (p ∷ []))
          (drain_fuel_enough f g (record { buf = r }) (omega arith) (omega arith))
      ∙ sym (drain_fuel-takes g d _ p w)
]

-- The same for the loop as the program starts it.
pub drain-waits :
    (d : TcpFrameDecoder)
    → next_packet d ≡ (ok none, d)
    → drain d ≡ record { packets = []; failure = none; decoder = d }
unfolding drain
drain-waits d w =
    drain_fuel_enough (length d.buf) (suc (length d.buf)) d (omega arith) (omega arith)
    ∙ drain_fuel-waits _ d w

pub drain-fails :
    (d : TcpFrameDecoder) (e : TcpFrameError)
    → next_packet d ≡ (err e, d)
    → drain d ≡ record { packets = []; failure = some e; decoder = d }
unfolding drain
drain-fails d e w =
    drain_fuel_enough (length d.buf) (suc (length d.buf)) d (omega arith) (omega arith)
    ∙ drain_fuel-fails _ d e w

pub drain-takes :
    (d : TcpFrameDecoder) (p r : Bytes)
    → next_packet d ≡ (ok (some p), record { buf = r })
    → length r < length d.buf
    → drain d ≡ prepend (p ∷ []) (drain (record { buf = r }))
unfolding drain
drain-takes d p r w less =
    drain_fuel_enough (length d.buf) (suc (length d.buf)) d (omega arith) (omega arith)
    ∙ drain_fuel-takes _ d _ p w
    ∙ ap (prepend (p ∷ [])) (
        drain_fuel_enough (length d.buf) (length r) (record { buf = r }) (omega arith)
          (omega arith))

some_ne_none : {e : TcpFrameError} → some e ≡ none → ⊥
some_ne_none h = cc

-- A drained decoder waits for more.
drain_settles :
    (n : ℕ) (d : TcpFrameDecoder)
    → length d.buf ≤ n
    → (drain d).failure ≡ none
    → next_packet (drain d).decoder ≡ (ok none, (drain d).decoder)
drain_settles zero d h e = rw (drain-waits d (empty-waits d h)) (empty-waits d h)
drain_settles (suc n) d h e = elim (outcome d) [
  | waits w ↦ rw (drain-waits d w) w
  | fails x w _ ↦ absurd (some_ne_none (rw (drain-fails d x w) at e))
  | takes p r w less _ ↦
      rw (drain-takes d p r w less)
        (drain_settles n (record { buf = r }) (omega arith) (rw (drain-takes d p r w less) at e))
]

-- Bytes that come in later are taken after those that are there.
drain-extend :
    (n : ℕ) (d : TcpFrameDecoder) (more : Bytes)
    → length d.buf ≤ n
    → (drain d).failure ≡ none
    → drain (extend d more) ≡ prepend (drain d).packets (drain (extend (drain d).decoder more))
drain-extend zero d more h e = rw (drain-waits d (empty-waits d h))
drain-extend (suc n) d more h e = elim (outcome d) [
  | waits w ↦ rw (drain-waits d w)
  | fails x w _ ↦ absurd (some_ne_none (rw (drain-fails d x w) at e))
  | takes p r w less again ↦ rw (drain-takes d p r w less) (
      drain-takes (extend d more) p (r ++ more) (again more)
        (omega (arith, length-append r more, length-append d.buf more))
      ∙ ap (prepend (p ∷ [])) (
          drain-extend n (record { buf = r }) more (omega arith)
            (rw (drain-takes d p r w less) at e)))
]

-- An error stays: the packets before it are the same, whatever comes in later.
drain-extend_failed :
    (n : ℕ) (d : TcpFrameDecoder) (more : Bytes) {x : TcpFrameError}
    → length d.buf ≤ n
    → (drain d).failure ≡ some x
    → ((drain (extend d more)).packets ≡ (drain d).packets)
      × ((drain (extend d more)).failure ≡ some x)
drain-extend_failed zero d more h e =
    absurd (some_ne_none (sym e ∙ rw (drain-waits d (empty-waits d h))))
drain-extend_failed (suc n) d more h e = elim (outcome d) [
  | waits w ↦ absurd (some_ne_none (sym e ∙ rw (drain-waits d w)))
  | fails y w again ↦
      rw (drain-fails d y w, drain-fails (extend d more) y (again more))
        (refl, rw (drain-fails d y w) at e)
  | takes p r w less again ↦
      let (same, failed) =
        drain-extend_failed n (record { buf = r }) more (omega arith)
          (rw (drain-takes d p r w less) at e) in
      rw
        (
          drain-takes d p r w less,
          drain-takes (extend d more) p (r ++ more) (again more)
              (omega (arith, length-append r more, length-append d.buf more)),
        )
        (ap (◌∷◌ p) same, failed)
]

module _ (d : TcpFrameDecoder) (c : Bytes) (cs : List Bytes) where
  read_chunks-stops :
      {x : TcpFrameError}
      → (drain (extend d c)).failure ≡ some x
      → read_chunks d (c ∷ cs) ≡ drain (extend d c)
  unfolding read_chunks
  read_chunks-stops e = rw (e, read_chunks)

  read_chunks-goes :
      (drain (extend d c)).failure ≡ none
      → read_chunks d (c ∷ cs)
        ≡ prepend (drain (extend d c)).packets (read_chunks (drain (extend d c)).decoder cs)
  unfolding read_chunks
  read_chunks-goes e = rw (e, read_chunks)

  flatten-extend : extend d (flatten (c ∷ cs)) ≡ extend (extend d c) (flatten cs)
  unfolding flatten
  flatten-extend = rw append_assoc

-- Reading a stream in pieces takes the packets that reading it whole takes, in the same order, and
-- stops with the same error, if any; without an error it keeps the same bytes. The decoder must
-- be waiting for bytes when the reads begin, as a new one is.
pub read_chunks-flatten :
    (cs : List Bytes) (d : TcpFrameDecoder)
    → next_packet d ≡ (ok none, d)
    → let pieces = read_chunks d cs in
      let whole = drain (extend d (flatten cs)) in
      (pieces.packets ≡ whole.packets)
      × (pieces.failure ≡ whole.failure)
      × (whole.failure ≡ none → pieces.decoder ≡ whole.decoder)
unfolding flatten
read_chunks-flatten [] d w =
    unfold read_chunks in rw (append-nil d.buf, drain-waits d w) (refl, refl, λ _. refl)
read_chunks-flatten (c ∷ cs) d w = elim (Option-cases (drain (extend d c)).failure) [
  | inr (x, e) ↦
      let (same, failed) =
        drain-extend_failed (length (extend d c).buf) (extend d c) (flatten cs) (omega arith) e in
      rw (flatten-extend d c cs, read_chunks-stops d c cs e)
        (sym same, e ∙ sym failed, λ h. absurd (some_ne_none (sym failed ∙ h)))
  | inl e ↦
      let n = length (extend d c).buf in
      let (a, b, k) =
        read_chunks-flatten cs (drain (extend d c)).decoder
          (drain_settles n (extend d c) (omega arith) e) in
      rw
        (
          flatten-extend d c cs,
          read_chunks-goes d c cs e,
          drain-extend n (extend d c) (flatten cs) (omega arith) e,
        )
        (ap (◌++◌ (drain (extend d c)).packets) a, b, k)
]
