-- ===== src/Framing/RoundTrip.antt =====
-- What the sender frames is what the receiver takes, and when the receiver refuses.
use selkies_core.Prelude.{
  ◌+◌, ◌*◌, ◌/◌, ◌%◌, ◌≤◌, ◌<◌, ◌≡◌, ◌↔◌, refl, ap, ◌∙◌, List, [], ◌∷◌, ◌++◌, flatten, append_assoc,
  append-nil, some, none, arith, Bytes, All, IsByte, length, length-append, ok, err, and_then-some,
  take-length_append, drop-length_append,
}
use selkies_core.Framing.{
  zero_length, TcpFrameError, new, next_packet, drain, read_chunks, frame_packet, transmit,
}
use selkies_core.Framing.Steps.{next_packet-by_size}
use selkies_core.Framing.Stream.{drain-takes, drain-waits, read_chunks-flatten}

frame_packet-some :
    (p : Bytes) {f : Bytes}
    → frame_packet p ≡ some f
    → (f ≡ (length p / 256) ∷ (length p % 256) ∷ p) × (length p ≤ 65535)
unfolding frame_packet
frame_packet-some p e = ground arith

next_packet-header :
    (p rest : Bytes)
    → 0 < length p
    → length p ≤ 65535
    → next_packet (record { buf = (length p / 256) ∷ (length p % 256) ∷ (p ++ rest) })
      ≡ (ok (some p), record { buf = rest })
next_packet-header p rest h le =
    let size : length p / 256 * 256 + length p % 256 ≡ length p = omega arith in
    next_packet-by_size (length p / 256) (length p % 256) (p ++ rest)
    ∙ rw size
        (ground (arith, length-append p rest, take-length_append p rest, drop-length_append p rest))

drain-frame :
    (p rest : Bytes) {f : Bytes}
    → 0 < length p
    → frame_packet p ≡ some f
    → drain (record { buf = f ++ rest })
      ≡ (let r = drain (record { buf = rest }) in record r { packets = p ∷ r.packets })
drain-frame p rest h e =
    let (is, le) = frame_packet-some p e in
    rw is
      (drain-takes _ p rest (next_packet-header p rest h le) (omega (arith, length-append p rest)))

drain-transmit :
    (ps : List Bytes) (rest : Bytes) {sent : Bytes}
    → All (λ p. 0 < length p) ps
    → transmit ps ≡ some sent
    → drain (record { buf = sent ++ rest })
      ≡ (let r = drain (record { buf = rest }) in record r { packets = ps ++ r.packets })
unfolding transmit
drain-transmit [] rest {sent} h e = let is : [] ≡ sent = cc in rw (← is)
drain-transmit (p ∷ ps) rest {sent} h e =
    let (f, fp, e') = and_then-some (frame_packet p) _ e in
    let (sent', fps, e'') = and_then-some (transmit ps) _ e' in
    let is : f ++ sent' ≡ sent = cc in
    rw (← is, append_assoc f sent' rest)
      (drain-frame p (sent' ++ rest) h.0 fp ∙ rw (drain-transmit ps rest h.1 fps))

-- A receiver gets exactly the packets sent, in order, and keeps no byte, however the bytes sent are
-- cut into reads; the sender does not fail, and no packet is empty.
pub read_chunks-transmit :
    (ps cs : List Bytes)
    → All (λ p. 0 < length p) ps
    → transmit ps ≡ some (flatten cs)
    → read_chunks new cs ≡ record { packets = ps; failure = none; decoder = record { buf = [] } }
unfolding new
read_chunks-transmit ps cs h e =
    let none_yet : next_packet (record { buf = [] }) ≡ (ok none, record { buf = [] }) =
      unfold next_packet in refl in
    let (a, b, k) = read_chunks-flatten cs (record { buf = [] }) none_yet in
    let whole : drain (record { buf = flatten cs })
        ≡ record { packets = ps; failure = none; decoder = record { buf = [] } } =
      rw (append-nil (flatten cs), drain-waits (record { buf = [] }) none_yet, append-nil ps) at
        (drain-transmit ps [] h e) in
    cc (a, b, k (ap (λ r. r.failure) whole), whole)

-- A packet is framed exactly when it has at most 65535 bytes, and takes two bytes more.
pub frame_packet_iff :
    (p : Bytes)
    → ((f : Bytes) × (frame_packet p ≡ some f) × (length f ≡ length p + 2)) ↔ (length p ≤ 65535)
unfolding frame_packet
frame_packet_iff p = (
  λ (f, e, _). (frame_packet-some p e).1,
  λ h. ((length p / 256) ∷ (length p % 256) ∷ p, ground arith, omega arith),
)

-- On bytes, the decoder refuses a stream exactly when it starts with two zero bytes: the other
-- error, `frame_too_large`, never arises.
pub next_packet-fails_iff :
    (buf : Bytes) (e : TcpFrameError)
    → All IsByte buf
    → ((next_packet (record { buf = buf })).0 ≡ err e)
      ↔ ((e ≡ zero_length) × ((rest : Bytes) × (buf ≡ 0 ∷ 0 ∷ rest)))
next_packet-fails_iff [] e h = unfold next_packet in (λ x. cc, λ (_, (r, x)). cc)
next_packet-fails_iff (a ∷ []) e h = unfold next_packet in (λ x. cc, λ (_, (r, x)). cc)
next_packet-fails_iff (a ∷ b ∷ rest) e h =
    rw (next_packet-by_size a b rest)
      (λ x. (ground arith, (rest, ground arith)), λ (is, (r, x)). ground arith)
