-- ===== src/Frames/Laws.antt =====
-- What the frame buffer passes on: nothing lost, repeated or reordered.
use selkies_core.Prelude.{
  ℕ, ◌+◌, ◌%◌, ◌≡◌, refl, sym, ap, ◌∙◌, Bool, true, false, List, [], ◌∷◌, ◌++◌, map, append_assoc,
  append-nil, Bytes, length, length-append, arith, unwrap_or,
}
use mathlib.Core.List.{map-append}
use selkies_core.Rtp.{get_timestamp}
use selkies_core.Frames.{
  FrameState, set_marker, mark_last, send_packet, send_all, flush_frame, frame_ended, ends_marked,
  flush_if, hold, pull_sample, flush_late, pull_and_broadcast_rtp,
}

-- A packet but for its marker bit.
abbrev pub clear_marker : Bytes → Bytes
clear_marker (a ∷ b ∷ r) = a ∷ (b % 128) ∷ r
clear_marker p = p

clear_marker-set_marker : (p : Bytes) → clear_marker (set_marker p) ≡ clear_marker p
clear_marker-set_marker [] = refl
clear_marker-set_marker (a ∷ []) = refl
clear_marker-set_marker (a ∷ b ∷ r) = ground arith

map-mark_last : (ps : List Bytes) → map clear_marker (mark_last ps) ≡ map clear_marker ps
map-mark_last [] = refl
map-mark_last (p ∷ []) = ap (λ q. q ∷ []) (clear_marker-set_marker p)
map-mark_last (p ∷ q ∷ ps) = ap (◌∷◌ (clear_marker p)) (map-mark_last (q ∷ ps))

length-mark_last : (ps : List Bytes) → length (mark_last ps) ≡ length ps
length-mark_last [] = refl
length-mark_last (p ∷ []) = refl
length-mark_last (p ∷ q ∷ ps) = omega (arith, length-mark_last (q ∷ ps))

send_packet_lem :
    (s : FrameState) (p : Bytes)
    → ((send_packet s p).sent ≡ s.sent ++ p ∷ [])
      × ((send_packet s p).frame_buf ≡ s.frame_buf)
      × ((send_packet s p).rtp_count ≡ s.rtp_count + 1)
unfolding send_packet
send_packet_lem s p = (ground arith, ground arith, ground arith)

send_all_lem :
    (ps : List Bytes) (s : FrameState)
    → ((send_all s ps).sent ≡ s.sent ++ ps)
      × ((send_all s ps).frame_buf ≡ s.frame_buf)
      × ((send_all s ps).rtp_count ≡ s.rtp_count + length ps)
unfolding send_all
send_all_lem [] s = (sym (append-nil s.sent), refl, omega arith)
send_all_lem (p ∷ ps) s =
    let (a, b, c) = send_packet_lem s p in
    let (x, y, z) = send_all_lem ps (send_packet s p) in
    (x ∙ rw (a, append_assoc), y ∙ b, omega arith)

-- A flush broadcasts the buffered packets, in order, with the marker set on the last one, counts
-- them, and empties the buffer.
pub flush_frame_lem :
    (s : FrameState)
    → ((flush_frame s).sent ≡ s.sent ++ mark_last s.frame_buf)
      × ((flush_frame s).frame_buf ≡ [])
      × ((flush_frame s).rtp_count ≡ s.rtp_count + length s.frame_buf)
unfolding flush_frame
flush_frame_lem s =
    let (a, b, c) = send_all_lem (mark_last s.frame_buf) (record s { frame_buf = [] }) in
    (a, b, omega (arith, length-mark_last s.frame_buf))

-- All the packets that have come in, but for marker bits: those sent, then those that wait.
abbrev pub passed : FrameState → List Bytes
passed s = map clear_marker (s.sent ++ s.frame_buf)

-- The count agrees with what was sent, from the count `n` before.
abbrev pub Counted : FrameState → FrameState → Type 0
Counted s t = t.rtp_count + length s.sent ≡ s.rtp_count + length t.sent

passed-flush_frame :
    (s : FrameState) → (passed (flush_frame s) ≡ passed s) × Counted s (flush_frame s)
passed-flush_frame s =
    let (a, b, c) = flush_frame_lem s in
    (
      rw (a, b, append-nil)
          (map-append clear_marker s.sent (mark_last s.frame_buf)
            ∙ ap (◌++◌ (map clear_marker s.sent)) (map-mark_last s.frame_buf)
            ∙ sym (map-append clear_marker s.sent s.frame_buf)),
      omega (
        arith,
        ap length a,
        length-append s.sent (mark_last s.frame_buf),
        length-mark_last s.frame_buf,
      ),
    )

passed-flush_if :
    (b : Bool) (s : FrameState) → (passed (flush_if b s) ≡ passed s) × Counted s (flush_if b s)
unfolding flush_if
passed-flush_if true s = passed-flush_frame s
passed-flush_if false s = (refl, refl)

passed-hold :
    (s : FrameState) (ts now : ℕ) (p : Bytes)
    → passed (hold s ts now p) ≡ passed s ++ clear_marker p ∷ []
passed-hold s ts now p =
    ap (map clear_marker) (sym (append_assoc s.sent s.frame_buf (p ∷ [])))
    ∙ map-append clear_marker (s.sent ++ s.frame_buf) (p ∷ [])

passed-pull_sample :
    (s : FrameState) (now : ℕ) (p : Bytes)
    → (passed (pull_sample s (now, p)) ≡ passed s ++ clear_marker p ∷ [])
      × Counted s (pull_sample s (now, p))
unfolding pull_sample
passed-pull_sample s now p =
    let ts = unwrap_or (get_timestamp p) 0 in
    let s1 = flush_if (frame_ended s.prev_ts ts s.frame_buf) s in
    let held = hold s1 ts now p in
    let (a, b) = passed-flush_if (frame_ended s.prev_ts ts s.frame_buf) s in
    let (c, d) = passed-flush_if (ends_marked held.frame_buf) held in
    (c ∙ passed-hold s1 ts now p ∙ ap (λ l. l ++ clear_marker p ∷ []) a, omega (arith, b, d))

passed-flush_late :
    (s : FrameState) (now : ℕ)
    → (passed (flush_late s now) ≡ passed s) × Counted s (flush_late s now)
unfolding flush_late
passed-flush_late s now = passed-flush_if _ s

-- Whatever the timestamps, markers and pauses: what was broadcast, followed by what still waits, is
-- what came before followed by the new samples, in order and unchanged but for marker bits; and
-- `rtp_count` has grown by the number of packets broadcast.
pub passed-pull_and_broadcast_rtp :
    (xs : List (ℕ × Bytes)) (s : FrameState) (now : ℕ)
    → (passed (pull_and_broadcast_rtp s xs now) ≡ passed s ++ map (λ x. clear_marker x.1) xs)
      × Counted s (pull_and_broadcast_rtp s xs now)
unfolding pull_and_broadcast_rtp
passed-pull_and_broadcast_rtp [] s now =
    let (a, b) = passed-flush_late s now in (a ∙ sym (append-nil _), b)
passed-pull_and_broadcast_rtp ((t, p) ∷ xs) s now =
    let (a, b) = passed-pull_sample s t p in
    let (c, d) = passed-pull_and_broadcast_rtp xs (pull_sample s (t, p)) now in
    (c ∙ rw (a, append_assoc), omega (arith, b, d))
