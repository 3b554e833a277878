-- ===== src/Frames.antt =====
-- src/main.rs: `is_h264_keyframe_packet`, `flush_frame` and `pull_and_broadcast_rtp`, the buffer
-- between the encoder and the sessions. `sent` is what `broadcast_rtp` was given so far, and
-- `keyframe_cache` the field of the shared state that `set_keyframe_cache` writes. Times are in
-- milliseconds.
pub mod Laws
pub mod Cache
use selkies_core.Prelude.{
  ℕ, ◌+◌, ◌-◌, ◌/◌, ◌%◌, Bool, true, false, not, ◌&&◌, ◌||◌, List, [], ◌∷◌, ◌++◌, Option, none,
  some, Bytes, length, ltb, leb, ◌==◌, if◌then◌else◌, unwrap_or, last?, is_empty,
}
use selkies_core.Rtp.{byte_at, header_length, get_timestamp}

pub record FrameState : Type 0 where
  pub frame_buf : List Bytes
  pub keyframe_buf : List Bytes
  pub in_keyframe : Bool
  pub rtp_count : ℕ
  pub prev_ts : Option ℕ
  pub last_sample : Option ℕ
  pub keyframe_cache : List Bytes
  pub sent : List Bytes

unfoldable pub is_h264_keyframe_packet : Bytes → Bool
is_h264_keyframe_packet bytes =
    let hdr_len = unwrap_or (header_length bytes) 12 in
    if leb (length bytes) hdr_len
    then false
    else (let nal_type = byte_at bytes hdr_len % 32 in
        if nal_type == 5 || nal_type == 7 || nal_type == 8
        then true
        else if nal_type == 24
        then true
        else if nal_type == 28 && ltb (hdr_len + 1) (length bytes)
        then byte_at bytes (hdr_len + 1) % 32 == 5
        else false)

-- `pkt.len() >= 2 && (pkt[1] & 0x80) != 0`.
abbrev pub has_marker : Bytes → Bool
has_marker (a ∷ b ∷ r) = not (b / 128 % 2 == 0)
has_marker _ = false

-- `last[1] |= 0x80`.
abbrev pub set_marker : Bytes → Bytes
set_marker (a ∷ b ∷ r) = a ∷ (if b / 128 % 2 == 0 then b + 128 else b) ∷ r
set_marker p = p

-- `if let Some(last) = frame_buf.last_mut()`.
abbrev pub mark_last : List Bytes → List Bytes
mark_last [] = []
mark_last (p ∷ []) = set_marker p ∷ []
mark_last (p ∷ q ∷ ps) = p ∷ mark_last (q ∷ ps)

-- The part of `flush_frame`'s loop that follows a keyframe: `clear` at its first packet, then
-- collect, and store the whole at the marker.
unfoldable pub track_keyframe : FrameState → Bytes → FrameState
track_keyframe s packet =
    let begins = is_h264_keyframe_packet packet && not s.in_keyframe in
    let collected = (if begins then [] else s.keyframe_buf) ++ packet ∷ [] in
    if begins || s.in_keyframe
    then (if has_marker packet
        then record s { keyframe_buf = collected; keyframe_cache = collected; in_keyframe = false }
        else record s { keyframe_buf = collected; in_keyframe = true })
    else s

-- One round of the loop.
unfoldable pub send_packet : FrameState → Bytes → FrameState
unfolding track_keyframe
send_packet s packet =
    let s' = track_keyframe s packet in
    record s' { rtp_count = s'.rtp_count + 1; sent = s'.sent ++ packet ∷ [] }

unfoldable pub send_all : FrameState → List Bytes → FrameState
unfolding send_packet
send_all s [] = s
send_all s (p ∷ ps) = send_all (send_packet s p) ps

unfoldable pub flush_frame : FrameState → FrameState
unfolding send_all
flush_frame s = send_all (record s { frame_buf = [] }) (mark_last s.frame_buf)

-- `if let Some(prev) = *prev_ts { if ts != prev && !frame_buf.is_empty()`.
abbrev pub frame_ended : Option ℕ → ℕ → List Bytes → Bool
frame_ended none ts buf = false
frame_ended (some prev) ts buf = not (ts == prev) && not (is_empty buf)

abbrev pub ends_marked : List Bytes → Bool
ends_marked buf = elim (last? buf) [ none ↦ false | some p ↦ has_marker p ]

unfoldable pub flush_if : Bool → FrameState → FrameState
unfolding flush_frame
flush_if test s = if test then flush_frame s else s

-- `frame_buf.push(data)` and the two fields beside it.
abbrev pub hold : FrameState → ℕ → ℕ → Bytes → FrameState
hold s ts now packet = record s {
  prev_ts = some ts;
  frame_buf = s.frame_buf ++ packet ∷ [];
  last_sample = some now;
}

-- One sample of the encoder, read at time `now`.
unfoldable pub pull_sample : FrameState → ℕ × Bytes → FrameState
unfolding flush_if
pull_sample s (now, packet) =
    let ts = unwrap_or (get_timestamp packet) 0 in
    let held = hold (flush_if (frame_ended s.prev_ts ts s.frame_buf) s) ts now packet in
    flush_if (ends_marked held.frame_buf) held

-- Something waits, and its last packet came in 50 ms ago or more.
abbrev pub is_late : List Bytes → Option ℕ → ℕ → Bool
is_late buf none now = false
is_late buf (some t) now = not (is_empty buf) && leb 50 (now - t)

-- The flush of a frame whose marker is missing.
unfoldable pub flush_late : FrameState → ℕ → FrameState
unfolding flush_if
flush_late s now = flush_if (is_late s.frame_buf s.last_sample now) s

-- The samples that the pipeline has ready, then the late flush at time `now`.
unfoldable pub pull_and_broadcast_rtp : FrameState → List (ℕ × Bytes) → ℕ → FrameState
unfolding pull_sample flush_late
pull_and_broadcast_rtp s [] now = flush_late s now
pull_and_broadcast_rtp s (x ∷ xs) now = pull_and_broadcast_rtp (pull_sample s x) xs now
