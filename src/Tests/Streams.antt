-- ===== src/Tests/Streams.antt =====
-- Framing, RTP and the frame buffer on small inputs.
use selkies_core.Prelude.{
  ℕ, ◌<◌, ◌≡◌, refl, List, [], ◌∷◌, ◌++◌, map, Option, none, some, true, false, Bytes, inl, subst,
  length, flatten, arith,
}
use selkies_core.Framing.{frame_packet, new, extend, next_packet, drain, read_chunks, transmit}
use selkies_core.Framing.Stream.{read_chunks-flatten}
use selkies_core.Framing.RoundTrip.{read_chunks-transmit}
use selkies_core.Rtp.Packet.{Extension, RtpPacket, IsValid}
use selkies_core.Frames.{FrameState, pull_and_broadcast_rtp}
use selkies_core.Frames.Laws.{clear_marker, passed, Counted, passed-pull_and_broadcast_rtp}
use selkies_core.Frames.Cache.{CacheInv, pull_and_broadcast_rtp-CacheInv}

abbrev packets : List Bytes
packets = (1 ∷ 2 ∷ 3 ∷ []) ∷ (9 ∷ []) ∷ []

-- The framed packets, cut inside a length and inside a packet.
abbrev reads : List Bytes
reads = (0 ∷ []) ∷ (3 ∷ 1 ∷ 2 ∷ []) ∷ (3 ∷ 0 ∷ 1 ∷ 9 ∷ []) ∷ []

read_chunks-transmit_example :
    read_chunks new reads
    ≡ record { packets = packets; failure = none; decoder = record { buf = [] } }
unfolding transmit frame_packet flatten
read_chunks-transmit_example =
    read_chunks-transmit packets reads (omega arith, (omega arith, tt)) refl

read_chunks-flatten_example :
    let pieces = read_chunks new reads in
    let whole = drain (extend new (flatten reads)) in
    (pieces.packets ≡ whole.packets)
    × (pieces.failure ≡ whole.failure)
    × (whole.failure ≡ none → pieces.decoder ≡ whole.decoder)
unfolding next_packet new
read_chunks-flatten_example = read_chunks-flatten reads new refl

abbrev pub sample_packet : RtpPacket
sample_packet = record {
  marker = true;
  payload_type = 96;
  sequence = 4660;
  timestamp = 90000;
  ssrc = 7;
  csrcs = 5 ∷ [];
  extension = some (record { profile = 48862; words = 1 ∷ [] });
  payload = 101 ∷ 1 ∷ [];
}

pub sample_packet-IsValid : IsValid sample_packet
sample_packet-IsValid = record {
  payload_type_fits = omega arith;
  sequence_fits = omega arith;
  timestamp_fits = omega arith;
  ssrc_fits = omega arith;
  csrcs_fit = omega arith;
  words_fit = words_fit;
}
  where
    words_fit :
        (e : Extension)
        → some (record { profile = 48862; words = 1 ∷ [] }) ≡ some e
        → length e.words < 65536
    words_fit e h =
        subst
          (λ (o : Option Extension). elim o [ none ↦ Unit {0} | some x ↦ length x.words < 65536 ]) h
          (omega arith)

abbrev start : FrameState
start = record {
  frame_buf = [];
  keyframe_buf = [];
  in_keyframe = false;
  rtp_count = 0;
  prev_ts = none;
  last_sample = none;
  keyframe_cache = [];
  sent = [];
}

-- A keyframe packet of type 5 at time 1, and the next frame's first packet at time 2.
abbrev samples : List (ℕ × Bytes)
samples =
    (1, 128 ∷ 96 ∷ 0 ∷ 1 ∷ 0 ∷ 0 ∷ 0 ∷ 1 ∷ 0 ∷ 0 ∷ 0 ∷ 0 ∷ 5 ∷ [])
    ∷ (2, 128 ∷ 96 ∷ 0 ∷ 2 ∷ 0 ∷ 0 ∷ 0 ∷ 2 ∷ 0 ∷ 0 ∷ 0 ∷ 0 ∷ 1 ∷ [])
    ∷ []

abbrev waiting : FrameState
waiting = record start { frame_buf = map (λ x. x.1) samples }

passed-pull_and_broadcast_rtp_example :
    (passed (pull_and_broadcast_rtp start samples 60)
      ≡ passed start ++ map (λ x. clear_marker x.1) samples)
    × Counted start (pull_and_broadcast_rtp start samples 60)
passed-pull_and_broadcast_rtp_example = passed-pull_and_broadcast_rtp samples start 60

pull_and_broadcast_rtp-CacheInv_example : CacheInv (pull_and_broadcast_rtp start samples 60)
pull_and_broadcast_rtp-CacheInv_example =
    pull_and_broadcast_rtp-CacheInv samples start 60
      (record { collecting = λ h. cc; cached = inl refl })
