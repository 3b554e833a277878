-- ===== src/Drive/Media.antt =====
-- `write_video_rtp` and `write_audio_rtp` of src/webrtc/rtc_session.rs: what of the encoder's packets
-- reaches str0m, and under which numbers.
use selkies_core.Prelude.{
  ℕ, ◌+◌, ◌%◌, ◌^◌, ◌<◌, true, false, List, [], ◌∷◌, Option, some, Bytes, Text, length, unwrap_or,
}
use selkies_core.Rtp.Packet
use selkies_core.Rtp.Packet.{RtpPacket}
use selkies_core.Drive.{RtpWrite, RtcSession}

-- The packet is well formed and carries something.
abbrev pub Carries : RtpPacket → Type 0
Carries p = Packet.IsValid p × (0 < length p.payload)

-- The call of `write_rtp` for a packet of the encoder.
abbrev pub forwarded : Text → Option ℕ → ℕ → RtpPacket → RtpWrite
forwarded mid pt seq p = record {
  mid = mid;
  pt = unwrap_or pt p.payload_type;
  seq = seq;
  timestamp = p.timestamp;
  marker = p.marker;
  nackable = true;
  payload = p.payload;
}

-- One for each packet, numbered from `seq` on.
abbrev pub all_forwarded : Text → Option ℕ → ℕ → List RtpPacket → List RtpWrite
all_forwarded mid pt seq [] = []
all_forwarded mid pt seq (p ∷ ps) = forwarded mid pt seq p ∷ all_forwarded mid pt (seq + 1) ps

abbrev pub spoken : Text → Option ℕ → ℕ → ℕ → Bytes → RtpWrite
spoken mid pt seq timestamp opus = record {
  mid = mid;
  pt = unwrap_or pt 111;
  seq = seq;
  timestamp = timestamp;
  marker = false;
  nackable = false;
  payload = opus;
}

-- One for each Opus packet, numbered from `seq` on and 960 samples apart.
abbrev pub all_spoken : Text → Option ℕ → ℕ → ℕ → List Bytes → List RtpWrite
all_spoken mid pt seq timestamp [] = []
all_spoken mid pt seq timestamp (p ∷ ps) =
    spoken mid pt seq (timestamp % 2 ^ 32) p ∷ all_spoken mid pt (seq + 1) (timestamp + 960) ps

-- A session whose two media lines are negotiated.
abbrev pub negotiated : Text → Text → RtcSession → RtcSession
negotiated v a s = record s { video_mid = some v; audio_mid = some a; connected = true }
