-- ===== src/Drive.antt =====
-- src/webrtc/rtc_session.rs: a session that is connected. str0m is a parameter: a machine that is
-- polled for outputs and told of timeouts, whose writes of RTP are a log. Media lines are texts,
-- channels and payload types numbers, as str0m names them.
pub mod Media
pub mod Drain
use selkies_core.Prelude.{
  ℕ, zero, suc, ◌+◌, ◌%◌, ◌^◌, Bool, true, false, not, ◌||◌, List, [], ◌∷◌, ◌++◌, Option, none,
  some, Bytes, Text, length, drop, ltb, leb, ◌==◌, if◌then◌else◌, unwrap_or,
}
use selkies_core.Rtp.{get_payload_type, is_marker_set, get_timestamp, header_length}
use selkies_core.Framing.{frame_packet}
use selkies_core.Shared.{SharedState, bump, request_keyframe}
use selkies_core.Dispatch.{World, Outside, ChannelData, handle_datachannel_data}

-- A call of `StreamTx::write_rtp`.
pub record RtpWrite : Type 0 where
  pub mid : Text
  pub pt : ℕ
  pub seq : ℕ
  pub timestamp : ℕ
  pub marker : Bool
  pub nackable : Bool
  pub payload : Bytes

-- The session without its id and its str0m instance; `rtp_writes` is the log.
pub record RtcSession : Type 0 where
  pub video_mid : Option Text
  pub audio_mid : Option Text
  pub dc_id : Option ℕ
  pub video_pt : Option ℕ
  pub audio_pt : Option ℕ
  pub connected : Bool
  pub video_seq : ℕ
  pub audio_seq : ℕ
  pub rtp_writes : List RtpWrite

unfoldable pub new : RtcSession
new = record {
  video_mid = none;
  audio_mid = none;
  dc_id = none;
  video_pt = none;
  audio_pt = none;
  connected = false;
  video_seq = 0;
  audio_seq = 0;
  rtp_writes = [];
}

-- `stream_tx_by_mid(mid)`, and the write if there is a stream.
abbrev pub write_rtp : (Text → Bool) → RtpWrite → RtcSession → RtcSession
write_rtp has_stream x s =
    if has_stream x.mid then record s { rtp_writes = s.rtp_writes ++ x ∷ [] } else s

unfoldable pub write_video_rtp : (Text → Bool) → Bytes → RtcSession → RtcSession
write_video_rtp has_stream packet s = elim s.video_mid [
  | none ↦ s
  | some mid ↦
      let header_len = unwrap_or (header_length packet) 12 in
      if ltb (length packet) 12
      then s
      else if not (ltb header_len (length packet))
      then s
      else write_rtp has_stream
          (record {
            mid = mid;
            pt = unwrap_or s.video_pt (unwrap_or (get_payload_type packet) 96);
            seq = s.video_seq;
            timestamp = unwrap_or (get_timestamp packet) 0;
            marker = is_marker_set packet;
            nackable = true;
            payload = drop header_len packet;
          })
          (record s { video_seq = s.video_seq + 1 })
]

unfoldable pub write_audio_rtp : (Text → Bool) → Bytes → ℕ → RtcSession → RtcSession
write_audio_rtp has_stream opus timestamp s = elim s.audio_mid [
  | none ↦ s
  | some mid ↦
      write_rtp has_stream
        (record {
          mid = mid;
          pt = unwrap_or s.audio_pt 111;
          seq = s.audio_seq;
          timestamp = timestamp;
          marker = false;
          nackable = false;
          payload = opus;
        })
        (record s { audio_seq = s.audio_seq + 1 })
]

-- A round of `drive_session` that video wakes: the packet received and those that wait behind it.
unfoldable pub write_videos : (Text → Bool) → List Bytes → RtcSession → RtcSession
unfolding write_video_rtp
write_videos has_stream [] s = s
write_videos has_stream (p ∷ ps) s = write_videos has_stream ps (write_video_rtp has_stream p s)

abbrev pub samples_per_frame : ℕ
samples_per_frame = 960

-- The same for audio, with the timestamp of the next packet, a `u32` that wraps.
unfoldable pub write_audios : (Text → Bool) → List Bytes → ℕ × RtcSession → ℕ × RtcSession
unfolding write_audio_rtp
write_audios has_stream [] (timestamp, s) = (timestamp, s)
write_audios has_stream (p ∷ ps) (timestamp, s) =
    write_audios has_stream ps
      ((timestamp + samples_per_frame) % 2 ^ 32, write_audio_rtp has_stream p timestamp s)

-- `Some(pkt) if session.connected`.
unfoldable pub receive_video : (Text → Bool) → List Bytes → RtcSession → RtcSession
unfolding write_videos
receive_video has_stream ps s = if s.connected then write_videos has_stream ps s else s

unfoldable pub receive_audio : (Text → Bool) → List Bytes → ℕ × RtcSession → ℕ × RtcSession
unfolding write_audios
receive_audio has_stream ps (timestamp, s) =
    if s.connected then write_audios has_stream ps (timestamp, s) else (timestamp, s)

pub data MediaKind : Type 0 where
  video audio : MediaKind

pub data Codec : Type 0 where
  h264 opus other : Codec

-- str0m's events that the code looks at. A new media line comes with the negotiated codecs, and
-- data with what other code answers while it is handled.
pub data Event (Value : Type 0) : Type 0 where
  connected : Event Value
  media_added : MediaKind → Text → List (Codec × ℕ) → Event Value
  ice_disconnected : Event Value
  channel_open : ℕ → Event Value
  channel_data : Outside Value → ChannelData → Event Value
  channel_close : ℕ → Event Value
  keyframe_request : Event Value
  unhandled : Event Value

-- The payload type of the first entry for H264 or Opus, or the former one.
unfoldable pub video_pt_of : List (Codec × ℕ) → Option ℕ → Option ℕ
video_pt_of [] old = old
video_pt_of ((Codec.h264, pt) ∷ ps) old = some pt
video_pt_of ((Codec.opus, pt) ∷ ps) old = video_pt_of ps old
video_pt_of ((Codec.other, pt) ∷ ps) old = video_pt_of ps old

unfoldable pub audio_pt_of : List (Codec × ℕ) → Option ℕ → Option ℕ
audio_pt_of [] old = old
audio_pt_of ((Codec.opus, pt) ∷ ps) old = some pt
audio_pt_of ((Codec.h264, pt) ∷ ps) old = audio_pt_of ps old
audio_pt_of ((Codec.other, pt) ∷ ps) old = audio_pt_of ps old

-- `session.dc_id == Some(id)`.
abbrev pub is_channel : Option ℕ → ℕ → Bool
is_channel none id = false
is_channel (some c) id = c == id

abbrev pub opened : World → World
opened w = record w {
  shared = record w.shared { datachannel_open_count = bump w.shared.datachannel_open_count };
}

module _ {Value : Type 0} where
  unfoldable pub handle_event : Event Value → RtcSession × World → RtcSession × World
  unfolding video_pt_of audio_pt_of handle_datachannel_data request_keyframe
  handle_event Event.connected (s, w) = (record s { connected = true }, w)
  handle_event (Event.media_added MediaKind.video mid params) (s, w) =
      (record s { video_mid = some mid; video_pt = video_pt_of params s.video_pt }, w)
  handle_event (Event.media_added MediaKind.audio mid params) (s, w) =
      (record s { audio_mid = some mid; audio_pt = audio_pt_of params s.audio_pt }, w)
  handle_event Event.ice_disconnected (s, w) = (record s { connected = false }, w)
  handle_event (Event.channel_open id) (s, w) = (record s { dc_id = some id }, opened w)
  handle_event (Event.channel_data o m) (s, w) = (s, handle_datachannel_data o m w)
  handle_event (Event.channel_close id) (s, w) =
      (if is_channel s.dc_id id then record s { dc_id = none } else s, w)
  handle_event Event.keyframe_request (s, w) = (s, record w { shared = request_keyframe w.shared })
  handle_event Event.unhandled (s, w) = (s, w)

-- What `poll_output` gives.
pub data Output (Value : Type 0) : Type 0 where
  transmit : Bytes → Output Value
  event : Event Value → Output Value
  timeout : ℕ → Output Value
  failed : Output Value

-- str0m: a poll, and a timeout that it may refuse.
pub record Rtc (Value S : Type 0) : Type 0 where
  pub poll_output : S → Output Value × S
  pub handle_timeout : S → Bool × S

-- How draining ends: at a timeout, with an error, at the assertion in `frame_packet`, or, in the
-- model alone, with no fuel.
pub data Stop : Type 0 where
  next : ℕ → Stop
  connection_failed : Stop
  panicked : Stop
  stuck : Stop

pub record Link (S : Type 0) : Type 0 where
  pub rtc : S
  pub peer : RtcSession × World
  pub written : List Bytes

pub record Polled (S : Type 0) : Type 0 where
  pub stop : Stop
  pub had_transmit : Bool
  pub link : Link S

pub record Drained (S : Type 0) : Type 0 where
  pub stop : Stop
  pub cycles : ℕ
  pub link : Link S

abbrev pub max_drain_cycles : ℕ
max_drain_cycles = 512

-- `takes` says of what was written so far whether the connection takes the next frame.
module _ {Value S : Type 0} (rtc : Rtc Value S) (takes : List Bytes → Bool) where
  abbrev ended : Stop → Bool → Link S → Polled S
  ended stop had l = record { stop = stop; had_transmit = had; link = l }

  abbrev pub on_frame : (Bool → Link S → Polled S) → Option Bytes → Link S → Polled S
  on_frame again none l = ended Stop.panicked true l
  on_frame again (some frame) l =
      if takes l.written
      then again true (record l { written = l.written ++ frame ∷ [] })
      else ended Stop.connection_failed true l

  abbrev pub on_output : (Bool → Link S → Polled S) → Output Value → Bool → Link S → Polled S
  on_output again (Output.transmit packet) had l = on_frame again (frame_packet packet) l
  on_output again (Output.event e) had l = again had (record l { peer = handle_event e l.peer })
  on_output again (Output.timeout t) had l = ended (Stop.next t) had l
  on_output again Output.failed had l = ended Stop.connection_failed had l

  -- The inner loop.
  unfoldable pub poll_outputs : ℕ → Bool → Link S → Polled S
  poll_outputs zero had l = ended Stop.stuck had l
  poll_outputs (suc fuel) had l =
      let (output, rest) = rtc.poll_output l.rtc in
      on_output (poll_outputs fuel) output had (record l { rtc = rest })

  abbrev pub re_trigger : (Link S → Drained S) → Stop → ℕ → Bool × S → Link S → Drained S
  re_trigger again stop cycles (true, rest) l = again (record l { rtc = rest })
  re_trigger again stop cycles (false, rest) l = record {
    stop = stop;
    cycles = cycles;
    link = record l { rtc = rest };
  }

  abbrev pub on_polled : (ℕ → Link S → Drained S) → ℕ → Polled S → Drained S
  on_polled again cycles p = elim p.stop [
    | Stop.next t ↦
        if not p.had_transmit || leb max_drain_cycles (cycles + 1)
        then record { stop = Stop.next t; cycles = cycles + 1; link = p.link }
        else re_trigger (again (cycles + 1)) (Stop.next t) (cycles + 1)
            (rtc.handle_timeout p.link.rtc) p.link
    | stop ↦ record { stop = stop; cycles = cycles; link = p.link }
  ]

  -- The outer loop; `left` bounds the outputs before the next timeout, and is the inner loop's fuel.
  unfoldable pub drain_cycles : (S → ℕ) → ℕ → ℕ → Link S → Drained S
  unfolding poll_outputs
  drain_cycles left zero cycles l = record { stop = Stop.stuck; cycles = cycles; link = l }
  drain_cycles left (suc fuel) cycles l =
      on_polled (drain_cycles left fuel) cycles (poll_outputs (suc (left l.rtc)) false l)

  unfoldable pub drain_outputs : (S → ℕ) → Link S → Drained S
  unfolding drain_cycles
  drain_outputs left l = drain_cycles left max_drain_cycles 0 l
