-- ===== src/Framing.antt =====
-- src/webrtc/tcp_framing.rs: RFC 4571 framing of packets over TCP, and the loops of
-- src/webrtc/rtc_session.rs and src/webrtc/session.rs that take packets out of the decoder.
pub mod Steps
pub mod Stream
pub mod RoundTrip
use selkies_core.Prelude.{
  ℕ, zero, suc, ◌+◌, ◌*◌, ◌/◌, ◌%◌, List, [], ◌∷◌, ◌++◌, Option, none, some, Bytes, length, get_or,
  take, drop, ltb, leb, ◌==◌, if◌then◌else◌, Result, ok, err, and_then,
}

-- A 2-byte big-endian length, then the data. `none` is the failed assertion.
unfoldable pub frame_packet : Bytes → Option Bytes
frame_packet bytes =
    if leb (length bytes) 65535
    then some ((length bytes / 256) ∷ (length bytes % 256) ∷ bytes)
    else none

abbrev pub max_rfc4571_frame : ℕ
max_rfc4571_frame = 65535

pub data TcpFrameError : Type 0 where
  frame_too_large : ℕ → TcpFrameError
  zero_length : TcpFrameError

pub record TcpFrameDecoder : Type 0 where
  pub buf : Bytes

unfoldable pub new : TcpFrameDecoder
new = record { buf = [] }

abbrev pub extend : TcpFrameDecoder → Bytes → TcpFrameDecoder
extend d bytes = record { buf = d.buf ++ bytes }

-- The result, and the decoder behind the call.
abbrev pub Next : Type 0
Next = Result TcpFrameError (Option Bytes) × TcpFrameDecoder

-- The two length bytes stand in a buffer of at least two: the reads are in range.
abbrev pub declared_length : Bytes → ℕ
declared_length buf = get_or buf 0 0 * 256 + get_or buf 1 0

unfoldable pub next_packet : TcpFrameDecoder → Next
next_packet d =
    if ltb (length d.buf) 2
    then (ok none, d)
    else (let size = declared_length d.buf in
        if size == 0
        then (err zero_length, d)
        else if ltb max_rfc4571_frame size
        then (err (frame_too_large size), d)
        else if ltb (length d.buf) (2 + size)
        then (ok none, d)
        else (ok (some (drop 2 (take (2 + size) d.buf))), record { buf = drop (2 + size) d.buf }))

unfoldable pub take_remaining : TcpFrameDecoder → Bytes × TcpFrameDecoder
take_remaining d = (d.buf, record { buf = [] })

-- What a run of `next_packet` leaves: the packets taken, the error that stopped it, the decoder.
pub record Drained : Type 0 where
  pub packets : List Bytes
  pub failure : Option TcpFrameError
  pub decoder : TcpFrameDecoder

-- `loop { match decoder.next_packet() { .. } }`, with fuel for the rounds, for packets that
-- `handle_input` of str0m takes: a packet that it refuses ends the session there.
unfoldable pub drain_fuel : ℕ → TcpFrameDecoder → Drained
drain_fuel zero d = record { packets = []; failure = none; decoder = d }
drain_fuel (suc fuel) d =
    let (result, d') = next_packet d in
    elim result [
      | ok none ↦ record { packets = []; failure = none; decoder = d' }
      | err e ↦ record { packets = []; failure = some e; decoder = d' }
      | ok (some p) ↦ let rest = drain_fuel fuel d' in record rest { packets = p ∷ rest.packets }
    ]

-- Each packet taken shortens the buffer, so its length is fuel enough.
unfoldable pub drain : TcpFrameDecoder → Drained
unfolding drain_fuel
drain d = drain_fuel (length d.buf) d

-- One TCP read after another, each followed by the loop; an error ends the session.
unfoldable pub read_chunks : TcpFrameDecoder → List Bytes → Drained
unfolding drain
read_chunks d [] = record { packets = []; failure = none; decoder = d }
read_chunks d (c ∷ cs) =
    let first = drain (extend d c) in
    let rest = read_chunks first.decoder cs in
    elim first.failure [
      | some e ↦ first
      | none ↦ record rest { packets = first.packets ++ rest.packets }
    ]

-- The sending side, `drain_outputs`: each packet framed and written to the connection in turn.
unfoldable pub transmit : List Bytes → Option Bytes
transmit [] = some []
transmit (p ∷ ps) = and_then (frame_packet p) λ f. and_then (transmit ps) λ rest. some (f ++ rest)
