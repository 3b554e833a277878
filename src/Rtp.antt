-- ===== src/Rtp.antt =====
-- src/webrtc/media_track.rs: the RTP header fields. `x & 0x7F`, `x & 0x80` and the like are written
-- as `%` and `/` by powers of two. Every read stands behind a test of the packet's length.
pub mod Packet
pub mod Parse
use selkies_core.Prelude.{
  ℕ, ◌+◌, ◌*◌, ◌/◌, ◌%◌, Bool, false, not, Option, none, some, Bytes, length, get_or, drop, ltb,
  ◌==◌, if◌then◌else◌, and_then,
}

abbrev pub byte_at : Bytes → ℕ → ℕ
byte_at packet i = get_or packet i 0

-- `u16::from_be_bytes`, `u32::from_be_bytes` of the bytes from `i` on.
abbrev pub be16 : Bytes → ℕ → ℕ
be16 p i = byte_at p i * 256 + byte_at p (i + 1)

abbrev pub be32 : Bytes → ℕ → ℕ
be32 p i =
    byte_at p i * 16777216 + byte_at p (i + 1) * 65536 + byte_at p (i + 2) * 256 + byte_at p (i + 3)

unfoldable pub get_sequence : Bytes → Option ℕ
get_sequence packet = if ltb (length packet) 4 then none else some (be16 packet 2)

unfoldable pub get_timestamp : Bytes → Option ℕ
get_timestamp packet = if ltb (length packet) 8 then none else some (be32 packet 4)

unfoldable pub get_ssrc : Bytes → Option ℕ
get_ssrc packet = if ltb (length packet) 12 then none else some (be32 packet 8)

unfoldable pub get_payload_type : Bytes → Option ℕ
get_payload_type packet = if ltb (length packet) 2 then none else some (byte_at packet 1 % 128)

unfoldable pub is_marker_set : Bytes → Bool
is_marker_set packet =
    if ltb (length packet) 2 then false else not ((byte_at packet 1 / 128) % 2 == 0)

unfoldable pub header_length : Bytes → Option ℕ
header_length packet =
    if ltb (length packet) 12
    then none
    else (let len = 12 + byte_at packet 0 % 16 * 4 in
        if not ((byte_at packet 0 / 16) % 2 == 0)
        then (if ltb (length packet) (len + 4)
            then none
            else some (len + (4 + be16 packet (len + 2) * 4)))
        else some len)

unfoldable pub get_payload : Bytes → Option Bytes
unfolding header_length
get_payload packet =
    and_then (header_length packet)
      λ len. if ltb len (length packet) then some (drop len packet) else none
