-- ===== src/Rtp/Packet.antt =====
-- An RTP packet as RFC 3550 lays it out, written independently of the parser of
-- src/webrtc/media_track.rs.
use selkies_core.Prelude.{
  ℕ, suc, ◌+◌, ◌*◌, ◌/◌, ◌%◌, ◌<◌, ◌≡◌, ap, ◌∙◌, Bool, Option, none, some, List, [], ◌∷◌, Bytes,
  length, get_or, drop, arith, if◌then◌else◌,
}

pub record Extension : Type 0 where
  pub profile : ℕ
  pub words : List ℕ

pub record RtpPacket : Type 0 where
  pub marker : Bool
  pub payload_type : ℕ
  pub sequence : ℕ
  pub timestamp : ℕ
  pub ssrc : ℕ
  pub csrcs : List ℕ
  pub extension : Option Extension
  pub payload : Bytes

-- The fields fit their bits.
pub record IsValid (p : RtpPacket) : Type 0 where
  pub payload_type_fits : p.payload_type < 128
  pub sequence_fits : p.sequence < 65536
  pub timestamp_fits : p.timestamp < 4294967296
  pub ssrc_fits : p.ssrc < 4294967296
  pub csrcs_fit : length p.csrcs < 16
  pub words_fit : (e : Extension) → p.extension ≡ some e → length e.words < 65536

-- A big-endian 32-bit word.
abbrev pub word : ℕ → Bytes → Bytes
word w rest = (w / 16777216 % 256) ∷ (w / 65536 % 256) ∷ (w / 256 % 256) ∷ (w % 256) ∷ rest

abbrev pub words_onto : List ℕ → Bytes → Bytes
words_onto [] rest = rest
words_onto (w ∷ ws) rest = word w (words_onto ws rest)

abbrev pub extension_onto : Option Extension → Bytes → Bytes
extension_onto none rest = rest
extension_onto (some e) rest =
    (e.profile / 256 % 256)
    ∷ (e.profile % 256)
    ∷ (length e.words / 256 % 256)
    ∷ (length e.words % 256)
    ∷ words_onto e.words rest

abbrev extension_bit : Option Extension → ℕ
extension_bit none = 0
extension_bit (some e) = 1

-- Version 2, no padding.
unfoldable pub encode : RtpPacket → Bytes
encode p =
    (128 + extension_bit p.extension * 16 + length p.csrcs)
    ∷ ((if p.marker then 128 else 0) + p.payload_type)
    ∷ (p.sequence / 256)
    ∷ (p.sequence % 256)
    ∷ word p.timestamp (word p.ssrc (words_onto p.csrcs (extension_onto p.extension p.payload)))

pub length-words_onto :
    (ws : List ℕ) (rest : Bytes) → length (words_onto ws rest) ≡ length ws * 4 + length rest
length-words_onto [] rest = omega arith
length-words_onto (w ∷ ws) rest = omega (arith, length-words_onto ws rest)

pub get_or-words_onto :
    (ws : List ℕ) (rest : Bytes) (i : ℕ)
    → get_or (words_onto ws rest) (length ws * 4 + i) 0 ≡ get_or rest i 0
get_or-words_onto [] rest i = ap (λ k. get_or rest k 0) (omega arith)
get_or-words_onto (w ∷ ws) rest i =
    let e : suc (length ws) * 4 + i ≡ suc (suc (suc (suc (length ws * 4 + i)))) = omega arith in
    ap (λ k. get_or (words_onto (w ∷ ws) rest) k 0) e ∙ get_or-words_onto ws rest i

pub drop-words_onto :
    (ws : List ℕ) (rest : Bytes) (i : ℕ)
    → drop (length ws * 4 + i) (words_onto ws rest) ≡ drop i rest
drop-words_onto [] rest i = ap (λ k. drop k rest) (omega arith)
drop-words_onto (w ∷ ws) rest i =
    let e : suc (length ws) * 4 + i ≡ suc (suc (suc (suc (length ws * 4 + i)))) = omega arith in
    ap (λ k. drop k (words_onto (w ∷ ws) rest)) e ∙ drop-words_onto ws rest i
