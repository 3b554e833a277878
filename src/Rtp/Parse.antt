-- ===== src/Rtp/Parse.antt =====
-- What the parser of src/webrtc/media_track.rs reads from a well-formed packet.
use selkies_core.Prelude.{
  ℕ, suc, ◌+◌, ◌*◌, ◌≡◌, ap, ◌∙◌, Option, none, some, ◌∷◌, Bytes, length, drop, arith,
}
use selkies_core.Rtp.Packet.{
  Extension, RtpPacket, words_onto, extension_onto, encode, length-words_onto, drop-words_onto,
}

-- The header's length, read from the first byte and the extension, on a packet whose fixed part
-- is there.
module _ (a b c d e f g h i j k l : ℕ) (rest : Bytes) where
  abbrev whole : Bytes
  whole = a ∷ b ∷ c ∷ d ∷ e ∷ f ∷ g ∷ h ∷ i ∷ j ∷ k ∷ l ∷ rest

  drop-fixed : (n : ℕ) → drop (12 + n) whole ≡ drop n rest
  drop-fixed n =
      let e : 12 + n ≡ suc (suc (suc (suc (suc (suc (suc (suc (suc (suc (suc (suc n))))))))))) =
        omega arith in
      ap (λ k. drop k whole) e

-- What stands between the fixed header and the payload, in bytes.
abbrev pub tail_length : RtpPacket → Option Extension → ℕ
tail_length p none = length p.csrcs * 4
tail_length p (some e) = length p.csrcs * 4 + (4 + length e.words * 4)

pub drop-encode :
    (p : RtpPacket) (x : Option Extension)
    → p.extension ≡ x
    → drop (12 + tail_length p x) (encode p) ≡ p.payload
unfolding encode
drop-encode p none is =
    let e : length p.csrcs * 4 ≡ length p.csrcs * 4 + 0 = omega arith in
    rw (is, drop-fixed _ _ _ _ _ _ _ _ _ _ _ _ _)
      (ap (λ k. drop k (words_onto p.csrcs p.payload)) e ∙ drop-words_onto p.csrcs p.payload 0)
drop-encode p (some e) is =
    let four : 4 + length e.words * 4 ≡ suc (suc (suc (suc (length e.words * 4 + 0)))) =
      omega arith in
    rw (is, drop-fixed _ _ _ _ _ _ _ _ _ _ _ _ _, drop-words_onto p.csrcs _ _, four)
      (drop-words_onto e.words p.payload 0)

length-extension_onto :
    (p : RtpPacket) (x : Option Extension)
    → length p.csrcs * 4 + length (extension_onto x p.payload) ≡ tail_length p x + length p.payload
length-extension_onto p none = omega arith
length-extension_onto p (some e) = omega (arith, length-words_onto e.words p.payload)

pub length-encode :
    (p : RtpPacket) → length (encode p) ≡ 12 + tail_length p p.extension + length p.payload
unfolding encode
length-encode p = omega (
  arith,
  length-words_onto p.csrcs (extension_onto p.extension p.payload),
  length-extension_onto p p.extension,
)
