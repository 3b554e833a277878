-- ===== src/Http/Classify.antt =====
-- `classify_first_bytes` of src/web/http_server.rs, against the framing of
-- src/webrtc/tcp_framing.rs: a client's first packet on the shared port is recognised.
use selkies_core.Prelude.{
  ℕ, zero, suc, sym, ap, ◌∙◌, unwrap_or, ◌||◌, ◌&&◌, ◌/◌, ◌%◌, ◌≤◌, ◌<◌, ◌≡◌, refl, Bool, true,
  false, [], ◌∷◌, some, Bytes, length, starts_with, strip_prefix, leb, ◌==◌, take, arith,
}
use selkies_core.Http.{ConnectionType, classify_first_bytes, looks_like_http}
use selkies_core.Framing.{frame_packet}

some-injective : {a b : Bytes} → some a ≡ some b → a ≡ b
some-injective e = ap (λ o. unwrap_or o []) e

and_false : (t : Bool) → (t && false) ≡ false
and_false t = ground arith

low-not-http : (b : ℕ) (rest : Bytes) → b ≤ 3 → looks_like_http (b ∷ rest) ≡ false
unfolding looks_like_http starts_with strip_prefix
low-not-http zero rest h = and_false _
low-not-http (suc zero) rest h = and_false _
low-not-http (suc (suc zero)) rest h = and_false _
low-not-http (suc (suc (suc zero))) rest h = and_false _
low-not-http (suc (suc (suc (suc b)))) rest h = absurd (omega arith)

first-low :
    (b : ℕ) (rest : Bytes) → b ≤ 3 → classify_first_bytes (b ∷ rest) ≡ ConnectionType.ice_tcp
unfolding classify_first_bytes
first-low b rest h =
    let no_http = low-not-http b rest h in
    let range : (leb b 0x03 || leb 0x14 b && leb b 0x17) ≡ true = ground arith in
    let no_record : (b == 0x16) ≡ false = ground arith in
    rw (classify_first_bytes, no_http, no_record, range) refl

-- A packet that the peer frames by RFC 4571 and that is shorter than 1024 bytes, as a STUN binding
-- request is, is taken for ICE-TCP, however few bytes (at least one) the first read brings.
pub classify_first_bytes-frame_packet :
    (p f : Bytes) (n : ℕ)
    → length p < 1024
    → frame_packet p ≡ some f
    → 0 < n
    → classify_first_bytes (take n f) ≡ ConnectionType.ice_tcp
unfolding frame_packet
classify_first_bytes-frame_packet p f zero short e pos = absurd (omega arith)
classify_first_bytes-frame_packet p f (suc n) short e pos =
    let fits : leb (length p) 65535 ≡ true = ground arith in
    let framed : frame_packet p ≡ some (length p / 256 ∷ length p % 256 ∷ p) = rw fits refl in
    let is : length p / 256 ∷ length p % 256 ∷ p ≡ f = some-injective (sym framed ∙ e) in
    rw (← is) (first-low (length p / 256) _ (omega arith))
