-- ===== src/Tests/Web.antt =====
-- The shared port and the password check on small inputs.
use selkies_core.Prelude.{◌≡◌, ◌↔◌, refl, [], ◌∷◌, none, some, true, codes, take, arith}
use selkies_core.Framing.{frame_packet}
use selkies_core.Http.{
  ConnectionType, classify_first_bytes, AuthState, Request, Codec, basic_auth_middleware,
}
use selkies_core.Http.Classify.{classify_first_bytes-frame_packet}
use selkies_core.Http.Auth.{Admitted, basic_auth_middleware_iff}

classify_first_bytes-frame_packet_example :
    classify_first_bytes (take 2 (0 ∷ 3 ∷ 1 ∷ 1 ∷ 0 ∷ [])) ≡ ConnectionType.ice_tcp
unfolding frame_packet
classify_first_bytes-frame_packet_example =
    classify_first_bytes-frame_packet (1 ∷ 1 ∷ 0 ∷ []) (0 ∷ 3 ∷ 1 ∷ 1 ∷ 0 ∷ []) 2 (omega arith) refl
      (omega arith)

-- A codec that leaves its input as it is.
abbrev codec : Codec
codec = record { decode = λ t. some t; from_utf8 = λ b. some b }

abbrev auth : AuthState
auth = record {
  enabled = true;
  user = codes "user";
  password = codes "mypasswd";
  password_override = none;
}

abbrev request : Request
request = record { path = codes "/"; authorization = some (codes "Basic user:mypasswd") }

basic_auth_middleware_iff_example :
    (basic_auth_middleware codec auth request ≡ true) ↔ Admitted codec auth request
basic_auth_middleware_iff_example =
    basic_auth_middleware_iff codec auth request (refl, (refl, (refl, (refl, tt))))
