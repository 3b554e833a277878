-- ===== src/Http.antt =====
-- src/web/http_server.rs: what a new connection on the shared port speaks, the check of the
-- password, and its change. The base64 codec and the UTF-8 decoder are parameters; a request is its
-- path and its `Authorization` header, as `to_str` reads it.
pub mod Classify
pub mod Auth
use selkies_core.Prelude.{
  ℕ, ◌+◌, ◌<◌, Bool, true, false, not, ◌&&◌, ◌||◌, List, [], ◌∷◌, Option, none, some, Bytes, Text,
  codes, length, same, starts_with, strip_prefix, split_once, ltb, leb, ◌==◌, if◌then◌else◌,
  unwrap_or, is_some, and_then,
}

pub data ConnectionType : Type 0 where
  http : ConnectionType
  ice_tcp : ConnectionType
  tls : ConnectionType
  unknown : ConnectionType

abbrev pub methods : List Bytes
methods =
    codes "GET"
    ∷ codes "POST"
    ∷ codes "HEAD"
    ∷ codes "PUT"
    ∷ codes "PATCH"
    ∷ codes "DELETE"
    ∷ codes "OPTIONS"
    ∷ codes "CONNECT"
    ∷ codes "TRACE"
    ∷ []

abbrev pub any_prefix : List Bytes → Bytes → Bool
any_prefix [] buf = false
any_prefix (m ∷ ms) buf = starts_with buf m || any_prefix ms buf

abbrev pub is_ascii_alphabetic : ℕ → Bool
is_ascii_alphabetic b = leb 65 b && leb b 90 || leb 97 b && leb b 122

abbrev pub first_is_letter : Bytes → Bool
first_is_letter [] = false
first_is_letter (b ∷ buf) = is_ascii_alphabetic b

unfoldable pub looks_like_http : Bytes → Bool
looks_like_http buf = any_prefix methods buf || ltb (length buf) 3 && first_is_letter buf

-- A record of type 0x16: the version byte tells TLS from DTLS.
abbrev handshake : Bytes → ConnectionType
handshake [] = ConnectionType.ice_tcp
handshake (b1 ∷ rest) = if b1 == 0x03 then ConnectionType.tls else ConnectionType.ice_tcp

unfoldable pub classify_first_bytes : Bytes → ConnectionType
unfolding looks_like_http
classify_first_bytes [] = ConnectionType.unknown
classify_first_bytes (b0 ∷ rest) =
    if looks_like_http (b0 ∷ rest)
    then ConnectionType.http
    else if b0 == 0x16
    then handshake rest
    else if leb b0 0x03 || leb 0x14 b0 && leb b0 0x17
    then ConnectionType.ice_tcp
    else ConnectionType.unknown

-- The fields of the shared state that the check reads.
pub record AuthState : Type 0 where
  pub enabled : Bool
  pub user : Text
  pub password : Text
  pub password_override : Option Text

pub record Request : Type 0 where
  pub path : Text
  pub authorization : Option Text

pub record Codec : Type 0 where
  pub decode : Text → Option Bytes
  pub from_utf8 : Bytes → Option Text

unfoldable pub is_open_path : Text → Bool
is_open_path path =
    same path (codes "/health")
    || same path (codes "/manifest.json")
    || same path (codes "/sw.js")
    || starts_with path (codes "/icons/")

abbrev pub expected_password : AuthState → Text
expected_password s = unwrap_or s.password_override s.password

-- The chain of `if let`s on the header's value.
unfoldable pub credentials : Codec → Text → Option (Text × Text)
credentials cd value = and_then (strip_prefix value (codes "Basic ")) λ encoded.
    and_then (cd.decode encoded)
      λ decoded. and_then (cd.from_utf8 decoded) λ decoded_str. split_once 58 decoded_str

abbrev pub matches : AuthState → Option (Text × Text) → Bool
matches s none = false
matches s (some (user, pass)) = same user s.user && same pass (expected_password s)

unfoldable pub header_matches : Codec → AuthState → Option Text → Bool
unfolding credentials
header_matches cd s none = false
header_matches cd s (some value) = matches s (credentials cd value)

-- Whether the request is handed on; if not, the answer is 401.
unfoldable pub basic_auth_middleware : Codec → AuthState → Request → Bool
unfolding is_open_path header_matches
basic_auth_middleware cd s req =
    if not s.enabled
    then true
    else if is_open_path req.path
    then true
    else header_matches cd s req.authorization

pub data PasswordReply : Type 0 where
  missing : PasswordReply
  too_short : PasswordReply
  changed : PasswordReply

-- `str::len`: the bytes of the text's UTF-8 form.
unfoldable pub utf8_len : Text → ℕ
utf8_len [] = 0
utf8_len (c ∷ s) =
    (if ltb c 0x80 then 1 else if ltb c 0x800 then 2 else if ltb c 0x10000 then 3 else 4)
    + utf8_len s

-- On the `new_password` string of the body, if it has one.
unfoldable pub change_password : Option Text → AuthState → PasswordReply × AuthState
unfolding utf8_len
change_password none s = (PasswordReply.missing, s)
change_password (some new_password) s =
    if ltb (utf8_len new_password) 4
    then (PasswordReply.too_short, s)
    else (PasswordReply.changed, record s { password_override = some new_password })
