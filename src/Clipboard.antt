-- ===== src/Clipboard.antt =====
-- src/clipboard.rs: the clipboard a client sends, whole or in pieces, and `set_clipboard` and
-- `set_clipboard_binary` of src/web/shared.rs, which send it on to every session. The base64
-- codec, the check whether the system clipboard took a write, and the decimal form of a size are
-- what other code gives; the codec and the system clipboard are parameters.
pub mod Chunks
pub mod Invariant
pub mod Delivery
use selkies_core.Prelude.{
  ℕ, zero, suc, ◌+◌, ◌<◌, Bool, true, false, not, ◌||◌, List, [], ◌∷◌, ◌++◌, map, Option, none,
  some, Bytes, Text, codes, length, take, drop, is_empty, same, starts_with, trim,
  trim_start_matches, split_once, from_str_radix, show, ltb, leb, ◌==◌, if◌then◌else◌, unwrap_or,
  String,
}

abbrev pub max_clipboard_bytes : ℕ
max_clipboard_bytes = 16777216

-- `base64::engine::general_purpose::STANDARD`, and `system_clipboard::write`'s answer.
pub record Services : Type 0 where
  pub encode : Bytes → Text
  pub decode : Text → Option Bytes
  pub write_ok : Text → Bytes → Bool

-- What the handlers do outside the receiver, in order.
pub data Effect : Type 0 where
  incoming : Text → Effect
  system_write : Text → Bytes → Effect
  marked : Text → Bytes → Effect
  send_text : Text → Effect

-- `enabled` is the setting `enable_clipboard`, `binary` the runtime setting; `clipboard` is the
-- field of the shared state.
pub record ClipboardReceiver : Type 0 where
  pub enabled : Bool
  pub binary : Bool
  pub buffer : Option Bytes
  pub total_size : ℕ
  pub mime_type : Text
  pub in_progress : Bool
  pub is_binary : Bool
  pub clipboard : Option Text
  pub effects : List Effect

abbrev plain : Text
plain = codes "text/plain"

unfoldable pub new : Bool → Bool → ClipboardReceiver
new enabled binary = record {
  enabled = enabled;
  binary = binary;
  buffer = none;
  total_size = 0;
  mime_type = plain;
  in_progress = false;
  is_binary = false;
  clipboard = none;
  effects = [];
}

abbrev pub emit : List Effect → ClipboardReceiver → ClipboardReceiver
emit es s = record s { effects = s.effects ++ es }

-- `data.chunks(size)` for a size above 0; the length of the data is fuel enough.
chunks_fuel : ℕ → ℕ → Bytes → List Bytes
chunks_fuel zero size bytes = []
chunks_fuel (suc fuel) size bytes =
    let rest = chunks_fuel fuel size (drop size bytes) in
    if is_empty bytes then [] else take size bytes ∷ rest

unfoldable pub chunks : ℕ → Bytes → List Bytes
unfolding chunks_fuel
chunks size bytes = chunks_fuel (length bytes) size bytes

-- The messages that announce a large clipboard, one per piece, and close it.
unfoldable pub in_pieces : Services → Text → Bytes → List Text
unfolding chunks
in_pieces sv mime bytes =
    (codes "clipboard_start," ++ mime ++ 44 ∷ show (length bytes))
      ∷ map (λ chunk. codes "clipboard_data," ++ sv.encode chunk) (chunks 4096 bytes)
    ++ codes "clipboard_finish" ∷ []

unfoldable pub text_messages : Services → Text → List Text
unfolding in_pieces
text_messages sv base64_text =
    let whole = (codes "clipboard," ++ base64_text) ∷ [] in
    elim (sv.decode base64_text) [
      | none ↦ whole
      | some decoded ↦ if ltb 8192 (length decoded) then in_pieces sv plain decoded else whole
    ]

unfoldable pub set_clipboard : Services → Text → ClipboardReceiver → ClipboardReceiver
unfolding text_messages
set_clipboard sv base64_text s =
    emit (map Effect.send_text (text_messages sv base64_text))
      (record s { clipboard = some base64_text })

unfoldable pub binary_messages : Services → Text → Bytes → List Text
unfolding in_pieces
binary_messages sv mime bytes =
    if ltb 8192 (length bytes)
    then in_pieces sv mime bytes
    else (codes "clipboard_binary," ++ mime ++ 44 ∷ sv.encode bytes) ∷ []

unfoldable pub set_clipboard_binary :
    Services → Text → Bytes → ClipboardReceiver → ClipboardReceiver
unfolding binary_messages
set_clipboard_binary sv mime bytes s = emit (map Effect.send_text (binary_messages sv mime bytes)) s

-- `if system_clipboard::write(..) { self.state.mark_clipboard_written(..) }`.
unfoldable pub write_system : Services → Text → Bytes → ClipboardReceiver → ClipboardReceiver
write_system sv mime bytes s =
    emit
      (Effect.system_write mime bytes
        ∷ (if sv.write_ok mime bytes then Effect.marked mime bytes ∷ [] else []))
      s

unfoldable pub handle_single_text : Services → Text → ClipboardReceiver → ClipboardReceiver
unfolding set_clipboard
handle_single_text sv payload s = elim (sv.decode payload) [
  | none ↦ s
  | some bytes ↦
      if ltb max_clipboard_bytes (length bytes)
      then s
      else set_clipboard sv (sv.encode bytes) (emit (Effect.incoming (sv.encode bytes) ∷ []) s)
]

-- `splitn(2, ',')`: the part before the first comma, and the rest if there is a comma.
abbrev pub split_pair : Text → Text → Text × Text
split_pair default payload = unwrap_or (split_once 44 payload) (payload, default)

unfoldable pub handle_single_binary : Services → Text → ClipboardReceiver → ClipboardReceiver
unfolding write_system set_clipboard_binary
handle_single_binary sv payload s =
    if not s.binary
    then s
    else (let (mime, b64) = split_pair [] payload in
        elim (sv.decode b64) [
          | none ↦ s
          | some bytes ↦
              if ltb max_clipboard_bytes (length bytes)
              then s
              else set_clipboard_binary sv mime bytes (write_system sv mime bytes s)
        ])

unfoldable pub start_multipart : Text → Text → Bool → ClipboardReceiver → ClipboardReceiver
start_multipart mime total_str is_binary s =
    elim (from_str_radix 10 18446744073709551615 (trim total_str)) [
      | none ↦ s
      | some total ↦ if total == 0 || ltb max_clipboard_bytes total then s else record s {
        buffer = some [];
        total_size = total;
        mime_type = mime;
        in_progress = true;
        is_binary = is_binary;
      }
    ]

unfoldable pub start_multipart_binary : Text → ClipboardReceiver → ClipboardReceiver
unfolding start_multipart
start_multipart_binary payload s =
    if not s.binary
    then s
    else (let (mime, total_str) = split_pair (codes "0") payload in
        start_multipart mime total_str true s)

unfoldable pub reset : ClipboardReceiver → ClipboardReceiver
reset s = record s {
  buffer = none;
  total_size = 0;
  mime_type = plain;
  in_progress = false;
  is_binary = false;
}

-- A piece that was decoded, under the buffer, if there is one.
unfoldable pub add_chunk : Bytes → ClipboardReceiver → ClipboardReceiver
unfolding reset
add_chunk chunk s = elim s.buffer [
  | none ↦ s
  | some buffer ↦
      if ltb s.total_size (length buffer + length chunk)
      then reset s
      else record s { buffer = some (buffer ++ chunk) }
]

unfoldable pub handle_chunk : Services → Text → ClipboardReceiver → ClipboardReceiver
unfolding add_chunk reset
handle_chunk sv payload s =
    if not s.in_progress
    then s
    else elim (sv.decode payload) [ none ↦ reset s | some chunk ↦ add_chunk chunk s ]

-- A transfer whose size is right goes to the system clipboard and to the sessions.
unfoldable pub deliver : Services → Bytes → ClipboardReceiver → ClipboardReceiver
unfolding set_clipboard set_clipboard_binary write_system
deliver sv buffer s =
    if s.is_binary
    then set_clipboard_binary sv s.mime_type buffer (write_system sv s.mime_type buffer s)
    else set_clipboard sv (sv.encode buffer)
        (emit (Effect.incoming (sv.encode buffer) ∷ []) (write_system sv plain buffer s))

unfoldable pub finish_multipart : Services → ClipboardReceiver → ClipboardReceiver
unfolding reset deliver
finish_multipart sv s = if not s.in_progress then s else elim s.buffer [
  | none ↦ reset s
  | some buffer ↦
      if not (length buffer == s.total_size)
      then reset s
      else reset (deliver sv buffer (record s { buffer = none }))
]

abbrev after : Text → String → Text
after message tag = trim_start_matches message (codes tag)

-- The result says whether the message was one of the clipboard's.
unfoldable pub handle_message : Services → Text → ClipboardReceiver → Bool × ClipboardReceiver
unfolding handle_single_text handle_single_binary start_multipart start_multipart_binary
    handle_chunk finish_multipart
handle_message sv message s =
    if not s.enabled
    then (false, s)
    else if starts_with message (codes "cw,")
    then (true, handle_single_text sv (after message "cw,") s)
    else if starts_with message (codes "c,")
    then (true, handle_single_text sv (after message "c,") s)
    else if starts_with message (codes "cb,")
    then (true, handle_single_binary sv (after message "cb,") s)
    else if starts_with message (codes "cws,")
    then (true, start_multipart plain (after message "cws,") false s)
    else if starts_with message (codes "cbs,")
    then (true, start_multipart_binary (after message "cbs,") s)
    else if starts_with message (codes "cwd,")
    then (true, handle_chunk sv (after message "cwd,") s)
    else if starts_with message (codes "cbd,")
    then (true, handle_chunk sv (after message "cbd,") s)
    else if same message (codes "cwe") || same message (codes "cbe")
    then (true, finish_multipart sv s)
    else (false, s)
