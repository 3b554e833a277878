-- ===== src/Clipboard/Delivery.antt =====
-- src/clipboard.rs: a transfer in pieces, from its first message to its last.
use selkies_core.Prelude.{
  ℕ, ◌+◌, ◌≤◌, ◌<◌, ◌≡◌, refl, ap, ◌∙◌, append_assoc, append-nil, if_not-true, Bool, true, false,
  ◌||◌, List, [], ◌∷◌, ◌++◌, map, some, Bytes, Text, codes, length, same, starts_with, strip_prefix,
  trim, trim_start_matches, trim-show, trim_start_matches-append, strip_prefix-Free, Free,
  from_str_radix, from_str_radix-show, show, show-Free, ltb, ◌==◌, ==_refl, length-append, flatten,
  arith,
}
use selkies_core.Clipboard.{
  ClipboardReceiver, Services, Effect, emit, max_clipboard_bytes, set_clipboard, write_system,
  start_multipart, reset, add_chunk, handle_chunk, deliver, finish_multipart, handle_message,
}

-- The messages, one after another.
unfoldable pub receive : Services → List Text → ClipboardReceiver → ClipboardReceiver
receive sv [] s = s
receive sv (m ∷ ms) s = receive sv ms (handle_message sv m s).1

abbrev pub chunk_message : Services → Bytes → Text
chunk_message sv chunk = codes "cwd," ++ sv.encode chunk

-- How a client sends a text in pieces.
abbrev pub transfer : Services → List Bytes → List Text
transfer sv cs =
    (codes "cws," ++ show (length (flatten cs))) ∷ map (chunk_message sv) cs ++ codes "cwe" ∷ []

-- What the transfer has led to when `got` has arrived.
abbrev collecting : ClipboardReceiver → ℕ → Bytes → ClipboardReceiver
collecting s total got = record s {
  buffer = some got;
  total_size = total;
  mime_type = codes "text/plain";
  in_progress = true;
  is_binary = false;
}

start_lem :
    (sv : Services) (s : ClipboardReceiver) (n : ℕ)
    → s.enabled ≡ true
    → 0 < n
    → n ≤ max_clipboard_bytes
    → handle_message sv (codes "cws," ++ show n) s ≡ (true, collecting s n [])
unfolding handle_message same starts_with strip_prefix start_multipart
start_lem sv s n on pos small =
    let tag = codes "cws," in
    let number : from_str_radix 10 18446744073709551615 (trim (show n)) ≡ some n =
      rw (trim-show n) (from_str_radix-show _ n (omega arith)) in
    let t : trim_start_matches (tag ++ show n) tag ≡ show n =
      trim_start_matches-append 99 (119 ∷ 115 ∷ 44 ∷ []) (show n)
        (strip_prefix-Free 44 (99 ∷ 119 ∷ 115 ∷ []) (show n) (show-Free 44 n (omega arith))) in
    let fits : (n == 0 || ltb max_clipboard_bytes n) ≡ false = ground arith in
    if_not-true s.enabled _ _ on ∙ rw (t, start_multipart, number, fits) refl

module _ (sv : Services) (inverse : (b : Bytes) → sv.decode (sv.encode b) ≡ some b)
    (no_comma : (b : Bytes) → Free 44 (sv.encode b)) where
  chunk_lem :
      (s : ClipboardReceiver) (total : ℕ) (got chunk : Bytes)
      → s.enabled ≡ true
      → length got + length chunk ≤ total
      → handle_message sv (chunk_message sv chunk) (collecting s total got)
        ≡ (true, collecting s total (got ++ chunk))
  unfolding handle_message same starts_with strip_prefix handle_chunk add_chunk
  chunk_lem s total got chunk on fits =
      let tag = codes "cwd," in
      let t : trim_start_matches (tag ++ sv.encode chunk) tag ≡ sv.encode chunk =
        trim_start_matches-append 99 (119 ∷ 100 ∷ 44 ∷ []) (sv.encode chunk)
          (strip_prefix-Free 44 (99 ∷ 119 ∷ 100 ∷ []) (sv.encode chunk) (no_comma chunk)) in
      let room : ltb total (length got + length chunk) ≡ false = ground arith in
      if_not-true s.enabled _ _ on ∙ rw (t, handle_chunk, inverse chunk, room) refl

  chunks_lem :
      (s : ClipboardReceiver) (total : ℕ) (got : Bytes) (cs : List Bytes) (after : List Text)
      → s.enabled ≡ true
      → length got + length (flatten cs) ≤ total
      → receive sv (map (chunk_message sv) cs ++ after) (collecting s total got)
        ≡ receive sv after (collecting s total (got ++ flatten cs))
  unfolding receive flatten
  chunks_lem s total got [] after on fits = rw (append-nil got) refl
  chunks_lem s total got (c ∷ cs) after on fits =
      let l : length (c ++ flatten cs) ≡ length c + length (flatten cs) =
        length-append c (flatten cs) in
      let l' : length (got ++ c) ≡ length got + length c = length-append got c in
      ap (λ (r : Bool × ClipboardReceiver). receive sv (map (chunk_message sv) cs ++ after) r.1)
        (chunk_lem s total got c on (omega arith))
      ∙ (chunks_lem s total (got ++ c) cs after on (omega arith)
          ∙ rw (append_assoc got c (flatten cs)) refl)

  finish_lem :
      (s : ClipboardReceiver) (got : Bytes)
      → s.enabled ≡ true
      → handle_message sv (codes "cwe") (collecting s (length got) got) ≡ (
        true,
        set_clipboard sv (sv.encode got) (
            emit
              (Effect.incoming (sv.encode got) ∷ [])
              (write_system sv (codes "text/plain") got (reset s))),
      )
  unfolding handle_message same starts_with strip_prefix finish_multipart deliver set_clipboard
      write_system reset
  finish_lem s got on =
      if_not-true s.enabled _ _ on ∙ rw (finish_multipart, ==_refl (length got)) refl

  -- A text of up to 16 MiB, cut into pieces `cs` in any way, reaches the clipboard whole: after the
  -- start message, one message per piece and the end message, the system clipboard and the sessions
  -- have got the concatenation of the pieces, once, and the receiver waits for the next transfer,
  -- whatever it was doing before. The clipboard is on, the text is not empty, and the codec decodes
  -- what it encodes and writes no comma.
  pub receive-transfer :
      (cs : List Bytes) (s : ClipboardReceiver)
      → s.enabled ≡ true
      → 0 < length (flatten cs)
      → length (flatten cs) ≤ max_clipboard_bytes
      → receive sv (transfer sv cs) s
        ≡ set_clipboard sv (sv.encode (flatten cs)) (
            emit
              (Effect.incoming (sv.encode (flatten cs)) ∷ [])
              (write_system sv (codes "text/plain") (flatten cs) (reset s)))
  unfolding receive
  receive-transfer cs s on pos small =
      ap
        (λ (r : Bool × ClipboardReceiver).
          receive sv (map (chunk_message sv) cs ++ codes "cwe" ∷ []) r.1)
        (start_lem sv s (length (flatten cs)) on pos small)
      ∙ (chunks_lem s (length (flatten cs)) [] cs (codes "cwe" ∷ []) on (omega arith)
          ∙ ap (λ (r : Bool × ClipboardReceiver). r.1) (finish_lem s (flatten cs) on))
