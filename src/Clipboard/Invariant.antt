-- ===== src/Clipboard/Invariant.antt =====
-- src/clipboard.rs: what every message keeps true of the receiver.
use selkies_core.Prelude.{
  ◌+◌, ◌≤◌, ◌≡◌, refl, ap, ◌∙◌, Bool, true, false, not, ◌||◌, List, [], ◌∷◌, ◌++◌, map, none, some,
  Bytes, Text, codes, length, All, All-append, OnSome, is_some, same, starts_with, trim,
  from_str_radix, ltb, ◌==◌, if◌then◌else◌, if-intro, option-intro, length-append, arith,
}
use selkies_core.Clipboard.{
  ClipboardReceiver, Services, Effect, new, emit, max_clipboard_bytes, text_messages, set_clipboard,
  binary_messages, set_clipboard_binary, write_system, handle_single_text, handle_single_binary,
  start_multipart, split_pair, start_multipart_binary, reset, add_chunk, handle_chunk, deliver,
  finish_multipart, handle_message,
}

-- No more than the limit goes to the system clipboard.
abbrev pub IsSmall : Effect → Type 0
IsSmall (Effect.system_write mime bytes) = length bytes ≤ max_clipboard_bytes
IsSmall (Effect.marked mime bytes) = length bytes ≤ max_clipboard_bytes
IsSmall (Effect.incoming t) = Unit
IsSmall (Effect.send_text t) = Unit

-- A transfer runs exactly when there is a buffer, which is within its declared size.
pub record Inv (s : ClipboardReceiver) : Type 0 where
  pub running : s.in_progress ≡ is_some s.buffer
  pub room : OnSome (λ b. length b ≤ s.total_size) s.buffer
  pub cap : s.total_size ≤ max_clipboard_bytes
  pub small : All IsSmall s.effects

IsSmall-send_text : (ts : List Text) → All IsSmall (map Effect.send_text ts)
IsSmall-send_text [] = tt
IsSmall-send_text (t ∷ ts) = (tt, IsSmall-send_text ts)

emit-Inv : (es : List Effect) (s : ClipboardReceiver) → All IsSmall es → Inv s → Inv (emit es s)
emit-Inv es s h i = record {
  running = i.running;
  room = i.room;
  cap = i.cap;
  small = All-append IsSmall s.effects es i.small h;
}

set_clipboard-Inv :
    (sv : Services) (t : Text) (s : ClipboardReceiver) → Inv s → Inv (set_clipboard sv t s)
unfolding set_clipboard
set_clipboard-Inv sv t s i =
    let stored : Inv (record s { clipboard = some t }) = record {
      running = i.running;
      room = i.room;
      cap = i.cap;
      small = i.small;
    } in
    emit-Inv _ _ (IsSmall-send_text (text_messages sv t)) stored

set_clipboard_binary-Inv :
    (sv : Services) (mime : Text) (b : Bytes) (s : ClipboardReceiver)
    → Inv s
    → Inv (set_clipboard_binary sv mime b s)
unfolding set_clipboard_binary
set_clipboard_binary-Inv sv mime b s i =
    emit-Inv _ s (IsSmall-send_text (binary_messages sv mime b)) i

written-IsSmall :
    (t : Bool) (mime : Text) (b : Bytes)
    → length b ≤ max_clipboard_bytes
    → All IsSmall (if t then Effect.marked mime b ∷ [] else [])
written-IsSmall true mime b h = (h, tt)
written-IsSmall false mime b h = tt

write_system-Inv :
    (sv : Services) (mime : Text) (b : Bytes) (s : ClipboardReceiver)
    → length b ≤ max_clipboard_bytes
    → Inv s
    → Inv (write_system sv mime b s)
unfolding write_system
write_system-Inv sv mime b s h i = emit-Inv _ s (h, written-IsSmall (sv.write_ok mime b) mime b h) i

reset-Inv : (s : ClipboardReceiver) → Inv s → Inv (reset s)
unfolding reset
reset-Inv s i = record { running = refl; room = tt; cap = omega arith; small = i.small }

handle_single_text-Inv :
    (sv : Services) (p : Text) (s : ClipboardReceiver) → Inv s → Inv (handle_single_text sv p s)
unfolding handle_single_text
handle_single_text-Inv sv p s i =
    option-intro Inv (sv.decode p) (λ e. i)
      λ b e.
        if-intro Inv (ltb max_clipboard_bytes (length b)) (λ big. i)
          λ fits. set_clipboard-Inv sv _ _ (emit-Inv _ s (tt, tt) i)

handle_single_binary-Inv :
    (sv : Services) (p : Text) (s : ClipboardReceiver) → Inv s → Inv (handle_single_binary sv p s)
unfolding handle_single_binary
handle_single_binary-Inv sv p s i =
    let (mime, b64) = split_pair [] p in
    if-intro Inv (not s.binary) (λ off. i)
      λ on.
        option-intro Inv (sv.decode (split_pair [] p).1) (λ e. i)
          λ b e.
            if-intro Inv (ltb max_clipboard_bytes (length b)) (λ big. i)
              λ fits. set_clipboard_binary-Inv sv _ b _ (write_system-Inv sv _ b s (ground arith) i)

start_multipart-Inv :
    (mime t : Text) (binary : Bool) (s : ClipboardReceiver)
    → Inv s
    → Inv (start_multipart mime t binary s)
unfolding start_multipart
start_multipart-Inv mime t binary s i =
    option-intro Inv (from_str_radix 10 18446744073709551615 (trim t)) (λ e. i)
      λ n e.
        if-intro Inv (n == 0 || ltb max_clipboard_bytes n) (λ bad. i)
          λ good. record { running = refl; room = omega arith; cap = ground arith; small = i.small }

start_multipart_binary-Inv :
    (p : Text) (s : ClipboardReceiver) → Inv s → Inv (start_multipart_binary p s)
unfolding start_multipart_binary
start_multipart_binary-Inv p s i =
    if-intro Inv (not s.binary) (λ off. i) λ on. start_multipart-Inv _ _ true s i

add_chunk-Inv : (b : Bytes) (s : ClipboardReceiver) → Inv s → Inv (add_chunk b s)
unfolding add_chunk
add_chunk-Inv b s i =
    option-intro Inv s.buffer (λ e. i)
      λ buffer e.
        if-intro Inv (ltb s.total_size (length buffer + length b)) (λ over. reset-Inv s i)
          λ fits.
            let longer : length (buffer ++ b) ≡ length buffer + length b = length-append buffer b in
            let on : s.in_progress ≡ true = i.running ∙ ap is_some e in
            record { running = on; room = ground arith; cap = i.cap; small = i.small }

handle_chunk-Inv :
    (sv : Services) (p : Text) (s : ClipboardReceiver) → Inv s → Inv (handle_chunk sv p s)
unfolding handle_chunk
handle_chunk-Inv sv p s i =
    if-intro Inv (not s.in_progress) (λ off. i)
      λ on. option-intro Inv (sv.decode p) (λ e. reset-Inv s i) λ b e. add_chunk-Inv b s i

-- The invariant but for the buffer, which a delivery has already taken.
abbrev Rest : ClipboardReceiver → Type 0
Rest s = (s.total_size ≤ max_clipboard_bytes) × All IsSmall s.effects

reset-Rest : (s : ClipboardReceiver) → Rest s → Inv (reset s)
unfolding reset
reset-Rest s (cap, small) = record { running = refl; room = tt; cap = omega arith; small = small }

emit-Rest : (es : List Effect) (s : ClipboardReceiver) → All IsSmall es → Rest s → Rest (emit es s)
emit-Rest es s h (cap, small) = (cap, All-append IsSmall s.effects es small h)

deliver-Rest :
    (sv : Services) (b : Bytes) (s : ClipboardReceiver)
    → length b ≤ max_clipboard_bytes
    → Rest s
    → Rest (deliver sv b s)
unfolding deliver set_clipboard set_clipboard_binary write_system
deliver-Rest sv b s h r =
    if-intro Rest s.is_binary
      (λ on.
        emit-Rest _ (write_system sv s.mime_type b s)
          (IsSmall-send_text (binary_messages sv s.mime_type b))
          (emit-Rest _ s (h, written-IsSmall (sv.write_ok s.mime_type b) s.mime_type b h) r))
      (λ off.
        emit-Rest _ (record kept { clipboard = some (sv.encode b) })
          (IsSmall-send_text (text_messages sv (sv.encode b)))
          (emit-Rest (Effect.incoming (sv.encode b) ∷ []) (write_system sv (codes "text/plain") b s)
            (tt, tt)
            (emit-Rest _ s (h, written-IsSmall (sv.write_ok (codes "text/plain") b) _ b h) r)))
  where
    kept : ClipboardReceiver
    kept = emit (Effect.incoming (sv.encode b) ∷ []) (write_system sv (codes "text/plain") b s)

finish_multipart-Inv : (sv : Services) (s : ClipboardReceiver) → Inv s → Inv (finish_multipart sv s)
unfolding finish_multipart
finish_multipart-Inv sv s i =
    if-intro Inv (not s.in_progress) (λ off. i)
      λ on.
        option-intro Inv s.buffer (λ e. reset-Inv s i)
          λ b e.
            if-intro Inv (not (length b == s.total_size)) (λ wrong. reset-Inv s i)
              λ right.
                let taken = record s { buffer = none } in
                let fits : length b ≤ max_clipboard_bytes =
                  let cap = i.cap in let room = i.room in ground arith in
                reset-Rest (deliver sv b taken) (deliver-Rest sv b taken fits (i.cap, i.small))

Kept : Bool × ClipboardReceiver → Type 0
Kept r = Inv r.1

kept : (b : Bool) (s : ClipboardReceiver) → Inv s → Kept (b, s)
unfolding Kept
kept b s i = i

handle_message-Kept :
    (sv : Services) (m : Text) (s : ClipboardReceiver) → Inv s → Kept (handle_message sv m s)
unfolding handle_message
handle_message-Kept sv m s i =
    if-intro Kept (not s.enabled) (λ e. kept _ s i)
      λ e.
        if-intro Kept (starts_with m (codes "cw,"))
          (λ e. kept _ _ (handle_single_text-Inv sv _ s i))
          λ e.
            if-intro Kept (starts_with m (codes "c,"))
              (λ e. kept _ _ (handle_single_text-Inv sv _ s i))
              λ e.
                if-intro Kept (starts_with m (codes "cb,"))
                  (λ e. kept _ _ (handle_single_binary-Inv sv _ s i))
                  λ e.
                    if-intro Kept (starts_with m (codes "cws,"))
                      (λ e. kept _ _ (start_multipart-Inv _ _ false s i))
                      λ e.
                        if-intro Kept (starts_with m (codes "cbs,"))
                          (λ e. kept _ _ (start_multipart_binary-Inv _ s i))
                          λ e.
                            if-intro Kept (starts_with m (codes "cwd,"))
                              (λ e. kept _ _ (handle_chunk-Inv sv _ s i))
                              λ e.
                                if-intro Kept (starts_with m (codes "cbd,"))
                                  (λ e. kept _ _ (handle_chunk-Inv sv _ s i))
                                  λ e.
                                    if-intro Kept (same m (codes "cwe") || same m (codes "cbe"))
                                      (λ e. kept _ _ (finish_multipart-Inv sv s i)) λ e. kept _ s i

-- Every message, whatever it holds, keeps the invariant: a transfer runs exactly when there is a
-- buffer, the buffer is within the declared size, that is at most 16 MiB, and so is every write to
-- the system clipboard.
pub handle_message-Inv :
    (sv : Services) (m : Text) (s : ClipboardReceiver) → Inv s → Inv (handle_message sv m s).1
unfolding Kept
handle_message-Inv sv m s i = handle_message-Kept sv m s i

-- A receiver starts with it.
pub new-Inv : (enabled binary : Bool) → Inv (new enabled binary)
unfolding new
new-Inv enabled binary = record { running = refl; room = tt; cap = omega arith; small = tt }
