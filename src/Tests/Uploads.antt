-- ===== src/Tests/Uploads.antt =====
-- Uploads and the clipboard on small inputs.
use selkies_core.Prelude.{
  ℕ, zero, suc, ◌+◌, ◌-◌, ◌<◌, ◌≤◌, ◌≡◌, refl, ap, List, [], ◌∷◌, ◌++◌, map, Option, none, some,
  Bool, true, false, Bytes, Text, codes, length, same, All, Free, flatten, ◌==◌, arith, split, trim,
  strip_prefix, show, starts_with, Result, ok, err,
}
use selkies_core.Upload.{FileSystem, Effect, FileUploadHandler}
use selkies_core.Upload.Paths.{Component, FilePath, sanitize_relative_path, path_starts_with}
use selkies_core.Upload.Names.{AreSafe, sanitize_relative_path-AreSafe}
use selkies_core.Upload.Safety.{Inv}
use selkies_core.Upload.Confined.{Message, handle_all, AreChecked, handle_all-Inv}
use selkies_core.Upload.Transfer.{idle, upload, target_of, made_dir, Lets, handle_all-upload}
use selkies_core.Clipboard.{
  ClipboardReceiver, Services, new, emit, set_clipboard, set_clipboard_binary, write_system, reset,
  handle_message,
}
use selkies_core.Clipboard
use selkies_core.Clipboard.Invariant.{new-Inv, handle_message-Inv}
use selkies_core.Clipboard.Invariant
use selkies_core.Clipboard.Chunks.{pieces, set_clipboard-pieces}
use selkies_core.Clipboard.Delivery.{transfer, receive, receive-transfer}

-- A file system that lets everything be.
abbrev pub willing : FileSystem
willing = record {
  create_dir_all = λ p. true;
  canonicalize = λ p. some p;
  is_symlink = λ p. none;
  create = λ p. true;
  write_all = λ p b. true;
}

abbrev pub root : FilePath
root = Component.root_dir ∷ Component.normal (codes "up") ∷ []

abbrev rel : Text
rel = codes "a/b"

abbrev safe : List Text
safe = codes "a" ∷ codes "b" ∷ []

abbrev file_pieces : List Bytes
file_pieces = (7 ∷ 8 ∷ []) ∷ (9 ∷ []) ∷ []

-- The path is let through, as these three names.
sanitize_relative_path-AreSafe_example : AreSafe (codes "a" ∷ codes "b" ∷ codes "c.txt" ∷ [])
unfolding sanitize_relative_path trim split same
sanitize_relative_path-AreSafe_example = sanitize_relative_path-AreSafe (codes " /a\\b/./c.txt")

abbrev hostile : List Message
hostile =
    Message.control willing (codes "FILE_UPLOAD_START:../etc/x:5")
    ∷ Message.control willing (codes "FILE_UPLOAD_START:a:2")
    ∷ Message.binary willing (1 ∷ 2 ∷ 3 ∷ 4 ∷ [])
    ∷ []

handle_all-Inv_example :
    Inv root (handle_all hostile (idle root [])) × AreChecked root hostile (idle root [])
handle_all-Inv_example =
    handle_all-Inv root hostile (idle root [])
      (record { dir = refl; handle = refl; below = tt; size = (refl, refl); log = tt })

willing-Lets : Lets willing root safe
unfolding path_starts_with selkies_core.Upload.check_links selkies_core.Prelude.same
willing-Lets = record { below = refl; dir = refl; links = refl; create = refl; write = λ b. refl }

rel-sanitized : sanitize_relative_path rel ≡ some safe
unfolding sanitize_relative_path trim split selkies_core.Prelude.same
rel-sanitized = refl

handle_all-upload_example :
    handle_all (upload willing rel file_pieces) (idle root [])
    ≡ idle root (
        ([]
          ++ made_dir root (root ++ Component.normal (codes "a") ∷ [])
          ++ Effect.create_file (target_of root safe) ∷ [])
        ++ map (Effect.write (target_of root safe)) file_pieces)
unfolding flatten strip_prefix
handle_all-upload_example =
    handle_all-upload willing root rel safe willing-Lets file_pieces [] rel-sanitized
      (refl, (refl, (refl, tt))) refl (omega arith) (omega arith)

-- A codec in which each byte is one character behind the comma.
abbrev pub shift : Bytes → Text
shift [] = []
shift (b ∷ bs) = (b + 45) ∷ shift bs

abbrev pub shift_back : Text → Bytes
shift_back [] = []
shift_back (c ∷ cs) = (c - 45) ∷ shift_back cs

abbrev pub services : Services
services = record { encode = shift; decode = λ t. some (shift_back t); write_ok = λ mime b. true }

shift_back-shift : (b : Bytes) → shift_back (shift b) ≡ b
shift_back-shift [] = refl
shift_back-shift (x ∷ b) = let e : x + 45 - 45 ≡ x = omega arith in rw (e, shift_back-shift b) refl

shift-Free : (b : Bytes) → Free 44 (shift b)
shift-Free [] = tt
shift-Free (x ∷ b) = (ground arith, shift-Free b)

abbrev receiver : ClipboardReceiver
receiver = record {
  enabled = true;
  binary = true;
  buffer = none;
  total_size = 0;
  mime_type = codes "text/plain";
  in_progress = false;
  is_binary = false;
  clipboard = none;
  effects = [];
}

receive-transfer_example :
    receive services (transfer services file_pieces) receiver
    ≡ set_clipboard services (shift (flatten file_pieces)) (
        emit
          (Clipboard.Effect.incoming (shift (flatten file_pieces)) ∷ [])
          (write_system services (codes "text/plain") (flatten file_pieces) (reset receiver)))
unfolding flatten
receive-transfer_example =
    receive-transfer services (λ b. ap some (shift_back-shift b)) shift-Free file_pieces receiver
      refl (omega arith) (omega arith)

handle_message-Inv_example :
    Invariant.Inv (handle_message services (codes "cbs,image/png,12") (new true true)).1
handle_message-Inv_example =
    handle_message-Inv services (codes "cbs,image/png,12") (new true true) (new-Inv true true)

abbrev repeat : ℕ → Bytes
repeat zero = []
repeat (suc n) = 7 ∷ repeat n

length-repeat : (n : ℕ) → length (repeat n) ≡ n
length-repeat zero = refl
length-repeat (suc n) = omega (arith, length-repeat n)

set_clipboard-pieces_example :
    (ps : List Bytes) × (flatten ps ≡ repeat 9000)
    × All (λ piece. (0 < length piece) × (length piece ≤ 4096)) ps
    × ((set_clipboard services (shift (repeat 9000)) receiver).effects
        ≡ receiver.effects
          ++ map Clipboard.Effect.send_text
              (pieces services (codes "text/plain") (length (repeat 9000)) ps))
    × ((set_clipboard_binary services (codes "image/png") (repeat 9000) receiver).effects
        ≡ receiver.effects
          ++ map Clipboard.Effect.send_text
              (pieces services (codes "image/png") (length (repeat 9000)) ps))
set_clipboard-pieces_example =
    set_clipboard-pieces services (repeat 9000) (codes "image/png") receiver
      (λ b. ap some (shift_back-shift b)) (long 9000 (omega arith))
  where
    long : (n : ℕ) → 8192 < n → 8192 < length (repeat n)
    long n h = rw (length-repeat n) h
