-- ===== src/Upload/Transfer.antt =====
-- src/file_upload.rs: a whole upload, from its start message to its end message.
use selkies_core.Prelude.{
  ℕ, ◌+◌, ◌≤◌, ◌<◌, ◌≡◌, if_not-true, if-false, refl, ap, ◌∙◌, min, Bool, true, false, not, ◌&&◌,
  List, [], ◌∷◌, ◌++◌, map, none, some, Bytes, Text, codes, length, starts_with, starts_with-append,
  strip_prefix, split_once, split_once-append, trim, trim-show, trim_start_matches,
  trim_start_matches-append, ltb, ◌==◌, ==_refl, if◌then◌else◌, ok, parse_u64, from_str_radix-show,
  show, Free, flatten, length-append, append_assoc, append-nil, arith,
}
use selkies_core.Upload.Paths.{
  Component, FilePath, path_starts_with, same_path, parent, sanitize_relative_path,
}
use selkies_core.Upload.{
  make_dir, link_and_open, FileUploadHandler, FileSystem, Effect, max_upload_bytes, finish_upload,
  is_upload_allowed, check_size, check_links, open_target, start_at, checked_request, start_upload,
  handle_control_message, write_payload, handle_binary,
}
use selkies_core.Upload.Confined.{Message, handle, handle_all}

-- No upload runs, and uploads are allowed under `root`.
abbrev pub idle : FilePath → List Effect → FileUploadHandler
idle root log = record {
  upload_dir = some root;
  allow_upload = true;
  active_path = none;
  active_file = none;
  expected_size = none;
  written_size = 0;
  log = log;
}

-- `target` is open, and `written` bytes of `size` are in it.
abbrev pub writing : FilePath → List Effect → FilePath → ℕ → ℕ → FileUploadHandler
writing root log target size written = record {
  upload_dir = some root;
  allow_upload = true;
  active_path = some target;
  active_file = some target;
  expected_size = some size;
  written_size = written;
  log = log;
}

abbrev pub start_message : Text → ℕ → Text
start_message rel size = codes "FILE_UPLOAD_START:" ++ (rel ++ 58 ∷ show size)

-- A client's upload of the pieces `cs`.
abbrev pub upload : FileSystem → Text → List Bytes → List Message
upload fs rel cs =
    Message.control fs (start_message rel (length (flatten cs)))
      ∷ map (λ c. Message.binary fs (1 ∷ c)) cs
    ++ Message.control fs (codes "FILE_UPLOAD_END:" ++ rel) ∷ []

abbrev pub target_of : FilePath → List Text → FilePath
target_of root safe = root ++ map Component.normal safe

-- The file system lets the file be made and written.
pub record Lets (fs : FileSystem) (root : FilePath) (safe : List Text) : Type 0 where
  pub below : path_starts_with (parent (target_of root safe)) root ≡ true
  pub dir : fs.create_dir_all (parent (target_of root safe)) ≡ true
  pub links : check_links fs root (parent (target_of root safe)) (target_of root safe) ≡ ok tt
  pub create : fs.create (target_of root safe) ≡ true
  pub write : (b : Bytes) → fs.write_all (target_of root safe) b ≡ true

-- The directory's creation, unless it is the root.
abbrev pub made_dir : FilePath → FilePath → List Effect
made_dir root dir = if same_path dir root then [] else Effect.create_dir dir ∷ []

module _ (fs : FileSystem) (root : FilePath) (rel : Text) (safe : List Text)
    (lets : Lets fs root safe) where
  abbrev target : FilePath
  target = target_of root safe

  made_lem :
      (log : List Effect) (dir : FilePath) (t : Bool)
      → make_dir t dir (idle root log)
        ≡ idle root (log ++ (if t then [] else Effect.create_dir dir ∷ []))
  made_lem log dir true = rw (append-nil log) refl
  made_lem log dir false = refl

  open_lem :
      (log : List Effect) (size : ℕ)
      → link_and_open fs root (parent target) target size (idle root log)
        ≡ (ok tt, writing root (log ++ Effect.create_file target ∷ []) target size 0)
  unfolding open_target link_and_open
  open_lem log size = rw (link_and_open, lets.links, lets.create) refl

  start_at_lem :
      (log : List Effect) (size : ℕ)
      → start_at fs root safe size (idle root log) ≡ (
        ok tt,
        writing root
            ((log ++ made_dir root (parent target)) ++ Effect.create_file target ∷ [])
            target
            size
            0,
      )
  unfolding start_at
  start_at_lem log size =
      let dir = parent target in
      let allowed = lets.dir in
      let guard : (not (same_path dir root) && not (fs.create_dir_all dir)) ≡ false =
        ground arith in
      if_not-true (path_starts_with dir root) _ _ lets.below
      ∙ if-false (not (same_path dir root) && not (fs.create_dir_all dir)) _ _ guard
      ∙ ap (link_and_open fs root dir target size) (made_lem log dir (same_path dir root))
      ∙ open_lem _ size

  checked_lem :
      (size : ℕ)
      → sanitize_relative_path rel ≡ some safe
      → 0 < size
      → size ≤ max_upload_bytes
      → checked_request rel (show size) ≡ ok (size, safe)
  unfolding checked_request check_size
  checked_lem size named pos small =
      let n : parse_u64 (trim (show size)) ≡ some size =
        rw (trim-show size) (from_str_radix-show _ size (omega arith)) in
      let z : (size == 0) ≡ false = ground arith in
      let l : ltb max_upload_bytes size ≡ false = ground arith in rw (n, z, l, named) refl

  piece_lem :
      (log : List Effect) (size written : ℕ) (c : Bytes)
      → written + length c ≤ size
      → size ≤ max_upload_bytes
      → handle_binary fs (1 ∷ c) (writing root log target size written)
        ≡ writing root (log ++ Effect.write target c ∷ []) target size (written + length c)
  unfolding handle_binary write_payload
  piece_lem log size written c fits small =
      let m : min (written + length c) 18446744073709551615 ≡ written + length c = omega arith in
      let e : ltb size (written + length c) ≡ false = ground arith in rw (m, e, lets.write c) refl

  pieces_lem :
      (cs : List Bytes) (after : List Message) (log : List Effect) (size written : ℕ)
      → written + length (flatten cs) ≤ size
      → size ≤ max_upload_bytes
      → handle_all
          (map (λ c. Message.binary fs (1 ∷ c)) cs ++ after)
          (writing root log target size written)
        ≡ handle_all after (
            writing root
              (log ++ map (Effect.write target) cs)
              target
              size
              (written + length (flatten cs)))
  unfolding handle_all flatten
  pieces_lem [] after log size written fits small =
      let e : written + 0 ≡ written = omega arith in rw (e, append-nil log) refl
  pieces_lem (c ∷ cs) after log size written fits small =
      let l : length (c ++ flatten cs) ≡ length c + length (flatten cs) =
        length-append c (flatten cs) in
      let sum : written + length c + length (flatten cs) ≡ written + length (c ++ flatten cs) =
        omega arith in
      ap (handle_all (map (λ c. Message.binary fs (1 ∷ c)) cs ++ after))
        (piece_lem log size written c (omega arith) small)
      ∙ pieces_lem cs after (log ++ Effect.write target c ∷ []) size (written + length c)
          (omega arith) small
      ∙ rw (sum, append_assoc log (Effect.write target c ∷ []) (map (Effect.write target) cs)) refl

  started :
      (log : List Effect) (size : ℕ)
      → sanitize_relative_path rel ≡ some safe
      → 0 < size
      → size ≤ max_upload_bytes
      → start_upload fs rel (show size) (idle root log) ≡ (
        ok tt,
        writing root
            ((log ++ made_dir root (parent target)) ++ Effect.create_file target ∷ [])
            target
            size
            0,
      )
  unfolding start_upload
  started log size named pos small =
      rw (start_upload, checked_lem size named pos small) (start_at_lem log size)

  finish_lem :
      (log : List Effect) (n : ℕ)
      → (handle_control_message fs
          (codes "FILE_UPLOAD_END:" ++ rel)
          (writing root log target n (0 + n))).1
        ≡ idle root log
  unfolding handle_control_message finish_upload starts_with strip_prefix
  finish_lem log n = let e : 0 + n ≡ n = omega arith in rw (e, ==_refl n) refl

  start_lem :
      (log : List Effect) (size : ℕ)
      → sanitize_relative_path rel ≡ some safe
      → Free 58 rel
      → strip_prefix (rel ++ 58 ∷ show size) (codes "FILE_UPLOAD_START:") ≡ none
      → 0 < size
      → size ≤ max_upload_bytes
      → (handle_control_message fs (start_message rel size) (idle root log)).1
        ≡ writing root
            ((log ++ made_dir root (parent target)) ++ Effect.create_file target ∷ [])
            target
            size
            0
  unfolding handle_control_message is_upload_allowed start_upload
  start_lem log size named colon once pos small =
      let tag = codes "FILE_UPLOAD_START:" in
      let payload = rel ++ 58 ∷ show size in
      let t : trim_start_matches (tag ++ payload) tag ≡ payload =
        trim_start_matches-append 70 (codes "ILE_UPLOAD_START:") payload once in
      let b : starts_with (tag ++ payload) tag ≡ true = starts_with-append tag payload in
      let p : split_once 58 payload ≡ some (rel, show size) =
        split_once-append 58 rel (show size) colon in
      rw (b, t, p, started log size named pos small) refl

  -- An upload of the pieces `cs` under the name `rel` stores exactly those pieces: after the start
  -- message, one message per piece and the end message, the file system has got the creation of
  -- the target (after that of its directory, unless it is the root) and then one write per piece,
  -- in order, and no removal, and the handler is idle again. The name passes the checks, holds no
  -- colon, and is not the start message's own tag; the file system lets the file be made and
  -- written; and the pieces are together above 0 and at most 512 MiB.
  pub handle_all-upload :
      (cs : List Bytes) (log : List Effect)
      → sanitize_relative_path rel ≡ some safe
      → Free 58 rel
      → strip_prefix (rel ++ 58 ∷ show (length (flatten cs))) (codes "FILE_UPLOAD_START:") ≡ none
      → 0 < length (flatten cs)
      → length (flatten cs) ≤ max_upload_bytes
      → handle_all (upload fs rel cs) (idle root log)
        ≡ idle root (
            ((log ++ made_dir root (parent target)) ++ Effect.create_file target ∷ [])
            ++ map (Effect.write target) cs)
  unfolding handle_all handle
  handle_all-upload cs log named colon once pos small =
      let n = length (flatten cs) in
      let end = Message.control fs (codes "FILE_UPLOAD_END:" ++ rel) ∷ [] in
      ap (handle_all (map (λ c. Message.binary fs (1 ∷ c)) cs ++ end))
        (start_lem log n named colon once pos small)
      ∙ pieces_lem cs end _ n 0 (omega arith) small
      ∙ finish_lem _ n
