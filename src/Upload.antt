-- ===== src/Upload.antt =====
-- src/file_upload.rs: a client's upload, from FILE_UPLOAD_START over its binary pieces to
-- FILE_UPLOAD_END. The file system is a parameter: what its calls answer is an argument of each
-- message, and the calls that change it are a log. The state's `active_file` is the path that the
-- open handle was created with.
pub mod Links
pub mod Paths
pub mod Names
pub mod Safety
pub mod Confined
pub mod Transfer
use selkies_core.Prelude.{
  ℕ, ◌+◌, ◌<◌, min, Bool, true, false, not, ◌&&◌, ◌||◌, List, [], ◌∷◌, ◌++◌, map, Option, none,
  some, Bytes, Text, codes, length, same, starts_with, trim, trim_start_matches, split_once,
  parse_u64, eq_ignore_ascii_case, ltb, ◌==◌, if◌then◌else◌, unwrap_or, is_some, is_empty, Result,
  ok, err, or_fail, fail_if, ◌>>=◌, ◌>>◌,
}
use selkies_core.Config.{Config}
use selkies_core.Upload.Paths.{
  Component, FilePath, path_starts_with, same_path, components, join_path, parent,
  sanitize_relative_path,
}

abbrev pub max_upload_bytes : ℕ
max_upload_bytes = 536870912

abbrev u64_max : ℕ
u64_max = 18446744073709551615

-- What the file system answers while one message is handled.
pub record FileSystem : Type 0 where
  pub create_dir_all : FilePath → Bool
  pub canonicalize : FilePath → Option FilePath
  pub is_symlink : FilePath → Option Bool
  pub create : FilePath → Bool
  pub write_all : FilePath → Bytes → Bool

-- The calls that change it.
pub data Effect : Type 0 where
  create_dir : FilePath → Effect
  create_file : FilePath → Effect
  write : FilePath → Bytes → Effect
  remove_file : FilePath → Effect

pub data UploadError : Type 0 where
  not_configured : UploadError
  invalid_size : UploadError
  too_large : UploadError
  invalid_path : UploadError
  path_escape : UploadError
  no_directory : UploadError
  no_canonical_root : UploadError
  no_canonical_target : UploadError
  symlink_escape : UploadError
  symlink_target : UploadError
  no_file : UploadError

pub record FileUploadHandler : Type 0 where
  pub upload_dir : Option FilePath
  pub allow_upload : Bool
  pub active_path : Option FilePath
  pub active_file : Option FilePath
  pub expected_size : Option ℕ
  pub written_size : ℕ
  pub log : List Effect

-- `~/Desktop` and the like, under HOME when it is set.
abbrev expand : Option Text → Text → FilePath
expand none trimmed = components trimmed
expand (some home) trimmed =
    if same trimmed (codes "~/Desktop") || starts_with trimmed (codes "~/")
    then join_path (components home) (components (trim_start_matches trimmed (codes "~/")))
    else components trimmed

-- With the value of HOME, and whether the directory could be made.
unfoldable pub resolve_upload_dir : Option Text → (FilePath → Bool) → Text → Option FilePath
resolve_upload_dir home create_dir_all raw =
    let trimmed = trim raw in
    if is_empty trimmed
    then none
    else if same trimmed (codes "/sys")
        || same trimmed (codes "/proc")
        || same trimmed (codes "/dev")
    then none
    else if create_dir_all (expand home trimmed)
    then some (expand home trimmed)
    else none

abbrev any {ℓ} : {A : Type ℓ} → (A → Bool) → List A → Bool
any test [] = false
any test (x ∷ xs) = test x || any test xs

-- `FileUploadHandler::from_config`.
unfoldable pub from_config : Option Text → (FilePath → Bool) → Config → FileUploadHandler
unfolding resolve_upload_dir
from_config home create_dir_all c =
    let allow =
      any (λ entry. eq_ignore_ascii_case (trim entry) (codes "upload")) c.input.file_transfers in
    record {
      upload_dir =
          if allow then resolve_upload_dir home create_dir_all c.input.upload_dir else none;
      allow_upload = allow;
      active_path = none;
      active_file = none;
      expected_size = none;
      written_size = 0;
      log = [];
    }

abbrev pub emit : Effect → FileUploadHandler → FileUploadHandler
emit e s = record s { log = s.log ++ e ∷ [] }

-- The four fields after an upload, however it ended.
abbrev pub cleared : FileUploadHandler → FileUploadHandler
cleared s = record s {
  active_path = none;
  active_file = none;
  expected_size = none;
  written_size = 0;
}

unfoldable pub abort_active : FileUploadHandler → FileUploadHandler
abort_active s = elim s.active_path [
  | none ↦ cleared s
  | some path ↦ cleared (emit (Effect.remove_file path) s)
]

-- `self.written_size != expected`, when a size was declared.
abbrev pub wrong_size : Option ℕ → ℕ → Bool
wrong_size none written = false
wrong_size (some expected) written = not (written == expected)

unfoldable pub finish_upload : FileUploadHandler → FileUploadHandler
finish_upload s = elim s.active_path [
  | none ↦ cleared s
  | some path ↦
      if wrong_size s.expected_size s.written_size
      then cleared (emit (Effect.remove_file path) s)
      else cleared s
]

unfoldable pub is_upload_allowed : FileUploadHandler → Bool
is_upload_allowed s = s.allow_upload && is_some s.upload_dir

unfoldable pub check_size : Text → Result UploadError ℕ
check_size size_str = do
  size ← or_fail (parse_u64 (trim size_str)) UploadError.invalid_size
  fail_if (size == 0) UploadError.invalid_size
  fail_if (ltb max_upload_bytes size) UploadError.too_large
  ok size

-- The checks on canonical paths and symbolic links.
unfoldable pub check_links :
    FileSystem → FilePath → FilePath → FilePath → Result UploadError (Unit {0})
check_links fs root dir target = do
  root_canon ← or_fail (fs.canonicalize root) UploadError.no_canonical_root
  dir_canon ← or_fail (fs.canonicalize dir) UploadError.no_canonical_target
  fail_if (not (path_starts_with dir_canon root_canon)) UploadError.symlink_escape
  fail_if (unwrap_or (fs.is_symlink target) false) UploadError.symlink_target

abbrev pub Outcome : Type 0
Outcome = Result UploadError (Unit {0}) × FileUploadHandler

-- The end of `start_upload`: the former upload is closed, the new file created.
unfoldable pub open_target : FileSystem → FilePath → ℕ → FileUploadHandler → Outcome
unfolding finish_upload
open_target fs target size s =
    let closed =
      emit (Effect.create_file target) (if is_some s.active_file then finish_upload s else s) in
    if fs.create target
    then (
      ok tt,
      record closed {
        active_file = some target;
        active_path = some target;
        expected_size = some size;
        written_size = 0;
      },
    )
    else (err UploadError.no_file, closed)

-- From the canonical paths on.
unfoldable pub link_and_open :
    FileSystem → FilePath → FilePath → FilePath → ℕ → FileUploadHandler → Outcome
unfolding check_links open_target
link_and_open fs root dir target size s = elim (check_links fs root dir target) [
  | err e ↦ (err e, s)
  | ok done ↦ open_target fs target size s
]

-- `if target_dir != upload_root { fs::create_dir_all(..) }`.
abbrev pub make_dir : Bool → FilePath → FileUploadHandler → FileUploadHandler
make_dir is_root dir s = if is_root then s else emit (Effect.create_dir dir) s

-- From the target path on.
unfoldable pub start_at : FileSystem → FilePath → List Text → ℕ → FileUploadHandler → Outcome
unfolding link_and_open
start_at fs root safe size s =
    let target = root ++ map Component.normal safe in
    let dir = parent target in
    let is_root = same_path dir root in
    let made = make_dir is_root dir s in
    if not (path_starts_with dir root)
    then (err UploadError.path_escape, s)
    else if not is_root && not (fs.create_dir_all dir)
    then (err UploadError.no_directory, made)
    else link_and_open fs root dir target size made

unfoldable pub checked_request : Text → Text → Result UploadError (ℕ × List Text)
unfolding check_size
checked_request rel_path size_str = do
  size ← check_size size_str
  safe ← or_fail (sanitize_relative_path rel_path) UploadError.invalid_path
  ok (size, safe)

unfoldable pub start_upload : FileSystem → Text → Text → FileUploadHandler → Outcome
unfolding checked_request start_at
start_upload fs rel_path size_str s = elim s.upload_dir [
  | none ↦ (err UploadError.not_configured, s)
  | some root ↦ elim (checked_request rel_path size_str) [
    | err e ↦ (err e, s)
    | ok (size, safe) ↦ start_at fs root safe size s
  ]
]

-- `if let Err(err) = .. { self.abort_active() }`.
abbrev pub abort_if_failed : Outcome → FileUploadHandler
abort_if_failed (ok done, s) = s
abort_if_failed (err e, s) = abort_active s

-- `splitn(2, ':')`.
abbrev pub split_request : Text → Text × Text
split_request payload = unwrap_or (split_once 58 payload) (payload, [])

unfoldable pub handle_control_message :
    FileSystem → Text → FileUploadHandler → Bool × FileUploadHandler
unfolding is_upload_allowed start_upload abort_active finish_upload
handle_control_message fs message s =
    if starts_with message (codes "FILE_UPLOAD_START:")
    then (if not (is_upload_allowed s)
        then (true, s)
        else (let (rel_path, size) =
              split_request (trim_start_matches message (codes "FILE_UPLOAD_START:")) in
            (true, abort_if_failed (start_upload fs rel_path size s))))
    else if starts_with message (codes "FILE_UPLOAD_END:")
    then (true, finish_upload s)
    else if starts_with message (codes "FILE_UPLOAD_ERROR:")
    then (true, abort_active s)
    else (false, s)

-- `next > expected`, when a size was declared.
abbrev pub exceeds : Option ℕ → ℕ → Bool
exceeds none next = false
exceeds (some expected) next = ltb expected next

-- The payload of a binary message while a handle is open.
unfoldable pub write_payload : FileSystem → FilePath → Bytes → FileUploadHandler → FileUploadHandler
unfolding abort_active
write_payload fs path payload s =
    let next = min (s.written_size + length payload) u64_max in
    if exceeds s.expected_size next
    then abort_active s
    else (let tried = emit (Effect.write path payload) s in
        if fs.write_all path payload
        then record tried { written_size = next }
        else abort_active tried)

unfoldable pub handle_binary : FileSystem → Bytes → FileUploadHandler → FileUploadHandler
unfolding write_payload
handle_binary fs [] s = s
handle_binary fs (tag ∷ payload) s =
    if not (tag == 1)
    then s
    else elim s.active_file [ none ↦ s | some path ↦ write_payload fs path payload s ]
