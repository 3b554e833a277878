-- ===== src/Upload/Confined.antt =====
-- src/file_upload.rs: every message keeps the upload inside its directory and its declared size.
use selkies_core.Prelude.{
  sym, ◌∙◌, option-intro, ℕ, ◌≤◌, ◌<◌, ◌≡◌, refl, ap, subst, Bool, true, false, not, ◌&&◌, List, [],
  ◌∷◌, ◌++◌, map, Option, none, some, Bytes, Text, codes, starts_with, trim_start_matches, trim,
  is_some, if◌then◌else◌, OnSome, Result, ok, err, or_fail, >>=-eq-ok, parse_u64, if-intro, arith,
}
use selkies_core.Upload.Paths.{
  Component, FilePath, path_starts_with, same_path, parent, sanitize_relative_path,
}
use selkies_core.Upload.Names.{AreSafe, sanitize_relative_path-AreSafe}
use selkies_core.Config.{Config}
use selkies_core.Upload.{
  wrong_size, make_dir, link_and_open, from_config, split_request, FileUploadHandler, FileSystem,
  Effect, UploadError, Outcome, max_upload_bytes, emit, finish_upload, is_upload_allowed,
  check_size, check_links, open_target, start_at, checked_request, start_upload, abort_if_failed,
  handle_control_message, handle_binary,
}
use selkies_core.Upload.Links.{IsGuarded, Adds, handle_control_message-Adds, handle_binary-Adds}
use selkies_core.Upload.Safety.{
  Below, FileBelow, Inv, SizeOk, same_count, written_on, written_on-append, emit-log,
  abort_active-Inv, finish_upload-Inv, handle_binary-Inv,
}

-- A request that passes the checks asks for a size within the limit.
check_size-bounds : (t : Text) (n : ℕ) → check_size t ≡ ok n → (0 < n) × (n ≤ max_upload_bytes)
unfolding check_size
check_size-bounds t n h =
    let (size, _, h1) = >>=-eq-ok (or_fail (parse_u64 (trim t)) UploadError.invalid_size) _ h in
    ground arith

or_fail-OnSome {ℓ κ} :
    {A : Type ℓ} (P : A → Type κ) (o : Option A) (a : A) (e : UploadError)
    → OnSome P o
    → or_fail o e ≡ ok a
    → P a
or_fail-OnSome P none a e p h = cc
or_fail-OnSome P (some b) a e p h = let same : b ≡ a = cc in subst P same p

checked_request-bounds :
    (rel size : Text) (n : ℕ) (safe : List Text)
    → checked_request rel size ≡ ok (n, safe)
    → (0 < n) × (n ≤ max_upload_bytes) × AreSafe safe
unfolding checked_request
checked_request-bounds rel size n safe h =
    let (m, e, h1) = >>=-eq-ok (check_size size) _ h in
    let (names, e2, h2) =
      >>=-eq-ok (or_fail (sanitize_relative_path rel) UploadError.invalid_path) _ h1 in
    let same_n : m ≡ n = cc in
    let same_names : names ≡ safe = cc in
    let (lo, hi) = check_size-bounds size m e in
    (
      omega arith,
      omega arith,
      subst AreSafe same_names (
          or_fail-OnSome AreSafe (sanitize_relative_path rel) names UploadError.invalid_path
            (sanitize_relative_path-AreSafe rel) e2),
    )

-- The directory of a path below `root` is below it.
parent-Below :
    (root : FilePath) (names : List Text)
    → AreSafe names
    → Below root (parent (root ++ map Component.normal names))
parent-Below root [] safe = let e = safe.some_name in cc
parent-Below [] (a ∷ []) safe = record { names = []; made_of = refl; safe = tt }
parent-Below [] (a ∷ b ∷ names) safe =
    let (first, rest) = safe.each in
    let below = parent-Below [] (b ∷ names) (record { some_name = refl; each = rest }) in
    record {
      names = a ∷ below.names;
      made_of = ap (◌∷◌ (Component.normal a)) below.made_of;
      safe = (first, below.safe);
    }
parent-Below (c ∷ []) (a ∷ names) safe =
    let below = parent-Below [] (a ∷ names) safe in
    record { names = below.names; made_of = ap (◌∷◌ c) below.made_of; safe = below.safe }
parent-Below (c ∷ d ∷ root) (a ∷ names) safe =
    let below = parent-Below (d ∷ root) (a ∷ names) safe in
    record { names = below.names; made_of = ap (◌∷◌ c) below.made_of; safe = below.safe }

-- A new file has no bytes, and a new directory changes no count.
created_count :
    (log : List Effect) (p : FilePath) → written_on 0 (log ++ Effect.create_file p ∷ []) ≡ 0
unfolding written_on
created_count log p = written_on-append 0 log (Effect.create_file p ∷ [])

made_count :
    (log : List Effect) (p : FilePath)
    → written_on 0 (log ++ Effect.create_dir p ∷ []) ≡ written_on 0 log
unfolding written_on
made_count log p = written_on-append 0 log (Effect.create_dir p ∷ [])

finish_upload-shut : (s : FileUploadHandler) → (finish_upload s).active_path ≡ none
unfolding finish_upload
finish_upload-shut s =
    option-intro (λ (t : FileUploadHandler). t.active_path ≡ none) s.active_path (λ e. refl)
      λ p e.
        if-intro (λ (t : FileUploadHandler). t.active_path ≡ none)
          (wrong_size s.expected_size s.written_size) (λ w. refl) (λ r. refl)

not_some {ℓ} : {A : Type ℓ} (o : Option A) → is_some o ≡ false → o ≡ none
not_some none h = refl
not_some (some a) h = cc

-- What an upload's start leaves behind.
Settled : FilePath → Outcome → Type 0
Settled root o = Inv root o.1

Kept : FilePath → Bool × FileUploadHandler → Type 0
Kept root r = Inv root r.1

module _ (root : FilePath) where
  settled :
      (r : Result UploadError (Unit {0})) (s : FileUploadHandler) → Inv root s → Settled root (r, s)
  unfolding Settled
  settled r s i = i

  open_target-Settled :
      (fs : FileSystem) (target : FilePath) (size : ℕ) (s : FileUploadHandler)
      → FileBelow root target
      → 0 < size
      → size ≤ max_upload_bytes
      → Inv root s
      → Settled root (open_target fs target size s)
  unfolding open_target
  open_target-Settled fs target size s b pos small i =
      let before : FileUploadHandler = if is_some s.active_file then finish_upload s else s in
      let closed : FileUploadHandler = emit (Effect.create_file target) before in
      let (j, shut) : Inv root before × (before.active_path ≡ none) =
        if-intro (λ t. Inv root t × (t.active_path ≡ none)) (is_some s.active_file)
          (λ e. (finish_upload-Inv root s i, finish_upload-shut s))
          (λ e. (i, sym i.handle ∙ not_some s.active_file e)) in
      let l = emit-log root (Effect.create_file target) before b j.log in
      if-intro (Settled root) (fs.create target)
        (λ made. settled _ _ (record {
          dir = j.dir;
          handle = refl;
          below = b;
          size = (size, refl, omega arith, pos, small, created_count before.log target);
          log = l;
        }))
        (λ failed. settled _ closed (record {
          dir = j.dir;
          handle = j.handle;
          below = j.below;
          size =
              subst (λ o. SizeOk o before.expected_size before.written_size closed.log) (sym shut)
                (subst (λ o. SizeOk o before.expected_size before.written_size before.log) shut
                  j.size);
          log = l;
        }))

  start_at-Settled :
      (fs : FileSystem) (safe : List Text) (size : ℕ) (s : FileUploadHandler)
      → AreSafe safe
      → 0 < size
      → size ≤ max_upload_bytes
      → Inv root s
      → Settled root (start_at fs root safe size s)
  unfolding start_at link_and_open
  start_at-Settled fs safe size s names pos small i =
      let target = root ++ map Component.normal safe in
      let dir = parent target in
      let in_dir = emit (Effect.create_dir dir) s in
      let made : FileUploadHandler = make_dir (same_path dir root) dir s in
      let m : Inv root made =
        if-intro (Inv root) (same_path dir root) (λ e. i)
          (λ e. record {
            dir = i.dir;
            handle = i.handle;
            below = i.below;
            size =
                same_count s.active_path s.expected_size s.written_size s.log in_dir.log
                  (made_count s.log dir) i.size;
            log = emit-log root (Effect.create_dir dir) s (parent-Below root safe names) i.log;
          }) in
      if-intro (Settled root) (not (path_starts_with dir root)) (λ e. settled _ s i)
        λ e.
          if-intro (Settled root) (not (same_path dir root) && not (fs.create_dir_all dir))
            (λ e. settled _ made m)
            (λ e.
              links (check_links fs root dir target) made (open_target fs target size made)
                (λ done.
                  open_target-Settled fs target size made
                    (record { names = safe; made_of = refl; safe = names }) pos small m)
                m)
    where
      links :
          (r : Result UploadError (Unit {0})) (made : FileUploadHandler) (o : Outcome)
          → (r ≡ ok tt → Settled root o)
          → Inv root made
          → Settled root (elim r [ err e ↦ (err e, made) | ok done ↦ o ])
      links (ok done) made o f m = f refl
      links (err e) made o f m = settled (err e) made m

  start_upload-Settled :
      (fs : FileSystem) (rel size : Text) (s : FileUploadHandler)
      → Inv root s
      → Settled root (start_upload fs rel size s)
  unfolding start_upload
  start_upload-Settled fs rel size s i =
      rw (start_upload, i.dir) (requested (checked_request rel size) refl)
    where
      requested :
          (r : Result UploadError (ℕ × List Text))
          → checked_request rel size ≡ r
          → Settled root (elim r [ err e ↦ (err e, s) | ok (n, safe) ↦ start_at fs root safe n s ])
      requested (err e) h = settled (err e) s i
      requested (ok (n, safe)) h =
          let (pos, small, names) = checked_request-bounds rel size n safe h in
          start_at-Settled fs safe n s names pos small i

  abort_if_failed-Inv : (o : Outcome) → Settled root o → Inv root (abort_if_failed o)
  unfolding Settled
  abort_if_failed-Inv (ok done, s) i = i
  abort_if_failed-Inv (err e, s) i = abort_active-Inv root s i

  unchanged : (b : Bool) (s : FileUploadHandler) → Inv root s → Kept root (b, s)
  unfolding Kept
  unchanged b s i = i

  handle_control_message-Kept :
      (fs : FileSystem) (m : Text) (s : FileUploadHandler)
      → Inv root s
      → Kept root (handle_control_message fs m s)
  unfolding handle_control_message
  handle_control_message-Kept fs m s i =
      let (rel, size) = split_request (trim_start_matches m (codes "FILE_UPLOAD_START:")) in
      if-intro (Kept root) (starts_with m (codes "FILE_UPLOAD_START:"))
        (λ e.
          if-intro (Kept root) (not (is_upload_allowed s)) (λ e. unchanged true s i)
            (λ e. unchanged true _ (abort_if_failed-Inv _ (start_upload-Settled fs rel size s i))))
        (λ e.
          if-intro (Kept root) (starts_with m (codes "FILE_UPLOAD_END:"))
            (λ e. unchanged true _ (finish_upload-Inv root s i))
            (λ e.
              if-intro (Kept root) (starts_with m (codes "FILE_UPLOAD_ERROR:"))
                (λ e. unchanged true _ (abort_active-Inv root s i)) (λ e. unchanged false s i)))

-- A message of the data channel, with what the file system answers while it is handled.
pub data Message : Type 0 where
  control : FileSystem → Text → Message
  binary : FileSystem → Bytes → Message

unfoldable pub handle : Message → FileUploadHandler → FileUploadHandler
handle (Message.control fs m) s = (handle_control_message fs m s).1
handle (Message.binary fs bytes) s = handle_binary fs bytes s

unfoldable pub handle_all : List Message → FileUploadHandler → FileUploadHandler
unfolding handle
handle_all [] s = s
handle_all (m ∷ ms) s = handle_all ms (handle m s)

handle-Inv :
    (root : FilePath) (m : Message) (s : FileUploadHandler) → Inv root s → Inv root (handle m s)
unfolding handle Kept
handle-Inv root (Message.control fs m) s i = handle_control_message-Kept root fs m s i
handle-Inv root (Message.binary fs bytes) s i = handle_binary-Inv root fs bytes s i

-- Each message adds to the log only files that its own checks let through.
abbrev pub IsChecked : FilePath → Message → FileUploadHandler → Type 0
IsChecked root (Message.control fs m) s =
    Adds (IsGuarded fs root) s (handle_control_message fs m s).1
IsChecked root (Message.binary fs bytes) s = Adds (IsGuarded fs root) s (handle_binary fs bytes s)

abbrev pub AreChecked : FilePath → List Message → FileUploadHandler → Type 0
AreChecked root [] s = Unit
AreChecked root (m ∷ ms) s = IsChecked root m s × AreChecked root ms (handle m s)

handle-IsChecked :
    (root : FilePath) (m : Message) (s : FileUploadHandler) → Inv root s → IsChecked root m s
handle-IsChecked root (Message.control fs m) s i = handle_control_message-Adds fs root m s i.dir
handle-IsChecked root (Message.binary fs bytes) s i = handle_binary-Adds fs root bytes s

-- Whatever messages a client sends and whatever the file system answers: every directory made and
-- every file created, written or removed is the upload directory `root` followed by safe names; the
-- open file is one of them; and while it is open, the bytes written since it was created are those
-- counted, at most the declared size, which is above 0 and at most 512 MiB. And a file is created
-- only if, as the file system answers while that message is handled, its directory with symbolic
-- links resolved begins with the resolved upload directory, and no symbolic link stands at its own
-- place. The handler may start in any state with the first of these properties.
pub handle_all-Inv :
    (root : FilePath) (ms : List Message) (s : FileUploadHandler)
    → Inv root s
    → Inv root (handle_all ms s) × AreChecked root ms s
unfolding handle_all
handle_all-Inv root [] s i = (i, tt)
handle_all-Inv root (m ∷ ms) s i =
    let (i', checked) = handle_all-Inv root ms (handle m s) (handle-Inv root m s i) in
    (i', (handle-IsChecked root m s i, checked))

-- A handler that `from_config` makes has the invariant, for the directory it resolved.
pub from_config-Inv :
    (home : Option Text) (create_dir_all : FilePath → Bool) (c : Config) (root : FilePath)
    → (from_config home create_dir_all c).upload_dir ≡ some root
    → Inv root (from_config home create_dir_all c)
unfolding from_config
from_config-Inv home create_dir_all c root e = record {
  dir = e;
  handle = refl;
  below = tt;
  size = (refl, refl);
  log = tt;
}
