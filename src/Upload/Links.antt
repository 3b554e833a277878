-- ===== src/Upload/Links.antt =====
-- `start_upload` of src/file_upload.rs: a file is created only where the checks on canonical paths
-- and on symbolic links, made while the same message is handled, found it inside the directory.
use selkies_core.Prelude.{
  ℕ, ◌≡◌, refl, sym, ap, ◌∙◌, Bool, true, false, not, ◌&&◌, List, [], ◌∷◌, ◌++◌, map, Option, none,
  some, Bytes, Text, codes, same_iff, starts_with, trim_start_matches, is_some, unwrap_or,
  if◌then◌else◌, Result, ok, err, or_fail, >>=-eq-ok, >>-eq-ok, fail_if-eq-ok, All, All-append,
  if-intro, option-intro, append-nil, append_assoc, arith, length, min, ◌+◌, ◌==◌,
}
use selkies_core.Upload.Paths.{
  Component, FilePath, same_component, path_starts_with, same_path, parent,
}
use selkies_core.Upload.{
  FileUploadHandler, FileSystem, Effect, UploadError, Outcome, emit, abort_active, finish_upload,
  wrong_size, is_upload_allowed, check_links, open_target, link_and_open, make_dir, start_at,
  checked_request, start_upload, abort_if_failed, split_request, handle_control_message, exceeds,
  write_payload, handle_binary,
}

-- The path begins with `root`, component by component.
abbrev pub StartsWith : FilePath → FilePath → Type 0
StartsWith p root = (rest : FilePath) × (p ≡ root ++ rest)

-- A file is created where its directory, with symbolic links resolved, is inside the upload
-- directory, and where no symbolic link stands.
abbrev pub IsGuarded : FileSystem → FilePath → Effect → Type 0
IsGuarded fs root (Effect.create_file p) =
    ((real_root : FilePath) × (real_dir : FilePath) × (fs.canonicalize root ≡ some real_root)
      × (fs.canonicalize (parent p) ≡ some real_dir)
      × StartsWith real_dir real_root)
    × (unwrap_or (fs.is_symlink p) false ≡ false)
IsGuarded fs root _ = Unit

same_component-eq : (c d : Component) → same_component c d ≡ true → c ≡ d
unfolding same_component
same_component-eq Component.root_dir Component.root_dir h = refl
same_component-eq Component.cur_dir Component.cur_dir h = refl
same_component-eq Component.parent_dir Component.parent_dir h = refl
same_component-eq (Component.normal a) (Component.normal b) h =
    ap Component.normal ((same_iff a b).0 h)
same_component-eq _ _ h = cc

path_starts_with-StartsWith :
    (p root : FilePath) → path_starts_with p root ≡ true → StartsWith p root
unfolding path_starts_with
path_starts_with-StartsWith p [] h = (p, refl)
path_starts_with-StartsWith [] (b ∷ root) h = cc
path_starts_with-StartsWith (c ∷ p) (b ∷ root) h =
    let (rest, e) = path_starts_with-StartsWith p root (ground arith) in
    let first : c ≡ b = same_component-eq c b (ground arith) in (rest, cc)

or_fail-ok : {A : Type 0} (o : Option A) (e : UploadError) (a : A) → or_fail o e ≡ ok a → o ≡ some a
or_fail-ok none e a h = cc
or_fail-ok (some b) e a h = cc

check_links-IsGuarded :
    (fs : FileSystem) (root target : FilePath)
    → check_links fs root (parent target) target ≡ ok tt
    → IsGuarded fs root (Effect.create_file target)
unfolding check_links
check_links-IsGuarded fs root target h =
    let (real_root, e1, h1) =
      >>=-eq-ok (or_fail (fs.canonicalize root) UploadError.no_canonical_root) _ h in
    let (real_dir, e2, h2) =
      >>=-eq-ok (or_fail (fs.canonicalize (parent target)) UploadError.no_canonical_target) _ h1 in
    let (inside, link) = (>>-eq-ok _ _).0 h2 in
    let inside' : not (path_starts_with real_dir real_root) ≡ false =
      (fail_if-eq-ok _ _).0 inside in
    (
      (
        real_root,
        real_dir,
        or_fail-ok _ _ real_root e1,
        or_fail-ok _ _ real_dir e2,
        path_starts_with-StartsWith real_dir real_root (ground arith),
      ),
      (fail_if-eq-ok _ _).0 link,
    )

-- What a step adds to the log has the property.
abbrev pub Adds : (Effect → Type 0) → FileUploadHandler → FileUploadHandler → Type 0
Adds P s s' = (new : List Effect) × (s'.log ≡ s.log ++ new) × All P new

module _ (fs : FileSystem) (root : FilePath) where
  Safe : FileUploadHandler → FileUploadHandler → Type 0
  Safe s s' = Adds (IsGuarded fs root) s s'

  none_added : (s s' : FileUploadHandler) → s'.log ≡ s.log → Safe s s'
  unfolding Safe
  none_added s s' e = ([], e ∙ sym (append-nil s.log), tt)

  one_added :
      (e : Effect) (s s' : FileUploadHandler)
      → IsGuarded fs root e
      → s'.log ≡ s.log ++ e ∷ []
      → Safe s s'
  unfolding Safe
  one_added e s s' g h = (e ∷ [], h, (g, tt))

  then_added : (s t u : FileUploadHandler) → Safe s t → Safe t u → Safe s u
  unfolding Safe
  then_added s t u (xs, e, h) (ys, f, g) = (
    xs ++ ys,
    f ∙ ap (λ l. l ++ ys) e ∙ append_assoc s.log xs ys,
    All-append (IsGuarded fs root) xs ys h g,
  )

  abort_active-Safe : (s : FileUploadHandler) → Safe s (abort_active s)
  unfolding abort_active
  abort_active-Safe s =
      option-intro (Safe s) s.active_path (λ e. none_added s _ refl)
        λ p e. one_added (Effect.remove_file p) s _ tt refl

  finish_upload-Safe : (s : FileUploadHandler) → Safe s (finish_upload s)
  unfolding finish_upload
  finish_upload-Safe s =
      option-intro (Safe s) s.active_path (λ e. none_added s _ refl)
        λ p e.
          if-intro (Safe s) (wrong_size s.expected_size s.written_size)
            (λ w. one_added (Effect.remove_file p) s _ tt refl) (λ r. none_added s _ refl)

  SafeOutcome : FileUploadHandler → Outcome → Type 0
  SafeOutcome s o = Safe s o.1

  outcome :
      (s : FileUploadHandler) (r : Result UploadError (Unit {0})) (t : FileUploadHandler)
      → Safe s t
      → SafeOutcome s (r, t)
  unfolding SafeOutcome
  outcome s r t h = h

  open_target-Safe :
      (target : FilePath) (size : ℕ) (s : FileUploadHandler)
      → IsGuarded fs root (Effect.create_file target)
      → SafeOutcome s (open_target fs target size s)
  unfolding open_target
  open_target-Safe target size s g =
      let before : FileUploadHandler = if is_some s.active_file then finish_upload s else s in
      let closed : FileUploadHandler = emit (Effect.create_file target) before in
      let b : Safe s before =
        if-intro (Safe s) (is_some s.active_file) (λ e. finish_upload-Safe s)
          (λ e. none_added s s refl) in
      if-intro (SafeOutcome s) (fs.create target)
        (λ made.
          outcome s _ _
            (then_added s before _ b (one_added (Effect.create_file target) before _ g refl)))
        (λ failed. outcome s _ closed (
          then_added s before closed b
            (one_added (Effect.create_file target) before closed g refl)))

  linked :
      (r : Result UploadError (Unit {0})) (s : FileUploadHandler) (o : Outcome)
      → (r ≡ ok tt → SafeOutcome s o)
      → SafeOutcome s (elim r [ err e ↦ (err e, s) | ok done ↦ o ])
  linked (ok tt) s o h = h refl
  linked (err e) s o h = outcome s (err e) s (none_added s s refl)

  start_at-Safe :
      (safe : List Text) (size : ℕ) (s : FileUploadHandler)
      → SafeOutcome s (start_at fs root safe size s)
  unfolding start_at link_and_open SafeOutcome
  start_at-Safe safe size s =
      let target = root ++ map Component.normal safe in
      let dir = parent target in
      let made : FileUploadHandler = make_dir (same_path dir root) dir s in
      let m : Safe s made =
        if-intro (Safe s) (same_path dir root) (λ e. none_added s s refl)
          (λ e. one_added (Effect.create_dir dir) s _ tt refl) in
      if-intro (SafeOutcome s) (not (path_starts_with dir root)) (λ e. none_added s s refl)
        λ e.
          if-intro (SafeOutcome s) (not (same_path dir root) && not (fs.create_dir_all dir))
            (λ e. m)
            (λ e. then_added s made _ m (
              linked (check_links fs root dir target) made (open_target fs target size made)
                (λ done.
                  open_target-Safe target size made (check_links-IsGuarded fs root target done))))

  requested :
      (r : Result UploadError (ℕ × List Text)) (s : FileUploadHandler)
      → SafeOutcome s (elim r [ err e ↦ (err e, s) | ok (n, safe) ↦ start_at fs root safe n s ])
  requested (err e) s = outcome s (err e) s (none_added s s refl)
  requested (ok (n, safe)) s = start_at-Safe safe n s

  start_upload-Safe :
      (rel size : Text) (s : FileUploadHandler)
      → s.upload_dir ≡ some root
      → SafeOutcome s (start_upload fs rel size s)
  unfolding start_upload SafeOutcome Safe
  start_upload-Safe rel size s d = rw (start_upload, d) (requested (checked_request rel size) s)

  abort_if_failed-Safe :
      (s : FileUploadHandler) (o : Outcome) → SafeOutcome s o → Safe s (abort_if_failed o)
  unfolding SafeOutcome
  abort_if_failed-Safe s (ok done, t) h = h
  abort_if_failed-Safe s (err e, t) h = then_added s t _ h (abort_active-Safe t)

  SafeAnswer : FileUploadHandler → Bool × FileUploadHandler → Type 0
  SafeAnswer s a = Safe s a.1

  handle_control_message-SafeAnswer :
      (m : Text) (s : FileUploadHandler)
      → s.upload_dir ≡ some root
      → SafeAnswer s (handle_control_message fs m s)
  unfolding handle_control_message SafeAnswer
  handle_control_message-SafeAnswer m s d =
      let (rel, size) = split_request (trim_start_matches m (codes "FILE_UPLOAD_START:")) in
      if-intro (SafeAnswer s) (starts_with m (codes "FILE_UPLOAD_START:"))
        (λ e.
          if-intro (SafeAnswer s) (not (is_upload_allowed s)) (λ e. none_added s s refl)
            (λ e. abort_if_failed-Safe s _ (start_upload-Safe rel size s d)))
        (λ e.
          if-intro (SafeAnswer s) (starts_with m (codes "FILE_UPLOAD_END:"))
            (λ e. finish_upload-Safe s)
            (λ e.
              if-intro (SafeAnswer s) (starts_with m (codes "FILE_UPLOAD_ERROR:"))
                (λ e. abort_active-Safe s) (λ e. none_added s s refl)))

  pub handle_control_message-Adds :
      (m : Text) (s : FileUploadHandler)
      → s.upload_dir ≡ some root
      → Adds (IsGuarded fs root) s (handle_control_message fs m s).1
  unfolding SafeAnswer Safe
  handle_control_message-Adds m s d = handle_control_message-SafeAnswer m s d

  write_payload-Safe :
      (p : FilePath) (payload : Bytes) (s : FileUploadHandler)
      → Safe s (write_payload fs p payload s)
  unfolding write_payload
  write_payload-Safe p payload s =
      let next = min (s.written_size + length payload) 18446744073709551615 in
      let tried = emit (Effect.write p payload) s in
      let t : Safe s tried = one_added (Effect.write p payload) s tried tt refl in
      if-intro (Safe s) (exceeds s.expected_size next) (λ big. abort_active-Safe s)
        λ fits.
          if-intro (Safe s) (fs.write_all p payload)
            (λ done. one_added (Effect.write p payload) s _ tt refl)
            (λ failed. then_added s tried _ t (abort_active-Safe tried))

  handle_binary-Safe : (bytes : Bytes) (s : FileUploadHandler) → Safe s (handle_binary fs bytes s)
  unfolding handle_binary
  handle_binary-Safe [] s = none_added s s refl
  handle_binary-Safe (tag ∷ payload) s =
      if-intro (Safe s) (not (tag == 1)) (λ e. none_added s s refl)
        λ e.
          option-intro (Safe s) s.active_file (λ e. none_added s s refl)
            λ p e. write_payload-Safe p payload s

  pub handle_binary-Adds :
      (bytes : Bytes) (s : FileUploadHandler)
      → Adds (IsGuarded fs root) s (handle_binary fs bytes s)
  unfolding Safe
  handle_binary-Adds bytes s = handle_binary-Safe bytes s
