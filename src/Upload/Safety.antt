-- ===== src/Upload/Safety.antt =====
-- src/file_upload.rs: where an upload writes, and how much.
use selkies_core.Prelude.{
  ℕ, ◌+◌, ◌≤◌, ◌<◌, min, ◌≡◌, refl, sym, ap, subst, ◌∙◌, false, not, List, [], ◌∷◌, ◌++◌, map,
  Option, none, some, Bytes, Text, length, ◌==◌, All, All-append, OnSome, if-intro, option-intro,
  arith,
}
use selkies_core.Upload.Paths.{Component, FilePath}
use selkies_core.Upload.Names.{IsSafeName, AreSafe}
use selkies_core.Upload.{
  FileUploadHandler, FileSystem, Effect, max_upload_bytes, emit, cleared, abort_active, wrong_size,
  finish_upload, exceeds, write_payload, handle_binary,
}

-- The path is below `root`, through safe names only; a file's path has at least one.
pub record Below (root p : FilePath) : Type 0 where
  pub names : List Text
  pub made_of : p ≡ root ++ map Component.normal names
  pub safe : All IsSafeName names

pub record FileBelow (root p : FilePath) : Type 0 where
  pub names : List Text
  pub made_of : p ≡ root ++ map Component.normal names
  pub safe : AreSafe names

abbrev pub Confined : FilePath → Effect → Type 0
Confined root (Effect.create_dir p) = Below root p
Confined root (Effect.create_file p) = FileBelow root p
Confined root (Effect.write p bytes) = FileBelow root p
Confined root (Effect.remove_file p) = FileBelow root p

-- The bytes written since a file was created last, on top of `n`.
unfoldable pub written_on : ℕ → List Effect → ℕ
written_on n [] = n
written_on n (Effect.create_file p ∷ es) = written_on 0 es
written_on n (Effect.write p bytes ∷ es) = written_on (n + length bytes) es
written_on n (_ ∷ es) = written_on n es

pub written_on-append :
    (n : ℕ) (es fs : List Effect) → written_on n (es ++ fs) ≡ written_on (written_on n es) fs
unfolding written_on
written_on-append n [] fs = refl
written_on-append n (Effect.create_file p ∷ es) fs = written_on-append 0 es fs
written_on-append n (Effect.write p bytes ∷ es) fs = written_on-append (n + length bytes) es fs
written_on-append n (Effect.create_dir p ∷ es) fs = written_on-append n es fs
written_on-append n (Effect.remove_file p ∷ es) fs = written_on-append n es fs

-- While a file is open, the count is that of the bytes written since it was created, no more than
-- was declared, and no more was declared than the limit.
abbrev pub SizeOk : Option FilePath → Option ℕ → ℕ → List Effect → Type 0
SizeOk none expected written log = (expected ≡ none) × (written ≡ 0)
SizeOk (some p) expected written log =
    (n : ℕ) × (expected ≡ some n)
    × (written ≤ n)
    × (0 < n)
    × (n ≤ max_upload_bytes)
    × (written_on 0 log ≡ written)

pub record Inv (root : FilePath) (s : FileUploadHandler) : Type 0 where
  pub dir : s.upload_dir ≡ some root
  pub handle : s.active_file ≡ s.active_path
  pub below : OnSome (FileBelow root) s.active_path
  pub size : SizeOk s.active_path s.expected_size s.written_size s.log
  pub log : All (Confined root) s.log

pub same_count :
    (o : Option FilePath) (e : Option ℕ) (w : ℕ) (log log' : List Effect)
    → written_on 0 log' ≡ written_on 0 log
    → SizeOk o e w log
    → SizeOk o e w log'
same_count none e w log log' same h = h
same_count (some p) e w log log' same (n, declared, fits, pos, cap, count) =
    (n, declared, fits, pos, cap, same ∙ count)

uncut : (a b c : ℕ) → min a b ≤ c → c < b → min a b ≡ a
uncut a b c h lt = ground arith

exceeds_le : (e : Option ℕ) (n next : ℕ) → e ≡ some n → exceeds e next ≡ false → next ≤ n
exceeds_le none n next h f = cc
exceeds_le (some m) n next h f = ground arith

-- A payload that fits is counted exactly.
counted :
    (log : List Effect) (p : FilePath) (payload : Bytes) (written n : ℕ)
    → written_on 0 log ≡ written
    → min (written + length payload) 18446744073709551615 ≤ n
    → n ≤ max_upload_bytes
    → written_on 0 (log ++ Effect.write p payload ∷ [])
      ≡ min (written + length payload) 18446744073709551615
unfolding written_on
counted log p payload written n count fits cap =
    written_on-append 0 log (Effect.write p payload ∷ [])
    ∙ ap (λ k. k + length payload) count
    ∙ sym (uncut (written + length payload) 18446744073709551615 n fits (omega (arith, cap)))

module _ (root : FilePath) where
  cleared-Inv :
      (s : FileUploadHandler)
      → s.upload_dir ≡ some root
      → All (Confined root) s.log
      → Inv root (cleared s)
  cleared-Inv s d l = record { dir = d; handle = refl; below = tt; size = (refl, refl); log = l }

  pub emit-log :
      (e : Effect) (s : FileUploadHandler)
      → Confined root e
      → All (Confined root) s.log
      → All (Confined root) (emit e s).log
  emit-log e s c l = All-append (Confined root) s.log (e ∷ []) l (c, tt)

  below_active :
      (s : FileUploadHandler) (p : FilePath)
      → OnSome (FileBelow root) s.active_path
      → s.active_path ≡ some p
      → FileBelow root p
  below_active s p b e = subst (OnSome (FileBelow root)) e b

  -- An abort needs nothing of the size.
  aborted-Inv :
      (s : FileUploadHandler)
      → s.upload_dir ≡ some root
      → OnSome (FileBelow root) s.active_path
      → All (Confined root) s.log
      → Inv root (abort_active s)
  unfolding abort_active
  aborted-Inv s d b l =
      option-intro (Inv root) s.active_path (λ e. cleared-Inv s d l)
        λ p e.
          cleared-Inv (emit (Effect.remove_file p) s) d
            (emit-log (Effect.remove_file p) s (below_active s p b e) l)

  pub abort_active-Inv : (s : FileUploadHandler) → Inv root s → Inv root (abort_active s)
  abort_active-Inv s i = aborted-Inv s i.dir i.below i.log

  pub finish_upload-Inv : (s : FileUploadHandler) → Inv root s → Inv root (finish_upload s)
  unfolding finish_upload
  finish_upload-Inv s i =
      option-intro (Inv root) s.active_path (λ e. cleared-Inv s i.dir i.log)
        λ p e.
          if-intro (Inv root) (wrong_size s.expected_size s.written_size)
            (λ w.
              cleared-Inv (emit (Effect.remove_file p) s) i.dir
                (emit-log (Effect.remove_file p) s (below_active s p i.below e) i.log))
            (λ r. cleared-Inv s i.dir i.log)

  write_payload-Inv :
      (fs : FileSystem) (p : FilePath) (payload : Bytes) (s : FileUploadHandler)
      → s.active_file ≡ some p
      → Inv root s
      → Inv root (write_payload fs p payload s)
  unfolding write_payload
  write_payload-Inv fs p payload s e i =
      let next = min (s.written_size + length payload) 18446744073709551615 in
      let on : s.active_path ≡ some p = sym i.handle ∙ e in
      let tried = emit (Effect.write p payload) s in
      let l = emit-log (Effect.write p payload) s (below_active s p i.below on) i.log in
      let (n, declared, _, pos, cap, count) : SizeOk (some p) s.expected_size s.written_size s.log =
        subst (λ o. SizeOk o s.expected_size s.written_size s.log) on i.size in
      if-intro (Inv root) (exceeds s.expected_size next) (λ big. abort_active-Inv s i)
        λ fits.
          let fits' : next ≤ n = exceeds_le s.expected_size n next declared fits in
          let count' : written_on 0 tried.log ≡ next =
            counted s.log p payload s.written_size n count fits' cap in
          if-intro (Inv root) (fs.write_all p payload)
            (λ done. record {
              dir = i.dir;
              handle = i.handle;
              below = i.below;
              size =
                  subst (λ o. SizeOk o s.expected_size next tried.log) (sym on)
                    (n, declared, fits', pos, cap, count');
              log = l;
            })
            (λ failed. aborted-Inv tried i.dir i.below l)

  pub handle_binary-Inv :
      (fs : FileSystem) (bytes : Bytes) (s : FileUploadHandler)
      → Inv root s
      → Inv root (handle_binary fs bytes s)
  unfolding handle_binary
  handle_binary-Inv fs [] s i = i
  handle_binary-Inv fs (tag ∷ payload) s i =
      if-intro (Inv root) (not (tag == 1)) (λ e. i)
        λ e.
          option-intro (Inv root) s.active_file (λ e. i) λ p e. write_payload-Inv fs p payload s e i
