-- ===== src/Upload/Names.antt =====
-- `sanitize_relative_path` of src/file_upload.rs: the names it lets through.
use selkies_core.Prelude.{
  ℕ, ◌≡◌, false, ◌||◌, List, [], ◌∷◌, Option, none, some, Text, codes, same, split, cons_head, trim,
  trim_start_while, is_empty, ◌==◌, if◌then◌else◌, Free, All, OnSome, if-intro, arith,
}
use selkies_core.Upload.Paths.{
  Component, FilePath, later_components, components, keep_normal, sanitize_relative_path, slashed,
  is_slash,
}

-- A name that stays in its directory: not empty, not `.` or `..`, without a slash of either kind.
pub record IsSafeName (t : Text) : Type 0 where
  pub not_empty : is_empty t ≡ false
  pub not_cur : same t (codes ".") ≡ false
  pub not_parent : same t (codes "..") ≡ false
  pub no_slash : Free 47 t
  pub no_backslash : Free 92 t

abbrev NoSlash : Text → Type 0
NoSlash t = Free 47 t × Free 92 t

cons_head-NoSlash :
    (x : ℕ) (ps : List Text)
    → (x == 47) ≡ false
    → (x == 92) ≡ false
    → All (λ t. Free 47 t × Free 92 t) ps
    → All (λ t. Free 47 t × Free 92 t) (cons_head x ps)
cons_head-NoSlash x [] h k ps = (((h, tt), (k, tt)), tt)
cons_head-NoSlash x (p ∷ ps) h k ((a, b), rest) = (((h, a), (k, b)), rest)

split-NoSlash : (s : Text) → Free 92 s → All (λ t. Free 47 t × Free 92 t) (split 47 s)
unfolding split
split-NoSlash [] f = ((tt, tt), tt)
split-NoSlash (x ∷ s) (k, f) =
    if-intro (All (λ t. Free 47 t × Free 92 t)) (x == 47) (λ e. ((tt, tt), split-NoSlash s f))
      (λ h. cons_head-NoSlash x (split 47 s) h k (split-NoSlash s f))

slashed-Free : (s : Text) → Free 92 (slashed s)
slashed-Free [] = tt
slashed-Free (c ∷ s) = (ground arith, slashed-Free s)

-- A normal component is a safe name.
abbrev IsSafeComponent : Component → Type 0
IsSafeComponent (Component.normal t) = IsSafeName t
IsSafeComponent Component.root_dir = Unit
IsSafeComponent Component.cur_dir = Unit
IsSafeComponent Component.parent_dir = Unit

later-safe :
    (ps : List Text)
    → All (λ t. Free 47 t × Free 92 t) ps
    → All IsSafeComponent (later_components ps)
unfolding later_components
later-safe [] h = tt
later-safe (p ∷ ps) ((a, b), h) =
    if-intro (All IsSafeComponent) (is_empty p || same p (codes ".")) (λ e. later-safe ps h)
      (λ e.
        if-intro (All IsSafeComponent) (same p (codes "..")) (λ d. (tt, later-safe ps h))
          (λ d. (
            record {
              not_empty = ground arith;
              not_cur = ground arith;
              not_parent = d;
              no_slash = a;
              no_backslash = b;
            },
            later-safe ps h,
          )))

components-safe : (s : Text) → Free 92 s → All IsSafeComponent (components s)
unfolding components
components-safe s f = go (split 47 s) (split-NoSlash s f)
  where
    go :
        (ps : List Text)
        → All (λ t. Free 47 t × Free 92 t) ps
        → All IsSafeComponent (elim ps [
          | [] ↦ []
          | part ∷ parts ↦
              let rest = later_components (part ∷ parts) in
              if is_empty s
              then []
              else if is_empty part
              then Component.root_dir ∷ rest
              else if same part (codes ".")
              then Component.cur_dir ∷ rest
              else rest
        ])
    go [] h = tt
    go (p ∷ ps) h =
        let rest = later-safe (p ∷ ps) h in
        if-intro (All IsSafeComponent) (is_empty s) (λ e. tt)
          λ e.
            if-intro (All IsSafeComponent) (is_empty p) (λ e. (tt, rest))
              λ e. if-intro (All IsSafeComponent) (same p (codes ".")) (λ e. (tt, rest)) λ e. rest

keep_normal-safe :
    (cs : FilePath) → All IsSafeComponent cs → OnSome (All IsSafeName) (keep_normal cs)
unfolding keep_normal
keep_normal-safe [] h = tt
keep_normal-safe (Component.normal t ∷ cs) (a, h) = more (keep_normal cs) (keep_normal-safe cs h)
  where
    more :
        (o : Option (List Text))
        → OnSome (All IsSafeName) o
        → OnSome (All IsSafeName) (elim o [ none ↦ none | some safe ↦ some (t ∷ safe) ])
    more none k = tt
    more (some safe) k = (a, k)
keep_normal-safe (Component.cur_dir ∷ cs) h = keep_normal-safe cs h.1
keep_normal-safe (Component.root_dir ∷ cs) h = tt
keep_normal-safe (Component.parent_dir ∷ cs) h = tt

-- A list of safe names, at least one.
pub record AreSafe (names : List Text) : Type 0 where
  pub some_name : is_empty names ≡ false
  pub each : All IsSafeName names

-- Whatever path a client asks for, `sanitize_relative_path` refuses it, or gives at least one name,
-- each of them not empty, not `.` or `..`, and without `/` and `\`.
pub sanitize_relative_path-AreSafe :
    (rel_path : Text) → OnSome AreSafe (sanitize_relative_path rel_path)
unfolding sanitize_relative_path
sanitize_relative_path-AreSafe rel_path =
    let trimmed = trim_start_while is_slash (trim rel_path) in
    let cs = components (slashed trimmed) in
    if-intro (OnSome AreSafe) (is_empty trimmed) (λ e. tt)
      λ e.
        last (keep_normal cs)
          (keep_normal-safe cs (components-safe (slashed trimmed) (slashed-Free trimmed)))
  where
    last :
        (o : Option (List Text))
        → OnSome (All IsSafeName) o
        → OnSome AreSafe
            (elim o [ none ↦ none | some safe ↦ if is_empty safe then none else some safe ])
    last none k = tt
    last (some safe) k =
        if-intro (OnSome AreSafe) (is_empty safe) (λ e. tt)
          (λ e. record { some_name = e; each = k })
