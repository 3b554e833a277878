-- ===== src/Upload/Paths.antt =====
-- `std::path` as src/file_upload.rs uses it, on Unix: a path is the list of its components, under
-- which paths are compared; and `sanitize_relative_path`.
use selkies_core.Prelude.{
  ℕ, Bool, true, false, ◌&&◌, ◌||◌, List, [], ◌∷◌, ◌++◌, map, Option, none, some, Text, codes, same,
  split, trim, trim_start_while, is_empty, ◌==◌, if◌then◌else◌,
}

pub data Component : Type 0 where
  root_dir : Component
  cur_dir : Component
  parent_dir : Component
  normal : Text → Component

abbrev pub FilePath : Type 0
FilePath = List Component

unfoldable pub same_component : Component → Component → Bool
same_component Component.root_dir Component.root_dir = true
same_component Component.cur_dir Component.cur_dir = true
same_component Component.parent_dir Component.parent_dir = true
same_component (Component.normal a) (Component.normal b) = same a b
same_component _ _ = false

-- `path.starts_with(base)`.
unfoldable pub path_starts_with : FilePath → FilePath → Bool
unfolding same_component
path_starts_with p [] = true
path_starts_with [] (b ∷ base) = false
path_starts_with (c ∷ p) (b ∷ base) = same_component c b && path_starts_with p base

abbrev pub same_path : FilePath → FilePath → Bool
same_path p q = path_starts_with p q && path_starts_with q p

-- The components behind the first: empty parts and `.` are passed over.
unfoldable pub later_components : List Text → FilePath
later_components [] = []
later_components (part ∷ parts) =
    let rest = later_components parts in
    if is_empty part || same part (codes ".")
    then rest
    else if same part (codes "..")
    then Component.parent_dir ∷ rest
    else Component.normal part ∷ rest

-- `PathBuf::from(s).components()`: a leading slash is the root, a leading `.` is kept.
unfoldable pub components : Text → FilePath
unfolding later_components
components s = elim (split 47 s) [
  | [] ↦ []
  | part ∷ parts ↦
      let rest = later_components (part ∷ parts) in
      if is_empty s
      then []
      else if is_empty part
      then Component.root_dir ∷ rest
      else if same part (codes ".")
      then Component.cur_dir ∷ rest
      else rest
]

-- `path.join(other)`: an absolute one replaces, and a `.` behind a path is passed over.
abbrev pub join_path : FilePath → FilePath → FilePath
join_path p (Component.root_dir ∷ q) = Component.root_dir ∷ q
join_path (c ∷ p) (Component.cur_dir ∷ q) = (c ∷ p) ++ q
join_path p q = p ++ q

-- `path.parent()` of a path with a last component.
abbrev pub parent : FilePath → FilePath
parent [] = []
parent (c ∷ []) = []
parent (c ∷ d ∷ p) = c ∷ parent (d ∷ p)

-- The loop over the components: `Normal` is kept, `.` passed over, all else refused.
unfoldable pub keep_normal : FilePath → Option (List Text)
keep_normal [] = some []
keep_normal (Component.normal part ∷ cs) = elim (keep_normal cs) [
  | none ↦ none
  | some safe ↦ some (part ∷ safe)
]
keep_normal (Component.cur_dir ∷ cs) = keep_normal cs
keep_normal (Component.root_dir ∷ cs) = none
keep_normal (Component.parent_dir ∷ cs) = none

abbrev pub is_slash : ℕ → Bool
is_slash c = c == 47 || c == 92

-- `replace('\\', "/")`.
abbrev pub slashed : Text → Text
slashed s = map (λ c. if c == 92 then 47 else c) s

-- The path with its safe names, none if it is refused.
unfoldable pub sanitize_relative_path : Text → Option (List Text)
unfolding components keep_normal
sanitize_relative_path rel_path =
    let trimmed = trim_start_while is_slash (trim rel_path) in
    if is_empty trimmed then none else elim (keep_normal (components (slashed trimmed))) [
      | none ↦ none
      | some safe ↦ if is_empty safe then none else some safe
    ]
