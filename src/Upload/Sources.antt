-- ===== src/Upload/Sources.antt =====
-- `sources_list` of babel/src/utils.rs: the files below the source directory, and their order by
-- path in `prepare_manifest_blueprint` of babel/src/upload_job.rs. The walk over the directory, the
-- glob patterns and the relative paths are parameters: the crates walkdir, nu_glob and pathdiff.
use mathlib.Core.List.{reverse}
use blockvisor.Archive.{FilePath, FileLocation}
use blockvisor.Common.{
  ℕ, ◌+◌, ◌%◌, ◌^◌, Bool, true, false, Option, none, some, List, [], ◌∷◌, ◌++◌, compare, Ordering,
  any,
}
pub mod Total

-- An entry of the walk: `entry.metadata()` may fail.
pub record Entry : Type 0 where
  pub path : FilePath
  pub is_file : Bool
  pub len : Option ℕ

pub record SourcesList : Type 0 where
  pub total_size : ℕ  -- u64
  pub sources : List FileLocation

abbrev pub whole_file : FilePath → ℕ → FileLocation
whole_file path size = record { path = path; pos = 0; size = size }

module _ {Pattern : Type 0} (matches : Pattern → FilePath → Bool)
    (diff_paths : FilePath → Option FilePath) where
  abbrev pub is_excluded : List Pattern → FilePath → Bool
  is_excluded exclude path = elim (diff_paths path) [
    | none ↦ false
    | some relative_path ↦ any (λ pattern. matches pattern relative_path) exclude
  ]

  -- The loop over the entries; `none` among them is an error of the walk, which ends it.
  unfoldable pub sources_loop :
      List Pattern → ℕ → List FileLocation → List (Option Entry) → Option SourcesList
  sources_loop exclude total_size sources [] =
      some (record { total_size = total_size; sources = sources })
  sources_loop exclude total_size sources (none ∷ entries) = none
  sources_loop exclude total_size sources (some entry ∷ entries) =
      elim (is_excluded exclude entry.path) [
        | true ↦ sources_loop exclude total_size sources entries
        | false ↦ elim entry.is_file [
          | false ↦ sources_loop exclude total_size sources entries
          | true ↦ elim entry.len [
            | none ↦ none
            | some size ↦
                sources_loop exclude ((total_size + size) % 2 ^ 64)
                  (sources ++ whole_file entry.path size ∷ []) entries
          ]
        ]
      ]

  unfoldable pub sources_list : List Pattern → List (Option Entry) → Option SourcesList
  unfolding sources_loop
  sources_list exclude entries = sources_loop exclude 0 [] entries

-- The order of `Ord for [T]`, by which `Path::cmp` compares components, and these their bytes.
unfoldable pub compare_lists {ℓ} : {A : Type ℓ} → (A → A → Ordering) → List A → List A → Ordering
compare_lists cmp [] [] = Ordering.eq
compare_lists cmp [] (y ∷ ys) = Ordering.lt
compare_lists cmp (x ∷ xs) [] = Ordering.gt
compare_lists cmp (x ∷ xs) (y ∷ ys) = elim (cmp x y) [
  | Ordering.lt ↦ Ordering.lt
  | Ordering.eq ↦ compare_lists cmp xs ys
  | Ordering.gt ↦ Ordering.gt
]

unfoldable pub path_cmp : FilePath → FilePath → Ordering
unfolding compare_lists
path_cmp = compare_lists (compare_lists compare)

-- `sort_by(|a, b| a.path.cmp(&b.path))`: the standard library's sort is stable.
unfoldable pub insert_by_path : FileLocation → List FileLocation → List FileLocation
unfolding path_cmp
insert_by_path x [] = x ∷ []
insert_by_path x (y ∷ ys) = elim (path_cmp x.path y.path) [
  | Ordering.gt ↦ y ∷ insert_by_path x ys
  | _ ↦ x ∷ y ∷ ys
]

unfoldable pub sort_by_path : List FileLocation → List FileLocation
unfolding insert_by_path
sort_by_path [] = []
sort_by_path (x ∷ xs) = insert_by_path x (sort_by_path xs)

-- The sorted vector as `build_destinations` takes it, from its end.
unfoldable pub from_last : List FileLocation → List FileLocation
unfolding sort_by_path
from_last sources = reverse (sort_by_path sources)
