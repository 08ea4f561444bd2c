-- ===== src/Verify/Policy.antt =====
-- internal/verify/policy.go: the checks of boot entries that share a squashfs. A Go map is an
-- association list; where the code sorts its keys, so does the model.
pub mod Groups
pub mod Distinct
use tacklebox.Common.{
  one_name, before, ℕ, ◌+◌, Bytes, List, [], ◌∷◌, ◌++◌, Bool, true, false, not, ◌&&◌, ◌||◌, length,
  codes, ltb, leb, ◌==◌, bytes_eq, if◌then◌else◌,
}
use tacklebox.Verify.Bls.{BlsEntry, bls_option, bls_squashimg, or_else}

pub data CheckResult : Type 0 where
  undistinguished : List Bytes → CheckResult
  shared : Bytes → List Bytes → CheckResult
  pivots : ℕ → ℕ → CheckResult
  missing_squashfs missing_delta : Bytes → Bytes → CheckResult

-- CheckResult.Failed
abbrev pub failed : CheckResult → Bool
failed (pivots n m) = false
failed _ = true

-- The set of the squashfs images that are named.
abbrev with_image : Bytes → List Bytes → List Bytes
with_image [] images = images
with_image (c ∷ v) images = if one_name (c ∷ v) images then images else (c ∷ v) ∷ images

unfoldable pub squashimgs : List BlsEntry → List Bytes
squashimgs [] = []
squashimgs (e ∷ es) = with_image (bls_squashimg e.options) (squashimgs es)

unfoldable pub delta_layout : List BlsEntry → Bool
delta_layout [] = false
delta_layout (e ∷ es) =
    not (bytes_eq (bls_option e.options (codes "tacklebox.live.delta")) []) || delta_layout es

-- What sets an entry apart: the subtree or the delta, empty for neither.
unfoldable pub distinguisher : BlsEntry → Bytes
distinguisher e =
    or_else (bls_option e.options (codes "tacklebox.root"))
      (bls_option e.options (codes "tacklebox.live.delta"))

abbrev pub with_bare : Bytes → Bytes → List Bytes → List Bytes
with_bare [] name bare = name ∷ bare
with_bare (c ∷ d) name bare = bare

unfoldable pub bare_names : List BlsEntry → List Bytes
bare_names [] = []
bare_names (e ∷ es) = with_bare (distinguisher e) e.name (bare_names es)

-- distinguishers[d] = append(distinguishers[d], name)
abbrev pub Groups : Type 0
Groups = List (Bytes × List Bytes)

unfoldable pub add_to : Bytes → Bytes → Groups → Groups
add_to d name [] = (d, name ∷ []) ∷ []
add_to d name ((k, names) ∷ r) =
    if bytes_eq k d then (k, names ++ name ∷ []) ∷ r else (k, names) ∷ add_to d name r

abbrev pub grouped : Bytes → Bytes → Groups → Groups
grouped [] name groups = groups
grouped (c ∷ d) name groups = add_to (c ∷ d) name groups

unfoldable pub group_all : List BlsEntry → Groups → Groups
group_all [] groups = groups
group_all (e ∷ es) groups = group_all es (grouped (distinguisher e) e.name groups)

-- The groups by their sorted keys.
unfoldable pub insert_group : Bytes × List Bytes → Groups → Groups
insert_group g [] = g ∷ []
insert_group g (h ∷ r) = if before g.0 h.0 then g ∷ (h ∷ r) else h ∷ insert_group g r

unfoldable pub sort_groups : Groups → Groups
unfolding insert_group
sort_groups [] = []
sort_groups (g ∷ r) = insert_group g (sort_groups r)

-- The loop over the sorted keys.
unfoldable pub shared_results : Groups → List CheckResult
shared_results [] = []
shared_results ((d, names) ∷ r) =
    if ltb 1 (length names) then shared d names ∷ shared_results r else shared_results r

-- The three parts of the results, from the bare entries, their allowed number and the collisions.
unfoldable pub pivot_results : ℕ → ℕ → List Bytes → Groups → List CheckResult → List CheckResult
pivot_results n max_bare bare groups collisions =
    (if ltb max_bare (length bare) then undistinguished bare ∷ [] else [])
    ++ (collisions
        ++ (if length collisions == 0 && leb (length bare) max_bare
            then pivots n (length groups + length bare) ∷ []
            else []))

abbrev pub max_bare_of : List BlsEntry → ℕ
max_bare_of es = if delta_layout es then 1 else 0

-- CheckCombinedPivots
unfoldable pub check_combined_pivots : List BlsEntry → List CheckResult
unfolding squashimgs delta_layout bare_names group_all sort_groups shared_results pivot_results
check_combined_pivots es =
    if not (length (squashimgs es) == 1) || ltb (length es) 2
    then []
    else let groups = group_all es [] in
      pivot_results (length es) (max_bare_of es) (bare_names es) groups
        (shared_results (sort_groups groups))

-- CheckSquashfsReferences, `files` being the test for membership in the set.
unfoldable pub check_squashfs_references : List BlsEntry → (Bytes → Bool) → List CheckResult
check_squashfs_references [] files = []
check_squashfs_references (e ∷ es) files =
    let img = bls_squashimg e.options in
    let delta = bls_option e.options (codes "tacklebox.live.delta") in
    (if not (bytes_eq img []) && not (files img) then missing_squashfs e.name img ∷ [] else [])
    ++ ((if not (bytes_eq delta []) && not (files delta)
          then missing_delta e.name delta ∷ []
          else [])
        ++ check_squashfs_references es files)
