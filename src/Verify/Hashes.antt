-- ===== src/Verify/Hashes.antt =====
-- internal/verify/policy.go: the checks of content hashes, on the groups of environments that share one.
use tacklebox.Common.{
  before, ℕ, ◌≤◌, Bytes, List, [], ◌∷◌, ◌++◌, ◌≡◌, ◌↔◌, refl, sym, ◌∙◌, inl, inr, Bool-cases, Bool,
  true, false, not, ◌&&◌, arith, length, take, ltb, ◌==◌, if◌then◌else◌,
}
use tacklebox.Verify.Policy.{Groups, insert_group, sort_groups}

-- The results of both checks; a display hash has at most twelve bytes.
pub data HashResult : Type 0 where
  same_content : Bytes → List Bytes → HashResult
  distinct_content : ℕ → HashResult
  same_commit : Bytes → List Bytes → HashResult
  distinct_commits : ℕ → ℕ → HashResult

-- A commit that is shared is a note and no failure.
abbrev hash_failed : HashResult → Bool
hash_failed (same_content h names) = true
hash_failed _ = false

-- hDisplay
abbrev display : Bytes → Bytes
display h = if ltb 12 (length h) then take 12 h else h

-- The loop over the sorted hashes; `report` makes the result of a collision.
unfoldable collisions_of : (Bytes → List Bytes → HashResult) → Groups → List HashResult
collisions_of report [] = []
collisions_of report ((h, names) ∷ r) =
    if ltb 1 (length names)
    then report (display h) names ∷ collisions_of report r
    else collisions_of report r

abbrev or_distinct : HashResult → ℕ → List HashResult → List HashResult
or_distinct distinct n collisions =
    collisions ++ (if length collisions == 0 && ltb 0 n then distinct ∷ [] else [])

-- CheckSquashfsDistinctness
unfoldable check_squashfs_distinctness : Groups → List HashResult
unfolding collisions_of sort_groups
check_squashfs_distinctness hashes =
    or_distinct (distinct_content (length hashes)) (length hashes)
      (collisions_of same_content (sort_groups hashes))

-- CheckOstreeDeploymentsDistinct
unfoldable check_ostree_deployments_distinct : Groups → ℕ → List HashResult
unfolding collisions_of sort_groups
check_ostree_deployments_distinct env_hashes total_envs =
    or_distinct (distinct_commits (length env_hashes) total_envs) (length env_hashes)
      (collisions_of same_commit (sort_groups env_hashes))

abbrev none_hash_failed : List HashResult → Bool
none_hash_failed [] = true
none_hash_failed (r ∷ rs) = not (hash_failed r) && none_hash_failed rs

-- No hash is shared by two environments.
abbrev AreUnshared : Groups → Type 0
AreUnshared [] = Unit
AreUnshared ((h, names) ∷ r) = (length names ≤ 1) × AreUnshared r

insert_group-AreUnshared :
    (g : Bytes × List Bytes) (m : Groups) → AreUnshared (insert_group g m) ↔ AreUnshared (g ∷ m)
unfolding insert_group
insert_group-AreUnshared (h, names) [] = (λ u. u, λ u. u)
insert_group-AreUnshared (h, names) ((k, ns) ∷ r) =
    let rest = insert_group-AreUnshared (h, names) r in
    elim (Bool-cases (before h k)) [
      | inl y ↦ rw y (λ u. u, λ u. u)
      | inr n ↦
          rw n (λ u. let v = rest.0 u.1 in (v.0, (u.0, v.1)), λ u. (u.1.0, rest.1 (u.0, u.1.1)))
    ]

sort_groups-AreUnshared : (m : Groups) → AreUnshared (sort_groups m) ↔ AreUnshared m
unfolding sort_groups
sort_groups-AreUnshared [] = (λ u. u, λ u. u)
sort_groups-AreUnshared (g ∷ r) =
    let here = insert_group-AreUnshared g (sort_groups r) in
    let rest = sort_groups-AreUnshared r in
    (λ u. let v = here.0 u in (v.0, rest.0 v.1), λ u. here.1 (u.0, rest.1 u.1))

none_hash_failed-append :
    (xs ys : List HashResult)
    → none_hash_failed (xs ++ ys) ≡ (none_hash_failed xs && none_hash_failed ys)
none_hash_failed-append [] ys = refl
none_hash_failed-append (x ∷ xs) ys = ground (arith, none_hash_failed-append xs ys)

collisions_of-AreUnshared :
    (m : Groups) → (none_hash_failed (collisions_of same_content m) ≡ true) ↔ AreUnshared m
unfolding collisions_of
collisions_of-AreUnshared [] = (λ p. tt, λ u. refl)
collisions_of-AreUnshared ((h, names) ∷ r) =
    let rest = collisions_of-AreUnshared r in
    elim (Bool-cases (ltb 1 (length names))) [
      | inl y ↦ (λ p. absurd (ground arith), λ u. absurd (ground (arith, u.0)))
      | inr n ↦ rw n (λ p. (ground arith, rest.0 p), λ u. rest.1 u.1)
    ]

-- A last result that is no failure changes nothing.
none_hash_failed-or_distinct :
    (distinct : HashResult) (n : ℕ) (cs : List HashResult)
    → hash_failed distinct ≡ false
    → none_hash_failed (or_distinct distinct n cs) ≡ none_hash_failed cs
none_hash_failed-or_distinct distinct n cs h =
    none_hash_failed-append cs (if length cs == 0 && ltb 0 n then distinct ∷ [] else [])
    ∙ ground arith

-- The check of squashfs hashes reports no failure exactly when no hash is that of two environments,
-- in whatever order the hashes come.
check_squashfs_distinctness-AreUnshared :
    (hashes : Groups)
    → (none_hash_failed (check_squashfs_distinctness hashes) ≡ true) ↔ AreUnshared hashes
unfolding check_squashfs_distinctness
check_squashfs_distinctness-AreUnshared hashes =
    let same =
      none_hash_failed-or_distinct (distinct_content (length hashes)) (length hashes)
        (collisions_of same_content (sort_groups hashes)) refl in
    let each = collisions_of-AreUnshared (sort_groups hashes) in
    let sorted = sort_groups-AreUnshared hashes in
    (λ p. sorted.0 (each.0 (sym same ∙ p)), λ u. same ∙ each.1 (sorted.1 u))

none_hash_failed-collisions_of :
    (m : Groups) → none_hash_failed (collisions_of same_commit m) ≡ true
unfolding collisions_of
none_hash_failed-collisions_of [] = refl
none_hash_failed-collisions_of ((h, names) ∷ r) = ground (arith, none_hash_failed-collisions_of r)

-- The check of ostree commits never reports a failure, whatever environments share.
none_hash_failed-check_ostree_deployments_distinct :
    (env_hashes : Groups) (total_envs : ℕ)
    → none_hash_failed (check_ostree_deployments_distinct env_hashes total_envs) ≡ true
unfolding check_ostree_deployments_distinct
none_hash_failed-check_ostree_deployments_distinct env_hashes total_envs =
    none_hash_failed-or_distinct (distinct_commits (length env_hashes) total_envs)
      (length env_hashes) (collisions_of same_commit (sort_groups env_hashes)) refl
    ∙ none_hash_failed-collisions_of (sort_groups env_hashes)
