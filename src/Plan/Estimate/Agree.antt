-- ===== src/Plan/Estimate/Agree.antt =====
-- `estimateStoreUsage` beside `computePartitions` (cmd/tacklebox/build_plan.go).
use tacklebox.Common.{
  ℕ, ◌+◌, ◌-◌, ◌*◌, ◌^◌, ◌≤◌, ◌<◌, Bytes, List, [], ◌∷◌, ◌≡◌, ◌≢◌, ◌↔◌, inl, inr, true, some, arith,
  ◌/◌, ap, map, get_elem?, codes, u64, bytes_eq, bytes_eq_iff, Bool-cases, length, if◌then◌else◌,
}
use tacklebox.Recipe.{BootableEnvironment, MediaRecipe}
use tacklebox.Plan.Size.{parse_size}
use tacklebox.Plan.Partitions.{
  resolve, esp_bytes, persist_bytes, min_store_bytes, compute_partitions, ok, Partition,
}
use tacklebox.Plan.Partitions.Fit.{
  parse_size-lt, compute_partitions_fit, compute_partitions-planned, whole_gib,
}
use tacklebox.Plan.Estimate.{
  or_sized, available_store, estimate_store_usage, needed_bytes, ostree_env_bytes,
  composefs_env_bytes, backend_composefs, each_composefs, all_composefs,
}

or_sized-resolve :
    (field def : Bytes) (d : ℕ) {spec : Bytes × ℕ}
    → resolve field def d ≡ some spec
    → or_sized field d ≡ spec.1
unfolding resolve or_sized
or_sized-resolve [] def d {spec} h = ground arith
or_sized-resolve (c ∷ s) def d {spec} h = ground arith

module _ (r : MediaRecipe) (total : ℕ) (esp persist : Bytes × ℕ)
    (sized : parse_size r.size ≡ some total)
    (esp_sized : resolve r.partitions.esp (codes "+1G") esp_bytes ≡ some esp)
    (persist_sized : resolve r.partitions.persist [] persist_bytes ≡ some persist)
    (no_store : r.partitions.store ≡ [])
    (no_overflow : esp.1 + persist.1 + min_store_bytes < 2 ^ 64) where
  estimate_store_usage-available :
      {parts : List Partition}
      → compute_partitions r ≡ ok parts
      → estimate_store_usage r
        ≡ some (needed_bytes 0 r.bootable_environments, total - esp.1 - persist.1)
  unfolding estimate_store_usage available_store
  estimate_store_usage-available h = ground (
    arith,
    or_sized-resolve r.partitions.esp (codes "+1G") esp_bytes esp_sized,
    or_sized-resolve r.partitions.persist [] persist_bytes persist_sized,
    parse_size-lt r.size sized,
    compute_partitions-planned r total esp persist sized esp_sized persist_sized no_store
        no_overflow h,
  )

  -- When the build plans the partitions of a recipe, the estimate for it is there, and its STORE is
  -- the one of the plan, cut to whole GiB: the second partition of the plan is given to sgdisk as
  -- "+nG", n being the whole GiB of the estimate's STORE. Conditions: the sizes of the recipe are
  -- read, it gives STORE no size, and ESP, PERSIST and smallest STORE together are below 2^64.
  pub estimate_store_usage-planned :
      {parts : List Partition}
      → compute_partitions r ≡ ok parts
      → (needed available : ℕ) × (estimate_store_usage r ≡ some (needed, available))
        × (get_elem? (map (λ (p : Partition). p.size) parts) 1
            ≡ some (whole_gib (available / 2 ^ 30)))
  estimate_store_usage-planned {parts} h =
      let (sizes, _, _) =
        compute_partitions_fit r total esp persist sized esp_sized persist_sized no_store
          no_overflow h in
      (
        needed_bytes 0 r.bootable_environments,
        total - esp.1 - persist.1,
        estimate_store_usage-available h,
        ap (λ (l : List Bytes). get_elem? l 1) sizes,
      )

-- Environments counted by their backend.
abbrev pub composefs_count : List BootableEnvironment → ℕ
composefs_count [] = 0
composefs_count (e ∷ es) =
    (if bytes_eq e.backend backend_composefs then 1 else 0) + composefs_count es

-- The space needed is 5 GiB for each composefs environment and 10 GiB for each other, on top of what
-- the count starts with, when the sum for other environments only is below 2^64.
pub needed_bytes-count :
    (n : ℕ) (es : List BootableEnvironment)
    → n + 10 * 2 ^ 30 * length es < 2 ^ 64
    → needed_bytes n es + composefs_env_bytes * composefs_count es
      ≡ n + ostree_env_bytes * length es
unfolding needed_bytes
needed_bytes-count n [] h = ground arith
needed_bytes-count n (e ∷ es) h = elim (Bool-cases (bytes_eq e.backend backend_composefs)) [
  | inl c ↦ rw c (ground (arith, needed_bytes-count (u64 (n + composefs_env_bytes)) es))
  | inr o ↦ rw o (ground (arith, needed_bytes-count (u64 (n + ostree_env_bytes)) es))
]

composefs_count-le : (es : List BootableEnvironment) → composefs_count es ≤ length es
composefs_count-le [] = omega arith
composefs_count-le (e ∷ es) = ground (arith, composefs_count-le es)

each_composefs_iff :
    (es : List BootableEnvironment) → (each_composefs es ≡ true) ↔ (composefs_count es ≡ length es)
unfolding each_composefs
each_composefs_iff [] = ground arith
each_composefs_iff (e ∷ es) = ground (
  arith,
  bytes_eq_iff e.backend backend_composefs,
  bytes_eq_iff e.backend [],
  each_composefs_iff es,
  composefs_count-le es,
)

-- The composefs path is taken exactly when the recipe has environments and all of them name the
-- composefs backend.
pub all_composefs_iff :
    (r : MediaRecipe)
    → (all_composefs r ≡ true) ↔ (
        (r.bootable_environments ≢ [])
        × (composefs_count r.bootable_environments ≡ length r.bootable_environments))
unfolding all_composefs
all_composefs_iff r = ground (arith, each_composefs_iff r.bootable_environments)
