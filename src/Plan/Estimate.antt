-- ===== src/Plan/Estimate.antt =====
-- `estimateStoreUsage` and `allComposefs`. Sizes are `uint64`.
pub mod Agree
use tacklebox.Common.{
  ℕ, ◌+◌, ◌-◌, ◌*◌, ◌^◌, ◌%◌, ◌≤◌, ◌<◌, Bytes, List, [], ◌∷◌, ◌≡◌, ◌≢◌, refl, Bool, true, false,
  not, ◌&&◌, Option, some, none, arith, codes, bytes_eq, leb, ltb, ◌==◌, length, u64, if◌then◌else◌,
}
use tacklebox.Recipe.{BootableEnvironment, MediaRecipe}
use tacklebox.Plan.Size.{parse_size}
use tacklebox.Plan.Partitions.{esp_bytes, persist_bytes}

abbrev pub ostree_env_bytes : ℕ
ostree_env_bytes = 10 * 2 ^ 30

abbrev pub composefs_env_bytes : ℕ
composefs_env_bytes = 5 * 2 ^ 30

-- install.BackendComposefs
abbrev pub backend_composefs : Bytes
backend_composefs = codes "composefs"

-- A field that is set and can be read replaces the default; any other leaves it.
unfoldable pub or_sized : Bytes → ℕ → ℕ
or_sized [] d = d
or_sized (c ∷ s) d = elim (parse_size (c ∷ s)) [ some b ↦ b | none ↦ d ]

unfoldable pub available_store : MediaRecipe → Bytes → ℕ → Option ℕ
available_store r [] total =
    let esp = or_sized r.partitions.esp esp_bytes in
    let persist = or_sized r.partitions.persist persist_bytes in
    if leb total (u64 (esp + persist))
    then none
    else some (u64 (total + 2 * 2 ^ 64 - esp - persist))
available_store r (c ∷ s) total = some (or_sized (c ∷ s) 0)

-- The loop over the environments, from the sum so far.
unfoldable pub needed_bytes : ℕ → List BootableEnvironment → ℕ
needed_bytes n [] = n
needed_bytes n (e ∷ es) =
    needed_bytes
      (u64 (
        n
        + (if bytes_eq e.backend backend_composefs then composefs_env_bytes else ostree_env_bytes)))
      es

-- The bytes that the environments need, and those that STORE will have.
unfoldable pub estimate_store_usage : MediaRecipe → Option (ℕ × ℕ)
estimate_store_usage r = elim (parse_size r.size) [
  | none ↦ none
  | some total ↦ elim (available_store r r.partitions.store total) [
    | none ↦ none
    | some store ↦ some (needed_bytes 0 r.bootable_environments, store)
  ]
]

-- The loop of `allComposefs`.
unfoldable pub each_composefs : List BootableEnvironment → Bool
each_composefs [] = true
each_composefs (e ∷ es) =
    if bytes_eq e.backend []
    then false
    else if not (bytes_eq e.backend backend_composefs)
    then false
    else each_composefs es

unfoldable pub all_composefs : MediaRecipe → Bool
all_composefs r =
    if length r.bootable_environments == 0 then false else each_composefs r.bootable_environments
