-- ===== src/Plan/Partitions/Fit.antt =====
-- The partitions that `computePartitions` (cmd/tacklebox/build_plan.go) plans, and the recipe's size.
use tacklebox.Common.{
  ℕ, zero, suc, ◌+◌, ◌-◌, ◌*◌, ◌/◌, ◌^◌, ◌≤◌, ◌<◌, Bytes, List, [], ◌∷◌, ◌≡◌, ◌≢◌, refl, Option,
  some, none, arith, ap, subst, ◌∙◌, ◌++◌, map, false, inl, inr, Bool-cases, Option-cases, codes,
  decimal, ltb, bytes_eq, u64, if◌then◌else◌,
}
use tacklebox.Recipe.{MediaRecipe}
use tacklebox.Plan.Size.{parse_size, sized, scaled}
use tacklebox.Plan.Partitions.{
  Partition, too_small, ok, err, gib_spec, resolve, store_remainder, store_spec, partition,
  compute_partitions, esp_bytes, persist_bytes, min_store_bytes,
}

-- The three partitions of a recipe that leaves STORE to be computed, for the sizes that its ESP and
-- PERSIST fields resolve to.
abbrev pub planned : MediaRecipe → ℕ → Bytes × ℕ → Bytes × ℕ → List Partition
planned r total esp persist =
    partition 1 (codes "TBOX_ESP") esp.0 (codes "ef00") (codes "vfat")
    ∷ partition 2 (codes "TBOX_STORE") (gib_spec (total - esp.1 - persist.1)) (codes "8300")
        r.shared_store.format
    ∷ partition 3 (codes "TBOX_PERSIST")
        (if bytes_eq r.partitions.persist [] then codes "0" else persist.0) (codes "8300")
        (codes "ext4")
    ∷ []

store_remainder_lem :
    (total esp persist : ℕ)
    → total < 2 ^ 64
    → esp + persist + min_store_bytes < 2 ^ 64
    → store_remainder total esp persist ≡ (
        if ltb total (esp + persist + min_store_bytes)
        then err too_small
        else ok (gib_spec (total - esp - persist)))
unfolding store_remainder
store_remainder_lem total esp persist t s =
    let e : u64 (u64 (esp + persist) + min_store_bytes) ≡ esp + persist + min_store_bytes =
      omega arith in
    let f : esp + persist + min_store_bytes ≤ total
        → u64 (total + 2 * 2 ^ 64 - esp - persist) ≡ total - esp - persist =
      λ h. omega arith in
    ground (arith, f)

scaled-lt : (unit : ℕ) (o : Option ℕ) {n : ℕ} → scaled unit o ≡ some n → n < 2 ^ 64
unfolding scaled
scaled-lt unit none h = cc
scaled-lt unit (some zero) h = cc
scaled-lt unit (some (suc m)) h = ground arith

sized-lt : (u : Option ℕ) (c : ℕ) (s : Bytes) {n : ℕ} → sized u c s ≡ some n → n < 2 ^ 64
unfolding sized
sized-lt none c s h = scaled-lt 1 _ h
sized-lt (some unit) c s h = scaled-lt unit _ h

pub parse_size-lt : (s : Bytes) {n : ℕ} → parse_size s ≡ some n → n < 2 ^ 64
unfolding parse_size
parse_size-lt [] h = cc
parse_size-lt (c ∷ s) h = sized-lt _ c s h

-- A size of whole GiB as sgdisk reads it, "+nG".
abbrev pub whole_gib : ℕ → Bytes
whole_gib n = b'+' ∷ (decimal n ++ b'G' ∷ [])

gib_spec-whole_gib : (b : ℕ) → gib_spec b ≡ whole_gib (b / 2 ^ 30)
unfolding gib_spec
gib_spec-whole_gib b = refl

default_esp : codes "+1G" ≡ whole_gib (esp_bytes / 2 ^ 30)
unfolding decimal
default_esp = refl

-- What is resolved is given in whole GiB, if the default is.
resolve-whole_gib :
    (field def : Bytes) (b : ℕ) {spec : Bytes × ℕ}
    → def ≡ whole_gib (b / 2 ^ 30)
    → resolve field def b ≡ some spec
    → spec.0 ≡ whole_gib (spec.1 / 2 ^ 30)
unfolding resolve
resolve-whole_gib [] def b {spec} d h =
    let e : (def, b) ≡ spec = cc h in subst (λ s. s.0 ≡ whole_gib (s.1 / 2 ^ 30)) e d
resolve-whole_gib (c ∷ s) def b {spec} d h = elim (Option-cases (parse_size (c ∷ s))) [
  | inl q ↦ absurd (ground arith)
  | inr (n, q) ↦
      let e : (gib_spec n, n) ≡ spec = ground arith in
      subst (λ s. s.0 ≡ whole_gib (s.1 / 2 ^ 30)) e (gib_spec-whole_gib n)
]

-- The same for a field that is given.
resolve-given :
    (field def : Bytes) (b : ℕ) {spec : Bytes × ℕ}
    → resolve field def b ≡ some spec
    → bytes_eq field [] ≡ false
    → spec.0 ≡ whole_gib (spec.1 / 2 ^ 30)
unfolding resolve bytes_eq
resolve-given [] def b h n = absurd (cc n)
resolve-given (c ∷ s) def b h n =
    resolve-whole_gib (c ∷ s) (whole_gib (b / 2 ^ 30)) b refl (unfold resolve in h)

planned-sizes :
    (r : MediaRecipe) (total : ℕ) (esp persist : Bytes × ℕ)
    → esp.0 ≡ whole_gib (esp.1 / 2 ^ 30)
    → (bytes_eq r.partitions.persist [] ≡ false → persist.0 ≡ whole_gib (persist.1 / 2 ^ 30))
    → map (λ (p : Partition). p.size) (planned r total esp persist)
      ≡ whole_gib (esp.1 / 2 ^ 30)
        ∷ whole_gib ((total - esp.1 - persist.1) / 2 ^ 30)
        ∷ (if bytes_eq r.partitions.persist [] then codes "0" else whole_gib (persist.1 / 2 ^ 30))
        ∷ []
planned-sizes r total esp persist e p = elim (Bool-cases (bytes_eq r.partitions.persist [])) [
  | inl y ↦ rw (y, e, gib_spec-whole_gib) refl
  | inr n ↦ rw (n, e, gib_spec-whole_gib, p n) refl
]

module _ (r : MediaRecipe) (total : ℕ) (esp persist : Bytes × ℕ)
    (sized : parse_size r.size ≡ some total)
    (esp_sized : resolve r.partitions.esp (codes "+1G") esp_bytes ≡ some esp)
    (persist_sized : resolve r.partitions.persist [] persist_bytes ≡ some persist)
    (no_store : r.partitions.store ≡ [])
    (no_overflow : esp.1 + persist.1 + min_store_bytes < 2 ^ 64) where
  -- A recipe whose sizes are read, that gives STORE no size, and whose ESP, PERSIST and smallest STORE
  -- together are below 2^64, is refused as too small exactly when those three do not fit into its
  -- size; otherwise it is planned, and STORE gets what ESP and PERSIST leave.
  pub compute_partitions_exact : compute_partitions r ≡ (
      if ltb total (esp.1 + persist.1 + min_store_bytes)
      then err too_small
      else ok (planned r total esp persist))
  unfolding compute_partitions store_spec
  compute_partitions_exact =
      let bound = parse_size-lt r.size sized in
      let remainder = store_remainder_lem total esp.1 persist.1 bound no_overflow in
      ground (arith, remainder)

  pub compute_partitions-planned :
      {parts : List Partition}
      → compute_partitions r ≡ ok parts
      → (parts ≡ planned r total esp persist)
        × (esp.1 / 2 ^ 30 * 2 ^ 30 + (total - esp.1 - persist.1) / 2 ^ 30 * 2 ^ 30 + persist.1
            ≤ total)
        × (min_store_bytes ≤ (total - esp.1 - persist.1) / 2 ^ 30 * 2 ^ 30)
  compute_partitions-planned h = ground (arith, compute_partitions_exact)

  -- The plan of a recipe fits its medium. ESP and STORE are given to sgdisk as "+nG", n being the whole GiB of
  -- what ESP is to have and of what ESP and PERSIST leave; PERSIST is given the rest, "0", or the whole GiB
  -- that the recipe names. What is given to ESP and STORE, and what PERSIST is to have, are together at
  -- most the size of the recipe, and STORE is given at least 3 GiB. Conditions: the sizes of the recipe
  -- are read, it gives STORE no size, and ESP, PERSIST and smallest STORE together are below 2^64.
  pub compute_partitions_fit :
      {parts : List Partition}
      → compute_partitions r ≡ ok parts
      → (map (λ (p : Partition). p.size) parts
          ≡ whole_gib (esp.1 / 2 ^ 30)
            ∷ whole_gib ((total - esp.1 - persist.1) / 2 ^ 30)
            ∷ (if bytes_eq r.partitions.persist []
                then codes "0"
                else whole_gib (persist.1 / 2 ^ 30))
            ∷ [])
        × (esp.1 / 2 ^ 30 * 2 ^ 30 + (total - esp.1 - persist.1) / 2 ^ 30 * 2 ^ 30 + persist.1
            ≤ total)
        × (min_store_bytes ≤ (total - esp.1 - persist.1) / 2 ^ 30 * 2 ^ 30)
  compute_partitions_fit {parts} h =
      let (same, fits, least) = compute_partitions-planned h in
      (
        ap (map (λ (p : Partition). p.size)) same
            ∙ planned-sizes r total esp persist
                (resolve-whole_gib r.partitions.esp (codes "+1G") esp_bytes default_esp esp_sized)
                (resolve-given r.partitions.persist [] persist_bytes persist_sized),
        fits,
        least,
      )

gib_spec-zero : (b : ℕ) → b < 2 ^ 30 → gib_spec b ≡ codes "+0G"
unfolding gib_spec decimal
gib_spec-zero b p = let z : b / 2 ^ 30 ≡ 0 = omega arith in rw z

-- An override that is given and is read as a size below one GiB counts with that size, but is passed
-- to sgdisk as "+0G".
pub resolve_sub_gib :
    (field def : Bytes) (def_bytes b : ℕ)
    → field ≢ []
    → parse_size field ≡ some b
    → b < 2 ^ 30
    → resolve field def def_bytes ≡ some (codes "+0G", b)
unfolding resolve
resolve_sub_gib [] def d b n p h = absurd (n refl)
resolve_sub_gib (c ∷ s) def d b n p h = ground (arith, gib_spec-zero b h)
