-- ===== src/Plan/Partitions.antt =====
-- `computePartitions`: the three partitions of the medium. Sizes are `uint64`; a specification is
-- the text that sgdisk gets.
pub mod Fit
pub mod Generated
use tacklebox.Common.{
  ℕ, ◌+◌, ◌-◌, ◌*◌, ◌/◌, ◌%◌, ◌^◌, Bytes, List, [], ◌∷◌, ◌++◌, Bool, Option, some, none, codes,
  decimal, ltb, bytes_eq, u64, if◌then◌else◌,
}
use tacklebox.Recipe.{MediaRecipe}
use tacklebox.Plan.Size.{parse_size}

-- blockdev.Partition of internal/blockdev/format.go
pub record Partition : Type 0 where
  pub number : ℕ
  pub label : Bytes
  pub size : Bytes
  pub kind : Bytes
  pub fs : Bytes

abbrev pub esp_bytes : ℕ
esp_bytes = 2 ^ 30

abbrev pub persist_bytes : ℕ
persist_bytes = 2 * 2 ^ 30

abbrev pub min_store_bytes : ℕ
min_store_bytes = 3 * 2 ^ 30

pub data PlanError : Type 0 where
  bad_size bad_esp bad_persist bad_store too_small : PlanError

pub data Result {ℓ} (A : Type ℓ) : Type ℓ where
  ok : A → Result A
  err : PlanError → Result A

infixl 5 ◌>>=◌
abbrev pub ◌>>=◌ {ℓ κ} : {A : Type ℓ} {B : Type κ} → Result A → (A → Result B) → Result B
ok a >>= f = f a
err e >>= f = err e

abbrev pub or_fail {ℓ} : {A : Type ℓ} → Option A → PlanError → Result A
or_fail (some a) e = ok a
or_fail none e = err e

-- fmt.Sprintf("+%dG", b>>30)
unfoldable pub gib_spec : ℕ → Bytes
gib_spec b = codes "+" ++ (decimal (b / 2 ^ 30) ++ codes "G")

-- The closure `resolve`: an empty field takes the default.
unfoldable pub resolve : Bytes → Bytes → ℕ → Option (Bytes × ℕ)
resolve [] def def_bytes = some (def, def_bytes)
resolve (c ∷ field) def def_bytes = elim (parse_size (c ∷ field)) [
  | some b ↦ some (gib_spec b, b)
  | none ↦ none
]

-- The specification of STORE when the recipe leaves it to be computed.
unfoldable pub store_remainder : ℕ → ℕ → ℕ → Result Bytes
store_remainder total esp persist =
    if ltb total (u64 (u64 (esp + persist) + min_store_bytes))
    then err too_small
    else ok (gib_spec (u64 (total + 2 * 2 ^ 64 - esp - persist)))

unfoldable pub store_spec : Bytes → ℕ → ℕ → ℕ → Result Bytes
store_spec [] total esp persist = store_remainder total esp persist
store_spec (c ∷ field) total esp persist = do
  s ← or_fail (resolve (c ∷ field) [] 0) bad_store
  ok s.0

abbrev partition : ℕ → Bytes → Bytes → Bytes → Bytes → Partition
partition n label size kind fs = record {
  number = n;
  label = label;
  size = size;
  kind = kind;
  fs = fs;
}

unfoldable pub compute_partitions : MediaRecipe → Result (List Partition)
compute_partitions r = do
  total ← or_fail (parse_size r.size) bad_size
  esp ← or_fail (resolve r.partitions.esp (codes "+1G") esp_bytes) bad_esp
  persist ← or_fail (resolve r.partitions.persist [] persist_bytes) bad_persist
  store ← store_spec r.partitions.store total esp.1 persist.1
  ok (
      partition 1 (codes "TBOX_ESP") esp.0 (codes "ef00") (codes "vfat")
      ∷ partition 2 (codes "TBOX_STORE") store (codes "8300") r.shared_store.format
      ∷ partition 3 (codes "TBOX_PERSIST")
          (if bytes_eq r.partitions.persist [] then codes "0" else persist.0) (codes "8300")
          (codes "ext4")
      ∷ [])
