-- ===== src/Tests/Plan.antt =====
-- Recipes as the README shows them, and what the build plans for them.
use tacklebox.Common.{
  ◌+◌, ◌-◌, ◌*◌, ◌/◌, ◌^◌, ◌≤◌, Bytes, [], ◌∷◌, ◌++◌, ◌≡◌, ◌↔◌, refl, true, false, some, none, ℕ,
  map, get_elem?, inl, inr, arith, codes, length, decimal, bytes_eq,
}
use tacklebox.Recipe.{BootableEnvironment, OfflinePayload, MediaRecipe}
use tacklebox.Recipe.Defaults.{Generated, apply_defaults, recipe_gen, validate}
use tacklebox.Plan.Partitions.Generated.{compute_partitions-recipe_gen}
use tacklebox.Plan.Size.{parse_size, sized, last_byte, without_last, unit_of, scan_digits, scaled}
use tacklebox.Plan.Size.Laws.{parse_size_digits}
use tacklebox.Plan.Dedup.{
  validate_dedup_layout, names_env, delta_base_env, delta_base_env-HasEnv, HasEnv,
  validate_dedup_layout_exact, IsValidStore,
}
use tacklebox.Plan.Partitions.{
  Partition, ok, resolve, gib_spec, store_spec, store_remainder, compute_partitions, esp_bytes,
  persist_bytes, min_store_bytes,
}
use tacklebox.Plan.Partitions.Fit.{
  whole_gib, planned, compute_partitions_exact, compute_partitions_fit,
}
use tacklebox.Plan.Estimate.{estimate_store_usage}
use tacklebox.Plan.Estimate.Agree.{estimate_store_usage-planned}

abbrev environment : Bytes → Bytes → BootableEnvironment
environment id backend = record {
  id = id;
  image = codes "ghcr.io/example/os:stable";
  title = [];
  desktop = [];
  backend = backend;
  modes = codes "live" ∷ [];
  skip_initramfs_rebuild = false;
  live_customize = [];
  remora = [];
}

abbrev gnome : BootableEnvironment
gnome = environment (codes "gnome") (codes "composefs")

abbrev kde : BootableEnvironment
kde = environment (codes "kde") (codes "ostree")

abbrev usb : MediaRecipe
usb = record {
  media_name = codes "Example";
  size = codes "32G";
  shared_store = record {
    format = codes "ext4";
    compression = [];
    compressor = [];
    dedup = true;
    dedup_layout = codes "delta";
    delta_base = codes "kde";
    prune_source_images = false;
  };
  partitions = record { esp = codes "2G"; store = []; persist = [] };
  default_boot = codes "gnome";
  bootable_environments = gnome ∷ kde ∷ [];
  offline_payloads = [];
  kargs = [];
}

size_read : parse_size (codes "32G") ≡ some (32 * 2 ^ 30)
unfolding parse_size sized last_byte without_last unit_of scan_digits scaled
size_read = refl

esp_read : resolve (codes "2G") (codes "+1G") esp_bytes ≡ some (codes "+2G", 2 * 2 ^ 30)
unfolding resolve parse_size sized last_byte without_last unit_of scan_digits scaled gib_spec
    decimal
esp_read = refl

persist_read : resolve [] [] persist_bytes ≡ some ([], persist_bytes)
unfolding resolve
persist_read = refl

usb-planned :
    compute_partitions usb
    ≡ ok (planned usb (32 * 2 ^ 30) (codes "+2G", 2 * 2 ^ 30) ([], persist_bytes))
unfolding compute_partitions store_spec store_remainder resolve parse_size sized last_byte
    without_last unit_of scan_digits scaled gib_spec decimal
usb-planned = refl

-- "512M" is read as 512 MiB and handed to sgdisk as no space at all.
half_gib : parse_size (codes "512M") ≡ some (512 * 2 ^ 20)
unfolding parse_size sized last_byte without_last unit_of scan_digits scaled
half_gib = refl

-- A number past 2^64 is read as what a `uint64` keeps of it.
size_wraps : parse_size (codes "18446744073709551617G") ≡ some (2 ^ 30)
unfolding parse_size sized last_byte without_last unit_of scan_digits scaled
size_wraps = refl

valid_store : validate_dedup_layout usb ≡ none
unfolding validate_dedup_layout names_env bytes_eq
valid_store = refl

parse_size_digits_example : parse_size (codes "32" ++ b'G' ∷ []) ≡ some (32 * 2 ^ 30)
parse_size_digits_example =
    parse_size_digits (codes "32") b'G' 1073741824 (λ e. cc e) (refl, (refl, tt))
      (inr (inr (inl (inl refl, refl))))

delta_base_env-HasEnv_example :
    (id : Bytes) × (delta_base_env usb ≡ some id) × HasEnv id (gnome ∷ kde ∷ [])
delta_base_env-HasEnv_example = delta_base_env-HasEnv usb valid_store (λ e. cc e)

validate_dedup_layout_exact_example : (validate_dedup_layout usb ≡ none) ↔ IsValidStore usb
validate_dedup_layout_exact_example = validate_dedup_layout_exact usb

compute_partitions_exact_example :
    compute_partitions usb
    ≡ ok (planned usb (32 * 2 ^ 30) (codes "+2G", 2 * 2 ^ 30) ([], persist_bytes))
compute_partitions_exact_example =
    compute_partitions_exact usb (32 * 2 ^ 30) (codes "+2G", 2 * 2 ^ 30) ([], persist_bytes)
      size_read esp_read persist_read refl (omega arith)

compute_partitions_fit_example :
    (map
        (λ (p : Partition). p.size)
        (planned usb (32 * 2 ^ 30) (codes "+2G", 2 * 2 ^ 30) ([], persist_bytes))
      ≡ whole_gib (2 * 2 ^ 30 / 2 ^ 30)
        ∷ whole_gib ((32 * 2 ^ 30 - 2 * 2 ^ 30 - persist_bytes) / 2 ^ 30)
        ∷ codes "0"
        ∷ [])
    × (2 * 2 ^ 30 / 2 ^ 30 * 2 ^ 30
          + (32 * 2 ^ 30 - 2 * 2 ^ 30 - persist_bytes) / 2 ^ 30 * 2 ^ 30
          + persist_bytes
        ≤ 32 * 2 ^ 30)
    × (min_store_bytes ≤ (32 * 2 ^ 30 - 2 * 2 ^ 30 - persist_bytes) / 2 ^ 30 * 2 ^ 30)
unfolding bytes_eq
compute_partitions_fit_example =
    compute_partitions_fit usb (32 * 2 ^ 30) (codes "+2G", 2 * 2 ^ 30) ([], persist_bytes) size_read
      esp_read persist_read refl (omega arith) usb-planned

estimate_store_usage-planned_example :
    (needed available : ℕ) × (estimate_store_usage usb ≡ some (needed, available))
    × (get_elem?
          (map
            (λ (p : Partition). p.size)
            (planned usb (32 * 2 ^ 30) (codes "+2G", 2 * 2 ^ 30) ([], persist_bytes)))
          1
        ≡ some (whole_gib (available / 2 ^ 30)))
estimate_store_usage-planned_example =
    estimate_store_usage-planned usb (32 * 2 ^ 30) (codes "+2G", 2 * 2 ^ 30) ([], persist_bytes)
      size_read esp_read persist_read refl (omega arith) usb-planned

abbrev payload : OfflinePayload
payload = record { source = codes "localhost/os:stable"; ref = codes "ghcr.io/example/os:stable" }

-- A recipe without sizes.
abbrev bare : MediaRecipe
bare = record usb { size = []; partitions = record { esp = []; store = []; persist = [] } }

bare_made : recipe_gen bare ≡ Generated.ok (apply_defaults bare)
unfolding recipe_gen validate bytes_eq apply_defaults
bare_made = refl

compute_partitions-recipe_gen_example :
    compute_partitions (apply_defaults bare)
    ≡ ok (
        planned
          (apply_defaults bare)
          ((length bare.bootable_environments * 5 + 3) * 2 ^ 30)
          (codes "+1G", esp_bytes)
          ([], persist_bytes))
compute_partitions-recipe_gen_example =
    compute_partitions-recipe_gen bare refl refl refl refl (omega arith) bare_made
