-- ===== src/Plan/Partitions/Generated.antt =====
-- `computePartitions` on what `recipe-gen` writes.
use tacklebox.Common.{
  ℕ, suc, ◌+◌, ◌*◌, ◌^◌, ◌<◌, Bytes, List, [], ◌∷◌, ◌++◌, map, ◌≡◌, ◌∙◌, refl, ap, subst, some,
  arith, codes, length, decimal,
}
use tacklebox.Recipe.{BootableEnvironment, MediaRecipe}
use tacklebox.Recipe.Defaults.{
  or_default, default_size, default_environment, apply_defaults, recipe_gen, Generated, validate,
}
use tacklebox.Plan.Size.{parse_size}
use tacklebox.Plan.Size.Laws.{parse_size-decimal}
use tacklebox.Plan.Partitions.{ok, resolve, esp_bytes, persist_bytes, compute_partitions}
use tacklebox.Plan.Partitions.Fit.{planned, compute_partitions_exact}

length-default_environments :
    (es : List BootableEnvironment) → length (map default_environment es) ≡ length es
length-default_environments [] = refl
length-default_environments (e ∷ es) = ap suc (length-default_environments es)

-- What recipe-gen returns is its input with the defaults, and has an environment.
recipe_gen-ok :
    (r : MediaRecipe) {g : MediaRecipe}
    → recipe_gen r ≡ Generated.ok g
    → (apply_defaults r ≡ g) × (0 < length r.bootable_environments)
unfolding recipe_gen validate apply_defaults
recipe_gen-ok r {g} h = ground (arith, length-default_environments r.bootable_environments)

resolve-empty : (field def : Bytes) (d : ℕ) → field ≡ [] → resolve field def d ≡ some (def, d)
unfolding resolve
resolve-empty field def d e = rw e refl

default_size_text :
    (r : MediaRecipe)
    → default_size r ≡ decimal (length r.bootable_environments * 5 + 3) ++ codes "G"
unfolding default_size
default_size_text r = refl

default_size_read :
    (r : MediaRecipe)
    → r.size ≡ []
    → length r.bootable_environments < 2 ^ 30
    → parse_size (apply_defaults r).size ≡ some ((length r.bootable_environments * 5 + 3) * 2 ^ 30)
unfolding apply_defaults
default_size_read r e few =
    ap (λ t. parse_size (or_default t (default_size r))) e
    ∙ ap parse_size (default_size_text r)
    ∙ parse_size-decimal (length r.bootable_environments * 5 + 3) (omega arith) (omega arith)

-- A recipe that recipe-gen accepts, with the size and the partitions left to their defaults and fewer
-- than 2^30 environments, is one that the build plans, for a size of 5 GiB for each environment and
-- 3 GiB more, with the default ESP and PERSIST.
pub compute_partitions-recipe_gen :
    (r : MediaRecipe) {g : MediaRecipe}
    → r.size ≡ []
    → r.partitions.esp ≡ []
    → r.partitions.store ≡ []
    → r.partitions.persist ≡ []
    → length r.bootable_environments < 2 ^ 30
    → recipe_gen r ≡ Generated.ok g
    → compute_partitions g
      ≡ ok (
          planned g
            ((length r.bootable_environments * 5 + 3) * 2 ^ 30)
            (codes "+1G", esp_bytes)
            ([], persist_bytes))
unfolding apply_defaults
compute_partitions-recipe_gen r {g} e p q t few h =
    let (made, some_env) = recipe_gen-ok r h in
    subst
      (λ g.
        compute_partitions g
        ≡ ok (
            planned g ((length r.bootable_environments * 5 + 3) * 2 ^ 30) (codes "+1G", esp_bytes)
              ([], persist_bytes)))
      made
      (compute_partitions_exact (apply_defaults r) _ (codes "+1G", esp_bytes) ([], persist_bytes)
          (default_size_read r e few) (resolve-empty r.partitions.esp (codes "+1G") esp_bytes p)
          (resolve-empty r.partitions.persist [] persist_bytes t) q (omega arith)
        ∙ ground arith)
