-- ===== src/Recipe/Defaults.antt =====
-- cmd/tacklebox/recipe_gen.go: what `recipe-gen` fills in, and its checks. Reading the input, the
-- bridge from YAML to JSON and writing the output are not modelled.
use tacklebox.Common.{
  ◌+◌, ◌*◌, Bytes, List, [], ◌∷◌, ◌++◌, map, true, not, ◌&&◌, codes, bytes_eq, decimal, length, ltb,
  ◌==◌, if◌then◌else◌,
}
use tacklebox.Recipe.{BootMode, BootableEnvironment, MediaRecipe}

pub data GenError : Type 0 where
  no_environment no_media_name : GenError

pub data Generated : Type 0 where
  ok : MediaRecipe → Generated
  err : GenError → Generated

-- An empty text takes the default.
abbrev pub or_default : Bytes → Bytes → Bytes
or_default [] d = d
or_default (c ∷ s) d = c ∷ s

-- fmt.Sprintf("%dG", len(r.BootableEnvironments)*5+3)
unfoldable pub default_size : MediaRecipe → Bytes
default_size r = decimal (length r.bootable_environments * 5 + 3) ++ codes "G"

abbrev pub default_modes : List BootMode → List BootMode
default_modes [] = codes "live" ∷ []
default_modes (m ∷ ms) = m ∷ ms

-- The two loops over the environments: modes, then title.
unfoldable pub default_environment : BootableEnvironment → BootableEnvironment
default_environment e = record e { modes = default_modes e.modes; title = or_default e.title e.id }

abbrev first_id : List BootableEnvironment → Bytes
first_id [] = []
first_id (e ∷ es) = e.id

unfoldable pub apply_defaults : MediaRecipe → MediaRecipe
unfolding default_size default_environment
apply_defaults r =
    let envs = r.bootable_environments in
    record r {
      size = or_default r.size (default_size r);
      shared_store = record (r.shared_store) {
        format = or_default r.shared_store.format (codes "ext4");
        dedup =
            if ltb 1 (length envs) && not r.shared_store.dedup then true else r.shared_store.dedup;
      };
      bootable_environments = map default_environment envs;
      default_boot = or_default r.default_boot (first_id envs);
    }

unfoldable pub validate : MediaRecipe → Generated
validate r =
    if length r.bootable_environments == 0
    then err no_environment
    else if bytes_eq r.media_name []
    then err no_media_name
    else ok r

-- The body of the command between decoding and encoding.
unfoldable pub recipe_gen : MediaRecipe → Generated
recipe_gen r = validate (apply_defaults r)
