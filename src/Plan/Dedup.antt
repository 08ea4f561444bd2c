-- ===== src/Plan/Dedup.antt =====
-- `validateDedupLayout` and `deltaBaseEnv`: the policy of the shared store.
use tacklebox.Common.{
  Bytes, List, [], ◌∷◌, ◌≡◌, refl, ◌≢◌, ◌↔◌, ◌⊎◌, inl, inr, Bool, true, false, not, ◌&&◌, ◌||◌,
  Option, some, none, arith, codes, bytes_eq, bytes_eq_iff, if◌then◌else◌, Bool-cases,
}
use tacklebox.Recipe.{BootableEnvironment, MediaRecipe}

pub data DedupError : Type 0 where
  bad_layout layout_without_dedup base_without_delta unknown_base : DedupError

-- The loop over the environments: some environment has this id.
unfoldable pub names_env : Bytes → List BootableEnvironment → Bool
names_env id [] = false
names_env id (e ∷ es) = if bytes_eq e.id id then true else names_env id es

-- `none` is success.
unfoldable pub validate_dedup_layout : MediaRecipe → Option DedupError
validate_dedup_layout r =
    let layout = r.shared_store.dedup_layout in
    let base = r.shared_store.delta_base in
    if not
      (bytes_eq layout [] || bytes_eq layout (codes "combined") || bytes_eq layout (codes "delta"))
    then some bad_layout
    else if not (bytes_eq layout []) && not r.shared_store.dedup
    then some layout_without_dedup
    else if bytes_eq base []
    then none
    else if not (bytes_eq layout (codes "delta"))
    then some base_without_delta
    else if names_env base r.bootable_environments
    then none
    else some unknown_base

-- r.BootableEnvironments[0].ID; `none` is the panic of an index into an empty list.
unfoldable pub first_env : List BootableEnvironment → Option Bytes
first_env [] = none
first_env (e ∷ es) = some e.id

unfoldable pub delta_base_env : MediaRecipe → Option Bytes
delta_base_env r =
    if not (bytes_eq r.shared_store.delta_base [])
    then some r.shared_store.delta_base
    else first_env r.bootable_environments

-- An environment of the list has this id.
pub data HasEnv (id : Bytes) : List BootableEnvironment → Type 0 where
  here : {e : BootableEnvironment} {es : List BootableEnvironment} → e.id ≡ id → HasEnv id (e ∷ es)
  there :
      {e : BootableEnvironment} {es : List BootableEnvironment} → HasEnv id es → HasEnv id (e ∷ es)

names_env_sound :
    (id : Bytes) (es : List BootableEnvironment) → names_env id es ≡ true → HasEnv id es
unfolding names_env
names_env_sound id [] h = ground arith
names_env_sound id (e ∷ es) h = elim (Bool-cases (bytes_eq e.id id)) [
  | inl same ↦ here ((bytes_eq_iff e.id id).0 same)
  | inr other ↦ there (names_env_sound id es (rw other at h))
]

first_env-HasEnv :
    (es : List BootableEnvironment)
    → es ≢ []
    → (id : Bytes) × (first_env es ≡ some id) × HasEnv id es
unfolding first_env
first_env-HasEnv [] n = absurd (n refl)
first_env-HasEnv (e ∷ es) n = (e.id, refl, here refl)

-- A recipe with a base that passes the validation names an environment by it.
validated-names_env :
    (r : MediaRecipe)
    → validate_dedup_layout r ≡ none
    → bytes_eq r.shared_store.delta_base [] ≡ false
    → names_env r.shared_store.delta_base r.bootable_environments ≡ true
unfolding validate_dedup_layout
validated-names_env r v n = ground arith

-- When a recipe passes the validation and has an environment, the base of the delta layout is
-- resolved without a panic, and it is the id of an environment of the recipe.
pub delta_base_env-HasEnv :
    (r : MediaRecipe)
    → validate_dedup_layout r ≡ none
    → r.bootable_environments ≢ []
    → (id : Bytes) × (delta_base_env r ≡ some id) × HasEnv id r.bootable_environments
unfolding delta_base_env
delta_base_env-HasEnv r v n = elim (Bool-cases (bytes_eq r.shared_store.delta_base [])) [
  | inl empty ↦ rw empty (first_env-HasEnv r.bootable_environments n)
  | inr given ↦ (
    r.shared_store.delta_base,
    rw given,
    names_env_sound _ r.bootable_environments (validated-names_env r v given),
  )
]

-- The validation accepts exactly these recipes: the layout is known, a layout that is named goes
-- with `dedup`, and a base goes with the layout "delta" and names an environment.
pub record IsValidStore (r : MediaRecipe) : Type 0 where
  pub known :
      (bytes_eq r.shared_store.dedup_layout []
        || bytes_eq r.shared_store.dedup_layout (codes "combined")
        || bytes_eq r.shared_store.dedup_layout (codes "delta"))
      ≡ true
  pub deduped : (r.shared_store.dedup_layout ≡ []) ⊎ (r.shared_store.dedup ≡ true)
  pub base_delta : (r.shared_store.delta_base ≡ []) ⊎ (r.shared_store.dedup_layout ≡ codes "delta")
  pub base_named :
      (r.shared_store.delta_base ≡ []) ⊎ HasEnv r.shared_store.delta_base r.bootable_environments

names_env_complete :
    (id : Bytes) {es : List BootableEnvironment} → HasEnv id es → names_env id es ≡ true
unfolding names_env
names_env_complete id (here {e} {es} p) = rw ((bytes_eq_iff e.id id).1 p)
names_env_complete id (there {e} {es} h) = ground (arith, names_env_complete id h)

accepted :
    (r : MediaRecipe)
    → (bytes_eq r.shared_store.dedup_layout []
        || bytes_eq r.shared_store.dedup_layout (codes "combined")
        || bytes_eq r.shared_store.dedup_layout (codes "delta"))
      ≡ true
    → (bytes_eq r.shared_store.dedup_layout [] ≡ false → r.shared_store.dedup ≡ true)
    → (bytes_eq r.shared_store.delta_base [] ≡ false
        → bytes_eq r.shared_store.dedup_layout (codes "delta") ≡ true)
    → (bytes_eq r.shared_store.delta_base [] ≡ false
        → names_env r.shared_store.delta_base r.bootable_environments ≡ true)
    → validate_dedup_layout r ≡ none
unfolding validate_dedup_layout
accepted r known deduped delta named = ground (arith, deduped, delta, named)

-- Two ways to say that a text matters only if it is given.
given : {P : Type 0} (text : Bytes) → (text ≡ []) ⊎ P → bytes_eq text [] ≡ false → P
given text (inl e) n = absurd (cc (n, (bytes_eq_iff text []).1 e))
given text (inr p) n = p

if_given : {P : Type 0} (text : Bytes) → (bytes_eq text [] ≡ false → P) → (text ≡ []) ⊎ P
if_given text f = elim (Bool-cases (bytes_eq text [])) [
  | inl e ↦ inl ((bytes_eq_iff text []).0 e)
  | inr n ↦ inr (f n)
]

-- `validateDedupLayout` accepts a recipe exactly when its store is valid: a known layout, which, when
-- named, goes with `dedup`, and a base that, when named, goes with the layout "delta" and is the id
-- of an environment of the recipe.
pub validate_dedup_layout_exact :
    (r : MediaRecipe) → (validate_dedup_layout r ≡ none) ↔ IsValidStore r
unfolding validate_dedup_layout
validate_dedup_layout_exact r = (
  λ v. record {
    known = ground arith;
    deduped = if_given r.shared_store.dedup_layout (λ n. ground arith);
    base_delta =
        if_given r.shared_store.delta_base
          (λ n. ground (arith, bytes_eq_iff r.shared_store.dedup_layout (codes "delta")));
    base_named =
        if_given r.shared_store.delta_base (λ n. names_env_sound _ _ (validated-names_env r v n));
  },
  λ v.
      accepted r v.known (given _ v.deduped)
        (λ n. (bytes_eq_iff _ (codes "delta")).1 (given _ v.base_delta n))
        (λ n. names_env_complete _ (given _ v.base_named n)),
)
