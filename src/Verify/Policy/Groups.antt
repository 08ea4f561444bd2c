-- ===== src/Verify/Policy/Groups.antt =====
-- The map of distinguishers in `CheckCombinedPivots` (internal/verify/policy.go).
use tacklebox.Common.{
  Bytes, List, [], ◌∷◌, ◌++◌, ◌≡◌, refl, ap, ◌∙◌, Bool, true, false, not, ◌&&◌, ◌||◌, arith,
  bytes_eq, bytes_eq_iff,
}
use tacklebox.Verify.Policy.{
  CheckResult, failed, Groups, add_to, insert_group, sort_groups, shared_results,
}

abbrev pub none_failed : List CheckResult → Bool
none_failed [] = true
none_failed (r ∷ rs) = not (failed r) && none_failed rs

abbrev pub single : List Bytes → Bool
single [] = false
single (n ∷ []) = true
single (n ∷ m ∷ r) = false

-- Every group has exactly one entry; every group has one at least.
abbrev pub all_single : Groups → Bool
all_single [] = true
all_single ((d, names) ∷ r) = single names && all_single r

abbrev pub some_name : List Bytes → Bool
some_name [] = false
some_name (n ∷ r) = true

abbrev pub all_named : Groups → Bool
all_named [] = true
all_named ((d, names) ∷ r) = some_name names && all_named r

abbrev pub has_key : Bytes → Groups → Bool
has_key s [] = false
has_key s ((k, names) ∷ r) = bytes_eq k s || has_key s r

single-append :
    (names : List Bytes) (n : Bytes) → some_name names ≡ true → single (names ++ n ∷ []) ≡ false
single-append [] n h = absurd (cc h)
single-append (m ∷ []) n h = refl
single-append (m ∷ k ∷ r) n h = refl

some_name-append : (names : List Bytes) (n : Bytes) → some_name (names ++ n ∷ []) ≡ true
some_name-append [] n = refl
some_name-append (m ∷ r) n = refl

pub add_to-named : (d n : Bytes) (m : Groups) → all_named m ≡ true → all_named (add_to d n m) ≡ true
unfolding add_to
add_to-named d n [] h = refl
add_to-named d n ((k, names) ∷ r) h = ground (arith, add_to-named d n r, some_name-append names n)

-- A key that is there already is shared then.
pub add_to-shared :
    (d n : Bytes) (m : Groups)
    → all_named m ≡ true
    → has_key d m ≡ true
    → all_single (add_to d n m) ≡ false
unfolding add_to
add_to-shared d n [] h k = absurd (cc k)
add_to-shared d n ((k', names) ∷ r) h k =
    ground (arith, add_to-shared d n r, single-append names n, bytes_eq_iff k' d)

-- What is shared stays shared.
pub add_to-single :
    (d n : Bytes) (m : Groups)
    → all_named m ≡ true
    → all_single (add_to d n m) ≡ true
    → all_single m ≡ true
unfolding add_to
add_to-single d n [] h k = refl
add_to-single d n ((k', names) ∷ r) h k = ground (arith, add_to-single d n r, single-append names n)

pub has_key-add_to :
    (s d n : Bytes) (m : Groups) → has_key s (add_to d n m) ≡ (has_key s m || bytes_eq d s)
unfolding add_to
has_key-add_to s d n [] = ground arith
has_key-add_to s d n ((k, names) ∷ r) = ground (arith, has_key-add_to s d n r, bytes_eq_iff k d)

insert_group-single :
    (g : Bytes × List Bytes) (m : Groups)
    → all_single (insert_group g m) ≡ (single g.1 && all_single m)
unfolding insert_group
insert_group-single (d, names) [] = refl
insert_group-single (d, names) ((k, ns) ∷ r) = ground (arith, insert_group-single (d, names) r)

pub sort_groups-single : (m : Groups) → all_single (sort_groups m) ≡ all_single m
unfolding sort_groups
sort_groups-single [] = refl
sort_groups-single (g ∷ r) =
    insert_group-single g (sort_groups r) ∙ ap (λ b. single g.1 && b) (sort_groups-single r)

insert_group-named :
    (g : Bytes × List Bytes) (m : Groups)
    → all_named (insert_group g m) ≡ (some_name g.1 && all_named m)
unfolding insert_group
insert_group-named (d, names) [] = refl
insert_group-named (d, names) ((k, ns) ∷ r) = ground (arith, insert_group-named (d, names) r)

pub sort_groups-named : (m : Groups) → all_named (sort_groups m) ≡ all_named m
unfolding sort_groups
sort_groups-named [] = refl
sort_groups-named (g ∷ r) =
    insert_group-named g (sort_groups r) ∙ ap (λ b. some_name g.1 && b) (sort_groups-named r)

pub shared_results-single :
    (m : Groups) → all_named m ≡ true → none_failed (shared_results m) ≡ true → all_single m ≡ true
unfolding shared_results
shared_results-single [] h p = refl
shared_results-single ((d, []) ∷ r) h p = absurd (cc h)
shared_results-single ((d, n ∷ []) ∷ r) h p = shared_results-single r h p
shared_results-single ((d, n ∷ k ∷ names) ∷ r) h p = ground arith
