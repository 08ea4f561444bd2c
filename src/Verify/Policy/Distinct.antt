-- ===== src/Verify/Policy/Distinct.antt =====
-- The results of `CheckCombinedPivots` (internal/verify/policy.go).
use tacklebox.Common.{
  one_name, ℕ, ◌+◌, ◌≤◌, Bytes, List, [], ◌∷◌, ◌++◌, ◌≡◌, inl, inr, refl, sym, ap, codes, subst,
  ◌∙◌, true, false, not, ◌&&◌, ◌||◌, Bool-cases, arith, length, ltb, leb, ◌==◌, bytes_eq,
  bytes_eq_iff, if◌then◌else◌,
}
use tacklebox.Verify.Bls.{BlsEntry, bls_option, or_else}
use tacklebox.Kargs.Distinct.{AreDistinct}
use tacklebox.Verify.Policy.{
  with_bare, CheckResult, undistinguished, pivots, squashimgs, delta_layout, distinguisher,
  bare_names, Groups, grouped, group_all, sort_groups, shared_results, pivot_results, max_bare_of,
  check_combined_pivots,
}
use tacklebox.Verify.Policy.Groups.{
  none_failed, single, all_single, all_named, has_key, add_to-named, add_to-shared, add_to-single,
  has_key-add_to, sort_groups-single, sort_groups-named, shared_results-single,
}

-- The distinguishers of the entries that have one, in the entries' order.
abbrev with_distinguisher : Bytes → List Bytes → List Bytes
with_distinguisher [] ds = ds
with_distinguisher (c ∷ d) ds = (c ∷ d) ∷ ds

unfoldable distinguishers : List BlsEntry → List Bytes
distinguishers [] = []
distinguishers (e ∷ es) = with_distinguisher (distinguisher e) (distinguishers es)

-- The subtrees that entries name and, for entries that name none, their deltas.
abbrev root_of : BlsEntry → Bytes
root_of e = bls_option e.options (codes "tacklebox.root")

abbrev delta_of : BlsEntry → Bytes
delta_of e = bls_option e.options (codes "tacklebox.live.delta")

unfoldable pub trees : List BlsEntry → List Bytes
trees [] = []
trees (e ∷ es) =
    if not (bytes_eq (root_of e) [])
    then root_of e ∷ trees es
    else if not (bytes_eq (delta_of e) [])
    then delta_of e ∷ trees es
    else trees es

-- How many entries name neither.
unfoldable pub treeless : List BlsEntry → ℕ
treeless [] = 0
treeless (e ∷ es) =
    (if bytes_eq (root_of e) [] && bytes_eq (delta_of e) [] then 1 else 0) + treeless es

with_or_else :
    (r d : Bytes) (ds : List Bytes)
    → with_distinguisher (or_else r d) ds
      ≡ (if not (bytes_eq r []) then r ∷ ds else if not (bytes_eq d []) then d ∷ ds else ds)
unfolding bytes_eq
with_or_else [] [] ds = refl
with_or_else [] (c ∷ d) ds = refl
with_or_else (c ∷ r) d ds = refl

distinguishers-trees : (es : List BlsEntry) → distinguishers es ≡ trees es
unfolding distinguishers trees distinguisher
distinguishers-trees [] = refl
distinguishers-trees (e ∷ es) =
    with_or_else (root_of e) (delta_of e) (distinguishers es)
    ∙ ap
        (λ ds.
          if not (bytes_eq (root_of e) [])
          then root_of e ∷ ds
          else if not (bytes_eq (delta_of e) [])
          then delta_of e ∷ ds
          else ds)
        (distinguishers-trees es)

with_bare-or_else :
    (r d name : Bytes) (bare : List Bytes)
    → length (with_bare (or_else r d) name bare)
      ≡ (if bytes_eq r [] && bytes_eq d [] then 1 else 0) + length bare
unfolding bytes_eq
with_bare-or_else [] [] name bare = omega arith
with_bare-or_else [] (c ∷ d) name bare = omega arith
with_bare-or_else (c ∷ r) d name bare = omega arith

length-bare_names : (es : List BlsEntry) → length (bare_names es) ≡ treeless es
unfolding bare_names treeless distinguisher
length-bare_names [] = refl
length-bare_names (e ∷ es) =
    with_bare-or_else (root_of e) (delta_of e) e.name (bare_names es)
    ∙ ap (λ n. (if bytes_eq (root_of e) [] && bytes_eq (delta_of e) [] then 1 else 0) + n)
        (length-bare_names es)

none_failed-append :
    (xs ys : List CheckResult) → none_failed (xs ++ ys) ≡ (none_failed xs && none_failed ys)
none_failed-append [] ys = refl
none_failed-append (x ∷ xs) ys = ground (arith, none_failed-append xs ys)

-- Keys that were there are no distinguishers of the entries, which are distinct.
record IsFresh (m : Groups) (ds : List Bytes) : Type 0 where
  pub distinct : AreDistinct ds
  pub fresh : (s : Bytes) → has_key s m ≡ true → one_name s ds ≡ false

grouped-named : (d n : Bytes) (m : Groups) → all_named m ≡ true → all_named (grouped d n m) ≡ true
grouped-named [] n m h = h
grouped-named (c ∷ d) n m h = add_to-named (c ∷ d) n m h

grouped-IsFresh :
    (d n : Bytes) (m : Groups) (ds : List Bytes)
    → all_named m ≡ true
    → all_single (grouped d n m) ≡ true
    → IsFresh (grouped d n m) ds
    → IsFresh m (with_distinguisher d ds)
grouped-IsFresh [] n m ds h single f = f
grouped-IsFresh (c ∷ d) n m ds h single f =
    let absent : has_key (c ∷ d) m ≡ false = ground (arith, add_to-shared (c ∷ d) n m h, single) in
    record {
      distinct = (
        f.fresh (c ∷ d) (
            has_key-add_to (c ∷ d) (c ∷ d) n m
            ∙ ground (arith, (bytes_eq_iff (c ∷ d) (c ∷ d)).1 refl)),
        f.distinct,
      );
      fresh = λ s there. elim (Bool-cases (bytes_eq (c ∷ d) s)) [
        | inl y ↦
            let same = (bytes_eq_iff (c ∷ d) s).0 y in
            absurd (cc (subst (λ t. has_key t m ≡ false) same absent, there))
        | inr n' ↦
            let rest = f.fresh s (has_key-add_to s (c ∷ d) n m ∙ ground (arith, there)) in
            ground (arith, n', rest)
      ];
    }

grouped-single :
    (d n : Bytes) (m : Groups)
    → all_named m ≡ true
    → all_single (grouped d n m) ≡ true
    → all_single m ≡ true
grouped-single [] n m h k = k
grouped-single (c ∷ d) n m h k = add_to-single (c ∷ d) n m h k

group_all-named :
    (es : List BlsEntry) (m : Groups) → all_named m ≡ true → all_named (group_all es m) ≡ true
unfolding group_all
group_all-named [] m h = h
group_all-named (e ∷ es) m h = group_all-named es _ (grouped-named (distinguisher e) e.name m h)

group_all-IsFresh :
    (es : List BlsEntry) (m : Groups)
    → all_named m ≡ true
    → all_single (group_all es m) ≡ true
    → IsFresh m (distinguishers es) × (all_single m ≡ true)
unfolding group_all distinguishers
group_all-IsFresh [] m h k = (record { distinct = tt; fresh = λ s there. refl }, k)
group_all-IsFresh (e ∷ es) m h k =
    let (f, single) =
      group_all-IsFresh es (grouped (distinguisher e) e.name m)
        (grouped-named (distinguisher e) e.name m h) k in
    (
      grouped-IsFresh (distinguisher e) e.name m (distinguishers es) h single f,
      grouped-single (distinguisher e) e.name m h single,
    )

pivot_results-none_failed :
    (n max_bare : ℕ) (bare : List Bytes) (groups : Groups) (collisions : List CheckResult)
    → none_failed (pivot_results n max_bare bare groups collisions) ≡ true
    → (length bare ≤ max_bare) × (none_failed collisions ≡ true)
unfolding pivot_results
pivot_results-none_failed n max_bare bare groups collisions h =
    let all =
      sym (
        none_failed-append (if ltb max_bare (length bare) then undistinguished bare ∷ [] else []) _)
      ∙ h in
    let second = none_failed-append collisions (
      if length collisions == 0 && leb (length bare) max_bare
      then pivots n (length groups + length bare) ∷ []
      else []) in
    (ground (arith, all), ground (arith, all, second))

check_combined_pivots-passed :
    (es : List BlsEntry)
    → length (squashimgs es) ≡ 1
    → 2 ≤ length es
    → none_failed (check_combined_pivots es) ≡ true
    → AreDistinct (distinguishers es)
      × (length (bare_names es) ≤ (if delta_layout es then 1 else 0))
unfolding check_combined_pivots
check_combined_pivots-passed es one two h =
    let applies : (not (length (squashimgs es) == 1) || ltb (length es) 2) ≡ false =
      ground (arith, one, two) in
    let groups = group_all es [] in
    let results : none_failed (
          pivot_results (length es) (max_bare_of es) (bare_names es) groups
            (shared_results (sort_groups groups)))
        ≡ true =
      ground (arith, applies) in
    let (few, no_collision) =
      pivot_results-none_failed (length es) (max_bare_of es) (bare_names es) groups
        (shared_results (sort_groups groups)) results in
    let named = sort_groups-named groups ∙ group_all-named es [] refl in
    let single =
      sym (sort_groups-single groups)
      ∙ shared_results-single (sort_groups groups) named no_collision in
    ((group_all-IsFresh es [] refl single).0.distinct, few)

-- When entries share one squashfs and the check of them reports no failure, no two of the names by which
-- they are told apart are the same, the name of an entry being its subtree or, if it names no subtree,
-- its delta; and at most one entry names neither, which only the delta layout allows. (The delta of an
-- entry that names a subtree too is not compared.) Conditions: there are two entries or more, and one
-- squashfs image is named by them.
pub check_combined_pivots-AreDistinct :
    (es : List BlsEntry)
    → length (squashimgs es) ≡ 1
    → 2 ≤ length es
    → none_failed (check_combined_pivots es) ≡ true
    → AreDistinct (trees es) × (treeless es ≤ (if delta_layout es then 1 else 0))
check_combined_pivots-AreDistinct es one two h =
    let (apart, few) = check_combined_pivots-passed es one two h in
    (
      subst AreDistinct (distinguishers-trees es) apart,
      subst (λ n. n ≤ (if delta_layout es then 1 else 0)) (length-bare_names es) few,
    )
