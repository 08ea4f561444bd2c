-- ===== src/Sysupdate/Release/Newest.antt =====
-- The release that ResolveDdiRelease of internal/purefs/sysupdate.go resolves.
use tacklebox.Common.{
  Bytes, List, [], ◌∷◌, ◌≡◌, ◌⊎◌, ◌↔◌, true, refl, subst, false, ◌&&◌, ◌||◌, Bool-cases, inl, inr,
  arith, Option, some, none, length, ltb, Among, if◌then◌else◌,
}
use tacklebox.Sysupdate.Versions.{version_less}
use tacklebox.Sysupdate.Patterns.{is_empty}
use tacklebox.Sysupdate.Release.{
  DdiRelease, Half, half_at, Listing, no_listing, read_listing, complete, sort_versions, sort_names,
  last_of, has_long, raw_lines_from, scanned_lines, line_too_long, ambiguous_stems, no_sha,
  resolved, release_of, newest_release, resolve_listing, resolve_ddi_release,
}
use tacklebox.Sysupdate.Release.Sorted.{
  last_of-sort_versions, last_of-sort_versions-Among, sort_versions-Among,
}
use tacklebox.Sysupdate.Release.Halves.{complete-Among, complete-Among_back}
use tacklebox.Sysupdate.Release.Lines.{Lists, ListsUnbound, UkiOf-cases, RootOf-cases}
use tacklebox.Sysupdate.Release.Names.{IsUkiName, IsRootName}
use tacklebox.Sysupdate.Release.Loop.{
  UkiOf, RootOf, listing-HasUki, listing-HasRoot, listing-IsListed,
}

newest_release-resolved :
    (o : Option Bytes) (m : List (Bytes × Half)) {r : DdiRelease}
    → newest_release o m ≡ resolved r
    → (o ≡ some r.version)
      × ((half_at r.version m).uki ≡ r.uki)
      × ((half_at r.version m).root ≡ r.root)
      × ((half_at r.version m).uki_sha ≡ r.uki_sha)
      × ((half_at r.version m).root_sha ≡ r.root_sha)
      × (is_empty r.uki_sha ≡ false)
      × (is_empty r.root_sha ≡ false)
newest_release-resolved none m h = absurd (cc h)
newest_release-resolved (some v) m {r} h =
    let x = half_at v m in
    elim (Bool-cases (is_empty x.uki_sha || is_empty x.root_sha)) [
      | inl y ↦ absurd (
          cc (
            subst
              (λ b.
                (if b
                  then no_sha v
                  else resolved (record {
                    version = v;
                    uki = x.uki;
                    root = x.root;
                    uki_sha = x.uki_sha;
                    root_sha = x.root_sha;
                  }))
                ≡ resolved r)
              y h))
      | inr n ↦
          let made : resolved (record {
            version = v;
            uki = x.uki;
            root = x.root;
            uki_sha = x.uki_sha;
            root_sha = x.root_sha;
          })
              ≡ resolved r =
            subst
              (λ b.
                (if b
                  then no_sha v
                  else resolved (record {
                    version = v;
                    uki = x.uki;
                    root = x.root;
                    uki_sha = x.uki_sha;
                    root_sha = x.root_sha;
                  }))
                ≡ resolved r)
              n h in
          let e : record {
            version = v;
            uki = x.uki;
            root = x.root;
            uki_sha = x.uki_sha;
            root_sha = x.root_sha;
          }
              ≡ r =
            cc made in
          subst
            (λ r.
              (some v ≡ some r.version)
              × ((half_at r.version m).uki ≡ r.uki)
              × ((half_at r.version m).root ≡ r.root)
              × ((half_at r.version m).uki_sha ≡ r.uki_sha)
              × ((half_at r.version m).root_sha ≡ r.root_sha)
              × (is_empty r.uki_sha ≡ false)
              × (is_empty r.root_sha ≡ false))
            e (refl, refl, refl, refl, refl, ground (arith, n), ground (arith, n))
    ]

-- A release is resolved from the listing of all lines.
record Chosen (iterate : List Bytes → List Bytes) (manifest base : Bytes) (r : DdiRelease)
    (st : Listing) : Type 0 where
  whole : read_listing base (scanned_lines manifest) no_listing ≡ st
  last : last_of (sort_versions (iterate (complete st.by_version st.by_version))) ≡ some r.version
  uki : (half_at r.version st.by_version).uki ≡ r.uki
  root : (half_at r.version st.by_version).root ≡ r.root
  uki_sha : (half_at r.version st.by_version).uki_sha ≡ r.uki_sha
  root_sha : (half_at r.version st.by_version).root_sha ≡ r.root_sha
  uki_bound : is_empty r.uki_sha ≡ false
  root_bound : is_empty r.root_sha ≡ false

resolve_ddi_release-Chosen :
    (iterate : List Bytes → List Bytes) (manifest base : Bytes) {r : DdiRelease}
    → resolve_ddi_release iterate manifest base ≡ resolved r
    → Chosen iterate manifest base r (read_listing base (scanned_lines manifest) no_listing)
unfolding resolve_ddi_release resolve_listing
resolve_ddi_release-Chosen iterate manifest base {r} h =
    let st = read_listing base (scanned_lines manifest) no_listing in
    let newest =
      newest_release (last_of (sort_versions (iterate (complete st.by_version st.by_version))))
        st.by_version in
    let rest =
      if is_empty base && ltb 1 (length st.stems)
      then ambiguous_stems (sort_names st.stems)
      else newest in
    elim (Bool-cases (has_long (raw_lines_from [] manifest))) [
      | inl y ↦ absurd (cc (subst (λ b. (if b then line_too_long else rest) ≡ resolved r) y h))
      | inr n ↦
          let made = subst (λ b. (if b then line_too_long else rest) ≡ resolved r) n h in
          elim (Bool-cases (is_empty base && ltb 1 (length st.stems))) [
            | inl y ↦ absurd (
                cc (
                  subst
                    (λ b.
                      (if b then ambiguous_stems (sort_names st.stems) else newest) ≡ resolved r)
                    y made))
            | inr z ↦
                let (l, u, o, us, rs, ub, rb) =
                  newest_release-resolved
                    (last_of (sort_versions (iterate (complete st.by_version st.by_version))))
                    st.by_version
                    (subst
                      (λ b.
                        (if b then ambiguous_stems (sort_names st.stems) else newest) ≡ resolved r)
                      z made) in
                record {
                  whole = refl;
                  last = l;
                  uki = u;
                  root = o;
                  uki_sha = us;
                  root_sha = rs;
                  uki_bound = ub;
                  root_bound = rb;
                }
          ]
    ]

-- A release that is resolved, if the order in which a map is visited leaves none of its keys out, is not
-- less than any version of which a wanted UKI and a wanted root artifact are listed.
pub resolve_ddi_release-newest :
    (iterate : List Bytes → List Bytes) (manifest base : Bytes) {r : DdiRelease} (w : Bytes)
    (n m : Bytes × Bytes)
    → ((vs : List Bytes) (v : Bytes) → Among v vs → Among v (iterate vs))
    → resolve_ddi_release iterate manifest base ≡ resolved r
    → UkiOf base (scanned_lines manifest) w n
    → RootOf base (scanned_lines manifest) w m
    → version_less r.version w ≡ false
resolve_ddi_release-newest iterate manifest base w n m visits h u o =
    let st = read_listing base (scanned_lines manifest) no_listing in
    let c = resolve_ddi_release-Chosen iterate manifest base h in
    let has_uki = listing-HasUki base (scanned_lines manifest) w n no_listing u in
    let has_root = listing-HasRoot base (scanned_lines manifest) w m no_listing o in
    let vs = complete st.by_version st.by_version in
    last_of-sort_versions (iterate vs) c.last
      (visits vs w (complete-Among st.by_version st.by_version w has_uki has_root has_uki))

last_of-some : (v : Bytes) (vs : List Bytes) → (u : Bytes) × (last_of (v ∷ vs) ≡ some u)
unfolding last_of
last_of-some v [] = (v, refl)
last_of-some v (w ∷ ws) = last_of-some w ws

last_of-Among-some :
    {v : Bytes} (vs : List Bytes) → Among v vs → (u : Bytes) × (last_of vs ≡ some u)
last_of-Among-some [] h = elim h [ ]
last_of-Among-some (w ∷ ws) h = last_of-some w ws

-- A release is refused when a SHA-256 of its half is missing.
release_of-cases :
    (v : Bytes) (h : Half)
    → ((r : DdiRelease) × (release_of v h ≡ resolved r))
      ⊎ ((release_of v h ≡ no_sha v) × ((is_empty h.uki_sha ≡ true) ⊎ (is_empty h.root_sha ≡ true)))
release_of-cases v h = elim (Bool-cases (is_empty h.uki_sha)) [
  | inl y ↦ inr (rw y refl, inl y)
  | inr n ↦ elim (Bool-cases (is_empty h.root_sha)) [
    | inl y ↦ inr (rw (n, y) refl, inr y)
    | inr m ↦ inl (
      record {
        version = v;
        uki = h.uki;
        root = h.root;
        uki_sha = h.uki_sha;
        root_sha = h.root_sha;
      },
      rw (n, m) refl,
    )
  ]
]

not_bound :
    {IsName : Bytes → Bytes → Bytes → Type 0} {base : Bytes} {lines : List Bytes} {v name : Bytes}
    (sha : Bytes)
    → is_empty sha ≡ true
    → Lists IsName base lines v sha name ⊎ ((sha ≡ []) × ListsUnbound IsName base lines v)
    → ListsUnbound IsName base lines v
not_bound [] h (inl l) = absurd (omega (arith, l.binds.full))
not_bound (c ∷ sha) h (inl l) = absurd (cc h)
not_bound sha h (inr (_, u)) = u

-- A half without a SHA-256 was listed without one.
half-ListsUnbound :
    (base : Bytes) (lines : List Bytes) (v : Bytes) (h : Half)
    → (is_empty h.uki ≡ true) ⊎ UkiOf base lines v (h.uki_sha, h.uki)
    → (is_empty h.root ≡ true) ⊎ RootOf base lines v (h.root_sha, h.root)
    → is_empty h.uki ≡ false
    → is_empty h.root ≡ false
    → (is_empty h.uki_sha ≡ true) ⊎ (is_empty h.root_sha ≡ true)
    → ListsUnbound IsUkiName base lines v ⊎ ListsUnbound IsRootName base lines v
half-ListsUnbound base lines v h (inl e) o u r s = absurd (cc (e, u))
half-ListsUnbound base lines v h (inr k) (inl e) u r s = absurd (cc (e, r))
half-ListsUnbound base lines v h (inr k) (inr o) u r (inl s) =
    inl (not_bound h.uki_sha s (UkiOf-cases h.uki_sha h.uki k))
half-ListsUnbound base lines v h (inr k) (inr o) u r (inr s) =
    inr (not_bound h.root_sha s (RootOf-cases h.root_sha h.root o))

-- With a stem given, no line of 64 KiB, and a version of which a UKI and a root artifact of that stem are
-- listed, a release is resolved, or a version is refused for want of a SHA-256, and then the manifest has a
-- line with a UKI or a root artifact of that version and stem that does not bind it to 64 bytes. Condition:
-- the order in which a map is visited has its keys and no others.
pub resolve_ddi_release-finds :
    (iterate : List Bytes → List Bytes) (manifest base w : Bytes) (n m : Bytes × Bytes)
    → ((vs : List Bytes) (v : Bytes) → Among v vs ↔ Among v (iterate vs))
    → is_empty base ≡ false
    → has_long (raw_lines_from [] manifest) ≡ false
    → UkiOf base (scanned_lines manifest) w n
    → RootOf base (scanned_lines manifest) w m
    → ((r : DdiRelease) × (resolve_ddi_release iterate manifest base ≡ resolved r))
      ⊎ ((v : Bytes) × (resolve_ddi_release iterate manifest base ≡ no_sha v)
          × (ListsUnbound IsUkiName base (scanned_lines manifest) v
              ⊎ ListsUnbound IsRootName base (scanned_lines manifest) v))
unfolding resolve_ddi_release resolve_listing
resolve_ddi_release-finds iterate manifest base w n m visits given short u o =
    let lines = scanned_lines manifest in
    let st = read_listing base lines no_listing in
    let has_uki = listing-HasUki base lines w n no_listing u in
    let has_root = listing-HasRoot base lines w m no_listing o in
    let vs = complete st.by_version st.by_version in
    let there =
      (visits vs w).0 (complete-Among st.by_version st.by_version w has_uki has_root has_uki) in
    let (v, last) =
      last_of-Among-some (sort_versions (iterate vs)) (sort_versions-Among (iterate vs) there) in
    elim (release_of-cases v (half_at v st.by_version)) [
      | inl (r, e) ↦ inl (r, rw (short, given, last) e)
      | inr (e, lacks) ↦
          let (uki, root) =
            complete-Among_back st.by_version st.by_version v
              ((visits vs v).1 (last_of-sort_versions-Among (iterate vs) last)) in
          let (lu, lo) = listing-IsListed base lines v in
          inr (
            v,
            rw (short, given, last) e,
            half-ListsUnbound base lines v (half_at v st.by_version) lu lo uki root lacks,
          )
    ]
