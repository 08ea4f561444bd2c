-- ===== src/Oci/Platform/Suits.antt =====
-- The platforms that matchPlatformDescriptor of internal/oci/client.go takes, spelled out.
use tacklebox.Common.{
  Among, bytes_eq_refl, Bytes, List, [], ◌∷◌, ◌≡◌, ◌⊎◌, inl, inr, refl, subst, sym, true, false,
  Bool-cases, Option, some, none, arith, codes, bytes_eq, bytes_eq_iff, trim_space,
}
use tacklebox.Oci.Platform.{one_of, Platform, parse_platform_request, satisfies}

-- An entry's platform is the one that is asked for: amd64 without a variant, amd64 of variant v2, or arm64
-- without a variant or of variant v8, each by the names that it is asked for.
pub data Suits (want : Bytes) (q : Platform) : Type 0 where
  amd64 :
      Among want (codes "linux/amd64" ∷ codes "amd64" ∷ codes "x86_64" ∷ [])
      → q.architecture ≡ codes "amd64"
      → q.variant ≡ []
      → Suits want q
  amd64_v2 :
      want ≡ codes "linux/amd64/v2"
      → q.architecture ≡ codes "amd64"
      → q.variant ≡ codes "v2"
      → Suits want q
  arm64 :
      Among want
        (codes "linux/arm64" ∷ codes "linux/arm64/v8" ∷ codes "arm64" ∷ codes "aarch64" ∷ [])
      → q.architecture ≡ codes "arm64"
      → (q.variant ≡ []) ⊎ (q.variant ≡ codes "v8")
      → Suits want q

one_of-Among : (s : Bytes) (xs : List Bytes) → one_of s xs ≡ true → Among s xs
one_of-Among s [] h = absurd (cc h)
one_of-Among s (x ∷ xs) h = elim (Bool-cases (bytes_eq s x)) [
  | inl y ↦ Among.here (sym ((bytes_eq_iff s x).0 y))
  | inr n ↦ Among.there (one_of-Among s xs (ground arith))
]

not_arm : bytes_eq (codes "amd64") (codes "arm64") ≡ false
unfolding bytes_eq
not_arm = refl

satisfies-amd64 :
    (variant : Bytes) (q : Platform)
    → satisfies (codes "amd64") variant (some q) ≡ true
    → (q.architecture ≡ codes "amd64") × (q.variant ≡ variant)
unfolding satisfies
satisfies-amd64 variant q h = elim (Bool-cases (bytes_eq q.architecture (codes "amd64"))) [
  | inl y ↦ (
    (bytes_eq_iff q.architecture (codes "amd64")).0 y,
    (bytes_eq_iff q.variant variant).0 (ground (arith, y, not_arm)),
  )
  | inr n ↦ absurd (ground (arith, n))
]

satisfies-arm64 :
    (variant : Bytes) (q : Platform)
    → satisfies (codes "arm64") variant (some q) ≡ true
    → (q.architecture ≡ codes "arm64") × ((q.variant ≡ []) ⊎ (q.variant ≡ codes "v8"))
unfolding satisfies
satisfies-arm64 variant q h =
    let same = bytes_eq_refl (codes "arm64") in
    elim (Bool-cases (bytes_eq q.architecture (codes "arm64"))) [
      | inr n ↦ absurd (ground (arith, n))
      | inl y ↦ (
        (bytes_eq_iff q.architecture (codes "arm64")).0 y,
        elim (Bool-cases (bytes_eq q.variant [])) [
          | inl z ↦ inl ((bytes_eq_iff q.variant []).0 z)
          | inr n ↦ inr ((bytes_eq_iff q.variant (codes "v8")).0 (ground (arith, y, same, n)))
        ],
      )
    ]

-- The test of an entry, for a platform that is asked for.
pub parse_platform_request-Suits :
    (want arch variant : Bytes) (q : Platform)
    → parse_platform_request want ≡ some (arch, variant)
    → satisfies arch variant (some q) ≡ true
    → Suits (trim_space want) q
unfolding parse_platform_request
parse_platform_request-Suits want arch variant q p s =
    let t = trim_space want in
    let l1 = codes "linux/amd64" ∷ codes "amd64" ∷ codes "x86_64" ∷ [] in
    let l2 = codes "linux/amd64/v2" ∷ [] in
    let l3 = codes "linux/arm64" ∷ codes "linux/arm64/v8" ∷ codes "arm64" ∷ codes "aarch64" ∷ [] in
    let Holds : Bytes → Bytes → Type 0 = λ a v. satisfies a v (some q) ≡ true in
    elim (Bool-cases (one_of t l1)) [
      | inl y ↦
          let e : codes "amd64" ≡ arch = ground (arith, y) in
          let e' : [] ≡ variant = ground (arith, y) in
          let (a, v) =
            satisfies-amd64 [] q
              (subst (Holds (codes "amd64")) (sym e') (subst (λ z. Holds z variant) (sym e) s)) in
          amd64 (one_of-Among t l1 y) a v
      | inr n ↦ elim (Bool-cases (one_of t l2)) [
        | inl y ↦
            let e : codes "amd64" ≡ arch = ground (arith, n, y) in
            let e' : codes "v2" ≡ variant = ground (arith, n, y) in
            let (a, v) =
              satisfies-amd64 (codes "v2") q
                (subst (Holds (codes "amd64")) (sym e') (subst (λ z. Holds z variant) (sym e) s)) in
            amd64_v2 ((bytes_eq_iff t (codes "linux/amd64/v2")).0 (ground (arith, y))) a v
        | inr m ↦ elim (Bool-cases (one_of t l3)) [
          | inr k ↦ absurd (ground (arith, n, m, k))
          | inl y ↦
              let e : codes "arm64" ≡ arch = ground (arith, n, m, y) in
              let (a, v) = satisfies-arm64 variant q (subst (λ z. Holds z variant) (sym e) s) in
              arm64 (one_of-Among t l3 y) a v
        ]
      ]
    ]

pub satisfies-some :
    (arch variant : Bytes) (o : Option Platform)
    → satisfies arch variant o ≡ true
    → (q : Platform) × (o ≡ some q) × (satisfies arch variant (some q) ≡ true)
unfolding satisfies
satisfies-some arch variant none h = absurd (cc h)
satisfies-some arch variant (some q) h = (q, refl, h)
