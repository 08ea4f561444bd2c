-- ===== src/Oci/Platform/Authentic.antt =====
-- The results of ResolveManifestForPlatformWithDigest (internal/oci/client.go).
use tacklebox.Common.{
  Bytes, List, [], ◌∷◌, ◌++◌, ◌≡◌, ◌≢◌, ◌⊎◌, inl, inr, refl, subst, sym, ap, ◌∙◌, true, false,
  Bool-cases, Option, some, Option-cases, arith, codes, bytes_eq, bytes_eq_iff, trim_space,
}
use tacklebox.Oci.Platform.{
  Platform, Descriptor, Manifest, ok, parse_platform_request, satisfies, match_platform_descriptor,
  refuses, digest_of, checked, picked, indexed, followed, resolve_manifest_for_platform_with_digest,
}
use tacklebox.Oci.Platform.Suits.{Suits, parse_platform_request-Suits, satisfies-some}

-- The descriptor is in the list.
pub data Listed (d : Descriptor) : List Descriptor → Type 0 where
  here : {e : Descriptor} {ds : List Descriptor} → e ≡ d → Listed d (e ∷ ds)
  there : {e : Descriptor} {ds : List Descriptor} → Listed d ds → Listed d (e ∷ ds)

refuses-cases :
    (expected digest : Bytes)
    → refuses expected digest ≡ false
    → (expected ≡ []) ⊎ (digest ≡ expected)
unfolding refuses
refuses-cases expected digest h = elim (Bool-cases (bytes_eq expected [])) [
  | inl e ↦ inl ((bytes_eq_iff expected []).0 e)
  | inr n ↦ inr ((bytes_eq_iff digest expected).0 (ground arith))
]

List-cases :
    (l : List Descriptor) → (l ≡ []) ⊎ ((d : Descriptor) × (ds : List Descriptor) × (l ≡ d ∷ ds))
List-cases [] = inl refl
List-cases (d ∷ ds) = inr (d, ds, refl)

match_platform_descriptor-Listed :
    (ds : List Descriptor) (arch variant : Bytes) {d : Descriptor}
    → match_platform_descriptor ds arch variant ≡ some d
    → Listed d ds × (satisfies arch variant d.platform ≡ true)
unfolding match_platform_descriptor
match_platform_descriptor-Listed [] arch variant {d} h = absurd (cc h)
match_platform_descriptor-Listed (e ∷ ds) arch variant {d} h =
    elim (Bool-cases (satisfies arch variant e.platform)) [
      | inl y ↦ let same : e ≡ d = ground arith in (here same, cc (same, y))
      | inr n ↦
          let (listed, fits) = match_platform_descriptor-Listed ds arch variant (ground arith) in
          (there listed, fits)
    ]

module _ (get : Bytes → Option Bytes) (decode : Bytes → Option Manifest)
    (sha256 : Bytes → Bytes) where
  -- The manifest was decoded from a body that the registry gave out and that hashes to the digest.
  pub record IsAuthentic (m : Manifest) (digest : Bytes) : Type 0 where
    pub path : Bytes
    pub body : Bytes
    pub given : get path ≡ some body
    pub hashed : digest_of sha256 body ≡ digest
    pub read : decode body ≡ some m

  checked_lem :
      (pick : Descriptor) (body : Bytes) {m : Manifest} {digest : Bytes}
      → checked get decode sha256 pick (some body) ≡ ok m digest
      → (digest_of sha256 body ≡ pick.digest) × (decode body ≡ some m) × (pick.digest ≡ digest)
  unfolding checked
  checked_lem pick body {m} {digest} h =
      elim (Bool-cases (bytes_eq (digest_of sha256 body) pick.digest)) [
        | inr n ↦ ground arith
        | inl y ↦ elim (Option-cases (decode body)) [
          | inl q ↦ absurd (ground arith)
          | inr (m', q) ↦ ((bytes_eq_iff _ pick.digest).0 y, ground arith, ground arith)
        ]
      ]

  checked-IsAuthentic :
      (pick : Descriptor) (path : Bytes) {m : Manifest} {digest : Bytes}
      → checked get decode sha256 pick (get path) ≡ ok m digest
      → IsAuthentic m digest × (pick.digest ≡ digest)
  unfolding checked
  checked-IsAuthentic pick path {m} {digest} h = elim (Option-cases (get path)) [
    | inl q ↦ absurd (cc (subst (λ o. checked get decode sha256 pick o ≡ ok m digest) q h))
    | inr (body, q) ↦
        let (hashed, read, same) =
          checked_lem pick body (subst (λ o. checked get decode sha256 pick o ≡ ok m digest) q h) in
        (record { path = path; body = body; given = q; hashed = hashed ∙ same; read = read }, same)
  ]

  -- How the manifest belongs to what stands under the tag: it is that, or what stands there is an
  -- index and the manifest is the one of a listed entry for the platform.
  pub data Chosen (want : Bytes) (top m : Manifest) (digest : Bytes) : Type 0 where
    whole : top.manifests ≡ [] → top ≡ m → Chosen want top m digest
    entry_for :
        (d : Descriptor) (q : Platform)
        → Listed d top.manifests
        → d.platform ≡ some q
        → Suits want q
        → d.digest ≡ digest
        → Chosen want top m digest

  -- What holds of a manifest that `followed` returns.
  pub record Follows (expected want : Bytes) (top m : Manifest) (digest : Bytes) : Type 0 where
    pub authentic : IsAuthentic m digest
    pub pinned : (expected ≡ []) ⊎ (digest ≡ expected)
    pub chosen : Chosen want top m digest

  picked-Follows :
      (expected want arch variant : Bytes) (top : Manifest) {m : Manifest} {digest : Bytes}
      → parse_platform_request want ≡ some (arch, variant)
      → picked get decode sha256 expected want top.manifests
          (match_platform_descriptor top.manifests arch variant)
        ≡ ok m digest
      → Follows expected (trim_space want) top m digest
  unfolding picked
  picked-Follows expected want arch variant top {m} {digest} asked h =
      elim (Option-cases (match_platform_descriptor top.manifests arch variant)) [
        | inl q ↦ absurd (
            cc (
              subst (λ o. picked get decode sha256 expected want top.manifests o ≡ ok m digest) q
                h))
        | inr (d, q) ↦
            let h' =
              subst (λ o. picked get decode sha256 expected want top.manifests o ≡ ok m digest) q
                h in
            let (listed, fits) = match_platform_descriptor-Listed top.manifests arch variant q in
            elim (Bool-cases (refuses expected d.digest)) [
              | inl y ↦ absurd (ground arith)
              | inr n ↦
                  let (authentic, same) =
                    checked-IsAuthentic d (codes "manifests/" ++ d.digest) (ground arith) in
                  let (q, named, fits') = satisfies-some arch variant d.platform fits in
                  record {
                    authentic = authentic;
                    pinned =
                        subst (λ t. (expected ≡ []) ⊎ (t ≡ expected)) same
                          (refuses-cases expected d.digest n);
                    chosen =
                        entry_for d q listed named
                          (parse_platform_request-Suits want arch variant q asked fits') same;
                  }
            ]
      ]

  followed-Follows :
      (expected want arch variant path body : Bytes) (top : Manifest) {m : Manifest}
      {digest : Bytes}
      → parse_platform_request want ≡ some (arch, variant)
      → get path ≡ some body
      → decode body ≡ some top
      → followed get decode sha256 expected want (arch, variant) body (some top) ≡ ok m digest
      → Follows expected (trim_space want) top m digest
  unfolding followed indexed
  followed-Follows expected want arch variant path body top {m} {digest} asked g d h =
      elim (List-cases top.manifests) [
        | inl q ↦
            let h' =
              subst
                (λ l.
                  indexed get decode sha256 l expected want (arch, variant) body top ≡ ok m digest)
                q h in
            elim (Bool-cases (refuses expected (digest_of sha256 body))) [
              | inl y ↦ absurd (ground arith)
              | inr n ↦
                  let hashed : digest_of sha256 body ≡ digest = ground arith in
                  let same : top ≡ m = ground arith in
                  record {
                    authentic = record {
                      path = path;
                      body = body;
                      given = g;
                      hashed = hashed;
                      read = d ∙ ap some same;
                    };
                    pinned =
                        subst (λ t. (expected ≡ []) ⊎ (t ≡ expected)) hashed
                          (refuses-cases expected (digest_of sha256 body) n);
                    chosen = whole q same;
                  }
            ]
        | inr (e, es, q) ↦ picked-Follows expected want arch variant top asked (
            subst
              (λ l.
                picked get decode sha256 expected want l (match_platform_descriptor l arch variant)
                ≡ ok m digest)
              (sym q)
              (subst
                (λ l.
                  indexed get decode sha256 l expected want (arch, variant) body top ≡ ok m digest)
                q h))
      ]

  -- Whatever the registry answers, a manifest that is resolved for a platform was decoded from a body
  -- of the registry that hashes to the returned digest, and that digest is the expected one if one is
  -- given. The manifest is the one under the tag, if that is no index, and else the one that an entry
  -- of the index names whose platform is the requested one: for "linux/amd64", "amd64" or "x86_64" the
  -- architecture amd64 without a variant, for "linux/amd64/v2" amd64 of variant v2, and for
  -- "linux/arm64", "linux/arm64/v8", "arm64" or "aarch64" arm64 without a variant or of variant v8. The
  -- request is taken without white space around it. Conditions: the platform is a known one, and the
  -- body under the tag is an index or a manifest.
  pub resolve-Follows :
      (tag platform expected_digest arch variant body : Bytes) (top : Manifest) {m : Manifest}
      {digest : Bytes}
      → trim_space platform ≢ []
      → parse_platform_request (trim_space platform) ≡ some (arch, variant)
      → get (codes "manifests/" ++ tag) ≡ some body
      → decode body ≡ some top
      → resolve_manifest_for_platform_with_digest get decode sha256 tag platform expected_digest
        ≡ ok m digest
      → Follows (trim_space expected_digest) (trim_space (trim_space platform)) top m digest
  unfolding resolve_manifest_for_platform_with_digest
  resolve-Follows tag platform expected_digest arch variant body top {m} {digest} n p g d h =
      let given : bytes_eq (trim_space platform) [] ≡ false =
        ground (arith, bytes_eq_iff (trim_space platform) []) in
      let same : resolve_manifest_for_platform_with_digest get decode sha256 tag platform
            expected_digest
          ≡ followed get decode sha256 (trim_space expected_digest) (trim_space platform)
              (arch, variant) body (some top) =
        rw (resolve_manifest_for_platform_with_digest, given, p, g, d, given) in
      followed-Follows (trim_space expected_digest) (trim_space platform) arch variant
        (codes "manifests/" ++ tag) body top p g d (sym same ∙ h)
