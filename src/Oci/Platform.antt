-- ===== src/Oci/Platform.antt =====
-- internal/oci/client.go: the manifest of the platform that was asked for. A registry answers a GET
-- below a repository by a body or an error (`none`), package json decodes a body, and `sha256` is
-- the hash in hexadecimal; all three are parameters.
pub mod Suits
pub mod Authentic
use tacklebox.Common.{
  ℕ, Bytes, List, [], ◌∷◌, ◌++◌, Bool, true, false, not, ◌&&◌, ◌||◌, Option, some, none, codes,
  bytes_eq, if◌then◌else◌, trim_space,
}

-- An int64.
pub data ℤ : Type 0 where
  pos : ℕ → ℤ
  negsuc : ℕ → ℤ

pub record Platform : Type 0 where
  pub architecture : Bytes
  pub variant : Bytes

pub record Descriptor : Type 0 where
  pub media_type : Bytes
  pub digest : Bytes
  pub size : ℤ
  pub platform : Option Platform

pub record Manifest : Type 0 where
  pub media_type : Bytes
  pub manifests : List Descriptor
  pub config : Descriptor
  pub layers : List Descriptor
  pub annotations : List (Bytes × Bytes)

pub data ResolveError : Type 0 where
  unsupported_platform : Bytes → ResolveError
  request_failed bad_manifest : ResolveError
  platform_not_found : Bytes → List Bytes → ResolveError
  digest_mismatch : Bytes → Bytes → ResolveError

pub data Resolved : Type 0 where
  ok : Manifest → Bytes → Resolved
  err : ResolveError → Resolved

abbrev pub one_of : Bytes → List Bytes → Bool
one_of s [] = false
one_of s (x ∷ xs) = bytes_eq s x || one_of s xs

-- parsePlatformRequest: architecture and variant; `none` is an error.
unfoldable pub parse_platform_request : Bytes → Option (Bytes × Bytes)
parse_platform_request platform =
    let p = trim_space platform in
    if one_of p (codes "linux/amd64" ∷ codes "amd64" ∷ codes "x86_64" ∷ [])
    then some (codes "amd64", [])
    else if one_of p (codes "linux/amd64/v2" ∷ [])
    then some (codes "amd64", codes "v2")
    else if one_of p
        (codes "linux/arm64" ∷ codes "linux/arm64/v8" ∷ codes "arm64" ∷ codes "aarch64" ∷ [])
    then some (codes "arm64", [])
    else none

-- The tests of one round of matchPlatformDescriptor.
unfoldable pub satisfies : Bytes → Bytes → Option Platform → Bool
satisfies arch variant none = false
satisfies arch variant (some p) =
    if not (bytes_eq p.architecture arch)
    then false
    else if bytes_eq arch (codes "arm64")
    then bytes_eq p.variant [] || bytes_eq p.variant (codes "v8")
    else bytes_eq p.variant variant

-- matchPlatformDescriptor; `none` is nil.
unfoldable pub match_platform_descriptor : List Descriptor → Bytes → Bytes → Option Descriptor
match_platform_descriptor [] arch variant = none
match_platform_descriptor (d ∷ ds) arch variant =
    if satisfies arch variant d.platform then some d else match_platform_descriptor ds arch variant

abbrev described : Option Platform → List Bytes → List Bytes
described none out = out
described (some p) out =
    (if bytes_eq p.variant [] then p.architecture else p.architecture ++ (codes "/" ++ p.variant))
    ∷ out

-- describeAvailablePlatforms
unfoldable pub describe_available_platforms : List Descriptor → List Bytes
describe_available_platforms [] = []
describe_available_platforms (d ∷ ds) = described d.platform (describe_available_platforms ds)

-- The legacy choice of ResolveManifest: the architecture without a variant.
unfoldable pub pick_architecture : List Descriptor → Bytes → Option Descriptor
pick_architecture [] arch = none
pick_architecture (d ∷ ds) arch = elim d.platform [
  | none ↦ pick_architecture ds arch
  | some p ↦
      if bytes_eq p.architecture arch && bytes_eq p.variant []
      then some d
      else pick_architecture ds arch
]

-- An expected digest that is given, and is another.
unfoldable pub refuses : Bytes → Bytes → Bool
refuses expected digest = not (bytes_eq expected []) && not (bytes_eq digest expected)

-- The digest of a body, by the hash of it in hexadecimal.
abbrev pub digest_of : (Bytes → Bytes) → Bytes → Bytes
digest_of sha256 body = codes "sha256:" ++ sha256 body

module _ (get : Bytes → Option Bytes) (decode : Bytes → Option Manifest)
    (sha256 : Bytes → Bytes) where
  abbrev decoded : Bytes → Option Manifest → Resolved
  decoded digest none = err bad_manifest
  decoded digest (some m) = ok m digest

  -- The body that was asked for by digest has to hash to it.
  unfoldable pub checked : Descriptor → Option Bytes → Resolved
  checked pick none = err request_failed
  checked pick (some body) =
      if bytes_eq (digest_of sha256 body) pick.digest
      then decoded pick.digest (decode body)
      else err (digest_mismatch pick.digest (digest_of sha256 body))

  unfoldable pub picked : Bytes → Bytes → List Descriptor → Option Descriptor → Resolved
  unfolding checked
  picked expected want manifests none =
      err (platform_not_found want (describe_available_platforms manifests))
  picked expected want manifests (some pick) =
      if refuses expected pick.digest
      then err (digest_mismatch expected pick.digest)
      else checked pick (get (codes "manifests/" ++ pick.digest))

  -- What the body under the tag leads to, by the index that it holds: without one it is the
  -- manifest itself.
  unfoldable pub indexed :
      List Descriptor → Bytes → Bytes → Bytes × Bytes → Bytes → Manifest → Resolved
  unfolding picked
  indexed [] expected want request body m =
      if refuses expected (digest_of sha256 body)
      then err (digest_mismatch expected (digest_of sha256 body))
      else ok m (digest_of sha256 body)
  indexed (d ∷ ds) expected want (arch, variant) body m =
      picked expected want (d ∷ ds) (match_platform_descriptor (d ∷ ds) arch variant)

  unfoldable pub followed : Bytes → Bytes → Bytes × Bytes → Bytes → Option Manifest → Resolved
  unfolding indexed
  followed expected want request body none = err bad_manifest
  followed expected want request body (some m) = indexed m.manifests expected want request body m

  -- ResolveManifestForPlatformWithDigest
  unfoldable pub resolve_manifest_for_platform_with_digest : Bytes → Bytes → Bytes → Resolved
  unfolding followed
  resolve_manifest_for_platform_with_digest tag platform expected_digest =
      let want = if bytes_eq (trim_space platform) [] then codes "amd64" else trim_space platform in
      elim (parse_platform_request want) [
        | none ↦ err (unsupported_platform want)
        | some request ↦ elim (get (codes "manifests/" ++ tag)) [
          | none ↦ err request_failed
          | some body ↦ followed (trim_space expected_digest) want request body (decode body)
        ]
      ]

  -- ResolveManifestForPlatform
  unfoldable pub resolve_manifest_for_platform : Bytes → Bytes → Resolved
  resolve_manifest_for_platform tag platform =
      resolve_manifest_for_platform_with_digest tag platform []

  -- ResolveManifest, whose result has no digest of its own: an index leads to the digest of the
  -- chosen entry, the first one if none has the architecture.
  unfoldable pub legacy_followed : Bytes → Option Manifest → Resolved
  unfolding checked
  legacy_followed arch none = err bad_manifest
  legacy_followed arch (some m) = elim m.manifests [
    | [] ↦ ok m []
    | d ∷ ds ↦ elim (pick_architecture m.manifests arch) [
      | none ↦ checked d (get (codes "manifests/" ++ d.digest))
      | some pick ↦ checked pick (get (codes "manifests/" ++ pick.digest))
    ]
  ]

  unfoldable pub resolve_manifest : Bytes → Bytes → Resolved
  unfolding legacy_followed
  resolve_manifest tag arch = elim (get (codes "manifests/" ++ tag)) [
    | none ↦ err request_failed
    | some body ↦ legacy_followed arch (decode body)
  ]
