-- ===== src/Tests/Platform.antt =====
-- An index of two platforms on a registry that knows three paths; the hash is the text itself.
use tacklebox.Common.{
  Bytes, List, [], ◌∷◌, ◌≡◌, ◌≢◌, refl, Option, some, none, codes, bytes_eq, if◌then◌else◌,
  trim_space, trim_left_space,
}
use tacklebox.Oci.Platform.{
  pos, Descriptor, Manifest, ok, err, platform_not_found, parse_platform_request, satisfies,
  match_platform_descriptor, describe_available_platforms, refuses, digest_of, checked, picked,
  indexed, followed, resolve_manifest_for_platform_with_digest,
}
use tacklebox.Oci.Platform.Authentic.{Follows, resolve-Follows}

abbrev itself : Bytes → Bytes
itself s = s

abbrev entry_for_arm : Descriptor
entry_for_arm = record {
  media_type = [];
  digest = digest_of itself (codes "arm");
  size = pos 3;
  platform = some (record { architecture = codes "arm64"; variant = codes "v8" });
}

abbrev entry_for_amd : Descriptor
entry_for_amd = record {
  media_type = [];
  digest = digest_of itself (codes "amd");
  size = pos 3;
  platform = some (record { architecture = codes "amd64"; variant = [] });
}

abbrev manifest : List Descriptor → Manifest
manifest entries = record {
  media_type = [];
  manifests = entries;
  config = entry_for_amd;
  layers = [];
  annotations = [];
}

abbrev index : Manifest
index = manifest (entry_for_amd ∷ entry_for_arm ∷ [])

abbrev get : Bytes → Option Bytes
get path =
    if bytes_eq path (codes "manifests/stable")
    then some (codes "index")
    else if bytes_eq path (codes "manifests/sha256:arm")
    then some (codes "arm")
    else none

abbrev decode : Bytes → Option Manifest
decode body = if bytes_eq body (codes "index") then some index else some (manifest [])

arm_request : parse_platform_request (trim_space (codes " linux/arm64 ")) ≡ some (codes "arm64", [])
unfolding parse_platform_request trim_space trim_left_space bytes_eq
arm_request = refl

stable_given : get (codes "manifests/stable") ≡ some (codes "index")
unfolding bytes_eq
stable_given = refl

index_decoded : decode (codes "index") ≡ some index
unfolding bytes_eq
index_decoded = refl

arm_resolved :
    resolve_manifest_for_platform_with_digest get decode itself
      (codes "stable")
      (codes " linux/arm64 ")
      []
    ≡ ok (manifest []) (codes "sha256:arm")
unfolding resolve_manifest_for_platform_with_digest followed indexed picked checked
    match_platform_descriptor satisfies refuses parse_platform_request trim_space trim_left_space
    bytes_eq
arm_resolved = refl

-- No entry stands in for another platform.
v2_missing :
    resolve_manifest_for_platform_with_digest get decode itself
      (codes "stable")
      (codes "linux/amd64/v2")
      []
    ≡ err (platform_not_found (codes "linux/amd64/v2") (codes "amd64" ∷ codes "arm64/v8" ∷ []))
unfolding resolve_manifest_for_platform_with_digest followed indexed picked
    match_platform_descriptor describe_available_platforms satisfies parse_platform_request
    trim_space trim_left_space bytes_eq
v2_missing = refl

arm_asked : trim_space (codes " linux/arm64 ") ≢ []
unfolding trim_space trim_left_space
arm_asked e = cc e

resolve-Follows_example :
    Follows get decode itself
      (trim_space [])
      (trim_space (trim_space (codes " linux/arm64 ")))
      index
      (manifest [])
      (codes "sha256:arm")
resolve-Follows_example =
    resolve-Follows get decode itself (codes "stable") (codes " linux/arm64 ") [] (codes "arm64") []
      (codes "index") index arm_asked arm_request stable_given index_decoded arm_resolved
