-- ===== src/Sysupdate/Patterns.antt =====
-- ukiPat and rootPat of internal/purefs/sysupdate.go.
use tacklebox.Common.{
  ℕ, Bytes, [], ◌∷◌, Bool, true, false, not, ◌&&◌, ◌||◌, Option, some, none, codes, length, take,
  drop, bytes_eq, leb, ◌==◌, if◌then◌else◌,
}
use tacklebox.Sysupdate.Versions.{is_digit}

abbrev pub is_letter : ℕ → Bool
is_letter c = (leb b'A' c && leb c b'Z') || (leb b'a' c && leb c b'z')

-- [A-Za-z0-9.-]
abbrev pub is_stem_byte : ℕ → Bool
is_stem_byte c = is_letter c || is_digit c || c == b'.' || c == b'-'

-- [A-Za-z0-9.+-]
abbrev pub is_version_byte : ℕ → Bool
is_version_byte c = is_stem_byte c || c == b'+'

-- [0-9a-fA-F-]
abbrev pub is_uuid_byte : ℕ → Bool
is_uuid_byte c = is_digit c || (leb b'A' c && leb c b'F') || (leb b'a' c && leb c b'f') || c == b'-'

unfoldable pub all_bytes : (ℕ → Bool) → Bytes → Bool
all_bytes p [] = true
all_bytes p (c ∷ s) = p c && all_bytes p s

abbrev pub is_empty : Bytes → Bool
is_empty [] = true
is_empty (c ∷ s) = false

-- One or more bytes of a class.
abbrev pub some_bytes : (ℕ → Bool) → Bytes → Bool
some_bytes p s = not (is_empty s) && all_bytes p s

-- What stands before and behind the first underscore, which no class of the patterns has.
abbrev pub behind : ℕ → Option (Bytes × Bytes) → Option (Bytes × Bytes)
behind c none = none
behind c (some (a, b)) = some (c ∷ a, b)

unfoldable pub at_underscore : Bytes → Option (Bytes × Bytes)
at_underscore [] = none
at_underscore (c ∷ s) =
    let rest = at_underscore s in if c == b'_' then some ([], s) else behind c rest

-- What stands before a suffix.
abbrev pub with_byte : ℕ → Option Bytes → Option Bytes
with_byte c none = none
with_byte c (some s) = some (c ∷ s)

unfoldable pub before_suffix : Bytes → Bytes → Option Bytes
before_suffix suffix [] = none
before_suffix suffix (c ∷ s) =
    let rest = before_suffix suffix s in
    if bytes_eq (c ∷ s) suffix then some [] else with_byte c rest

-- A listed artifact, with its first two groups and its SHA-256.
pub record Artifact : Type 0 where
  pub stem : Bytes
  pub version : Bytes

abbrev pub checked_groups : Bytes → Bytes → Option Artifact
checked_groups stem version =
    if some_bytes is_stem_byte stem && some_bytes is_version_byte version
    then some (record { stem = stem; version = version })
    else none

-- ukiPat
abbrev pub uki_version : Bytes → Option Bytes → Option Artifact
uki_version stem none = none
uki_version stem (some version) = checked_groups stem version

abbrev pub uki_rest : Option (Bytes × Bytes) → Option Artifact
uki_rest none = none
uki_rest (some (stem, rest)) = uki_version stem (before_suffix (codes ".efi") rest)

unfoldable pub match_uki : Bytes → Option Artifact
unfolding all_bytes at_underscore before_suffix
match_uki name = uki_rest (at_underscore name)

-- rootPat
abbrev pub is_root_tail : Bytes → Bool
is_root_tail tail =
    length (take 36 tail) == 36
    && all_bytes is_uuid_byte (take 36 tail)
    && (bytes_eq (drop 36 tail) (codes ".root.raw")
        || bytes_eq (drop 36 tail) (codes ".root.raw.xz"))

abbrev pub root_version : Bytes → Option (Bytes × Bytes) → Option Artifact
root_version stem none = none
root_version stem (some (version, tail)) =
    if is_root_tail tail then checked_groups stem version else none

abbrev pub root_rest : Option (Bytes × Bytes) → Option Artifact
root_rest none = none
root_rest (some (stem, rest)) = root_version stem (at_underscore rest)

unfoldable pub match_root : Bytes → Option Artifact
unfolding all_bytes at_underscore
match_root name = root_rest (at_underscore name)
