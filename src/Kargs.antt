-- ===== src/Kargs.antt =====
-- internal/kargsd/kargsd.go: the kernel arguments that an image declares in kargs.d. A directory is a
-- list of names and contents; what package toml decodes from a content is a parameter.
pub mod Files
pub mod Split
pub mod Distinct
use tacklebox.Common.{
  one_name, before, ℕ, Bytes, List, [], ◌∷◌, ◌++◌, Bool, true, false, not, ◌&&◌, ◌||◌, Option, some,
  none, reverse, length, codes, ltb, ◌==◌, bytes_eq, cut_prefix, trim_prefix, replace_byte, flush,
  join, if◌then◌else◌,
}

-- What package toml says of a content: an error, or the undecoded keys and the two fields, `none` for
-- one that is not defined.
pub data Decoded : Type 0 where
  bad : Decoded
  config : List Bytes → Option (List Bytes) → Option (List Bytes) → Decoded

pub data KargsError : Type 0 where
  bad_toml missing_kargs unknown_arch : Bytes → KargsError
  unknown_keys : Bytes → List Bytes → KargsError

pub data Parsed : Type 0 where
  ok : List Bytes → Parsed
  err : KargsError → Parsed

abbrev pub has_byte : ℕ → Bytes → Bool
has_byte c [] = false
has_byte c (d ∷ s) = d == c || has_byte c s

-- path.Ext: from the last dot of the last component on.
abbrev pub last_dot : Option Bytes → ℕ → Bytes → Option Bytes
last_dot (some e) c s = some e
last_dot none c s = if c == b'.' && not (has_byte b'/' s) then some (c ∷ s) else none

unfoldable pub ext_in : Bytes → Option Bytes
ext_in [] = none
ext_in (c ∷ s) = last_dot (ext_in s) c s

unfoldable pub path_ext : Bytes → Bytes
unfolding ext_in
path_ext s = elim (ext_in s) [ some e ↦ e | none ↦ [] ]

-- IsConfigName
unfoldable pub is_config_name : Bytes → Bool
unfolding path_ext
is_config_name name =
    bytes_eq (path_ext name) (codes ".toml") && ltb (length (codes ".toml")) (length name)

-- strings.TrimSuffix for one byte.
unfoldable pub trim_suffix : Bytes → Bytes → Bytes
trim_suffix s p = reverse (trim_prefix (reverse s) (reverse p))

-- strings.Cut at a byte: what stands before and behind its first place.
abbrev pub cut_on : Bool → ℕ → Bytes → Bytes × Option Bytes → Bytes × Option Bytes
cut_on true c s later = ([], some s)
cut_on false c s later = (c ∷ later.0, later.1)

unfoldable pub cut_at : ℕ → Bytes → Bytes × Option Bytes
cut_at sep [] = ([], none)
cut_at sep (c ∷ s) = cut_on (c == sep) c s (cut_at sep s)

abbrev quote : Bytes
quote = b'"' ∷ []

-- identity
unfoldable pub identity : Bytes → Bytes
unfolding trim_suffix
identity p =
    let (key, value) = cut_at b'=' (trim_suffix (trim_prefix p quote) quote) in
    let key' = replace_byte b'-' (codes "_") key in
    elim value [ none ↦ key' | some v ↦ key' ++ (b'=' ∷ trim_prefix v quote) ]

-- Arch
unfoldable pub arch_name : Bytes → Bytes
arch_name a =
    if one_name a (codes "amd64" ∷ codes "x86_64" ∷ [])
    then codes "x86_64"
    else if one_name a (codes "arm64" ∷ codes "aarch64" ∷ [])
    then codes "aarch64"
    else if one_name a (codes "ppc64le" ∷ codes "ppc64" ∷ codes "powerpc64" ∷ [])
    then codes "powerpc64"
    else a

abbrev pub is_blank : ℕ → Bool
is_blank c = c == b' ' || c == 9 || c == 10 || c == 13 || c == 12

-- split: `quoted` and the current argument are the loop's state.
unfoldable pub split_from : Bool → Bytes → Bytes → List Bytes
split_from quoted cur [] = flush cur []
split_from quoted cur (c ∷ s) = elim (c == b'"') [
  | true ↦ split_from (not quoted) (cur ++ c ∷ []) s
  | false ↦ elim (not quoted && is_blank c) [
    | true ↦ flush cur (split_from quoted [] s)
    | false ↦ split_from quoted (cur ++ c ∷ []) s
  ]
]

unfoldable pub split : Bytes → List Bytes
unfolding split_from
split = split_from false []

-- The loop over the arguments of a file: `seen` and `out`.
pub record Kargs : Type 0 where
  pub seen : List Bytes
  pub out : List Bytes

-- One argument, by whether its identity was seen.
unfoldable pub added : Bool → Bytes → Kargs → Kargs
added true p st = st
added false p st = record { seen = st.seen ++ identity p ∷ []; out = st.out ++ p ∷ [] }

unfoldable pub add_arg : Bytes → Kargs → Kargs
unfolding added
add_arg p st = added (one_name (identity p) st.seen) p st

unfoldable pub add_args : List Bytes → Kargs → Kargs
add_args [] st = st
add_args (p ∷ ps) st = add_args ps (add_arg p st)

-- What a file leads to: an error, nothing, or its arguments.
pub data Use : Type 0 where
  fail : KargsError → Use
  skip : Use
  use_args : List Bytes → Use

unfoldable pub matched : Bytes → Bytes → List Bytes → Option (List Bytes) → Use
matched name arch kargs none = use_args (split (join (codes " ") kargs))
matched name arch kargs (some archs) =
    if bytes_eq arch []
    then fail (unknown_arch name)
    else if one_name arch archs
    then use_args (split (join (codes " ") kargs))
    else skip

unfoldable pub read_config : Bytes → Bytes → Decoded → Use
unfolding matched
read_config name arch bad = fail (bad_toml name)
read_config name arch (config (k ∷ ks) kargs archs) = fail (unknown_keys name (k ∷ ks))
read_config name arch (config [] none archs) = fail (missing_kargs name)
read_config name arch (config [] (some kargs) archs) = matched name arch kargs archs

-- sort.Strings on the names of the files, by insertion.
unfoldable pub insert : Bytes × Bytes → List (Bytes × Bytes) → List (Bytes × Bytes)
insert f [] = f ∷ []
insert f (g ∷ gs) = if before f.0 g.0 then f ∷ (g ∷ gs) else g ∷ insert f gs

-- The names that are read, in their order.
unfoldable pub config_files : List (Bytes × Bytes) → List (Bytes × Bytes)
unfolding insert
config_files [] = []
config_files (f ∷ fs) = if is_config_name f.0 then insert f (config_files fs) else config_files fs

-- One round of the loop over the files, and the rounds that follow.
abbrev pub followed_by : Use → Kargs → (Kargs → Parsed) → Parsed
followed_by (fail e) st rest = err e
followed_by skip st rest = rest st
followed_by (use_args ps) st rest = rest (add_args ps st)

module _ (decode : Bytes → Decoded) where
  unfoldable pub parse_files : Bytes → List (Bytes × Bytes) → Kargs → Parsed
  parse_files arch [] st = ok st.out
  parse_files arch ((name, body) ∷ fs) st =
      followed_by (read_config name arch (decode body)) st (λ st'. parse_files arch fs st')

  -- Parse
  unfoldable pub parse : List (Bytes × Bytes) → Bytes → Parsed
  unfolding parse_files
  parse files arch =
      parse_files (arch_name arch) (config_files files) (record { seen = []; out = [] })
