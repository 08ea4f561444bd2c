-- ===== src/Sysupdate/Release.antt =====
-- ResolveDdiRelease of internal/purefs/sysupdate.go. A map is an association list with each key once, and
-- `iterate` is the order in which the language visits one; white space is that of ASCII text.
pub mod Sorted
pub mod Halves
pub mod Loop
pub mod Names
pub mod Lines
pub mod Newest
use tacklebox.Common.{
  ℕ, zero, suc, Bytes, List, [], ◌∷◌, ◌++◌, Bool, true, false, not, ◌&&◌, ◌||◌, Option, some, none,
  codes, length, take, drop, bytes_eq, ltb, leb, ◌==◌, if◌then◌else◌, fields, flush, trim_space,
  trim_prefix, has_prefix, one_name,
}
use tacklebox.Sysupdate.Patterns.{
  all_bytes, is_empty, at_underscore, before_suffix, Artifact, match_uki, match_root,
}
use tacklebox.Sysupdate.Versions.{is_digit, string_less, version_less}

pub record DdiRelease : Type 0 where
  pub version : Bytes
  pub uki : Bytes
  pub root : Bytes
  pub uki_sha : Bytes
  pub root_sha : Bytes

-- bufio.Scanner over lines: each without a final carriage return; a line of 64 KiB is an error.
unfoldable pub raw_lines_from : Bytes → Bytes → List Bytes
raw_lines_from cur [] = flush cur []
raw_lines_from cur (c ∷ s) =
    if c == b'\n' then cur ∷ raw_lines_from [] s else raw_lines_from (cur ++ c ∷ []) s

unfoldable drop_return : Bytes → Bytes
drop_return [] = []
drop_return (c ∷ []) = if c == b'\r' then [] else c ∷ []
drop_return (c ∷ d ∷ s) = c ∷ drop_return (d ∷ s)

unfoldable drop_returns : List Bytes → List Bytes
unfolding drop_return
drop_returns [] = []
drop_returns (l ∷ ls) = drop_return l ∷ drop_returns ls

unfoldable pub scanned_lines : Bytes → List Bytes
unfolding drop_returns raw_lines_from
scanned_lines text = drop_returns (raw_lines_from [] text)

unfoldable pub has_long : List Bytes → Bool
has_long [] = false
has_long (l ∷ ls) = leb 65536 (length l) || has_long ls

-- sha and name of a line
abbrev pub named_by : Bytes → List Bytes → Bytes × Bytes
named_by line (sha ∷ name ∷ []) =
    if length sha == 64 then (sha, trim_prefix name (codes "*")) else ([], line)
named_by line _ = ([], line)

unfoldable pub named : Bytes → Bytes × Bytes
named line = named_by line (fields line)

-- What a line lists.
pub data Listed : Type 0 where
  uki_listed root_listed : Artifact → Bytes × Bytes → Listed
  nothing_listed : Listed

abbrev pub listed_by : Bytes × Bytes → Option Artifact → Option Artifact → Listed
listed_by n (some a) r = uki_listed a n
listed_by n none (some a) = root_listed a n
listed_by n none none = nothing_listed

unfoldable pub listed : Bytes → Listed
unfolding match_uki match_root named
listed raw =
    let line = trim_space raw in
    if is_empty line || has_prefix line (codes "#")
    then nothing_listed
    else listed_by (named line) (match_uki (named line).1) (match_root (named line).1)

-- half
pub record Half : Type 0 where
  pub uki : Bytes
  pub root : Bytes
  pub uki_sha : Bytes
  pub root_sha : Bytes

abbrev no_half : Half
no_half = record { uki = []; root = []; uki_sha = []; root_sha = [] }

-- byVersion[v], after it is made if it was not there
unfoldable pub half_at : Bytes → List (Bytes × Half) → Half
half_at v [] = no_half
half_at v ((w, h) ∷ m) = if bytes_eq w v then h else half_at v m

unfoldable pub change_half : Bytes → (Half → Half) → List (Bytes × Half) → List (Bytes × Half)
change_half v f [] = (v, f no_half) ∷ []
change_half v f ((w, h) ∷ m) = if bytes_eq w v then (w, f h) ∷ m else (w, h) ∷ change_half v f m

-- byVersion and stems
pub record Listing : Type 0 where
  pub by_version : List (Bytes × Half)
  pub stems : List Bytes

abbrev pub wanted : Bytes → Bytes → Bool
wanted base stem = is_empty base || bytes_eq stem base

abbrev with_stem : Bytes → List Bytes → List Bytes
with_stem s stems = if one_name s stems then stems else s ∷ stems

abbrev set_uki : Bytes × Bytes → Half → Half
set_uki (sha, name) h = record h { uki = name; uki_sha = sha }

abbrev set_root : Bytes × Bytes → Half → Half
set_root (sha, name) h = record h { root = name; root_sha = sha }

abbrev noted : (Half → Half) → Bytes → Artifact → Listing → Listing
noted f base a st =
    if wanted base a.stem
    then record {
      by_version = change_half a.version f st.by_version;
      stems = with_stem a.stem st.stems;
    }
    else st

abbrev pub note : Bytes → Listed → Listing → Listing
note base (uki_listed a n) st = noted (set_uki n) base a st
note base (root_listed a n) st = noted (set_root n) base a st
note base nothing_listed st = st

unfoldable pub read_listing : Bytes → List Bytes → Listing → Listing
unfolding listed change_half
read_listing base [] st = st
read_listing base (l ∷ ls) st = read_listing base ls (note base (listed l) st)

-- versions
unfoldable pub complete : List (Bytes × Half) → List (Bytes × Half) → List Bytes
unfolding half_at
complete all [] = []
complete all ((v, h) ∷ m) =
    let rest = complete all m in
    if is_empty (half_at v all).uki || is_empty (half_at v all).root then rest else v ∷ rest

-- sort.Slice by versionLess, and the last
unfoldable pub insert_version : Bytes → List Bytes → List Bytes
insert_version v [] = v ∷ []
insert_version v (w ∷ ws) =
    let rest = insert_version v ws in if version_less v w then v ∷ w ∷ ws else w ∷ rest

unfoldable pub sort_versions : List Bytes → List Bytes
unfolding insert_version
sort_versions [] = []
sort_versions (v ∷ vs) = insert_version v (sort_versions vs)

unfoldable pub last_of : List Bytes → Option Bytes
last_of [] = none
last_of (v ∷ []) = some v
last_of (v ∷ w ∷ ws) = last_of (w ∷ ws)

-- sort.Strings
unfoldable pub insert_name : Bytes → List Bytes → List Bytes
insert_name v [] = v ∷ []
insert_name v (w ∷ ws) =
    let rest = insert_name v ws in if string_less v w then v ∷ w ∷ ws else w ∷ rest

unfoldable pub sort_names : List Bytes → List Bytes
unfolding insert_name
sort_names [] = []
sort_names (v ∷ vs) = insert_name v (sort_names vs)

pub data Resolution : Type 0 where
  line_too_long no_complete_version : Resolution
  ambiguous_stems : List Bytes → Resolution
  no_sha : Bytes → Resolution
  resolved : DdiRelease → Resolution

abbrev pub release_of : Bytes → Half → Resolution
release_of v h =
    if is_empty h.uki_sha || is_empty h.root_sha
    then no_sha v
    else resolved (record {
      version = v;
      uki = h.uki;
      root = h.root;
      uki_sha = h.uki_sha;
      root_sha = h.root_sha;
    })

abbrev pub newest_release : Option Bytes → List (Bytes × Half) → Resolution
newest_release none m = no_complete_version
newest_release (some v) m = release_of v (half_at v m)

abbrev pub no_listing : Listing
no_listing = record { by_version = []; stems = [] }

-- The end of ResolveDdiRelease.
unfoldable pub resolve_listing : (List Bytes → List Bytes) → Bytes → Listing → Resolution
unfolding complete sort_versions last_of sort_names
resolve_listing iterate base st =
    if is_empty base && ltb 1 (length st.stems)
    then ambiguous_stems (sort_names st.stems)
    else newest_release (last_of (sort_versions (iterate (complete st.by_version st.by_version))))
        st.by_version

unfoldable pub resolve_ddi_release : (List Bytes → List Bytes) → Bytes → Bytes → Resolution
unfolding resolve_listing read_listing scanned_lines has_long
resolve_ddi_release iterate manifest base =
    if has_long (raw_lines_from [] manifest)
    then line_too_long
    else resolve_listing iterate base (read_listing base (scanned_lines manifest) no_listing)
