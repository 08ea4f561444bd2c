-- ===== src/Verify/Bls.antt =====
-- internal/verify/bls.go: boot entries as the verifier reads them. A file map is its membership
-- test; a check's result is its name and whether it failed.
pub mod Contract
use tacklebox.Common.{
  ℕ, Bytes, List, [], ◌∷◌, ◌++◌, Bool, true, false, not, ◌||◌, Option, some, none, codes, bytes_eq,
  fields, join, cut_prefix, trim_prefix, ◌==◌, if◌then◌else◌,
}

pub record BlsEntry : Type 0 where
  pub name : Bytes
  pub linux : Bytes
  pub initrd : Bytes
  pub options : Bytes

-- strings.Split(body, "\n"), `cur` being the line so far.
unfoldable pub lines_from : Bytes → Bytes → List Bytes
lines_from cur [] = cur ∷ []
lines_from cur (c ∷ s) = if c == b'\n' then cur ∷ lines_from [] s else lines_from (cur ++ c ∷ []) s

-- The body of the loop over the lines, on the fields of one.
unfoldable pub read_fields : BlsEntry → List Bytes → BlsEntry
read_fields e [] = e
read_fields e (key ∷ []) = e
read_fields e (key ∷ value ∷ r) =
    if bytes_eq key (codes "linux")
    then record e { linux = value }
    else if bytes_eq key (codes "initrd")
    then record e { initrd = value }
    else if bytes_eq key (codes "options")
    then record e { options = join (codes " ") (value ∷ r) }
    else e

unfoldable pub read_lines : BlsEntry → List Bytes → BlsEntry
unfolding read_fields
read_lines e [] = e
read_lines e (l ∷ ls) = read_lines (read_fields e (fields l)) ls

-- ParseBLSEntry
unfoldable pub parse_bls_entry : Bytes → BlsEntry
unfolding lines_from read_lines
parse_bls_entry body =
    read_lines (record { name = []; linux = []; initrd = []; options = [] }) (lines_from [] body)

-- The loop of BLSOption: the first field with the prefix.
unfoldable pub option_in : List Bytes → Bytes → Bytes
option_in [] prefix = []
option_in (f ∷ fs) prefix = elim (cut_prefix f prefix) [ some v ↦ v | none ↦ option_in fs prefix ]

-- BLSOption
unfoldable pub bls_option : Bytes → Bytes → Bytes
bls_option options key = option_in (fields options) (key ++ codes "=")

abbrev pub or_else : Bytes → Bytes → Bytes
or_else [] d = d
or_else (c ∷ s) d = c ∷ s

-- BLSSquashimg
unfoldable pub bls_squashimg : Bytes → Bytes
bls_squashimg options =
    or_else (bls_option options (codes "tacklebox.live.squashimg"))
      (bls_option options (codes "rd.live.squashimg"))

pub data Problem : Type 0 where
  missing_line missing_linux missing_initrd : Problem

-- CheckBLSResolves; `none` is a check that passed.
unfoldable pub check_bls_resolves : BlsEntry → (Bytes → Bool) → Option Problem
check_bls_resolves e files =
    if bytes_eq e.linux [] || bytes_eq e.initrd []
    then some missing_line
    else if not (files (trim_prefix e.linux (codes "/")))
    then some missing_linux
    else if not (files (trim_prefix e.initrd (codes "/")))
    then some missing_initrd
    else none
