-- ===== src/Iso/Write.antt =====
-- `write` of internal/purefs/iso9660.go. The writer below takes every byte; what it took so far is
-- part of the state.
pub mod Chunks
pub mod Image
pub mod Fits
pub mod Faithful
pub mod Checked
use tacklebox.Common.{
  ℕ, zero, suc, ◌+◌, ◌-◌, ◌*◌, ◌/◌, ◌%◌, ◌^◌, Bytes, List, [], ◌∷◌, ◌++◌, Bool, true, false, not,
  Option, some, none, codes, length, take, ltb, leb, ◌==◌, if◌then◌else◌,
}
use tacklebox.Iso.{IsoInput, IsoEntry, Source, refused, yields, zeros}
use tacklebox.Iso.Numbers.{byte, le32, be32, both16, both32, u32}
use tacklebox.Iso.Spans.{Span, extent_spans}
use tacklebox.Iso.Records.{
  Time, Dot, regular, self, parent, dir_record, root_record, path_table_record,
}
use tacklebox.Iso.Tree.{FlatDir}
use tacklebox.Iso.Layout.{IsoLayout, Placed, dot_name, all_files, layout_iso}
use tacklebox.Iso.Descriptors.{primary_descriptor, boot_record, terminator, boot_catalog_of}

pub data IsoError : Type 0 where
  missing_boot_image overrun open_failed read_failed wrong_size : IsoError

-- sectorWriter
pub record SectorWriter : Type 0 where
  pub out : Bytes
  pub pos : ℕ
  pub err : Option IsoError

-- sectorWriter.write; the writer below does not fail.
abbrev put_bytes : Option IsoError → Bytes → SectorWriter → SectorWriter
put_bytes (some e) b sw = sw
put_bytes none b sw = record sw { out = sw.out ++ b; pos = sw.pos + length b }

unfoldable pub write_bytes : Bytes → SectorWriter → SectorWriter
write_bytes b sw = put_bytes sw.err b sw

-- padTo; the loop writes the zeros piece by piece.
abbrev pad_bytes : Option IsoError → ℕ → SectorWriter → SectorWriter
pad_bytes (some e) want sw = sw
pad_bytes none want sw =
    if ltb want sw.pos
    then record sw { err = some overrun }
    else record sw { out = sw.out ++ zeros (want - sw.pos); pos = want }

unfoldable pub pad_to : ℕ → SectorWriter → SectorWriter
pad_to sector sw = pad_bytes sw.err (sector * 2048) sw

-- The extent and the size of a directory by its place in the list.
unfoldable pub place_at : ℕ → List Placed → ℕ × ℕ
place_at n [] = (0, 0)
place_at zero (p ∷ ps) = (p.extent, p.size)
place_at (suc n) (p ∷ ps) = place_at n ps

-- writePT
abbrev parent_index : FlatDir → ℕ
parent_index d = if d.is_root then 1 else suc d.parent

unfoldable pub path_table : Bool → List Placed → Bytes
path_table le [] = []
path_table le (p ∷ ps) =
    path_table_record le p.flat.name p.flat.is_root p.extent (parent_index p.flat)
    ++ path_table le ps

-- The records of one directory.
abbrev more_follow : List Span → Bool
more_follow [] = false
more_follow (s ∷ ss) = true

unfoldable pub span_records : Time → ℕ → Bytes → List Span → List Bytes → List Bytes
span_records now extent name [] rest = rest
span_records now extent name (s ∷ ss) rest =
    dir_record now name (extent + s.offset / 2048) s.count false regular (more_follow ss)
    ∷ span_records now extent name ss rest

unfoldable pub file_records : Time → List (ℕ × IsoEntry) → List Bytes
unfolding span_records
file_records now [] = []
file_records now ((extent, f) ∷ fs) =
    span_records now extent f.name (extent_spans f.size) (file_records now fs)

unfoldable pub subdir_records : Time → List Placed → ℕ → List Bytes → List Bytes → List Bytes
subdir_records now dirs n [] rest = rest
subdir_records now dirs n (name ∷ names) rest =
    let (extent, size) = place_at n dirs in
    dir_record now name extent size true regular false ∷ subdir_records now dirs (suc n) names rest

unfoldable pub dir_records : Time → List Placed → Placed → List Bytes
unfolding file_records subdir_records place_at
dir_records now dirs p =
    let (extent, size) =
      if p.flat.is_root then (p.extent, p.size) else place_at p.flat.parent dirs in
    dir_record now (dot_name p.flat.is_root) p.extent p.size true self false
    ∷ dir_record now [] extent size true parent false
    ∷ subdir_records now dirs p.flat.first_child p.flat.subdirs (file_records now p.files)

-- `add` for each record, as in dirContentLen.
unfoldable pub pack : ℕ → List Bytes → Bytes
pack in_sector [] = []
pack in_sector (r ∷ rs) =
    if ltb 2048 (in_sector + length r)
    then zeros (2048 - in_sector) ++ (r ++ pack (length r % 2048) rs)
    else r ++ pack ((in_sector + length r) % 2048) rs

unfoldable pub write_dirs : Time → List Placed → List Placed → SectorWriter → SectorWriter
write_dirs now dirs [] sw = sw
write_dirs now dirs (p ∷ ps) sw =
    write_dirs now dirs ps (write_bytes (pack 0 (dir_records now dirs p)) (pad_to p.extent sw))

-- io.Copy of one file into the writer, whatever `sw.err` is, and the tests after it.
pub data Copied : Type 0 where
  stopped : IsoError → SectorWriter → Copied
  went_on : SectorWriter → Copied

unfoldable pub copy_file : Source → ℕ → SectorWriter → Copied
copy_file refused size sw = stopped open_failed sw
copy_file (yields b failed) size sw =
    let sw' = record sw { out = sw.out ++ b; pos = sw.pos + length b } in
    if failed
    then stopped read_failed sw'
    else if length b == size
    then went_on sw'
    else stopped wrong_size sw'

-- An error of one file ends the loop.
abbrev pub and_then : Copied → (SectorWriter → Copied) → Copied
and_then (stopped e sw) rest = stopped e sw
and_then (went_on sw) rest = rest sw

unfoldable pub write_files : List (ℕ × IsoEntry) → SectorWriter → Copied
write_files [] sw = went_on sw
write_files ((extent, f) ∷ fs) sw =
    and_then (copy_file f.source f.size (pad_to extent sw)) (λ sw'. write_files fs sw')

-- What is written before the files.
unfoldable pub write_head : IsoLayout → SectorWriter → SectorWriter
write_head ly sw =
    let descriptors =
      write_bytes terminator
        (write_bytes (boot_record ly) (write_bytes (primary_descriptor ly) (pad_to 16 sw))) in
    let tables = write_bytes (path_table false ly.dirs) (
      pad_to ly.path_table_m
        (write_bytes (path_table true ly.dirs) (pad_to ly.path_table_l descriptors))) in
    write_bytes (boot_catalog_of ly)
      (pad_to ly.boot_catalog (write_dirs ly.now ly.dirs ly.dirs tables))

abbrev pub start : SectorWriter
start = record { out = []; pos = 0; err = none }

-- The end of `write`: what was written, and the error that is returned.
abbrev pub finished : ℕ → Copied → Bytes × Option IsoError
finished total (stopped e sw) = (sw.out, some e)
finished total (went_on sw) = ((pad_to total sw).out, (pad_to total sw).err)

unfoldable pub write_layout : IsoLayout → Bytes × Option IsoError
write_layout ly = finished ly.total_sectors (write_files (all_files ly.dirs) (write_head ly start))

-- WriteIso9660
unfoldable pub write_iso9660 : Bytes → Time → List IsoInput → Bytes → Bytes × Option IsoError
write_iso9660 volume_id now files boot_image = elim (layout_iso volume_id now files boot_image) [
  | none ↦ ([], some missing_boot_image)
  | some ly ↦ write_layout ly
]
