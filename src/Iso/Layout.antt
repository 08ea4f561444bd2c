-- ===== src/Iso/Layout.antt =====
-- layoutIso of internal/purefs/iso9660.go, second half: sizes of directories and the place of
-- everything in the image.
pub mod Sizes
pub mod Complete
use mathlib.Core.Option
use tacklebox.Common.{
  ℕ, zero, suc, ◌+◌, ◌-◌, ◌/◌, ◌%◌, Bytes, List, [], ◌∷◌, ◌++◌, Bool, true, false, Option, some,
  none, map, codes, length, ltb, ◌==◌, if◌then◌else◌,
}
use tacklebox.Iso.{IsoInput, IsoEntry, ceil_sector, sectors}
use tacklebox.Iso.Spans.{Span, extent_spans}
use tacklebox.Iso.Records.{Time, Dot, regular, self, parent, dir_record, path_table_record_len}
use tacklebox.Iso.Tree.{Dir, dir, no_dirs, FlatDir, add_inputs, boot_entry, flat_dirs}

-- The name that dirRecord gets for ".": a mark at the root.
abbrev pub dot_name : Bool → Bytes
dot_name is_root = if is_root then codes "SP" else []

-- dirContentLen: the records with dummy places, one for each span of a file.
unfoldable pub sizing_spans : Time → Bytes → List Span → List Bytes → List Bytes
sizing_spans now name [] rest = rest
sizing_spans now name (s ∷ ss) rest =
    dir_record now name 0 0 false regular false ∷ sizing_spans now name ss rest

unfoldable pub sizing_files : Time → List IsoEntry → List Bytes
unfolding sizing_spans
sizing_files now [] = []
sizing_files now (f ∷ fs) = sizing_spans now f.name (extent_spans f.size) (sizing_files now fs)

unfoldable pub sizing_subdirs : Time → List Bytes → List Bytes → List Bytes
sizing_subdirs now [] rest = rest
sizing_subdirs now (name ∷ names) rest =
    dir_record now name 0 0 true regular false ∷ sizing_subdirs now names rest

unfoldable pub sizing_records : Time → FlatDir → List Bytes
unfolding sizing_files sizing_subdirs
sizing_records now d =
    dir_record now (dot_name d.is_root) 0 0 true self false
    ∷ dir_record now [] 0 0 true parent false
    ∷ sizing_subdirs now d.subdirs (sizing_files now d.files)

-- `add` for each record: a record that would cross a sector's edge starts the next sector.
unfoldable pub content_len : ℕ → ℕ → List Bytes → ℕ
content_len used in_sector [] = used
content_len used in_sector (r ∷ rs) =
    if ltb 2048 (in_sector + length r)
    then content_len (used + (2048 - in_sector) + length r) (length r % 2048) rs
    else content_len (used + length r) ((in_sector + length r) % 2048) rs

-- d.size
unfoldable pub dir_size : Time → FlatDir → ℕ
unfolding content_len sizing_records
dir_size now d = ceil_sector (content_len 0 0 (sizing_records now d))

unfoldable pub path_table_len : List FlatDir → ℕ
path_table_len [] = 0
path_table_len (d ∷ ds) = path_table_record_len d.name d.is_root + path_table_len ds

-- A directory in its place; its files have theirs.
pub record Placed : Type 0 where
  pub flat : FlatDir
  pub extent : ℕ
  pub size : ℕ
  pub files : List (ℕ × IsoEntry)

unfoldable pub place_dirs : Time → ℕ → List FlatDir → List Placed
unfolding dir_size
place_dirs now sector [] = []
place_dirs now sector (d ∷ ds) =
    record { flat = d; extent = sector; size = dir_size now d; files = [] }
    ∷ place_dirs now (sector + dir_size now d / 2048) ds

unfoldable pub dirs_end : Time → ℕ → List FlatDir → ℕ
unfolding dir_size
dirs_end now sector [] = sector
dirs_end now sector (d ∷ ds) = dirs_end now (sector + dir_size now d / 2048) ds

unfoldable pub place_entries : ℕ → List IsoEntry → List (ℕ × IsoEntry)
place_entries sector [] = []
place_entries sector (f ∷ fs) = (sector, f) ∷ place_entries (sector + sectors f.size) fs

unfoldable pub entries_end : ℕ → List IsoEntry → ℕ
entries_end sector [] = sector
entries_end sector (f ∷ fs) = entries_end (sector + sectors f.size) fs

unfoldable pub place_files : ℕ → List Placed → List Placed
unfolding place_entries entries_end
place_files sector [] = []
place_files sector (p ∷ ps) =
    record p { files = place_entries sector p.flat.files }
    ∷ place_files (entries_end sector p.flat.files) ps

unfoldable pub files_end : ℕ → List Placed → ℕ
unfolding entries_end
files_end sector [] = sector
files_end sector (p ∷ ps) = files_end (entries_end sector p.flat.files) ps

-- ly.files
unfoldable pub all_files : List Placed → List (ℕ × IsoEntry)
all_files [] = []
all_files (p ∷ ps) = p.files ++ all_files ps

pub record IsoLayout : Type 0 where
  pub volume_id : Bytes
  pub now : Time
  pub dirs : List Placed
  pub boot : IsoEntry
  pub boot_catalog : ℕ
  pub path_table_l : ℕ
  pub path_table_m : ℕ
  pub path_table_len : ℕ
  pub total_sectors : ℕ

-- The placement of a list of directories.
unfoldable pub placed_layout : Bytes → Time → IsoEntry → List FlatDir → IsoLayout
unfolding path_table_len place_dirs dirs_end place_files files_end
placed_layout volume_id now boot ds =
    let tables = sectors (path_table_len ds) in
    let first_dir = 16 + 3 + tables + tables in
    let catalog = dirs_end now first_dir ds in
    let placed = place_dirs now first_dir ds in
    record {
      volume_id = volume_id;
      now = now;
      dirs = place_files (suc catalog) placed;
      boot = boot;
      boot_catalog = catalog;
      path_table_l = 16 + 3;
      path_table_m = 16 + 3 + tables;
      path_table_len = path_table_len ds;
      total_sectors = files_end (suc catalog) placed;
    }

-- layoutIso; `none` is the error of a missing boot image.
unfoldable pub layout_iso : Bytes → Time → List IsoInput → Bytes → Option IsoLayout
layout_iso volume_id now files boot_image =
    Option.map
      (λ boot.
        placed_layout volume_id now boot (flat_dirs (add_inputs 0 files (dir [] [] no_dirs))))
      (boot_entry 0 files boot_image none)
