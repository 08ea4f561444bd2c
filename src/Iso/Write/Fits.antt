-- ===== src/Iso/Write/Fits.antt =====
-- The pieces of a layout of internal/purefs/iso9660.go, between the sectors that layoutIso gives them.
use tacklebox.Common.{
  ℕ, suc, ◌+◌, ◌*◌, ◌/◌, ◌≤◌, Bytes, List, [], ◌∷◌, ◌++◌, ◌≡◌, refl, sym, ap, subst, ◌∙◌, Bool,
  true, false, arith, length, length-append, length-take, if◌then◌else◌,
}
use tacklebox.Iso.{IsoEntry, zeros, ceil_sector, sectors}
use tacklebox.Iso.Records.{Time}
use tacklebox.Iso.Records.Length.{length-path_table_record}
use tacklebox.Iso.Tree.{FlatDir}
use tacklebox.Iso.Layout.{
  IsoLayout, Placed, sizing_records, content_len, dir_size, path_table_len, place_dirs, dirs_end,
  place_entries, entries_end, place_files, files_end, all_files, placed_layout,
}
use tacklebox.Iso.Layout.Sizes.{length-pack-dir_records}
use tacklebox.Iso.Descriptors.{
  sector_of, primary_descriptor, boot_record, terminator, boot_catalog_of,
}
use tacklebox.Iso.Write.{path_table}
use tacklebox.Iso.Write.Chunks.{FitsIn, FitsIn-le, FitsIn-append, length-zeros}
use tacklebox.Iso.Write.Image.{
  dir_chunks, head_chunks, descriptors, content_of, file_chunks, AreHonest,
}

length-sector_of : (b : Bytes) → length (sector_of b) ≡ 2048
unfolding sector_of
length-sector_of b =
    omega
      (arith, length-take 2048 (b ++ zeros 2048), length-append b (zeros 2048), length-zeros 2048)

-- The sectors of a region hold its bytes.
sectors-le : (n : ℕ) → n ≤ sectors n * 2048
unfolding sectors ceil_sector
sectors-le n = omega arith

dir_size-sectors :
    (now : Time) (d : FlatDir)
    → content_len 0 0 (sizing_records now d) ≤ dir_size now d / 2048 * 2048
unfolding dir_size sectors ceil_sector
dir_size-sectors now d = sectors-le (content_len 0 0 (sizing_records now d))

file_chunks-append :
    (xs ys : List (ℕ × IsoEntry)) → file_chunks (xs ++ ys) ≡ file_chunks xs ++ file_chunks ys
file_chunks-append [] ys = refl
file_chunks-append ((e, f) ∷ xs) ys =
    ap (λ t. (e, content_of f.source) ∷ t) (file_chunks-append xs ys)

AreHonest-parts : (xs ys : List (ℕ × IsoEntry)) → AreHonest (xs ++ ys) → AreHonest xs × AreHonest ys
AreHonest-parts [] ys h = (tt, h)
AreHonest-parts ((e, f) ∷ xs) ys h =
    let (left, right) = AreHonest-parts xs ys h.2 in ((h.0, h.1, left), right)

place_entries-FitsIn :
    (sector : ℕ) (fs : List IsoEntry)
    → AreHonest (place_entries sector fs)
    → FitsIn (sector * 2048) (file_chunks (place_entries sector fs)) (entries_end sector fs)
unfolding place_entries entries_end
place_entries-FitsIn sector [] h = omega arith
place_entries-FitsIn sector (f ∷ fs) h = (
  omega arith,
  FitsIn-le _ _ _ _ (omega (arith, h.1, sectors-le f.size))
      (place_entries-FitsIn (sector + sectors f.size) fs h.2),
)

pub place_files-FitsIn :
    (sector : ℕ) (ps : List Placed)
    → AreHonest (all_files (place_files sector ps))
    → FitsIn (sector * 2048) (file_chunks (all_files (place_files sector ps))) (files_end sector ps)
unfolding place_files files_end all_files
place_files-FitsIn sector [] h = omega arith
place_files-FitsIn sector (p ∷ ps) h =
    let (left, right) = AreHonest-parts (place_entries sector p.flat.files) _ h in
    subst (λ cs. FitsIn (sector * 2048) cs (files_end (entries_end sector p.flat.files) ps))
      (sym (file_chunks-append (place_entries sector p.flat.files) _))
      (FitsIn-append (sector * 2048) (file_chunks (place_entries sector p.flat.files)) _
        (entries_end sector p.flat.files) _ (place_entries-FitsIn sector p.flat.files left)
        (place_files-FitsIn (entries_end sector p.flat.files) ps right))

place_dirs-FitsIn :
    (now : Time) (dirs : List Placed) (sector file_sector : ℕ) (ds : List FlatDir)
    → FitsIn
        (sector * 2048)
        (dir_chunks now dirs (place_files file_sector (place_dirs now sector ds)))
        (dirs_end now sector ds)
unfolding place_dirs place_files dirs_end
place_dirs-FitsIn now dirs sector file_sector [] = omega arith
place_dirs-FitsIn now dirs sector file_sector (d ∷ ds) =
    let p : Placed = record {
      flat = d;
      extent = sector;
      size = dir_size now d;
      files = place_entries file_sector d.files;
    } in
    (
      omega arith,
      FitsIn-le _ _ _ _
          (omega
            (arith, length-pack-dir_records now dirs p file_sector refl, dir_size-sectors now d))
          (place_dirs-FitsIn now dirs (sector + dir_size now d / 2048)
            (entries_end file_sector d.files) ds),
    )

length-path_table :
    (le : Bool) (now : Time) (sector file_sector : ℕ) (ds : List FlatDir)
    → length (path_table le (place_files file_sector (place_dirs now sector ds)))
      ≡ path_table_len ds
unfolding path_table path_table_len place_dirs place_files
length-path_table le now sector file_sector [] = refl
length-path_table le now sector file_sector (d ∷ ds) =
    length-append _ (
      path_table le (
        place_files (entries_end file_sector d.files)
          (place_dirs now (sector + dir_size now d / 2048) ds)))
    ∙ omega (
      arith,
      length-path_table_record le d.name d.is_root sector (if d.is_root then 1 else suc d.parent),
      length-path_table le now (sector + dir_size now d / 2048) (entries_end file_sector d.files)
          ds,
    )

length-primary_descriptor : (ly : IsoLayout) → length (primary_descriptor ly) ≡ 2048
unfolding primary_descriptor
length-primary_descriptor ly = length-sector_of _

length-boot_record : (ly : IsoLayout) → length (boot_record ly) ≡ 2048
unfolding boot_record
length-boot_record ly = length-sector_of _

length-terminator : length terminator ≡ 2048
unfolding terminator
length-terminator = length-sector_of _

length-boot_catalog_of : (ly : IsoLayout) → length (boot_catalog_of ly) ≡ 2048
unfolding boot_catalog_of
length-boot_catalog_of ly = length-sector_of _

length-descriptors : (ly : IsoLayout) → length (descriptors ly) ≡ 3 * 2048
length-descriptors ly = omega (
  arith,
  length-append (primary_descriptor ly ++ boot_record ly) terminator,
  length-append (primary_descriptor ly) (boot_record ly),
  length-primary_descriptor ly,
  length-boot_record ly,
  length-terminator,
)

-- Descriptors, path tables, directories and boot catalog end before the first file.
pub head_chunks-FitsIn :
    (volume_id : Bytes) (now : Time) (boot : IsoEntry) (ds : List FlatDir)
    → FitsIn 0
        (head_chunks (placed_layout volume_id now boot ds))
        (suc (placed_layout volume_id now boot ds).boot_catalog)
unfolding placed_layout
head_chunks-FitsIn volume_id now boot ds =
    let ly = placed_layout volume_id now boot ds in
    let tables = sectors (path_table_len ds) in
    let first = 16 + 3 + tables + tables in
    let catalog = dirs_end now first ds in
    let hold = sectors-le (path_table_len ds) in
    (
      omega arith,
      (
        omega (arith, length-descriptors ly),
        (
          omega (arith, hold, length-path_table true now first (suc catalog) ds),
          FitsIn-le _ (first * 2048) _ _
              (omega (arith, hold, length-path_table false now first (suc catalog) ds))
              (FitsIn-append (first * 2048)
                (dir_chunks now ly.dirs (place_files (suc catalog) (place_dirs now first ds))) _
                catalog (suc catalog) (place_dirs-FitsIn now ly.dirs first (suc catalog) ds)
                (omega arith, omega (arith, length-boot_catalog_of ly))),
        ),
      ),
    )

-- The files start behind the boot catalog.
pub files-FitsIn :
    (volume_id : Bytes) (now : Time) (boot : IsoEntry) (ds : List FlatDir)
    → AreHonest (all_files (placed_layout volume_id now boot ds).dirs)
    → FitsIn
        (suc (placed_layout volume_id now boot ds).boot_catalog * 2048)
        (file_chunks (all_files (placed_layout volume_id now boot ds).dirs))
        (placed_layout volume_id now boot ds).total_sectors
unfolding placed_layout
files-FitsIn volume_id now boot ds honest = place_files-FitsIn _ (place_dirs now _ ds) honest
