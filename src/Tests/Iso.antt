-- ===== src/Tests/Iso.antt =====
-- An image of two small files in two directories.
use tacklebox.Common.{
  ℕ, Bytes, List, [], ◌∷◌, ◌≡◌, refl, some, none, false, bytes_eq, before, codes, length, Among,
}
use tacklebox.Oci.Rootfs.Paths.{split_clean}
use tacklebox.Iso.{ceil_sector, sectors, IsoInput, yields}
use tacklebox.Iso.Spans.{extent_spans}
use tacklebox.Iso.Records.{Time, dir_record, path_table_record_len, iso_name, rec_time}
use tacklebox.Iso.Numbers.{both32, both16}
use tacklebox.Iso.Tree.{dir, no_dirs, Dir, entry_of, add_inputs, boot_entry, flat_dirs, count_dir}
use tacklebox.Iso.Tree.Complete.{first, later}
use tacklebox.Iso.Layout.{
  IsoLayout, Placed, dir_size, place_entries, content_len, sizing_records, dirs_end, path_table_len,
  all_files, placed_layout, layout_iso,
}
use tacklebox.Iso.Layout.Complete.{layout_iso-Among}
use tacklebox.Iso.Layout.Sizes.{length-pack-dir_records}
use tacklebox.Iso.Write.{pack, dir_records, write_iso9660}
use tacklebox.Iso.Write.Chunks.{Holds}
use tacklebox.Iso.Write.Image.{AreHonest}
use tacklebox.Iso.Write.Faithful.{IsImage}
use tacklebox.Iso.Write.Checked.{IsHonest, write_iso9660-Holds, write_iso9660-IsImage}

abbrev noon : Time
noon = record { year = 2024; month = 5; day = 1; hour = 12; minute = 0; second = 0 }

abbrev boot_file : IsoInput
boot_file = record { path = codes "/EFI/boot.img"; size = 3; source = yields (codes "efi") false }

abbrev root_file : IsoInput
root_file = record {
  path = codes "/LiveOS/root.sfs";
  size = 4;
  source = yields (codes "hsqs") false;
}

abbrev two_files : List IsoInput
two_files = boot_file ∷ root_file ∷ []

abbrev tree : Dir
tree = add_inputs 0 two_files (dir [] [] no_dirs)

abbrev plan : IsoLayout
plan = placed_layout (codes "TUNA") noon (entry_of 0 boot_file) (flat_dirs tree)

laid_out : layout_iso (codes "TUNA") noon two_files (codes "EFI/boot.img") ≡ some plan
unfolding layout_iso boot_entry entry_of split_clean bytes_eq
laid_out = refl

-- Two path tables of a sector each, three directories, the boot catalog and two files.
catalog : (plan.boot_catalog ≡ 24) × (plan.total_sectors ≡ 27)
unfolding placed_layout flat_dirs add_inputs dir_size extent_spans entry_of split_clean ceil_sector
    sectors dirs_end path_table_len path_table_record_len count_dir bytes_eq before iso_name
    dir_record both32 rec_time both16
catalog = (refl, refl)

honest : AreHonest (all_files plan.dirs)
unfolding placed_layout flat_dirs add_inputs all_files entry_of split_clean count_dir bytes_eq
    before
honest = (refl, refl, (refl, refl, tt))

abbrev image : Bytes
image =
    (write_iso9660-IsImage (codes "TUNA") noon two_files (codes "EFI/boot.img") laid_out honest).0

layout_iso-Among_example : (extent : ℕ) × Among (extent, entry_of 1 root_file) (all_files plan.dirs)
layout_iso-Among_example =
    layout_iso-Among (codes "TUNA") noon two_files (codes "EFI/boot.img") root_file 1
      (later (first refl)) laid_out

write_iso9660-IsImage_example :
    (image : Bytes) × (write_iso9660 (codes "TUNA") noon two_files (codes "EFI/boot.img")
      ≡ (image, none))
    × IsImage plan image
write_iso9660-IsImage_example =
    write_iso9660-IsImage (codes "TUNA") noon two_files (codes "EFI/boot.img") laid_out honest

write_iso9660-Holds_example :
    IsHonest (yields (codes "hsqs") false) 4 × ((extent : ℕ) × Holds image extent (codes "hsqs"))
write_iso9660-Holds_example =
    write_iso9660-Holds (codes "TUNA") noon two_files (codes "EFI/boot.img") root_file 1
      ((write_iso9660-IsImage (codes "TUNA") noon two_files (codes "EFI/boot.img") laid_out
        honest).1)
      (later (first refl))

-- The directory /EFI with its file at sector 25.
abbrev efi_dir : Placed
efi_dir = record {
  flat = record {
    name = codes "EFI";
    is_root = false;
    parent = 0;
    first_child = 3;
    subdirs = [];
    files = entry_of 0 boot_file ∷ [];
  };
  extent = 22;
  size = 2048;
  files = (25, entry_of 0 boot_file) ∷ [];
}

length-pack-dir_records_example :
    length (pack 0 (dir_records noon plan.dirs efi_dir))
    ≡ content_len 0 0 (sizing_records noon efi_dir.flat)
length-pack-dir_records_example =
    length-pack-dir_records noon plan.dirs efi_dir 25 (unfold place_entries in refl)
