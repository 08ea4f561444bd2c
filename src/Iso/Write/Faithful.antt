-- ===== src/Iso/Write/Faithful.antt =====
-- The whole image of internal/purefs/iso9660.go.
use tacklebox.Common.{ℕ, suc, ◌-◌, ◌*◌, ◌≤◌, Bytes, List, [], ◌++◌, ◌≡◌, ap, ◌∙◌, none, length}
use tacklebox.Iso.{IsoEntry, zeros}
use tacklebox.Iso.Records.{Time}
use tacklebox.Iso.Tree.{FlatDir}
use tacklebox.Iso.Layout.{IsoLayout, all_files, placed_layout}
use tacklebox.Iso.Write.{went_on, write_files, write_head, start, finished, write_layout}
use tacklebox.Iso.Write.Chunks.{
  at, FitsIn, FitsIn-le, AllHeld, AllHeld-append, pad_to-at, write_chunks-Wrote,
}
use tacklebox.Iso.Write.Image.{
  head_chunks, file_chunks, AreHonest, write_head-chunks, write_files-chunks,
}
use tacklebox.Iso.Write.Fits.{head_chunks-FitsIn, files-FitsIn}

-- An image of a layout: whole sectors, in which the descriptors, path tables, directories and boot
-- catalog, and the contents of the files, are found where the layout places them.
pub record IsImage (ly : IsoLayout) (image : Bytes) : Type 0 where
  pub size : length image ≡ ly.total_sectors * 2048
  pub head : AllHeld image (head_chunks ly)
  pub files : AllHeld image (file_chunks (all_files ly.dirs))

-- The end of the writing, from a writer that is at the end of the files.
finished-at :
    (total : ℕ) (out : Bytes)
    → length out ≤ total * 2048
    → finished total (went_on (at out)) ≡ (out ++ zeros (total * 2048 - length out), none)
finished-at total out h = ap (λ sw. (sw.out, sw.err)) (pad_to-at total out h).0

pub write_layout-placed :
    (volume_id : Bytes) (now : Time) (boot : IsoEntry) (ds : List FlatDir)
    → AreHonest (all_files (placed_layout volume_id now boot ds).dirs)
    → (image : Bytes) × (write_layout (placed_layout volume_id now boot ds) ≡ (image, none))
      × IsImage (placed_layout volume_id now boot ds) image
unfolding write_layout
write_layout-placed volume_id now boot ds honest =
    let ly = placed_layout volume_id now boot ds in
    let files = all_files ly.dirs in
    let head =
      write_chunks-Wrote (head_chunks ly) (suc ly.boot_catalog) []
        (head_chunks-FitsIn volume_id now boot ds) in
    let fit : FitsIn (length head.more) (file_chunks files) ly.total_sectors =
      FitsIn-le _ _ _ _ head.bound (files-FitsIn volume_id now boot ds honest) in
    let rest = write_chunks-Wrote (file_chunks files) ly.total_sectors head.more fit in
    let out = head.more ++ rest.more in
    let last = zeros (ly.total_sectors * 2048 - length out) in
    let written : write_files files (write_head ly start) ≡ went_on (at out) =
      ap (write_files files) (write_head-chunks ly ∙ head.clean)
      ∙ write_files-chunks files ly.total_sectors head.more honest fit
      ∙ ap went_on rest.clean in
    (
      out ++ last,
      ap (finished ly.total_sectors) written ∙ finished-at ly.total_sectors out rest.bound,
      record {
        size = (pad_to-at ly.total_sectors out rest.bound).1;
        head =
            AllHeld-append out last (head_chunks ly)
              (AllHeld-append head.more rest.more (head_chunks ly) head.held);
        files = AllHeld-append out last (file_chunks files) rest.held;
      },
    )
