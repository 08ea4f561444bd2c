-- ===== src/Erofs/Write/Stored.antt =====
-- WriteErofs of internal/purefs/erofs.go: the whole image.
use tacklebox.Common.{
  ◌^◌, ◌<◌, append_assoc, ℕ, ◌+◌, ◌-◌, ◌*◌, Bytes, List, [], ◌++◌, ◌≡◌, refl, ap, subst, ◌∙◌, Bool,
  true, false, Bool-cases, inl, inr, arith, Option, some, none, length, if◌then◌else◌,
}
use tacklebox.Oci.Rootfs.{Node}
use tacklebox.Iso.{Source, zeros}
use tacklebox.Erofs.Dirents.{blk_size}
use tacklebox.Erofs.Links.{Inode, Laid, lay_inodes, end_block, all_inodes}
use tacklebox.Erofs.Write.{
  ErofsError, file_too_large, write_data, write_laid, write_erofs, too_large, image_head,
  inode_table, superblock, first_data, meta_blocks,
}
use tacklebox.Erofs.Write.Data.{end_block-last_block, write_data-Wrote, lay_inodes-AreLaid}
use tacklebox.Erofs.Write.Succeeds.{AreBelow, too_large-cases}
use tacklebox.Erofs.Write.Sizes.{superblock-Spans, lay_inodes-length, length-image_head}
use tacklebox.Erofs.Write.Table.{word_at, AllStoredAt, table-AllStoredAt, superblock-count}

-- What an image that is written without an error holds.
pub record Imaged (root : Node) (store : Bytes → Source) (build_time : ℕ) (image : Bytes)
    : Type 0 where
  pub laid : List Laid
  pub lays : lay_inodes (first_data (all_inodes root)) (all_inodes root) ≡ some laid
  pub stored : AllStoredAt store image 0 laid
  pub counted : length image ≡ word_at image (1024 + 36) * 4096

write_laid-some :
    (store : Bytes → Source) (build_time : ℕ) (is : List Inode) (o : Option (List Laid))
    {image : Bytes}
    → write_laid store build_time is o ≡ (image, none)
    → (ls : List Laid) × (o ≡ some ls)
      × (too_large ls ≡ false)
      × (write_data store ls (image_head build_time is ls) ≡ (image, none))
unfolding write_laid
write_laid-some store build_time is none h = absurd (cc h)
write_laid-some store build_time is (some ls) {image} h =
    let Made : Bool → Type 0 = λ t.
      ◌≡◌ {A = Bytes × Option ErofsError}
        (if t then ([], some file_too_large) else write_data store ls (image_head build_time is ls))
        (image, none) in
    elim (Bool-cases (too_large ls)) [
      | inl y ↦ let made : Made true = subst Made y h in absurd (cc made)
      | inr n ↦ (ls, refl, n, subst Made n h)
    ]

-- An image below 16 TiB that is written without an error consists of as many blocks of 4096 bytes as its
-- superblock counts, by the four bytes at 1024 + 36. Its table, from the second block on, has a slot of 32
-- bytes for each inode of the tree, in the order of the inodes: four bytes of it are the inode's size, and
-- if that is not 0, four others are the number of the block at which the image holds what is stored for
-- the inode: the entries of a directory, the target of a symbolic link, or the body of a file, which has
-- the size of its node.
pub write_erofs-Imaged :
    (root : Node) (store : Bytes → Source) (build_time : ℕ) {image : Bytes}
    → length image < 2 ^ 44
    → write_erofs root store build_time ≡ (image, none)
    → Imaged root store build_time image
unfolding write_erofs image_head
write_erofs-Imaged root store build_time {image} short h =
    let is = all_inodes root in
    let start = 1 + meta_blocks (length is) in
    let (ls, lays, fits, written) =
      write_laid-some store build_time is (lay_inodes (first_data is) is) h in
    let w =
      write_data-Wrote store start ls (image_head build_time is ls)
        (lay_inodes-AreLaid (first_data is) start is refl lays)
        (length-image_head build_time is ls (lay_inodes-length (first_data is) is lays)) written in
    let total = end_block (first_data is) ls in
    let sb = superblock (length is) build_time total in
    let gap = zeros (meta_blocks (length is) * blk_size - length (inode_table is ls)) in
    let e : image ≡ sb ++ (inode_table is ls ++ (gap ++ w.more)) =
      w.splits
      ∙ append_assoc sb (inode_table is ls ++ gap) w.more
      ∙ ap (λ t. sb ++ t) (append_assoc (inode_table is ls) gap w.more) in
    let below : AreBelow ls = elim (too_large-cases ls) [
      | inl (_, b) ↦ b
      | inr (y, _) ↦ absurd (cc (y, fits))
    ] in
    record {
      laid = ls;
      lays = lays;
      stored =
          table-AllStoredAt store image is 0 ls sb (gap ++ w.more) e
            (superblock-Spans (length is) build_time total).long below short w.stored;
      counted = omega (
        arith,
        short,
        w.long,
        ap (λ t. word_at t (1024 + 36)) e,
        superblock-count (length is) build_time total (inode_table is ls ++ (gap ++ w.more)),
        end_block-last_block (first_data is) start ls refl,
      );
    }
