-- ===== src/Erofs/Write/Sizes.antt =====
-- The sizes of the superblock and the inode table of internal/purefs/erofs.go.
use tacklebox.Common.{
  u32, ℕ, zero, suc, ◌+◌, ◌-◌, ◌*◌, ◌/◌, Bytes, List, [], ◌∷◌, ◌++◌, ◌≡◌, refl, sym, ap, ◌∙◌, arith,
  some, codes, length, length-append, if◌then◌else◌,
}
use tacklebox.Iso.{zeros}
use tacklebox.Iso.Write.Chunks.{length-zeros}
use tacklebox.Erofs.Dirents.{blk_size, le_bytes}
use tacklebox.Erofs.Links.{Inode, Laid, payload_by, lay_inodes, end_block, blocks_of}
use tacklebox.Erofs.Write.{image_head, inode_table, superblock, slot, first_data, meta_blocks}
use tacklebox.Erofs.Write.Data.{lay_one-some}

length-le_bytes : (n v : ℕ) → length (le_bytes n v) ≡ n
unfolding le_bytes
length-le_bytes zero v = refl
length-le_bytes (suc n) v = ap suc (length-le_bytes n (v / 256))

-- Bytes of a length.
pub record Spans (b : Bytes) (n : ℕ) : Type 0 where
  pub long : length b ≡ n

abbrev spans : {b : Bytes} {n : ℕ} → length b ≡ n → Spans b n
spans h = record { long = h }

abbrev ◌then◌ : {m n : ℕ} {a b : Bytes} → Spans a m → Spans b n → Spans (a ++ b) (m + n)
◌then◌ {m} {n} {a} {b} h k = spans (omega (arith, length-append a b, h.long, k.long))

infixr 10 ◌then◌
spans_zeros : (n : ℕ) → Spans (zeros n) n
spans_zeros n = spans (length-zeros n)

spans_le : (n v : ℕ) → Spans (le_bytes n v) n
spans_le n v = spans (length-le_bytes n v)

spans_cons : (c : ℕ) {b : Bytes} {n : ℕ} → Spans b n → Spans (c ∷ b) (suc n)
spans_cons c h = spans (ap suc h.long)

pub superblock-Spans :
    (inodes build_time total : ℕ) → Spans (superblock inodes build_time total) blk_size
unfolding superblock
superblock-Spans inodes build_time total =
    spans_zeros 1024
    then spans_le 4 0xe0f5e1e2
    then spans_zeros 8
    then spans_cons 12 (spans_cons 0 (spans_le 2 0))
    then spans_le 8 inodes
    then spans_le 8 build_time
    then spans_zeros 4
    then spans_le 4 total
    then spans_le 4 1
    then spans_zeros 20
    then spans {b = codes "tunaos-live"} refl
    then spans_zeros 13
    then spans_cons 12 (spans_zeros 2983)

pub length-slot : (is : List Inode) (l : Laid) → length (slot is l) ≡ 32
unfolding slot le_bytes zeros
length-slot is l = refl

length-inode_table :
    (is : List Inode) (ls : List Laid) → length (inode_table is ls) ≡ length ls * 32
unfolding inode_table
length-inode_table is [] = refl
length-inode_table is (l ∷ ls) = omega (
  arith,
  length-append (slot is l) (inode_table is ls),
  length-slot is l,
  length-inode_table is ls,
)

pub lay_inodes-length :
    (next : ℕ) (is : List Inode) {ls : List Laid}
    → lay_inodes next is ≡ some ls
    → length ls ≡ length is
unfolding lay_inodes
lay_inodes-length next [] {ls} h = let e : [] ≡ ls = cc h in ap length (sym e)
lay_inodes-length next (i ∷ is) {ls} h =
    let (p, size, hs, o, rest, made) =
      lay_one-some next i (payload_by i.attrs.kind i) (λ n. lay_inodes n is) h in
    ap length (sym made) ∙ ap suc (lay_inodes-length (u32 (next + blocks_of size)) is rest)

pub length-image_head :
    (build_time : ℕ) (is : List Inode) (ls : List Laid)
    → length ls ≡ length is
    → length (image_head build_time is ls) ≡ (1 + meta_blocks (length is)) * blk_size
unfolding image_head meta_blocks
length-image_head build_time is ls e =
    let table = inode_table is ls in
    let gap = meta_blocks (length is) * blk_size - length table in
    let sb = superblock (length is) build_time (end_block (first_data is) ls) in
    omega (
      arith,
      e,
      length-append sb (table ++ zeros gap),
      (superblock-Spans (length is) build_time (end_block (first_data is) ls)).long,
      length-append table (zeros gap),
      length-inode_table is ls,
      length-zeros gap,
    )
