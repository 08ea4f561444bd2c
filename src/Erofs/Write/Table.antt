-- ===== src/Erofs/Write/Table.antt =====
-- What the bytes of the superblock and the inode table of internal/purefs/erofs.go say.
use tacklebox.Common.{
  u32, ◌^◌, ◌<◌, ◌⊎◌, take, drop, drop-append, append_assoc, ℕ, suc, ◌+◌, ◌*◌, Bytes, List, [], ◌∷◌,
  ◌++◌, ◌≡◌, refl, sym, ap, subst, ◌∙◌, inl, inr, arith, codes, length, length-append,
}
use tacklebox.Iso.{Source, zeros}
use tacklebox.Iso.Write.Chunks.{length-zeros}
use tacklebox.Erofs.Dirents.{le_bytes}
use tacklebox.Erofs.Links.{Inode, Laid}
use tacklebox.Erofs.Write.{device_or_block, inode_table, superblock, slot}
use tacklebox.Erofs.Write.Data.{Stored, bytes_of, Given, AllStored}
use tacklebox.Erofs.Write.Succeeds.{AreBelow}
use tacklebox.Iso.Write.Chunks.{Holds}
use tacklebox.Erofs.Write.Sizes.{length-slot}

-- A number of bytes, the lowest first.
abbrev pub le_value : Bytes → ℕ
le_value [] = 0
le_value (b ∷ bs) = b + 256 * le_value bs

-- The number of four bytes at a place of an image.
abbrev pub word_at : Bytes → ℕ → ℕ
word_at image at = le_value (take 4 (drop at image))

-- An inode's slot in the table has its size, and if that is not 0, the number of the block at which the data
-- of the inode is in the image; a file's body gave the size of its node.
abbrev pub StoredAt : (Bytes → Source) → Bytes → ℕ → Laid → Type 0
StoredAt store image i l =
    (word_at image (4096 + 32 * i + 8) ≡ l.size)
    × ((l.size ≡ 0)
        ⊎ (Given store l.payload l.size
            × Holds image (2 * word_at image (4096 + 32 * i + 16)) (bytes_of store l.payload)))

-- The inodes in the table's order.
abbrev pub AllStoredAt : (Bytes → Source) → Bytes → ℕ → List Laid → Type 0
AllStoredAt store image i [] = Unit
AllStoredAt store image i (l ∷ ls) = StoredAt store image i l × AllStoredAt store image (suc i) ls

le_value-le_bytes : (v : ℕ) → le_value (le_bytes 4 v) ≡ u32 v
unfolding le_bytes
le_value-le_bytes v = omega arith

slot-size :
    (is : List Inode) (l : Laid) (t : Bytes) → take 4 (drop 8 (slot is l ++ t)) ≡ le_bytes 4 l.size
unfolding slot le_bytes zeros
slot-size is l t = refl

slot-block :
    (is : List Inode) (l : Laid) (t : Bytes)
    → take 4 (drop 16 (slot is l ++ t)) ≡ le_bytes 4 (device_or_block l.inode.attrs.kind l)
unfolding slot le_bytes zeros
slot-block is l t = refl

-- A word behind what comes first.
word_at-append :
    (pre t : Bytes) (at n v : ℕ)
    → at ≡ length pre + n
    → take 4 (drop n t) ≡ le_bytes 4 v
    → word_at (pre ++ t) at ≡ u32 v
word_at-append pre t at n v h e =
    ap (λ b. le_value (take 4 b)) (drop-append pre t n at h) ∙ ap le_value e ∙ le_value-le_bytes v

Stored-StoredAt :
    (store : Bytes → Source) (image : Bytes) (i : ℕ) (l : Laid)
    → word_at image (4096 + 32 * i + 8) ≡ u32 l.size
    → word_at image (4096 + 32 * i + 16) ≡ u32 (device_or_block l.inode.attrs.kind l)
    → l.size < 2 ^ 32
    → length image < 2 ^ 44
    → Stored store image l
    → StoredAt store image i l
Stored-StoredAt store image i l s b below short (inl z) = (omega (arith, s, below), inl z)
Stored-StoredAt store image i l s b below short (inr (block, at, given, held)) =
    let long = ap length held.splits ∙ length-append held.before _ in
    let same : block ≡ word_at image (4096 + 32 * i + 16) =
      omega (arith, b, at, short, long, held.placed) in
    (
      omega (arith, s, below),
      inr (given, subst (λ n. Holds image (2 * n) (bytes_of store l.payload)) same held),
    )

pub table-AllStoredAt :
    (store : Bytes → Source) (image : Bytes) (is : List Inode) (i : ℕ) (ls : List Laid)
    (pre more : Bytes)
    → image ≡ pre ++ (inode_table is ls ++ more)
    → length pre ≡ 4096 + 32 * i
    → AreBelow ls
    → length image < 2 ^ 44
    → AllStored store image ls
    → AllStoredAt store image i ls
unfolding inode_table
table-AllStoredAt store image is i [] pre more e at below short all = tt
table-AllStoredAt store image is i (l ∷ ls) pre more e at below short all =
    let next = inode_table is ls ++ more in
    let e' : image ≡ pre ++ (slot is l ++ next) =
      e ∙ ap (λ t. pre ++ t) (append_assoc (slot is l) (inode_table is ls) more) in
    let read : (n v : ℕ)
        → take 4 (drop n (slot is l ++ next)) ≡ le_bytes 4 v
        → word_at image (4096 + 32 * i + n) ≡ u32 v =
      λ n v r.
        ap (λ t. word_at t (4096 + 32 * i + n)) e'
        ∙ word_at-append pre (slot is l ++ next) (4096 + 32 * i + n) n v (omega (arith, at)) r in
    (
      Stored-StoredAt store image i l (read 8 l.size (slot-size is l next))
          (read 16 (device_or_block l.inode.attrs.kind l) (slot-block is l next)) below.0 short
          all.0,
      table-AllStoredAt store image is (suc i) ls (pre ++ slot is l) more
          (e' ∙ sym (append_assoc pre (slot is l) next))
          (omega (arith, at, length-append pre (slot is l), length-slot is l)) below.1 short all.1,
    )

-- The superblock behind its first 1024 bytes.
abbrev sb_body : ℕ → ℕ → ℕ → Bytes
sb_body inodes build_time total =
    le_bytes 4 0xe0f5e1e2
    ++ (zeros 8
        ++ ((12 ∷ 0 ∷ le_bytes 2 0)
            ++ (le_bytes 8 inodes
                ++ (le_bytes 8 build_time
                    ++ (zeros 4
                        ++ (le_bytes 4 total
                            ++ (le_bytes 4 1
                                ++ (zeros 20
                                    ++ (codes "tunaos-live"
                                        ++ (zeros 13 ++ (12 ∷ zeros 2983)))))))))))

sb_body-count :
    (inodes build_time total : ℕ) (t : Bytes)
    → take 4 (drop 36 (sb_body inodes build_time total ++ t)) ≡ le_bytes 4 total
unfolding le_bytes zeros
sb_body-count inodes build_time total t = refl

-- Behind the first 1024 bytes a superblock counts the blocks.
pub superblock-count :
    (inodes build_time total : ℕ) (rest : Bytes)
    → word_at (superblock inodes build_time total ++ rest) (1024 + 36) ≡ u32 total
unfolding superblock
superblock-count inodes build_time total rest =
    ap (λ t. word_at t (1024 + 36))
      (append_assoc (zeros 1024) (sb_body inodes build_time total) rest)
    ∙ word_at-append (zeros 1024) (sb_body inodes build_time total ++ rest) (1024 + 36) 36 total
        (omega (arith, length-zeros 1024)) (sb_body-count inodes build_time total rest)
