-- ===== src/Erofs/Write.antt =====
-- WriteErofs of internal/purefs/erofs.go: superblock, inode table and data. The writer below takes every
-- byte.
pub mod Data
pub mod Sizes
pub mod Table
pub mod Stored
pub mod Succeeds
use Prim.Native.Nat.{bit_or}
use tacklebox.Common.{
  u32, ℕ, zero, suc, ◌+◌, ◌-◌, ◌*◌, ◌/◌, ◌%◌, ◌^◌, Bytes, List, [], ◌∷◌, ◌++◌, Bool, true, false,
  Option, some, none, codes, length, ltb, leb, ◌==◌, if◌then◌else◌,
}
use tacklebox.Oci.Rootfs.{NodeType, Attrs, Node}
use tacklebox.Iso.{Source, refused, yields, zeros}
use tacklebox.Erofs.Dirents.{blk_size, le_bytes}
use tacklebox.Erofs.Links.{
  Inode, Payload, ready, body, Laid, all_inodes, nlink_of, lay_inodes, end_block, blocks_of,
}

pub data ErofsError : Type 0 where
  name_too_long file_too_large open_failed read_failed size_drifted : ErofsError

abbrev pub meta_blk : ℕ
meta_blk = 1

-- Blocks of the inode table, for so many inodes.
unfoldable pub meta_blocks : ℕ → ℕ
meta_blocks n = (n * 32 + 4095) / 4096

-- The first block of data: behind the superblock and the table, as a uint32.
abbrev pub first_data : List Inode → ℕ
first_data is = u32 (meta_blk + meta_blocks (length is))

-- sb, from the start of the image.
unfoldable pub superblock : ℕ → ℕ → ℕ → Bytes
unfolding le_bytes
superblock inodes build_time total =
    zeros 1024
    ++ (le_bytes 4 0xe0f5e1e2
        ++ (zeros 8
            ++ ((12 ∷ 0 ∷ le_bytes 2 0)
                ++ (le_bytes 8 inodes
                    ++ (le_bytes 8 build_time
                        ++ (zeros 4
                            ++ (le_bytes 4 total
                                ++ (le_bytes 4 meta_blk
                                    ++ (zeros 20
                                        ++ (codes "tunaos-live"
                                            ++ (zeros 13 ++ (12 ∷ zeros 2983))))))))))))

-- The type bits of an inode; `|` adds them to twelve permission bits.
unfoldable pub mode_of : Attrs → NodeType → ℕ
mode_of a NodeType.dir = 0o040000 + a.mode % 0o10000
mode_of a NodeType.file = 0o100000 + a.mode % 0o10000
mode_of a NodeType.symlink = 0o120777
mode_of a NodeType.char = 0o020000 + a.mode % 0o10000
mode_of a NodeType.block = 0o060000 + a.mode % 0o10000
mode_of a NodeType.fifo = 0o010000 + a.mode % 0o10000
mode_of a NodeType.hardlink = a.mode % 0o10000

-- The number of a device, joined from its parts.
abbrev device_number : Attrs → ℕ
device_number a =
    bit_or (bit_or (a.devmajor * 2 ^ 8) (a.devminor % 2 ^ 8)) (a.devminor / 2 ^ 8 * 2 ^ 8 * 2 ^ 12)

unfoldable pub device_or_block : NodeType → Laid → ℕ
device_or_block NodeType.char l = device_number l.inode.attrs
device_or_block NodeType.block l = device_number l.inode.attrs
device_or_block _ l = l.blk_addr

-- A compact inode.
unfoldable pub slot : List Inode → Laid → Bytes
unfolding le_bytes mode_of device_or_block
slot is l =
    let a = l.inode.attrs in
    zeros 4
    ++ (le_bytes 2 (mode_of a a.kind)
        ++ (le_bytes 2 (nlink_of is l.inode)
            ++ (le_bytes 4 l.size
                ++ (zeros 4
                    ++ (le_bytes 4 (device_or_block a.kind l)
                        ++ (le_bytes 4 (suc l.inode.nid)
                            ++ (le_bytes 2 a.uid ++ (le_bytes 2 a.gid ++ zeros 4))))))))

unfoldable pub inode_table : List Inode → List Laid → Bytes
unfolding slot
inode_table is [] = []
inode_table is (l ∷ ls) = slot is l ++ inode_table is ls

-- The test of the loop over the inodes.
unfoldable pub too_large : List Laid → Bool
too_large [] = false
too_large (l ∷ ls) = if ltb 0xffffffff l.size then true else too_large ls

-- head
unfoldable pub image_head : ℕ → List Inode → List Laid → Bytes
unfolding superblock inode_table meta_blocks
image_head build_time is ls =
    let table = meta_blocks (length is) in
    superblock (length is) build_time (end_block (first_data is) ls)
    ++ (inode_table is ls ++ zeros (table * blk_size - length (inode_table is ls)))

-- The padding of what was written to a whole block.
abbrev pub padding : ℕ → ℕ
padding written = if written % blk_size == 0 then 0 else blk_size - written % blk_size

-- One inode's data, when its size is not 0: the bytes, and an error that ends the writing.
abbrev copied : Source → ℕ → Bytes × Option ErofsError
copied refused size = ([], some open_failed)
copied (yields b failed) size =
    if failed
    then (b, some read_failed)
    else if length b == size
    then (b ++ zeros (padding (length b)), none)
    else (b, some size_drifted)

unfoldable pub data_of : (Bytes → Source) → Payload → ℕ → Bytes × Option ErofsError
data_of store (ready b) size = (b ++ zeros (padding (length b)), none)
data_of store (body ref) size = copied (store ref) size

-- The loop over the inodes, from what was written before.
abbrev then_data :
    Bytes × Option ErofsError
    → (Bytes → Bytes × Option ErofsError)
    → Bytes
    → Bytes × Option ErofsError
then_data (b, some e) rest out = (out ++ b, some e)
then_data (b, none) rest out = rest (out ++ b)

unfoldable pub write_data : (Bytes → Source) → List Laid → Bytes → Bytes × Option ErofsError
unfolding data_of
write_data store [] out = (out, none)
write_data store (l ∷ ls) out = elim (l.size == 0) [
  | true ↦ write_data store ls out
  | false ↦ then_data (data_of store l.payload l.size) (write_data store ls) out
]

-- WriteErofs
unfoldable pub write_laid :
    (Bytes → Source) → ℕ → List Inode → Option (List Laid) → Bytes × Option ErofsError
unfolding image_head write_data too_large
write_laid store build_time is none = ([], some name_too_long)
write_laid store build_time is (some ls) =
    if too_large ls
    then ([], some file_too_large)
    else write_data store ls (image_head build_time is ls)

unfoldable pub write_erofs : Node → (Bytes → Source) → ℕ → Bytes × Option ErofsError
unfolding write_laid all_inodes lay_inodes
write_erofs root store build_time =
    let is = all_inodes root in write_laid store build_time is (lay_inodes (first_data is) is)
