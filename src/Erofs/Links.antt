-- ===== src/Erofs/Links.antt =====
-- WriteErofs of internal/purefs/erofs.go: hard links, link counts, and the sizes and payloads of inodes.
pub mod Numbered
pub mod Tree
pub mod Walk
use tacklebox.Common.{
  ℕ, zero, suc, ◌+◌, ◌-◌, ◌*◌, ◌/◌, ◌%◌, Bytes, List, [], ◌∷◌, ◌++◌, Bool, true, false, not, Option,
  some, none, codes, length, u32, bytes_eq, ltb, ◌==◌, if◌then◌else◌,
}
use tacklebox.Oci.Rootfs.{NodeType, Attrs, Node, is_dir}
use tacklebox.Erofs.Dirents.{Ent, pack_dirents}
use tacklebox.Erofs.Inodes.{Child, linked, hard, Mirrored, is_hardlink, sort_node, mirror}

-- byPath
unfoldable pub by_path : Bytes → List Mirrored → Option Mirrored
by_path p [] = none
by_path p (m ∷ ms) = if bytes_eq m.path p then some m else by_path p ms

-- The loop over the hops; `none` drops the link.
unfoldable pub resolve : ℕ → List Mirrored → Bytes → Option (ℕ × NodeType)
unfolding by_path
resolve zero ms target = none
resolve (suc hops) ms target = elim (by_path target ms) [
  | none ↦ none
  | some t ↦
      if is_hardlink t.attrs.kind
      then resolve hops ms t.attrs.target
      else if is_dir t.attrs.kind
      then none
      else some (t.nid, t.attrs.kind)
]

abbrev pub max_hops : ℕ
max_hops = 8

-- linkHard, for the children of one directory.
abbrev add_link :
    Bytes → Option (ℕ × NodeType) → List (Bytes × ℕ × NodeType) → List (Bytes × ℕ × NodeType)
add_link k none rest = rest
add_link k (some (n, t)) rest = (k, n, t) ∷ rest

unfoldable pub link_hard : List Mirrored → List (Bytes × Child) → List (Bytes × ℕ × NodeType)
unfolding resolve
link_hard ms [] = []
link_hard ms ((k, linked n t) ∷ cs) = (k, n, t) ∷ link_hard ms cs
link_hard ms ((k, hard target) ∷ cs) = add_link k (resolve max_hops ms target) (link_hard ms cs)

-- inode, with its children resolved.
pub record Inode : Type 0 where
  pub nid : ℕ
  pub parent : ℕ
  pub attrs : Attrs
  pub children : List (Bytes × ℕ × NodeType)

unfoldable pub inode_of : List Mirrored → Mirrored → Inode
unfolding link_hard
inode_of ms m = record {
  nid = m.nid;
  parent = m.parent;
  attrs = m.attrs;
  children = link_hard ms m.children;
}

unfoldable pub inodes_of : List Mirrored → List Mirrored → List Inode
unfolding inode_of
inodes_of ms [] = []
inodes_of ms (r ∷ rs) = inode_of ms r ∷ inodes_of ms rs

-- The first pass over a root.
unfoldable pub all_inodes : Node → List Inode
unfolding inodes_of
all_inodes root = let ms = mirror [] 0 0 (sort_node root) in inodes_of ms ms

-- nlink: of a directory two and one for each subdirectory, of any other the entries that name it.
unfoldable pub subdirs : List (Bytes × ℕ × NodeType) → ℕ
subdirs [] = 0
subdirs ((k, n, t) ∷ cs) = if is_dir t then suc (subdirs cs) else subdirs cs

unfoldable pub references : ℕ → List (Bytes × ℕ × NodeType) → ℕ
references nid [] = 0
references nid ((k, n, t) ∷ cs) =
    let rest = references nid cs in if is_dir t then rest else if n == nid then suc rest else rest

unfoldable pub all_references : ℕ → List Inode → ℕ
unfolding references
all_references nid [] = 0
all_references nid (i ∷ is) =
    (if is_dir i.attrs.kind then references nid i.children else 0) + all_references nid is

abbrev at_least_one : ℕ → ℕ
at_least_one n = if n == 0 then 1 else n

unfoldable pub nlink_of : List Inode → Inode → ℕ
unfolding subdirs all_references
nlink_of is i =
    if is_dir i.attrs.kind then 2 + subdirs i.children else at_least_one (all_references i.nid is)

-- ftByType; a type without an entry is 0.
unfoldable pub ft_by_type : NodeType → ℕ
ft_by_type NodeType.file = 1
ft_by_type NodeType.dir = 2
ft_by_type NodeType.char = 3
ft_by_type NodeType.block = 4
ft_by_type NodeType.fifo = 5
ft_by_type NodeType.symlink = 7
ft_by_type NodeType.hardlink = 0

unfoldable pub dir_ents : List (Bytes × ℕ × NodeType) → List Ent
unfolding ft_by_type
dir_ents [] = []
dir_ents ((k, n, t) ∷ cs) = record { name = k; nid = n; ft = ft_by_type t } ∷ dir_ents cs

-- What is written for an inode: bytes that are at hand, or the body of a file.
pub data Payload : Type 0 where
  ready : Bytes → Payload
  body : Bytes → Payload

-- Sizes + payloads; `none` is a name that is too long.
abbrev pub packed_payload : Option (Bytes × ℕ) → Option (Payload × ℕ)
packed_payload none = none
packed_payload (some (b, size)) = some (ready b, size)

unfoldable pub payload_by : NodeType → Inode → Option (Payload × ℕ)
unfolding dir_ents
payload_by NodeType.dir i = packed_payload (pack_dirents i.nid i.parent (dir_ents i.children))
payload_by NodeType.file i = some (body i.attrs.ref, i.attrs.size)
payload_by NodeType.symlink i = some (ready i.attrs.target, length i.attrs.target)
payload_by _ i = some (ready [], 0)

-- An inode with its payload, size and first block, a uint32.
pub record Laid : Type 0 where
  pub inode : Inode
  pub payload : Payload
  pub size : ℕ
  pub blk_addr : ℕ

abbrev pub blocks_of : ℕ → ℕ
blocks_of size = (size + 4095) / 4096

abbrev pub laid_at : ℕ → Inode → Payload → ℕ → Laid
laid_at next i p size = record {
  inode = i;
  payload = p;
  size = size;
  blk_addr = if size == 0 then 0 else next;
}

abbrev pub laid_onto : Laid → Option (List Laid) → Option (List Laid)
laid_onto l none = none
laid_onto l (some ls) = some (l ∷ ls)

abbrev pub lay_one :
    ℕ → Inode → Option (Payload × ℕ) → (ℕ → Option (List Laid)) → Option (List Laid)
lay_one next i none rest = none
lay_one next i (some (p, size)) rest =
    laid_onto (laid_at next i p size) (rest (u32 (next + blocks_of size)))

-- Layout, from the block `next` on: only an inode with a size gets blocks.
unfoldable pub lay_inodes : ℕ → List Inode → Option (List Laid)
unfolding payload_by
lay_inodes next [] = some []
lay_inodes next (i ∷ is) = lay_one next i (payload_by i.attrs.kind i) (λ n. lay_inodes n is)

unfoldable pub end_block : ℕ → List Laid → ℕ
end_block next [] = next
end_block next (l ∷ ls) = end_block (u32 (next + blocks_of l.size)) ls
