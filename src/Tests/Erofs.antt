-- ===== src/Tests/Erofs.antt =====
-- A root with one file, and the root of two layers.
use tacklebox.Common.{
  ◌^◌, ℕ, ◌<◌, Bytes, List, [], ◌∷◌, ◌≡◌, ◌≢◌, refl, some, none, false, before, codes, arith,
  length, take, ◌⊎◌, get_elem?, bytes_eq,
}
use tacklebox.Oci.Rootfs.{NodeType, Node, node, nil, cons, plain, attrs, get, lookup_parts}
use tacklebox.Iso.{Source, yields, zeros}
use tacklebox.Erofs.Dirents.{Ent, dir_list, pack_dirents}
use tacklebox.Erofs.Dirents.Blocks.{AreShort}
use tacklebox.Erofs.Dirents.Reader.{AreEnts, read_dir}
use tacklebox.Erofs.Dirents.RoundTrip.{read_dir-pack_dirents}
use tacklebox.Erofs.Inodes.{mirror, sort_node}
use tacklebox.Erofs.Links.{Inode, Laid, all_inodes, lay_inodes, dir_ents}
use tacklebox.Erofs.Links.Walk.{walk, walk-unpack}
use tacklebox.Erofs.Write.Succeeds.{AreBelow, HasHuge, AreReady, write_erofs-some}
use tacklebox.Tests.Rootfs.{count_bodies, all_paths, hosts, removes_hosts, two_layers, unpacked}
use tacklebox.Erofs.Write.{write_erofs, first_data, file_too_large}
use tacklebox.Erofs.Write.Stored.{Imaged, write_erofs-Imaged}

nonzero : {c : ℕ} → 0 < c → c ≢ 0
nonzero {c} h e = omega (arith, h, e)

abbrev two_ents : List Ent
two_ents =
    record { name = codes "usr"; nid = 3; ft = 2 }
    ∷ record { name = codes "etc"; nid = 1; ft = 2 }
    ∷ []

ents : AreEnts (dir_list 0 0 two_ents)
unfolding dir_list before
ents = (
  (nonzero (omega arith), tt),
  omega arith,
  (
    (nonzero (omega arith), (nonzero (omega arith), tt)),
    omega arith,
    (
      (nonzero (omega arith), (nonzero (omega arith), (nonzero (omega arith), tt))),
      omega arith,
      (
        (nonzero (omega arith), (nonzero (omega arith), (nonzero (omega arith), tt))),
        omega arith,
        tt,
      ),
    ),
  ),
)

short : AreShort (dir_list 0 0 two_ents)
unfolding dir_list before
short = (omega arith, (omega arith, (omega arith, (omega arith, tt))))

abbrev root : Node
root = node (plain NodeType.dir 0o755) (
    cons (codes "os")
      (node
        (record {
          kind = NodeType.file;
          mode = 0o644;
          uid = 0;
          gid = 0;
          size = 4;
          ref = codes "r";
          target = [];
          devmajor = 0;
          devminor = 0;
          xattrs = [];
        })
        nil)
      nil)

abbrev bodies : Bytes → Source
bodies ref = yields (codes "tuna") false

abbrev image : Bytes
image = (write_erofs root bodies 0).0

written : write_erofs root bodies 0 ≡ (image, none)
unfolding write_erofs mirror sort_node pack_dirents before
written = refl

read_dir-pack_dirents_example :
    (b : Bytes) × (size : ℕ) × (pack_dirents 0 0 two_ents ≡ some (b, size))
    × (read_dir (length (dir_list 0 0 two_ents)) (take size b) ≡ dir_list 0 0 two_ents)
read_dir-pack_dirents_example = read_dir-pack_dirents 0 0 two_ents ents short

image_short : length image < 2 ^ 44
unfolding write_erofs mirror sort_node pack_dirents before zeros
image_short = omega arith

write_erofs-Imaged_example : Imaged root bodies 0 image
write_erofs-Imaged_example = write_erofs-Imaged root bodies 0 image_short written

abbrev os_node : Node
os_node = node (record (plain NodeType.file 420) { ref = codes "1"; size = 1 }) nil

os_there : lookup_parts two_layers (codes "etc" ∷ codes "os" ∷ []) ≡ some os_node
unfolding lookup_parts get bytes_eq
os_there = refl

walk-unpack_example :
    (nid : ℕ) × (i : Inode) × (walk (all_inodes two_layers) 0 (codes "etc" ∷ codes "os" ∷ [])
      ≡ some nid)
    × (get_elem? (all_inodes two_layers) nid ≡ some i)
    × (i.attrs ≡ attrs os_node)
walk-unpack_example =
    walk-unpack count_bodies all_paths (hosts ∷ removes_hosts ∷ []) 0
      (codes "etc" ∷ codes "os" ∷ []) unpacked os_there refl

root_ready : AreReady bodies (all_inodes root)
unfolding all_inodes mirror sort_node before dir_list dir_ents
root_ready = ((omega arith, (omega arith, (omega arith, tt))), ((refl, refl), tt))

write_erofs-some_example :
    (ls : List Laid) × (lay_inodes (first_data (all_inodes root)) (all_inodes root) ≡ some ls)
    × ((AreBelow ls × (image : Bytes) × (write_erofs root bodies 0 ≡ (image, none)))
        ⊎ (HasHuge ls × (write_erofs root bodies 0 ≡ ([], some file_too_large))))
write_erofs-some_example = write_erofs-some root bodies 0 root_ready
