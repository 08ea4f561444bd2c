-- ===== src/Tests/Rootfs.antt =====
-- Layers applied to a small root.
use tacklebox.Common.{
  ℕ, suc, Bytes, List, [], ◌∷◌, ◌≡◌, refl, Bool, false, codes, Option, some, length, bytes_eq,
  cut_prefix, decimal,
}
use tacklebox.Oci.Rootfs.{
  Node, node, children, Children, nil, cons, get, put, delete, Attrs, plain, NodeType,
}
use tacklebox.Oci.Rootfs.Paths.{split_clean}
use tacklebox.Oci.Rootfs.Apply.{
  dir_at, TypeFlag, Header, PutBody, opaque_dir, entry, marker_of, in_parent, merged_dir,
  apply_typed, apply_marked, apply_parts, apply_entry, apply_layer, apply_layers, unpack, xattrs_of,
  trim_slashes, apply_root,
}
use tacklebox.Oci.Rootfs.Lookup.{parent_children}
use tacklebox.Oci.Rootfs.Sound.{SoundResult, unpack-SoundResult}

-- A store that numbers its bodies.
abbrev pub count_bodies : PutBody ℕ
count_bodies n body = some ((decimal n, length body), suc n)

abbrev pub all_paths : Bytes → Bool
all_paths path = false

abbrev pub header : Bytes → TypeFlag → Header
header name typeflag = record {
  name = name;
  typeflag = typeflag;
  mode = 420;
  uid = 0;
  gid = 0;
  linkname = [];
  devmajor = 0;
  devminor = 0;
  pax_records = [];
}

abbrev pub hosts : List (Header × Bytes)
hosts =
    (header (codes "etc") TypeFlag.dir, [])
    ∷ (header (codes "./etc//hosts") TypeFlag.reg, codes "localhost")
    ∷ (header (codes "../etc/os") TypeFlag.reg, codes "x")
    ∷ []

abbrev pub removes_hosts : List (Header × Bytes)
removes_hosts = (header (codes "etc/.wh.hosts") TypeFlag.reg, []) ∷ []

-- The paths that are left after both layers.
abbrev pub two_layers : Node
two_layers = node (plain NodeType.dir 0o755) (
    cons (codes "etc")
      (node (plain NodeType.dir 420) (
        cons (codes "os")
          (node (record (plain NodeType.file 420) { ref = codes "1"; size = 1 }) nil) nil))
      nil)

pub unpacked : unpack count_bodies all_paths (hosts ∷ removes_hosts ∷ []) 0 ≡ some (two_layers, 2)
unfolding unpack apply_layers apply_layer apply_entry apply_parts apply_marked apply_typed
    apply_root in_parent marker_of split_clean get put delete xattrs_of bytes_eq cut_prefix decimal
    trim_slashes merged_dir
unpacked = refl

unpack-SoundResult_example :
    SoundResult (unpack count_bodies all_paths (hosts ∷ removes_hosts ∷ []) 0)
unpack-SoundResult_example =
    unpack-SoundResult count_bodies all_paths (hosts ∷ removes_hosts ∷ []) 0

abbrev root_attrs : Attrs
root_attrs = plain NodeType.dir 0o755

abbrev inside : Children
inside = cons (codes "hosts") (node (plain NodeType.file 420) nil) nil

abbrev tree : Children
tree = cons (codes "etc") (node root_attrs inside) nil

abbrev root : Node
root = node root_attrs tree

etc_opaque : split_clean (codes "./etc/.wh..wh..opq") ≡ codes "etc" ∷ codes ".wh..wh..opq" ∷ []
unfolding split_clean bytes_eq
etc_opaque = refl

is_opaque : marker_of (codes ".wh..wh..opq") ≡ opaque_dir
unfolding marker_of bytes_eq cut_prefix
is_opaque = refl

is_etc_entry : marker_of (codes "etc") ≡ entry
unfolding marker_of bytes_eq cut_prefix
is_etc_entry = refl

abbrev apply : Bytes → TypeFlag → Bytes → Option (Node × ℕ)
apply name typeflag body = apply_entry count_bodies all_paths (header name typeflag) body root 0

abbrev deep : Node
deep = node root_attrs (cons (codes "usr") (node root_attrs tree) nil)

usr_etc : split_clean (codes "usr/etc/") ≡ codes "usr" ∷ codes "etc" ∷ []
unfolding split_clean bytes_eq
usr_etc = refl

usr_etc_there :
    get (codes "etc") (parent_children (codes "usr" ∷ codes "etc" ∷ []) (children deep))
    ≡ some (node root_attrs inside)
unfolding get bytes_eq dir_at
usr_etc_there = refl
