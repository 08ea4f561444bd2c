-- ===== src/Oci/Rootfs.antt =====
-- internal/oci/unpack.go: the root tree that an image's layers build. A node's children are an
-- association list in which `put` keeps each name once; no two nodes of a tree share a child, so
-- updating a copy is updating in place.
pub mod Paths
pub mod Apply
pub mod Entries
pub mod Lookup
pub mod Layers
pub mod Sound
use tacklebox.Common.{
  ℕ, Bytes, List, [], ◌∷◌, Bool, true, false, Option, some, none, bytes_eq, if◌then◌else◌,
}

pub data NodeType : Type 0 where
  dir file symlink hardlink char block fifo : NodeType

-- The fields of `Node` but its children.
pub record Attrs : Type 0 where
  pub kind : NodeType
  pub mode : ℕ
  pub uid : ℕ
  pub gid : ℕ
  pub size : ℕ
  pub ref : Bytes
  pub target : Bytes
  pub devmajor : ℕ
  pub devminor : ℕ
  pub xattrs : List (Bytes × Bytes)

mutual
  pub data Node : Type 0 where
    node : Attrs → Children → Node

  pub data Children : Type 0 where
    nil : Children
    cons : Bytes → Node → Children → Children

abbrev pub attrs : Node → Attrs
attrs (node a es) = a

abbrev pub children : Node → Children
children (node a es) = es

abbrev pub is_dir : NodeType → Bool
is_dir dir = true
is_dir _ = false

-- n.Children[name]
unfoldable pub get : Bytes → Children → Option Node
get k nil = none
get k (cons j n es) = if bytes_eq j k then some n else get k es

-- n.Children[name] = c
unfoldable pub put : Bytes → Node → Children → Children
put k c nil = cons k c nil
put k c (cons j n es) = if bytes_eq j k then cons k c es else cons j n (put k c es)

-- delete(n.Children, name)
unfoldable pub delete : Bytes → Children → Children
delete k nil = nil
delete k (cons j n es) = let rest = delete k es in if bytes_eq j k then rest else cons j n rest

-- &Node{Type: TypeDir, Mode: 0o755, …}
abbrev pub plain : NodeType → ℕ → Attrs
plain kind mode = record {
  kind = kind;
  mode = mode;
  uid = 0;
  gid = 0;
  size = 0;
  ref = [];
  target = [];
  devmajor = 0;
  devminor = 0;
  xattrs = [];
}

abbrev pub empty_root : Node
empty_root = node (plain dir 0o755) nil

-- Lookup, on the components of the path.
unfoldable pub lookup_parts : Node → List Bytes → Option Node
lookup_parts n [] = some n
lookup_parts (node a es) (p ∷ ps) = elim (get p es) [
  | none ↦ none
  | some c ↦ if is_dir a.kind then lookup_parts c ps else none
]
