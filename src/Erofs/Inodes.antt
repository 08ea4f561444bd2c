-- ===== src/Erofs/Inodes.antt =====
-- WriteErofs of internal/purefs/erofs.go, first pass: the list of inodes. An inode is its place in that
-- list, its nid; a pointer to one is the nid. A directory's children are visited in the order of their
-- names, which is that of a tree that is sorted before.
use tacklebox.Common.{
  ℕ, suc, ◌+◌, Bytes, List, [], ◌∷◌, ◌++◌, Bool, true, false, codes, before, if◌then◌else◌,
}
use tacklebox.Oci.Rootfs.{NodeType, Attrs, Node, node, Children, nil, cons, is_dir}

abbrev pub is_hardlink : NodeType → Bool
is_hardlink NodeType.hardlink = true
is_hardlink _ = false

-- sort.Strings over the names of a directory's children.
unfoldable pub insert_child : Bytes → Node → Children → Children
insert_child k n nil = cons k n nil
insert_child k n (cons j m es) =
    let rest = insert_child k n es in if before k j then cons k n (cons j m es) else cons j m rest

unfoldable mutual
  unfolding insert_child

  pub sort_node : Node → Node
  sort_node (node a es) = node a (sort_children es)

  pub sort_children : Children → Children
  sort_children nil = nil
  sort_children (cons k n es) = insert_child k (sort_node n) (sort_children es)

-- path.Join of a cleaned path and a name.
abbrev pub join_path : Bytes → Bytes → Bytes
join_path [] name = name
join_path (c ∷ s) name = (c ∷ s) ++ (codes "/" ++ name)

-- A child of a directory: an inode, or a hard link that is not resolved yet.
pub data Child : Type 0 where
  linked : ℕ → NodeType → Child
  hard : Bytes → Child

-- inode, after `mirror`: node, nid, parent and children; and its path, the key of byPath.
pub record Mirrored : Type 0 where
  pub path : Bytes
  pub nid : ℕ
  pub parent : ℕ
  pub attrs : Attrs
  pub children : List (Bytes × Child)

-- How many inodes a tree has.
unfoldable mutual
  pub count_inodes : Node → ℕ
  count_inodes (node a es) = if is_dir a.kind then suc (count_children es) else 1

  pub count_children : Children → ℕ
  count_children nil = 0
  count_children (cons k (node a es) rest) =
      if is_hardlink a.kind
      then count_children rest
      else count_inodes (node a es) + count_children rest

-- The children of a directory whose inodes start at `next`.
unfoldable pub direct : ℕ → Children → List (Bytes × Child)
unfolding count_inodes
direct next nil = []
direct next (cons k (node a es) rest) =
    if is_hardlink a.kind
    then (k, hard a.target) ∷ direct next rest
    else (k, linked next a.kind) ∷ direct (next + count_inodes (node a es)) rest

-- mirror
unfoldable mutual
  unfolding count_inodes direct

  pub mirror : Bytes → ℕ → ℕ → Node → List Mirrored
  mirror path parent nid (node a es) =
      let below = mirror_children path nid (suc nid) es in
      if is_dir a.kind
      then record {
        path = path;
        nid = nid;
        parent = parent;
        attrs = a;
        children = direct (suc nid) es;
      }
        ∷ below
      else record { path = path; nid = nid; parent = parent; attrs = a; children = [] } ∷ []

  pub mirror_children : Bytes → ℕ → ℕ → Children → List Mirrored
  mirror_children path parent next nil = []
  mirror_children path parent next (cons k (node a es) rest) =
      let skip = mirror_children path parent next rest in
      let taken =
        mirror (join_path path k) parent next (node a es)
        ++ mirror_children path parent (next + count_inodes (node a es)) rest in
      if is_hardlink a.kind then skip else taken
