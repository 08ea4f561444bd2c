-- ===== src/Install/Diff.antt =====
-- internal/install/treediff.go: TreeDiff. A path is the list of its parts, below the roots of the
-- trees; the state of the loops is the entry of the delta that they work on. System calls succeed,
-- times are left out, and the delta is empty at first.
pub mod Names
pub mod Overlay
pub mod Copies
pub mod Steps
pub mod States
pub mod Leaves
pub mod Faithful
use tacklebox.Common.{
  ℕ, zero, suc, ◌+◌, Bytes, List, [], ◌∷◌, ◌++◌, Bool, true, false, ◌&&◌, Option, some, none,
  bytes_eq, one_name, before, ◌==◌, if◌then◌else◌,
}

pub data DeviceKind : Type 0 where
  block char fifo socket : DeviceKind

-- What sameMeta compares: the permissions, the bits of os.FileMode that set-uid, set-gid and sticky
-- stand for, and the owner.
pub record Meta : Type 0 where
  pub perm : ℕ
  pub bits : ℕ
  pub uid : ℕ
  pub gid : ℕ

mutual
  pub data Node : Type 0 where
    dir : Meta → Tree → Node
    link : ℕ → ℕ → Bytes → Node
    file : Meta → Bytes → Node
    device : DeviceKind → Meta → ℕ → Node

  pub data Tree : Type 0 where
    empty : Tree
    entry : Bytes → Node → Tree → Tree

abbrev pub TreePath : Type 0
TreePath = List Bytes

-- os.Lstat of a name in a directory.
unfoldable pub find : Bytes → Tree → Option Node
find k empty = none
find k (entry j n es) = if bytes_eq j k then some n else find k es

unfoldable pub set : Bytes → Node → Tree → Tree
set k c empty = entry k c empty
set k c (entry j n es) = if bytes_eq j k then entry k c es else entry j n (set k c es)

unfoldable pub unset : Bytes → Tree → Tree
unset k empty = empty
unset k (entry j n es) = let rest = unset k es in if bytes_eq j k then rest else entry j n rest

unfoldable pub set_to : Bytes → Option Node → Tree → Tree
unfolding set unset
set_to k none es = unset k es
set_to k (some c) es = set k c es

abbrev pub tree_of : Option Node → Tree
tree_of (some (dir m es)) = es
tree_of _ = empty

-- sameMeta
unfoldable pub same_meta : Meta → Meta → Bool
same_meta a b = (a.perm == b.perm && a.bits == b.bits) && (a.uid == b.uid && a.gid == b.gid)

-- applyMeta: os.Chmod gets Mode().Perm() only.
abbrev pub apply_meta : Meta → Meta
apply_meta m = record m { bits = 0 }

-- mkWhiteout
abbrev pub whiteout : Node
whiteout = device char (record { perm = 0; bits = 0; uid = 0; gid = 0 }) 0

-- What one name of a directory becomes in the delta; writing makes the parents first.
pub data Change : Type 0 where
  kept : Change
  wrote : Option Node → Change

abbrev pub changed : Option Node → Change
changed none = kept
changed (some n) = wrote (some n)

-- ensureParents, for the directory that is at work, whose metadata in the environment is `m`.
abbrev pub ensure : Meta → Option Node → Option Node
ensure m (some n) = some n
ensure m none = some (dir (apply_meta m) empty)

abbrev pub put_in : Bytes → Option Node → Option Node → Option Node
put_in k c (some (dir m es)) = some (dir m (set_to k c es))
put_in k c o = o

unfoldable pub at_name : Bytes → Change → Meta → Option Node → Option Node
unfolding set_to
at_name k kept m s = s
at_name k (wrote c) m s = put_in k c (ensure m s)

-- The set of names, and sort.Strings.
unfoldable pub add_name : Bytes → List Bytes → List Bytes
add_name k ks = if one_name k ks then ks else k ∷ ks

unfoldable pub add_names : Tree → List Bytes → List Bytes
unfolding add_name
add_names empty ks = ks
add_names (entry k n es) ks = add_names es (add_name k ks)

unfoldable pub insert_name : Bytes → List Bytes → List Bytes
insert_name k [] = k ∷ []
insert_name k (j ∷ ks) =
    let rest = insert_name k ks in if before k j then k ∷ (j ∷ ks) else j ∷ rest

unfoldable pub sort_names : List Bytes → List Bytes
unfolding insert_name
sort_names [] = []
sort_names (k ∷ ks) = insert_name k (sort_names ks)

unfoldable pub sorted_names : Tree → Tree → List Bytes
unfolding add_names sort_names
sorted_names bs es = sort_names (add_names es (add_names bs []))

-- The devices' parts of os.FileMode.Type().
abbrev pub same_kind : DeviceKind → DeviceKind → Bool
same_kind block block = true
same_kind char char = true
same_kind fifo fifo = true
same_kind socket socket = true
same_kind _ _ = false

module _ (excluded : TreePath → Bool) where
  unfoldable mutual
    -- copyEntry, with what the delta has at the path.
    pub copy_entry : TreePath → Node → Option Node → Option Node
    copy_entry rel (dir m es) old = some (dir (apply_meta m) (copy_all rel es (tree_of old)))
    copy_entry rel (link uid gid target) old = some (link uid gid target)
    copy_entry rel (file m content) old = some (file (apply_meta m) content)
    copy_entry rel (device socket m rdev) old = none
    copy_entry rel (device k m rdev) old = some (device k (apply_meta m) rdev)

    -- The loop over a directory's entries.
    pub copy_all : TreePath → Tree → Tree → Tree
    copy_all rel empty out = out
    copy_all rel (entry k n es) out =
        let path = rel ++ k ∷ [] in
        let copied = set_to k (copy_entry path n (find k out)) out in
        copy_all rel es (elim (excluded path) [ true ↦ out | false ↦ copied ])

  abbrev pub Recur : Type 0
  Recur = TreePath → Meta → Tree → Tree → Option Node → Option Node

  -- diffEntry; `recur` is diffDir on a directory of both trees.
  unfoldable pub diff_entry : Recur → TreePath → Node → Node → Option Node → Change
  unfolding copy_entry
  diff_entry recur rel (dir mb bs) (dir me es) old =
      changed (recur rel me bs es (if same_meta mb me then old else copy_entry rel (dir me es) old))
  diff_entry recur rel (link ub gb tb) (link ue ge te) old =
      if bytes_eq tb te && (ub == ue && gb == ge)
      then kept
      else wrote (copy_entry rel (link ue ge te) old)
  diff_entry recur rel (file mb cb) (file me ce) old =
      if same_meta mb me && bytes_eq cb ce then kept else wrote (copy_entry rel (file me ce) old)
  diff_entry recur rel (device kb mb rb) (device ke me re) old =
      if same_kind kb ke && (same_meta mb me && rb == re)
      then kept
      else wrote (copy_entry rel (device ke me re) old)
  diff_entry recur rel b e old = wrote (copy_entry rel e old)

  -- One name of diffDir. A name is in one of the trees at least, so the last case does not arise.
  unfoldable pub diff_name : Recur → TreePath → Option Node → Option Node → Option Node → Change
  unfolding diff_entry
  diff_name recur rel (some b) none old = wrote (some whiteout)
  diff_name recur rel none (some e) old = wrote (copy_entry rel e old)
  diff_name recur rel (some b) (some e) old = diff_entry recur rel b e old
  diff_name recur rel none none old = kept

  -- The loop over the sorted names.
  unfoldable pub diff_names :
      Recur → TreePath → Meta → Tree → Tree → List Bytes → Option Node → Option Node
  unfolding diff_name at_name
  diff_names recur rel m bs es [] s = s
  diff_names recur rel m bs es (k ∷ ks) s =
      let path = rel ++ k ∷ [] in
      let done =
        at_name k (diff_name recur path (find k bs) (find k es) (find k (tree_of s))) m s in
      diff_names recur rel m bs es ks (elim (excluded path) [ true ↦ s | false ↦ done ])

  -- diffDir, on fuel: one unit for each level.
  unfoldable pub diff_dir : ℕ → Recur
  unfolding diff_names
  diff_dir zero rel m bs es s = s
  diff_dir (suc n) rel m bs es s = diff_names (diff_dir n) rel m bs es (sorted_names bs es) s

unfoldable mutual
  pub count_node : Node → ℕ
  count_node (dir m es) = suc (count_tree es)
  count_node (link uid gid target) = 1
  count_node (file m content) = 1
  count_node (device k m rdev) = 1

  pub count_tree : Tree → ℕ
  count_tree empty = 0
  count_tree (entry k n es) = count_node n + count_tree es

-- os.MkdirAll(outDir, 0755)
abbrev pub out_root : Option Node
out_root = some (dir (record { perm = 0o755; bits = 0; uid = 0; gid = 0 }) empty)

-- TreeDiff: the delta between the roots of two trees.
unfoldable pub tree_diff : (TreePath → Bool) → Meta → Tree → Tree → Option Node
unfolding diff_dir
tree_diff excluded m bs es = diff_dir excluded (suc (count_tree bs)) [] m bs es out_root
