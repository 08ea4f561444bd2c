-- ===== src/Oci/Rootfs/Apply.antt =====
-- `applyEntry` and what it calls: one tar entry applied to the tree by the rules of OCI layers.
-- The blob store is a parameter: `put_body` stores a body and returns its reference and size, or
-- fails. A failing entry ends the layer, and the tree that it was applied to is not returned.
use tacklebox.Common.{
  ℕ, ◌++◌, Bytes, List, [], ◌∷◌, Bool, true, false, ◌&&◌, Option, some, none, codes, bytes_eq,
  cut_prefix, ◌==◌, reverse, if◌then◌else◌,
}
use tacklebox.Oci.Rootfs.{
  NodeType, Attrs, Node, node, Children, nil, attrs, children, is_dir, get, put, delete, plain,
  empty_root,
}
use tacklebox.Oci.Rootfs.Paths.{split_clean}

pub data TypeFlag : Type 0 where
  dir reg symlink link char block fifo other : TypeFlag

pub record Header : Type 0 where
  pub name : Bytes
  pub typeflag : TypeFlag
  pub mode : ℕ
  pub uid : ℕ
  pub gid : ℕ
  pub linkname : Bytes
  pub devmajor : ℕ
  pub devminor : ℕ
  pub pax_records : List (Bytes × Bytes)

-- The blob store's state and its `Put`.
abbrev pub PutBody : Type 0 → Type 0
PutBody S = S → Bytes → Option ((Bytes × ℕ) × S)

-- The records "SCHILY.xattr.<name>".
unfoldable pub xattrs_of : List (Bytes × Bytes) → List (Bytes × Bytes)
xattrs_of [] = []
xattrs_of ((k, v) ∷ r) =
    let rest = xattrs_of r in
    elim (cut_prefix k (codes "SCHILY.xattr.")) [ some s ↦ (s, v) ∷ rest | none ↦ rest ]

-- The child that `dirOf` goes on in: what is there if it is a directory, a new directory if not.
unfoldable pub dir_at : Option Node → Node
dir_at none = node (plain NodeType.dir 0o755) nil
dir_at (some (node a es)) = if is_dir a.kind then node a es else node (plain NodeType.dir 0o755) nil

-- dirOf, with what is then done to the parent's children at the last component.
unfoldable pub in_parent : (Bytes → Children → Children) → List Bytes → Children → Children
unfolding dir_at
in_parent f [] es = es
in_parent f (p ∷ []) es = f p es
in_parent f (p ∷ q ∷ r) es =
    let c = dir_at (get p es) in put p (node (attrs c) (in_parent f (q ∷ r) (children c))) es

abbrev pub at_root : (Bytes → Children → Children) → List Bytes → Node → Node
at_root f parts (node a es) = node a (in_parent f parts es)

abbrev pub last_part : List Bytes → Bytes
last_part [] = []
last_part (p ∷ []) = p
last_part (p ∷ q ∷ r) = last_part (q ∷ r)

abbrev pub opaque_marker : Bytes
opaque_marker = codes ".wh..wh..opq"

-- What the name of an entry says: an opaque marker, a whiteout of a name, or an entry.
pub data Marker : Type 0 where
  opaque_dir : Marker
  whiteout : Bytes → Marker
  entry : Marker

unfoldable pub marker_of : Bytes → Marker
marker_of name =
    if bytes_eq name opaque_marker
    then opaque_dir
    else elim (cut_prefix name (codes ".wh.")) [ some s ↦ whiteout s | none ↦ entry ]

-- The fields that every kind of node takes from the header.
abbrev pub base_attrs : Header → NodeType → Attrs
base_attrs h kind = record (plain kind h.mode) {
  uid = h.uid;
  gid = h.gid;
  xattrs = xattrs_of h.pax_records;
}

abbrev if_any : List (Bytes × Bytes) → List (Bytes × Bytes) → List (Bytes × Bytes)
if_any [] old = old
if_any (x ∷ xs) old = x ∷ xs

-- A directory that is there keeps its children; its extended attributes change only if the
-- header has some.
unfoldable pub merged_dir : Header → Option Node → Node
merged_dir h none = node (base_attrs h NodeType.dir) nil
merged_dir h (some (node a es)) =
    if is_dir a.kind
    then node
        (record a {
          mode = h.mode;
          uid = h.uid;
          gid = h.gid;
          xattrs = if_any (xattrs_of h.pax_records) a.xattrs;
        })
        es
    else node (base_attrs h NodeType.dir) nil

-- path.Clean("/" + linkname)[1:]
unfoldable pub join_slash : List Bytes → Bytes
join_slash [] = []
join_slash (p ∷ []) = p
join_slash (p ∷ q ∷ r) = p ++ (b'/' ∷ join_slash (q ∷ r))

unfoldable pub link_target : Bytes → Bytes
unfolding join_slash
link_target linkname = join_slash (split_clean linkname)

abbrev leaf : Attrs → Bytes → Children → Children
leaf a name es = put name (node a nil) es

abbrev pub Change : Type 0
Change = Bytes → Children → Children

-- The file that a stored body becomes.
unfoldable pub stored_file : {S : Type 0} → Header → Option ((Bytes × ℕ) × S) → Option (Change × S)
stored_file h none = none
stored_file h (some ((ref, size), s)) =
    some (leaf (record (base_attrs h NodeType.file) { ref = ref; size = size }), s)

abbrev device : Header → NodeType → Attrs
device h kind = record (base_attrs h kind) { devmajor = h.devmajor; devminor = h.devminor }

module _ {S : Type 0} (put_body : PutBody S) where
  -- The switch on the type flag: what is done to the parent's children, and the store after it.
  unfoldable pub apply_typed : TypeFlag → Header → Bytes → S → Option (Change × S)
  unfolding stored_file link_target
  apply_typed dir h body s = some ((λ name es. put name (merged_dir h (get name es)) es), s)
  apply_typed reg h body s = stored_file h (put_body s body)
  apply_typed symlink h body s =
      some (leaf (record (base_attrs h NodeType.symlink) { target = h.linkname }), s)
  apply_typed link h body s =
      some (leaf (record (base_attrs h NodeType.hardlink) { target = link_target h.linkname }), s)
  apply_typed char h body s = some (leaf (device h NodeType.char), s)
  apply_typed block h body s = some (leaf (device h NodeType.block), s)
  apply_typed fifo h body s = some (leaf (base_attrs h NodeType.fifo), s)
  apply_typed other h body s = some ((λ name es. es), s)

-- strings.Trim(s, "/")
unfoldable pub trim_left : Bytes → Bytes
trim_left [] = []
trim_left (c ∷ s) = elim (c == b'/') [ true ↦ trim_left s | false ↦ c ∷ s ]

unfoldable pub trim_slashes : Bytes → Bytes
unfolding trim_left
trim_slashes s = reverse (trim_left (reverse (trim_left s)))

abbrev pub is_reg : TypeFlag → Bool
is_reg reg = true
is_reg _ = false

-- An entry for the root itself: a directory entry sets its mode and owner.
unfoldable pub apply_root : TypeFlag → Header → Node → Node
apply_root dir h (node a es) = node (record a { mode = h.mode; uid = h.uid; gid = h.gid }) es
apply_root _ h root = root

-- The tree after a change in the parent directory of a path.
unfoldable pub changed : {S : Type 0} → List Bytes → Node → Option (Change × S) → Option (Node × S)
changed parts root none = none
changed parts root (some (f, s)) = some (at_root f parts root, s)

infixl 5 ◌>>=◌
abbrev pub ◌>>=◌ {ℓ κ} : {A : Type ℓ} {B : Type κ} → Option A → (A → Option B) → Option B
none >>= f = none
some a >>= f = f a

module _ {S : Type 0} (put_body : PutBody S) where
  -- What is done at the last component, by the marker that it is.
  unfoldable pub apply_marked : Marker → Header → Bytes → S → Option (Change × S)
  apply_marked opaque_dir h body s = some ((λ name es. nil), s)
  apply_marked (whiteout target) h body s = some ((λ name es. delete target es), s)
  apply_marked entry h body s = apply_typed put_body h.typeflag h body s

  unfoldable pub apply_parts : List Bytes → Header → Bytes → Node → S → Option (Node × S)
  unfolding changed
  apply_parts [] h body root s = some (apply_root h.typeflag h root, s)
  apply_parts (p ∷ ps) h body root s =
      changed (p ∷ ps) root (apply_marked (marker_of (last_part (p ∷ ps))) h body s)

  -- applyEntry; `skip` is the client's SkipBodies.
  unfoldable pub apply_entry : (Bytes → Bool) → Header → Bytes → Node → S → Option (Node × S)
  apply_entry skip h body root s =
      if is_reg h.typeflag && skip (trim_slashes h.name)
      then some (root, s)
      else apply_parts (split_clean h.name) h body root s

  -- The loop of applyLayerFiltered over the entries of a layer's tar stream.
  unfoldable pub apply_layer : (Bytes → Bool) → List (Header × Bytes) → Node → S → Option (Node × S)
  apply_layer skip [] root s = some (root, s)
  apply_layer skip ((h, body) ∷ r) root s =
      apply_entry skip h body root s >>= λ (root', s'). apply_layer skip r root' s'

  -- Unpack: the layers in order, from an empty root.
  unfoldable pub apply_layers :
      (Bytes → Bool) → List (List (Header × Bytes)) → Node → S → Option (Node × S)
  apply_layers skip [] root s = some (root, s)
  apply_layers skip (l ∷ ls) root s =
      apply_layer skip l root s >>= λ (root', s'). apply_layers skip ls root' s'

  unfoldable pub unpack : (Bytes → Bool) → List (List (Header × Bytes)) → S → Option (Node × S)
  unpack skip layers s = apply_layers skip layers empty_root s
