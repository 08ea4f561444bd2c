-- ===== src/Erofs/Links/Walk.antt =====
-- Paths in the inodes of internal/purefs/erofs.go lead to the nodes that the tree has there.
use tacklebox.Common.{
  ℕ, Bytes, List, [], ◌∷◌, ◌≡◌, refl, sym, ap, subst, ◌∙◌, Bool, true, false, Bool-cases, inl, inr,
  arith, Option, some, none, bytes_eq, bytes_eq_iff, before, get_elem?, if◌then◌else◌,
}
use mathlib.Core.Option
use tacklebox.Oci.Rootfs.{
  NodeType, Attrs, Node, node, Children, nil, cons, is_dir, attrs, children, get, lookup_parts,
}
use tacklebox.Oci.Rootfs.Entries.{step_into, lookup_parts-cons}
use tacklebox.Oci.Rootfs.Apply.{Header, PutBody, unpack}
use tacklebox.Oci.Rootfs.Sound.{SoundResult, unpack-SoundResult}
use tacklebox.Erofs.Inodes.{Mirrored, is_hardlink, sort_node, sort_children, insert_child, mirror}
use tacklebox.Erofs.Links.{Inode, all_inodes}
use tacklebox.Erofs.Links.Tree.{
  Represents, leaf, directory, AllRepresented, done, child, link, dropped, all_inodes-Represents,
}

-- How a reader follows a path: from directory to directory by the names of their entries.
unfoldable find_child : Bytes → List (Bytes × ℕ × NodeType) → Option ℕ
find_child k [] = none
find_child k ((j, n, t) ∷ cs) = if bytes_eq j k then some n else find_child k cs

abbrev next_by : (ℕ → Option ℕ) → Option ℕ → Option ℕ
next_by rest none = none
next_by rest (some n) = rest n

abbrev children_of : Option Inode → List (Bytes × ℕ × NodeType)
children_of none = []
children_of (some i) = i.children

unfoldable pub walk : List Inode → ℕ → List Bytes → Option ℕ
unfolding find_child
walk is nid [] = some nid
walk is nid (k ∷ ks) = next_by (λ n. walk is n ks) (find_child k (children_of (get_elem? is nid)))

before_refl : (s : Bytes) → before s s ≡ true
unfolding before
before_refl [] = refl
before_refl (c ∷ s) = ground (arith, before_refl s)

get-insert_child :
    (k j : Bytes) (n : Node) (es : Children)
    → get k (insert_child j n es) ≡ (if bytes_eq j k then some n else get k es)
unfolding get insert_child
get-insert_child k j n nil = refl
get-insert_child k j n (cons x m es) = elim (Bool-cases (before j x)) [
  | inl y ↦ rw y refl
  | inr f ↦
      let rest = get-insert_child k j n es in
      elim (Bool-cases (bytes_eq x k)) [
        | inl h ↦ elim (Bool-cases (bytes_eq j k)) [
          | inl e ↦
              let same : j ≡ x = (bytes_eq_iff j k).0 e ∙ sym ((bytes_eq_iff x k).0 h) in
              absurd (ground (arith, sym f ∙ ap (before j) (sym same) ∙ before_refl j))
          | inr e ↦ rw (f, h, e) refl
        ]
        | inr h ↦ rw (f, h) rest
      ]
]

get-sort_children :
    (k : Bytes) (es : Children) → get k (sort_children es) ≡ Option.map sort_node (get k es)
unfolding get sort_children
get-sort_children k nil = refl
get-sort_children k (cons j n es) =
    get-insert_child k j (sort_node n) (sort_children es)
    ∙ elim (Bool-cases (bytes_eq j k)) [ inl y ↦ rw y refl | inr f ↦ rw f (get-sort_children k es) ]

step_into-map :
    (b : Bool) (o : Option Node) (ps : List Bytes)
    → ((n : Node) → lookup_parts (sort_node n) ps ≡ Option.map sort_node (lookup_parts n ps))
    → step_into b (Option.map sort_node o) ps ≡ Option.map sort_node (step_into b o ps)
unfolding step_into
step_into-map b none ps h = refl
step_into-map true (some n) ps h = h n
step_into-map false (some n) ps h = refl

sort_node_lem : (a : Attrs) (es : Children) → sort_node (node a es) ≡ node a (sort_children es)
unfolding sort_node
sort_node_lem a es = refl

-- Sorting a tree moves nothing to another path.
lookup_parts-sort_node :
    (n : Node) (ps : List Bytes)
    → lookup_parts (sort_node n) ps ≡ Option.map sort_node (lookup_parts n ps)
lookup_parts-sort_node n [] = unfold lookup_parts in refl
lookup_parts-sort_node (node a es) (p ∷ ps) =
    ap (λ n. lookup_parts n (p ∷ ps)) (sort_node_lem a es)
    ∙ lookup_parts-cons a (sort_children es) p ps
    ∙ ap (λ o. step_into (is_dir a.kind) o ps) (get-sort_children p es)
    ∙ step_into-map (is_dir a.kind) (get p es) ps (λ n. lookup_parts-sort_node n ps)
    ∙ ap (Option.map sort_node) (sym (lookup_parts-cons a es p ps))

is_hardlink-dir : (t : NodeType) → is_dir t ≡ true → is_hardlink t ≡ false
is_hardlink-dir NodeType.hardlink h = absurd (ground (arith, h))
is_hardlink-dir NodeType.dir h = refl
is_hardlink-dir NodeType.file h = refl
is_hardlink-dir NodeType.symlink h = refl
is_hardlink-dir NodeType.char h = refl
is_hardlink-dir NodeType.block h = refl
is_hardlink-dir NodeType.fifo h = refl

nothing_below : (o : Option Node) (ps : List Bytes) → step_into false o ps ≡ none
unfolding step_into
nothing_below none ps = refl
nothing_below (some n) ps = refl

-- What is on the way to a node that is no hard link is none either.
lookup_parts-is_hardlink :
    (n : Node) (ps : List Bytes) {m : Node}
    → lookup_parts n ps ≡ some m
    → is_hardlink (attrs m).kind ≡ false
    → is_hardlink (attrs n).kind ≡ false
lookup_parts-is_hardlink n [] {m} h k =
    let e : n ≡ m = unfold lookup_parts in cc h in ap (λ x. is_hardlink (attrs x).kind) e ∙ k
lookup_parts-is_hardlink (node a es) (p ∷ ps) {m} h k = elim (Bool-cases (is_dir a.kind)) [
  | inl y ↦ is_hardlink-dir a.kind y
  | inr f ↦ absurd (
      cc (
        sym h
        ∙ lookup_parts-cons a es p ps
        ∙ ap (λ b. step_into b (get p es) ps) f
        ∙ nothing_below (get p es) ps))
]

module _ (k j : Bytes) where
  get_hit : (n : Node) (es : Children) → bytes_eq j k ≡ true → get k (cons j n es) ≡ some n
  unfolding get
  get_hit n es y = rw y refl

  get_miss : (n : Node) (es : Children) → bytes_eq j k ≡ false → get k (cons j n es) ≡ get k es
  unfolding get
  get_miss n es y = rw y refl

  find_hit :
      (n : ℕ) (t : NodeType) (cs : List (Bytes × ℕ × NodeType))
      → bytes_eq j k ≡ true
      → find_child k ((j, n, t) ∷ cs) ≡ some n
  unfolding find_child
  find_hit n t cs y = rw y refl

  find_miss :
      (n : ℕ) (t : NodeType) (cs : List (Bytes × ℕ × NodeType))
      → bytes_eq j k ≡ false
      → find_child k ((j, n, t) ∷ cs) ≡ find_child k cs
  unfolding find_child
  find_miss n t cs y = rw y refl

hard_found :
    {a : Attrs} {es : Children} {m : Node}
    → is_hardlink a.kind ≡ true
    → some (node a es) ≡ some m
    → is_hardlink (attrs m).kind ≡ false
    → ⊥
hard_found {a} {es} {m} x h f =
    let e : node a es ≡ m = cc h in
    ground (arith, sym x ∙ ap (λ z. is_hardlink (attrs z).kind) e ∙ f)

step_into-some_inv :
    (d : Bool) (o : Option Node) (ps : List Bytes) {m : Node}
    → step_into d o ps ≡ some m
    → (d ≡ true) × (c : Node) × (o ≡ some c) × (lookup_parts c ps ≡ some m)
unfolding step_into
step_into-some_inv true none ps h = absurd (cc h)
step_into-some_inv true (some c) ps h = (refl, c, refl, h)
step_into-some_inv false none ps h = absurd (cc h)
step_into-some_inv false (some c) ps h = absurd (cc h)

walk_cons :
    (is : List Inode) (nid : ℕ) (k : Bytes) (ks : List Bytes) {n : ℕ}
    → find_child k (children_of (get_elem? is nid)) ≡ some n
    → walk is nid (k ∷ ks) ≡ walk is n ks
unfolding walk
walk_cons is nid k ks e = ap (next_by (λ n. walk is n ks)) e

module _ (ms : List Mirrored) (is : List Inode) where
  -- The entry of a child leads to its inode.
  find_child-Represents :
      (k : Bytes) {p : ℕ} {cs : List (Bytes × ℕ × NodeType)} {es : Children} {m : Node}
      → AllRepresented ms is p cs es
      → get k es ≡ some m
      → is_hardlink (attrs m).kind ≡ false
      → (n : ℕ) × (find_child k cs ≡ some n) × Represents ms is n p m
  find_child-Represents k done h f = absurd (unfold get in cc h)
  find_child-Represents k (child {n = n} {k = j} {a = a} {es = es} {rest = rest} {cs = cs} x r all)
        h f =
      elim (Bool-cases (bytes_eq j k)) [
        | inl y ↦
            let e : node a es ≡ _ = cc (sym (get_hit k j (node a es) rest y) ∙ h) in
            (n, find_hit k j n a.kind cs y, subst (Represents ms is n _) e r)
        | inr z ↦
            let (m, found, q) =
              find_child-Represents k all (sym (get_miss k j (node a es) rest z) ∙ h) f in
            (m, find_miss k j n a.kind cs z ∙ found, q)
      ]
  find_child-Represents k
        (link {n = n} {t = t} {k = j} {a = a} {es = es} {rest = rest} {cs = cs} x r all) h f =
      elim (Bool-cases (bytes_eq j k)) [
        | inl y ↦ absurd (hard_found x (sym (get_hit k j (node a es) rest y) ∙ h) f)
        | inr z ↦
            let (m, found, q) =
              find_child-Represents k all (sym (get_miss k j (node a es) rest z) ∙ h) f in
            (m, find_miss k j n t cs z ∙ found, q)
      ]
  find_child-Represents k (dropped {k = j} {a = a} {es = es} {rest = rest} x r all) h f =
      elim (Bool-cases (bytes_eq j k)) [
        | inl y ↦ absurd (hard_found x (sym (get_hit k j (node a es) rest y) ∙ h) f)
        | inr z ↦ find_child-Represents k all (sym (get_miss k j (node a es) rest z) ∙ h) f
      ]

  Represents-children :
      {nid p : ℕ} {n : Node}
      → Represents ms is nid p n
      → is_dir (attrs n).kind ≡ true
      → (cs : List (Bytes × ℕ × NodeType)) × (children_of (get_elem? is nid) ≡ cs)
        × AllRepresented ms is nid cs (children n)
  Represents-children (leaf x g) d = absurd (ground (arith, sym x ∙ d))
  Represents-children (directory {cs = cs} x g all) d = (cs, ap children_of g, all)

  -- Each step of a path leads from a node's inode to its child's.
  walk-Represents :
      (nid p : ℕ) (n : Node) (ks : List Bytes) {m : Node}
      → Represents ms is nid p n
      → lookup_parts n ks ≡ some m
      → is_hardlink (attrs m).kind ≡ false
      → (i : ℕ) × (q : ℕ) × (walk is nid ks ≡ some i) × Represents ms is i q m
  walk-Represents nid p n [] {m} r h f =
      let e : n ≡ m = unfold lookup_parts in cc h in
      (nid, p, unfold walk in refl, subst (Represents ms is nid p) e r)
  walk-Represents nid p (node a es) (k ∷ ks) {m} r h f =
      let (d, c, there, below) =
        step_into-some_inv (is_dir a.kind) (get k es) ks (sym (lookup_parts-cons a es k ks) ∙ h) in
      let (cs, entries, all) = Represents-children r d in
      let (n, found, rn) =
        find_child-Represents k all there (lookup_parts-is_hardlink c ks below f) in
      let (i, q, walked, ri) = walk-Represents n nid c ks rn below f in
      (i, q, walk_cons is nid k ks (ap (find_child k) entries ∙ found) ∙ walked, ri)

Represents-inode :
    {ms : List Mirrored} {is : List Inode} {nid p : ℕ} {n : Node}
    → Represents ms is nid p n
    → (i : Inode) × (get_elem? is nid ≡ some i) × (i.attrs ≡ attrs n) × (i.nid ≡ nid)
Represents-inode (leaf x g) = (_, g, refl, refl)
Represents-inode (directory x g all) = (_, g, refl, refl)

attrs-sort_node : (n : Node) → attrs (sort_node n) ≡ attrs n
unfolding sort_node
attrs-sort_node (node a es) = refl

-- Where a tree whose root is no hard link has a node that is none either, the path leads through the
-- directories of its inodes, from the root at 0 on, to an inode with the attributes of that node.
walk-all_inodes :
    (root : Node) (parts : List Bytes) {n : Node}
    → is_hardlink (attrs root).kind ≡ false
    → lookup_parts root parts ≡ some n
    → is_hardlink (attrs n).kind ≡ false
    → (nid : ℕ) × (i : Inode) × (walk (all_inodes root) 0 parts ≡ some nid)
      × (get_elem? (all_inodes root) nid ≡ some i)
      × (i.attrs ≡ attrs n)
walk-all_inodes root parts {n} plain there h =
    let sorted : lookup_parts (sort_node root) parts ≡ some (sort_node n) =
      lookup_parts-sort_node root parts ∙ ap (Option.map sort_node) there in
    let (nid, p, walked, r) =
      walk-Represents (mirror [] 0 0 (sort_node root)) (all_inodes root) 0 0 (sort_node root) parts
        (all_inodes-Represents root plain) sorted
        (ap (λ a. is_hardlink a.kind) (attrs-sort_node n) ∙ h) in
    let (i, at, same, _) = Represents-inode r in (nid, i, walked, at, same ∙ attrs-sort_node n)

-- What the layers of an image put at a path, if it is no hard link, is what the inodes of the image's EROFS
-- lead to by that path: an inode with the attributes of that node.
pub walk-unpack :
    {S : Type 0} (put_body : PutBody S) (skip : Bytes → Bool)
    (layers : List (List (Header × Bytes))) (s : S) (parts : List Bytes) {root n : Node} {s' : S}
    → unpack put_body skip layers s ≡ some (root, s')
    → lookup_parts root parts ≡ some n
    → is_hardlink (attrs n).kind ≡ false
    → (nid : ℕ) × (i : Inode) × (walk (all_inodes root) 0 parts ≡ some nid)
      × (get_elem? (all_inodes root) nid ≡ some i)
      × (i.attrs ≡ attrs n)
walk-unpack put_body skip layers s parts {root} unpacked there h =
    let sound = subst SoundResult unpacked (unpack-SoundResult put_body skip layers s) in
    walk-all_inodes root parts (is_hardlink-dir (attrs root).kind sound.1) there h
