-- ===== src/Erofs/Links/Tree.antt =====
-- The inodes of internal/purefs/erofs.go beside the tree they come from.
use tacklebox.Common.{
  ℕ, suc, ◌+◌, Bytes, List, [], ◌∷◌, ◌++◌, ◌≡◌, ◌⊎◌, refl, sym, ap, ◌∙◌, true, false, Bool-cases,
  inl, inr, arith, some, none, Option-cases, length, length-append, append_assoc, append-nil,
  get_elem?, get_elem?-append,
}
use tacklebox.Oci.Rootfs.{NodeType, Attrs, Node, node, Children, nil, cons, is_dir, attrs}
use tacklebox.Erofs.Inodes.{
  Mirrored, is_hardlink, sort_node, join_path, count_inodes, direct, mirror, mirror_children,
}
use tacklebox.Erofs.Links.{
  by_path, resolve, max_hops, add_link, link_hard, Inode, inode_of, inodes_of, all_inodes,
}
use tacklebox.Erofs.Links.Numbered.{
  AreNumbered, length-mirror, mirror-AreNumbered, get_elem?-inodes_of, by_path-place,
}

-- Nothing but a directory stands at the path.
abbrev HasNoTarget : List Mirrored → Bytes → Type 0
HasNoTarget ms target =
    (by_path target ms ≡ none)
    ⊎ ((m : Mirrored) × (by_path target ms ≡ some m) × (is_dir m.attrs.kind ≡ true))

-- An inode that is not a directory stands at the path.
abbrev LeadsTo : List Mirrored → List Inode → Bytes → ℕ → NodeType → Type 0
LeadsTo ms is target n t =
    (m : Mirrored) × (by_path target ms ≡ some m)
    × (get_elem? is n ≡ some (inode_of ms m))
    × (m.attrs.kind ≡ t)
    × (is_dir t ≡ false)

-- An inode stands for a node, and the entries of a directory for its children: the same attributes in the
-- same order; a hard link names the inode at its target, or is left out without one.
mutual
  pub data Represents (ms : List Mirrored) (is : List Inode) : ℕ → ℕ → Node → Type 0 where
    leaf :
        {nid parent : ℕ} {a : Attrs} {es : Children}
        → is_dir a.kind ≡ false
        → get_elem? is nid ≡ some (record { nid = nid; parent = parent; attrs = a; children = [] })
        → Represents ms is nid parent (node a es)
    directory :
        {nid parent : ℕ} {a : Attrs} {es : Children} {cs : List (Bytes × ℕ × NodeType)}
        → is_dir a.kind ≡ true
        → get_elem? is nid ≡ some (record { nid = nid; parent = parent; attrs = a; children = cs })
        → AllRepresented ms is nid cs es
        → Represents ms is nid parent (node a es)

  pub data AllRepresented (ms : List Mirrored) (is : List Inode)
      : ℕ → List (Bytes × ℕ × NodeType) → Children → Type 0 where
    done : {parent : ℕ} → AllRepresented ms is parent [] nil
    child :
        {parent n : ℕ} {k : Bytes} {a : Attrs} {es rest : Children}
        {cs : List (Bytes × ℕ × NodeType)}
        → is_hardlink a.kind ≡ false
        → Represents ms is n parent (node a es)
        → AllRepresented ms is parent cs rest
        → AllRepresented ms is parent ((k, n, a.kind) ∷ cs) (cons k (node a es) rest)
    link :
        {parent n : ℕ} {t : NodeType} {k : Bytes} {a : Attrs} {es rest : Children}
        {cs : List (Bytes × ℕ × NodeType)}
        → is_hardlink a.kind ≡ true
        → LeadsTo ms is a.target n t
        → AllRepresented ms is parent cs rest
        → AllRepresented ms is parent ((k, n, t) ∷ cs) (cons k (node a es) rest)
    dropped :
        {parent : ℕ} {k : Bytes} {a : Attrs} {es rest : Children} {cs : List (Bytes × ℕ × NodeType)}
        → is_hardlink a.kind ≡ true
        → HasNoTarget ms a.target
        → AllRepresented ms is parent cs rest
        → AllRepresented ms is parent cs (cons k (node a es) rest)

-- A hard link is resolved in one hop, or not at all.
resolve_lem :
    (hops : ℕ) (ms : List Mirrored) (target : Bytes)
    → AreNumbered 0 ms
    → ((resolve (suc hops) ms target ≡ none) × HasNoTarget ms target)
      ⊎ ((m : Mirrored) × (by_path target ms ≡ some m)
          × (is_dir m.attrs.kind ≡ false)
          × (resolve (suc hops) ms target ≡ some (m.nid, m.attrs.kind)))
unfolding resolve
resolve_lem hops ms target a = elim (Option-cases (by_path target ms)) [
  | inl q ↦ inl (rw (q, resolve) refl, inl q)
  | inr (m, q) ↦
      let (_, _, _, plain) = by_path-place target 0 ms a q in
      elim (Bool-cases (is_dir m.attrs.kind)) [
        | inl y ↦ inl (rw (q, plain, y, resolve) refl, inr (m, q, y))
        | inr n ↦ inr (m, q, n, rw (q, plain, n, resolve) refl)
      ]
]

module _ (ms : List Mirrored) (numbered : AreNumbered 0 ms) where
  add_link-AllRepresented :
      (parent : ℕ) (k : Bytes) (a : Attrs) (es rest : Children) (cs : List (Bytes × ℕ × NodeType))
      → is_hardlink a.kind ≡ true
      → AllRepresented ms (inodes_of ms ms) parent cs rest
      → AllRepresented ms
          (inodes_of ms ms)
          parent
          (add_link k (resolve max_hops ms a.target) cs)
          (cons k (node a es) rest)
  add_link-AllRepresented parent k a es rest cs h others =
      elim (resolve_lem 7 ms a.target numbered) [
        | inl (q, nothing) ↦ rw q (dropped h nothing others)
        | inr (m, found, d, q) ↦
            let (i, at, there, _) = by_path-place a.target 0 ms numbered found in
            let place : get_elem? (inodes_of ms ms) m.nid ≡ some (inode_of ms m) =
              ap (get_elem? (inodes_of ms ms)) (omega (arith, at))
              ∙ get_elem?-inodes_of ms ms i there in
            rw q (link h (m, found, place, refl, d) others)
      ]

  -- The place of what follows.
  at_place :
      (pre rest : List Mirrored) (m : Mirrored) (nid : ℕ)
      → length pre ≡ nid
      → ms ≡ pre ++ (m ∷ rest)
      → get_elem? (inodes_of ms ms) nid ≡ some (inode_of ms m)
  at_place pre rest m nid l e = get_elem?-inodes_of ms ms nid (
      ap (λ t. get_elem? t nid) e
      ∙ ap (get_elem? (pre ++ (m ∷ rest))) (sym l)
      ∙ get_elem?-append pre m rest)

  mutual
    unfolding mirror mirror_children direct link_hard inode_of

    mirror-Represents :
        (pre post : List Mirrored) (path : Bytes) (parent nid : ℕ) (n : Node)
        → length pre ≡ nid
        → ms ≡ pre ++ (mirror path parent nid n ++ post)
        → Represents ms (inodes_of ms ms) nid parent n
    mirror-Represents pre post path parent nid (node a es) l e = elim (Bool-cases (is_dir a.kind)) [
      | inl y ↦
          let m : Mirrored = record {
            path = path;
            nid = nid;
            parent = parent;
            attrs = a;
            children = direct (suc nid) es;
          } in
          let below = mirror_children path nid (suc nid) es in
          let made : mirror path parent nid (node a es) ≡ m ∷ below = rw y refl in
          let e' : ms ≡ pre ++ (m ∷ (below ++ post)) = e ∙ ap (λ t. pre ++ (t ++ post)) made in
          directory y (at_place pre (below ++ post) m nid l e') (
            children-AllRepresented (pre ++ (m ∷ [])) post path nid (suc nid) es
              (omega (arith, l, length-append pre (m ∷ [])))
              (e' ∙ sym (append_assoc pre (m ∷ []) (below ++ post))))
      | inr n ↦
          let m : Mirrored = record {
            path = path;
            nid = nid;
            parent = parent;
            attrs = a;
            children = [];
          } in
          let made : mirror path parent nid (node a es) ≡ m ∷ [] = rw n refl in
          leaf n (at_place pre post m nid l (e ∙ ap (λ t. pre ++ (t ++ post)) made))
    ]

    children-AllRepresented :
        (pre post : List Mirrored) (path : Bytes) (parent next : ℕ) (es : Children)
        → length pre ≡ next
        → ms ≡ pre ++ (mirror_children path parent next es ++ post)
        → AllRepresented ms (inodes_of ms ms) parent (link_hard ms (direct next es)) es
    children-AllRepresented pre post path parent next nil l e = done
    children-AllRepresented pre post path parent next (cons k (node a es) rest) l e =
        elim (Bool-cases (is_hardlink a.kind)) [
          | inl y ↦
              let others = mirror_children path parent next rest in
              let made : mirror_children path parent next (cons k (node a es) rest) ≡ others =
                rw y refl in
              rw y (
                add_link-AllRepresented parent k a es rest (link_hard ms (direct next rest)) y (
                  children-AllRepresented pre post path parent next rest l
                    (e ∙ ap (λ t. pre ++ (t ++ post)) made)))
          | inr n ↦
              let size = count_inodes (node a es) in
              let first = mirror (join_path path k) parent next (node a es) in
              let others = mirror_children path parent (next + size) rest in
              let made : mirror_children path parent next (cons k (node a es) rest)
                  ≡ first ++ others =
                rw n refl in
              let e' : ms ≡ pre ++ (first ++ (others ++ post)) =
                e
                ∙ ap (λ t. pre ++ (t ++ post)) made
                ∙ ap (λ t. pre ++ t) (append_assoc first others post) in
              rw n (
                child n
                  (mirror-Represents pre (others ++ post) (join_path path k) parent next (node a es)
                    l e')
                  (children-AllRepresented (pre ++ first) post path parent (next + size) rest
                    (omega (
                      arith,
                      l,
                      length-append pre first,
                      length-mirror (join_path path k) parent next (node a es),
                    ))
                    (e' ∙ sym (append_assoc pre first (others ++ post)))))
        ]

-- The inodes of a tree whose root is no hard link represent the tree with its directories in the order of
-- their names, from the root at 0: each inode is at its nid and has the attributes of its node and the nid
-- of its parent; the entries of a directory are its children in that order; a hard link names the inode of
-- what stands at its target, or is left out where nothing but a directory does.
pub all_inodes-Represents :
    (root : Node)
    → is_hardlink (attrs root).kind ≡ false
    → Represents (mirror [] 0 0 (sort_node root)) (all_inodes root) 0 0 (sort_node root)
unfolding all_inodes sort_node
all_inodes-Represents (node a es) h =
    let root = sort_node (node a es) in
    let ms = mirror [] 0 0 root in
    mirror-Represents ms (mirror-AreNumbered [] 0 0 root h) [] [] [] 0 0 root refl
      (sym (append-nil ms))
