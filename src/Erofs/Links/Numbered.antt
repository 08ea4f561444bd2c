-- ===== src/Erofs/Links/Numbered.antt =====
-- The nids of internal/purefs/erofs.go are the places of the inodes.
use tacklebox.Common.{
  ℕ, zero, suc, ◌+◌, Bytes, List, [], ◌∷◌, ◌++◌, ◌≡◌, refl, sym, ap, subst, ◌∙◌, false, Bool-cases,
  inl, inr, arith, some, length, length-append, get_elem?, bytes_eq, if◌then◌else◌,
}
use tacklebox.Oci.Rootfs.{Node, node, Children, nil, cons, is_dir, attrs}
use tacklebox.Erofs.Inodes.{
  Mirrored, is_hardlink, join_path, count_inodes, count_children, mirror, mirror_children,
}
use tacklebox.Erofs.Links.{by_path, inode_of, inodes_of}

-- The nids are the places, and no inode is a hard link.
abbrev pub AreNumbered : ℕ → List Mirrored → Type 0
AreNumbered next [] = Unit
AreNumbered next (m ∷ ms) =
    (m.nid ≡ next) × (is_hardlink m.attrs.kind ≡ false) × AreNumbered (suc next) ms

AreNumbered-append :
    (next : ℕ) (xs ys : List Mirrored)
    → AreNumbered next xs
    → AreNumbered (next + length xs) ys
    → AreNumbered next (xs ++ ys)
AreNumbered-append next [] ys a b = subst (λ n. AreNumbered n ys) (omega arith) b
AreNumbered-append next (x ∷ xs) ys a b = (
  a.0,
  a.1,
  AreNumbered-append (suc next) xs ys a.2 (subst (λ n. AreNumbered n ys) (omega arith) b),
)

mutual
  unfolding mirror mirror_children count_inodes count_children

  pub length-mirror :
      (path : Bytes) (parent nid : ℕ) (n : Node)
      → length (mirror path parent nid n) ≡ count_inodes n
  length-mirror path parent nid (node a es) = elim (Bool-cases (is_dir a.kind)) [
    | inl y ↦ rw y (ap suc (length-mirror_children path nid (suc nid) es))
    | inr n ↦ rw n refl
  ]

  length-mirror_children :
      (path : Bytes) (parent next : ℕ) (es : Children)
      → length (mirror_children path parent next es) ≡ count_children es
  length-mirror_children path parent next nil = refl
  length-mirror_children path parent next (cons k (node a es) rest) =
      elim (Bool-cases (is_hardlink a.kind)) [
        | inl y ↦ rw y (length-mirror_children path parent next rest)
        | inr n ↦ rw n (
            omega (
              arith,
              length-append (mirror (join_path path k) parent next (node a es))
                  (mirror_children path parent (next + count_inodes (node a es)) rest),
              length-mirror (join_path path k) parent next (node a es),
              length-mirror_children path parent (next + count_inodes (node a es)) rest,
            ))
      ]

mutual
  unfolding mirror mirror_children

  pub mirror-AreNumbered :
      (path : Bytes) (parent nid : ℕ) (n : Node)
      → is_hardlink (attrs n).kind ≡ false
      → AreNumbered nid (mirror path parent nid n)
  mirror-AreNumbered path parent nid (node a es) h = elim (Bool-cases (is_dir a.kind)) [
    | inl y ↦ rw y (refl, h, mirror_children-AreNumbered path nid (suc nid) es)
    | inr n ↦ rw n (refl, h, tt)
  ]

  mirror_children-AreNumbered :
      (path : Bytes) (parent next : ℕ) (es : Children)
      → AreNumbered next (mirror_children path parent next es)
  mirror_children-AreNumbered path parent next nil = tt
  mirror_children-AreNumbered path parent next (cons k (node a es) rest) =
      elim (Bool-cases (is_hardlink a.kind)) [
        | inl y ↦ rw y (mirror_children-AreNumbered path parent next rest)
        | inr n ↦
            let first = mirror (join_path path k) parent next (node a es) in
            let others = mirror_children path parent (next + count_inodes (node a es)) rest in
            rw n (
              AreNumbered-append next first others
                (mirror-AreNumbered (join_path path k) parent next (node a es) n)
                (subst (λ c. AreNumbered (next + c) others)
                  (sym (length-mirror (join_path path k) parent next (node a es)))
                  (mirror_children-AreNumbered path parent (next + count_inodes (node a es)) rest)))
      ]

pub get_elem?-inodes_of :
    (ms rs : List Mirrored) (n : ℕ) {m : Mirrored}
    → get_elem? rs n ≡ some m
    → get_elem? (inodes_of ms rs) n ≡ some (inode_of ms m)
unfolding inodes_of
get_elem?-inodes_of ms [] n h = absurd (cc h)
get_elem?-inodes_of ms (r ∷ rs) zero {m} h =
    let e : r ≡ m = cc h in ap (λ t. some (inode_of ms t)) e
get_elem?-inodes_of ms (r ∷ rs) (suc n) h = get_elem?-inodes_of ms rs n h

-- What stands at a path is in its place, and is no hard link.
pub by_path-place :
    (target : Bytes) (next : ℕ) (ms : List Mirrored) {m : Mirrored}
    → AreNumbered next ms
    → by_path target ms ≡ some m
    → (i : ℕ) × (m.nid ≡ next + i) × (get_elem? ms i ≡ some m) × (is_hardlink m.attrs.kind ≡ false)
unfolding by_path
by_path-place target next [] a h = absurd (cc h)
by_path-place target next (r ∷ rs) {m} a h = elim (Bool-cases (bytes_eq r.path target)) [
  | inl y ↦
      let e : r ≡ m = cc (subst (λ t. (if t then some r else by_path target rs) ≡ some m) y h) in
      (
        0,
        omega (arith, ap (λ t. t.nid) e, a.0),
        ap some e,
        ap (λ t. is_hardlink t.attrs.kind) (sym e) ∙ a.1,
      )
  | inr n ↦
      let (i, at, there, plain) =
        by_path-place target (suc next) rs a.2
          (subst (λ t. (if t then some r else by_path target rs) ≡ some m) n h) in
      (suc i, omega (arith, at), there, plain)
]
