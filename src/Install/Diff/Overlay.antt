-- ===== src/Install/Diff/Overlay.antt =====
-- What overlayfs shows of a delta over a base, as the comments of internal/install/treediff.go
-- describe it: an entry of the delta hides that of the base, a device 0:0 hides it without a
-- replacement, and two directories are merged, with the delta's metadata.
use tacklebox.Common.{
  ℕ, zero, ◌+◌, ◌≤◌, Bytes, List, [], ◌∷◌, ◌≡◌, ◌≢◌, inl, inr, refl, sym, subst, Bool, true, false,
  Bool-cases, Option, some, none, arith, bytes_eq, if◌then◌else◌,
}
use tacklebox.Install.Diff.{
  DeviceKind, char, socket, apply_meta, Node, Tree, dir, link, file, device, empty, entry, TreePath,
  find, tree_of, count_node, count_tree,
}
use tacklebox.Install.Diff.Names.{Fresh}

-- A path in one tree.
abbrev pub look : Option Node → TreePath → Option Node
look o [] = o
look none (k ∷ ks) = none
look (some n) (k ∷ ks) = look (find k (tree_of (some n))) ks

-- A 0:0 character device.
abbrev pub is_whiteout : Node → Bool
is_whiteout (device char m zero) = true
is_whiteout _ = false

-- A path in the merged tree.
abbrev pub see : Option Node → Option Node → TreePath → Option Node
see none l [] = l
see (some u) l [] = if is_whiteout u then none else some u
see none l (k ∷ ks) = look l (k ∷ ks)
see (some (dir m es)) l (k ∷ ks) = see (find k es) (find k (tree_of l)) ks
see (some n) l (k ∷ ks) = none

-- What is compared: an entry without what is below it and without set-uid, set-gid and sticky bits.
abbrev pub bare : Node → Node
bare (dir m es) = dir (apply_meta m) empty
bare (link uid gid target) = link uid gid target
bare (file m content) = file (apply_meta m) content
bare (device k m rdev) = device k (apply_meta m) rdev

abbrev pub bare_of : Option Node → Option Node
bare_of none = none
bare_of (some n) = some (bare n)

-- The names of a directory.
abbrev pub tree_names : Tree → List Bytes
tree_names empty = []
tree_names (entry k n es) = k ∷ tree_names es

abbrev pub IsCopied : DeviceKind → ℕ → Type 0
IsCopied socket rdev = ⊥
IsCopied char rdev = rdev ≢ 0
IsCopied _ rdev = Unit

-- A tree as a file system has it, each name once in a directory, without sockets and without
-- character devices 0:0.
unfoldable mutual
  pub IsPlain : Node → Type 0
  IsPlain (dir m es) = ArePlain es
  IsPlain (link uid gid target) = Unit
  IsPlain (file m content) = Unit
  IsPlain (device k m rdev) = IsCopied k rdev

  pub ArePlain : Tree → Type 0
  ArePlain empty = Unit
  ArePlain (entry k n es) = Fresh k (tree_names es) × IsPlain n × ArePlain es

pub look-none : (ps : TreePath) → look none ps ≡ none
look-none [] = refl
look-none (p ∷ ps) = refl

pub see-none : (l : Option Node) (ps : TreePath) → see none l ps ≡ look l ps
see-none l [] = refl
see-none l (p ∷ ps) = refl

pub look-child :
    (o : Option Node) (p : Bytes) (ps : TreePath) → look o (p ∷ ps) ≡ look (find p (tree_of o)) ps
unfolding find
look-child none p ps = sym (look-none ps)
look-child (some n) p ps = refl

pub find-count :
    (k : Bytes) (es : Tree) {n : Node} → find k es ≡ some n → count_node n ≤ count_tree es
unfolding find count_tree
find-count k empty h = absurd (cc h)
find-count k (entry j c es) {n} h = elim (Bool-cases (bytes_eq j k)) [
  | inl y ↦
      let same : c ≡ n = ground arith in
      subst (λ t. count_node t ≤ count_node c + count_tree es) same (omega arith)
  | inr e ↦ let later : find k es ≡ some n = ground arith in omega (arith, find-count k es later)
]

pub find-IsPlain : (k : Bytes) (es : Tree) {n : Node} → find k es ≡ some n → ArePlain es → IsPlain n
unfolding find IsPlain
find-IsPlain k empty h i = absurd (cc h)
find-IsPlain k (entry j c es) {n} h i = elim (Bool-cases (bytes_eq j k)) [
  | inl y ↦ let same : c ≡ n = ground arith in subst IsPlain same i.1
  | inr e ↦ let later : find k es ≡ some n = ground arith in find-IsPlain k es later i.2
]
