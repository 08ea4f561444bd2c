-- ===== src/Install/Diff/Faithful.antt =====
-- TreeDiff of internal/install/treediff.go: the delta over the base shows the environment.
use tacklebox.Common.{
  ℕ, zero, suc, ◌≤◌, Bytes, [], ◌∷◌, ◌++◌, ◌≡◌, inl, inr, refl, sym, ap, subst, ◌∙◌, Bool, Option,
  some, none, arith,
}
use tacklebox.Install.Diff.{
  Meta, Node, Tree, dir, link, file, device, TreePath, find, tree_of, changed, diff_entry,
  diff_name, diff_dir, count_node, count_tree, out_root, tree_diff,
}
use tacklebox.Install.Diff.Overlay.{
  look, see, bare_of, IsPlain, ArePlain, see-none, look-child, find-count, find-IsPlain,
}
use tacklebox.Install.Diff.Copies.{
  Open, Left, nothing, Left-child, Left-none, Hides-none, see-copy_entry,
}
use tacklebox.Install.Diff.Steps.{IsState, apply, diff_dir-IsState, find-diff_dir}
use tacklebox.Install.Diff.States.{
  Tops-cases, Tops-IsState, diff_dir-Grows, Left-Tops, start_of, start_of-Left, start_of-none,
}
use tacklebox.Install.Diff.Leaves.{Shows, leaf-Shows}

module _ (excluded : TreePath → Bool) where
  -- What diffDir makes of a directory of both trees.
  abbrev worked : ℕ → TreePath → Meta → Tree → Meta → Tree → Option Node → Option Node
  worked n rel mb bs me es old =
      diff_dir excluded n rel me bs es (start_of excluded rel mb me es old)

  -- The directory itself shows the environment's metadata.
  top-Shows :
      (n : ℕ) (rel : TreePath) (mb me : Meta) (bs es : Tree) (old : Option Node)
      → ArePlain es
      → Left excluded rel (some (dir me es)) old
      → Shows excluded []
          (apply (changed (worked n rel mb bs me es old)) old)
          (some (dir mb bs))
          (some (dir me es))
  top-Shows n rel mb me bs es old w left =
      let start = start_of excluded rel mb me es old in
      let tops =
        Left-Tops excluded rel me es start (start_of-Left excluded rel mb me es old w left) in
      let grows = diff_dir-Grows excluded n rel me bs es start tops in
      elim (Tops-cases me (worked n rel mb bs me es old) grows.0) [
        | inl e ↦
            let (gone, same) = start_of-none excluded rel mb me es old (grows.1 e) in
            rw (e, gone, same) refl
        | inr (t, e) ↦ rw e refl
      ]

  -- Below the directory the state shows what its children do.
  below-Shows :
      (p : Bytes) (ps : TreePath) (n : ℕ) (rel : TreePath) (mb me : Meta) (bs es : Tree)
      (old : Option Node)
      → ArePlain es
      → Left excluded rel (some (dir me es)) old
      → Shows excluded ps (find p (tree_of (worked n rel mb bs me es old))) (find p bs) (find p es)
      → Shows excluded
          (p ∷ ps)
          (apply (changed (worked n rel mb bs me es old)) old)
          (some (dir mb bs))
          (some (dir me es))
  unfolding find
  below-Shows p ps n rel mb me bs es old w left shown =
      let start = start_of excluded rel mb me es old in
      let s = worked n rel mb bs me es old in
      let tops =
        Left-Tops excluded rel me es start (start_of-Left excluded rel mb me es old w left) in
      let grows = diff_dir-Grows excluded n rel me bs es start tops in
      elim (Tops-cases me s grows.0) [
        | inl e ↦
            let (gone, same) = start_of-none excluded rel mb me es old (grows.1 e) in
            rw (e, gone)
              (ap bare_of (sym (see-none (find p bs) ps))
                ∙ subst (λ t. Shows excluded ps (find p (tree_of t)) (find p bs) (find p es)) e
                    shown)
        | inr (t, e) ↦
            rw e
              (subst (λ u. Shows excluded ps (find p (tree_of u)) (find p bs) (find p es)) e shown)
      ]

  -- One name of a directory, and all below it, on enough fuel.
  abbrev NameShows : TreePath → Type 0
  NameShows ps =
      (n : ℕ) (rel : TreePath) (ob oe old : Option Node)
      → ((b : Node) → ob ≡ some b → count_node b ≤ n)
      → ((e : Node) → oe ≡ some e → IsPlain e)
      → Left excluded rel oe old
      → Open excluded rel ps
      → Shows excluded ps (apply (diff_name excluded (diff_dir excluded n) rel ob oe old) old) ob oe

  -- A directory of both trees, when the names below it are right.
  dirs-Shows :
      (ps : TreePath) (n : ℕ) (rel : TreePath) (mb me : Meta) (bs es : Tree) (old : Option Node)
      → ((p : Bytes) (qs : TreePath) → ps ≡ p ∷ qs → NameShows qs)
      → count_node (dir mb bs) ≤ n
      → ArePlain es
      → Left excluded rel (some (dir me es)) old
      → Open excluded rel ps
      → Shows excluded ps
          (apply (changed (worked n rel mb bs me es old)) old)
          (some (dir mb bs))
          (some (dir me es))
  unfolding count_node
  dirs-Shows [] n rel mb me bs es old ih c w left o = top-Shows n rel mb me bs es old w left
  dirs-Shows (p ∷ ps) zero rel mb me bs es old ih c w left o = absurd (omega (arith, c))
  dirs-Shows (p ∷ ps) (suc n) rel mb me bs es old ih c w left o =
      let start = start_of excluded rel mb me es old in
      let from = start_of-Left excluded rel mb me es old w left in
      let state = Tops-IsState me start (Left-Tops excluded rel me es start from) in
      below-Shows p ps (suc n) rel mb me bs es old w left (
        ap (λ t. bare_of (see t (find p bs) ps))
          (find-diff_dir excluded n rel me bs es start p o.0 state)
        ∙ ih p ps refl n (rel ++ p ∷ []) (find p bs) (find p es) (find p (tree_of start))
            (λ b e. omega (arith, c, find-count p bs e)) (λ e q. find-IsPlain p es q w)
            (Left-child excluded rel me es start p from o.0) o.1)

  name-Shows :
      (ps : TreePath) → ((p : Bytes) (qs : TreePath) → ps ≡ p ∷ qs → NameShows qs) → NameShows ps
  unfolding diff_name find IsPlain diff_entry
  name-Shows ps ih n rel none none old c w left o =
      ap (λ t. bare_of (see t none ps)) (Left-none excluded rel old left)
      ∙ ap bare_of (see-none none ps)
  name-Shows ps ih n rel none (some e) old c w left o =
      see-copy_entry excluded ps rel e old none (w e refl) left o (Hides-none e)
  name-Shows [] ih n rel (some b) none old c w left o = refl
  name-Shows (p ∷ ps) ih n rel (some b) none old c w left o = refl
  name-Shows ps ih n rel (some b) (some e) old c w left o =
      let recur = diff_dir excluded n in
      elim (leaf-Shows excluded ps rel recur b e old (w e refl) left o) [
        | inl shown ↦ shown
        | inr (mb, bs, me, es, p, q) ↦
            subst
              (λ t.
                Shows excluded ps (apply (diff_entry excluded recur rel t e old) old) (some t)
                  (some e))
              (sym p)
              (subst
                (λ t.
                  Shows excluded ps (apply (diff_entry excluded recur rel (dir mb bs) t old) old)
                    (some (dir mb bs)) (some t))
                (sym q)
                (dirs-Shows ps n rel mb me bs es old ih (subst (λ t. count_node t ≤ n) p (c b refl))
                  (subst IsPlain q (w e refl)) (subst (λ t. Left excluded rel (some t) old) q left)
                  o))
      ]

  all-NameShows : (ps : TreePath) → NameShows ps
  all-NameShows [] = name-Shows [] (λ p qs e. absurd (cc e))
  all-NameShows (p ∷ ps) =
      name-Shows (p ∷ ps)
        (λ q qs e. let tail : ps ≡ qs = cc e in subst NameShows tail (all-NameShows ps))

-- A directory's state is seen over a base directory.
see-state :
    (s l : Option Node) (p : Bytes) (ps : TreePath)
    → IsState s
    → see s l (p ∷ ps) ≡ see (find p (tree_of s)) (find p (tree_of l)) ps
unfolding find
see-state none l p ps h = look-child l p ps ∙ sym (see-none (find p (tree_of l)) ps)
see-state (some (dir m es)) l p ps h = refl
see-state (some (link u g t)) l p ps h = absurd h
see-state (some (file m c)) l p ps h = absurd h
see-state (some (device k m r)) l p ps h = absurd h

-- TreeDiff's delta over the base shows the environment: at every path below the root, the merged
-- tree has an entry exactly when the environment has one, and it is of the same type, with the same
-- permissions, owner, content, link target and device number; set-uid, set-gid and sticky bits are
-- not compared. Conditions: neither the path nor a directory on it is excluded; in the environment
-- each name stands once in its directory, and there are no sockets and no character devices 0:0.
pub see-tree_diff :
    (excluded : TreePath → Bool) (mb me : Meta) (bs es : Tree) (p : Bytes) (ps : TreePath)
    → ArePlain es
    → Open excluded [] (p ∷ ps)
    → bare_of (see (tree_diff excluded me bs es) (some (dir mb bs)) (p ∷ ps))
      ≡ bare_of (look (some (dir me es)) (p ∷ ps))
unfolding tree_diff find
see-tree_diff excluded mb me bs es p ps w o =
    let n = count_tree bs in
    let s = diff_dir excluded (suc n) [] me bs es out_root in
    ap bare_of (
      see-state s (some (dir mb bs)) p ps
        (diff_dir-IsState excluded (suc n) [] me bs es out_root tt))
    ∙ ap (λ t. bare_of (see t (find p bs) ps))
        (find-diff_dir excluded n [] me bs es out_root p o.0 tt)
    ∙ all-NameShows excluded ps n (p ∷ []) (find p bs) (find p es) none (λ b e. find-count p bs e)
        (λ e q. find-IsPlain p es q w) nothing o.1
