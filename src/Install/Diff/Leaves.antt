-- ===== src/Install/Diff/Leaves.antt =====
-- diffEntry of internal/install/treediff.go on files, links and devices, and on entries of different
-- types.
use tacklebox.Common.{
  ℕ, Bytes, ◌≡◌, ◌⊎◌, inl, inr, refl, sym, ap, ◌∙◌, Bool, true, false, Bool-cases, Option, some,
  none, arith, bytes_eq, ◌==◌, if◌then◌else◌, ◌&&◌,
}
use tacklebox.Install.Diff.{
  DeviceKind, block, char, fifo, socket, Meta, same_meta, same_kind, Node, Tree, dir, link, file,
  device, TreePath, find, kept, wrote, copy_entry, diff_entry, Recur,
}
use tacklebox.Install.Diff.Names.{bytes_eq_sound}
use tacklebox.Install.Diff.Overlay.{look, see, bare, bare_of, IsPlain, see-none}
use tacklebox.Install.Diff.Copies.{Open, Left, nothing, leaf, below, Hides, see-copy_entry}
use tacklebox.Install.Diff.Steps.{apply}
use tacklebox.Install.Diff.States.{same_meta_sound}

-- Not a directory.
abbrev IsLeaf : Node → Type 0
IsLeaf (dir m es) = ⊥
IsLeaf _ = Unit

copy_entry-leaf :
    (excluded : TreePath → Bool) (rel : TreePath) (n : Node)
    → IsLeaf n
    → IsPlain n
    → copy_entry excluded rel n none ≡ some (bare n)
unfolding copy_entry IsPlain
copy_entry-leaf excluded rel (dir m es) l w = absurd l
copy_entry-leaf excluded rel (link u g t) l w = refl
copy_entry-leaf excluded rel (file m c) l w = refl
copy_entry-leaf excluded rel (device block m r) l w = refl
copy_entry-leaf excluded rel (device char m r) l w = refl
copy_entry-leaf excluded rel (device fifo m r) l w = refl
copy_entry-leaf excluded rel (device socket m r) l w = absurd w

IsLeaf-Hides : (n : Node) (l : Option Node) → IsLeaf n → Hides n l
IsLeaf-Hides (dir m es) l h = absurd h
IsLeaf-Hides (link u g t) l h = tt
IsLeaf-Hides (file m c) l h = tt
IsLeaf-Hides (device k m r) l h = tt

-- The tests of diffEntry tell entries apart.
same_link :
    (ub gb : ℕ) (tb : Bytes) (ue ge : ℕ) (te : Bytes)
    → (link ub gb tb ≡ link ue ge te) ⊎ ((bytes_eq tb te && (ub == ue && gb == ge)) ≡ false)
same_link ub gb tb ue ge te = elim (Bool-cases (bytes_eq tb te && (ub == ue && gb == ge))) [
  | inr e ↦ inr e
  | inl y ↦
      let t : bytes_eq tb te ≡ true = ground arith in
      let u : ub ≡ ue = ground arith in
      let g : gb ≡ ge = ground arith in inl (cc (u, g, bytes_eq_sound t))
]

same_file :
    (mb : Meta) (cb : Bytes) (me : Meta) (ce : Bytes)
    → (file mb cb ≡ file me ce) ⊎ ((same_meta mb me && bytes_eq cb ce) ≡ false)
same_file mb cb me ce = elim (Bool-cases (same_meta mb me && bytes_eq cb ce)) [
  | inr e ↦ inr e
  | inl y ↦
      let m : same_meta mb me ≡ true = ground arith in
      let c : bytes_eq cb ce ≡ true = ground arith in
      inl (cc (same_meta_sound mb me m, bytes_eq_sound c))
]

same_kind_sound : (a b : DeviceKind) → same_kind a b ≡ true → a ≡ b
same_kind_sound block block h = refl
same_kind_sound block char h = absurd (cc h)
same_kind_sound block fifo h = absurd (cc h)
same_kind_sound block socket h = absurd (cc h)
same_kind_sound char block h = absurd (cc h)
same_kind_sound char char h = refl
same_kind_sound char fifo h = absurd (cc h)
same_kind_sound char socket h = absurd (cc h)
same_kind_sound fifo block h = absurd (cc h)
same_kind_sound fifo char h = absurd (cc h)
same_kind_sound fifo fifo h = refl
same_kind_sound fifo socket h = absurd (cc h)
same_kind_sound socket block h = absurd (cc h)
same_kind_sound socket char h = absurd (cc h)
same_kind_sound socket fifo h = absurd (cc h)
same_kind_sound socket socket h = refl

same_device :
    (kb : DeviceKind) (mb : Meta) (rb : ℕ) (ke : DeviceKind) (me : Meta) (re : ℕ)
    → (device kb mb rb ≡ device ke me re)
      ⊎ ((same_kind kb ke && (same_meta mb me && rb == re)) ≡ false)
same_device kb mb rb ke me re =
    elim (Bool-cases (same_kind kb ke && (same_meta mb me && rb == re))) [
      | inr e ↦ inr e
      | inl y ↦
          let k : same_kind kb ke ≡ true = ground arith in
          let m : same_meta mb me ≡ true = ground arith in
          let r : rb ≡ re = ground arith in
          inl (cc (same_kind_sound kb ke k, same_meta_sound mb me m, r))
    ]

module _ (excluded : TreePath → Bool) where
  -- The merged tree shows at a path what the environment has.
  abbrev pub Shows : TreePath → Option Node → Option Node → Option Node → Type 0
  Shows ps u l oe = bare_of (see u l ps) ≡ bare_of (look oe ps)

  -- An entry that is the same in both trees is left as it is.
  kept-Shows :
      (ps rel : TreePath) (b e : Node) (old : Option Node)
      → IsLeaf e
      → IsPlain e
      → b ≡ e
      → Left excluded rel (some e) old
      → Open excluded rel ps
      → Shows ps old (some b) (some e)
  kept-Shows ps rel b e old l w q nothing o =
      ap bare_of (see-none (some b) ps) ∙ ap (λ t. bare_of (look (some t) ps)) q
  kept-Shows ps rel b e old l w q (leaf same t) o =
      ap (λ c. bare_of (see c (some b) ps))
        (ap some (sym same) ∙ sym (copy_entry-leaf excluded rel e l w))
      ∙ see-copy_entry excluded ps rel e none (some b) w nothing o (IsLeaf-Hides e (some b) l)
  kept-Shows ps rel b (dir m es) old l w q (below f) o = absurd l

  -- One of the tests of diffEntry: left as it is, or copied.
  tested-Shows :
      (ps rel : TreePath) (b e : Node) (old : Option Node) (test : Bool)
      → IsLeaf e
      → IsPlain e
      → (b ≡ e) ⊎ (test ≡ false)
      → Left excluded rel (some e) old
      → Open excluded rel ps
      → Shows ps
          (apply (if test then kept else wrote (copy_entry excluded rel e old)) old)
          (some b)
          (some e)
  tested-Shows ps rel b e old true l w (inl q) left o = kept-Shows ps rel b e old l w q left o
  tested-Shows ps rel b e old true l w (inr q) left o = absurd (cc q)
  tested-Shows ps rel b e old false l w q left o =
      see-copy_entry excluded ps rel e old (some b) w left o (IsLeaf-Hides e (some b) l)

  -- Files, links and devices of both trees, or entries of different types.
  pub leaf-Shows :
      (ps rel : TreePath) (recur : Recur excluded) (b e : Node) (old : Option Node)
      → IsPlain e
      → Left excluded rel (some e) old
      → Open excluded rel ps
      → Shows ps (apply (diff_entry excluded recur rel b e old) old) (some b) (some e)
        ⊎ ((mb : Meta) × (bs : Tree) × (me : Meta) × (es : Tree) × (b ≡ dir mb bs)
            × (e ≡ dir me es))
  unfolding diff_entry find
  leaf-Shows ps rel recur (dir mb bs) (dir me es) old w left o = inr (mb, bs, me, es, refl, refl)
  leaf-Shows ps rel recur (link ub gb tb) (link ue ge te) old w left o =
      inl (tested-Shows ps rel _ _ old _ tt w (same_link ub gb tb ue ge te) left o)
  leaf-Shows ps rel recur (file mb cb) (file me ce) old w left o =
      inl (tested-Shows ps rel _ _ old _ tt w (same_file mb cb me ce) left o)
  leaf-Shows ps rel recur (device kb mb rb) (device ke me re) old w left o =
      inl (tested-Shows ps rel _ _ old _ tt w (same_device kb mb rb ke me re) left o)
  leaf-Shows ps rel recur (link u g t) (dir me es) old w left o =
      inl (see-copy_entry excluded ps rel _ old _ w left o (λ q. refl))
  leaf-Shows ps rel recur (file m c) (dir me es) old w left o =
      inl (see-copy_entry excluded ps rel _ old _ w left o (λ q. refl))
  leaf-Shows ps rel recur (device k m r) (dir me es) old w left o =
      inl (see-copy_entry excluded ps rel _ old _ w left o (λ q. refl))
  leaf-Shows ps rel recur (dir m es) (link u g t) old w left o =
      inl (see-copy_entry excluded ps rel _ old _ w left o tt)
  leaf-Shows ps rel recur (file m c) (link u g t) old w left o =
      inl (see-copy_entry excluded ps rel _ old _ w left o tt)
  leaf-Shows ps rel recur (device k m r) (link u g t) old w left o =
      inl (see-copy_entry excluded ps rel _ old _ w left o tt)
  leaf-Shows ps rel recur (dir m es) (file n c) old w left o =
      inl (see-copy_entry excluded ps rel _ old _ w left o tt)
  leaf-Shows ps rel recur (link u g t) (file n c) old w left o =
      inl (see-copy_entry excluded ps rel _ old _ w left o tt)
  leaf-Shows ps rel recur (device k m r) (file n c) old w left o =
      inl (see-copy_entry excluded ps rel _ old _ w left o tt)
  leaf-Shows ps rel recur (dir m es) (device k n r) old w left o =
      inl (see-copy_entry excluded ps rel _ old _ w left o tt)
  leaf-Shows ps rel recur (link u g t) (device k n r) old w left o =
      inl (see-copy_entry excluded ps rel _ old _ w left o tt)
  leaf-Shows ps rel recur (file m c) (device k n r) old w left o =
      inl (see-copy_entry excluded ps rel _ old _ w left o tt)
