-- ===== src/Install/Diff/States.antt =====
-- The state of a directory that diffDir of internal/install/treediff.go works on.
use tacklebox.Common.{
  ℕ, zero, suc, Bytes, List, [], ◌∷◌, ◌++◌, ◌≡◌, ◌⊎◌, inl, inr, refl, ap, subst, Bool, true,
  Bool-cases, Option, some, none, arith, if◌then◌else◌,
}
use tacklebox.Install.Diff.{
  Meta, apply_meta, same_meta, Node, Tree, dir, link, file, device, TreePath, find, tree_of, Change,
  kept, wrote, copy_entry, diff_name, diff_names, diff_dir, sorted_names, at_name,
}
use tacklebox.Install.Diff.Overlay.{IsPlain, ArePlain}
use tacklebox.Install.Diff.Copies.{Left, nothing, leaf, below, copy_entry-Left}
use tacklebox.Install.Diff.Steps.{IsState}

pub same_meta_sound : (a b : Meta) → same_meta a b ≡ true → a ≡ b
unfolding same_meta
same_meta_sound a b h =
    let p : a.perm ≡ b.perm = ground arith in
    let q : a.bits ≡ b.bits = ground arith in
    let r : a.uid ≡ b.uid = ground arith in let s : a.gid ≡ b.gid = ground arith in cc (p, q, r, s)

-- A directory's state has the environment's metadata once it is there.
abbrev pub Tops : Meta → Option Node → Type 0
Tops m none = Unit
Tops m (some (dir x es)) = x ≡ apply_meta m
Tops m _ = ⊥

pub Tops-cases :
    (m : Meta) (s : Option Node)
    → Tops m s
    → (s ≡ none) ⊎ ((t : Tree) × (s ≡ some (dir (apply_meta m) t)))
Tops-cases m none h = inl refl
Tops-cases m (some (dir x es)) h = inr (es, ap (λ t. some (dir t es)) h)
Tops-cases m (some (link u g t)) h = absurd h
Tops-cases m (some (file x c)) h = absurd h
Tops-cases m (some (device k x r)) h = absurd h

pub Tops-IsState : (m : Meta) (s : Option Node) → Tops m s → IsState s
Tops-IsState m none h = tt
Tops-IsState m (some (dir x es)) h = tt
Tops-IsState m (some (link u g t)) h = absurd h
Tops-IsState m (some (file x c)) h = absurd h
Tops-IsState m (some (device k x r)) h = absurd h

-- A state with the metadata stays one, and what is there stays there.
abbrev pub Grows : Meta → Option Node → Option Node → Type 0
Grows m s s' = Tops m s' × ((s' ≡ none) → (s ≡ none))

at_name-Grows :
    (k : Bytes) (c : Change) (m : Meta) (s : Option Node) → Tops m s → Grows m s (at_name k c m s)
unfolding at_name
at_name-Grows k kept m s h = (h, λ e. e)
at_name-Grows k (wrote c) m none h = (refl, λ e. refl)
at_name-Grows k (wrote c) m (some (dir x es)) h = (h, λ e. absurd (cc e))
at_name-Grows k (wrote c) m (some (link u g t)) h = absurd h
at_name-Grows k (wrote c) m (some (file x t)) h = absurd h
at_name-Grows k (wrote c) m (some (device i x r)) h = absurd h

module _ (excluded : TreePath → Bool) where
  diff_names-Grows :
      (n : ℕ) (rel : TreePath) (m : Meta) (bs es : Tree) (ks : List Bytes) (s : Option Node)
      → Tops m s
      → Grows m s (diff_names excluded (diff_dir excluded n) rel m bs es ks s)
  unfolding diff_names
  diff_names-Grows n rel m bs es [] s h = (h, λ e. e)
  diff_names-Grows n rel m bs es (k ∷ ks) s h =
      let path = rel ++ k ∷ [] in
      let c =
        diff_name excluded (diff_dir excluded n) path (find k bs) (find k es)
          (find k (tree_of s)) in
      elim (Bool-cases (excluded path)) [
        | inl y ↦ rw y (diff_names-Grows n rel m bs es ks s h)
        | inr e ↦
            let (first, back) = at_name-Grows k c m s h in
            rw e (
              (diff_names-Grows n rel m bs es ks (at_name k c m s) first).0,
              λ q. back ((diff_names-Grows n rel m bs es ks (at_name k c m s) first).1 q),
            )
      ]

  pub diff_dir-Grows :
      (n : ℕ) (rel : TreePath) (m : Meta) (bs es : Tree) (s : Option Node)
      → Tops m s
      → Grows m s (diff_dir excluded n rel m bs es s)
  unfolding diff_dir
  diff_dir-Grows zero rel m bs es s h = (h, λ e. e)
  diff_dir-Grows (suc n) rel m bs es s h = diff_names-Grows n rel m bs es (sorted_names bs es) s h

  pub Left-Tops :
      (rel : TreePath) (m : Meta) (es : Tree) (old : Option Node)
      → Left excluded rel (some (dir m es)) old
      → Tops m old
  Left-Tops rel m es old nothing = tt
  Left-Tops rel m es old (leaf b t) = subst (λ c. Tops m (some c)) b refl
  Left-Tops rel m es old (below f) = refl

  -- Where diffDir starts from: what the delta has, or a fresh copy.
  abbrev pub start_of : TreePath → Meta → Meta → Tree → Option Node → Option Node
  start_of rel mb me es old =
      if same_meta mb me then old else copy_entry excluded rel (dir me es) old

  pub start_of-Left :
      (rel : TreePath) (mb me : Meta) (es : Tree) (old : Option Node)
      → ArePlain es
      → Left excluded rel (some (dir me es)) old
      → Left excluded rel (some (dir me es)) (start_of rel mb me es old)
  unfolding IsPlain
  start_of-Left rel mb me es old w l = elim (Bool-cases (same_meta mb me)) [
    | inl y ↦ rw (y, start_of) l
    | inr e ↦ rw (e, start_of) (copy_entry-Left excluded rel (dir me es) old w l)
  ]

  -- A start that is nothing: the metadata is the same, and the delta has nothing yet.
  pub start_of-none :
      (rel : TreePath) (mb me : Meta) (es : Tree) (old : Option Node)
      → start_of rel mb me es old ≡ none
      → (old ≡ none) × (mb ≡ me)
  unfolding copy_entry
  start_of-none rel mb me es old h = elim (Bool-cases (same_meta mb me)) [
    | inl y ↦ (
      subst (λ t. (if t then old else copy_entry excluded rel (dir me es) old) ≡ none) y h,
      same_meta_sound mb me y,
    )
    | inr e ↦
        absurd (
          cc (subst (λ t. (if t then old else copy_entry excluded rel (dir me es) old) ≡ none) e h))
  ]
