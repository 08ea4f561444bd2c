-- ===== src/Install/Diff/Steps.antt =====
-- diffDir of internal/install/treediff.go: what one name of a directory becomes.
use tacklebox.Common.{
  ℕ, zero, suc, Bytes, List, [], ◌∷◌, ◌++◌, ◌≡◌, ◌≢◌, inl, inr, refl, sym, ap, subst, ◌∙◌, Bool,
  true, false, Bool-cases, Option, some, none,
}
use tacklebox.Install.Diff.{
  Meta, Node, Tree, dir, link, file, device, empty, TreePath, find, tree_of, Change, kept, wrote,
  at_name, sorted_names, diff_name, diff_names, diff_dir, Recur,
}
use tacklebox.Install.Diff.Names.{
  find-set_to, find-set_to-other, Fresh, AreDistinct, IsOneOf, IsOneOf-or_Fresh,
  sorted_names-AreDistinct, sorted_names_cover,
}

-- The state of a directory that is at work: nothing yet, or a directory.
abbrev pub IsState : Option Node → Type 0
IsState none = Unit
IsState (some (dir m es)) = Unit
IsState _ = ⊥

-- A change of what the delta has at a name.
abbrev pub apply : Change → Option Node → Option Node
apply kept old = old
apply (wrote c) old = c

at_name-IsState :
    (k : Bytes) (c : Change) (m : Meta) (s : Option Node) → IsState s → IsState (at_name k c m s)
unfolding at_name
at_name-IsState k kept m s h = h
at_name-IsState k (wrote c) m none h = tt
at_name-IsState k (wrote c) m (some (dir x es)) h = tt
at_name-IsState k (wrote c) m (some (link u g t)) h = absurd h
at_name-IsState k (wrote c) m (some (file x t)) h = absurd h
at_name-IsState k (wrote c) m (some (device i x r)) h = absurd h

find-at_name :
    (k : Bytes) (c : Change) (m : Meta) (s : Option Node)
    → IsState s
    → find k (tree_of (at_name k c m s)) ≡ apply c (find k (tree_of s))
unfolding at_name
find-at_name k kept m s h = refl
find-at_name k (wrote c) m none h = find-set_to k c empty
find-at_name k (wrote c) m (some (dir x es)) h = find-set_to k c es
find-at_name k (wrote c) m (some (link u g t)) h = absurd h
find-at_name k (wrote c) m (some (file x t)) h = absurd h
find-at_name k (wrote c) m (some (device i x r)) h = absurd h

find-at_name-other :
    (j k : Bytes) (c : Change) (m : Meta) (s : Option Node)
    → j ≢ k
    → IsState s
    → find k (tree_of (at_name j c m s)) ≡ find k (tree_of s)
unfolding at_name
find-at_name-other j k kept m s d h = refl
find-at_name-other j k (wrote c) m none d h = find-set_to-other j k c empty d
find-at_name-other j k (wrote c) m (some (dir x es)) d h = find-set_to-other j k c es d
find-at_name-other j k (wrote c) m (some (link u g t)) d h = absurd h
find-at_name-other j k (wrote c) m (some (file x t)) d h = absurd h
find-at_name-other j k (wrote c) m (some (device i x r)) d h = absurd h

IsOneOf-not_Fresh : (k : Bytes) (ks : List Bytes) → IsOneOf k ks → Fresh k ks → ⊥
IsOneOf-not_Fresh k [] i f = absurd i
IsOneOf-not_Fresh k (j ∷ ks) (inl q) f = f.0 q
IsOneOf-not_Fresh k (j ∷ ks) (inr i) f = IsOneOf-not_Fresh k ks i f.1

nothing_to_do :
    (excluded : TreePath → Bool) (recur : Recur excluded) (path : TreePath) (old : Option Node)
    → old ≡ apply (diff_name excluded recur path none none old) old
unfolding diff_name
nothing_to_do excluded recur path old = refl

module _ (excluded : TreePath → Bool) (recur : Recur excluded) (rel : TreePath) (m : Meta)
    (bs es : Tree) where
  -- The change of one name, and the state after it.
  abbrev change_of : Bytes → Option Node → Change
  change_of k old = diff_name excluded recur (rel ++ k ∷ []) (find k bs) (find k es) old

  abbrev step : Bytes → Option Node → Option Node
  step k s = elim (excluded (rel ++ k ∷ [])) [
    | true ↦ s
    | false ↦ at_name k (change_of k (find k (tree_of s))) m s
  ]

  step-IsState : (k : Bytes) (s : Option Node) → IsState s → IsState (step k s)
  step-IsState k s h = elim (Bool-cases (excluded (rel ++ k ∷ []))) [
    | inl y ↦ rw (y, step) h
    | inr e ↦ rw (e, step) (at_name-IsState k (change_of k (find k (tree_of s))) m s h)
  ]

  find-step-other :
      (j k : Bytes) (s : Option Node)
      → j ≢ k
      → IsState s
      → find k (tree_of (step j s)) ≡ find k (tree_of s)
  find-step-other j k s d h = elim (Bool-cases (excluded (rel ++ j ∷ []))) [
    | inl y ↦ rw (y, step) refl
    | inr e ↦ rw (e, step) (find-at_name-other j k _ m s d h)
  ]

  find-step :
      (k : Bytes) (s : Option Node)
      → excluded (rel ++ k ∷ []) ≡ false
      → IsState s
      → find k (tree_of (step k s)) ≡ apply (change_of k (find k (tree_of s))) (find k (tree_of s))
  find-step k s o h = rw (o, step) (find-at_name k _ m s h)

  find-diff_names-Fresh :
      (k : Bytes) (ks : List Bytes) (s : Option Node)
      → Fresh k ks
      → IsState s
      → find k (tree_of (diff_names excluded recur rel m bs es ks s)) ≡ find k (tree_of s)
  unfolding diff_names
  find-diff_names-Fresh k [] s f h = refl
  find-diff_names-Fresh k (j ∷ ks) s f h =
      find-diff_names-Fresh k ks (step j s) f.1 (step-IsState j s h) ∙ find-step-other j k s f.0 h

  find-diff_names :
      (k : Bytes) (ks : List Bytes) (s : Option Node)
      → IsOneOf k ks
      → AreDistinct ks
      → excluded (rel ++ k ∷ []) ≡ false
      → IsState s
      → find k (tree_of (diff_names excluded recur rel m bs es ks s))
        ≡ apply (change_of k (find k (tree_of s))) (find k (tree_of s))
  unfolding diff_names
  find-diff_names k [] s i d o h = absurd i
  find-diff_names k (j ∷ ks) s (inl q) d o h =
      find-diff_names-Fresh k ks (step j s) (subst (λ t. Fresh t ks) q d.0) (step-IsState j s h)
      ∙ subst
          (λ t.
            find k (tree_of (step t s))
            ≡ apply (change_of k (find k (tree_of s))) (find k (tree_of s)))
          (sym q) (find-step k s o h)
  find-diff_names k (j ∷ ks) s (inr i) d o h =
      let other : j ≢ k = λ q. IsOneOf-not_Fresh k ks i (subst (λ t. Fresh t ks) q d.0) in
      find-diff_names k ks (step j s) i d.1 o (step-IsState j s h)
      ∙ ap (λ t. apply (change_of k t) t) (find-step-other j k s other h)

diff_names-IsState :
    (excluded : TreePath → Bool) (recur : Recur excluded) (rel : TreePath) (m : Meta) (bs es : Tree)
    (ks : List Bytes) (s : Option Node)
    → IsState s
    → IsState (diff_names excluded recur rel m bs es ks s)
unfolding diff_names
diff_names-IsState excluded recur rel m bs es [] s h = h
diff_names-IsState excluded recur rel m bs es (k ∷ ks) s h =
    diff_names-IsState excluded recur rel m bs es ks _
      (step-IsState excluded recur rel m bs es k s h)

pub diff_dir-IsState :
    (excluded : TreePath → Bool) (n : ℕ) (rel : TreePath) (m : Meta) (bs es : Tree)
    (s : Option Node)
    → IsState s
    → IsState (diff_dir excluded n rel m bs es s)
unfolding diff_dir
diff_dir-IsState excluded zero rel m bs es s h = h
diff_dir-IsState excluded (suc n) rel m bs es s h =
    diff_names-IsState excluded (diff_dir excluded n) rel m bs es (sorted_names bs es) s h

-- What diffDir makes of a name is the change of that name alone.
pub find-diff_dir :
    (excluded : TreePath → Bool) (n : ℕ) (rel : TreePath) (m : Meta) (bs es : Tree)
    (s : Option Node) (k : Bytes)
    → excluded (rel ++ k ∷ []) ≡ false
    → IsState s
    → find k (tree_of (diff_dir excluded (suc n) rel m bs es s))
      ≡ apply
          (diff_name excluded
            (diff_dir excluded n)
            (rel ++ k ∷ [])
            (find k bs)
            (find k es)
            (find k (tree_of s)))
          (find k (tree_of s))
unfolding diff_dir
find-diff_dir excluded n rel m bs es s k o h =
    let names = sorted_names bs es in
    let recur = diff_dir excluded n in
    let at : IsOneOf k names → _ = λ i.
      find-diff_names excluded recur rel m bs es k names s i (sorted_names-AreDistinct bs es) o h in
    elim (IsOneOf-or_Fresh k names) [
      | inl i ↦ at i
      | inr f ↦ elim (sorted_names_cover k bs es) [
        | inr i ↦ at i
        | inl (p, q) ↦
            rw (p, q)
              (find-diff_names-Fresh excluded recur rel m bs es k names s f h
                ∙ nothing_to_do excluded recur (rel ++ k ∷ []) (find k (tree_of s)))
      ]
    ]
