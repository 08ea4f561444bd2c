-- ===== src/Install/Diff/Copies.antt =====
-- copyEntry of internal/install/treediff.go.
use tacklebox.Common.{
  zero, suc, Bytes, [], ◌∷◌, ◌++◌, ◌≡◌, ◌≢◌, inl, inr, refl, sym, ap, subst, ◌∙◌, Bool, true, false,
  Bool-cases, Option, some, none, Option-cases, bytes_eq, if◌then◌else◌,
}
use tacklebox.Install.Diff.{
  block, char, fifo, socket, Meta, apply_meta, Node, Tree, dir, link, file, device, empty, entry,
  TreePath, find, set_to, tree_of, copy_entry, copy_all,
}
use tacklebox.Install.Diff.Names.{
  find-set_to, find-set_to-other, bytes_eq_sound, distinct_lem, Fresh,
}
use tacklebox.Install.Diff.Overlay.{
  look, see, bare, bare_of, tree_names, IsPlain, ArePlain, see-none, look-none, find-IsPlain,
}

find-Fresh : (k : Bytes) (es : Tree) → Fresh k (tree_names es) → find k es ≡ none
unfolding find
find-Fresh k empty f = refl
find-Fresh k (entry j n es) f = elim (Bool-cases (bytes_eq j k)) [
  | inl y ↦ absurd (f.0 (bytes_eq_sound y))
  | inr e ↦ rw e (find-Fresh k es f.1)
]

-- A directory hides only what has nothing below it; anything else hides all.
abbrev pub Hides : Node → Option Node → Type 0
Hides (dir m es) l = (p : Bytes) → find p (tree_of l) ≡ none
Hides _ l = Unit

pub Hides-none : (n : Node) → Hides n none
unfolding find
Hides-none (dir m es) = λ p. refl
Hides-none (link u g t) = tt
Hides-none (file m c) = tt
Hides-none (device k m r) = tt

module _ (excluded : TreePath → Bool) where
  -- Neither the path nor one that it goes through is excluded.
  abbrev pub Open : TreePath → TreePath → Type 0
  Open rel [] = Unit
  Open rel (p ∷ ps) = (excluded (rel ++ p ∷ []) ≡ false) × Open (rel ++ p ∷ []) ps

  -- The copy at a name of a directory that is copied.
  abbrev pub copied : TreePath → Option Node → Option Node → Option Node
  copied rel none old = old
  copied rel (some n) old = copy_entry excluded rel n old

  -- The loop's state after its first entry.
  abbrev first_done : TreePath → Bytes → Node → Tree → Tree
  first_done rel k n out = elim (excluded (rel ++ k ∷ [])) [
    | true ↦ out
    | false ↦ set_to k (copy_entry excluded (rel ++ k ∷ []) n (find k out)) out
  ]

  first_done_at :
      (rel : TreePath) (k : Bytes) (n : Node) (out : Tree)
      → excluded (rel ++ k ∷ []) ≡ false
      → find k (first_done rel k n out) ≡ copy_entry excluded (rel ++ k ∷ []) n (find k out)
  first_done_at rel k n out o = rw (o, first_done) (find-set_to k _ out)

  first_done_other :
      (rel : TreePath) (j k : Bytes) (n : Node) (out : Tree)
      → j ≢ k
      → find k (first_done rel j n out) ≡ find k out
  first_done_other rel j k n out d = elim (Bool-cases (excluded (rel ++ j ∷ []))) [
    | inl y ↦ rw (y, first_done) refl
    | inr e ↦ rw (e, first_done) (find-set_to-other j k _ out d)
  ]

  -- The copies of a directory's entries.
  pub find-copy_all :
      (rel : TreePath) (k : Bytes) (es out : Tree)
      → excluded (rel ++ k ∷ []) ≡ false
      → ArePlain es
      → find k (copy_all excluded rel es out) ≡ copied (rel ++ k ∷ []) (find k es) (find k out)
  unfolding copy_all find IsPlain
  find-copy_all rel k empty out o w = refl
  find-copy_all rel k (entry j n es) out o w =
      let ih = find-copy_all rel k es (first_done rel j n out) o w.2 in
      elim (Bool-cases (bytes_eq j k)) [
        | inl y ↦
            let q : j ≡ k = bytes_eq_sound y in
            let gone : find k es ≡ none =
              find-Fresh k es (subst (λ t. Fresh t (tree_names es)) q w.0) in
            rw y (
              ih
              ∙ ap (λ t. copied (rel ++ k ∷ []) t (find k (first_done rel j n out))) gone
              ∙ subst
                  (λ t.
                    find k (first_done rel t n out)
                    ≡ copy_entry excluded (rel ++ k ∷ []) n (find k out))
                  (sym q) (first_done_at rel k n out o))
        | inr e ↦ rw e (
            ih
            ∙ ap (copied (rel ++ k ∷ []) (find k es))
                (first_done_other rel j k n out (λ q. distinct_lem e q)))
      ]

  -- What the delta may have at a path before it is copied: nothing, or what an earlier copy left.
  pub data Left : TreePath → Option Node → Option Node → Type 0 where
    nothing : {rel : TreePath} {o : Option Node} → Left rel o none
    leaf :
        {rel : TreePath} {e c : Node}
        → bare e ≡ c
        → tree_of (some e) ≡ empty
        → Left rel (some e) (some c)
    below :
        {rel : TreePath} {m : Meta} {es t : Tree}
        → ((p : Bytes)
            → excluded (rel ++ p ∷ []) ≡ false
            → Left (rel ++ p ∷ []) (find p es) (find p t))
        → Left rel (some (dir m es)) (some (dir (apply_meta m) t))

  pub Left-child :
      (rel : TreePath) (m : Meta) (es : Tree) (old : Option Node) (p : Bytes)
      → Left rel (some (dir m es)) old
      → excluded (rel ++ p ∷ []) ≡ false
      → Left (rel ++ p ∷ []) (find p es) (find p (tree_of old))
  unfolding find
  Left-child rel m es old p nothing o = nothing
  Left-child rel m es old p (leaf b t) o =
      subst (λ c. Left (rel ++ p ∷ []) (find p es) (find p (tree_of (some c)))) b nothing
  Left-child rel m es old p (below f) o = f p o

  -- A copy is such a rest.
  mutual
    unfolding copy_entry find IsPlain

    pub copy_entry-Left :
        (rel : TreePath) (n : Node) (old : Option Node)
        → IsPlain n
        → Left rel (some n) old
        → Left rel (some n) (copy_entry excluded rel n old)
    copy_entry-Left rel (dir m es) old w l = below (λ p o.
        subst (Left (rel ++ p ∷ []) (find p es)) (sym (find-copy_all rel p es (tree_of old) o w)) (
          copied-Left es w p (rel ++ p ∷ []) (find p (tree_of old))
            (Left-child rel m es old p l o)))
    copy_entry-Left rel (link u g t) old w l = leaf refl refl
    copy_entry-Left rel (file m c) old w l = leaf refl refl
    copy_entry-Left rel (device block m r) old w l = leaf refl refl
    copy_entry-Left rel (device char m r) old w l = leaf refl refl
    copy_entry-Left rel (device fifo m r) old w l = leaf refl refl
    copy_entry-Left rel (device socket m r) old w l = absurd w

    copied-Left :
        (es : Tree) (w : ArePlain es) (p : Bytes) (path : TreePath) (o : Option Node)
        → Left path (find p es) o
        → Left path (find p es) (copied path (find p es) o)
    copied-Left empty w p path o l = l
    copied-Left (entry j n es) w p path o l = elim (Bool-cases (bytes_eq j p)) [
      | inl y ↦ rw y (
          copy_entry-Left path n o w.1
            (subst (λ t. Left path (if t then some n else find p es) o) y l))
      | inr e ↦ rw e (
          copied-Left es w.2 p path o
            (subst (λ t. Left path (if t then some n else find p es) o) e l))
    ]

  pub Left-none : (rel : TreePath) (o : Option Node) → Left rel none o → o ≡ none
  Left-none rel o nothing = refl

  -- What a copied entry shows at its own path.
  copy_entry_top :
      (rel : TreePath) (n : Node) (old l : Option Node)
      → IsPlain n
      → bare_of (see (copy_entry excluded rel n old) l []) ≡ some (bare n)
  unfolding copy_entry IsPlain
  copy_entry_top rel (dir m es) old l w = refl
  copy_entry_top rel (link u g t) old l w = refl
  copy_entry_top rel (file m c) old l w = refl
  copy_entry_top rel (device block m r) old l w = refl
  copy_entry_top rel (device fifo m r) old l w = refl
  copy_entry_top rel (device socket m r) old l w = absurd w
  copy_entry_top rel (device char m zero) old l w = absurd (w refl)
  copy_entry_top rel (device char m (suc r)) old l w = refl

  -- A copy that hides the entry below it shows what the environment has.
  pub see-copy_entry :
      (ps rel : TreePath) (n : Node) (old l : Option Node)
      → IsPlain n
      → Left rel (some n) old
      → Open rel ps
      → Hides n l
      → bare_of (see (copy_entry excluded rel n old) l ps) ≡ bare_of (look (some n) ps)
  unfolding copy_entry IsPlain find
  see-copy_entry [] rel n old l w left o lone = copy_entry_top rel n old l w
  see-copy_entry (p ∷ ps) rel (dir m es) old l w left o lone =
      let path = rel ++ p ∷ [] in
      let was = find p (tree_of old) in
      let rest : Left path (find p es) was = Left-child rel m es old p left o.0 in
      let shown : bare_of (see (copied path (find p es) was) none ps)
          ≡ bare_of (look (find p es) ps) =
        elim (Option-cases (find p es)) [
          | inl e ↦
              let gone : was ≡ none = Left-none path was (subst (λ t. Left path t was) e rest) in
              rw (e, gone) (ap bare_of (see-none none ps))
          | inr (c, e) ↦ rw e (
              see-copy_entry ps path c was none (find-IsPlain p es e w)
                (subst (λ t. Left path t was) e rest) o.1 (Hides-none c))
        ] in
      ap (λ t. bare_of (see t (find p (tree_of l)) ps)) (find-copy_all rel p es (tree_of old) o.0 w)
      ∙ ap (λ t. bare_of (see (copied path (find p es) was) t ps)) (lone p)
      ∙ shown
  see-copy_entry (p ∷ ps) rel (link u g t) old l w left o lone = ap bare_of (sym (look-none ps))
  see-copy_entry (p ∷ ps) rel (file m c) old l w left o lone = ap bare_of (sym (look-none ps))
  see-copy_entry (p ∷ ps) rel (device block m r) old l w left o lone =
      ap bare_of (sym (look-none ps))
  see-copy_entry (p ∷ ps) rel (device fifo m r) old l w left o lone =
      ap bare_of (sym (look-none ps))
  see-copy_entry (p ∷ ps) rel (device char m r) old l w left o lone =
      ap bare_of (sym (look-none ps))
  see-copy_entry (p ∷ ps) rel (device socket m r) old l w left o lone = absurd w
