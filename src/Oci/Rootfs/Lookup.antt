-- ===== src/Oci/Rootfs/Lookup.antt =====
-- What a lookup finds after a change in the parent directory of a path.
use tacklebox.Common.{
  Bytes, List, [], ◌∷◌, ◌++◌, ◌≡◌, ◌≢◌, ◌⊎◌, inl, inr, refl, sym, ap, ◌∙◌, true, Option, some, none,
  arith, if◌then◌else◌,
}
use tacklebox.Oci.Rootfs.{
  plain, NodeType, Node, node, Children, get, Attrs, attrs, children, is_dir, lookup_parts,
}
use tacklebox.Oci.Rootfs.Entries.{
  step_into, lookup_parts-cons, lookup_parts-put_self, lookup_parts-put_ne,
}
use tacklebox.Oci.Rootfs.Apply.{dir_at, in_parent, at_root, last_part}

-- The path beside `parts` with the last component `x`.
abbrev pub sibling : List Bytes → Bytes → List Bytes
sibling [] x = x ∷ []
sibling (p ∷ []) x = x ∷ []
sibling (p ∷ q ∷ r) x = p ∷ sibling (q ∷ r) x

-- The children of the parent directory of `parts`: none, where it is missing or not a directory.
abbrev pub parent_children : List Bytes → Children → Children
parent_children [] es = es
parent_children (p ∷ []) es = es
parent_children (p ∷ q ∷ r) es = parent_children (q ∷ r) (children (dir_at (get p es)))

-- The paths part before the last component of the first.
abbrev pub Diverges : List Bytes → List Bytes → Type 0
Diverges (p ∷ q ∷ r) (x ∷ xs) = (p ≢ x) ⊎ ((p ≡ x) × Diverges (q ∷ r) xs)
Diverges _ _ = ⊥

dir_at-dir : (o : Option Node) → is_dir (attrs (dir_at o)).kind ≡ true
unfolding dir_at
dir_at-dir none = refl
dir_at-dir (some (node a es)) = ground arith

-- A lookup below a directory sees the child that `dirOf` goes on in, if there is more to look up.
step_into-dir_at :
    (o : Option Node) (p : Bytes) (ps : List Bytes)
    → step_into true o (p ∷ ps) ≡ lookup_parts (dir_at o) (p ∷ ps)
unfolding step_into dir_at lookup_parts get
step_into-dir_at none p ps = refl
step_into-dir_at (some (node a es)) p ps = ground arith

dir_at_lem :
    (a : Attrs) (es : Children) (p y : Bytes) (ys : List Bytes)
    → is_dir a.kind ≡ true
    → lookup_parts (node a es) (p ∷ y ∷ ys) ≡ lookup_parts (dir_at (get p es)) (y ∷ ys)
dir_at_lem a es p y ys d =
    lookup_parts-cons a es p (y ∷ ys)
    ∙ ap (λ b. step_into b (get p es) (y ∷ ys)) d
    ∙ step_into-dir_at (get p es) y ys

node_lem : (n : Node) → node (attrs n) (children n) ≡ n
node_lem (node a es) = refl

Diverges-ne-nil : (parts : List Bytes) → Diverges parts [] → ⊥
Diverges-ne-nil [] h = h
Diverges-ne-nil (p ∷ []) h = h
Diverges-ne-nil (p ∷ q ∷ r) h = h

-- The same for a path of which only its being there is known.
dir_at-sibling :
    (a : Attrs) (es : Children) (p q : Bytes) (s : List Bytes) (x : Bytes) (r : List Bytes)
    → is_dir a.kind ≡ true
    → lookup_parts (node a es) (p ∷ (sibling (q ∷ s) x ++ r))
      ≡ lookup_parts (dir_at (get p es)) (sibling (q ∷ s) x ++ r)
dir_at-sibling a es p q [] x r d = dir_at_lem a es p x r d
dir_at-sibling a es p q (t ∷ s) x r d = dir_at_lem a es p q (sibling (t ∷ s) x ++ r) d

module _ (f : Bytes → Children → Children) where
  -- Beside the last component, a lookup sees the parent's children as `f` leaves them.
  pub lookup-at_root-sibling :
      (parts : List Bytes) (a : Attrs) (es : Children) (x : Bytes) (r : List Bytes)
      → parts ≢ []
      → is_dir a.kind ≡ true
      → lookup_parts (at_root f parts (node a es)) (sibling parts x ++ r)
        ≡ step_into true (get x (f (last_part parts) (parent_children parts es))) r
  unfolding in_parent
  lookup-at_root-sibling [] a es x r n d = absurd (n refl)
  lookup-at_root-sibling (p ∷ []) a es x r n d =
      lookup_parts-cons a (f p es) x r ∙ ap (λ b. step_into b (get x (f p es)) r) d
  lookup-at_root-sibling (p ∷ q ∷ s) a es x r n d =
      let c = dir_at (get p es) in
      let inner = node (attrs c) (in_parent f (q ∷ s) (children c)) in
      lookup_parts-put_self a inner es p (sibling (q ∷ s) x ++ r) d
      ∙ lookup-at_root-sibling (q ∷ s) (attrs c) (children c) x r (λ e. cc e)
          (dir_at-dir (get p es))

  -- Nothing changes on a path that parts from the changed one before its last component.
  pub lookup-at_root-Diverges :
      (parts : List Bytes) (a : Attrs) (es : Children) (path : List Bytes)
      → Diverges parts path
      → is_dir a.kind ≡ true
      → lookup_parts (at_root f parts (node a es)) path ≡ lookup_parts (node a es) path
  unfolding in_parent
  lookup-at_root-Diverges [] a es path h d = absurd h
  lookup-at_root-Diverges (p ∷ []) a es path h d = absurd h
  lookup-at_root-Diverges (p ∷ q ∷ s) a es [] h d = absurd h
  lookup-at_root-Diverges (p ∷ q ∷ s) a es (x ∷ xs) (inl n) d = lookup_parts-put_ne a _ es p x xs n
  lookup-at_root-Diverges (p ∷ q ∷ s) a es (x ∷ []) (inr (e, h)) d =
      absurd (Diverges-ne-nil (q ∷ s) h)
  lookup-at_root-Diverges (p ∷ q ∷ s) a es (x ∷ y ∷ ys) (inr (e, h)) d =
      let c = dir_at (get p es) in
      let inner = node (attrs c) (in_parent f (q ∷ s) (children c)) in
      rw (← e) (
        lookup_parts-put_self a inner es p (y ∷ ys) d
        ∙ lookup-at_root-Diverges (q ∷ s) (attrs c) (children c) (y ∷ ys) h (dir_at-dir (get p es))
        ∙ ap (λ n. lookup_parts n (y ∷ ys)) (node_lem c)
        ∙ sym (dir_at_lem a es p y ys d))

-- A directory on the way to the path: a proper beginning of it.
abbrev pub IsAbove : List Bytes → List Bytes → Type 0
IsAbove [] (p ∷ ps) = Unit
IsAbove (x ∷ xs) (p ∷ q ∷ r) = (x ≡ p) × IsAbove xs (q ∷ r)
IsAbove _ _ = ⊥

-- The attributes of a directory that is there, and of a new one, of mode 0755, where none is.
abbrev pub dir_attrs : Option Node → Attrs
dir_attrs none = plain NodeType.dir 0o755
dir_attrs (some (node a es)) = if is_dir a.kind then a else plain NodeType.dir 0o755

abbrev pub attrs_of : Option Node → Option Attrs
attrs_of none = none
attrs_of (some n) = some (attrs n)

dir_attrs-step_into :
    (o : Option Node) (xs : List Bytes)
    → dir_attrs (lookup_parts (dir_at o) xs) ≡ dir_attrs (step_into true o xs)
unfolding dir_at step_into lookup_parts
dir_attrs-step_into none [] = refl
dir_attrs-step_into (some (node a es)) [] = ground arith
dir_attrs-step_into o (y ∷ ys) = ap dir_attrs (sym (step_into-dir_at o y ys))

-- A directory on the way keeps its attributes, or is made.
pub lookup-at_root-IsAbove :
    (f : Bytes → Children → Children) (parts : List Bytes) (a : Attrs) (es : Children)
    (up : List Bytes)
    → IsAbove up parts
    → is_dir a.kind ≡ true
    → attrs_of (lookup_parts (at_root f parts (node a es)) up)
      ≡ some (dir_attrs (lookup_parts (node a es) up))
unfolding in_parent
lookup-at_root-IsAbove f [] a es [] h d = absurd h
lookup-at_root-IsAbove f [] a es (x ∷ xs) h d = absurd h
lookup-at_root-IsAbove f (p ∷ ps) a es [] h d = unfold lookup_parts in rw d refl
lookup-at_root-IsAbove f (p ∷ []) a es (x ∷ xs) h d = absurd h
lookup-at_root-IsAbove f (p ∷ q ∷ r) a es (x ∷ xs) (e, h) d =
    let c = dir_at (get p es) in
    let inner = node (attrs c) (in_parent f (q ∷ r) (children c)) in
    rw e (
      ap attrs_of (lookup_parts-put_self a inner es p xs d)
      ∙ lookup-at_root-IsAbove f (q ∷ r) (attrs c) (children c) xs h (dir_at-dir (get p es))
      ∙ ap (λ n. some (dir_attrs (lookup_parts n xs))) (node_lem c)
      ∙ ap some (dir_attrs-step_into (get p es) xs)
      ∙ ap (λ b. some (dir_attrs (step_into b (get p es) xs))) (sym d)
      ∙ ap (λ o. some (dir_attrs o)) (sym (lookup_parts-cons a es p xs)))

-- Before the change, a lookup beside the last component sees the same parent.
pub lookup-sibling :
    (parts : List Bytes) (a : Attrs) (es : Children) (x : Bytes) (r : List Bytes)
    → parts ≢ []
    → is_dir a.kind ≡ true
    → lookup_parts (node a es) (sibling parts x ++ r)
      ≡ step_into true (get x (parent_children parts es)) r
lookup-sibling [] a es x r n d = absurd (n refl)
lookup-sibling (p ∷ []) a es x r n d =
    lookup_parts-cons a es x r ∙ ap (λ b. step_into b (get x es) r) d
lookup-sibling (p ∷ q ∷ s) a es x r n d =
    let c = dir_at (get p es) in
    dir_at-sibling a es p q s x r d
    ∙ ap (λ n. lookup_parts n (sibling (q ∷ s) x ++ r)) (sym (node_lem c))
    ∙ lookup-sibling (q ∷ s) (attrs c) (children c) x r (λ e. cc e) (dir_at-dir (get p es))
