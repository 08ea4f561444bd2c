-- ===== src/Oci/Rootfs/Layers.antt =====
-- What one entry of a layer does to the tree, as a reader of the tree sees it: regular files,
-- whiteouts and opaque markers, and directories that are there already.
use tacklebox.Common.{
  Bytes, List, [], ◌∷◌, ◌++◌, ◌≡◌, ◌≢◌, inl, inr, refl, sym, ap, subst, ◌∙◌, Bool, true, false,
  ◌&&◌, Option, some, none, arith, bytes_eq, bytes_eq_iff, if◌then◌else◌, Bool-cases,
}
use tacklebox.Oci.Rootfs.{Node, node, Children, nil, get, put, Attrs, is_dir, lookup_parts}
use tacklebox.Oci.Rootfs.Entries.{get-put, step_into, step_into-some, lookup_parts-cons}
use tacklebox.Oci.Rootfs.Paths.{split_clean}
use tacklebox.Oci.Rootfs.Apply.{
  TypeFlag, Header, PutBody, opaque_dir, entry, marker_of, last_part, at_root, merged_dir,
  apply_typed, apply_marked, apply_parts, apply_entry, is_reg, trim_slashes,
}
use tacklebox.Oci.Rootfs.Lookup.{
  attrs_of, sibling, parent_children, Diverges, lookup-at_root-sibling, lookup-at_root-Diverges,
  lookup-sibling,
}

step_into-if :
    (b : Bool) (new old : Option Node) (r : List Bytes)
    → step_into true (if b then new else old) r
      ≡ (if b then step_into true new r else step_into true old r)
step_into-if true new old r = refl
step_into-if false new old r = refl

-- What is below a directory stays when an entry for it is merged.
lookup-merged_dir :
    (h : Header) (old : Attrs) (inside : Children) (y : Bytes) (r : List Bytes)
    → is_dir old.kind ≡ true
    → lookup_parts (merged_dir h (some (node old inside))) (y ∷ r)
      ≡ lookup_parts (node old inside) (y ∷ r)
unfolding merged_dir
lookup-merged_dir h old inside y r d =
    rw d (lookup_parts-cons _ inside y r ∙ sym (lookup_parts-cons old inside y r))

-- What a path leads to after an entry, and the store then.
unfoldable pub seen : {S : Type 0} → Option (Node × S) → List Bytes → Option (Option Node × S)
seen none path = none
seen (some (root, s)) path = some (lookup_parts root path, s)

-- The attributes of what a path leads to after an entry.
unfoldable pub found : {S : Type 0} → Option (Node × S) → List Bytes → Option Attrs
found none path = none
found (some (root, s)) path = attrs_of (lookup_parts root path)

-- A change of one name of a directory, seen from the root.
module _ (f : Bytes → Children → Children) (parts : List Bytes) (a : Attrs) (es : Children)
    (some_part : parts ≢ []) (root_dir : is_dir a.kind ≡ true) (key : Bytes) (new : Option Node)
    (changes : (x : Bytes)
      → get x (f (last_part parts) (parent_children parts es))
        ≡ (if bytes_eq key x then new else get x (parent_children parts es))) where
  lookup-changed :
      (x : Bytes) (r : List Bytes)
      → lookup_parts (at_root f parts (node a es)) (sibling parts x ++ r) ≡ (
          if bytes_eq key x
          then step_into true new r
          else lookup_parts (node a es) (sibling parts x ++ r))
  lookup-changed x r =
      lookup-at_root-sibling f parts a es x r some_part root_dir
      ∙ ap (λ o. step_into true o r) (changes x)
      ∙ step_into-if (bytes_eq key x) new _ r
      ∙ ap (λ o. if bytes_eq key x then step_into true new r else o)
          (sym (lookup-sibling parts a es x r some_part root_dir))

module _ {S : Type 0} (put_body : PutBody S) (skip : Bytes → Bool) (h : Header) (body : Bytes)
    (a : Attrs) (es : Children) (s : S) (p : Bytes) (ps : List Bytes)
    (root_dir : is_dir a.kind ≡ true) (named : split_clean h.name ≡ p ∷ ps)
    (taken : (is_reg h.typeflag && skip (trim_slashes h.name)) ≡ false) where
  -- The entry is applied in the parent directory of its path.
  apply_entry-at_root :
      {f : Bytes → Children → Children} {s' : S}
      → apply_marked put_body (marker_of (last_part (p ∷ ps))) h body s ≡ some (f, s')
      → apply_entry put_body skip h body (node a es) s ≡ some (at_root f (p ∷ ps) (node a es), s')
  unfolding apply_entry apply_parts
  apply_entry-at_root {f} {s'} m = rw (taken, named) (ground arith)

  -- An entry that turns the directory into another, as two readers of the tree see it: one below
  -- the entry's parent directory and one that parts from the entry's path before.
  seen-at_root :
      {f : Bytes → Children → Children} {s' : S} {below : Option Node} (here path : List Bytes)
      → apply_marked put_body (marker_of (last_part (p ∷ ps))) h body s ≡ some (f, s')
      → lookup_parts (at_root f (p ∷ ps) (node a es)) here ≡ below
      → Diverges (p ∷ ps) path
      → (seen (apply_entry put_body skip h body (node a es) s) here ≡ some (below, s'))
        × (seen (apply_entry put_body skip h body (node a es) s) path
            ≡ some (lookup_parts (node a es) path, s'))
  unfolding seen
  seen-at_root {f} {s'} {below} here path m e apart =
      let applied = apply_entry-at_root m in
      (
        ap (λ o. seen o here) applied ∙ ap (λ o. some (o, s')) e,
        ap (λ o. seen o path) applied
            ∙ ap (λ o. some (o, s')) (lookup-at_root-Diverges f (p ∷ ps) a es path apart root_dir),
      )

  -- An opaque marker empties its directory: nothing is found below it, and every path that parts
  -- from the marker's before its last component is found as it was. Conditions: the root is a
  -- directory, the entry's name has a component and the caller does not skip it.
  apply_entry-opaque :
      (x : Bytes) (r path : List Bytes)
      → marker_of (last_part (p ∷ ps)) ≡ opaque_dir
      → Diverges (p ∷ ps) path
      → (seen (apply_entry put_body skip h body (node a es) s) (sibling (p ∷ ps) x ++ r)
          ≡ some (none, s))
        × (seen (apply_entry put_body skip h body (node a es) s) path
            ≡ some (lookup_parts (node a es) path, s))
  unfolding apply_marked get
  apply_entry-opaque x r path m = seen-at_root _ _ (rw m) (
      lookup-at_root-sibling (λ name es. nil) (p ∷ ps) a es x r (λ e. cc e) root_dir
      ∙ unfold step_into in refl)

  -- A directory entry for a directory that is there keeps all that is in it, and changes nothing
  -- beside it: every path of two components or more below the parent directory, and every path that
  -- parts from the entry's before its last component, is found as it was. Conditions: the root is a
  -- directory, the entry's name has a component that is not a marker and the caller does not skip it.
  apply_entry-merge :
      {old : Attrs} {inside : Children} (x y : Bytes) (r path : List Bytes)
      → marker_of (last_part (p ∷ ps)) ≡ entry
      → h.typeflag ≡ TypeFlag.dir
      → get (last_part (p ∷ ps)) (parent_children (p ∷ ps) es) ≡ some (node old inside)
      → is_dir old.kind ≡ true
      → Diverges (p ∷ ps) path
      → (seen (apply_entry put_body skip h body (node a es) s) (sibling (p ∷ ps) x ++ (y ∷ r))
          ≡ some (lookup_parts (node a es) (sibling (p ∷ ps) x ++ (y ∷ r)), s))
        × (seen (apply_entry put_body skip h body (node a es) s) path
            ≡ some (lookup_parts (node a es) path, s))
  unfolding apply_marked apply_typed
  apply_entry-merge {old} {inside} x y r path m t there d =
      let f : Bytes → Children → Children = λ name es. put name (merged_dir h (get name es)) es in
      let key = last_part (p ∷ ps) in
      let pc = parent_children (p ∷ ps) es in
      seen-at_root _ _ (rw m (ground arith)) (
        lookup-changed f (p ∷ ps) a es (λ e. cc e) root_dir key (some (merged_dir h (get key pc)))
          (λ x. get-put key x _ pc) x (y ∷ r)
        ∙ elim (Bool-cases (bytes_eq key x)) [
          | inr other ↦ rw other
          | inl same ↦
              let at_x =
                subst (λ k. get k pc ≡ some (node old inside)) ((bytes_eq_iff key x).0 same)
                  there in
              rw same (
                step_into-some (merged_dir h (get key pc)) (y ∷ r)
                ∙ ap (λ o. lookup_parts (merged_dir h o) (y ∷ r)) there
                ∙ lookup-merged_dir h old inside y r d
                ∙ sym (
                    lookup-sibling (p ∷ ps) a es x (y ∷ r) (λ e. cc e) root_dir
                    ∙ ap (λ o. step_into true o (y ∷ r)) at_x
                    ∙ step_into-some (node old inside) (y ∷ r)))
        ])
