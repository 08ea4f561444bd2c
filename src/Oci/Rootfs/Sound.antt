-- ===== src/Oci/Rootfs/Sound.antt =====
-- The trees that `Unpack` (internal/oci/unpack.go) builds, as file trees.
use tacklebox.Common.{
  ℕ, Bytes, List, [], ◌∷◌, ◌≡◌, inl, inr, refl, Bool, true, false, ◌&&◌, Option, some, none,
  bytes_eq, Bool-cases,
}
use tacklebox.Oci.Rootfs.{
  Node, node, Children, nil, cons, get, put, delete, Attrs, attrs, children, is_dir, empty_root,
}
use tacklebox.Oci.Rootfs.Paths.{IsComponent, AllComponents, split_clean-AllComponents}
use tacklebox.Oci.Rootfs.Apply.{
  TypeFlag, Header, PutBody, Marker, opaque_dir, whiteout, entry, dir_at, in_parent, merged_dir,
  apply_typed, apply_marked, changed, stored_file, Change, ◌>>=◌, apply_root, apply_parts,
  apply_entry, apply_layer, apply_layers, unpack, is_reg, trim_slashes,
}

mutual
  pub data IsSound : Node → Type 0 where
    sound :
        {a : Attrs} {es : Children}
        → (is_dir a.kind ≡ false → es ≡ nil)
        → AreSound es
        → IsSound (node a es)

  pub data AreSound : Children → Type 0 where
    empty : AreSound nil
    also :
        {k : Bytes} {n : Node} {es : Children}
        → IsComponent k
        → IsSound n
        → AreSound es
        → AreSound (cons k n es)

leaf-IsSound : (a : Attrs) → IsSound (node a nil)
leaf-IsSound a = sound (λ d. refl) empty

put-AreSound :
    (k : Bytes) (n : Node) (es : Children)
    → IsComponent k
    → IsSound n
    → AreSound es
    → AreSound (put k n es)
unfolding put
put-AreSound k n nil c h empty = also c h empty
put-AreSound k n (cons j m es) c h (also d i t) = elim (Bool-cases (bytes_eq j k)) [
  | inl same ↦ rw same (also c h t)
  | inr other ↦ rw other (also d i (put-AreSound k n es c h t))
]

delete-AreSound : (k : Bytes) (es : Children) → AreSound es → AreSound (delete k es)
unfolding delete
delete-AreSound k nil empty = empty
delete-AreSound k (cons j m es) (also d i t) = elim (Bool-cases (bytes_eq j k)) [
  | inl same ↦ rw same (delete-AreSound k es t)
  | inr other ↦ rw other (also d i (delete-AreSound k es t))
]

abbrev SoundOption : Option Node → Type 0
SoundOption none = Unit
SoundOption (some n) = IsSound n

get-SoundOption : (k : Bytes) (es : Children) → AreSound es → SoundOption (get k es)
unfolding get
get-SoundOption k nil empty = tt
get-SoundOption k (cons j m es) (also d i t) = elim (Bool-cases (bytes_eq j k)) [
  | inl same ↦ rw same i
  | inr other ↦ rw other (get-SoundOption k es t)
]

children-AreSound : (n : Node) → IsSound n → AreSound (children n)
children-AreSound (node a es) (sound d t) = t

dir_at-IsSound :
    (o : Option Node) → SoundOption o → IsSound (dir_at o) × (is_dir (attrs (dir_at o)).kind ≡ true)
unfolding dir_at
dir_at-IsSound none h = (leaf-IsSound _, refl)
dir_at-IsSound (some (node a es)) h = elim (Bool-cases (is_dir a.kind)) [
  | inl d ↦ rw d (h, d)
  | inr other ↦ rw other (leaf-IsSound _, refl)
]

-- A change of a directory's children keeps them sound.
abbrev Keeps : (Bytes → Children → Children) → Type 0
Keeps f = (k : Bytes) (es : Children) → IsComponent k → AreSound es → AreSound (f k es)

in_parent-AreSound :
    (f : Bytes → Children → Children) (parts : List Bytes) (es : Children)
    → Keeps f
    → AllComponents parts
    → AreSound es
    → AreSound (in_parent f parts es)
unfolding in_parent
in_parent-AreSound f [] es keep c h = h
in_parent-AreSound f (p ∷ []) es keep c h = keep p es c.0 h
in_parent-AreSound f (p ∷ q ∷ r) es keep c h =
    let (inner, d) = dir_at-IsSound (get p es) (get-SoundOption p es h) in
    put-AreSound p _ es c.0
      (sound (λ e. cc (d, e)) (in_parent-AreSound f (q ∷ r) _ keep c.1 (children-AreSound _ inner)))
      h

merged_dir-IsSound : (h : Header) (o : Option Node) → SoundOption o → IsSound (merged_dir h o)
unfolding merged_dir
merged_dir-IsSound h none s = leaf-IsSound _
merged_dir-IsSound h (some (node a es)) (sound d t) = elim (Bool-cases (is_dir a.kind)) [
  | inl e ↦ rw e (sound d t)
  | inr e ↦ rw e (leaf-IsSound _)
]

abbrev KeepsResult : {S : Type 0} → Option (Change × S) → Type 0
KeepsResult none = Unit
KeepsResult (some (f, s)) = Keeps f

leaf-Keeps : (a : Attrs) → Keeps (λ name es. put name (node a nil) es)
leaf-Keeps a k es c t = put-AreSound k _ es c (leaf-IsSound a) t

stored_file-Keeps :
    {S : Type 0} (h : Header) (o : Option ((Bytes × ℕ) × S)) → KeepsResult (stored_file h o)
unfolding stored_file
stored_file-Keeps h none = tt
stored_file-Keeps h (some ((ref, size), s)) = leaf-Keeps _

-- What a result holds is a sound tree with a directory for its root.
abbrev pub SoundResult : {S : Type 0} → Option (Node × S) → Type 0
SoundResult none = Unit
SoundResult (some (root, s)) = IsSound root × (is_dir (attrs root).kind ≡ true)

changed-SoundResult :
    {S : Type 0} (parts : List Bytes) (root : Node) (o : Option (Change × S))
    → KeepsResult o
    → AllComponents parts
    → IsSound root
    → is_dir (attrs root).kind ≡ true
    → SoundResult (changed parts root o)
unfolding changed
changed-SoundResult parts root none k c t d = tt
changed-SoundResult parts (node a es) (some (f, s)) k c (sound e t) d =
    (sound (λ x. cc (d, x)) (in_parent-AreSound f parts es k c t), d)

apply_root-IsSound :
    (t : TypeFlag) (h : Header) (root : Node)
    → IsSound root
    → is_dir (attrs root).kind ≡ true
    → IsSound (apply_root t h root) × (is_dir (attrs (apply_root t h root)).kind ≡ true)
unfolding apply_root
apply_root-IsSound TypeFlag.dir h (node a es) (sound e t) d = (sound e t, d)
apply_root-IsSound _ h root t d = (t, d)

bind-SoundResult :
    {S : Type 0} (o : Option (Node × S)) (f : Node × S → Option (Node × S))
    → SoundResult o
    → ((root : Node) (s : S)
        → IsSound root
        → is_dir (attrs root).kind ≡ true
        → SoundResult (f (root, s)))
    → SoundResult (o >>= f)
bind-SoundResult none f h k = tt
bind-SoundResult (some (root, s)) f h k = k root s h.0 h.1

module _ {S : Type 0} (put_body : PutBody S) where
  apply_typed-Keeps :
      (t : TypeFlag) (h : Header) (body : Bytes) (s : S)
      → KeepsResult (apply_typed put_body t h body s)
  unfolding apply_typed
  apply_typed-Keeps TypeFlag.dir h body s =
      λ k es c t. put-AreSound k _ es c (merged_dir-IsSound h _ (get-SoundOption k es t)) t
  apply_typed-Keeps TypeFlag.reg h body s = stored_file-Keeps h (put_body s body)
  apply_typed-Keeps TypeFlag.other h body s = λ k es c t. t
  apply_typed-Keeps _ h body s = leaf-Keeps _

  apply_marked-Keeps :
      (m : Marker) (h : Header) (body : Bytes) (s : S)
      → KeepsResult (apply_marked put_body m h body s)
  unfolding apply_marked
  apply_marked-Keeps opaque_dir h body s = λ k es c t. empty
  apply_marked-Keeps (whiteout x) h body s = λ k es c t. delete-AreSound x es t
  apply_marked-Keeps entry h body s = apply_typed-Keeps h.typeflag h body s

  apply_parts-SoundResult :
      (parts : List Bytes) (h : Header) (body : Bytes) (root : Node) (s : S)
      → AllComponents parts
      → IsSound root
      → is_dir (attrs root).kind ≡ true
      → SoundResult (apply_parts put_body parts h body root s)
  unfolding apply_parts
  apply_parts-SoundResult [] h body root s c t d = apply_root-IsSound h.typeflag h root t d
  apply_parts-SoundResult (p ∷ ps) h body root s c t d =
      changed-SoundResult (p ∷ ps) root _ (apply_marked-Keeps _ h body s) c t d

  apply_entry-SoundResult :
      (skip : Bytes → Bool) (h : Header) (body : Bytes) (root : Node) (s : S)
      → IsSound root
      → is_dir (attrs root).kind ≡ true
      → SoundResult (apply_entry put_body skip h body root s)
  unfolding apply_entry
  apply_entry-SoundResult skip h body root s t d =
      elim (Bool-cases (is_reg h.typeflag && skip (trim_slashes h.name))) [
        | inl skipped ↦ rw skipped (t, d)
        | inr taken ↦
            rw taken
              (apply_parts-SoundResult _ h body root s (split_clean-AllComponents h.name) t d)
      ]

  apply_layer-SoundResult :
      (skip : Bytes → Bool) (l : List (Header × Bytes)) (root : Node) (s : S)
      → IsSound root
      → is_dir (attrs root).kind ≡ true
      → SoundResult (apply_layer put_body skip l root s)
  unfolding apply_layer
  apply_layer-SoundResult skip [] root s t d = (t, d)
  apply_layer-SoundResult skip ((h, body) ∷ r) root s t d =
      bind-SoundResult _ _ (apply_entry-SoundResult skip h body root s t d)
        (λ root' s' t' d'. apply_layer-SoundResult skip r root' s' t' d')

  apply_layers-SoundResult :
      (skip : Bytes → Bool) (ls : List (List (Header × Bytes))) (root : Node) (s : S)
      → IsSound root
      → is_dir (attrs root).kind ≡ true
      → SoundResult (apply_layers put_body skip ls root s)
  unfolding apply_layers
  apply_layers-SoundResult skip [] root s t d = (t, d)
  apply_layers-SoundResult skip (l ∷ ls) root s t d =
      bind-SoundResult _ _ (apply_layer-SoundResult skip l root s t d)
        (λ root' s' t' d'. apply_layers-SoundResult skip ls root' s' t' d')

  -- Whatever the layers hold, the root that Unpack returns is a directory in which every name at
  -- every depth is a proper component (never empty, ".", "..", nor with a slash) and in which only
  -- directories have entries.
  pub unpack-SoundResult :
      (skip : Bytes → Bool) (layers : List (List (Header × Bytes))) (s : S)
      → SoundResult (unpack put_body skip layers s)
  unfolding unpack
  unpack-SoundResult skip layers s =
      apply_layers-SoundResult skip layers empty_root s (leaf-IsSound _) refl
