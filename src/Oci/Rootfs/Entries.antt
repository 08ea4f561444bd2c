-- ===== src/Oci/Rootfs/Entries.antt =====
-- The laws of a directory's children as a map.
use tacklebox.Common.{
  Bytes, List, ◌∷◌, ◌≡◌, ◌≢◌, refl, ◌∙◌, sym, ap, Bool, true, Option, some, none, arith, bytes_eq,
  bytes_eq_iff, bytes_eq_refl, if◌then◌else◌,
}
use tacklebox.Oci.Rootfs.{
  Node, node, Children, nil, cons, get, put, delete, Attrs, is_dir, lookup_parts,
}

pub get-put :
    (k j : Bytes) (c : Node) (es : Children)
    → get j (put k c es) ≡ (if bytes_eq k j then some c else get j es)
unfolding get put
get-put k j c nil = refl
get-put k j c (cons i n es) =
    ground (arith, bytes_eq_iff i k, bytes_eq_iff i j, bytes_eq_iff k j, get-put k j c es)

pub get-delete :
    (k j : Bytes) (es : Children) → get j (delete k es) ≡ (if bytes_eq k j then none else get j es)
unfolding get delete
get-delete k j nil = ground arith
get-delete k j (cons i n es) =
    ground (arith, bytes_eq_iff i k, bytes_eq_iff i j, bytes_eq_iff k j, get-delete k j es)

-- What a lookup does with the child that it finds.
unfoldable pub step_into : Bool → Option Node → List Bytes → Option Node
step_into d none ps = none
step_into d (some c) ps = if d then lookup_parts c ps else none

pub lookup_parts-cons :
    (a : Attrs) (es : Children) (p : Bytes) (ps : List Bytes)
    → lookup_parts (node a es) (p ∷ ps) ≡ step_into (is_dir a.kind) (get p es) ps
unfolding lookup_parts step_into
lookup_parts-cons a es p ps = ground arith

pub step_into-some : (c : Node) (ps : List Bytes) → step_into true (some c) ps ≡ lookup_parts c ps
unfolding step_into
step_into-some c ps = refl

-- Below a directory, once one component is matched.
pub lookup_parts-put_self :
    (a : Attrs) (c : Node) (es : Children) (p : Bytes) (ps : List Bytes)
    → is_dir a.kind ≡ true
    → lookup_parts (node a (put p c es)) (p ∷ ps) ≡ lookup_parts c ps
lookup_parts-put_self a c es p ps d =
    lookup_parts-cons a (put p c es) p ps ∙ rw (get-put, bytes_eq_refl, d) (step_into-some c ps)

pub lookup_parts-put_ne :
    (a : Attrs) (c : Node) (es : Children) (p q : Bytes) (ps : List Bytes)
    → p ≢ q
    → lookup_parts (node a (put p c es)) (q ∷ ps) ≡ lookup_parts (node a es) (q ∷ ps)
lookup_parts-put_ne a c es p q ps n =
    lookup_parts-cons a (put p c es) q ps
    ∙ ap (λ o. step_into (is_dir a.kind) o ps) (get-put p q c es ∙ ground (arith, bytes_eq_iff p q))
    ∙ sym (lookup_parts-cons a es q ps)
