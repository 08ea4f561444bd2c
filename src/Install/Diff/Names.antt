-- ===== src/Install/Diff/Names.antt =====
-- Names and directory entries of internal/install/treediff.go.
use tacklebox.Common.{
  Bytes, List, [], ◌∷◌, ◌≡◌, ◌≢◌, ◌⊎◌, inl, inr, refl, sym, ap, subst, ◌∙◌, true, false, Bool-cases,
  Option, some, none, bytes_eq, bytes_eq_iff, bytes_eq_refl, one_name, ◌||◌, before, if◌then◌else◌,
}
use tacklebox.Install.Diff.{
  Node, Tree, empty, entry, find, set, unset, set_to, add_name, insert_name, sort_names, add_names,
  sorted_names,
}

pub bytes_eq_sound : {a b : Bytes} → bytes_eq a b ≡ true → a ≡ b
bytes_eq_sound {a} {b} h = (bytes_eq_iff a b).0 h

pub bytes_eq-false : {a b : Bytes} → a ≢ b → bytes_eq a b ≡ false
bytes_eq-false {a} {b} n = elim (Bool-cases (bytes_eq a b)) [
  | inl y ↦ absurd (n (bytes_eq_sound y))
  | inr e ↦ e
]

pub distinct_lem : {a b : Bytes} → bytes_eq a b ≡ false → a ≢ b
distinct_lem {a} {b} e q = cc (e, subst (λ t. bytes_eq t b ≡ true) (sym q) (bytes_eq_refl b))

pub find_head : (k : Bytes) (n : Node) (es : Tree) → find k (entry k n es) ≡ some n
unfolding find
find_head k n es = rw (bytes_eq_refl k) refl

pub find_tail : {j k : Bytes} (n : Node) (es : Tree) → j ≢ k → find k (entry j n es) ≡ find k es
unfolding find
find_tail n es d = rw (bytes_eq-false d) refl

find-entry :
    (i k : Bytes) (n : Node) (es : Tree)
    → find k (entry i n es) ≡ (if bytes_eq i k then some n else find k es)
unfolding find
find-entry i k n es = refl

find_cong :
    (i k : Bytes) (n : Node) (es fs : Tree)
    → find k es ≡ find k fs
    → find k (entry i n es) ≡ find k (entry i n fs)
find_cong i k n es fs h =
    find-entry i k n es ∙ ap (λ t. if bytes_eq i k then some n else t) h ∙ sym (find-entry i k n fs)

find_skip :
    (i k : Bytes) (n : Node) (es : Tree) → bytes_eq i k ≡ false → find k (entry i n es) ≡ find k es
unfolding find
find_skip i k n es h = rw h refl

find-set : (k : Bytes) (c : Node) (es : Tree) → find k (set k c es) ≡ some c
unfolding set
find-set k c empty = find_head k c empty
find-set k c (entry j n es) = elim (Bool-cases (bytes_eq j k)) [
  | inl y ↦ rw y (find_head k c es)
  | inr e ↦ rw e (find_skip j k n _ e ∙ find-set k c es)
]

find-set-other : (j k : Bytes) (c : Node) (es : Tree) → j ≢ k → find k (set j c es) ≡ find k es
unfolding set
find-set-other j k c empty d = find_tail c empty d
find-set-other j k c (entry i n es) d = elim (Bool-cases (bytes_eq i j)) [
  | inl y ↦ rw y (find_tail c es d ∙ sym (find_tail n es (λ e. d (sym (bytes_eq_sound y) ∙ e))))
  | inr e ↦ rw e (find_cong i k n _ _ (find-set-other j k c es d))
]

find-unset : (k : Bytes) (es : Tree) → find k (unset k es) ≡ none
unfolding unset find
find-unset k empty = refl
find-unset k (entry j n es) = elim (Bool-cases (bytes_eq j k)) [
  | inl y ↦ rw y (find-unset k es)
  | inr e ↦ rw (e, e) (find-unset k es)
]

find-unset-other : (j k : Bytes) (es : Tree) → j ≢ k → find k (unset j es) ≡ find k es
unfolding unset
find-unset-other j k empty d = refl
find-unset-other j k (entry i n es) d = elim (Bool-cases (bytes_eq i j)) [
  | inl y ↦
      rw y (find-unset-other j k es d ∙ sym (find_tail n es (λ e. d (sym (bytes_eq_sound y) ∙ e))))
  | inr e ↦ rw e (find_cong i k n _ _ (find-unset-other j k es d))
]

pub find-set_to : (k : Bytes) (c : Option Node) (es : Tree) → find k (set_to k c es) ≡ c
unfolding set_to
find-set_to k none es = find-unset k es
find-set_to k (some c) es = find-set k c es

pub find-set_to-other :
    (j k : Bytes) (c : Option Node) (es : Tree) → j ≢ k → find k (set_to j c es) ≡ find k es
unfolding set_to
find-set_to-other j k none es d = find-unset-other j k es d
find-set_to-other j k (some c) es d = find-set-other j k c es d

-- A name that is nowhere in a list; a list without repetitions.
abbrev pub Fresh : Bytes → List Bytes → Type 0
Fresh k [] = Unit
Fresh k (j ∷ ks) = (j ≢ k) × Fresh k ks

abbrev pub AreDistinct : List Bytes → Type 0
AreDistinct [] = Unit
AreDistinct (k ∷ ks) = Fresh k ks × AreDistinct ks

abbrev pub IsOneOf : Bytes → List Bytes → Type 0
IsOneOf k [] = ⊥
IsOneOf k (j ∷ ks) = (j ≡ k) ⊎ IsOneOf k ks

pub IsOneOf-or_Fresh : (k : Bytes) (ks : List Bytes) → IsOneOf k ks ⊎ Fresh k ks
IsOneOf-or_Fresh k [] = inr tt
IsOneOf-or_Fresh k (j ∷ ks) = elim (Bool-cases (bytes_eq j k)) [
  | inl y ↦ inl (inl (bytes_eq_sound y))
  | inr e ↦ elim (IsOneOf-or_Fresh k ks) [ inl o ↦ inl (inr o) | inr f ↦ inr ((distinct_lem e), f) ]
]

insert_name-Fresh :
    (i k : Bytes) (ks : List Bytes) → k ≢ i → Fresh i ks → Fresh i (insert_name k ks)
unfolding insert_name
insert_name-Fresh i k [] d f = (d, tt)
insert_name-Fresh i k (j ∷ ks) d f = elim (Bool-cases (before k j)) [
  | inl b ↦ rw b (d, f)
  | inr b ↦ rw b (f.0, insert_name-Fresh i k ks d f.1)
]

insert_name-AreDistinct :
    (k : Bytes) (ks : List Bytes) → Fresh k ks → AreDistinct ks → AreDistinct (insert_name k ks)
unfolding insert_name
insert_name-AreDistinct k [] f h = (tt, tt)
insert_name-AreDistinct k (j ∷ ks) f h = elim (Bool-cases (before k j)) [
  | inl b ↦ rw b (f, h)
  | inr b ↦
      rw b (insert_name-Fresh j k ks (λ e. f.0 (sym e)) h.0, insert_name-AreDistinct k ks f.1 h.1)
]

insert_name-IsOneOf :
    (i k : Bytes) (ks : List Bytes) → IsOneOf i (k ∷ ks) → IsOneOf i (insert_name k ks)
unfolding insert_name
insert_name-IsOneOf i k [] h = h
insert_name-IsOneOf i k (j ∷ ks) h = elim (Bool-cases (before k j)) [
  | inl b ↦ rw b h
  | inr b ↦ rw b (elim h [
    | inl q ↦ inr (insert_name-IsOneOf i k ks (inl q))
    | inr o ↦ elim o [ inl q ↦ inl q | inr r ↦ inr (insert_name-IsOneOf i k ks (inr r)) ]
  ])
]

sort_names-Fresh : (i : Bytes) (ks : List Bytes) → Fresh i ks → Fresh i (sort_names ks)
unfolding sort_names
sort_names-Fresh i [] f = f
sort_names-Fresh i (k ∷ ks) f = insert_name-Fresh i k _ f.0 (sort_names-Fresh i ks f.1)

sort_names-AreDistinct : (ks : List Bytes) → AreDistinct ks → AreDistinct (sort_names ks)
unfolding sort_names
sort_names-AreDistinct [] h = h
sort_names-AreDistinct (k ∷ ks) h =
    insert_name-AreDistinct k _ (sort_names-Fresh k ks h.0) (sort_names-AreDistinct ks h.1)

sort_names-IsOneOf : (i : Bytes) (ks : List Bytes) → IsOneOf i ks → IsOneOf i (sort_names ks)
unfolding sort_names
sort_names-IsOneOf i [] h = h
sort_names-IsOneOf i (k ∷ ks) h =
    insert_name-IsOneOf i k _ (elim h [ inl q ↦ inl q | inr o ↦ inr (sort_names-IsOneOf i ks o) ])

one_name-Fresh : (k : Bytes) (ks : List Bytes) → one_name k ks ≡ false → Fresh k ks
one_name-Fresh k [] h = tt
one_name-Fresh k (j ∷ ks) h = elim (Bool-cases (bytes_eq j k)) [
  | inl y ↦ absurd (cc (subst (λ t. (t || one_name k ks) ≡ false) y h))
  | inr e ↦ (distinct_lem e, one_name-Fresh k ks (subst (λ t. (t || one_name k ks) ≡ false) e h))
]

one_name-IsOneOf : (k : Bytes) (ks : List Bytes) → one_name k ks ≡ true → IsOneOf k ks
one_name-IsOneOf k [] h = absurd (cc h)
one_name-IsOneOf k (j ∷ ks) h = elim (Bool-cases (bytes_eq j k)) [
  | inl y ↦ inl (bytes_eq_sound y)
  | inr e ↦ inr (one_name-IsOneOf k ks (subst (λ t. (t || one_name k ks) ≡ true) e h))
]

add_names-AreDistinct :
    (es : Tree) (ks : List Bytes) → AreDistinct ks → AreDistinct (add_names es ks)
unfolding add_names add_name
add_names-AreDistinct empty ks h = h
add_names-AreDistinct (entry k n es) ks h = elim (Bool-cases (one_name k ks)) [
  | inl y ↦ rw y (add_names-AreDistinct es ks h)
  | inr e ↦ rw e (add_names-AreDistinct es (k ∷ ks) (one_name-Fresh k ks e, h))
]

add_names_keeps :
    (i : Bytes) (es : Tree) (ks : List Bytes) → IsOneOf i ks → IsOneOf i (add_names es ks)
unfolding add_names add_name
add_names_keeps i empty ks h = h
add_names_keeps i (entry k n es) ks h = elim (Bool-cases (one_name k ks)) [
  | inl y ↦ rw y (add_names_keeps i es ks h)
  | inr e ↦ rw e (add_names_keeps i es (k ∷ ks) (inr h))
]

-- A name of the tree is collected.
add_names-IsOneOf :
    (i : Bytes) (es : Tree) (ks : List Bytes) → (find i es ≡ none) ⊎ IsOneOf i (add_names es ks)
unfolding add_names add_name
add_names-IsOneOf i empty ks = unfold find in inl refl
add_names-IsOneOf i (entry k n es) ks =
    let there : IsOneOf i (if one_name k ks then ks else k ∷ ks)
        → IsOneOf i (add_names es (if one_name k ks then ks else k ∷ ks)) =
      λ o. add_names_keeps i es _ o in
    elim (Bool-cases (bytes_eq k i)) [
      | inl y ↦ inr (
          there (elim (Bool-cases (one_name k ks)) [
            | inl o ↦ rw o (subst (λ t. IsOneOf t ks) (bytes_eq_sound y) (one_name-IsOneOf k ks o))
            | inr e ↦ rw e (inl (bytes_eq_sound y))
          ]))
      | inr e ↦ elim (add_names-IsOneOf i es (if one_name k ks then ks else k ∷ ks)) [
        | inl q ↦ inl (find_skip k i n es e ∙ q)
        | inr o ↦ inr o
      ]
    ]

pub sorted_names-AreDistinct : (bs es : Tree) → AreDistinct (sorted_names bs es)
unfolding sorted_names
sorted_names-AreDistinct bs es =
    sort_names-AreDistinct _ (add_names-AreDistinct es _ (add_names-AreDistinct bs [] tt))

-- A name is in the sorted list, or in neither tree.
pub sorted_names_cover :
    (k : Bytes) (bs es : Tree)
    → ((find k bs ≡ none) × (find k es ≡ none)) ⊎ IsOneOf k (sorted_names bs es)
unfolding sorted_names
sorted_names_cover k bs es = elim (add_names-IsOneOf k es (add_names bs [])) [
  | inr o ↦ inr (sort_names-IsOneOf k _ o)
  | inl q ↦ elim (add_names-IsOneOf k bs []) [
    | inl p ↦ inl (p, q)
    | inr o ↦ inr (sort_names-IsOneOf k _ (add_names_keeps k es _ o))
  ]
]
