-- ===== src/Kargs/Distinct.antt =====
-- The arguments that `Parse` of internal/kargsd/kargsd.go returns, against those of the files.
use tacklebox.Common.{
  one_name, Bytes, List, [], ◌∷◌, ◌++◌, ◌≡◌, ◌⊎◌, inl, inr, refl, sym, ap, subst, ◌∙◌, Bool, true,
  false, ◌||◌, arith, map, bytes_eq, bytes_eq_iff,
}
use tacklebox.Kargs.{
  Decoded, Parsed, ok, identity, Kargs, added, add_arg, add_args, Use, fail, skip, use_args,
  read_config, followed_by, parse_files, parse,
}

-- No name occurs twice.
abbrev pub AreDistinct : List Bytes → Type 0
AreDistinct [] = Unit
AreDistinct (x ∷ xs) = (one_name x xs ≡ false) × AreDistinct xs

one_name-append :
    (s x : Bytes) (xs : List Bytes) → one_name s (xs ++ x ∷ []) ≡ (one_name s xs || bytes_eq x s)
one_name-append s x [] = ground arith
one_name-append s x (y ∷ ys) = ground (arith, one_name-append s x ys)

AreDistinct-append :
    (x : Bytes) (xs : List Bytes)
    → AreDistinct xs
    → one_name x xs ≡ false
    → AreDistinct (xs ++ x ∷ [])
AreDistinct-append x [] d n = (refl, tt)
AreDistinct-append x (y ∷ ys) d n = (
  ground (arith, one_name-append y x ys, bytes_eq_iff x y, bytes_eq_iff y x, d.0),
  AreDistinct-append x ys d.1 (ground arith),
)

map-append :
    (xs : List Bytes) (p : Bytes) → map identity (xs ++ p ∷ []) ≡ map identity xs ++ identity p ∷ []
map-append [] p = refl
map-append (x ∷ xs) p = ap (λ t. identity x ∷ t) (map-append xs p)

-- `seen` is what the arguments so far are compared by, each once.
record IsKept (st : Kargs) : Type 0 where
  pub same : st.seen ≡ map identity st.out
  pub once : AreDistinct st.seen

added-IsKept :
    (b : Bool) (p : Bytes) (st : Kargs)
    → one_name (identity p) st.seen ≡ b
    → IsKept st
    → IsKept (added b p st)
unfolding added
added-IsKept true p st n k = k
added-IsKept false p st n k = record {
  same = ap (λ t. t ++ identity p ∷ []) k.same ∙ sym (map-append st.out p);
  once = AreDistinct-append (identity p) st.seen k.once n;
}

add_args-IsKept : (ps : List Bytes) (st : Kargs) → IsKept st → IsKept (add_args ps st)
unfolding add_args add_arg
add_args-IsKept [] st k = k
add_args-IsKept (p ∷ ps) st k = add_args-IsKept ps _ (added-IsKept _ p st refl k)

-- A round that does not fail passes the state on, with or without new arguments.
followed_by-ok :
    (u : Use) (st : Kargs) (rest : Kargs → Parsed) {out : List Bytes}
    → followed_by u st rest ≡ ok out
    → ((u ≡ skip) × (rest st ≡ ok out))
      ⊎ ((ps : List Bytes) × (u ≡ use_args ps) × (rest (add_args ps st) ≡ ok out))
followed_by-ok (fail e) st rest h = absurd (cc h)
followed_by-ok skip st rest h = inl (refl, h)
followed_by-ok (use_args ps) st rest h = inr (ps, refl, h)

module _ (decode : Bytes → Decoded) where
  parse_files-AreDistinct :
      (arch : Bytes) (fs : List (Bytes × Bytes)) (st : Kargs) {out : List Bytes}
      → IsKept st
      → parse_files decode arch fs st ≡ ok out
      → AreDistinct (map identity out)
  unfolding parse_files
  parse_files-AreDistinct arch [] st {out} k h =
      let e : st.out ≡ out = cc h in
      subst (λ t. AreDistinct (map identity t)) e (subst AreDistinct k.same k.once)
  parse_files-AreDistinct arch ((name, body) ∷ fs) st {out} k h =
      elim (followed_by-ok (read_config name arch (decode body)) st _ h) [
        | inl (skipped, h') ↦ parse_files-AreDistinct arch fs st k h'
        | inr (ps, used, h') ↦ parse_files-AreDistinct arch fs _ (add_args-IsKept ps st k) h'
      ]

  nothing-IsKept : IsKept (record { seen = []; out = [] })
  nothing-IsKept = record { same = refl; once = tt }

  -- Of the arguments that `Parse` returns no two are the same to bootc: their identities are
  -- distinct. Condition: the directory is parsed without an error.
  pub parse-AreDistinct :
      (files : List (Bytes × Bytes)) (arch : Bytes) {out : List Bytes}
      → parse decode files arch ≡ ok out
      → AreDistinct (map identity out)
  unfolding parse
  parse-AreDistinct files arch {out} h = parse_files-AreDistinct _ _ _ nothing-IsKept h
