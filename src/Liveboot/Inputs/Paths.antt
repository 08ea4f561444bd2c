-- ===== src/Liveboot/Inputs/Paths.antt =====
-- The paths that Input.validate of internal/liveboot/inputs.go lets through.
use tacklebox.Common.{
  Bytes, List, [], ◌∷◌, ◌++◌, ◌≡◌, ◌≢◌, refl, sym, ap, subst, ◌∙◌, false, ◌||◌, arith, codes, join,
  reverse, ◌==◌, bytes_eq, append_assoc, append-nil, Bool-cases, inl, inr,
}
use mathlib.Core.List.{reverse-cons}
use tacklebox.Oci.Rootfs.Paths.{
  split_slash, NoSlash, AllNoSlash, AllComponents, split_slash-AllNoSlash, component,
}
use tacklebox.Liveboot.Inputs.{clean_relative, clean_path, up_from, has_parent, or_dot}

split_slash-append :
    (cur s t : Bytes) → NoSlash s → split_slash cur (s ++ t) ≡ split_slash (cur ++ s) t
unfolding split_slash
split_slash-append cur [] t h = ap (λ c. split_slash c t) (sym (append-nil cur))
split_slash-append cur (c ∷ s) t (hc, hs) =
    let other : (c == b'/') ≡ false = ground (arith, hc) in
    rw other (
      split_slash-append (cur ++ c ∷ []) s t hs
      ∙ ap (λ k. split_slash k t) (append_assoc cur (c ∷ []) s))

-- What is joined by slashes is split into the same parts.
split_slash-join :
    (p : Bytes) (ps : List Bytes)
    → AllNoSlash (p ∷ ps)
    → split_slash [] (join (codes "/") (p ∷ ps)) ≡ p ∷ ps
unfolding split_slash join
split_slash-join p [] (h, _) =
    ap (split_slash []) (sym (append-nil p)) ∙ split_slash-append [] p [] h
split_slash-join p (q ∷ r) (h, hs) =
    split_slash-append [] p (b'/' ∷ join (codes "/") (q ∷ r)) h
    ∙ ap (λ l. p ∷ l) (split_slash-join q r hs)

-- A part that Clean keeps.
abbrev IsKept : Bytes → Type 0
IsKept p = ((bytes_eq p [] || bytes_eq p (codes ".")) ≡ false) × NoSlash p

abbrev AllKept : List Bytes → Type 0
AllKept [] = Unit
AllKept (p ∷ ps) = IsKept p × AllKept ps

parent-IsKept : IsKept (codes "..")
unfolding bytes_eq
parent-IsKept = (refl, ((λ e. omega (arith, e)), ((λ e. omega (arith, e)), tt)))

up_from-AllKept : (out : List Bytes) → AllKept out → AllKept (up_from out)
up_from-AllKept [] h = (parent-IsKept, tt)
up_from-AllKept (p ∷ out) h = elim (Bool-cases (bytes_eq p (codes ".."))) [
  | inl y ↦ rw y (parent-IsKept, h)
  | inr n ↦ rw n h.1
]

clean_relative-AllKept :
    (out ps : List Bytes) → AllKept out → AllNoSlash ps → AllKept (clean_relative out ps)
unfolding clean_relative
clean_relative-AllKept out [] h k = h
clean_relative-AllKept out (p ∷ ps) h k =
    elim (Bool-cases (bytes_eq p [] || bytes_eq p (codes "."))) [
      | inl dropped ↦ rw dropped (clean_relative-AllKept out ps h k.1)
      | inr kept ↦ elim (Bool-cases (bytes_eq p (codes ".."))) [
        | inl up ↦
            rw (kept, up) (clean_relative-AllKept (up_from out) ps (up_from-AllKept out h) k.1)
        | inr name ↦ rw (kept, name) (clean_relative-AllKept (p ∷ out) ps ((kept, k.0), h) k.1)
      ]
    ]

AllKept-append : (ps : List Bytes) (p : Bytes) → AllKept ps → IsKept p → AllKept (ps ++ p ∷ [])
AllKept-append [] p h k = (k, tt)
AllKept-append (q ∷ ps) p h k = (h.0, AllKept-append ps p h.1 k)

AllKept-reverse : (ps : List Bytes) → AllKept ps → AllKept (reverse ps)
AllKept-reverse [] h = tt
AllKept-reverse (p ∷ ps) h =
    subst AllKept (sym (reverse-cons p ps))
      (AllKept-append (reverse ps) p (AllKept-reverse ps h.1) h.0)

AllKept-AllNoSlash : (ps : List Bytes) → AllKept ps → AllNoSlash ps
AllKept-AllNoSlash [] h = tt
AllKept-AllNoSlash (p ∷ ps) h = (h.0.1, AllKept-AllNoSlash ps h.1)

AllKept-AllComponents : (ps : List Bytes) → AllKept ps → has_parent ps ≡ false → AllComponents ps
unfolding has_parent
AllKept-AllComponents [] h n = tt
AllKept-AllComponents (p ∷ ps) ((kept, slash), hs) n =
    let here : bytes_eq p (codes "..") ≡ false = ground (arith, n) in
    let there : has_parent ps ≡ false = ground (arith, n) in
    (component p kept here slash, AllKept-AllComponents ps hs there)

joined-AllComponents :
    (l : List Bytes) (path : Bytes)
    → AllKept l
    → join (codes "/") l ≡ path
    → path ≢ []
    → has_parent (split_slash [] path) ≡ false
    → AllComponents (split_slash [] path)
unfolding join
joined-AllComponents [] path h e filled n = absurd (filled (sym e))
joined-AllComponents (p ∷ ps) path h e filled n =
    let parts : split_slash [] path ≡ p ∷ ps =
      ap (split_slash []) (sym e) ∙ split_slash-join p ps (AllKept-AllNoSlash (p ∷ ps) h) in
    subst AllComponents (sym parts)
      (AllKept-AllComponents (p ∷ ps) h (ap has_parent (sym parts) ∙ n))

or_dot-AllComponents :
    (out : List Bytes) (path : Bytes)
    → AllKept out
    → or_dot out ≡ path
    → path ≢ []
    → path ≢ codes "."
    → has_parent (split_slash [] path) ≡ false
    → AllComponents (split_slash [] path)
or_dot-AllComponents [] path h e filled not_dot n = absurd (not_dot (sym e))
or_dot-AllComponents (p ∷ out) path h e filled not_dot n =
    joined-AllComponents (reverse (p ∷ out)) path (AllKept-reverse (p ∷ out) h) e filled n

-- A path that is what Clean makes of it, is neither empty nor ".", and has no part "..", is made of names.
pub clean_path-AllComponents :
    (path : Bytes)
    → clean_path path ≡ path
    → path ≢ []
    → path ≢ codes "."
    → has_parent (split_slash [] path) ≡ false
    → AllComponents (split_slash [] path)
unfolding clean_path
clean_path-AllComponents path e filled not_dot n =
    let kept =
      clean_relative-AllKept [] (split_slash [] path) tt (split_slash-AllNoSlash [] path tt) in
    or_dot-AllComponents (clean_relative [] (split_slash [] path)) path kept e filled not_dot n
