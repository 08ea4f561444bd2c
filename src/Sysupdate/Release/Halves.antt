-- ===== src/Sysupdate/Release/Halves.antt =====
-- byVersion of internal/purefs/sysupdate.go, as the loop over the lines fills it.
use tacklebox.Common.{
  Bytes, List, [], ◌∷◌, ◌≡◌, refl, sym, ap, subst, ◌∙◌, false, Bool-cases, inl, inr, arith, Option,
  some, none, Among, here, there, Among-cases, bytes_eq, bytes_eq_iff, bytes_eq_refl, if◌then◌else◌,
  ◌||◌, trim_space, has_prefix, codes,
}
use tacklebox.Sysupdate.Patterns.{Artifact, match_uki, match_root, is_empty}
use tacklebox.Sysupdate.Release.{
  named, Listed, uki_listed, root_listed, nothing_listed, listed, listed_by, Half, half_at,
  change_half, complete,
}

pub half_at-change_half :
    (v : Bytes) (f : Half → Half) (m : List (Bytes × Half))
    → half_at v (change_half v f m) ≡ f (half_at v m)
unfolding half_at change_half
half_at-change_half v f [] = rw (bytes_eq_refl v) refl
half_at-change_half v f ((w, h) ∷ m) = elim (Bool-cases (bytes_eq w v)) [
  | inl y ↦ rw (y, y) refl
  | inr n ↦ rw (n, n) (half_at-change_half v f m)
]

half_at-change_half_other :
    (v u : Bytes) (f : Half → Half) (m : List (Bytes × Half))
    → bytes_eq v u ≡ false
    → half_at u (change_half v f m) ≡ half_at u m
unfolding half_at change_half
half_at-change_half_other v u f [] d = rw d refl
half_at-change_half_other v u f ((w, h) ∷ m) d = elim (Bool-cases (bytes_eq w v)) [
  | inl y ↦
      let e : bytes_eq w u ≡ false = ap (λ z. bytes_eq z u) ((bytes_eq_iff w v).0 y) ∙ d in
      rw (y, e) refl
  | inr n ↦ elim (Bool-cases (bytes_eq w u)) [
    | inl x ↦ rw (n, x) refl
    | inr x ↦ rw (n, x) (half_at-change_half_other v u f m d)
  ]
]

-- What holds of a version's half holds after a change, if it holds of what is changed.
pub half_at-keeps :
    (P : Half → Type 0) (u v : Bytes) (f : Half → Half) (m : List (Bytes × Half))
    → (v ≡ u → P (f (half_at u m)))
    → P (half_at u m)
    → P (half_at u (change_half v f m))
half_at-keeps P u v f m one two = elim (Bool-cases (bytes_eq v u)) [
  | inl y ↦
      let e = (bytes_eq_iff v u).0 y in
      subst (λ w. P (half_at u (change_half w f m))) (sym e)
        (subst P (sym (half_at-change_half u f m)) (one e))
  | inr n ↦ subst P (sym (half_at-change_half_other v u f m n)) two
]

pub complete-Among :
    (all m : List (Bytes × Half)) (v : Bytes)
    → is_empty (half_at v all).uki ≡ false
    → is_empty (half_at v all).root ≡ false
    → is_empty (half_at v m).uki ≡ false
    → Among v (complete all m)
unfolding complete half_at
complete-Among all [] v g h k = absurd (ground (arith, k))
complete-Among all ((w, x) ∷ m) v g h k = elim (Bool-cases (bytes_eq w v)) [
  | inl y ↦
      let e = (bytes_eq_iff w v).0 y in
      let full : (is_empty (half_at w all).uki || is_empty (half_at w all).root) ≡ false =
        ap (λ z. is_empty (half_at z all).uki || is_empty (half_at z all).root) e
        ∙ ground (arith, g, h) in
      rw full (here e)
  | inr n ↦
      let rest =
        complete-Among all m v g h
          (subst (λ b. is_empty (if b then x else half_at v m).uki ≡ false) n k) in
      elim (Bool-cases (is_empty (half_at w all).uki || is_empty (half_at w all).root)) [
        | inl y ↦ rw y rest
        | inr z ↦ rw z (there rest)
      ]
]

pub complete-Among_back :
    (all m : List (Bytes × Half)) (v : Bytes)
    → Among v (complete all m)
    → (is_empty (half_at v all).uki ≡ false) × (is_empty (half_at v all).root ≡ false)
unfolding complete
complete-Among_back all [] v h = elim h [ ]
complete-Among_back all ((w, x) ∷ m) v h =
    let test = is_empty (half_at w all).uki || is_empty (half_at w all).root in
    elim (Bool-cases test) [
      | inl y ↦
          complete-Among_back all m v
            (subst (λ b. Among v (if b then complete all m else w ∷ complete all m)) y h)
      | inr n ↦
          elim (Among-cases
            (subst (λ b. Among v (if b then complete all m else w ∷ complete all m)) n h)) [
              | inl e ↦ (
                ap (λ z. is_empty (half_at z all).uki) (sym e) ∙ ground (arith, n),
                ap (λ z. is_empty (half_at z all).root) (sym e) ∙ ground (arith, n),
              )
              | inr k ↦ complete-Among_back all m v k
            ]
    ]

-- A name that a pattern matches is not empty.
pub match_uki-some : (name : Bytes) {a : Artifact} → match_uki name ≡ some a → is_empty name ≡ false
match_uki-some [] h = absurd (unfold match_uki in cc h)
match_uki-some (c ∷ s) h = refl

pub match_root-some :
    (name : Bytes) {a : Artifact} → match_root name ≡ some a → is_empty name ≡ false
match_root-some [] h = absurd (unfold match_root in cc h)
match_root-some (c ∷ s) h = refl

-- What is listed matches its pattern.
abbrev pub IsMatch : Listed → Type 0
IsMatch (uki_listed a (sha, name)) = match_uki name ≡ some a
IsMatch (root_listed a (sha, name)) = match_root name ≡ some a
IsMatch nothing_listed = Unit

listed_by-IsMatch :
    (n : Bytes × Bytes) (o r : Option Artifact)
    → match_uki n.1 ≡ o
    → match_root n.1 ≡ r
    → IsMatch (listed_by n o r)
listed_by-IsMatch n (some a) r g h = g
listed_by-IsMatch n none (some a) g h = h
listed_by-IsMatch n none none g h = tt

pub listed-IsMatch : (raw : Bytes) → IsMatch (listed raw)
unfolding listed
listed-IsMatch raw =
    let line = trim_space raw in
    elim (Bool-cases (is_empty line || has_prefix line (codes "#"))) [
      | inl y ↦ rw y tt
      | inr n ↦ rw n (
          listed_by-IsMatch (named line) (match_uki (named line).1) (match_root (named line).1) refl
            refl)
    ]
