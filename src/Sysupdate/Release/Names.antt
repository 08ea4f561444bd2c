-- ===== src/Sysupdate/Release/Names.antt =====
-- The names that the patterns of internal/purefs/sysupdate.go match, written out.
use tacklebox.Common.{
  ℕ, ◌≡◌, ◌⊎◌, inl, inr, refl, sym, ap, subst, ◌∙◌, Bool, true, false, ◌&&◌, ◌||◌, Bool-cases,
  Option-cases, arith, Bytes, [], ◌∷◌, ◌++◌, Option, some, none, codes, length, take, drop,
  take-append-drop, bytes_eq, bytes_eq_iff, ◌==◌, if◌then◌else◌,
}
use tacklebox.Sysupdate.Patterns.{
  at_underscore, before_suffix, checked_groups, uki_version, uki_rest, is_root_tail, root_version,
  root_rest, Artifact, match_uki, match_root, some_bytes, all_bytes, is_stem_byte, is_version_byte,
  is_uuid_byte,
}

-- A UKI's name is its stem, an underscore, its version and ".efi".
abbrev pub IsUkiName : Bytes → Bytes → Bytes → Type 0
IsUkiName stem version name = name ≡ stem ++ (b'_' ∷ (version ++ codes ".efi"))

-- A root artifact's name goes on behind its version with an underscore, 36 bytes of a UUID and
-- ".root.raw" or ".root.raw.xz".
abbrev pub IsRootName : Bytes → Bytes → Bytes → Type 0
IsRootName stem version name =
    (uuid : Bytes) × (tail : Bytes) × (name ≡ stem ++ (b'_' ∷ (version ++ (b'_' ∷ (uuid ++ tail)))))
    × (length uuid ≡ 36)
    × ((tail ≡ codes ".root.raw") ⊎ (tail ≡ codes ".root.raw.xz"))

at_underscore_sound :
    (s : Bytes) {a b : Bytes} → at_underscore s ≡ some (a, b) → s ≡ a ++ (b'_' ∷ b)
unfolding at_underscore
at_underscore_sound [] h = absurd (cc h)
at_underscore_sound (c ∷ s) {a} {b} h = elim (Bool-cases (c == b'_')) [
  | inl y ↦
      let e : c ≡ b'_' = ground (arith, y) in
      let ea : [] ≡ a = ground (arith, y) in let eb : s ≡ b = ground (arith, y) in cc (e, ea, eb)
  | inr n ↦ elim (Option-cases (at_underscore s)) [
    | inl q ↦ absurd (ground (arith, n, q))
    | inr ((a', b'), q) ↦
        let ea : c ∷ a' ≡ a = ground (arith, n, q) in
        let eb : b' ≡ b = ground (arith, n, q) in
        let ih = at_underscore_sound s q in
        ap (◌∷◌ c) ih ∙ ap (λ t. t ++ (b'_' ∷ b')) ea ∙ ap (λ t. a ++ (b'_' ∷ t)) eb
  ]
]

before_suffix_sound :
    (suffix s : Bytes) {v : Bytes} → before_suffix suffix s ≡ some v → s ≡ v ++ suffix
unfolding before_suffix
before_suffix_sound suffix [] h = absurd (cc h)
before_suffix_sound suffix (c ∷ s) {v} h = elim (Bool-cases (bytes_eq (c ∷ s) suffix)) [
  | inl y ↦
      let e : [] ≡ v = ground (arith, y) in
      (bytes_eq_iff (c ∷ s) suffix).0 y ∙ ap (λ t. t ++ suffix) e
  | inr n ↦ elim (Option-cases (before_suffix suffix s)) [
    | inl q ↦ absurd (ground (arith, n, q))
    | inr (v', q) ↦
        let e : c ∷ v' ≡ v = ground (arith, n, q) in
        ap (◌∷◌ c) (before_suffix_sound suffix s q) ∙ ap (λ t. t ++ suffix) e
  ]
]

checked_groups-some :
    (stem version : Bytes) {a : Artifact}
    → checked_groups stem version ≡ some a
    → (stem ≡ a.stem) × (version ≡ a.version)
checked_groups-some stem version {a} h =
    elim (Bool-cases (some_bytes is_stem_byte stem && some_bytes is_version_byte version)) [
      | inl y ↦
          let made : some (record { stem = stem; version = version }) ≡ some a =
            subst
              (λ b.
                ◌≡◌ {A = Option Artifact}
                  (if b then some (record { stem = stem; version = version }) else none) (some a))
              y h in
          let e : record { stem = stem; version = version } ≡ a = cc made in
          (ap (λ (x : Artifact). x.stem) e, ap (λ (x : Artifact). x.version) e)
      | inr n ↦ absurd (
          cc (
            subst
              (λ b.
                ◌≡◌ {A = Option Artifact}
                  (if b then some (record { stem = stem; version = version }) else none) (some a))
              n h))
    ]

pub match_uki-IsUkiName :
    (name : Bytes) {a : Artifact} → match_uki name ≡ some a → IsUkiName a.stem a.version name
unfolding match_uki
match_uki-IsUkiName name {a} h = elim (Option-cases (at_underscore name)) [
  | inl q ↦ absurd (cc (subst (λ o. uki_rest o ≡ some a) q h))
  | inr ((stem, rest), q) ↦
      let h' = subst (λ o. uki_rest o ≡ some a) q h in
      elim (Option-cases (before_suffix (codes ".efi") rest)) [
        | inl r ↦ absurd (cc (subst (λ o. uki_version stem o ≡ some a) r h'))
        | inr (version, r) ↦
            let (es, ev) =
              checked_groups-some stem version (subst (λ o. uki_version stem o ≡ some a) r h') in
            at_underscore_sound name q
            ∙ ap (λ t. stem ++ (b'_' ∷ t)) (before_suffix_sound (codes ".efi") rest r)
            ∙ ap (λ t. t ++ (b'_' ∷ (version ++ codes ".efi"))) es
            ∙ ap (λ t. a.stem ++ (b'_' ∷ (t ++ codes ".efi"))) ev
      ]
]

and_left : (a b : Bool) → (a && b) ≡ true → a ≡ true
and_left true b h = refl
and_left false b h = absurd (cc h)

and_right : (a b : Bool) → (a && b) ≡ true → b ≡ true
and_right true b h = h
and_right false b h = absurd (cc h)

or_right : (a b : Bool) → a ≡ false → (a || b) ≡ true → b ≡ true
or_right true b n h = absurd (cc n)
or_right false b n h = h

pub equal_of_test : (m n : ℕ) → (m == n) ≡ true → m ≡ n
equal_of_test m n h = ground arith

is_root_tail-cases :
    (tail : Bytes)
    → is_root_tail tail ≡ true
    → (length (take 36 tail) ≡ 36)
      × ((drop 36 tail ≡ codes ".root.raw") ⊎ (drop 36 tail ≡ codes ".root.raw.xz"))
is_root_tail-cases tail h =
    let uuid = take 36 tail in
    let end = drop 36 tail in
    let front = length uuid == 36 && all_bytes is_uuid_byte uuid in
    let test = bytes_eq end (codes ".root.raw") || bytes_eq end (codes ".root.raw.xz") in
    let long = and_left (length uuid == 36) (all_bytes is_uuid_byte uuid) (and_left front test h) in
    let suffix = and_right front test h in
    (
      equal_of_test (length uuid) 36 long,
      elim (Bool-cases (bytes_eq end (codes ".root.raw"))) [
        | inl y ↦ inl ((bytes_eq_iff end (codes ".root.raw")).0 y)
        | inr n ↦ inr ((bytes_eq_iff end (codes ".root.raw.xz")).0 (or_right _ _ n suffix))
      ],
    )

pub match_root-IsRootName :
    (name : Bytes) {a : Artifact} → match_root name ≡ some a → IsRootName a.stem a.version name
unfolding match_root
match_root-IsRootName name {a} h = elim (Option-cases (at_underscore name)) [
  | inl q ↦ absurd (cc (subst (λ o. root_rest o ≡ some a) q h))
  | inr ((stem, rest), q) ↦
      let h' = subst (λ o. root_rest o ≡ some a) q h in
      elim (Option-cases (at_underscore rest)) [
        | inl r ↦ absurd (cc (subst (λ o. root_version stem o ≡ some a) r h'))
        | inr ((version, tail), r) ↦
            let h'' = subst (λ o. root_version stem o ≡ some a) r h' in
            let Made : Bool → Type 0 = λ b.
              ◌≡◌ {A = Option Artifact} (if b then checked_groups stem version else none)
                (some a) in
            elim (Bool-cases (is_root_tail tail)) [
              | inr n ↦ let made : Made false = subst Made n h'' in absurd (cc made)
              | inl y ↦
                  let made : Made true = subst Made y h'' in
                  let (es, ev) = checked_groups-some stem version made in
                  let (long, suffix) = is_root_tail-cases tail y in
                  (
                    take 36 tail,
                    drop 36 tail,
                    at_underscore_sound name q
                        ∙ ap (λ t. stem ++ (b'_' ∷ t)) (at_underscore_sound rest r)
                        ∙ ap (λ t. stem ++ (b'_' ∷ (version ++ (b'_' ∷ t))))
                            (sym (take-append-drop 36 tail))
                        ∙ ap
                            (λ t.
                              t ++ (b'_' ∷ (version ++ (b'_' ∷ (take 36 tail ++ drop 36 tail)))))
                            es
                        ∙ ap
                            (λ t. a.stem ++ (b'_' ∷ (t ++ (b'_' ∷ (take 36 tail ++ drop 36 tail)))))
                            ev,
                    long,
                    suffix,
                  )
            ]
      ]
]
