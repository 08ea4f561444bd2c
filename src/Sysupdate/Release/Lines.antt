-- ===== src/Sysupdate/Release/Lines.antt =====
-- What a line of a manifest says (internal/purefs/sysupdate.go), written out: a SHA-256 and a name.
use tacklebox.Common.{
  ◌≡◌, ◌≢◌, ◌⊎◌, inl, inr, refl, sym, ap, subst, ◌∙◌, Bool, true, false, ◌||◌, Bool-cases,
  Option-cases, arith, Bytes, List, [], ◌∷◌, Option, some, none, Among, codes, length, bytes_eq_iff,
  ◌==◌, fields, trim_space, trim_prefix, has_prefix, cut_prefix, cut_prefix_sound,
}
use tacklebox.Sysupdate.Patterns.{is_empty, Artifact, match_uki, match_root}
use tacklebox.Sysupdate.Release.{
  named, named_by, uki_listed, root_listed, nothing_listed, listed, listed_by, wanted,
}
use tacklebox.Sysupdate.Release.Halves.{listed-IsMatch, IsMatch}
use tacklebox.Sysupdate.Release.Loop.{UkiOf, RootOf}
use tacklebox.Sysupdate.Release.Names.{
  IsUkiName, IsRootName, equal_of_test, match_uki-IsUkiName, match_root-IsRootName,
}

-- A line, without white space around it, that is no comment and has two fields: 64 bytes, and a name
-- that a star may precede.
pub record Binds (line sha name : Bytes) : Type 0 where
  pub marked : Bytes
  pub two_fields : fields (trim_space line) ≡ sha ∷ marked ∷ []
  pub full : length sha ≡ 64
  pub unmarked : (marked ≡ name) ⊎ (marked ≡ b'*' ∷ name)
  pub no_comment : has_prefix (trim_space line) (codes "#") ≡ false

-- A line that is no comment and does not have that form: its name is all of it.
pub record Unbound (line name : Bytes) : Type 0 where
  pub whole : trim_space line ≡ name
  pub no_sha : (sha marked : Bytes) → fields (trim_space line) ≡ sha ∷ marked ∷ [] → length sha ≢ 64
  pub no_comment : has_prefix (trim_space line) (codes "#") ≡ false

-- The manifest has a line that binds a SHA-256 to a name of this form, of a wanted stem.
pub record Lists (IsName : Bytes → Bytes → Bytes → Type 0) (base : Bytes) (lines : List Bytes)
    (version sha name : Bytes) : Type 0 where
  pub line : Bytes
  pub stem : Bytes
  pub among : Among line lines
  pub binds : Binds line sha name
  pub is_name : IsName stem version name
  pub wants : (base ≡ []) ⊎ (stem ≡ base)

-- The manifest has a line with a name of this form, of a wanted stem, and no SHA-256.
pub record ListsUnbound (IsName : Bytes → Bytes → Bytes → Type 0) (base : Bytes)
    (lines : List Bytes) (version : Bytes) : Type 0 where
  pub line : Bytes
  pub stem : Bytes
  pub name : Bytes
  pub among : Among line lines
  pub unbound : Unbound line name
  pub is_name : IsName stem version name
  pub wants : (base ≡ []) ⊎ (stem ≡ base)

is_empty_lem : (s : Bytes) → is_empty s ≡ true → s ≡ []
is_empty_lem [] h = refl
is_empty_lem (c ∷ s) h = absurd (cc h)

wanted_lem : (base stem : Bytes) → wanted base stem ≡ true → (base ≡ []) ⊎ (stem ≡ base)
wanted_lem [] stem h = inl refl
wanted_lem (c ∷ base) stem h = inr ((bytes_eq_iff stem (c ∷ base)).0 h)

trim_prefix-star :
    (s : Bytes) → (s ≡ trim_prefix s (codes "*")) ⊎ (s ≡ b'*' ∷ trim_prefix s (codes "*"))
unfolding trim_prefix
trim_prefix-star s = elim (Option-cases (cut_prefix s (codes "*"))) [
  | inl q ↦ rw q (inl refl)
  | inr (rest, q) ↦ let e = cut_prefix_sound s (codes "*") rest q in rw q (inr e)
]

or_false_right : (a b : Bool) → (a || b) ≡ false → b ≡ false
or_false_right true b h = absurd (cc h)
or_false_right false b h = h

-- What the tests of a line leave.
listed_by-uki :
    (n : Bytes × Bytes) (o r : Option Artifact) {a : Artifact} {m : Bytes × Bytes}
    → listed_by n o r ≡ uki_listed a m
    → n ≡ m
listed_by-uki n (some b) r h = cc h
listed_by-uki n none (some b) h = absurd (cc h)
listed_by-uki n none none h = absurd (cc h)

listed_by-root :
    (n : Bytes × Bytes) (o r : Option Artifact) {a : Artifact} {m : Bytes × Bytes}
    → listed_by n o r ≡ root_listed a m
    → n ≡ m
listed_by-root n (some b) r h = absurd (cc h)
listed_by-root n none (some b) h = cc h
listed_by-root n none none h = absurd (cc h)

-- What a line lists, by the test for a comment.
listed-cases :
    (line : Bytes)
    → (listed line ≡ nothing_listed)
      ⊎ ((has_prefix (trim_space line) (codes "#") ≡ false)
          × (listed line
              ≡ listed_by
                  (named (trim_space line))
                  (match_uki (named (trim_space line)).1)
                  (match_root (named (trim_space line)).1)))
unfolding listed
listed-cases line =
    let t = trim_space line in
    elim (Bool-cases (is_empty t || has_prefix t (codes "#"))) [
      | inl y ↦ inl (rw y refl)
      | inr n ↦ inr (or_false_right (is_empty t) _ n, rw n refl)
    ]

-- The name and SHA-256 of a line.
named_by-cases :
    (t : Bytes) (fs : List Bytes)
    → ((marked : Bytes) × (fs ≡ (named_by t fs).0 ∷ marked ∷ [])
        × (length (named_by t fs).0 ≡ 64)
        × (trim_prefix marked (codes "*") ≡ (named_by t fs).1))
      ⊎ ((named_by t fs ≡ ([], t))
          × ((sha marked : Bytes) → fs ≡ sha ∷ marked ∷ [] → length sha ≢ 64))
named_by-cases t [] = inr (refl, λ sha marked e. absurd (cc e))
named_by-cases t (x ∷ []) = inr (refl, λ sha marked e. absurd (cc e))
named_by-cases t (x ∷ y ∷ []) = elim (Bool-cases (length x == 64)) [
  | inl l ↦ rw l (inl (y, refl, equal_of_test (length x) 64 l, refl))
  | inr n ↦ rw n (
      inr (
        refl,
        λ sha marked e k.
            let same : x ≡ sha = cc e in
            let full : length x ≡ 64 = ap length same ∙ k in absurd (ground (arith, full, n)),
      ))
]
named_by-cases t (x ∷ y ∷ z ∷ fs) = inr (refl, λ sha marked e. absurd (cc e))

named-cases :
    (line : Bytes) (sha name : Bytes)
    → has_prefix (trim_space line) (codes "#") ≡ false
    → named (trim_space line) ≡ (sha, name)
    → Binds line sha name ⊎ ((sha ≡ []) × Unbound line name)
unfolding named
named-cases line sha name c e =
    let t = trim_space line in
    let es : (named_by t (fields t)).0 ≡ sha = ap (λ (p : Bytes × Bytes). p.0) e in
    let en : (named_by t (fields t)).1 ≡ name = ap (λ (p : Bytes × Bytes). p.1) e in
    elim (named_by-cases t (fields t)) [
      | inl (marked, two, full, trimmed) ↦ inl (record {
        marked = marked;
        two_fields = two ∙ ap (λ s. s ∷ marked ∷ []) es;
        full = ap length (sym es) ∙ full;
        unmarked =
            subst (λ z. (marked ≡ z) ⊎ (marked ≡ b'*' ∷ z)) (trimmed ∙ en)
              (trim_prefix-star marked);
        no_comment = c;
      })
      | inr (none_there, never) ↦ inr (
        sym es ∙ ap (λ (p : Bytes × Bytes). p.0) none_there,
        record {
          whole = sym (ap (λ (p : Bytes × Bytes). p.1) none_there) ∙ en;
          no_sha = never;
          no_comment = c;
        },
      )
    ]

uki_line :
    (line : Bytes) (a : Artifact) (sha name : Bytes)
    → listed line ≡ uki_listed a (sha, name)
    → Binds line sha name ⊎ ((sha ≡ []) × Unbound line name)
uki_line line a sha name e = elim (listed-cases line) [
  | inl nothing ↦ absurd (cc (nothing, e))
  | inr (c, made) ↦ named-cases line sha name c (listed_by-uki _ _ _ (sym made ∙ e))
]

root_line :
    (line : Bytes) (a : Artifact) (sha name : Bytes)
    → listed line ≡ root_listed a (sha, name)
    → Binds line sha name ⊎ ((sha ≡ []) × Unbound line name)
root_line line a sha name e = elim (listed-cases line) [
  | inl nothing ↦ absurd (cc (nothing, e))
  | inr (c, made) ↦ named-cases line sha name c (listed_by-root _ _ _ (sym made ∙ e))
]

-- An artifact that is listed is bound to a SHA-256, or has none.
pub UkiOf-cases :
    {base : Bytes} {lines : List Bytes} {version : Bytes} (sha name : Bytes)
    → UkiOf base lines version (sha, name)
    → Lists IsUkiName base lines version sha name
      ⊎ ((sha ≡ []) × ListsUnbound IsUkiName base lines version)
UkiOf-cases {base} {lines} {version} sha name u =
    let is_name : IsUkiName u.artifact.stem version name =
      subst (λ v. IsUkiName u.artifact.stem v name) u.same_version
        (match_uki-IsUkiName name (subst IsMatch u.lists (listed-IsMatch u.line))) in
    let wants = wanted_lem base u.artifact.stem u.wants in
    elim (uki_line u.line u.artifact sha name u.lists) [
      | inl b ↦ inl (record {
        line = u.line;
        stem = u.artifact.stem;
        among = u.among;
        binds = b;
        is_name = is_name;
        wants = wants;
      })
      | inr (e, b) ↦ inr (
        e,
        record {
          line = u.line;
          stem = u.artifact.stem;
          name = name;
          among = u.among;
          unbound = b;
          is_name = is_name;
          wants = wants;
        },
      )
    ]

pub RootOf-cases :
    {base : Bytes} {lines : List Bytes} {version : Bytes} (sha name : Bytes)
    → RootOf base lines version (sha, name)
    → Lists IsRootName base lines version sha name
      ⊎ ((sha ≡ []) × ListsUnbound IsRootName base lines version)
RootOf-cases {base} {lines} {version} sha name u =
    let is_name : IsRootName u.artifact.stem version name =
      subst (λ v. IsRootName u.artifact.stem v name) u.same_version
        (match_root-IsRootName name (subst IsMatch u.lists (listed-IsMatch u.line))) in
    let wants = wanted_lem base u.artifact.stem u.wants in
    elim (root_line u.line u.artifact sha name u.lists) [
      | inl b ↦ inl (record {
        line = u.line;
        stem = u.artifact.stem;
        among = u.among;
        binds = b;
        is_name = is_name;
        wants = wants;
      })
      | inr (e, b) ↦ inr (
        e,
        record {
          line = u.line;
          stem = u.artifact.stem;
          name = name;
          among = u.among;
          unbound = b;
          is_name = is_name;
          wants = wants;
        },
      )
    ]
