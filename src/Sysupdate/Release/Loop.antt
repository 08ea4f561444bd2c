-- ===== src/Sysupdate/Release/Loop.antt =====
-- What ResolveDdiRelease of internal/purefs/sysupdate.go knows after the lines of a manifest.
use tacklebox.Common.{
  Bytes, List, [], ◌∷◌, ◌≡◌, ◌⊎◌, refl, sym, ap, subst, ◌∙◌, true, false, Bool-cases, inl, inr,
  Among, here, there, Among-cases,
}
use tacklebox.Sysupdate.Patterns.{Artifact, is_empty}
use tacklebox.Sysupdate.Release.{
  Listed, uki_listed, root_listed, nothing_listed, listed, Half, half_at, change_half, Listing,
  no_listing, wanted, noted, note, set_uki, set_root, read_listing,
}
use tacklebox.Sysupdate.Release.Halves.{
  half_at-change_half, half_at-keeps, match_uki-some, match_root-some, IsMatch, listed-IsMatch,
}

-- A line of the manifest lists a UKI, or a root artifact, of a wanted stem and this version.
pub record UkiOf (base : Bytes) (lines : List Bytes) (version : Bytes) (n : Bytes × Bytes)
    : Type 0 where
  pub line : Bytes
  pub artifact : Artifact
  pub among : Among line lines
  pub lists : listed line ≡ uki_listed artifact n
  pub wants : wanted base artifact.stem ≡ true
  pub same_version : artifact.version ≡ version

pub record RootOf (base : Bytes) (lines : List Bytes) (version : Bytes) (n : Bytes × Bytes)
    : Type 0 where
  pub line : Bytes
  pub artifact : Artifact
  pub among : Among line lines
  pub lists : listed line ≡ root_listed artifact n
  pub wants : wanted base artifact.stem ≡ true
  pub same_version : artifact.version ≡ version

module _ (base : Bytes) (lines : List Bytes) (w : Bytes) (P : Half → Type 0)
    (on_uki : (n : Bytes × Bytes) → UkiOf base lines w n → (h : Half) → P h → P (set_uki n h))
    (on_root : (n : Bytes × Bytes)
      → RootOf base lines w n
      → (h : Half) → P h
      → P (set_root n h)) where
  note-keeps :
      (line : Bytes) (x : Listed) (st : Listing)
      → Among line lines
      → listed line ≡ x
      → P (half_at w st.by_version)
      → P (half_at w (note base x st).by_version)
  note-keeps line (uki_listed a n) st l e p = elim (Bool-cases (wanted base a.stem)) [
    | inl y ↦ rw y (
        half_at-keeps P w a.version (set_uki n) st.by_version
          (λ v.
            on_uki n
              (record {
                line = line;
                artifact = a;
                among = l;
                lists = e;
                wants = y;
                same_version = v;
              })
              (half_at w st.by_version) p)
          p)
    | inr z ↦ rw z p
  ]
  note-keeps line (root_listed a n) st l e p = elim (Bool-cases (wanted base a.stem)) [
    | inl y ↦ rw y (
        half_at-keeps P w a.version (set_root n) st.by_version
          (λ v.
            on_root n
              (record {
                line = line;
                artifact = a;
                among = l;
                lists = e;
                wants = y;
                same_version = v;
              })
              (half_at w st.by_version) p)
          p)
    | inr z ↦ rw z p
  ]
  note-keeps line nothing_listed st l e p = p

  read_listing-keeps :
      (ls : List Bytes) (st : Listing)
      → ((l : Bytes) → Among l ls → Among l lines)
      → P (half_at w st.by_version)
      → P (half_at w (read_listing base ls st).by_version)
  unfolding read_listing
  read_listing-keeps [] st s p = p
  read_listing-keeps (l ∷ ls) st s p =
      read_listing-keeps ls (note base (listed l) st) (λ k h. s k (there h))
        (note-keeps l (listed l) st (s l (here refl)) refl p)

abbrev HasUki : Half → Type 0
HasUki h = is_empty h.uki ≡ false

abbrev HasRoot : Half → Type 0
HasRoot h = is_empty h.root ≡ false

UkiOf-name :
    {base : Bytes} {lines : List Bytes} {w : Bytes} (n : Bytes × Bytes)
    → UkiOf base lines w n
    → is_empty n.1 ≡ false
UkiOf-name n u = match_uki-some n.1 (subst IsMatch u.lists (listed-IsMatch u.line))

RootOf-name :
    {base : Bytes} {lines : List Bytes} {w : Bytes} (n : Bytes × Bytes)
    → RootOf base lines w n
    → is_empty n.1 ≡ false
RootOf-name n u = match_root-some n.1 (subst IsMatch u.lists (listed-IsMatch u.line))

-- The rest of the loop takes no artifact away.
read_listing-HasUki :
    (base : Bytes) (ls : List Bytes) (w : Bytes) (st : Listing)
    → HasUki (half_at w st.by_version)
    → HasUki (half_at w (read_listing base ls st).by_version)
read_listing-HasUki base ls w st =
    read_listing-keeps base ls w HasUki (λ n u h p. UkiOf-name n u) (λ n u h p. p) ls st (λ l a. a)

read_listing-HasRoot :
    (base : Bytes) (ls : List Bytes) (w : Bytes) (st : Listing)
    → HasRoot (half_at w st.by_version)
    → HasRoot (half_at w (read_listing base ls st).by_version)
read_listing-HasRoot base ls w st =
    read_listing-keeps base ls w HasRoot (λ n u h p. p) (λ n u h p. RootOf-name n u) ls st
      (λ l a. a)

noted-new :
    (P : Half → Type 0) (f : Half → Half) (base : Bytes) (a : Artifact) (w : Bytes) (st : Listing)
    → wanted base a.stem ≡ true
    → a.version ≡ w
    → ((h : Half) → P (f h))
    → P (half_at w (noted f base a st).by_version)
noted-new P f base a w st y v p = rw y (
    subst (λ z. P (half_at z (change_half a.version f st.by_version))) v
      (subst P (sym (half_at-change_half a.version f st.by_version))
        (p (half_at a.version st.by_version))))

pub listing-HasUki :
    (base : Bytes) (ls : List Bytes) (w : Bytes) (n : Bytes × Bytes) (st : Listing)
    (u : UkiOf base ls w n)
    → HasUki (half_at w (read_listing base ls st).by_version)
unfolding read_listing
listing-HasUki base [] w n st u = elim u.among [ ]
listing-HasUki base (l ∷ ls) w n st u = elim (Among-cases u.among) [
  | inl e ↦
      let made : listed l ≡ uki_listed u.artifact n = ap listed e ∙ u.lists in
      read_listing-HasUki base ls w (note base (listed l) st) (
        subst (λ x. HasUki (half_at w (note base x st).by_version)) (sym made)
          (noted-new HasUki (set_uki n) base u.artifact w st u.wants u.same_version
            (λ h. UkiOf-name n u)))
  | inr k ↦ listing-HasUki base ls w n (note base (listed l) st) (record {
    line = u.line;
    artifact = u.artifact;
    among = k;
    lists = u.lists;
    wants = u.wants;
    same_version = u.same_version;
  })
]

pub listing-HasRoot :
    (base : Bytes) (ls : List Bytes) (w : Bytes) (n : Bytes × Bytes) (st : Listing)
    (u : RootOf base ls w n)
    → HasRoot (half_at w (read_listing base ls st).by_version)
unfolding read_listing
listing-HasRoot base [] w n st u = elim u.among [ ]
listing-HasRoot base (l ∷ ls) w n st u = elim (Among-cases u.among) [
  | inl e ↦
      let made : listed l ≡ root_listed u.artifact n = ap listed e ∙ u.lists in
      read_listing-HasRoot base ls w (note base (listed l) st) (
        subst (λ x. HasRoot (half_at w (note base x st).by_version)) (sym made)
          (noted-new HasRoot (set_root n) base u.artifact w st u.wants u.same_version
            (λ h. RootOf-name n u)))
  | inr k ↦ listing-HasRoot base ls w n (note base (listed l) st) (record {
    line = u.line;
    artifact = u.artifact;
    among = k;
    lists = u.lists;
    wants = u.wants;
    same_version = u.same_version;
  })
]

-- What is in a half stood in the manifest.
abbrev IsListed : Bytes → List Bytes → Bytes → Half → Type 0
IsListed base lines w h =
    ((is_empty h.uki ≡ true) ⊎ UkiOf base lines w (h.uki_sha, h.uki))
    × ((is_empty h.root ≡ true) ⊎ RootOf base lines w (h.root_sha, h.root))

pub listing-IsListed :
    (base : Bytes) (lines : List Bytes) (w : Bytes)
    → IsListed base lines w (half_at w (read_listing base lines no_listing).by_version)
listing-IsListed base lines w =
    read_listing-keeps base lines w (IsListed base lines w) (λ n u h p. (inr u, p.1))
      (λ n u h p. (p.0, inr u)) lines no_listing (λ l a. a) (unfold half_at in (inl refl, inl refl))
