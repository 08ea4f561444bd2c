-- ===== src/Erofs/Dirents/Blocks.antt =====
-- The blocks of a directory of internal/purefs/erofs.go: what goes into each.
use tacklebox.Common.{
  ℕ, zero, suc, ◌+◌, ◌-◌, ◌*◌, ◌/◌, ◌≤◌, ◌<◌, List, [], ◌∷◌, ◌++◌, ◌≡◌, refl, ap, subst, ◌∙◌, false,
  Bool-cases, inl, inr, arith, Option, some, none, length, length-append, ltb,
}
use tacklebox.Iso.{zeros}
use tacklebox.Iso.Write.Chunks.{length-zeros}
use tacklebox.Erofs.Dirents.{
  blk_size, le_bytes, Ent, fitting, grouped, groups, ent_bytes, ents_bytes, names_bytes, used_bytes,
  block,
}

-- The bytes that entries need.
abbrev pub needed : List Ent → ℕ
needed [] = 0
needed (e ∷ es) = 12 + length e.name + needed es

abbrev pub all_ents : List (List Ent) → List Ent
all_ents [] = []
all_ents (g ∷ gs) = g ++ all_ents gs

-- Every group has an entry and fits into a block.
abbrev pub AllFit : List (List Ent) → Type 0
AllFit [] = Unit
AllFit (g ∷ gs) = (0 < length g) × (needed g ≤ blk_size) × AllFit gs

abbrev pub AreShort : List Ent → Type 0
AreShort [] = Unit
AreShort (e ∷ es) = (length e.name ≤ 4084) × AreShort es

pub fitting-append : (used : ℕ) (es : List Ent) → (fitting used es).0 ++ (fitting used es).1 ≡ es
unfolding fitting
fitting-append used [] = refl
fitting-append used (e ∷ es) = elim (Bool-cases (ltb blk_size (used + (12 + length e.name)))) [
  | inl y ↦ rw y refl
  | inr n ↦ rw n (ap (λ r. e ∷ r) (fitting-append (used + (12 + length e.name)) es))
]

pub fitting-needed :
    (used : ℕ) (es : List Ent) → used ≤ blk_size → used + needed (fitting used es).0 ≤ blk_size
unfolding fitting
fitting-needed used [] h = omega (arith, h)
fitting-needed used (e ∷ es) h = elim (Bool-cases (ltb blk_size (used + (12 + length e.name)))) [
  | inl y ↦ rw y (omega (arith, h))
  | inr n ↦
      let ih = fitting-needed (used + (12 + length e.name)) es (ground arith) in
      rw n (omega (arith, ih))
]

fitting-AreShort : (used : ℕ) (es : List Ent) → AreShort es → AreShort (fitting used es).1
unfolding fitting
fitting-AreShort used [] h = tt
fitting-AreShort used (e ∷ es) h = elim (Bool-cases (ltb blk_size (used + (12 + length e.name)))) [
  | inl y ↦ rw y h
  | inr n ↦ rw n (fitting-AreShort (used + (12 + length e.name)) es h.1)
]

-- The first entry goes in when its name is short.
fitting_some :
    (e : Ent) (es : List Ent)
    → length e.name ≤ 4084
    → fitting 0 (e ∷ es)
      ≡ (e ∷ (fitting (12 + length e.name) es).0, (fitting (12 + length e.name) es).1)
unfolding fitting
fitting_some e es h =
    let test : ltb blk_size (0 + (12 + length e.name)) ≡ false = ground arith in
    let used : 0 + (12 + length e.name) ≡ 12 + length e.name = omega arith in
    rw test (ap (λ u. (e ∷ (fitting u es).0, (fitting u es).1)) used)

-- The groups of a list that was packed.
pub record Grouping (es : List Ent) (gs : List (List Ent)) : Type 0 where
  pub whole : all_ents gs ≡ es
  pub fit : AllFit gs

grouped-some :
    (xs : List Ent) (r : Option (List (List Ent))) (gs : List (List Ent))
    → grouped xs r ≡ some gs
    → (0 < length xs) × ((hs : List (List Ent)) × (r ≡ some hs) × (xs ∷ hs ≡ gs))
grouped-some [] r gs h = absurd (cc h)
grouped-some (e ∷ xs) none gs h = absurd (cc h)
grouped-some (e ∷ xs) (some hs) gs h = (omega arith, (hs, refl, cc h))

pub groups-Grouping :
    (n : ℕ) (es : List Ent) (gs : List (List Ent)) → groups n es ≡ some gs → Grouping es gs
unfolding groups
groups-Grouping n [] gs h =
    subst (Grouping []) (let e : [] ≡ gs = cc h in e) (record { whole = refl; fit = tt })
groups-Grouping zero (e ∷ es) gs h = absurd (cc h)
groups-Grouping (suc n) (e ∷ es) gs h =
    let xs = (fitting 0 (e ∷ es)).0 in
    let rest = (fitting 0 (e ∷ es)).1 in
    let (some_in, (hs, q, made)) = grouped-some xs (groups n rest) gs h in
    let ih = groups-Grouping n rest hs q in
    subst (Grouping (e ∷ es)) made (record {
      whole = ap (λ r. xs ++ r) ih.whole ∙ fitting-append 0 (e ∷ es);
      fit = (some_in, omega (arith, fitting-needed 0 (e ∷ es) (omega arith)), ih.fit);
    })

fitting-length : (used : ℕ) (es : List Ent) → length (fitting used es).1 ≤ length es
fitting-length used es = omega (
  arith,
  ap length (fitting-append used es),
  length-append (fitting used es).0 (fitting used es).1,
)

-- Short names are always packed.
pub groups-some :
    (n : ℕ) (es : List Ent)
    → length es ≤ n
    → AreShort es
    → (gs : List (List Ent)) × (groups n es ≡ some gs)
unfolding groups
groups-some n [] l h = ([], refl)
groups-some zero (e ∷ es) l h = absurd (omega (arith, l))
groups-some (suc n) (e ∷ es) l h =
    let used = 12 + length e.name in
    let (hs, q) =
      groups-some n (fitting used es).1 (omega (arith, l, fitting-length used es))
        (fitting-AreShort used es h.1) in
    (
      (e ∷ (fitting used es).0) ∷ hs,
      ap (λ f. grouped f.0 (groups n f.1)) (fitting_some e es h.0)
          ∙ ap (grouped (e ∷ (fitting used es).0)) q,
    )

-- The lengths of what is written.
pub length-le_bytes : (n v : ℕ) → length (le_bytes n v) ≡ n
unfolding le_bytes
length-le_bytes zero v = refl
length-le_bytes (suc n) v = ap suc (length-le_bytes n (v / 256))

pub length-ent_bytes : (off : ℕ) (e : Ent) → length (ent_bytes off e) ≡ 12
unfolding ent_bytes le_bytes
length-ent_bytes off e = refl

pub length-ents_bytes : (off : ℕ) (es : List Ent) → length (ents_bytes off es) ≡ 12 * length es
unfolding ents_bytes
length-ents_bytes off [] = omega arith
length-ents_bytes off (e ∷ es) = omega (
  arith,
  length-append (ent_bytes off e) (ents_bytes (off + length e.name) es),
  length-ent_bytes off e,
  length-ents_bytes (off + length e.name) es,
)

pub length-names_bytes : (es : List Ent) → 12 * length es + length (names_bytes es) ≡ needed es
unfolding names_bytes
length-names_bytes [] = omega arith
length-names_bytes (e ∷ es) =
    omega (arith, length-append e.name (names_bytes es), length-names_bytes es)

pub length-used_bytes : (es : List Ent) → length (used_bytes es) ≡ needed es
unfolding used_bytes
length-used_bytes es = omega (
  arith,
  length-append (ents_bytes (12 * length es) es) (names_bytes es),
  length-ents_bytes (12 * length es) es,
  length-names_bytes es,
)

pub length-block : (es : List Ent) → needed es ≤ blk_size → length (block es) ≡ blk_size
unfolding block
length-block es h = omega (
  arith,
  length-append (used_bytes es) (zeros (blk_size - length (used_bytes es))),
  length-zeros (blk_size - length (used_bytes es)),
  length-used_bytes es,
  h,
)

-- There are no more groups than entries.
pub groups-le :
    (gs : List (List Ent)) (es : List Ent) → AllFit gs → all_ents gs ≡ es → length gs ≤ length es
groups-le [] es f q = omega arith
groups-le (g ∷ gs) es f q =
    omega
      (arith, ap length q, length-append g (all_ents gs), f.0, groups-le gs (all_ents gs) f.2 refl)
