-- ===== src/Sysupdate/Release/Sorted.antt =====
-- The sorted versions of internal/purefs/sysupdate.go: the last is one that no other is above.
use tacklebox.Common.{
  Bytes, List, [], ◌∷◌, ◌≡◌, sym, subst, ◌∙◌, true, false, Bool-cases, inl, inr, arith, some, Among,
  here, there, Among-swap, Among-cases, if◌then◌else◌,
}
use tacklebox.Sysupdate.Versions.{version_less}
use tacklebox.Sysupdate.Versions.Order.{version_less_irrefl, version_less_trans, version_less_asym}
use tacklebox.Sysupdate.Release.{insert_version, sort_versions, last_of}

-- None of the versions is less than v.
abbrev AreAtLeast : Bytes → List Bytes → Type 0
AreAtLeast v [] = Unit
AreAtLeast v (w ∷ ws) = (version_less w v ≡ false) × AreAtLeast v ws

abbrev IsSorted : List Bytes → Type 0
IsSorted [] = Unit
IsSorted (v ∷ vs) = AreAtLeast v vs × IsSorted vs

AreAtLeast-lower :
    (v w : Bytes) (ws : List Bytes) → version_less v w ≡ true → AreAtLeast w ws → AreAtLeast v ws
AreAtLeast-lower v w [] h a = tt
AreAtLeast-lower v w (z ∷ ws) h a = (
  elim (Bool-cases (version_less z v)) [
    | inl l ↦ absurd (ground (arith, sym (version_less_trans z v w l h) ∙ a.0))
    | inr n ↦ n
  ],
  AreAtLeast-lower v w ws h a.1,
)

insert_version-AreAtLeast :
    (u v : Bytes) (ws : List Bytes)
    → version_less v u ≡ false
    → AreAtLeast u ws
    → AreAtLeast u (insert_version v ws)
unfolding insert_version
insert_version-AreAtLeast u v [] h a = (h, tt)
insert_version-AreAtLeast u v (w ∷ ws) h a = elim (Bool-cases (version_less v w)) [
  | inl l ↦ rw l (h, a)
  | inr n ↦ rw n (a.0, insert_version-AreAtLeast u v ws h a.1)
]

insert_version-IsSorted :
    (v : Bytes) (ws : List Bytes) → IsSorted ws → IsSorted (insert_version v ws)
unfolding insert_version
insert_version-IsSorted v [] s = (tt, tt)
insert_version-IsSorted v (w ∷ ws) s = elim (Bool-cases (version_less v w)) [
  | inl l ↦ rw l ((version_less_asym v w l, AreAtLeast-lower v w ws l s.0), s)
  | inr n ↦ rw n (insert_version-AreAtLeast w v ws n s.0, insert_version-IsSorted v ws s.1)
]

sort_versions-IsSorted : (vs : List Bytes) → IsSorted (sort_versions vs)
unfolding sort_versions
sort_versions-IsSorted [] = tt
sort_versions-IsSorted (v ∷ vs) =
    insert_version-IsSorted v (sort_versions vs) (sort_versions-IsSorted vs)

insert_version-Among :
    {u : Bytes} (v : Bytes) (ws : List Bytes) → Among u (v ∷ ws) → Among u (insert_version v ws)
unfolding insert_version
insert_version-Among v [] h = h
insert_version-Among {u} v (w ∷ ws) h = elim (Bool-cases (version_less v w)) [
  | inl l ↦ rw l h
  | inr n ↦ rw n (elim (Among-cases (Among-swap h)) [
    | inl e ↦ here e
    | inr k ↦ there (insert_version-Among v ws k)
  ])
]

insert_version-Among_back :
    {u : Bytes} (v : Bytes) (ws : List Bytes) → Among u (insert_version v ws) → Among u (v ∷ ws)
unfolding insert_version
insert_version-Among_back v [] h = h
insert_version-Among_back {u} v (w ∷ ws) h = elim (Bool-cases (version_less v w)) [
  | inl l ↦ subst (λ b. Among u (if b then v ∷ w ∷ ws else w ∷ insert_version v ws)) l h
  | inr n ↦
      Among-swap
        (elim (Among-cases
          (subst (λ b. Among u (if b then v ∷ w ∷ ws else w ∷ insert_version v ws)) n h)) [
            | inl e ↦ here e
            | inr k ↦ there (insert_version-Among_back v ws k)
          ])
]

pub sort_versions-Among : {u : Bytes} (vs : List Bytes) → Among u vs → Among u (sort_versions vs)
unfolding sort_versions
sort_versions-Among [] h = h
sort_versions-Among (v ∷ vs) (here e) = insert_version-Among v (sort_versions vs) (here e)
sort_versions-Among (v ∷ vs) (there h) =
    insert_version-Among v (sort_versions vs) (there (sort_versions-Among vs h))

sort_versions-Among_back : {u : Bytes} (vs : List Bytes) → Among u (sort_versions vs) → Among u vs
unfolding sort_versions
sort_versions-Among_back [] h = h
sort_versions-Among_back {u} (v ∷ vs) h =
    elim (Among-cases (insert_version-Among_back v (sort_versions vs) h)) [
      | inl e ↦ here e
      | inr k ↦ there (sort_versions-Among_back vs k)
    ]

last_of-Among : (vs : List Bytes) {u : Bytes} → last_of vs ≡ some u → Among u vs
unfolding last_of
last_of-Among [] h = absurd (cc h)
last_of-Among (v ∷ []) h = here (cc h)
last_of-Among (v ∷ w ∷ ws) h = there (last_of-Among (w ∷ ws) h)

at_least :
    (v : Bytes) {u : Bytes} (ws : List Bytes)
    → AreAtLeast v ws
    → Among u ws
    → version_less u v ≡ false
at_least v [] a h = elim h [ ]
at_least v (w ∷ ws) a (here e) = subst (λ z. version_less z v ≡ false) e a.0
at_least v (w ∷ ws) a (there h) = at_least v ws a.1 h

last_of-IsSorted :
    (vs : List Bytes) {u w : Bytes}
    → IsSorted vs
    → last_of vs ≡ some u
    → Among w vs
    → version_less u w ≡ false
last_of-IsSorted [] s l h = elim h [ ]
last_of-IsSorted (v ∷ []) {u} {w} s l (here e) =
    let q : v ≡ u = unfold last_of in cc l in
    subst (λ z. version_less z w ≡ false) (sym e ∙ q) (version_less_irrefl w)
last_of-IsSorted (v ∷ []) s l (there h) = elim h [ ]
last_of-IsSorted (v ∷ x ∷ xs) {u} s l (here e) =
    subst (λ z. version_less u z ≡ false) e
      (at_least v (x ∷ xs) s.0 (last_of-Among (x ∷ xs) (unfold last_of in l)))
last_of-IsSorted (v ∷ x ∷ xs) s l (there h) = last_of-IsSorted (x ∷ xs) s.1 (unfold last_of in l) h

-- The last of the sorted versions is one of them, and less than none.
pub last_of-sort_versions :
    (vs : List Bytes) {u w : Bytes}
    → last_of (sort_versions vs) ≡ some u
    → Among w vs
    → version_less u w ≡ false
last_of-sort_versions vs l h =
    last_of-IsSorted (sort_versions vs) (sort_versions-IsSorted vs) l (sort_versions-Among vs h)

pub last_of-sort_versions-Among :
    (vs : List Bytes) {u : Bytes} → last_of (sort_versions vs) ≡ some u → Among u vs
last_of-sort_versions-Among vs l = sort_versions-Among_back vs (last_of-Among (sort_versions vs) l)
