-- ===== src/Erofs/Dirents/Reader.antt =====
-- A reader of the directories of internal/purefs/erofs.go, block by block.
use tacklebox.Common.{
  ℕ, zero, suc, ◌+◌, ◌-◌, ◌*◌, ◌/◌, ◌≤◌, ◌<◌, Bytes, List, [], ◌∷◌, ◌++◌, ◌≡◌, ◌≢◌, refl, sym, ap,
  ◌∙◌, false, arith, length, length-append, append_assoc, append-nil, take, drop, take-append, ◌==◌,
  if◌then◌else◌,
}
use tacklebox.Iso.{zeros}
use tacklebox.Iso.Numbers.{from_le}
use tacklebox.Erofs.Dirents.{
  blk_size, le_bytes, Ent, ent_bytes, ents_bytes, names_bytes, used_bytes, block,
}
use tacklebox.Erofs.Dirents.Blocks.{needed, length-ents_bytes, length-names_bytes}

-- A name ends at a zero byte or at the end.
abbrev until_nul : Bytes → Bytes
until_nul [] = []
until_nul (c ∷ s) = let rest = until_nul s in if c == 0 then [] else c ∷ rest

abbrev name_off : Bytes → ℕ
name_off d = from_le (take 2 (drop 8 d))

abbrev ent_of : Bytes → Bytes → Ent
ent_of name d = record { name = name; nid = from_le (take 8 d); ft = from_le (take 1 (drop 10 d)) }

-- The entries of a block: a name reaches to the next one's offset.
unfoldable read_ents : ℕ → Bytes → Bytes → List Ent
read_ents zero b d = []
read_ents (suc zero) b d = ent_of (until_nul (drop (name_off d) b)) d ∷ []
read_ents (suc (suc k)) b d =
    ent_of (take (name_off (drop 12 d) - name_off d) (drop (name_off d) b)) d
    ∷ read_ents (suc k) b (drop 12 d)

-- The first name's offset tells how many entries there are.
unfoldable pub read_block : Bytes → List Ent
unfolding read_ents
read_block b = read_ents (name_off b / 12) b b

unfoldable pub read_dir : ℕ → Bytes → List Ent
unfolding read_block
read_dir zero b = []
read_dir (suc n) [] = []
read_dir (suc n) (c ∷ b) = read_block (take blk_size (c ∷ b)) ++ read_dir n (drop blk_size (c ∷ b))

-- Numbers of n bytes.
abbrev pub bound : ℕ → ℕ
bound zero = 1
bound (suc n) = 256 * bound n

from_le-le_bytes : (n v : ℕ) → v < bound n → from_le (le_bytes n v) ≡ v
unfolding le_bytes
from_le-le_bytes zero v h = omega (arith, h)
from_le-le_bytes (suc n) v h = omega (arith, from_le-le_bytes n (v / 256) (omega (arith, h)))

abbrev HasNoNul : Bytes → Type 0
HasNoNul [] = Unit
HasNoNul (c ∷ s) = (c ≢ 0) × HasNoNul s

-- An entry that the format can say.
abbrev pub AreEnts : List Ent → Type 0
AreEnts [] = Unit
AreEnts (e ∷ es) = HasNoNul e.name × (e.nid < bound 8) × AreEnts es

abbrev Stops : Bytes → Type 0
Stops [] = Unit
Stops (c ∷ s) = c ≡ 0

until_nul-append : (s tail : Bytes) → HasNoNul s → Stops tail → until_nul (s ++ tail) ≡ s
until_nul-append [] [] h t = refl
until_nul-append [] (c ∷ tail) h t = rw t refl
until_nul-append (c ∷ s) tail h t =
    let other : (c == 0) ≡ false = ground (arith, h.0) in
    rw other (ap (λ r. c ∷ r) (until_nul-append s tail h.1 t))

drop_append : (xs ys : Bytes) → drop (length xs) (xs ++ ys) ≡ ys
drop_append [] ys = refl
drop_append (x ∷ xs) ys = drop_append xs ys

pub take_append_more : (xs ys : Bytes) (n : ℕ) → take (length xs + n) (xs ++ ys) ≡ xs ++ take n ys
take_append_more [] ys n = let e : 0 + n ≡ n = omega arith in ap (λ k. take k ys) e
take_append_more (x ∷ xs) ys n =
    let e : suc (length xs) + n ≡ suc (length xs + n) = omega arith in
    ap (λ k. take k (x ∷ (xs ++ ys))) e ∙ ap (λ r. x ∷ r) (take_append_more xs ys n)

pub take_all : (n : ℕ) (xs : Bytes) → length xs ≤ n → take n xs ≡ xs
take_all zero [] h = refl
take_all zero (x ∷ xs) h = absurd (omega (arith, h))
take_all (suc n) [] h = refl
take_all (suc n) (x ∷ xs) h = ap (λ r. x ∷ r) (take_all n xs (omega (arith, h)))

pub drop_all : (n : ℕ) (xs : Bytes) → length xs ≤ n → drop n xs ≡ []
drop_all zero [] h = refl
drop_all zero (x ∷ xs) h = absurd (omega (arith, h))
drop_all (suc n) [] h = refl
drop_all (suc n) (x ∷ xs) h = drop_all n xs (omega (arith, h))

-- What the reader takes from an entry's twelve bytes.
name_off_lem :
    (off : ℕ) (e : Ent) (rest : Bytes) → off < bound 2 → name_off (ent_bytes off e ++ rest) ≡ off
unfolding ent_bytes
name_off_lem off e rest h = unfold le_bytes in refl ∙ from_le-le_bytes 2 off h

ent_cong :
    (n n' : Bytes) (i i' t t' : ℕ)
    → n ≡ n'
    → i ≡ i'
    → t ≡ t'
    → ◌≡◌ {A = Ent} (record { name = n; nid = i; ft = t }) (record { name = n'; nid = i'; ft = t' })
ent_cong n n' i i' t t' p q r = cc (p, q, r)

ent_of_lem :
    (off : ℕ) (e : Ent) (rest name : Bytes)
    → e.nid < bound 8
    → name ≡ e.name
    → ent_of name (ent_bytes off e ++ rest) ≡ e
unfolding ent_bytes le_bytes
ent_of_lem off e rest name h q = ent_cong _ _ _ _ _ _ q (from_le-le_bytes 8 e.nid h) (omega arith)

next_ent : (off : ℕ) (e : Ent) (rest : Bytes) → drop 12 (ent_bytes off e ++ rest) ≡ rest
unfolding ent_bytes le_bytes
next_ent off e rest = refl

-- The bytes from a name's offset on.
pub drop_names :
    (before : Bytes) (off : ℕ) (rest : Bytes)
    → length before ≡ off
    → drop off (before ++ rest) ≡ rest
drop_names before off rest h = ap (λ n. drop n (before ++ rest)) (sym h) ∙ drop_append before rest

-- The entries of a block, read back.
read_ents_lem :
    (es : List Ent) (off : ℕ) (before tail rest : Bytes)
    → length before ≡ off
    → off + length (names_bytes es) < bound 2
    → AreEnts es
    → Stops tail
    → read_ents (length es) (before ++ (names_bytes es ++ tail)) (ents_bytes off es ++ rest) ≡ es
unfolding read_ents names_bytes ents_bytes
read_ents_lem [] off before tail rest l b h t = refl
read_ents_lem (e ∷ []) off before tail rest l b h t =
    let all = before ++ ((e.name ++ []) ++ tail) in
    let head : (ent_bytes off e ++ []) ++ rest ≡ ent_bytes off e ++ rest =
      ap (λ r. r ++ rest) (append-nil (ent_bytes off e)) in
    let place : name_off (ent_bytes off e ++ rest) ≡ off =
      name_off_lem off e rest (omega (arith, b)) in
    let name : until_nul (drop off all) ≡ e.name =
      ap until_nul
        (drop_names before off ((e.name ++ []) ++ tail) l ∙ ap (λ r. r ++ tail) (append-nil e.name))
      ∙ until_nul-append e.name tail h.0 t in
    ap (λ d. ent_of (until_nul (drop (name_off d) all)) d ∷ []) head
    ∙ ap (λ r. r ∷ []) (ent_of_lem off e rest _ h.1 (ap (λ n. until_nul (drop n all)) place ∙ name))
read_ents_lem (e ∷ f ∷ es) off before tail rest l b h t =
    let n = e.name in
    let off' = off + length n in
    let names = names_bytes (f ∷ es) in
    let all = before ++ ((n ++ names) ++ tail) in
    let small : off' + length names < bound 2 = omega (arith, b, length-append n names) in
    let later = ents_bytes off' (f ∷ es) ++ rest in
    let d = ent_bytes off e ++ later in
    let place : name_off d ≡ off = name_off_lem off e later (omega (arith, b)) in
    let place' : name_off later ≡ off' =
      ap name_off (append_assoc (ent_bytes off' f) (ents_bytes (off' + length f.name) es) rest)
      ∙ name_off_lem off' f (ents_bytes (off' + length f.name) es ++ rest) (omega (arith, small)) in
    let long : off' - off ≡ length n = omega arith in
    let name : take (name_off later - name_off d) (drop (name_off d) all) ≡ n =
      ap (λ o. take (o - name_off d) (drop (name_off d) all)) place'
      ∙ ap (λ o. take (off' - o) (drop o all)) place
      ∙ ap (λ k. take k (drop off all)) long
      ∙ ap (take (length n))
          (drop_names before off ((n ++ names) ++ tail) l ∙ append_assoc n names tail)
      ∙ take-append n (names ++ tail) in
    let whole : (before ++ n) ++ (names ++ tail) ≡ all =
      append_assoc before n (names ++ tail)
      ∙ ap (λ r. before ++ r) (sym (append_assoc n names tail)) in
    let ih : read_ents (length (f ∷ es)) ((before ++ n) ++ (names ++ tail)) later ≡ f ∷ es =
      read_ents_lem (f ∷ es) off' (before ++ n) tail rest (omega (arith, l, length-append before n))
        small h.2 t in
    ap (read_ents (length (e ∷ f ∷ es)) all)
      (append_assoc (ent_bytes off e) (ents_bytes off' (f ∷ es)) rest)
    ∙ ap
        (λ r.
          ent_of (take (name_off r - name_off d) (drop (name_off d) all)) d
          ∷ read_ents (length (f ∷ es)) all r)
        (next_ent off e later)
    ∙ ap (λ r. r ∷ read_ents (length (f ∷ es)) all later) (ent_of_lem off e later _ h.1 name)
    ∙ ap (λ r. e ∷ r) (ap (λ w. read_ents (length (f ∷ es)) w later) (sym whole) ∙ ih)

first_ent :
    (off : ℕ) (e : Ent) (es : List Ent) (rest : Bytes)
    → ents_bytes off (e ∷ es) ++ rest
      ≡ ent_bytes off e ++ (ents_bytes (off + length e.name) es ++ rest)
unfolding ents_bytes
first_ent off e es rest = append_assoc (ent_bytes off e) (ents_bytes (off + length e.name) es) rest

-- A block, or its used part.
pub read_block_lem :
    (es : List Ent) (tail : Bytes)
    → 0 < length es
    → needed es ≤ blk_size
    → AreEnts es
    → Stops tail
    → read_block (used_bytes es ++ tail) ≡ es
unfolding read_block used_bytes
read_block_lem [] tail l b h t = absurd (omega (arith, l))
read_block_lem (e ∷ es) tail l b h t =
    let off = 12 * length (e ∷ es) in
    let ents = ents_bytes off (e ∷ es) in
    let names = names_bytes (e ∷ es) in
    let all = (ents ++ names) ++ tail in
    let assoc : all ≡ ents ++ (names ++ tail) = append_assoc ents names tail in
    let small : off + length names < bound 2 = omega (arith, b, length-names_bytes (e ∷ es)) in
    let place : name_off all ≡ off =
      ap name_off (assoc ∙ first_ent off e es (names ++ tail))
      ∙ name_off_lem off e (ents_bytes (off + length e.name) es ++ (names ++ tail))
          (omega (arith, small)) in
    let count : off / 12 ≡ length (e ∷ es) = omega arith in
    ap (λ n. read_ents (n / 12) all all) place
    ∙ ap (λ n. read_ents n all all) count
    ∙ ap (λ b'. read_ents (length (e ∷ es)) b' b') assoc
    ∙ read_ents_lem (e ∷ es) off ents tail (names ++ tail) (length-ents_bytes off (e ∷ es)) small h
        t

zeros-Stops : (n : ℕ) → Stops (zeros n)
unfolding zeros
zeros-Stops zero = tt
zeros-Stops (suc n) = refl

pub read_block-block :
    (es : List Ent) → 0 < length es → needed es ≤ blk_size → AreEnts es → read_block (block es) ≡ es
unfolding block
read_block-block es l b h =
    read_block_lem es (zeros (blk_size - length (used_bytes es))) l b h (zeros-Stops _)
