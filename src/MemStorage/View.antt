-- ===== src/MemStorage/View.antt =====
-- memStorage of internal/purefs/membackend.go as an array of bytes that has zeros behind its end.
use tacklebox.Common.{
  ℕ, zero, suc, ◌+◌, ◌-◌, ◌≤◌, ◌<◌, Bytes, [], ◌∷◌, ◌++◌, ◌≡◌, refl, sym, ap, ◌∙◌, true, false,
  Bool-cases, inl, inr, arith, length, length-append, take, drop, leb, ltb, if◌then◌else◌,
}
use tacklebox.Iso.{zeros}
use tacklebox.Iso.Write.Chunks.{length-zeros}
use tacklebox.MemStorage.{MemStorage, end_of_file, bytes, read_at, grown, write_at}

-- A byte of the array.
abbrev pub byte_at : Bytes → ℕ → ℕ
byte_at [] i = 0
byte_at (b ∷ bs) zero = b
byte_at (b ∷ bs) (suc i) = byte_at bs i

-- The bytes of an array from a place on.
abbrev pub slice : (ℕ → ℕ) → ℕ → ℕ → Bytes
slice f at zero = []
slice f at (suc n) = f at ∷ slice f (suc at) n

-- The array with `p` written at `off`.
abbrev pub patched : (ℕ → ℕ) → Bytes → ℕ → ℕ → ℕ
patched f p off i =
    if ltb i off then f i else if ltb i (off + length p) then byte_at p (i - off) else f i

abbrev pub larger : ℕ → ℕ → ℕ
larger a b = if ltb a b then b else a

abbrev pub smaller : ℕ → ℕ → ℕ
smaller a b = if ltb a b then a else b

byte_at-append :
    (xs ys : Bytes) (i : ℕ)
    → byte_at (xs ++ ys) i
      ≡ (if ltb i (length xs) then byte_at xs i else byte_at ys (i - length xs))
byte_at-append [] ys i = ground arith
byte_at-append (x ∷ xs) ys zero = ground arith
byte_at-append (x ∷ xs) ys (suc i) = ground (arith, byte_at-append xs ys i)

byte_at-take : (n : ℕ) (xs : Bytes) (i : ℕ) → i < n → byte_at (take n xs) i ≡ byte_at xs i
byte_at-take zero xs i h = absurd (omega (arith, h))
byte_at-take (suc n) [] i h = refl
byte_at-take (suc n) (x ∷ xs) zero h = refl
byte_at-take (suc n) (x ∷ xs) (suc i) h = byte_at-take n xs i (omega (arith, h))

byte_at-drop : (n : ℕ) (xs : Bytes) (i : ℕ) → byte_at (drop n xs) i ≡ byte_at xs (n + i)
byte_at-drop zero xs i = ap (byte_at xs) (omega arith)
byte_at-drop (suc n) [] i = refl
byte_at-drop (suc n) (x ∷ xs) i =
    let next : suc (n + i) ≡ suc n + i = omega arith in
    byte_at-drop n xs i ∙ ap (byte_at (x ∷ xs)) next

byte_at-zeros : (n i : ℕ) → byte_at (zeros n) i ≡ 0
unfolding zeros
byte_at-zeros zero i = refl
byte_at-zeros (suc n) zero = refl
byte_at-zeros (suc n) (suc i) = byte_at-zeros n i

byte_at-behind : (xs : Bytes) (i : ℕ) → length xs ≤ i → byte_at xs i ≡ 0
byte_at-behind [] i h = refl
byte_at-behind (x ∷ xs) zero h = absurd (omega (arith, h))
byte_at-behind (x ∷ xs) (suc i) h = byte_at-behind xs i (omega (arith, h))

length-take : (n : ℕ) (xs : Bytes) → n ≤ length xs → length (take n xs) ≡ n
length-take zero xs h = refl
length-take (suc n) [] h = absurd (omega (arith, h))
length-take (suc n) (x ∷ xs) h = ap suc (length-take n xs (omega (arith, h)))

length-drop : (n : ℕ) (xs : Bytes) → length (drop n xs) ≡ length xs - n
length-drop zero xs = omega arith
length-drop (suc n) [] = omega arith
length-drop (suc n) (x ∷ xs) = omega (arith, length-drop n xs)

length-grown : (need : ℕ) (b : Bytes) → length (grown need b) ≡ larger (length b) need
length-grown need b =
    ground (arith, length-append b (zeros (need - length b)), length-zeros (need - length b))

byte_at-grown : (need : ℕ) (b : Bytes) (i : ℕ) → byte_at (grown need b) i ≡ byte_at b i
byte_at-grown need b i = elim (Bool-cases (ltb (length b) need)) [
  | inr e ↦ rw e refl
  | inl y ↦ rw y (
      byte_at-append b (zeros (need - length b)) i
      ∙ ground (arith, byte_at-zeros (need - length b) (i - length b), byte_at-behind b i))
]

slice-cong : (f g : ℕ → ℕ) (at n : ℕ) → ((i : ℕ) → f i ≡ g i) → slice f at n ≡ slice g at n
slice-cong f g at zero h = refl
slice-cong f g at (suc n) h =
    ap (λ b. b ∷ slice f (suc at) n) (h at) ∙ ap (λ r. g at ∷ r) (slice-cong f g (suc at) n h)

slice-suc : (f : ℕ → ℕ) (at n : ℕ) → slice f (suc at) n ≡ slice (λ i. f (suc i)) at n
slice-suc f at zero = refl
slice-suc f at (suc n) = ap (λ r. f (suc at) ∷ r) (slice-suc f (suc at) n)

slice-shift : (f : ℕ → ℕ) (at j n : ℕ) → slice (λ i. f (at + i)) j n ≡ slice f (at + j) n
slice-shift f at j zero = refl
slice-shift f at j (suc n) =
    let next : at + suc j ≡ suc (at + j) = omega arith in
    ap (λ r. f (at + j) ∷ r) (slice-shift f at (suc j) n ∙ ap (λ t. slice f t n) next)

-- Cutting a list is reading its array.
abbrev cut : ℕ → Bytes → ℕ
cut zero xs = 0
cut (suc n) [] = 0
cut (suc n) (x ∷ xs) = suc (cut n xs)

cut_lem : (n : ℕ) (xs : Bytes) → cut n xs ≡ smaller n (length xs)
cut_lem zero xs = ground arith
cut_lem (suc n) [] = ground arith
cut_lem (suc n) (x ∷ xs) = ground (arith, cut_lem n xs)

take-slice : (n : ℕ) (xs : Bytes) → take n xs ≡ slice (byte_at xs) 0 (cut n xs)
take-slice zero xs = refl
take-slice (suc n) [] = refl
take-slice (suc n) (x ∷ xs) =
    ap (λ r. x ∷ r) (take-slice n xs ∙ sym (slice-suc (byte_at (x ∷ xs)) 0 (cut n xs)))

take-drop-slice :
    (n off : ℕ) (xs : Bytes)
    → take n (drop off xs) ≡ slice (byte_at xs) off (smaller n (length xs - off))
take-drop-slice n off xs =
    let count : cut n (drop off xs) ≡ smaller n (length xs - off) =
      cut_lem n (drop off xs) ∙ ap (smaller n) (length-drop off xs) in
    let here : off + 0 ≡ off = omega arith in
    take-slice n (drop off xs)
    ∙ slice-cong _ _ 0 (cut n (drop off xs)) (byte_at-drop off xs)
    ∙ slice-shift (byte_at xs) off 0 (cut n (drop off xs))
    ∙ ap (λ t. slice (byte_at xs) t (cut n (drop off xs))) here
    ∙ ap (slice (byte_at xs) off) count

byte_at-behind_patch :
    (p : Bytes) (off : ℕ) (b buf : Bytes) (i : ℕ)
    → off ≤ i
    → ((j : ℕ) → byte_at b j ≡ byte_at buf j)
    → (if ltb (i - off) (length p)
        then byte_at p (i - off)
        else byte_at (drop (off + length p) b) (i - off - length p))
      ≡ (if ltb i (off + length p) then byte_at p (i - off) else byte_at buf i)
byte_at-behind_patch p off b buf i h same = elim (Bool-cases (ltb i (off + length p))) [
  | inl y ↦ let t : ltb (i - off) (length p) ≡ true = ground arith in rw (y, t) refl
  | inr e ↦
      let t : ltb (i - off) (length p) ≡ false = ground arith in
      let place : off + length p + (i - off - length p) ≡ i = ground arith in
      rw (e, t)
        (byte_at-drop (off + length p) b (i - off - length p) ∙ ap (byte_at b) place ∙ same i)
]

byte_at-write_at :
    (p : Bytes) (off : ℕ) (m : MemStorage) (i : ℕ)
    → byte_at (write_at p off m).buf i ≡ patched (byte_at m.buf) p off i
unfolding write_at
byte_at-write_at p off m i =
    let need = off + length p in
    let b = grown need m.buf in
    let long : off ≤ length b = ground (arith, length-grown need m.buf) in
    let rest = p ++ drop need b in
    let split : byte_at (take off b ++ rest) i
        ≡ (if ltb i off then byte_at (take off b) i else byte_at rest (i - off)) =
      byte_at-append (take off b) rest i
      ∙ ap (λ n. if ltb i n then byte_at (take off b) i else byte_at rest (i - n))
          (length-take off b long) in
    split ∙ elim (Bool-cases (ltb i off)) [
      | inl y ↦ rw y (byte_at-take off b i (ground arith) ∙ byte_at-grown need m.buf i)
      | inr e ↦ rw e (
          byte_at-append p (drop need b) (i - off)
          ∙ byte_at-behind_patch p off b m.buf i (ground arith) (byte_at-grown need m.buf))
    ]

length-write_at :
    (p : Bytes) (off : ℕ) (m : MemStorage)
    → length (write_at p off m).buf ≡ larger (length m.buf) (off + length p)
unfolding write_at
length-write_at p off m =
    let need = off + length p in
    let b = grown need m.buf in
    let long : off ≤ length b = ground (arith, length-grown need m.buf) in
    ground (
      arith,
      length-append (take off b) (p ++ drop need b),
      length-append p (drop need b),
      length-take off b long,
      length-drop need b,
      length-grown need m.buf,
    )

-- What is read after a write is the array with the write: a read of `n` bytes at `from` gives an end
-- of file behind the end, which a write moves as far as it has to, and else the bytes up to the end,
-- those of the write where it went, those that were there before elsewhere, and zeros in a gap.
pub read_at-write_at :
    (p : Bytes) (off n from : ℕ) (m : MemStorage)
    → read_at n from (write_at p off m) ≡ (
        let end = larger (length m.buf) (off + length p) in
        if leb end from
        then end_of_file
        else bytes (slice (patched (byte_at m.buf) p off) from (smaller n (end - from))))
unfolding read_at
read_at-write_at p off n from m =
    let buf = (write_at p off m).buf in
    ap (λ t. if leb t from then end_of_file else bytes (take n (drop from buf)))
      (length-write_at p off m)
    ∙ ap (λ t. if leb (larger (length m.buf) (off + length p)) from then end_of_file else bytes t)
        (take-drop-slice n from buf
          ∙ slice-cong _ _ from (smaller n (length buf - from)) (byte_at-write_at p off m)
          ∙ ap (λ t. slice (patched (byte_at m.buf) p off) from (smaller n (t - from)))
              (length-write_at p off m))
