-- ===== src/Liveboot/Outcome.antt =====
-- Results of internal/liveboot: a value, an error, a panic of a slice that is out of range, or fuel that is
-- used up; and bytes read from a slice.
use tacklebox.Common.{
  ℕ, ◌+◌, ◌-◌, ◌*◌, ◌≤◌, Bytes, [], ◌∷◌, ◌≡◌, refl, sym, subst, Bool, true, false, ◌||◌, arith,
  length, length-take, length-drop, take, drop, ltb, if◌then◌else◌,
}

pub data Outcome (A : Type 0) : Type 0 where
  ok : A → Outcome A
  err : Outcome A
  panics : Outcome A
  stuck : Outcome A

unfoldable pub bind : {A B : Type 0} → Outcome A → (A → Outcome B) → Outcome B
bind (ok a) f = f a
bind err f = err
bind panics f = panics
bind stuck f = stuck

-- A test that returns an error.
unfoldable pub refuse_if : {A : Type 0} → Bool → Outcome A → Outcome A
refuse_if true rest = err
refuse_if false rest = rest

-- A test with two branches.
unfoldable pub choose : {A : Type 0} → Bool → Outcome A → Outcome A → Outcome A
choose true first second = first
choose false first second = second

-- A value of which P holds, or an error.
pub data Ensures {A : Type 0} (P : A → Type 0) : Outcome A → Type 0 where
  fine : {a : A} → P a → Ensures P (ok a)
  failed : Ensures P err

abbrev pub Anything : {A : Type 0} → A → Type 0
Anything a = Unit

-- A value or an error.
abbrev pub IsFine : {A : Type 0} → Outcome A → Type 0
IsFine o = Ensures Anything o

-- data[lo:hi]
unfoldable pub slice : ℕ → ℕ → Bytes → Outcome Bytes
slice lo hi bytes =
    if ltb hi lo || ltb (length bytes) hi then panics else ok (take (hi - lo) (drop lo bytes))

abbrev big_endian : Bytes → Outcome ℕ
big_endian (a ∷ b ∷ c ∷ d ∷ []) = ok (((a * 256 + b) * 256 + c) * 256 + d)
big_endian _ = panics

abbrev little_endian_pair : Bytes → Outcome ℕ
little_endian_pair (a ∷ b ∷ []) = ok (b * 256 + a)
little_endian_pair _ = panics

abbrev little_endian : Bytes → Outcome ℕ
little_endian (a ∷ b ∷ c ∷ d ∷ []) = ok (((d * 256 + c) * 256 + b) * 256 + a)
little_endian _ = panics

-- binary.BigEndian.Uint32(data[off:]) and binary.LittleEndian.Uint16 and Uint32 of it
unfoldable pub be32 : Bytes → ℕ → Outcome ℕ
unfolding slice bind
be32 bytes off = bind (slice off (off + 4) bytes) big_endian

unfoldable pub le16 : Bytes → ℕ → Outcome ℕ
unfolding slice bind
le16 bytes off = bind (slice off (off + 2) bytes) little_endian_pair

unfoldable pub le32 : Bytes → ℕ → Outcome ℕ
unfolding slice bind
le32 bytes off = bind (slice off (off + 4) bytes) little_endian

pub bind-Ensures :
    {A B : Type 0} {Q : B → Type 0} (P : A → Type 0) {o : Outcome A} {f : A → Outcome B}
    → Ensures P o
    → ((a : A) → P a → Ensures Q (f a))
    → Ensures Q (bind o f)
unfolding bind
bind-Ensures P (fine {a = a} h) k = k a h
bind-Ensures P failed k = failed

pub weaken-Ensures :
    {A : Type 0} {P Q : A → Type 0} {o : Outcome A}
    → ((a : A) → P a → Q a)
    → Ensures P o
    → Ensures Q o
weaken-Ensures k (fine {a = a} h) = fine (k a h)
weaken-Ensures k failed = failed

-- What follows a test that ends in an error.
pub guard-Ensures :
    {A : Type 0} {Q : A → Type 0} {b : Bool} {o : Outcome A}
    → (b ≡ false → Ensures Q o)
    → Ensures Q (refuse_if b o)
unfolding refuse_if
guard-Ensures {b = true} k = failed
guard-Ensures {b = false} k = k refl

pub if-Ensures :
    {A : Type 0} {Q : A → Type 0} {b : Bool} {o p : Outcome A}
    → (b ≡ true → Ensures Q o)
    → (b ≡ false → Ensures Q p)
    → Ensures Q (choose b o p)
unfolding choose
if-Ensures {b = true} h k = h refl
if-Ensures {b = false} h k = k refl

slice-ok :
    (lo hi : ℕ) (bytes : Bytes)
    → lo ≤ hi
    → hi ≤ length bytes
    → slice lo hi bytes ≡ ok (take (hi - lo) (drop lo bytes))
unfolding slice
slice-ok lo hi bytes h k =
    let n : (ltb hi lo || ltb (length bytes) hi) ≡ false = ground (arith, h, k) in rw n refl

pub slice-IsFine :
    (lo hi : ℕ) (bytes : Bytes) → lo ≤ hi → hi ≤ length bytes → IsFine (slice lo hi bytes)
slice-IsFine lo hi bytes h k = subst IsFine (sym (slice-ok lo hi bytes h k)) (fine tt)

pub slice-taken :
    (lo hi : ℕ) (bytes : Bytes)
    → lo ≤ hi
    → hi ≤ length bytes
    → Ensures (λ b. b ≡ take (hi - lo) (drop lo bytes)) (slice lo hi bytes)
slice-taken lo hi bytes h k =
    subst (Ensures (λ b. b ≡ take (hi - lo) (drop lo bytes))) (sym (slice-ok lo hi bytes h k))
      (fine refl)

four : (b : Bytes) → length b ≡ 4 → IsFine (big_endian b) × IsFine (little_endian b)
four (a ∷ b ∷ c ∷ d ∷ []) h = (fine tt, fine tt)
four [] h = absurd (omega (arith, h))
four (a ∷ []) h = absurd (omega (arith, h))
four (a ∷ b ∷ []) h = absurd (omega (arith, h))
four (a ∷ b ∷ c ∷ []) h = absurd (omega (arith, h))
four (a ∷ b ∷ c ∷ d ∷ e ∷ r) h = absurd (omega (arith, h))

length-slice :
    (off : ℕ) (bytes : Bytes)
    → off + 4 ≤ length bytes
    → length (take (off + 4 - off) (drop off bytes)) ≡ 4
length-slice off bytes h =
    omega (arith, length-take (off + 4 - off) (drop off bytes), length-drop off bytes, h)

pub be32-IsFine : (bytes : Bytes) (off : ℕ) → off + 4 ≤ length bytes → IsFine (be32 bytes off)
unfolding be32 bind
be32-IsFine bytes off h =
    let e = slice-ok off (off + 4) bytes (omega arith) h in
    subst (λ o. IsFine (bind o big_endian)) (sym e)
      (four (take (off + 4 - off) (drop off bytes)) (length-slice off bytes h)).0

pub le32-IsFine : (bytes : Bytes) (off : ℕ) → off + 4 ≤ length bytes → IsFine (le32 bytes off)
unfolding le32 bind
le32-IsFine bytes off h =
    let e = slice-ok off (off + 4) bytes (omega arith) h in
    subst (λ o. IsFine (bind o little_endian)) (sym e)
      (four (take (off + 4 - off) (drop off bytes)) (length-slice off bytes h)).1

two : (b : Bytes) → length b ≡ 2 → IsFine (little_endian_pair b)
two (a ∷ b ∷ []) h = fine tt
two [] h = absurd (omega (arith, h))
two (a ∷ []) h = absurd (omega (arith, h))
two (a ∷ b ∷ c ∷ r) h = absurd (omega (arith, h))

pub le16-IsFine : (bytes : Bytes) (off : ℕ) → off + 2 ≤ length bytes → IsFine (le16 bytes off)
unfolding le16 bind
le16-IsFine bytes off h =
    let e = slice-ok off (off + 2) bytes (omega arith) h in
    let b = take (off + 2 - off) (drop off bytes) in
    subst (λ o. IsFine (bind o little_endian_pair)) (sym e)
      (two b
        (omega (arith, length-take (off + 2 - off) (drop off bytes), length-drop off bytes, h)))
