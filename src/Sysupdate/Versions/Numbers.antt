-- ===== src/Sysupdate/Versions/Numbers.antt =====
-- compareNum of internal/purefs/sysupdate.go compares numbers.
use tacklebox.Common.{
  ℕ, suc, ◌+◌, ◌-◌, ◌*◌, ◌^◌, ◌≤◌, ◌<◌, Bytes, [], ◌∷◌, ◌≡◌, ◌⊎◌, refl, sym, ap, subst, ◌∙◌, true,
  Bool-cases, inl, inr, arith, length, ltb, ◌==◌, if◌then◌else◌,
}
use mathlib.Core.Path.{ap₂}
use native.Mathlib.Nat.{mul-le-mul_right, pow-succ', pow-le-pow_right}
use tacklebox.Sysupdate.Versions.{
  is_digit, string_less, trim_zeros, or_zero, Compared, below, same, above, compare_trimmed,
  compare_num,
}

-- A run of digits.
abbrev pub AreDigits : Bytes → Type 0
AreDigits [] = Unit
AreDigits (c ∷ s) = (is_digit c ≡ true) × AreDigits s

-- The number that digits stand for.
unfoldable pub value : Bytes → ℕ
value [] = 0
value (c ∷ s) = (c - b'0') * 10 ^ length s + value s

-- How two numbers compare.
abbrev pub compared : ℕ → ℕ → Compared
compared m n = if m == n then same else if ltb m n then below else above

compare_cases : (m n : ℕ) → (m < n) ⊎ ((m ≡ n) ⊎ (n < m))
compare_cases m n = ground arith

-- Numbers of which one has the greater head digit.
head_less : {d e p u : ℕ} (v : ℕ) → d < e → u < p → d * p + u < e * p + v
head_less {d} {e} {p} {u} v h k = omega (arith, h, k, mul-le-mul_right p h)

value_bound : (s : Bytes) → AreDigits s → value s < 10 ^ length s
unfolding value
value_bound [] h = omega arith
value_bound (c ∷ s) h =
    let small : c - b'0' < 10 = ground (arith, h.0) in
    omega (arith, pow-succ' 10 (length s), head_less 0 small (value_bound s h.1))

-- Digits of the same length compare as texts.
string_less-value :
    (a b : Bytes)
    → AreDigits a
    → AreDigits b
    → length a ≡ length b
    → string_less a b ≡ ltb (value a) (value b)
unfolding string_less value
string_less-value [] [] g h e = refl
string_less-value [] (d ∷ t) g h e = absurd (omega (arith, e))
string_less-value (c ∷ s) [] g h e = absurd (omega (arith, e))
string_less-value (c ∷ s) (d ∷ t) g h e =
    let p = 10 ^ length s in
    let same_length : length s ≡ length t = omega (arith, e) in
    let power : 10 ^ length t ≡ p = ap (λ n. 10 ^ n) (sym same_length) in
    let rest = string_less-value s t g.1 h.1 same_length in
    let bound = value_bound s g.1 in
    let bound' = subst (λ q. value t < q) power (value_bound t h.1) in
    let gc : b'0' ≤ c = ground (arith, g.0) in
    let gd : b'0' ≤ d = ground (arith, h.0) in
    elim (compare_cases c d) [
      | inl l ↦
          let m : c - b'0' < d - b'0' = omega (arith, gc, l) in
          ground (
            arith,
            l,
            subst (λ q. (c - b'0') * p + value s < (d - b'0') * q + value t) (sym power)
                (head_less (value t) m bound),
          )
      | inr (inl q) ↦
          let heads : (c - b'0') * p ≡ (d - b'0') * 10 ^ length t =
            ap₂ (λ x y. (x - b'0') * y) q (sym power) in
          ground (arith, q, heads, rest)
      | inr (inr l) ↦
          let m : d - b'0' < c - b'0' = omega (arith, gd, l) in
          ground (
            arith,
            l,
            subst (λ q. (d - b'0') * q + value t < (c - b'0') * p + value s) (sym power)
                (head_less (value s) m bound'),
          )
    ]

-- Digits without zeros in front, but for zero itself.
abbrev IsTrimmed : Bytes → Type 0
IsTrimmed [] = ⊥
IsTrimmed (c ∷ s) = (length s ≡ 0) ⊎ (b'0' < c)

-- The shorter number is less.
longer-value :
    (a b : Bytes)
    → AreDigits a
    → AreDigits b
    → IsTrimmed a
    → IsTrimmed b
    → length a < length b
    → value a < value b
unfolding value
longer-value [] b g h i j l = absurd i
longer-value (c ∷ s) [] g h i j l = absurd j
longer-value (c ∷ s) (d ∷ t) g h i (inl e) l = absurd (omega (arith, l, e))
longer-value (c ∷ s) (d ∷ t) g h i (inr k) l =
    let one : 1 ≤ d - b'0' = omega (arith, k) in
    let powers : 10 ^ suc (length s) ≤ 10 ^ length t =
      pow-le-pow_right (omega arith) (omega (arith, l)) in
    omega (arith, value_bound (c ∷ s) g, powers, mul-le-mul_right (10 ^ length t) one)

compare_trimmed-value :
    (a b : Bytes)
    → AreDigits a
    → AreDigits b
    → IsTrimmed a
    → IsTrimmed b
    → compare_trimmed a b ≡ compared (value a) (value b)
compare_trimmed-value a b g h i j = elim (compare_cases (length a) (length b)) [
  | inl l ↦ ground (arith, l, longer-value a b g h i j l)
  | inr (inl e) ↦
      let one = string_less-value a b g h e in
      let two = string_less-value b a h g (sym e) in rw (one, two) (ground (arith, e))
  | inr (inr l) ↦ ground (arith, l, longer-value b a h g j i l)
]

or_zero-trim_zeros :
    (s : Bytes)
    → AreDigits s
    → AreDigits (or_zero (trim_zeros s))
      × IsTrimmed (or_zero (trim_zeros s))
      × (value (or_zero (trim_zeros s)) ≡ value s)
unfolding trim_zeros value
or_zero-trim_zeros [] h = ((ground arith, tt), inl refl, refl)
or_zero-trim_zeros (c ∷ s) h = elim (Bool-cases (c == b'0')) [
  | inl y ↦
      let (g, i, e) = or_zero-trim_zeros s h.1 in
      let zero_digit : c - b'0' ≡ 0 = ground (arith, y) in
      rw y (g, i, omega (arith, e, ap (λ d. d * 10 ^ length s) zero_digit))
  | inr n ↦ rw n (h, inr (ground (arith, h.0, n)), refl)
]

-- compareNum compares the numbers that two runs of digits of any length stand for.
pub compare_num-value :
    (a b : Bytes) → AreDigits a → AreDigits b → compare_num a b ≡ compared (value a) (value b)
unfolding compare_num
compare_num-value a b g h =
    let (ga, ia, ea) = or_zero-trim_zeros a g in
    let (gb, ib, eb) = or_zero-trim_zeros b h in
    compare_trimmed-value (or_zero (trim_zeros a)) (or_zero (trim_zeros b)) ga gb ia ib
    ∙ ap₂ compared ea eb
