-- ===== src/Plan/Size/Laws.antt =====
-- Sizes that are read from digits and a unit letter.
use tacklebox.Common.{
  ℕ, zero, suc, ◌+◌, ◌-◌, ◌*◌, ◌^◌, ◌<◌, Bytes, [], ◌∷◌, ◌++◌, ◌≡◌, ◌≢◌, ◌⊎◌, inl, inr, ap, refl,
  ◌∙◌, none, some, arith, ◌%◌, ◌==◌, if◌then◌else◌, Bool-cases, u64, AllDigits, digits_value,
  decimal, AllDigits-decimal, digits_value-decimal,
}
use native.Mathlib.Nat.{mod-eq_of_lt}
use tacklebox.Plan.Size.{last_byte, sized, without_last, unit_of, scan_digits, scaled, parse_size}

last_byte-append : (c : ℕ) (s : Bytes) (u : ℕ) → last_byte c (s ++ u ∷ []) ≡ u
unfolding last_byte
last_byte-append c [] u = refl
last_byte-append c (d ∷ s) u = last_byte-append d s u

without_last-append : (c : ℕ) (s : Bytes) (u : ℕ) → without_last c (s ++ u ∷ []) ≡ c ∷ s
unfolding without_last
without_last-append c [] u = refl
without_last-append c (d ∷ s) u = ap (◌∷◌ c) (without_last-append d s u)

step_wraps : (n m c : ℕ) → n ≡ u64 m → u64 (n * 10 + (c - b'0')) ≡ u64 (m * 10 + (c - b'0'))
step_wraps n m c h = omega arith

-- The loop computes the number that the digits denote, modulo 2^64.
scan_digits_wraps :
    (n m : ℕ) (s : Bytes)
    → n ≡ u64 m
    → AllDigits s
    → scan_digits n s ≡ some (u64 (digits_value m s))
unfolding scan_digits
scan_digits_wraps n m [] h d = ap some h
scan_digits_wraps n m (c ∷ s) h d = ground (
  arith,
  d.0,
  scan_digits_wraps (u64 (n * 10 + (c - b'0'))) (m * 10 + (c - b'0')) s (step_wraps n m c h) d.1,
)

-- The digits before a unit letter are scaled by the unit.
digits_scaled :
    (ds : Bytes) (u unit : ℕ)
    → ds ≢ []
    → AllDigits ds
    → unit_of u ≡ some unit
    → parse_size (ds ++ u ∷ []) ≡ scaled unit (some (u64 (digits_value 0 ds)))
unfolding parse_size sized
digits_scaled [] u unit n d h = absurd (n refl)
digits_scaled (c ∷ s) u unit n d h =
    cc (last_byte-append c s u, without_last-append c s u, h, scan_digits_wraps 0 0 (c ∷ s) refl d)

-- The letters of the units, and how many bytes each unit has.
abbrev pub UnitOf : ℕ → ℕ → Type 0
UnitOf u unit =
    (((u ≡ b'K') ⊎ (u ≡ b'k')) × (unit ≡ 1024))
    ⊎ ((((u ≡ b'M') ⊎ (u ≡ b'm')) × (unit ≡ 1048576))
        ⊎ ((((u ≡ b'G') ⊎ (u ≡ b'g')) × (unit ≡ 1073741824))
            ⊎ (((u ≡ b'T') ⊎ (u ≡ b't')) × (unit ≡ 1099511627776))))

unit_of_lem : (u unit : ℕ) → UnitOf u unit → unit_of u ≡ some unit
unfolding unit_of
unit_of_lem u unit h = ground arith

scaled_zero : (unit n : ℕ) → n ≡ 0 → scaled unit (some n) ≡ none
unfolding scaled
scaled_zero unit zero h = refl
scaled_zero unit (suc n) h = absurd (omega (arith, h))

scaled_pos : (unit n : ℕ) → n ≢ 0 → scaled unit (some n) ≡ some (u64 (n * unit))
unfolding scaled
scaled_pos unit zero h = absurd (h refl)
scaled_pos unit (suc n) h = refl

product_wraps : (u unit n : ℕ) → UnitOf u unit → u64 (u64 n * unit) ≡ n * unit % 2 ^ 64
product_wraps u unit n (inl (_, e)) = rw e (omega arith)
product_wraps u unit n (inr (inl (_, e))) = rw e (omega arith)
product_wraps u unit n (inr (inr (inl (_, e)))) = rw e (omega arith)
product_wraps u unit n (inr (inr (inr (_, e)))) = rw e (omega arith)

-- A text of digits before one of the letters K, M, G and T, or k, m, g and t, is the number that the digits
-- denote times 2^10, 2^20, 2^30 or 2^40, reduced modulo 2^64; it is refused exactly when the number itself
-- is a multiple of 2^64, zero among them.
pub parse_size_digits :
    (ds : Bytes) (u unit : ℕ)
    → ds ≢ []
    → AllDigits ds
    → UnitOf u unit
    → parse_size (ds ++ u ∷ [])
      ≡ (if digits_value 0 ds % 2 ^ 64 == 0 then none else some (digits_value 0 ds * unit % 2 ^ 64))
parse_size_digits ds u unit n d h =
    let v = digits_value 0 ds in
    let made = digits_scaled ds u unit n d (unit_of_lem u unit h) in
    elim (Bool-cases (v % 2 ^ 64 == 0)) [
      | inl y ↦ rw y (made ∙ scaled_zero unit (u64 v) (ground arith))
      | inr z ↦ rw z (
          made
          ∙ scaled_pos unit (u64 v) (λ e. absurd (ground arith))
          ∙ ap some (product_wraps u unit v h))
    ]

decimal-ne-nil : (n : ℕ) → 0 < n → decimal n ≢ []
decimal-ne-nil n p e = absurd (omega (arith, digits_value-decimal n, ap (digits_value 0) e))

scaled_lem :
    (unit n : ℕ)
    → 0 < n
    → n < 2 ^ 64
    → n * unit < 2 ^ 64
    → scaled unit (some (u64 n)) ≡ some (n * unit)
unfolding scaled
scaled_lem unit zero p h k = absurd (omega arith)
scaled_lem unit (suc n) p h k =
    let e : u64 (suc n) ≡ suc n = omega arith in rw e (ap some (mod-eq_of_lt k))

-- A size printed with "%dG", as recipe-gen prints its default, is read back as that many GiB, when
-- it is positive and the bytes are fewer than 2^64.
pub parse_size-decimal :
    (n : ℕ) → 0 < n → n * 2 ^ 30 < 2 ^ 64 → parse_size (decimal n ++ b'G' ∷ []) ≡ some (n * 2 ^ 30)
parse_size-decimal n p h =
    digits_scaled (decimal n) b'G' (2 ^ 30) (decimal-ne-nil n p) (AllDigits-decimal n)
      (unfold unit_of in refl)
    ∙ rw digits_value-decimal (scaled_lem (2 ^ 30) n p (omega arith) h)
