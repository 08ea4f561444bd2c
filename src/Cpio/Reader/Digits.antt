-- ===== src/Cpio/Reader/Digits.antt =====
-- The numbers in the headers of internal/purefs/initrdoverlay.go, read back.
use tacklebox.Common.{
  ℕ, zero, suc, ◌+◌, ◌*◌, ◌/◌, ◌%◌, ◌^◌, ◌<◌, Bytes, List, [], ◌∷◌, ◌++◌, ◌≡◌, refl, sym, ap, ◌∙◌,
  some, arith, length, length-append, append_assoc,
}
use native.Mathlib.Nat.{pow-succ'}
use tacklebox.Cpio.Reader.{
  digit_value, add_digit, before_number, then_number, read_digits, read_numbers,
}
use tacklebox.Cpio.{hex_digit, hex_high, hex_low, hex8, joined_fields}

digit_value-hex_digit : (d : ℕ) → d < 16 → digit_value (hex_digit d) ≡ some d
digit_value-hex_digit d h = ground (arith, h)

hex_low-append : (k n : ℕ) (rest s : Bytes) → hex_low k n rest ++ s ≡ hex_low k n (rest ++ s)
unfolding hex_low
hex_low-append zero n rest s = refl
hex_low-append (suc k) n rest s = hex_low-append k (n / 16) (hex_digit (n % 16) ∷ rest) s

length-hex_low : (k n : ℕ) (rest : Bytes) → length (hex_low k n rest) ≡ k + length rest
unfolding hex_low
length-hex_low zero n rest = omega arith
length-hex_low (suc k) n rest = omega (arith, length-hex_low k (n / 16) (hex_digit (n % 16) ∷ rest))

shifted : (acc p n : ℕ) → (acc * p + n / 16) * 16 + n % 16 ≡ acc * (16 * p) + n
shifted acc p n = omega arith

-- The digits of a number are read back, behind others.
read_digits-hex_low :
    (k j n acc : ℕ) (rest : Bytes)
    → n < 16 ^ k
    → read_digits (k + j) acc (hex_low k n rest) ≡ read_digits j (acc * 16 ^ k + n) rest
unfolding hex_low read_digits
read_digits-hex_low zero j n acc rest h =
    ap (λ m. read_digits m acc rest) (omega arith)
    ∙ ap (λ m. read_digits j m rest) (omega (arith, h))
read_digits-hex_low (suc k) j n acc rest h =
    let d = hex_digit (n % 16) in
    ap (λ m. read_digits m acc (hex_low k (n / 16) (d ∷ rest))) (omega arith)
    ∙ read_digits-hex_low k (suc j) (n / 16) acc (d ∷ rest) (omega (arith, h, pow-succ' 16 k))
    ∙ ap (add_digit (λ c. read_digits j ((acc * 16 ^ k + n / 16) * 16 + c) rest))
        (digit_value-hex_digit (n % 16) (omega arith))
    ∙ ap (λ m. read_digits j m rest)
        (shifted acc (16 ^ k) n ∙ ap (λ p. acc * p + n) (sym (pow-succ' 16 k)))

hex_high-none : (n : ℕ) (rest : Bytes) → hex_high n 0 rest ≡ rest
unfolding hex_high
hex_high-none zero rest = refl
hex_high-none (suc n) rest = refl

-- A number that a field can hold takes the eight digits of it.
hex8-small : (n : ℕ) → n < 2 ^ 32 → hex8 n ≡ hex_low 8 n []
unfolding hex8
hex8-small n h = ap (λ m. hex_high n m (hex_low 8 n [])) (omega (arith, h)) ∙ hex_high-none n _

read_digits-hex8 : (n : ℕ) (s : Bytes) → n < 2 ^ 32 → read_digits 8 0 (hex8 n ++ s) ≡ some (n, s)
unfolding read_digits
read_digits-hex8 n s h =
    ap (λ d. read_digits 8 0 (d ++ s)) (hex8-small n h)
    ∙ ap (read_digits 8 0) (hex_low-append 8 n [] s)
    ∙ read_digits-hex_low 8 0 n 0 s h
    ∙ ap (λ m. some (m, s)) (omega arith)

length-hex8 : (n : ℕ) → n < 2 ^ 32 → length (hex8 n) ≡ 8
length-hex8 n h = ap length (hex8-small n h) ∙ length-hex_low 8 n []

-- Numbers that eight digits hold.
unfoldable pub Fit : List ℕ → Type 0
Fit [] = Unit
Fit (n ∷ ns) = (n < 2 ^ 32) × Fit ns

pub read_numbers-joined_fields :
    (ns : List ℕ) (s : Bytes)
    → Fit ns
    → read_numbers (length ns) (joined_fields ns ++ s) ≡ some (ns, s)
unfolding read_numbers Fit
read_numbers-joined_fields [] s h = refl
read_numbers-joined_fields (n ∷ ns) s (h, hs) =
    ap (λ t. then_number (read_numbers (length ns)) (read_digits 8 0 t))
      (append_assoc (hex8 n) (joined_fields ns) s)
    ∙ ap (then_number (read_numbers (length ns))) (read_digits-hex8 n (joined_fields ns ++ s) h)
    ∙ ap (before_number n) (read_numbers-joined_fields ns s hs)

pub length-joined_fields : (ns : List ℕ) → Fit ns → length (joined_fields ns) ≡ 8 * length ns
unfolding Fit
length-joined_fields [] h = refl
length-joined_fields (n ∷ ns) (h, hs) =
    omega (
      arith,
      length-append (hex8 n) (joined_fields ns),
      length-hex8 n h,
      length-joined_fields ns hs,
    )
