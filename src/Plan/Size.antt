-- ===== src/Plan/Size.antt =====
-- `parseSize`: sizes such as "32G". Numbers are `uint64` and wrap around.
pub mod Laws
use tacklebox.Common.{
  ℕ, zero, suc, ◌+◌, ◌-◌, ◌*◌, ◌^◌, ◌%◌, Bytes, [], ◌∷◌, true, false, ◌||◌, Option, some, none,
  ◌==◌, if◌then◌else◌, is_digit, u64,
}

-- The last byte of a text that is not empty, `s[len(s)-1]`, given as its first byte and the rest.
unfoldable pub last_byte : ℕ → Bytes → ℕ
last_byte c [] = c
last_byte c (d ∷ s) = last_byte d s

-- s[:len(s)-1]
unfoldable pub without_last : ℕ → Bytes → Bytes
without_last c [] = []
without_last c (d ∷ s) = c ∷ without_last d s

-- The switch on the unit letter.
unfoldable pub unit_of : ℕ → Option ℕ
unit_of c =
    if c == b'K' || c == b'k'
    then some (2 ^ 10)
    else if c == b'M' || c == b'm'
    then some (2 ^ 20)
    else if c == b'G' || c == b'g'
    then some (2 ^ 30)
    else if c == b'T' || c == b't'
    then some (2 ^ 40)
    else none

-- The loop over the digits; `none` is the return from inside it.
unfoldable pub scan_digits : ℕ → Bytes → Option ℕ
scan_digits n [] = some n
scan_digits n (c ∷ s) = elim (is_digit c) [
  | true ↦ scan_digits (u64 (n * 10 + (c - b'0'))) s
  | false ↦ none
]

unfoldable pub scaled : ℕ → Option ℕ → Option ℕ
scaled unit none = none
scaled unit (some zero) = none
scaled unit (some (suc n)) = some (u64 (suc n * unit))

-- The rest of the function behind the switch: with a unit letter the digits stand before it.
unfoldable pub sized : Option ℕ → ℕ → Bytes → Option ℕ
sized (some unit) c s = scaled unit (scan_digits 0 (without_last c s))
sized none c s = scaled 1 (scan_digits 0 (c ∷ s))

unfoldable pub parse_size : Bytes → Option ℕ
parse_size [] = none
parse_size (c ∷ s) = sized (unit_of (last_byte c s)) c s
