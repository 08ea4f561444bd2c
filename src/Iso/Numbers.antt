-- ===== src/Iso/Numbers.antt =====
-- Numbers in ISO 9660's two byte orders: both32, both16, le32 and be32.
use tacklebox.Common.{
  ℕ, ◌+◌, ◌*◌, ◌/◌, ◌%◌, ◌^◌, ◌<◌, Bytes, [], ◌∷◌, ◌++◌, ◌≡◌, refl, arith, take, drop, length,
}

-- byte(v)
abbrev pub byte : ℕ → ℕ
byte v = v % 256

-- le32 and be32, of a uint32.
unfoldable pub le32 : ℕ → Bytes
le32 v = byte v ∷ byte (v / 2 ^ 8) ∷ byte (v / 2 ^ 16) ∷ byte (v / 2 ^ 24) ∷ []

unfoldable pub be32 : ℕ → Bytes
be32 v = byte (v / 2 ^ 24) ∷ byte (v / 2 ^ 16) ∷ byte (v / 2 ^ 8) ∷ byte v ∷ []

unfoldable pub both32 : ℕ → Bytes
unfolding le32 be32
both32 v = le32 v ++ be32 v

unfoldable pub both16 : ℕ → Bytes
both16 v = byte v ∷ byte (v / 2 ^ 8) ∷ byte (v / 2 ^ 8) ∷ byte v ∷ []

-- uint32(v)
abbrev pub u32 : ℕ → ℕ
u32 v = v % 2 ^ 32

-- The two byte orders, as a reader of the image takes them.
abbrev pub from_le : Bytes → ℕ
from_le [] = 0
from_le (b ∷ bs) = b + 256 * from_le bs

abbrev pub from_be : ℕ → Bytes → ℕ
from_be n [] = n
from_be n (b ∷ bs) = from_be (n * 256 + b) bs

-- A both-endian field holds its number, below 2^32, in either half.
pub both32-from_le :
    (v : ℕ) → v < 2 ^ 32 → (from_le (take 4 (both32 v)) ≡ v) × (from_be 0 (drop 4 (both32 v)) ≡ v)
unfolding both32 le32 be32
both32-from_le v h = (omega arith, omega arith)

pub length-both32 : (v : ℕ) → length (both32 v) ≡ 8
unfolding both32 le32 be32
length-both32 v = refl

pub length-both16 : (v : ℕ) → length (both16 v) ≡ 4
unfolding both16
length-both16 v = refl
