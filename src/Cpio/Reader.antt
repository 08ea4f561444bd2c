-- ===== src/Cpio/Reader.antt =====
-- A reader of newc archives, for what internal/purefs/initrdoverlay.go writes.
pub mod Digits
pub mod Member
use tacklebox.Common.{
  ℕ, zero, suc, ◌+◌, ◌-◌, ◌*◌, ◌/◌, ◌%◌, ◌^◌, ◌≤◌, ◌<◌, Bytes, List, [], ◌∷◌, ◌++◌, ◌≡◌, refl, sym,
  ap, subst, ◌∙◌, Bool, true, false, ◌&&◌, Option, some, none, arith, codes, cut_prefix,
  cut_prefix-append, bytes_eq, length, length-append, append_assoc, leb, ltb, ◌==◌, if◌then◌else◌,
}
use native.Mathlib.Nat.{pow-succ', div-add-mod}
use tacklebox.Iso.{zeros}
use tacklebox.Iso.Write.Chunks.{length-zeros}
use tacklebox.Cpio.{hex_digit, hex_high, hex_low, hex8, joined_fields, padding}

-- A member of an archive.
pub record Entry : Type 0 where
  pub name : Bytes
  pub mode : ℕ
  pub body : Bytes

abbrev pub digit_value : ℕ → Option ℕ
digit_value c =
    if leb b'0' c && leb c b'9'
    then some (c - b'0')
    else if leb b'A' c && leb c b'F'
    then some (c - 55)
    else none

-- So many digits, after what was read before them.
abbrev pub add_digit : (ℕ → Option (ℕ × Bytes)) → Option ℕ → Option (ℕ × Bytes)
add_digit rest none = none
add_digit rest (some d) = rest d

unfoldable pub read_digits : ℕ → ℕ → Bytes → Option (ℕ × Bytes)
read_digits zero acc s = some (acc, s)
read_digits (suc k) acc [] = none
read_digits (suc k) acc (c ∷ s) = add_digit (λ d. read_digits k (acc * 16 + d) s) (digit_value c)

abbrev pub before_number : ℕ → Option (List ℕ × Bytes) → Option (List ℕ × Bytes)
before_number n none = none
before_number n (some (ns, s)) = some (n ∷ ns, s)

abbrev pub then_number :
    (Bytes → Option (List ℕ × Bytes)) → Option (ℕ × Bytes) → Option (List ℕ × Bytes)
then_number rest none = none
then_number rest (some (n, s)) = before_number n (rest s)

unfoldable pub read_numbers : ℕ → Bytes → Option (List ℕ × Bytes)
unfolding read_digits
read_numbers zero s = some ([], s)
read_numbers (suc k) s = then_number (read_numbers k) (read_digits 8 0 s)

-- The first bytes, if there are so many, and what is behind them.
abbrev pub before_byte : ℕ → Option (Bytes × Bytes) → Option (Bytes × Bytes)
before_byte c none = none
before_byte c (some (a, b)) = some (c ∷ a, b)

unfoldable pub cut : ℕ → Bytes → Option (Bytes × Bytes)
cut zero s = some ([], s)
cut (suc n) [] = none
cut (suc n) (c ∷ s) = before_byte c (cut n s)

unfoldable pub without_zero : Bytes → Bytes
without_zero [] = []
without_zero (c ∷ []) = []
without_zero (c ∷ d ∷ s) = c ∷ without_zero (d ∷ s)

abbrev then_cut : {A : Type 0} → (Bytes → Bytes → Option A) → Option (Bytes × Bytes) → Option A
then_cut rest none = none
then_cut rest (some (a, b)) = rest a b

-- A member behind its fields: name and body, each padded to four bytes.
abbrev pub read_member : ℕ → ℕ → ℕ → Bytes → Option (Entry × Bytes)
read_member mode size name_size s =
    then_cut
      (λ name t.
        then_cut
          (λ _ u.
            then_cut
              (λ body v.
                then_cut
                  (λ _ w. some (record { name = without_zero name; mode = mode; body = body }, w))
                  (cut (padding 4 size) v))
              (cut size u))
          (cut (padding 4 (110 + name_size)) t))
      (cut name_size s)

abbrev pub by_fields : List ℕ → Bytes → Option (Entry × Bytes)
by_fields (i ∷ mode ∷ u ∷ g ∷ l ∷ t ∷ size ∷ a ∷ b ∷ c ∷ d ∷ name_size ∷ x ∷ []) s =
    read_member mode size name_size s
by_fields _ s = none

abbrev pub behind_fields : Option (List ℕ × Bytes) → Option (Entry × Bytes)
behind_fields none = none
behind_fields (some (ns, s)) = by_fields ns s

abbrev pub behind_magic : Option Bytes → Option (Entry × Bytes)
behind_magic none = none
behind_magic (some s) = behind_fields (read_numbers 13 s)

unfoldable pub read_entry : Bytes → Option (Entry × Bytes)
unfolding cut_prefix read_numbers cut without_zero
read_entry s = behind_magic (cut_prefix s (codes "070701"))

-- The members before the trailer.
abbrev before_entry : Entry → Option (List Entry) → Option (List Entry)
before_entry e none = none
before_entry e (some es) = some (e ∷ es)

abbrev pub then_entries :
    (Bytes → Option (List Entry)) → Option (Entry × Bytes) → Option (List Entry)
then_entries rest none = none
then_entries rest (some (e, s)) =
    if bytes_eq e.name (codes "TRAILER!!!") then some [] else before_entry e (rest s)

unfoldable pub read_archive : ℕ → Bytes → Option (List Entry)
unfolding read_entry
read_archive zero s = none
read_archive (suc n) s = then_entries (read_archive n) (read_entry s)
