-- ===== src/Sysupdate/Versions.antt =====
-- versionLess of internal/purefs/sysupdate.go and what it calls.
pub mod Numbers
pub mod Tokens
pub mod Order
use tacklebox.Common.{
  ℕ, zero, suc, Bytes, List, [], ◌∷◌, Bool, true, false, not, ◌&&◌, ◌||◌, length, bytes_eq, ltb,
  leb, ◌==◌, if◌then◌else◌,
}

-- s[0] >= '0' && s[0] <= '9', for a byte
abbrev pub is_digit : ℕ → Bool
is_digit c = leb b'0' c && leb c b'9'

-- a < b on strings
unfoldable pub string_less : Bytes → Bytes → Bool
string_less [] [] = false
string_less [] (d ∷ t) = true
string_less (c ∷ s) [] = false
string_less (c ∷ s) (d ∷ t) = ltb c d || (c == d && string_less s t)

abbrev pub same_kind : Bool → Bool → Bool
same_kind true b = b
same_kind false b = not b

-- The bytes up to the first that is or is not a digit.
unfoldable pub run_of : Bool → Bytes → Bytes × Bytes
run_of num [] = ([], [])
run_of num (c ∷ s) =
    let rest = run_of num s in
    if same_kind (is_digit c) num then (c ∷ rest.0, rest.1) else ([], c ∷ s)

-- splitLead, for a text that is not empty.
unfoldable pub split_lead : Bytes → Bytes × Bytes
unfolding run_of
split_lead [] = ([], [])
split_lead (c ∷ s) = run_of (is_digit c) (c ∷ s)

abbrev pub is_num : Bytes → Bool
is_num [] = false
is_num (c ∷ s) = is_digit c

-- strings.TrimLeft(s, "0")
unfoldable pub trim_zeros : Bytes → Bytes
trim_zeros [] = []
trim_zeros (c ∷ s) = if c == b'0' then trim_zeros s else c ∷ s

abbrev or_zero : Bytes → Bytes
or_zero [] = b'0' ∷ []
or_zero (c ∷ s) = c ∷ s

-- The results -1, 0 and 1 of compareNum.
pub data Compared : Type 0 where
  below same above : Compared

abbrev pub compare_trimmed : Bytes → Bytes → Compared
compare_trimmed a b =
    if length a == length b
    then (if string_less a b then below else if string_less b a then above else same)
    else if ltb (length a) (length b)
    then below
    else above

unfoldable pub compare_num : Bytes → Bytes → Compared
unfolding string_less trim_zeros
compare_num a b = compare_trimmed (or_zero (trim_zeros a)) (or_zero (trim_zeros b))

-- One round of the loop, with what the rounds after it give.
abbrev pub by_number : Compared → Bool → Bool
by_number below next = true
by_number same next = next
by_number above next = false

unfoldable pub less_run : Bytes → Bytes → Bool → Bool
unfolding compare_num
less_run a b next =
    if is_num a && is_num b
    then by_number (compare_num a b) next
    else if bytes_eq a b
    then next
    else string_less a b

-- versionLess, on fuel: a round takes bytes of both.
unfoldable pub version_less_from : ℕ → Bytes → Bytes → Bool
unfolding split_lead less_run
version_less_from n [] [] = false
version_less_from n [] (d ∷ t) = true
version_less_from n (c ∷ s) [] = false
version_less_from zero (c ∷ s) (d ∷ t) = false
version_less_from (suc n) (c ∷ s) (d ∷ t) =
    let next = version_less_from n (split_lead (c ∷ s)).1 (split_lead (d ∷ t)).1 in
    less_run (split_lead (c ∷ s)).0 (split_lead (d ∷ t)).0 next

unfoldable pub version_less : Bytes → Bytes → Bool
unfolding version_less_from
version_less a b = version_less_from (length a) a b
