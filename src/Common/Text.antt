-- ===== src/Common/Text.antt =====
-- Go strings and byte slices as lists of bytes, with the functions of package strings that the
-- program calls.
use Prim.Native.Nat.{ℕ}
use Prim.Native.Char.{code}
use Prim.Native.String.{String}
use mathlib.Core.Path.{◌≡◌, refl, ap, sym, ◌∙◌}
use mathlib.Core.Logic.{◌↔◌, ◌≢◌, inl, inr}
use mathlib.Core.Bool.{Bool, true, false, ◌&&◌, ◌||◌, not}
use mathlib.Core.List.{List, [], ◌∷◌, ◌++◌, append-nil, append_assoc, reverse}
use mathlib.Core.Option.{Option, none, some}
use native.Mathlib.Omega.{arith}
use tacklebox.Common.Tests.{◌==◌, if◌then◌else◌, leb, ltb, Bool-cases}

abbrev pub Bytes : Type 0
Bytes = List ℕ

-- The bytes of a literal, all of which are ASCII here.
abbrev pub codes : String → Bytes
codes String.[] = []
codes (String.◌∷◌ c s) = code c ∷ codes s

-- a == b on strings
unfoldable pub bytes_eq : Bytes → Bytes → Bool
bytes_eq [] [] = true
bytes_eq (x ∷ xs) (y ∷ ys) = x == y && bytes_eq xs ys
bytes_eq _ _ = false

pub bytes_eq_iff : (a b : Bytes) → (bytes_eq a b ≡ true) ↔ (a ≡ b)
unfolding bytes_eq
bytes_eq_iff (x ∷ a) (y ∷ b) = ground (arith, bytes_eq_iff a b)
bytes_eq_iff _ _ = ground arith

pub bytes_eq_refl : (a : Bytes) → bytes_eq a a ≡ true
bytes_eq_refl a = (bytes_eq_iff a a).1 refl

-- strings.CutPrefix: what follows the prefix, if it is there.
unfoldable pub cut_prefix : Bytes → Bytes → Option Bytes
cut_prefix s [] = some s
cut_prefix [] (p ∷ ps) = none
cut_prefix (c ∷ s) (p ∷ ps) = if c == p then cut_prefix s ps else none

-- strings.HasPrefix
unfoldable pub has_prefix : Bytes → Bytes → Bool
unfolding cut_prefix
has_prefix s p = elim (cut_prefix s p) [ some _ ↦ true | none ↦ false ]

-- strings.TrimPrefix
unfoldable pub trim_prefix : Bytes → Bytes → Bytes
unfolding cut_prefix
trim_prefix s p = elim (cut_prefix s p) [ some rest ↦ rest | none ↦ s ]

pub cut_prefix-append : (p s : Bytes) → cut_prefix (p ++ s) p ≡ some s
unfolding cut_prefix
cut_prefix-append [] s = refl
cut_prefix-append (c ∷ p) s = ground (arith, cut_prefix-append p s)

pub cut_prefix_sound : (s p rest : Bytes) → cut_prefix s p ≡ some rest → s ≡ p ++ rest
unfolding cut_prefix
cut_prefix_sound s [] rest h = ground arith
cut_prefix_sound [] (p ∷ ps) rest h = ground arith
cut_prefix_sound (c ∷ s) (p ∷ ps) rest h = ground (arith, cut_prefix_sound s ps rest)

-- A byte of strings.Fields' white space, for ASCII text.
abbrev pub is_space : ℕ → Bool
is_space c = c == b' ' || (leb 9 c && leb c 13)

-- A run that has ended is kept unless it is empty.
abbrev pub flush : Bytes → List Bytes → List Bytes
flush [] rest = rest
flush (c ∷ cur) rest = (c ∷ cur) ∷ rest

-- strings.Fields: the runs of bytes that are not white space. `cur` is the current run.
unfoldable pub fields_from : Bytes → Bytes → List Bytes
fields_from cur [] = flush cur []
fields_from cur (c ∷ s) = elim (is_space c) [
  | true ↦ flush cur (fields_from [] s)
  | false ↦ fields_from (cur ++ c ∷ []) s
]

unfoldable pub fields : Bytes → List Bytes
unfolding fields_from
fields = fields_from []

-- strings.Join
unfoldable pub join : Bytes → List Bytes → Bytes
join sep [] = []
join sep (x ∷ []) = x
join sep (x ∷ y ∷ r) = x ++ (sep ++ join sep (y ∷ r))

-- A text with no white space.
abbrev pub IsWord : Bytes → Type 0
IsWord [] = Unit
IsWord (c ∷ s) = (is_space c ≡ false) × IsWord s

fields_from-next :
    (cur : Bytes) (c : ℕ) (s : Bytes)
    → is_space c ≡ false
    → fields_from cur (c ∷ s) ≡ fields_from (cur ++ c ∷ []) s
unfolding fields_from
fields_from-next cur c s h = ground arith

fields_from-word :
    (cur w rest : Bytes) → IsWord w → fields_from cur (w ++ rest) ≡ fields_from (cur ++ w) rest
fields_from-word cur [] rest h = rw append-nil
fields_from-word cur (c ∷ w) rest h =
    fields_from-next cur c (w ++ rest) h.0
    ∙ fields_from-word (cur ++ c ∷ []) w rest h.1
    ∙ ap (λ t. fields_from t rest) (append_assoc cur (c ∷ []) w)

fields_from-space : (cur s : Bytes) → fields_from cur (b' ' ∷ s) ≡ flush cur (fields_from [] s)
unfolding fields_from
fields_from-space cur s = refl

-- A word is split off at the space that follows it.
pub fields-word :
    (w rest : Bytes) → w ≢ [] → IsWord w → fields (w ++ (b' ' ∷ rest)) ≡ w ∷ fields rest
unfolding fields
fields-word [] rest n h = absurd (n refl)
fields-word (c ∷ w) rest n h =
    fields_from-word [] (c ∷ w) (b' ' ∷ rest) h ∙ fields_from-space (c ∷ w) rest

pub fields-word_end : (w : Bytes) → w ≢ [] → IsWord w → fields w ≡ w ∷ []
unfolding fields
fields-word_end [] n h = absurd (n refl)
fields-word_end (c ∷ w) n h =
    ap (fields_from []) (sym (append-nil (c ∷ w)))
    ∙ fields_from-word [] (c ∷ w) [] h
    ∙ unfold fields_from in refl

pub IsWord-append : (s t : Bytes) → IsWord s → IsWord t → IsWord (s ++ t)
IsWord-append [] t hs ht = ht
IsWord-append (c ∷ s) t hs ht = (hs.0, IsWord-append s t hs.1 ht)

flush-append : (cur : Bytes) (xs ys : List Bytes) → flush cur xs ++ ys ≡ flush cur (xs ++ ys)
flush-append [] xs ys = refl
flush-append (c ∷ cur) xs ys = refl

fields_from-stop :
    (cur : Bytes) (c : ℕ) (s : Bytes)
    → is_space c ≡ true
    → fields_from cur (c ∷ s) ≡ flush cur (fields_from [] s)
unfolding fields_from
fields_from-stop cur c s h = ground arith

fields_from-append :
    (cur s t : Bytes) → fields_from cur (s ++ (b' ' ∷ t)) ≡ fields_from cur s ++ fields_from [] t
fields_from-append cur [] t =
    fields_from-space cur t
    ∙ sym (flush-append cur [] (fields_from [] t))
    ∙ ap (λ x. x ++ fields_from [] t) (unfold fields_from in refl)
fields_from-append cur (c ∷ s) t = elim (Bool-cases (is_space c)) [
  | inl space ↦
      fields_from-stop cur c (s ++ (b' ' ∷ t)) space
      ∙ ap (flush cur) (fields_from-append [] s t)
      ∙ sym (flush-append cur (fields_from [] s) (fields_from [] t))
      ∙ ap (λ x. x ++ fields_from [] t) (sym (fields_from-stop cur c s space))
  | inr other ↦
      fields_from-next cur c (s ++ (b' ' ∷ t)) other
      ∙ fields_from-append (cur ++ c ∷ []) s t
      ∙ ap (λ x. x ++ fields_from [] t) (sym (fields_from-next cur c s other))
]

-- The fields on either side of a space.
pub fields-append : (s t : Bytes) → fields (s ++ (b' ' ∷ t)) ≡ fields s ++ fields t
unfolding fields
fields-append s t = fields_from-append [] s t

-- strings.TrimSpace
unfoldable pub trim_left_space : Bytes → Bytes
trim_left_space [] = []
trim_left_space (c ∷ s) = elim (is_space c) [ true ↦ trim_left_space s | false ↦ c ∷ s ]

unfoldable pub trim_space : Bytes → Bytes
unfolding trim_left_space
trim_space s = reverse (trim_left_space (reverse (trim_left_space s)))

-- strings.ReplaceAll(s, c, by), for a text of one byte.
unfoldable pub replace_byte : ℕ → Bytes → Bytes → Bytes
replace_byte c by [] = []
replace_byte c by (d ∷ s) = if d == c then by ++ replace_byte c by s else d ∷ replace_byte c by s

abbrev pub is_word : Bytes → Bool
is_word [] = true
is_word (c ∷ s) = not (is_space c) && is_word s

-- A literal with no white space, by evaluation.
pub IsWord-literal : (s : Bytes) → is_word s ≡ true → IsWord s
IsWord-literal [] h = tt
IsWord-literal (c ∷ s) h = (ground arith, IsWord-literal s (ground arith))

-- Whether a text is in a list.
abbrev pub one_name : Bytes → List Bytes → Bool
one_name s [] = false
one_name s (x ∷ xs) = bytes_eq x s || one_name s xs

-- a <= b on strings, byte by byte.
unfoldable pub before : Bytes → Bytes → Bool
before [] t = true
before (c ∷ s) [] = false
before (c ∷ s) (d ∷ t) = ltb c d || (c == d && before s t)
