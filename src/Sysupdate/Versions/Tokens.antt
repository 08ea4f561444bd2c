-- ===== src/Sysupdate/Versions/Tokens.antt =====
-- What versionLess of internal/purefs/sysupdate.go decides: a version is read as numbers and texts.
use tacklebox.Common.{
  ℕ, zero, suc, ◌≤◌, Bytes, List, [], ◌∷◌, ◌≡◌, ◌⊎◌, refl, sym, ap, subst, ◌∙◌, Bool, true, false,
  not, Bool-cases, inl, inr, arith, length, map, bytes_eq, bytes_eq_iff, ltb, if◌then◌else◌,
}
use tacklebox.Sysupdate.Versions.{
  is_digit, string_less, same_kind, run_of, split_lead, is_num, by_number, less_run,
  version_less_from, version_less,
}
use tacklebox.Sysupdate.Versions.Numbers.{AreDigits, value, compared, compare_num-value}

-- The longest runs of digits and of other bytes.
abbrev join_run : ℕ → List Bytes → List Bytes
join_run c [] = (c ∷ []) ∷ []
join_run c ([] ∷ rs) = (c ∷ []) ∷ rs
join_run c ((d ∷ r) ∷ rs) =
    if same_kind (is_digit d) (is_digit c) then (c ∷ d ∷ r) ∷ rs else (c ∷ []) ∷ (d ∷ r) ∷ rs

unfoldable pub runs : Bytes → List Bytes
runs [] = []
runs (c ∷ s) = join_run c (runs s)

-- A run as it is compared.
pub data Token : Type 0 where
  num : ℕ → Token
  text : Bytes → Token

unfoldable pub token : Bytes → Token
unfolding value
token r = if is_num r then num (value r) else text r

-- A text stands before the numbers or behind them.
abbrev pub is_low : Bytes → Bool
is_low [] = true
is_low (c ∷ s) = ltb c b'0'

unfoldable pub token_less : Token → Token → Bool
unfolding string_less
token_less (num m) (num n) = ltb m n
token_less (num m) (text t) = not (is_low t)
token_less (text s) (num n) = is_low s
token_less (text s) (text t) = string_less s t

abbrev lex_step : Token → Token → Bool → Bool
lex_step x y next = if token_less x y then true else if token_less y x then false else next

unfoldable pub lex_less : List Token → List Token → Bool
unfolding token_less
lex_less [] [] = false
lex_less [] (y ∷ ys) = true
lex_less (x ∷ xs) [] = false
lex_less (x ∷ xs) (y ∷ ys) = lex_step x y (lex_less xs ys)

unfoldable pub tokens : Bytes → List Token
unfolding runs token
tokens s = map token (runs s)

same_kind_refl : (b : Bool) → same_kind b b ≡ true
same_kind_refl b = ground arith

same_kind_eq : (a b : Bool) → same_kind a b ≡ true → a ≡ b
same_kind_eq a b h = ground (arith, h)

run_of-runs :
    (c : ℕ) (s : Bytes)
    → runs (c ∷ s) ≡ (c ∷ (run_of (is_digit c) s).0) ∷ runs (run_of (is_digit c) s).1
unfolding runs run_of
run_of-runs c [] = refl
run_of-runs c (d ∷ t) =
    ap (join_run c) (run_of-runs d t) ∙ elim (Bool-cases (same_kind (is_digit d) (is_digit c))) [
      | inl y ↦
          let e = same_kind_eq (is_digit d) (is_digit c) y in
          rw y (ap (λ k. (c ∷ d ∷ (run_of k t).0) ∷ runs (run_of k t).1) e)
      | inr n ↦ rw n (ap (λ r. (c ∷ []) ∷ r) (sym (run_of-runs d t)))
    ]

split_lead_lem :
    (c : ℕ) (s : Bytes)
    → split_lead (c ∷ s) ≡ (c ∷ (run_of (is_digit c) s).0, (run_of (is_digit c) s).1)
unfolding split_lead run_of
split_lead_lem c s = rw (same_kind_refl (is_digit c)) refl

split_lead-runs :
    (c : ℕ) (s : Bytes) → runs (c ∷ s) ≡ (split_lead (c ∷ s)).0 ∷ runs (split_lead (c ∷ s)).1
split_lead-runs c s = run_of-runs c s ∙ ap (λ p. p.0 ∷ runs p.1) (sym (split_lead_lem c s))

run_of-length : (k : Bool) (s : Bytes) → length (run_of k s).1 ≤ length s
unfolding run_of
run_of-length k [] = omega arith
run_of-length k (c ∷ s) = ground (arith, run_of-length k s)

split_lead-length : (c : ℕ) (s : Bytes) → length (split_lead (c ∷ s)).1 ≤ length s
split_lead-length c s =
    subst (λ p. length p.1 ≤ length s) (sym (split_lead_lem c s)) (run_of-length (is_digit c) s)

run_of-AreDigits : (s : Bytes) → AreDigits (run_of true s).0
unfolding run_of
run_of-AreDigits [] = tt
run_of-AreDigits (c ∷ s) = elim (Bool-cases (is_digit c)) [
  | inl y ↦ rw y (y, run_of-AreDigits s)
  | inr n ↦ rw n tt
]

-- A run is not empty, and digits if it starts with one.
abbrev IsRun : Bytes → Type 0
IsRun [] = ⊥
IsRun (c ∷ s) = is_digit c ≡ true → AreDigits s

split_lead-IsRun : (c : ℕ) (s : Bytes) → IsRun (split_lead (c ∷ s)).0
split_lead-IsRun c s =
    subst (λ p. IsRun p.0) (sym (split_lead_lem c s))
      (λ y. subst (λ k. AreDigits (run_of k s).0) (sym y) (run_of-AreDigits s))

pub string_less_irrefl : (s : Bytes) → string_less s s ≡ false
unfolding string_less
string_less_irrefl [] = refl
string_less_irrefl (c ∷ s) = ground (arith, string_less_irrefl s)

pub string_less_total :
    (s t : Bytes) → (string_less s t ≡ true) ⊎ ((s ≡ t) ⊎ (string_less t s ≡ true))
unfolding string_less
string_less_total [] [] = inr (inl refl)
string_less_total [] (d ∷ t) = inl refl
string_less_total (c ∷ s) [] = inr (inr refl)
string_less_total (c ∷ s) (d ∷ t) = ground (arith, string_less_total s t)

pub string_less_trans :
    (s t u : Bytes) → string_less s t ≡ true → string_less t u ≡ true → string_less s u ≡ true
unfolding string_less
string_less_trans [] [] u h k = k
string_less_trans [] (d ∷ t) [] h k = k
string_less_trans [] (d ∷ t) (e ∷ u) h k = refl
string_less_trans (c ∷ s) [] u h k = absurd (ground (arith, h))
string_less_trans (c ∷ s) (d ∷ t) [] h k = k
string_less_trans (c ∷ s) (d ∷ t) (e ∷ u) h k = ground (arith, h, k, string_less_trans s t u)

string_less_asym : (s t : Bytes) → string_less s t ≡ true → string_less t s ≡ false
string_less_asym s t h = elim (Bool-cases (string_less t s)) [
  | inl k ↦ absurd (ground (arith, sym (string_less_trans s t s h k) ∙ string_less_irrefl s))
  | inr k ↦ k
]

numbers_step :
    (m n : ℕ) (next : Bool)
    → by_number (compared m n) next ≡ (if ltb m n then true else if ltb n m then false else next)
numbers_step m n next = ground arith

texts_step :
    (a b : Bytes) (next : Bool)
    → (if bytes_eq a b then next else string_less a b)
      ≡ (if string_less a b then true else if string_less b a then false else next)
texts_step a b next = elim (Bool-cases (bytes_eq a b)) [
  | inl y ↦
      let e = (bytes_eq_iff a b).0 y in
      let one : string_less a b ≡ false = ap (string_less a) (sym e) ∙ string_less_irrefl a in
      let two : string_less b a ≡ false = ap (string_less b) e ∙ string_less_irrefl b in
      rw (y, one, two) refl
  | inr n ↦ elim (string_less_total a b) [
    | inl l ↦ rw (n, l) refl
    | inr (inl e) ↦ absurd (ground (arith, sym ((bytes_eq_iff a b).1 e) ∙ n))
    | inr (inr g) ↦ rw (n, string_less_asym b a g, g) refl
  ]
]

less_run_lem :
    (a b : Bytes) (next : Bool)
    → IsRun a
    → IsRun b
    → less_run a b next ≡ lex_step (token a) (token b) next
unfolding less_run token token_less bytes_eq
less_run_lem [] b next g h = absurd g
less_run_lem (c ∷ s) [] next g h = absurd h
less_run_lem (c ∷ s) (d ∷ t) next g h = elim (Bool-cases (is_digit c)) [
  | inl x ↦ elim (Bool-cases (is_digit d)) [
    | inl y ↦
        let e = compare_num-value (c ∷ s) (d ∷ t) (x, g x) (y, h y) in
        rw (x, y, e) (numbers_step (value (c ∷ s)) (value (d ∷ t)) next)
    | inr y ↦ rw (x, y) (ground (arith, x, y))
  ]
  | inr x ↦ elim (Bool-cases (is_digit d)) [
    | inl y ↦ rw (x, y) (ground (arith, x, y))
    | inr y ↦ rw (x, y) (texts_step (c ∷ s) (d ∷ t) next)
  ]
]

version_less_from_lem :
    (n : ℕ) (a b : Bytes) → length a ≤ n → version_less_from n a b ≡ lex_less (tokens a) (tokens b)
unfolding version_less_from lex_less tokens
version_less_from_lem n [] [] l = unfold runs in refl
version_less_from_lem n [] (d ∷ t) l = rw (split_lead-runs d t) (unfold runs in refl)
version_less_from_lem n (c ∷ s) [] l = rw (split_lead-runs c s) (unfold runs in refl)
version_less_from_lem zero (c ∷ s) (d ∷ t) l = absurd (omega (arith, l))
version_less_from_lem (suc n) (c ∷ s) (d ∷ t) l =
    let (x, a) = split_lead (c ∷ s) in
    let (y, b) = split_lead (d ∷ t) in
    let rest = version_less_from_lem n a b (omega (arith, l, split_lead-length c s)) in
    rw (split_lead-runs c s, split_lead-runs d t)
      (ap (less_run x y) rest
        ∙ less_run_lem x y (lex_less (tokens a) (tokens b)) (split_lead-IsRun c s)
            (split_lead-IsRun d t))

-- versionLess compares versions as lists of numbers and texts, from the first on: a run of digits, of any
-- length, is the number that it stands for; other bytes are a text; a version is less than one that goes
-- on behind it.
pub version_less-tokens : (a b : Bytes) → version_less a b ≡ lex_less (tokens a) (tokens b)
unfolding version_less
version_less-tokens a b = version_less_from_lem (length a) a b (omega arith)
