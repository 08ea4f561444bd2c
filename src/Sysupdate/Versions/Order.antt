-- ===== src/Sysupdate/Versions/Order.antt =====
-- The order of versions of internal/purefs/sysupdate.go.
use tacklebox.Common.{
  ℕ, ◌<◌, Bytes, List, [], ◌∷◌, ◌≡◌, ◌⊎◌, refl, sym, ap, ◌∙◌, true, false, Bool-cases, inl, inr,
  arith,
}
use mathlib.Core.Path.{ap₂}
use tacklebox.Sysupdate.Versions.{string_less, version_less}
use tacklebox.Sysupdate.Versions.Tokens.{
  Token, num, text, is_low, token_less, lex_less, tokens, version_less-tokens, string_less_irrefl,
  string_less_total, string_less_trans,
}

nat_cases : (m n : ℕ) → (m < n) ⊎ ((m ≡ n) ⊎ (n < m))
nat_cases m n = ground arith

token_less_irrefl : (x : Token) → token_less x x ≡ false
unfolding token_less
token_less_irrefl (num m) = ground arith
token_less_irrefl (text s) = string_less_irrefl s

token_less_total : (x y : Token) → (token_less x y ≡ true) ⊎ ((x ≡ y) ⊎ (token_less y x ≡ true))
unfolding token_less
token_less_total (num m) (num n) = elim (nat_cases m n) [
  | inl l ↦ inl (ground (arith, l))
  | inr (inl e) ↦ inr (inl (ap num e))
  | inr (inr g) ↦ inr (inr (ground (arith, g)))
]
token_less_total (num m) (text t) = ground arith
token_less_total (text s) (num n) = ground arith
token_less_total (text s) (text t) = elim (string_less_total s t) [
  | inl l ↦ inl l
  | inr (inl e) ↦ inr (inl (ap text e))
  | inr (inr g) ↦ inr (inr g)
]

-- What is behind a text that is not low is not low.
low_down : (s t : Bytes) → string_less s t ≡ true → is_low t ≡ true → is_low s ≡ true
unfolding string_less
low_down [] t h k = refl
low_down (c ∷ s) [] h k = absurd (ground (arith, h))
low_down (c ∷ s) (d ∷ t) h k = ground (arith, h, k)

low_less : (s t : Bytes) → is_low s ≡ true → is_low t ≡ false → string_less s t ≡ true
unfolding string_less
low_less s [] h k = absurd (ground (arith, k))
low_less [] (d ∷ t) h k = refl
low_less (c ∷ s) (d ∷ t) h k = ground (arith, h, k)

token_less_trans :
    (x y z : Token) → token_less x y ≡ true → token_less y z ≡ true → token_less x z ≡ true
unfolding token_less
token_less_trans (num a) (num b) (num c) h k = ground (arith, h, k)
token_less_trans (num a) (num b) (text c) h k = k
token_less_trans (num a) (text b) (num c) h k = absurd (ground (arith, h, k))
token_less_trans (num a) (text b) (text c) h k = ground (arith, h, k, low_down b c)
token_less_trans (text a) (num b) (num c) h k = h
token_less_trans (text a) (num b) (text c) h k = low_less a c h (ground (arith, k))
token_less_trans (text a) (text b) (num c) h k = low_down a b h k
token_less_trans (text a) (text b) (text c) h k = string_less_trans a b c h k

lex_less_head :
    (x y : Token) (xs ys : List Token) → token_less x y ≡ true → lex_less (x ∷ xs) (y ∷ ys) ≡ true
unfolding lex_less
lex_less_head x y xs ys h = rw h refl

lex_less_tail :
    (x y : Token) (xs ys : List Token) → x ≡ y → lex_less (x ∷ xs) (y ∷ ys) ≡ lex_less xs ys
unfolding lex_less
lex_less_tail x y xs ys e =
    let one : token_less x y ≡ false = ap (token_less x) (sym e) ∙ token_less_irrefl x in
    let two : token_less y x ≡ false = ap (token_less y) e ∙ token_less_irrefl y in
    rw (one, two) refl

lex_less_inv :
    (x y : Token) (xs ys : List Token)
    → lex_less (x ∷ xs) (y ∷ ys) ≡ true
    → (token_less x y ≡ true) ⊎ ((x ≡ y) × (lex_less xs ys ≡ true))
unfolding lex_less
lex_less_inv x y xs ys h = elim (token_less_total x y) [
  | inl l ↦ inl l
  | inr (inl e) ↦ inr (e, sym (lex_less_tail x y xs ys e) ∙ h)
  | inr (inr g) ↦ elim (Bool-cases (token_less x y)) [
    | inl l ↦ inl l
    | inr n ↦
        let no : lex_less (x ∷ xs) (y ∷ ys) ≡ false = rw (n, g) refl in
        absurd (ground (arith, sym h ∙ no))
  ]
]

lex_less_irrefl : (xs : List Token) → lex_less xs xs ≡ false
lex_less_irrefl [] = unfold lex_less in refl
lex_less_irrefl (x ∷ xs) = lex_less_tail x x xs xs refl ∙ lex_less_irrefl xs

lex_less_trans :
    (xs ys zs : List Token) → lex_less xs ys ≡ true → lex_less ys zs ≡ true → lex_less xs zs ≡ true
lex_less_trans [] [] zs h k = k
lex_less_trans [] (y ∷ ys) [] h k = absurd (unfold lex_less in ground (arith, k))
lex_less_trans [] (y ∷ ys) (z ∷ zs) h k = unfold lex_less in refl
lex_less_trans (x ∷ xs) [] zs h k = absurd (unfold lex_less in ground (arith, h))
lex_less_trans (x ∷ xs) (y ∷ ys) [] h k = absurd (unfold lex_less in ground (arith, k))
lex_less_trans (x ∷ xs) (y ∷ ys) (z ∷ zs) h k = elim (lex_less_inv x y xs ys h) [
  | inl l ↦ elim (lex_less_inv y z ys zs k) [
    | inl m ↦ lex_less_head x z xs zs (token_less_trans x y z l m)
    | inr (e, _) ↦ lex_less_head x z xs zs (ap (token_less x) (sym e) ∙ l)
  ]
  | inr (e, t) ↦ elim (lex_less_inv y z ys zs k) [
    | inl m ↦ lex_less_head x z xs zs (ap (λ w. token_less w z) e ∙ m)
    | inr (e', t') ↦ lex_less_tail x z xs zs (e ∙ e') ∙ lex_less_trans xs ys zs t t'
  ]
]

lex_less_total :
    (xs ys : List Token) → (lex_less xs ys ≡ true) ⊎ ((xs ≡ ys) ⊎ (lex_less ys xs ≡ true))
lex_less_total [] [] = inr (inl refl)
lex_less_total [] (y ∷ ys) = inl (unfold lex_less in refl)
lex_less_total (x ∷ xs) [] = inr (inr (unfold lex_less in refl))
lex_less_total (x ∷ xs) (y ∷ ys) = elim (token_less_total x y) [
  | inl l ↦ inl (lex_less_head x y xs ys l)
  | inr (inr g) ↦ inr (inr (lex_less_head y x ys xs g))
  | inr (inl e) ↦ elim (lex_less_total xs ys) [
    | inl l ↦ inl (lex_less_tail x y xs ys e ∙ l)
    | inr (inl r) ↦ inr (inl (ap₂ ◌∷◌ e r))
    | inr (inr g) ↦ inr (inr (lex_less_tail y x ys xs (sym e) ∙ g))
  ]
]

pub version_less_irrefl : (a : Bytes) → version_less a a ≡ false
version_less_irrefl a = version_less-tokens a a ∙ lex_less_irrefl (tokens a)

pub version_less_trans :
    (a b c : Bytes) → version_less a b ≡ true → version_less b c ≡ true → version_less a c ≡ true
version_less_trans a b c h k =
    version_less-tokens a c
    ∙ lex_less_trans (tokens a) (tokens b) (tokens c) (sym (version_less-tokens a b) ∙ h)
        (sym (version_less-tokens b c) ∙ k)

pub version_less_asym : (a b : Bytes) → version_less a b ≡ true → version_less b a ≡ false
version_less_asym a b h = elim (Bool-cases (version_less b a)) [
  | inl k ↦ absurd (ground (arith, sym (version_less_trans a b a h k) ∙ version_less_irrefl a))
  | inr n ↦ n
]

-- Of two versions one is less and the other is not, or they are the same numbers and texts and neither is
-- less.
pub version_less-tokens_total :
    (a b : Bytes)
    → ((version_less a b ≡ true) × (version_less b a ≡ false))
      ⊎ (((version_less b a ≡ true) × (version_less a b ≡ false))
          ⊎ ((tokens a ≡ tokens b) × (version_less a b ≡ false) × (version_less b a ≡ false)))
version_less-tokens_total a b = elim (lex_less_total (tokens a) (tokens b)) [
  | inl l ↦ let h = version_less-tokens a b ∙ l in inl (h, version_less_asym a b h)
  | inr (inr g) ↦ let h = version_less-tokens b a ∙ g in inr (inl (h, version_less_asym b a h))
  | inr (inl e) ↦ inr (
      inr (
        e,
        version_less-tokens a b ∙ ap (lex_less (tokens a)) (sym e) ∙ lex_less_irrefl (tokens a),
        version_less-tokens b a ∙ ap (lex_less (tokens b)) e ∙ lex_less_irrefl (tokens b),
      ))
]
