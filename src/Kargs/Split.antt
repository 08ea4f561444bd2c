-- ===== src/Kargs/Split.antt =====
-- What a file of kargs.d gives (internal/kargsd/kargsd.go): `split` on a text, and the match of
-- architectures.
use tacklebox.Common.{
  ℕ, ◌<◌, Bytes, List, [], ◌∷◌, ◌++◌, ◌≡◌, ◌≢◌, ◌⊎◌, inl, inr, refl, sym, ap, subst, ◌∙◌, Bool,
  true, false, not, ◌&&◌, ◌||◌, Bool-cases, arith, Option, some, none, codes, join, ◌==◌, bytes_eq,
  bytes_eq_iff, one_name, flush, Among, here, there, append_assoc, append-nil, if◌then◌else◌,
}
use tacklebox.Kargs.{arch_name, use_args, matched, config, read_config, split_from, split}

-- The file names no architectures, or this one.
abbrev pub IsFor : Bytes → Option (List Bytes) → Type 0
IsFor arch none = Unit
IsFor arch (some archs) = (arch ≢ []) × Among arch archs

-- The name of an architecture in Rust, by how `uname -m` or Go spells it; other spellings stay.
abbrev pub IsRustName : Bytes → Bytes → Type 0
IsRustName arch name =
    (Among arch (codes "amd64" ∷ codes "x86_64" ∷ []) × (name ≡ codes "x86_64"))
    ⊎ ((Among arch (codes "arm64" ∷ codes "aarch64" ∷ []) × (name ≡ codes "aarch64"))
        ⊎ ((Among arch (codes "ppc64le" ∷ codes "ppc64" ∷ codes "powerpc64" ∷ [])
              × (name ≡ codes "powerpc64"))
            ⊎ ((name ≡ arch)
                × (one_name arch (
                      codes "amd64"
                      ∷ codes "x86_64"
                      ∷ codes "arm64"
                      ∷ codes "aarch64"
                      ∷ codes "ppc64le"
                      ∷ codes "ppc64"
                      ∷ codes "powerpc64"
                      ∷ [])
                    ≡ false))))

-- The white space between arguments.
abbrev IsGap : ℕ → Type 0
IsGap c = (c ≡ b' ') ⊎ ((c ≡ 9) ⊎ ((c ≡ 10) ⊎ ((c ≡ 12) ⊎ (c ≡ 13))))

-- Whether double quotes are open behind a text.
abbrev open_behind : Bool → Bytes → Bool
open_behind q [] = q
open_behind q (c ∷ s) = open_behind (if c == b'"' then not q else q) s

-- A text with its quotes closed in which a byte up to the space stands in quotes only.
abbrev IsEnclosed : Bool → Bytes → Type 0
IsEnclosed q [] = q ≡ false
IsEnclosed q (c ∷ s) = ((q ≡ true) ⊎ (b' ' < c)) × IsEnclosed (if c == b'"' then not q else q) s

-- What comes before an argument: nothing, or a text that ends in a gap outside of quotes.
abbrev EndsInGap : Bytes → Type 0
EndsInGap pre =
    (pre ≡ [])
    ⊎ ((s : Bytes) × (c : ℕ) × (pre ≡ s ++ c ∷ []) × IsGap c × (open_behind false s ≡ false))

abbrev StartsWithGap : Bytes → Type 0
StartsWithGap [] = Unit
StartsWithGap (c ∷ s) = IsGap c

-- An argument of a text.
pub record IsArgumentOf (p text : Bytes) : Type 0 where
  pub pre : Bytes
  pub post : Bytes
  pub stands : text ≡ pre ++ (p ++ post)
  pub begins : EndsInGap pre
  pub ends : StartsWithGap post
  pub nonempty : p ≢ []
  pub enclosed : IsEnclosed false p

one_name-Among : (s : Bytes) (xs : List Bytes) → Among s xs → one_name s xs ≡ true
one_name-Among s [] h = elim h [ ]
one_name-Among s (x ∷ xs) (here e) = ground (arith, (bytes_eq_iff x s).1 e)
one_name-Among s (x ∷ xs) (there h) = ground (arith, one_name-Among s xs h)

bytes_eq-nil : (s : Bytes) → s ≢ [] → bytes_eq s [] ≡ false
unfolding bytes_eq
bytes_eq-nil [] n = absurd (n refl)
bytes_eq-nil (c ∷ s) n = refl

amd_name :
    (arch : Bytes)
    → Among arch (codes "amd64" ∷ codes "x86_64" ∷ [])
    → arch_name arch ≡ codes "x86_64"
unfolding arch_name bytes_eq
amd_name arch (here e) = ap arch_name (sym e)
amd_name arch (there (here e)) = ap arch_name (sym e)
amd_name arch (there (there h)) = elim h [ ]

arm_name :
    (arch : Bytes)
    → Among arch (codes "arm64" ∷ codes "aarch64" ∷ [])
    → arch_name arch ≡ codes "aarch64"
unfolding arch_name bytes_eq
arm_name arch (here e) = ap arch_name (sym e)
arm_name arch (there (here e)) = ap arch_name (sym e)
arm_name arch (there (there h)) = elim h [ ]

ppc_name :
    (arch : Bytes)
    → Among arch (codes "ppc64le" ∷ codes "ppc64" ∷ codes "powerpc64" ∷ [])
    → arch_name arch ≡ codes "powerpc64"
unfolding arch_name bytes_eq
ppc_name arch (here e) = ap arch_name (sym e)
ppc_name arch (there (here e)) = ap arch_name (sym e)
ppc_name arch (there (there (here e))) = ap arch_name (sym e)
ppc_name arch (there (there (there h))) = elim h [ ]

pub arch_name-IsRustName : (arch name : Bytes) → IsRustName arch name → arch_name arch ≡ name
unfolding arch_name
arch_name-IsRustName arch name (inl (h, e)) = amd_name arch h ∙ sym e
arch_name-IsRustName arch name (inr (inl (h, e))) = arm_name arch h ∙ sym e
arch_name-IsRustName arch name (inr (inr (inl (h, e)))) = ppc_name arch h ∙ sym e
arch_name-IsRustName arch name (inr (inr (inr (e, h)))) = ground (
  arith,
  e,
  h,
  bytes_eq_iff (codes "amd64") arch,
  bytes_eq_iff (codes "x86_64") arch,
  bytes_eq_iff (codes "arm64") arch,
  bytes_eq_iff (codes "aarch64") arch,
  bytes_eq_iff (codes "ppc64le") arch,
  bytes_eq_iff (codes "ppc64") arch,
  bytes_eq_iff (codes "powerpc64") arch,
)

pub read_config-IsFor :
    (name arch : Bytes) (kargs : List Bytes) (archs : Option (List Bytes))
    → IsFor arch archs
    → read_config name arch (config [] (some kargs) archs)
      ≡ use_args (split (join (codes " ") kargs))
unfolding read_config matched
read_config-IsFor name arch kargs none h = refl
read_config-IsFor name arch kargs (some archs) h =
    rw (bytes_eq-nil arch h.0, one_name-Among arch archs h.1) refl

flush-Among : (cur : Bytes) {x : Bytes} (xs : List Bytes) → Among x xs → Among x (flush cur xs)
flush-Among [] xs h = h
flush-Among (c ∷ cur) xs h = there h

flush_self : (cur : Bytes) (xs : List Bytes) → cur ≢ [] → Among cur (flush cur xs)
flush_self [] xs n = absurd (n refl)
flush_self (c ∷ cur) xs n = here refl

-- One byte of the loop, by what it is.
split_from-quote :
    (q : Bool) (cur : Bytes) (c : ℕ) (s : Bytes)
    → (c == b'"') ≡ true
    → split_from q cur (c ∷ s) ≡ split_from (not q) (cur ++ c ∷ []) s
unfolding split_from
split_from-quote q cur c s h = rw (split_from, h) refl

split_from-gap :
    (cur : Bytes) (c : ℕ) (s : Bytes)
    → IsGap c
    → split_from false cur (c ∷ s) ≡ flush cur (split_from false [] s)
unfolding split_from
split_from-gap cur c s (inl e) = rw e refl
split_from-gap cur c s (inr (inl e)) = rw e refl
split_from-gap cur c s (inr (inr (inl e))) = rw e refl
split_from-gap cur c s (inr (inr (inr (inl e)))) = rw e refl
split_from-gap cur c s (inr (inr (inr (inr e)))) = rw e refl

abbrev blank_test : Bool → ℕ → Bool
blank_test q c = not q && (c == b' ' || c == 9 || c == 10 || c == 13 || c == 12)

split_from-keep :
    (q : Bool) (cur : Bytes) (c : ℕ) (s : Bytes)
    → (c == b'"') ≡ false
    → blank_test q c ≡ false
    → split_from q cur (c ∷ s) ≡ split_from q (cur ++ c ∷ []) s
unfolding split_from
split_from-keep q cur c s h k = rw (split_from, h, k) refl

split_from-flush :
    (q : Bool) (cur : Bytes) (c : ℕ) (s : Bytes)
    → (c == b'"') ≡ false
    → blank_test q c ≡ true
    → split_from q cur (c ∷ s) ≡ flush cur (split_from q [] s)
unfolding split_from
split_from-flush q cur c s h k = rw (split_from, h, k) refl

-- What follows a gap is split as a text of its own.
split_from-behind :
    (q : Bool) (cur s rest : Bytes) (c : ℕ) {x : Bytes}
    → IsGap c
    → open_behind q s ≡ false
    → Among x (split_from false [] rest)
    → Among x (split_from q cur (s ++ (c ∷ rest)))
split_from-behind q cur [] rest c {x} g o a =
    subst (λ b. Among x (split_from b cur (c ∷ rest))) (sym o)
      (subst (Among x) (sym (split_from-gap cur c rest g)) (flush-Among cur _ a))
split_from-behind q cur (d ∷ s) rest c {x} g o a = elim (Bool-cases (d == b'"')) [
  | inl y ↦
      let o' : open_behind (not q) s ≡ false =
        subst (λ b. open_behind (if b then not q else q) s ≡ false) y o in
      subst (Among x) (sym (split_from-quote q cur d (s ++ (c ∷ rest)) y))
        (split_from-behind (not q) (cur ++ d ∷ []) s rest c g o' a)
  | inr n ↦
      let o' : open_behind q s ≡ false =
        subst (λ b. open_behind (if b then not q else q) s ≡ false) n o in
      elim (Bool-cases (blank_test q d)) [
        | inl y ↦
            subst (Among x) (sym (split_from-flush q cur d (s ++ (c ∷ rest)) n y))
              (flush-Among cur _ (split_from-behind q [] s rest c g o' a))
        | inr k ↦
            subst (Among x) (sym (split_from-keep q cur d (s ++ (c ∷ rest)) n k))
              (split_from-behind q (cur ++ d ∷ []) s rest c g o' a)
      ]
]

-- An argument is taken up to the gap behind it.
split_from-argument :
    (q : Bool) (cur p post : Bytes)
    → IsEnclosed q p
    → StartsWithGap post
    → cur ++ p ≢ []
    → Among (cur ++ p) (split_from q cur (p ++ post))
split_from-argument q cur [] [] e g n =
    subst (λ t. Among t (split_from q cur [])) (sym (append-nil cur))
      (unfold split_from in flush_self cur [] (λ z. n (append-nil cur ∙ z)))
split_from-argument q cur [] (c ∷ post) e g n =
    subst (λ b. Among (cur ++ []) (split_from b cur (c ∷ post))) (sym e)
      (subst (Among (cur ++ [])) (sym (split_from-gap cur c post g)) (
        subst (λ t. Among t (flush cur (split_from false [] post))) (sym (append-nil cur))
          (flush_self cur _ (λ z. n (append-nil cur ∙ z)))))
split_from-argument q cur (c ∷ p) post e g n =
    let same : (cur ++ c ∷ []) ++ p ≡ cur ++ (c ∷ p) = append_assoc cur (c ∷ []) p in
    let n' : (cur ++ c ∷ []) ++ p ≢ [] = λ z. n (sym same ∙ z) in
    elim (Bool-cases (c == b'"')) [
      | inl y ↦
          let e' : IsEnclosed (not q) p =
            subst (λ b. IsEnclosed (if b then not q else q) p) y e.1 in
          subst (Among (cur ++ (c ∷ p))) (sym (split_from-quote q cur c (p ++ post) y)) (
            subst (λ t. Among t (split_from (not q) (cur ++ c ∷ []) (p ++ post))) same
              (split_from-argument (not q) (cur ++ c ∷ []) p post e' g n'))
      | inr z ↦
          let e' : IsEnclosed q p = subst (λ b. IsEnclosed (if b then not q else q) p) z e.1 in
          let keep : blank_test q c ≡ false = ground (arith, e.0) in
          subst (Among (cur ++ (c ∷ p))) (sym (split_from-keep q cur c (p ++ post) z keep)) (
            subst (λ t. Among t (split_from q (cur ++ c ∷ []) (p ++ post))) same
              (split_from-argument q (cur ++ c ∷ []) p post e' g n'))
    ]

pub split-IsArgumentOf : (p text : Bytes) → IsArgumentOf p text → Among p (split text)
unfolding split
split-IsArgumentOf p text a =
    let first = split_from-argument false [] p a.post a.enclosed a.ends a.nonempty in
    subst (λ t. Among p (split_from false [] t)) (sym a.stands)
      (elim a.begins [
        | inl e ↦ subst (λ t. Among p (split_from false [] (t ++ (p ++ a.post)))) (sym e) first
        | inr (s, c, e, g, o) ↦
            subst (λ t. Among p (split_from false [] (t ++ (p ++ a.post)))) (sym e)
              (subst (λ t. Among p (split_from false [] t))
                (sym (append_assoc s (c ∷ []) (p ++ a.post)))
                (split_from-behind false [] s (p ++ a.post) c g o first))
      ])
