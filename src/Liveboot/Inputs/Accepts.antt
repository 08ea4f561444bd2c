-- ===== src/Liveboot/Inputs/Accepts.antt =====
-- Manifest.Validate of internal/liveboot/inputs.go accepts what keeps its contract.
use tacklebox.Common.{
  ◌^◌, Bytes, List, [], ◌∷◌, ◌++◌, ◌≡◌, ◌≢◌, ◌↔◌, inl, inr, refl, sym, ap, subst, ◌∙◌, Bool, true,
  false, Bool-cases, arith, codes, join, reverse, append_assoc, append-nil, bytes_eq, bytes_eq_iff,
  ◌==◌, if◌then◌else◌,
}
use mathlib.Core.List.{reverse_aux, reverse-reverse}
use tacklebox.Oci.Platform.{ℤ, pos, negsuc}
use tacklebox.Oci.Rootfs.Paths.{split_slash, AllComponents}
use tacklebox.Liveboot.Outcome.{Outcome, ok, bind, refuse_if, Ensures, fine, failed}
use tacklebox.Liveboot.Pe.{max_payload_bytes}
use tacklebox.Liveboot.Board
use tacklebox.Liveboot.Inputs.{
  Input, Manifest, is_hex, to_lower, all_hex, lower, valid_digest, clean_path, clean_relative,
  or_dot, is_abs, has_parent, fits_payload, validate_input, validate_inputs, exceeds_receipt,
  validate,
}
use tacklebox.Liveboot.Inputs.Contract.{
  AllLowerHex, IsDigest, IsBetween, IsSafe, AreSafe, inputs, IsContract, validate-IsContract,
}

join-split_slash_onto :
    (p cur s : Bytes)
    → join (codes "/") (p ∷ split_slash cur s)
      ≡ p ++ (codes "/" ++ join (codes "/") (split_slash cur s))
unfolding split_slash join
join-split_slash_onto p cur [] = refl
join-split_slash_onto p cur (c ∷ s) = elim (Bool-cases (c == b'/')) [
  | inl y ↦ rw y refl
  | inr n ↦ rw n (join-split_slash_onto p (cur ++ c ∷ []) s)
]

-- What is split is joined to the same text.
join-split_slash : (cur s : Bytes) → join (codes "/") (split_slash cur s) ≡ cur ++ s
unfolding split_slash join
join-split_slash cur [] = sym (append-nil cur)
join-split_slash cur (c ∷ s) = elim (Bool-cases (c == b'/')) [
  | inl y ↦
      let slash : b'/' ≡ c = ground (arith, y) in
      rw y (
        join-split_slash_onto cur [] s
        ∙ ap (λ t. cur ++ (b'/' ∷ t)) (join-split_slash [] s)
        ∙ ap (λ d. cur ++ (d ∷ s)) slash)
  | inr n ↦ rw n (join-split_slash (cur ++ c ∷ []) s ∙ append_assoc cur (c ∷ []) s)
]

differs : (a b : Bytes) → a ≢ b → bytes_eq a b ≡ false
differs a b n = elim (Bool-cases (bytes_eq a b)) [
  | inl y ↦ absurd (n ((bytes_eq_iff a b).0 y))
  | inr f ↦ f
]

clean_relative-AllComponents :
    (out ps : List Bytes) → AllComponents ps → clean_relative out ps ≡ reverse_aux ps out
unfolding clean_relative
clean_relative-AllComponents out [] h = refl
clean_relative-AllComponents out (p ∷ ps) (c, h) =
    rw
      (
        differs p [] c.not_empty,
        differs p (codes ".") c.not_dot,
        differs p (codes "..") c.not_parent,
      )
      (clean_relative-AllComponents (p ∷ out) ps h)

or_dot-filled : (l : List Bytes) → l ≢ [] → or_dot l ≡ join (codes "/") (reverse l)
or_dot-filled [] n = absurd (n refl)
or_dot-filled (p ∷ l) n = refl

abbrev has_none : List Bytes → Bool
has_none [] = true
has_none (p ∷ ps) = false

has_none-split_slash : (cur s : Bytes) → has_none (split_slash cur s) ≡ false
unfolding split_slash
has_none-split_slash cur [] = refl
has_none-split_slash cur (c ∷ s) = elim (Bool-cases (c == b'/')) [
  | inl y ↦ rw y refl
  | inr n ↦ rw n (has_none-split_slash (cur ++ c ∷ []) s)
]

split_slash-filled : (cur s : Bytes) → split_slash cur s ≢ []
split_slash-filled cur s e =
    let no : true ≡ false = sym (ap has_none e) ∙ has_none-split_slash cur s in ground (arith, no)

reverse-filled : (l : List Bytes) → l ≢ [] → reverse l ≢ []
reverse-filled l n e = n (sym (reverse-reverse l) ∙ ap reverse e)

-- Clean leaves a path of names as it is.
clean_path_lem : (path : Bytes) → AllComponents (split_slash [] path) → clean_path path ≡ path
unfolding clean_path
clean_path_lem path h =
    let parts = split_slash [] path in
    ap or_dot (clean_relative-AllComponents [] parts h)
    ∙ or_dot-filled (reverse parts) (reverse-filled parts (split_slash-filled [] path))
    ∙ ap (join (codes "/")) (reverse-reverse parts)
    ∙ join-split_slash [] path

has_parent-AllComponents : (ps : List Bytes) → AllComponents ps → has_parent ps ≡ false
unfolding has_parent
has_parent-AllComponents [] h = refl
has_parent-AllComponents (p ∷ ps) (c, h) =
    rw (differs p (codes "..") c.not_parent) (has_parent-AllComponents ps h)

-- A path of names is not empty, not "." and not rooted.
proper :
    (path : Bytes)
    → AllComponents (split_slash [] path)
    → (path ≢ []) × (path ≢ codes ".") × (is_abs path ≡ false)
unfolding split_slash
proper [] (c, h) = absurd (c.not_empty refl)
proper (d ∷ s) h = elim (Bool-cases (d == b'/')) [
  | inl y ↦
      let rooted : AllComponents ([] ∷ split_slash [] s) =
        subst (λ b. AllComponents (if b then [] ∷ split_slash [] s else split_slash (d ∷ []) s)) y
          h in
      absurd (rooted.0.not_empty refl)
  | inr n ↦ (
    (λ e. ground (arith, ap (bytes_eq (d ∷ s)) e)),
    (λ e. (subst (λ t. AllComponents (split_slash [] t)) e h).0.not_dot refl),
    n,
  )
]

AllLowerHex-all_hex :
    (s : Bytes) → AllLowerHex s → (all_hex s ≡ true) × (bytes_eq s (lower s) ≡ true)
unfolding all_hex lower bytes_eq
AllLowerHex-all_hex [] h = (refl, refl)
AllLowerHex-all_hex (c ∷ s) (h, hs) =
    let (hex, same) = AllLowerHex-all_hex s hs in
    let digit : (is_hex c ≡ true) × ((c == to_lower c) ≡ true) = ground (arith, h) in
    (rw digit.0 hex, rw digit.1 same)

valid_digest-Accepts : (s : Bytes) → IsDigest s → valid_digest s ≡ true
unfolding valid_digest
valid_digest-Accepts s (n, h) =
    let (hex, same) = AllLowerHex-all_hex s h in ground (arith, n, hex, same)

fits_payload-Accepts : (z : ℤ) → IsBetween max_payload_bytes z → fits_payload z ≡ true
fits_payload-Accepts (pos n) h = ground (arith, h)
fits_payload-Accepts (negsuc k) h = absurd h

-- A test that does not hold is passed.
passes : {A : Type 0} {o : Outcome A} {b : Bool} → b ≡ false → refuse_if b o ≡ o
unfolding refuse_if
passes e = rw e refl

validate_input-Accepts : (i : Input) → IsSafe i → validate_input i ≡ ok tt
unfolding validate_input
validate_input-Accepts i h =
    let (filled, not_dot, relative) = proper i.path h.names in
    let a = differs i.path [] filled in
    let b = differs i.path (codes ".") not_dot in
    let c : bytes_eq (clean_path i.path) i.path ≡ true =
      (bytes_eq_iff (clean_path i.path) i.path).1 (clean_path_lem i.path h.names) in
    let d = h.no_backslash in
    let e = fits_payload-Accepts i.size h.sized in
    let f = valid_digest-Accepts i.sha256 h.digest in
    passes (rw (a, b, relative, c, d) refl)
    ∙ passes (has_parent-AllComponents (split_slash [] i.path) h.names)
    ∙ passes (rw (e, f) refl)

validate_inputs-Accepts : (is : List Input) → AreSafe is → validate_inputs is ≡ ok tt
unfolding bind
validate_inputs-Accepts [] h = refl
validate_inputs-Accepts (i ∷ is) (h, hs) =
    ap (λ o. bind o (λ _. validate_inputs is)) (validate_input-Accepts i h)
    ∙ validate_inputs-Accepts is hs

exceeds_receipt-Accepts : (z : ℤ) → IsBetween (2 ^ 20) z → exceeds_receipt z ≡ false
exceeds_receipt-Accepts (pos n) h = ground (arith, h)
exceeds_receipt-Accepts (negsuc k) h = refl

validate-Accepts : (m : Manifest) → IsContract m → validate m ≡ ok tt
unfolding validate bind
validate-Accepts m h =
    let a = (bytes_eq_iff m.mode (codes "fedora-arm64-dtbloader")).1 h.mode in
    let b = (bytes_eq_iff m.board Board.board).1 h.one_board in
    let c = (bytes_eq_iff m.architecture (codes "arm64")).1 h.architecture in
    let d = differs m.kernel_release [] h.has_release in
    let e = h.plain in
    let f = valid_digest-Accepts m.kernel_sha256 h.kernel in
    passes (rw (a, b, c) refl)
    ∙ passes (rw (d, e, f) refl)
    ∙ ap (λ o. bind o (λ _. refuse_if (exceeds_receipt m.preparation_receipt.size) (ok tt)))
        (validate_inputs-Accepts (inputs m) h.safe)
    ∙ passes (exceeds_receipt-Accepts m.preparation_receipt.size h.receipt)

abbrev HoldsOf : {A : Type 0} → (A → Type 0) → Outcome A → Type 0
HoldsOf P (ok a) = P a
HoldsOf P _ = Unit

Ensures-HoldsOf : {A : Type 0} {P : A → Type 0} {o : Outcome A} → Ensures P o → HoldsOf P o
Ensures-HoldsOf (fine h) = h
Ensures-HoldsOf failed = tt

-- Manifest.Validate accepts a manifest exactly when it is one for the board and its mode and keeps the
-- contract: the paths of its four inputs are made of names below the directory that they are taken from (no
-- part is empty, "." or "..", and there is no backslash or NUL), their sizes are from 1 byte up to 64 MiB and
-- their digests 64 lower-case digits; the receipt has at most 1 MiB; and the release of the kernel is not
-- empty and has no NUL, CR, LF, space, slash or backslash.
pub validate_exact : (m : Manifest) → (validate m ≡ ok tt) ↔ IsContract m
validate_exact m = (
  λ e. subst (HoldsOf (λ _. IsContract m)) e (Ensures-HoldsOf (validate-IsContract m)),
  validate-Accepts m,
)
