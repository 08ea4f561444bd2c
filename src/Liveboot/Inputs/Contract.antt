-- ===== src/Liveboot/Inputs/Contract.antt =====
-- What a manifest promises that Manifest.Validate of internal/liveboot/inputs.go accepts.
use tacklebox.Common.{
  ℕ, ◌^◌, ◌≤◌, ◌<◌, Bytes, List, [], ◌∷◌, ◌≡◌, ◌≢◌, ◌⊎◌, true, false, arith, codes, length,
  bytes_eq, bytes_eq_iff,
}
use tacklebox.Oci.Platform.{ℤ, pos, negsuc}
use tacklebox.Oci.Rootfs.Paths.{split_slash, AllComponents}
use tacklebox.Liveboot.Outcome.{Ensures, fine, bind-Ensures, weaken-Ensures, guard-Ensures}
use tacklebox.Liveboot.Pe.{max_payload_bytes}
use tacklebox.Liveboot.Inputs.{
  Input, Manifest, is_hex, to_lower, all_hex, lower, valid_digest, clean_path, contains_any,
  fits_payload, validate_input, validate_inputs, exceeds_receipt, validate,
}
use tacklebox.Liveboot.Board
use tacklebox.Liveboot.Inputs.Paths.{clean_path-AllComponents}

-- A digest as hex.EncodeToString writes it: 64 digits, none in upper case.
abbrev IsLowerHex : ℕ → Type 0
IsLowerHex c = ((b'0' ≤ c) × (c ≤ b'9')) ⊎ ((b'a' ≤ c) × (c ≤ b'f'))

abbrev pub AllLowerHex : Bytes → Type 0
AllLowerHex [] = Unit
AllLowerHex (c ∷ s) = IsLowerHex c × AllLowerHex s

abbrev pub IsDigest : Bytes → Type 0
IsDigest s = (length s ≡ 64) × AllLowerHex s

to_lower-IsLowerHex : (c : ℕ) → is_hex c ≡ true → c ≡ to_lower c → IsLowerHex c
to_lower-IsLowerHex c h e = ground (arith, h, e)

lower-AllLowerHex : (s : Bytes) → all_hex s ≡ true → bytes_eq s (lower s) ≡ true → AllLowerHex s
unfolding all_hex lower bytes_eq
lower-AllLowerHex [] h e = tt
lower-AllLowerHex (c ∷ s) h e =
    let hs : (is_hex c ≡ true) × (all_hex s ≡ true) = ground (arith, h) in
    let es : (c ≡ to_lower c) × (bytes_eq s (lower s) ≡ true) = ground (arith, e) in
    (to_lower-IsLowerHex c hs.0 es.0, lower-AllLowerHex s hs.1 es.1)

valid_digest-IsDigest : (s : Bytes) → valid_digest s ≡ true → IsDigest s
unfolding valid_digest
valid_digest-IsDigest s h =
    let hex : all_hex s ≡ true = ground (arith, h) in
    let same : bytes_eq s (lower s) ≡ true = ground (arith, h) in
    (ground (arith, h), lower-AllLowerHex s hex same)

abbrev pub IsBetween : ℕ → ℤ → Type 0
IsBetween most (pos n) = (0 < n) × (n ≤ most)
IsBetween most (negsuc k) = ⊥

-- An input below its directory, with a size and a digest.
pub record IsSafe (i : Input) : Type 0 where
  pub names : AllComponents (split_slash [] i.path)
  pub no_backslash : contains_any i.path (b'\\' ∷ 0 ∷ []) ≡ false
  pub sized : IsBetween max_payload_bytes i.size
  pub digest : IsDigest i.sha256

fits_payload-IsBetween : (z : ℤ) → fits_payload z ≡ true → IsBetween max_payload_bytes z
fits_payload-IsBetween (pos n) h = ground (arith, h)
fits_payload-IsBetween (negsuc k) h = ground (arith, h)

validate_input-IsSafe : (i : Input) → Ensures (λ _. IsSafe i) (validate_input i)
unfolding validate_input
validate_input-IsSafe i = guard-Ensures (λ p. guard-Ensures (λ q. guard-Ensures (λ r.
    let filled : bytes_eq i.path [] ≡ false = ground (arith, p) in
    let not_dot : bytes_eq i.path (codes ".") ≡ false = ground (arith, p) in
    let cleaned : bytes_eq (clean_path i.path) i.path ≡ true = ground (arith, p) in
    let fits : fits_payload i.size ≡ true = ground (arith, r) in
    let valid : valid_digest i.sha256 ≡ true = ground (arith, r) in
    fine (record {
      names =
          clean_path-AllComponents i.path ((bytes_eq_iff (clean_path i.path) i.path).0 cleaned)
            (λ e. ground (arith, bytes_eq_iff i.path []))
            (λ e. ground (arith, bytes_eq_iff i.path (codes "."))) q;
      no_backslash = ground (arith, p);
      sized = fits_payload-IsBetween i.size fits;
      digest = valid_digest-IsDigest i.sha256 valid;
    }))))

abbrev pub AreSafe : List Input → Type 0
AreSafe [] = Unit
AreSafe (i ∷ is) = IsSafe i × AreSafe is

validate_inputs-AreSafe : (is : List Input) → Ensures (λ _. AreSafe is) (validate_inputs is)
validate_inputs-AreSafe [] = fine tt
validate_inputs-AreSafe (i ∷ is) =
    bind-Ensures (λ _. IsSafe i) (validate_input-IsSafe i)
      (λ _ h. weaken-Ensures (λ _ k. (h, k)) (validate_inputs-AreSafe is))

abbrev pub inputs : Manifest → List Input
inputs m = m.shim ∷ m.grub ∷ m.loader ∷ m.preparation_receipt ∷ []

pub record IsContract (m : Manifest) : Type 0 where
  pub mode : m.mode ≡ codes "fedora-arm64-dtbloader"
  pub one_board : m.board ≡ Board.board
  pub architecture : m.architecture ≡ codes "arm64"
  pub has_release : m.kernel_release ≢ []
  pub plain : contains_any m.kernel_release (0 ∷ 13 ∷ 10 ∷ b' ' ∷ b'/' ∷ b'\\' ∷ []) ≡ false
  pub kernel : IsDigest m.kernel_sha256
  pub safe : AreSafe (inputs m)
  pub receipt : IsBetween (2 ^ 20) m.preparation_receipt.size

same_text : (a b : Bytes) → bytes_eq a b ≡ true → a ≡ b
same_text a b h = (bytes_eq_iff a b).0 h

receipt-IsBetween :
    (z : ℤ) → IsBetween max_payload_bytes z → exceeds_receipt z ≡ false → IsBetween (2 ^ 20) z
receipt-IsBetween (pos n) h e = ground (arith, h, e)
receipt-IsBetween (negsuc k) h e = h

-- A manifest that is accepted keeps its contract.
pub validate-IsContract : (m : Manifest) → Ensures (λ _. IsContract m) (validate m)
unfolding validate
validate-IsContract m = guard-Ensures (λ p. guard-Ensures (λ q.
    bind-Ensures (λ _. AreSafe (inputs m)) (validate_inputs-AreSafe (inputs m))
      (λ _ safe. guard-Ensures (λ r.
        let valid : valid_digest m.kernel_sha256 ≡ true = ground (arith, q) in
        let filled : bytes_eq m.kernel_release [] ≡ false = ground (arith, q) in
        fine (record {
          mode = same_text m.mode _ (ground (arith, p));
          one_board = same_text m.board _ (ground (arith, p));
          architecture = same_text m.architecture _ (ground (arith, p));
          has_release = λ e. ground (arith, bytes_eq_iff m.kernel_release []);
          plain = ground (arith, q);
          kernel = valid_digest-IsDigest m.kernel_sha256 valid;
          safe = safe;
          receipt = receipt-IsBetween m.preparation_receipt.size safe.1.1.1.0.sized r;
        })))))
