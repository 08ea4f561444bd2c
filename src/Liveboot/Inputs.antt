-- ===== src/Liveboot/Inputs.antt =====
-- Manifest.Validate and Input.validate of internal/liveboot/inputs.go.
pub mod Paths
pub mod Contract
pub mod Accepts
use tacklebox.Common.{
  ℕ, ◌+◌, ◌*◌, ◌/◌, ◌%◌, ◌^◌, Bytes, List, [], ◌∷◌, Bool, true, false, not, ◌&&◌, ◌||◌, codes, join,
  reverse, length, bytes_eq, leb, ltb, ◌==◌, if◌then◌else◌,
}
use tacklebox.Oci.Platform.{ℤ, pos, negsuc}
use tacklebox.Oci.Rootfs.Paths.{split_slash}
use tacklebox.Liveboot.Outcome.{Outcome, ok, err, bind, refuse_if}
use tacklebox.Liveboot.Pe.{max_payload_bytes}
use tacklebox.Liveboot.Board

-- Input
pub record Input : Type 0 where
  pub path : Bytes
  pub size : ℤ
  pub sha256 : Bytes

-- Manifest
pub record Manifest : Type 0 where
  pub mode : Bytes
  pub board : Bytes
  pub architecture : Bytes
  pub kernel_release : Bytes
  pub kernel_sha256 : Bytes
  pub shim : Input
  pub grub : Input
  pub loader : Input
  pub preparation_receipt : Input

-- strings.ContainsAny, for characters of ASCII
abbrev holds_byte : ℕ → Bytes → Bool
holds_byte c [] = false
holds_byte c (d ∷ s) = (d == c) || holds_byte c s

unfoldable pub contains_any : Bytes → Bytes → Bool
contains_any [] chars = false
contains_any (c ∷ s) chars = holds_byte c chars || contains_any s chars

-- hex.DecodeString takes the digits of either case; strings.ToLower of such digits.
abbrev pub is_hex : ℕ → Bool
is_hex c = (leb b'0' c && leb c b'9') || ((leb b'a' c && leb c b'f') || (leb b'A' c && leb c b'F'))

abbrev pub to_lower : ℕ → ℕ
to_lower c = if leb b'A' c && leb c b'Z' then c + 32 else c

unfoldable pub all_hex : Bytes → Bool
all_hex [] = true
all_hex (c ∷ s) = is_hex c && all_hex s

unfoldable pub lower : Bytes → Bytes
lower [] = []
lower (c ∷ s) = to_lower c ∷ lower s

-- validDigest
unfoldable pub valid_digest : Bytes → Bool
unfolding all_hex lower
valid_digest s =
    (all_hex s && (length s % 2 == 0)) && ((length s / 2 == 32) && bytes_eq s (lower s))

-- path.Clean on a path that is not rooted, component by component, the last that is kept first: ".." drops
-- a component that is not ".." itself, and stays where there is none.
abbrev pub up_from : List Bytes → List Bytes
up_from [] = codes ".." ∷ []
up_from (p ∷ out) = if bytes_eq p (codes "..") then codes ".." ∷ p ∷ out else out

unfoldable pub clean_relative : List Bytes → List Bytes → List Bytes
clean_relative out [] = out
clean_relative out (p ∷ ps) =
    clean_relative
      (if bytes_eq p [] || bytes_eq p (codes ".")
        then out
        else if bytes_eq p (codes "..")
        then up_from out
        else p ∷ out)
      ps

abbrev pub or_dot : List Bytes → Bytes
or_dot [] = codes "."
or_dot (p ∷ out) = join (codes "/") (reverse (p ∷ out))

unfoldable pub clean_path : Bytes → Bytes
unfolding clean_relative split_slash
clean_path path = or_dot (clean_relative [] (split_slash [] path))

-- path.IsAbs
abbrev pub is_abs : Bytes → Bool
is_abs [] = false
is_abs (c ∷ s) = c == b'/'

-- The loop over the parts of the path.
unfoldable pub has_parent : List Bytes → Bool
has_parent [] = false
has_parent (p ∷ ps) = bytes_eq p (codes "..") || has_parent ps

abbrev pub fits_payload : ℤ → Bool
fits_payload (pos n) = ltb 0 n && leb n max_payload_bytes
fits_payload (negsuc k) = false

-- Input.validate
unfoldable pub validate_input : Input → Outcome Unit
unfolding contains_any clean_path has_parent valid_digest
validate_input i =
    refuse_if
      (bytes_eq i.path []
        || (bytes_eq i.path (codes ".")
            || (is_abs i.path
                || (not (bytes_eq (clean_path i.path) i.path)
                    || contains_any i.path (b'\\' ∷ 0 ∷ [])))))
      (refuse_if (has_parent (split_slash [] i.path))
        (refuse_if (not (fits_payload i.size) || not (valid_digest i.sha256)) (ok tt)))

-- The loop over the inputs, whose order the code does not fix.
abbrev pub validate_inputs : List Input → Outcome Unit
validate_inputs [] = ok tt
validate_inputs (i ∷ is) = bind (validate_input i) (λ _. validate_inputs is)

abbrev pub exceeds_receipt : ℤ → Bool
exceeds_receipt (pos n) = ltb (2 ^ 20) n
exceeds_receipt (negsuc k) = false

-- Manifest.Validate
unfoldable pub validate : Manifest → Outcome Unit
unfolding validate_input
validate m =
    refuse_if
      (not (bytes_eq m.mode (codes "fedora-arm64-dtbloader"))
        || (not (bytes_eq m.board Board.board) || not (bytes_eq m.architecture (codes "arm64"))))
      (refuse_if
        (bytes_eq m.kernel_release []
          || (contains_any m.kernel_release (0 ∷ 13 ∷ 10 ∷ b' ' ∷ b'/' ∷ b'\\' ∷ [])
              || not (valid_digest m.kernel_sha256)))
        (bind (validate_inputs (m.shim ∷ m.grub ∷ m.loader ∷ m.preparation_receipt ∷ []))
          (λ _. refuse_if (exceeds_receipt m.preparation_receipt.size) (ok tt))))
