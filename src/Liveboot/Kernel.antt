-- ===== src/Liveboot/Kernel.antt =====
-- ValidateKernelPair of internal/liveboot/inputs.go. `sha256` is the hash in hexadecimal, a parameter, and so
-- is what package debug/pe makes of a loader.
pub mod Matches
use tacklebox.Common.{
  ℕ, ◌+◌, ◌%◌, ◌^◌, Bytes, List, [], ◌∷◌, Bool, true, false, not, ◌&&◌, ◌||◌, Option, some, none,
  codes, length, bytes_eq, one_name, ltb, ◌==◌, if◌then◌else◌,
}
use tacklebox.Liveboot.Outcome.{Outcome, ok, bind, refuse_if, choose, slice}
use tacklebox.Liveboot.Pe.{Section, PeFile, arm64_pe, max_payload_bytes}
use tacklebox.Liveboot.Inputs.{Manifest, validate}

-- The map of sections, at its two keys.
pub record Payloads : Type 0 where
  pub linux : Option Bytes
  pub uname : Option Bytes

abbrev pub no_payloads : Payloads
no_payloads = record { linux = none; uname = none }

abbrev pub sidecars : List Bytes
sidecars =
    codes ".initrd"
    ∷ codes ".ucode"
    ∷ codes ".cmdline"
    ∷ codes ".osrel"
    ∷ codes ".profile"
    ∷ codes ".pcrsig"
    ∷ codes ".pcrpkey"
    ∷ []

abbrev pub exists : Option Bytes → Bool
exists none = false
exists (some b) = true

-- A section of one of the two names.
unfoldable pub take_payload : Bytes → Option Bytes → Section → Outcome Bytes
unfolding slice
take_payload loader before s = refuse_if (exists before) (
    refuse_if (s.virtual_size == 0 || ltb s.size s.virtual_size)
      (slice s.offset ((s.offset + s.virtual_size) % 2 ^ 32) loader))

-- The loop over the sections.
unfoldable pub collect_payloads : Bytes → List Section → Payloads → Outcome Payloads
unfolding take_payload
collect_payloads loader [] p = ok p
collect_payloads loader (s ∷ ss) p =
    let rest : Payloads → Outcome Payloads = collect_payloads loader ss in
    refuse_if (one_name s.name sidecars) (
      choose (bytes_eq s.name (codes ".linux"))
        (bind (take_payload loader p.linux s) (λ b. rest (record p { linux = some b })))
        (choose (bytes_eq s.name (codes ".uname"))
          (bind (take_payload loader p.uname s) (λ b. rest (record p { uname = some b })))
          (rest p)))

-- A value of the map, nil where the key is missing.
abbrev pub or_nil : Option Bytes → Bytes
or_nil none = []
or_nil (some b) = b

-- bytes.TrimRight with "\x00"
abbrev onto_trimmed : ℕ → Bytes → Bytes
onto_trimmed c [] = if c == 0 then [] else c ∷ []
onto_trimmed c (d ∷ s) = c ∷ d ∷ s

unfoldable pub trim_right_zeros : Bytes → Bytes
trim_right_zeros [] = []
trim_right_zeros (c ∷ s) = onto_trimmed c (trim_right_zeros s)

-- What is tested at the end.
unfoldable pub check_payloads : Bytes → Bytes → Payloads → Outcome Unit
unfolding trim_right_zeros
check_payloads kernel kernel_release p =
    refuse_if (length (or_nil p.linux) == 0 || not (bytes_eq (or_nil p.linux) kernel)) (
      refuse_if
        (length (or_nil p.uname) == 0
          || not (bytes_eq (trim_right_zeros (or_nil p.uname)) kernel_release))
        (ok tt))

-- ValidateKernelPair
unfoldable pub validate_kernel_pair :
    (Bytes → Bytes) → (Bytes → Option PeFile) → Bytes → Bytes → Bytes → Manifest → Outcome Unit
unfolding validate arm64_pe collect_payloads check_payloads
validate_kernel_pair sha256 new_file loader kernel extracted_release m =
    refuse_if (length kernel == 0 || ltb max_payload_bytes (length kernel)) (
      bind (validate m) (λ _. refuse_if (not (bytes_eq extracted_release m.kernel_release)) (
        refuse_if (not (bytes_eq (sha256 kernel) m.kernel_sha256)) (
          bind (arm64_pe new_file loader) (λ f.
            bind (collect_payloads loader f.sections no_payloads)
              (check_payloads kernel m.kernel_release))))))
