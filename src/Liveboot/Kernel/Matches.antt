-- ===== src/Liveboot/Kernel/Matches.antt =====
-- What holds of a loader and a kernel that ValidateKernelPair of internal/liveboot/inputs.go accepts.
use tacklebox.Common.{
  ◌+◌, ◌%◌, ◌^◌, ◌≤◌, Bytes, List, [], ◌∷◌, ◌++◌, ◌≡◌, refl, sym, ap, ◌∙◌, true, false, arith,
  Option, some, none, codes, length, bytes_eq, bytes_eq_iff, one_name, take, drop, ◌==◌,
  if◌then◌else◌, append-nil,
}
use tacklebox.Liveboot.Outcome.{
  Ensures, fine, bind-Ensures, weaken-Ensures, guard-Ensures, if-Ensures, slice-taken,
}
use tacklebox.Liveboot.Pe.{
  Section, PeFile, AreWithin, IsBounded, arm64_pe-IsBounded, max_payload_bytes,
}
use tacklebox.Liveboot.Board.{span_bound}
use tacklebox.Liveboot.Inputs.{Manifest}
use tacklebox.Liveboot.Inputs.Contract.{IsContract, validate-IsContract}
use tacklebox.Liveboot.Kernel.{
  Payloads, no_payloads, sidecars, exists, take_payload, collect_payloads, or_nil, trim_right_zeros,
  check_payloads, validate_kernel_pair,
}

-- The bytes of a section as it is loaded.
abbrev loaded : Bytes → Section → Bytes
loaded loader s = take s.virtual_size (drop s.offset loader)

-- The sections of a name, in their order.
abbrev pub payloads_of : Bytes → Bytes → List Section → List Bytes
payloads_of loader name [] = []
payloads_of loader name (s ∷ ss) =
    if bytes_eq s.name name
    then loaded loader s ∷ payloads_of loader name ss
    else payloads_of loader name ss

abbrev NoSidecars : List Section → Type 0
NoSidecars [] = Unit
NoSidecars (s ∷ ss) = (one_name s.name sidecars ≡ false) × NoSidecars ss

-- A loader's one kernel is the kernel, and its one release the manifest's.
pub record Matches (loader kernel : Bytes) (m : Manifest) (ss : List Section) : Type 0 where
  no_sidecars : NoSidecars ss
  same_kernel : payloads_of loader (codes ".linux") ss ≡ kernel ∷ []
  pub uname : Bytes
  one_uname : payloads_of loader (codes ".uname") ss ≡ uname ∷ []
  same_release : trim_right_zeros uname ≡ m.kernel_release

-- What a key holds, before and after some sections.
abbrev held : Option Bytes → List Bytes
held none = []
held (some b) = b ∷ []

absent : (o : Option Bytes) → exists o ≡ false → o ≡ none
absent none h = refl
absent (some b) h = ground (arith, h)

take_payload-loaded :
    (loader : Bytes) (before : Option Bytes) (s : Section)
    → AreWithin (length loader) (s ∷ [])
    → length loader ≤ max_payload_bytes
    → Ensures (λ b. (b ≡ loaded loader s) × (before ≡ none)) (take_payload loader before s)
unfolding take_payload
take_payload-loaded loader before s w small = guard-Ensures (λ new. guard-Ensures (λ g.
    let (e, within) = span_bound s (length loader) w.0 small g in
    weaken-Ensures
      (λ b taken.
        (taken ∙ ap (λ n. take n (drop s.offset loader)) (omega (arith, e)), absent before new))
      (slice-taken s.offset ((s.offset + s.virtual_size) % 2 ^ 32) loader (omega (arith, e))
        (omega (arith, e, within)))))

-- What the loop has collected.
record Collected (loader : Bytes) (ss : List Section) (p q : Payloads) : Type 0 where
  none_aside : NoSidecars ss
  linux : held q.linux ≡ held p.linux ++ payloads_of loader (codes ".linux") ss
  uname : held q.uname ≡ held p.uname ++ payloads_of loader (codes ".uname") ss

other_key :
    (name key : Bytes)
    → bytes_eq name (codes ".linux") ≡ true
    → bytes_eq (codes ".linux") key ≡ false
    → bytes_eq name key ≡ false
other_key name key y n = ap (λ t. bytes_eq t key) ((bytes_eq_iff name (codes ".linux")).0 y) ∙ n

passed_by :
    (loader : Bytes) (s : Section) (ss : List Section) (p q : Payloads)
    → one_name s.name sidecars ≡ false
    → bytes_eq s.name (codes ".linux") ≡ false
    → bytes_eq s.name (codes ".uname") ≡ false
    → Collected loader ss p q
    → Collected loader (s ∷ ss) p q
passed_by loader s ss p q aside n m c = record {
  none_aside = (aside, c.none_aside);
  linux = rw n c.linux;
  uname = rw m c.uname;
}

linux_taken :
    (loader : Bytes) (s : Section) (ss : List Section) (p q : Payloads) (b : Bytes)
    → one_name s.name sidecars ≡ false
    → bytes_eq s.name (codes ".linux") ≡ true
    → b ≡ loaded loader s
    → p.linux ≡ none
    → Collected loader ss (record p { linux = some b }) q
    → Collected loader (s ∷ ss) p q
unfolding bytes_eq
linux_taken loader s ss p q b aside y e new c = record {
  none_aside = (aside, c.none_aside);
  linux = rw (new, y) (c.linux ∙ ap (λ x. x ∷ payloads_of loader (codes ".linux") ss) e);
  uname = rw (other_key s.name (codes ".uname") y refl) c.uname;
}

uname_taken :
    (loader : Bytes) (s : Section) (ss : List Section) (p q : Payloads) (b : Bytes)
    → one_name s.name sidecars ≡ false
    → bytes_eq s.name (codes ".linux") ≡ false
    → bytes_eq s.name (codes ".uname") ≡ true
    → b ≡ loaded loader s
    → p.uname ≡ none
    → Collected loader ss (record p { uname = some b }) q
    → Collected loader (s ∷ ss) p q
uname_taken loader s ss p q b aside n y e new c = record {
  none_aside = (aside, c.none_aside);
  linux = rw n c.linux;
  uname = rw (new, y) (c.uname ∙ ap (λ x. x ∷ payloads_of loader (codes ".uname") ss) e);
}

collect_payloads-Collected :
    (loader : Bytes) (ss : List Section) (p : Payloads)
    → AreWithin (length loader) ss
    → length loader ≤ max_payload_bytes
    → Ensures (Collected loader ss p) (collect_payloads loader ss p)
unfolding collect_payloads
collect_payloads-Collected loader [] p w small =
    fine (record { none_aside = tt; linux = sym (append-nil _); uname = sym (append-nil _) })
collect_payloads-Collected loader (s ∷ ss) p w small = guard-Ensures (λ aside.
    if-Ensures
      (λ y. bind-Ensures _ (take_payload-loaded loader p.linux s (w.0, tt) small) (λ b (e, new).
        weaken-Ensures (λ q c. linux_taken loader s ss p q b aside y e new c)
          (collect_payloads-Collected loader ss (record p { linux = some b }) w.1 small)))
      (λ n.
        if-Ensures
          (λ y. bind-Ensures _ (take_payload-loaded loader p.uname s (w.0, tt) small) (λ b (e, new).
            weaken-Ensures (λ q c. uname_taken loader s ss p q b aside n y e new c)
              (collect_payloads-Collected loader ss (record p { uname = some b }) w.1 small)))
          (λ m.
            weaken-Ensures (λ q c. passed_by loader s ss p q aside n m c)
              (collect_payloads-Collected loader ss p w.1 small))))

-- A key that was given some bytes.
given : (o : Option Bytes) → (length (or_nil o) == 0) ≡ false → held o ≡ or_nil o ∷ []
given none h = ground (arith, h)
given (some b) h = refl

check_payloads-Matches :
    (loader kernel : Bytes) (m : Manifest) (ss : List Section) (p : Payloads)
    → Collected loader ss no_payloads p
    → Ensures (λ _. Matches loader kernel m ss) (check_payloads kernel m.kernel_release p)
unfolding check_payloads
check_payloads-Matches loader kernel m ss p c = guard-Ensures (λ x. guard-Ensures (λ y.
    let filled : (length (or_nil p.linux) == 0) ≡ false = ground (arith, x) in
    let same : bytes_eq (or_nil p.linux) kernel ≡ true = ground (arith, x) in
    let filled_uname : (length (or_nil p.uname) == 0) ≡ false = ground (arith, y) in
    let trimmed : bytes_eq (trim_right_zeros (or_nil p.uname)) m.kernel_release ≡ true =
      ground (arith, y) in
    fine (record {
      no_sidecars = c.none_aside;
      same_kernel =
          sym c.linux
          ∙ given p.linux filled
          ∙ ap (λ b. b ∷ []) ((bytes_eq_iff (or_nil p.linux) kernel).0 same);
      uname = or_nil p.uname;
      one_uname = sym c.uname ∙ given p.uname filled_uname;
      same_release = (bytes_eq_iff (trim_right_zeros (or_nil p.uname)) m.kernel_release).0 trimmed;
    })))

-- A pair that is accepted: the manifest keeps its contract and pins the kernel, and the loader is a file with
-- sections that match it.
pub record Accepted (sha256 : Bytes → Bytes) (new_file : Bytes → Option PeFile)
    (loader kernel release : Bytes) (m : Manifest) : Type 0 where
  pub contract : IsContract m
  pub pinned : sha256 kernel ≡ m.kernel_sha256
  released : release ≡ m.kernel_release
  pub file : PeFile
  bounded : IsBounded new_file loader file
  pub matches : Matches loader kernel m file.sections

-- ValidateKernelPair never panics. A loader and a kernel that it accepts: the manifest keeps its contract, its digest is that
-- of the kernel and its release the one that was extracted; the loader has no section aside from the kernel that
-- would change what boots (.initrd, .cmdline and the like), exactly one section .linux, whose bytes are the kernel, and exactly one
-- section .uname, whose bytes without zeros at the end are the release.
pub validate_kernel_pair-Accepted :
    (sha256 : Bytes → Bytes) (new_file : Bytes → Option PeFile) (loader kernel release : Bytes)
    (m : Manifest)
    → Ensures
        (λ _. Accepted sha256 new_file loader kernel release m)
        (validate_kernel_pair sha256 new_file loader kernel release m)
unfolding validate_kernel_pair
validate_kernel_pair-Accepted sha256 new_file loader kernel release m = guard-Ensures (λ _.
    bind-Ensures (λ _. IsContract m) (validate-IsContract m)
      (λ _ contract. guard-Ensures (λ r. guard-Ensures (λ h.
        let same : bytes_eq release m.kernel_release ≡ true = ground (arith, r) in
        let pinned : bytes_eq (sha256 kernel) m.kernel_sha256 ≡ true = ground (arith, h) in
        bind-Ensures (IsBounded new_file loader) (arm64_pe-IsBounded new_file loader) (λ f bounded.
          bind-Ensures (Collected loader f.sections no_payloads)
            (collect_payloads-Collected loader f.sections no_payloads bounded.0 bounded.1)
            (λ p c.
              weaken-Ensures
                (λ _ matches. record {
                  contract = contract;
                  pinned = (bytes_eq_iff (sha256 kernel) m.kernel_sha256).0 pinned;
                  released = (bytes_eq_iff release m.kernel_release).0 same;
                  file = f;
                  bounded = bounded;
                  matches = matches;
                })
                (check_payloads-Matches loader kernel m f.sections p c)))))))
