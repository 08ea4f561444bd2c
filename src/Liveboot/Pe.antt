-- ===== src/Liveboot/Pe.antt =====
-- ARM64PE of internal/liveboot/inputs.go. Package debug/pe is outside the repository: what it makes of the
-- bytes is a parameter, with no assumption.
use tacklebox.Common.{
  ℕ, zero, suc, ◌+◌, ◌*◌, ◌^◌, ◌≤◌, Bytes, List, [], ◌∷◌, ◌≡◌, refl, ◌⊎◌, Bool, true, false, not,
  ◌&&◌, ◌||◌, inl, inr, arith, Option, some, none, codes, length, bytes_eq, ltb, ◌==◌,
}
use tacklebox.Liveboot.Outcome.{
  Outcome, ok, err, bind, refuse_if, choose, slice, le16, le32, Ensures, fine, failed, Anything,
  IsFine, bind-Ensures, weaken-Ensures, guard-Ensures, if-Ensures, slice-IsFine, le16-IsFine,
  le32-IsFine,
}

-- pe.Section and pe.File, as far as they are read.
pub record Section : Type 0 where
  pub name : Bytes
  pub virtual_size : ℕ
  pub size : ℕ
  pub offset : ℕ

pub record PeFile : Type 0 where
  pub machine : ℕ
  pub sections : List Section
  pub is_pe32_plus : Bool

abbrev pub max_payload_bytes : ℕ
max_payload_bytes = 64 * 2 ^ 20

abbrev opened : Option PeFile → Outcome PeFile
opened none = err
opened (some f) = ok f

-- The loop over the section table: the place behind it.
unfoldable without_relocations : ℕ → Bytes → ℕ → Outcome ℕ
unfolding le16 le32
without_relocations zero bytes offset = ok offset
without_relocations (suc n) bytes offset = bind (le32 bytes (offset + 24)) (λ pointer.
    bind (le16 bytes (offset + 32)) (λ count.
      refuse_if (not (pointer == 0) || not (count == 0))
        (without_relocations n bytes (offset + 40))))

unfoldable overlaps : ℕ → ℕ → List (ℕ × ℕ) → Bool
overlaps start end [] = false
overlaps start end ((s, e) ∷ spans) = (ltb start e && ltb s end) || overlaps start end spans

-- The loop over the sections.
unfoldable check_sections : ℕ → ℕ → List (ℕ × ℕ) → List Section → Outcome (List (ℕ × ℕ))
unfolding overlaps
check_sections table_end total spans [] = ok spans
check_sections table_end total spans (s ∷ ss) =
    choose (s.size == 0) (check_sections table_end total spans ss) (
      refuse_if (ltb s.offset table_end || ltb total (s.offset + s.size)) (
        refuse_if (overlaps s.offset (s.offset + s.size) spans)
          (check_sections table_end total ((s.offset, s.offset + s.size) ∷ spans) ss)))

abbrev is_empty_list : List Section → Bool
is_empty_list [] = true
is_empty_list (s ∷ ss) = false

abbrev checked_file : ℕ → ℕ → PeFile → Outcome PeFile
checked_file table_end total f =
    refuse_if (not (f.machine == 0xaa64) || is_empty_list f.sections || ltb 256 (length f.sections))
      (refuse_if (not f.is_pe32_plus)
        (bind (check_sections table_end total [] f.sections) (λ spans. ok f)))

-- From the section table on.
abbrev from_table : (Bytes → Option PeFile) → Bytes → ℕ → ℕ → Outcome PeFile
from_table new_file bytes count table = refuse_if (ltb (length bytes) (table + count * 40)) (
    bind (without_relocations count bytes table)
      (λ end. bind (opened (new_file bytes)) (checked_file (table + count * 40) (length bytes))))

-- From the COFF header on.
abbrev from_header : (Bytes → Option PeFile) → Bytes → ℕ → Outcome PeFile
from_header new_file bytes pe = bind (slice pe (pe + 4) bytes) (λ signature.
    refuse_if (not (bytes_eq signature (b'P' ∷ b'E' ∷ 0 ∷ 0 ∷ []))) (
      bind (le16 bytes (pe + 6)) (λ count. refuse_if (count == 0 || ltb 256 count) (
        bind (le32 bytes (pe + 12)) (λ symbols. bind (le32 bytes (pe + 16)) (λ symbol_count.
          refuse_if (not (symbols == 0) || not (symbol_count == 0)) (
            bind (le16 bytes (pe + 20))
              (λ optional. from_table new_file bytes count (pe + 24 + optional)))))))))

-- ARM64PE
unfoldable pub arm64_pe : (Bytes → Option PeFile) → Bytes → Outcome PeFile
unfolding slice le16 le32 without_relocations check_sections
arm64_pe new_file bytes =
    refuse_if (ltb (length bytes) 64 || ltb max_payload_bytes (length bytes)) (
      bind (slice 0 2 bytes) (λ magic. refuse_if (not (bytes_eq magic (codes "MZ"))) (
        bind (le32 bytes 60) (λ pe.
          refuse_if (ltb pe 64 || ltb (length bytes) (pe + 24)) (from_header new_file bytes pe)))))

-- A section that has a size is within the file.
abbrev pub AreWithin : ℕ → List Section → Type 0
AreWithin total [] = Unit
AreWithin total (s ∷ ss) = ((s.size ≡ 0) ⊎ (s.offset + s.size ≤ total)) × AreWithin total ss

-- What package debug/pe makes of the bytes, within them.
abbrev pub IsBounded : (Bytes → Option PeFile) → Bytes → PeFile → Type 0
IsBounded new_file bytes f =
    AreWithin (length bytes) f.sections
    × (length bytes ≤ max_payload_bytes)
    × (new_file bytes ≡ some f)

without_relocations-IsFine :
    (n : ℕ) (bytes : Bytes) (offset : ℕ)
    → offset + n * 40 ≤ length bytes
    → IsFine (without_relocations n bytes offset)
unfolding without_relocations
without_relocations-IsFine zero bytes offset h = fine tt
without_relocations-IsFine (suc n) bytes offset h =
    bind-Ensures Anything (le32-IsFine bytes (offset + 24) (omega (arith, h))) (λ _ _.
      bind-Ensures Anything (le16-IsFine bytes (offset + 32) (omega (arith, h))) (λ _ _.
        guard-Ensures (λ _. without_relocations-IsFine n bytes (offset + 40) (omega (arith, h)))))

check_sections-AreWithin :
    (table_end total : ℕ) (spans : List (ℕ × ℕ)) (ss : List Section)
    → Ensures (λ _. AreWithin total ss) (check_sections table_end total spans ss)
unfolding check_sections
check_sections-AreWithin table_end total spans [] = fine tt
check_sections-AreWithin table_end total spans (s ∷ ss) =
    if-Ensures
      (λ y.
        let none : s.size ≡ 0 = ground (arith, y) in
        weaken-Ensures (λ _ a. (inl none, a)) (check_sections-AreWithin table_end total spans ss))
      (λ _. guard-Ensures (λ n.
        let within : s.offset + s.size ≤ total = ground (arith, n) in
        guard-Ensures (λ _.
          weaken-Ensures (λ _ a. (inr within, a))
            (check_sections-AreWithin table_end total ((s.offset, s.offset + s.size) ∷ spans) ss))))

opened-some : (o : Option PeFile) → Ensures (λ f. o ≡ some f) (opened o)
opened-some none = failed
opened-some (some f) = fine refl

from_table-IsBounded :
    (new_file : Bytes → Option PeFile) (bytes : Bytes) (count table : ℕ)
    → length bytes ≤ max_payload_bytes
    → Ensures (IsBounded new_file bytes) (from_table new_file bytes count table)
from_table-IsBounded new_file bytes count table small = guard-Ensures (λ n.
    let inside : table + count * 40 ≤ length bytes = ground (arith, n) in
    bind-Ensures Anything (without_relocations-IsFine count bytes table inside) (λ _ _.
      bind-Ensures (λ f. new_file bytes ≡ some f) (opened-some (new_file bytes))
        (λ f made. guard-Ensures (λ _. guard-Ensures (λ _.
          bind-Ensures (λ _. AreWithin (length bytes) f.sections)
            (check_sections-AreWithin (table + count * 40) (length bytes) [] f.sections)
            (λ _ a. fine (a, small, made)))))))

-- ARM64PE takes no slice out of range, whatever package debug/pe does; a file that it returns is what that
-- package makes of the bytes, which are at most 64 MiB, and every section with a size is within them.
pub arm64_pe-IsBounded :
    (new_file : Bytes → Option PeFile) (bytes : Bytes)
    → Ensures (IsBounded new_file bytes) (arm64_pe new_file bytes)
unfolding arm64_pe
arm64_pe-IsBounded new_file bytes = guard-Ensures (λ n.
    let long : 64 ≤ length bytes = ground (arith, n) in
    let small : length bytes ≤ max_payload_bytes = ground (arith, n) in
    bind-Ensures Anything (slice-IsFine 0 2 bytes (omega arith) (omega (arith, long))) (λ _ _.
      guard-Ensures (λ _.
        bind-Ensures Anything (le32-IsFine bytes 60 (omega (arith, long))) (λ pe _.
          guard-Ensures (λ m.
            let inside : pe + 24 ≤ length bytes = ground (arith, m) in
            bind-Ensures Anything
              (slice-IsFine pe (pe + 4) bytes (omega arith) (omega (arith, inside)))
              (λ _ _. guard-Ensures (λ _.
                bind-Ensures Anything (le16-IsFine bytes (pe + 6) (omega (arith, inside)))
                  (λ count _. guard-Ensures (λ _.
                    bind-Ensures Anything (le32-IsFine bytes (pe + 12) (omega (arith, inside)))
                      (λ _ _.
                        bind-Ensures Anything (le32-IsFine bytes (pe + 16) (omega (arith, inside)))
                          (λ _ _. guard-Ensures (λ _.
                            bind-Ensures Anything
                              (le16-IsFine bytes (pe + 20) (omega (arith, inside)))
                              (λ optional _.
                                from_table-IsBounded new_file bytes count (pe + 24 + optional)
                                  small)))))))))))))
