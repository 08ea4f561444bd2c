-- ===== src/Liveboot/Board.antt =====
-- HasBoardMapping of internal/liveboot/board.go.
use tacklebox.Common.{
  ℕ, zero, suc, ◌+◌, ◌/◌, ◌%◌, ◌^◌, ◌≤◌, Bytes, List, [], ◌∷◌, ◌≡◌, ◌⊎◌, Bool, true, false, not,
  ◌&&◌, ◌||◌, inl, inr, arith, Option, codes, length, bytes_eq, leb, ltb, ◌==◌, if◌then◌else◌,
}
use tacklebox.Liveboot.Outcome.{
  Outcome, ok, err, stuck, bind, refuse_if, choose, slice, le32, fine, failed, Anything, IsFine,
  bind-Ensures, guard-Ensures, if-Ensures, slice-IsFine, le32-IsFine,
}
use tacklebox.Liveboot.Dtb.{cstring, root_compatible}
use tacklebox.Liveboot.Dtb.Fine.{cstring-IsFine, root_compatible-IsFine}
use tacklebox.Liveboot.Pe.{
  Section, PeFile, arm64_pe, AreWithin, IsBounded, arm64_pe-IsBounded, max_payload_bytes,
}

abbrev pub board : Bytes
board = codes "lenovo,thinkpad-x13s"

-- dtbMatch, hwidMatch and hwidCount
pub record Mapping : Type 0 where
  pub dtb_match : Bool
  pub hwid_match : Bool
  pub hwid_count : ℕ

-- A compatible text of the hardware table.
abbrev with_hwid : ℕ → Mapping → Bytes → Mapping
with_hwid descriptor m value =
    if descriptor == 0x1000001c && bytes_eq value board then record m { hwid_match = true } else m

-- The loop over the hardware table, on fuel; a table that is not terminated is an error.
unfoldable hwids_from : ℕ → Bytes → ℕ → Mapping → Outcome Mapping
unfolding le32 cstring
hwids_from zero bytes off m = choose (leb (off + 4) (length bytes)) stuck err
hwids_from (suc n) bytes off m =
    let next : Mapping → Outcome Mapping = hwids_from n bytes (off + 28) in
    choose (leb (off + 4) (length bytes))
      (refuse_if (leb 4096 (off / 28)) (
        bind (le32 bytes off) (λ descriptor. choose (descriptor == 0) (ok m) (
          refuse_if
            (ltb (length bytes) (off + 28)
              || (not (descriptor == 0x1000001c) && not (descriptor == 0x2000001c)))
            (bind (le32 bytes (off + 24)) (λ compatible.
              choose (compatible == 0) (next m) (
                bind (cstring bytes compatible)
                  (λ value. next (with_hwid descriptor m value)))))))))
      err

-- The first root-compatible text only
abbrev with_dtb : Mapping → List Bytes → Mapping
with_dtb m [] = m
with_dtb m (c ∷ cs) = if bytes_eq c board then record m { dtb_match = true } else m

-- What a section of either name gives.
abbrev read_section : Bytes → Mapping → Bytes → Outcome Mapping
read_section name m payload =
    choose (bytes_eq name (codes ".dtbauto"))
      (bind (root_compatible payload) (λ compatibles. ok (with_dtb m compatibles)))
      (refuse_if (not (suc m.hwid_count == 1))
        (hwids_from (length payload) payload 0 (record m { hwid_count = suc m.hwid_count })))

-- The loop over the sections.
unfoldable map_sections : Bytes → List Section → Mapping → Outcome Mapping
unfolding slice root_compatible hwids_from
map_sections loader [] m = ok m
map_sections loader (s ∷ ss) m =
    let rest : Mapping → Outcome Mapping = map_sections loader ss in
    choose (not (bytes_eq s.name (codes ".dtbauto")) && not (bytes_eq s.name (codes ".hwids")))
      (rest m)
      (refuse_if (s.virtual_size == 0 || ltb s.size s.virtual_size) (
        bind (slice s.offset ((s.offset + s.virtual_size) % 2 ^ 32) loader)
          (λ payload. bind (read_section s.name m payload) rest)))

abbrev no_mapping : Mapping
no_mapping = record { dtb_match = false; hwid_match = false; hwid_count = 0 }

unfoldable pub has_board_mapping : (Bytes → Option PeFile) → Bytes → Outcome Mapping
unfolding arm64_pe map_sections
has_board_mapping new_file loader = bind (arm64_pe new_file loader) (λ f.
    bind (map_sections loader f.sections no_mapping)
      (λ m. refuse_if (not m.dtb_match || not m.hwid_match) (ok m)))

hwids_from-IsFine :
    (n : ℕ) (bytes : Bytes) (off : ℕ) (m : Mapping)
    → length bytes ≤ n + off
    → IsFine (hwids_from n bytes off m)
unfolding hwids_from
hwids_from-IsFine zero bytes off m h =
    let e : leb (off + 4) (length bytes) ≡ false = ground (arith, h) in unfold choose in rw e failed
hwids_from-IsFine (suc n) bytes off m h =
    if-Ensures
      (λ y.
        let inside : off + 4 ≤ length bytes = ground (arith, y) in
        guard-Ensures (λ _. bind-Ensures Anything (le32-IsFine bytes off inside) (λ descriptor _.
          if-Ensures (λ _. fine tt)
            (λ _. guard-Ensures (λ k.
              let whole : off + 28 ≤ length bytes = ground (arith, k) in
              bind-Ensures Anything (le32-IsFine bytes (off + 24) (omega (arith, whole)))
                (λ compatible _.
                  if-Ensures (λ _. hwids_from-IsFine n bytes (off + 28) m (omega (arith, h)))
                    (λ _. bind-Ensures Anything (cstring-IsFine bytes compatible) (λ value _.
                      hwids_from-IsFine n bytes (off + 28) (with_hwid descriptor m value)
                        (omega (arith, h))))))))))
      (λ _. failed)

read_section-IsFine :
    (name : Bytes) (m : Mapping) (payload : Bytes) → IsFine (read_section name m payload)
read_section-IsFine name m payload =
    if-Ensures
      (λ _. bind-Ensures Anything (root_compatible-IsFine payload) (λ compatibles _. fine tt))
      (λ _. guard-Ensures (λ _. hwids_from-IsFine (length payload) payload 0 _ (omega arith)))

-- The span of a section, in 32 bits.
pub span_bound :
    (s : Section) (total : ℕ)
    → (s.size ≡ 0) ⊎ (s.offset + s.size ≤ total)
    → total ≤ max_payload_bytes
    → (s.virtual_size == 0 || ltb s.size s.virtual_size) ≡ false
    → ((s.offset + s.virtual_size) % 2 ^ 32 ≡ s.offset + s.virtual_size)
      × (s.offset + s.virtual_size ≤ total)
span_bound s total (inl e) small g = absurd (ground (arith, e, g))
span_bound s total (inr h) small g =
    let positive : s.virtual_size ≤ s.size = ground (arith, g) in
    (omega (arith, h, small, positive), omega (arith, h, positive))

map_sections-IsFine :
    (loader : Bytes) (ss : List Section) (m : Mapping)
    → AreWithin (length loader) ss
    → length loader ≤ max_payload_bytes
    → IsFine (map_sections loader ss m)
unfolding map_sections
map_sections-IsFine loader [] m w small = fine tt
map_sections-IsFine loader (s ∷ ss) m w small =
    if-Ensures (λ _. map_sections-IsFine loader ss m w.1 small)
      (λ _. guard-Ensures (λ g.
        let (e, within) = span_bound s (length loader) w.0 small g in
        bind-Ensures Anything
          (slice-IsFine s.offset ((s.offset + s.virtual_size) % 2 ^ 32) loader (omega (arith, e))
            (omega (arith, e, within)))
          (λ payload _.
            bind-Ensures Anything (read_section-IsFine s.name m payload)
              (λ m' _. map_sections-IsFine loader ss m' w.1 small))))

-- HasBoardMapping returns a result or an error for all bytes: no slice that it takes is out of range,
-- whatever package debug/pe makes of the file, and its loops end.
pub has_board_mapping-IsFine :
    (new_file : Bytes → Option PeFile) (loader : Bytes) → IsFine (has_board_mapping new_file loader)
unfolding has_board_mapping
has_board_mapping-IsFine new_file loader =
    bind-Ensures (IsBounded new_file loader) (arm64_pe-IsBounded new_file loader) (λ f b.
      bind-Ensures Anything (map_sections-IsFine loader f.sections _ b.0 b.1)
        (λ m _. guard-Ensures (λ _. fine tt)))
