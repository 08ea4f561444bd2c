-- ===== src/Iso.antt =====
-- internal/purefs/iso9660.go: the writer of ISO 9660 images with Rock Ridge and El Torito. An int64
-- that the writer computes is a natural number; `uint32(v)` and `byte(v)` are reduced where they
-- stand. Names are ASCII.
pub mod Numbers
pub mod Spans
pub mod Records
pub mod Tree
pub mod Layout
pub mod Descriptors
pub mod Write
use tacklebox.Common.{ℕ, zero, suc, ◌+◌, ◌*◌, ◌/◌, Bytes, List, [], ◌∷◌, Bool}

abbrev pub sector_size : ℕ
sector_size = 2048

-- What an IsoInput's Source gives: an error on opening, or its bytes and whether reading them ends
-- in an error.
pub data Source : Type 0 where
  refused : Source
  yields : Bytes → Bool → Source

pub record IsoInput : Type 0 where
  pub path : Bytes
  pub size : ℕ
  pub source : Source

-- isoEntry but its extent; `id` stands for the pointer.
pub record IsoEntry : Type 0 where
  pub id : ℕ
  pub name : Bytes
  pub size : ℕ
  pub source : Source

-- make([]byte, n)
unfoldable pub zeros : ℕ → Bytes
zeros zero = []
zeros (suc n) = 0 ∷ zeros n

unfoldable pub ceil_sector : ℕ → ℕ
ceil_sector n = (n + 2047) / 2048 * 2048

-- Sectors of a region of so many bytes.
unfoldable pub sectors : ℕ → ℕ
unfolding ceil_sector
sectors n = ceil_sector n / 2048
