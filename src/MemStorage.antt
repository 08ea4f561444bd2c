-- ===== src/MemStorage.antt =====
-- internal/purefs/membackend.go: memStorage, the memory that an ESP is written into. Offsets of ReadAt
-- and WriteAt are not negative; `none` is a panic.
pub mod View
use tacklebox.Common.{
  ℕ, zero, suc, ◌+◌, ◌-◌, ◌*◌, ◌/◌, Bytes, List, [], ◌∷◌, ◌++◌, Bool, true, false, Option, some,
  none, length, take, drop, leb, ltb, if◌then◌else◌,
}
use tacklebox.Oci.Platform.{ℤ, pos, negsuc}
use tacklebox.Iso.{zeros}

pub record MemStorage : Type 0 where
  pub buf : Bytes
  pub off : ℤ

-- newMemStorage
unfoldable pub new_mem_storage : ℕ → MemStorage
new_mem_storage size = record { buf = zeros size; off = pos 0 }

-- What a read gives: io.EOF, or bytes.
pub data Got : Type 0 where
  end_of_file : Got
  bytes : Bytes → Got

-- ReadAt into a buffer of `n` bytes.
unfoldable pub read_at : ℕ → ℕ → MemStorage → Got
read_at n off m = if leb (length m.buf) off then end_of_file else bytes (take n (drop off m.buf))

-- Read into a buffer of `n` bytes: a negative offset panics in the slice.
abbrev advance : Got → ℕ → MemStorage → Option (Got × MemStorage)
advance end_of_file off m = some (end_of_file, m)
advance (bytes b) off m = some (bytes b, record m { off = pos (off + length b) })

unfoldable pub read_from : ℤ → ℕ → MemStorage → Option (Got × MemStorage)
unfolding read_at
read_from (pos off) n m = advance (read_at n off m) off m
read_from (negsuc k) n m = none

unfoldable pub read : ℕ → MemStorage → Option (Got × MemStorage)
unfolding read_from
read n m = read_from m.off n m

-- WriteAt: the buffer grows as far as it has to.
abbrev pub grown : ℕ → Bytes → Bytes
grown need buf = if ltb (length buf) need then buf ++ zeros (need - length buf) else buf

unfoldable pub write_at : Bytes → ℕ → MemStorage → MemStorage
write_at p off m =
    let b = grown (off + length p) m.buf in
    record m { buf = take off b ++ (p ++ drop (off + length p) b) }

-- Seek from the start; the offset is not checked.
unfoldable pub seek_start : ℤ → MemStorage → MemStorage
seek_start off m = record m { off = off }

-- BuildEspBytes: the size of the memory.
unfoldable pub esp_size : ℕ → ℕ
esp_size content =
    (content + content / 10 + 64 * 1024 * 1024 + (1024 * 1024 - 1)) / (1024 * 1024) * (1024 * 1024)
