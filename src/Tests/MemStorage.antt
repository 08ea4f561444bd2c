-- ===== src/Tests/MemStorage.antt =====
-- A write past the end of a small memory.
use tacklebox.Common.{[], ◌∷◌, ◌≡◌, refl, some}
use tacklebox.Oci.Platform.{pos}
use tacklebox.Iso.{zeros}
use tacklebox.MemStorage.{MemStorage, bytes, read_at, read, seek_start, write_at}
use tacklebox.MemStorage.View.{byte_at, slice, patched, read_at-write_at}

abbrev small : MemStorage
small = record { buf = 1 ∷ 2 ∷ 3 ∷ []; off = pos 0 }

-- The gap is filled with zeros, and a read that goes on stops at the new end.
read_back :
    read 9 (seek_start (pos 2) (write_at (7 ∷ 8 ∷ []) 4 small))
    ≡ some (bytes (3 ∷ 0 ∷ 7 ∷ 8 ∷ []), record { buf = 1 ∷ 2 ∷ 3 ∷ 0 ∷ 7 ∷ 8 ∷ []; off = pos 6 })
unfolding read seek_start write_at zeros
read_back = refl

read_at-write_at_example :
    read_at 9 2 (write_at (7 ∷ 8 ∷ []) 4 small)
    ≡ bytes (slice (patched (byte_at small.buf) (7 ∷ 8 ∷ []) 4) 2 4)
read_at-write_at_example = read_at-write_at (7 ∷ 8 ∷ []) 4 9 2 small
