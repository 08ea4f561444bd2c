-- ===== src/Cpio/Aligned.antt =====
-- The alignment of the archives of internal/purefs/initrdoverlay.go.
use tacklebox.Common.{◌%◌, Bytes, ◌++◌, ◌≡◌, arith, length, length-append, codes}
use tacklebox.Iso.{zeros}
use tacklebox.Iso.Write.Chunks.{length-zeros}
use tacklebox.Cpio.{CpioWriter, padding, header, finish}

pub length-padded4 : (b : Bytes) → length (b ++ zeros (padding 4 (length b))) % 4 ≡ 0
length-padded4 b =
    omega
      (arith, length-append b (zeros (padding 4 (length b))), length-zeros (padding 4 (length b)))

length-padded512 : (b : Bytes) → length (b ++ zeros (padding 512 (length b))) % 512 ≡ 0
length-padded512 b =
    omega (
      arith,
      length-append b (zeros (padding 512 (length b))),
      length-zeros (padding 512 (length b)),
    )

-- An archive has whole blocks of 512 bytes.
length-finish : (w : CpioWriter) → length (finish w) % 512 ≡ 0
unfolding finish
length-finish w = length-padded512 (header (codes "TRAILER!!!") 0 0 w).buf

-- A writer at a multiple of four bytes.
abbrev pub IsAligned : CpioWriter → Type 0
IsAligned w = length w.buf % 4 ≡ 0
