-- ===== src/Tests/Cpio.antt =====
-- An overlay of short scripts.
use tacklebox.Common.{ℕ, ◌<◌, ◌^◌, Bytes, ap, subst, some, none, Option, arith, codes, length}
use tacklebox.Cpio.{build_initrd_overlay_scripts_only}
use tacklebox.Cpio.Log.Installs.{AreSmall}
use tacklebox.Cpio.RoundTrip.{ReadsBack, build_initrd_overlay_scripts_only-ReadsBack}

abbrev one_script : Bytes → Option Bytes
one_script name = some (codes "#!/bin/sh")

abbrev size_in : Option Bytes → ℕ
size_in none = 0
size_in (some body) = length body

scripts_small : AreSmall one_script
scripts_small name body e = subst (λ n. n < 2 ^ 32) (ap size_in e) (omega arith)

build_initrd_overlay_scripts_only-ReadsBack_example :
    ReadsBack one_script (build_initrd_overlay_scripts_only one_script)
build_initrd_overlay_scripts_only-ReadsBack_example =
    build_initrd_overlay_scripts_only-ReadsBack one_script scripts_small
