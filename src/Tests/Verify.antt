-- ===== src/Tests/Verify.antt =====
-- Boot entries of a medium labelled "TBOX LIVE", written and read back.
use tacklebox.Common.{
  ℕ, Bytes, List, [], ◌∷◌, ◌++◌, ◌≡◌, ◌≢◌, refl, Bool, true, false, codes, IsWord, IsWord-literal,
  if◌then◌else◌, fields, fields_from, cut_prefix, Option, some, none,
}
use tacklebox.Cmdline.{live_options, live, live_combined, build, combined_squash_name}
use tacklebox.Cmdline.Words.{IsLabel}
use tacklebox.Verify.Bls.{bls_option, bls_squashimg, option_in}
use tacklebox.Verify.Bls.Contract.{verify-live_combined}

abbrev env : Bytes
env = codes "bluefin"

abbrev label : Bytes
label = codes "TBOX LIVE"

label-IsLabel : IsLabel label
label-IsLabel = (refl, (refl, (refl, (refl, (refl, (refl, (refl, (refl, (refl, tt)))))))))

live_runs :
    live env label
    ≡ codes
        "root=tbox:CDLABEL=TBOX\\x20LIVE tacklebox.live.squashimg=bluefin.rootfs.sfs tacklebox.live.overlay.size=8192 enforcing=0 tacklebox.env=bluefin console=ttyS0,115200n8"
unfolding live live_options tacklebox.Common.replace_byte
live_runs = refl

build_runs :
    build env (codes "persistent") (codes "composefs") true []
    ≡ codes
        "root=LABEL=TBOX_STORE rw console=ttyS0 tacklebox.root=tbox-install/bluefin tacklebox.persist=LABEL=TBOX_PERSIST rootflags=subvol=containers/storage/overlay/default/diff,commit=1,errors=remount-ro"
unfolding build tacklebox.Common.bytes_eq tacklebox.Common.join
build_runs = refl

verify-live_combined_example :
    (bls_squashimg (live_combined env label) ≡ combined_squash_name)
    × (bls_option (live_combined env label) (codes "tacklebox.root") ≡ env)
    × (bls_option (live_combined env label) (codes "tacklebox.live.delta") ≡ [])
verify-live_combined_example =
    verify-live_combined env label (IsWord-literal env refl) label-IsLabel

root_option : bls_option (codes "root=a rw") (codes "root") ≡ codes "a"
unfolding bls_option fields fields_from option_in cut_prefix
root_option = refl
