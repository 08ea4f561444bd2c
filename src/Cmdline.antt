-- ===== src/Cmdline.antt =====
-- internal/kernelcmdline/kernelcmdline.go: the kernel command line of a boot entry.
pub mod Words
use tacklebox.Common.{
  Bytes, List, [], ◌∷◌, ◌++◌, Bool, true, false, codes, bytes_eq, if◌then◌else◌, trim_space,
  replace_byte, join,
}
use tacklebox.Recipe.{BootMode}

-- install.Backend is a string type: what is not "ostree" is treated as composefs.
abbrev pub is_ostree : Bytes → Bool
is_ostree backend = bytes_eq backend (codes "ostree")

abbrev pub combined_squash_name : Bytes
combined_squash_name = codes "combined.rootfs.sfs"

abbrev pub base_squash_name : Bytes
base_squash_name = codes "base.rootfs.sfs"

abbrev pub add_karg : Bytes → Bytes → Bytes
add_karg options [] = options
add_karg options (c ∷ karg) = options ++ (b' ' ∷ c ∷ karg)

-- Append
unfoldable pub append_kargs : Bytes → List Bytes → Bytes
append_kargs options [] = options
append_kargs options (karg ∷ kargs) = append_kargs (add_karg options (trim_space karg)) kargs

-- live; the spaces of the label are spelled as udev spells them.
unfoldable pub live_options : Bytes → Bytes → Bytes → Bytes → Bytes
live_options env_id label squashimg extra =
    codes "root=tbox:CDLABEL="
    ++ (replace_byte b' ' (codes "\\x20") label
        ++ (codes " tacklebox.live.squashimg="
            ++ (squashimg
                ++ (codes " tacklebox.live.overlay.size=8192 enforcing=0 tacklebox.env="
                    ++ (env_id ++ (extra ++ codes " console=ttyS0,115200n8"))))))

-- Live
unfoldable pub live : Bytes → Bytes → Bytes
live env_id label = live_options env_id label (env_id ++ codes ".rootfs.sfs") []

-- LiveCombined
unfoldable pub live_combined : Bytes → Bytes → Bytes
live_combined env_id label =
    live_options env_id label combined_squash_name (codes " tacklebox.root=" ++ env_id)

-- LiveDelta
unfoldable pub live_delta : Bytes → Bytes → Bool → Bytes
live_delta env_id label is_base =
    live_options env_id label base_squash_name
      (if is_base then [] else codes " tacklebox.live.delta=" ++ (env_id ++ codes ".delta.sfs"))

-- Build
unfoldable pub root_flags : Bytes → Bool → List Bytes
root_flags backend usb_safe =
    (if is_ostree backend then [] else codes "subvol=containers/storage/overlay/default/diff" ∷ [])
    ++ (if usb_safe then codes "commit=1" ∷ codes "errors=remount-ro" ∷ [] else [])

abbrev with_root_flags : Bytes → List Bytes → Bytes
with_root_flags cmdline [] = cmdline
with_root_flags cmdline (f ∷ fs) = cmdline ++ (codes " rootflags=" ++ join (codes ",") (f ∷ fs))

abbrev backend_option : Bytes → Bytes → Bytes → Bytes
backend_option backend env_id csum =
    if is_ostree backend
    then codes " ostree=/ostree/boot.1/" ++ (env_id ++ (codes "/" ++ (csum ++ codes "/0")))
    else []

unfoldable pub build : Bytes → BootMode → Bytes → Bool → Bytes → Bytes
unfolding root_flags
build env_id mode backend usb_safe ostree_bootcsum =
    with_root_flags
      (codes "root=LABEL=TBOX_STORE rw console=ttyS0 tacklebox.root=tbox-install/"
        ++ (env_id
            ++ ((if bytes_eq mode (codes "live")
                  then codes " rd.live.overlay=tmpfs"
                  else codes " tacklebox.persist=LABEL=TBOX_PERSIST")
                ++ backend_option backend env_id ostree_bootcsum)))
      (root_flags backend usb_safe)
