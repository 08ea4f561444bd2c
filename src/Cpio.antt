-- ===== src/Cpio.antt =====
-- internal/purefs/initrdoverlay.go: the newc cpio writer and the scripts of a live initramfs. A path is
-- the list of its parts, the last first; parts are joined by "/".
pub mod Aligned
pub mod Log
pub mod Reader
pub mod RoundTrip
use tacklebox.Common.{
  ℕ, zero, suc, ◌+◌, ◌-◌, ◌*◌, ◌/◌, ◌%◌, ◌^◌, String, Bytes, List, [], ◌∷◌, ◌++◌, Bool, true, false,
  ◌&&◌, Option, some, none, codes, join, reverse, bytes_eq, length, ltb, ◌==◌, if◌then◌else◌,
}
use mathlib.Core.Option
use tacklebox.Oci.Rootfs.Paths.{split_clean}
use tacklebox.Iso.{zeros}

abbrev pub FilePath : Type 0
FilePath = List Bytes

abbrev pub path_text : FilePath → Bytes
path_text parts = join (codes "/") (reverse parts)

abbrev pub same_path : FilePath → FilePath → Bool
same_path [] [] = true
same_path (p ∷ ps) (q ∷ qs) = bytes_eq p q && same_path ps qs
same_path _ _ = false

abbrev pub has_path : FilePath → List FilePath → Bool
has_path p [] = false
has_path p (q ∷ qs) = if same_path q p then true else has_path p qs

-- cpioWriter
pub record CpioWriter : Type 0 where
  pub buf : Bytes
  pub dirs : List FilePath
  pub ino : ℕ

abbrev pub new_cpio_writer : CpioWriter
new_cpio_writer = record { buf = []; dirs = []; ino = 0 }

-- %08X: eight digits, and more for a number that needs them.
abbrev hex_digit : ℕ → ℕ
hex_digit d = if ltb d 10 then b'0' + d else 55 + d

unfoldable pub hex_high : ℕ → ℕ → Bytes → Bytes
hex_high zero n rest = rest
hex_high (suc k) n rest =
    let more = hex_high k (n / 16) (hex_digit (n % 16) ∷ rest) in if n == 0 then rest else more

unfoldable pub hex_low : ℕ → ℕ → Bytes → Bytes
hex_low zero n rest = rest
hex_low (suc k) n rest = hex_low k (n / 16) (hex_digit (n % 16) ∷ rest)

unfoldable pub hex8 : ℕ → Bytes
unfolding hex_high hex_low
hex8 n = hex_high n (n / 2 ^ 32) (hex_low 8 n [])

abbrev pub padding : ℕ → ℕ → ℕ
padding unit n = (unit - n % unit) % unit

-- pad4
unfoldable pub pad4 : CpioWriter → CpioWriter
pad4 w = record w { buf = w.buf ++ zeros (padding 4 (length w.buf)) }

abbrev pub joined_fields : List ℕ → Bytes
joined_fields [] = []
joined_fields (n ∷ ns) = hex8 n ++ joined_fields ns

unfoldable pub header : Bytes → ℕ → ℕ → CpioWriter → CpioWriter
unfolding pad4 hex8
header name mode size w =
    let fields =
      suc w.ino ∷ mode ∷ 0 ∷ 0 ∷ 1 ∷ 0 ∷ size ∷ 0 ∷ 0 ∷ 0 ∷ 0 ∷ suc (length name) ∷ 0 ∷ [] in
    pad4 (record w {
      buf = w.buf ++ ((codes "070701" ++ joined_fields fields) ++ (name ++ 0 ∷ []));
      ino = suc w.ino;
    })

-- mkdirAll: the parents first.
unfoldable pub mkdir_all : FilePath → CpioWriter → CpioWriter
unfolding header
mkdir_all [] w = w
mkdir_all (name ∷ up) w =
    let above = mkdir_all up w in
    if has_path (name ∷ up) w.dirs
    then w
    else header (path_text (name ∷ up)) 0o040755 0
        (record above { dirs = (name ∷ up) ∷ above.dirs })

abbrev pub parent_of : FilePath → FilePath
parent_of [] = []
parent_of (name ∷ up) = up

abbrev pub append_bytes : Bytes → CpioWriter → CpioWriter
append_bytes b w = record w { buf = w.buf ++ b }

-- file and symlink; the caller's permissions have no bits of a file type, so `|` adds them.
unfoldable pub add_regular : FilePath → ℕ → Bytes → CpioWriter → CpioWriter
unfolding mkdir_all
add_regular name perm body w = pad4 (
    append_bytes body
      (header (path_text name) (0o100000 + perm) (length body) (mkdir_all (parent_of name) w)))

unfoldable pub add_symlink : FilePath → Bytes → CpioWriter → CpioWriter
unfolding mkdir_all
add_symlink name target w = pad4 (
    append_bytes target
      (header (path_text name) 0o120777 (length target) (mkdir_all (parent_of name) w)))

unfoldable pub finish : CpioWriter → Bytes
unfolding header
finish w = let b = (header (codes "TRAILER!!!") 0 0 w).buf in b ++ zeros (padding 512 (length b))

-- overlayScripts: an embedded script, where it goes, and its permissions. `read_file` is fs.ReadFile.
pub record Install : Type 0 where
  pub script : Bytes
  pub targets : List FilePath
  pub perm : ℕ

unfoldable pub add_copies : List FilePath → ℕ → Bytes → CpioWriter → CpioWriter
unfolding add_regular
add_copies [] perm body w = w
add_copies (d ∷ ds) perm body w = add_copies ds perm body (add_regular d perm body w)

unfoldable pub add_installs : (Bytes → Option Bytes) → List Install → CpioWriter → Option CpioWriter
unfolding add_copies
add_installs read_file [] w = some w
add_installs read_file (i ∷ is) w = elim (read_file i.script) [
  | none ↦ none
  | some body ↦ add_installs read_file is (add_copies i.targets i.perm body w)
]

abbrev path_of : String → FilePath
path_of s = reverse (split_clean (codes s))

abbrev pub live_installs : List Install
live_installs =
    record {
      script = codes "src/dracut/90tbox-live/parse-tbox-live.sh";
      targets =
          path_of "usr/lib/dracut/hooks/cmdline/30-parse-tbox-live.sh"
          ∷ path_of "var/lib/dracut/hooks/cmdline/30-parse-tbox-live.sh"
          ∷ [];
      perm = 0o755;
    }
    ∷ record {
      script = codes "src/dracut/90tbox-live/tbox-live-root.sh";
      targets = path_of "sbin/tbox-live-root" ∷ [];
      perm = 0o755;
    }
    ∷ record {
      script = codes "src/dracut/90tbox-live/tbox-live-generator.sh";
      targets = path_of "usr/lib/systemd/system-generators/tbox-live-generator" ∷ [];
      perm = 0o755;
    }
    ∷ record {
      script = codes "src/dracut/95tbox-root/tbox-root-mount.sh";
      targets = path_of "usr/bin/tbox-root-mount.sh" ∷ [];
      perm = 0o755;
    }
    ∷ record {
      script = codes "src/dracut/95tbox-root/tbox-root.service";
      targets = path_of "usr/lib/systemd/system/tbox-root.service" ∷ [];
      perm = 0o644;
    }
    ∷ []

abbrev add_links : CpioWriter → CpioWriter
add_links w =
    add_symlink
      (path_of "usr/lib/systemd/system/ostree-prepare-root.service.requires/tbox-root.service")
      (codes "../tbox-root.service")
      (add_symlink (path_of "usr/lib/systemd/system/initrd-root-fs.target.wants/tbox-root.service")
        (codes "../tbox-root.service") w)

unfoldable pub overlay_scripts : (Bytes → Option Bytes) → CpioWriter → Option CpioWriter
unfolding add_installs add_symlink
overlay_scripts read_file w = Option.map add_links (add_installs read_file live_installs w)

-- BuildInitrdOverlayScriptsOnly
unfoldable pub build_initrd_overlay_scripts_only : (Bytes → Option Bytes) → Option Bytes
unfolding overlay_scripts finish
build_initrd_overlay_scripts_only read_file =
    Option.map finish (overlay_scripts read_file new_cpio_writer)
