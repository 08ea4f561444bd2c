-- ===== src/Cpio/RoundTrip.antt =====
-- The overlay of internal/purefs/initrdoverlay.go, read back.
use tacklebox.Common.{
  ℕ, suc, ◌+◌, ◌^◌, ◌<◌, Bytes, List, [], ◌∷◌, ◌++◌, ◌≡◌, refl, sym, ap, ◌∙◌, true, false, Option,
  some, none, arith, codes, join, bytes_eq, length, append_assoc, append-nil, reverse, map,
}
use mathlib.Core.List.{reverse-append}
use mathlib.Core.Option
use tacklebox.Iso.{zeros}
use tacklebox.Oci.Rootfs.Paths.{split_clean}
use tacklebox.Cpio.{
  CpioWriter, add_installs, add_links, add_symlink, build_initrd_overlay_scripts_only, header,
  finish, live_installs, new_cpio_writer, overlay_scripts, path_of, padding,
}
use tacklebox.Cpio.Reader.{read_archive, then_entries}
use tacklebox.Cpio.Reader.Digits.{Fit}
use tacklebox.Cpio.Reader.Member.{encoded, front, padded, read_entry-encoded}
use tacklebox.Cpio.Log.{
  Member, encoded_log, files, AreFounded, AreValid, Describes, Describes-IsAligned, buf-header,
  read_archive-encoded_log, reported,
}
use tacklebox.Cpio.Log.Steps.{Grown, add_symlink-Grown}
use tacklebox.Cpio.Log.Installs.{
  then_Grown, cost_of, installed, has_all, most_of, Installed, AreSmall, add_installs-Installed,
}

read_archive-finish :
    (log : List Member) (w : CpioWriter)
    → Describes log w
    → suc (length log) < 2 ^ 32
    → read_archive (suc (length log)) (finish w) ≡ some (reported log [])
unfolding finish encoded zeros bytes_eq read_archive Fit
read_archive-finish log w d hl =
    let name = codes "TRAILER!!!" in
    let t = λ (i : ℕ). padded (front (suc i) name 0 0) in
    let b : (header name 0 0 w).buf ≡ encoded_log log ++ encoded (suc (length log)) name 0 [] =
      buf-header name 0 0 w (Describes-IsAligned d)
      ∙ ap (λ s. s ++ t w.ino) d.bytes
      ∙ ap (λ i. encoded_log log ++ t i) d.count
      ∙ ap (λ s. encoded_log log ++ s) (sym (append-nil (t (length log)))) in
    let z = zeros (padding 512 (length (header name 0 0 w).buf)) in
    let e = encoded (suc (length log)) name 0 [] in
    let one : suc (length log) ≡ length log + 1 = omega arith in
    ap (λ n. read_archive n (finish w)) one
    ∙ ap (λ s. read_archive (length log + 1) (s ++ z)) b
    ∙ ap (read_archive (length log + 1)) (append_assoc (encoded_log log) e z)
    ∙ read_archive-encoded_log log 1 (e ++ z) [] (omega (arith, hl)) d.valid (
        ap (then_entries (read_archive 0))
          (read_entry-encoded (suc (length log)) name 0 [] z (ground (arith, hl))))

-- The two links of the service.
abbrev links : List Member
links =
    record {
      path = path_of "usr/lib/systemd/system/initrd-root-fs.target.wants/tbox-root.service";
      mode = 0o120777;
      body = codes "../tbox-root.service";
    }
    ∷ record {
      path =
          path_of "usr/lib/systemd/system/ostree-prepare-root.service.requires/tbox-root.service";
      mode = 0o120777;
      body = codes "../tbox-root.service";
    }
    ∷ []

add_links-Grown :
    (log : List Member) (w : CpioWriter)
    → Describes log w
    → Grown (reverse links) (cost_of (map (λ m. m.path) links)) [] log (add_links w)
unfolding split_clean bytes_eq join
add_links-Grown log w d =
    let wants = path_of "usr/lib/systemd/system/initrd-root-fs.target.wants/tbox-root.service" in
    let g = add_symlink-Grown wants (codes "../tbox-root.service") log w d refl (omega arith) in
    then_Grown g (
      add_symlink-Grown
        (path_of "usr/lib/systemd/system/ostree-prepare-root.service.requires/tbox-root.service")
        (codes "../tbox-root.service") g.log (add_symlink wants (codes "../tbox-root.service") w)
        g.describes refl (omega arith))

-- What the overlay holds, and what a reader of it finds.
abbrev overlay_files : (Bytes → Option Bytes) → List Member
overlay_files read_file = installed read_file live_installs ++ links

pub record Overlay (read_file : Bytes → Option Bytes) (image : Bytes) : Type 0 where
  pub log : List Member
  pub reads : read_archive (suc (length log)) image ≡ some (reported log [])
  pub holds : files log ≡ reverse (overlay_files read_file)
  pub founded : AreFounded log

abbrev pub ReadsBack : (Bytes → Option Bytes) → Option Bytes → Type 0
ReadsBack read_file none = has_all read_file live_installs ≡ false
ReadsBack read_file (some image) =
    (has_all read_file live_installs ≡ true) × Overlay read_file image

few_members : most_of live_installs + cost_of (map (λ m. m.path) links) ≡ 47
unfolding split_clean bytes_eq
few_members = refl

done_ReadsBack :
    (read_file : Bytes → Option Bytes) (o : Option CpioWriter)
    → Installed read_file live_installs [] o
    → ReadsBack read_file (Option.map finish (Option.map add_links o))
done_ReadsBack read_file none h = h
done_ReadsBack read_file (some w) (ha, g) =
    let r = then_Grown g (add_links-Grown g.log w g.describes) in
    (
      ha,
      record {
        log = r.log;
        reads =
            read_archive-finish r.log (add_links w) r.describes (omega (arith, r.few, few_members));
        holds =
            r.new_files
            ∙ append-nil _
            ∙ sym (reverse-append (installed read_file live_installs) links);
        founded = r.describes.founded;
      },
    )

-- The overlay is made exactly when every script is there. It is then an archive that a reader of newc reads to the end:
-- the files in it are the copies of the scripts in the order of the installs, with their permissions and bodies, and the two links,
-- and the directory of each is written before it. Bodies are below 4 GiB.
pub build_initrd_overlay_scripts_only-ReadsBack :
    (read_file : Bytes → Option Bytes)
    → AreSmall read_file
    → ReadsBack read_file (build_initrd_overlay_scripts_only read_file)
unfolding build_initrd_overlay_scripts_only overlay_scripts split_clean bytes_eq join encoded_log
    AreValid AreFounded
build_initrd_overlay_scripts_only-ReadsBack read_file h =
    done_ReadsBack read_file (add_installs read_file live_installs new_cpio_writer) (
      add_installs-Installed read_file live_installs [] new_cpio_writer h
        (record { bytes = refl; count = refl; dirs = refl; valid = _; founded = _ }) refl)
