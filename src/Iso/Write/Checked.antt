-- ===== src/Iso/Write/Checked.antt =====
-- WriteIso9660 of internal/purefs/iso9660.go: what a return without an error means.
use tacklebox.Common.{
  ℕ, Bytes, List, [], ◌∷◌, ◌++◌, ◌+◌, ◌≡◌, ◌⊎◌, inl, inr, refl, sym, ap, subst, ◌∙◌, true, false,
  Bool-cases, arith, Option, some, none, Option-cases, length, ◌==◌, if◌then◌else◌, Among, here,
  there,
}
use tacklebox.Iso.{IsoInput, IsoEntry, Source, refused, yields}
use tacklebox.Iso.Records.{Time}
use tacklebox.Iso.Tree.{dir, no_dirs, entry_of, add_inputs, flat_dirs}
use tacklebox.Iso.Tree.Complete.{Numbered}
use tacklebox.Iso.Layout.{IsoLayout, all_files, layout_iso}
use tacklebox.Iso.Layout.Complete.{layout_iso-placed, layout_iso-Among}
use tacklebox.Iso.Write.{
  SectorWriter, IsoError, missing_boot_image, wrong_size, Copied, stopped, went_on, and_then,
  copy_file, write_files, pad_to, write_head, start, finished, write_layout, write_iso9660,
}
use tacklebox.Iso.Write.Chunks.{Holds, AllHeld}
use tacklebox.Iso.Write.Image.{content_of, AreHonest, file_chunks}
use tacklebox.Iso.Write.Faithful.{IsImage, write_layout-placed}

-- A source gives as many bytes as were declared for it, and no error.
abbrev pub IsHonest : Source → ℕ → Type 0
IsHonest s size = (s ≡ yields (content_of s) false) × (length (content_of s) ≡ size)

Copied-cases :
    (c : Copied)
    → ((e : IsoError) × (sw : SectorWriter) × (c ≡ stopped e sw))
      ⊎ ((sw : SectorWriter) × (c ≡ went_on sw))
Copied-cases (stopped e sw) = inl (e, sw, refl)
Copied-cases (went_on sw) = inr (sw, refl)

copy_file-IsHonest :
    (s : Source) (size : ℕ) (sw : SectorWriter) {sw' : SectorWriter}
    → copy_file s size sw ≡ went_on sw'
    → IsHonest s size
unfolding copy_file
copy_file-IsHonest refused size sw h = absurd (cc h)
copy_file-IsHonest (yields b true) size sw h = absurd (cc h)
copy_file-IsHonest (yields b false) size sw {sw'} h = elim (Bool-cases (length b == size)) [
  | inl y ↦ (refl, ground arith)
  | inr n ↦
      let sw1 = record sw { out = sw.out ++ b; pos = sw.pos + length b } in
      absurd
        (cc (subst (λ t. (if t then went_on sw1 else stopped wrong_size sw1) ≡ went_on sw') n h))
]

write_files-AreHonest :
    (fs : List (ℕ × IsoEntry)) (sw : SectorWriter) {sw' : SectorWriter}
    → write_files fs sw ≡ went_on sw'
    → AreHonest fs
unfolding write_files
write_files-AreHonest [] sw h = tt
write_files-AreHonest ((extent, f) ∷ fs) sw {sw'} h =
    let rest : SectorWriter → Copied = λ sw1. write_files fs sw1 in
    elim (Copied-cases (copy_file f.source f.size (pad_to extent sw))) [
      | inl (e, sw1, q) ↦ absurd (cc (subst (λ c. and_then c rest ≡ went_on sw') q h))
      | inr (sw1, q) ↦
          let honest = copy_file-IsHonest f.source f.size (pad_to extent sw) q in
          (
            honest.0,
            honest.1,
            write_files-AreHonest fs sw1 (subst (λ c. and_then c rest ≡ went_on sw') q h),
          )
    ]

write_layout-AreHonest :
    (ly : IsoLayout) {image : Bytes}
    → write_layout ly ≡ (image, none)
    → AreHonest (all_files ly.dirs)
unfolding write_layout
write_layout-AreHonest ly {image} h =
    elim (Copied-cases (write_files (all_files ly.dirs) (write_head ly start))) [
      | inl (e, sw, q) ↦ absurd (cc (subst (λ c. finished ly.total_sectors c ≡ (image, none)) q h))
      | inr (sw, q) ↦ write_files-AreHonest (all_files ly.dirs) (write_head ly start) q
    ]

write_iso9660-layout :
    (volume_id : Bytes) (now : Time) (inputs : List IsoInput) (boot_image : Bytes) {image : Bytes}
    → write_iso9660 volume_id now inputs boot_image ≡ (image, none)
    → (ly : IsoLayout) × (layout_iso volume_id now inputs boot_image ≡ some ly)
      × (write_layout ly ≡ (image, none))
unfolding write_iso9660
write_iso9660-layout volume_id now inputs boot_image {image} h =
    let written : Option IsoLayout → Bytes × Option IsoError =
      λ o. elim o [ none ↦ ([], some missing_boot_image) | some ly ↦ write_layout ly ] in
    elim (Option-cases (layout_iso volume_id now inputs boot_image)) [
      | inl q ↦ absurd (cc (subst (λ o. written o ≡ (image, none)) q h))
      | inr (ly, q) ↦ (ly, q, subst (λ o. written o ≡ (image, none)) q h)
    ]

AreHonest-Among :
    {extent : ℕ} {f : IsoEntry} (fs : List (ℕ × IsoEntry))
    → AreHonest fs
    → Among (extent, f) fs
    → IsHonest f.source f.size
AreHonest-Among [] h a = elim a [ ]
AreHonest-Among ((e, g) ∷ fs) h (here q) = subst (λ t. IsHonest t.1.source t.1.size) q (h.0, h.1)
AreHonest-Among ((e, g) ∷ fs) h (there a) = AreHonest-Among fs h.2 a

AllHeld-Among :
    {image : Bytes} {extent : ℕ} {f : IsoEntry} (fs : List (ℕ × IsoEntry))
    → AllHeld image (file_chunks fs)
    → Among (extent, f) fs
    → Holds image extent (content_of f.source)
AllHeld-Among [] h a = elim a [ ]
AllHeld-Among {image} ((e, g) ∷ fs) h (here q) =
    subst (λ t. Holds image t.0 (content_of t.1.source)) q h.0
AllHeld-Among ((e, g) ∷ fs) h (there a) = AllHeld-Among fs h.1 a

-- A layout of inputs that is written without an error.
write_layout-IsImage :
    (volume_id : Bytes) (now : Time) (inputs : List IsoInput) (boot_image : Bytes) {ly : IsoLayout}
    → layout_iso volume_id now inputs boot_image ≡ some ly
    → AreHonest (all_files ly.dirs)
    → (image : Bytes) × (write_layout ly ≡ (image, none)) × IsImage ly image
write_layout-IsImage volume_id now inputs boot_image {ly} h honest =
    let (boot, e) = layout_iso-placed volume_id now inputs boot_image h in
    let ds = flat_dirs (add_inputs 0 inputs (dir [] [] no_dirs)) in
    subst (λ l. (image : Bytes) × (write_layout l ≡ (image, none)) × IsImage l image) e
      (write_layout-placed volume_id now boot ds
        (subst (λ l. AreHonest (all_files l.dirs)) (sym e) honest))

-- When WriteIso9660 returns no error, every input is in the image: the source gave exactly the
-- declared number of bytes and no error, and these bytes stand in the image from some sector on.
pub write_iso9660-Holds :
    (volume_id : Bytes) (now : Time) (inputs : List IsoInput) (boot_image : Bytes) {image : Bytes}
    (f : IsoInput) (id : ℕ)
    → write_iso9660 volume_id now inputs boot_image ≡ (image, none)
    → Numbered f id 0 inputs
    → IsHonest f.source f.size × ((extent : ℕ) × Holds image extent (content_of f.source))
unfolding entry_of
write_iso9660-Holds volume_id now inputs boot_image {image} f id h n =
    let (ly, laid, written) = write_iso9660-layout volume_id now inputs boot_image h in
    let honest = write_layout-AreHonest ly written in
    let (image', written', is) = write_layout-IsImage volume_id now inputs boot_image laid honest in
    let same : image' ≡ image = ap (λ t. t.0) (sym written' ∙ written) in
    let (extent, a) = layout_iso-Among volume_id now inputs boot_image f id n laid in
    (
      AreHonest-Among (all_files ly.dirs) honest a,
      (
        extent,
        subst (λ i. Holds i extent (content_of f.source)) same
            (AllHeld-Among (all_files ly.dirs) is.files a),
      ),
    )

-- WriteIso9660 writes the image when it can: when there is a layout, and the source of every file in
-- it gives the declared number of bytes and no error, it returns no error, and the image has whole
-- sectors, as many as planned, with the descriptors, path tables, directories, boot catalog and
-- contents of the files at the sectors where the layout places them.
pub write_iso9660-IsImage :
    (volume_id : Bytes) (now : Time) (inputs : List IsoInput) (boot_image : Bytes) {ly : IsoLayout}
    → layout_iso volume_id now inputs boot_image ≡ some ly
    → AreHonest (all_files ly.dirs)
    → (image : Bytes) × (write_iso9660 volume_id now inputs boot_image ≡ (image, none))
      × IsImage ly image
unfolding write_iso9660
write_iso9660-IsImage volume_id now inputs boot_image h honest =
    let (image, written, is) = write_layout-IsImage volume_id now inputs boot_image h honest in
    let written_of : Option IsoLayout → Bytes × Option IsoError =
      λ o. elim o [ none ↦ ([], some missing_boot_image) | some l ↦ write_layout l ] in
    (image, ap written_of h ∙ written, is)
