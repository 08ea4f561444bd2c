-- ===== src/Iso/Layout/Complete.antt =====
-- layoutIso of internal/purefs/iso9660.go: every directory is listed, and every input is placed.
use mathlib.Core.Option
use tacklebox.Common.{
  ℕ, zero, suc, ◌+◌, ◌/◌, ◌≤◌, Bytes, List, [], ◌∷◌, ◌++◌, ◌≡◌, inl, inr, refl, sym, ap, subst, ◌∙◌,
  some, none, Option-cases, arith, map, length, Among, here, there, Among-left, Among-right,
  Among-map,
}
use tacklebox.Iso.{IsoInput, IsoEntry, sectors}
use tacklebox.Iso.Records.{Time}
use tacklebox.Iso.Tree.{
  Dir, dir, no_dirs, entry_of, add_inputs, boot_entry, sort_dirs, FlatDir, queued, breadth_first,
  count_dir, flat_dirs,
}
use tacklebox.Iso.Tree.Complete.{
  In, file, below, Numbered, add_inputs-In, sort_entries-Among, sort_dirs-Among, count_queue,
  count_queue-append, count_queue-sort_dirs,
}
use tacklebox.Iso.Layout.{
  IsoLayout, dir_size, place_dirs, place_entries, entries_end, place_files, all_files,
  placed_layout, layout_iso,
}

-- Enough fuel lists every directory.
length-breadth_first :
    (n self : ℕ) (queue : List (ℕ × Dir))
    → count_queue queue ≤ n
    → length (breadth_first n self queue) ≡ count_queue queue
unfolding breadth_first count_dir
length-breadth_first zero self [] h = refl
length-breadth_first zero self ((p, dir name files subdirs) ∷ q) h = absurd (omega (arith, h))
length-breadth_first (suc n) self [] h = refl
length-breadth_first (suc n) self ((p, dir name files subdirs) ∷ q) h =
    let subs = map (queued self) (sort_dirs subdirs) in
    let counts =
      count_queue-append q subs
      ∙ ap (λ k. count_queue q + k) (count_queue-sort_dirs self subdirs) in
    omega (arith, counts, length-breadth_first n (suc self) (q ++ subs) (omega (arith, h, counts)))

-- The breadth-first list has each directory of the tree once: it is as long as the tree has
-- directories, so the fuel that it is given is enough.
pub length-flat_dirs : (root : Dir) → length (flat_dirs root) ≡ count_dir root
unfolding flat_dirs
length-flat_dirs root =
    length-breadth_first (count_dir root) 0 ((0, root) ∷ []) (omega arith) ∙ omega arith

breadth_first-reaches :
    (n self : ℕ) (queue : List (ℕ × Dir)) {p : ℕ} {d : Dir} {e : IsoEntry}
    → count_queue queue ≤ n
    → Among (p, d) queue
    → In e d
    → (flat : FlatDir) × Among flat (breadth_first n self queue) × Among e flat.files
unfolding breadth_first count_dir
breadth_first-reaches n self [] h a i = elim a [ ]
breadth_first-reaches zero self ((p', dir name files subdirs) ∷ q) h a i = absurd (omega (arith, h))
breadth_first-reaches (suc n) self ((p', dir name files subdirs) ∷ q) {p} {d} {e} h (there a) i =
    let subs = map (queued self) (sort_dirs subdirs) in
    let counts =
      count_queue-append q subs
      ∙ ap (λ k. count_queue q + k) (count_queue-sort_dirs self subdirs) in
    let (flat, listed, has) =
      breadth_first-reaches n (suc self) (q ++ subs) (omega (arith, h, counts))
        (Among-left q subs a) i in
    (flat, there listed, has)
breadth_first-reaches (suc n) self ((p', dir name files subdirs) ∷ q) {p} {d} {e} h (here same) i =
    elim (subst (In e) (sym (ap (λ t. t.1) same)) i) [
      | file m ↦ (_, here refl, sort_entries-Among files m)
      | below {d = d'} m i' ↦
          let subs = map (queued self) (sort_dirs subdirs) in
          let counts =
            count_queue-append q subs
            ∙ ap (λ k. count_queue q + k) (count_queue-sort_dirs self subdirs) in
          let (flat, listed, has) =
            breadth_first-reaches n (suc self) (q ++ subs) (omega (arith, h, counts))
              (Among-right q subs (Among-map (queued self) _ (sort_dirs-Among subdirs m))) i' in
          (flat, there listed, has)
    ]

place_entries-Among :
    (sector : ℕ) (fs : List IsoEntry) {e : IsoEntry}
    → Among e fs
    → (extent : ℕ) × Among (extent, e) (place_entries sector fs)
unfolding place_entries
place_entries-Among sector [] h = elim h [ ]
place_entries-Among sector (f ∷ fs) (here q) = (sector, here (ap (λ t. (sector, t)) q))
place_entries-Among sector (f ∷ fs) (there h) =
    let (extent, a) = place_entries-Among (sector + sectors f.size) fs h in (extent, there a)

all_files-Among :
    (now : Time) (sector file_sector : ℕ) (ds : List FlatDir) {d : FlatDir} {e : IsoEntry}
    → Among d ds
    → Among e d.files
    → (extent : ℕ) × Among
        (extent, e)
        (all_files (place_files file_sector (place_dirs now sector ds)))
unfolding all_files place_files place_dirs
all_files-Among now sector file_sector [] a h = elim a [ ]
all_files-Among now sector file_sector (d' ∷ ds) {d} {e} (here q) h =
    let (extent, m) =
      place_entries-Among file_sector d'.files (subst (λ t. Among e t.files) (sym q) h) in
    (extent, Among-left _ _ m)
all_files-Among now sector file_sector (d' ∷ ds) (there a) h =
    let (extent, m) =
      all_files-Among now (sector + dir_size now d' / 2048) (entries_end file_sector d'.files) ds a
        h in
    (extent, Among-right (place_entries file_sector d'.files) _ m)

-- The layout of inputs is that of the list of their directories.
pub layout_iso-placed :
    (volume_id : Bytes) (now : Time) (inputs : List IsoInput) (boot_image : Bytes) {ly : IsoLayout}
    → layout_iso volume_id now inputs boot_image ≡ some ly
    → (boot : IsoEntry) × (placed_layout volume_id now boot
          (flat_dirs (add_inputs 0 inputs (dir [] [] no_dirs)))
        ≡ ly)
unfolding layout_iso
layout_iso-placed volume_id now inputs boot_image {ly} h =
    let make : IsoEntry → IsoLayout = λ boot.
      placed_layout volume_id now boot (flat_dirs (add_inputs 0 inputs (dir [] [] no_dirs))) in
    elim (Option-cases (boot_entry 0 inputs boot_image none)) [
      | inl q ↦ absurd (cc (subst (λ o. Option.map make o ≡ some ly) q h))
      | inr (boot, q) ↦ (boot, cc (subst (λ o. Option.map make o ≡ some ly) q h))
    ]

-- Every input is placed: its entry, with the input's size and source, has a place among the files of
-- the layout. Condition: the boot image is among the inputs, so that there is a layout.
pub layout_iso-Among :
    (volume_id : Bytes) (now : Time) (inputs : List IsoInput) (boot_image : Bytes) {ly : IsoLayout}
    (f : IsoInput) (id : ℕ)
    → Numbered f id 0 inputs
    → layout_iso volume_id now inputs boot_image ≡ some ly
    → (extent : ℕ) × Among (extent, entry_of id f) (all_files ly.dirs)
unfolding placed_layout flat_dirs
layout_iso-Among volume_id now inputs boot_image {ly} f id n h =
    let root = add_inputs 0 inputs (dir [] [] no_dirs) in
    let (boot, e) = layout_iso-placed volume_id now inputs boot_image h in
    let (flat, listed, has) =
      breadth_first-reaches (count_dir root) 0 ((0, root) ∷ []) (omega arith) (here refl)
        (add_inputs-In f id 0 inputs (dir [] [] no_dirs) n) in
    subst (λ l. (extent : ℕ) × Among (extent, entry_of id f) (all_files l.dirs)) e
      (all_files-Among now _ _ (flat_dirs root) listed has)
