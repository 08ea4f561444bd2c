-- ===== src/Iso/Write/Image.antt =====
-- The image that `write` of internal/purefs/iso9660.go makes of a layout.
use tacklebox.Common.{
  ℕ, ◌+◌, ◌-◌, ◌*◌, Bytes, List, [], ◌∷◌, ◌++◌, ◌≡◌, refl, sym, ap, subst, ◌∙◌, true, false, arith,
  length, length-append, ◌==◌,
}
use tacklebox.Iso.{IsoEntry, Source, refused, yields, zeros}
use tacklebox.Iso.Records.{Time}
use tacklebox.Iso.Layout.{IsoLayout, Placed}
use tacklebox.Iso.Descriptors.{primary_descriptor, boot_record, terminator, boot_catalog_of}
use tacklebox.Iso.Write.{
  SectorWriter, write_bytes, pad_to, path_table, dir_records, pack, write_dirs, went_on, copy_file,
  and_then, write_files, write_head, start,
}
use tacklebox.Iso.Write.Chunks.{
  at, at-cong, Chunk, write_chunks, FitsIn, pad_to-at, write_bytes-at, write_chunks-append,
  write_bytes-append,
}

-- The pieces: the descriptors, the path tables, the directories and the boot catalog.
abbrev pub dir_chunks : Time → List Placed → List Placed → List Chunk
dir_chunks now dirs [] = []
dir_chunks now dirs (p ∷ ps) = (p.extent, pack 0 (dir_records now dirs p)) ∷ dir_chunks now dirs ps

abbrev pub descriptors : IsoLayout → Bytes
descriptors ly = (primary_descriptor ly ++ boot_record ly) ++ terminator

abbrev pub head_chunks : IsoLayout → List Chunk
head_chunks ly =
    (16, descriptors ly)
    ∷ (ly.path_table_l, path_table true ly.dirs)
    ∷ (ly.path_table_m, path_table false ly.dirs)
    ∷ (dir_chunks ly.now ly.dirs ly.dirs ++ (ly.boot_catalog, boot_catalog_of ly) ∷ [])

-- The files' pieces.
abbrev pub content_of : Source → Bytes
content_of refused = []
content_of (yields b failed) = b

abbrev pub file_chunks : List (ℕ × IsoEntry) → List Chunk
file_chunks [] = []
file_chunks ((extent, f) ∷ fs) = (extent, content_of f.source) ∷ file_chunks fs

write_dirs-chunks :
    (now : Time) (dirs ps : List Placed) (sw : SectorWriter)
    → write_dirs now dirs ps sw ≡ write_chunks (dir_chunks now dirs ps) sw
unfolding write_dirs write_chunks
write_dirs-chunks now dirs [] sw = refl
write_dirs-chunks now dirs (p ∷ ps) sw = write_dirs-chunks now dirs ps _

three_writes :
    (a b c : Bytes)
    → write_bytes c (write_bytes b (write_bytes a (pad_to 16 start)))
      ≡ write_bytes ((a ++ b) ++ c) (pad_to 16 start)
three_writes a b c =
    let z = zeros (16 * 2048 - 0) in
    subst (λ sw. write_bytes c (write_bytes b (write_bytes a sw)) ≡ write_bytes ((a ++ b) ++ c) sw)
      (sym (pad_to-at 16 [] (omega arith)).0)
      (ap (write_bytes c) (write_bytes-append a b z) ∙ write_bytes-append (a ++ b) c z)

pub write_head-chunks : (ly : IsoLayout) → write_head ly start ≡ write_chunks (head_chunks ly) start
unfolding write_head write_chunks
write_head-chunks ly =
    let tables : SectorWriter → SectorWriter = λ sw. write_bytes (path_table false ly.dirs) (
      pad_to ly.path_table_m (write_bytes (path_table true ly.dirs) (pad_to ly.path_table_l sw))) in
    let tail : SectorWriter → SectorWriter =
      λ sw. write_bytes (boot_catalog_of ly) (pad_to ly.boot_catalog sw) in
    ap (λ sw. tail (write_dirs ly.now ly.dirs ly.dirs (tables sw)))
      (three_writes (primary_descriptor ly) (boot_record ly) terminator)
    ∙ ap tail (write_dirs-chunks ly.now ly.dirs ly.dirs _)
    ∙ sym (write_chunks-append (dir_chunks ly.now ly.dirs ly.dirs) _ _)

-- Every source gives as many bytes as were declared for it, and no error.
abbrev pub AreHonest : List (ℕ × IsoEntry) → Type 0
AreHonest [] = Unit
AreHonest ((extent, f) ∷ fs) =
    (f.source ≡ yields (content_of f.source) false)
    × (length (content_of f.source) ≡ f.size)
    × AreHonest fs

copy_file-at :
    (b out : Bytes) (size : ℕ)
    → length b ≡ size
    → copy_file (yields b false) size (at out) ≡ went_on (at (out ++ b))
unfolding copy_file
copy_file-at b out size h =
    let same : (length b == size) ≡ true = ground arith in
    rw same (ap went_on (at-cong (sym (length-append out b))))

pub write_files-chunks :
    (fs : List (ℕ × IsoEntry)) (last : ℕ) (out : Bytes)
    → AreHonest fs
    → FitsIn (length out) (file_chunks fs) last
    → write_files fs (at out) ≡ went_on (write_chunks (file_chunks fs) (at out))
unfolding write_files write_chunks
write_files-chunks [] last out h f = refl
write_files-chunks ((extent, f) ∷ fs) last out h fit =
    let b = content_of f.source in
    let padded = out ++ zeros (extent * 2048 - length out) in
    let (pad, full) = pad_to-at extent out fit.0 in
    let copied : copy_file f.source f.size (pad_to extent (at out)) ≡ went_on (at (padded ++ b)) =
      ap (copy_file f.source f.size) pad
      ∙ ap (λ s. copy_file s f.size (at padded)) h.0
      ∙ copy_file-at b padded f.size h.1 in
    let size : extent * 2048 + length b ≡ length (padded ++ b) =
      omega (arith, full, length-append padded b) in
    ap (λ c. and_then c (λ sw'. write_files fs sw')) copied
    ∙ write_files-chunks fs last (padded ++ b) h.2
        (subst (λ n. FitsIn n (file_chunks fs) last) size fit.1)
    ∙ ap (λ w. went_on (write_chunks (file_chunks fs) w))
        (sym (ap (write_bytes b) pad ∙ write_bytes-at b padded))
