-- ===== src/Iso/Layout/Sizes.antt =====
-- The two passes over a directory's records in internal/purefs/iso9660.go: sizing and writing.
use tacklebox.Common.{
  ℕ, suc, ◌+◌, ◌-◌, ◌%◌, Bytes, List, [], ◌∷◌, ◌++◌, ◌≡◌, refl, sym, subst, ◌∙◌, Bool, true, false,
  Bool-cases, inl, inr, arith, length, length-append, ltb, if◌then◌else◌,
}
use tacklebox.Iso.{IsoEntry, zeros, sectors}
use tacklebox.Iso.Spans.{Span, extent_spans}
use tacklebox.Iso.Records.{Time, Dot, regular, self, parent, dir_record}
use tacklebox.Iso.Records.Length.{length-dir_record}
use tacklebox.Iso.Layout.{
  Placed, dot_name, sizing_spans, sizing_files, sizing_subdirs, sizing_records, content_len,
  place_entries,
}
use tacklebox.Iso.Write.{span_records, file_records, subdir_records, dir_records, pack}
use tacklebox.Iso.Write.Chunks.{length-zeros}

-- Records that are alike in their lengths.
abbrev SameLengths : List Bytes → List Bytes → Type 0
SameLengths [] [] = Unit
SameLengths (x ∷ xs) (y ∷ ys) = (length x ≡ length y) × SameLengths xs ys
SameLengths _ _ = ⊥

content_len-cong :
    (used s : ℕ) (xs ys : List Bytes)
    → SameLengths xs ys
    → content_len used s xs ≡ content_len used s ys
unfolding content_len
content_len-cong used s [] [] h = refl
content_len-cong used s (x ∷ xs) (y ∷ ys) h =
    subst
      (λ n. content_len used s (x ∷ xs) ≡ (
        if ltb 2048 (s + n)
        then content_len (used + (2048 - s) + n) (n % 2048) ys
        else content_len (used + n) ((s + n) % 2048) ys))
      h.0
      (elim (Bool-cases (ltb 2048 (s + length x))) [
        | inl y ↦ rw y (content_len-cong (used + (2048 - s) + length x) (length x % 2048) xs ys h.1)
        | inr n ↦ rw n (content_len-cong (used + length x) ((s + length x) % 2048) xs ys h.1)
      ])
content_len-cong used s [] (y ∷ ys) h = elim h [ ]
content_len-cong used s (x ∷ xs) [] h = elim h [ ]

content_len-pack :
    (used s : ℕ) (rs : List Bytes) → content_len used s rs ≡ used + length (pack s rs)
unfolding content_len pack
content_len-pack used s [] = omega arith
content_len-pack used s (r ∷ rs) = elim (Bool-cases (ltb 2048 (s + length r))) [
  | inl y ↦ rw y (
      content_len-pack (used + (2048 - s) + length r) (length r % 2048) rs
      ∙ omega (
        arith,
        length-append (zeros (2048 - s)) (r ++ pack (length r % 2048) rs),
        length-append r (pack (length r % 2048) rs),
        length-zeros (2048 - s),
      ))
  | inr n ↦ rw n (
      content_len-pack (used + length r) ((s + length r) % 2048) rs
      ∙ omega (arith, length-append r (pack ((s + length r) % 2048) rs)))
]

dir_record-alike :
    (now : Time) (name : Bytes) (e e' n n' : ℕ) (is_dir : Bool) (dot : Dot) (m m' : Bool)
    → length (dir_record now name e n is_dir dot m)
      ≡ length (dir_record now name e' n' is_dir dot m')
dir_record-alike now name e e' n n' is_dir dot m m' =
    length-dir_record now name e n is_dir dot m
    ∙ sym (length-dir_record now name e' n' is_dir dot m')

spans-alike :
    (now : Time) (extent : ℕ) (name : Bytes) (ss : List Span) (xs ys : List Bytes)
    → SameLengths xs ys
    → SameLengths (sizing_spans now name ss xs) (span_records now extent name ss ys)
unfolding sizing_spans span_records
spans-alike now extent name [] xs ys h = h
spans-alike now extent name (s ∷ ss) xs ys h =
    (dir_record-alike now name _ _ _ _ false regular _ _, spans-alike now extent name ss xs ys h)

files-alike :
    (now : Time) (sector : ℕ) (fs : List IsoEntry)
    → SameLengths (sizing_files now fs) (file_records now (place_entries sector fs))
unfolding sizing_files file_records place_entries
files-alike now sector [] = tt
files-alike now sector (f ∷ fs) =
    spans-alike now sector f.name (extent_spans f.size) _ _
      (files-alike now (sector + sectors f.size) fs)

subdirs-alike :
    (now : Time) (dirs : List Placed) (n : ℕ) (names : List Bytes) (xs ys : List Bytes)
    → SameLengths xs ys
    → SameLengths (sizing_subdirs now names xs) (subdir_records now dirs n names ys)
unfolding sizing_subdirs subdir_records
subdirs-alike now dirs n [] xs ys h = h
subdirs-alike now dirs n (name ∷ names) xs ys h = (
  dir_record-alike now name _ _ _ _ true regular _ _,
  subdirs-alike now dirs (suc n) names xs ys h,
)

-- Sizing and writing never disagree: what is written for a directory whose files are in their places
-- is as long as the sizing pass found, whatever the places are.
pub length-pack-dir_records :
    (now : Time) (dirs : List Placed) (p : Placed) (sector : ℕ)
    → p.files ≡ place_entries sector p.flat.files
    → length (pack 0 (dir_records now dirs p)) ≡ content_len 0 0 (sizing_records now p.flat)
unfolding dir_records sizing_records
length-pack-dir_records now dirs p sector e =
    let records = dir_records now dirs p in
    let alike : SameLengths (sizing_records now p.flat) records = (
      dir_record-alike now (dot_name p.flat.is_root) _ _ _ _ true self _ _,
      (
        dir_record-alike now [] _ _ _ _ true parent _ _,
        subdirs-alike now dirs p.flat.first_child p.flat.subdirs _ _ (
            subst (λ fs. SameLengths (sizing_files now p.flat.files) (file_records now fs)) (sym e)
              (files-alike now sector p.flat.files)),
      ),
    ) in
    sym (content_len-cong 0 0 _ records alike ∙ content_len-pack 0 0 records ∙ omega arith)
