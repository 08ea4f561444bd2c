-- ===== src/Erofs/Dirents/RoundTrip.antt =====
-- packDirents of internal/purefs/erofs.go and a reader of directories by EROFS's format.
use tacklebox.Common.{
  ℕ, zero, suc, ◌+◌, ◌-◌, ◌≤◌, ◌<◌, Bytes, List, [], ◌∷◌, ◌++◌, ◌≡◌, refl, sym, ap, subst, ◌∙◌, inl,
  inr, arith, Option, some, Option-cases, length, length-append, append-nil, take, drop,
  take-append,
}
use tacklebox.Iso.{zeros}
use tacklebox.Erofs.Dirents.{
  blk_size, Ent, dir_list, groups, used_bytes, block, blocks_bytes, blocks_size, packed,
  pack_dirents,
}
use tacklebox.Erofs.Dirents.Blocks.{
  all_ents, AllFit, AreShort, groups-Grouping, groups-some, groups-le, length-names_bytes,
  length-used_bytes, length-block,
}
use tacklebox.Erofs.Dirents.Reader.{
  read_block, read_dir, AreEnts, take_append_more, take_all, drop_all, drop_names, read_block_lem,
  read_block-block,
}

-- The exact bytes of a directory.
abbrev used_dir : List (List Ent) → Bytes
used_dir [] = []
used_dir (g ∷ []) = used_bytes g
used_dir (g ∷ h ∷ gs) = block g ++ used_dir (h ∷ gs)

take-used_dir :
    (gs : List (List Ent)) → AllFit gs → take (blocks_size gs) (blocks_bytes gs) ≡ used_dir gs
unfolding blocks_size blocks_bytes block
take-used_dir [] f = refl
take-used_dir (g ∷ []) f =
    let rest = zeros (blk_size - length (used_bytes g)) in
    ap (take (length (used_bytes g))) (append-nil (used_bytes g ++ rest))
    ∙ take-append (used_bytes g) rest
take-used_dir (g ∷ h ∷ gs) f =
    ap (λ n. take (n + blocks_size (h ∷ gs)) (block g ++ blocks_bytes (h ∷ gs)))
      (sym (length-block g f.1))
    ∙ take_append_more (block g) (blocks_bytes (h ∷ gs)) (blocks_size (h ∷ gs))
    ∙ ap (λ r. block g ++ r) (take-used_dir (h ∷ gs) f.2)

read_dir_step :
    (n : ℕ) (b : Bytes)
    → 0 < length b
    → read_dir (suc n) b ≡ read_block (take blk_size b) ++ read_dir n (drop blk_size b)
unfolding read_dir
read_dir_step n [] h = absurd (omega (arith, h))
read_dir_step n (c ∷ b) h = refl

AreEnts-left : (xs ys : List Ent) → AreEnts (xs ++ ys) → AreEnts xs × AreEnts ys
AreEnts-left [] ys h = (tt, h)
AreEnts-left (x ∷ xs) ys h = let (a, b) = AreEnts-left xs ys h.2 in ((h.0, h.1, a), b)

read_dir_nil : (n : ℕ) → read_dir n [] ≡ []
unfolding read_dir
read_dir_nil zero = refl
read_dir_nil (suc n) = refl

used_pos : (g : List Ent) → 0 < length g → 0 < length (used_bytes g)
used_pos g h = omega (arith, h, length-used_bytes g, length-names_bytes g)

read_used_dir :
    (n : ℕ) (gs : List (List Ent))
    → length gs ≤ n
    → AllFit gs
    → AreEnts (all_ents gs)
    → read_dir n (used_dir gs) ≡ all_ents gs
read_used_dir n [] l f h = read_dir_nil n
read_used_dir zero (g ∷ gs) l f h = absurd (omega (arith, l))
read_used_dir (suc n) (g ∷ []) l f h =
    let small : length (used_bytes g) ≤ blk_size = omega (arith, length-used_bytes g, f.1) in
    read_dir_step n (used_bytes g) (used_pos g f.0)
    ∙ ap (λ r. read_block r ++ read_dir n (drop blk_size (used_bytes g)))
        (take_all blk_size (used_bytes g) small)
    ∙ ap (λ r. read_block (used_bytes g) ++ read_dir n r) (drop_all blk_size (used_bytes g) small)
    ∙ ap (λ r. read_block (used_bytes g) ++ r) (read_dir_nil n)
    ∙ ap (λ r. read_block r ++ []) (sym (append-nil (used_bytes g)))
    ∙ ap (λ r. r ++ []) (read_block_lem g [] f.0 f.1 (AreEnts-left g [] h).0 tt)
read_used_dir (suc n) (g ∷ k ∷ gs) l f h =
    let more = used_dir (k ∷ gs) in
    let size = length-block g f.1 in
    read_dir_step n (block g ++ more) (omega (arith, size, length-append (block g) more))
    ∙ ap (λ r. read_block r ++ read_dir n (drop blk_size (block g ++ more)))
        (ap (λ m. take m (block g ++ more)) (sym size) ∙ take-append (block g) more)
    ∙ ap (λ r. read_block (block g) ++ read_dir n r) (drop_names (block g) blk_size more size)
    ∙ ap (λ r. r ++ read_dir n more) (read_block-block g f.0 f.1 (AreEnts-left g _ h).0)
    ∙ ap (λ r. g ++ r) (read_used_dir n (k ∷ gs) (omega (arith, l)) f.2 (AreEnts-left g _ h).1)

packed_read :
    (nid parent : ℕ) (ents : List Ent) {b : Bytes} {size : ℕ}
    → AreEnts (dir_list nid parent ents)
    → pack_dirents nid parent ents ≡ some (b, size)
    → read_dir (length (dir_list nid parent ents)) (take size b) ≡ dir_list nid parent ents
unfolding pack_dirents
packed_read nid parent ents {b} {size} h p =
    let l = dir_list nid parent ents in
    elim (Option-cases (groups (length l) l)) [
      | inl q ↦ absurd (cc (subst (λ g. packed g ≡ some (b, size)) q p))
      | inr (gs, q) ↦
          let is = groups-Grouping (length l) l gs q in
          let made : ◌≡◌ {A = Option (Bytes × ℕ)} (some (blocks_bytes gs, blocks_size gs))
              (some (b, size)) =
            subst (λ g. packed g ≡ some (b, size)) q p in
          let bytes : blocks_bytes gs ≡ b = cc made in
          let sizes : blocks_size gs ≡ size = cc made in
          ap (λ r. read_dir (length l) (take size r)) (sym bytes)
          ∙ ap (λ n. read_dir (length l) (take n (blocks_bytes gs))) (sym sizes)
          ∙ ap (read_dir (length l)) (take-used_dir gs is.fit)
          ∙ read_used_dir (length l) gs (groups-le gs l is.fit is.whole) is.fit
              (subst AreEnts (sym is.whole) h)
          ∙ is.whole
    ]

-- What packDirents packs is what a reader finds: it packs the entries, and reading the payload, cut
-- at the directory's size, by blocks of 4096 bytes gives the sorted entries, those of "." and ".."
-- among them. Conditions: no name has a zero byte or more than 4084 bytes, and nids are below 2^64;
-- the reader has a unit of fuel for each entry.
pub read_dir-pack_dirents :
    (nid parent : ℕ) (ents : List Ent)
    → AreEnts (dir_list nid parent ents)
    → AreShort (dir_list nid parent ents)
    → (b : Bytes) × (size : ℕ) × (pack_dirents nid parent ents ≡ some (b, size))
      × (read_dir (length (dir_list nid parent ents)) (take size b) ≡ dir_list nid parent ents)
unfolding pack_dirents
read_dir-pack_dirents nid parent ents h short =
    let l = dir_list nid parent ents in
    let (gs, q) = groups-some (length l) l (omega arith) short in
    let p : packed (groups (length l) l) ≡ some (blocks_bytes gs, blocks_size gs) = ap packed q in
    (blocks_bytes gs, blocks_size gs, p, packed_read nid parent ents h p)
