-- ===== src/Erofs/Dirents.antt =====
-- packDirents of internal/purefs/erofs.go: the payload of a directory.
pub mod Blocks
pub mod Reader
pub mod RoundTrip
use tacklebox.Common.{
  ℕ, zero, suc, ◌+◌, ◌-◌, ◌*◌, ◌/◌, ◌%◌, ◌≤◌, ◌<◌, Bytes, List, [], ◌∷◌, ◌++◌, Bool, Option, some,
  none, codes, length, before, ltb, if◌then◌else◌,
}
use tacklebox.Iso.{zeros}

abbrev pub blk_size : ℕ
blk_size = 4096

-- binary.LittleEndian.PutUint64 and PutUint16, for 8 and 2 bytes.
unfoldable pub le_bytes : ℕ → ℕ → Bytes
le_bytes zero v = []
le_bytes (suc n) v = v % 256 ∷ le_bytes n (v / 256)

-- ent
pub record Ent : Type 0 where
  pub name : Bytes
  pub nid : ℕ
  pub ft : ℕ

-- sort.Slice by name
unfoldable pub insert_ent : Ent → List Ent → List Ent
insert_ent e [] = e ∷ []
insert_ent e (f ∷ r) =
    let rest = insert_ent e r in if before e.name f.name then e ∷ (f ∷ r) else f ∷ rest

unfoldable pub sort_ents : List Ent → List Ent
unfolding insert_ent
sort_ents [] = []
sort_ents (e ∷ r) = insert_ent e (sort_ents r)

-- The entries of a directory before packing.
unfoldable pub dir_list : ℕ → ℕ → List Ent → List Ent
unfolding sort_ents
dir_list nid parent ents = sort_ents (
    record { name = codes "."; nid = nid; ft = 2 }
    ∷ record { name = codes ".."; nid = parent; ft = 2 }
    ∷ ents)

-- The inner loop: how many entries go into the block, and what is left.
unfoldable pub fitting : ℕ → List Ent → List Ent × List Ent
fitting used [] = ([], [])
fitting used (e ∷ es) =
    let need = 12 + length e.name in
    let rest = fitting (used + need) es in
    if ltb blk_size (used + need) then ([], e ∷ es) else (e ∷ rest.0, rest.1)

-- The outer loop, on fuel; `none` is a name that is too long for a block.
abbrev grouped : List Ent → Option (List (List Ent)) → Option (List (List Ent))
grouped [] rest = none
grouped (e ∷ xs) none = none
grouped (e ∷ xs) (some gs) = some ((e ∷ xs) ∷ gs)

unfoldable pub groups : ℕ → List Ent → Option (List (List Ent))
unfolding fitting
groups n [] = some []
groups zero (e ∷ es) = none
groups (suc n) (e ∷ es) = let (xs, rest) = fitting 0 (e ∷ es) in grouped xs (groups n rest)

-- The entries of a block, from the name offset of the first.
unfoldable pub ent_bytes : ℕ → Ent → Bytes
unfolding le_bytes
ent_bytes off e = le_bytes 8 e.nid ++ (le_bytes 2 off ++ (e.ft ∷ 0 ∷ []))

unfoldable pub ents_bytes : ℕ → List Ent → Bytes
unfolding ent_bytes
ents_bytes off [] = []
ents_bytes off (e ∷ es) = ent_bytes off e ++ ents_bytes (off + length e.name) es

unfoldable pub names_bytes : List Ent → Bytes
names_bytes [] = []
names_bytes (e ∷ es) = e.name ++ names_bytes es

-- The used part of a block.
unfoldable pub used_bytes : List Ent → Bytes
unfolding ents_bytes names_bytes
used_bytes xs = ents_bytes (12 * length xs) xs ++ names_bytes xs

-- blk
unfoldable pub block : List Ent → Bytes
unfolding used_bytes
block xs = used_bytes xs ++ zeros (blk_size - length (used_bytes xs))

unfoldable pub blocks_bytes : List (List Ent) → Bytes
unfolding block
blocks_bytes [] = []
blocks_bytes (g ∷ gs) = block g ++ blocks_bytes gs

-- The exact size: whole blocks but the last.
unfoldable pub blocks_size : List (List Ent) → ℕ
unfolding used_bytes
blocks_size [] = 0
blocks_size (g ∷ []) = length (used_bytes g)
blocks_size (g ∷ h ∷ gs) = blk_size + blocks_size (h ∷ gs)

abbrev pub packed : Option (List (List Ent)) → Option (Bytes × ℕ)
packed none = none
packed (some gs) = some (blocks_bytes gs, blocks_size gs)

-- packDirents
unfoldable pub pack_dirents : ℕ → ℕ → List Ent → Option (Bytes × ℕ)
unfolding dir_list groups blocks_bytes blocks_size
pack_dirents nid parent ents = let l = dir_list nid parent ents in packed (groups (length l) l)
