-- ===== src/Erofs/Write/Succeeds.antt =====
-- WriteErofs of internal/purefs/erofs.go succeeds where nothing stands against it.
use tacklebox.Common.{
  u32, ℕ, ◌+◌, ◌^◌, ◌<◌, ◌≤◌, ltb, Bytes, List, [], ◌∷◌, ◌++◌, ◌≡◌, ◌⊎◌, refl, ap, ◌∙◌, true, false,
  Bool-cases, inl, inr, arith, some, none, length, ◌==◌,
}
use tacklebox.Oci.Rootfs.{NodeType, Node}
use tacklebox.Iso.{Source, zeros}
use tacklebox.Iso.Write.Image.{content_of}
use tacklebox.Iso.Write.Checked.{IsHonest}
use tacklebox.Erofs.Dirents.{dir_list, pack_dirents, packed, blocks_bytes, blocks_size}
use tacklebox.Erofs.Dirents.Blocks.{AreShort, groups-some}
use tacklebox.Erofs.Links.{
  Inode, Payload, ready, body, Laid, payload_by, packed_payload, dir_ents, laid_at, laid_onto,
  lay_one, lay_inodes, blocks_of, all_inodes,
}
use tacklebox.Erofs.Write.{
  file_too_large, data_of, copied, then_data, write_data, write_laid, write_erofs, too_large,
  image_head, first_data, padding,
}

-- The names of a directory fit into its blocks, and a file's body has the size of its node.
abbrev IsReadyBy : NodeType → (Bytes → Source) → Inode → Type 0
IsReadyBy NodeType.dir store i = AreShort (dir_list i.nid i.parent (dir_ents i.children))
IsReadyBy NodeType.file store i = IsHonest (store i.attrs.ref) i.attrs.size
IsReadyBy _ store i = Unit

abbrev pub AreReady : (Bytes → Source) → List Inode → Type 0
AreReady store [] = Unit
AreReady store (i ∷ is) = IsReadyBy i.attrs.kind store i × AreReady store is

-- The data of the inodes is at hand.
abbrev HasData : (Bytes → Source) → Payload → ℕ → Type 0
HasData store (ready b) size = Unit
HasData store (body ref) size = IsHonest (store ref) size

abbrev HaveData : (Bytes → Source) → List Laid → Type 0
HaveData store [] = Unit
HaveData store (l ∷ ls) = HasData store l.payload l.size × HaveData store ls

payload_by-some :
    (t : NodeType) (store : Bytes → Source) (i : Inode)
    → IsReadyBy t store i
    → (p : Payload) × (size : ℕ) × (payload_by t i ≡ some (p, size)) × HasData store p size
unfolding payload_by pack_dirents
payload_by-some NodeType.dir store i h =
    let l = dir_list i.nid i.parent (dir_ents i.children) in
    let (gs, q) = groups-some (length l) l (omega arith) h in
    (ready (blocks_bytes gs), blocks_size gs, ap (λ g. packed_payload (packed g)) q, tt)
payload_by-some NodeType.file store i h = (body i.attrs.ref, i.attrs.size, refl, h)
payload_by-some NodeType.symlink store i h = (ready i.attrs.target, length i.attrs.target, refl, tt)
payload_by-some NodeType.hardlink store i h = (ready [], 0, refl, tt)
payload_by-some NodeType.char store i h = (ready [], 0, refl, tt)
payload_by-some NodeType.block store i h = (ready [], 0, refl, tt)
payload_by-some NodeType.fifo store i h = (ready [], 0, refl, tt)

lay_inodes-some :
    (next : ℕ) (store : Bytes → Source) (is : List Inode)
    → AreReady store is
    → (ls : List Laid) × (lay_inodes next is ≡ some ls) × HaveData store ls
unfolding lay_inodes
lay_inodes-some next store [] h = ([], refl, tt)
lay_inodes-some next store (i ∷ is) h =
    let (p, size, made, has) = payload_by-some i.attrs.kind store i h.0 in
    let (ls, laid, have) = lay_inodes-some (u32 (next + blocks_of size)) store is h.1 in
    (
      laid_at next i p size ∷ ls,
      ap (λ o. lay_one next i o (λ n. lay_inodes n is)) made
          ∙ ap (laid_onto (laid_at next i p size)) laid,
      (has, have),
    )

copied-IsHonest :
    (s : Source) (size : ℕ) → IsHonest s size → (b : Bytes) × (copied s size ≡ (b, none))
copied-IsHonest s size h =
    let c = content_of s in
    let equal : (length c == size) ≡ true = ground (arith, h.1) in
    (c ++ zeros (padding (length c)), ap (λ t. copied t size) h.0 ∙ rw equal refl)

data_of-some :
    (store : Bytes → Source) (p : Payload) (size : ℕ)
    → HasData store p size
    → (b : Bytes) × (data_of store p size ≡ (b, none))
unfolding data_of
data_of-some store (ready b) size h = (_, refl)
data_of-some store (body ref) size h = copied-IsHonest (store ref) size h

write_data-some :
    (store : Bytes → Source) (ls : List Laid) (out : Bytes)
    → HaveData store ls
    → (image : Bytes) × (write_data store ls out ≡ (image, none))
unfolding write_data
write_data-some store [] out h = (out, refl)
write_data-some store (l ∷ ls) out h = elim (Bool-cases (l.size == 0)) [
  | inl y ↦ let (image, e) = write_data-some store ls out h.1 in (image, rw (y, write_data) e)
  | inr n ↦
      let (b, made) = data_of-some store l.payload l.size h.0 in
      let (image, e) = write_data-some store ls (out ++ b) h.1 in
      (image, rw (n, write_data) (ap (λ d. then_data d (write_data store ls) out) made ∙ e))
]

-- The sizes of all are below 4 GiB.
abbrev pub AreBelow : List Laid → Type 0
AreBelow [] = Unit
AreBelow (l ∷ ls) = (l.size < 2 ^ 32) × AreBelow ls

-- One of them has 4 GiB or more.
abbrev pub HasHuge : List Laid → Type 0
HasHuge [] = ⊥
HasHuge (l ∷ ls) = (2 ^ 32 ≤ l.size) ⊎ HasHuge ls

pub too_large-cases :
    (ls : List Laid) → ((too_large ls ≡ false) × AreBelow ls) ⊎ ((too_large ls ≡ true) × HasHuge ls)
unfolding too_large
too_large-cases [] = inl (refl, tt)
too_large-cases (l ∷ ls) = elim (Bool-cases (ltb 0xffffffff l.size)) [
  | inl y ↦ inr (rw y refl, inl (ground arith))
  | inr n ↦ elim (too_large-cases ls) [
    | inl (q, b) ↦ inl (rw n q, (ground arith, b))
    | inr (q, h) ↦ inr (rw n q, inr h)
  ]
]

-- Where the names of every directory have at most 4084 bytes and every file's body has the size of its node,
-- the inodes are laid out. If all of them have less than 4 GiB, WriteErofs writes an image without an error;
-- and if one has 4 GiB or more, it refuses before it writes.
pub write_erofs-some :
    (root : Node) (store : Bytes → Source) (build_time : ℕ)
    → AreReady store (all_inodes root)
    → (ls : List Laid) × (lay_inodes (first_data (all_inodes root)) (all_inodes root) ≡ some ls)
      × ((AreBelow ls × (image : Bytes) × (write_erofs root store build_time ≡ (image, none)))
          ⊎ (HasHuge ls × (write_erofs root store build_time ≡ ([], some file_too_large))))
unfolding write_erofs write_laid
write_erofs-some root store build_time h =
    let is = all_inodes root in
    let (ls, laid, have) = lay_inodes-some (first_data is) store is h in
    (
      ls,
      laid,
      elim (too_large-cases ls) [
        | inr (y, huge) ↦ inr (huge, rw (laid, y) refl)
        | inl (n, below) ↦
            let (image, e) = write_data-some store ls (image_head build_time is ls) have in
            inl (below, image, rw (laid, n) e)
      ],
    )
