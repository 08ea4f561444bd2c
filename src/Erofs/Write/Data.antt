-- ===== src/Erofs/Write/Data.antt =====
-- The data blocks of internal/purefs/erofs.go.
use tacklebox.Common.{
  u32, ℕ, ◌+◌, ◌*◌, Bytes, List, [], ◌∷◌, ◌++◌, ◌≡◌, ◌⊎◌, refl, sym, ap, subst, ◌∙◌, Bool, true,
  false, Bool-cases, inl, inr, arith, Option, some, none, Option-cases, length, length-append,
  append_assoc, append-nil, ◌==◌, if◌then◌else◌,
}
use tacklebox.Oci.Rootfs.{NodeType}
use tacklebox.Iso.{Source, refused, yields, zeros}
use tacklebox.Iso.Write.Chunks.{Holds, length-zeros}
use tacklebox.Iso.Write.Image.{content_of}
use tacklebox.Iso.Write.Checked.{IsHonest}
use tacklebox.Erofs.Dirents.{
  blk_size, dir_list, Ent, groups, packed, block, blocks_bytes, blocks_size, pack_dirents,
}
use tacklebox.Erofs.Dirents.Blocks.{
  AllFit, groups-Grouping, length-block, length-used_bytes, length-names_bytes,
}
use tacklebox.Erofs.Links.{
  Inode, Payload, ready, body, Laid, payload_by, packed_payload, dir_ents, laid_at, laid_onto,
  lay_one, lay_inodes, end_block, blocks_of,
}
use tacklebox.Erofs.Write.{
  device_or_block, ErofsError, padding, data_of, then_data, write_data, copied, size_drifted,
}

-- What stands for a payload.
abbrev pub bytes_of : (Bytes → Source) → Payload → Bytes
bytes_of store (ready b) = b
bytes_of store (body ref) = content_of (store ref)

abbrev pub Given : (Bytes → Source) → Payload → ℕ → Type 0
Given store (ready b) size = Unit
Given store (body ref) size = IsHonest (store ref) size

-- The data of an inode is in the image at a block, and this modulo 2^32 is what its slot has; a file's
-- body gave the size of its node.
abbrev pub Stored : (Bytes → Source) → Bytes → Laid → Type 0
Stored store image l =
    (l.size ≡ 0)
    ⊎ ((block : ℕ) × (device_or_block l.inode.attrs.kind l ≡ u32 block)
        × Given store l.payload l.size
        × Holds image (2 * block) (bytes_of store l.payload))

abbrev pub AllStored : (Bytes → Source) → Bytes → List Laid → Type 0
AllStored store image [] = Unit
AllStored store image (l ∷ ls) = Stored store image l × AllStored store image ls

-- A payload at hand fills the blocks of its size.
abbrev pub Rounds : Payload → ℕ → Type 0
Rounds (ready b) size = length b + padding (length b) ≡ blocks_of size * blk_size
Rounds (body ref) size = Unit

-- Inodes that are laid one behind the other from a block on.
abbrev pub AreLaid : ℕ → List Laid → Type 0
AreLaid next [] = Unit
AreLaid next (l ∷ ls) =
    ((l.size ≡ 0) ⊎ (device_or_block l.inode.attrs.kind l ≡ u32 next))
    × Rounds l.payload l.size
    × AreLaid (next + blocks_of l.size) ls

-- The block behind the inodes that are laid.
unfoldable pub last_block : ℕ → List Laid → ℕ
last_block next [] = next
last_block next (l ∷ ls) = last_block (next + blocks_of l.size) ls

pub end_block-last_block :
    (n next : ℕ) (ls : List Laid) → n ≡ u32 next → end_block n ls ≡ u32 (last_block next ls)
unfolding end_block last_block
end_block-last_block n next [] h = h
end_block-last_block n next (l ∷ ls) h =
    end_block-last_block (u32 (n + blocks_of l.size)) (next + blocks_of l.size) ls
      (omega (arith, h))

length-padded :
    (b : Bytes) → length (b ++ zeros (padding (length b))) ≡ length b + padding (length b)
length-padded b =
    length-append b (zeros (padding (length b)))
    ∙ ap (λ n. length b + n) (length-zeros (padding (length b)))

padding_rounds : (n : ℕ) → n + padding n ≡ blocks_of n * blk_size
padding_rounds n = ground arith

-- The data of one inode, when it is written without an error.
pub record Written (store : Bytes → Source) (p : Payload) (size : ℕ) (b : Bytes) : Type 0 where
  pub given : Given store p size
  pub whole : b ≡ bytes_of store p ++ zeros (padding (length (bytes_of store p)))
  pub long : length b ≡ blocks_of size * blk_size

copied-IsHonest :
    (s : Source) (size : ℕ) {b : Bytes}
    → copied s size ≡ (b, none)
    → IsHonest s size × (content_of s ++ zeros (padding (length (content_of s))) ≡ b)
copied-IsHonest refused size h = absurd (cc h)
copied-IsHonest (yields c true) size h = absurd (cc h)
copied-IsHonest (yields c false) size {b} h =
    let out = c ++ zeros (padding (length c)) in
    let Made : Bool → Type 0 = λ t.
      ◌≡◌ {A = Bytes × Option ErofsError} (if t then (out, none) else (c, some size_drifted))
        (b, none) in
    elim (Bool-cases (length c == size)) [
      | inl y ↦
          let made : Made true = subst Made y h in
          let e : out ≡ b = cc made in ((refl, ground arith), e)
      | inr n ↦ let made : Made false = subst Made n h in absurd (cc made)
    ]

data_of-Written :
    (store : Bytes → Source) (p : Payload) (size : ℕ) {b : Bytes}
    → Rounds p size
    → data_of store p size ≡ (b, none)
    → Written store p size b
unfolding data_of
data_of-Written store (ready c) size {b} r h =
    let e : c ++ zeros (padding (length c)) ≡ b = cc h in
    subst (Written store (ready c) size) e
      (record { given = tt; whole = refl; long = length-padded c ∙ r })
data_of-Written store (body ref) size {b} r h =
    let (honest, e) = copied-IsHonest (store ref) size h in
    let c = content_of (store ref) in
    subst (Written store (body ref) size) e (record {
      given = honest;
      whole = refl;
      long =
          length-padded c ∙ padding_rounds (length c) ∙ ap (λ n. blocks_of n * blk_size) honest.1;
    })

-- The whole loop: what is written after `out`.
pub record Wrote (store : Bytes → Source) (next : ℕ) (ls : List Laid) (out image : Bytes)
    : Type 0 where
  pub more : Bytes
  pub splits : image ≡ out ++ more
  pub long : length image ≡ last_block next ls * blk_size
  pub stored : AllStored store image ls

then_data-none :
    (d : Bytes × Option ErofsError) (rest : Bytes → Bytes × Option ErofsError) (out : Bytes)
    {image : Bytes}
    → then_data d rest out ≡ (image, none)
    → (b : Bytes) × (d ≡ (b, none)) × (rest (out ++ b) ≡ (image, none))
then_data-none (b, none) rest out h = (b, refl, h)
then_data-none (b, some e) rest out h = absurd (cc h)

pub write_data-Wrote :
    (store : Bytes → Source) (next : ℕ) (ls : List Laid) (out : Bytes) {image : Bytes}
    → AreLaid next ls
    → length out ≡ next * blk_size
    → write_data store ls out ≡ (image, none)
    → Wrote store next ls out image
unfolding write_data last_block
write_data-Wrote store next [] out {image} a l h =
    let e : out ≡ image = cc h in
    record {
      more = [];
      splits = sym e ∙ sym (append-nil out);
      long = ap length (sym e) ∙ l;
      stored = tt;
    }
write_data-Wrote store next (l ∷ ls) out {image} a long h = elim (Bool-cases (l.size == 0)) [
  | inl y ↦
      let empty : l.size ≡ 0 = ground arith in
      let stay : next + blocks_of l.size ≡ next = omega (arith, empty) in
      let w =
        write_data-Wrote store (next + blocks_of l.size) ls out a.2 (omega (arith, stay, long)) (
          subst
            (λ t.
              (elim t [
                | true ↦ write_data store ls out
                | false ↦ then_data (data_of store l.payload l.size) (write_data store ls) out
              ])
              ≡ (image, none))
            y h) in
      record { more = w.more; splits = w.splits; long = w.long; stored = (inl empty, w.stored) }
  | inr n ↦
      let (b, d, rest) = then_data-none (data_of store l.payload l.size) (write_data store ls) out (
        subst
          (λ t.
            (elim t [
              | true ↦ write_data store ls out
              | false ↦ then_data (data_of store l.payload l.size) (write_data store ls) out
            ])
            ≡ (image, none))
          n h) in
      let one = data_of-Written store l.payload l.size a.1 d in
      let w =
        write_data-Wrote store (next + blocks_of l.size) ls (out ++ b) a.2
          (omega (arith, length-append out b, one.long, long)) rest in
      let there : device_or_block l.inode.attrs.kind l ≡ u32 next = elim a.0 [
        | inl z ↦ absurd (ground (arith, z, n))
        | inr q ↦ q
      ] in
      let pad = zeros (padding (length (bytes_of store l.payload))) in
      record {
        more = b ++ w.more;
        splits = w.splits ∙ append_assoc out b w.more;
        long = w.long;
        stored = (
          inr (
            next,
            there,
            one.given,
            record {
              before = out;
              behind = pad ++ w.more;
              splits =
                  w.splits
                  ∙ append_assoc out b w.more
                  ∙ ap (λ t. out ++ (t ++ w.more)) one.whole
                  ∙ ap (λ t. out ++ t) (append_assoc (bytes_of store l.payload) pad w.more);
              placed = omega (arith, long);
            },
          ),
          w.stored,
        );
      }
]

length-blocks_bytes :
    (gs : List (List Ent))
    → AllFit gs
    → length (blocks_bytes gs) ≡ blocks_of (blocks_size gs) * blk_size
unfolding blocks_bytes blocks_size
length-blocks_bytes [] f = refl
length-blocks_bytes (g ∷ []) f = omega (
  arith,
  ap length (append-nil (block g)),
  length-block g f.1,
  length-used_bytes g,
  length-names_bytes g,
  f.0,
  f.1,
)
length-blocks_bytes (g ∷ h ∷ gs) f = omega (
  arith,
  length-append (block g) (blocks_bytes (h ∷ gs)),
  length-block g f.1,
  length-blocks_bytes (h ∷ gs) f.2,
)

padding_multiple : (k : ℕ) → padding (k * blk_size) ≡ 0
padding_multiple k = ground arith

pack_dirents-Rounds :
    (nid parent : ℕ) (ents : List Ent) {b : Bytes} {size : ℕ}
    → pack_dirents nid parent ents ≡ some (b, size)
    → Rounds (ready b) size
unfolding pack_dirents
pack_dirents-Rounds nid parent ents {b} {size} p =
    let l = dir_list nid parent ents in
    elim (Option-cases (groups (length l) l)) [
      | inl q ↦ absurd (cc (subst (λ g. packed g ≡ some (b, size)) q p))
      | inr (gs, q) ↦
          let made : ◌≡◌ {A = Option (Bytes × ℕ)} (some (blocks_bytes gs, blocks_size gs))
              (some (b, size)) =
            subst (λ g. packed g ≡ some (b, size)) q p in
          let bytes : blocks_bytes gs ≡ b = cc made in
          let sizes : blocks_size gs ≡ size = cc made in
          let long = length-blocks_bytes gs (groups-Grouping (length l) l gs q).fit in
          let pad : padding (length (blocks_bytes gs)) ≡ 0 =
            ap padding long ∙ padding_multiple (blocks_of (blocks_size gs)) in
          subst (λ c. Rounds (ready c) size) bytes
            (subst (λ n. Rounds (ready (blocks_bytes gs)) n) sizes (omega (arith, long, pad)))
    ]

nothing_Rounds :
    {p : Payload} {size : ℕ}
    → ◌≡◌ {A = Option (Payload × ℕ)} (some (ready [], 0)) (some (p, size))
    → Rounds p size
nothing_Rounds {p} {size} h =
    let e : ready [] ≡ p = cc h in
    let e' : 0 ≡ size = cc h in subst (λ c. Rounds c size) e (subst (Rounds (ready [])) e' refl)

payload_by-Rounds :
    (t : NodeType) (i : Inode) {p : Payload} {size : ℕ}
    → payload_by t i ≡ some (p, size)
    → Rounds p size
unfolding payload_by
payload_by-Rounds NodeType.dir i {p} {size} h =
    let o = pack_dirents i.nid i.parent (dir_ents i.children) in
    elim (Option-cases o) [
      | inl q ↦ absurd (cc (subst (λ g. packed_payload g ≡ some (p, size)) q h))
      | inr ((b, n), q) ↦
          let made : ◌≡◌ {A = Option (Payload × ℕ)} (some (ready b, n)) (some (p, size)) =
            subst (λ g. packed_payload g ≡ some (p, size)) q h in
          let e : ready b ≡ p = cc made in
          let e' : n ≡ size = cc made in
          subst (λ c. Rounds c size) e
            (subst (Rounds (ready b)) e'
              (pack_dirents-Rounds i.nid i.parent (dir_ents i.children) q))
    ]
payload_by-Rounds NodeType.file i {p} {size} h =
    let e : body i.attrs.ref ≡ p = cc h in subst (λ c. Rounds c size) e tt
payload_by-Rounds NodeType.symlink i {p} {size} h =
    let e : ready i.attrs.target ≡ p = cc h in
    let e' : length i.attrs.target ≡ size = cc h in
    subst (λ c. Rounds c size) e
      (subst (Rounds (ready i.attrs.target)) e' (padding_rounds (length i.attrs.target)))
payload_by-Rounds NodeType.hardlink i h = nothing_Rounds h
payload_by-Rounds NodeType.char i h = nothing_Rounds h
payload_by-Rounds NodeType.block i h = nothing_Rounds h
payload_by-Rounds NodeType.fifo i h = nothing_Rounds h

pub lay_one-some :
    (next : ℕ) (i : Inode) (o : Option (Payload × ℕ)) (rest : ℕ → Option (List Laid))
    {ls : List Laid}
    → lay_one next i o rest ≡ some ls
    → (p : Payload) × (size : ℕ) × (hs : List Laid) × (o ≡ some (p, size))
      × (rest (u32 (next + blocks_of size)) ≡ some hs)
      × (laid_at next i p size ∷ hs ≡ ls)
lay_one-some next i none rest h = absurd (cc h)
lay_one-some next i (some (p, size)) rest {ls} h =
    elim (Option-cases (rest (u32 (next + blocks_of size)))) [
      | inl q ↦ absurd (cc (subst (λ r. laid_onto (laid_at next i p size) r ≡ some ls) q h))
      | inr (hs, q) ↦
          let made : some (laid_at next i p size ∷ hs) ≡ some ls =
            subst (λ r. laid_onto (laid_at next i p size) r ≡ some ls) q h in
          (p, size, hs, refl, q, cc made)
    ]

laid_at-place :
    (next : ℕ) (i : Inode) (p : Payload) (size : ℕ)
    → (size ≡ 0) ⊎ ((laid_at next i p size).blk_addr ≡ next)
laid_at-place next i p size = elim (Bool-cases (size == 0)) [
  | inl y ↦ inl (ground arith)
  | inr n ↦ inr (rw n refl)
]

nothing_size :
    {p : Payload} {size : ℕ}
    → ◌≡◌ {A = Option (Payload × ℕ)} (some (ready [], 0)) (some (p, size))
    → size ≡ 0
nothing_size {p} {size} h = let e : 0 ≡ size = cc h in sym e

-- Where an inode has a size, its slot has its block.
laid_at-slot :
    (t : NodeType) (next : ℕ) (i : Inode) (p : Payload) (size : ℕ)
    → payload_by t i ≡ some (p, size)
    → (size ≡ 0) ⊎ (device_or_block t (laid_at next i p size) ≡ next)
unfolding payload_by device_or_block
laid_at-slot NodeType.dir next i p size h = laid_at-place next i p size
laid_at-slot NodeType.file next i p size h = laid_at-place next i p size
laid_at-slot NodeType.symlink next i p size h = laid_at-place next i p size
laid_at-slot NodeType.hardlink next i p size h = inl (nothing_size h)
laid_at-slot NodeType.char next i p size h = inl (nothing_size h)
laid_at-slot NodeType.block next i p size h = inl (nothing_size h)
laid_at-slot NodeType.fifo next i p size h = inl (nothing_size h)

pub lay_inodes-AreLaid :
    (n next : ℕ) (is : List Inode) {ls : List Laid}
    → n ≡ u32 next
    → lay_inodes n is ≡ some ls
    → AreLaid next ls
unfolding lay_inodes
lay_inodes-AreLaid n next [] {ls} m h = let e : [] ≡ ls = cc h in subst (AreLaid next) e tt
lay_inodes-AreLaid n next (i ∷ is) {ls} m h =
    let (p, size, hs, o, rest, made) =
      lay_one-some n i (payload_by i.attrs.kind i) (λ n. lay_inodes n is) h in
    subst (AreLaid next) made (
      subst (λ z. (size ≡ 0) ⊎ (device_or_block i.attrs.kind (laid_at n i p size) ≡ z)) m
          (laid_at-slot i.attrs.kind n i p size o),
      payload_by-Rounds i.attrs.kind i o,
      lay_inodes-AreLaid (u32 (n + blocks_of size)) (next + blocks_of size) is (omega (arith, m))
          rest,
    )
