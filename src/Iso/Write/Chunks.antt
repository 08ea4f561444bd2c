-- ===== src/Iso/Write/Chunks.antt =====
-- Writing pieces at their sectors, by sectorWriter of internal/purefs/iso9660.go.
use tacklebox.Common.{
  ℕ, zero, suc, ◌+◌, ◌-◌, ◌*◌, ◌≤◌, Bytes, List, [], ◌∷◌, ◌++◌, ◌≡◌, refl, sym, ap, subst, ◌∙◌,
  false, arith, none, length, length-append, append_assoc, append-nil, ltb,
}
use tacklebox.Iso.{zeros}
use tacklebox.Iso.Write.{SectorWriter, write_bytes, pad_to}

-- A writer without an error that has taken these bytes.
abbrev pub at : Bytes → SectorWriter
at out = record { out = out; pos = length out; err = none }

abbrev pub Chunk : Type 0
Chunk = ℕ × Bytes

unfoldable pub write_chunks : List Chunk → SectorWriter → SectorWriter
write_chunks [] sw = sw
write_chunks ((s, b) ∷ cs) sw = write_chunks cs (write_bytes b (pad_to s sw))

-- From a position on, the pieces follow one another up to a sector.
abbrev pub FitsIn : ℕ → List Chunk → ℕ → Type 0
FitsIn pos [] last = pos ≤ last * 2048
FitsIn pos ((s, b) ∷ cs) last = (pos ≤ s * 2048) × FitsIn (s * 2048 + length b) cs last

-- The bytes are found at the sector.
pub record Holds (out : Bytes) (sector : ℕ) (b : Bytes) : Type 0 where
  pub before : Bytes
  pub behind : Bytes
  pub splits : out ≡ before ++ (b ++ behind)
  pub placed : length before ≡ sector * 2048

abbrev pub AllHeld : Bytes → List Chunk → Type 0
AllHeld out [] = Unit
AllHeld out ((s, b) ∷ cs) = Holds out s b × AllHeld out cs

pub length-zeros : (n : ℕ) → length (zeros n) ≡ n
unfolding zeros
length-zeros zero = omega arith
length-zeros (suc n) = omega (arith, length-zeros n)

pub at-cong :
    {out : Bytes} {pos : ℕ}
    → pos ≡ length out
    → record { out = out; pos = pos; err = none } ≡ at out
at-cong {out} e = ap (λ p. record { out = out; pos = p; err = none }) e

pub pad_to-at :
    (s : ℕ) (out : Bytes)
    → length out ≤ s * 2048
    → (pad_to s (at out) ≡ at (out ++ zeros (s * 2048 - length out)))
      × (length (out ++ zeros (s * 2048 - length out)) ≡ s * 2048)
unfolding pad_to
pad_to-at s out h =
    let full : length (out ++ zeros (s * 2048 - length out)) ≡ s * 2048 = omega (
      arith,
      h,
      length-append out (zeros (s * 2048 - length out)),
      length-zeros (s * 2048 - length out),
    ) in
    let small : ltb (s * 2048) (length out) ≡ false = ground (arith, h) in
    (rw small (at-cong (sym full)), full)

pub write_bytes-at : (b out : Bytes) → write_bytes b (at out) ≡ at (out ++ b)
unfolding write_bytes
write_bytes-at b out = at-cong (sym (length-append out b))

Holds-append : (out b more : Bytes) (s : ℕ) → Holds out s b → Holds (out ++ more) s b
Holds-append out b more s h = record {
  before = h.before;
  behind = h.behind ++ more;
  splits =
      ap (λ t. t ++ more) h.splits
      ∙ append_assoc h.before (b ++ h.behind) more
      ∙ ap (λ t. h.before ++ t) (append_assoc b h.behind more);
  placed = h.placed;
}

-- What writing pieces leads to: everything written before stays, and all pieces are found.
pub record Wrote (out : Bytes) (cs : List Chunk) (last : ℕ) (sw : SectorWriter) : Type 0 where
  pub more : Bytes
  pub clean : sw ≡ at (out ++ more)
  pub bound : length (out ++ more) ≤ last * 2048
  pub held : AllHeld (out ++ more) cs

pub write_chunks-Wrote :
    (cs : List Chunk) (last : ℕ) (out : Bytes)
    → FitsIn (length out) cs last
    → Wrote out cs last (write_chunks cs (at out))
unfolding write_chunks
write_chunks-Wrote [] last out f = record {
  more = [];
  clean = ap at (sym (append-nil out));
  bound = rw append-nil f;
  held = tt;
}
write_chunks-Wrote ((s, b) ∷ cs) last out f =
    let z = zeros (s * 2048 - length out) in
    let (padded, full) = pad_to-at s out f.0 in
    let step : write_bytes b (pad_to s (at out)) ≡ at ((out ++ z) ++ b) =
      ap (write_bytes b) padded ∙ write_bytes-at b (out ++ z) in
    let size : s * 2048 + length b ≡ length ((out ++ z) ++ b) =
      omega (arith, full, length-append (out ++ z) b) in
    let rest =
      write_chunks-Wrote cs last ((out ++ z) ++ b) (subst (λ n. FitsIn n cs last) size f.1) in
    let e : ((out ++ z) ++ b) ++ rest.more ≡ out ++ (z ++ (b ++ rest.more)) =
      append_assoc (out ++ z) b rest.more ∙ append_assoc out z (b ++ rest.more) in
    record {
      more = z ++ (b ++ rest.more);
      clean = ap (write_chunks cs) step ∙ rest.clean ∙ ap at e;
      bound = subst (λ t. length t ≤ last * 2048) e rest.bound;
      held = (
        record {
          before = out ++ z;
          behind = rest.more;
          splits = sym (append_assoc out z (b ++ rest.more));
          placed = full;
        },
        subst (λ t. AllHeld t cs) e rest.held,
      );
    }

pub FitsIn-le : (p q : ℕ) (cs : List Chunk) (last : ℕ) → p ≤ q → FitsIn q cs last → FitsIn p cs last
FitsIn-le p q [] last h f = omega (arith, h, f)
FitsIn-le p q ((s, b) ∷ cs) last h f = (omega (arith, h, f.0), f.1)

pub FitsIn-append :
    (pos : ℕ) (xs ys : List Chunk) (middle last : ℕ)
    → FitsIn pos xs middle
    → FitsIn (middle * 2048) ys last
    → FitsIn pos (xs ++ ys) last
FitsIn-append pos [] ys middle last f g = FitsIn-le pos (middle * 2048) ys last f g
FitsIn-append pos ((s, b) ∷ xs) ys middle last f g =
    (f.0, FitsIn-append (s * 2048 + length b) xs ys middle last f.1 g)

pub AllHeld-append :
    (out more : Bytes) (cs : List Chunk) → AllHeld out cs → AllHeld (out ++ more) cs
AllHeld-append out more [] h = tt
AllHeld-append out more ((s, b) ∷ cs) h =
    (Holds-append out b more s h.0, AllHeld-append out more cs h.1)

pub AllHeld-parts :
    (out : Bytes) (xs ys : List Chunk) → AllHeld out (xs ++ ys) → AllHeld out xs × AllHeld out ys
AllHeld-parts out [] ys h = (tt, h)
AllHeld-parts out ((s, b) ∷ xs) ys h =
    let (left, right) = AllHeld-parts out xs ys h.1 in ((h.0, left), right)

pub write_chunks-append :
    (xs ys : List Chunk) (sw : SectorWriter)
    → write_chunks (xs ++ ys) sw ≡ write_chunks ys (write_chunks xs sw)
unfolding write_chunks
write_chunks-append [] ys sw = refl
write_chunks-append ((s, b) ∷ xs) ys sw = write_chunks-append xs ys _

-- Two writes one behind the other are one.
pub write_bytes-append :
    (a b out : Bytes) → write_bytes b (write_bytes a (at out)) ≡ write_bytes (a ++ b) (at out)
write_bytes-append a b out =
    ap (write_bytes b) (write_bytes-at a out)
    ∙ write_bytes-at b (out ++ a)
    ∙ ap at (append_assoc out a b)
    ∙ sym (write_bytes-at (a ++ b) out)
