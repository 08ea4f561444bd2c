-- ===== src/Cpio/Reader/Member.antt =====
-- A member as internal/purefs/initrdoverlay.go writes it, read back.
use tacklebox.Common.{
  ℕ, suc, ◌+◌, ◌%◌, Bytes, List, [], ◌∷◌, ◌++◌, ◌≡◌, refl, sym, ap, ◌∙◌, some, arith, codes,
  cut_prefix, cut_prefix-append, length, length-append, append_assoc,
}
use tacklebox.Iso.{zeros}
use tacklebox.Iso.Write.Chunks.{length-zeros}
use tacklebox.Cpio.{joined_fields, padding}
use tacklebox.Cpio.Aligned.{length-padded4}
use tacklebox.Cpio.Reader.{
  before_byte, cut, without_zero, read_member, by_fields, behind_fields, behind_magic, read_entry,
}
use tacklebox.Cpio.Reader.Digits.{Fit, read_numbers-joined_fields, length-joined_fields}

cut-append : (a b : Bytes) → cut (length a) (a ++ b) ≡ some (a, b)
unfolding cut
cut-append [] b = refl
cut-append (c ∷ a) b = ap (before_byte c) (cut-append a b)

cut-zeros : (n : ℕ) (b : Bytes) → cut n (zeros n ++ b) ≡ some (zeros n, b)
cut-zeros n b = ap (λ m. cut m (zeros n ++ b)) (sym (length-zeros n)) ∙ cut-append (zeros n) b

without_zero-append : (a : Bytes) (c : ℕ) → without_zero (a ++ c ∷ []) ≡ a
unfolding without_zero
without_zero-append [] c = refl
without_zero-append (d ∷ []) c = refl
without_zero-append (d ∷ e ∷ a) c = ap (λ t. d ∷ t) (without_zero-append (e ∷ a) c)

-- The fields of a header, with the number of the member.
abbrev pub fields : ℕ → Bytes → ℕ → ℕ → List ℕ
fields i name mode size =
    i ∷ mode ∷ 0 ∷ 0 ∷ 1 ∷ 0 ∷ size ∷ 0 ∷ 0 ∷ 0 ∷ 0 ∷ suc (length name) ∷ 0 ∷ []

unfoldable pub front : ℕ → Bytes → ℕ → ℕ → Bytes
front i name mode size =
    (codes "070701" ++ joined_fields (fields i name mode size)) ++ (name ++ 0 ∷ [])

length-front :
    (i : ℕ) (name : Bytes) (mode size : ℕ)
    → Fit (fields i name mode size)
    → length (front i name mode size) ≡ 110 + suc (length name)
unfolding front
length-front i name mode size h =
    let fs = fields i name mode size in
    omega (
      arith,
      length-append (codes "070701" ++ joined_fields fs) (name ++ 0 ∷ []),
      length-append (codes "070701") (joined_fields fs),
      length-joined_fields fs h,
      length-append name (0 ∷ []),
    )

-- A member: its front and its body, each padded to four bytes.
abbrev pub padded : Bytes → Bytes
padded b = b ++ zeros (padding 4 (length b))

unfoldable pub encoded : ℕ → Bytes → ℕ → Bytes → Bytes
unfolding front
encoded i name mode body = padded (front i name mode (length body)) ++ padded body

regroup :
    (m f n z b y rest : Bytes)
    → ((((m ++ f) ++ n) ++ z) ++ (b ++ y)) ++ rest ≡ m ++ (f ++ (n ++ (z ++ (b ++ (y ++ rest)))))
regroup m f n z b y rest = simp append_assoc

cut-name :
    (name b : Bytes) → cut (suc (length name)) ((name ++ 0 ∷ []) ++ b) ≡ some (name ++ 0 ∷ [], b)
cut-name name b =
    ap (λ m. cut m ((name ++ 0 ∷ []) ++ b)) (omega (arith, length-append name (0 ∷ [])))
    ∙ cut-append (name ++ 0 ∷ []) b

read_member-parts :
    (name : Bytes) (mode : ℕ) (body rest : Bytes)
    → read_member mode (length body) (suc (length name)) (
        (name ++ 0 ∷ [])
        ++ (zeros (padding 4 (110 + suc (length name)))
            ++ (body ++ (zeros (padding 4 (length body)) ++ rest))))
      ≡ some (record { name = name; mode = mode; body = body }, rest)
read_member-parts name mode body rest =
    let p = padding 4 (110 + suc (length name)) in
    let tail = zeros (padding 4 (length body)) ++ rest in
    rw
      (
        cut-name name (zeros p ++ (body ++ tail)),
        cut-zeros p (body ++ tail),
        cut-append body tail,
        cut-zeros (padding 4 (length body)) rest,
        without_zero-append name 0,
      )
      refl

-- What was written is read, whatever is behind it.
pub read_entry-encoded :
    (i : ℕ) (name : Bytes) (mode : ℕ) (body rest : Bytes)
    → Fit (fields i name mode (length body))
    → read_entry (encoded i name mode body ++ rest)
      ≡ some (record { name = name; mode = mode; body = body }, rest)
unfolding read_entry encoded front
read_entry-encoded i name mode body rest h =
    let fs = fields i name mode (length body) in
    let full = name ++ 0 ∷ [] in
    let behind = body ++ (zeros (padding 4 (length body)) ++ rest) in
    let gap = λ (k : ℕ). full ++ (zeros (padding 4 k) ++ behind) in
    ap (λ s. behind_magic (cut_prefix s (codes "070701")))
      (regroup (codes "070701") (joined_fields fs) full _ body _ rest)
    ∙ ap behind_magic (
        cut_prefix-append (codes "070701")
          (joined_fields fs ++ gap (length (front i name mode (length body)))))
    ∙ ap behind_fields
        (read_numbers-joined_fields fs (gap (length (front i name mode (length body)))) h)
    ∙ ap (λ k. by_fields fs (gap k)) (length-front i name mode (length body) h)
    ∙ read_member-parts name mode body rest

pub length-encoded :
    (i : ℕ) (name : Bytes) (mode : ℕ) (body : Bytes) → length (encoded i name mode body) % 4 ≡ 0
unfolding encoded
length-encoded i name mode body =
    let a = front i name mode (length body) in
    omega (arith, length-append (padded a) (padded body), length-padded4 a, length-padded4 body)
