-- ===== src/Iso/Spans.antt =====
-- extentSpans: the pieces of a file that get a directory record each.
use tacklebox.Common.{
  ℕ, zero, suc, ◌+◌, ◌-◌, ◌*◌, ◌/◌, ◌%◌, ◌≤◌, ◌<◌, List, [], ◌∷◌, ◌≡◌, ◌⊎◌, refl, sym, subst,
  Bool-cases, inl, inr, arith, leb, ltb, if◌then◌else◌,
}

-- maxExtent: the largest multiple of the sector size below 2^32.
abbrev max_extent : ℕ
max_extent = 0xfffff800

pub record Span : Type 0 where
  pub offset : ℕ
  pub count : ℕ

-- One round of the loop.
unfoldable span_at : ℕ → ℕ → Span
span_at off size = record {
  offset = off;
  count = if ltb max_extent (size - off) then max_extent else size - off;
}

-- The loop from `off` on, on fuel.
unfoldable pub spans_from : ℕ → ℕ → ℕ → List Span
unfolding span_at
spans_from zero off size = []
spans_from (suc n) off size =
    let rest = spans_from n (off + max_extent) size in
    if ltb off size then span_at off size ∷ rest else []

unfoldable pub extent_spans : ℕ → List Span
unfolding spans_from
extent_spans size =
    if leb size max_extent
    then record { offset = 0; count = size } ∷ []
    else spans_from (suc (size / max_extent)) 0 size

-- The spans cut the bytes from `off` up to `size`: each starts at a sector's edge where the one
-- before ends, every one but the last has the largest length, and no length exceeds it.
abbrev Cuts : ℕ → ℕ → List Span → Type 0
Cuts size off [] = ⊥
Cuts size off (s ∷ []) =
    (s.offset ≡ off) × (off % 2048 ≡ 0) × (off + s.count ≡ size) × (s.count ≤ max_extent)
Cuts size off (s ∷ t ∷ r) =
    (s.offset ≡ off) × (off % 2048 ≡ 0) × (s.count ≡ max_extent) × Cuts size (off + s.count) (t ∷ r)

-- A span in front of a cutting.
Cuts-cons :
    (size off : ℕ) (s : Span) (r : List Span)
    → s.offset ≡ off
    → off % 2048 ≡ 0
    → s.count ≡ max_extent
    → Cuts size (off + s.count) r
    → Cuts size off (s ∷ r)
Cuts-cons size off s [] e a c k = absurd k
Cuts-cons size off s (t ∷ r) e a c k = (e, a, c, k)

spans_from-empty : (n off size : ℕ) → size ≤ off → spans_from n off size ≡ []
unfolding spans_from
spans_from-empty zero off size h = refl
spans_from-empty (suc n) off size h = ground arith

spans_from-cons :
    (n off size : ℕ)
    → off < size
    → spans_from (suc n) off size ≡ span_at off size ∷ spans_from n (off + max_extent) size
unfolding spans_from
spans_from-cons n off size h = ground arith

span_at-count :
    (off size : ℕ)
    → off < size
    → ((size ≤ off + max_extent) × (off + (span_at off size).count ≡ size))
      ⊎ ((off + max_extent < size) × ((span_at off size).count ≡ max_extent))
unfolding span_at
span_at-count off size h = elim (Bool-cases (ltb max_extent (size - off))) [
  | inl y ↦ inr (ground arith, ground arith)
  | inr n ↦ inl (ground arith, ground arith)
]

span_at-offset : (off size : ℕ) → (span_at off size).offset ≡ off
unfolding span_at
span_at-offset off size = refl

spans_from-Cuts :
    (n off size : ℕ)
    → off < size
    → off % 2048 ≡ 0
    → size ≤ off + n * max_extent
    → Cuts size off (spans_from n off size)
spans_from-Cuts zero off size h a k = absurd (omega (arith, h, k))
spans_from-Cuts (suc n) off size h a k =
    subst (Cuts size off) (sym (spans_from-cons n off size h)) (elim (span_at-count off size h) [
      | inl (short, whole) ↦
          rw (spans_from-empty n (off + max_extent) size short)
            (span_at-offset off size, a, whole, omega (arith, short, whole))
      | inr (long, full) ↦
          Cuts-cons size off (span_at off size) _ (span_at-offset off size) a full (
            subst (λ t. Cuts size (off + t) (spans_from n (off + max_extent) size)) (sym full)
              (spans_from-Cuts n (off + max_extent) size long (omega (arith, a))
                (omega (arith, k))))
    ])

-- Whatever its size, a file is cut into spans that start at a sector's edge, follow one another
-- without a gap from the first byte to the last, and are each at most the largest multiple of the
-- sector size below 2^32, which all but the last are.
extent_spans-Cuts : (size : ℕ) → Cuts size 0 (extent_spans size)
unfolding extent_spans
extent_spans-Cuts size = elim (Bool-cases (leb size max_extent)) [
  | inl y ↦ rw y (refl, refl, omega arith, ground arith)
  | inr n ↦
      rw n (spans_from-Cuts (suc (size / max_extent)) 0 size (ground arith) refl (omega arith))
]
