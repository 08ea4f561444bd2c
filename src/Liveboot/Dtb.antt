-- ===== src/Liveboot/Dtb.antt =====
-- cstring and rootCompatible of internal/liveboot/board.go.
pub mod Fine
use tacklebox.Common.{
  ℕ, zero, suc, ◌+◌, ◌-◌, ◌*◌, ◌/◌, ◌%◌, Bytes, List, [], ◌∷◌, ◌++◌, Bool, true, false, not, ◌&&◌,
  ◌||◌, codes, length, min, bytes_eq, leb, ltb, ◌==◌, if◌then◌else◌,
}
use tacklebox.Liveboot.Outcome.{
  Outcome, ok, err, panics, stuck, bind, refuse_if, choose, slice, be32,
}

-- bytes.IndexByte(b, 0), and the text before it; `err` if there is none.
unfoldable pub text_before_zero : Bytes → Outcome Bytes
text_before_zero [] = err
text_before_zero (c ∷ s) =
    let rest = text_before_zero s in choose (c == 0) (ok []) (bind rest (λ t. ok (c ∷ t)))

-- cstring
unfoldable pub cstring : Bytes → ℕ → Outcome Bytes
unfolding slice text_before_zero
cstring bytes offset =
    refuse_if (leb (length bytes) offset)
      (bind (slice offset (min (offset + 256) (length bytes)) bytes) text_before_zero)

-- The words of the header.
pub record Header : Type 0 where
  pub total : ℕ
  pub structure : ℕ
  pub strings_offset : ℕ
  pub strings_size : ℕ
  pub structure_size : ℕ

-- The spans that the header gives are not within the bytes.
abbrev is_outside : Bytes → Header → Bool
is_outside bytes h =
    ltb (length bytes) h.total
    || (ltb h.total 40
        || (ltb h.structure 40
            || (not (h.structure % 4 == 0)
                || (not (h.structure_size % 4 == 0)
                    || (ltb h.strings_offset (h.structure + h.structure_size)
                        || (ltb h.strings_offset 40
                            || (ltb h.total (h.structure + h.structure_size)
                                || ltb h.total (h.strings_offset + h.strings_size))))))))

unfoldable pub read_header : Bytes → Outcome Header
unfolding be32
read_header bytes = bind (be32 bytes 4) (λ total. bind (be32 bytes 8) (λ structure.
    bind (be32 bytes 12) (λ strings_offset. bind (be32 bytes 32) (λ strings_size.
      bind (be32 bytes 36) (λ structure_size. ok (record {
        total = total;
        structure = structure;
        strings_offset = strings_offset;
        strings_size = strings_size;
        structure_size = structure_size;
      }))))))

-- &^ 3 on a sum that was rounded up
abbrev align4 : ℕ → ℕ
align4 n = (n + 3) / 4 * 4

-- The loop over the texts of a value, on fuel.
unfoldable pub texts_of : ℕ → Bytes → ℕ → List Bytes → Outcome (List Bytes)
unfolding cstring
texts_of zero value offset compatible = choose (ltb offset (length value)) stuck (ok compatible)
texts_of (suc n) value offset compatible =
    let next : Bytes → Outcome (List Bytes) = λ v.
      refuse_if (bytes_eq v []) (texts_of n value (offset + length v + 1) (compatible ++ v ∷ [])) in
    choose (ltb offset (length value))
      (refuse_if (leb 32 (length compatible)) (bind (cstring value offset) next)) (ok compatible)

-- value[len(value)-1] != 0
unfoldable last_not_zero : Bytes → Bool
last_not_zero [] = true
last_not_zero (c ∷ []) = not (c == 0)
last_not_zero (c ∷ d ∷ s) = last_not_zero (d ∷ s)

abbrev is_none : List Bytes → Bool
is_none [] = true
is_none (x ∷ xs) = false

-- The compatible property of the root; a nil list is an empty one.
unfoldable pub read_compatible : Bytes → List Bytes → Outcome (List Bytes)
unfolding texts_of last_not_zero
read_compatible value compatible =
    refuse_if (not (is_none compatible) || last_not_zero value)
      (refuse_if (ltb 4096 (length value)) (texts_of (length value) value 0 compatible))

-- pos, depth, roots and compatible
pub record Cursor : Type 0 where
  pub pos : ℕ
  pub depth : ℕ
  pub roots : ℕ
  pub compatible : List Bytes

-- What a token does: go on, or return.
pub data Step : Type 0 where
  going : Cursor → Step
  found : List Bytes → Step

-- The tokens; the cursor is behind the token.
abbrev begin_node : Cursor → Bytes → Outcome Step
begin_node c name = refuse_if (c.depth == 0 && not (bytes_eq name [])) (
    ok (
      going (record {
        pos = align4 (c.pos + length name + 1);
        depth = suc c.depth;
        roots = if c.depth == 0 then suc c.roots else c.roots;
        compatible = c.compatible;
      })))

abbrev end_node : Cursor → Outcome Step
end_node c = refuse_if (c.depth == 0) (ok (going (record c { depth = c.depth - 1 })))

abbrev pub with_value : Cursor → ℕ → Bytes → Bytes → Outcome Step
with_value c size name value =
    let after = record c { pos = align4 (c.pos + 8 + size) } in
    choose (c.depth == 1 && bytes_eq name (codes "compatible"))
      (bind (read_compatible value c.compatible)
        (λ l. ok (going (record after { compatible = l }))))
      (ok (going after))

abbrev sized_property : Bytes → Bytes → Cursor → ℕ → ℕ → Outcome Step
sized_property st strings c size name_offset = refuse_if (ltb (length st) (c.pos + 8 + size)) (
    bind (cstring strings name_offset)
      (λ name. bind (slice (c.pos + 8) (c.pos + 8 + size) st) (with_value c size name)))

unfoldable pub property : Bytes → Bytes → Cursor → Outcome Step
unfolding be32 slice cstring read_compatible
property st strings c =
    refuse_if (ltb (length st) (c.pos + 8) || c.depth == 0)
      (bind (be32 st c.pos) (λ size. bind (be32 st (c.pos + 4)) (sized_property st strings c size)))

abbrev end_tree : Cursor → Outcome Step
end_tree c = refuse_if (not (c.depth == 0) || not (c.roots == 1)) (ok (found c.compatible))

unfoldable pub on_token : Bytes → Bytes → Cursor → ℕ → Outcome Step
unfolding cstring property
on_token st strings c token = choose (token == 1) (bind (cstring st c.pos) (begin_node c)) (
    choose (token == 2) (end_node c) (
      choose (token == 3) (property st strings c)
        (choose (token == 4) (ok (going c)) (choose (token == 9) (end_tree c) err))))

-- The loop over the tokens, on fuel.
abbrev pub after_step : (Cursor → Outcome (List Bytes)) → Step → Outcome (List Bytes)
after_step rest (going c) = rest c
after_step rest (found l) = ok l

unfoldable pub tokens_from : ℕ → Bytes → Bytes → ℕ → Cursor → Outcome (List Bytes)
unfolding be32 on_token
tokens_from zero st strings count c = choose (leb (c.pos + 4) (length st)) stuck err
tokens_from (suc n) st strings count c =
    let rest = tokens_from n st strings (suc count) in
    choose (leb (c.pos + 4) (length st))
      (refuse_if (ltb 65536 (suc count)) (
        bind (be32 st c.pos) (λ token.
          bind (on_token st strings (record c { pos = c.pos + 4 }) token) (after_step rest))))
      err

-- rootCompatible
abbrev pub start : Cursor
start = record { pos = 0; depth = 0; roots = 0; compatible = [] }

unfoldable pub in_spans : Bytes → Header → Outcome (List Bytes)
unfolding slice tokens_from
in_spans bytes h = refuse_if (is_outside bytes h) (
    bind (slice h.structure (h.structure + h.structure_size) bytes) (λ st.
      bind (slice h.strings_offset (h.strings_offset + h.strings_size) bytes)
        (λ strings. tokens_from (length st) st strings 0 start)))

unfoldable pub root_compatible : Bytes → Outcome (List Bytes)
unfolding be32 read_header in_spans
root_compatible bytes = refuse_if (ltb (length bytes) 40) (
    bind (be32 bytes 0)
      (λ magic. refuse_if (not (magic == 0xd00dfeed)) (bind (read_header bytes) (in_spans bytes))))
