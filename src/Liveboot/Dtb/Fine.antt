-- ===== src/Liveboot/Dtb/Fine.antt =====
-- rootCompatible of internal/liveboot/board.go takes no slice out of range, and its loops end.
use tacklebox.Common.{
  ℕ, zero, suc, ◌+◌, ◌≤◌, ◌<◌, Bytes, List, [], ◌∷◌, ◌++◌, ◌≡◌, false, arith, length, min, leb, ltb,
}
use tacklebox.Liveboot.Outcome.{
  Outcome, choose, Ensures, fine, failed, Anything, IsFine, bind-Ensures, guard-Ensures, if-Ensures,
  slice-IsFine, be32-IsFine,
}
use tacklebox.Liveboot.Dtb.{
  text_before_zero, cstring, Header, read_header, texts_of, read_compatible, Cursor, Step, going,
  found, with_value, property, on_token, after_step, tokens_from, start, in_spans, root_compatible,
}

text_before_zero-IsFine : (s : Bytes) → IsFine (text_before_zero s)
unfolding text_before_zero
text_before_zero-IsFine [] = failed
text_before_zero-IsFine (c ∷ s) =
    if-Ensures (λ _. fine tt)
      (λ _. bind-Ensures Anything (text_before_zero-IsFine s) (λ t _. fine tt))

pub cstring-IsFine : (bytes : Bytes) (offset : ℕ) → IsFine (cstring bytes offset)
unfolding cstring
cstring-IsFine bytes offset =
    let end = min (offset + 256) (length bytes) in
    guard-Ensures (λ n.
      let inside : offset < length bytes = ground (arith, n) in
      bind-Ensures Anything (slice-IsFine offset end bytes (omega (arith, inside)) (omega arith))
        (λ s _. text_before_zero-IsFine s))

texts_of-IsFine :
    (n : ℕ) (value : Bytes) (offset : ℕ) (compatible : List Bytes)
    → length value ≤ n + offset
    → IsFine (texts_of n value offset compatible)
unfolding texts_of
texts_of-IsFine zero value offset compatible h =
    let e : ltb offset (length value) ≡ false = ground (arith, h) in unfold choose in rw e (fine tt)
texts_of-IsFine (suc n) value offset compatible h =
    if-Ensures
      (λ _. guard-Ensures (λ _. bind-Ensures Anything (cstring-IsFine value offset) (λ v _.
        guard-Ensures (λ _.
          texts_of-IsFine n value (offset + length v + 1) (compatible ++ v ∷ [])
            (omega (arith, h))))))
      (λ _. fine tt)

read_compatible-IsFine :
    (value : Bytes) (compatible : List Bytes) → IsFine (read_compatible value compatible)
unfolding read_compatible
read_compatible-IsFine value compatible =
    guard-Ensures
      (λ _. guard-Ensures (λ _. texts_of-IsFine (length value) value 0 compatible (omega arith)))

-- The cursor has not gone back.
abbrev Behind : ℕ → Step → Type 0
Behind p (going c) = p ≤ c.pos
Behind p (found l) = Unit

with_value-Behind :
    (c : Cursor) (size : ℕ) (name value : Bytes)
    → Ensures (Behind c.pos) (with_value c size name value)
with_value-Behind c size name value =
    if-Ensures
      (λ _.
        bind-Ensures Anything (read_compatible-IsFine value c.compatible)
          (λ l _. fine (omega arith)))
      (λ _. fine (omega arith))

property-Behind : (st strings : Bytes) (c : Cursor) → Ensures (Behind c.pos) (property st strings c)
unfolding property
property-Behind st strings c = guard-Ensures (λ n.
    let inside : c.pos + 8 ≤ length st = ground (arith, n) in
    bind-Ensures Anything (be32-IsFine st c.pos (omega (arith, inside))) (λ size _.
      bind-Ensures Anything (be32-IsFine st (c.pos + 4) (omega (arith, inside))) (λ name_offset _.
        guard-Ensures (λ m.
          let within : c.pos + 8 + size ≤ length st = ground (arith, m) in
          bind-Ensures Anything (cstring-IsFine strings name_offset) (λ name _.
            bind-Ensures Anything
              (slice-IsFine (c.pos + 8) (c.pos + 8 + size) st (omega arith) within)
              (λ value _. with_value-Behind c size name value))))))

on_token-Behind :
    (st strings : Bytes) (c : Cursor) (token : ℕ)
    → Ensures (Behind c.pos) (on_token st strings c token)
unfolding on_token
on_token-Behind st strings c token =
    if-Ensures
      (λ _.
        bind-Ensures Anything (cstring-IsFine st c.pos)
          (λ name _. guard-Ensures (λ _. fine (omega arith))))
      (λ _.
        if-Ensures (λ _. guard-Ensures (λ _. fine (omega arith)))
          (λ _.
            if-Ensures (λ _. property-Behind st strings c)
              (λ _.
                if-Ensures (λ _. fine (omega arith))
                  (λ _. if-Ensures (λ _. guard-Ensures (λ _. fine tt)) (λ _. failed)))))

after_step-IsFine :
    (rest : Cursor → Outcome (List Bytes)) (p : ℕ)
    → ((c : Cursor) → p ≤ c.pos → IsFine (rest c))
    → (step : Step) → Behind p step
    → IsFine (after_step rest step)
after_step-IsFine rest p h (going c) b = h c b
after_step-IsFine rest p h (found l) b = fine tt

tokens_from-IsFine :
    (n : ℕ) (st strings : Bytes) (count : ℕ) (c : Cursor)
    → length st ≤ n + c.pos
    → IsFine (tokens_from n st strings count c)
unfolding tokens_from
tokens_from-IsFine zero st strings count c h =
    let e : leb (c.pos + 4) (length st) ≡ false = ground (arith, h) in unfold choose in rw e failed
tokens_from-IsFine (suc n) st strings count c h =
    if-Ensures
      (λ y.
        let inside : c.pos + 4 ≤ length st = ground (arith, y) in
        guard-Ensures (λ _. bind-Ensures Anything (be32-IsFine st c.pos inside) (λ token _.
          bind-Ensures (Behind (c.pos + 4))
            (on_token-Behind st strings (record c { pos = c.pos + 4 }) token)
            (after_step-IsFine (tokens_from n st strings (suc count)) (c.pos + 4)
              (λ c' b. tokens_from-IsFine n st strings (suc count) c' (omega (arith, h, b)))))))
      (λ _. failed)

read_header-IsFine : (bytes : Bytes) → 40 ≤ length bytes → IsFine (read_header bytes)
unfolding read_header
read_header-IsFine bytes h = bind-Ensures Anything (be32-IsFine bytes 4 (omega (arith, h))) (λ _ _.
    bind-Ensures Anything (be32-IsFine bytes 8 (omega (arith, h))) (λ _ _.
      bind-Ensures Anything (be32-IsFine bytes 12 (omega (arith, h))) (λ _ _.
        bind-Ensures Anything (be32-IsFine bytes 32 (omega (arith, h))) (λ _ _.
          bind-Ensures Anything (be32-IsFine bytes 36 (omega (arith, h))) (λ _ _. fine tt)))))

in_spans-IsFine : (bytes : Bytes) (h : Header) → IsFine (in_spans bytes h)
unfolding in_spans
in_spans-IsFine bytes h = guard-Ensures (λ n.
    let one : h.structure + h.structure_size ≤ length bytes = ground (arith, n) in
    let two : h.strings_offset + h.strings_size ≤ length bytes = ground (arith, n) in
    bind-Ensures Anything
      (slice-IsFine h.structure (h.structure + h.structure_size) bytes (omega arith) one)
      (λ st _.
        bind-Ensures Anything
          (slice-IsFine h.strings_offset (h.strings_offset + h.strings_size) bytes (omega arith)
            two)
          (λ strings _. tokens_from-IsFine (length st) st strings 0 start (omega arith))))

-- What rootCompatible reads is never out of range, and its loops end.
pub root_compatible-IsFine : (bytes : Bytes) → IsFine (root_compatible bytes)
unfolding root_compatible
root_compatible-IsFine bytes = guard-Ensures (λ n.
    let long : 40 ≤ length bytes = ground (arith, n) in
    bind-Ensures Anything (be32-IsFine bytes 0 (omega (arith, long))) (λ magic _.
      guard-Ensures (λ _.
        bind-Ensures Anything (read_header-IsFine bytes long) (λ h _. in_spans-IsFine bytes h))))
