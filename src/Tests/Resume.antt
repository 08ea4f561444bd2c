-- ===== src/Tests/Resume.antt =====
-- A download over a connection that breaks, and one that the caller closes.
use tacklebox.Common.{
  ℕ, zero, suc, Bytes, List, [], ◌∷◌, ◌++◌, ◌≡◌, ◌≢◌, ◌⊎◌, refl, sym, ap, subst, ◌∙◌, some, none,
  arith, length, take, drop, take-append-drop, append-nil,
}
use tacklebox.Oci.Resume.{
  eof, transport, Event, chunk, quiet, end_of_file, closed_reader, OpenAt, Reader, fresh,
  new_resuming_reader, read, read_loop, turn, settled, reopen, collect, close,
}
use tacklebox.Oci.Resume.Invariant.{Serves, ServesRanges}
use tacklebox.Oci.Resume.Delivery.{collect_exact}
use tacklebox.Oci.Resume.Budget.{collect_ends, read-close}

abbrev pub content : Bytes
content = 10 ∷ 11 ∷ 12 ∷ 13 ∷ 14 ∷ []

-- The first connection sends two bytes and breaks; the second is silent; later ones are whole.
abbrev answer : ℕ → Bytes → List Event
answer zero after = chunk (take 2 after) (some transport) ∷ []
answer (suc zero) after = quiet ∷ []
answer (suc (suc n)) after = chunk after (some eof) ∷ []

abbrev pub flaky : OpenAt
flaky k off = some (answer k (drop off content))

answer-Serves : (k : ℕ) (after : Bytes) → Serves after (answer k after)
answer-Serves zero after = (drop 2 after, sym (take-append-drop 2 after), λ x. cc, tt)
answer-Serves (suc zero) after = tt
answer-Serves (suc (suc n)) after = ([], sym (append-nil after), λ x. refl, tt)

drop-append : (before after : Bytes) → drop (length before) (before ++ after) ≡ after
drop-append [] after = refl
drop-append (c ∷ before) after = drop-append before after

pub flaky-ServesRanges : ServesRanges content flaky
flaky-ServesRanges k before after conn s h =
    let e : drop (length before) content ≡ after =
      ap (drop (length before)) s ∙ drop-append before after in
    subst (Serves after) (cc (h, ap (λ t. answer k t) e)) (answer-Serves k after)

abbrev pub start : Reader
start = fresh 4 (answer 0 content)

pub started : new_resuming_reader flaky 4 ≡ some start
unfolding new_resuming_reader
started = refl

abbrev pub sizes : List ℕ
sizes = 4 ∷ 1 ∷ 4 ∷ 1 ∷ 1 ∷ 1 ∷ []

collect_all : (collect flaky sizes start).bytes ≡ content
unfolding collect read read_loop turn settled reopen
collect_all = refl

collect_error : (collect flaky sizes start).error ≡ some end_of_file
unfolding collect read read_loop turn settled reopen
collect_error = refl

collect_opened : (collect flaky sizes start).reader.opened ≡ 3
unfolding collect read read_loop turn settled reopen
collect_opened = refl

collect_exact_example :
    ((rest : Bytes) × (content ≡ (collect flaky sizes start).bytes ++ rest))
    × (((collect flaky sizes start).error ≢ some end_of_file)
        ⊎ ((collect flaky sizes start).bytes ≡ content))
collect_exact_example = collect_exact content flaky flaky-ServesRanges 4 sizes started

collect_ends_example : (collect flaky sizes start).error ≢ none
collect_ends_example =
    collect_ends content flaky 4 sizes flaky-ServesRanges started (omega arith) (omega arith)

read-close_example :
    read flaky 3 (close start)
    ≡ record { bytes = []; error = some closed_reader; reader = close start }
read-close_example = read-close flaky 3 start
