-- ===== src/Oci/Resume/Budget.antt =====
-- Progress and reconnections of `resumingReader` (internal/oci/resume.go).
use tacklebox.Common.{
  ℕ, zero, suc, ◌+◌, ◌*◌, ◌≤◌, ◌<◌, Bytes, List, [], ◌∷◌, ◌≡◌, ◌≢◌, ap, refl, length-append, subst,
  Option, some, none, arith, length, Option-cases, inl, inr,
}
use tacklebox.Oci.Resume.{
  Failure, Event, OpenAt, Reader, Reply, Turn, return, again, reconnect, settled, turn, reopen,
  read_loop, read, collect, collected, close, closed_reader, new_resuming_reader, fresh,
}
use mathlib.Core.Option
use tacklebox.Oci.Resume.Delivery.{collect_exact}
use tacklebox.Oci.Resume.Invariant.{ServesRanges, Turn-cases, returns, agains, reconnects}

reopen-le : (open_at : OpenAt) (n k off : ℕ) → (reopen open_at n k off).0 ≤ k + n
unfolding reopen
reopen-le open_at zero k off = omega arith
reopen-le open_at (suc n) k off = ground (arith, reopen-le open_at n (suc k) off)

-- The opens so far, and those that the attempts left allow.
abbrev budget : Reader → ℕ
budget r = r.opened + 3 * r.attempts

-- A reply to a read of `n` bytes is one that progresses, and keeps within the budget.
abbrev WithinBudget : ℕ → ℕ → Reply → Type 0
WithinBudget n b out = (budget out.reader ≤ b) × (0 < n → out.error ≡ none → 0 < length out.bytes)

weaken : (n : ℕ) (out : Reply) {b c : ℕ} → WithinBudget n b out → b ≤ c → WithinBudget n c out
weaken n out h le = (omega arith, h.1)

abbrev Turned : ℕ → Reader → Turn → Type 0
Turned n r (return out) = WithinBudget n (budget r) out
Turned n r (again r') = (r'.opened ≡ r.opened) × (r'.attempts ≡ r.attempts)
Turned n r (reconnect r') = (r'.opened ≡ r.opened) × (r'.attempts ≡ r.attempts)

abbrev Settled : ℕ → Reader → Option Reply → Type 0
Settled n r none = Unit
Settled n r (some out) = WithinBudget n (budget r) out

settled-Settled : (n : ℕ) (r : Reader) → Settled n r (settled n r)
unfolding settled
settled-Settled zero r = ground arith
settled-Settled (suc n) r = ground arith

turn-Turned : (n : ℕ) (r : Reader) (conn : List Event) (e : Event) → Turned n r (turn n r conn e)
unfolding turn
turn-Turned zero r conn e = ground arith
turn-Turned (suc n) r conn e = ground arith

read_loop-WithinBudget :
    (open_at : OpenAt) (n a : ℕ) (conn : List Event) (r : Reader) (b : ℕ)
    → r.attempts ≡ a
    → budget r ≤ b
    → WithinBudget n b (read_loop open_at n a conn r)
unfolding read_loop
read_loop-WithinBudget open_at n zero [] r b q le = elim (Option-cases (settled n r)) [
  | inl idle ↦ rw (idle, read_loop) (omega arith, λ p e. cc)
  | inr (out, found) ↦
      rw (found, read_loop) (weaken n out (subst (Settled n r) found (settled-Settled n r)) le)
]
read_loop-WithinBudget open_at n zero (e ∷ es) r b q le =
    let t = turn-Turned n r es e in
    elim (Turn-cases (turn n r es e)) [
      | returns out f ↦ rw (f, read_loop) (weaken n out (subst (Turned n r) f t) le)
      | agains r' f ↦
          let s = subst (Turned n r) f t in
          rw (f, read_loop)
            (read_loop-WithinBudget open_at n zero es r' b (omega arith) (omega arith))
      | reconnects r' f ↦
          let s = subst (Turned n r) f t in rw (f, read_loop) (omega arith, λ p e. cc)
    ]
read_loop-WithinBudget open_at n (suc a) [] r b q le = elim (Option-cases (settled n r)) [
  | inr (out, found) ↦
      rw (found, read_loop) (weaken n out (subst (Settled n r) found (settled-Settled n r)) le)
  | inl idle ↦
      let o = reopen-le open_at 3 r.opened r.off in
      elim (Option-cases (reopen open_at 3 r.opened r.off).1) [
        | inl refused ↦ rw (idle, refused, read_loop) (omega arith, λ p e. cc)
        | inr (conn, f) ↦
            rw (idle, f, read_loop) (read_loop-WithinBudget open_at n a conn _ b refl (omega arith))
      ]
]
read_loop-WithinBudget open_at n (suc a) (e ∷ es) r b q le =
    let t = turn-Turned n r es e in
    elim (Turn-cases (turn n r es e)) [
      | returns out f ↦ rw (f, read_loop) (weaken n out (subst (Turned n r) f t) le)
      | agains r' f ↦
          let s = subst (Turned n r) f t in
          rw (f, read_loop)
            (read_loop-WithinBudget open_at n (suc a) es r' b (omega arith) (omega arith))
      | reconnects r' f ↦
          let s = subst (Turned n r) f t in
          let o = reopen-le open_at 3 r'.opened r'.off in
          elim (Option-cases (reopen open_at 3 r'.opened r'.off).1) [
            | inl refused ↦ rw (f, refused, read_loop) (omega arith, λ p e. cc)
            | inr (conn, g) ↦
                rw (f, g, read_loop)
                  (read_loop-WithinBudget open_at n a conn _ b refl (omega arith))
          ]
    ]

read-WithinBudget :
    (open_at : OpenAt) (n : ℕ) (r : Reader) → WithinBudget n (budget r) (read open_at n r)
unfolding read
read-WithinBudget open_at n r =
    read_loop-WithinBudget open_at n r.attempts r.conn r (budget r) refl (omega arith)

-- All buffers have room.
abbrev AllPositive : List ℕ → Type 0
AllPositive [] = Unit
AllPositive (n ∷ ns) = (0 < n) × AllPositive ns

collect-budget :
    (open_at : OpenAt) (ns : List ℕ) (r : Reader) → budget (collect open_at ns r).reader ≤ budget r
unfolding collect
collect-budget open_at [] r = omega arith
collect-budget open_at (n ∷ ns) r =
    let first = read-WithinBudget open_at n r in
    let later = collect-budget open_at ns (read open_at n r).reader in
    elim (Option-cases (read open_at n r).error) [
      | inl q ↦ rw (q, collected) (omega arith)
      | inr (e, q) ↦ rw (q, collected) (omega arith)
    ]

collected-length :
    (k : ℕ) (o : Option Failure) (out later : Reply)
    → out.error ≡ o
    → (out.error ≡ none → 0 < length out.bytes)
    → (later.error ≡ none → k ≤ length later.bytes)
    → (collected o out later).error ≡ none
    → suc k ≤ length (collected o out later).bytes
unfolding collected
collected-length k (some x) out later q h l e = absurd (cc (q, e))
collected-length k none out later q h l e =
    omega (arith, h q, l e, length-append out.bytes later.bytes)

collect-length :
    (open_at : OpenAt) (ns : List ℕ) (r : Reader)
    → AllPositive ns
    → (collect open_at ns r).error ≡ none
    → length ns ≤ length (collect open_at ns r).bytes
unfolding collect
collect-length open_at [] r h e = omega arith
collect-length open_at (n ∷ ns) r h e =
    collected-length (length ns) (read open_at n r).error _ _ refl
      ((read-WithinBudget open_at n r).1 h.0)
      (collect-length open_at ns (read open_at n r).reader h.1) e

-- A download that was started with at least one attempt opens the blob at most once, and three times
-- for each attempt that it was given.
opened-collect :
    (open_at : OpenAt) (attempts : ℕ) (ns : List ℕ) {r : Reader}
    → new_resuming_reader open_at attempts ≡ some r
    → 0 < attempts
    → (collect open_at ns r).reader.opened ≤ 1 + 3 * attempts
unfolding new_resuming_reader
opened-collect open_at attempts ns {r} h p = elim (Option-cases (open_at 0 0)) [
  | inl q ↦ absurd (cc (subst (λ o. Option.map (fresh attempts) o ≡ some r) q h))
  | inr (conn, q) ↦
      let e : fresh attempts conn ≡ r =
        cc (subst (λ o. Option.map (fresh attempts) o ≡ some r) q h) in
      let spent : budget r ≡ 1 + 3 * attempts = rw (← e) (ground arith) in
      omega (arith, collect-budget open_at ns r)
]

-- When the registry answers a request at an offset by the blob from there on or by an error, and the
-- first request is answered, a caller that reads into more buffers than the blob has bytes, none of
-- them empty, sees the end of the download: an end of file, or an error.
pub collect_ends :
    (blob : Bytes) (open_at : OpenAt) (attempts : ℕ) (ns : List ℕ) {r : Reader}
    → ServesRanges blob open_at
    → new_resuming_reader open_at attempts ≡ some r
    → AllPositive ns
    → length blob < length ns
    → (collect open_at ns r).error ≢ none
collect_ends blob open_at attempts ns {r} honest h p more e =
    let exact = (collect_exact blob open_at honest attempts ns h).0 in
    absurd (
      omega (
        arith,
        collect-length open_at ns r p e,
        ap (length {A = ℕ}) exact.1,
        length-append (collect open_at ns r).bytes exact.0,
      ))

read_loop-closed :
    (open_at : OpenAt) (n a : ℕ) (r : Reader)
    → read_loop open_at n a (close r).conn (close r)
      ≡ record { bytes = []; error = some closed_reader; reader = close r }
unfolding read_loop close settled
read_loop-closed open_at n zero r = refl
read_loop-closed open_at n (suc a) r = refl

-- After Close a read fails at once, delivers nothing, opens no connection and leaves the reader as
-- it is.
pub read-close :
    (open_at : OpenAt) (n : ℕ) (r : Reader)
    → read open_at n (close r) ≡ record { bytes = []; error = some closed_reader; reader = close r }
unfolding read
read-close open_at n r = read_loop-closed open_at n (close r).attempts r
