-- ===== src/Oci/Resume/Delivery.antt =====
-- What the caller of `resumingReader` (internal/oci/resume.go) gets.
use mathlib.Core.Option
use tacklebox.Common.{
  ℕ, zero, suc, Bytes, List, [], ◌∷◌, ◌++◌, ◌≡◌, ◌≢◌, ◌⊎◌, inl, inr, refl, ◌∙◌, false, Option, some,
  none, length, append_assoc, append-nil, subst, Option-cases,
}
use tacklebox.Oci.Resume.{
  Event, Failure, end_of_file, stalled, closed_reader, OpenAt, Reader, Reply, settled, turn,
  first_open, reopen, failed, failed_reopen, resumed, read_loop, read, new_resuming_reader, fresh,
  collect, collected,
}
use tacklebox.Oci.Resume.Invariant.{
  returns, agains, reconnects, Turn-cases, Serves, ServesRanges, IsAt, Continues, IsWaiting,
  Settles, Turns, settled-none, pending-none, settled-Settles, turn-Turns,
}

failed-Continues :
    (blob sent : Bytes) (r : Reader) → IsWaiting blob sent r → Continues blob sent (failed r)
failed-Continues blob sent r w = record {
  at = record {
    rest = w.rest;
    splits = w.splits ∙ simp (append-nil, w.nothing);
    offset = rw append-nil w.offset;
    ended = λ x. cc;
    serving = tt;
  };
  complete = λ x. cc;
}

failed_reopen-Continues :
    (blob sent : Bytes) (r : Reader) (a k : ℕ)
    → IsWaiting blob sent r
    → Continues blob sent (failed_reopen r a k)
failed_reopen-Continues blob sent r a k w =
    failed-Continues blob sent (record r { attempts = a; opened = k })
      (record {
        rest = w.rest;
        splits = w.splits;
        offset = w.offset;
        nothing = w.nothing;
        running = w.running;
      })

collected-Continues :
    (blob sent : Bytes) (o : Option Failure) (out later : Reply)
    → out.error ≡ o
    → Continues blob sent out
    → Continues blob (sent ++ out.bytes) later
    → Continues blob sent (collected o out later)
unfolding collected
collected-Continues blob sent (some e) out later q h k = h
collected-Continues blob sent none out later q h k = record {
  at = rw (← append_assoc) k.at;
  complete = λ x. rw (← append_assoc) (k.complete x);
}

idle-IsWaiting :
    (blob sent : Bytes) (n : ℕ) (r : Reader)
    → IsAt blob sent r
    → settled n r ≡ none
    → IsWaiting blob sent (record r { stash = false })
idle-IsWaiting blob sent n r h q =
    let idle = settled-none n r q in
    record {
      rest = h.rest;
      splits = pending-none blob sent r h idle.0;
      offset = h.offset;
      nothing = idle.0;
      running = idle.1;
    }

module _ (blob : Bytes) (open_at : OpenAt) (honest : ServesRanges blob open_at) where
  reopen-Serves :
      (n k : ℕ) (before after : Bytes) {conn : List Event}
      → blob ≡ before ++ after
      → (reopen open_at n k (length before)).1 ≡ some conn
      → Serves after conn
  unfolding reopen
  reopen-Serves zero k before after {conn} s h = cc
  reopen-Serves (suc n) k before after {conn} s h =
      elim (Option-cases (open_at k (length before))) [
        | inl refused ↦ reopen-Serves n (suc k) before after s (
            subst (λ o. (first_open o k (reopen open_at n (suc k) (length before))).1 ≡ some conn)
              refused h)
        | inr (c, answered) ↦ honest k before after conn s (
            answered
            ∙ subst (λ o. (first_open o k (reopen open_at n (suc k) (length before))).1 ≡ some conn)
                answered h)
      ]

  -- A reader that has reconnected is where it was.
  resumed-IsAt :
      (sent : Bytes) (r : Reader) (a k : ℕ) (conn : List Event)
      → IsWaiting blob sent r
      → (reopen open_at 3 r.opened r.off).1 ≡ some conn
      → IsAt blob sent (resumed r a k conn)
  resumed-IsAt sent r a k conn w h = record {
    rest = w.rest;
    splits = w.splits ∙ simp w.nothing;
    offset = w.offset;
    ended = λ x. cc (w.running);
    serving =
        reopen-Serves 3 r.opened sent w.rest w.splits
          (subst (λ t. (reopen open_at 3 r.opened t).1 ≡ some conn) w.offset h);
  }

  read_loop-Continues :
      (n a : ℕ) (conn : List Event) (sent : Bytes) (r : Reader)
      → r.conn ≡ conn
      → IsAt blob sent r
      → Continues blob sent (read_loop open_at n a conn r)
  unfolding read_loop
  read_loop-Continues n zero [] sent r c h = elim (Option-cases (settled n r)) [
    | inl idle ↦
        rw (idle, read_loop)
          (failed-Continues blob sent (record r { stash = false })
            (idle-IsWaiting blob sent n r h idle))
    | inr (out, q) ↦
        rw (q, read_loop) (subst (Settles blob sent) q (settled-Settles blob sent n r h))
  ]
  read_loop-Continues n zero (e ∷ es) sent r c h =
      let t = turn-Turns blob sent n r es e h c in
      elim (Turn-cases (turn n r es e)) [
        | returns out q ↦ rw (q, read_loop) (subst (Turns blob sent es) q t)
        | agains r' q ↦
            let (h', c') = subst (Turns blob sent es) q t in
            rw (q, read_loop) (read_loop-Continues n zero es sent r' c' h')
        | reconnects r' q ↦
            rw (q, read_loop) (failed-Continues blob sent r' (subst (Turns blob sent es) q t))
      ]
  read_loop-Continues n (suc a) [] sent r c h = elim (Option-cases (settled n r)) [
    | inr (out, q) ↦
        rw (q, read_loop) (subst (Settles blob sent) q (settled-Settles blob sent n r h))
    | inl idle ↦
        let w = idle-IsWaiting blob sent n r h idle in
        elim (Option-cases (reopen open_at 3 r.opened r.off).1) [
          | inl refused ↦
              rw (idle, refused, read_loop)
                (failed_reopen-Continues blob sent (record r { stash = false }) a _ w)
          | inr (conn, q) ↦
              rw (idle, q, read_loop)
                (read_loop-Continues n a conn sent _ refl
                  (resumed-IsAt sent (record r { stash = false }) a _ conn w q))
        ]
  ]
  read_loop-Continues n (suc a) (e ∷ es) sent r c h =
      let t = turn-Turns blob sent n r es e h c in
      elim (Turn-cases (turn n r es e)) [
        | returns out q ↦ rw (q, read_loop) (subst (Turns blob sent es) q t)
        | agains r' q ↦
            let (h', c') = subst (Turns blob sent es) q t in
            rw (q, read_loop) (read_loop-Continues n (suc a) es sent r' c' h')
        | reconnects r' q ↦
            let w = subst (Turns blob sent es) q t in
            elim (Option-cases (reopen open_at 3 r'.opened r'.off).1) [
              | inl refused ↦
                  rw (q, refused, read_loop) (failed_reopen-Continues blob sent r' a _ w)
              | inr (conn, p) ↦
                  rw (q, p, read_loop)
                    (read_loop-Continues n a conn sent _ refl (resumed-IsAt sent r' a _ conn w p))
            ]
      ]

  pub read-Continues :
      (n : ℕ) (sent : Bytes) (r : Reader)
      → IsAt blob sent r
      → Continues blob sent (read open_at n r)
  unfolding read
  read-Continues n sent r h = read_loop-Continues n r.attempts r.conn sent r refl h

  collect-Continues :
      (ns : List ℕ) (sent : Bytes) (r : Reader)
      → IsAt blob sent r
      → Continues blob sent (collect open_at ns r)
  unfolding collect
  collect-Continues [] sent r h = record { at = rw append-nil h; complete = λ x. cc }
  collect-Continues (n ∷ ns) sent r h =
      let first = read-Continues n sent r h in
      collected-Continues blob sent (read open_at n r).error _ _ refl first
        (collect-Continues ns (sent ++ (read open_at n r).bytes) _ first.at)

  -- An outcome is an end of file or it is not.
  ended_or :
      {P : Type 0} {error : Option Failure}
      → (error ≡ some end_of_file → P)
      → (error ≢ some end_of_file) ⊎ P
  ended_or {error = none} f = inl (λ e. cc e)
  ended_or {error = some end_of_file} f = inr (f refl)
  ended_or {error = some stalled} f = inl (λ e. cc e)
  ended_or {error = some closed_reader} f = inl (λ e. cc e)

  pub fresh-IsAt :
      (attempts : ℕ) (conn : List Event)
      → open_at 0 0 ≡ some conn
      → IsAt blob [] (fresh attempts conn)
  fresh-IsAt attempts conn q = record {
    rest = blob;
    splits = refl;
    offset = refl;
    ended = λ x. cc;
    serving = honest 0 [] blob conn refl q;
  }

  -- Whatever the network does, and however the caller cuts its reads, what a new reader delivers is
  -- the beginning of the blob, each byte once and in order, and either it is the whole blob or no end
  -- of file has been reported. Conditions: the registry answers a request at an offset by the blob
  -- from there on, which may break off, or by an error; and the first request is answered.
  pub collect_exact :
      (attempts : ℕ) (ns : List ℕ) {r : Reader}
      → new_resuming_reader open_at attempts ≡ some r
      → ((rest : Bytes) × (blob ≡ (collect open_at ns r).bytes ++ rest))
        × (((collect open_at ns r).error ≢ some end_of_file)
            ⊎ ((collect open_at ns r).bytes ≡ blob))
  unfolding new_resuming_reader
  collect_exact attempts ns {r} h = elim (Option-cases (open_at 0 0)) [
    | inl q ↦ absurd (cc (subst (λ o. Option.map (fresh attempts) o ≡ some r) q h))
    | inr (conn, q) ↦
        let e : fresh attempts conn ≡ r =
          cc (subst (λ o. Option.map (fresh attempts) o ≡ some r) q h) in
        let all = collect-Continues ns [] r (subst (IsAt blob []) e (fresh-IsAt attempts conn q)) in
        ((_, all.at.splits), ended_or all.complete)
  ]
