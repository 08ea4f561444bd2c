-- ===== src/Oci/Resume/Invariant.antt =====
-- Where a `resumingReader` (internal/oci/resume.go) is in the blob, over one round of its loop.
use tacklebox.Common.{
  ℕ, Bytes, List, [], ◌∷◌, ◌++◌, ◌≡◌, refl, sym, ap, ◌∙◌, Bool, true, false, Option, some, none,
  arith, length, take, take-append-drop, append_assoc, append-nil, subst, length-append,
}
use tacklebox.Oci.Resume.{
  ReadError, eof, transport, Event, chunk, quiet, Failure, end_of_file, OpenAt, Reader, Reply, Turn,
  return, again, reconnect, settled, settled_by, drained, receive, wait, after_settled, turn,
}

-- A connection that serves `rest`, the blob from the offset that was asked for: it sends it from the
-- start, perhaps not all of it, and says that it is at the end only when it is. What comes after
-- the idle timer has fired is never read.
abbrev pub Serves : Bytes → List Event → Type 0
Serves rest [] = Unit
Serves rest (quiet ∷ es) = Unit
Serves rest (chunk b e ∷ es) =
    (later : Bytes) × (rest ≡ b ++ later) × (e ≡ some eof → later ≡ []) × Serves later es

-- The registry answers a request at an offset within the blob by the blob from there on.
abbrev pub ServesRanges : Bytes → OpenAt → Type 0
ServesRanges blob open_at =
    (k : ℕ) (before after : Bytes) (conn : List Event)
    → blob ≡ before ++ after
    → open_at k (length before) ≡ some conn
    → Serves after conn

-- The reader is at `sent` bytes of the blob: `sent` was delivered, `pend` comes next, and the
-- connection goes on behind that.
pub record IsAt (blob sent : Bytes) (r : Reader) : Type 0 where
  pub rest : Bytes
  pub splits : blob ≡ sent ++ (r.pend ++ rest)
  pub offset : r.off ≡ length sent
  pub ended : r.err ≡ some end_of_file → rest ≡ []
  pub serving : Serves rest r.conn

-- What a reply promises: its bytes come next in the blob, and an end of file is reported only
-- behind the last byte.
pub record Continues (blob sent : Bytes) (out : Reply) : Type 0 where
  pub at : IsAt blob (sent ++ out.bytes) out.reader
  pub complete : out.error ≡ some end_of_file → sent ++ out.bytes ≡ blob

-- Nothing is pending, and the reader is about to reconnect.
pub record IsWaiting (blob sent : Bytes) (r : Reader) : Type 0 where
  pub rest : Bytes
  pub splits : blob ≡ sent ++ rest
  pub offset : r.off ≡ length sent
  pub nothing : r.pend ≡ []
  pub running : r.err ≡ none

abbrev pub Settles : Bytes → Bytes → Option Reply → Type 0
Settles blob sent none = Unit
Settles blob sent (some out) = Continues blob sent out

pub settled_by-Settles :
    (blob sent : Bytes) (c : Bool) (p : Bytes) (e : Option Failure) (n : ℕ) (r : Reader)
    → r.pend ≡ p
    → r.err ≡ e
    → IsAt blob sent r
    → Settles blob sent (settled_by c p e n r)
unfolding settled_by
settled_by-Settles blob sent true p e n r hp he h = record {
  at = rw append-nil h;
  complete = λ x. cc;
}
settled_by-Settles blob sent false (b ∷ bs) e n r hp he h = record {
  at = record {
    rest = h.rest;
    splits =
        h.splits
        ∙ ap (λ t. sent ++ (t ++ h.rest)) (hp ∙ sym (take-append-drop n (b ∷ bs)))
        ∙ simp append_assoc;
    offset = omega (arith, h.offset, length-append sent (take n (b ∷ bs)));
    ended = h.ended;
    serving = h.serving;
  };
  complete = λ x. cc;
}
settled_by-Settles blob sent false [] (some e) n r hp he h = record {
  at = rw append-nil h;
  complete = λ x.
      sym (h.splits ∙ ap (λ t. sent ++ (t ++ h.rest)) hp ∙ ap (λ t. sent ++ t) (h.ended (he ∙ x)));
}
settled_by-Settles blob sent false [] none n r hp he h = tt

abbrev pub Turns : Bytes → Bytes → List Event → Turn → Type 0
Turns blob sent conn (return out) = Continues blob sent out
Turns blob sent conn (again r) = IsAt blob sent r × (r.conn ≡ conn)
Turns blob sent conn (reconnect r) = IsWaiting blob sent r

-- What is pending nothing, with no error set, and a connection that serves what is left.
module _ (blob sent rest : Bytes) (r : Reader) (conn : List Event) (splits : blob ≡ sent ++ rest)
    (offset : r.off ≡ length sent) (nothing : r.pend ≡ []) (running : r.err ≡ none) where
  pub waiting : (stash : Bool) → IsWaiting blob sent (record r { conn = conn; stash = stash })
  waiting stash = record {
    rest = rest;
    splits = splits;
    offset = offset;
    nothing = nothing;
    running = running;
  }

  pub receive-Turns :
      (b : Bytes) (e : Option ReadError) (later : Bytes)
      → rest ≡ b ++ later
      → (e ≡ some eof → later ≡ [])
      → Serves later conn
      → Turns blob sent conn (receive r conn b e)
  unfolding receive
  receive-Turns b none later s l serves = (
    record {
      rest = later;
      splits = splits ∙ ap (λ t. sent ++ t) s;
      offset = offset;
      ended = λ x. cc;
      serving = serves;
    },
    refl,
  )
  receive-Turns [] (some eof) later s l serves = record {
    at = record {
      rest = later;
      splits = splits ∙ ap (λ t. sent ++ t) s ∙ simp (append-nil, nothing);
      offset = rw append-nil offset;
      ended = λ x. l refl;
      serving = serves;
    };
    complete =
        λ x. rw append-nil (sym (splits ∙ ap (λ t. sent ++ t) (s ∙ l refl) ∙ append-nil sent));
  }
  receive-Turns (c ∷ b) (some eof) later s l serves = (
    record {
      rest = later;
      splits = splits ∙ ap (λ t. sent ++ t) s;
      offset = offset;
      ended = λ x. l refl;
      serving = serves;
    },
    refl,
  )
  receive-Turns [] (some transport) later s l serves = waiting r.stash
  receive-Turns (c ∷ b) (some transport) later s l serves = (
    record {
      rest = later;
      splits = splits ∙ ap (λ t. sent ++ t) s;
      offset = offset;
      ended = λ x. cc;
      serving = serves;
    },
    refl,
  )

  pub wait-Turns : (e : Event) → Serves rest (e ∷ conn) → Turns blob sent conn (wait r conn e)
  unfolding wait
  wait-Turns (chunk b e) (later, s, l, serves) = receive-Turns b e later s l serves
  wait-Turns quiet h = waiting r.stash

  pub drained-Turns :
      (stash : Bool) (e : Event)
      → Serves rest (e ∷ conn)
      → Turns blob sent conn (drained stash r conn e)
  unfolding drained
  drained-Turns true e h = record {
    rest = rest;
    splits = splits;
    offset = offset;
    nothing = nothing;
    running = running;
  }
  drained-Turns false e h = wait-Turns e h

pub settled-none : (n : ℕ) (r : Reader) → settled n r ≡ none → (r.pend ≡ []) × (r.err ≡ none)
unfolding settled
settled-none n r h = ground arith

-- What is left of the blob when nothing is pending.
pub pending-none :
    (blob sent : Bytes) (r : Reader) (h : IsAt blob sent r) → r.pend ≡ [] → blob ≡ sent ++ h.rest
pending-none blob sent r h e = h.splits ∙ ap (λ t. sent ++ (t ++ h.rest)) e

pub settled-Settles :
    (blob sent : Bytes) (n : ℕ) (r : Reader) → IsAt blob sent r → Settles blob sent (settled n r)
unfolding settled
settled-Settles blob sent n r h = settled_by-Settles blob sent r.closed r.pend r.err n r refl refl h

pub after_settled-Turns :
    (blob sent : Bytes) (n : ℕ) (o : Option Reply) (r : Reader) (conn : List Event) (e : Event)
    → settled n r ≡ o
    → Settles blob sent o
    → IsAt blob sent r
    → r.conn ≡ e ∷ conn
    → Turns blob sent conn (after_settled o r conn e)
unfolding after_settled
after_settled-Turns blob sent n (some out) r conn e q s h c = s
after_settled-Turns blob sent n none r conn e q s h c =
    let idle = settled-none n r q in
    drained-Turns blob sent h.rest r conn (pending-none blob sent r h idle.0) h.offset idle.0 idle.1
      r.stash e (subst (λ t. Serves h.rest t) c h.serving)

pub turn-Turns :
    (blob sent : Bytes) (n : ℕ) (r : Reader) (conn : List Event) (e : Event)
    → IsAt blob sent r
    → r.conn ≡ e ∷ conn
    → Turns blob sent conn (turn n r conn e)
unfolding turn
turn-Turns blob sent n r conn e h c =
    after_settled-Turns blob sent n (settled n r) r conn e refl (settled-Settles blob sent n r h) h
      c

-- A turn, by its form.
pub data TurnForm (t : Turn) : Type 0 where
  returns : (out : Reply) → t ≡ return out → TurnForm t
  agains : (r : Reader) → t ≡ again r → TurnForm t
  reconnects : (r : Reader) → t ≡ reconnect r → TurnForm t

pub Turn-cases : (t : Turn) → TurnForm t
Turn-cases (return out) = returns out refl
Turn-cases (again r) = agains r refl
Turn-cases (reconnect r) = reconnects r refl
