-- ===== src/Oci/Resume.antt =====
-- internal/oci/resume.go: `resumingReader`, a layer download that reconnects at the offset that its
-- caller has consumed. Time and the network are the environment's: a connection is the list of what
-- its pump hands over before the idle timer fires, so `quiet` stands for a timer that fires first, and
-- the end of the list for a pump that says nothing more. `open_at` answers the n-th request to open the
-- blob at an offset. Counters are ℕ; the printed messages and the pauses are not modelled.
pub mod Invariant
pub mod Delivery
pub mod Budget
use mathlib.Core.Option
use tacklebox.Common.{
  ℕ, zero, suc, ◌+◌, ◌-◌, Bytes, List, [], ◌∷◌, ◌++◌, Bool, true, false, Option, some, none, length,
  take, drop, ◌==◌, if◌then◌else◌,
}

pub data ReadError : Type 0 where
  eof transport : ReadError

-- A chunk of `attach`'s pump, or the idle timer.
pub data Event : Type 0 where
  chunk : Bytes → Option ReadError → Event
  quiet : Event

pub data Failure : Type 0 where
  end_of_file stalled closed_reader : Failure

-- `openAt`: the n-th call and its offset; `none` is an error.
abbrev pub OpenAt : Type 0
OpenAt = ℕ → ℕ → Option (List Event)

pub record Reader : Type 0 where
  -- r.ch: what the current pump still has to say; empty when no pump is attached
  pub conn : List Event
  pub attempts : ℕ
  pub off : ℕ
  pub pend : Bytes
  pub stash : Bool
  pub closed : Bool
  pub err : Option Failure
  -- the calls of `open_at` so far
  pub opened : ℕ

pub record Reply : Type 0 where
  pub bytes : Bytes
  pub error : Option Failure
  pub reader : Reader

abbrev pub default_resume_attempts : ℕ
default_resume_attempts = 4

-- The reader on its first connection; too small a number of attempts takes the default.
abbrev pub fresh : ℕ → List Event → Reader
fresh attempts conn = record {
  conn = conn;
  attempts = if attempts == 0 then default_resume_attempts else attempts;
  off = 0;
  pend = [];
  stash = false;
  closed = false;
  err = none;
  opened = 1;
}

-- newResumingReader. The timeout is the environment's.
unfoldable pub new_resuming_reader : OpenAt → ℕ → Option Reader
new_resuming_reader open_at attempts = Option.map (fresh attempts) (open_at 0 0)

abbrev pub abandon : Reader → Reader
abandon r = record r { conn = [] }

-- The loop of at most three calls of `open_at` in `resume`: `n` calls are left, and `k` were made
-- before.
unfoldable pub first_open :
    Option (List Event) → ℕ → ℕ × Option (List Event) → ℕ × Option (List Event)
first_open (some conn) k again = (suc k, some conn)
first_open none k again = again

unfoldable pub reopen : OpenAt → ℕ → ℕ → ℕ → ℕ × Option (List Event)
unfolding first_open
reopen open_at zero k off = (k, none)
reopen open_at (suc n) k off = first_open (open_at k off) k (reopen open_at n (suc k) off)

-- What the head of the loop of `Read` returns without waiting: after `Close`, from the bytes that
-- are pending, or by a sticky error. The three arguments are the reader's own fields.
unfoldable pub settled_by : Bool → Bytes → Option Failure → ℕ → Reader → Option Reply
settled_by true pend err n r = some (record { bytes = []; error = some closed_reader; reader = r })
settled_by false (b ∷ bs) err n r =
    let got = take n (b ∷ bs) in
    some (record {
      bytes = got;
      error = none;
      reader = record r { pend = drop n (b ∷ bs); off = r.off + length got };
    })
settled_by false [] (some e) n r = some (record { bytes = []; error = some e; reader = r })
settled_by false [] none n r = none

unfoldable pub settled : ℕ → Reader → Option Reply
unfolding settled_by
settled n r = settled_by r.closed r.pend r.err n r

-- How one round of the loop of `Read` ends.
pub data Turn : Type 0 where
  return : Reply → Turn
  again : Reader → Turn
  reconnect : Reader → Turn

-- A chunk that arrived with nothing pending. `conn` is what the pump says after it.
unfoldable pub receive : Reader → List Event → Bytes → Option ReadError → Turn
receive r conn b none = again (record r { conn = conn; pend = b })
receive r conn [] (some eof) =
    let r' = record r { conn = conn; err = some end_of_file } in
    return (record { bytes = []; error = some end_of_file; reader = r' })
receive r conn (c ∷ b) (some eof) =
    again (record r { conn = conn; pend = c ∷ b; err = some end_of_file })
receive r conn [] (some transport) = reconnect (record r { conn = conn })
receive r conn (c ∷ b) (some transport) =
    again (record r { conn = conn; pend = c ∷ b; stash = true })

unfoldable pub wait : Reader → List Event → Event → Turn
unfolding receive
wait r conn (chunk b e) = receive r conn b e
wait r conn quiet = reconnect (record r { conn = conn })

-- The rest of a round: an error whose last bytes have been delivered leads to a reconnection.
unfoldable pub drained : Bool → Reader → List Event → Event → Turn
unfolding wait
drained true r conn e = reconnect (record r { stash = false })
drained false r conn e = wait r conn e

unfoldable pub after_settled : Option Reply → Reader → List Event → Event → Turn
unfolding drained
after_settled (some reply) r conn e = return reply
after_settled none r conn e = drained r.stash r conn e

-- One round, when the connection has something to say.
unfoldable pub turn : ℕ → Reader → List Event → Event → Turn
unfolding settled after_settled
turn n r conn e = after_settled (settled n r) r conn e

-- `resume` that fails: the reader is detached and the error is sticky.
abbrev pub failed : Reader → Reply
failed r =
    let r' = record (abandon r) { err = some stalled } in
    record { bytes = []; error = some stalled; reader = r' }

-- `resume` that succeeds, `n` attempts being left.
abbrev pub resumed : Reader → ℕ → ℕ → List Event → Reader
resumed r n opened conn = record r { conn = conn; attempts = n; opened = opened }

abbrev pub failed_reopen : Reader → ℕ → ℕ → Reply
failed_reopen r n opened = failed (record r { attempts = n; opened = opened })

-- The loop of `Read`, by recursion on the attempts left and on what the connection has to say;
-- those are the reader's own fields, which `read` passes.
unfoldable pub read_loop : OpenAt → ℕ → ℕ → List Event → Reader → Reply
read_loop open_at n zero [] r = elim (settled n r) [
  | some reply ↦ reply
  | none ↦ failed (record r { stash = false })
]
read_loop open_at n zero (e ∷ es) r = elim (turn n r es e) [
  | return reply ↦ reply
  | again r' ↦ read_loop open_at n zero es r'
  | reconnect r' ↦ failed r'
]
read_loop open_at n (suc a) [] r = elim (settled n r) [
  | some reply ↦ reply
  | none ↦
      let found = reopen open_at 3 r.opened r.off in
      elim found.1 [
        | none ↦ failed_reopen (record r { stash = false }) a found.0
        | some conn ↦
            read_loop open_at n a conn (resumed (record r { stash = false }) a found.0 conn)
      ]
]
read_loop open_at n (suc a) (e ∷ es) r = elim (turn n r es e) [
  | return reply ↦ reply
  | again r' ↦ read_loop open_at n (suc a) es r'
  | reconnect r' ↦
      let found = reopen open_at 3 r'.opened r'.off in
      elim found.1 [
        | none ↦ failed_reopen r' a found.0
        | some conn ↦ read_loop open_at n a conn (resumed r' a found.0 conn)
      ]
]

-- Read(p), with n = len(p).
unfoldable pub read : OpenAt → ℕ → Reader → Reply
read open_at n r = read_loop open_at n r.attempts r.conn r

-- Close
unfoldable pub close : Reader → Reader
close r = abandon (record r { closed = true })

-- A caller that reads with buffers of these sizes until there is an error, as io.Copy does.
unfoldable pub collected : Option Failure → Reply → Reply → Reply
collected (some e) out later = out
collected none out later = record {
  bytes = out.bytes ++ later.bytes;
  error = later.error;
  reader = later.reader;
}

unfoldable pub collect : OpenAt → List ℕ → Reader → Reply
unfolding collected
collect open_at [] r = record { bytes = []; error = none; reader = r }
collect open_at (n ∷ ns) r =
    let out = read open_at n r in collected out.error out (collect open_at ns out.reader)
