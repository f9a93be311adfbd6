-- ===== src/Session/Writer.antt =====
-- src/tracer/trace_session.cpp, the writing side: `apply_event`, `check_write_result`, `maybe_commit`.
-- What the database answers to each write is an argument; the calls of the database are a log. The
-- counters, `int` in the source, are their 32 bits, and wrap around.
pub mod Batches
use bdtrace.Common.{
  ℕ, zero, suc, ◌+◌, ◌-◌, ◌%◌, ◌^◌, ◌&&◌, ltb, Bool, true, false, List, [], ◌∷◌, ◌++◌, leb, ◌==◌,
  if◌then◌else◌,
}
use bdtrace.Session.{QueuedEvent}

abbrev pub batch_size : ℕ
batch_size = 5000

abbrev pub wal_checkpoint_interval : ℕ
wal_checkpoint_interval = 50000

-- The fields of `TraceSession` that the writer owns.
pub record Writer : Type 0 where
  pub in_transaction : Bool
  pub event_count : ℕ
  pub total_event_count : ℕ
  pub write_error_count : ℕ
  pub consecutive_errors : ℕ

abbrev pub new_writer : Writer
new_writer = record {
  in_transaction = false;
  event_count = 0;
  total_event_count = 0;
  write_error_count = 0;
  consecutive_errors = 0;
}

-- The 32 bits of a sum.
abbrev pub bits : ℕ → ℕ
bits n = n % 2 ^ 32

-- `n <= i`, for a literal n and the `int` with the given bits: a negative one is less.
abbrev pub at_least : ℕ → ℕ → Bool
at_least n i = leb n i && ltb i (2 ^ 31)

-- The absolute value, which a remainder is 0 with exactly when it is with the `int`.
abbrev pub magnitude : ℕ → ℕ
magnitude i = if ltb i (2 ^ 31) then i else 2 ^ 32 - i

-- A call of the database; a write is the statement of its event.
pub data DbCall : Type 0 where
  begin_transaction commit_transaction wal_checkpoint : DbCall
  write : QueuedEvent → DbCall

unfoldable pub has_fatal_errors : Writer → Bool
has_fatal_errors w = at_least 50 w.consecutive_errors

unfoldable pub check_write_result : Bool → Writer → Writer
check_write_result ok w = if ok then record w { consecutive_errors = 0 } else record w {
  write_error_count = bits (w.write_error_count + 1);
  consecutive_errors = bits (w.consecutive_errors + 1);
}

unfoldable pub maybe_commit : Writer → Writer × List DbCall
maybe_commit w =
    let total = bits (w.total_event_count + w.event_count) in
    if at_least batch_size w.event_count
    then (
      record w { in_transaction = false; total_event_count = total; event_count = 0 },
      commit_transaction
          ∷ (if magnitude total % wal_checkpoint_interval == 0 then wal_checkpoint ∷ [] else []),
    )
    else (w, [])

-- The writer inside a transaction, and the call that opened it.
unfoldable pub open_transaction : Writer → Writer × List DbCall
open_transaction w =
    if w.in_transaction
    then (w, [])
    else (record w { in_transaction = true }, begin_transaction ∷ [])

-- `ok` is what the database answers to the write.
unfoldable pub apply_event : QueuedEvent → Bool → Writer → Writer × List DbCall
apply_event ev ok w =
    let (opened, first) = open_transaction w in
    let checked = check_write_result ok opened in
    let (done, last) =
      maybe_commit (record checked { event_count = bits (checked.event_count + 1) }) in
    if has_fatal_errors w then (w, []) else (done, first ++ write ev ∷ last)

-- The loop over a batch of events, each with the answer that its write gets.
unfoldable pub apply_events : List (QueuedEvent × Bool) → Writer → Writer × List DbCall
apply_events [] w = (w, [])
apply_events ((ev, ok) ∷ evs) w =
    let (v, calls) = apply_event ev ok w in let (u, more) = apply_events evs v in (u, calls ++ more)

-- The commit that ends the writer's thread, and `finalize`.
unfoldable pub close_transaction : Writer → Writer × List DbCall
close_transaction w =
    if w.in_transaction
    then (record w { in_transaction = false }, commit_transaction ∷ [])
    else (w, [])
