-- ===== src/Session/Writer/Batches.antt =====
-- Every write stands in a transaction, and the batches and checkpoints come at the intervals.
use bdtrace.Common.{
  ℕ, suc, ◌+◌, ◌*◌, ◌/◌, ◌%◌, ◌^◌, ◌≤◌, ◌<◌, length, ◌≡◌, refl, ◌∙◌, Bool, true, false, List, [],
  ◌∷◌, ◌++◌, Option, none, some, arith,
}
use bdtrace.Session.{QueuedEvent}
use bdtrace.Session.Writer.{
  batch_size, wal_checkpoint_interval, Writer, new_writer, DbCall, begin_transaction,
  commit_transaction, wal_checkpoint, write, check_write_result, maybe_commit, has_fatal_errors,
  open_transaction, apply_event, apply_events, close_transaction,
}

-- What a database takes: a transaction is opened outside one and committed inside one, a write stands
-- inside, a checkpoint outside. The state is whether a transaction is open.
pub accept : Bool → List DbCall → Option Bool
accept open_tx [] = some open_tx
accept false (begin_transaction ∷ cs) = accept true cs
accept true (begin_transaction ∷ cs) = none
accept true (commit_transaction ∷ cs) = accept false cs
accept false (commit_transaction ∷ cs) = none
accept false (wal_checkpoint ∷ cs) = accept false cs
accept true (wal_checkpoint ∷ cs) = none
accept true (write ev ∷ cs) = accept true cs
accept false (write ev ∷ cs) = none

accept-append :
    (cs ds : List DbCall) (b c : Bool) → accept b cs ≡ some c → accept b (cs ++ ds) ≡ accept c ds
unfolding accept
accept-append [] ds b c h = ground arith
accept-append (begin_transaction ∷ cs) ds false c h = accept-append cs ds true c h
accept-append (begin_transaction ∷ cs) ds true c h = absurd (cc)
accept-append (commit_transaction ∷ cs) ds true c h = accept-append cs ds false c h
accept-append (commit_transaction ∷ cs) ds false c h = absurd (cc)
accept-append (wal_checkpoint ∷ cs) ds false c h = accept-append cs ds false c h
accept-append (wal_checkpoint ∷ cs) ds true c h = absurd (cc)
accept-append (write ev ∷ cs) ds true c h = accept-append cs ds true c h
accept-append (write ev ∷ cs) ds false c h = absurd (cc)

apply_event-accept :
    (ev : QueuedEvent) (ok : Bool) (w : Writer)
    → accept w.in_transaction (apply_event ev ok w).1 ≡ some (apply_event ev ok w).0.in_transaction
unfolding accept apply_event open_transaction check_write_result maybe_commit has_fatal_errors
apply_event-accept ev ok w = ground arith

apply_events-accept_open :
    (evs : List (QueuedEvent × Bool)) (w : Writer)
    → accept w.in_transaction (apply_events evs w).1 ≡ some (apply_events evs w).0.in_transaction
unfolding accept apply_events
apply_events-accept_open [] w = refl
apply_events-accept_open ((ev, ok) ∷ evs) w =
    let r = apply_event ev ok w in
    accept-append r.1 (apply_events evs r.0).1 _ _ (apply_event-accept ev ok w)
    ∙ apply_events-accept_open evs r.0

-- Whatever the database answers, it takes the calls of the writer, and the commit at the end leaves no
-- transaction open.
pub apply_events-accept :
    (evs : List (QueuedEvent × Bool)) (w : Writer)
    → let (v, calls) = apply_events evs w in
      accept w.in_transaction (calls ++ (close_transaction v).1) ≡ some false
unfolding accept apply_events close_transaction
apply_events-accept evs w =
    let r = apply_events evs w in
    accept-append r.1 (close_transaction r.0).1 _ _ (apply_events-accept_open evs w) ∙ ground arith

-- How often a call of one kind stands in a log.
pub count_writes : List DbCall → ℕ
count_writes [] = 0
count_writes (begin_transaction ∷ cs) = count_writes cs
count_writes (commit_transaction ∷ cs) = count_writes cs
count_writes (wal_checkpoint ∷ cs) = count_writes cs
count_writes (write ev ∷ cs) = suc (count_writes cs)

pub count_commits : List DbCall → ℕ
count_commits [] = 0
count_commits (commit_transaction ∷ cs) = suc (count_commits cs)
count_commits (begin_transaction ∷ cs) = count_commits cs
count_commits (wal_checkpoint ∷ cs) = count_commits cs
count_commits (write ev ∷ cs) = count_commits cs

pub count_checkpoints : List DbCall → ℕ
count_checkpoints [] = 0
count_checkpoints (wal_checkpoint ∷ cs) = suc (count_checkpoints cs)
count_checkpoints (begin_transaction ∷ cs) = count_checkpoints cs
count_checkpoints (commit_transaction ∷ cs) = count_checkpoints cs
count_checkpoints (write ev ∷ cs) = count_checkpoints cs

-- How the counters follow the log.
record Counted (w v : Writer) (calls : List DbCall) : Type 0 where
  events :
      v.total_event_count + v.event_count ≡ w.total_event_count + w.event_count + count_writes calls
  totals : v.total_event_count ≡ w.total_event_count + batch_size * count_commits calls
  checkpoints :
      v.total_event_count / wal_checkpoint_interval
      ≡ w.total_event_count / wal_checkpoint_interval + count_checkpoints calls

record InBatch (w : Writer) : Type 0 where
  whole : w.total_event_count % batch_size ≡ 0
  below : w.event_count < batch_size

apply_event-Counted :
    (ev : QueuedEvent) (ok : Bool) (w : Writer)
    → InBatch w
    → w.total_event_count + w.event_count + 1 < 2 ^ 31
    → Counted w (apply_event ev ok w).0 (apply_event ev ok w).1 × InBatch (apply_event ev ok w).0
unfolding count_writes count_commits count_checkpoints apply_event open_transaction
    check_write_result maybe_commit has_fatal_errors
apply_event-Counted ev ok w h small = ground arith

module _ (cs ds : List DbCall) where
  abbrev Adds : (List DbCall → ℕ) → Type 0
  Adds count = count (cs ++ ds) ≡ count cs + count ds

count_writes-append : (cs ds : List DbCall) → Adds cs ds count_writes
unfolding count_writes
count_writes-append [] ds = omega arith
count_writes-append (begin_transaction ∷ cs) ds = count_writes-append cs ds
count_writes-append (commit_transaction ∷ cs) ds = count_writes-append cs ds
count_writes-append (wal_checkpoint ∷ cs) ds = count_writes-append cs ds
count_writes-append (write ev ∷ cs) ds = omega (arith, count_writes-append cs ds)

count_commits-append : (cs ds : List DbCall) → Adds cs ds count_commits
unfolding count_commits
count_commits-append [] ds = omega arith
count_commits-append (begin_transaction ∷ cs) ds = count_commits-append cs ds
count_commits-append (commit_transaction ∷ cs) ds = omega (arith, count_commits-append cs ds)
count_commits-append (wal_checkpoint ∷ cs) ds = count_commits-append cs ds
count_commits-append (write ev ∷ cs) ds = count_commits-append cs ds

count_checkpoints-append : (cs ds : List DbCall) → Adds cs ds count_checkpoints
unfolding count_checkpoints
count_checkpoints-append [] ds = omega arith
count_checkpoints-append (begin_transaction ∷ cs) ds = count_checkpoints-append cs ds
count_checkpoints-append (commit_transaction ∷ cs) ds = count_checkpoints-append cs ds
count_checkpoints-append (wal_checkpoint ∷ cs) ds = omega (arith, count_checkpoints-append cs ds)
count_checkpoints-append (write ev ∷ cs) ds = count_checkpoints-append cs ds

written : (ev : QueuedEvent) (ok : Bool) (w : Writer) → count_writes (apply_event ev ok w).1 ≤ 1
unfolding count_writes apply_event open_transaction check_write_result maybe_commit has_fatal_errors
written ev ok w = ground arith

apply_events-Counted :
    (evs : List (QueuedEvent × Bool)) (w : Writer)
    → InBatch w
    → w.total_event_count + w.event_count + length evs < 2 ^ 31
    → Counted w (apply_events evs w).0 (apply_events evs w).1 × InBatch (apply_events evs w).0
unfolding apply_events count_writes count_commits count_checkpoints
apply_events-Counted [] w h small = omega arith
apply_events-Counted ((ev, ok) ∷ evs) w h small =
    let r = apply_event ev ok w in
    let t = apply_events evs r.0 in
    let (one, kept) = apply_event-Counted ev ok w h (omega (arith, small)) in
    let (all, last) =
      apply_events-Counted evs r.0 kept (omega (arith, small, one, written ev ok w)) in
    (
      omega (
        arith,
        one,
        all,
        count_writes-append r.1 t.1,
        count_commits-append r.1 t.1,
        count_checkpoints-append r.1 t.1,
      ),
      last,
    )

-- From a new writer that is given less than 2 ^ 31 events, whatever the database answers: after n writes there were n / 5000 commits and
-- n / 50000 checkpoints, and n % 5000 events wait for their commit.
pub batches_and_checkpoints :
    (evs : List (QueuedEvent × Bool))
    → length evs < 2 ^ 31
    → let (v, calls) = apply_events evs new_writer in
      (count_commits calls ≡ count_writes calls / batch_size)
      × (count_checkpoints calls ≡ count_writes calls / wal_checkpoint_interval)
      × (v.event_count ≡ count_writes calls % batch_size)
batches_and_checkpoints evs small =
    let (counted, kept) =
      apply_events-Counted evs new_writer (omega arith) (omega (arith, small)) in
    (omega (arith, counted, kept), omega (arith, counted, kept), omega (arith, counted, kept))
