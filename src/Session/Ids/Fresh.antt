-- ===== src/Session/Ids/Fresh.antt =====
-- No start is queued under an identifier that is in use (`processes.pid` is a primary key).
use bdtrace.Common.{
  ap, ◌+◌, ℕ, ◌<◌, ◌≡◌, refl, inl, inr, Bool, true, false, List, [], ◌∷◌, ◌++◌, nat_ord, text_ord,
  pair_ord, Text, arith, Bool-cases,
}
use bdtrace.Records.{ProcessRecord}
use bdtrace.Common.Sets.{member, insert, remove, member-insert}
use bdtrace.Records.{mode_num}
use bdtrace.Session.{
  current_synth, QueuedEvent, proc_start, proc_exit, file_access, failed_access, delete_proc,
  Session, new_session, pid_gen_stride, register, on_process_start, on_process_exit, on_file_access,
  on_failed_access, already_seen, delete_process, Call, starts, exits, accesses, fails, deletes,
  step, run, failed_key,
}
use bdtrace.Session.Ids.{
  known, generation, expect-register, generation-register, current_synth-ident,
}
use bdtrace.Session.Ids.Invariant.{
  Inv, new_session-Inv, register-fresh, register-Inv, delete-Inv, exit-Inv, Inv-same,
}

-- The identifiers of the rows that are there after the events.
abbrev pub rows_after : List ℕ → List QueuedEvent → List ℕ
rows_after rows [] = rows
rows_after rows (proc_start r ∷ es) = rows_after (insert r.pid rows) es
rows_after rows (delete_proc i ∷ es) = rows_after (remove i rows) es
rows_after rows (proc_exit i x ∷ es) = rows_after rows es
rows_after rows (file_access r ∷ es) = rows_after rows es
rows_after rows (failed_access r ∷ es) = rows_after rows es

-- No start event meets a row with its identifier.
abbrev pub IsFresh : List ℕ → List QueuedEvent → Type 0
IsFresh rows [] = Unit {0}
IsFresh rows (proc_start r ∷ es) = (member r.pid rows ≡ false) × IsFresh (insert r.pid rows) es
IsFresh rows (delete_proc i ∷ es) = IsFresh (remove i rows) es
IsFresh rows (proc_exit i x ∷ es) = IsFresh rows es
IsFresh rows (file_access r ∷ es) = IsFresh rows es
IsFresh rows (failed_access r ∷ es) = IsFresh rows es

IsFresh-append :
    (rows : List ℕ) (es fs : List QueuedEvent)
    → IsFresh rows es
    → IsFresh (rows_after rows es) fs
    → IsFresh rows (es ++ fs)
IsFresh-append rows [] fs h k = k
IsFresh-append rows (proc_start r ∷ es) fs h k =
    (h.0, IsFresh-append (insert r.pid rows) es fs h.1 k)
IsFresh-append rows (delete_proc i ∷ es) fs h k = IsFresh-append (remove i rows) es fs h k
IsFresh-append rows (proc_exit i x ∷ es) fs h k = IsFresh-append rows es fs h k
IsFresh-append rows (file_access r ∷ es) fs h k = IsFresh-append rows es fs h k
IsFresh-append rows (failed_access r ∷ es) fs h k = IsFresh-append rows es fs h k

-- What the tracer keeps to: pids are below the stride, none is reused more than 213 times, and only
-- a process that was started is deleted.
abbrev pub Allowed : Call → Session → Type 0
Allowed (starts rec) s = (rec.pid < pid_gen_stride) × (generation s rec.pid < 213)
Allowed (deletes p) s = known s p ≡ true
Allowed (exits p x) s = Unit {0}
Allowed (accesses r) s = Unit {0}
Allowed (fails r) s = Unit {0}

abbrev pub Legal : List (Bool × Call) → Session → Type 0
Legal [] s = Unit {0}
Legal ((fatal, c) ∷ cs) s = Allowed c s × Legal cs (step fatal c s).0

already_seen-books :
    (pid key : ℕ) (f : Text) (s : Session)
    → ((already_seen pid key f s).0.pid_gen ≡ s.pid_gen)
      × ((already_seen pid key f s).0.expect_reinsert ≡ s.expect_reinsert)
unfolding already_seen
already_seen-books pid key f s = ground arith

-- One call keeps the invariant, and its events are fresh.
abbrev Keeps : Session × List QueuedEvent → List ℕ → Type 0
Keeps r rows = IsFresh rows r.1 × Inv r.0 (rows_after rows r.1)

step-Keeps :
    (fatal : Bool) (c : Call) (s : Session) (rows : List ℕ)
    → Allowed c s
    → Inv s rows
    → Keeps (step fatal c s) rows
unfolding step on_process_start on_process_exit on_file_access on_failed_access delete_process
step-Keeps true (starts rec) s rows a h = (tt, h)
step-Keeps true (exits pid x) s rows a h = (tt, h)
step-Keeps true (accesses r) s rows a h = (tt, h)
step-Keeps true (fails r) s rows a h = (tt, h)
step-Keeps true (deletes pid) s rows a h = (tt, h)
step-Keeps false (starts rec) s rows a h = (
  (register-fresh s rows rec.pid h a.0 a.1, tt),
  Inv-same (register rec.pid s) _ _ refl refl (register-Inv s rows rec.pid h a.0 a.1),
)
step-Keeps false (exits pid x) s rows a h = (tt, exit-Inv s rows pid h)
step-Keeps false (accesses r) s rows a h =
    let key = mode_num r.mode in
    let books = already_seen-books r.pid key r.filename s in
    elim (Bool-cases (already_seen r.pid key r.filename s).1) [
      | inl e ↦ rw e (tt, Inv-same s _ rows books.0 books.1 h)
      | inr e ↦ rw e (tt, Inv-same s _ rows books.0 books.1 h)
    ]
step-Keeps false (fails r) s rows a h =
    let key = failed_key r in
    let books = already_seen-books r.pid key r.filename s in
    elim (Bool-cases (already_seen r.pid key r.filename s).1) [
      | inl e ↦ rw e (tt, Inv-same s _ rows books.0 books.1 h)
      | inr e ↦ rw e (tt, Inv-same s _ rows books.0 books.1 h)
    ]
step-Keeps false (deletes pid) s rows a h = (tt, delete-Inv s rows pid h a)

run-IsFresh :
    (cs : List (Bool × Call)) (s : Session) (rows : List ℕ)
    → Legal cs s
    → Inv s rows
    → IsFresh rows (run cs s).1
unfolding run
run-IsFresh [] s rows l h = tt
run-IsFresh ((fatal, c) ∷ cs) s rows l h =
    let (fresh, next) = step-Keeps fatal c s rows l.0 h in
    let t = (step fatal c s).0 in
    let now = rows_after rows (step fatal c s).1 in
    IsFresh-append rows (step fatal c s).1 (run cs t).1 fresh (run-IsFresh cs t now l.1 next)

-- In a trace whose pids are below the stride, where no pid is reused more than 213 times and where
-- only processes that were started are deleted, no process is started under the identifier of a row
-- that is there: the identifier of every start event differs from those of all earlier start events
-- that no delete event has taken back since.
pub run_keeps_ids-IsFresh :
    (cs : List (Bool × Call)) → Legal cs new_session → IsFresh [] (run cs new_session).1
run_keeps_ids-IsFresh cs l = run-IsFresh cs new_session [] l new_session-Inv

module _ (s : Session) (p : ℕ) (unknown : known s p ≡ false) where
  deleted : Session
  deleted = record s { expect_reinsert = insert p s.expect_reinsert }

  started : Session
  unfolding deleted
  started = record (register p deleted) { process_count = (register p deleted).process_count + 1 }

  same_ident : current_synth (register p started) p ≡ current_synth (register p deleted) p
  unfolding started generation known
  same_ident = ground (
    arith,
    current_synth-ident (register p started) p,
    current_synth-ident (register p deleted) p,
    generation-register started p p,
    generation-register deleted p p,
    expect-register deleted p p,
    member-insert p p s.expect_reinsert,
  )

-- A delete for a pid that has no generation leaves the pid expected again: the next two starts of the
-- pid are queued under one identifier, although no event between them takes the row away.
pub delete_unknown_collides :
    (s : Session) (r q : ProcessRecord)
    → known s r.pid ≡ false
    → q.pid ≡ r.pid
    → ¬ IsFresh [] (run ((false, deletes r.pid) ∷ (false, starts r) ∷ (false, starts q) ∷ []) s).1
unfolding run step on_process_start delete_process started
delete_unknown_collides s r q k e fresh = ground (
  arith,
  ap (λ (t : ℕ). current_synth (register t (started s r.pid k)) t) e,
  same_ident s r.pid k,
  member-insert (current_synth (register q.pid (started s r.pid k)) q.pid)
      (current_synth (register r.pid (deleted s r.pid k)) r.pid)
      (remove (current_synth s r.pid) []),
)
