-- ===== src/Session/Tests.antt =====
-- A short trace: process 5 starts, opens a file twice, execs, exits, and its pid is reused.
use bdtrace.Common.{
  ◌/◌, ◌%◌, ◌≤◌, ◌≡◌, refl, Bool, true, false, List, [], ◌∷◌, ◌++◌, some, nat_ord, text_ord,
  pair_ord, arith, text_eq, pair_eq, length,
}
use bdtrace.Common.Int.{pos}
use bdtrace.Common.Literals.{bytes}
use bdtrace.Common.Sets.{member, insert, remove}
use bdtrace.Common.Maps.{find, find_or, put, erase}
use bdtrace.Records.{ProcessRecord, FileAccessRecord, new_process, fa_read, mode_num}
use bdtrace.Session.{
  QueuedEvent, proc_start, proc_exit, file_access, delete_proc, new_session, ExitReport, Call,
  starts, exits, accesses, deletes, step, run, on_process_start, on_process_exit, on_file_access,
  delete_process, register, restart, already_seen, current_synth,
}
use bdtrace.Session.Ids.{known, generation}
use bdtrace.Session.Ids.Fresh.{IsFresh, run_keeps_ids-IsFresh, delete_unknown_collides}
use bdtrace.Session.Dedup.{written, written_once, any_reports}
use bdtrace.Session.Writer.{
  new_writer, apply_events, close_transaction, batch_size, wal_checkpoint_interval,
}
use bdtrace.Session.Writer.Batches.{
  accept, apply_events-accept, batches_and_checkpoints, count_writes, count_commits,
  count_checkpoints,
}
use bdtrace.Session.Pipeline.{
  Pipe, new_pipe, Steps, here, next, enqueue, request_stop, pipeline_in_order, max_queue_events,
}

abbrev five : ProcessRecord
five = record new_process { pid = 5; ppid = 1 }

abbrev report : ExitReport
report = record {
  end_time_us = pos 9;
  exit_code = pos 0;
  user_time_us = pos 1;
  sys_time_us = pos 1;
  peak_rss_kb = pos 1;
  io_read_bytes = pos 0;
  io_write_bytes = pos 0;
}

abbrev opened : FileAccessRecord
opened = record { pid = 5; filename = bytes "a"; mode = fa_read; fd = pos 3; timestamp_us = pos 2 }

abbrev history : List (Bool × Call)
history =
    (false, starts five)
    ∷ (false, accesses opened)
    ∷ (false, accesses opened)
    ∷ (false, deletes 5)
    ∷ (false, starts five)
    ∷ (false, exits 5 report)
    ∷ (false, starts five)
    ∷ []

run-history :
    (run history new_session).1
    ≡ proc_start five
      ∷ file_access opened
      ∷ delete_proc 5
      ∷ proc_start five
      ∷ proc_exit 5 report
      ∷ proc_start (record five { pid = 10000005 })
      ∷ []
unfolding run step on_process_start on_process_exit on_file_access delete_process register restart
    already_seen current_synth member insert remove find find_or put erase text_eq pair_eq mode_num
run-history = refl

run_keeps_ids-IsFresh_example : IsFresh [] (run history new_session).1
unfolding run step on_process_start on_process_exit on_file_access delete_process register restart
    already_seen current_synth member insert remove find find_or put erase text_eq pair_eq mode_num
    known generation
run_keeps_ids-IsFresh_example = run_keeps_ids-IsFresh history (
  (omega arith, omega arith),
  (tt, (tt, (refl, ((omega arith, omega arith), (tt, ((omega arith, omega arith), tt)))))),
)

delete_unknown_collides_example :
    ¬ IsFresh []
      (run ((false, deletes 5) ∷ (false, starts five) ∷ (false, starts five) ∷ []) new_session).1
unfolding known find
delete_unknown_collides_example = delete_unknown_collides new_session five five refl refl

written_once_example :
    written 5 (0, bytes "a") (accesses opened ∷ accesses opened ∷ deletes 5 ∷ []) new_session ≡ 1
unfolding any_reports text_eq pair_eq mode_num find find_or member
written_once_example =
    written_once 5 (0, bytes "a") (accesses opened ∷ accesses opened ∷ deletes 5 ∷ []) new_session
      (refl, (refl, (refl, tt)))

abbrev batch : List (QueuedEvent × Bool)
batch = (delete_proc 5, true) ∷ (proc_start five, false) ∷ []

apply_events-accept_example :
    let (v, calls) = apply_events batch new_writer in
    accept false (calls ++ (close_transaction v).1) ≡ some false
apply_events-accept_example = apply_events-accept batch new_writer

batches_and_checkpoints_example :
    let (v, calls) = apply_events batch new_writer in
    (count_commits calls ≡ count_writes calls / batch_size)
    × (count_checkpoints calls ≡ count_writes calls / wal_checkpoint_interval)
    × (v.event_count ≡ count_writes calls % batch_size)
batches_and_checkpoints_example = batches_and_checkpoints batch (omega arith)

abbrev one_queued : Pipe
one_queued = record new_pipe { queue = delete_proc 5 ∷ []; produced = delete_proc 5 ∷ [] }

abbrev asked : Pipe
asked = record one_queued { stop_requested = true }

reach_asked : Steps new_pipe asked
reach_asked =
    next (next here (enqueue new_pipe (delete_proc 5) refl refl (omega arith)))
      (request_stop one_queued refl refl)

pipeline_in_order_example :
    (length asked.queue ≤ max_queue_events)
    × (asked.applied ++ (asked.batch ++ asked.queue) ≡ asked.produced)
    × (asked.stopped ≡ true → asked.applied ≡ asked.produced)
pipeline_in_order_example = pipeline_in_order asked reach_asked
