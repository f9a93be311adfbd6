-- ===== src/Session.antt =====
-- src/tracer/trace_session.h and .cpp, the side of the event loop: what a report of the tracer does to
-- the books (generations of pids, accesses seen) and which event it queues for the writer.
pub mod Ids
pub mod Dedup
pub mod Writer
pub mod Pipeline
mod Tests
use Prim.Native.Nat.{bit_or}
use bdtrace.Common.{
  ℕ, ◌+◌, ◌*◌, ◌%◌, ◌^◌, ◌==◌, Bool, true, false, List, [], ◌∷◌, ◌++◌, none, some, nat_ord,
  text_ord, pair_ord, if◌then◌else◌, Text,
}
use bdtrace.Common.Int.{ℤ}
use bdtrace.Common.Sets.{member, insert, remove}
use bdtrace.Common.Maps.{Map, find, put, erase, find_or}
use bdtrace.Records.{ProcessRecord, FileAccessRecord, FailedAccessRecord, mode_num}

-- The fields of an `EV_PROC_EXIT` event but its pid.
pub record ExitReport : Type 0 where
  pub end_time_us : ℤ
  pub exit_code : ℤ
  pub user_time_us : ℤ
  pub sys_time_us : ℤ
  pub peak_rss_kb : ℤ
  pub io_read_bytes : ℤ
  pub io_write_bytes : ℤ

-- `QueuedEvent`, one constructor for each `type`.
pub data QueuedEvent : Type 0 where
  proc_start : ProcessRecord → QueuedEvent
  proc_exit : ℕ → ExitReport → QueuedEvent
  file_access : FileAccessRecord → QueuedEvent
  failed_access : FailedAccessRecord → QueuedEvent
  delete_proc : ℕ → QueuedEvent

-- The fields of `TraceSession` that the event loop owns.
pub record Session : Type 0 where
  pub seen : Map ℕ (List (ℕ × Text))
  pub dedup_dropped : ℕ
  pub pid_gen : Map ℕ ℕ
  pub live_pids : List ℕ
  pub expect_reinsert : List ℕ
  pub pid_recycles : ℕ
  pub lost_exit_starts : ℕ
  pub process_count : ℕ
  pub file_access_count : ℕ
  pub failed_access_count : ℕ

abbrev pub new_session : Session
new_session = record {
  seen = [];
  dedup_dropped = 0;
  pid_gen = [];
  live_pids = [];
  expect_reinsert = [];
  pid_recycles = 0;
  lost_exit_starts = 0;
  process_count = 0;
  file_access_count = 0;
  failed_access_count = 0;
}

abbrev pub pid_gen_stride : ℕ
pid_gen_stride = 10000000

-- The `int` of 32 bits that an expression yields, as its bit pattern.
abbrev pub to_int : ℕ → ℕ
to_int n = n % 2 ^ 32

unfoldable pub current_synth : Session → ℕ → ℕ
current_synth s pid = elim (find pid s.pid_gen) [
  | none ↦ pid
  | some g ↦ if g == 0 then pid else to_int (g * pid_gen_stride + pid)
]

-- `already_seen`: the new books, and whether the access was there before.
unfoldable pub already_seen : ℕ → ℕ → Text → Session → Session × Bool
already_seen pid key filename s =
    let old = find_or [] pid s.seen in
    if member (key, filename) old
    then (record s { seen = put pid old s.seen; dedup_dropped = s.dedup_dropped + 1 }, true)
    else (record s { seen = put pid (insert (key, filename) old) s.seen }, false)

-- The branch of `on_process_start` for a pid that has a generation.
unfoldable pub restart : ℕ → ℕ → Session → Session
restart pid g s =
    if member pid s.expect_reinsert
    then record s { expect_reinsert = remove pid s.expect_reinsert }
    else record s {
      pid_gen = put pid (g + 1) s.pid_gen;
      pid_recycles = s.pid_recycles + 1;
      lost_exit_starts =
          if member pid s.live_pids then s.lost_exit_starts + 1 else s.lost_exit_starts;
    }

-- The books after `on_process_start`, up to the event.
unfoldable pub register : ℕ → Session → Session
register pid s =
    let fresh = record s { seen = erase pid s.seen } in
    let known : Session = elim (find pid s.pid_gen) [
      | none ↦ record fresh { pid_gen = put pid 0 s.pid_gen }
      | some g ↦ restart pid g fresh
    ] in
    record known { live_pids = insert pid known.live_pids }

-- Each handler returns the new books and the events that it queues. `fatal` is what
-- `has_fatal_errors()` said at the call.
unfoldable pub on_process_start : Bool → ProcessRecord → Session → Session × List QueuedEvent
on_process_start fatal rec s =
    let t = register rec.pid s in
    let ev = record rec { pid = current_synth t rec.pid; ppid = current_synth t rec.ppid } in
    if fatal
    then (s, [])
    else (record t { process_count = t.process_count + 1 }, proc_start ev ∷ [])

unfoldable pub on_process_exit : Bool → ℕ → ExitReport → Session → Session × List QueuedEvent
on_process_exit fatal pid report s = if fatal then (s, []) else (
  record s {
    seen = erase pid s.seen;
    live_pids = remove pid s.live_pids;
    expect_reinsert = remove pid s.expect_reinsert;
  },
  proc_exit (current_synth s pid) report ∷ [],
)

unfoldable pub on_file_access : Bool → FileAccessRecord → Session → Session × List QueuedEvent
on_file_access fatal rec s =
    let (t, dup) = already_seen rec.pid (mode_num rec.mode) rec.filename s in
    if fatal then (s, []) else if dup then (t, []) else (
      record t { file_access_count = t.file_access_count + 1 },
      file_access (record rec { pid = current_synth t rec.pid }) ∷ [],
    )

-- `0x40000000L | ((long)rec.errno_val << 8) | (long)rec.mode`
unfoldable pub failed_key : FailedAccessRecord → ℕ
failed_key rec = bit_or (bit_or 0x40000000 (rec.errno_val * 2 ^ 8)) (mode_num rec.mode)

unfoldable pub on_failed_access : Bool → FailedAccessRecord → Session → Session × List QueuedEvent
on_failed_access fatal rec s =
    let (t, dup) = already_seen rec.pid (failed_key rec) rec.filename s in
    if fatal then (s, []) else if dup then (t, []) else (
      record t { failed_access_count = t.failed_access_count + 1 },
      failed_access (record rec { pid = current_synth t rec.pid }) ∷ [],
    )

unfoldable pub delete_process : Bool → ℕ → Session → Session × List QueuedEvent
delete_process fatal pid s = if fatal then (s, []) else (
  record s { expect_reinsert = insert pid s.expect_reinsert },
  delete_proc (current_synth s pid) ∷ [],
)

-- The calls that the tracer makes.
pub data Call : Type 0 where
  starts : ProcessRecord → Call
  exits : ℕ → ExitReport → Call
  accesses : FileAccessRecord → Call
  fails : FailedAccessRecord → Call
  deletes : ℕ → Call

unfoldable pub step : Bool → Call → Session → Session × List QueuedEvent
step fatal (starts rec) s = on_process_start fatal rec s
step fatal (exits pid report) s = on_process_exit fatal pid report s
step fatal (accesses rec) s = on_file_access fatal rec s
step fatal (fails rec) s = on_failed_access fatal rec s
step fatal (deletes pid) s = delete_process fatal pid s

-- A history of calls, each with the answer of `has_fatal_errors()`.
unfoldable pub run : List (Bool × Call) → Session → Session × List QueuedEvent
run [] s = (s, [])
run ((fatal, c) ∷ cs) s =
    let (t, evs) = step fatal c s in let (u, more) = run cs t in (u, evs ++ more)
