-- ===== src/Tracer/Events.antt =====
-- The events of processes: `handle_fork_event`, `handle_exec_event`, `handle_exit_event` and the dispatch of
-- a report in `run_event_loop` (src/tracer/ptrace_backend.cpp).
pub mod Dispatch
pub mod Race
mod Tests
use bdtrace.Common.{
  ℕ, ◌+◌, Bool, true, false, not, ◌||◌, ◌&&◌, List, [], ◌∷◌, ◌++◌, Option, none, some, ◌==◌,
  if◌then◌else◌, Text, nat_ord,
}
use bdtrace.Common.Int.{ℤ, pos, negsuc}
use bdtrace.Common.Maps.{Map, find, put, erase}
use bdtrace.Records.{ProcessRecord, new_process, FileAccessRecord, fa_exec}
use bdtrace.Session.{ExitReport, Call, starts, exits, accesses, fails, deletes}
use bdtrace.Tracer.Syscalls.{Arch}
use bdtrace.Tracer.Paths.{should_filter_path}
use bdtrace.Tracer.Process.{
  ProcessState, new_state, Regs, Kernel, OsConstants, Report, accessed, failed, Tracee,
}
use bdtrace.Tracer.Stops.{
  Counters, handle_seccomp_stop, handle_syscall_stop, Resume, to_next_stop, run_on,
}

-- What the operating system answers about the processes: the links and files of /proc, and the
-- machine's view at a stop.
pub record World : Type 0 where
  pub kernel : ℕ → Kernel
  pub read_exe : ℕ → Text
  pub read_cmdline : ℕ → Text
  pub cpu_user : ℕ → ℤ
  pub cpu_sys : ℕ → ℤ
  pub peak_rss : ℕ → ℤ
  pub io_read : ℕ → ℤ
  pub io_write : ℕ → ℤ

-- What the backend does to the outside: a call of the session, the options set on a tracee, a tracee
-- resumed with a signal, one resumed by the seccomp handler, and the check for a lost resume.
pub data Act : Type 0 where
  calls : Call → Act
  sets_up : ℕ → Act
  resumes : ℕ → ℕ → Act
  resumes_as : ℕ → Resume → Act
  kicks : ℕ → Act

-- The fields of `PtraceBackend` that the handlers change.
pub record Backend : Type 0 where
  pub procs : Map ℕ ProcessState
  pub stops : Counters
  pub stale_entries : ℕ
  pub race_unknown_first : ℕ
  pub fork_events : ℕ
  pub exec_events : ℕ
  pub seccomp_stops : ℕ
  pub plain_sigtrap : ℕ
  pub sigstop_swallowed : ℕ
  pub sigstop_reinjected : ℕ
  pub sig_reinjected : ℕ

-- The text, or what is read instead of an empty one.
unfoldable pub or_read : Text → Text → Text
or_read [] other = other
or_read (c ∷ t) other = c ∷ t

abbrev pub cached : (ProcessState → Text) → Option ProcessState → Text
cached field none = []
cached field (some ps) = field ps

-- The entry of a child: a stale one is dropped, one that its first stop made is completed.
unfoldable pub adopt : ℕ → ℕ → Text → Text → Option ProcessState → ProcessState
adopt child parent cwd cmdline none = record (new_state child parent) {
  cached_cwd = cwd;
  cached_cmdline = cmdline;
}
adopt child parent cwd cmdline (some ps) =
    if ps.ppid == 0
    then record ps { ppid = parent; cached_cwd = cwd; cached_cmdline = cmdline }
    else record (new_state child parent) { cached_cwd = cwd; cached_cmdline = cmdline }

unfoldable pub is_stale : Option ProcessState → Bool
is_stale none = false
is_stale (some ps) = not (ps.ppid == 0)

-- The rest of `handle_fork_event` once the entries of the parent and of the child are looked up.
unfoldable pub fork_with :
    World → ℕ → ℕ → Option ProcessState → Option ProcessState → Backend → Backend × List Act
fork_with w pid child parent entry b =
    let cwd = or_read (cached (λ ps. ps.cached_cwd) parent) (w.kernel child).read_cwd in
    let cmdline = or_read (cached (λ ps. ps.cached_cmdline) parent) (w.read_cmdline child) in
    (
      record b {
        procs = put child (adopt child pid cwd cmdline entry) b.procs;
        stale_entries = if is_stale entry then b.stale_entries + 1 else b.stale_entries;
      },
      calls (
            starts (record new_process {
              pid = child;
              ppid = pid;
              start_time_us = (w.kernel child).now_us;
              cmdline = cmdline;
              cwd = cwd;
            }))
          ∷ [],
    )

-- `child` is the event message.
unfoldable pub handle_fork_event : World → ℕ → ℕ → Backend → Backend × List Act
handle_fork_event w pid child b =
    if child == 0 then (b, []) else fork_with w pid child (find pid b.procs) (find child b.procs) b

-- The access to the binary that runs now.
unfoldable pub exec_access : World → ℕ → List Act
exec_access w pid =
    if should_filter_path (w.read_exe pid)
    then []
    else calls (
        accesses record {
          pid = pid;
          filename = w.read_exe pid;
          mode = fa_exec;
          fd = negsuc 0;
          timestamp_us = (w.kernel pid).now_us;
        })
      ∷ []

-- What an exec resets in the entry.
unfoldable pub after_exec : World → ℕ → ProcessState → ProcessState
after_exec w pid ps = record ps {
  pending_syscall = negsuc 0;
  pending_path_addr = 0;
  pending_path_addr2 = 0;
  exit_needed = false;
  mem_fd = negsuc 0;
  cached_cwd = (w.kernel pid).read_cwd;
  cached_cmdline = w.read_cmdline pid;
}

unfoldable pub exec_parent : Option ProcessState → ℕ
exec_parent none = 0
exec_parent (some ps) = ps.ppid

unfoldable pub handle_exec_event : World → ℕ → Backend → Backend × List Act
handle_exec_event w pid b = (
  elim (find pid b.procs) [
    | none ↦ b
    | some ps ↦ record b { procs = put pid (after_exec w pid ps) b.procs }
  ],
  exec_access w pid
      ++ calls (deletes pid)
        ∷ calls (
            starts (record new_process {
              pid = pid;
              ppid = exec_parent (find pid b.procs);
              start_time_us = (w.kernel pid).now_us;
              cmdline = w.read_cmdline pid;
              cwd = (w.kernel pid).read_cwd;
            }))
        ∷ [],
)

-- The process still stands in /proc: its resources are kept for the report of its end.
unfoldable pub handle_exit_event : World → ℕ → Backend → Backend
handle_exit_event w pid b = elim (find pid b.procs) [
  | none ↦ b
  | some ps ↦ record b {
    procs =
        put pid
          (record ps {
            user_time_us = w.cpu_user pid;
            sys_time_us = w.cpu_sys pid;
            peak_rss_kb = w.peak_rss pid;
            io_read_bytes = w.io_read pid;
            io_write_bytes = w.io_write pid;
          })
          b.procs;
  }
]
