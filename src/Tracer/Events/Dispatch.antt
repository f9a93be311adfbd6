-- ===== src/Tracer/Events/Dispatch.antt =====
-- The dispatch of a report of waitpid in `run_event_loop` of src/tracer/ptrace_backend.cpp.
use bdtrace.Common.{
  ℕ, ◌+◌, Bool, true, false, not, ◌&&◌, List, [], ◌∷◌, ◌++◌, Option, none, some, ◌==◌,
  if◌then◌else◌, nat_ord, map,
}
use bdtrace.Common.Int.{ℤ}
use bdtrace.Common.Maps.{find, put, erase}
use bdtrace.Session.{Call, exits, accesses, fails}
use bdtrace.Tracer.Syscalls.{Arch}
use bdtrace.Tracer.Process.{ProcessState, new_state, Regs, OsConstants, Report, accessed, failed}
use bdtrace.Tracer.Stops.{handle_seccomp_stop, handle_syscall_stop}
use bdtrace.Tracer.Events.{
  World, Act, calls, sets_up, resumes, resumes_as, kicks, Backend, handle_fork_event,
  handle_exec_event, handle_exit_event,
}

-- What a stop is, by the tests on the status in their order. A fork event carries its message, a
-- syscall or seccomp stop the registers as they could be read, a signal its number.
pub data Stop : Type 0 where
  fork_event : ℕ → Stop
  exec_event exit_event sigtrap : Stop
  seccomp_event syscall_stop : Option Regs → Stop
  signal_stop : ℕ → Stop

-- A report: the end with the exit code (minus the signal, if one killed the process), a stop, or
-- another status.
pub data WaitReport : Type 0 where
  ended : ℤ → WaitReport
  stopped : Stop → WaitReport
  other : WaitReport

abbrev pub is_stop : WaitReport → Bool
is_stop (ended _) = false
is_stop (stopped _) = true
is_stop other = false

unfoldable pub to_call : Report → Call
to_call (accessed fa) = accesses fa
to_call (failed fa) = fails fa

-- `kick_if_stuck` follows every resume in the mode that only records processes.
unfoldable pub resume : Bool → ℕ → ℕ → List Act
resume procs_only pid sig = resumes pid sig ∷ (if procs_only then kicks pid ∷ [] else [])

-- The first stop of a process.
abbrev pub sigstop : ℕ
sigstop = 19

unfoldable pub swallow : Bool → ℕ → ProcessState → Backend → Backend × List Act
swallow procs_only pid ps b = (
  record b {
    procs = put pid (record ps { traced = true }) b.procs;
    sigstop_swallowed = b.sigstop_swallowed + 1;
  },
  sets_up pid ∷ (resume procs_only pid 0 ++ (if procs_only then [] else kicks pid ∷ [])),
)

unfoldable pub reinject : Bool → ℕ → ℕ → Backend → Backend × List Act
reinject procs_only pid sig b = (
  record b {
    sigstop_reinjected = if sig == sigstop then b.sigstop_reinjected + 1 else b.sigstop_reinjected;
    sig_reinjected = b.sig_reinjected + 1;
  },
  resume procs_only pid sig,
)

unfoldable pub on_stop :
    Arch → OsConstants → Bool → World → ℕ → ProcessState → Stop → Backend → Backend × List Act
on_stop a os procs_only w pid ps (fork_event child) b =
    let (c, acts) = handle_fork_event w pid child (record b { fork_events = b.fork_events + 1 }) in
    (c, acts ++ resume procs_only pid 0)
on_stop a os procs_only w pid ps exec_event b =
    let (c, acts) = handle_exec_event w pid (record b { exec_events = b.exec_events + 1 }) in
    (c, acts ++ resume procs_only pid 0)
on_stop a os procs_only w pid ps exit_event b = (handle_exit_event w pid b, resume procs_only pid 0)
on_stop a os procs_only w pid ps (seccomp_event regs) b =
    let (ps1, how) = handle_seccomp_stop a os regs ps in
    (
      record b { procs = put pid ps1 b.procs; seccomp_stops = b.seccomp_stops + 1 },
      resumes_as pid how ∷ [],
    )
on_stop a os procs_only w pid ps (syscall_stop regs) b =
    let (cnt, t) =
      handle_syscall_stop a os (w.kernel pid) regs b.stops record { ps = ps; reports = [] } in
    (
      record b { procs = put pid t.ps b.procs; stops = cnt },
      map (λ r. calls (to_call r)) t.reports ++ resume procs_only pid 0,
    )
on_stop a os procs_only w pid ps sigtrap b =
    (record b { plain_sigtrap = b.plain_sigtrap + 1 }, resume procs_only pid 0)
on_stop a os procs_only w pid ps (signal_stop sig) b =
    if sig == sigstop && not ps.traced
    then swallow procs_only pid ps b
    else reinject procs_only pid sig b

-- The entry of the process that reports, made for one that is not known yet.
unfoldable pub enter : ℕ → Bool → Backend → ProcessState × Backend × List Act
enter pid stopping b = elim (find pid b.procs) [
  | some ps ↦ (ps, b, [])
  | none ↦ (
    new_state pid 0,
    record b {
      procs = put pid (new_state pid 0) b.procs;
      race_unknown_first = b.race_unknown_first + 1;
    },
    if stopping then sets_up pid ∷ [] else [],
  )
]

unfoldable pub on_end : World → ℕ → ℤ → ProcessState → Backend → Backend × List Act
on_end w pid code ps b = (
  record b { procs = erase pid b.procs },
  calls (
        exits pid record {
          end_time_us = (w.kernel pid).now_us;
          exit_code = code;
          user_time_us = ps.user_time_us;
          sys_time_us = ps.sys_time_us;
          peak_rss_kb = ps.peak_rss_kb;
          io_read_bytes = ps.io_read_bytes;
          io_write_bytes = ps.io_write_bytes;
        })
      ∷ [],
)

-- The rest of a round once the entry is there.
unfoldable pub dispatch :
    Arch
    → OsConstants
    → Bool
    → World
    → ℕ
    → WaitReport
    → ProcessState × Backend × List Act
    → Backend × List Act
dispatch a os procs_only w pid report (ps, b, acts) = elim report [
  | ended code ↦ let (c, more) = on_end w pid code ps b in (c, acts ++ more)
  | stopped stop ↦ let (c, more) = on_stop a os procs_only w pid ps stop b in (c, acts ++ more)
  | other ↦ (b, acts)
]

-- One round of the event loop, from the report of waitpid on.
unfoldable pub on_report :
    Arch → OsConstants → Bool → World → ℕ → WaitReport → Backend → Backend × List Act
on_report a os procs_only w pid report b =
    dispatch a os procs_only w pid report (enter pid (is_stop report) b)
