-- ===== src/Tracer/Events/Tests.antt =====
-- A build that forks a child: its parent 10 is known, the child 11 is not.
use bdtrace.Common.{◌≡◌, refl, arith, true, false, [], ◌∷◌, some, nat_ord}
use bdtrace.Common.Int.{pos}
use bdtrace.Common.Literals.{bytes}
use bdtrace.Common.Maps.{find}
use bdtrace.Tracer.Syscalls.{x86_64}
use bdtrace.Tracer.Process.{ProcessState, new_state, OsConstants}
use bdtrace.Tracer.Events.{World, Backend}
use bdtrace.Tracer.Events.Race.{forks, first_stop, adopted, orders_agree}

abbrev linux : OsConstants
linux = record {
  enosys = 38;
  accmode = λ flags. flags;
  o_rdonly = 0;
  o_wronly = 1;
  creat_flags = 577;
}

abbrev world : World
world = record {
  kernel = λ pid. record { read_string = λ addr. []; read_cwd = bytes "/build"; now_us = pos 5 };
  read_exe = λ pid. bytes "/usr/bin/make";
  read_cmdline = λ pid. bytes "make all";
  cpu_user = λ pid. pos 0;
  cpu_sys = λ pid. pos 0;
  peak_rss = λ pid. pos 0;
  io_read = λ pid. pos 0;
  io_write = λ pid. pos 0;
}

abbrev make_state : ProcessState
make_state = record (new_state 10 1) { cached_cwd = bytes "/build/sub"; traced = true }

abbrev backend : Backend
backend = record {
  procs = (10, make_state) ∷ [];
  stops = record { getregs_skipped = 0; phase_resyncs = 0 };
  stale_entries = 0;
  race_unknown_first = 0;
  fork_events = 0;
  exec_events = 0;
  seccomp_stops = 0;
  plain_sigtrap = 0;
  sigstop_swallowed = 0;
  sigstop_reinjected = 0;
  sig_reinjected = 0;
}

orders_agree_example :
    let fork_first =
      first_stop x86_64 linux false world 10 11 (forks x86_64 linux false world 10 11 backend) in
    let stop_first =
      forks x86_64 linux false world 10 11 (first_stop x86_64 linux false world 10 11 backend) in
    (find 11 fork_first.procs ≡ some (adopted x86_64 linux false world 10 11 make_state))
    × (find 11 stop_first.procs ≡ some (adopted x86_64 linux false world 10 11 make_state))
    × (fork_first.sigstop_reinjected ≡ backend.sigstop_reinjected)
    × (stop_first.sigstop_reinjected ≡ backend.sigstop_reinjected)
unfolding find
orders_agree_example =
    orders_agree x86_64 linux false world 10 11 backend make_state (omega arith) (omega arith) refl
      refl
