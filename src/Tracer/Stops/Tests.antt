-- ===== src/Tracer/Stops/Tests.antt =====
-- A process that opens a file for reading, on a Linux machine.
use bdtrace.Common.{
  ◌%◌, ◌≡◌, refl, true, false, List, [], ◌∷◌, none, some, nat_ord, text_eq, if◌then◌else◌, ◌==◌,
}
use bdtrace.Common.Int.{pos, negsuc}
use bdtrace.Common.Literals.{bytes}
use bdtrace.Common.Sets.{member}
use bdtrace.Records.{fa_read}
use bdtrace.Tracer.Syscalls.{x86_64, nr}
use bdtrace.Tracer.Seccomp.{traced_syscalls}
use bdtrace.Tracer.Process.{
  new_state, Regs, Kernel, OsConstants, Report, accessed, Tracee, among, record_access, record_path,
  resolve_path_cached, current_directory, below, to_int, exit_next,
}
use bdtrace.Tracer.Paths.{
  normalize_path, needs_normalize, ends_here, dot_here, slash_here, split_slash, cons_head,
  non_empty, components, push_part, push_parts, from_front, join_rest, join_parts, or_dot, reduce,
  rebuild_path, should_filter_path,
}
use bdtrace.Tracer.Stops.{
  pending_of, decode_syscall_entry, slow_stop, clear_pending, is_minus, handle_seccomp_stop,
  handle_syscall_stop, Counters, skips, to_next_stop, run_on,
}
use bdtrace.Tracer.Stops.Exit.{record_exit, note_open, open_mode}
use bdtrace.Tracer.Stops.Table.{entered}
use bdtrace.Tracer.Stops.Agree.{
  Consistent, fast_path_loses_nothing, handle_syscall_stop-Consistent, traced_complete,
  seccomp_agrees,
}

abbrev linux : OsConstants
linux = record {
  enosys = 38;
  accmode = λ flags. flags % 4;
  o_rdonly = 0;
  o_wronly = 1;
  creat_flags = 577;
}

-- The path stands at address 4096.
abbrev kern : Kernel
kern = record {
  read_string = λ addr. if addr == 4096 then bytes "src/../a.c" else [];
  read_cwd = bytes "/home/u";
  now_us = pos 7;
}

abbrev opening : Regs
opening = record { syscall = pos 2; arg0 = 4096; arg1 = 0; arg2 = 0; arg3 = 0; retval = negsuc 37 }

abbrev opened_as_3 : Regs
opened_as_3 = record { syscall = pos 2; arg0 = 4096; arg1 = 0; arg2 = 0; arg3 = 0; retval = pos 3 }

abbrev fresh : Tracee
fresh = record { ps = new_state 10 1; reports = [] }

abbrev none_yet : Counters
none_yet = record { getregs_skipped = 0; phase_resyncs = 0 }

abbrev reported : List Report
reported =
    (slow_stop x86_64 linux kern opened_as_3 (slow_stop x86_64 linux kern opening fresh)).reports

open_is_recorded : reported ≡ (
    accessed record {
      pid = 10;
      filename = bytes "/home/u/a.c";
      mode = fa_read;
      fd = pos 3;
      timestamp_us = pos 7;
    }
    ∷ [])
unfolding slow_stop is_minus decode_syscall_entry pending_of among nr member record_exit note_open
    open_mode record_access record_path resolve_path_cached current_directory below normalize_path
    needs_normalize ends_here dot_here slash_here split_slash cons_head non_empty components
    push_part push_parts from_front join_rest join_parts or_dot reduce rebuild_path
    should_filter_path text_eq to_int clear_pending new_state
open_is_recorded = refl

-- A call of close: its exit is of no interest.
abbrev closing : Tracee
closing = record fresh { ps = record fresh.ps { sc_phase = exit_next; pending_syscall = pos 3 } }

fast_path_loses_nothing_example :
    (handle_syscall_stop x86_64 linux kern none none_yet closing).1
    ≡ slow_stop x86_64 linux kern opened_as_3 closing
unfolding new_state skips is_minus among nr member
fast_path_loses_nothing_example =
    fast_path_loses_nothing x86_64 linux kern opened_as_3 none_yet closing refl refl refl refl

handle_syscall_stop-Consistent_example :
    Consistent x86_64 (handle_syscall_stop x86_64 linux kern (some opening) none_yet fresh).1.ps
unfolding new_state among
handle_syscall_stop-Consistent_example =
    handle_syscall_stop-Consistent x86_64 linux kern (some opening) none_yet fresh refl

traced_complete_example : among x86_64 opening.syscall traced_syscalls ≡ true
unfolding decode_syscall_entry pending_of among nr member
traced_complete_example = traced_complete x86_64 linux opening (new_state 10 1) refl

seccomp_agrees_example :
    let seccomp = handle_seccomp_stop x86_64 linux (some opening) fresh.ps in
    let entered = slow_stop x86_64 linux kern opening fresh in
    (entered.reports ≡ fresh.reports)
    × (entered.ps.exit_needed ≡ true → (seccomp.0 ≡ entered.ps) × (seccomp.1 ≡ to_next_stop))
    × (entered.ps.exit_needed ≡ false
        → (seccomp.0 ≡ (handle_syscall_stop x86_64 linux kern none none_yet entered).1.ps)
          × (seccomp.1 ≡ run_on))
unfolding is_minus
seccomp_agrees_example = seccomp_agrees x86_64 linux kern opening none_yet fresh refl
