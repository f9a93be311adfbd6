-- ===== src/Tracer/Stops.antt =====
-- The stops of a system call: `decode_syscall_entry`, `handle_seccomp_stop` and `handle_syscall_stop` of
-- src/tracer/ptrace_backend.cpp.
pub mod Exit
pub mod Table
pub mod Notes
pub mod Agree
mod Tests
use bdtrace.Common.{
  ℕ, ◌-◌, suc, Bool, true, false, not, ◌||◌, ◌&&◌, List, [], ◌∷◌, Option, none, some, ◌==◌,
  if◌then◌else◌,
}
use bdtrace.Common.Int.{ℤ, pos, negsuc}
use bdtrace.Tracer.Syscalls.{
  Arch, Syscall, nr, sys_open, sys_creat, sys_openat, sys_openat2, sys_stat, sys_lstat,
  sys_newfstatat, sys_statx, sys_access, sys_faccessat, sys_faccessat2, sys_chdir, sys_fchdir,
  sys_rename, sys_renameat, sys_renameat2, sys_mkdir, sys_mkdirat, sys_link, sys_linkat, sys_unlink,
  sys_unlinkat, sys_symlink, sys_symlinkat, sys_readlink, sys_readlinkat, sys_chmod, sys_fchmodat,
  sys_chown, sys_fchownat, sys_mknod, sys_mknodat, sys_truncate, sys_utimensat, sys_execve,
  sys_execveat,
}
use bdtrace.Tracer.Process.{
  ProcessState, SyscallPhase, phase_unknown, entry_next, exit_next, Regs, Kernel, OsConstants,
  Report, Tracee, int_bits, among,
}
use bdtrace.Tracer.Stops.Exit.{is_negative, record_exit}

-- The pending paths and flags of a call: the chain of tests on its number.
pub record Pending : Type 0 where
  pub path_addr : ℕ
  pub path_addr2 : ℕ
  pub flags : ℕ

unfoldable pub pending_of : Arch → OsConstants → Regs → ℤ → Pending
pending_of a os regs sc =
    if among a sc (sys_open ∷ [])
    then record { path_addr = regs.arg0; path_addr2 = 0; flags = int_bits regs.arg1 }
    else if among a sc (sys_openat ∷ sys_openat2 ∷ [])
    then record { path_addr = regs.arg1; path_addr2 = 0; flags = int_bits regs.arg2 }
    else if among a sc (sys_creat ∷ [])
    then record { path_addr = regs.arg0; path_addr2 = 0; flags = os.creat_flags }
    else if among a sc (
        sys_stat ∷ sys_lstat ∷ sys_access ∷ sys_chdir ∷ sys_unlink ∷ sys_mkdir ∷ sys_chmod
        ∷ sys_chown ∷ sys_readlink ∷ sys_truncate ∷ sys_mknod ∷ sys_execve ∷ [])
    then record { path_addr = regs.arg0; path_addr2 = 0; flags = 0 }
    else if among a sc (
        sys_newfstatat ∷ sys_faccessat ∷ sys_faccessat2 ∷ sys_unlinkat ∷ sys_mkdirat ∷ sys_fchmodat
        ∷ sys_fchownat ∷ sys_readlinkat ∷ sys_utimensat ∷ sys_mknodat ∷ sys_execveat ∷ sys_statx
        ∷ [])
    then record { path_addr = regs.arg1; path_addr2 = 0; flags = 0 }
    else if among a sc (sys_rename ∷ sys_link ∷ sys_symlink ∷ [])
    then record { path_addr = regs.arg0; path_addr2 = regs.arg1; flags = 0 }
    else if among a sc (sys_renameat ∷ sys_renameat2 ∷ [])
    then record { path_addr = regs.arg1; path_addr2 = regs.arg3; flags = 0 }
    else if among a sc (sys_linkat ∷ [])
    then record { path_addr = regs.arg1; path_addr2 = regs.arg3; flags = 0 }
    else if among a sc (sys_symlinkat ∷ [])
    then record { path_addr = regs.arg0; path_addr2 = regs.arg2; flags = 0 }
    else record { path_addr = 0; path_addr2 = 0; flags = 0 }

unfoldable pub decode_syscall_entry : Arch → OsConstants → Regs → ℤ → ProcessState → ProcessState
decode_syscall_entry a os regs sc ps =
    let pending = pending_of a os regs sc in
    record ps {
      pending_syscall = sc;
      pending_path_addr = pending.path_addr;
      pending_path_addr2 = pending.path_addr2;
      pending_flags = pending.flags;
      exit_needed = not (pending.path_addr == 0) || among a sc (sys_fchdir ∷ []);
    }

-- How the tracee is resumed: PTRACE_SYSCALL, to its next stop, or PTRACE_CONT.
pub data Resume : Type 0 where
  to_next_stop run_on : Resume

-- `handle_seccomp_stop`; `none` are registers that PTRACE_GETREGS could not read.
unfoldable pub handle_seccomp_stop :
    Arch → OsConstants → Option Regs → ProcessState → ProcessState × Resume
handle_seccomp_stop a os none ps = (ps, run_on)
handle_seccomp_stop a os (some regs) ps =
    let decoded = decode_syscall_entry a os regs regs.syscall ps in
    if decoded.exit_needed
    then (record decoded { sc_phase = exit_next }, to_next_stop)
    else (record decoded { sc_phase = entry_next; pending_syscall = negsuc 0 }, run_on)

-- `rax == -ENOSYS`.
unfoldable pub is_minus : ℕ → ℤ → Bool
is_minus n (pos r) = n == 0 && r == 0
is_minus n (negsuc r) = n == suc r

-- The call's exit is known to be of no interest.
unfoldable pub skips : ProcessState → Bool
skips ps = elim ps.sc_phase [
  | exit_next ↦ not ps.exit_needed
  | entry_next ↦ false
  | phase_unknown ↦ false
]

-- The two counters of `handle_syscall_stop`.
pub record Counters : Type 0 where
  pub getregs_skipped : ℕ
  pub phase_resyncs : ℕ

-- The phase that was expected is not the one of the registers.
unfoldable pub resyncs : SyscallPhase → Bool → Bool
resyncs entry_next is_entry = not is_entry
resyncs exit_next is_entry = is_entry
resyncs phase_unknown is_entry = false

-- The end of an exit stop: nothing is pending.
unfoldable pub clear_pending : Tracee → Tracee
clear_pending t = record t {
  ps = record t.ps {
    pending_syscall = negsuc 0;
    pending_path_addr = 0;
    pending_path_addr2 = 0;
    exit_needed = false;
  };
}

-- `handle_syscall_stop` once the registers are read.
unfoldable pub slow_stop : Arch → OsConstants → Kernel → Regs → Tracee → Tracee
slow_stop a os kern regs t =
    if is_minus os.enosys regs.retval
    then record t {
      ps = decode_syscall_entry a os regs regs.syscall (record t.ps { sc_phase = exit_next });
    }
    else clear_pending (
        record_exit a os kern regs.retval (record t { ps = record t.ps { sc_phase = entry_next } }))

unfoldable pub handle_syscall_stop :
    Arch → OsConstants → Kernel → Option Regs → Counters → Tracee → Counters × Tracee
handle_syscall_stop a os kern regs cnt t =
    if skips t.ps
    then (
      record cnt { getregs_skipped = suc cnt.getregs_skipped },
      record t { ps = record t.ps { sc_phase = entry_next; pending_syscall = negsuc 0 } },
    )
    else elim regs [
      | none ↦ (cnt, t)
      | some r ↦ (
        if resyncs t.ps.sc_phase (is_minus os.enosys r.retval)
            then record cnt { phase_resyncs = suc cnt.phase_resyncs }
            else cnt,
        slow_stop a os kern r t,
      )
    ]
