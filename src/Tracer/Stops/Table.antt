-- ===== src/Tracer/Stops/Table.antt =====
-- The system calls as a table: where each keeps its paths and what its return is recorded as, beside the
-- two chains of tests in src/tracer/ptrace_backend.cpp.
use bdtrace.Common.{ℕ, ◌≡◌, Bool, true, false, not, ◌||◌, [], ◌∷◌, ◌==◌}
use bdtrace.Common.Int.{ℤ, pos}
use bdtrace.Records.{
  fa_stat, fa_access, fa_unlink, fa_rename_src, fa_rename_dst, fa_readlink, fa_mkdir, fa_link_src,
  fa_link_dst, fa_symlink_target, fa_symlink_link, fa_chmod, fa_chown, fa_truncate, fa_mknod,
  fa_utimens,
}
use bdtrace.Tracer.Syscalls.{
  Arch, Syscall, nr, sys_open, sys_close, sys_stat, sys_lstat, sys_access, sys_fork, sys_vfork,
  sys_execve, sys_clone, sys_exit_group, sys_chdir, sys_fchdir, sys_rename, sys_mkdir, sys_link,
  sys_unlink, sys_symlink, sys_readlink, sys_chmod, sys_chown, sys_mknod, sys_truncate, sys_creat,
  sys_openat, sys_mkdirat, sys_mknodat, sys_fchownat, sys_unlinkat, sys_renameat, sys_linkat,
  sys_symlinkat, sys_readlinkat, sys_fchmodat, sys_faccessat, sys_newfstatat, sys_utimensat,
  sys_renameat2, sys_execveat, sys_statx, sys_faccessat2, sys_openat2,
}
use bdtrace.Tracer.Process.{Regs, Kernel, OsConstants, Tracee, int_bits, among, entry_next}
use bdtrace.Tracer.Stops.{Pending, pending_of}
use bdtrace.Tracer.Stops.Exit.{record_exit}
use bdtrace.Tracer.Stops.Notes.{
  Treatment, opened, tried, moved, moved_fd, ignored, either, done, both, treat,
}

unfoldable pub treatment : Syscall → Treatment
treatment sys_open = opened
treatment sys_close = ignored
treatment sys_stat = either fa_stat
treatment sys_lstat = either fa_stat
treatment sys_access = either fa_access
treatment sys_fork = ignored
treatment sys_vfork = ignored
treatment sys_execve = tried
treatment sys_clone = ignored
treatment sys_exit_group = ignored
treatment sys_chdir = moved
treatment sys_fchdir = moved_fd
treatment sys_rename = both fa_rename_src fa_rename_dst
treatment sys_mkdir = done fa_mkdir
treatment sys_link = both fa_link_src fa_link_dst
treatment sys_unlink = done fa_unlink
treatment sys_symlink = both fa_symlink_target fa_symlink_link
treatment sys_readlink = done fa_readlink
treatment sys_chmod = done fa_chmod
treatment sys_chown = done fa_chown
treatment sys_mknod = done fa_mknod
treatment sys_truncate = done fa_truncate
treatment sys_creat = opened
treatment sys_openat = opened
treatment sys_mkdirat = done fa_mkdir
treatment sys_mknodat = done fa_mknod
treatment sys_fchownat = done fa_chown
treatment sys_unlinkat = done fa_unlink
treatment sys_renameat = both fa_rename_src fa_rename_dst
treatment sys_linkat = both fa_link_src fa_link_dst
treatment sys_symlinkat = both fa_symlink_target fa_symlink_link
treatment sys_readlinkat = done fa_readlink
treatment sys_fchmodat = done fa_chmod
treatment sys_faccessat = either fa_access
treatment sys_newfstatat = either fa_stat
treatment sys_utimensat = done fa_utimens
treatment sys_renameat2 = both fa_rename_src fa_rename_dst
treatment sys_execveat = tried
treatment sys_statx = either fa_stat
treatment sys_faccessat2 = either fa_access
treatment sys_openat2 = opened

abbrev pending : ℕ → ℕ → ℕ → Pending
pending addr addr2 bits = record { path_addr = addr; path_addr2 = addr2; flags = bits }

unfoldable pub arguments : OsConstants → Regs → Syscall → Pending
arguments os regs sys_open = pending regs.arg0 0 (int_bits regs.arg1)
arguments os regs sys_close = pending 0 0 0
arguments os regs sys_stat = pending regs.arg0 0 0
arguments os regs sys_lstat = pending regs.arg0 0 0
arguments os regs sys_access = pending regs.arg0 0 0
arguments os regs sys_fork = pending 0 0 0
arguments os regs sys_vfork = pending 0 0 0
arguments os regs sys_execve = pending regs.arg0 0 0
arguments os regs sys_clone = pending 0 0 0
arguments os regs sys_exit_group = pending 0 0 0
arguments os regs sys_chdir = pending regs.arg0 0 0
arguments os regs sys_fchdir = pending 0 0 0
arguments os regs sys_rename = pending regs.arg0 regs.arg1 0
arguments os regs sys_mkdir = pending regs.arg0 0 0
arguments os regs sys_link = pending regs.arg0 regs.arg1 0
arguments os regs sys_unlink = pending regs.arg0 0 0
arguments os regs sys_symlink = pending regs.arg0 regs.arg1 0
arguments os regs sys_readlink = pending regs.arg0 0 0
arguments os regs sys_chmod = pending regs.arg0 0 0
arguments os regs sys_chown = pending regs.arg0 0 0
arguments os regs sys_mknod = pending regs.arg0 0 0
arguments os regs sys_truncate = pending regs.arg0 0 0
arguments os regs sys_creat = pending regs.arg0 0 os.creat_flags
arguments os regs sys_openat = pending regs.arg1 0 (int_bits regs.arg2)
arguments os regs sys_mkdirat = pending regs.arg1 0 0
arguments os regs sys_mknodat = pending regs.arg1 0 0
arguments os regs sys_fchownat = pending regs.arg1 0 0
arguments os regs sys_unlinkat = pending regs.arg1 0 0
arguments os regs sys_renameat = pending regs.arg1 regs.arg3 0
arguments os regs sys_linkat = pending regs.arg1 regs.arg3 0
arguments os regs sys_symlinkat = pending regs.arg0 regs.arg2 0
arguments os regs sys_readlinkat = pending regs.arg1 0 0
arguments os regs sys_fchmodat = pending regs.arg1 0 0
arguments os regs sys_faccessat = pending regs.arg1 0 0
arguments os regs sys_newfstatat = pending regs.arg1 0 0
arguments os regs sys_utimensat = pending regs.arg1 0 0
arguments os regs sys_renameat2 = pending regs.arg1 regs.arg3 0
arguments os regs sys_execveat = pending regs.arg1 0 0
arguments os regs sys_statx = pending regs.arg1 0 0
arguments os regs sys_faccessat2 = pending regs.arg1 0 0
arguments os regs sys_openat2 = pending regs.arg1 0 (int_bits regs.arg2)

unfoldable pub is_fchdir : Syscall → Bool
is_fchdir sys_fchdir = true
is_fchdir _ = false

abbrev FollowsTable : Arch → Syscall → Type 0
FollowsTable a s =
    ((os : OsConstants) (regs : Regs) → pending_of a os regs (pos (nr a s)) ≡ arguments os regs s)
    × ((os : OsConstants) (kern : Kernel) (rax : ℤ) (t : Tracee)
        → t.ps.pending_syscall ≡ pos (nr a s)
        → record_exit a os kern rax t ≡ treat (treatment s) os kern rax t)
    × (among a (pos (nr a s)) (sys_fchdir ∷ []) ≡ is_fchdir s)

-- The tracee at the entry of a call, decoded by the table.
unfoldable pub entered : OsConstants → Regs → Syscall → Tracee → Tracee
entered os regs s t =
    let args = arguments os regs s in
    record t {
      ps = record t.ps {
        sc_phase = entry_next;
        pending_syscall = regs.syscall;
        pending_path_addr = args.path_addr;
        pending_path_addr2 = args.path_addr2;
        pending_flags = args.flags;
        exit_needed = not (args.path_addr == 0) || is_fchdir s;
      };
    }
