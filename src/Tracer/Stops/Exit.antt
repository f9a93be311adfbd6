-- ===== src/Tracer/Stops/Exit.antt =====
-- The exit branch of `handle_syscall_stop` in src/tracer/ptrace_backend.cpp: what a call that returns is
-- recorded as.
use bdtrace.Common.{ℕ, suc, Bool, true, false, [], ◌∷◌, ◌++◌, ◌==◌, if◌then◌else◌, Text}
use bdtrace.Common.Int.{ℤ, pos, negsuc}
use bdtrace.Records.{
  FileAccessMode, fa_read, fa_write, fa_rdwr, fa_stat, fa_access, fa_exec, fa_unlink, fa_rename_src,
  fa_rename_dst, fa_readlink, fa_mkdir, fa_link_src, fa_link_dst, fa_symlink_target,
  fa_symlink_link, fa_chmod, fa_chown, fa_truncate, fa_mknod, fa_utimens, fa_chdir,
}
use bdtrace.Tracer.Syscalls.{
  Arch, sys_open, sys_creat, sys_openat, sys_openat2, sys_stat, sys_lstat, sys_newfstatat,
  sys_statx, sys_access, sys_faccessat, sys_faccessat2, sys_chdir, sys_fchdir, sys_rename,
  sys_renameat, sys_renameat2, sys_mkdir, sys_mkdirat, sys_link, sys_linkat, sys_unlink,
  sys_unlinkat, sys_symlink, sys_symlinkat, sys_readlink, sys_readlinkat, sys_chmod, sys_fchmodat,
  sys_chown, sys_fchownat, sys_mknod, sys_mknodat, sys_truncate, sys_utimensat, sys_execve,
  sys_execveat,
}
use bdtrace.Tracer.Paths.{should_filter_path}
use bdtrace.Tracer.Process.{
  Kernel, OsConstants, accessed, Tracee, to_int, int_bits, among, record_access,
  record_failed_access,
}

-- `rax < 0`.
unfoldable pub is_negative : ℤ → Bool
is_negative (pos n) = false
is_negative (negsuc n) = true

-- An access to the path at the address, if there is one.
unfoldable pub note_path : Kernel → ℕ → FileAccessMode → Tracee → Tracee
note_path kern addr mode t = if addr == 0 then t else record_access kern addr mode (negsuc 0) t

-- A failed access to the path at the address, if there is one; the value is -rax.
unfoldable pub note_failure : Kernel → ℕ → FileAccessMode → ℕ → Tracee → Tracee
note_failure kern addr mode value t =
    if addr == 0 then t else record_failed_access kern addr mode (int_bits value) t

-- `if (rax >= 0) record_access(...) else record_failed_access(...)`.
unfoldable pub note_result : Kernel → ℤ → FileAccessMode → Tracee → Tracee
note_result kern (pos n) mode t = note_path kern t.ps.pending_path_addr mode t
note_result kern (negsuc n) mode t = note_failure kern t.ps.pending_path_addr mode (suc n) t

-- Only what succeeded is recorded.
unfoldable pub note_success : Kernel → ℤ → FileAccessMode → Tracee → Tracee
note_success kern (pos n) mode t = note_path kern t.ps.pending_path_addr mode t
note_success kern (negsuc n) mode t = t

unfoldable pub note_two : Kernel → ℤ → FileAccessMode → FileAccessMode → Tracee → Tracee
note_two kern (pos n) mode mode2 t =
    note_path kern t.ps.pending_path_addr2 mode2 (note_path kern t.ps.pending_path_addr mode t)
note_two kern (negsuc n) mode mode2 t = t

unfoldable pub open_mode : OsConstants → ℕ → FileAccessMode
open_mode os flags =
    if os.accmode flags == os.o_rdonly
    then fa_read
    else if os.accmode flags == os.o_wronly
    then fa_write
    else fa_rdwr

unfoldable pub note_open : OsConstants → Kernel → ℤ → Tracee → Tracee
note_open os kern (pos n) t =
    if t.ps.pending_path_addr == 0
    then t
    else record_access kern t.ps.pending_path_addr (open_mode os t.ps.pending_flags) (to_int n) t
note_open os kern (negsuc n) t =
    note_failure kern t.ps.pending_path_addr (open_mode os t.ps.pending_flags) (suc n) t

-- A call to execve that returns has failed; the attempt is recorded as an access.
unfoldable pub note_exec : Kernel → ℤ → Tracee → Tracee
note_exec kern (pos n) t = t
note_exec kern (negsuc n) t = note_path kern t.ps.pending_path_addr fa_exec t

unfoldable pub set_cwd : Text → Tracee → Tracee
set_cwd cwd t = record t { ps = record t.ps { cached_cwd = cwd } }

unfoldable pub note_chdir : Kernel → ℤ → Tracee → Tracee
note_chdir kern (pos n) t =
    if t.ps.pending_path_addr == 0
    then t
    else set_cwd kern.read_cwd (note_path kern t.ps.pending_path_addr fa_chdir t)
note_chdir kern (negsuc n) t = t

unfoldable pub report_cwd : Kernel → Tracee → Tracee
report_cwd kern t = if should_filter_path kern.read_cwd then t else record t {
  reports =
      t.reports
      ++ accessed record {
        pid = t.ps.pid;
        filename = kern.read_cwd;
        mode = fa_chdir;
        fd = negsuc 0;
        timestamp_us = kern.now_us;
      }
        ∷ [];
}

unfoldable pub note_fchdir : Kernel → ℤ → Tracee → Tracee
note_fchdir kern (pos n) t = report_cwd kern (set_cwd kern.read_cwd t)
note_fchdir kern (negsuc n) t = t

-- The chain of tests on the pending call.
unfoldable pub record_exit : Arch → OsConstants → Kernel → ℤ → Tracee → Tracee
record_exit a os kern rax t =
    let sc = t.ps.pending_syscall in
    if among a sc (sys_open ∷ sys_openat ∷ sys_openat2 ∷ sys_creat ∷ [])
    then note_open os kern rax t
    else if among a sc (sys_stat ∷ sys_lstat ∷ sys_newfstatat ∷ sys_statx ∷ [])
    then note_result kern rax fa_stat t
    else if among a sc (sys_access ∷ sys_faccessat ∷ sys_faccessat2 ∷ [])
    then note_result kern rax fa_access t
    else if among a sc (sys_execve ∷ sys_execveat ∷ [])
    then note_exec kern rax t
    else if among a sc (sys_unlink ∷ sys_unlinkat ∷ [])
    then note_success kern rax fa_unlink t
    else if among a sc (sys_rename ∷ sys_renameat ∷ sys_renameat2 ∷ [])
    then note_two kern rax fa_rename_src fa_rename_dst t
    else if among a sc (sys_link ∷ sys_linkat ∷ [])
    then note_two kern rax fa_link_src fa_link_dst t
    else if among a sc (sys_symlink ∷ sys_symlinkat ∷ [])
    then note_two kern rax fa_symlink_target fa_symlink_link t
    else if among a sc (sys_readlink ∷ sys_readlinkat ∷ [])
    then note_success kern rax fa_readlink t
    else if among a sc (sys_mkdir ∷ sys_mkdirat ∷ [])
    then note_success kern rax fa_mkdir t
    else if among a sc (sys_chmod ∷ sys_fchmodat ∷ [])
    then note_success kern rax fa_chmod t
    else if among a sc (sys_chown ∷ sys_fchownat ∷ [])
    then note_success kern rax fa_chown t
    else if among a sc (sys_truncate ∷ [])
    then note_success kern rax fa_truncate t
    else if among a sc (sys_mknod ∷ sys_mknodat ∷ [])
    then note_success kern rax fa_mknod t
    else if among a sc (sys_utimensat ∷ [])
    then note_success kern rax fa_utimens t
    else if among a sc (sys_chdir ∷ [])
    then note_chdir kern rax t
    else if among a sc (sys_fchdir ∷ [])
    then note_fchdir kern rax t
    else t
