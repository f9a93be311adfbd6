-- ===== src/Tracer/Seccomp.antt =====
-- `install_seccomp_filter` of src/tracer/ptrace_backend.cpp: the filter that decides which system
-- calls stop a tracee. The machine that runs it is the kernel's and a parameter.
pub mod Filter
mod Tests
use bdtrace.Common.{ℕ, zero, suc, ◌+◌, ◌%◌, List, [], ◌∷◌, ◌++◌, length, map}
use bdtrace.Tracer.Syscalls.{
  Arch, Syscall, nr, audit_arch, sys_open, sys_creat, sys_openat, sys_openat2, sys_stat, sys_lstat,
  sys_newfstatat, sys_statx, sys_access, sys_faccessat, sys_faccessat2, sys_chdir, sys_fchdir,
  sys_rename, sys_renameat, sys_renameat2, sys_mkdir, sys_mkdirat, sys_link, sys_linkat, sys_unlink,
  sys_unlinkat, sys_symlink, sys_symlinkat, sys_readlink, sys_readlinkat, sys_chmod, sys_fchmodat,
  sys_chown, sys_fchownat, sys_mknod, sys_mknodat, sys_truncate, sys_utimensat, sys_execve,
  sys_execveat,
}

-- `bd_sock_filter`.
pub record Insn : Type 0 where
  pub opcode : ℕ
  pub jt : ℕ
  pub jf : ℕ
  pub k : ℕ

abbrev pub ld_w_abs : ℕ
ld_w_abs = 0x20

abbrev pub jeq_k : ℕ
jeq_k = 0x15

abbrev pub ret_k : ℕ
ret_k = 0x06

abbrev pub ret_trace : ℕ
ret_trace = 0x7ff00000

abbrev pub ret_allow : ℕ
ret_allow = 0x7fff0000

abbrev pub to_uint8 : ℕ → ℕ
to_uint8 n = n % 256

-- `BD_TRACED_SYSCALLS`.
abbrev pub traced_syscalls : List Syscall
traced_syscalls =
    sys_open ∷ sys_creat ∷ sys_openat ∷ sys_openat2 ∷ sys_stat ∷ sys_lstat ∷ sys_newfstatat
    ∷ sys_statx ∷ sys_access ∷ sys_faccessat ∷ sys_faccessat2 ∷ sys_chdir ∷ sys_fchdir ∷ sys_rename
    ∷ sys_renameat ∷ sys_renameat2 ∷ sys_mkdir ∷ sys_mkdirat ∷ sys_link ∷ sys_linkat ∷ sys_unlink
    ∷ sys_unlinkat ∷ sys_symlink ∷ sys_symlinkat ∷ sys_readlink ∷ sys_readlinkat ∷ sys_chmod
    ∷ sys_fchmodat ∷ sys_chown ∷ sys_fchownat ∷ sys_mknod ∷ sys_mknodat ∷ sys_truncate
    ∷ sys_utimensat ∷ sys_execve ∷ sys_execveat ∷ []

unfoldable pub traced_numbers : Arch → List ℕ
unfolding nr
traced_numbers a = map (nr a) traced_syscalls

-- The loop over the traced calls, from the i-th on: n - i of them are left.
unfoldable pub comparisons : List ℕ → List Insn
comparisons [] = []
comparisons (x ∷ xs) =
    record { opcode = jeq_k; jt = to_uint8 (length (x ∷ xs)); jf = 0; k = x } ∷ comparisons xs

abbrev pub returns : List Insn
returns =
    record { opcode = ret_k; jt = 0; jf = 0; k = ret_allow }
    ∷ record { opcode = ret_k; jt = 0; jf = 0; k = ret_trace }
    ∷ []

-- The program for one architecture and one list of numbers.
unfoldable pub filter_program : ℕ → List ℕ → List Insn
filter_program arch numbers =
    record { opcode = ld_w_abs; jt = 0; jf = 0; k = 4 }
    ∷ record { opcode = jeq_k; jt = 0; jf = to_uint8 (length numbers + 1); k = arch }
    ∷ record { opcode = ld_w_abs; jt = 0; jf = 0; k = 0 }
    ∷ (comparisons numbers ++ returns)

unfoldable pub seccomp_filter : Arch → List Insn
unfolding traced_numbers
seccomp_filter a = filter_program (audit_arch a) (traced_numbers a)
