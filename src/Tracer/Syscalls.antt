-- ===== src/Tracer/Syscalls.antt =====
-- src/tracer/ptrace_defs.h: the system calls and their numbers on the two architectures.
use bdtrace.Common.{ℕ}

pub data Arch : Type 0 where
  x86_64 i386 : Arch

pub data Syscall : Type 0 where
  sys_open sys_close sys_stat sys_lstat sys_access sys_fork : Syscall
  sys_vfork sys_execve sys_clone sys_exit_group sys_chdir sys_fchdir : Syscall
  sys_rename sys_mkdir sys_link sys_unlink sys_symlink sys_readlink : Syscall
  sys_chmod sys_chown sys_mknod sys_truncate sys_creat sys_openat : Syscall
  sys_mkdirat sys_mknodat sys_fchownat sys_unlinkat sys_renameat sys_linkat : Syscall
  sys_symlinkat sys_readlinkat sys_fchmodat sys_faccessat sys_newfstatat sys_utimensat : Syscall
  sys_renameat2 sys_execveat sys_statx sys_faccessat2 sys_openat2 : Syscall

-- `SYS_…_NR`.
unfoldable pub nr : Arch → Syscall → ℕ
nr x86_64 sys_open = 2
nr x86_64 sys_close = 3
nr x86_64 sys_stat = 4
nr x86_64 sys_lstat = 6
nr x86_64 sys_access = 21
nr x86_64 sys_fork = 57
nr x86_64 sys_vfork = 58
nr x86_64 sys_execve = 59
nr x86_64 sys_clone = 56
nr x86_64 sys_exit_group = 231
nr x86_64 sys_chdir = 80
nr x86_64 sys_fchdir = 81
nr x86_64 sys_rename = 82
nr x86_64 sys_mkdir = 83
nr x86_64 sys_link = 86
nr x86_64 sys_unlink = 87
nr x86_64 sys_symlink = 88
nr x86_64 sys_readlink = 89
nr x86_64 sys_chmod = 90
nr x86_64 sys_chown = 92
nr x86_64 sys_mknod = 133
nr x86_64 sys_truncate = 76
nr x86_64 sys_creat = 85
nr x86_64 sys_openat = 257
nr x86_64 sys_mkdirat = 258
nr x86_64 sys_mknodat = 259
nr x86_64 sys_fchownat = 260
nr x86_64 sys_unlinkat = 263
nr x86_64 sys_renameat = 264
nr x86_64 sys_linkat = 265
nr x86_64 sys_symlinkat = 266
nr x86_64 sys_readlinkat = 267
nr x86_64 sys_fchmodat = 268
nr x86_64 sys_faccessat = 269
nr x86_64 sys_newfstatat = 262
nr x86_64 sys_utimensat = 280
nr x86_64 sys_renameat2 = 316
nr x86_64 sys_execveat = 322
nr x86_64 sys_statx = 332
nr x86_64 sys_faccessat2 = 439
nr x86_64 sys_openat2 = 437
nr i386 sys_open = 5
nr i386 sys_close = 6
nr i386 sys_stat = 106
nr i386 sys_lstat = 107
nr i386 sys_access = 33
nr i386 sys_fork = 2
nr i386 sys_vfork = 190
nr i386 sys_execve = 11
nr i386 sys_clone = 120
nr i386 sys_exit_group = 252
nr i386 sys_chdir = 12
nr i386 sys_fchdir = 133
nr i386 sys_rename = 38
nr i386 sys_mkdir = 39
nr i386 sys_link = 9
nr i386 sys_unlink = 10
nr i386 sys_symlink = 83
nr i386 sys_readlink = 85
nr i386 sys_chmod = 15
nr i386 sys_chown = 182
nr i386 sys_mknod = 14
nr i386 sys_truncate = 92
nr i386 sys_creat = 8
nr i386 sys_openat = 295
nr i386 sys_mkdirat = 296
nr i386 sys_mknodat = 297
nr i386 sys_fchownat = 298
nr i386 sys_unlinkat = 301
nr i386 sys_renameat = 302
nr i386 sys_linkat = 303
nr i386 sys_symlinkat = 304
nr i386 sys_readlinkat = 305
nr i386 sys_fchmodat = 306
nr i386 sys_faccessat = 307
nr i386 sys_newfstatat = 300
nr i386 sys_utimensat = 320
nr i386 sys_renameat2 = 353
nr i386 sys_execveat = 358
nr i386 sys_statx = 383
nr i386 sys_faccessat2 = 439
nr i386 sys_openat2 = 437

-- `BD_AUDIT_ARCH`.
unfoldable pub audit_arch : Arch → ℕ
audit_arch x86_64 = 0xC000003E
audit_arch i386 = 0x40000003
