-- ===== src/Tracer/Stops/Agree.antt =====
-- The two ways of tracing in src/tracer/ptrace_backend.cpp, with the filter and without it, and the fast
-- path of `handle_syscall_stop`.
use bdtrace.Common.{
  ◌≡◌, refl, sym, ap, ◌∙◌, Bool, true, false, not, ◌||◌, ◌&&◌, List, [], ◌∷◌, Option, none, some,
  ◌==◌, map, arith, nat_ord, Bool-cases, inl, inr, ==_iff,
}
use bdtrace.Common.Sets.{member}
use bdtrace.Common.Int.{ℤ, pos, negsuc}
use bdtrace.Tracer.Syscalls.{
  Arch, x86_64, i386, Syscall, nr, sys_open, sys_creat, sys_openat, sys_openat2, sys_stat,
  sys_lstat, sys_newfstatat, sys_statx, sys_access, sys_faccessat, sys_faccessat2, sys_chdir,
  sys_fchdir, sys_rename, sys_renameat, sys_renameat2, sys_mkdir, sys_mkdirat, sys_link, sys_linkat,
  sys_unlink, sys_unlinkat, sys_symlink, sys_symlinkat, sys_readlink, sys_readlinkat, sys_chmod,
  sys_fchmodat, sys_chown, sys_fchownat, sys_mknod, sys_mknodat, sys_truncate, sys_utimensat,
  sys_execve, sys_execveat,
}
use bdtrace.Tracer.Seccomp.{traced_syscalls}
use bdtrace.Tracer.Process.{ProcessState, Regs, Kernel, OsConstants, Tracee, among, entry_next}
use bdtrace.Tracer.Stops.{
  pending_of, decode_syscall_entry, slow_stop, clear_pending, is_minus, handle_seccomp_stop,
  handle_syscall_stop, Counters, skips, to_next_stop, run_on,
}
use bdtrace.Tracer.Stops.Exit.{
  record_exit, note_open, note_result, note_success, note_two, note_exec, note_chdir, note_path,
  note_failure,
}

-- Every call of the first list is one of the second.
sub : List Syscall → List Syscall → Bool
sub [] big = true
sub (s ∷ l) big =
    member (nr x86_64 s) (map (nr x86_64) big)
    && member (nr i386 s) (map (nr i386) big)
    && sub l big

among-sub :
    (a : Arch) (sc : ℤ) (l big : List Syscall)
    → sub l big ≡ true
    → among a sc big ≡ false
    → among a sc l ≡ false
unfolding among sub member
among-sub a (negsuc n) l big h e = refl
among-sub a (pos n) [] big h e = refl
among-sub x86_64 (pos n) (s ∷ l) big h e =
    ground (arith, among-sub x86_64 (pos n) l big, ==_iff n (nr x86_64 s))
among-sub i386 (pos n) (s ∷ l) big h e =
    ground (arith, among-sub i386 (pos n) l big, ==_iff n (nr i386 s))

-- Without a path and without fchdir there is nothing to record at the exit.
record_exit-nothing :
    (a : Arch) (os : OsConstants) (kern : Kernel) (rax : ℤ) (t : Tracee)
    → t.ps.pending_path_addr ≡ 0
    → t.ps.pending_path_addr2 ≡ 0
    → among a t.ps.pending_syscall (sys_fchdir ∷ []) ≡ false
    → record_exit a os kern rax t ≡ t
unfolding record_exit note_open note_result note_success note_two note_exec note_chdir note_path
    note_failure
record_exit-nothing a os kern (pos n) t p p2 f = rw (p, p2, f) (ground arith)
record_exit-nothing a os kern (negsuc n) t p p2 f = rw (p, p2, f) (ground arith)

-- The exit is needed exactly if a path is pending or the call is fchdir.
abbrev pub Consistent : Arch → ProcessState → Type 0
Consistent a ps =
    ps.exit_needed
    ≡ (not (ps.pending_path_addr == 0) || among a ps.pending_syscall (sys_fchdir ∷ []))

cleared :
    (t : Tracee)
    → t.ps.pending_path_addr ≡ 0
    → t.ps.pending_path_addr2 ≡ 0
    → t.ps.exit_needed ≡ false
    → record t { ps = record t.ps { sc_phase = entry_next; pending_syscall = negsuc 0 } }
      ≡ clear_pending (record t { ps = record t.ps { sc_phase = entry_next } })
unfolding clear_pending
cleared t p p2 x = rw (p, p2, x) refl

skips-needless : (ps : ProcessState) → skips ps ≡ true → ps.exit_needed ≡ false
unfolding skips
skips-needless ps s = ground arith

-- The fast path: an exit stop that is not looked at, since the call was decoded as one of no interest,
-- would have reported nothing and left the same state, if no second path is pending.
pub fast_path_loses_nothing :
    (a : Arch) (os : OsConstants) (kern : Kernel) (regs : Regs) (cnt : Counters) (t : Tracee)
    → Consistent a t.ps
    → skips t.ps ≡ true
    → t.ps.pending_path_addr2 ≡ 0
    → is_minus os.enosys regs.retval ≡ false
    → (handle_syscall_stop a os kern none cnt t).1 ≡ slow_stop a os kern regs t
unfolding handle_syscall_stop slow_stop
fast_path_loses_nothing a os kern regs cnt t c s p2 n =
    rw (s, n)
      (cleared t addr p2 needless
        ∙ ap clear_pending (
            sym (
              record_exit-nothing a os kern regs.retval
                (record t { ps = record t.ps { sc_phase = entry_next } }) addr p2 other)))
  where
    needless : t.ps.exit_needed ≡ false
    needless = skips-needless t.ps s

    addr : t.ps.pending_path_addr ≡ 0
    addr = ground (arith, c, needless)

    other : among a t.ps.pending_syscall (sys_fchdir ∷ []) ≡ false
    other = ground (arith, c, needless)

decode-Consistent :
    (a : Arch) (os : OsConstants) (regs : Regs) (sc : ℤ) (ps : ProcessState)
    → Consistent a (decode_syscall_entry a os regs sc ps)
unfolding decode_syscall_entry
decode-Consistent a os regs sc ps = refl

skip-Consistent :
    (a : Arch) (ps : ProcessState)
    → Consistent a ps
    → ps.exit_needed ≡ false
    → Consistent a (record ps { sc_phase = entry_next; pending_syscall = negsuc 0 })
unfolding among
skip-Consistent a ps c x = ground (arith, c, x)

-- Whatever the stop and its registers, `handle_syscall_stop` keeps the exit flag in step with what is
-- pending, from a state in which it is.
pub handle_syscall_stop-Consistent :
    (a : Arch) (os : OsConstants) (kern : Kernel) (regs : Option Regs) (cnt : Counters) (t : Tracee)
    → Consistent a t.ps
    → Consistent a (handle_syscall_stop a os kern regs cnt t).1.ps
unfolding handle_syscall_stop slow_stop clear_pending among
handle_syscall_stop-Consistent a os kern none cnt t c = elim (Bool-cases (skips t.ps)) [
  | inl s ↦ rw s (skip-Consistent a t.ps c (skips-needless t.ps s))
  | inr s ↦ rw s c
]
handle_syscall_stop-Consistent a os kern (some r) cnt t c = elim (Bool-cases (skips t.ps)) [
  | inl s ↦ rw s (skip-Consistent a t.ps c (skips-needless t.ps s))
  | inr s ↦ elim (Bool-cases (is_minus os.enosys r.retval)) [
    | inl m ↦ rw (s, m) (decode-Consistent a os r r.syscall _)
    | inr m ↦ rw (s, m) refl
  ]
]

untraced_idle :
    (a : Arch) (os : OsConstants) (regs : Regs) (sc : ℤ) (ps : ProcessState)
    → among a sc traced_syscalls ≡ false
    → (decode_syscall_entry a os regs sc ps).exit_needed ≡ false
unfolding decode_syscall_entry pending_of sub member nr
untraced_idle a os regs sc ps e =
    let off = λ (l : List Syscall) (h : sub l traced_syscalls ≡ true).
      among-sub a sc l traced_syscalls h e in
    rw
      (
        off (sys_open ∷ []) refl,
        off (sys_openat ∷ sys_openat2 ∷ []) refl,
        off (sys_creat ∷ []) refl,
        off
            (sys_stat ∷ sys_lstat ∷ sys_access ∷ sys_chdir ∷ sys_unlink ∷ sys_mkdir ∷ sys_chmod
              ∷ sys_chown ∷ sys_readlink ∷ sys_truncate ∷ sys_mknod ∷ sys_execve ∷ [])
            refl,
        off
            (sys_newfstatat ∷ sys_faccessat ∷ sys_faccessat2 ∷ sys_unlinkat ∷ sys_mkdirat
              ∷ sys_fchmodat ∷ sys_fchownat ∷ sys_readlinkat ∷ sys_utimensat ∷ sys_mknodat
              ∷ sys_execveat ∷ sys_statx ∷ [])
            refl,
        off (sys_rename ∷ sys_link ∷ sys_symlink ∷ []) refl,
        off (sys_renameat ∷ sys_renameat2 ∷ []) refl,
        off (sys_linkat ∷ []) refl,
        off (sys_symlinkat ∷ []) refl,
        off (sys_fchdir ∷ []) refl,
      )
      refl

-- The filter loses nothing: a call whose exit is needed is one of those that the filter stops.
pub traced_complete :
    (a : Arch) (os : OsConstants) (regs : Regs) (ps : ProcessState)
    → (decode_syscall_entry a os regs regs.syscall ps).exit_needed ≡ true
    → among a regs.syscall traced_syscalls ≡ true
traced_complete a os regs ps h = ground (arith, untraced_idle a os regs regs.syscall ps)

-- Tracing with the filter and without it agree: the stop of the filter leaves the tracee as the entry
-- stop does, if the exit is needed; otherwise as the entry stop and the unread exit stop do.
pub seccomp_agrees :
    (a : Arch) (os : OsConstants) (kern : Kernel) (regs : Regs) (cnt : Counters) (t : Tracee)
    → is_minus os.enosys regs.retval ≡ true
    → let seccomp = handle_seccomp_stop a os (some regs) t.ps in
      let entered = slow_stop a os kern regs t in
      (entered.reports ≡ t.reports)
      × (entered.ps.exit_needed ≡ true → (seccomp.0 ≡ entered.ps) × (seccomp.1 ≡ to_next_stop))
      × (entered.ps.exit_needed ≡ false
          → (seccomp.0 ≡ (handle_syscall_stop a os kern none cnt entered).1.ps)
            × (seccomp.1 ≡ run_on))
unfolding handle_seccomp_stop slow_stop handle_syscall_stop skips decode_syscall_entry
seccomp_agrees a os kern regs cnt t m =
    rw m (refl, (λ x. rw x (refl, refl)), (λ x. rw x (refl, refl)))
