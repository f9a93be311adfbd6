-- ===== src/Tracer/Seccomp/Tests.antt =====
-- The filter on a machine that runs the three instructions.
use bdtrace.Common.{
  ℕ, zero, suc, ◌+◌, ◌≡◌, refl, ap, ◌∙◌, List, [], ◌∷◌, some, get_elem?, ◌==◌, if◌then◌else◌, arith,
  nat_ord, ◌&&◌,
}
use bdtrace.Common.Sets.{member}
use bdtrace.Tracer.Syscalls.{x86_64, nr, audit_arch}
use bdtrace.Tracer.Seccomp.{
  Insn, ld_w_abs, jeq_k, ret_k, ret_trace, ret_allow, traced_numbers, seccomp_filter,
  filter_program, comparisons,
}
use bdtrace.Tracer.Seccomp.Filter.{SeccompData, word_at, Machine, seccomp_filter_exact}

-- The rest of a program, of which some instructions are skipped first.
go : List Insn → SeccompData → ℕ → ℕ → ℕ
go [] d skip acc = 0
go (i ∷ is) d (suc skip) acc = go is d skip acc
go (i ∷ is) d zero acc =
    let rest =
      go is d (if i.opcode == jeq_k then if acc == i.k then i.jt else i.jf else 0)
        (if i.opcode == ld_w_abs then word_at d i.k else acc) in
    if i.opcode == ret_k then i.k else rest

next : (n : ℕ) → suc (n + 1) ≡ suc n + 1
next n = omega arith

later : (n k : ℕ) → suc (n + 1 + k) ≡ suc n + 1 + k
later n k = omega arith

go-load :
    (prog : List Insn) (d : SeccompData) (pc acc : ℕ) (i : Insn)
    → get_elem? prog pc ≡ some i
    → i.opcode ≡ ld_w_abs
    → go prog d pc acc ≡ go prog d (pc + 1) (word_at d i.k)
unfolding go
go-load [] d pc acc i e o = ground arith
go-load (j ∷ is) d zero acc i e o = ground (arith, e, o)
go-load (j ∷ is) d (suc pc) acc i e o =
    go-load is d pc acc i e o ∙ ap (λ (n : ℕ). go (j ∷ is) d n (word_at d i.k)) (next pc)

go-jump :
    (prog : List Insn) (d : SeccompData) (pc acc : ℕ) (i : Insn)
    → get_elem? prog pc ≡ some i
    → i.opcode ≡ jeq_k
    → go prog d pc acc ≡ go prog d (pc + 1 + (if acc == i.k then i.jt else i.jf)) acc
unfolding go
go-jump [] d pc acc i e o = ground arith
go-jump (j ∷ is) d zero acc i e o = ground (arith, e, o)
go-jump (j ∷ is) d (suc pc) acc i e o =
    go-jump is d pc acc i e o
    ∙ ap (λ (n : ℕ). go (j ∷ is) d n acc) (later pc (if acc == i.k then i.jt else i.jf))

go-ret :
    (prog : List Insn) (d : SeccompData) (pc acc : ℕ) (i : Insn)
    → get_elem? prog pc ≡ some i
    → i.opcode ≡ ret_k
    → go prog d pc acc ≡ i.k
unfolding go
go-ret [] d pc acc i e o = ground arith
go-ret (j ∷ is) d zero acc i e o = ground (arith, e, o)
go-ret (j ∷ is) d (suc pc) acc i e o = go-ret is d pc acc i e o

abbrev interpreter : Machine
interpreter = record { run = go; load = go-load; jump = go-jump; ret = go-ret }

abbrev opens : SeccompData
opens = record { number = 2; arch = 0xC000003E }

seccomp_filter_exact_example : interpreter.run (seccomp_filter x86_64) opens 0 0 ≡ (
    if opens.arch == audit_arch x86_64 && member opens.number (traced_numbers x86_64)
    then ret_trace
    else ret_allow)
seccomp_filter_exact_example = seccomp_filter_exact interpreter x86_64 opens

-- open(2) stops, close(3) does not.
open_stops : interpreter.run (seccomp_filter x86_64) opens 0 0 ≡ ret_trace
unfolding go seccomp_filter filter_program traced_numbers comparisons nr audit_arch
open_stops = refl

close_runs :
    interpreter.run (seccomp_filter x86_64) record { number = 3; arch = 0xC000003E } 0 0 ≡ ret_allow
unfolding go seccomp_filter filter_program traced_numbers comparisons nr audit_arch
close_runs = refl
