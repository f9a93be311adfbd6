-- ===== src/Tracer/Seccomp/Filter.antt =====
-- The filter traces exactly the listed calls of its own architecture.
use bdtrace.Common.{
  ℕ, suc, ◌+◌, ◌%◌, ◌<◌, ◌≡◌, refl, ap, ◌∙◌, true, false, ◌&&◌, List, [], ◌∷◌, ◌++◌, some, length,
  length-append, get_elem?, ◌==◌, if◌then◌else◌, arith, nat_ord, Bool-cases, inl, inr,
}
use bdtrace.Common.Sets.{member}
use mathlib.Core.List.{append_assoc}
use bdtrace.Tracer.Syscalls.{Arch, audit_arch}
use bdtrace.Tracer.Seccomp.{
  Insn, ld_w_abs, jeq_k, ret_k, ret_trace, ret_allow, traced_numbers, comparisons, returns,
  filter_program, seccomp_filter, to_uint8,
}

-- `struct seccomp_data`: the words at the offsets 0 and 4.
pub record SeccompData : Type 0 where
  pub number : ℕ
  pub arch : ℕ

abbrev pub word_at : SeccompData → ℕ → ℕ
word_at d k = if k == 0 then d.number else if k == 4 then d.arch else 0

-- Classic BPF as the kernel documents it, for the three instructions in use: what a program returns
-- from a program counter and an accumulator.
pub record Machine : Type 0 where
  pub run : List Insn → SeccompData → ℕ → ℕ → ℕ
  pub load :
      (prog : List Insn) (d : SeccompData) (pc acc : ℕ) (i : Insn)
      → get_elem? prog pc ≡ some i
      → i.opcode ≡ ld_w_abs
      → run prog d pc acc ≡ run prog d (pc + 1) (word_at d i.k)
  pub jump :
      (prog : List Insn) (d : SeccompData) (pc acc : ℕ) (i : Insn)
      → get_elem? prog pc ≡ some i
      → i.opcode ≡ jeq_k
      → run prog d pc acc ≡ run prog d (pc + 1 + (if acc == i.k then i.jt else i.jf)) acc
  pub ret :
      (prog : List Insn) (d : SeccompData) (pc acc : ℕ) (i : Insn)
      → get_elem? prog pc ≡ some i
      → i.opcode ≡ ret_k
      → run prog d pc acc ≡ i.k

get_elem?-middle :
    (pre : List Insn) (i : Insn) (rest : List Insn)
    → get_elem? (pre ++ i ∷ rest) (length pre) ≡ some i
get_elem?-middle [] i rest = refl
get_elem?-middle (x ∷ pre) i rest = get_elem?-middle pre i rest

-- The instruction that stands behind a part of the program whose length is the counter.
instruction_at :
    (prog pre : List Insn) (i : Insn) (rest : List Insn) (pc : ℕ)
    → prog ≡ pre ++ i ∷ rest
    → pc ≡ length pre
    → get_elem? prog pc ≡ some i
instruction_at prog pre i rest pc e p = rw (e, p) (get_elem?-middle pre i rest)

length-comparisons : (xs : List ℕ) → length (comparisons xs) ≡ length xs
unfolding comparisons
length-comparisons [] = refl
length-comparisons (x ∷ xs) = ap suc (length-comparisons xs)

module _ (m : Machine) (d : SeccompData) where
  module _ (pre : List Insn) (x : ℕ) (xs : List ℕ) where
    jeq : Insn
    jeq = record { opcode = jeq_k; jt = to_uint8 (length (x ∷ xs)); jf = 0; k = x }

    allow : Insn
    allow = record { opcode = ret_k; jt = 0; jf = 0; k = ret_allow }

    trace : Insn
    trace = record { opcode = ret_k; jt = 0; jf = 0; k = ret_trace }

    whole : List Insn
    whole = pre ++ (comparisons (x ∷ xs) ++ returns)

    before_trace : List Insn
    before_trace = pre ++ (jeq ∷ (comparisons xs ++ allow ∷ []))

    whole-trace : whole ≡ before_trace ++ trace ∷ []
    unfolding whole before_trace jeq allow trace comparisons
    whole-trace = simp append_assoc

    length-before_trace : length before_trace ≡ length pre + 1 + suc (length xs)
    unfolding before_trace
    length-before_trace = omega (
      arith,
      length-append pre (jeq ∷ (comparisons xs ++ allow ∷ [])),
      length-append (comparisons xs) (allow ∷ []),
      length-comparisons xs,
    )

    whole-next : whole ≡ (pre ++ jeq ∷ []) ++ (comparisons xs ++ returns)
    unfolding whole jeq comparisons
    whole-next = simp append_assoc

    whole-jeq : whole ≡ pre ++ jeq ∷ (comparisons xs ++ returns)
    unfolding whole jeq comparisons
    whole-jeq = refl

    jeq-parts : (jeq.opcode ≡ jeq_k) × (jeq.k ≡ x) × (jeq.jt ≡ suc (length xs) % 256) × (jeq.jf ≡ 0)
    unfolding jeq
    jeq-parts = (refl, refl, refl, refl)

    trace-parts : (trace.opcode ≡ ret_k) × (trace.k ≡ ret_trace)
    unfolding trace
    trace-parts = (refl, refl)

    take_jump :
        (acc : ℕ)
        → suc (length xs) < 256
        → (acc == x) ≡ true
        → m.run whole d (length pre) acc ≡ ret_trace
    take_jump acc h hit =
        m.jump whole d (length pre) acc jeq
          (instruction_at whole pre jeq (comparisons xs ++ returns) (length pre) whole-jeq refl)
          jeq-parts.0
        ∙ m.ret whole d _ acc trace
            (instruction_at whole before_trace trace [] _ whole-trace
              (ground (arith, jeq-parts, length-before_trace)))
            trace-parts.0
        ∙ trace-parts.1

    pass_by :
        (acc : ℕ)
        → (acc == x) ≡ false
        → m.run whole d (length pre) acc
          ≡ m.run
              ((pre ++ jeq ∷ []) ++ (comparisons xs ++ returns))
              d
              (length (pre ++ jeq ∷ []))
              acc
    pass_by acc miss =
        m.jump whole d (length pre) acc jeq
          (instruction_at whole pre jeq (comparisons xs ++ returns) (length pre) whole-jeq refl)
          jeq-parts.0
        ∙ ap (λ pc. m.run whole d pc acc) (ground (arith, jeq-parts, length-append pre (jeq ∷ [])))
        ∙ ap (λ prog. m.run prog d (length (pre ++ jeq ∷ [])) acc) whole-next

  run-comparisons :
      (xs : List ℕ) (pre : List Insn) (acc : ℕ)
      → length xs < 256
      → m.run (pre ++ (comparisons xs ++ returns)) d (length pre) acc
        ≡ (if member acc xs then ret_trace else ret_allow)
  unfolding comparisons member whole
  run-comparisons [] pre acc h =
      m.ret (pre ++ returns) d (length pre) acc
        record { opcode = ret_k; jt = 0; jf = 0; k = ret_allow }
        (instruction_at (pre ++ returns) pre _ _ (length pre) refl refl) refl
  run-comparisons (x ∷ xs) pre acc h = elim (Bool-cases (acc == x)) [
    | inl hit ↦ take_jump pre x xs acc (omega arith) hit ∙ rw hit refl
    | inr miss ↦
        pass_by pre x xs acc miss
        ∙ run-comparisons xs (pre ++ jeq pre x xs ∷ []) acc (omega arith)
        ∙ rw miss refl
  ]

  run-filter_program :
      (arch : ℕ) (xs : List ℕ)
      → length xs + 1 < 256
      → m.run (filter_program arch xs) d 0 0
        ≡ (if d.arch == arch && member d.number xs then ret_trace else ret_allow)
  unfolding filter_program
  run-filter_program arch xs h =
      m.load (filter_program arch xs) d 0 0 record { opcode = ld_w_abs; jt = 0; jf = 0; k = 4 } refl
        refl
      ∙ m.jump (filter_program arch xs) d 1 d.arch
          record { opcode = jeq_k; jt = 0; jf = to_uint8 (length xs + 1); k = arch } refl refl
      ∙ elim (Bool-cases (d.arch == arch)) [
        | inl same ↦
            ap (λ pc. m.run (filter_program arch xs) d pc d.arch) (rw same refl)
            ∙ m.load (filter_program arch xs) d 2 d.arch
                record { opcode = ld_w_abs; jt = 0; jf = 0; k = 0 } refl refl
            ∙ run-comparisons xs (head arch xs) d.number (omega arith)
            ∙ rw same refl
        | inr other ↦
            ap (λ pc. m.run (filter_program arch xs) d pc d.arch) (ground (arith, other))
            ∙ m.ret (filter_program arch xs) d (3 + length xs) d.arch
                record { opcode = ret_k; jt = 0; jf = 0; k = ret_allow }
                (instruction_at (filter_program arch xs) (head arch xs ++ comparisons xs) _
                  (record { opcode = ret_k; jt = 0; jf = 0; k = ret_trace } ∷ []) _ refl
                  (omega (arith, length-comparisons xs)))
                refl
            ∙ rw other refl
      ]
    where
      head : ℕ → List ℕ → List Insn
      head arch xs =
          record { opcode = ld_w_abs; jt = 0; jf = 0; k = 4 }
          ∷ record { opcode = jeq_k; jt = 0; jf = to_uint8 (length xs + 1); k = arch }
          ∷ record { opcode = ld_w_abs; jt = 0; jf = 0; k = 0 }
          ∷ []

few_calls : (a : Arch) → length (traced_numbers a) + 1 < 256
unfolding traced_numbers
few_calls a = omega arith

-- On every machine that runs classic BPF as it is documented, the filter installed on an architecture
-- stops a call for the tracer exactly if the call comes from that architecture and its number is one
-- of the traced ones, and lets every other call go on.
pub seccomp_filter_exact :
    (m : Machine) (a : Arch) (d : SeccompData)
    → m.run (seccomp_filter a) d 0 0 ≡ (
        if d.arch == audit_arch a && member d.number (traced_numbers a)
        then ret_trace
        else ret_allow)
unfolding seccomp_filter
seccomp_filter_exact m a d = run-filter_program m d (audit_arch a) (traced_numbers a) (few_calls a)
