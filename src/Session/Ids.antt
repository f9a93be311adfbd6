-- ===== src/Session/Ids.antt =====
-- Generations of a pid and the identifiers made of them (`current_synth`).
pub mod Invariant
pub mod Fresh
use bdtrace.Common.{
  ℕ, zero, suc, ◌+◌, ◌*◌, ◌%◌, ◌^◌, ◌≤◌, ◌<◌, ◌≡◌, ◌≢◌, refl, sym, ◌==◌, ◌↔◌, ◌⊎◌, inl, inr, Bool,
  true, false, not, ◌&&◌, ◌||◌, List, [], ◌∷◌, ◌++◌, Option, none, some, Ord, nat_ord, text_ord,
  pair_ord, if◌then◌else◌, Text, arith, ==_iff, Bool-cases, Option-cases,
}
use bdtrace.Common.Sets.{member, insert, remove, member-insert, member-remove}
use bdtrace.Common.Maps.{Map, find, put, erase, find_or, find-put}
use bdtrace.Records.{ProcessRecord, mode_num}
use bdtrace.Session.{
  QueuedEvent, proc_start, proc_exit, file_access, failed_access, delete_proc, Session, new_session,
  pid_gen_stride, to_int, current_synth, restart, register, on_process_start, on_process_exit,
  on_file_access, on_failed_access, already_seen, delete_process, Call, starts, exits, accesses,
  fails, deletes, step, run, failed_key,
}

unfoldable pub known : Session → ℕ → Bool
known s p = elim (find p s.pid_gen) [ none ↦ false | some _ ↦ true ]

-- The number of times that the kernel has reused the pid.
unfoldable pub generation : Session → ℕ → ℕ
generation s p = elim (find p s.pid_gen) [ none ↦ 0 | some g ↦ g ]

unfoldable pub ident : ℕ → ℕ → ℕ
ident g p = if g == 0 then p else to_int (g * pid_gen_stride + p)

-- With 213 generations of pids below the stride the identifiers fit an `int`, and each stands for
-- one generation of one pid.
pub ident_inj :
    (g h p q : ℕ)
    → g ≤ 213
    → h ≤ 213
    → p < pid_gen_stride
    → q < pid_gen_stride
    → ident g p ≡ ident h q
    → (g ≡ h) × (p ≡ q)
unfolding ident
ident_inj g h p q bg bh bp bq e = ground arith

pub current_synth-ident : (s : Session) (p : ℕ) → current_synth s p ≡ ident (generation s p) p
unfolding current_synth ident generation
current_synth-ident s p = ground arith

known-restart :
    (p g q : ℕ) (s : Session)
    → known (restart p g s) q ≡ (q == p && not (member p s.expect_reinsert) || known s q)
unfolding restart known
known-restart p g q s = ground (arith, find-put q p (g + 1) s.pid_gen)

generation-restart :
    (p g q : ℕ) (s : Session)
    → generation (restart p g s) q
      ≡ (if q == p && not (member p s.expect_reinsert) then g + 1 else generation s q)
unfolding restart generation
generation-restart p g q s = ground (arith, find-put q p (g + 1) s.pid_gen)

expect-restart :
    (p g q : ℕ) (s : Session)
    → member q (restart p g s).expect_reinsert ≡ (member q s.expect_reinsert && not (q == p))
unfolding restart
expect-restart p g q s = ground (arith, member-remove q p s.expect_reinsert, ==_iff q p)

pub known-register : (s : Session) (p q : ℕ) → known (register p s) q ≡ (q == p || known s q)
unfolding register known generation
known-register s p q = elim (Option-cases (find p s.pid_gen)) [
  | inl e ↦ rw (e, register) (ground (arith, find-put q p 0 s.pid_gen))
  | inr (g, e) ↦
      rw (e, register) (ground (arith, known-restart p g q (record s { seen = erase p s.seen })))
]

pub generation-register :
    (s : Session) (p q : ℕ)
    → generation (register p s) q ≡ (
        if q == p && known s p && not (member p s.expect_reinsert)
        then generation s q + 1
        else generation s q)
unfolding register known generation
generation-register s p q = elim (Option-cases (find p s.pid_gen)) [
  | inl e ↦ rw (e, register) (ground (arith, find-put q p 0 s.pid_gen))
  | inr (g, e) ↦
      rw (e, register)
        (ground (arith, generation-restart p g q (record s { seen = erase p s.seen })))
]

pub expect-register :
    (s : Session) (p q : ℕ)
    → member q (register p s).expect_reinsert
      ≡ (member q s.expect_reinsert && not (q == p && known s p))
unfolding register known
expect-register s p q = elim (Option-cases (find p s.pid_gen)) [
  | inl e ↦ rw (e, register) (ground arith)
  | inr (g, e) ↦
      rw (e, register) (ground (arith, expect-restart p g q (record s { seen = erase p s.seen })))
]
