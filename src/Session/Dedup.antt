-- ===== src/Session/Dedup.antt =====
-- Each access of one incarnation of a process is written once.
use bdtrace.Common.{
  ℕ, ◌+◌, ◌≡◌, refl, ◌==◌, Bool, true, false, ◌&&◌, ◌||◌, List, [], ◌∷◌, nat_ord, text_ord,
  pair_ord, if◌then◌else◌, Text, arith, ==_iff, Bool-cases, Option-cases, length, All, pair_eq,
  pair_eq_iff, inl, inr,
}
use bdtrace.Common.Sets.{member, insert, member-insert}
use bdtrace.Common.Maps.{Map, find, erase, find_or, find_or-put, find-erase}
use bdtrace.Records.{mode_num}
use bdtrace.Session.{
  Session, restart, register, on_process_start, on_process_exit, on_file_access, on_failed_access,
  already_seen, failed_key, delete_process, Call, starts, exits, accesses, fails, deletes, step,
}

-- Whether the call reports the access of `pid` with this key.
abbrev pub reports : ℕ → ℕ × Text → Call → Bool
reports pid k (accesses r) = r.pid == pid && pair_eq k (mode_num r.mode, r.filename)
reports pid k (fails r) = r.pid == pid && pair_eq k (failed_key r, r.filename)
reports pid k (starts r) = false
reports pid k (exits p x) = false
reports pid k (deletes p) = false

-- Whether the call begins or ends an incarnation of `pid`.
abbrev pub renews : ℕ → Call → Bool
renews pid (starts r) = r.pid == pid
renews pid (exits p x) = p == pid
renews pid (accesses r) = false
renews pid (fails r) = false
renews pid (deletes p) = false

abbrev pub has_seen : Session → ℕ → ℕ × Text → Bool
has_seen s pid k = member k (find_or [] pid s.seen)

-- The number of events that the calls which report this access queue.
unfoldable pub written : ℕ → ℕ × Text → List Call → Session → ℕ
written pid k [] s = 0
written pid k (c ∷ cs) s =
    (if reports pid k c then length (step false c s).1 else 0) + written pid k cs (step false c s).0

unfoldable pub any_reports : ℕ → ℕ × Text → List Call → Bool
any_reports pid k [] = false
any_reports pid k (c ∷ cs) = reports pid k c || any_reports pid k cs

seen-register : (p : ℕ) (s : Session) → (register p s).seen ≡ erase p s.seen
unfolding register restart
seen-register p s = elim (Option-cases (find p s.pid_gen)) [
  | inl e ↦ rw (e, register)
  | inr (g, e) ↦ rw (e, register) (ground arith)
]

find_or-erase :
    (q p : ℕ) (m : Map ℕ (List (ℕ × Text)))
    → find_or [] q (erase p m) ≡ (if q == p then [] else find_or [] q m)
unfolding find_or
find_or-erase q p m = ground (arith, find-erase q p m)

module _ (pid key : ℕ) (f : Text) (s : Session) where
  already_seen-answer : (already_seen pid key f s).1 ≡ has_seen s pid (key, f)
  unfolding already_seen
  already_seen-answer = ground arith

  already_seen-adds :
      (q : ℕ) (k : ℕ × Text)
      → has_seen (already_seen pid key f s).0 q k
        ≡ (q == pid && pair_eq k (key, f) || has_seen s q k)
  unfolding already_seen
  already_seen-adds q k = elim (Bool-cases (has_seen s pid (key, f))) [
    | inl old ↦ rw old (
        ground (
          arith,
          find_or-put [] q pid (find_or [] pid s.seen) s.seen,
          ==_iff q pid,
          pair_eq_iff k (key, f),
        ))
    | inr new ↦ rw new (
        ground (
          arith,
          find_or-put [] q pid (insert (key, f) (find_or [] pid s.seen)) s.seen,
          member-insert k (key, f) (find_or [] pid s.seen),
          ==_iff q pid,
        ))
  ]

module _ (pid : ℕ) (k : ℕ × Text) where
  -- A call that reports the access queues an event exactly if it was not seen.
  step-writes :
      (c : Call) (s : Session)
      → reports pid k c ≡ true
      → length (step false c s).1 ≡ (if has_seen s pid k then 0 else 1)
  unfolding step on_file_access on_failed_access
  step-writes (accesses r) s h = ground (
    arith,
    already_seen-answer r.pid (mode_num r.mode) r.filename s,
    ==_iff r.pid pid,
    pair_eq_iff k (mode_num r.mode, r.filename),
  )
  step-writes (fails r) s h = ground (
    arith,
    already_seen-answer r.pid (failed_key r) r.filename s,
    ==_iff r.pid pid,
    pair_eq_iff k (failed_key r, r.filename),
  )
  step-writes (starts r) s h = absurd (cc)
  step-writes (exits p x) s h = absurd (cc)
  step-writes (deletes p) s h = absurd (cc)

  -- What is seen after a call that neither begins nor ends the incarnation.
  step-sees :
      (c : Call) (s : Session)
      → renews pid c ≡ false
      → has_seen (step false c s).0 pid k ≡ (reports pid k c || has_seen s pid k)
  unfolding step on_file_access on_failed_access on_process_start on_process_exit delete_process
      member
  step-sees (accesses r) s h = ground (
    arith,
    already_seen-adds r.pid (mode_num r.mode) r.filename s pid k,
    ==_iff r.pid pid,
    ==_iff pid r.pid,
  )
  step-sees (fails r) s h = ground (
    arith,
    already_seen-adds r.pid (failed_key r) r.filename s pid k,
    ==_iff r.pid pid,
    ==_iff pid r.pid,
  )
  step-sees (starts r) s h =
      rw (seen-register r.pid s)
        (ground (arith, find_or-erase pid r.pid s.seen, ==_iff r.pid pid, ==_iff pid r.pid))
  step-sees (exits p x) s h = ground (arith, find_or-erase pid p s.seen, ==_iff p pid, ==_iff pid p)
  step-sees (deletes p) s h = refl

  -- While one incarnation lasts, the calls that report an access queue one event altogether, and
  -- none if the access was seen before.
  pub written_once :
      (cs : List Call) (s : Session)
      → All (λ c. renews pid c ≡ false) cs
      → written pid k cs s ≡ (if has_seen s pid k then 0 else if any_reports pid k cs then 1 else 0)
  unfolding written any_reports
  written_once [] s h = ground arith
  written_once (c ∷ cs) s h =
      ground (arith, step-writes c s, step-sees c s h.0, written_once cs (step false c s).0 h.1)
