-- ===== src/Tracer/Events/Race.antt =====
-- The two orders in which the first stop of a child and its parent's fork event can be reported
-- (the notes in `run_event_loop` and `handle_fork_event` of src/tracer/ptrace_backend.cpp).
use bdtrace.Common.{
  ℕ, ◌+◌, ◌≡◌, ◌≢◌, refl, ap, ◌∙◌, Bool, true, false, List, [], ◌∷◌, Option, none, some, ◌==◌,
  if◌then◌else◌, nat_ord, arith, ==_iff,
}
use bdtrace.Common.Maps.{Map, find, put, find-put}
use bdtrace.Tracer.Syscalls.{Arch}
use bdtrace.Tracer.Process.{ProcessState, new_state, OsConstants}
use bdtrace.Tracer.Events.{
  World, Act, sets_up, Backend, handle_fork_event, fork_with, adopt, or_read,
}
use bdtrace.Tracer.Events.Dispatch.{
  stopped, fork_event, signal_stop, on_report, dispatch, enter, on_stop, swallow, sigstop,
}

enter-known :
    (pid : ℕ) (stopping : Bool) (b : Backend) (ps : ProcessState)
    → find pid b.procs ≡ some ps
    → enter pid stopping b ≡ (ps, b, [])
unfolding enter
enter-known pid stopping b ps e = rw (e, enter) refl

enter-new :
    (pid : ℕ) (stopping : Bool) (b : Backend)
    → find pid b.procs ≡ none
    → enter pid stopping b ≡ (
      new_state pid 0,
      record b {
        procs = put pid (new_state pid 0) b.procs;
        race_unknown_first = b.race_unknown_first + 1;
      },
      if stopping then sets_up pid ∷ [] else [],
    )
unfolding enter
enter-new pid stopping b e = rw (e, enter) refl

module _ (a : Arch) (os : OsConstants) (procs_only : Bool) (w : World) (parent child : ℕ) where
  -- The parent stops at the fork.
  unfoldable pub forks : Backend → Backend
  forks b = (on_report a os procs_only w parent (stopped (fork_event child)) b).0

  -- The child's first stop.
  unfoldable pub first_stop : Backend → Backend
  first_stop b = (on_report a os procs_only w child (stopped (signal_stop sigstop)) b).0

  -- The child's entry once both were reported.
  unfoldable pub adopted : ProcessState → ProcessState
  adopted ps = record (new_state child parent) {
    cached_cwd = or_read ps.cached_cwd (w.kernel child).read_cwd;
    cached_cmdline = or_read ps.cached_cmdline (w.read_cmdline child);
    traced = true;
  }

  child_known : child ≢ 0 → (child == 0) ≡ false
  child_known n = ground (arith, n, ==_iff child 0)

  find-child : (ps : ProcessState) (m : Map ℕ ProcessState) → find child (put child ps m) ≡ some ps
  find-child ps m = ground (arith, find-put child child ps m, ==_iff child child)

  abbrev fork_base : Backend → Backend
  fork_base b = record b { fork_events = b.fork_events + 1 }

  forks-new :
      (b : Backend) (ps : ProcessState) (entry : Option ProcessState)
      → child ≢ 0
      → find parent b.procs ≡ some ps
      → find child b.procs ≡ entry
      → ((forks b).procs
          ≡ put child
              (adopt child parent
                (or_read ps.cached_cwd (w.kernel child).read_cwd)
                (or_read ps.cached_cmdline (w.read_cmdline child))
                entry)
              b.procs)
        × ((forks b).sigstop_reinjected ≡ b.sigstop_reinjected)
  unfolding forks on_report dispatch on_stop handle_fork_event fork_with
  forks-new b ps entry n e f =
      let fork_event_of = λ (ps1 : Option ProcessState) (ps2 : Option ProcessState).
        (if child == 0
          then (fork_base b, [])
          else fork_with w parent child ps1 ps2 (fork_base b)) in
      let round = λ (en : ProcessState × Backend × List Act).
        (dispatch a os procs_only w parent (stopped (fork_event child)) en).0 in
      let looked = ap round (enter-known parent true b ps e) in
      let both =
        ap (λ o. (fork_event_of o (find child b.procs)).0) e
        ∙ ap (λ o. (fork_event_of (some ps) o).0) f in
      let result = looked ∙ both in
      (
        ap (λ (c : Backend). c.procs) result ∙ rw (child_known n) refl,
        ap (λ (c : Backend). c.sigstop_reinjected) result ∙ rw (child_known n) refl,
      )

  first_stop-new :
      (b : Backend)
      → find child b.procs ≡ none
      → ((first_stop b).procs
          ≡ put child
              (record (new_state child 0) { traced = true })
              (put child (new_state child 0) b.procs))
        × ((first_stop b).sigstop_reinjected ≡ b.sigstop_reinjected)
  unfolding first_stop on_report dispatch on_stop swallow new_state
  first_stop-new b e =
      let looked =
        ap (λ en. (dispatch a os procs_only w child (stopped (signal_stop sigstop)) en).0)
          (enter-new child true b e) in
      (ap (λ (c : Backend). c.procs) looked, ap (λ (c : Backend). c.sigstop_reinjected) looked)

  first_stop-known :
      (b : Backend) (ps : ProcessState)
      → find child b.procs ≡ some ps
      → ps.traced ≡ false
      → ((first_stop b).procs ≡ put child (record ps { traced = true }) b.procs)
        × ((first_stop b).sigstop_reinjected ≡ b.sigstop_reinjected)
  unfolding first_stop on_report dispatch on_stop swallow
  first_stop-known b ps e t =
      let looked =
        ap (λ en. (dispatch a os procs_only w child (stopped (signal_stop sigstop)) en).0)
          (enter-known child true b ps e) in
      (
        ap (λ (c : Backend). c.procs) looked ∙ rw t refl,
        ap (λ (c : Backend). c.sigstop_reinjected) looked ∙ rw t refl,
      )

-- A child that is forked by a known parent, and that was not known itself, ends with the same entry in
-- both orders of its first stop and the fork event: with its parent, the parent's cached directory
-- and command line (or what /proc says, where they are empty) and marked as traced. In neither order
-- is its first SIGSTOP given back to it.
pub orders_agree :
    (a : Arch) (os : OsConstants) (procs_only : Bool) (w : World) (parent child : ℕ) (b : Backend)
    (ps : ProcessState)
    → child ≢ 0
    → child ≢ parent
    → find parent b.procs ≡ some ps
    → find child b.procs ≡ none
    → let fork_first =
        first_stop a os procs_only w parent child (forks a os procs_only w parent child b) in
      let stop_first =
        forks a os procs_only w parent child (first_stop a os procs_only w parent child b) in
      (find child fork_first.procs ≡ some (adopted a os procs_only w parent child ps))
      × (find child stop_first.procs ≡ some (adopted a os procs_only w parent child ps))
      × (fork_first.sigstop_reinjected ≡ b.sigstop_reinjected)
      × (stop_first.sigstop_reinjected ≡ b.sigstop_reinjected)
unfolding adopted adopt new_state
orders_agree a os procs_only w parent child b ps n d e f =
    let after_fork = forks-new a os procs_only w parent child b ps none n e f in
    let after_stop = first_stop-new a os procs_only w parent child b f in
    let known =
      ap (find child) after_fork.0 ∙ find-child a os procs_only w parent child _ b.procs in
    let then_stop =
      first_stop-known a os procs_only w parent child (forks a os procs_only w parent child b) _
        known refl in
    let kept =
      ap (find parent) after_stop.0
      ∙ (ground (
        arith,
        find-put parent child (record (new_state child 0) { traced = true })
            (put child (new_state child 0) b.procs),
        find-put parent child (new_state child 0) b.procs,
        ==_iff parent child,
        e,
        d,
      )) in
    let waits = ap (find child) after_stop.0 ∙ find-child a os procs_only w parent child _ _ in
    let then_fork =
      forks-new a os procs_only w parent child (first_stop a os procs_only w parent child b) ps _ n
        kept waits in
    (
      ap (find child) then_stop.0 ∙ find-child a os procs_only w parent child _ _,
      ap (find child) then_fork.0 ∙ find-child a os procs_only w parent child _ _,
      then_stop.1 ∙ after_fork.1,
      then_fork.1 ∙ after_stop.1,
    )
