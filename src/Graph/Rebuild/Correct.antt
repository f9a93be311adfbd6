-- ===== src/Graph/Rebuild/Correct.antt =====
-- `rebuild_bfs` ends, and returns exactly the processes that the change reaches.
use mathlib.Core.Logic.{∥∥₁_elim, ⊎_elim}
use mathlib.Core.Bool.{So-prop}
use bdtrace.Common.{
  ℕ, zero, suc, ◌+◌, ◌<◌, ◌≡◌, ap, ◌∙◌, ◌↔◌, ◌⊎◌, inl, inr, true, List, [], ◌∷◌, some, nat_ord,
  text_ord, Text, arith, length, Bool-cases, List-cases, ==_iff,
}
use bdtrace.Common.Sets.{member, member-append, missing, missing-le, beq_refl}
use bdtrace.Common.Maps.{Map, find, find_or}
use bdtrace.Graph.{DependencyGraph}
use bdtrace.Graph.Views.{outputs, Reads, Writes}
use bdtrace.Graph.Rebuild.{Search, offer_all, expand, all_readers, bfs_loop, bfs_fuel, rebuild_bfs}
use bdtrace.Graph.Rebuild.Scan.{
  readers_of, scan_files-eq, expand-eq, member-readers_of, readers_of-member, affected-offer_all,
  worklist-offer_all, work-offer_all, Within,
}

-- A process is affected if it reads a changed file, or a file that an affected process writes.
pub data Affected (g : DependencyGraph) (changed : List Text) : ℕ → Type 0 where
  seed : {p : ℕ} (f : Text) → member f changed ≡ true → Reads g f p → Affected g changed p
  step :
      {q p : ℕ} (f : Text)
      → Affected g changed q
      → Writes g q f
      → Reads g f p
      → Affected g changed p

all_readers-Within : (m : Map Text (List ℕ)) (f : Text) → Within (all_readers m) (find_or [] f m)
unfolding all_readers find_or find member
all_readers-Within [] f v h = absurd (cc)
all_readers-Within ((e, ps) ∷ m) f v h =
    ground (arith, member-append v ps (all_readers m), all_readers-Within m f v)

readers_of-Within :
    (g : DependencyGraph) (fs : List Text)
    → Within (all_readers g.file_to_readers) (readers_of g fs)
readers_of-Within g fs v h =
    let (f, _, r) = member-readers_of g fs v h in all_readers-Within g.file_to_readers f v r

module _ (g : DependencyGraph) (changed : List Text) where
  pub record Inv (s : Search) : Type 0 where
    pub seeds : (v : ℕ) → member v (readers_of g changed) ≡ true → member v s.affected ≡ true
    pub sound : (v : ℕ) → member v s.affected ≡ true → Affected g changed v
    pub queued : (v : ℕ) → member v s.worklist ≡ true → member v s.affected ≡ true
    pub closed :
        (u v : ℕ)
        → member u s.affected ≡ true
        → member v (readers_of g (outputs g u)) ≡ true
        → (member u s.worklist ≡ true) ⊎ (member v s.affected ≡ true)

  Affected-seed : (v : ℕ) → member v (readers_of g changed) ≡ true → Affected g changed v
  Affected-seed v h = let (f, m, r) = member-readers_of g changed v h in seed f m r

  Affected-step :
      (u v : ℕ)
      → Affected g changed u
      → member v (readers_of g (outputs g u)) ≡ true
      → Affected g changed v
  Affected-step u v a h = let (f, m, r) = member-readers_of g (outputs g u) v h in step f a m r

  abbrev pub start : Search
  start = offer_all (readers_of g changed) (record { affected = []; worklist = [] })

  pub start-Inv : Inv start
  unfolding member
  start-Inv =
      let seeds = readers_of g changed in
      let flags = λ (v : ℕ). affected-offer_all seeds (record { affected = []; worklist = [] }) v in
      let queue = λ (v : ℕ). worklist-offer_all seeds (record { affected = []; worklist = [] }) v in
      record {
        seeds = λ v h. ground (arith, flags v);
        sound = λ v h. Affected-seed v (ground (arith, flags v));
        queued = λ v h. ground (arith, flags v, queue v);
        closed = λ u v h k. ground (arith, flags u, queue u);
      }

  pub expand-Inv :
      (s : Search) (p : ℕ) (rest : List ℕ)
      → s.worklist ≡ p ∷ rest
      → Inv s
      → Inv (expand g p (record s { worklist = rest }))
  unfolding member
  expand-Inv s p rest e h =
      let s' = record s { worklist = rest } in
      let new = readers_of g (outputs g p) in
      let flags = λ (v : ℕ). affected-offer_all new s' v in
      let queue = λ (v : ℕ). worklist-offer_all new s' v in
      let a_p = sound p (queued p (rw e (ground (arith, beq_refl p)))) in
      let old = λ (v : ℕ). ap (member v) e in
      rw (expand-eq g p s') (record {
        seeds = λ v k. ground (arith, flags v, seeds v k);
        sound = λ v k. elim (Bool-cases (member v s.affected)) [
          | inl before ↦ sound v before
          | inr fresh ↦ Affected-step p v a_p (ground (arith, flags v))
        ];
        queued = λ v k. ground (arith, flags v, queue v, queued v, old v);
        closed =
            λ u v k edge. ground (arith, flags u, flags v, queue u, closed u v, old u, ==_iff u p);
      })
    where
      open h use {seeds, sound, queued, closed}

  abbrev pub work : Search → ℕ
  work s = missing (all_readers g.file_to_readers) s.affected + length s.worklist

  bfs_loop-nil :
      (fuel : ℕ) (s : Search) → s.worklist ≡ [] → bfs_loop (suc fuel) g s ≡ some s.affected
  unfolding bfs_loop
  bfs_loop-nil fuel s e = rw (e, bfs_loop)

  bfs_loop-cons :
      (fuel : ℕ) (s : Search) (p : ℕ) (rest : List ℕ)
      → s.worklist ≡ p ∷ rest
      → bfs_loop (suc fuel) g s ≡ bfs_loop fuel g (expand g p (record s { worklist = rest }))
  unfolding bfs_loop
  bfs_loop-cons fuel s p rest e = rw (e, bfs_loop)

  pub work-expand :
      (s : Search) (p : ℕ) (rest : List ℕ)
      → s.worklist ≡ p ∷ rest
      → work (expand g p (record s { worklist = rest })) < work s
  work-expand s p rest e =
      let s' = record s { worklist = rest } in
      let falls =
        work-offer_all (all_readers g.file_to_readers) (readers_of g (outputs g p)) s'
          (readers_of-Within g (outputs g p)) in
      rw (expand-eq g p s') (omega (arith, falls, ap length e))

  loop_returns :
      (fuel : ℕ) (s : Search)
      → work s < fuel
      → Inv s
      → (t : Search) × (bfs_loop fuel g s ≡ some t.affected) × Inv t × (t.worklist ≡ [])
  loop_returns zero s lt h = elim lt [ ]
  loop_returns (suc fuel) s lt h = elim (List-cases s.worklist) [
    | inl done ↦ (s, bfs_loop-nil fuel s done, h, done)
    | inr (p, rest, e) ↦
        let (t, runs, inv, empty) =
          loop_returns fuel (expand g p (record s { worklist = rest }))
            (omega (arith, work-expand s p rest e)) (expand-Inv s p rest e h) in
        (t, bfs_loop-cons fuel s p rest e ∙ runs, inv, empty)
  ]

  nothing_waits : (t : Search) (q : ℕ) → t.worklist ≡ [] → member q t.worklist ≡ true → ⊥
  unfolding member
  nothing_waits t q e m = ground (arith, ap (member q) e)

  pub complete :
      (t : Search)
      → Inv t
      → t.worklist ≡ []
      → {v : ℕ} → Affected g changed v
      → member v t.affected ≡ true
  complete t h e (seed {p} f m r) = h.seeds p (readers_of-member g changed p f m r)
  complete t h e (step {q} {p} f a w r) =
      ⊎_elim (λ waiting. absurd (nothing_waits t q e waiting)) (λ m. m)
        (h.closed q p (complete t h e a) (readers_of-member g (outputs g q) p f w r))

  pub start-work : work start < bfs_fuel g
  unfolding bfs_fuel missing
  start-work = omega (
    arith,
    work-offer_all (all_readers g.file_to_readers) (readers_of g changed)
        (record { affected = []; worklist = [] }) (readers_of-Within g changed),
    missing-le (all_readers g.file_to_readers) [],
  )

  pub start_runs :
      (t : List ℕ) × (bfs_loop (bfs_fuel g) g start ≡ some t)
      × ((p : ℕ) → (member p t ≡ true) ↔ ∥ Affected g changed p ∥₁)
  start_runs =
      let (t, runs, inv, empty) = loop_returns (bfs_fuel g) start start-work start-Inv in
      (
        t.affected,
        runs,
        λ p. (λ m. ∣ inv.sound p m ∣₁, λ a. ∥∥₁_elim a (So-prop _) (complete t inv empty)),
      )

-- The search ends within the fuel. The set that it returns holds exactly the processes that read a
-- changed file, or a file written by a process of the set, and so on.
pub rebuild_bfs_exact :
    (g : DependencyGraph) (changed : List Text)
    → (s : List ℕ) × (rebuild_bfs g changed ≡ some s)
      × ((p : ℕ) → (member p s ≡ true) ↔ ∥ Affected g changed p ∥₁)
unfolding rebuild_bfs
rebuild_bfs_exact g changed =
    let (t, runs, exact) = start_runs g changed in
    (t, rw (scan_files-eq g changed (record { affected = []; worklist = [] })) runs, exact)
