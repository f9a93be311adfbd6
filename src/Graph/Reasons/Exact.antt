-- ===== src/Graph/Reasons/Exact.antt =====
-- `rebuild_bfs_reasons` ends, its keys are the result of `rebuild_bfs`, and its reasons are exactly
-- the edges by which the change spreads.
use mathlib.Core.Logic.{∥∥₁_elim}
use mathlib.Core.Bool.{So-prop}
use bdtrace.Common.{
  ℕ, zero, suc, ◌<◌, ◌≡◌, refl, sym, ap, ◌∙◌, ◌↔◌, ◌⊎◌, inl, inr, true, false, List, [], ◌∷◌, some,
  nat_ord, text_ord, Text, arith, Bool-cases, List-cases, ==_iff,
}
use bdtrace.Common.Sets.{member, beq_refl}
use bdtrace.Common.Maps.{Map, find, find_or}
use bdtrace.Graph.{DependencyGraph}
use bdtrace.Graph.Views.{outputs, Reads, Writes}
use bdtrace.Graph.Rebuild.{Search, expand, bfs_fuel}
use bdtrace.Graph.Rebuild.Scan.{
  scan_files-eq, expand-eq, worklist-offer_all, affected-offer_all, readers_of,
}
use bdtrace.Graph.Rebuild.Correct.{
  Affected, Inv, start, start-Inv, expand-Inv, work, work-expand, start-work, complete,
}
use bdtrace.Graph.Reasons.{
  RebuildReason, ReasonSearch, note_files, note_outputs, pop, reasons_loop, rebuild_bfs_reasons,
}
use bdtrace.Graph.Reasons.Notes.{
  told, has_key, Keyed, told-note_files, told-note_outputs, search-note_files, search-note_outputs,
  note_files-Keyed, note_outputs-Keyed, has_reason,
}

module _ (g : DependencyGraph) (changed : List Text) where
  -- The reasons that there are for a process: a changed file that it reads, with source 0, or a
  -- file that it reads and an affected process writes, with that process as the source.
  abbrev pub IsReason : Text → ℕ → ℕ → Type 0
  IsReason f q p =
      (q ≡ 0) × (member f changed ≡ true) × Reads g f p
      ⊎ Affected g changed q × Writes g q f × Reads g f p

  record Notes (s : ReasonSearch) : Type 0 where
    inv : Inv g changed s.search
    keyed : Keyed s
    sound : (f : Text) (q p : ℕ) → told f q p s.reason_map ≡ true → IsReason f q p
    seeds :
        (f : Text) (p : ℕ) → member f changed ≡ true → Reads g f p → told f 0 p s.reason_map ≡ true
    spread :
        (f : Text) (q p : ℕ)
        → member q s.search.affected ≡ true
        → member q s.search.worklist ≡ false
        → Writes g q f
        → Reads g f p
        → told f q p s.reason_map ≡ true

  blank : ReasonSearch
  blank = record { search = record { affected = []; worklist = [] }; reason_map = [] }

  first : ReasonSearch
  first = note_files g 0 changed blank

  search-first : first.search ≡ start g changed
  unfolding first blank
  search-first = search-note_files g 0 changed blank ∙ scan_files-eq g changed _

  first-Notes : Notes first
  unfolding first blank member told has_reason has_key find find_or
  first-Notes = record {
    inv = rw search-first (start-Inv g changed);
    keyed = note_files-Keyed g 0 changed blank (λ p. refl);
    sound = λ f q p h. inl (ground (arith, told-note_files f q p g 0 changed blank));
    seeds = λ f p m r. ground (arith, told-note_files f 0 p g 0 changed blank);
    spread = λ f q p a w _ _. absurd (
        ground (
          arith,
          ap (λ (t : Search). member q t.affected) search-first,
          ap (λ (t : Search). member q t.worklist) search-first,
          affected-offer_all (readers_of g changed) blank.search q,
          worklist-offer_all (readers_of g changed) blank.search q,
        ));
  }

  first-work : work g changed first.search < bfs_fuel g
  first-work = rw search-first (start-work g changed)

  first_runs :
      {m : Map ℕ (List RebuildReason)}
      → reasons_loop (bfs_fuel g) g first ≡ some m
      → rebuild_bfs_reasons g changed ≡ some m
  unfolding rebuild_bfs_reasons first blank
  first_runs h = h

  member-nil : (v : ℕ) → member v [] ≡ false
  unfolding member
  member-nil v = refl

  module _ (s : ReasonSearch) (p : ℕ) (rest : List ℕ) (e : s.search.worklist ≡ p ∷ rest) where
    next : ReasonSearch
    next = note_outputs g p (pop rest s)

    popped : Search
    popped = record { affected = s.search.affected; worklist = rest }

    search-next : next.search ≡ expand g p popped
    unfolding next popped
    search-next = search-note_outputs g p (pop rest s)

    module _ (h : Notes s) where
      next-Inv : Inv g changed next.search
      unfolding popped
      next-Inv = rw search-next (expand-Inv g changed s.search p rest e h.inv)

      -- What has left the queue after the round had left it before, or is `p`.
      next_spread :
          (f : Text) (q v : ℕ)
          → member q next.search.affected ≡ true
          → member q next.search.worklist ≡ false
          → Writes g q f
          → Reads g f v
          → told f q v next.reason_map ≡ true
      unfolding next member popped
      next_spread f q v a w wr r =
          let new = readers_of g (outputs g p) in
          ground (
            arith,
            ap (λ (t : Search). member q t.affected) search-next,
            ap (λ (t : Search). member q t.worklist) search-next,
            ap (λ (t : Search). member q t.affected) (expand-eq g p popped),
            ap (λ (t : Search). member q t.worklist) (expand-eq g p popped),
            affected-offer_all new popped q,
            worklist-offer_all new popped q,
            told-note_outputs f q v g p (pop rest s),
            h.spread f q v,
            ap (member q) e,
            ==_iff q p,
          )

      next_sound : (f : Text) (q v : ℕ) → told f q v next.reason_map ≡ true → IsReason f q v
      unfolding next member
      next_sound f q v t = elim (Bool-cases (told f q v s.reason_map)) [
        | inl before ↦ h.sound f q v before
        | inr fresh ↦
            let a = h.inv.sound p (h.inv.queued p (rw e (ground (arith, beq_refl p)))) in
            let (same, w, r) = added fresh in inr (rw same a, rw same w, r)
      ]
        where
          added :
              told f q v s.reason_map ≡ false
              → (q ≡ p) × (member f (outputs g p) ≡ true) × Reads g f v
          added fresh = ground (arith, told-note_outputs f q v g p (pop rest s), ==_iff q p)

      next-Notes : Notes next
      unfolding next
      next-Notes = record {
        inv = next-Inv;
        keyed = note_outputs-Keyed g p (pop rest s) h.keyed;
        sound = next_sound;
        seeds =
            λ f v m r. ground (arith, told-note_outputs f 0 v g p (pop rest s), h.seeds f v m r);
        spread = next_spread;
      }

  reasons_loop-nil :
      (fuel : ℕ) (s : ReasonSearch)
      → s.search.worklist ≡ []
      → reasons_loop (suc fuel) g s ≡ some s.reason_map
  unfolding reasons_loop
  reasons_loop-nil fuel s e = rw (e, reasons_loop)

  reasons_loop-cons :
      (fuel : ℕ) (s : ReasonSearch) (p : ℕ) (rest : List ℕ) (e : s.search.worklist ≡ p ∷ rest)
      → reasons_loop (suc fuel) g s ≡ reasons_loop fuel g (next s p rest e)
  unfolding reasons_loop next
  reasons_loop-cons fuel s p rest e = rw (e, reasons_loop)

  work-next :
      (s : ReasonSearch) (p : ℕ) (rest : List ℕ) (e : s.search.worklist ≡ p ∷ rest)
      → work g changed (next s p rest e).search < work g changed s.search
  unfolding popped
  work-next s p rest e = rw (search-next s p rest e) (work-expand g changed s.search p rest e)

  loop_returns :
      (fuel : ℕ) (s : ReasonSearch)
      → work g changed s.search < fuel
      → Notes s
      → (t : ReasonSearch) × (reasons_loop fuel g s ≡ some t.reason_map)
        × Notes t
        × (t.search.worklist ≡ [])
  loop_returns zero s lt h = elim lt [ ]
  loop_returns (suc fuel) s lt h = elim (List-cases s.search.worklist) [
    | inl done ↦ (s, reasons_loop-nil fuel s done, h, done)
    | inr (p, rest, e) ↦
        let (t, runs, notes, empty) =
          loop_returns fuel (next s p rest e) (omega (arith, work-next s p rest e))
            (next-Notes s p rest e h) in
        (t, reasons_loop-cons fuel s p rest e ∙ runs, notes, empty)
  ]

  module _ (t : ReasonSearch) (h : Notes t) (empty : t.search.worklist ≡ []) where
    all_told : (f : Text) (q p : ℕ) → IsReason f q p → told f q p t.reason_map ≡ true
    all_told f q p (inl (e, m, r)) = rw e (h.seeds f p m r)
    all_told f q p (inr (a, w, r)) =
        h.spread f q p (complete g changed t.search h.inv empty a) (not_queued q) w r
      where
        not_queued : (v : ℕ) → member v t.search.worklist ≡ false
        not_queued v = rw empty (member-nil v)

-- The search ends within the fuel. The map that it returns has an entry for exactly the affected
-- processes, and the entry of `p` holds exactly the reasons that there are: each changed file that
-- `p` reads, with source 0, and each file that `p` reads and an affected process `q` writes, with
-- source `q`.
pub rebuild_bfs_reasons_exact :
    (g : DependencyGraph) (changed : List Text)
    → (m : Map ℕ (List RebuildReason)) × (rebuild_bfs_reasons g changed ≡ some m)
      × ((p : ℕ) → (has_key p m ≡ true) ↔ ∥ Affected g changed p ∥₁)
      × ((f : Text) (q p : ℕ) → (told f q p m ≡ true) ↔ ∥ IsReason g changed f q p ∥₁)
unfolding rebuild_bfs_reasons
rebuild_bfs_reasons_exact g changed =
    let (t, runs, h, empty) =
      loop_returns g changed (bfs_fuel g) (first g changed) (first-work g changed)
        (first-Notes g changed) in
    (
      t.reason_map,
      first_runs g changed runs,
      λ p. (
        λ k. ∣ h.inv.sound p (sym (h.keyed p) ∙ k) ∣₁,
        λ a. ∥∥₁_elim a (So-prop _) (λ b. h.keyed p ∙ complete g changed t.search h.inv empty b),
      ),
      λ f q p. (
        λ k. ∣ h.sound f q p k ∣₁,
        λ a. ∥∥₁_elim a (So-prop _) (all_told g changed t h empty f q p),
      ),
    )
