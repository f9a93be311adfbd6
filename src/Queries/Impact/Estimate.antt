-- ===== src/Queries/Impact/Estimate.antt =====
-- The sums of `compute_rebuild_estimate` of src/common/view_helpers.cpp.
use bdtrace.Common.{
  ℕ, ◌≡◌, refl, sym, ap, ◌∙◌, ◌⊎◌, inl, inr, true, List, [], ◌∷◌, Option, none, some, nat_ord,
  arith, Text, length, Bool-cases, ==_iff, ◌==◌,
}
use bdtrace.Common.Int.{pos, ◌≤ℤ◌, +ℤ_parts}
use bdtrace.Common.Sets.{member}
use bdtrace.Common.Maps.{Map, find}
use bdtrace.Records.{ProcessRecord}
use bdtrace.Graph.{DependencyGraph}
use bdtrace.Queries.Impact.{
  RebuildEstimate, duration, count_process, count_found, add_found, count_affected,
  compute_rebuild_estimate, positive, total_duration, impact_entry,
}

-- What one process does to the longest time and to the sum.
record Longer (o : Option ProcessRecord) (est new : RebuildEstimate) : Type 0 where
  serial : new.serial_estimate_us ≡ add_found o est.serial_estimate_us
  count : new.affected_count ≡ est.affected_count
  grows : est.longest_single_us ≤ℤ new.longest_single_us
  covers : (r : ProcessRecord) → o ≡ some r → duration r ≤ℤ new.longest_single_us
  attained :
      (new.longest_single_us ≡ est.longest_single_us)
      ⊎ ((r : ProcessRecord) × (o ≡ some r) × (new.longest_single_us ≡ duration r))
  fits :
      est.longest_single_us ≤ℤ est.serial_estimate_us
      → new.longest_single_us ≤ℤ new.serial_estimate_us

reached :
    (r : ProcessRecord) (est : RebuildEstimate)
    → ((count_process r est).longest_single_us ≡ est.longest_single_us)
      ⊎ ((count_process r est).longest_single_us ≡ duration r)
unfolding count_process
reached r est = ground arith

covers_found :
    (r q : ProcessRecord) (est : RebuildEstimate)
    → pos 0 ≤ℤ est.longest_single_us
    → some r ≡ some q
    → duration q ≤ℤ (count_process r est).longest_single_us
unfolding count_process
covers_found r q est h e = ground (arith, e)

count_found-Longer :
    (o : Option ProcessRecord) (est : RebuildEstimate)
    → pos 0 ≤ℤ est.longest_single_us
    → Longer o est (count_found o est)
unfolding count_found count_process add_found positive
count_found-Longer none est h = record {
  serial = refl;
  count = refl;
  grows = omega arith;
  covers = λ r e. absurd (cc);
  attained = inl refl;
  fits = λ a. a;
}
count_found-Longer (some r) est h = record {
  serial = ground arith;
  count = ground arith;
  grows = ground arith;
  covers = λ q e. covers_found r q est h e;
  attained = elim (reached r est) [ inl e ↦ inl e | inr e ↦ inr (r, refl, e) ];
  fits = λ a. ground (arith, +ℤ_parts est.serial_estimate_us (duration r));
}

-- What the loop over some processes does.
pub record Summed (m : Map ℕ ProcessRecord) (ps : List ℕ) (est new : RebuildEstimate) : Type 0 where
  pub serial : new.serial_estimate_us ≡ total_duration m ps est.serial_estimate_us
  pub count : new.affected_count ≡ est.affected_count
  pub grows : est.longest_single_us ≤ℤ new.longest_single_us
  pub covers :
      (p : ℕ) (r : ProcessRecord)
      → member p ps ≡ true
      → find p m ≡ some r
      → duration r ≤ℤ new.longest_single_us
  pub attained :
      (new.longest_single_us ≡ est.longest_single_us)
      ⊎ ((p : ℕ) × (r : ProcessRecord) × (member p ps ≡ true)
          × (find p m ≡ some r)
          × (new.longest_single_us ≡ duration r))
  pub fits :
      est.longest_single_us ≤ℤ est.serial_estimate_us
      → new.longest_single_us ≤ℤ new.serial_estimate_us

module _ (m : Map ℕ ProcessRecord) where
  one_more :
      (p : ℕ) (ps : List ℕ) (est mid new : RebuildEstimate)
      → Longer (find p m) est mid
      → Summed m ps mid new
      → Summed m (p ∷ ps) est new
  unfolding total_duration member
  one_more p ps est mid new l s = record {
    serial = s.serial ∙ ap (λ t. total_duration m ps t) l.serial;
    count = s.count ∙ l.count;
    grows = omega (arith, l.grows, s.grows);
    covers = λ q r h e. elim (Bool-cases (q == p)) [
      | inl y ↦ omega (arith, s.grows, l.covers r (rw (sym ((==_iff q p).0 y)) e))
      | inr n ↦ s.covers q r (ground (arith, h, n)) e
    ];
    attained = elim s.attained [
      | inl e ↦ elim l.attained [
        | inl k ↦ inl (e ∙ k)
        | inr (r, k, i) ↦ inr (p, r, ground (arith, ==_iff p p), k, e ∙ i)
      ]
      | inr (q, r, h, k, i) ↦ inr (q, r, ground (arith, h), k, i)
    ];
    fits = λ a. s.fits (l.fits a);
  }

  count_affected-Summed :
      (ps : List ℕ) (est : RebuildEstimate)
      → pos 0 ≤ℤ est.longest_single_us
      → Summed m ps est (count_affected m ps est)
  unfolding count_affected total_duration member
  count_affected-Summed [] est h = record {
    serial = refl;
    count = refl;
    grows = omega arith;
    covers = λ q r k e. absurd (cc);
    attained = inl refl;
    fits = λ a. a;
  }
  count_affected-Summed (p ∷ ps) est h =
      let l = count_found-Longer (find p m) est h in
      one_more p ps est (count_found (find p m) est) _ l
        (count_affected-Summed ps (count_found (find p m) est) (omega (arith, h, l.grows)))

-- The estimate of a set of affected processes: their number; a serial time that is the duration
-- that `compute_impact` gives a file with these affected processes; and a longest single time that is
-- at most the serial time, at least the duration of each of the processes that the graph
-- knows, and that is 0 or the duration of one of them.
pub compute_rebuild_estimate_exact :
    (g : DependencyGraph) (affected : List ℕ) (f : Text)
    → let est = compute_rebuild_estimate g affected in
      (est.affected_count ≡ length affected)
      × (est.serial_estimate_us ≡ (impact_entry g f affected).affected_duration_us)
      × (est.longest_single_us ≤ℤ est.serial_estimate_us)
      × ((p : ℕ) (r : ProcessRecord)
          → member p affected ≡ true
          → find p g.proc_map ≡ some r
          → duration r ≤ℤ est.longest_single_us)
      × ((est.longest_single_us ≡ pos 0)
          ⊎ ((p : ℕ) × (r : ProcessRecord) × (member p affected ≡ true)
              × (find p g.proc_map ≡ some r)
              × (est.longest_single_us ≡ duration r)))
unfolding compute_rebuild_estimate impact_entry
compute_rebuild_estimate_exact g affected f =
    let s =
      count_affected-Summed g.proc_map affected
        (record {
          affected_count = length affected;
          serial_estimate_us = pos 0;
          longest_single_us = pos 0;
        })
        (omega arith) in
    (s.count, s.serial, s.fits (omega arith), s.covers, s.attained)
