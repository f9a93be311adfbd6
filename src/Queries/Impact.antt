-- ===== src/Queries/Impact.antt =====
-- `compute_impact` and `compute_rebuild_estimate` of src/common/view_helpers.cpp. An `int64_t` is an
-- integer with no bound. The clock is a parameter: `now i` is what `now_us` returns in round i.
pub mod Estimate
pub mod Order
pub mod Ranking
pub mod Sums
use bdtrace.Common.{
  ℕ, zero, suc, Bool, true, false, ◌&&◌, List, [], ◌∷◌, Option, none, some, nat_ord, text_ord,
  if◌then◌else◌, Text, length, ltb, take, not,
}
use bdtrace.Common.Int.{ℤ, pos, pos_part, neg_part, ltb_ℤ, eqb_ℤ, ◌+ℤ◌, ◌-ℤ◌}
use bdtrace.Common.Sets.{member, insert, insert_all}
use bdtrace.Common.Maps.{Map, find}
use bdtrace.Records.{ProcessRecord}
use bdtrace.Graph.{DependencyGraph}
use bdtrace.Graph.Rebuild.{rebuild_bfs}

pub record RebuildEstimate : Type 0 where
  pub affected_count : ℕ
  pub serial_estimate_us : ℤ
  pub longest_single_us : ℤ

unfoldable pub duration : ProcessRecord → ℤ
duration p = p.end_time_us -ℤ p.start_time_us

unfoldable pub count_process : ProcessRecord → RebuildEstimate → RebuildEstimate
count_process p est =
    let dur = duration p in
    if ltb_ℤ (pos 0) dur
    then record est {
      serial_estimate_us = est.serial_estimate_us +ℤ dur;
      longest_single_us = (if ltb_ℤ est.longest_single_us dur then dur else est.longest_single_us);
    }
    else est

-- A process that the map does not hold is passed over.
unfoldable pub count_found : Option ProcessRecord → RebuildEstimate → RebuildEstimate
count_found none est = est
count_found (some r) est = count_process r est

unfoldable pub count_affected : Map ℕ ProcessRecord → List ℕ → RebuildEstimate → RebuildEstimate
count_affected m [] est = est
count_affected m (p ∷ ps) est = count_affected m ps (count_found (find p m) est)

unfoldable pub compute_rebuild_estimate : DependencyGraph → List ℕ → RebuildEstimate
compute_rebuild_estimate g affected = count_affected g.proc_map affected (record {
  affected_count = length affected;
  serial_estimate_us = pos 0;
  longest_single_us = pos 0;
})

pub record ImpactEntry : Type 0 where
  pub file : Text
  pub affected_count : ℕ
  pub affected_duration_us : ℤ

-- `cmp_impact_desc`
unfoldable pub cmp_impact_desc : ImpactEntry → ImpactEntry → Bool
cmp_impact_desc a b =
    if not (eqb_ℤ a.affected_duration_us b.affected_duration_us)
    then ltb_ℤ b.affected_duration_us a.affected_duration_us
    else ltb b.affected_count a.affected_count

-- The first loop: what some process writes.
unfoldable pub all_outputs : Map ℕ (List Text) → List Text → List Text
all_outputs [] s = s
all_outputs ((p, fs) ∷ m) s = all_outputs m (insert_all fs s)

-- The second loop: what is read and not written.
unfoldable pub source_files : List Text → Map Text (List ℕ) → List Text → List Text
source_files outputs [] s = s
source_files outputs ((f, ps) ∷ m) s =
    source_files outputs m (if member f outputs then s else insert f s)

-- The time of a process, when it is positive.
unfoldable pub positive : ℤ → ℤ → ℤ
positive total dur = if ltb_ℤ (pos 0) dur then total +ℤ dur else total

unfoldable pub add_found : Option ProcessRecord → ℤ → ℤ
add_found none total = total
add_found (some r) total = positive total (duration r)

unfoldable pub total_duration : Map ℕ ProcessRecord → List ℕ → ℤ → ℤ
total_duration m [] total = total
total_duration m (p ∷ ps) total = total_duration m ps (add_found (find p m) total)

unfoldable pub impact_entry : DependencyGraph → Text → List ℕ → ImpactEntry
impact_entry g f affected = record {
  file = f;
  affected_count = length affected;
  affected_duration_us = total_duration g.proc_map affected (pos 0);
}

-- `deadline_us > 0 && now_us() > deadline_us`
unfoldable pub past : ℤ → ℤ → Bool
past deadline now = ltb_ℤ (pos 0) deadline && ltb_ℤ deadline now

unfoldable pub add_entry :
    DependencyGraph → Text → Option (List ℕ) → Option (List ImpactEntry) → Option (List ImpactEntry)
add_entry g f none entries = none
add_entry g f (some affected) none = none
add_entry g f (some affected) (some entries) = some (impact_entry g f affected ∷ entries)

-- The third loop, from round i on.
unfoldable pub impact_entries :
    (ℕ → ℤ) → ℤ → DependencyGraph → ℕ → List Text → Option (List ImpactEntry)
impact_entries now deadline g i [] = some []
impact_entries now deadline g i (f ∷ fs) =
    let rest = impact_entries now deadline g (suc i) fs in
    if past deadline (now i) then some [] else add_entry g f (rebuild_bfs g (f ∷ [])) rest

-- `std::sort` with the comparison; among entries that neither order puts first, one order is chosen.
unfoldable pub insert_entry : ImpactEntry → List ImpactEntry → List ImpactEntry
insert_entry e [] = e ∷ []
insert_entry e (x ∷ xs) = if cmp_impact_desc e x then e ∷ x ∷ xs else x ∷ insert_entry e xs

unfoldable pub sort_entries : List ImpactEntry → List ImpactEntry
sort_entries [] = []
sort_entries (e ∷ es) = insert_entry e (sort_entries es)

-- `if (top_n > 0 && (int)result.size() > top_n) result.resize(top_n);`
unfoldable pub cut : ℤ → List ImpactEntry → List ImpactEntry
cut top_n es =
    if ltb_ℤ (pos 0) top_n && ltb_ℤ top_n (pos (length es)) then take (pos_part top_n) es else es

unfoldable pub compute_impact : (ℕ → ℤ) → DependencyGraph → ℤ → ℤ → Option (List ImpactEntry)
compute_impact now g top_n deadline =
    let sources = source_files (all_outputs g.pid_to_outputs []) g.file_to_readers [] in
    elim (impact_entries now deadline g 0 sources) [
      | none ↦ none
      | some es ↦ some (cut top_n (sort_entries es))
    ]
