-- ===== src/Graph/Rebuild/Scan.antt =====
-- What one scan does to the affected set and to the queue.
use bdtrace.Common.{
  ℕ, ◌+◌, ◌≤◌, ◌≡◌, refl, sym, ap, ◌∙◌, inl, inr, true, ◌||◌, ◌&&◌, not, List, [], ◌∷◌, ◌++◌,
  nat_ord, text_ord, Text, arith, length, length-append, Option-cases, Bool-cases, text_eq_iff,
}
use bdtrace.Common.Sets.{member, member-insert, member-append, missing, missing-insert, beq_refl}
use bdtrace.Common.Maps.{find, find_or}
use bdtrace.Graph.{DependencyGraph}
use bdtrace.Graph.Views.{readers, outputs, Reads}
use bdtrace.Graph.Rebuild.{Search, offer, offer_all, scan_file, scan_files, expand}

-- The readers of a list of files, one file after the other.
pub readers_of : DependencyGraph → List Text → List ℕ
readers_of g [] = []
readers_of g (f ∷ fs) = readers g f ++ readers_of g fs

offer_all-append :
    (ps qs : List ℕ) (s : Search) → offer_all (ps ++ qs) s ≡ offer_all qs (offer_all ps s)
unfolding offer_all
offer_all-append [] qs s = refl
offer_all-append (p ∷ ps) qs s = offer_all-append ps qs (offer p s)

scan_file-eq :
    (g : DependencyGraph) (f : Text) (s : Search) → scan_file g f s ≡ offer_all (readers g f) s
unfolding scan_file find_or offer_all
scan_file-eq g f s = ground arith

-- A scan of files is a scan of all their readers.
pub scan_files-eq :
    (g : DependencyGraph) (fs : List Text) (s : Search)
    → scan_files g fs s ≡ offer_all (readers_of g fs) s
unfolding scan_files readers_of offer_all
scan_files-eq g [] s = refl
scan_files-eq g (f ∷ fs) s =
    scan_files-eq g fs (scan_file g f s)
    ∙ ap (offer_all (readers_of g fs)) (scan_file-eq g f s)
    ∙ sym (offer_all-append (readers g f) (readers_of g fs) s)

pub expand-eq :
    (g : DependencyGraph) (p : ℕ) (s : Search)
    → expand g p s ≡ offer_all (readers_of g (outputs g p)) s
unfolding expand find_or offer_all readers_of
expand-eq g p s = elim (Option-cases (find p g.pid_to_outputs)) [
  | inl e ↦ rw (e, expand, find_or)
  | inr (fs, e) ↦ rw (e, expand, find_or) (scan_files-eq g fs s)
]

pub member-readers_of :
    (g : DependencyGraph) (fs : List Text) (p : ℕ)
    → member p (readers_of g fs) ≡ true
    → (f : Text) × (member f fs ≡ true) × Reads g f p
unfolding readers_of member
member-readers_of g [] p h = absurd (cc)
member-readers_of g (f ∷ fs) p h = elim (Bool-cases (member p (readers g f))) [
  | inl here ↦ (f, ground (arith, beq_refl f), here)
  | inr other ↦
      let (e, m, r) =
        member-readers_of g fs p
          (ground (arith, member-append p (readers g f) (readers_of g fs))) in
      (e, ground arith, r)
]

pub readers_of-member :
    (g : DependencyGraph) (fs : List Text) (p : ℕ) (f : Text)
    → member f fs ≡ true
    → Reads g f p
    → member p (readers_of g fs) ≡ true
unfolding readers_of member
readers_of-member g [] p f h r = absurd (cc)
readers_of-member g (e ∷ fs) p f h r = ground (
  arith,
  member-append p (readers g e) (readers_of g fs),
  readers_of-member g fs p f,
  text_eq_iff f e,
)

pub affected-offer_all :
    (ps : List ℕ) (s : Search) (v : ℕ)
    → member v (offer_all ps s).affected ≡ (member v ps || member v s.affected)
unfolding offer_all offer member
affected-offer_all [] s v = refl
affected-offer_all (p ∷ ps) s v =
    ground (arith, affected-offer_all ps (offer p s) v, member-insert v p s.affected)

-- A scan queues what it adds to the set, and nothing else.
pub worklist-offer_all :
    (ps : List ℕ) (s : Search) (v : ℕ)
    → member v (offer_all ps s).worklist
      ≡ (member v s.worklist || not (member v s.affected) && member v ps)
unfolding offer_all offer member
worklist-offer_all [] s v = ground arith
worklist-offer_all (p ∷ ps) s v = ground (
  arith,
  worklist-offer_all ps (offer p s) v,
  member-insert v p s.affected,
  member-append v s.worklist (p ∷ []),
)

abbrev pub Within : List ℕ → List ℕ → Type 0
Within us ps = (v : ℕ) → member v ps ≡ true → member v us ≡ true

-- What is still missing from the set, and the queue together, do not grow.
pub work-offer_all :
    (us ps : List ℕ) (s : Search)
    → Within us ps
    → missing us (offer_all ps s).affected + length (offer_all ps s).worklist
      ≤ missing us s.affected + length s.worklist
unfolding offer_all offer member
work-offer_all us [] s h = omega arith
work-offer_all us (p ∷ ps) s h = ground (
  arith,
  work-offer_all us ps (offer p s) (λ v m. h v (ground arith)),
  missing-insert us s.affected p (h p (ground arith)),
  length-append s.worklist (p ∷ []),
)
