-- ===== src/Graph/Reasons/Notes.antt =====
-- What one scan adds to the map of reasons.
use bdtrace.Common.{
  ℕ, ◌≡◌, refl, ap, ◌∙◌, inl, inr, Bool, true, false, ◌||◌, ◌&&◌, List, [], ◌∷◌, ◌++◌, none, some,
  nat_ord, text_ord, Text, arith, Option-cases, ==_iff, ◌==◌, text_eq, text_eq_iff,
}
use bdtrace.Common.Sets.{member, member-insert}
use bdtrace.Common.Maps.{Map, find, find_or, find_or-put, find-put}
use bdtrace.Graph.{DependencyGraph, push_to}
use bdtrace.Graph.Views.{readers, outputs}
use bdtrace.Graph.Rebuild.{offer, offer_all, scan_file, scan_files, expand}
use bdtrace.Graph.Reasons.{
  RebuildReason, ReasonSearch, note, note_all, note_file, note_files, note_outputs,
}

-- Whether a list of reasons has one for this file and this source.
unfoldable pub has_reason : Text → ℕ → List RebuildReason → Bool
has_reason f q [] = false
has_reason f q (r ∷ rs) = text_eq f r.file && q == r.source_pid || has_reason f q rs

-- Whether the map tells the process `p` to be rebuilt because of `f`, written by `q`.
unfoldable pub told : Text → ℕ → ℕ → Map ℕ (List RebuildReason) → Bool
told f q p m = has_reason f q (find_or [] p m)

-- Whether the map has an entry for a process.
unfoldable pub has_key : ℕ → Map ℕ (List RebuildReason) → Bool
has_key p m = elim (find p m) [ none ↦ false | some _ ↦ true ]

has_reason-append :
    (f : Text) (q : ℕ) (rs ts : List RebuildReason)
    → has_reason f q (rs ++ ts) ≡ (has_reason f q rs || has_reason f q ts)
unfolding has_reason
has_reason-append f q [] ts = refl
has_reason-append f q (r ∷ rs) ts = ground (arith, has_reason-append f q rs ts)

module _ (f : Text) (q p : ℕ) where
  told-note :
      (e : Text) (src pid : ℕ) (s : ReasonSearch)
      → told f q p (note e src pid s).reason_map
        ≡ (told f q p s.reason_map || text_eq f e && q == src && p == pid)
  unfolding told note push_to has_reason
  told-note e src pid s =
      let r : RebuildReason = record { file = e; source_pid = src } in
      ground (
        arith,
        find_or-put [] p pid (find_or [] pid s.reason_map ++ r ∷ []) s.reason_map,
        has_reason-append f q (find_or [] pid s.reason_map) (r ∷ []),
        ==_iff p pid,
      )

  told-note_all :
      (e : Text) (src : ℕ) (ps : List ℕ) (s : ReasonSearch)
      → told f q p (note_all e src ps s).reason_map
        ≡ (told f q p s.reason_map || text_eq f e && q == src && member p ps)
  unfolding note_all member
  told-note_all e src [] s = ground arith
  told-note_all e src (x ∷ xs) s =
      ground (arith, told-note_all e src xs (note e src x s), told-note e src x s)

  told-note_file :
      (g : DependencyGraph) (src : ℕ) (e : Text) (s : ReasonSearch)
      → told f q p (note_file g src e s).reason_map
        ≡ (told f q p s.reason_map || text_eq f e && q == src && member p (readers g e))
  unfolding note_file find_or member
  told-note_file g src e s = elim (Option-cases (find e g.file_to_readers)) [
    | inl h ↦ rw (h, note_file, find_or) (ground arith)
    | inr (ps, h) ↦ rw (h, note_file, find_or) (told-note_all e src ps s)
  ]

  -- A scan for the source `src` adds a reason for each file of the list and each of its readers.
  pub told-note_files :
      (g : DependencyGraph) (src : ℕ) (es : List Text) (s : ReasonSearch)
      → told f q p (note_files g src es s).reason_map
        ≡ (told f q p s.reason_map || q == src && member f es && member p (readers g f))
  unfolding note_files member
  told-note_files g src [] s = ground arith
  told-note_files g src (e ∷ es) s = ground (
    arith,
    told-note_files g src es (note_file g src e s),
    told-note_file g src e s,
    text_eq_iff f e,
  )

  pub told-note_outputs :
      (g : DependencyGraph) (src : ℕ) (s : ReasonSearch)
      → told f q p (note_outputs g src s).reason_map ≡ (
          told f q p s.reason_map || q == src && member f (outputs g src) && member p (readers g f))
  unfolding note_outputs find_or member
  told-note_outputs g src s = elim (Option-cases (find src g.pid_to_outputs)) [
    | inl h ↦ rw (h, note_outputs, find_or) (ground arith)
    | inr (fs, h) ↦ rw (h, note_outputs, find_or) (told-note_files g src fs s)
  ]

-- The affected set and the queue are those of `rebuild_bfs`.
search-note_all :
    (e : Text) (src : ℕ) (ps : List ℕ) (s : ReasonSearch)
    → (note_all e src ps s).search ≡ offer_all ps s.search
unfolding note_all note offer_all
search-note_all e src [] s = refl
search-note_all e src (p ∷ ps) s = search-note_all e src ps (note e src p s)

search-note_file :
    (g : DependencyGraph) (src : ℕ) (f : Text) (s : ReasonSearch)
    → (note_file g src f s).search ≡ scan_file g f s.search
unfolding note_file scan_file
search-note_file g src f s = elim (Option-cases (find f g.file_to_readers)) [
  | inl h ↦ rw (h, note_file, scan_file)
  | inr (ps, h) ↦ rw (h, note_file, scan_file) (search-note_all f src ps s)
]

pub search-note_files :
    (g : DependencyGraph) (src : ℕ) (fs : List Text) (s : ReasonSearch)
    → (note_files g src fs s).search ≡ scan_files g fs s.search
unfolding note_files scan_files
search-note_files g src [] s = refl
search-note_files g src (f ∷ fs) s =
    search-note_files g src fs (note_file g src f s)
    ∙ ap (scan_files g fs) (search-note_file g src f s)

pub search-note_outputs :
    (g : DependencyGraph) (pid : ℕ) (s : ReasonSearch)
    → (note_outputs g pid s).search ≡ expand g pid s.search
unfolding note_outputs expand
search-note_outputs g pid s = elim (Option-cases (find pid g.pid_to_outputs)) [
  | inl h ↦ rw (h, note_outputs, expand)
  | inr (fs, h) ↦ rw (h, note_outputs, expand) (search-note_files g pid fs s)
]

-- The keys of the map are the affected processes.
abbrev pub Keyed : ReasonSearch → Type 0
Keyed s = (p : ℕ) → has_key p s.reason_map ≡ member p s.search.affected

note-Keyed : (e : Text) (src pid : ℕ) (s : ReasonSearch) → Keyed s → Keyed (note e src pid s)
unfolding note push_to has_key offer
note-Keyed e src pid s h p =
    let r : RebuildReason = record { file = e; source_pid = src } in
    ground (
      arith,
      h p,
      find-put p pid (find_or [] pid s.reason_map ++ r ∷ []) s.reason_map,
      member-insert p pid s.search.affected,
      ==_iff p pid,
    )

note_all-Keyed :
    (e : Text) (src : ℕ) (ps : List ℕ) (s : ReasonSearch) → Keyed s → Keyed (note_all e src ps s)
unfolding note_all
note_all-Keyed e src [] s h = h
note_all-Keyed e src (p ∷ ps) s h =
    note_all-Keyed e src ps (note e src p s) (note-Keyed e src p s h)

note_file-Keyed :
    (g : DependencyGraph) (src : ℕ) (f : Text) (s : ReasonSearch)
    → Keyed s
    → Keyed (note_file g src f s)
unfolding note_file
note_file-Keyed g src f s h = elim (Option-cases (find f g.file_to_readers)) [
  | inl e ↦ rw (e, note_file) h
  | inr (ps, e) ↦ rw (e, note_file) (note_all-Keyed f src ps s h)
]

pub note_files-Keyed :
    (g : DependencyGraph) (src : ℕ) (fs : List Text) (s : ReasonSearch)
    → Keyed s
    → Keyed (note_files g src fs s)
unfolding note_files
note_files-Keyed g src [] s h = h
note_files-Keyed g src (f ∷ fs) s h =
    note_files-Keyed g src fs (note_file g src f s) (note_file-Keyed g src f s h)

pub note_outputs-Keyed :
    (g : DependencyGraph) (pid : ℕ) (s : ReasonSearch) → Keyed s → Keyed (note_outputs g pid s)
unfolding note_outputs
note_outputs-Keyed g pid s h = elim (Option-cases (find pid g.pid_to_outputs)) [
  | inl e ↦ rw (e, note_outputs) h
  | inr (fs, e) ↦ rw (e, note_outputs) (note_files-Keyed g pid fs s h)
]
