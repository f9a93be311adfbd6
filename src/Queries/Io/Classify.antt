-- ===== src/Queries/Io/Classify.antt =====
-- The classes of `classify_process_io` of src/common/view_helpers.cpp.
use bdtrace.Common.{
  ℕ, ◌≡◌, refl, ap, ◌∙◌, ◌↔◌, inl, inr, Bool, true, false, ◌||◌, ◌&&◌, not, List, [], ◌∷◌, none,
  some, nat_ord, text_ord, arith, if◌then◌else◌, Text, text_eq, text_eq_iff, Bool-cases, ==_iff, In,
  here, there,
}
use bdtrace.Common.Sets.{member, insert, member-insert}
use bdtrace.Records.{FileAccessRecord, is_input_mode, is_output_mode, mode_num}
use bdtrace.Graph.{DependencyGraph}
use bdtrace.Queries.Io.{
  ProcessIo, collect_descendant_pids, files_of, place_read, place_write, split_reads, split_writes,
  no_io, classify_rows, classify_process_io,
}
use bdtrace.Queries.Io.Descend.{Descends, collect_descendant_pids_exact}

-- Some row accesses the file in a mode that the test admits.
accessed : (ℕ → Bool) → Text → List FileAccessRecord → Bool
accessed test f [] = false
accessed test f (r ∷ rs) = test (mode_num r.mode) && text_eq f r.filename || accessed test f rs

member-files_of :
    (test : ℕ → Bool) (f : Text) (rs : List FileAccessRecord) (s : List Text)
    → member f (files_of test rs s) ≡ (accessed test f rs || member f s)
unfolding files_of accessed
member-files_of test f [] s = refl
member-files_of test f (r ∷ rs) s = ground (
  arith,
  member-files_of test f rs s,
  member-files_of test f rs (insert r.filename s),
  member-insert f r.filename s,
)

-- The first loop leaves the outputs alone.
module _ (writes : List Text) where
  outputs-place_read : (x : Text) (io : ProcessIo) → (place_read writes x io).outputs ≡ io.outputs
  unfolding place_read
  outputs-place_read x io = ground arith

  outputs-split_reads :
      (fs : List Text) (io : ProcessIo) → (split_reads writes fs io).outputs ≡ io.outputs
  unfolding split_reads
  outputs-split_reads [] io = refl
  outputs-split_reads (x ∷ fs) io =
      outputs-split_reads fs (place_read writes x io) ∙ outputs-place_read x io

  inputs-place_read :
      (f x : Text) (io : ProcessIo)
      → member f (place_read writes x io).inputs
        ≡ (text_eq f x && not (member f writes) || member f io.inputs)
  unfolding place_read
  inputs-place_read f x io = ground (arith, member-insert f x io.inputs, text_eq_iff f x)

  inputs-split_reads :
      (f : Text) (fs : List Text) (io : ProcessIo)
      → member f (split_reads writes fs io).inputs
        ≡ (member f fs && not (member f writes) || member f io.inputs)
  unfolding split_reads member
  inputs-split_reads f [] io = refl
  inputs-split_reads f (x ∷ fs) io =
      ground (arith, inputs-split_reads f fs (place_read writes x io), inputs-place_read f x io)

  internal-place_read :
      (f x : Text) (io : ProcessIo)
      → member f (place_read writes x io).internal
        ≡ (text_eq f x && member f writes || member f io.internal)
  unfolding place_read
  internal-place_read f x io = ground (arith, member-insert f x io.internal, text_eq_iff f x)

  internal-split_reads :
      (f : Text) (fs : List Text) (io : ProcessIo)
      → member f (split_reads writes fs io).internal
        ≡ (member f fs && member f writes || member f io.internal)
  unfolding split_reads member
  internal-split_reads f [] io = refl
  internal-split_reads f (x ∷ fs) io =
      ground (arith, internal-split_reads f fs (place_read writes x io), internal-place_read f x io)

-- The second loop adds to the outputs alone.
module _ (reads : List Text) where
  inputs-place_write : (x : Text) (io : ProcessIo) → (place_write reads x io).inputs ≡ io.inputs
  unfolding place_write
  inputs-place_write x io = ground arith

  inputs-split_writes :
      (fs : List Text) (io : ProcessIo) → (split_writes reads fs io).inputs ≡ io.inputs
  unfolding split_writes
  inputs-split_writes [] io = refl
  inputs-split_writes (x ∷ fs) io =
      inputs-split_writes fs (place_write reads x io) ∙ inputs-place_write x io

  internal-place_write :
      (x : Text) (io : ProcessIo) → (place_write reads x io).internal ≡ io.internal
  unfolding place_write
  internal-place_write x io = ground arith

  internal-split_writes :
      (fs : List Text) (io : ProcessIo) → (split_writes reads fs io).internal ≡ io.internal
  unfolding split_writes
  internal-split_writes [] io = refl
  internal-split_writes (x ∷ fs) io =
      internal-split_writes fs (place_write reads x io) ∙ internal-place_write x io

  outputs-place_write :
      (f x : Text) (io : ProcessIo)
      → member f (place_write reads x io).outputs
        ≡ (text_eq f x && not (member f reads) || member f io.outputs)
  unfolding place_write
  outputs-place_write f x io = ground (arith, member-insert f x io.outputs, text_eq_iff f x)

  outputs-split_writes :
      (f : Text) (fs : List Text) (io : ProcessIo)
      → member f (split_writes reads fs io).outputs
        ≡ (member f fs && not (member f reads) || member f io.outputs)
  unfolding split_writes member
  outputs-split_writes f [] io = refl
  outputs-split_writes f (x ∷ fs) io =
      ground (arith, outputs-split_writes f fs (place_write reads x io), outputs-place_write f x io)

pub record Classes (read written : Bool) (f : Text) (io : ProcessIo) : Type 0 where
  pub input : member f io.inputs ≡ (read && not written)
  pub output : member f io.outputs ≡ (written && not read)
  pub both : member f io.internal ≡ (read && written)

classify_rows-Classes :
    (f : Text) (rows : List FileAccessRecord)
    → Classes
        (accessed is_input_mode f rows)
        (accessed is_output_mode f rows)
        f
        (classify_rows rows)
unfolding classify_rows member
classify_rows-Classes f rows =
    let reads = files_of is_input_mode rows [] in
    let writes = files_of is_output_mode rows [] in
    let io = split_reads writes reads no_io in
    record {
      input = ground (
        arith,
        ap (λ s. member f s) (inputs-split_writes reads writes io),
        inputs-split_reads writes f reads no_io,
        member-files_of is_input_mode f rows [],
        member-files_of is_output_mode f rows [],
      );
      output = ground (
        arith,
        outputs-split_writes reads f writes io,
        ap (λ s. member f s) (outputs-split_reads writes reads no_io),
        member-files_of is_input_mode f rows [],
        member-files_of is_output_mode f rows [],
      );
      both = ground (
        arith,
        ap (λ s. member f s) (internal-split_writes reads writes io),
        internal-split_reads writes f reads no_io,
        member-files_of is_input_mode f rows [],
        member-files_of is_output_mode f rows [],
      );
    }

-- A row that accesses the file in a mode that the test admits.
pub record Access (test : ℕ → Bool) (f : Text) (r : FileAccessRecord) : Type 0 where
  pub admitted : test (mode_num r.mode) ≡ true
  pub of_file : f ≡ r.filename

Used : (ℕ → Bool) → Text → List FileAccessRecord → Type 0
Used test f rows = (r : FileAccessRecord) × In r rows × Access test f r

accessed→Used :
    (test : ℕ → Bool) (f : Text) (rows : List FileAccessRecord)
    → accessed test f rows ≡ true
    → Used test f rows
unfolding accessed Used
accessed→Used test f [] h = absurd (cc)
accessed→Used test f (r ∷ rs) h =
    elim (Bool-cases (test (mode_num r.mode) && text_eq f r.filename)) [
      | inl y ↦ (
        r,
        here refl,
        record {
          admitted = ground (arith, y);
          of_file = (text_eq_iff f r.filename).0 (ground (arith, y));
        },
      )
      | inr n ↦ let u = accessed→Used test f rs (ground (arith, h, n)) in (u.0, there u.1, u.2)
    ]

Used→accessed :
    (test : ℕ → Bool) (f : Text) (r : FileAccessRecord) (rows : List FileAccessRecord)
    → In r rows
    → Access test f r
    → accessed test f rows ≡ true
unfolding accessed
Used→accessed test f r [] i u = elim i [ ]
Used→accessed test f r (x ∷ rs) (here e) u = ground (
  arith,
  ap (λ (q : FileAccessRecord). mode_num q.mode) e,
  ap (λ (q : FileAccessRecord). q.filename) e,
  u.admitted,
  (text_eq_iff f r.filename).1 u.of_file,
)
Used→accessed test f r (x ∷ rs) (there i) u = ground (arith, Used→accessed test f r rs i u)

-- The processes that `classify_process_io` is asked about.
pub Covers : DependencyGraph → ℕ → Bool → ℕ → Type 0
Covers g pid true p = Descends g pid p
Covers g pid false p = p ≡ pid

pids_cover :
    (g : DependencyGraph) (pid : ℕ) (whole : Bool)
    → (s : List ℕ) × ((if whole then collect_descendant_pids g pid else some (pid ∷ [])) ≡ some s)
      × ((p : ℕ) → member p s ≡ true ↔ Covers g pid whole p)
unfolding Covers member
pids_cover g pid true = collect_descendant_pids_exact g pid
pids_cover g pid false = (
  pid ∷ [],
  refl,
  λ p. (λ h. ground (arith, h, ==_iff p pid), λ e. ground (arith, e, ==_iff p pid)),
)

-- A row of the table that accesses the file, of a process that is asked about.
abbrev pub Touched : List FileAccessRecord → DependencyGraph → ℕ → Bool → (ℕ → Bool) → Text → Type 0
Touched table g pid whole test f =
    (r : FileAccessRecord) × In r table × Covers g pid whole r.pid × Access test f r

-- What the rows that the database returns for a set of processes are.
abbrev pub Fetches : List FileAccessRecord → (List ℕ → List FileAccessRecord) → Type 0
Fetches table fetch =
    (s : List ℕ) (r : FileAccessRecord) → In r (fetch s) ↔ (In r table × (member r.pid s ≡ true))

accessed_iff :
    (table : List FileAccessRecord) (fetch : List ℕ → List FileAccessRecord)
    → Fetches table fetch
    → (g : DependencyGraph) (pid : ℕ) (whole : Bool) (s : List ℕ)
    → ((p : ℕ) → member p s ≡ true ↔ Covers g pid whole p)
    → (test : ℕ → Bool) (f : Text)
    → accessed test f (fetch s) ≡ true ↔ Touched table g pid whole test f
unfolding Used
accessed_iff table fetch law g pid whole s cover test f = (
  λ h.
      let u = accessed→Used test f (fetch s) h in
      let row = (law s u.0).0 u.1 in (u.0, row.0, (cover (u.0).pid).0 row.1, u.2),
  λ u. Used→accessed test f u.0 (fetch s) ((law s u.0).1 (u.1, (cover (u.0).pid).1 u.2)) u.3,
)

and_not_iff :
    {P Q : Type 0} (m a b : Bool)
    → m ≡ (a && not b)
    → (a ≡ true) ↔ P
    → (b ≡ true) ↔ Q
    → (m ≡ true) ↔ (P × ¬ Q)
and_not_iff m a b e p q = (
  λ h. (p.0 (ground (arith, e, h)), λ k. ground (arith, e, h, q.1 k)),
  λ h. elim (Bool-cases b) [ inl y ↦ absurd (h.1 (q.0 y)) | inr n ↦ ground (arith, e, p.1 h.0, n) ],
)

and_iff :
    {P Q : Type 0} (m a b : Bool)
    → m ≡ (a && b)
    → (a ≡ true) ↔ P
    → (b ≡ true) ↔ Q
    → (m ≡ true) ↔ (P × Q)
and_iff m a b e p q = (
  λ h. (p.0 (ground (arith, e, h)), q.0 (ground (arith, e, h))),
  λ h. ground (arith, e, p.1 h.0, q.1 h.1),
)

-- `classify_process_io` ends, and says of every file which class it is in. Where the database returns
-- the rows of its table whose process is in the set that it is asked for, a file is an input just
-- when a covered process reads it and none writes it, an output just when one writes it and none
-- reads it, and internal just when it is both read and written. The covered processes are the given
-- one and, when the tree is asked for, those that descend from it.
pub classify_process_io_exact :
    (table : List FileAccessRecord) (fetch : List ℕ → List FileAccessRecord)
    → Fetches table fetch
    → (g : DependencyGraph) (pid : ℕ) (whole : Bool)
    → (io : ProcessIo) × (classify_process_io fetch g pid whole ≡ some io)
      × ((f : Text)
          → (member f io.inputs ≡ true ↔ (
              Touched table g pid whole is_input_mode f
              × ¬ (Touched table g pid whole is_output_mode f)))
            × (member f io.outputs ≡ true ↔ (
                Touched table g pid whole is_output_mode f
                × ¬ (Touched table g pid whole is_input_mode f)))
            × (member f io.internal ≡ true ↔ (
                Touched table g pid whole is_input_mode f
                × Touched table g pid whole is_output_mode f)))
unfolding classify_process_io
classify_process_io_exact table fetch law g pid whole =
    let s = pids_cover g pid whole in
    let iff = accessed_iff table fetch law g pid whole s.0 s.2 in
    (
      classify_rows (fetch s.0),
      ap (λ o. elim o [ none ↦ none | some pids ↦ some (classify_rows (fetch pids)) ]) s.1,
      λ f.
          let c = classify_rows-Classes f (fetch s.0) in
          (
            and_not_iff _ _ _ c.input (iff is_input_mode f) (iff is_output_mode f),
            and_not_iff _ _ _ c.output (iff is_output_mode f) (iff is_input_mode f),
            and_iff _ _ _ c.both (iff is_input_mode f) (iff is_output_mode f),
          ),
    )
