-- ===== src/Graph/Build.antt =====
-- What `build_dependency_graph` makes of the accesses: the readers of each file, and that the maps
-- from processes to files and from files to processes agree.
pub mod Fixup
pub mod Inherits
pub mod Outputs
use bdtrace.Common.{
  ℕ, ◌≡◌, refl, sym, ap, ◌∙◌, ◌↔◌, Bool, true, false, ◌||◌, ◌&&◌, List, [], ◌∷◌, ◌++◌, Option, none,
  some, Ord, nat_ord, text_ord, Text, arith, ◌==◌, text_eq, if◌then◌else◌, Option-cases, Bool-cases,
  inl, inr, ==_iff, text_eq_iff,
}
use bdtrace.Common.Sets.{member}
use bdtrace.Common.Maps.{Map, find, find_or}
use bdtrace.Records.{ProcessRecord, FileAccessRecord, is_input_mode, is_output_mode, mode_num}
use bdtrace.Graph.{
  DependencyGraph, empty_graph, add_to, add_output, add_reader, add_access, add_accesses,
  add_process, add_processes, reads_any, add_outputs, propagate_child, propagate_children,
  propagate_parent, fixup, build_dependency_graph,
}
use bdtrace.Graph.Views.{readers, outputs, writers, member-add_to}

-- The two maps of what was written agree.
abbrev pub Agrees : DependencyGraph → Type 0
Agrees g = (p : ℕ) (f : Text) → member f (outputs g p) ≡ member p (writers g f)

add_output-Agrees : (p : ℕ) (f : Text) (g : DependencyGraph) → Agrees g → Agrees (add_output p f g)
unfolding add_output
add_output-Agrees p f g h q e =
    ground (
      arith,
      h q e,
      member-add_to q p e f g.pid_to_outputs,
      member-add_to e f q p g.file_to_writers,
    )

pub add_outputs-Agrees :
    (p : ℕ) (fs : List Text) (g : DependencyGraph) → Agrees g → Agrees (add_outputs p fs g)
unfolding add_outputs
add_outputs-Agrees p [] g h = h
add_outputs-Agrees p (f ∷ fs) g h =
    add_outputs-Agrees p fs (add_output p f g) (add_output-Agrees p f g h)

abbrev pub is_input : FileAccessRecord → Bool
is_input fa = is_input_mode (mode_num fa.mode)

abbrev pub is_output : FileAccessRecord → Bool
is_output fa = is_output_mode (mode_num fa.mode)

pub readers-add_access :
    (fa : FileAccessRecord) (g : DependencyGraph) (f : Text) (p : ℕ)
    → member p (readers (add_access fa g) f)
      ≡ (is_input fa && (text_eq f fa.filename && p == fa.pid) || member p (readers g f))
unfolding add_access add_reader add_output
readers-add_access fa g f p = ground (arith, member-add_to f fa.filename p fa.pid g.file_to_readers)

pub outputs-add_access :
    (fa : FileAccessRecord) (g : DependencyGraph) (p : ℕ) (f : Text)
    → member f (outputs (add_access fa g) p)
      ≡ (is_output fa && (p == fa.pid && text_eq f fa.filename) || member f (outputs g p))
unfolding add_access add_reader add_output
outputs-add_access fa g p f = ground (arith, member-add_to p fa.pid f fa.filename g.pid_to_outputs)

writers-add_access :
    (fa : FileAccessRecord) (g : DependencyGraph) (p : ℕ) (f : Text)
    → member p (writers (add_access fa g) f)
      ≡ (is_output fa && (p == fa.pid && text_eq f fa.filename) || member p (writers g f))
unfolding add_access add_reader add_output
writers-add_access fa g p f = ground (arith, member-add_to f fa.filename p fa.pid g.file_to_writers)

pub outputs-add_outputs :
    (p q : ℕ) (fs : List Text) (g : DependencyGraph) (f : Text)
    → member f (outputs (add_outputs p fs g) q) ≡ (q == p && member f fs || member f (outputs g q))
unfolding add_outputs add_output member
outputs-add_outputs p q [] g f = ground arith
outputs-add_outputs p q (e ∷ fs) g f =
    ground (
      arith,
      outputs-add_outputs p q fs (add_output p e g) f,
      member-add_to q p f e g.pid_to_outputs,
    )

pub add_accesses-Agrees :
    (fas : List FileAccessRecord) (g : DependencyGraph) → Agrees g → Agrees (add_accesses fas g)
unfolding add_accesses
add_accesses-Agrees [] g h = h
add_accesses-Agrees (fa ∷ fas) g h =
    add_accesses-Agrees fas (add_access fa g)
      (λ p f. ground (arith, h p f, outputs-add_access fa g p f, writers-add_access fa g p f))

-- Whether some access of the list reads the file in the process, or writes it.
unfoldable pub reads_in : Text → ℕ → List FileAccessRecord → Bool
reads_in f p [] = false
reads_in f p (fa ∷ fas) = is_input fa && (text_eq f fa.filename && p == fa.pid) || reads_in f p fas

unfoldable pub writes_in : Text → ℕ → List FileAccessRecord → Bool
writes_in f p [] = false
writes_in f p (fa ∷ fas) =
    is_output fa && (p == fa.pid && text_eq f fa.filename) || writes_in f p fas

pub readers-add_accesses :
    (fas : List FileAccessRecord) (g : DependencyGraph) (f : Text) (p : ℕ)
    → member p (readers (add_accesses fas g) f) ≡ (reads_in f p fas || member p (readers g f))
unfolding add_accesses reads_in
readers-add_accesses [] g f p = refl
readers-add_accesses (fa ∷ fas) g f p =
    ground (arith, readers-add_accesses fas (add_access fa g) f p, readers-add_access fa g f p)

pub outputs-add_accesses :
    (fas : List FileAccessRecord) (g : DependencyGraph) (f : Text) (p : ℕ)
    → member f (outputs (add_accesses fas g) p) ≡ (writes_in f p fas || member f (outputs g p))
unfolding add_accesses writes_in
outputs-add_accesses [] g f p = refl
outputs-add_accesses (fa ∷ fas) g f p =
    ground (arith, outputs-add_accesses fas (add_access fa g) f p, outputs-add_access fa g p f)

-- The loop over the processes leaves the maps of files alone.
pub add_processes-files :
    (ps : List ProcessRecord) (g : DependencyGraph)
    → ((add_processes ps g).file_to_readers ≡ g.file_to_readers)
      × ((add_processes ps g).pid_to_outputs ≡ g.pid_to_outputs)
      × ((add_processes ps g).file_to_writers ≡ g.file_to_writers)
unfolding add_processes add_process
add_processes-files [] g = (refl, refl, refl)
add_processes-files (p ∷ ps) g = add_processes-files ps (add_process p g)

pub add_accesses-children :
    (fas : List FileAccessRecord) (g : DependencyGraph)
    → (add_accesses fas g).pid_children ≡ g.pid_children
unfolding add_accesses add_access add_reader add_output
add_accesses-children [] g = refl
add_accesses-children (fa ∷ fas) g = add_accesses-children fas (add_access fa g) ∙ ground arith
