-- ===== src/Tracer/Stops/Notes.antt =====
-- What the return of a call is recorded as, listed by the kind of the call, its arguments and its
-- result, beside the branches in src/tracer/ptrace_backend.cpp.
use bdtrace.Common.{
  ℕ, suc, ◌≡◌, refl, sym, Bool, true, false, [], ◌∷◌, ◌++◌, List, ◌==◌, if◌then◌else◌,
}
use bdtrace.Common.Int.{ℤ, pos, negsuc}
use bdtrace.Records.{FileAccessMode, fa_exec, fa_chdir}
use bdtrace.Tracer.Paths.{should_filter_path}
use bdtrace.Tracer.Process.{
  Kernel, OsConstants, accessed, Tracee, to_int, int_bits, record_access, record_failed_access,
}
use bdtrace.Tracer.Stops.{Pending}
use bdtrace.Tracer.Stops.Exit.{
  open_mode, note_open, note_result, note_success, note_two, note_exec, note_chdir, note_fchdir,
  note_path, note_failure, set_cwd, report_cwd,
}

-- What the return of a call is recorded as: an open with its mode; an access that failed as well as one
-- that did not; a success only; a success with two paths; a failed attempt to execute; a change of the
-- directory, by path and by descriptor; nothing.
pub data Treatment : Type 0 where
  opened tried moved moved_fd ignored : Treatment
  either : FileAccessMode → Treatment
  done : FileAccessMode → Treatment
  both : FileAccessMode → FileAccessMode → Treatment

-- The branch of the code for each.
unfoldable pub treat : Treatment → OsConstants → Kernel → ℤ → Tracee → Tracee
treat opened os kern rax t = note_open os kern rax t
treat (either mode) os kern rax t = note_result kern rax mode t
treat (done mode) os kern rax t = note_success kern rax mode t
treat (both mode mode2) os kern rax t = note_two kern rax mode mode2 t
treat tried os kern rax t = note_exec kern rax t
treat moved os kern rax t = note_chdir kern rax t
treat moved_fd os kern rax t = note_fchdir kern rax t
treat ignored os kern rax t = t

-- One thing that is recorded: an access to the path at an address, with its mode and its descriptor; an
-- access that failed, with its error number; that the directory changed; the new directory, as an access.
pub data Noted : Type 0 where
  access : ℕ → FileAccessMode → ℤ → Noted
  failure : ℕ → FileAccessMode → ℕ → Noted
  new_directory directory_access : Noted

-- The list for a call with the given arguments and result; a result below 0 is an error number, negated.
unfoldable pub noted : Treatment → OsConstants → Pending → ℤ → List Noted
noted opened os args (pos fd) = access args.path_addr (open_mode os args.flags) (to_int fd) ∷ []
noted opened os args (negsuc n) =
    failure args.path_addr (open_mode os args.flags) (int_bits (suc n)) ∷ []
noted tried os args (pos n) = []
noted tried os args (negsuc n) = access args.path_addr fa_exec (negsuc 0) ∷ []
noted moved os args (pos n) =
    if args.path_addr == 0
    then []
    else access args.path_addr fa_chdir (negsuc 0) ∷ new_directory ∷ []
noted moved os args (negsuc n) = []
noted moved_fd os args (pos n) = new_directory ∷ directory_access ∷ []
noted moved_fd os args (negsuc n) = []
noted ignored os args result = []
noted (either mode) os args (pos n) = access args.path_addr mode (negsuc 0) ∷ []
noted (either mode) os args (negsuc n) = failure args.path_addr mode (int_bits (suc n)) ∷ []
noted (done mode) os args (pos n) = access args.path_addr mode (negsuc 0) ∷ []
noted (done mode) os args (negsuc n) = []
noted (both mode mode2) os args (pos n) =
    access args.path_addr mode (negsuc 0) ∷ access args.path_addr2 mode2 (negsuc 0) ∷ []
noted (both mode mode2) os args (negsuc n) = []

-- Each is recorded in turn. There is no path at address 0.
unfoldable pub write_down : Kernel → Noted → Tracee → Tracee
write_down kern (access addr mode fd) t = if addr == 0 then t else record_access kern addr mode fd t
write_down kern (failure addr mode errno) t =
    if addr == 0 then t else record_failed_access kern addr mode errno t
write_down kern new_directory t = record t { ps = record t.ps { cached_cwd = kern.read_cwd } }
write_down kern directory_access t = if should_filter_path kern.read_cwd then t else record t {
  reports =
      t.reports
      ++ accessed record {
        pid = t.ps.pid;
        filename = kern.read_cwd;
        mode = fa_chdir;
        fd = negsuc 0;
        timestamp_us = kern.now_us;
      }
        ∷ [];
}

unfoldable pub write_all : Kernel → List Noted → Tracee → Tracee
write_all kern [] t = t
write_all kern (n ∷ ns) t = write_all kern ns (write_down kern n t)

abbrev args_of : Tracee → Pending
args_of t = record {
  path_addr = t.ps.pending_path_addr;
  path_addr2 = t.ps.pending_path_addr2;
  flags = t.ps.pending_flags;
}

-- A change of the directory, unless there is no path.
write_unless :
    (kern : Kernel) (b : Bool) (addr : ℕ) (t : Tracee)
    → write_all kern (if b then [] else access addr fa_chdir (negsuc 0) ∷ new_directory ∷ []) t ≡ (
        if b
        then t
        else write_down kern new_directory (write_down kern (access addr fa_chdir (negsuc 0)) t))
unfolding write_all
write_unless kern true addr t = refl
write_unless kern false addr t = refl

pub treat-noted :
    (w : Treatment) (os : OsConstants) (kern : Kernel) (rax : ℤ) (t : Tracee)
    → treat w os kern rax t ≡ write_all kern (noted w os (args_of t) rax) t
unfolding treat noted write_all write_down note_open note_result note_success note_two note_exec
    note_chdir note_fchdir note_path note_failure set_cwd report_cwd
treat-noted opened os kern (pos n) t = refl
treat-noted opened os kern (negsuc n) t = refl
treat-noted tried os kern (pos n) t = refl
treat-noted tried os kern (negsuc n) t = refl
treat-noted moved os kern (pos n) t =
    sym (write_unless kern (t.ps.pending_path_addr == 0) t.ps.pending_path_addr t)
treat-noted moved os kern (negsuc n) t = refl
treat-noted moved_fd os kern (pos n) t = refl
treat-noted moved_fd os kern (negsuc n) t = refl
treat-noted ignored os kern rax t = refl
treat-noted (either mode) os kern (pos n) t = refl
treat-noted (either mode) os kern (negsuc n) t = refl
treat-noted (done mode) os kern (pos n) t = refl
treat-noted (done mode) os kern (negsuc n) t = refl
treat-noted (both mode mode2) os kern (pos n) t = refl
treat-noted (both mode mode2) os kern (negsuc n) t = refl
