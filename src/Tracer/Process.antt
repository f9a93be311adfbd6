-- ===== src/Tracer/Process.antt =====
-- `ProcessState` (src/tracer/process_state.h), the registers at a stop, and the recording of an access.
use bdtrace.Common.{
  ℕ, ◌-◌, ◌%◌, ◌^◌, Bool, false, List, [], ◌∷◌, ◌++◌, ◌==◌, if◌then◌else◌, Text, ltb, map, nat_ord,
}
use bdtrace.Common.Int.{ℤ, pos, negsuc}
use bdtrace.Common.Sets.{member}
use bdtrace.Records.{FileAccessMode, FileAccessRecord, FailedAccessRecord}
use bdtrace.Tracer.Syscalls.{Arch, Syscall, nr}
use bdtrace.Tracer.Paths.{slash, normalize_path, should_filter_path}

-- `SyscallPhase`.
pub data SyscallPhase : Type 0 where
  phase_unknown entry_next exit_next : SyscallPhase

pub record ProcessState : Type 0 where
  pub pid : ℕ
  pub ppid : ℕ
  pub sc_phase : SyscallPhase
  pub exit_needed : Bool
  pub pending_syscall : ℤ
  pub pending_path_addr : ℕ
  pub pending_path_addr2 : ℕ
  pub pending_flags : ℕ
  pub traced : Bool
  pub mem_fd : ℤ
  pub cached_cwd : Text
  pub cached_cmdline : Text
  pub user_time_us : ℤ
  pub sys_time_us : ℤ
  pub peak_rss_kb : ℤ
  pub io_read_bytes : ℤ
  pub io_write_bytes : ℤ

-- `ProcessState(p, pp)`.
unfoldable pub new_state : ℕ → ℕ → ProcessState
new_state p pp = record {
  pid = p;
  ppid = pp;
  sc_phase = phase_unknown;
  exit_needed = false;
  pending_syscall = negsuc 0;
  pending_path_addr = 0;
  pending_path_addr2 = 0;
  pending_flags = 0;
  traced = false;
  mem_fd = negsuc 0;
  cached_cwd = [];
  cached_cmdline = [];
  user_time_us = pos 0;
  sys_time_us = pos 0;
  peak_rss_kb = pos 0;
  io_read_bytes = pos 0;
  io_write_bytes = pos 0;
}

-- `user_regs_struct` through the macros REG_…: an argument is a word, the call's number and the return
-- value are `long`.
pub record Regs : Type 0 where
  pub syscall : ℤ
  pub arg0 : ℕ
  pub arg1 : ℕ
  pub arg2 : ℕ
  pub arg3 : ℕ
  pub retval : ℤ

-- What the operating system answers at a stop: the text at an address of the tracee
-- (`read_string`), the target of /proc/<pid>/cwd (`read_proc_link`) and the time (`now_us`).
pub record Kernel : Type 0 where
  pub read_string : ℕ → Text
  pub read_cwd : Text
  pub now_us : ℤ

-- The constants of <fcntl.h> and <errno.h> that the tracer tests against. A flags word is its bits.
pub record OsConstants : Type 0 where
  pub enosys : ℕ
  pub accmode : ℕ → ℕ
  pub o_rdonly : ℕ
  pub o_wronly : ℕ
  pub creat_flags : ℕ

-- A call of the session: `on_file_access` or `on_failed_access`.
pub data Report : Type 0 where
  accessed : FileAccessRecord → Report
  failed : FailedAccessRecord → Report

-- The state of a tracee and what was reported for it, the first report first.
pub record Tracee : Type 0 where
  pub ps : ProcessState
  pub reports : List Report

-- `(int)` of a number that is not negative.
unfoldable pub to_int : ℕ → ℤ
to_int n = let b = n % 2 ^ 32 in if ltb b (2 ^ 31) then pos b else negsuc (2 ^ 32 - 1 - b)

-- `(int)` of a word, as bits.
abbrev pub int_bits : ℕ → ℕ
int_bits n = n % 2 ^ 32

-- The number is that of one of the calls.
unfoldable pub among : Arch → ℤ → List Syscall → Bool
among a (pos n) l = member n (map (nr a) l)
among a (negsuc n) l = false

-- The directory in which a relative path is resolved, which is cached.
unfoldable pub current_directory : Kernel → ProcessState → Text
current_directory kern ps = elim ps.cached_cwd [ [] ↦ kern.read_cwd | (c ∷ cwd) ↦ c ∷ cwd ]

unfoldable pub below : Text → Text → Text
below [] path = path
below (c ∷ cwd) path = normalize_path ((c ∷ cwd) ++ slash ∷ path)

unfoldable pub resolve_path_cached : Kernel → Text → ProcessState → ProcessState × Text
resolve_path_cached kern [] ps = (ps, [])
resolve_path_cached kern (c ∷ path) ps = if c == slash then (ps, normalize_path (c ∷ path)) else (
  record ps { cached_cwd = current_directory kern ps },
  below (current_directory kern ps) (c ∷ path),
)

-- What `record_access` and `record_failed_access` share: the report is made of the resolved path, if
-- the path as it was given and the resolved one are to be kept.
unfoldable pub record_path : Kernel → ℕ → (Text → Report) → Tracee → Tracee
record_path kern addr make t = elim (kern.read_string addr) [
  | [] ↦ t
  | (c ∷ path) ↦
      let (ps, full) = resolve_path_cached kern (c ∷ path) t.ps in
      if should_filter_path (c ∷ path)
      then t
      else if should_filter_path full
      then record t { ps = ps }
      else record { ps = ps; reports = t.reports ++ make full ∷ [] }
]

unfoldable pub record_access : Kernel → ℕ → FileAccessMode → ℤ → Tracee → Tracee
record_access kern addr mode fd t =
    record_path kern addr
      (λ path. accessed record {
        pid = t.ps.pid;
        filename = path;
        mode = mode;
        fd = fd;
        timestamp_us = kern.now_us;
      })
      t

unfoldable pub record_failed_access : Kernel → ℕ → FileAccessMode → ℕ → Tracee → Tracee
record_failed_access kern addr mode errno t =
    record_path kern addr
      (λ path. failed record {
        pid = t.ps.pid;
        filename = path;
        mode = mode;
        errno_val = errno;
        timestamp_us = kern.now_us;
      })
      t
