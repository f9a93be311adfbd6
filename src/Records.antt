-- ===== src/Records.antt =====
-- src/common/types.h, and the classification of access modes in src/common/view_helpers.cpp.
-- A process id (`int`) is a natural number; an `int64_t` is an integer with no bound.
use bdtrace.Common.{ℕ, Bool, ◌||◌, Text, ◌==◌, if◌then◌else◌, []}
use bdtrace.Common.Int.{ℤ, pos, negsuc}
use bdtrace.Common.Literals.{bytes}

pub data FileAccessMode : Type 0 where
  fa_read fa_write fa_rdwr fa_stat fa_access fa_exec fa_unlink fa_rename_src : FileAccessMode
  fa_rename_dst fa_readlink fa_mkdir fa_link_src fa_link_dst fa_symlink_target : FileAccessMode
  fa_symlink_link fa_chmod fa_chown fa_truncate fa_mknod fa_utimens fa_chdir : FileAccessMode

-- The value of an enumerator.
unfoldable pub mode_num : FileAccessMode → ℕ
mode_num fa_read = 0
mode_num fa_write = 1
mode_num fa_rdwr = 2
mode_num fa_stat = 3
mode_num fa_access = 4
mode_num fa_exec = 5
mode_num fa_unlink = 6
mode_num fa_rename_src = 7
mode_num fa_rename_dst = 8
mode_num fa_readlink = 9
mode_num fa_mkdir = 10
mode_num fa_link_src = 11
mode_num fa_link_dst = 12
mode_num fa_symlink_target = 13
mode_num fa_symlink_link = 14
mode_num fa_chmod = 15
mode_num fa_chown = 16
mode_num fa_truncate = 17
mode_num fa_mknod = 18
mode_num fa_utimens = 19
mode_num fa_chdir = 20

pub record ProcessRecord : Type 0 where
  pub pid : ℕ
  pub ppid : ℕ
  pub cmdline : Text
  pub cwd : Text
  pub start_time_us : ℤ
  pub end_time_us : ℤ
  pub exit_code : ℤ
  pub user_time_us : ℤ
  pub sys_time_us : ℤ
  pub peak_rss_kb : ℤ
  pub io_read_bytes : ℤ
  pub io_write_bytes : ℤ
  pub file_count : ℕ
  pub fail_count : ℕ

-- The default constructor.
abbrev pub new_process : ProcessRecord
new_process = record {
  pid = 0;
  ppid = 0;
  cmdline = [];
  cwd = [];
  start_time_us = pos 0;
  end_time_us = pos 0;
  exit_code = negsuc 0;
  user_time_us = pos 0;
  sys_time_us = pos 0;
  peak_rss_kb = pos 0;
  io_read_bytes = pos 0;
  io_write_bytes = pos 0;
  file_count = 0;
  fail_count = 0;
}

pub record FileAccessRecord : Type 0 where
  pub pid : ℕ
  pub filename : Text
  pub mode : FileAccessMode
  pub fd : ℤ
  pub timestamp_us : ℤ

pub record FailedAccessRecord : Type 0 where
  pub pid : ℕ
  pub filename : Text
  pub mode : FileAccessMode
  pub errno_val : ℕ
  pub timestamp_us : ℤ

unfoldable pub mode_str : ℕ → Text
mode_str m =
    if m == 0
    then bytes "R"
    else if m == 1
    then bytes "W"
    else if m == 2
    then bytes "RW"
    else if m == 3
    then bytes "ST"
    else if m == 4
    then bytes "AC"
    else if m == 5
    then bytes "EX"
    else if m == 6
    then bytes "UL"
    else if m == 7
    then bytes "RS"
    else if m == 8
    then bytes "RD"
    else if m == 9
    then bytes "RL"
    else if m == 10
    then bytes "MD"
    else if m == 11
    then bytes "LS"
    else if m == 12
    then bytes "LD"
    else if m == 13
    then bytes "SY"
    else if m == 14
    then bytes "SL"
    else if m == 15
    then bytes "CM"
    else if m == 16
    then bytes "CO"
    else if m == 17
    then bytes "TR"
    else if m == 18
    then bytes "MN"
    else if m == 19
    then bytes "UT"
    else if m == 20
    then bytes "CD"
    else bytes "?"

unfoldable pub is_input_mode : ℕ → Bool
is_input_mode m = m == 0 || m == 2 || m == 5 || m == 3 || m == 4 || m == 9

unfoldable pub is_output_mode : ℕ → Bool
is_output_mode m = m == 1 || m == 2 || m == 8 || m == 12 || m == 14 || m == 17 || m == 18 || m == 10
