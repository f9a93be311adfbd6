-- ===== src/Lib.antt =====
-- bdtrace traces a build with ptrace, stores its processes and file accesses in a database, and
-- answers questions about them: which commands a change of a file makes stale, and why.
--
-- The parts and how they interact
--   The tracer (src/tracer/ptrace_backend.cpp) stops the traced processes at the system calls that name
--   files, makes records of processes and accesses out of the registers, and calls the session.
--   The session (src/tracer/trace_session.cpp) gives every incarnation of a pid an identifier, drops
--   repeated accesses, and hands the rest to a writer thread, which stores them in batches.
--   The views (src/common/view_helpers.cpp) read the rows back, build the dependency graph, and search it.
--   The web server (src/web) takes a request apart, runs a query, and writes the answer as JSON.
--
-- Which file models what
--   Common           what the others share: sets and maps as lists in the order of their keys, text as
--                    bytes, tests on numbers, signed integers.
--   Records          src/common/types.h and the classification of access modes in view_helpers.cpp.
--   Graph            `DependencyGraph` and `build_dependency_graph`; Graph/Build holds its laws.
--   Graph/Rebuild    `rebuild_bfs`; Graph/Reasons is `rebuild_bfs_reasons`. A worklist loop runs on fuel: one
--                    round for each reader in the graph and one more, since a process enters the
--                    worklist at most once.
--   Session          the handlers of `TraceSession` on the side of the event loop, as functions from a
--                    state and a call to a state and the queued events; Session/Ids is about
--                    `current_synth`, Session/Dedup about `already_seen`.
--   Session/Writer   `apply_event`, `maybe_commit` and the loop of `writer_loop`, with the calls of the
--                    database as a log.
--   Session/Pipeline `enqueue`, `writer_loop` and `finalize` as steps of two threads on a shared queue, with their
--                    waits on the condition variables.
--   Tracer/Syscalls  src/tracer/ptrace_defs.h.
--   Tracer/Seccomp   `install_seccomp_filter`, the program only.
--   Tracer/Paths     `normalize_path` and `should_filter_path`.
--   Tracer/Process   `ProcessState` (src/tracer/process_state.h), `record_access`, `record_failed_access` and
--                    `resolve_path_cached`.
--   Tracer/Stops     `decode_syscall_entry`, `handle_seccomp_stop` and `handle_syscall_stop`; the exit branch
--                    is in Tracer/Stops/Exit. Tracer/Stops/Table and Tracer/Stops/Notes list what
--                    the calls are recorded as, apart from these.
--   Tracer/Events    `handle_fork_event`, `handle_exec_event`, `handle_exit_event`; Tracer/Events/Dispatch is
--                    the part of `run_event_loop` that follows waitpid.
--   Commands         `cmd_name`, `script_token`, `cmd_name_full`, `shorten_cmd` and `errno_name`. The recursion
--                    on the command of env runs on fuel, one more than the length of the line: each
--                    such command is shorter than the line that it stands in.
--   Queries/Io       `collect_descendant_pids` and `classify_process_io`. The recursion runs on fuel, two more
--                    than the entries of the lists of children: each nested call is for an entry that
--                    was not seen before.
--   Queries/Impact   `compute_impact` and `compute_rebuild_estimate`.
--   Queries/Rdeps    `compute_rdeps`, by recursion on the depth.
--   Queries/Runs     `compact_runs`.
--   Queries/Races    `detect_races`. The walk that numbers the processes runs on fuel that is an argument:
--                    two rounds for each process and one more are enough on trees; on a graph with
--                    a cycle below a root the source does not end.
--   Queries/Minimal  `filter_rebuild_set`. Its loops over a queue run on fuel that is an argument; without
--                    names to collapse they do not run.
--   Web/Json         `JsonWriter` of src/web/json_writer.h, strings as it escapes them (Web/Json/Strings) and
--                    whole documents (Web/Json/Document).
--   Web/Query        `get_query_param` and `extract_pid_from_uri` of src/web/bdview_web.cpp.
--   Web/Route        `ev_handler` of the same file: which handler answers a request.
--   Web/Answers      `handle_process_io`, `handle_impact`, `handle_races` and `handle_rdeps`.
--   Web/Files        `handle_files_by_path` and `handle_files_by_prefix`.
--   Web/Options      the arguments of `main` of the same file.
--
-- Numbers
--   Pids, addresses and counts are natural numbers; `int` wraps around where the source lets it
--   (identifiers, descriptors, numbers read from text, the counters of the writer); times and
--   return values are signed.
--
-- Parameters
--   What the operating system answers is an argument: the memory of a tracee, /proc, the time, the
--   registers at a stop, the machine that runs the filter (with the documented laws of its three
--   instructions), the constants of the system headers. So are the answers of the database, the clock
--   of a deadline, and the text of a floating-point number.
--
-- Not modelled
--   The database and its schema (SQL), the other handlers of the web server and its pages, the printing of
--   bdview and the option parsing of bdtrace and bdview, the log, the watchdog and signal handling of the event
--   loop, the reading of /proc and of the tracee's memory.
--   The library functions `std::sort`, `atoi` and `strtol` are modelled as far as the source uses them.
pub mod Common
pub mod Records
pub mod Graph
pub mod Session
pub mod Tracer
pub mod Commands
pub mod Web
pub mod Queries
