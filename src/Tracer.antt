-- ===== src/Tracer.antt =====
-- src/tracer/ptrace_backend.cpp: the system calls that are traced, the stops that decode them, the
-- paths that are recorded and the events of processes.
pub mod Syscalls
pub mod Seccomp
pub mod Paths
pub mod Process
pub mod Stops
pub mod Events
