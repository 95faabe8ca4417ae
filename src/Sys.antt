-- ===== src/Sys.antt =====
-- lib/freebsd/sys/: the system calls, a module per C file.
pub mod Access
pub mod Chdir
pub mod Getcwd
pub mod Getuid
pub mod Mkdir
pub mod Open
pub mod Pipe
pub mod Socket
pub mod Stat
pub mod Symlink
pub mod Unlink
pub mod Wait
pub mod Read
pub mod Poll
pub mod Execve
pub mod Sysctl
