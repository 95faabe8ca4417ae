-- ===== src/Lib.antt =====
-- The C modules of bricoler under lib/freebsd, which give Lua programs the system calls of FreeBSD,
-- and the parameters and the schedule of bricoler's tasks.
--
-- The program. bricoler is written in Lua: it finds the tasks that a target needs, binds their
-- parameters and runs them. It requires C modules, one for each file below lib/freebsd. A module is
-- a table of functions and constants that its luaopen_ function makes. A function checks its Lua
-- arguments, makes a system call, and returns the values or the error triple nil, message, errno.
-- The modules share one piece of state, the userdata that hold a descriptor: lua_socket.c,
-- lua_pipe.c and lua_mktemp.c make them, lua_open.c closes them, lua_read.c, lua_poll.c,
-- lua_unlink.c and lua_posix_spawn.c read them, and the collector gives them to the __gc of
-- lua_freebsd_meta.c.
--
-- The model. Lua.antt holds the state of a call: its arguments and stack, the free slots
-- (LUA_MINSTACK on entry), tables, userdata, the metatables that the registry has, the count of
-- live blocks of malloc(3), errno, and the world of the system. A C function is a function from
-- that state to a run, which returns, raises a Lua error, fails an assertion, does what is
-- undefined, or is replaced by execve(2). Os.antt is the record of what the code calls and does not
-- implement: the system calls, libc, the constants of the headers and Lua's number conversions,
-- those of floats included; every definition takes one. A string that lua_tostring makes of a
-- number and lua_pop takes off the stack again leaves a pointer that may not be read. int has 32
-- bits, long, size_t and lua_Integer 64; mode_t has 16. A C conversion to a narrower type is
-- written out.
--
-- The files. Sys.antt and its children are lib/freebsd/sys: Sys/Access.antt is
-- lib/freebsd/sys/access/lua_access.c, and so on. Getaddrinfo, Glob, Libgen, Mktemp, Errno,
-- Sysconf, Uname and PosixSpawn are the directories of those names below lib/freebsd, and Meta is
-- lib/freebsd/lua_freebsd_meta.c. Definitions keep the names of the C functions; a part of a
-- function that has a definition of its own is named for what it does. Lua/ has the parts of the
-- state, Base.antt the shared names, lists and integers. Library.antt is lib/freebsd/sys.lua, which
-- requires the modules: Library/Requires and Library/Loading are about what that leaves, Functions
-- and Callable list what a program can call then, and Balance and Frugal count blocks.
-- Contract.antt and its children state what a call means to the Lua program, with no stack in
-- sight; Contract/Balance has the runs that come back with the blocks that they began with.
-- Descriptors.antt says what the kernel does to descriptors and who owns them; close(2) may fail on
-- an open descriptor, and what is said of histories is said of those in which it does not:
-- Ownership and Steps are about each call and about histories, Start about a program from the
-- loading of lua_freebsd_meta.c on, Collection about the collector, and Abstract and Refinement
-- compare the state with plain handles. Keeps and Keepers are about what each function of the
-- library does to what is owned; Calls and Blocks are about sequences of calls of all of them.
-- Tasks.antt is about the file bricoler. Tasks/Parameter is its class TaskParameter, and
-- Tasks/Schedule the part of the constructor of TaskSchedule that finds the tasks of a target:
-- add_inputs, a function local to the constructor, has a definition of that name. Typing is about
-- the values of parameters; Needs, Outcome and Plans about the schedule; Settings about the pattern
-- that takes a setting of the command line apart, CommandLine and Precedence about the loop that
-- binds them. These classes only read what the tasks declare; the C modules are called by the
-- tasks' own code. Tests.antt and its children have a small system and concrete calls and tasks.
--
-- Bounds. The loops of the C code are structural recursion on the list or the count that they go
-- through, so no fuel is chosen. The order in which lua_next visits a table is the order of the
-- list that models it, as is that of pairs in Tasks. The recursion of add_inputs has the depth of
-- Lua's stack as an argument, out of which it is the error that Lua raises; more than the rank of
-- the target is enough, for a rank that falls from each task to its inputs.
--
-- Not modelled: in bricoler, the tasks, the jobs, the parser of the command line, the binding of
-- values to parameters from other tasks, and class.lua, whose check of the types of a constructor's
-- arguments is taken for granted; the path package.cpath that sys.lua sets, a parameter here;
-- contrib, which holds copies of other projects; memory other than by the count of live blocks; a
-- failure of Lua's own allocations; the arithmetic of Lua's floats, whose conversions are
-- parameters; what the collector does with a string that no value refers to, which counts as gone
-- at once; the number that luaL_error formats behind a message.
pub mod Base
pub mod Lua
pub mod Os
pub mod Sys
pub mod Meta
pub mod Getaddrinfo
pub mod Glob
pub mod Libgen
pub mod Mktemp
pub mod Errno
pub mod Sysconf
pub mod Uname
pub mod PosixSpawn
pub mod Contract
pub mod Library
pub mod Descriptors
pub mod Tasks
pub mod Tests
