-- ===== src/Os.antt =====
-- What the library calls and does not implement: the system calls, the functions of libc, the
-- constants of the system's headers, and Lua's conversions between strings and numbers. They are
-- the fields of a record over the system's states `W`; every definition of the library takes one.
use bricoler.Base.{
  ℕ, ℤ, pos, negsuc, ◌-◌, ◌^◌, String, List, [], ◌∷◌, Bool, true, false, Option, none, some, leb,
  if◌then◌else◌, ◌≡◌, refl, ◌⊎◌, inl, inr,
}
use bricoler.Lua.{Bytes, M, done, gone, undefined, pure, ◌>>=◌, ◌>>◌}
use bricoler.Lua.Stack.{
  Conversions, Slot, null, chars, dangling, lua_pushnil, lua_pushstring, lua_pushinteger,
  lua_pushboolean, push,
}
use bricoler.Lua.{cfunction}
use bricoler.Lua.Tables.{lua_setfield}
use bricoler.Lua.Cells.{get_errno, allocated}

-- A call fails with an error number, or returns a value.
pub data Ret (A : Type 0) : Type 0 where
  ok : A → Ret A
  fail : ℕ → Ret A

-- To split on the result of a call and keep the equation.
pub Ret-cases :
    {A W : Type 0} (r : Ret A × W) → ((a : A) × (r ≡ (ok a, r.1))) ⊎ ((e : ℕ) × (r ≡ (fail e, r.1)))
Ret-cases (ok a, w) = inl (a, refl)
Ret-cases (fail e, w) = inr (e, refl)

abbrev pub Syscall : Type 0 → Type 0 → Type 0
Syscall W A = W → Ret A × W

-- struct stat
pub record Stat : Type 0 where
  pub dev : ℤ
  pub ino : ℤ
  pub mode : ℤ
  pub nlink : ℤ
  pub uid : ℤ
  pub gid : ℤ
  pub rdev : ℤ
  pub size : ℤ
  pub blocks : ℤ
  pub blksize : ℤ

-- struct pollfd, as poll(2) is given it
pub record Pollfd : Type 0 where
  pub fd : ℤ
  pub events : ℤ

-- struct utsname
pub record Utsname : Type 0 where
  pub sysname : Bytes
  pub nodename : Bytes
  pub release : Bytes
  pub version : Bytes
  pub machine : Bytes

-- struct addrinfo; the list that ai_next makes is a list of these.
pub record Addrinfo : Type 0 where
  pub ai_flags : ℤ
  pub ai_family : ℤ
  pub ai_socktype : ℤ
  pub ai_protocol : ℤ
  pub ai_addr : Bytes
  pub ai_canonname : Option Bytes

pub record Hints : Type 0 where
  pub flags : ℤ
  pub family : ℤ
  pub socktype : ℤ
  pub protocol : ℤ

-- An argument vector as calloc(3) and the loops leave it: the slots before the final NULL.
abbrev pub Argv : Type 0
Argv = List Slot

-- What the called function reads of it: the strings before the first NULL.
abbrev pub argv_read : Argv → List Bytes
argv_read [] = []
argv_read (null ∷ xs) = []
argv_read (chars s ∷ xs) = s ∷ argv_read xs
argv_read (dangling ∷ xs) = []

-- The pointers that it reads are all good.
abbrev pub intact : Argv → Bool
intact [] = true
intact (null ∷ xs) = true
intact (chars s ∷ xs) = intact xs
intact (dangling ∷ xs) = false

abbrev pub intact_option : Option Argv → Bool
intact_option none = true
intact_option (some xs) = intact xs

-- sys/sysctl.h: the CTLTYPE_* that the code tells apart, and `other_type` for the rest.
pub data CtlType : Type 0 where
  type_string : CtlType
  type_u8 type_s8 type_u16 type_s16 type_u32 type_s32 type_u64 type_s64 : CtlType
  type_uint type_int type_ulong type_long : CtlType
  other_type : CtlType

-- sys/wait.h: what WIFEXITED, WIFSIGNALED and WIFSTOPPED say of a status, with WEXITSTATUS, WTERMSIG
-- or WSTOPSIG; a status may be of none of these kinds.
pub data WaitStatus : Type 0 where
  exited : ℤ → WaitStatus
  signaled : ℤ → WaitStatus
  stopped : ℤ → WaitStatus
  other_status : WaitStatus

pub record Os (W : Type 0) : Type 0 where
  pub conversions : Conversions
  pub constant : String → ℤ
  pub error_number : String → ℕ
  pub ctl_maxname : ℕ
  pub ctltype : ℕ → CtlType
  pub wait_status : ℤ → WaitStatus
  -- The predicates S_ISBLK, S_ISCHR, ... of sys/stat.h, by name.
  pub mode_is : String → ℤ → Bool
  pub strerror : ℕ → Bytes
  pub gai_strerror : ℤ → Bytes
  pub malloc : ℕ → Syscall W (Unit {0})
  pub access : Bytes → ℤ → Syscall W (Unit {0})
  pub eaccess : Bytes → ℤ → Syscall W (Unit {0})
  pub chdir : Bytes → Syscall W (Unit {0})
  pub getcwd : Syscall W Bytes
  pub getuid : W → ℕ
  pub geteuid : W → ℕ
  pub getgid : W → ℕ
  pub getegid : W → ℕ
  pub issetugid : W → ℤ
  pub mkdir : Bytes → ℕ → Syscall W (Unit {0})
  pub close : ℤ → Syscall W (Unit {0})
  pub pipe2 : ℤ → Syscall W (ℤ × ℤ)
  -- the count of ready descriptors, and revents of each entry
  pub poll : List Pollfd → ℤ → Syscall W (ℕ × List ℤ)
  -- At most the given count of bytes comes back.
  pub read : ℤ → ℕ → Syscall W Bytes
  pub pread : ℤ → ℕ → ℤ → Syscall W Bytes
  pub write : ℤ → Bytes → Syscall W ℕ
  pub socket : ℤ → ℤ → ℤ → Syscall W ℤ
  pub bind : ℤ → Bytes → Syscall W (Unit {0})
  pub stat : Bytes → Syscall W Stat
  pub lstat : Bytes → Syscall W Stat
  pub symlink : Bytes → Bytes → Syscall W (Unit {0})
  pub readlink : Bytes → Syscall W Bytes
  pub unlink : Bytes → Syscall W (Unit {0})
  pub unlinkat : ℤ → Bytes → ℤ → Syscall W (Unit {0})
  -- the value returned, and the status
  pub waitpid : ℤ → ℤ → Syscall W (ℤ × ℤ)
  -- It returns only when it fails.
  pub execve : Bytes → List Bytes → List Bytes → W → Option ℕ × W
  -- The argument is oldlen, with NULL for the buffer where it is none. The result is the new oldlen
  -- and the bytes in the buffer.
  pub sysctl : List ℤ → Option ℕ → Syscall W (ℕ × Bytes)
  pub sysctlbyname : Bytes → Option ℕ → Syscall W (ℕ × Bytes)
  pub sysctlnametomib : Bytes → Syscall W (List ℤ)
  -- The limit; none is the -1 that leaves errno as it was, for a limit that there is not.
  pub sysconf : ℤ → Syscall W (Option ℤ)
  pub uname : Syscall W Utsname
  pub basename : Bytes → Bytes
  pub dirname : Bytes → Bytes
  pub mkstemp : Bytes → Syscall W (ℤ × Bytes)
  -- The status and gl_pathv, which holds a list or, with no paths and a status other than 0, none.
  pub glob : Bytes → ℤ → W → (ℤ × List Bytes) × W
  -- Does glob(3) read the structure that it is given, with such flags? It is documented to for
  -- GLOB_APPEND, GLOB_DOOFFS and GLOB_ALTDIRFUNC.
  pub glob_reads : ℤ → Bool
  pub getaddrinfo : Option Bytes → Option Bytes → Hints → W → (ℤ × List Addrinfo) × W
  -- posix_spawn(3): the last argument is NULL for the caller's environment.
  pub posix_spawn : Bool → Bytes → ℤ → ℤ → List Bytes → Option (List Bytes) → W → (ℕ × ℤ) × W
  -- The functions on libc's own objects, which a handle stands for, return an error number.
  pub file_actions_init : W → (ℕ × ℤ) × W
  pub file_actions_destroy : ℤ → W → ℕ × W
  pub addopen : ℤ → ℤ → Bytes → ℤ → ℕ → W → ℕ × W
  pub adddup2 : ℤ → ℤ → ℤ → W → ℕ × W
  pub addclose : ℤ → ℤ → W → ℕ × W
  pub addclosefrom_np : ℤ → ℤ → W → ℕ × W
  pub addchdir_np : ℤ → Bytes → W → ℕ × W
  pub addfchdir_np : ℤ → ℤ → W → ℕ × W
  pub spawnattr_init : W → (ℕ × ℤ) × W
  pub spawnattr_destroy : ℤ → W → ℕ × W
  pub getflags : ℤ → W → (ℕ × ℤ) × W
  pub setflags : ℤ → ℤ → W → ℕ × W
  pub getpgroup : ℤ → W → (ℕ × ℤ) × W
  pub setpgroup : ℤ → ℤ → W → ℕ × W
  -- fcntl(fd, F_GETFD) of an open descriptor
  pub is_open : ℤ → W → Bool

module _ {W : Type 0} where
  abbrev pub ret_in : {A : Type 0} → Ret A × W → M W (Option A)
  ret_in (ok a, w) vm = done (some a) (record vm { world = w })
  ret_in (fail e, w) vm = done none (record vm { errno = e; world = w })

  -- A system call; `none` is its -1 or NULL, with errno set.
  abbrev pub syscall : {A : Type 0} → Syscall W A → M W (Option A)
  syscall call vm = ret_in (call vm.world) vm

  abbrev pub exec_in : Option ℕ × W → M W (Unit {0})
  exec_in (none, w) vm = gone w
  exec_in (some e, w) vm = done tt (record vm { errno = e; world = w })

  -- A write to an array of `capacity` elements that makes use of the first `n`.
  abbrev pub fits : ℕ → ℕ → M W (Unit {0})
  fits n capacity vm = if leb n capacity then done tt vm else undefined

  -- A call that reports its error in its result.
  abbrev pub libc_call : {A : Type 0} → (W → A × W) → M W A
  libc_call call vm = let r = call vm.world in done r.0 (record vm { world = r.1 })

  -- execve(2): the process is replaced, or errno is set.
  abbrev pub exec_call : (W → Option ℕ × W) → M W (Unit {0})
  exec_call call vm = exec_in (call vm.world) vm

  abbrev pub reads : {A : Type 0} → (W → A) → M W A
  reads f vm = done (f vm.world) vm

  -- malloc(3), calloc(3) and the allocation of strdup(3): `false` is NULL.
  abbrev pub malloc : Os W → ℕ → M W Bool
  malloc os n = do
    got ← syscall (os.malloc n)
    elim got [ none ↦ pure false | some _ ↦ (allocated >> pure true) ]

  -- `lua_pushnil(L); lua_pushstring(L, strerror(e)); lua_pushinteger(L, e); return (3);`
  abbrev pub push_error : Os W → ℕ → M W ℕ
  push_error os e = do lua_pushnil; lua_pushstring (os.strerror e); lua_pushinteger (pos e); pure 3

  -- The same with errno.
  abbrev pub push_errno : Os W → M W ℕ
  push_errno os = do e ← get_errno; push_error os e

  -- `lua_pushboolean(L, 1); return (1);`
  abbrev pub push_true : M W ℕ
  push_true = do lua_pushboolean true; pure 1

  -- The common end of a wrapper: the error triple, or true.
  abbrev pub true_or_error : Os W → Option (Unit {0}) → M W ℕ
  true_or_error os none = push_errno os
  true_or_error os (some _) = push_true

  -- luaL_setfuncs(L, tab, 0), on the table at the top
  abbrev pub lual_setfuncs : List (String × String) → M W (Unit {0})
  lual_setfuncs [] = pure tt
  lual_setfuncs ((n, f) ∷ tab) = do push (cfunction f); lua_setfield n; lual_setfuncs tab

  -- `lua_pushinteger(L, c); lua_setfield(L, -2, #c);` for each constant
  abbrev pub add_constants : Os W → List String → M W (Unit {0})
  add_constants os [] = pure tt
  add_constants os (c ∷ cs) = do
    lua_pushinteger (os.constant c)
    lua_setfield c
    add_constants os cs

-- INT_MIN, INT_MAX, SHRT_MIN and SHRT_MAX
abbrev pub int_min : ℤ
int_min = negsuc (2 ^ 31 - 1)

abbrev pub int_max : ℤ
int_max = pos (2 ^ 31 - 1)

abbrev pub shrt_min : ℤ
shrt_min = negsuc (2 ^ 15 - 1)

abbrev pub shrt_max : ℤ
shrt_max = pos (2 ^ 15 - 1)
