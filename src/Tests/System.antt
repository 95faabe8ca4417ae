-- ===== src/Tests/System.antt =====
-- The system of the tests, and the state in which the tests call.
use bricoler.Base.{
  ℕ, zero, suc, ◌+◌, ℤ, pos, negsuc, List, [], ◌∷◌, Bool, true, false, Option, some, none, ltb,
  ◌==◌, ◌&&◌, not, if◌then◌else◌, codes, length, take, String,
}
use bricoler.Lua.{
  Bytes, integer, string, index, Vm, Cell, sys_fd, no_meta, Table, name, table, userdata, old,
}
use bricoler.Os.{
  Os, Ret, ok, fail, Stat, Utsname, type_int, type_string, other_type, CtlType, exited,
}

-- The next descriptor, and the descriptors that were closed.
pub record World : Type 0 where
  pub next : ℕ
  pub closed : ℕ → Bool

abbrev pub open_in : ℤ → World → Bool
open_in (pos k) w = ltb k w.next && not (w.closed k)
open_in (negsuc k) w = false

-- The next `n` descriptors are opened.
abbrev pub advance : ℕ → World → World
advance n w = record { next = w.next + n; closed = λ j. ltb j w.next && w.closed j }

abbrev pub close_in : ℤ → World → World
close_in (pos k) w = record w { closed = λ j. if j == k then true else w.closed j }
close_in (negsuc k) w = w

abbrev pub close_result : Bool → Ret (Unit {0})
close_result true = ok tt
close_result false = fail 5

abbrev pub some_path : Bytes
some_path = codes "/tmp/a"

abbrev pub some_stat : Stat
some_stat = record {
  dev = pos 1;
  ino = pos 2;
  mode = pos 33188;
  nlink = pos 1;
  uid = pos 0;
  gid = pos 0;
  rdev = pos 0;
  size = pos 12;
  blocks = pos 8;
  blksize = pos 4096;
}

abbrev pub some_names : Utsname
some_names = record {
  sysname = codes "FreeBSD";
  nodename = codes "host";
  release = codes "14.2";
  version = codes "v";
  machine = codes "amd64";
}

-- A sysctl of one int, 5; its format is CTLTYPE_INT.
abbrev pub sysctl_in : List ℤ → Option ℕ → World → Ret (ℕ × Bytes) × World
sysctl_in (pos zero ∷ _) size w = (ok (4, 2 ∷ 0 ∷ 0 ∷ 0 ∷ []), w)
sysctl_in oid size w = (ok (4, 5 ∷ 0 ∷ 0 ∷ 0 ∷ []), w)

abbrev pub succeeds : World → Ret (Unit {0}) × World
succeeds w = (ok tt, w)

abbrev pub not_found : {A : Type 0} → World → Ret A × World
not_found w = (fail 2, w)

abbrev pub constant_of : String → ℤ
constant_of s = pos (length (codes s))

abbrev pub ctltype_of : ℕ → CtlType
ctltype_of n = if n == 2 then type_int else if n == 3 then type_string else other_type

abbrev pub test_os : Os World
test_os = record {
  conversions = record {
    to_integer = λ s. none;
    of_integer = λ z. codes "1";
    float_to_integer = λ x. none;
    of_float = λ x. codes "0.5";
    to_float = λ s. none;
    truncate = λ x. some (pos 0);
  };
  constant = λ s. if length (codes s) == 10 then pos 0 else constant_of s;
  error_number = λ s. length (codes s);
  ctl_maxname = 24;
  ctltype = ctltype_of;
  wait_status = λ z. exited z;
  mode_is = λ s z. true;
  strerror = λ e. codes "failed";
  gai_strerror = λ z. codes "unknown";
  malloc = λ n w. succeeds w;
  access = λ p m w. succeeds w;
  eaccess = λ p m w. not_found w;
  chdir = λ p w. succeeds w;
  getcwd = λ w. (ok some_path, w);
  getuid = λ w. 1001;
  geteuid = λ w. 0;
  getgid = λ w. 1001;
  getegid = λ w. 0;
  issetugid = λ w. pos 1;
  mkdir = λ p m w. not_found w;
  close = λ fd w. (close_result (open_in fd w), close_in fd w);
  pipe2 = λ f w. (ok (pos w.next, pos (suc w.next)), advance 2 w);
  poll = λ fds t w. (ok (1, pos 1 ∷ []), w);
  read = λ fd n w. (ok (take n (codes "hello")), w);
  pread = λ fd n off w. not_found w;
  write = λ fd s w. (ok (length s), w);
  socket = λ d t p w. (ok (pos w.next), advance 1 w);
  bind = λ fd s w. succeeds w;
  stat = λ p w. (ok some_stat, w);
  lstat = λ p w. not_found w;
  symlink = λ p q w. succeeds w;
  readlink = λ p w. (ok (codes "b"), w);
  unlink = λ p w. succeeds w;
  unlinkat = λ fd p f w. succeeds w;
  waitpid = λ p o w. (ok (pos 7, pos 1), w);
  execve = λ c a e w. (some 2, w);
  sysctl = sysctl_in;
  sysctlbyname = λ n s w. sysctl_in (pos 1 ∷ []) s w;
  sysctlnametomib = λ n w. (ok (pos 1 ∷ pos 2 ∷ []), w);
  sysconf = λ n w. (ok (some (pos 4096)), w);
  uname = λ w. (ok some_names, w);
  basename = λ p. codes "a";
  dirname = λ p. codes "/tmp";
  mkstemp = λ t w. (ok (pos w.next, t), advance 1 w);
  glob = λ p f w. ((pos 0, some_path ∷ []), w);
  glob_reads = λ f. false;
  getaddrinfo = λ h s hints w. ((pos 0, []), w);
  posix_spawn = λ p f fa at a e w. ((0, pos 7), w);
  file_actions_init = λ w. ((0, pos 1), w);
  file_actions_destroy = λ h w. (0, w);
  addopen = λ h fd p f m w. (0, w);
  adddup2 = λ h fd n w. (0, w);
  addclose = λ h fd w. (0, w);
  addclosefrom_np = λ h fd w. (0, w);
  addchdir_np = λ h p w. (0, w);
  addfchdir_np = λ h fd w. (0, w);
  spawnattr_init = λ w. ((0, pos 2), w);
  spawnattr_destroy = λ h w. (0, w);
  getflags = λ h w. ((0, pos 0), w);
  setflags = λ h f w. (0, w);
  getpgroup = λ h w. ((0, pos 0), w);
  setpgroup = λ h p w. (0, w);
  is_open = open_in;
}

-- The tables that a test can name: two numbers, two strings, and the argument of a poll.
abbrev pub test_tables : ℕ → Table
test_tables (suc zero) = (index 1, integer (pos 1)) ∷ (index 2, integer (pos 2)) ∷ []
test_tables (suc (suc zero)) = (index 1, string (codes "ls")) ∷ (index 2, string (codes "-l")) ∷ []
test_tables (suc (suc (suc zero))) = (index 1, table (old 4)) ∷ []
test_tables (suc (suc (suc (suc zero)))) =
    (name (codes "fd"), userdata 0) ∷ (name (codes "events"), integer (pos 1)) ∷ []
test_tables _ = []

-- Userdata 0 holds descriptor 3.
abbrev pub test_cells : ℕ → Cell
test_cells zero = record { meta = sys_fd; content = pos 3 }
test_cells _ = record { meta = no_meta; content = negsuc 0 }

abbrev pub test_vm : Vm World
test_vm = record {
  args = [];
  stack = [];
  room = 0;
  tables = test_tables;
  locals = [];
  cells = test_cells;
  next_cell = 1;
  registered = λ m. true;
  live = 0;
  errno = 0;
  world = record { next = 4; closed = λ j. false };
}
