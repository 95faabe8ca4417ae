-- ===== src/Descriptors/Keeps/Others.antt =====
-- The calls of the operating system and of libc that are not about the process's descriptors.
use bricoler.Base.{ℕ, ℤ, List, Bool, Option}
use bricoler.Lua.{Bytes}
use bricoler.Os.{Os, Hints, Pollfd}
use bricoler.Descriptors.Keeps.{ClosesNone}

-- None of them is documented to close a descriptor of its caller.
pub record Others {W : Type 0} (os : Os W) : Type 0 where
  pub malloc : (n : ℕ) (w : W) → ClosesNone os w (os.malloc n w).1
  pub access : (p : Bytes) (m : ℤ) (w : W) → ClosesNone os w (os.access p m w).1
  pub eaccess : (p : Bytes) (m : ℤ) (w : W) → ClosesNone os w (os.eaccess p m w).1
  pub chdir : (p : Bytes) (w : W) → ClosesNone os w (os.chdir p w).1
  pub getcwd : (w : W) → ClosesNone os w (os.getcwd w).1
  pub mkdir : (p : Bytes) (m : ℕ) (w : W) → ClosesNone os w (os.mkdir p m w).1
  pub poll : (fds : List Pollfd) (t : ℤ) (w : W) → ClosesNone os w (os.poll fds t w).1
  pub read : (fd : ℤ) (n : ℕ) (w : W) → ClosesNone os w (os.read fd n w).1
  pub pread : (fd : ℤ) (n : ℕ) (off : ℤ) (w : W) → ClosesNone os w (os.pread fd n off w).1
  pub write : (fd : ℤ) (s : Bytes) (w : W) → ClosesNone os w (os.write fd s w).1
  pub bind : (fd : ℤ) (addr : Bytes) (w : W) → ClosesNone os w (os.bind fd addr w).1
  pub stat : (p : Bytes) (w : W) → ClosesNone os w (os.stat p w).1
  pub lstat : (p : Bytes) (w : W) → ClosesNone os w (os.lstat p w).1
  pub symlink : (p q : Bytes) (w : W) → ClosesNone os w (os.symlink p q w).1
  pub readlink : (p : Bytes) (w : W) → ClosesNone os w (os.readlink p w).1
  pub unlink : (p : Bytes) (w : W) → ClosesNone os w (os.unlink p w).1
  pub unlinkat :
      (fd : ℤ) (p : Bytes) (flags : ℤ) (w : W) → ClosesNone os w (os.unlinkat fd p flags w).1
  pub waitpid : (pid options : ℤ) (w : W) → ClosesNone os w (os.waitpid pid options w).1
  -- where it fails; else the process is gone
  pub execve :
      (p : Bytes) (argv envp : List Bytes) (w : W) → ClosesNone os w (os.execve p argv envp w).1
  pub sysctl : (oid : List ℤ) (n : Option ℕ) (w : W) → ClosesNone os w (os.sysctl oid n w).1
  pub sysctlbyname : (s : Bytes) (n : Option ℕ) (w : W) → ClosesNone os w (os.sysctlbyname s n w).1
  pub sysctlnametomib : (s : Bytes) (w : W) → ClosesNone os w (os.sysctlnametomib s w).1
  pub sysconf : (n : ℤ) (w : W) → ClosesNone os w (os.sysconf n w).1
  pub uname : (w : W) → ClosesNone os w (os.uname w).1
  pub glob : (p : Bytes) (flags : ℤ) (w : W) → ClosesNone os w (os.glob p flags w).1
  pub getaddrinfo :
      (h s : Option Bytes) (hints : Hints) (w : W) → ClosesNone os w (os.getaddrinfo h s hints w).1
  pub posix_spawn :
      (path : Bool) (file : Bytes) (actions attr : ℤ) (argv : List Bytes)
      (envp : Option (List Bytes)) (w : W)
      → ClosesNone os w (os.posix_spawn path file actions attr argv envp w).1
  pub file_actions_init : (w : W) → ClosesNone os w (os.file_actions_init w).1
  pub file_actions_destroy : (h : ℤ) (w : W) → ClosesNone os w (os.file_actions_destroy h w).1
  pub addopen :
      (h fd : ℤ) (p : Bytes) (flags : ℤ) (m : ℕ) (w : W)
      → ClosesNone os w (os.addopen h fd p flags m w).1
  pub adddup2 : (h fd new : ℤ) (w : W) → ClosesNone os w (os.adddup2 h fd new w).1
  pub addclose : (h fd : ℤ) (w : W) → ClosesNone os w (os.addclose h fd w).1
  pub addclosefrom_np : (h from : ℤ) (w : W) → ClosesNone os w (os.addclosefrom_np h from w).1
  pub addchdir_np : (h : ℤ) (p : Bytes) (w : W) → ClosesNone os w (os.addchdir_np h p w).1
  pub addfchdir_np : (h fd : ℤ) (w : W) → ClosesNone os w (os.addfchdir_np h fd w).1
  pub spawnattr_init : (w : W) → ClosesNone os w (os.spawnattr_init w).1
  pub spawnattr_destroy : (h : ℤ) (w : W) → ClosesNone os w (os.spawnattr_destroy h w).1
  pub getflags : (h : ℤ) (w : W) → ClosesNone os w (os.getflags h w).1
  pub setflags : (h flags : ℤ) (w : W) → ClosesNone os w (os.setflags h flags w).1
  pub getpgroup : (h : ℤ) (w : W) → ClosesNone os w (os.getpgroup h w).1
  pub setpgroup : (h p : ℤ) (w : W) → ClosesNone os w (os.setpgroup h p w).1
