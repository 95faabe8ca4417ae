-- ===== src/Sysconf.antt =====
-- lib/freebsd/sysconf/lua_sysconf.c: sysconf(3).
use bricoler.Base.{
  ℕ, ℤ, String, List, [], ◌∷◌, not, Option, none, some, if◌then◌else◌, leb_ℤ, to_int, codes, ◌||◌,
}
use bricoler.Lua.{M, pure, ◌>>=◌, ◌>>◌}
use bricoler.Lua.Stack.{lua_pushnil, lua_pushinteger, lua_pushstring, lual_checkinteger}
use bricoler.Lua.Tables.{lua_newtable}
use bricoler.Os.{Os, syscall, push_errno, lual_setfuncs, add_constants}
use bricoler.Os.{int_min, int_max}

module _ {W : Type 0} (os : Os W) where
  open os use {conversions}

  unfoldable pub push_limit : Option (Option ℤ) → M W ℕ
  push_limit none = push_errno os
  push_limit (some none) = push_errno os
  push_limit (some (some value)) = do lua_pushinteger value; pure 1

  unfoldable pub l_sysconf : M W ℕ
  unfolding push_limit
  l_sysconf = do
    lname ← lual_checkinteger conversions 1
    let run = do value ← syscall (os.sysconf (to_int lname)); push_limit value
    if not (leb_ℤ int_min lname) || not (leb_ℤ lname int_max)
        then (do lua_pushnil; lua_pushstring (codes "argument out of range"); pure 2)
        else run

abbrev pub l_sysconftab : List (String × String)
l_sysconftab = ("sysconf", "l_sysconf") ∷ []

abbrev pub sysconf_constants : List String
sysconf_constants =
    "_SC_ARG_MAX" ∷ "_SC_CHILD_MAX" ∷ "_SC_CLK_TCK" ∷ "_SC_IOV_MAX" ∷ "_SC_NGROUPS_MAX"
    ∷ "_SC_NPROCESSORS_CONF" ∷ "_SC_NPROCESSORS_ONLN" ∷ "_SC_OPEN_MAX" ∷ "_SC_PAGESIZE"
    ∷ "_SC_PAGE_SIZE" ∷ "_SC_STREAM_MAX" ∷ "_SC_TZNAME_MAX" ∷ "_SC_JOB_CONTROL" ∷ "_SC_SAVED_IDS"
    ∷ "_SC_VERSION" ∷ "_SC_BC_BASE_MAX" ∷ "_SC_BC_DIM_MAX" ∷ "_SC_BC_SCALE_MAX"
    ∷ "_SC_BC_STRING_MAX" ∷ "_SC_COLL_WEIGHTS_MAX" ∷ "_SC_EXPR_NEST_MAX" ∷ "_SC_LINE_MAX"
    ∷ "_SC_RE_DUP_MAX" ∷ "_SC_2_VERSION" ∷ "_SC_2_C_BIND" ∷ "_SC_2_C_DEV" ∷ "_SC_2_CHAR_TERM"
    ∷ "_SC_2_FORT_DEV" ∷ "_SC_2_FORT_RUN" ∷ "_SC_2_LOCALEDEF" ∷ "_SC_2_SW_DEV" ∷ "_SC_2_UPE"
    ∷ "_SC_AIO_LISTIO_MAX" ∷ "_SC_AIO_MAX" ∷ "_SC_AIO_PRIO_DELTA_MAX" ∷ "_SC_DELAYTIMER_MAX"
    ∷ "_SC_MQ_OPEN_MAX" ∷ "_SC_RTSIG_MAX" ∷ "_SC_SEM_NSEMS_MAX" ∷ "_SC_SEM_VALUE_MAX"
    ∷ "_SC_SIGQUEUE_MAX" ∷ "_SC_TIMER_MAX" ∷ "_SC_GETGR_R_SIZE_MAX" ∷ "_SC_GETPW_R_SIZE_MAX"
    ∷ "_SC_HOST_NAME_MAX" ∷ "_SC_LOGIN_NAME_MAX" ∷ "_SC_THREAD_STACK_MIN" ∷ "_SC_THREAD_THREADS_MAX"
    ∷ "_SC_TTY_NAME_MAX" ∷ "_SC_SYMLOOP_MAX" ∷ "_SC_ATEXIT_MAX" ∷ "_SC_XOPEN_VERSION"
    ∷ "_SC_XOPEN_XCU_VERSION" ∷ "_SC_CPUSET_SIZE" ∷ "_SC_PHYS_PAGES" ∷ []

unfoldable pub luaopen_sysconf : {W : Type 0} → Os W → M W ℕ
luaopen_sysconf os = do
  lua_newtable
  lual_setfuncs l_sysconftab
  add_constants os sysconf_constants
  pure 1
