-- ===== src/Descriptors/Keeps/Query.antt =====
-- The functions on sysctls and execve keep the ownership of descriptors.
use bricoler.Base.{List, Option, some, none}
use bricoler.Lua.{Bytes, Value, Vm, enter}
use bricoler.Lua.Stack.{truncated}
use bricoler.Os.{
  Os, CtlType, type_string, type_u8, type_s8, type_u16, type_s16, type_u32, type_s32, type_u64,
  type_s64, type_uint, type_int, type_ulong, type_long, other_type,
}
use bricoler.Descriptors.Keeps.{keeps_rules, Parts, Keeps}
use bricoler.Descriptors.Keeps.Tables.{table_rules, Keeps-elim_option}
use bricoler.Descriptors.Keeps.Userdata.{Keeps-exec}
use bricoler.Descriptors.Keeps.Others.{Others}
use bricoler.Sys.Sysctl.{
  l_sysctl, l_sysctlbyname, IntType, int_type, push_int, push_value, oid_element,
}
use bricoler.Sys.Execve.{l_execve, l_fexecve}

module _ {W : Type 0} (os : Os W) where
  Keeps-push_int :
      (t : Option IntType) (buf : Bytes) (vm : Vm W) → Parts os vm → Keeps os (push_int os t buf vm)
  unfolding push_int
  Keeps-push_int none buf vm p = search keeps_rules depth 10
  Keeps-push_int (some t) buf vm p = search keeps_rules depth 10

  Keeps-push_value :
      (t : CtlType) (buf : Bytes) (vm : Vm W) → Parts os vm → Keeps os (push_value os t buf vm)
  unfolding push_value
  Keeps-push_value type_string buf vm p = search keeps_rules depth 10
  Keeps-push_value type_u8 buf vm p = Keeps-push_int (int_type type_u8) buf vm p
  Keeps-push_value type_s8 buf vm p = Keeps-push_int (int_type type_s8) buf vm p
  Keeps-push_value type_u16 buf vm p = Keeps-push_int (int_type type_u16) buf vm p
  Keeps-push_value type_s16 buf vm p = Keeps-push_int (int_type type_s16) buf vm p
  Keeps-push_value type_u32 buf vm p = Keeps-push_int (int_type type_u32) buf vm p
  Keeps-push_value type_s32 buf vm p = Keeps-push_int (int_type type_s32) buf vm p
  Keeps-push_value type_u64 buf vm p = Keeps-push_int (int_type type_u64) buf vm p
  Keeps-push_value type_s64 buf vm p = Keeps-push_int (int_type type_s64) buf vm p
  Keeps-push_value type_uint buf vm p = Keeps-push_int (int_type type_uint) buf vm p
  Keeps-push_value type_int buf vm p = Keeps-push_int (int_type type_int) buf vm p
  Keeps-push_value type_ulong buf vm p = Keeps-push_int (int_type type_ulong) buf vm p
  Keeps-push_value type_long buf vm p = Keeps-push_int (int_type type_long) buf vm p
  Keeps-push_value other_type buf vm p = Keeps-push_int (int_type other_type) buf vm p

  Keeps-oid_element : (v : Value) (vm : Vm W) → Parts os vm → Keeps os (oid_element os v vm)
  unfolding oid_element
  Keeps-oid_element v vm p =
      Keeps-elim_option os (truncated os.conversions v) _ _ vm (search keeps_rules depth 5)
        (λ z. search keeps_rules depth 5)

module _ {W : Type 0} (os : Os W) (o : Others os) (args : List Value) (vm : Vm W)
    (p : Parts os vm) where
  pub l_sysctl-Keeps : Keeps os (l_sysctl os (enter args vm))
  unfolding l_sysctl
  l_sysctl-Keeps =
      search (table_rules, o.malloc, o.sysctl, Keeps-oid_element os, Keeps-push_value os) depth 40

  pub l_sysctlbyname-Keeps : Keeps os (l_sysctlbyname os (enter args vm))
  unfolding l_sysctlbyname
  l_sysctlbyname-Keeps =
      search
        (keeps_rules, o.malloc, o.sysctl, o.sysctlbyname, o.sysctlnametomib, Keeps-push_value os)
        depth 40

  pub l_execve-Keeps : Keeps os (l_execve os (enter args vm))
  unfolding l_execve
  l_execve-Keeps = search (table_rules, o.malloc, o.execve, Keeps-exec os) depth 40

  pub l_fexecve-Keeps : Keeps os (l_fexecve os (enter args vm))
  unfolding l_fexecve
  l_fexecve-Keeps = search keeps_rules depth 40
