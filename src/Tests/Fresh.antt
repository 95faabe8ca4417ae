-- ===== src/Tests/Fresh.antt =====
-- The state of the tests before the modules are loaded.
use bricoler.Base.{false, negsuc}
use bricoler.Lua.{Vm, no_meta}
use bricoler.Tests.System.{World, test_vm}

-- The state before any module is loaded.
abbrev pub fresh_vm : Vm World
fresh_vm = record test_vm {
  registered = λ m. false;
  cells = λ i. record { meta = no_meta; content = negsuc 0 };
}
