-- ===== src/Vm/Gas/Tests.antt =====
-- Tests of the gas meter and the instances of its theorems.
use rustblockchain.Base.{◌≡◌, refl}
use rustblockchain.Base.Result.{err}
use rustblockchain.Vm.Error.{out_of_gas}
use rustblockchain.Vm.Gas.{GasMeter, consume}

abbrev meter : GasMeter
meter = record { limit = 1000; consumed = 200 }

out_of_gas_test : consume 900 meter ≡ (err (out_of_gas 1000 1100), record meter { consumed = 1000 })
unfolding consume
out_of_gas_test = refl
