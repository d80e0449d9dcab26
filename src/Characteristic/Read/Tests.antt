-- ===== src/Characteristic/Read/Tests.antt =====
-- The theorems on `read_attribute` of src/characteristic.rs at concrete inputs.
use esp_nimble_host.Prelude.{◌≡◌, inr, some, [], ◌∷◌, arith, ready}
use esp_nimble_host.Platform.Concrete.{platform, platform-SignalLaws}
use esp_nimble_host.Characteristic.Read.{GattAttr, ReadCall, read_attribute}
use esp_nimble_host.Characteristic.Read.Laws.{read_result, read_attribute-result}

abbrev attr : GattAttr platform
attr = record { om = some (1 ∷ 2 ∷ 3 ∷ []) }

-- A call for connection 9, and one for connection 7.
abbrev foreign : ReadCall platform
foreign = record { conn_handle = 9; error = some 0; attr = some attr }

abbrev own : ReadCall platform
own = record { conn_handle = 7; error = some 0; attr = some attr }

read_attribute-result_example :
    read_attribute platform 7 0 (foreign ∷ own ∷ [])
    ≡ some (ready (read_result platform 0 (some attr)))
read_attribute-result_example =
    read_attribute-result platform platform-SignalLaws 7 0 (some attr) (foreign ∷ [])
      (inr (omega arith), tt)
