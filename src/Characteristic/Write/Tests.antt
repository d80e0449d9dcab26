-- ===== src/Characteristic/Write/Tests.antt =====
-- The theorems on `write_attribute` of src/characteristic.rs at concrete inputs.
use esp_nimble_host.Prelude.{ℕ, ◌≡◌, refl, inr, true, false, some, List, [], ◌∷◌, arith, ready}
use esp_nimble_host.ReturnCode.{return_code_to_result}
use esp_nimble_host.Platform.Concrete.{platform, platform-SignalLaws, platform-MbufLaws}
use esp_nimble_host.Characteristic.Write.{
  issue, ble_gattc_write_flat, write_request, WriteCall, StatusCall, write_attribute_start,
  write_attribute_run,
}
use esp_nimble_host.Characteristic.Write.Laws.{
  IssuesOne, required, issued, write_attribute_start-IssuesOne,
}
use esp_nimble_host.Characteristic.Write.Answers.{write_result, write_attribute-result}

-- NimBLE accepts every request.
abbrev reply : WriteCall (List ℕ) → ℕ
reply call = 0

abbrev bytes : List ℕ
bytes = 1 ∷ 2 ∷ 3 ∷ []

write_attribute_start-IssuesOne_example :
    IssuesOne platform reply platform-MbufLaws 7 42
      (required false 3 5)
      bytes
      (issued platform (write_attribute_start platform reply 7 42 bytes false 5))
write_attribute_start-IssuesOne_example =
    write_attribute_start-IssuesOne platform reply platform-MbufLaws 7 42 bytes (λ e. ground arith)
      5 false (omega arith)

abbrev foreign : StatusCall platform
foreign = record { conn_handle = 9; error = some 0 }

abbrev own : StatusCall platform
own = record { conn_handle = 7; error = some 259 }

write_attribute-result_example :
    write_attribute_run platform
      (foreign ∷ own ∷ [])
      (write_attribute_start platform reply 7 42 bytes true 23)
    ≡ some (ready (write_result platform 259))
unfolding return_code_to_result
write_attribute-result_example =
    write_attribute-result platform platform-SignalLaws reply 7 42 23 259 bytes true (foreign ∷ [])
      (omega arith) (unfold required in λ e. ground arith)
      (unfold write_request ble_gattc_write_flat issue in refl) (inr (omega arith), tt)
