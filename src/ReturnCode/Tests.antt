-- ===== src/ReturnCode/Tests.antt =====
-- The theorems on return codes at the constants of NimBLE 1.9.
use esp_nimble_host.Prelude.{refl, ℕ, ◌+◌, ◌≡◌, ◌≢◌, ◌⊎◌, some, arith, ok, err}
use esp_nimble_host.Error.{NimbleError}
use esp_nimble_host.ReturnCode.{hs_arms, att_arms, hci_arms, error_of_code, return_code_to_result}
use esp_nimble_host.ReturnCode.Laws.{code_of_error, return_code_to_result-decodes}
use esp_nimble_host.ReturnCode.Arms.{IsNimble, error_of_code-code_of_error}
use esp_nimble_host.Platform.Concrete.{nimble}

nimble-IsNimble : IsNimble nimble
unfolding hs_arms att_arms hci_arms
nimble-IsNimble = omega arith

error_of_code-code_of_error_example :
    error_of_code nimble (256 + 10) ≡ NimbleError.att_attr_not_found
error_of_code-code_of_error_example =
    error_of_code-code_of_error nimble nimble-IsNimble NimbleError.att_attr_not_found (256 + 10)
      (unfold code_of_error in refl) (λ e. cc)

abbrev unit : Unit {0}
unit = tt

-- 300 is an ATT code without a name.
abbrev unnamed : ℕ
unnamed = 300

return_code_to_result-decodes_example :
    ((return_code_to_result nimble unnamed unit ≡ ok unit) × ((unnamed ≡ 0) ⊎ (unnamed ≡ 14)))
    ⊎ ((e : NimbleError) × (return_code_to_result nimble unnamed unit ≡ err e)
        × (code_of_error nimble e ≡ some unnamed)
        × (unnamed ≢ 0)
        × (unnamed ≢ 14))
return_code_to_result-decodes_example = return_code_to_result-decodes nimble unnamed unit
