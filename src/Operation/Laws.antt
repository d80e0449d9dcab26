-- ===== src/Operation/Laws.antt =====
-- The life of one operation (src/peripheral_operation.rs): its result, its box and its context.
use mathlib.Core.List.{append-nil}
use esp_nimble_host.Prelude.{
  ap, sym, Option, Poll, inl, err, ℕ, ◌≡◌, ◌∙◌, ◌++◌, All, [], refl, true, false, some, pending,
  ready, List, ◌∷◌, arith, ℤ, pos, ◌≢◌,
}
use esp_nimble_host.ReturnCode.{error_of_code, return_code_to_result}
use esp_nimble_host.ReturnCode.Laws.{return_code_to_result_done, return_code_to_result_failed}
use esp_nimble_host.Error.{NimbleError, GattError, GattResult}
use esp_nimble_host.Platform.{Platform, SignalLaws}
use esp_nimble_host.Operation.{
  run_started, start_operation, Operation, Outcome, fault, returned, peripheral_operation,
  send_finished, drop_box, join, take_context, deliver, on_own_operation,
}

module _ (P : Platform) {C : Type 0} where
  -- What a terminal callback leaves behind: the context `c`, the result sent, the box dropped.
  unfoldable pub finished_with : ℕ → C → GattResult (Unit {0}) → Operation P C
  unfolding peripheral_operation send_finished drop_box
  finished_with conn_handle c result =
      drop_box P (send_finished P (peripheral_operation P conn_handle c) result)

  -- The second result of an operation changes nothing.
  pub send_finished-send_finished :
      (op : Operation P C) (r r' : GattResult (Unit {0}))
      → send_finished P (send_finished P op r) r' ≡ send_finished P op r
  unfolding send_finished
  send_finished-send_finished op r r' = ground arith

  pub finished_with-boxed :
      (conn_handle : ℕ) (c : C) (r : GattResult (Unit {0}))
      → (finished_with conn_handle c r).boxed ≡ false
  unfolding finished_with
  finished_with-boxed conn_handle c r = refl

  pub take_context-finished_with :
      (conn_handle : ℕ) (c : C) (r : GattResult (Unit {0}))
      → take_context P (join P (finished_with conn_handle c r)).1 ≡ some c
  unfolding finished_with take_context join
  take_context-finished_with conn_handle c r = refl

  pub join-finished_with :
      (laws : SignalLaws P) (conn_handle : ℕ) (c : C) (r : GattResult (Unit {0}))
      → (join P (finished_with conn_handle c r)).0 ≡ ready r
  unfolding finished_with join
  join-finished_with laws conn_handle c r = laws.wait-signal _ r _

  pub join-peripheral_operation :
      (laws : SignalLaws P) (conn_handle : ℕ) (c : C)
      → (join P (peripheral_operation P conn_handle c)).0 ≡ pending
  unfolding peripheral_operation join
  join-peripheral_operation laws conn_handle c = laws.wait-new _

  -- The calls of a run, one after the other.
  pub deliver_step :
      {E : Type 0} (callback : E → Operation P C → Outcome (Operation P C)) (e : E) (es : List E)
      (op op' : Operation P C) (code : ℤ)
      → callback e op ≡ returned code op'
      → deliver P callback (e ∷ es) op ≡ deliver P callback es op'
  unfolding deliver
  deliver_step callback e es op op' code h = rw (h, deliver)

  -- Calls that leave the operation alone can be left out of a run.
  pub deliver_ignored :
      {E : Type 0} (callback : E → Operation P C → Outcome (Operation P C)) (Ignored : E → Type 0)
      (op : Operation P C)
      → ((e : E) → Ignored e → (code : ℤ) × (callback e op ≡ returned code op))
      → (xs ys : List E) → All Ignored xs
      → deliver P callback (xs ++ ys) op ≡ deliver P callback ys op
  deliver_ignored callback Ignored op skip [] ys h = refl
  deliver_ignored callback Ignored op skip (x ∷ xs) ys h =
      let (code, e) = skip x h.0 in
      deliver_step callback x (xs ++ ys) op op code e
      ∙ deliver_ignored callback Ignored op skip xs ys h.1

  pub deliver-All_ignored :
      {E : Type 0} (callback : E → Operation P C → Outcome (Operation P C)) (Ignored : E → Type 0)
      (op : Operation P C)
      → ((e : E) → Ignored e → (code : ℤ) × (callback e op ≡ returned code op))
      → (xs : List E) → All Ignored xs
      → deliver P callback xs op ≡ some op
  unfolding deliver
  deliver-All_ignored callback Ignored op skip xs h =
      ap (λ l. deliver P callback l op) (sym (append-nil xs))
      ∙ deliver_ignored callback Ignored op skip xs [] h

  pub on_own_operation_foreign :
      (conn_handle : ℕ) (op : Operation P C) (handle : Outcome (Operation P C))
      → op.boxed ≡ true
      → conn_handle ≢ op.conn_handle
      → on_own_operation P conn_handle op handle ≡ returned (pos 0) op
  unfolding on_own_operation
  on_own_operation_foreign conn_handle op handle live other = ground arith

  pub on_own_operation_own :
      (conn_handle : ℕ) (op : Operation P C) (handle : Outcome (Operation P C))
      → op.boxed ≡ true
      → conn_handle ≡ op.conn_handle
      → on_own_operation P conn_handle op handle ≡ handle
  unfolding on_own_operation
  on_own_operation_own conn_handle op handle live own = ground arith

  -- A callback that NimBLE makes after the box was dropped is a fault.
  pub on_own_operation_dropped :
      (conn_handle : ℕ) (op : Operation P C) (handle : Outcome (Operation P C))
      → op.boxed ≡ false
      → on_own_operation P conn_handle op handle ≡ fault
  unfolding on_own_operation
  on_own_operation_dropped conn_handle op handle dropped = ground arith

  module _ {A E : Type 0} (resume : Operation P C → Poll (GattResult A))
      (callback : E → Operation P C → Outcome (Operation P C)) (wrap : NimbleError → GattError)
      (rc : ℕ) (op : Operation P C) where
    abbrev started : List E → Option (Poll (GattResult A))
    started calls =
        run_started P resume callback calls
          (start_operation P wrap (return_code_to_result P.bindings rc tt) op)

    -- A procedure that NimBLE accepts is resumed after its calls.
    pub run_started_accepted :
        (calls : List E) (op' : Operation P C)
        → rc ≡ 0
        → deliver P callback calls op ≡ some op'
        → started calls ≡ some (resume op')
    unfolding run_started start_operation
    run_started_accepted calls op' h d =
        rw (return_code_to_result_done P.bindings rc tt (inl h), start_operation, run_started, d)
          refl

    -- One that it refuses fails at once, and drops the box.
    pub run_started_refused :
        (calls : List E)
        → rc ≢ 0
        → rc ≢ P.bindings.ble_hs_edone
        → started calls ≡ some (ready (err (wrap (error_of_code P.bindings rc))))
    unfolding run_started start_operation
    run_started_refused calls h k =
        rw (return_code_to_result_failed P.bindings rc tt h k, start_operation, run_started) refl
