-- ===== src/Peripheral/Connect/Counts.antt =====
-- What the methods of src/peripheral.rs that begin something do to the strong count.
use esp_nimble_host.ReturnCode.{return_code_to_result}
use esp_nimble_host.Error.{ConnectError, ConnectResult, NimbleResult}
use esp_nimble_host.ReturnCode.Laws.{return_code_to_result_done, return_code_to_result_failed}
use esp_nimble_host.Prelude.{
  Bool-cases, ℕ, ◌+◌, ◌≡◌, refl, ◌∙◌, ◌≢◌, inl, inr, ok, err, Option, none, some, arith,
}
use esp_nimble_host.Platform.{Platform}
use esp_nimble_host.Peripheral.{is_connected, PeripheralInner, drop_arc, clone_arc}
use esp_nimble_host.Peripheral.Connect.{
  begun_inner, pair_begin, pair_initiated, disconnect_subscribed, disconnect_begin, subscribed,
  connect_armed, Begun, finished, waiting, connect_begin, with_subscriber,
}

module _ (P : Platform) where
  open P use {bindings}

  subscribed_strong :
      {A : Type 0} (refused : A) (inner : PeripheralInner P)
      (r : Option (P.Subscriber × P.Channel (Unit {0})))
      → (begun_inner P (subscribed P refused inner r)).strong ≡ inner.strong
  unfolding subscribed begun_inner
  subscribed_strong refused inner none = refl
  subscribed_strong refused inner (some r) = refl

  pub connect_begin_accepted_strong :
      (inner : PeripheralInner P)
      → (begun_inner P (connect_begin P 0 inner)).strong ≡ inner.strong + 1
  unfolding connect_begin connect_armed clone_arc with_subscriber
  connect_begin_accepted_strong inner =
      rw (return_code_to_result_done bindings 0 tt (inl refl)) (subscribed_strong _ _ _)

  pub connect_begin_refused_strong :
      (rc : ℕ) (inner : PeripheralInner P)
      → rc ≢ 0
      → rc ≢ bindings.ble_hs_edone
      → (begun_inner P (connect_begin P rc inner)).strong ≡ inner.strong
  unfolding connect_begin connect_armed clone_arc drop_arc begun_inner
  connect_begin_refused_strong rc inner h k =
      rw (return_code_to_result_failed bindings rc tt h k) (omega arith)

  disconnect_subscribed_strong :
      (r : NimbleResult (Unit {0})) (b : Begun P (ConnectResult (Unit {0})))
      → (begun_inner P (disconnect_subscribed P r b)).strong ≡ (begun_inner P b).strong
  unfolding disconnect_subscribed begun_inner
  disconnect_subscribed_strong (err e) (finished r inner) = refl
  disconnect_subscribed_strong (ok _) (finished r inner) = refl
  disconnect_subscribed_strong (err e) (waiting sub inner) = refl
  disconnect_subscribed_strong (ok _) (waiting sub inner) = refl

  pub disconnect_begin_strong :
      (rc : ℕ) (inner : PeripheralInner P)
      → (begun_inner P (disconnect_begin P rc inner)).strong ≡ inner.strong
  unfolding disconnect_begin with_subscriber begun_inner
  disconnect_begin_strong rc inner = elim (Bool-cases (is_connected P inner)) [
    | inl e ↦
        (let aborted : ConnectResult (Unit {0}) = err ConnectError.disconnected_while_operation in
          rw e (
            disconnect_subscribed_strong (return_code_to_result bindings rc tt)
              (with_subscriber P aborted inner)
            ∙ subscribed_strong aborted inner (P.subscriber (Unit {0}) inner.disconnect_pub)))
    | inr e ↦ rw e refl
  ]

  pair_initiated_strong :
      (stored : PeripheralInner P) (r : NimbleResult (Unit {0}))
      → (begun_inner P (pair_initiated P stored r)).strong ≡ stored.strong
  unfolding pair_initiated with_subscriber begun_inner
  pair_initiated_strong stored (err e) = refl
  pair_initiated_strong stored (ok _) = subscribed_strong _ stored _

  pub pair_begin_strong :
      (passkey rc : ℕ) (inner : PeripheralInner P)
      → (begun_inner P (pair_begin P passkey rc inner)).strong ≡ inner.strong
  unfolding pair_begin begun_inner
  pair_begin_strong passkey rc inner = elim (Bool-cases (is_connected P inner)) [
    | inl e ↦ rw e (pair_initiated_strong _ _)
    | inr e ↦ rw e refl
  ]
