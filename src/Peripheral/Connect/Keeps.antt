-- ===== src/Peripheral/Connect/Keeps.antt =====
-- The methods of src/peripheral.rs that begin a connection, its end or a pairing: they keep the
-- connection and the service cache.
use esp_nimble_host.Prelude.{
  ℕ, ◌+◌, ◌≡◌, refl, sym, ◌∙◌, inl, inr, Option, none, some, ok, err, Bool-cases,
}
use esp_nimble_host.Error.{NimbleResult, ConnectError, ConnectResult}
use esp_nimble_host.Platform.{Platform}
use esp_nimble_host.ReturnCode.{return_code_to_result}
use esp_nimble_host.Peripheral.{PeripheralInner, is_connected, clone_arc, drop_arc}
use esp_nimble_host.Peripheral.Events.Link.{HasOwnCache}
use esp_nimble_host.Peripheral.Connect.{
  begun_inner, Begun, finished, waiting, subscribed, with_subscriber, connect_armed, connect_begin,
  disconnect_subscribed, disconnect_begin, pair_initiated, pair_begin,
}

module _ (P : Platform) where
  -- The connection and the cache are those of before.
  abbrev pub Keeps : PeripheralInner P → PeripheralInner P → Type 0
  Keeps inner inner' = (inner'.conn_handle ≡ inner.conn_handle) × (inner'.services ≡ inner.services)

  pub Keeps-HasOwnCache :
      (inner inner' : PeripheralInner P)
      → Keeps inner inner'
      → HasOwnCache P inner
      → HasOwnCache P inner'
  unfolding HasOwnCache
  Keeps-HasOwnCache inner inner' (h, s) (inl up) = inl (λ e. up (sym h ∙ e))
  Keeps-HasOwnCache inner inner' (h, s) (inr empty) = inr (s ∙ empty)

  subscribed-Keeps :
      {A : Type 0} (refused : A) (inner : PeripheralInner P)
      (r : Option (P.Subscriber × P.Channel (Unit {0})))
      → Keeps inner (begun_inner P (subscribed P refused inner r))
  unfolding subscribed begun_inner
  subscribed-Keeps refused inner none = (refl, refl)
  subscribed-Keeps refused inner (some r) = (refl, refl)

  pub with_subscriber-Keeps :
      {A : Type 0} (refused : A) (inner : PeripheralInner P)
      → Keeps inner (begun_inner P (with_subscriber P refused inner))
  unfolding with_subscriber
  with_subscriber-Keeps refused inner = subscribed-Keeps refused inner _

  connect_armed-Keeps :
      (inner : PeripheralInner P) (r : NimbleResult (Unit {0}))
      → Keeps inner (begun_inner P (connect_armed P inner r))
  unfolding connect_armed begun_inner drop_arc
  connect_armed-Keeps inner (ok _) = with_subscriber-Keeps _ inner
  connect_armed-Keeps inner (err e) = (refl, refl)

  pub connect_begin-Keeps :
      (rc : ℕ) (inner : PeripheralInner P) → Keeps inner (begun_inner P (connect_begin P rc inner))
  unfolding connect_begin clone_arc
  connect_begin-Keeps rc inner =
      connect_armed-Keeps
        (record inner {
          connect_result = P.reset (ConnectResult (Unit {0})) inner.connect_result;
          strong = inner.strong + 1;
        })
        (return_code_to_result P.bindings rc tt)

  disconnect_subscribed-Keeps :
      (inner : PeripheralInner P) (r : NimbleResult (Unit {0}))
      (b : Begun P (ConnectResult (Unit {0})))
      → Keeps inner (begun_inner P b)
      → Keeps inner (begun_inner P (disconnect_subscribed P r b))
  unfolding disconnect_subscribed begun_inner
  disconnect_subscribed-Keeps inner r (finished a inner') k = k
  disconnect_subscribed-Keeps inner (ok _) (waiting sub inner') k = k
  disconnect_subscribed-Keeps inner (err e) (waiting sub inner') k = k

  abbrev aborted : ConnectResult (Unit {0})
  aborted = err ConnectError.disconnected_while_operation

  pub disconnect_begin-Keeps :
      (rc : ℕ) (inner : PeripheralInner P)
      → Keeps inner (begun_inner P (disconnect_begin P rc inner))
  unfolding disconnect_begin begun_inner
  disconnect_begin-Keeps rc inner = elim (Bool-cases (is_connected P inner)) [
    | inl e ↦ rw e (
        disconnect_subscribed-Keeps inner (return_code_to_result P.bindings rc tt)
          (with_subscriber P aborted inner) (with_subscriber-Keeps aborted inner))
    | inr e ↦ rw e (refl, refl)
  ]

  pair_initiated-Keeps :
      (inner : PeripheralInner P) (r : NimbleResult (Unit {0}))
      → Keeps inner (begun_inner P (pair_initiated P inner r))
  unfolding pair_initiated begun_inner
  pair_initiated-Keeps inner (ok _) = with_subscriber-Keeps _ inner
  pair_initiated-Keeps inner (err e) = (refl, refl)

  pub pair_begin-Keeps :
      (passkey rc : ℕ) (inner : PeripheralInner P)
      → Keeps inner (begun_inner P (pair_begin P passkey rc inner))
  unfolding pair_begin begun_inner
  pair_begin-Keeps passkey rc inner = elim (Bool-cases (is_connected P inner)) [
    | inl e ↦ rw e (pair_initiated-Keeps _ (return_code_to_result P.bindings rc tt))
    | inr e ↦ rw e (refl, refl)
  ]
