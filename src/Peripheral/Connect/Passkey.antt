-- ===== src/Peripheral/Connect/Passkey.antt =====
-- The passkey that a PASSKEY_ACTION event injects while `pair_with_passkey` of src/peripheral.rs
-- waits.
use esp_nimble_host.Prelude.{
  ℕ, ◌≡◌, refl, ap, ◌∙◌, ◌≢◌, ◌||◌, ◌==◌, if◌then◌else◌, some, List, [], ◌∷◌, All,
}
use esp_nimble_host.Error.{PairResult}
use esp_nimble_host.Platform.{Platform, SignalLaws, ChannelLaws, SelectLaws}
use esp_nimble_host.Peripheral.{PeripheralInner, conn_handle_none}
use esp_nimble_host.Peripheral.Events.{
  InjectedIo, GapEvent, passkey_action, handle_passkey_action, dispatch, deliver_events,
}
use esp_nimble_host.Peripheral.Connect.{begun_inner, pair_begin}
use esp_nimble_host.Peripheral.Connect.Frame.{IsQuiet, streamed, deliver_events_quiet}
use esp_nimble_host.Peripheral.Connect.Pairing.{pair_begin_waiting}

module _ (P : Platform) where
  open P use {bindings}

  -- The one call that answers NimBLE, or none for the other actions.
  pub injected : ℕ → ℕ → ℕ → List InjectedIo
  injected passkey conn_handle action =
      if action == bindings.ble_sm_ioact_input || action == bindings.ble_sm_ioact_disp
      then record { conn_handle = conn_handle; action = action; passkey = passkey } ∷ []
      else []

module _ (P : Platform) (S : SignalLaws P) (C : ChannelLaws P) (L : SelectLaws P) where
  open P use {Channel, Subscriber, subscriber, reset}

  -- After `pair_with_passkey` on a connection, when NimBLE took the request and a subscriber was
  -- free, a PASSKEY_ACTION that asks to enter or to show a passkey is answered once, with the
  -- passkey of that call, and any other action not at all. Events that neither connect,
  -- disconnect nor change the encryption may come before.
  pub pair_with_passkey_injected :
      (passkey conn_handle action : ℕ) (es : List (GapEvent P)) (inner : PeripheralInner P)
      (sub : Subscriber) (c : Channel (Unit {0}))
      → inner.conn_handle ≢ conn_handle_none
      → inner.strong ≢ 0
      → subscriber (Unit {0}) inner.disconnect_pub ≡ some (sub, c)
      → All (IsQuiet P) es
      → (inner' : PeripheralInner P) × (deliver_events P es
            (begun_inner P (pair_begin P passkey 0 inner))
          ≡ some inner')
        × (((dispatch P (passkey_action conn_handle action) inner').1).1
            ≡ injected P passkey conn_handle action)
  unfolding begun_inner dispatch handle_passkey_action injected
  pair_with_passkey_injected passkey conn_handle action es inner sub c v a s q =
      let armed = (record inner {
        static_passkey = passkey;
        pair_result = reset (PairResult (Unit {0})) inner.pair_result;
        disconnect_pub = c;
      }) in
      let (c', d, eq) = deliver_events_quiet P es armed q a in
      (
        streamed P armed c' d,
        ap (λ b. deliver_events P es (begun_inner P b))
              (pair_begin_waiting P S C L passkey inner sub c v s)
            ∙ eq,
        refl,
      )
