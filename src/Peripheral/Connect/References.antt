-- ===== src/Peripheral/Connect/References.antt =====
-- The strong references to the shared state of src/peripheral.rs: those of the handles and the one
-- that `connect` hands to NimBLE for each callback that it registered.
use esp_nimble_host.Prelude.{ℕ, ◌+◌, ◌-◌, ◌≡◌, refl, sym, ap, ◌∙◌, ◌≢◌, some, List, arith, ℤ, ne→==}
use esp_nimble_host.Platform.{Platform}
use esp_nimble_host.Data.Address.{BleAddr}
use esp_nimble_host.Operation.{Outcome, fault, returned}
use esp_nimble_host.Peripheral.{PeripheralInner, drop_arc, clone_arc, new_peripheral}
use esp_nimble_host.Peripheral.Connect.Counts.{
  connect_begin_accepted_strong, connect_begin_refused_strong, disconnect_begin_strong,
  pair_begin_strong,
}
use esp_nimble_host.Peripheral.Connect.{begun_inner, pair_begin, disconnect_begin, connect_begin}
use esp_nimble_host.Peripheral.Events.{GapEvent, dispatch, gap_event_handler, InjectedIo}
use esp_nimble_host.Peripheral.Events.References.{
  forgotten-le, forgotten, IsReported, dispatch_strong,
}

module _ (P : Platform) where
  open P use {bindings}

  -- The shared state, the `Peripheral`s and `OwnedSubscriber`s that the application holds, and the
  -- callbacks that NimBLE holds.
  pub record World : Type 0 where
    pub inner : PeripheralInner P
    pub handles : ℕ
    pub callbacks : ℕ

  -- What may happen to it.
  pub data Step : World → World → Type 0 where
    -- What leaves the count alone may change all the rest: the discoveries, the polls, and the part
    -- of `subscribe`, `events` and the drop of a subscriber that concerns its channel.
    other_change :
        (w : World) (inner' : PeripheralInner P)
        → inner'.strong ≡ w.inner.strong
        → Step w (record w { inner = inner' })
    -- `clone`, and `subscribe` or `events`.
    clone_handle :
        (w : World)
        → w.handles ≢ 0
        → Step w (record w { inner = clone_arc P w.inner; handles = w.handles + 1 })
    drop_handle :
        (w : World)
        → w.handles ≢ 0
        → Step w (record w { inner = drop_arc P w.inner; handles = w.handles - 1 })
    -- `connect`, when `ble_gap_connect` registers the callback.
    connect_accepted :
        (w : World)
        → w.handles ≢ 0
        → Step w (record w {
          inner = begun_inner P (connect_begin P 0 w.inner);
          callbacks = w.callbacks + 1;
        })
    connect_refused :
        (w : World) (rc : ℕ)
        → w.handles ≢ 0
        → rc ≢ 0
        → rc ≢ bindings.ble_hs_edone
        → Step w (record w { inner = begun_inner P (connect_begin P rc w.inner) })
    disconnect_called :
        (w : World) (rc : ℕ)
        → w.handles ≢ 0
        → Step w (record w { inner = begun_inner P (disconnect_begin P rc w.inner) })
    pair_called :
        (w : World) (passkey rc : ℕ)
        → w.handles ≢ 0
        → Step w (record w { inner = begun_inner P (pair_begin P passkey rc w.inner) })
    -- NimBLE calls a callback that it holds.
    gap_event :
        (w : World) (e : GapEvent P) (code : ℤ) (result : PeripheralInner P × List InjectedIo)
        → w.callbacks ≢ 0
        → IsReported P e
        → gap_event_handler P (some e) (some w.inner) ≡ returned code result
        → Step w (record w { inner = result.0; callbacks = w.callbacks - forgotten P e })

  pub data Reachable (addr : BleAddr) : World → Type 0 where
    created : Reachable addr (record { inner = new_peripheral P addr; handles = 1; callbacks = 0 })
    and_then : (w w' : World) → Reachable addr w → Step w w' → Reachable addr w'

  IsBalanced : World → Type 0
  IsBalanced w = w.inner.strong ≡ w.handles + w.callbacks

  strong_of : Outcome (PeripheralInner P × List InjectedIo) → ℕ
  strong_of fault = 0
  strong_of (returned code result) = result.0.strong

  pub gap_event_handler_live :
      (e : GapEvent P) (inner : PeripheralInner P)
      → inner.strong ≢ 0
      → gap_event_handler P (some e) (some inner)
        ≡ returned (dispatch P e inner).0 (dispatch P e inner).1
  unfolding gap_event_handler
  gap_event_handler_live e inner h = rw (ne→== inner.strong 0 h) refl

  gap_event_handler_strong :
      (e : GapEvent P) (code : ℤ) (inner : PeripheralInner P)
      (result : PeripheralInner P × List InjectedIo)
      → inner.strong ≢ 0
      → IsReported P e
      → gap_event_handler P (some e) (some inner) ≡ returned code result
      → result.0.strong ≡ inner.strong - forgotten P e
  unfolding strong_of
  gap_event_handler_strong e code inner result h r g =
      ap strong_of (sym g ∙ gap_event_handler_live e inner h) ∙ dispatch_strong P e inner r

  Step-IsBalanced : (w w' : World) → Step w w' → IsBalanced w → IsBalanced w'
  unfolding IsBalanced clone_arc drop_arc
  Step-IsBalanced _ _ (other_change w inner' e) b = e ∙ b
  Step-IsBalanced _ _ (clone_handle w h) b = omega arith
  Step-IsBalanced _ _ (drop_handle w h) b = omega arith
  Step-IsBalanced _ _ (connect_accepted w h) b =
      rw (connect_begin_accepted_strong P w.inner) (omega arith)
  Step-IsBalanced _ _ (connect_refused w rc h k l) b =
      rw (connect_begin_refused_strong P rc w.inner k l) (omega arith)
  Step-IsBalanced _ _ (disconnect_called w rc h) b =
      rw (disconnect_begin_strong P rc w.inner) (omega arith)
  Step-IsBalanced _ _ (pair_called w passkey rc h) b =
      rw (pair_begin_strong P passkey rc w.inner) (omega arith)
  Step-IsBalanced _ _ (gap_event w e code result c r h) b =
      rw (gap_event_handler_strong e code w.inner result (omega arith) r h)
        (omega (arith, forgotten-le P e))

  Reachable-IsBalanced : {addr : BleAddr} (w : World) → Reachable addr w → IsBalanced w
  unfolding IsBalanced new_peripheral
  Reachable-IsBalanced _ created = refl
  Reachable-IsBalanced _ (and_then w w' r s) = Step-IsBalanced w w' s (Reachable-IsBalanced w r)

  pub Reachable-strong :
      {addr : BleAddr} (w : World) → Reachable addr w → w.inner.strong ≡ w.handles + w.callbacks
  unfolding IsBalanced
  Reachable-strong w r = Reachable-IsBalanced w r

  -- Whatever happened since the peripheral was created, a callback that NimBLE still holds runs on
  -- memory that was not freed, and the references are those of the handles and the callbacks.
  -- NimBLE forgets a callback at a CONNECT that failed and at a DISCONNECT, and a CONNECT does not
  -- report `BLE_HS_EDONE`.
  pub gap_event_handler_alive :
      {addr : BleAddr} (w : World) (e : GapEvent P)
      → Reachable addr w
      → w.callbacks ≢ 0
      → (gap_event_handler P (some e) (some w.inner)
          ≡ returned (dispatch P e w.inner).0 (dispatch P e w.inner).1)
        × (w.inner.strong ≡ w.handles + w.callbacks)
  unfolding IsBalanced
  gap_event_handler_alive w e r h = (
    gap_event_handler_live e w.inner (omega (arith, Reachable-IsBalanced w r)),
    Reachable-IsBalanced w r,
  )
