-- ===== src/Peripheral/Connect/Frame.antt =====
-- The events that do not concern the calls of Peripheral/Connect.antt.
use esp_nimble_host.Peripheral.Events.Link.{handle_notify_rx_frame}
use esp_nimble_host.Prelude.{ℕ, ◌≡◌, refl, ◌∙◌, ◌≢◌, some, List, [], ◌∷◌, ◌++◌, All}
use esp_nimble_host.Platform.{Platform}
use esp_nimble_host.Peripheral.{PeripheralInner, PeripheralEvent}
use esp_nimble_host.Peripheral.Events.{
  handle_conn_update, handle_mtu, GapEvent, passkey_action, enc_change, repeat_pairing,
  connect_event, disconnect_event, notify_rx, mtu_event, conn_update, other_event, dispatch,
  deliver_events,
}
use esp_nimble_host.Peripheral.Connect.References.{gap_event_handler_live}

module _ (P : Platform) where
  open P use {Channel}

  -- Neither the connection nor its encryption changes.
  unfoldable pub IsQuiet : GapEvent P → Type 0
  IsQuiet (connect_event status conn_handle) = ⊥
  IsQuiet (disconnect_event conn_handle reason) = ⊥
  IsQuiet (enc_change status) = ⊥
  IsQuiet (passkey_action conn_handle action) = Unit {0}
  IsQuiet repeat_pairing = Unit {0}
  IsQuiet (notify_rx om attr_handle) = Unit {0}
  IsQuiet (mtu_event value) = Unit {0}
  IsQuiet (conn_update status) = Unit {0}
  IsQuiet other_event = Unit {0}

  -- A state up to what the streams of notifications and events hold.
  abbrev pub streamed :
      PeripheralInner P → Channel PeripheralEvent → Channel (ℕ × List ℕ) → PeripheralInner P
  streamed inner c d = record inner { event_pub = c; subscription_pub = d }

  dispatch-IsQuiet :
      (e : GapEvent P) (inner : PeripheralInner P)
      → IsQuiet e
      → (c : Channel PeripheralEvent) × (d : Channel (ℕ × List ℕ)) × (((dispatch P e inner).1).0
          ≡ streamed inner c d)
  unfolding IsQuiet dispatch handle_mtu handle_conn_update
  dispatch-IsQuiet (passkey_action conn_handle action) inner q = (_, _, refl)
  dispatch-IsQuiet repeat_pairing inner q = (_, _, refl)
  dispatch-IsQuiet (notify_rx om attr_handle) inner q =
      (_, _, (handle_notify_rx_frame P om attr_handle inner).1)
  dispatch-IsQuiet (mtu_event value) inner q = (_, _, refl)
  dispatch-IsQuiet (conn_update status) inner q = (_, _, refl)
  dispatch-IsQuiet other_event inner q = (_, _, refl)
  dispatch-IsQuiet (enc_change status) inner q = elim q [ ]
  dispatch-IsQuiet (connect_event status conn_handle) inner q = elim q [ ]
  dispatch-IsQuiet (disconnect_event conn_handle reason) inner q = elim q [ ]

  deliver_events-∷ :
      (e : GapEvent P) (es : List (GapEvent P)) (inner : PeripheralInner P)
      → inner.strong ≢ 0
      → deliver_events P (e ∷ es) inner ≡ deliver_events P es ((dispatch P e inner).1).0
  unfolding deliver_events
  deliver_events-∷ e es inner h = rw (gap_event_handler_live P e inner h, deliver_events) refl

  -- The handlers run to the end, and only the last of the events matters to the call.
  pub deliver_events_after :
      (es : List (GapEvent P)) (e : GapEvent P) (inner : PeripheralInner P)
      → All IsQuiet es
      → inner.strong ≢ 0
      → (c : Channel PeripheralEvent) × (d : Channel (ℕ × List ℕ)) × (deliver_events P
            (es ++ e ∷ [])
            inner
          ≡ some ((dispatch P e (streamed inner c d)).1).0)
  unfolding deliver_events
  deliver_events_after [] e inner q h =
      (inner.event_pub, inner.subscription_pub, deliver_events-∷ e [] inner h)
  deliver_events_after (e' ∷ es) e inner (q, qs) h =
      let (c, d, eq) = dispatch-IsQuiet e' inner q in
      let (c', d', rest) = deliver_events_after es e (streamed inner c d) qs h in
      (c', d', deliver_events-∷ e' (es ++ e ∷ []) inner h ∙ rw eq rest)

  -- Quiet events alone.
  pub deliver_events_quiet :
      (es : List (GapEvent P)) (inner : PeripheralInner P)
      → All IsQuiet es
      → inner.strong ≢ 0
      → (c : Channel PeripheralEvent) × (d : Channel (ℕ × List ℕ)) × (deliver_events P es inner
          ≡ some (streamed inner c d))
  unfolding deliver_events
  deliver_events_quiet [] inner q h = (inner.event_pub, inner.subscription_pub, refl)
  deliver_events_quiet (e ∷ es) inner (q, qs) h =
      let (c, d, eq) = dispatch-IsQuiet e inner q in
      let (c', d', rest) = deliver_events_quiet es (streamed inner c d) qs h in
      (c', d', deliver_events-∷ e es inner h ∙ rw eq rest)
