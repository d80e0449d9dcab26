-- ===== src/Peripheral/Connect/Laws.antt =====
-- What `connect` returns, by what NimBLE reports meanwhile, and what the other calls share with it.
use esp_nimble_host.Peripheral.Connect.Result.{connect_result_of-FollowsStatus, FollowsStatus}
use esp_nimble_host.ReturnCode.Laws.{return_code_to_result_done}
use esp_nimble_host.Prelude.{
  ℕ, ◌+◌, ◌-◌, ◌≡◌, refl, sym, ap, ◌∙◌, ◌≢◌, ◌⊎◌, inl, inr, none, some, List, [], ◌∷◌, ◌++◌, arith,
  Poll, pending, ready, ◌==◌, All, Bool-cases, Option-cases, eq→==, ne→==,
}
use esp_nimble_host.Error.{ConnectResult}
use esp_nimble_host.Platform.{WaitResult, Platform, SignalLaws, ChannelLaws, SelectLaws}
use esp_nimble_host.ReturnCode.{return_code_to_result}
use esp_nimble_host.Peripheral.{
  disconnected, drop_arc, clone_arc, PeripheralInner, PeripheralEvent, conn_handle_none,
}
use esp_nimble_host.Peripheral.Events.{
  is_ok, handle_connect, finish_connect, GapEvent, connect_event, disconnect_event, dispatch,
  publish, handle_disconnect, connect_result_of,
}
use esp_nimble_host.Peripheral.Events.Link.{link_of, established, success, handle_connect-link}
use esp_nimble_host.Peripheral.Connect.{
  subscribed, with_subscriber, connect_armed, waiting, connect_begin, connect_poll, run_begun,
  or_disconnected,
}
use esp_nimble_host.Peripheral.Connect.Frame.{
  IsQuiet, streamed, deliver_events_after, deliver_events_quiet,
}

module _ (P : Platform) (S : SignalLaws P) (C : ChannelLaws P) (L : SelectLaws P) where
  open P use {
    bindings, signal, Channel, Subscriber, subscriber, publisher, poll_message, select, reset,
    poll_wait,
  }
  open S use {wait-signal, wait-reset}
  open C use {unread, poll-unread, poll-empty, unread-subscriber, unread-publish, unread-drop}
  open L use {select-neither, select-first, select-second}

  -- Whoever subscribed before something is published has a message to read.
  pub publish-ready :
      {T : Type 0} (s : Subscriber) (v : T) (c : Channel T)
      → publisher T c ≢ none
      → (r : WaitResult T) × ((poll_message T s (publish P v c)).0 ≡ ready r)
  unfolding publish
  publish-ready {T} s v c h = elim (Option-cases (publisher T c)) [
    | inl e ↦ absurd (h e)
    | inr (c', e) ↦
        rw (e, publish)
          (poll-unread T s _ (λ u. unread-publish T s v c' (sym (unread-drop T s _) ∙ u)))
  ]

  -- A call that waits gets a result with the event that it waits for.
  pub run_begun_after :
      {A : Type 0} (poll : Subscriber → PeripheralInner P → Poll A) (es : List (GapEvent P))
      (e : GapEvent P) (sub : Subscriber) (inner : PeripheralInner P)
      → All (IsQuiet P) es
      → inner.strong ≢ 0
      → (c : Channel PeripheralEvent) × (d : Channel (ℕ × List ℕ)) × (run_begun P poll
            (es ++ e ∷ [])
            (waiting sub inner)
          ≡ some (
            poll sub ((dispatch P e (streamed P inner c d)).1).0,
            ((dispatch P e (streamed P inner c d)).1).0,
          ))
  unfolding run_begun
  run_begun_after poll es e sub inner q h =
      let (c, d, eq) = deliver_events_after P es e inner q h in (c, d, rw (eq, run_begun) refl)

  -- Before that event the call waits on, with its own subscriber.
  pub run_begun_quiet :
      {A : Type 0} (poll : Subscriber → PeripheralInner P → Poll A) (es : List (GapEvent P))
      (sub : Subscriber) (inner : PeripheralInner P)
      → All (IsQuiet P) es
      → inner.strong ≢ 0
      → (c : Channel PeripheralEvent) × (d : Channel (ℕ × List ℕ)) × (run_begun P poll es
            (waiting sub inner)
          ≡ some (poll sub (streamed P inner c d), streamed P inner c d))
  unfolding run_begun
  run_begun_quiet poll es sub inner q h =
      let (c, d, eq) = deliver_events_quiet P es inner q h in (c, d, rw (eq, run_begun) refl)

  connect_begin_waiting :
      (rc : ℕ) (inner : PeripheralInner P) (sub : Subscriber) (c : Channel (Unit {0}))
      → (rc ≡ 0) ⊎ (rc ≡ bindings.ble_hs_edone)
      → subscriber (Unit {0}) inner.disconnect_pub ≡ some (sub, c)
      → connect_begin P rc inner
        ≡ waiting sub (record inner {
          connect_result = reset (ConnectResult (Unit {0})) inner.connect_result;
          disconnect_pub = c;
          strong = inner.strong + 1;
        })
  unfolding connect_begin connect_armed with_subscriber subscribed clone_arc
  connect_begin_waiting rc inner sub c h s =
      rw (return_code_to_result_done bindings rc tt h, s) refl

  connect_event-dispatch :
      (status conn_handle : ℕ) (inner : PeripheralInner P)
      → (((((dispatch P (connect_event status conn_handle) inner).1).0).connect_result
          ≡ signal
              (ConnectResult (Unit {0}))
              (connect_result_of (return_code_to_result bindings status tt))
              inner.connect_result))
        × ((((dispatch P (connect_event status conn_handle) inner).1).0).disconnect_pub
            ≡ inner.disconnect_pub)
  unfolding dispatch finish_connect handle_connect drop_arc
  connect_event-dispatch status conn_handle inner =
      elim (Bool-cases (is_ok (connect_result_of (return_code_to_result bindings status tt)))) [
        | inl e ↦ (elim (Bool-cases (inner.conn_handle == conn_handle_none)) [
          | inl e' ↦ rw (e, e') (refl, refl)
          | inr e' ↦ rw (e, e') (refl, refl)
        ])
        | inr e ↦ rw e (refl, refl)
      ]

  connect_poll_signalled :
      (status conn_handle : ℕ) (sub : Subscriber) (inner : PeripheralInner P)
      → unread (Unit {0}) sub inner.disconnect_pub ≡ []
      → connect_poll P sub ((dispatch P (connect_event status conn_handle) inner).1).0
        ≡ ready (connect_result_of (return_code_to_result bindings status tt))
  unfolding connect_poll or_disconnected
  connect_poll_signalled status conn_handle sub inner u =
      let (signalled, kept) = connect_event-dispatch status conn_handle inner in
      rw
        (
          signalled,
          kept,
          wait-signal,
          poll-empty (Unit {0}) sub inner.disconnect_pub u,
          select-first,
        )
        refl

  connect_poll_reset :
      (sub : Subscriber) (inner armed : PeripheralInner P)
      → armed.connect_result ≡ reset (ConnectResult (Unit {0})) inner.connect_result
      → unread (Unit {0}) sub armed.disconnect_pub ≡ []
      → connect_poll P sub armed ≡ pending
  unfolding connect_poll or_disconnected
  connect_poll_reset sub inner armed e u =
      rw (e, wait-reset, poll-empty (Unit {0}) sub armed.disconnect_pub u, select-neither) refl

  -- When NimBLE takes the request and a subscriber is free, `connect` waits until a CONNECT event,
  -- whatever an earlier call left behind, and then returns what the status of that event says:
  -- success, a timeout, or the NimBLE error that its code stands for. The peripheral then holds
  -- the connection if one was established and it held none. Events that neither connect,
  -- disconnect nor change the encryption may come before; NimBLE gives no connection the handle
  -- 0xffff.
  pub connect_result_reported :
      (status conn_handle : ℕ) (es : List (GapEvent P)) (inner : PeripheralInner P)
      (sub : Subscriber) (c : Channel (Unit {0}))
      → subscriber (Unit {0}) inner.disconnect_pub ≡ some (sub, c)
      → All (IsQuiet P) es
      → conn_handle ≢ conn_handle_none
      → ((inner' : PeripheralInner P) × (run_begun P (connect_poll P) es (connect_begin P 0 inner)
            ≡ some (pending, inner')))
        × ((r : ConnectResult (Unit {0})) × (inner' : PeripheralInner P) × (run_begun P
                (connect_poll P)
                (es ++ connect_event status conn_handle ∷ [])
                (connect_begin P 0 inner)
              ≡ some (ready r, inner'))
            × FollowsStatus P status r
            × (link_of P inner' ≡ established P (link_of P inner) conn_handle (success P status)))
  unfolding link_of dispatch finish_connect
  connect_result_reported status conn_handle es inner sub c s q v =
      let armed = (record inner {
        connect_result = reset (ConnectResult (Unit {0})) inner.connect_result;
        disconnect_pub = c;
        strong = inner.strong + 1;
      }) in
      let (c', d, eq) =
        run_begun_after (connect_poll P) es (connect_event status conn_handle) sub armed q
          (omega arith) in
      let (c0, d0, eq0) = run_begun_quiet (connect_poll P) es sub armed q (omega arith) in
      let last = connect_event status conn_handle in
      let b = connect_begin_waiting 0 inner sub c (inl refl) s in
      let u = unread-subscriber (Unit {0}) sub inner.disconnect_pub c s in
      (
        (
          streamed P armed c0 d0,
          ap (run_begun P (connect_poll P) es) b
              ∙ eq0
              ∙ ap (λ r. some (r, streamed P armed c0 d0))
                  (connect_poll_reset sub inner (streamed P armed c0 d0) refl u),
        ),
        (
          connect_result_of (return_code_to_result bindings status tt),
          ((dispatch P last (streamed P armed c' d)).1).0,
          ap (run_begun P (connect_poll P) (es ++ last ∷ [])) b
              ∙ eq
              ∙ ap (λ r. some (r, ((dispatch P last (streamed P armed c' d)).1).0))
                  (connect_poll_signalled status conn_handle sub (streamed P armed c' d) u),
          connect_result_of-FollowsStatus P status,
          handle_connect-link P status conn_handle (streamed P armed c' d) v,
        ),
      )

  pub disconnect_event-dispatch :
      (reason : ℕ) (inner : PeripheralInner P)
      → inner.conn_handle ≢ conn_handle_none
      → ((dispatch P (disconnect_event inner.conn_handle reason) inner).1).0 ≡ record inner {
        conn_handle = conn_handle_none;
        services = [];
        disconnect_pub = publish P tt inner.disconnect_pub;
        event_pub = publish P (disconnected reason) inner.event_pub;
        strong = inner.strong - 1;
      }
  unfolding dispatch handle_disconnect drop_arc
  disconnect_event-dispatch reason inner v =
      rw
        (ne→== inner.conn_handle conn_handle_none v, eq→== inner.conn_handle inner.conn_handle refl)
        refl
