-- ===== src/Peripheral/Events/Tests.antt =====
-- A notification of src/peripheral.rs at a concrete input.
use esp_nimble_host.Prelude.{ℕ, ◌≡◌, none, some, List, [], ◌∷◌, ready, pos, arith}
use esp_nimble_host.Platform.{WaitResult}
use esp_nimble_host.Platform.Concrete.{platform, platform-ChannelLaws, platform-MbufLaws}
use esp_nimble_host.Peripheral.{PeripheralInner}
use esp_nimble_host.Peripheral.Events.{notify_rx, dispatch}
use esp_nimble_host.Peripheral.Events.Notify.{notify_rx-published}

abbrev subscribed : PeripheralInner platform
subscribed = record {
  addr = record { type_ = 1; addr = 6 ∷ 5 ∷ 4 ∷ 3 ∷ 2 ∷ 1 ∷ [] };
  conn_handle = 7;
  connect_result = none;
  disconnect_pub = [];
  services = [];
  subscription_pub = [];
  event_pub = [];
  static_passkey = 0;
  pair_result = none;
  strong = 2;
}

notify_rx-published_example :
    (c : List (ℕ × List ℕ)) × (platform.publisher (ℕ × List ℕ) [] ≡ some c)
    × (dispatch platform (notify_rx (some (72 ∷ 105 ∷ [])) 14) subscribed ≡ (
      pos 0,
      (
        record subscribed {
          subscription_pub = platform.drop_publisher (ℕ × List ℕ) (
              platform.publish_immediate
                (ℕ × List ℕ)
                (14, platform-MbufLaws.contents (72 ∷ 105 ∷ []))
                c);
        },
        [],
      ),
    ))
    × (r : WaitResult (ℕ × List ℕ)) × ((platform.poll_message
          (ℕ × List ℕ)
          tt
          ((dispatch platform (notify_rx (some (72 ∷ 105 ∷ [])) 14) subscribed).1
            ).0.subscription_pub).0
        ≡ ready r)
notify_rx-published_example =
    notify_rx-published platform platform-MbufLaws platform-ChannelLaws (72 ∷ 105 ∷ []) 14
      subscribed tt (λ e. ground arith)
