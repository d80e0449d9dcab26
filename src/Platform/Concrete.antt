-- ===== src/Platform/Concrete.antt =====
-- A platform to run the model on: the NimBLE 1.9 constants, a signal as an optional value, a
-- channel as the list of messages that its one subscriber has not read, an mbuf chain as its bytes
-- and a UUID as a number of 128 bits.
use native.Mathlib.Omega.{arith, pow_step}
use native.Mathlib.Bridge.{le_prop}
use mathlib.Core.HLevel.{Σ_prop_path}
use esp_nimble_host.Prelude.{
  eq→==, ◌∙◌, ◌^◌, length-append, ◌<◌, ◌≡◌, sym, ap, ◌≢◌, ap, sym, ◌≢◌, take, ℕ, zero, suc, ◌+◌,
  ◌*◌, ◌/◌, ◌%◌, refl, inl, inr, Option, none, some, List, [], ◌∷◌, ◌++◌, length, ◌⊎◌, Poll,
  pending, ready, ◌==◌, if◌then◌else◌,
}
use esp_nimble_host.Bindings.{Bindings}
use esp_nimble_host.Platform.{
  UuidLaws, Platform, WaitResult, message, SignalLaws, SelectLaws, ChannelLaws, MbufLaws,
}

abbrev pub nimble : Bindings
nimble = record {
  ble_hs_ealready = 2;
  ble_hs_einval = 3;
  ble_hs_emsgsize = 4;
  ble_hs_enoent = 5;
  ble_hs_enomem = 6;
  ble_hs_enotconn = 7;
  ble_hs_enotsup = 8;
  ble_hs_eapp = 9;
  ble_hs_ebaddata = 10;
  ble_hs_eos = 11;
  ble_hs_econtroller = 12;
  ble_hs_etimeout = 13;
  ble_hs_edone = 14;
  ble_hs_ebusy = 15;
  ble_hs_ereject = 16;
  ble_hs_eunknown = 17;
  ble_hs_erole = 18;
  ble_hs_etimeout_hci = 19;
  ble_hs_enomem_evt = 20;
  ble_hs_enoaddr = 21;
  ble_hs_enotsynced = 22;
  ble_hs_eauthen = 23;
  ble_hs_eauthor = 24;
  ble_hs_eencrypt = 25;
  ble_hs_eencrypt_key_sz = 26;
  ble_hs_estore_cap = 27;
  ble_hs_estore_fail = 28;
  ble_hs_eagain = 1;
  ble_hs_err_att_base = 256;
  ble_hs_err_hci_base = 512;
  att_invalid_handle = 1;
  att_read_not_permitted = 2;
  att_write_not_permitted = 3;
  att_invalid_pdu = 4;
  att_insufficient_authen = 5;
  att_req_not_supported = 6;
  att_invalid_offset = 7;
  att_insufficient_author = 8;
  att_prepare_queue_full = 9;
  att_attr_not_found = 10;
  att_attr_not_long = 11;
  att_insufficient_key_sz = 12;
  att_invalid_attr_value_len = 13;
  att_unlikely = 14;
  att_insufficient_enc = 15;
  att_unsupported_group = 16;
  att_insufficient_res = 17;
  err_unknown_hci_cmd = 1;
  err_unk_conn_id = 2;
  err_conn_term_local = 22;
  err_rem_user_conn_term = 19;
  err_conn_establishment = 62;
  ble_uuid_type_16 = 16;
  ble_uuid_type_32 = 32;
  ble_uuid_type_128 = 128;
  ble_sm_ioact_input = 2;
  ble_sm_ioact_disp = 3;
  ble_gap_repeat_pairing_ignore = 2;
  ble_transport_evt_size = 70;
}

abbrev poll_option : (T : Type 0) → Option T → Poll T × Option T
poll_option T none = (pending, none)
poll_option T (some v) = (ready v, none)

-- The next message of the one subscriber.
abbrev poll_log : (T : Type 0) → List T → Poll (WaitResult T) × List T
poll_log T [] = (pending, [])
poll_log T (v ∷ rest) = (ready (message v), rest)

abbrev first_ready : (A B : Type 0) → Poll A → Poll B → Poll (A ⊎ B)
first_ready A B (ready a) q = ready (inl a)
first_ready A B pending (ready b) = ready (inr b)
first_ready A B pending pending = pending

-- `k` bytes of `n`, the most significant first.
abbrev be_bytes : ℕ → ℕ → List ℕ
be_bytes zero n = []
be_bytes (suc k) n = be_bytes k (n / 256) ++ n % 256 ∷ []

abbrev of_be_bytes : ℕ → List ℕ → ℕ
of_be_bytes acc [] = acc
of_be_bytes acc (x ∷ xs) = of_be_bytes (acc * 256 + x) xs

-- A number of 128 bits.
abbrev U128 : Type 0
U128 = (n : ℕ) × (n < 2 ^ 128)

pub mod-lt : (n : ℕ) → n % 2 ^ 128 < 2 ^ 128
mod-lt n = omega arith

abbrev to_u128 : ℕ → U128
to_u128 n = (n % 2 ^ 128, mod-lt n)

abbrev pub platform : Platform
platform = record {
  bindings = nimble;
  Signal = Option;
  new_signal = λ T. none;
  signal = λ T v s. some v;
  reset = λ T s. none;
  poll_wait = poll_option;
  Channel = List;
  Subscriber = Unit {0};
  new_channel = λ T. [];
  publisher = λ T c. some c;
  publish_immediate = λ T v c. c ++ v ∷ [];
  drop_publisher = λ T c. c;
  subscriber = λ T c. some (tt, []);
  poll_message = λ T s c. poll_log T c;
  select = first_ready;
  Mbuf = List ℕ;
  os_mbuf_len = λ m. length m;
  mbuf_to_flat = λ m n. (0, m);
  mbuf_from_flat = λ bs n. some (take n bs);
  Uuid = U128;
  from_u128 = to_u128;
  as_u128 = λ u. u.0;
  from_bytes = λ bs. to_u128 (of_be_bytes 0 bs);
  into_bytes = λ u. be_bytes 16 u.0;
  from_slice = λ bs. if length bs == 16 then some (to_u128 (of_be_bytes 0 bs)) else none;
}

pub platform-SignalLaws : SignalLaws platform
platform-SignalLaws = record {
  wait-new = λ T. refl;
  wait-reset = λ T s. refl;
  wait-signal = λ T v s. refl;
}

pub platform-SelectLaws : SelectLaws platform
platform-SelectLaws = record {
  select-neither = λ A B. refl;
  select-first = λ A B a. refl;
  select-second = λ A B b. refl;
  select-both = λ A B a b. inl refl;
}

append-not_empty : (T : Type 0) (v : T) (c : List T) → c ++ v ∷ [] ≢ []
append-not_empty T v [] = λ e. ground arith
append-not_empty T v (x ∷ xs) = λ e. ground arith

poll_log-ready :
    (T : Type 0) (c : List T) → c ≢ [] → (r : WaitResult T) × ((poll_log T c).0 ≡ ready r)
poll_log-ready T [] h = absurd (h refl)
poll_log-ready T (v ∷ rest) h = (message v, refl)

list_of : (T : Type 0) → Option (List T) → List T
list_of T none = []
list_of T (some c) = c

list_of-some : (T : Type 0) (c c' : List T) → some c ≡ some c' → c' ≡ c
unfolding list_of
list_of-some T c c' e = sym (ap (list_of T) e)

channel_of : (T : Type 0) → Option (Unit {0} × List T) → List T
channel_of T none = []
channel_of T (some r) = r.1

pub platform-ChannelLaws : ChannelLaws platform
unfolding channel_of
platform-ChannelLaws = record {
  unread = λ T s c. c;
  unread-subscriber = λ T s c c' e. sym (ap (channel_of T) e);
  unread-publisher = λ T s c c' e. list_of-some T c c' e;
  unread-drop = λ T s c. refl;
  unread-publish = λ T s v c. append-not_empty T v c;
  poll-empty = λ T s c e. rw e refl;
  poll-unread = λ T s c h. poll_log-ready T c h;
}

pub platform-MbufLaws : MbufLaws platform
platform-MbufLaws = record {
  contents = λ m. m;
  len-contents = λ m. refl;
  to_flat-contents = λ m. refl;
  from_flat-contents = λ bs n m e. list_of-some ℕ (take n bs) m e;
}

to_u128-small : (u : U128) (n : ℕ) → n ≡ u.0 → to_u128 n ≡ u
to_u128-small u n e = Σ_prop_path (λ m. le_prop) (omega (arith, e, u.1))

of_be_bytes-append :
    (acc : ℕ) (xs : List ℕ) (y : ℕ) → of_be_bytes acc (xs ++ y ∷ []) ≡ of_be_bytes acc xs * 256 + y
of_be_bytes-append acc [] y = refl
of_be_bytes-append acc (x ∷ xs) y = of_be_bytes-append (acc * 256 + x) xs y

of_be_bytes-be_bytes : (k n : ℕ) → n < 256 ^ k → of_be_bytes 0 (be_bytes k n) ≡ n
of_be_bytes-be_bytes zero n h = omega arith
of_be_bytes-be_bytes (suc k) n h =
    of_be_bytes-append 0 (be_bytes k (n / 256)) (n % 256)
    ∙ ap (λ m. m * 256 + n % 256) (of_be_bytes-be_bytes k (n / 256) (omega (arith, pow_step 256 k)))
    ∙ omega arith

length-be_bytes : (k n : ℕ) → length (be_bytes k n) ≡ k
length-be_bytes zero n = refl
length-be_bytes (suc k) n =
    length-append (be_bytes k (n / 256)) (n % 256 ∷ [])
    ∙ rw (length-be_bytes k (n / 256)) (omega arith)

pub platform-UuidLaws : UuidLaws platform
platform-UuidLaws = record {
  as-from = λ n h. omega arith;
  from-as = λ u. to_u128-small u u.0 refl;
  as-lt = λ u. u.1;
  from-into = λ u. to_u128-small u _ (of_be_bytes-be_bytes 16 u.0 (omega (arith, u.1)));
  length-into = λ u. length-be_bytes 16 u.0;
  slice-from = λ bs e. rw (eq→== (length bs) 16 e) refl;
}
