-- ===== src/Characteristic/Write/Laws.antt =====
-- What `write_attribute` asks NimBLE for, and what it returns.
use esp_nimble_host.Operation.{peripheral_operation, waiting, start_operation}
use esp_nimble_host.Prelude.{
  ◌∷◌, none, ◌&&◌, not, ◌≢◌, [], ℕ, ◌+◌, ◌-◌, ◌%◌, ◌^◌, ◌≤◌, ◌≡◌, refl, inl, inr, Bool, true, false,
  List, arith, ok, leb, if◌then◌else◌, length, take, Bool-cases, Option-cases,
}
use esp_nimble_host.Platform.{Platform, MbufLaws}
use esp_nimble_host.Host.{ble_hs_mbuf_from_flat, ble_att_mtu}
use esp_nimble_host.Characteristic.Write.{
  write_from, WriteCall, write_no_rsp_flat, write_flat, write_long, WriteStart, returns, starts,
  issue, ble_gattc_write_no_rsp_flat, ble_gattc_write_flat, ble_gattc_write_long, write_long_from,
  write_request, write_within, usable_mtu, write_attribute_start,
}

-- Whether NimBLE writes without a response, with one, or by prepared writes.
pub data Method : Type 0 where
  no_rsp flat long : Method

-- The ATT rule: a value that fits the MTU less 3 bytes takes one request, a longer one is written
-- by prepared writes.
unfoldable pub required : Bool → ℕ → ℕ → Method
required response len mtu = if leb (len + 3) mtu then (if response then flat else no_rsp) else long

module _ (P : Platform) where
  open P use {Mbuf}

  -- The calls made up to the await.
  pub issued : WriteStart P → List (WriteCall Mbuf)
  issued (returns calls result) = calls
  issued (starts calls started) = calls

  -- The bytes that the C function takes from the buffer, or finds in the chain.
  pub payload : MbufLaws P → WriteCall Mbuf → List ℕ
  payload mbufs (write_no_rsp_flat conn_handle attr_handle bytes len) = take len bytes
  payload mbufs (write_flat conn_handle attr_handle bytes len) = take len bytes
  payload mbufs (write_long conn_handle attr_handle offset om) = mbufs.contents om

  -- The connection and the attribute written to.
  pub target : WriteCall Mbuf → ℕ × ℕ
  target (write_no_rsp_flat conn_handle attr_handle bytes len) = (conn_handle, attr_handle)
  target (write_flat conn_handle attr_handle bytes len) = (conn_handle, attr_handle)
  target (write_long conn_handle attr_handle offset om) = (conn_handle, attr_handle)

  pub method : WriteCall Mbuf → Method
  method (write_no_rsp_flat conn_handle attr_handle bytes len) = no_rsp
  method (write_flat conn_handle attr_handle bytes len) = flat
  method (write_long conn_handle attr_handle offset om) = long

  -- A call that writes this attribute by the required method, with these bytes.
  pub record Writes (mbufs : MbufLaws P) (conn_handle attr_handle : ℕ) (m : Method) (bytes : List ℕ)
      (call : WriteCall Mbuf) : Type 0 where
    pub targets : target call ≡ (conn_handle, attr_handle)
    pub uses : method call ≡ m
    pub carries : payload mbufs call ≡ take (length bytes % 2 ^ 16) bytes

module _ (P : Platform) (reply : WriteCall P.Mbuf → ℕ) where
  open P use {bindings, Mbuf}

  usable_mtu_ok :
      (conn_handle mtu : ℕ) → 3 ≤ mtu → usable_mtu P reply conn_handle mtu ≡ ok (mtu - 3)
  unfolding usable_mtu ble_att_mtu
  usable_mtu_ok conn_handle mtu h = ground arith

  leb-sub : (n m : ℕ) → 3 ≤ m → leb (n + 3) m ≡ leb n (m - 3)
  leb-sub n m h = ground arith

  -- The one call of a list, which writes the attribute by the method, with the bytes.
  abbrev pub IssuesOne : MbufLaws P → ℕ → ℕ → Method → List ℕ → List (WriteCall Mbuf) → Type 0
  IssuesOne mbufs conn_handle attr_handle m bytes calls =
      (call : WriteCall Mbuf) × (calls ≡ call ∷ [])
      × Writes P mbufs conn_handle attr_handle m bytes call

  module _ (mbufs : MbufLaws P) (conn_handle attr_handle : ℕ) (bytes : List ℕ)
      (available : P.mbuf_from_flat bytes (length bytes % 2 ^ 16) ≢ none) where
    ble_gattc_write_long-IssuesOne :
        IssuesOne mbufs conn_handle attr_handle long bytes
          (ble_gattc_write_long P reply conn_handle attr_handle 0 bytes).calls
    unfolding ble_gattc_write_long ble_hs_mbuf_from_flat payload target method
    ble_gattc_write_long-IssuesOne =
        elim (Option-cases (P.mbuf_from_flat bytes (length bytes % 2 ^ 16))) [
          | inl e ↦ absurd (available e)
          | inr (m, e) ↦ (
            write_long conn_handle attr_handle 0 m,
            rw (e, write_long_from) refl,
            record { targets = refl; uses = refl; carries = mbufs.from_flat-contents _ _ m e },
          )
        ]

    write_within-IssuesOne :
        (mtu : ℕ) (response : Bool)
        → 3 ≤ mtu
        → IssuesOne mbufs conn_handle attr_handle
            (required response (length bytes) mtu)
            bytes
            (issued P (write_within P reply conn_handle attr_handle bytes response (mtu - 3)))
    unfolding write_within write_request issue issued required ble_gattc_write_flat
        ble_gattc_write_no_rsp_flat payload target method
    write_within-IssuesOne mtu true h =
        rw (leb-sub (length bytes) mtu h) (elim (Bool-cases (leb (length bytes) (mtu - 3))) [
          | inl e ↦ rw e (_, refl, record { targets = refl; uses = refl; carries = refl })
          | inr e ↦ rw e ble_gattc_write_long-IssuesOne
        ])
    write_within-IssuesOne mtu false h =
        rw (leb-sub (length bytes) mtu h) (elim (Bool-cases (leb (length bytes) (mtu - 3))) [
          | inl e ↦ rw e (_, refl, record { targets = refl; uses = refl; carries = refl })
          | inr e ↦ rw e ble_gattc_write_long-IssuesOne
        ])

    -- With an MTU of at least 3 and a free mbuf, a write makes one request, to its attribute, by the
    -- method that the length and the MTU call for, with the bytes up to the length modulo 2 ^ 16.
    pub write_attribute_start-IssuesOne :
        (mtu : ℕ) (response : Bool)
        → 3 ≤ mtu
        → IssuesOne mbufs conn_handle attr_handle
            (required response (length bytes) mtu)
            bytes
            (issued P (write_attribute_start P reply conn_handle attr_handle bytes response mtu))
    unfolding write_attribute_start
    write_attribute_start-IssuesOne mtu response h =
        rw (usable_mtu_ok conn_handle mtu h) (write_within-IssuesOne mtu response h)

  needs_response :
      (response : Bool) (len mtu : ℕ)
      → 3 ≤ mtu
      → required response len mtu ≢ no_rsp
      → (not response && leb len (mtu - 3)) ≡ false
  unfolding required
  needs_response response len mtu h k = ground arith

  -- A write that needs an answer, and that NimBLE accepts, awaits it.
  pub write_attribute_start_accepted :
      (conn_handle attr_handle mtu : ℕ) (bytes : List ℕ) (response : Bool)
      → 3 ≤ mtu
      → required response (length bytes) mtu ≢ no_rsp
      → (write_request P reply conn_handle attr_handle bytes (mtu - 3)).result ≡ ok tt
      → write_attribute_start P reply conn_handle attr_handle bytes response mtu
        ≡ starts
            (write_request P reply conn_handle attr_handle bytes (mtu - 3)).calls
            (waiting (peripheral_operation P conn_handle tt))
  unfolding write_attribute_start start_operation
  write_attribute_start_accepted conn_handle attr_handle mtu bytes response h needs accepted =
      rw
        (
          usable_mtu_ok conn_handle mtu h,
          write_from,
          write_within,
          needs_response response (length bytes) mtu h needs,
          accepted,
        )
        refl
