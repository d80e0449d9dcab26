-- ===== src/Host.antt =====
-- src/nimble_sys/host.rs and src/nimble_sys/att.rs: the wrappers with logic of their own.
pub mod GapEvent
use esp_nimble_host.Prelude.{
  ◌^◌, ◌%◌, length, ok_or, ℕ, List, Option, none, some, ok, err, ◌==◌, if◌then◌else◌,
}
use esp_nimble_host.Error.{NimbleError, NimbleResult}
use esp_nimble_host.Platform.{Platform}
use esp_nimble_host.ReturnCode.{return_code_to_result}

module _ (P : Platform) where
  open P use {Mbuf, os_mbuf_len, mbuf_to_flat, mbuf_from_flat, bindings}

  -- The pointer may be null. The buffer has the length of the whole chain.
  unfoldable pub ble_hs_mbuf_to_flat : Option Mbuf → NimbleResult (List ℕ)
  ble_hs_mbuf_to_flat none = err NimbleError.invalid_argument
  ble_hs_mbuf_to_flat (some om) =
      let (ret, buffer) = mbuf_to_flat om (os_mbuf_len om) in
      return_code_to_result bindings ret buffer

  -- `data.len() as u16` wraps.
  unfoldable pub ble_hs_mbuf_from_flat : List ℕ → NimbleResult Mbuf
  ble_hs_mbuf_from_flat bytes =
      ok_or NimbleError.mbuf_creation_failed (mbuf_from_flat bytes (length bytes % 2 ^ 16))

-- The MTU that the C function returned, as a `NonZeroU16`.
unfoldable pub ble_att_mtu : ℕ → ℕ → NimbleResult ℕ
ble_att_mtu conn_handle mtu =
    if mtu == 0 then err (NimbleError.att_mtu_zero conn_handle) else ok mtu
