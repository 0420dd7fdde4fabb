-- ===== src/Ndef.antt =====
-- NDEF records: components/ndef/include/ndef.hpp. Strings are lists of bytes of fewer than 2 ^ 31
-- bytes; an `int` that is used as an identifier is the 32-bit pattern, with -1 as `none`.
pub mod Codes
mod Format
mod RoundTrip
mod Pairing
mod Wifi
mod Handover
mod Tests
use espp.Prelude.{
  ℕ, zero, suc, ◌+◌, ◌-◌, ◌*◌, ◌/◌, ◌%◌, ◌^◌, Bool, true, false, Option, none, some, List, [], ◌∷◌,
  ◌++◌, ltb, leb, ◌==◌, if◌then◌else◌, length, resize, set, slice, ◌>>=◌, codes,
}
use espp.Buffer.{puts, concat}
use espp.Ndef.Codes.{
  Tnf, well_known, mime_media, external_type, tnf_code, Uic, uic_code, BtAppearance,
  appearance_code, CarrierPowerState, active, power_state_code, BtEir, flags, uuids_16_bit_partial,
  uuids_16_bit_complete, uuids_32_bit_partial, uuids_32_bit_complete, uuids_128_bit_partial,
  uuids_128_bit_complete, short_local_name, long_local_name, tx_power_level, class_of_device,
  sp_hash_c192, sp_random_r192, security_manager_tk, security_manager_flags, appearance, mac,
  le_role, sp_hash_c256, sp_hash_r256, le_sc_confirmation, le_sc_random, eir_code, BleRole,
  role_code, WifiAuthenticationType, authentication_code, WifiFieldId, credential, ssid,
  network_key, auth_type, field_code,
}

-- The bit field of the first byte, from the least significant bit on.
pub record Flags : Type 0 where
  pub tnf : ℕ
  pub il : Bool
  pub sr : Bool
  pub cf : Bool
  pub me : Bool
  pub mb : Bool

pub record Ndef : Type 0 where
  pub tnf : Tnf
  pub flags : Flags
  pub id : Option ℕ
  pub type : List ℕ
  pub payload : List ℕ

abbrev pub bit : Bool → ℕ
bit false = 0
bit true = 1

unfoldable pub raw : Flags → ℕ
raw f = f.tnf + 8 * bit f.il + 16 * bit f.sr + 32 * bit f.cf + 64 * bit f.me + 128 * bit f.mb

abbrev pub no_flags : Flags
no_flags = record { tnf = 0; il = false; sr = false; cf = false; me = false; mb = false }

-- The constructor.
unfoldable pub make : Tnf → List ℕ → List ℕ → Ndef
make tnf type payload = record {
  tnf = tnf;
  flags = no_flags;
  id = none;
  type = type;
  payload = payload;
}

unfoldable pub set_id : ℕ → Ndef → Ndef
set_id id r = record r { id = if id == 2 ^ 32 - 1 then none else some id }

-- Byte `k` of a number, the least significant one being byte 0.
unfoldable pub byte : ℕ → ℕ → ℕ
byte k n = n / 2 ^ (8 * k) % 2 ^ 8

abbrev pub has_id : Option ℕ → Bool
has_id none = false
has_id (some id) = true

-- The type's length is counted in one byte. The other counts are an `int`, which is enough for
-- strings below 2 ^ 31 bytes.
unfoldable pub get_size : Ndef → ℕ
get_size r =
    let id_bytes : ℕ = if has_id r.id then 2 else 0 in
    let payload_length_bytes : ℕ = if ltb 255 (length r.payload) then 4 else 1 in
    2 + payload_length_bytes + length r.type % 2 ^ 8 + id_bytes + length r.payload

unfoldable pub set_flags : Bool → Bool → Ndef → Ndef
set_flags message_begin message_end r = record r {
  flags = record {
    tnf = tnf_code r.tnf;
    il = has_id r.id;
    sr = ltb (length r.payload) 256;
    cf = false;
    me = message_end;
    mb = message_begin;
  };
}

unfoldable pub length_bytes : Bool → ℕ → List ℕ
unfolding byte
length_bytes true n = byte 0 n ∷ []
length_bytes false n = byte 3 n ∷ byte 2 n ∷ byte 1 n ∷ byte 0 n ∷ []

-- An identifier takes one byte, after a length of 1.
abbrev pub id_length : Option ℕ → List ℕ
id_length none = []
id_length (some id) = 1 ∷ []

unfoldable pub id_bytes : Option ℕ → List ℕ
unfolding byte
id_bytes none = []
id_bytes (some id) = byte 0 id ∷ []

-- What `serialize` writes, one thing after another.
unfoldable pub parts : Ndef → List (List ℕ)
unfolding raw byte length_bytes id_bytes
parts r =
    (raw r.flags ∷ [])
    ∷ (byte 0 (length r.type) ∷ [])
    ∷ length_bytes r.flags.sr (length r.payload)
    ∷ id_length r.id
    ∷ r.type
    ∷ id_bytes r.id
    ∷ r.payload
    ∷ []

-- The record with its flags and the bytes; `none` where a write goes past the end of the vector.
pub serialize : Bool → Bool → Ndef → Option (Ndef × List ℕ)
serialize message_begin message_end r =
    let size = get_size r in
    let flagged = set_flags message_begin message_end r in
    if leb (length (concat (parts flagged))) size
    then some (flagged, puts 0 (parts flagged) (resize size 0 []))
    else none

unfoldable pub make_text : List ℕ → Ndef
unfolding make
make_text text = make well_known (codes "T") (2 ∷ (codes "en" ++ text))

unfoldable pub make_uri : List ℕ → Uic → Ndef
unfolding make
make_uri uri uic = make well_known (codes "U") (uic_code uic ∷ uri)

unfoldable pub make_android_launcher : List ℕ → Ndef
unfolding make
make_android_launcher uri = make external_type (codes "android.com:pkg") uri

unfoldable pub add_wifi_field : List ℕ → WifiFieldId → List ℕ → List ℕ
unfolding byte
add_wifi_field bytes field payload =
    bytes
    ++ (byte 1 (field_code field)
        ∷ byte 0 (field_code field)
        ∷ byte 1 (length payload)
        ∷ byte 0 (length payload)
        ∷ payload)

-- The members of a configuration that `make_wifi_config` reads.
pub record WifiConfig : Type 0 where
  pub ssid : List ℕ
  pub key : List ℕ
  pub authentication : WifiAuthenticationType

unfoldable pub make_wifi_config : WifiConfig → Ndef
unfolding make
make_wifi_config config =
    let with_ssid : List ℕ = add_wifi_field [] ssid config.ssid in
    let with_key = add_wifi_field with_ssid network_key config.key in
    let payload =
      add_wifi_field with_key auth_type (0 ∷ authentication_code config.authentication ∷ []) in
    make mime_media (codes "application/vnd.wfa.wsc") (add_wifi_field [] credential payload)

unfoldable pub make_collision_resolution_record : ℕ → Ndef
unfolding make byte
make_collision_resolution_record random_number =
    make well_known (codes "cr") (byte 1 random_number ∷ byte 0 random_number ∷ [])

unfoldable pub make_alternative_carrier : CarrierPowerState → ℕ → Ndef
unfolding make byte
make_alternative_carrier power_state carrier_data_ref =
    make well_known (codes "ac")
      (power_state_code power_state ∷ 1 ∷ byte 0 carrier_data_ref ∷ 0 ∷ [])

abbrev pub handover_version : ℕ
handover_version = 0x13

unfoldable pub make_handover_select : ℕ → Option Ndef
unfolding make make_alternative_carrier
make_handover_select carrier_data_ref = do
  (_, carrier) ← serialize true true (make_alternative_carrier active carrier_data_ref)
  some (make well_known (codes "Hs") (handover_version ∷ carrier))

-- `random` is what `esp_random` gives.
unfoldable pub make_handover_request : ℕ → ℕ → Option Ndef
unfolding make make_alternative_carrier make_collision_resolution_record
make_handover_request random carrier_data_ref = do
  (_, collision) ← serialize true false (make_collision_resolution_record (random % 2 ^ 16))
  (_, carrier) ← serialize true true (make_alternative_carrier active carrier_data_ref)
  some (make well_known (codes "Hr") (handover_version ∷ (collision ++ carrier)))

-- The number of bytes that the switch over the type gives, as a `uint8_t`.
unfoldable pub num_eir_bytes : BtEir → ℕ → ℕ
num_eir_bytes flags size = 1
num_eir_bytes class_of_device size = 3
num_eir_bytes appearance size = 2
num_eir_bytes le_role size = 1
num_eir_bytes uuids_16_bit_partial size = size % 2 ^ 8
num_eir_bytes uuids_16_bit_complete size = size % 2 ^ 8
num_eir_bytes uuids_32_bit_partial size = size % 2 ^ 8
num_eir_bytes uuids_32_bit_complete size = size % 2 ^ 8
num_eir_bytes uuids_128_bit_partial size = size % 2 ^ 8
num_eir_bytes uuids_128_bit_complete size = size % 2 ^ 8
num_eir_bytes short_local_name size = size % 2 ^ 8
num_eir_bytes long_local_name size = size % 2 ^ 8
num_eir_bytes security_manager_tk size = size % 2 ^ 8
num_eir_bytes mac size = size % 2 ^ 8
num_eir_bytes sp_hash_c192 size = size % 2 ^ 8
num_eir_bytes le_sc_confirmation size = size % 2 ^ 8
num_eir_bytes sp_random_r192 size = size % 2 ^ 8
num_eir_bytes le_sc_random size = size % 2 ^ 8
num_eir_bytes tx_power_level size = 0
num_eir_bytes security_manager_flags size = 0
num_eir_bytes sp_hash_c256 size = 0
num_eir_bytes sp_hash_r256 size = 0

-- `none` where the payload is read past its end.
unfoldable pub add_bt_eir : List ℕ → BtEir → List ℕ → Option (List ℕ)
unfolding num_eir_bytes
add_bt_eir bytes eir_type payload = do
  let num = num_eir_bytes eir_type (length payload)
  copied ← slice 0 num payload
  some (bytes ++ (((num + 1) % 2 ^ 8) ∷ eir_code eir_type ∷ copied))

-- A value of 16 bytes is added, any other one is left out.
unfoldable pub add_optional : List ℕ → BtEir → List ℕ → Option (List ℕ)
unfolding add_bt_eir
add_optional bytes eir_type payload =
    if length payload == 16 then add_bt_eir bytes eir_type payload else some bytes

unfoldable pub mac_bytes : ℕ → List ℕ
unfolding byte
mac_bytes mac_addr =
    byte 0 mac_addr
    ∷ byte 1 mac_addr
    ∷ byte 2 mac_addr
    ∷ byte 3 mac_addr
    ∷ byte 4 mac_addr
    ∷ byte 5 mac_addr
    ∷ []

-- The source does not use the device class.
unfoldable pub make_oob_pairing : ℕ → ℕ → List ℕ → List ℕ → List ℕ → Option Ndef
unfolding make
make_oob_pairing mac_addr device_class name random_value confirm_value = do
  named ← add_bt_eir (0 ∷ 0 ∷ mac_bytes mac_addr) long_local_name name
  confirmed ← add_optional named sp_hash_c192 confirm_value
  randomized ← add_optional confirmed sp_random_r192 random_value
  some (
      make mime_media (codes "application/vnd.bluetooth.ep.oob")
        (set randomized 0 (byte 0 (length randomized))))

unfoldable pub make_le_oob_pairing :
    ℕ → BleRole → List ℕ → BtAppearance → List ℕ → List ℕ → List ℕ → Option Ndef
unfolding make
make_le_oob_pairing mac_addr role name look random_value confirm_value tk = do
  addressed ← add_bt_eir [] mac (mac_bytes mac_addr ++ (0 ∷ []))
  with_role ← add_bt_eir addressed le_role (role_code role ∷ [])
  keyed ← add_optional with_role security_manager_tk tk
  confirmed ← add_optional keyed le_sc_confirmation confirm_value
  randomized ← add_optional confirmed le_sc_random random_value
  shown ←
      add_bt_eir randomized appearance
        (byte 1 (appearance_code look) ∷ byte 0 (appearance_code look) ∷ [])
  named ← (if ltb 0 (length name) then add_bt_eir shown long_local_name name else some shown)
  flagged ← add_bt_eir named flags (6 ∷ [])
  some (make mime_media (codes "application/vnd.bluetooth.le.oob") flagged)
