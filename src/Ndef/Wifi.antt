-- ===== src/Ndef/Wifi.antt =====
-- The payload of a WiFi record: fields inside a credential.
use espp.Prelude.{
  ℕ, zero, suc, ◌+◌, ◌*◌, ◌^◌, ◌<◌, ◌≡◌, refl, sym, ap, ◌∙◌, Option, none, some, List, [], ◌∷◌,
  ◌++◌, length, ◌>>=◌, arith, length-append,
}
use mathlib.Core.List.{append_assoc, append-nil}
use espp.Ndef.{WifiConfig, add_wifi_field, make_wifi_config, byte}
use espp.Ndef.Codes.{
  WifiFieldId, credential, network_key, auth_type, field_code, authentication_code,
}
use espp.Ndef.Format.{pop, split_off, split_off-append}

-- A reader of one field: two bytes of type and two of length, the high byte first, and the value.
unfoldable pub read_field : List ℕ → Option ((ℕ × List ℕ) × List ℕ)
read_field bytes = do
  (t1, r3) ← pop bytes
  (t0, r2) ← pop r3
  (s1, r1) ← pop r2
  (s0, r0) ← pop r1
  (value, rest) ← split_off (s1 * 2 ^ 8 + s0) r0
  some ((t1 * 2 ^ 8 + t0, value), rest)

pub read_fields : ℕ → List ℕ → Option (List (ℕ × List ℕ))
unfolding read_field
read_fields fuel [] = some []
read_fields zero (b ∷ bytes) = none
read_fields (suc fuel) (b ∷ bytes) = do
  (field, rest) ← read_field (b ∷ bytes)
  fields ← read_fields fuel rest
  some (field ∷ fields)

field_code-lt : (f : WifiFieldId) → field_code f < 2 ^ 16
unfolding field_code
field_code-lt credential = omega arith
field_code-lt WifiFieldId.ssid = omega arith
field_code-lt network_key = omega arith
field_code-lt auth_type = omega arith

word_bytes : (n : ℕ) → n < 2 ^ 16 → byte 1 n * 2 ^ 8 + byte 0 n ≡ n
unfolding byte
word_bytes n h = omega arith

-- One field, in front of what follows it.
field_bytes : WifiFieldId → List ℕ → List ℕ
field_bytes f value =
    byte 1 (field_code f)
    ∷ byte 0 (field_code f)
    ∷ byte 1 (length value)
    ∷ byte 0 (length value)
    ∷ value

length-field_bytes :
    (f : WifiFieldId) (value : List ℕ) → length (field_bytes f value) ≡ length value + 4
unfolding field_bytes
length-field_bytes f value = omega arith

add_wifi_field-field_bytes :
    (bytes : List ℕ) (f : WifiFieldId) (value : List ℕ)
    → add_wifi_field bytes f value ≡ bytes ++ field_bytes f value
unfolding add_wifi_field field_bytes
add_wifi_field-field_bytes bytes f value = refl

read_fields-step :
    (fuel : ℕ) (f : WifiFieldId) (value rest : List ℕ) (fields : List (ℕ × List ℕ))
    → length value < 2 ^ 16
    → read_fields fuel rest ≡ some fields
    → read_fields (suc fuel) (field_bytes f value ++ rest) ≡ some ((field_code f, value) ∷ fields)
unfolding read_fields field_bytes
read_fields-step fuel f value rest fields h e =
    rw
      (
        word_bytes (field_code f) (field_code-lt f),
        word_bytes (length value) h,
        split_off-append value rest,
        ◌>>=◌,
        e,
      )
      refl

read_fields-last :
    (fuel : ℕ) (f : WifiFieldId) (value : List ℕ)
    → length value < 2 ^ 16
    → read_fields (suc fuel) (field_bytes f value) ≡ some ((field_code f, value) ∷ [])
unfolding read_fields
read_fields-last fuel f value h =
    ap (read_fields (suc fuel)) (sym (append-nil (field_bytes f value)))
    ∙ read_fields-step fuel f value [] [] h (nothing fuel)
  where
    nothing : (fuel : ℕ) → read_fields fuel [] ≡ some []
    nothing zero = refl
    nothing (suc n) = refl

-- For a network whose name and key have together fewer than 2 ^ 16 - 14 bytes, the payload of
-- `make_wifi_config` reads as one credential, whose value reads as the name, the key and the kind
-- of authentication, in this order and nothing else.
pub read_fields-make_wifi_config :
    (config : WifiConfig)
    → length config.ssid + length config.key + 14 < 2 ^ 16
    → (fields : List ℕ) × (read_fields 1 (make_wifi_config config).payload
        ≡ some ((0x100e, fields) ∷ []))
      × (read_fields 3 fields
          ≡ some (
              (0x1045, config.ssid)
              ∷ (0x1027, config.key)
              ∷ (0x1003, 0 ∷ authentication_code config.authentication ∷ [])
              ∷ []))
unfolding make_wifi_config field_code
read_fields-make_wifi_config c h =
    let auth : List ℕ = 0 ∷ authentication_code c.authentication ∷ [] in
    let a = field_bytes WifiFieldId.ssid c.ssid in
    let b = field_bytes network_key c.key in
    let d = field_bytes auth_type auth in
    let inner = (a ++ b) ++ d in
    let size : length inner < 2 ^ 16 = omega (
      arith,
      length-append (a ++ b) d,
      length-append a b,
      length-field_bytes WifiFieldId.ssid c.ssid,
      length-field_bytes network_key c.key,
      length-field_bytes auth_type auth,
    ) in
    (
      inner,
      rw
          (
            add_wifi_field-field_bytes [] WifiFieldId.ssid c.ssid,
            add_wifi_field-field_bytes a network_key c.key,
            add_wifi_field-field_bytes (a ++ b) auth_type auth,
            add_wifi_field-field_bytes [] credential inner,
          )
          (read_fields-last 0 credential inner size),
      ap (read_fields 3) (append_assoc a b d)
          ∙ read_fields-step 2 WifiFieldId.ssid c.ssid (b ++ d) _ (omega arith) (
              read_fields-step 1 network_key c.key d _ (omega arith)
                (read_fields-last 0 auth_type auth (omega arith))),
    )
