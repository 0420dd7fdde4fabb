-- ===== src/Ndef/Pairing.antt =====
-- The payloads of the pairing records: sequences of EIR structures.
use espp.Prelude.{
  ◌/◌, ◌*◌, ℕ, zero, suc, ◌+◌, ◌-◌, ◌%◌, ◌^◌, ◌≤◌, ◌<◌, ◌≡◌, refl, sym, ap, ◌∙◌, Option, none, some,
  List, [], ◌∷◌, ◌++◌, ltb, ◌==◌, if◌then◌else◌, length, slice, ◌>>=◌, arith, length-append,
  Bool-cases, inl, inr, take-all, codes, ==_iff,
}
use mathlib.Core.List.{append_assoc, append-nil}
use espp.Ndef.{
  Ndef, num_eir_bytes, add_bt_eir, add_optional, mac_bytes, byte, make_oob_pairing,
  make_le_oob_pairing, make,
}
use espp.Ndef.Codes.{
  peripheral_only, central_only, peripheral_central, central_peripheral, mime_media, BtEir,
  eir_code, flags, appearance, mac, le_role, long_local_name, security_manager_tk,
  le_sc_confirmation, le_sc_random, sp_hash_c192, sp_random_r192, BleRole, role_code, BtAppearance,
  appearance_code,
}
use espp.Ndef.Format.{pop, split_off, split_off-append}

-- A reader of EIR structures, with fuel: a length that counts the type's byte, the type, the value.
pub read_eirs : ℕ → List ℕ → Option (List (ℕ × List ℕ))
read_eirs fuel [] = some []
read_eirs zero (size ∷ bytes) = none
read_eirs (suc fuel) (size ∷ bytes) = do
  (eir_type, r0) ← pop bytes
  (value, r1) ← split_off (size - 1) r0
  rest ← read_eirs fuel r1
  some ((eir_type, value) ∷ rest)

abbrev encoded : List (ℕ × List ℕ) → List ℕ
encoded [] = []
encoded ((eir_type, value) ∷ es) = (length value + 1) ∷ eir_type ∷ (value ++ encoded es)

encoded-append : (es fs : List (ℕ × List ℕ)) → encoded (es ++ fs) ≡ encoded es ++ encoded fs
encoded-append [] fs = refl
encoded-append ((t, v) ∷ es) fs =
    ap (λ bytes. (length v + 1) ∷ t ∷ bytes)
      (ap (◌++◌ v) (encoded-append es fs) ∙ sym (append_assoc v (encoded es) (encoded fs)))

read_eirs-encoded :
    (fuel : ℕ) (es : List (ℕ × List ℕ))
    → length (encoded es) ≤ fuel
    → read_eirs fuel (encoded es) ≡ some es
unfolding read_eirs
read_eirs-encoded fuel [] h = refl
read_eirs-encoded zero ((t, v) ∷ es) h = absurd (omega arith)
read_eirs-encoded (suc fuel) ((t, v) ∷ es) h =
    rw
      (
        add_back (length v),
        split_off-append v (encoded es),
        ◌>>=◌,
        read_eirs-encoded fuel es (omega (arith, length-append v (encoded es))),
      )
      refl
  where
    add_back : (n : ℕ) → n + 1 - 1 ≡ n
    add_back n = omega arith

-- A structure whose size is the value's, behind other ones.
add_bt_eir-encoded :
    (pre : List ℕ) (es : List (ℕ × List ℕ)) (t : BtEir) (value : List ℕ)
    → num_eir_bytes t (length value) ≡ length value
    → length value < 255
    → add_bt_eir (pre ++ encoded es) t value
      ≡ some (pre ++ encoded (es ++ ((eir_code t, value) ∷ [])))
unfolding add_bt_eir
add_bt_eir-encoded pre es t v e h =
    let whole : slice 0 (length v) v ≡ some v = ground (arith, take-all (length v) v refl) in
    let size : (length v + 1) % 2 ^ 8 ≡ length v + 1 = omega arith in
    let joined : (pre ++ encoded es) ++ ((length v + 1) ∷ eir_code t ∷ v)
        ≡ pre ++ encoded (es ++ ((eir_code t, v) ∷ [])) =
      rw (encoded-append es ((eir_code t, v) ∷ []), append-nil v)
        (append_assoc pre (encoded es) ((length v + 1) ∷ eir_code t ∷ v)) in
    rw (e, whole, size) (ap some joined)

-- A value of 16 bytes and its type, or nothing.
abbrev pub optional : BtEir → List ℕ → List (ℕ × List ℕ)
optional t value = if length value == 16 then (eir_code t, value) ∷ [] else []

add_optional-encoded :
    (pre : List ℕ) (es : List (ℕ × List ℕ)) (t : BtEir) (value : List ℕ)
    → num_eir_bytes t (length value) ≡ length value % 2 ^ 8
    → add_optional (pre ++ encoded es) t value ≡ some (pre ++ encoded (es ++ optional t value))
unfolding add_optional
add_optional-encoded pre es t v e = elim (Bool-cases (length v == 16)) [
  | inl at ↦
      let size : length v ≡ 16 = (==_iff (length v) 16).0 at in
      rw at (add_bt_eir-encoded pre es t v (e ∙ omega arith) (omega arith))
  | inr at ↦ rw (at, append-nil es) refl
]

name_sized :
    (name : List ℕ) → length name < 255 → num_eir_bytes long_local_name (length name) ≡ length name
unfolding num_eir_bytes
name_sized name h = omega arith

-- The name that the low energy record holds, if there is one.
abbrev pub optional_name : List ℕ → List (ℕ × List ℕ)
optional_name name = if ltb 0 (length name) then (eir_code long_local_name, name) ∷ [] else []

add_name :
    (es : List (ℕ × List ℕ)) (name : List ℕ)
    → length name < 255
    → (if ltb 0 (length name)
        then add_bt_eir (encoded es) long_local_name name
        else some (encoded es))
      ≡ some (encoded (es ++ optional_name name))
add_name es name h = elim (Bool-cases (ltb 0 (length name))) [
  | inl at ↦ rw at (add_bt_eir-encoded [] es long_local_name name (name_sized name h) h)
  | inr at ↦ rw (at, append-nil es) refl
]

mac_sized :
    (m : ℕ)
    → num_eir_bytes mac (length (mac_bytes m ++ (0 ∷ []))) ≡ length (mac_bytes m ++ (0 ∷ []))
unfolding num_eir_bytes mac_bytes
mac_sized m = refl

mac_small : (m : ℕ) → length (mac_bytes m ++ (0 ∷ [])) < 255
unfolding mac_bytes
mac_small m = omega arith

le_pairing-read :
    (mac_addr : ℕ) (role : BleRole) (name : List ℕ) (look : BtAppearance)
    (random_value confirm_value tk : List ℕ)
    → length name < 255
    → (r : Ndef) × (make_le_oob_pairing mac_addr role name look random_value confirm_value tk
        ≡ some r)
      × (read_eirs (length r.payload) r.payload
          ≡ some (
              ((0x1b, mac_bytes mac_addr ++ (0 ∷ [])) ∷ (0x1c, role_code role ∷ []) ∷ [])
              ++ optional security_manager_tk tk
              ++ optional le_sc_confirmation confirm_value
              ++ optional le_sc_random random_value
              ++ ((0x19, byte 1 (appearance_code look) ∷ byte 0 (appearance_code look) ∷ []) ∷ [])
              ++ optional_name name
              ++ ((0x01, 6 ∷ []) ∷ [])))
unfolding make_le_oob_pairing make num_eir_bytes eir_code
le_pairing-read m role name look rv cv tk h =
    let address = mac_bytes m ++ (0 ∷ []) in
    let shape = byte 1 (appearance_code look) ∷ byte 0 (appearance_code look) ∷ [] in
    let l1 : List (ℕ × List ℕ) = (0x1b, address) ∷ [] in
    let l2 : List (ℕ × List ℕ) = (0x1b, address) ∷ (0x1c, role_code role ∷ []) ∷ [] in
    let l3 = l2 ++ optional security_manager_tk tk in
    let l4 = l3 ++ optional le_sc_confirmation cv in
    let l5 = l4 ++ optional le_sc_random rv in
    let l6 = l5 ++ ((0x19, shape) ∷ []) in
    let l7 = l6 ++ optional_name name in
    let l8 = l7 ++ ((0x01, 6 ∷ []) ∷ []) in
    (
      make mime_media (codes "application/vnd.bluetooth.le.oob") (encoded l8),
      rw
          (
            add_bt_eir-encoded [] [] mac address (mac_sized m) (mac_small m),
            add_bt_eir-encoded [] l1 le_role (role_code role ∷ []) refl (omega arith),
            add_optional-encoded [] l2 security_manager_tk tk refl,
            add_optional-encoded [] l3 le_sc_confirmation cv refl,
            add_optional-encoded [] l4 le_sc_random rv refl,
            add_bt_eir-encoded [] l5 appearance shape refl (omega arith),
            add_name l6 name h,
            add_bt_eir-encoded [] l7 flags (6 ∷ []) refl (omega arith),
          )
          refl,
      read_eirs-encoded (length (encoded l8)) l8 (omega arith),
    )

byte_small : (n : ℕ) → n < 256 → byte 0 n ≡ n
unfolding byte
byte_small n h = omega arith

mac_six : (m : ℕ) → length (mac_bytes m) ≡ 6
unfolding mac_bytes
mac_six m = refl

length-optional :
    (es : List (ℕ × List ℕ)) (t : BtEir) (value : List ℕ)
    → length (encoded (es ++ optional t value)) ≤ length (encoded es) + 18
length-optional es t v = elim (Bool-cases (length v == 16)) [
  | inl at ↦
      rw (at, encoded-append es ((eir_code t, v) ∷ []))
        (omega (
          arith,
          (==_iff (length v) 16).0 at,
          length-append (encoded es) (encoded ((eir_code t, v) ∷ [])),
          length-append v [],
        ))
  | inr at ↦ rw (at, append-nil es) (omega arith)
]

pairing-read :
    (mac_addr device_class : ℕ) (name random_value confirm_value : List ℕ)
    → length name < 210
    → (r : Ndef) × (make_oob_pairing mac_addr device_class name random_value confirm_value ≡ some r)
      × (eirs : List ℕ) × (r.payload ≡ length r.payload ∷ 0 ∷ (mac_bytes mac_addr ++ eirs))
      × (read_eirs (length eirs) eirs
          ≡ some (
              ((0x09, name) ∷ [])
              ++ optional sp_hash_c192 confirm_value
              ++ optional sp_random_r192 random_value))
unfolding make_oob_pairing make num_eir_bytes eir_code
pairing-read m dc name rv cv h =
    let pre : List ℕ = 0 ∷ 0 ∷ mac_bytes m in
    let l1 : List (ℕ × List ℕ) = (0x09, name) ∷ [] in
    let l2 = l1 ++ optional sp_hash_c192 cv in
    let l3 = l2 ++ optional sp_random_r192 rv in
    let size = length (pre ++ encoded l3) in
    let begun : add_bt_eir pre long_local_name name ≡ some (pre ++ encoded l1) =
      ap (λ bytes. add_bt_eir bytes long_local_name name) (sym (append-nil pre))
      ∙ add_bt_eir-encoded pre [] long_local_name name (name_sized name (omega arith))
          (omega arith) in
    let fits : byte 0 size ≡ size = byte_small size (
      omega (
        arith,
        length-append pre (encoded l3),
        mac_six m,
        length-optional l2 sp_random_r192 rv,
        length-optional l1 sp_hash_c192 cv,
        length-append name [],
      )) in
    (
      make mime_media (codes "application/vnd.bluetooth.ep.oob")
          (size ∷ 0 ∷ (mac_bytes m ++ encoded l3)),
      rw
          (
            begun,
            add_optional-encoded pre l1 sp_hash_c192 cv refl,
            add_optional-encoded pre l2 sp_random_r192 rv refl,
            fits,
          )
          refl,
      encoded l3,
      refl,
      read_eirs-encoded (length (encoded l3)) l3 (omega arith),
    )

-- The low 48 bits of an address, the least significant byte first.
abbrev pub octets : ℕ → List ℕ
octets m =
    m % 2 ^ 8
    ∷ m / 2 ^ 8 % 2 ^ 8
    ∷ m / 2 ^ 16 % 2 ^ 8
    ∷ m / 2 ^ 24 % 2 ^ 8
    ∷ m / 2 ^ 32 % 2 ^ 8
    ∷ m / 2 ^ 40 % 2 ^ 8
    ∷ []

mac_bytes-octets : (m : ℕ) → mac_bytes m ≡ octets m
unfolding mac_bytes byte
mac_bytes-octets m =
    let low : m / 2 ^ (8 * 0) % 2 ^ 8 ≡ m % 2 ^ 8 = omega arith in
    ap
      (λ b.
        b
        ∷ m / 2 ^ 8 % 2 ^ 8
        ∷ m / 2 ^ 16 % 2 ^ 8
        ∷ m / 2 ^ 24 % 2 ^ 8
        ∷ m / 2 ^ 32 % 2 ^ 8
        ∷ m / 2 ^ 40 % 2 ^ 8
        ∷ [])
      low

unfoldable pub role_octet : BleRole → ℕ
role_octet peripheral_only = 0
role_octet central_only = 1
role_octet peripheral_central = 2
role_octet central_peripheral = 3

role_code-octet : (role : BleRole) → role_code role ≡ role_octet role
unfolding role_code role_octet
role_code-octet peripheral_only = refl
role_code-octet central_only = refl
role_code-octet peripheral_central = refl
role_code-octet central_peripheral = refl

-- A value of 16 bytes with its type, or nothing.
abbrev pub sixteen : ℕ → List ℕ → List (ℕ × List ℕ)
sixteen code value = if length value == 16 then (code, value) ∷ [] else []

abbrev pub named : List ℕ → List (ℕ × List ℕ)
named name = if ltb 0 (length name) then (0x09, name) ∷ [] else []

shape-octets : (n : ℕ) → byte 1 n ∷ byte 0 n ∷ [] ≡ n / 2 ^ 8 % 2 ^ 8 ∷ n % 2 ^ 8 ∷ []
unfolding byte
shape-octets n =
    let low : n / 2 ^ (8 * 0) % 2 ^ 8 ≡ n % 2 ^ 8 = omega arith in
    ap (λ b. n / 2 ^ 8 % 2 ^ 8 ∷ b ∷ []) low

-- A low energy pairing record with a name of fewer than 255 bytes is always made, and a reader of
-- EIR structures finds in its payload, in this order and nothing else: the low 48 bits of the
-- address, least significant byte first, with the public type, the role, the temporary key, the confirmation and the random value, each of them
-- if it has 16 bytes, the appearance, the name if it is not empty, and the flags.
pub read_eirs-make_le_oob_pairing :
    (mac_addr : ℕ) (role : BleRole) (name : List ℕ) (look : BtAppearance)
    (random_value confirm_value tk : List ℕ)
    → length name < 255
    → (r : Ndef) × (make_le_oob_pairing mac_addr role name look random_value confirm_value tk
        ≡ some r)
      × (read_eirs (length r.payload) r.payload
          ≡ some (
              ((0x1b, octets mac_addr ++ (0 ∷ [])) ∷ (0x1c, role_octet role ∷ []) ∷ [])
              ++ sixteen 0x10 tk
              ++ sixteen 0x22 confirm_value
              ++ sixteen 0x23 random_value
              ++ ((0x19, appearance_code look / 2 ^ 8 % 2 ^ 8 ∷ appearance_code look % 2 ^ 8 ∷ [])
                  ∷ [])
              ++ named name
              ++ ((0x01, 6 ∷ []) ∷ [])))
unfolding eir_code
read_eirs-make_le_oob_pairing m role name look rv cv tk h =
    let (r, made, read) = le_pairing-read m role name look rv cv tk h in
    (
      r,
      made,
      read
          ∙ rw (mac_bytes-octets m, role_code-octet role, shape-octets (appearance_code look)) refl,
    )

-- A classic pairing record with a name of fewer than 210 bytes is always made, and its payload is
-- its length in one byte, the type of the radio, the low 48 bits of the
-- address, least significant byte first, and EIR structures in
-- which a reader finds the name, the confirmation and the random value, each of these two if it has
-- 16 bytes. The device class has no influence.
pub read_eirs-make_oob_pairing :
    (mac_addr device_class : ℕ) (name random_value confirm_value : List ℕ)
    → length name < 210
    → (r : Ndef) × (make_oob_pairing mac_addr device_class name random_value confirm_value ≡ some r)
      × (eirs : List ℕ) × (r.payload ≡ length r.payload ∷ 0 ∷ (octets mac_addr ++ eirs))
      × (read_eirs (length eirs) eirs
          ≡ some (((0x09, name) ∷ []) ++ sixteen 0x0e confirm_value ++ sixteen 0x0f random_value))
unfolding eir_code
read_eirs-make_oob_pairing m dc name rv cv h =
    let (r, made, eirs, laid, read) = pairing-read m dc name rv cv h in
    (r, made, eirs, laid ∙ ap (λ a. length r.payload ∷ 0 ∷ (a ++ eirs)) (mac_bytes-octets m), read)
