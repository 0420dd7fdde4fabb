-- ===== src/Ndef/Tests.antt =====
-- Records at concrete data.
use espp.Prelude.{
  ◌/◌, ◌%◌, ◌^◌, ℕ, ◌≡◌, refl, ◌↔◌, ◌≤◌, ◌∷◌, [], List, true, some, none, ◌++◌, length, resize,
  codes, ◌>>=◌, arith,
}
use espp.Buffer.{puts}
use espp.Ndef.{
  Ndef, WifiConfig, make_uri, make_le_oob_pairing, make_oob_pairing, make_wifi_config, serialize,
  get_size, make, set_flags, parts,
}
use espp.Ndef.Codes.{
  https, peripheral_only, unknown_appearance, wpa2_personal, appearance_code, authentication_code,
  empty, tnf_code, uic_code,
}
use espp.Ndef.RoundTrip.{fields, serialize-fault}
use espp.Ndef.Pairing.{
  read_eirs, octets, role_octet, sixteen, named, read_eirs-make_le_oob_pairing,
  read_eirs-make_oob_pairing,
}
use espp.Ndef.Wifi.{read_fields, read_fields-make_wifi_config}

abbrev link : Ndef
link = make_uri (codes "a.io") https

link_bytes :
    (serialize true true link >>= λ written. some written.1)
    ≡ some (0xd1 ∷ 1 ∷ 5 ∷ 0x55 ∷ 4 ∷ codes "a.io")
unfolding serialize set_flags parts make_uri make get_size tnf_code uic_code puts
link_bytes = refl

serialize-fault_example :
    (serialize true true (make empty (resize 256 0 []) []) ≡ none)
    ↔ (256 ≤ length (make empty (resize 256 0 []) []).type)
serialize-fault_example = serialize-fault true true (make empty (resize 256 0 []) [])

read_eirs-make_le_oob_pairing_example :
    (r : Ndef) × (make_le_oob_pairing 7 peripheral_only
        (codes "espp")
        unknown_appearance
        []
        []
        (resize 16 5 [])
      ≡ some r)
    × (read_eirs (length r.payload) r.payload
        ≡ some (
            ((0x1b, octets 7 ++ (0 ∷ [])) ∷ (0x1c, role_octet peripheral_only ∷ []) ∷ [])
            ++ sixteen 0x10 (resize 16 5 [])
            ++ sixteen 0x22 []
            ++ sixteen 0x23 []
            ++ ((
              0x19,
              appearance_code unknown_appearance / 2 ^ 8 % 2 ^ 8
                  ∷ appearance_code unknown_appearance % 2 ^ 8
                  ∷ [],
            )
                ∷ [])
            ++ named (codes "espp")
            ++ ((0x01, 6 ∷ []) ∷ [])))
read_eirs-make_le_oob_pairing_example =
    read_eirs-make_le_oob_pairing 7 peripheral_only (codes "espp") unknown_appearance [] []
      (resize 16 5 []) (omega arith)

read_eirs-make_oob_pairing_example :
    (r : Ndef) × (make_oob_pairing 7 0 (codes "espp") [] (resize 16 5 []) ≡ some r)
    × (eirs : List ℕ) × (r.payload ≡ length r.payload ∷ 0 ∷ (octets 7 ++ eirs))
    × (read_eirs (length eirs) eirs
        ≡ some (((0x09, codes "espp") ∷ []) ++ sixteen 0x0e (resize 16 5 []) ++ sixteen 0x0f []))
read_eirs-make_oob_pairing_example =
    read_eirs-make_oob_pairing 7 0 (codes "espp") [] (resize 16 5 []) (omega arith)

abbrev home : WifiConfig
home = record { ssid = codes "home"; key = codes "secret"; authentication = wpa2_personal }

read_fields-make_wifi_config_example :
    (fields : List ℕ) × (read_fields 1 (make_wifi_config home).payload
      ≡ some ((0x100e, fields) ∷ []))
    × (read_fields 3 fields
        ≡ some (
            (0x1045, codes "home")
            ∷ (0x1027, codes "secret")
            ∷ (0x1003, 0 ∷ authentication_code wpa2_personal ∷ [])
            ∷ []))
read_fields-make_wifi_config_example = read_fields-make_wifi_config home (omega arith)
