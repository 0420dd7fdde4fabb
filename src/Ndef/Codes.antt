-- ===== src/Ndef/Codes.antt =====
-- The enumerations of components/ndef/include/ndef.hpp with their codes.
use espp.Prelude.{ℕ}

pub data Tnf : Type 0 where
  empty well_known mime_media absolute_uri external_type unknown unchanged reserved : Tnf

unfoldable pub tnf_code : Tnf → ℕ
tnf_code empty = 0
tnf_code well_known = 1
tnf_code mime_media = 2
tnf_code absolute_uri = 3
tnf_code external_type = 4
tnf_code unknown = 5
tnf_code unchanged = 6
tnf_code reserved = 7

pub data Uic : Type 0 where
  no_prefix http_www https_www http https tel mailto ftp_anon ftp_ftp ftps sftp smb : Uic
  nfs ftp dav news telnet imap rstp urn pop sip sips tftp btspp btl2cap btgoep tcpobex : Uic
  irdaobex file urn_epc_id urn_epc_tag urn_epc_pat urn_epc_raw urn_epc urn_nfc : Uic

unfoldable pub uic_code : Uic → ℕ
uic_code no_prefix = 0x00
uic_code http_www = 0x01
uic_code https_www = 0x02
uic_code http = 0x03
uic_code https = 0x04
uic_code tel = 0x05
uic_code mailto = 0x06
uic_code ftp_anon = 0x07
uic_code ftp_ftp = 0x08
uic_code ftps = 0x09
uic_code sftp = 0x0a
uic_code smb = 0x0b
uic_code nfs = 0x0c
uic_code ftp = 0x0d
uic_code dav = 0x0e
uic_code news = 0x0f
uic_code telnet = 0x10
uic_code imap = 0x11
uic_code rstp = 0x12
uic_code urn = 0x13
uic_code pop = 0x14
uic_code sip = 0x15
uic_code sips = 0x16
uic_code tftp = 0x17
uic_code btspp = 0x18
uic_code btl2cap = 0x19
uic_code btgoep = 0x1a
uic_code tcpobex = 0x1b
uic_code irdaobex = 0x1c
uic_code file = 0x1d
uic_code urn_epc_id = 0x1e
uic_code urn_epc_tag = 0x1f
uic_code urn_epc_pat = 0x20
uic_code urn_epc_raw = 0x21
uic_code urn_epc = 0x22
uic_code urn_nfc = 0x23

pub data BtAppearance : Type 0 where
  unknown_appearance phone computer watch clock display remote_control generic_hid : BtAppearance
  keyboard mouse joystick gamepad touchpad gaming : BtAppearance

unfoldable pub appearance_code : BtAppearance → ℕ
appearance_code unknown_appearance = 0x0000
appearance_code phone = 0x0040
appearance_code computer = 0x0080
appearance_code watch = 0x00c0
appearance_code clock = 0x0100
appearance_code display = 0x0140
appearance_code remote_control = 0x0180
appearance_code generic_hid = 0x03c0
appearance_code keyboard = 0x03c1
appearance_code mouse = 0x03c2
appearance_code joystick = 0x03c3
appearance_code gamepad = 0x03c4
appearance_code touchpad = 0x03c9
appearance_code gaming = 0x0a80

pub data CarrierPowerState : Type 0 where
  inactive active activating unknown_state : CarrierPowerState

unfoldable pub power_state_code : CarrierPowerState → ℕ
power_state_code inactive = 0
power_state_code active = 1
power_state_code activating = 2
power_state_code unknown_state = 3

pub data BtEir : Type 0 where
  flags uuids_16_bit_partial uuids_16_bit_complete uuids_32_bit_partial : BtEir
  uuids_32_bit_complete uuids_128_bit_partial uuids_128_bit_complete short_local_name : BtEir
  long_local_name tx_power_level class_of_device sp_hash_c192 sp_random_r192 : BtEir
  security_manager_tk security_manager_flags appearance mac le_role sp_hash_c256 : BtEir
  sp_hash_r256 le_sc_confirmation le_sc_random : BtEir

unfoldable pub eir_code : BtEir → ℕ
eir_code flags = 0x01
eir_code uuids_16_bit_partial = 0x02
eir_code uuids_16_bit_complete = 0x03
eir_code uuids_32_bit_partial = 0x04
eir_code uuids_32_bit_complete = 0x05
eir_code uuids_128_bit_partial = 0x06
eir_code uuids_128_bit_complete = 0x07
eir_code short_local_name = 0x08
eir_code long_local_name = 0x09
eir_code tx_power_level = 0x0a
eir_code class_of_device = 0x0d
eir_code sp_hash_c192 = 0x0e
eir_code sp_random_r192 = 0x0f
eir_code security_manager_tk = 0x10
eir_code security_manager_flags = 0x11
eir_code appearance = 0x19
eir_code mac = 0x1b
eir_code le_role = 0x1c
eir_code sp_hash_c256 = 0x1d
eir_code sp_hash_r256 = 0x1e
eir_code le_sc_confirmation = 0x22
eir_code le_sc_random = 0x23

pub data BleRole : Type 0 where
  peripheral_only central_only peripheral_central central_peripheral : BleRole

unfoldable pub role_code : BleRole → ℕ
role_code peripheral_only = 0
role_code central_only = 1
role_code peripheral_central = 2
role_code central_peripheral = 3

pub data WifiAuthenticationType : Type 0 where
  no_security wpa_personal shared wpa_enterprise wpa2_enterprise wpa2_personal :
      WifiAuthenticationType
  wpa_wpa2_personal : WifiAuthenticationType

unfoldable pub authentication_code : WifiAuthenticationType → ℕ
authentication_code no_security = 0x01
authentication_code wpa_personal = 0x02
authentication_code shared = 0x04
authentication_code wpa_enterprise = 0x08
authentication_code wpa2_enterprise = 0x10
authentication_code wpa2_personal = 0x20
authentication_code wpa_wpa2_personal = 0x22

pub data WifiFieldId : Type 0 where
  credential ssid network_key auth_type : WifiFieldId

unfoldable pub field_code : WifiFieldId → ℕ
field_code credential = 0x100e
field_code ssid = 0x1045
field_code network_key = 0x1027
field_code auth_type = 0x1003
