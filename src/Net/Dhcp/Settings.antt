-- ===== src/Net/Dhcp/Settings.antt =====
-- What the options of a DHCP message say (net/src/dhcp.rs): options with their meaning, as RFC 2132
-- writes them.
pub mod Reading
use conc_os.Common.{ℕ, ◌%◌, ◌<◌, ◌≡◌, ◌≢◌, ◌⊎◌, List, [], ◌∷◌, ◌++◌, Option, none, some, length}
use conc_os.Net.Addr.{Ipv4Addr, octets}
use conc_os.Net.Dhcp.{
  Parsed, DhcpMessageType, discover, offer, request, decline, ack, nak, release, inform, no_options,
}

-- An option by what it says: padding, the subnet mask, the routers, the server's identifier, the
-- type of the message, or an option with another tag.
pub data Setting : Type 0 where
  padding : Setting
  mask : Ipv4Addr → Setting
  routers : Ipv4Addr → List Ipv4Addr → Setting
  server : Ipv4Addr → Setting
  kind : DhcpMessageType → Setting
  other : ℕ → List ℕ → Setting

-- The numbers of the message types.
abbrev pub code_of : DhcpMessageType → ℕ
code_of discover = 1
code_of offer = 2
code_of request = 3
code_of decline = 4
code_of ack = 5
code_of nak = 6
code_of release = 7
code_of inform = 8

abbrev pub all_octets : List Ipv4Addr → List ℕ
all_octets [] = []
all_octets (a ∷ addrs) = octets a ++ all_octets addrs

abbrev pub tlv : ℕ → List ℕ → List ℕ
tlv tag value = tag ∷ length value ∷ value

abbrev pub write_setting : Setting → List ℕ
write_setting padding = 0 ∷ []
write_setting (mask a) = tlv 1 (octets a)
write_setting (routers a more) = tlv 3 (all_octets (a ∷ more))
write_setting (server a) = tlv 54 (octets a)
write_setting (kind t) = tlv 53 (code_of t ∷ [])
write_setting (other tag value) = tlv tag value

abbrev pub write_settings : List Setting → List ℕ
write_settings [] = []
write_settings (s ∷ settings) = write_setting s ++ write_settings settings

-- The other tags are none of those that have a meaning here.
abbrev pub IsSetting : Setting → Type 0
IsSetting (other tag value) =
    (tag ≢ 0) × (tag ≢ 255) × (tag ≢ 1) × (tag ≢ 3) × (tag ≢ 53) × (tag ≢ 54)
IsSetting _ = Unit

-- The last option of a kind counts.
abbrev latest : {A : Type 0} → (Setting → Option A) → Option A → List Setting → Option A
latest reads old [] = old
latest reads old (s ∷ settings) =
    latest reads (elim (reads s) [ none ↦ old | some new ↦ some new ]) settings

abbrev mask_of : Setting → Option Ipv4Addr
mask_of (mask a) = some a
mask_of _ = none

-- The first router of the list is the preferred one.
abbrev router_of : Setting → Option Ipv4Addr
router_of (routers a more) = some a
router_of _ = none

abbrev server_of : Setting → Option Ipv4Addr
server_of (server a) = some a
server_of _ = none

abbrev kind_of : Setting → Option DhcpMessageType
kind_of (kind t) = some t
kind_of _ = none

abbrev says_from : Parsed → List Setting → Parsed
says_from old settings = record {
  message_type = latest kind_of old.message_type settings;
  subnet_mask = latest mask_of old.subnet_mask settings;
  router = latest router_of old.router settings;
  server_id = latest server_of old.server_id settings;
}

abbrev pub says : List Setting → Parsed
says = says_from no_options

-- Options whose value does not fit their tag.
pub data Malformed (tag : ℕ) (value : List ℕ) : Type 0 where
  bad_mask : tag ≡ 1 → length value ≢ 4 → Malformed tag value
  bad_routers : tag ≡ 3 → (length value ≡ 0) ⊎ (length value % 4 ≢ 0) → Malformed tag value
  bad_server : tag ≡ 54 → length value ≢ 4 → Malformed tag value
  bad_size : tag ≡ 53 → length value ≢ 1 → Malformed tag value
  bad_kind : (n : ℕ) → tag ≡ 53 → value ≡ n ∷ [] → (n ≡ 0) ⊎ (8 < n) → Malformed tag value
