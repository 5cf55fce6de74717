-- ===== src/Protocol/Addr.antt =====
-- libmaestro/src/protocol/addr.rs: peers, addresses and channels.
pub mod Fields
pub mod Channels
use pbpctrl.Prelude.{
  ℕ, ◌+◌, ◌*◌, ◌/◌, ◌%◌, ◌^◌, bit_or, Bool, true, false, Option, none, some, ◌==◌, ◌||◌,
  if◌then◌else◌, List, [], ◌∷◌, get_or, ltb,
}

pub data Peer : Type 0 where
  unknown host case left_bt_core right_bt_core left_sensor_hub right_sensor_hub : Peer
  left_spi_bridge right_spi_bridge debug_app maestro_a left_tahiti right_tahiti maestro_b : Peer
  unrecognized : ℕ → Peer

-- The peers by their numbers, 0 to 13.
abbrev peers : List Peer
peers =
    unknown ∷ host ∷ case ∷ left_bt_core ∷ right_bt_core ∷ left_sensor_hub ∷ right_sensor_hub
    ∷ left_spi_bridge ∷ right_spi_bridge ∷ debug_app ∷ maestro_a ∷ left_tahiti ∷ right_tahiti
    ∷ maestro_b ∷ []

-- The conversions that the enum derives: its discriminants, and the catch-all for any other byte.
unfoldable pub from_primitive : ℕ → Peer
from_primitive n = get_or peers n (unrecognized n)

unfoldable pub into_u8 : Peer → ℕ
into_u8 unknown = 0
into_u8 host = 1
into_u8 case = 2
into_u8 left_bt_core = 3
into_u8 right_bt_core = 4
into_u8 left_sensor_hub = 5
into_u8 right_sensor_hub = 6
into_u8 left_spi_bridge = 7
into_u8 right_spi_bridge = 8
into_u8 debug_app = 9
into_u8 maestro_a = 10
into_u8 left_tahiti = 11
into_u8 right_tahiti = 12
into_u8 maestro_b = 13
into_u8 (unrecognized n) = n

pub record Address : Type 0 where
  pub value : ℕ

abbrev pub from_value : ℕ → Address
from_value value = record { value = value }

-- `(source as u32 & 0xf) << 6 | (target as u32 & 0xf) << 10`
unfoldable pub from_peers : Peer → Peer → Address
from_peers source target =
    from_value (bit_or (into_u8 source % 16 * 2 ^ 6) (into_u8 target % 16 * 2 ^ 10))

unfoldable pub source : Address → Peer
source a = from_primitive (a.value / 2 ^ 6 % 16)

unfoldable pub target : Address → Peer
target a = from_primitive (a.value / 2 ^ 10 % 16)

unfoldable pub swap : Address → Address
swap a = from_peers (target a) (source a)

unfoldable pub channel_id : Peer → Peer → Option ℕ
channel_id maestro_a case = some 18
channel_id maestro_a left_bt_core = some 19
channel_id maestro_a left_sensor_hub = some 20
channel_id maestro_a right_bt_core = some 21
channel_id maestro_a right_sensor_hub = some 22
channel_id maestro_b case = some 23
channel_id maestro_b left_bt_core = some 24
channel_id maestro_b left_sensor_hub = some 25
channel_id maestro_b right_bt_core = some 26
channel_id maestro_b right_sensor_hub = some 27
channel_id _ _ = none

abbrev pub is_maestro : Peer → Bool
is_maestro maestro_a = true
is_maestro maestro_b = true
is_maestro _ = false

-- `Address::channel_id`: the Maestro end is the local one, whichever it is.
unfoldable pub address_channel_id : Address → Option ℕ
address_channel_id a =
    if is_maestro (source a)
    then channel_id (source a) (target a)
    else channel_id (target a) (source a)

unfoldable pub address_for_channel : ℕ → Option Address
address_for_channel channel =
    if channel == 18
    then some (from_peers maestro_a case)
    else if channel == 19
    then some (from_peers maestro_a left_bt_core)
    else if channel == 20
    then some (from_peers maestro_a left_sensor_hub)
    else if channel == 21
    then some (from_peers maestro_a right_bt_core)
    else if channel == 22
    then some (from_peers maestro_a right_sensor_hub)
    else if channel == 23
    then some (from_peers maestro_b case)
    else if channel == 24
    then some (from_peers maestro_b left_bt_core)
    else if channel == 25
    then some (from_peers maestro_b left_sensor_hub)
    else if channel == 26
    then some (from_peers maestro_b right_bt_core)
    else if channel == 27
    then some (from_peers maestro_b right_sensor_hub)
    else none
