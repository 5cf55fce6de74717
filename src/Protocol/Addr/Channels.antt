-- ===== src/Protocol/Addr/Channels.antt =====
-- libmaestro/src/protocol/addr.rs: channels and the addresses that stand for them.
use pbpctrl.Prelude.{ℕ, ◌^◌, ◌≤◌, ◌<◌, ◌≡◌, refl, arith, some, none, ◌↔◌, ◌⊎◌}
use pbpctrl.Protocol.Addr.{
  Peer, case, left_bt_core, right_bt_core, left_sensor_hub, right_sensor_hub, maestro_a, maestro_b,
  from_primitive, into_u8, Address, from_peers, source, target, channel_id, address_channel_id,
  address_for_channel,
}

-- One channel, at its number and its two ends: the four readings agree.
abbrev Agrees : Peer → Peer → ℕ → Type 0
Agrees l r c =
    (address_for_channel c ≡ some (from_peers l r))
    × (address_channel_id (from_peers l r) ≡ some c)
    × (address_channel_id (from_peers r l) ≡ some c)
    × (18 ≤ c)
    × (c ≤ 27)
    × (source (from_peers l r) ≡ l)
    × (target (from_peers l r) ≡ r)

at_channel : (l r : Peer) (n c : ℕ) → Agrees l r n → some n ≡ some c → Agrees l r c
at_channel l r n c h e = let n0 : c ≡ n = ground arith in rw n0 h

channel_id-Agrees : (l r : Peer) (c : ℕ) → channel_id l r ≡ some c → Agrees l r c
unfolding channel_id address_for_channel address_channel_id from_peers source target from_primitive
    into_u8
channel_id-Agrees maestro_a case c h =
    at_channel maestro_a case 18 c (refl, refl, refl, omega arith, omega arith, refl, refl) h
channel_id-Agrees maestro_a left_bt_core c h =
    at_channel maestro_a left_bt_core 19 c (refl, refl, refl, omega arith, omega arith, refl, refl)
      h
channel_id-Agrees maestro_a left_sensor_hub c h =
    at_channel maestro_a left_sensor_hub 20 c
      (refl, refl, refl, omega arith, omega arith, refl, refl) h
channel_id-Agrees maestro_a right_bt_core c h =
    at_channel maestro_a right_bt_core 21 c (refl, refl, refl, omega arith, omega arith, refl, refl)
      h
channel_id-Agrees maestro_a right_sensor_hub c h =
    at_channel maestro_a right_sensor_hub 22 c
      (refl, refl, refl, omega arith, omega arith, refl, refl) h
channel_id-Agrees maestro_b case c h =
    at_channel maestro_b case 23 c (refl, refl, refl, omega arith, omega arith, refl, refl) h
channel_id-Agrees maestro_b left_bt_core c h =
    at_channel maestro_b left_bt_core 24 c (refl, refl, refl, omega arith, omega arith, refl, refl)
      h
channel_id-Agrees maestro_b left_sensor_hub c h =
    at_channel maestro_b left_sensor_hub 25 c
      (refl, refl, refl, omega arith, omega arith, refl, refl) h
channel_id-Agrees maestro_b right_bt_core c h =
    at_channel maestro_b right_bt_core 26 c (refl, refl, refl, omega arith, omega arith, refl, refl)
      h
channel_id-Agrees maestro_b right_sensor_hub c h =
    at_channel maestro_b right_sensor_hub 27 c
      (refl, refl, refl, omega arith, omega arith, refl, refl) h
channel_id-Agrees _ _ c h = cc

-- Where two peers have a channel, it has the address from the one to the other, and both that
-- address and its reverse have this channel.
pub channel_id-address :
    (l r : Peer) (c : ℕ)
    → channel_id l r ≡ some c
    → (address_for_channel c ≡ some (from_peers l r))
      × (address_channel_id (from_peers l r) ≡ some c)
      × (address_channel_id (from_peers r l) ≡ some c)
channel_id-address l r c h = let (a, b, d, _, _, _, _) = channel_id-Agrees l r c h in (a, b, d)

-- Exactly the channels 18 to 27 have an address.
pub address_for_channel-none : (c : ℕ) → (address_for_channel c ≡ none) ↔ ((c < 18) ⊎ (27 < c))
unfolding address_for_channel
address_for_channel-none c = (λ e. ground arith, λ h. ground arith)

-- The address that a channel has leads back to the channel, and fits 32 bits.
pub address_for_channel-channel :
    (c : ℕ) (a : Address)
    → address_for_channel c ≡ some a
    → (address_channel_id a ≡ some c) × (a.value < 2 ^ 32)
unfolding address_for_channel address_channel_id channel_id from_peers source target from_primitive
    into_u8
address_for_channel-channel c a h = (ground arith, ground arith)

-- The channel of two peers leads back to both of them.
pub channel_id-peers :
    (l r : Peer) (c : ℕ)
    → channel_id l r ≡ some c
    → (a : Address) × (address_for_channel c ≡ some a) × (source a ≡ l) × (target a ≡ r)
channel_id-peers l r c h =
    let (a, _, _, _, _, s, t) = channel_id-Agrees l r c h in (from_peers l r, a, s, t)
