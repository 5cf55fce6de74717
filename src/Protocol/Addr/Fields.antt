-- ===== src/Protocol/Addr/Fields.antt =====
-- libmaestro/src/protocol/addr.rs: the two fields of an address.
use pbpctrl.Prelude.{
  ℕ, ◌+◌, ◌*◌, ◌/◌, ◌%◌, ◌^◌, ◌<◌, ◌≡◌, refl, ap, ap₂, ◌∙◌, arith, all_below, eq_below,
}
use pbpctrl.Prelude.Bits.{bit_or_disjoint}
use pbpctrl.Protocol.Addr.{Peer, from_primitive, into_u8, Address, from_peers, source, target, swap}

-- Four bits name every peer but the unrecognized ones from 16 on.
into_u8-from_primitive : (n : ℕ) → n < 16 → into_u8 (from_primitive n) ≡ n
unfolding all_below into_u8 from_primitive
into_u8-from_primitive = eq_below 16 _ _ refl

from_peers-value :
    (s t : Peer) → (from_peers s t).value ≡ into_u8 s % 16 * 2 ^ 6 + into_u8 t % 16 * 2 ^ 10
unfolding from_peers
from_peers-value s t = bit_or_disjoint 10 (into_u8 s % 16 * 2 ^ 6) (into_u8 t % 16) (omega arith)

-- A peer that its number gives back.
abbrev pub IsNamed : Peer → Type 0
IsNamed p = (into_u8 p < 16) × (from_primitive (into_u8 p) ≡ p)

-- An address made from two peers has them as its source and target.
pub from_peers-fields :
    (s t : Peer)
    → IsNamed s
    → IsNamed t
    → (source (from_peers s t) ≡ s) × (target (from_peers s t) ≡ t)
unfolding source target
from_peers-fields s t (s16, hs) (t16, ht) =
    let v = from_peers-value s t in
    (ap from_primitive (omega (arith, v)) ∙ hs, ap from_primitive (omega (arith, v)) ∙ ht)

source-IsNamed : (a : Address) → IsNamed (source a)
unfolding source
source-IsNamed a =
    let e = into_u8-from_primitive (a.value / 2 ^ 6 % 16) (omega arith) in
    (omega (arith, e), ap from_primitive e)

target-IsNamed : (a : Address) → IsNamed (target a)
unfolding target
target-IsNamed a =
    let e = into_u8-from_primitive (a.value / 2 ^ 10 % 16) (omega arith) in
    (omega (arith, e), ap from_primitive e)

-- `swap` exchanges source and target of every address, and swapping twice gives the address of
-- the same source and target back, without the bits outside the two fields.
pub swap-fields :
    (a : Address)
    → (source (swap a) ≡ target a)
      × (target (swap a) ≡ source a)
      × ((swap (swap a)).value ≡ a.value / 64 % 256 * 64)
unfolding swap
swap-fields a =
    let (s, t) = from_peers-fields (target a) (source a) (target-IsNamed a) (source-IsNamed a) in
    (
      s,
      t,
      ap₂ (λ x y. (from_peers x y).value) t s
          ∙ from_peers-value (source a) (target a)
          ∙ unfold source target in
            omega (
              arith,
              into_u8-from_primitive (a.value / 2 ^ 6 % 16) (omega arith),
              into_u8-from_primitive (a.value / 2 ^ 10 % 16) (omega arith),
            ),
    )
