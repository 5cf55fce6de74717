-- ===== src/Hdlc/Varint/Decode.antt =====
-- libmaestro/src/hdlc/varint.rs: `decode` on any input, and `num_bytes`.
use pbpctrl.Prelude.{
  ℕ, zero, suc, ◌+◌, ◌-◌, ◌*◌, ◌/◌, ◌^◌, ◌≤◌, ◌<◌, ◌≡◌, sym, ap, ◌∙◌, bit_or, List, [], ◌∷◌, ◌++◌,
  ltb, if◌then◌else◌, ok, length, IsU32, arith, replicate, Bool-cases, inl, inr,
}
use pbpctrl.Hdlc.Varint.{decode_loop, decode, encode_vec, num_bytes, leading_zeros, shl64}
use pbpctrl.Prelude.Bits.{zero-bit_or}
use native.Mathlib.Nat.{pow-suc, suc-sub-suc, sub-zero, pow-le-pow_right}
use native.Mathlib.Decide.{dec_le}
use pbpctrl.Hdlc.Varint.RoundTrip.{groups, encode_vec-groups}

decode_loop_bounds :
    (src : List ℕ) (i a v n : ℕ)
    → decode_loop src i a ≡ ok (v, n)
    → IsU32 v × (i < n) × (n ≤ i + length src)
unfolding decode_loop
decode_loop_bounds [] i a v n e = ground arith
decode_loop_bounds (b ∷ src) i a v n e =
    ground (arith, decode_loop_bounds src (i + 1) (bit_or a (shl64 (b / 2) (i * 7))) v n)

-- A successful `decode` returns a u32, and takes at least one byte and no more than there are.
pub decode_bounds :
    (src : List ℕ) (v n : ℕ) → decode src ≡ ok (v, n) → IsU32 v × (1 ≤ n) × (n ≤ length src)
unfolding decode
decode_bounds src v n e = ground (arith, decode_loop_bounds src 0 0 v n e)

-- With overflow checks off, an address of ten empty groups and one more, which no u32 needs, is
-- read as if the last group stood at bit 6: the shift by 70 is taken modulo 64.
pub decode_padded :
    (g : ℕ) → g < 128 → decode (replicate 10 0 ++ (g * 2 + 1) ∷ []) ≡ ok (g * 64, 11)
unfolding decode decode_loop
decode_padded g h =
    let half : (g * 2 + 1) / 2 ≡ g = omega arith in
    rw half (ground (arith, zero-bit_or (shl64 g 70)))

-- `width - leading_zeros` is the place of the highest bit.
leading_zeros_bounds :
    (width v : ℕ)
    → v < 2 ^ width
    → (leading_zeros width v ≤ width)
      × (v < 2 ^ (width - leading_zeros width v))
      × (2 ^ (width - leading_zeros width v) ≤ 2 * v + 1)
unfolding leading_zeros
leading_zeros_bounds zero v h = omega arith
leading_zeros_bounds (suc w) v h = elim (Bool-cases (ltb v (2 ^ w))) [
  | inl less ↦
      let (zs, up, lo) = leading_zeros_bounds w v (ground arith) in
      rw less (omega arith, simp suc-sub-suc up, simp suc-sub-suc lo)
  | inr more ↦ rw more (omega arith, simp sub-zero h, simp sub-zero (ground (arith, pow-suc 2 w)))
]

-- A number below 2 ^ l and not below 2 ^ (l - 1) has its highest bit at l.
high_bit : (j l v : ℕ) → v < 2 ^ l → 2 ^ l ≤ 2 * v + 1 → (v < 2 ^ j → l ≤ j) × (2 ^ j ≤ v → j < l)
high_bit j l v up lo = elim (dec_le l j) [
  | yes le ↦ (λ _. le, λ h. absurd (omega (arith, pow-le-pow_right {n = 2} (omega arith) le)))
  | no gt ↦
      let above : suc j ≤ l = omega arith in
      (
        λ h. absurd (omega (arith, pow-suc 2 j, pow-le-pow_right {n = 2} (omega arith) above)),
        λ _. above,
      )
]

abbrev bit_length : ℕ → ℕ
bit_length v = 32 - leading_zeros 32 v

bit_length-high :
    (j v : ℕ) → IsU32 v → (v < 2 ^ j → bit_length v ≤ j) × (2 ^ j ≤ v → j < bit_length v)
bit_length-high j v h =
    let (zs, up, lo) = leading_zeros_bounds 32 v h in high_bit j (bit_length v) v up lo

length-groups_by_size :
    (v : ℕ)
    → IsU32 v
    → length (groups 4 v) ≡ (
        if ltb v (2 ^ 7)
        then 1
        else if ltb v (2 ^ 14)
        then 2
        else if ltb v (2 ^ 21)
        then 3
        else if ltb v (2 ^ 28)
        then 4
        else 5)
unfolding groups
length-groups_by_size v h = ground arith

num_bytes-size :
    (v : ℕ)
    → IsU32 v
    → num_bytes v ≡ (
        if ltb v (2 ^ 7)
        then 1
        else if ltb v (2 ^ 14)
        then 2
        else if ltb v (2 ^ 21)
        then 3
        else if ltb v (2 ^ 28)
        then 4
        else 5)
num_bytes-size v h =
    unfold num_bytes in
    ground (
      arith,
      bit_length-high 0 v h,
      bit_length-high 7 v h,
      bit_length-high 14 v h,
      bit_length-high 21 v h,
      bit_length-high 28 v h,
      bit_length-high 32 v h,
    )

-- `encode` writes exactly as many bytes as `num_bytes` says.
pub length-encode_vec : (v : ℕ) → IsU32 v → length (encode_vec v) ≡ num_bytes v
length-encode_vec v h =
    ap length (encode_vec-groups v h) ∙ length-groups_by_size v h ∙ sym (num_bytes-size v h)
