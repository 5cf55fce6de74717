-- ===== src/Hdlc/Varint/RoundTrip.antt =====
-- libmaestro/src/hdlc/varint.rs: what `encode` writes, and that `decode` reads it back.
use pbpctrl.Prelude.{
  ℕ, zero, suc, ◌+◌, ◌*◌, ◌/◌, ◌%◌, ◌^◌, ◌≤◌, ◌<◌, ◌≡◌, refl, sym, ap, ◌∙◌, bit_or, List, [], ◌∷◌,
  ◌++◌, ltb, if◌then◌else◌, ok, length, All, IsByte, IsU32, arith, Bool-cases, inl, inr, all_below,
  eq_below,
}
use pbpctrl.Prelude.Bits.{bit_or_disjoint}
use pbpctrl.Hdlc.Varint.{decode_loop, decode, encode, next, collect, encode_vec, shl64}
use native.Mathlib.Numerals.{towards_suc}
use native.Mathlib.Nat.{div-add-mod}

-- The groups of `v`, for `v` below 128 ^ (k + 1), with the mark on the last.
unfoldable pub groups : ℕ → ℕ → List ℕ
groups zero v = (v * 2 + 1) ∷ []
groups (suc k) v =
    let rest = groups k (v / 128) in if ltb v 128 then (v * 2 + 1) ∷ [] else (v % 128 * 2) ∷ rest

set_low_bit : (g : ℕ) → g < 128 → bit_or (g * 2 % 256) 1 ≡ g * 2 + 1
unfolding all_below
set_low_bit = eq_below 128 _ _ refl

collect-groups :
    (j k v : ℕ) → v < 128 ^ suc j → j ≤ k → collect (suc (suc k)) (encode v) ≡ groups j v
unfolding collect next groups
collect-groups zero k v h le = ground (arith, set_low_bit v)
collect-groups (suc j) zero v h le = absurd (omega arith)
collect-groups (suc j) (suc k) v h le = ground (arith, set_low_bit v, collect-groups j k (v / 128))

shift_seven : (i : ℕ) → 2 ^ ((i + 1) * 7) ≡ 128 * 2 ^ (i * 7)
shift_seven i =
    let seven_more : (i + 1) * 7 ≡ i * 7 + 7 = omega arith in
    rw seven_more (simp towards_suc (omega arith))

-- The lowest group of `w` and the rest of it, both in their place.
split_groups : (w i : ℕ) → w * 2 ^ (i * 7) ≡ w % 128 * 2 ^ (i * 7) + w / 128 * 2 ^ ((i + 1) * 7)
split_groups w i = omega (
  arith,
  ap (λ (t : ℕ). t * 2 ^ (i * 7)) (div-add-mod w 128),
  ap (λ (t : ℕ). w / 128 * t) (shift_seven i),
)

group_shift : (g i : ℕ) → i < 5 → g * 2 ^ (i * 7) < 2 ^ 64 → shl64 g (i * 7) ≡ g * 2 ^ (i * 7)
group_shift g i hi h = let small : i * 7 % 64 ≡ i * 7 = omega arith in rw small (omega arith)

-- A group joins the bits below it.
join_group :
    (a g i : ℕ)
    → i < 5
    → a < 2 ^ (i * 7)
    → g * 2 ^ (i * 7) < 2 ^ 64
    → bit_or a (shl64 g (i * 7)) ≡ a + g * 2 ^ (i * 7)
join_group a g i hi ha hg =
    ap (λ t. bit_or a t) (group_shift g i hi hg) ∙ bit_or_disjoint (i * 7) a g ha

last_group :
    (w i a : ℕ) (rest : List ℕ)
    → i < 5
    → a < 2 ^ (i * 7)
    → w < 128
    → a + w * 2 ^ (i * 7) < 2 ^ 32
    → decode_loop ((w * 2 + 1) ∷ rest) i a ≡ ok (a + w * 2 ^ (i * 7), i + 1)
unfolding decode_loop
last_group w i a rest hi ha hw fits =
    let half : (w * 2 + 1) / 2 ≡ w = omega arith in
    rw (half, join_group a w i hi ha (omega arith)) (ground arith)

inner_group :
    (g i a : ℕ) (rest : List ℕ)
    → i < 5
    → a < 2 ^ (i * 7)
    → a + g * 2 ^ (i * 7) < 2 ^ 32
    → decode_loop ((g * 2) ∷ rest) i a ≡ decode_loop rest (i + 1) (a + g * 2 ^ (i * 7))
unfolding decode_loop
inner_group g i a rest hi ha fits =
    let half : g * 2 / 2 ≡ g = omega arith in
    rw (half, join_group a g i hi ha (omega arith)) (ground arith)

-- `w` is what is still to be read, and it counts from bit 7 * i on.
decode_loop-groups :
    (k w i a : ℕ) (rest : List ℕ)
    → w < 128 ^ suc k
    → i + k < 5
    → a < 2 ^ (i * 7)
    → a + w * 2 ^ (i * 7) < 2 ^ 32
    → decode_loop (groups k w ++ rest) i a ≡ ok (a + w * 2 ^ (i * 7), i + length (groups k w))
unfolding groups
decode_loop-groups zero w i a rest hw hk ha fits =
    last_group w i a rest (omega arith) ha (omega arith) fits
decode_loop-groups (suc k) w i a rest hw hk ha fits = elim (Bool-cases (ltb w 128)) [
  | inl small ↦ rw small (last_group w i a rest (omega arith) ha (ground arith) fits)
  | inr large ↦
      let i5 : i < 5 = omega arith in
      let low : a + w % 128 * 2 ^ (i * 7) < 2 ^ ((i + 1) * 7) = grind (arith, shift_seven i) in
      rw large (
        inner_group (w % 128) i a (groups k (w / 128) ++ rest) i5 ha
          (omega (arith, split_groups w i))
        ∙ decode_loop-groups k (w / 128) (i + 1) (a + w % 128 * 2 ^ (i * 7)) rest (omega arith)
            (omega arith) low (omega (arith, split_groups w i))
        ∙ ground (arith, split_groups w i))
]

pub encode_vec-groups : (v : ℕ) → IsU32 v → encode_vec v ≡ groups 4 v
unfolding encode_vec
encode_vec-groups v h = collect-groups 4 4 v (omega arith) (omega arith)

-- `decode` returns the u32 address that `encode` wrote and the number of bytes it took, whatever
-- follows.
pub decode-encode_vec :
    (v : ℕ) (rest : List ℕ)
    → IsU32 v
    → decode (encode_vec v ++ rest) ≡ ok (v, length (encode_vec v))
unfolding decode
decode-encode_vec v rest h = rw (encode_vec-groups v h) (
    decode_loop-groups 4 v 0 0 rest (omega arith) (omega arith) (omega arith) (omega arith)
    ∙ ground arith)

-- Calls of `next` beyond the sixth yield no further byte.
pub collect_enough :
    (rounds v : ℕ) → IsU32 v → 6 ≤ rounds → collect rounds (encode v) ≡ encode_vec v
collect_enough zero v h le = absurd (omega arith)
collect_enough (suc zero) v h le = absurd (omega arith)
collect_enough (suc (suc k)) v h le =
    collect-groups 4 k v (omega arith) (omega arith) ∙ sym (encode_vec-groups v h)

groups-IsByte : (k v : ℕ) → v < 128 ^ suc k → All IsByte (groups k v)
unfolding groups
groups-IsByte zero v h = omega arith
groups-IsByte (suc k) v h = ground (arith, groups-IsByte k (v / 128))

length-groups : (k v : ℕ) → (1 ≤ length (groups k v)) × (length (groups k v) ≤ suc k)
unfolding groups
length-groups zero v = omega arith
length-groups (suc k) v = ground (arith, length-groups k (v / 128))

-- Every address is written as one to five bytes.
pub encode_vec_shape :
    (v : ℕ)
    → IsU32 v
    → All IsByte (encode_vec v) × (1 ≤ length (encode_vec v)) × (length (encode_vec v) ≤ 5)
encode_vec_shape v h =
    let (lo, hi) = length-groups 4 v in
    rw (encode_vec-groups v h) (groups-IsByte 4 v (omega arith), lo, hi)
