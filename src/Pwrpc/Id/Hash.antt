-- ===== src/Pwrpc/Id/Hash.antt =====
-- libmaestro/src/pwrpc/id.rs: the hash as a sum of powers.
use pbpctrl.Prelude.{ℕ, ◌+◌, ◌*◌, ◌/◌, ◌%◌, ◌^◌, ◌≡◌, sym, ap, ap₂, ◌∙◌, List, [], ◌∷◌, arith}
use pbpctrl.Pwrpc.Id.{byte_len, hash_const, hash_loop, hash_65599}
use native.Mathlib.Nat.{div-add-mod, mul-add-mod_self_left}

-- The characters with the powers of the constant, from the given one on.
unfoldable pub weighted : ℕ → List ℕ → ℕ
weighted coef [] = 0
weighted coef (c ∷ s) = coef * c + weighted (coef * hash_const) s

-- A factor may be reduced before multiplying.
mul_mod : (m k c : ℕ) → k % m * c % m ≡ k * c % m
mul_mod m k c =
    let split : m * (k / m * c) + k % m * c ≡ k * c =
      omega (arith, ap (λ t. t * c) (div-add-mod k m)) in
    sym (mul-add-mod_self_left m (k / m * c) (k % m * c)) ∙ ap (λ t. t % m) split

hash_loop-weighted :
    (h k : ℕ) (s : List ℕ) → hash_loop (h % 2 ^ 32) (k % 2 ^ 32) s ≡ (h + weighted k s) % 2 ^ 32
unfolding hash_loop weighted
hash_loop-weighted h k [] = omega arith
hash_loop-weighted h k (c ∷ s) =
    let sum : (h % 2 ^ 32 + k % 2 ^ 32 * c % 2 ^ 32) % 2 ^ 32 ≡ (h + k * c) % 2 ^ 32 =
      omega (arith, mul_mod (2 ^ 32) k c) in
    let coef : k % 2 ^ 32 * hash_const % 2 ^ 32 ≡ k * hash_const % 2 ^ 32 =
      mul_mod (2 ^ 32) k hash_const in
    let rest = hash_loop-weighted (h + k * c) (k * hash_const) s in
    ap₂ (λ a b. hash_loop a b s) sum coef ∙ rest ∙ ap (λ t. t % 2 ^ 32) (omega arith)

-- The hash of an identifier is, modulo 2 ^ 32, its length in bytes and the sum of its characters,
-- each times the power of 65599 by its place, counted from one.
pub hash_65599-weighted :
    (id : List ℕ) → hash_65599 id ≡ (byte_len id + weighted hash_const id) % 2 ^ 32
unfolding hash_65599
hash_65599-weighted id = hash_loop-weighted (byte_len id) hash_const id
