-- ===== src/Pwrpc/Id/Split.antt =====
-- libmaestro/src/pwrpc/id.rs: where a path is split.
use pbpctrl.Prelude.{
  ℕ, ◌+◌, ◌-◌, ◌<◌, ◌≡◌, refl, List, [], ◌∷◌, ◌++◌, none, some, ◌==◌, ltb, false, true, All, arith,
}
use pbpctrl.Pwrpc.Id.{byte_len, len_utf8, slice_to, slice_from, rfind, new_path, service, method}

rfind-none : (m : List ℕ) → All (λ c. (c == b'/') ≡ false) m → rfind b'/' m ≡ none
unfolding rfind
rfind-none [] h = refl
rfind-none (c ∷ m) h = rw (rfind-none m h.1, h.0)

rfind-last :
    (s m : List ℕ)
    → All (λ c. (c == b'/') ≡ false) m
    → rfind b'/' (s ++ b'/' ∷ m) ≡ some (byte_len s)
unfolding rfind byte_len
rfind-last [] m h = rw (rfind-none m h)
rfind-last (c ∷ s) m h = rw (rfind-last s m h)

len_utf8-positive : (c : ℕ) → 0 < len_utf8 c
len_utf8-positive c = ground arith

slice_to-byte_len : (s t : List ℕ) → slice_to (s ++ t) (byte_len s) ≡ s
unfolding slice_to byte_len
slice_to-byte_len [] [] = refl
slice_to-byte_len [] (c ∷ t) = refl
slice_to-byte_len (c ∷ s) t =
    let more : (len_utf8 c + byte_len s == 0) ≡ false = ground (arith, len_utf8-positive c) in
    let skip : len_utf8 c + byte_len s - len_utf8 c ≡ byte_len s = omega arith in
    rw (more, skip, slice_to-byte_len s t)

slice_from-byte_len : (s t : List ℕ) → slice_from (s ++ b'/' ∷ t) (byte_len s + 1) ≡ t
unfolding slice_from byte_len
slice_from-byte_len [] [] = refl
slice_from-byte_len [] (c ∷ t) = refl
slice_from-byte_len (c ∷ s) t =
    let more : (len_utf8 c + byte_len s + 1 == 0) ≡ false = ground arith in
    let skip : len_utf8 c + byte_len s + 1 - len_utf8 c ≡ byte_len s + 1 = omega arith in
    rw (more, skip, slice_from-byte_len s t)

byte_len-before : (s t : List ℕ) → byte_len s < byte_len (s ++ b'/' ∷ t)
unfolding byte_len
byte_len-before [] t = omega arith
byte_len-before (c ∷ s) t = omega (arith, byte_len-before s t)

-- A path is split at its last slash: the service is all before it, the method all behind it.
pub new_path-split :
    (s m : List ℕ)
    → All (λ c. (c == b'/') ≡ false) m
    → (service (new_path (s ++ b'/' ∷ m)) ≡ s) × (method (new_path (s ++ b'/' ∷ m)) ≡ m)
unfolding service method new_path
new_path-split s m h =
    let inside : ltb (byte_len s) (byte_len (s ++ b'/' ∷ m)) ≡ true =
      ground (arith, byte_len-before s m) in
    rw (rfind-last s m h, inside) (slice_to-byte_len s (b'/' ∷ m), slice_from-byte_len s m)

slice_from-zero : (s : List ℕ) → slice_from s 0 ≡ s
unfolding slice_from
slice_from-zero [] = refl
slice_from-zero (c ∷ s) = refl

-- Without a slash, the service of a path is empty and its method lacks the first character, where
-- that is ASCII.
pub new_path-no_slash :
    (c : ℕ) (s : List ℕ)
    → c < 128
    → All (λ x. (x == b'/') ≡ false) (c ∷ s)
    → (service (new_path (c ∷ s)) ≡ []) × (method (new_path (c ∷ s)) ≡ s)
unfolding service method new_path slice_to slice_from byte_len
new_path-no_slash c s ascii h =
    let one : len_utf8 c ≡ 1 = ground arith in
    let inside : ltb 0 (1 + byte_len s) ≡ true = ground arith in
    rw (rfind-none (c ∷ s) h, one, inside) (refl, slice_from-zero s)
