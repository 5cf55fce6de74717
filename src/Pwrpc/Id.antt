-- ===== src/Pwrpc/Id.antt =====
-- libmaestro/src/pwrpc/id.rs: identifiers, their hashes, and paths. A `str` is the list of its
-- characters' code points; lengths and positions count bytes of UTF-8, as in the source.
pub mod Hash
pub mod Split
pub mod Names
use pbpctrl.Prelude.{
  ℕ, zero, suc, ◌+◌, ◌-◌, ◌*◌, ◌%◌, ◌^◌, List, [], ◌∷◌, Option, none, some, ltb, ◌==◌,
  if◌then◌else◌,
}

-- `char::len_utf8`.
abbrev pub len_utf8 : ℕ → ℕ
len_utf8 c = if ltb c 0x80 then 1 else if ltb c 0x800 then 2 else if ltb c 0x10000 then 3 else 4

-- `str::len`.
unfoldable pub byte_len : List ℕ → ℕ
byte_len [] = 0
byte_len (c ∷ s) = len_utf8 c + byte_len s

-- `&s[..n]` and `&s[n..]`, at a boundary between two characters.
unfoldable pub slice_to : List ℕ → ℕ → List ℕ
slice_to [] n = []
slice_to (c ∷ s) n = let rest = slice_to s (n - len_utf8 c) in if n == 0 then [] else c ∷ rest

unfoldable pub slice_from : List ℕ → ℕ → List ℕ
slice_from [] n = []
slice_from (c ∷ s) n = let rest = slice_from s (n - len_utf8 c) in if n == 0 then c ∷ s else rest

-- `str::rfind`: the position of the last occurrence.
unfoldable pub rfind : ℕ → List ℕ → Option ℕ
rfind c [] = none
rfind c (x ∷ s) = elim (rfind c s) [
  | some n ↦ some (len_utf8 x + n)
  | none ↦ if x == c then some 0 else none
]

abbrev pub hash_const : ℕ
hash_const = 65599

-- The loop of `hash_65599`, in wrapping arithmetic on u32.
unfoldable pub hash_loop : ℕ → ℕ → List ℕ → ℕ
hash_loop hash coef [] = hash
hash_loop hash coef (chr ∷ s) =
    hash_loop ((hash + coef * chr % 2 ^ 32) % 2 ^ 32) (coef * hash_const % 2 ^ 32) s

unfoldable pub hash_65599 : List ℕ → ℕ
hash_65599 id = hash_loop (byte_len id % 2 ^ 32) hash_const id

pub record RpcPath : Type 0 where
  pub path : List ℕ
  pub split : ℕ

abbrev unwrap_or : Option ℕ → ℕ → ℕ
unwrap_or none d = d
unwrap_or (some n) d = n

-- `Path::new` and `PathRef::new`.
unfoldable pub new_path : List ℕ → RpcPath
new_path path = record { path = path; split = unwrap_or (rfind b'/' path) 0 }

unfoldable pub service : RpcPath → List ℕ
service p = slice_to p.path p.split

unfoldable pub method : RpcPath → List ℕ
method p = if ltb p.split (byte_len p.path) then slice_from p.path (p.split + 1) else []
