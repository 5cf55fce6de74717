-- ===== src/Pwrpc/Utils.antt =====
-- libmaestro/src/pwrpc/utils.rs: EncodedMessage, a message that is its own encoding.
use pbpctrl.Prelude.{ℕ, ◌≡◌, refl, List, [], ◌++◌, length}

pub record EncodedMessage : Type 0 where
  pub payload : List ℕ

-- `buf` is what was written before.
abbrev pub encode_raw : EncodedMessage → List ℕ → List ℕ
encode_raw m buf = buf ++ m.payload

-- The message is lengthened by the whole of `buf`.
abbrev pub merge : EncodedMessage → List ℕ → EncodedMessage
merge m buf = record { payload = m.payload ++ buf }

abbrev pub encoded_size : EncodedMessage → ℕ
encoded_size m = length m.payload

abbrev pub clear : EncodedMessage → EncodedMessage
clear m = record { payload = [] }

-- A cleared message that takes in an encoded one is that message.
merge-encode_raw : (m n : EncodedMessage) → merge (clear m) (encode_raw n []) ≡ n
merge-encode_raw m n = refl
