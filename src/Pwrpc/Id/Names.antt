-- ===== src/Pwrpc/Id/Names.antt =====
-- libmaestro/src/pwrpc/id.rs: identifiers that own their name, and references to names and paths.
use pbpctrl.Prelude.{ℕ, ◌≡◌, refl, List}
use pbpctrl.Pwrpc.Id.{RpcPath, service, method, hash_65599}

-- `Id`.
pub record OwnedId : Type 0 where
  pub name : List ℕ

pub record IdRef : Type 0 where
  pub name : List ℕ

-- `Id::new`, which `From<S>` calls, and `IdRef::new`, which the conversions from `str` call.
abbrev pub new_id : List ℕ → OwnedId
new_id name = record { name = name }

abbrev pub new_ref : List ℕ → IdRef
new_ref name = record { name = name }

unfoldable pub id_hash : OwnedId → ℕ
id_hash id = hash_65599 id.name

unfoldable pub ref_hash : IdRef → ℕ
ref_hash id = hash_65599 id.name

unfoldable pub id_as_ref : OwnedId → IdRef
id_as_ref id = record { name = id.name }

-- `From<IdRef> for Id`.
unfoldable pub id_from_ref : IdRef → OwnedId
id_from_ref id = new_id id.name

-- `Path::as_ref`: a PathRef has the fields of a Path.
unfoldable pub path_as_ref : RpcPath → RpcPath
path_as_ref p = record { path = p.path; split = p.split }

unfoldable pub service_id : RpcPath → IdRef
service_id p = new_ref (service p)

unfoldable pub method_id : RpcPath → IdRef
method_id p = new_ref (method p)

-- A reference to an identifier has its hash, and the identifier made from it is the same.
id_as_ref_lem :
    (id : OwnedId) → (ref_hash (id_as_ref id) ≡ id_hash id) × (id_from_ref (id_as_ref id) ≡ id)
unfolding ref_hash id_hash id_as_ref id_from_ref
id_as_ref_lem id = (refl, refl)
