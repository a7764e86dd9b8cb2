-- ===== src/Tenancy/Namespace.antt =====
-- crates/celtenancy/src/namespace.rs: the names and the paths of tenants.
pub mod Laws
use celium.Prelude.{ℕ, Bool, ◌&&◌, ◌||◌, not, ◌++◌, ltb, leb, eqb, length, all}
use celium.Prelude.Text.{Bytes, text}
use celium.Prelude.Error.{CelResult, ok, invalid, refuse_if, ◌>>=◌, ◌>>◌}

-- `u8::is_ascii_alphanumeric`
abbrev pub is_ascii_alphanumeric : ℕ → Bool
is_ascii_alphanumeric b =
    leb b'0' b && leb b b'9' || leb b'A' b && leb b b'Z' || leb b'a' b && leb b b'z'

abbrev pub is_segment_byte : ℕ → Bool
is_segment_byte b = is_ascii_alphanumeric b || eqb b b'-' || eqb b b'_'

abbrev pub max_segment : ℕ
max_segment = 64

unfoldable pub validate_segment : Bytes → CelResult (Unit {0})
validate_segment s = do
  refuse_if (eqb (length s) 0) (invalid "tenancy: name empty")
  refuse_if (ltb max_segment (length s)) (invalid "tenancy: name longer than 64 bytes")
  refuse_if (not (all is_segment_byte s)) (invalid "tenancy: name must match [A-Za-z0-9_-]+")
  ok tt

-- `TenantNamespace::new(name).root()`
unfoldable pub namespace_root : Bytes → CelResult Bytes
unfolding validate_segment
namespace_root tenant_name = do validate_segment tenant_name; ok (text "/tenants/" ++ tenant_name)

abbrev pub vms : Bytes → Bytes
vms root = root ++ text "/vms"

abbrev pub volumes : Bytes → Bytes
volumes root = root ++ text "/volumes"

abbrev pub networks : Bytes → Bytes
networks root = root ++ text "/networks"

abbrev pub users : Bytes → Bytes
users root = root ++ text "/users"

abbrev pub quotas : Bytes → Bytes
quotas root = root ++ text "/quotas"

unfoldable pub user_path : Bytes → Bytes → CelResult Bytes
unfolding validate_segment
user_path root user_name = do validate_segment user_name; ok (root ++ (text "/users/" ++ user_name))
