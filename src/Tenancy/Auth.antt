-- ===== src/Tenancy/Auth.antt =====
-- crates/celtenancy/src/auth.rs: password hashes, session tokens and sessions. Argon2 and SHA-256
-- are parameters; a salt, the random bytes of a token and the time are arguments.
use celium.Prelude.{
  ℕ, ◌*◌, ◌/◌, ◌%◌, ◌+◌, ◌-◌, Bool, true, not, ◌&&◌, ◌||◌, Option, some, List, [], ◌∷◌, ltb, leb,
  eqb, length, all, map, ◌≡◌, if◌then◌else◌,
}
use celium.Prelude.Text.{Bytes}
use celium.Prelude.Error.{
  CelResult, ok, err, invalid, internal, capability_denied, refuse_if, ok_or, ◌>>◌,
}
use celium.Tenancy.Caps.{TenantCaps}

-- What the crates argon2 and sha2 compute.
pub record Crypto : Type 0 where
  -- The PHC string of a password under a salt; `none` where the crate fails.
  pub argon2_hash : Bytes → Bytes → Option Bytes
  -- Whether a password matches a stored string; a malformed string matches none.
  pub argon2_verify : Bytes → Bytes → Bool
  pub sha256 : Bytes → Bytes

-- Argon2 verifies the password that it has hashed.
abbrev pub Verifies : Crypto → Type 0
Verifies c =
    (plain salt phc : Bytes)
    → c.argon2_hash plain salt ≡ some phc
    → c.argon2_verify plain phc ≡ true

unfoldable pub hash_password : Crypto → Bytes → Bytes → CelResult Bytes
hash_password c salt plain = do
  refuse_if (eqb (length plain) 0) (invalid "password must not be empty")
  ok_or (c.argon2_hash plain salt) (internal "argon2 hash_password failed")

unfoldable pub verify_password : Crypto → Bytes → Bytes → CelResult (Unit {0})
verify_password c plain stored =
    if c.argon2_verify plain stored then ok tt else err (capability_denied "auth.credentials")

abbrev pub token_bytes : ℕ
token_bytes = 32

abbrev pub token_hex_len : ℕ
token_hex_len = token_bytes * 2

abbrev pub is_ascii_hexdigit : ℕ → Bool
is_ascii_hexdigit b =
    leb b'0' b && leb b b'9' || leb b'A' b && leb b b'F' || leb b'a' b && leb b b'f'

abbrev pub to_ascii_lowercase : ℕ → ℕ
to_ascii_lowercase b = if leb b'A' b && leb b b'Z' then b + 32 else b

-- `SessionToken::from_hex`
unfoldable pub from_hex : Bytes → CelResult Bytes
from_hex s = do
  refuse_if (not (eqb (length s) token_hex_len) || not (all is_ascii_hexdigit s))
      (invalid "token format")
  ok (map to_ascii_lowercase s)

-- `HEX[n]`
abbrev pub hex_digit : ℕ → ℕ
hex_digit n = if ltb n 10 then b'0' + n else b'a' + (n - 10)

-- The token that `mint_token` renders from its random bytes.
unfoldable pub render_token : List ℕ → Bytes
render_token [] = []
render_token (byte ∷ raw) = hex_digit (byte / 16) ∷ hex_digit (byte % 16) ∷ render_token raw

unfoldable pub hash_token : Crypto → Bytes → Bytes
hash_token c token = c.sha256 token

unfoldable pub mint_token : Crypto → List ℕ → Bytes × Bytes
mint_token c raw = let token = render_token raw in (token, hash_token c token)

abbrev pub default_session_ttl_secs : ℕ
default_session_ttl_secs = 12 * 60 * 60

pub record Session : Type 0 where
  pub token_hash : Bytes
  pub tenant : ℕ
  pub user : ℕ
  pub user_name : Bytes
  pub caps : TenantCaps
  pub created_ms : ℕ
  pub expires_ms : ℕ

abbrev pub is_expired_at : Session → ℕ → Bool
is_expired_at s now_ms = leb s.expires_ms now_ms
