-- ===== src/Tenancy/Store/Tokens.antt =====
-- The tokens of crates/celtenancy/src/store.rs, in every state that its writing methods reach.
use celium.Prelude.{ℕ, ◌<◌, ◌≡◌, true, some, List}
use celium.Prelude.Key.{Bytes, nat_key}
use celium.Prelude.Map.{get}
use celium.Prelude.Error.{ok}
use celium.Tenancy.Caps.{contains}
use celium.Tenancy.Auth.{Crypto, Session, hash_token}
use celium.Tenancy.Model.{Tenant, init}
use celium.Tenancy.Sessions.{validate_token}
use celium.Tenancy.Sessions.Laws.{validate_token_within}
use celium.Tenancy.Store.{Call, run, run-IsWellFormed}

-- In every state that calls reach from the empty store, a token that is accepted is the one whose
-- hash its session keeps, the session has not expired, and it carries no capability that the root
-- set of its tenant lacks, if the tenant is there.
pub run-validate_token :
    (c : Crypto) (calls : List Call) (now_ms : ℕ) (token : Bytes) (x : Session)
    → validate_token c now_ms (run c init calls) token ≡ ok x
    → (x.token_hash ≡ hash_token c token)
      × (now_ms < x.expires_ms)
      × ((t : Tenant)
          → get (run c init calls).tenants x.tenant ≡ some t
          → contains t.root_caps x.caps ≡ true)
run-validate_token c calls now_ms token x h =
    validate_token_within c now_ms (run c init calls) token x (run-IsWellFormed c calls) h
