-- ===== src/Tenancy/Examples.antt =====
-- Runs of the tenant store of crates/celtenancy on a small company: a tenant, its subtenant and two
-- users.
use celium.Prelude.{ℕ, ◌≡◌, refl, false, none, some, List, [], ◌∷◌, ◌++◌, arith}
use celium.Prelude.Key.{Bytes, bytes_eq, bytes_lt, bytes_key, nat_key}
use celium.Prelude.Map.{empty, values, len, items, get, insert, remove}
use celium.Prelude.Map.Assoc.{adjust, seconds, lookup, place, without}
use celium.Prelude.Error.{ok, err}
use celium.Prelude.Text.{text}
use celium.Tenancy.Quota.{TenantQuotas, QuotaUsage, no_usage, QuotaCharge, charge_quota, charged}
use celium.Tenancy.Caps.{from_bits_truncate, contains, attenuate, narrow}
use celium.Tenancy.Namespace.{validate_segment, namespace_root, user_path}
use celium.Tenancy.Auth.{
  Crypto, hash_password, verify_password, from_hex, render_token, hash_token, mint_token, Session,
}
use celium.Tenancy.Model.{User, Tenant, StoreState, init, DeleteReport, RotateReport}
use celium.Tenancy.Tenants.{
  parent_checks, create_checks, create_commit, create, create_subtenant, delete, delete_checks,
  add_user_checks, add_user,
}
use celium.Tenancy.Charging.{
  chain_loop, chain_from, validate_chain, charge_one, apply_chain, charge_checks, charge,
}
use celium.Tenancy.Sessions.{
  update_user, set_password_checks, set_password, authenticate, session_user, create_session,
  find_session, validate_token, revoke_token, purge_expired_sessions, denied, find_user,
}
use celium.Tenancy.Admin.{
  rotate_parent_check, rotate_checks, count_narrowed, rotate_root_caps, walk_each, walk,
  validate_subtree, delete_each, subtree_checks, delete_tenant_recursive,
}
use celium.Tenancy.Sessions.Passwords.{find_name}
use celium.Tenancy.Invariant.{IsWellFormed}
use celium.Tenancy.Store.{Call, step, run, run-IsWellFormed, run_from-IsWellFormed}
use celium.Tenancy.Store

abbrev pub quotas : TenantQuotas
quotas = record {
  max_vcpus = 8;
  max_memory_mib = 4096;
  max_storage_bytes = 1000;
  max_network_mbps = 100;
  max_iops = 50;
}

-- A hash that keeps the password, which is enough to run the code.
abbrev pub plain_crypto : Crypto
plain_crypto = record {
  argon2_hash = λ plain salt. some plain;
  argon2_verify = λ plain phc. bytes_eq plain phc;
  sha256 = λ token. token;
}

abbrev pub setup : List Call
setup =
    Store.create (record { name = text "acme"; quotas = quotas; parent = none }) 0x7
    ∷ Store.create_subtenant 1 (record { name = text "lab"; quotas = quotas; parent = none }) 0x3
    ∷ Store.add_user 1 (text "ann") 0x5
    ∷ Store.add_user 2 (text "bob") 0x3
    ∷ []

abbrev pub company : StoreState
company = run plain_crypto init setup

abbrev pub load : QuotaCharge
load = record { vcpus = 2; memory_mib = 10; storage_bytes = 100; network_mbps = 1; iops = 5 }

pub company-IsWellFormed : IsWellFormed company
company-IsWellFormed = run-IsWellFormed plain_crypto setup

abbrev pub ann : User
ann = record { id = 1; name = text "ann"; caps = 0x5; password_hash = none }

abbrev pub bob : User
bob = record { id = 2; name = text "bob"; caps = 0x3; password_hash = none }

abbrev pub acme : Tenant
acme = record {
  id = 1;
  name = text "acme";
  namespace = text "/tenants/acme";
  root_caps = 0x7;
  users = ann ∷ [];
  quotas = quotas;
  usage = no_usage;
  parent = none;
}

abbrev pub lab : Tenant
lab = record {
  id = 2;
  name = text "lab";
  namespace = text "/tenants/lab";
  root_caps = 0x3;
  users = bob ∷ [];
  quotas = quotas;
  usage = no_usage;
  parent = some 1;
}

pub acme_lives : get company.tenants 1 ≡ some acme
unfolding run step create create_subtenant create_commit create_checks parent_checks
    validate_segment namespace_root add_user add_user_checks attenuate contains from_bits_truncate
    narrow chain_from chain_loop get insert remove values lookup place without seconds empty
    bytes_eq bytes_lt charge charge_checks validate_chain charge_one apply_chain charge_quota
    delete_tenant_recursive subtree_checks walk walk_each validate_subtree delete_each len items
    adjust create_session session_user update_user find_session validate_token mint_token hash_token
    render_token set_password set_password_checks hash_password authenticate verify_password
    rotate_root_caps rotate_checks rotate_parent_check count_narrowed user_path from_hex
    purge_expired_sessions revoke_token
acme_lives = refl

pub lab_lives : get company.tenants 2 ≡ some lab
unfolding run step create create_subtenant create_commit create_checks parent_checks
    validate_segment namespace_root add_user add_user_checks attenuate contains from_bits_truncate
    narrow chain_from chain_loop get insert remove values lookup place without seconds empty
    bytes_eq bytes_lt charge charge_checks validate_chain charge_one apply_chain charge_quota
    delete_tenant_recursive subtree_checks walk walk_each validate_subtree delete_each len items
    adjust create_session session_user update_user find_session validate_token mint_token hash_token
    render_token set_password set_password_checks hash_password authenticate verify_password
    rotate_root_caps rotate_checks rotate_parent_check count_narrowed user_path from_hex
    purge_expired_sessions revoke_token
lab_lives = refl

pub chain_runs : chain_from company 2 ≡ ok (2 ∷ 1 ∷ [])
unfolding run step create create_subtenant create_commit create_checks parent_checks
    validate_segment namespace_root add_user add_user_checks attenuate contains from_bits_truncate
    narrow chain_from chain_loop get insert remove values lookup place without seconds empty
    bytes_eq bytes_lt charge charge_checks validate_chain charge_one apply_chain charge_quota
    delete_tenant_recursive subtree_checks walk walk_each validate_subtree delete_each len items
    adjust create_session session_user update_user find_session validate_token mint_token hash_token
    render_token set_password set_password_checks hash_password authenticate verify_password
    rotate_root_caps rotate_checks rotate_parent_check count_narrowed user_path from_hex
    purge_expired_sessions revoke_token
chain_runs = refl

abbrev pub loaded : StoreState
loaded = (charge company 2 load).0

abbrev pub load_usage : QuotaUsage
load_usage = charged no_usage load

pub charge_runs : charge company 2 load ≡ (loaded, ok load_usage)
unfolding run step create create_subtenant create_commit create_checks parent_checks
    validate_segment namespace_root add_user add_user_checks attenuate contains from_bits_truncate
    narrow chain_from chain_loop get insert remove values lookup place without seconds empty
    bytes_eq bytes_lt charge charge_checks validate_chain charge_one apply_chain charge_quota
    delete_tenant_recursive subtree_checks walk walk_each validate_subtree delete_each len items
    adjust create_session session_user update_user find_session validate_token mint_token hash_token
    render_token set_password set_password_checks hash_password authenticate verify_password
    rotate_root_caps rotate_checks rotate_parent_check count_narrowed user_path from_hex
    purge_expired_sessions revoke_token
charge_runs = refl

pub company_usage : (k : ℕ) (t : Tenant) → get company.tenants k ≡ some t → t.usage ≡ no_usage
unfolding run step create create_subtenant create_commit create_checks parent_checks
    validate_segment namespace_root add_user add_user_checks attenuate contains from_bits_truncate
    narrow chain_from chain_loop get insert remove values lookup place without seconds empty
    bytes_eq bytes_lt charge charge_checks validate_chain charge_one apply_chain charge_quota
    delete_tenant_recursive subtree_checks walk walk_each validate_subtree delete_each len items
    adjust create_session session_user update_user find_session validate_token mint_token hash_token
    render_token set_password set_password_checks hash_password authenticate verify_password
    rotate_root_caps rotate_checks rotate_parent_check count_narrowed user_path from_hex
    purge_expired_sessions revoke_token
company_usage = λ k t e. ground (arith, e)

abbrev pub closed : StoreState
closed = (delete_tenant_recursive company 1).0

abbrev pub closing : DeleteReport
closing = record {
  deleted_tenants = (2, text "lab") ∷ (1, text "acme") ∷ [];
  revoked_sessions = 0;
  dropped_users = 2;
}

pub delete_tenant_recursive_runs : delete_tenant_recursive company 1 ≡ (closed, ok closing)
unfolding run step create create_subtenant create_commit create_checks parent_checks
    validate_segment namespace_root add_user add_user_checks attenuate contains from_bits_truncate
    narrow chain_from chain_loop get insert remove values lookup place without seconds empty
    bytes_eq bytes_lt charge charge_checks validate_chain charge_one apply_chain charge_quota
    delete_tenant_recursive subtree_checks walk walk_each validate_subtree delete_each len items
    adjust create_session session_user update_user find_session validate_token mint_token hash_token
    render_token set_password set_password_checks hash_password authenticate verify_password
    rotate_root_caps rotate_checks rotate_parent_check count_narrowed user_path from_hex
    purge_expired_sessions revoke_token
delete_tenant_recursive_runs = refl

abbrev pub login : List Call
login = Store.create_session (1 ∷ 2 ∷ []) 1000 1 1 0x7 none ∷ []

abbrev pub online : StoreState
online = run plain_crypto company login

abbrev pub token : Bytes
token = text "0102"

abbrev pub session : Session
session = record {
  token_hash = token;
  tenant = 1;
  user = 1;
  user_name = text "ann";
  caps = 0x5;
  created_ms = 1000;
  expires_ms = 43201000;
}

pub online-IsWellFormed : IsWellFormed online
online-IsWellFormed = run_from-IsWellFormed plain_crypto company login company-IsWellFormed

pub create_session_runs :
    create_session plain_crypto (1 ∷ 2 ∷ []) 1000 company 1 1 0x7 none
    ≡ (online, ok (token, session))
unfolding run step create create_subtenant create_commit create_checks parent_checks
    validate_segment namespace_root add_user add_user_checks attenuate contains from_bits_truncate
    narrow chain_from chain_loop get insert remove values lookup place without seconds empty
    bytes_eq bytes_lt charge charge_checks validate_chain charge_one apply_chain charge_quota
    delete_tenant_recursive subtree_checks walk walk_each validate_subtree delete_each len items
    adjust create_session session_user update_user find_session validate_token mint_token hash_token
    render_token set_password set_password_checks hash_password authenticate verify_password
    rotate_root_caps rotate_checks rotate_parent_check count_narrowed user_path from_hex
    purge_expired_sessions revoke_token
create_session_runs = refl

pub validate_token_runs : validate_token plain_crypto 2000 online token ≡ ok session
unfolding run step create create_subtenant create_commit create_checks parent_checks
    validate_segment namespace_root add_user add_user_checks attenuate contains from_bits_truncate
    narrow chain_from chain_loop get insert remove values lookup place without seconds empty
    bytes_eq bytes_lt charge charge_checks validate_chain charge_one apply_chain charge_quota
    delete_tenant_recursive subtree_checks walk walk_each validate_subtree delete_each len items
    adjust create_session session_user update_user find_session validate_token mint_token hash_token
    render_token set_password set_password_checks hash_password authenticate verify_password
    rotate_root_caps rotate_checks rotate_parent_check count_narrowed user_path from_hex
    purge_expired_sessions revoke_token
validate_token_runs = refl

abbrev pub logged_in : List Call
logged_in = setup ++ login

pub logged_in_runs :
    validate_token plain_crypto 2000 (run plain_crypto init logged_in) token ≡ ok session
unfolding run step create create_subtenant create_commit create_checks parent_checks
    validate_segment namespace_root add_user add_user_checks attenuate contains from_bits_truncate
    narrow chain_from chain_loop get insert remove values lookup place without seconds empty
    bytes_eq bytes_lt charge charge_checks validate_chain charge_one apply_chain charge_quota
    delete_tenant_recursive subtree_checks walk walk_each validate_subtree delete_each len items
    adjust create_session session_user update_user find_session validate_token mint_token hash_token
    render_token set_password set_password_checks hash_password authenticate verify_password
    rotate_root_caps rotate_checks rotate_parent_check count_narrowed user_path from_hex
    purge_expired_sessions revoke_token
logged_in_runs = refl

-- The company without the subtenant, and then without the tenant of the session.
abbrev pub alone : StoreState
alone = (delete online 2).0

abbrev pub deserted : StoreState
deserted = (delete alone 1).0

pub delete-alone_runs : delete alone 1 ≡ (deserted, ok tt)
unfolding run step create create_subtenant create_commit create_checks parent_checks
    validate_segment namespace_root add_user add_user_checks attenuate contains from_bits_truncate
    narrow chain_from chain_loop get insert remove values lookup place without seconds empty
    bytes_eq bytes_lt charge charge_checks validate_chain charge_one apply_chain charge_quota
    delete_tenant_recursive subtree_checks walk walk_each validate_subtree delete_each len items
    adjust create_session session_user update_user find_session validate_token mint_token hash_token
    render_token set_password set_password_checks hash_password authenticate verify_password
    rotate_root_caps rotate_checks rotate_parent_check count_narrowed user_path from_hex
    purge_expired_sessions revoke_token delete delete_checks
delete-alone_runs = refl

pub validate_token-alone : validate_token plain_crypto 2000 alone token ≡ ok session
unfolding run step create create_subtenant create_commit create_checks parent_checks
    validate_segment namespace_root add_user add_user_checks attenuate contains from_bits_truncate
    narrow chain_from chain_loop get insert remove values lookup place without seconds empty
    bytes_eq bytes_lt charge charge_checks validate_chain charge_one apply_chain charge_quota
    delete_tenant_recursive subtree_checks walk walk_each validate_subtree delete_each len items
    adjust create_session session_user update_user find_session validate_token mint_token hash_token
    render_token set_password set_password_checks hash_password authenticate verify_password
    rotate_root_caps rotate_checks rotate_parent_check count_narrowed user_path from_hex
    purge_expired_sessions revoke_token delete delete_checks
validate_token-alone = refl

pub acme_online : get online.tenants 1 ≡ some acme
unfolding run step create create_subtenant create_commit create_checks parent_checks
    validate_segment namespace_root add_user add_user_checks attenuate contains from_bits_truncate
    narrow chain_from chain_loop get insert remove values lookup place without seconds empty
    bytes_eq bytes_lt charge charge_checks validate_chain charge_one apply_chain charge_quota
    delete_tenant_recursive subtree_checks walk walk_each validate_subtree delete_each len items
    adjust create_session session_user update_user find_session validate_token mint_token hash_token
    render_token set_password set_password_checks hash_password authenticate verify_password
    rotate_root_caps rotate_checks rotate_parent_check count_narrowed user_path from_hex
    purge_expired_sessions revoke_token
acme_online = refl

abbrev pub keyed : StoreState
keyed = (set_password plain_crypto [] company 1 1 (text "secret")).0

pub set_password_runs : set_password plain_crypto [] company 1 1 (text "secret") ≡ (keyed, ok tt)
unfolding run step create create_subtenant create_commit create_checks parent_checks
    validate_segment namespace_root add_user add_user_checks attenuate contains from_bits_truncate
    narrow chain_from chain_loop get insert remove values lookup place without seconds empty
    bytes_eq bytes_lt charge charge_checks validate_chain charge_one apply_chain charge_quota
    delete_tenant_recursive subtree_checks walk walk_each validate_subtree delete_each len items
    adjust create_session session_user update_user find_session validate_token mint_token hash_token
    render_token set_password set_password_checks hash_password authenticate verify_password
    rotate_root_caps rotate_checks rotate_parent_check count_narrowed user_path from_hex
    purge_expired_sessions revoke_token
set_password_runs = refl

authenticate_fails :
    authenticate plain_crypto company (text "acme") (text "ann") (text "guess") ≡ err denied
unfolding run step create create_subtenant create_commit create_checks parent_checks
    validate_segment namespace_root add_user add_user_checks attenuate contains from_bits_truncate
    narrow chain_from chain_loop get insert remove values lookup place without seconds empty
    bytes_eq bytes_lt charge charge_checks validate_chain charge_one apply_chain charge_quota
    delete_tenant_recursive subtree_checks walk walk_each validate_subtree delete_each len items
    adjust create_session session_user update_user find_session validate_token mint_token hash_token
    render_token set_password set_password_checks hash_password authenticate verify_password
    rotate_root_caps rotate_checks rotate_parent_check count_narrowed user_path from_hex
    purge_expired_sessions revoke_token
authenticate_fails = refl

abbrev pub rotated : StoreState
rotated = (rotate_root_caps company 1 0x1).0

abbrev pub rotation : RotateReport
rotation = record {
  tenant = 1;
  tenant_name = text "acme";
  old_caps = 0x7;
  new_caps = 0x1;
  attenuated_users = 1;
  revoked_sessions = 0;
}

pub rotate_root_caps_runs : rotate_root_caps company 1 0x1 ≡ (rotated, ok rotation)
unfolding run step create create_subtenant create_commit create_checks parent_checks
    validate_segment namespace_root add_user add_user_checks attenuate contains from_bits_truncate
    narrow chain_from chain_loop get insert remove values lookup place without seconds empty
    bytes_eq bytes_lt charge charge_checks validate_chain charge_one apply_chain charge_quota
    delete_tenant_recursive subtree_checks walk walk_each validate_subtree delete_each len items
    adjust create_session session_user update_user find_session validate_token mint_token hash_token
    render_token set_password set_password_checks hash_password authenticate verify_password
    rotate_root_caps rotate_checks rotate_parent_check count_narrowed user_path from_hex
    purge_expired_sessions revoke_token
rotate_root_caps_runs = refl

pub acme_root : namespace_root (text "acme") ≡ ok (text "/tenants/acme")
unfolding run step create create_subtenant create_commit create_checks parent_checks
    validate_segment namespace_root add_user add_user_checks attenuate contains from_bits_truncate
    narrow chain_from chain_loop get insert remove values lookup place without seconds empty
    bytes_eq bytes_lt charge charge_checks validate_chain charge_one apply_chain charge_quota
    delete_tenant_recursive subtree_checks walk walk_each validate_subtree delete_each len items
    adjust create_session session_user update_user find_session validate_token mint_token hash_token
    render_token set_password set_password_checks hash_password authenticate verify_password
    rotate_root_caps rotate_checks rotate_parent_check count_narrowed user_path from_hex
    purge_expired_sessions revoke_token
acme_root = refl

pub ann_path : user_path (text "/tenants/acme") (text "ann") ≡ ok (text "/tenants/acme/users/ann")
unfolding run step create create_subtenant create_commit create_checks parent_checks
    validate_segment namespace_root add_user add_user_checks attenuate contains from_bits_truncate
    narrow chain_from chain_loop get insert remove values lookup place without seconds empty
    bytes_eq bytes_lt charge charge_checks validate_chain charge_one apply_chain charge_quota
    delete_tenant_recursive subtree_checks walk walk_each validate_subtree delete_each len items
    adjust create_session session_user update_user find_session validate_token mint_token hash_token
    render_token set_password set_password_checks hash_password authenticate verify_password
    rotate_root_caps rotate_checks rotate_parent_check count_narrowed user_path from_hex
    purge_expired_sessions revoke_token
ann_path = refl

pub charge_quota_runs : charge_quota no_usage quotas load ≡ ok load_usage
unfolding run step create create_subtenant create_commit create_checks parent_checks
    validate_segment namespace_root add_user add_user_checks attenuate contains from_bits_truncate
    narrow chain_from chain_loop get insert remove values lookup place without seconds empty
    bytes_eq bytes_lt charge charge_checks validate_chain charge_one apply_chain charge_quota
    delete_tenant_recursive subtree_checks walk walk_each validate_subtree delete_each len items
    adjust create_session session_user update_user find_session validate_token mint_token hash_token
    render_token set_password set_password_checks hash_password authenticate verify_password
    rotate_root_caps rotate_checks rotate_parent_check count_narrowed user_path from_hex
    purge_expired_sessions revoke_token
charge_quota_runs = refl

pub find_ann : find_user 1 (ann ∷ []) ≡ some ann
find_ann = refl

pub find_ann_by_name : find_name (text "ann") (ann ∷ []) ≡ some ann
unfolding bytes_eq
find_ann_by_name = refl

pub lab_exceeds : contains 0x1 0x3 ≡ false
unfolding contains
lab_exceeds = refl
