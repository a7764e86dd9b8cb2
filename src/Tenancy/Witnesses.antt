-- ===== src/Tenancy/Witnesses.antt =====
-- The theorems on the tenant store of crates/celtenancy, applied to the company of the examples.
use celium.Prelude.{
  ℕ, ◌<◌, ◌≡◌, ◌⊎◌, ◌↔◌, refl, retain, not, any, leb, true, false, none, some, List, [], ◌∷◌, arith,
  if◌then◌else◌, ltb, length,
}
use celium.Prelude.Key.{bytes_key, bytes_eq_iff, nat_key}
use celium.Prelude.Map.{get, values}
use celium.Prelude.Error.{CelError, ok, err, internal}
use celium.Prelude.Text.{text}
use celium.Mesh.Operations
use celium.Mesh.Capabilities
use celium.Mesh.Capabilities.{required}
use celium.Tenancy.Caps.{contains}
use celium.Tenancy.Caps.Projection.{to_mesh_capabilities, contains-to_mesh_capabilities}
use celium.Tenancy.Quota.{QuotaUsage, no_usage, is_default}
use celium.Tenancy.Quota.Laws.{Fits}
use celium.Tenancy.Namespace.Laws.{user_path_unique}
use celium.Tenancy.Auth.{Verifies, hash_token}
use celium.Tenancy.Model.{TenantId, Tenant, StoreState, init}
use celium.Tenancy.Tenants.{is_child_of}
use celium.Tenancy.Charging.{charge, release, chain_from}
use celium.Tenancy.Charging.Chains.{on_chain}
use celium.Tenancy.Charging.Atomic.{ChainFits, Charged, IsRefused, charge_atomic, release-charge}
use celium.Tenancy.Charging.Ancestors.{IsAncestry, chain_from_outcome}
use celium.Tenancy.Sessions.{authenticate, validate_token}
use celium.Tenancy.Sessions.Laws.{
  session_denied, validate_token-create_session, validate_token-delete,
}
use celium.Tenancy.Sessions.Passwords.{authenticate-set_password}
use celium.Tenancy.Admin.Subtree.{PostOrder}
use celium.Tenancy.Admin.Below.{IsBelow}
use celium.Tenancy.Admin.Rotation.{Rotated, rotate_root_caps_effect, rotate_leaves_children}
use celium.Tenancy.Invariant.{IsWellFormed}
use celium.Tenancy.Invariant.Recursive.{SessionsOutside, delete_tenant_recursive_effect}
use celium.Tenancy.Store.{run, run-IsWellFormed}
use celium.Tenancy.Store.Tokens.{run-validate_token}
use celium.Tenancy.Examples.{
  setup, plain_crypto, company, company-IsWellFormed, load, load_usage, loaded, charge_runs,
  company_usage, closed, closing, delete_tenant_recursive_runs, online, token, session,
  create_session_runs, logged_in, logged_in_runs, alone, deserted, validate_token-alone,
  delete-alone_runs, acme, acme_lives, ann, find_ann, find_ann_by_name, keyed, set_password_runs,
  rotated, rotation, rotate_root_caps_runs, lab, lab_lives, lab_exceeds, acme_root, ann_path,
}

run-IsWellFormed_example : IsWellFormed (run plain_crypto init setup)
run-IsWellFormed_example = run-IsWellFormed plain_crypto setup

charge_atomic_example :
    ((e : CelError) × (charge company 2 load ≡ (company, err e)) × IsRefused company 2 load)
    ⊎ ((s' : StoreState) × (u : QuotaUsage) × (charge company 2 load ≡ (s', ok u))
        × Charged company s' 2 load u)
charge_atomic_example = charge_atomic company 2 load company-IsWellFormed

load-Fits : Fits no_usage load
load-Fits = record {
  vcpus = omega arith;
  memory = omega arith;
  storage = omega arith;
  network = omega arith;
  iops = omega arith;
}

chain_fits :
    (chain : List TenantId) → chain_from company 2 ≡ ok chain → ChainFits company chain load
chain_fits chain e k t on at = rw (company_usage k t at) load-Fits

release-charge_example :
    (s2 : StoreState) × (v : QuotaUsage) × (release loaded 2 load ≡ (s2, ok v))
    × ((k : ℕ) → get s2.tenants k ≡ get company.tenants k)
release-charge_example =
    release-charge company loaded 2 load load_usage company-IsWellFormed chain_fits charge_runs

delete_tenant_recursive_effect_example :
    (gone : List TenantId) × (on_chain gone 1 ≡ true)
    × PostOrder company.tenants [] gone
    × ((k : TenantId) → (on_chain gone k ≡ true) ↔ IsBelow company.tenants 1 k)
    × ((j : ℕ) → get closed.tenants j ≡ (if on_chain gone j then none else get company.tenants j))
    × SessionsOutside gone closed.sessions
    × (closed.sessions ≡ retain (λ x. not (on_chain gone x.tenant)) company.sessions)
delete_tenant_recursive_effect_example =
    delete_tenant_recursive_effect company closed 1 closing company-IsWellFormed
      delete_tenant_recursive_runs

run-validate_token_example :
    (session.token_hash ≡ hash_token plain_crypto token)
    × (2000 < session.expires_ms)
    × ((t : Tenant)
        → get (run plain_crypto init logged_in).tenants 1 ≡ some t
        → contains t.root_caps 0x5 ≡ true)
run-validate_token_example =
    run-validate_token plain_crypto logged_in 2000 token session logged_in_runs

validate_token-create_session_example :
    validate_token plain_crypto 3000 online token
    ≡ (if ltb 3000 43201000 then ok session else err session_denied)
validate_token-create_session_example =
    validate_token-create_session plain_crypto (1 ∷ 2 ∷ []) 1000 3000 company online 1 1 0x7 none
      token session create_session_runs

validate_token-delete_example :
    ((t : Tenant) × (get alone.tenants 1 ≡ some t)
      × (any (is_child_of 1) (values alone.tenants) ≡ false)
      × (is_default t.usage ≡ true)
      × (get deserted.by_name t.name ≡ none))
    × (get deserted.tenants 1 ≡ none)
    × (validate_token plain_crypto 2000 deserted token ≡ ok session)
validate_token-delete_example =
    validate_token-delete plain_crypto 2000 alone deserted token session validate_token-alone
      delete-alone_runs

plain_crypto-Verifies : Verifies plain_crypto
plain_crypto-Verifies plain salt phc e = ground (arith, e, bytes_eq_iff plain phc)

authenticate-set_password_example :
    authenticate plain_crypto keyed (text "acme") (text "ann") (text "secret") ≡ ok (1, 1, 0x5)
authenticate-set_password_example =
    authenticate-set_password plain_crypto [] company keyed 1 acme ann (text "secret")
      plain_crypto-Verifies company-IsWellFormed acme_lives find_ann find_ann_by_name
      set_password_runs

rotate_root_caps_effect_example : Rotated company rotated 1 0x1
rotate_root_caps_effect_example =
    rotate_root_caps_effect company rotated 1 0x1 rotation rotate_root_caps_runs

rotate_leaves_children_example :
    (parent : Tenant) × (get rotated.tenants 1 ≡ some parent)
    × (get rotated.tenants 2 ≡ some lab)
    × (contains parent.root_caps 0x3 ≡ false)
rotate_leaves_children_example =
    rotate_leaves_children company rotated 1 2 0x1 lab rotation company-IsWellFormed lab_lives refl
      lab_exceeds rotate_root_caps_runs

chain_from_outcome_example :
    (chain : List TenantId) × IsAncestry company.tenants (some 2) chain
    × (chain_from company 2
        ≡ (if leb (length chain) 65 then ok chain else err (internal "tenant hierarchy too deep")))
chain_from_outcome_example = chain_from_outcome company 2 lab company-IsWellFormed lab_lives

user_path_unique_example : (text "acme" ≡ text "acme") × (text "ann" ≡ text "ann")
user_path_unique_example =
    user_path_unique (text "acme") (text "acme") (text "ann") (text "ann") acme_root acme_root
      ann_path ann_path

contains-to_mesh_capabilities_example :
    Capabilities.contains
      (to_mesh_capabilities 0x5)
      (required (Operations.write_volume (text "n1/v1") 0 []))
    ≡ contains 0x5 (required (Operations.write_volume (text "n1/v1") 0 []))
contains-to_mesh_capabilities_example =
    contains-to_mesh_capabilities 0x5 (Operations.write_volume (text "n1/v1") 0 [])
