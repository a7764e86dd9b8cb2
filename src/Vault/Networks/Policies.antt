-- ===== src/Vault/Networks/Policies.antt =====
-- The security groups and the load balancers of the network store of
-- crates/celvault/src/network.rs.
use celium.Prelude.{ℕ, Bool, not, List, all, ltb, leb, length}
use celium.Prelude.Key.{Bytes, bytes_key, nat_key}
use celium.Prelude.Map.{get, insert, remove, values}
use celium.Prelude.Error.{CelResult, ok, err, ◌>>=◌, ◌>>◌, refuse_if, ok_or, invalid}
use celium.Prelude.Words.{u64_max, saturating_add}
use celium.Vault.Network.{
  NetworkId, SecurityGroupId, LoadBalancerId, SecurityRule, SecurityGroup, LbAlgo, LbBackend,
  LoadBalancer,
}
use celium.Vault.Network.Blocks.{contains}
use celium.Vault.Networks.{
  MemInner, validate_name, group_id, balancer_id, max_rules_per_group, max_backends_per_lb,
}

-- The loop over the rules: no range of ports is upside down.
abbrev pub ports_ordered : SecurityRule → Bool
ports_ordered r = leb r.port_min r.port_max

abbrev pub group_checks : Bytes → List SecurityRule → CelResult (Unit {0})
group_checks name rules = do
  validate_name name
  refuse_if (ltb max_rules_per_group (length rules)) (invalid "sg: too many rules")
  refuse_if (not (all ports_ordered rules)) (invalid "sg: port_min > port_max")

unfoldable pub group_commit :
    MemInner → Bytes → Bytes → List SecurityRule → MemInner × SecurityGroup
group_commit g owner name rules =
    let n = saturating_add u64_max g.next_sg 1 in
    let sg : SecurityGroup = record {
      id = group_id owner n;
      owner = owner;
      name = name;
      rules = rules;
    } in
    (record g { next_sg = n; sgs = insert (group_id owner n) sg g.sgs }, sg)

unfoldable pub create_security_group :
    MemInner → Bytes → Bytes → List SecurityRule → MemInner × CelResult SecurityGroup
create_security_group g owner name rules = elim (group_checks name rules) [
  | err e ↦ (g, err e)
  | ok _ ↦ let r = group_commit g owner name rules in (r.0, ok r.1)
]

unfoldable pub delete_security_group : MemInner → SecurityGroupId → MemInner
delete_security_group g id = record g { sgs = remove id g.sgs }

unfoldable pub list_security_groups : MemInner → List SecurityGroup
list_security_groups g = values g.sgs

-- What the caller gives of a load balancer, besides its owner and its name.
pub record Frontend : Type 0 where
  pub network_id : NetworkId
  pub vip : ℕ
  pub frontend_port : ℕ
  pub algo : LbAlgo
  pub backends : List LbBackend

abbrev pub balancer_checks : MemInner → Bytes → Frontend → CelResult (Unit {0})
balancer_checks g name f = do
  validate_name name
  refuse_if (ltb max_backends_per_lb (length f.backends)) (invalid "lb: too many backends")
  net ← ok_or (get g.networks f.network_id) (invalid "lb: unknown network")
  refuse_if (not (contains net.cidr f.vip)) (invalid "lb: vip outside network")
  refuse_if (not (all (λ b. contains net.cidr b.ip) f.backends))
      (invalid "lb: backend ip outside network")

unfoldable pub balancer_commit : MemInner → Bytes → Bytes → Frontend → MemInner × LoadBalancer
balancer_commit g owner name f =
    let n = saturating_add u64_max g.next_lb 1 in
    let lb : LoadBalancer = record {
      id = balancer_id owner n;
      owner = owner;
      name = name;
      network_id = f.network_id;
      vip = f.vip;
      frontend_port = f.frontend_port;
      algo = f.algo;
      backends = f.backends;
    } in
    (record g { next_lb = n; lbs = insert (balancer_id owner n) lb g.lbs }, lb)

unfoldable pub create_load_balancer :
    MemInner → Bytes → Bytes → Frontend → MemInner × CelResult LoadBalancer
create_load_balancer g owner name f = elim (balancer_checks g name f) [
  | err e ↦ (g, err e)
  | ok _ ↦ let r = balancer_commit g owner name f in (r.0, ok r.1)
]

unfoldable pub delete_load_balancer : MemInner → LoadBalancerId → MemInner
delete_load_balancer g id = record g { lbs = remove id g.lbs }

unfoldable pub list_load_balancers : MemInner → List LoadBalancer
list_load_balancers g = values g.lbs
