-- ===== src/Mesh/Host/Networking.antt =====
-- The network operations of crates/celmesh/src/host.rs.
use celium.Prelude.{ℕ, Option, none, some, List}
use celium.Prelude.Key.{Bytes}
use celium.Vault.Network.{
  NetworkId, NicId, SecurityGroupId, SecurityRule, LoadBalancerId, LbAlgo, LbBackend, Cidr4,
}
use celium.Vault.Network.Addresses.{parse, parse_ipv4}
use celium.Vault.Networks
use celium.Vault.Networks.Nics
use celium.Vault.Networks.Policies
use celium.Vault.Networks.Policies.{Frontend}
use celium.Mesh.Replies
use celium.Mesh.Replies.{VmOpReply, HostResult, done, refused, plain, ◌>>=◌, ◌>>◌, some_or, context}
use celium.Mesh.Host.{MemVmHost, Outcome, slot_mut}

-- The host whose network store has made a call.
abbrev pub with_nets_state : MemVmHost → Networks.MemInner → MemVmHost
with_nets_state h nets = record h { nets = nets }

-- The owner, and the block that its text gives.
abbrev pub network_checks : MemVmHost → Bytes → HostResult (Bytes × Cidr4)
network_checks h cidr = do
  owner ← some_or h.owner "net: owner not yet known; snapshot first"
  block ← context "net create" (parse cidr)
  done (owner, block)

unfoldable pub create_network : MemVmHost → Bytes → Bytes → Outcome
create_network h name cidr = elim (network_checks h cidr) [
  | refused e ↦ (h, refused e)
  | done (owner, block) ↦
      let r = Networks.create_network h.nets owner name block in
      (with_nets_state h r.0, do net ← context "net create" r.1; done (Replies.network_created net))
]

unfoldable pub delete_network : MemVmHost → NetworkId → Outcome
delete_network h id =
    let r = Networks.delete_network h.nets id in
    (with_nets_state h r.0, do context "net delete" r.1; done (Replies.network_deleted id))

-- The requested address, where there is one.
abbrev pub parse_requested : Option Bytes → HostResult (Option ℕ)
parse_requested none = done none
parse_requested (some s) = do ip ← some_or (parse_ipv4 s) "net.nic.attach: bad ip"; done (some ip)

abbrev pub nic_checks : MemVmHost → ℕ → Option Bytes → HostResult (Option ℕ)
nic_checks h vm_id ip = do s ← slot_mut h.slots vm_id; parse_requested ip

-- `VmOp::AttachNic` after the lock of the slots is dropped.
abbrev pub attach_nic_commit : MemVmHost → NetworkId → ℕ → Option ℕ → Outcome
attach_nic_commit h id vm_id requested =
    let r = Nics.attach_nic h.nets id vm_id requested in
    (with_nets_state h r.0, do nic ← context "net.nic.attach" r.1; done (Replies.nic_attached nic))

-- `VmOp::AttachNic` where nothing else runs between its two parts.
unfoldable pub attach_nic : MemVmHost → NetworkId → ℕ → Option Bytes → Outcome
attach_nic h id vm_id ip = elim (nic_checks h vm_id ip) [
  | refused e ↦ (h, refused e)
  | done requested ↦ attach_nic_commit h id vm_id requested
]

unfoldable pub detach_nic : MemVmHost → NicId → Outcome
detach_nic h id = (with_nets_state h (Nics.detach_nic h.nets id), done (Replies.nic_detached id))

unfoldable pub create_security_group : MemVmHost → Bytes → List SecurityRule → Outcome
create_security_group h name rules =
    elim (some_or h.owner "sg: owner not yet known; snapshot first") [
      | refused e ↦ (h, refused e)
      | done owner ↦
          let r = Policies.create_security_group h.nets owner name rules in
          (
            with_nets_state h r.0,
            do sg ← context "sg create" r.1; done (Replies.security_group_created sg),
          )
    ]

unfoldable pub delete_security_group : MemVmHost → SecurityGroupId → Outcome
delete_security_group h id = (
  with_nets_state h (Policies.delete_security_group h.nets id),
  done (Replies.security_group_deleted id),
)

abbrev pub balancer_checks : MemVmHost → Bytes → HostResult (Bytes × ℕ)
balancer_checks h vip = do
  owner ← some_or h.owner "lb: owner not yet known; snapshot first"
  parsed_vip ← some_or (parse_ipv4 vip) "lb create: bad vip"
  done (owner, parsed_vip)

unfoldable pub create_load_balancer :
    MemVmHost → Bytes → NetworkId → Bytes → ℕ → LbAlgo → List LbBackend → Outcome
create_load_balancer h name id vip port algo backends = elim (balancer_checks h vip) [
  | refused e ↦ (h, refused e)
  | done (owner, parsed_vip) ↦
      let r = Policies.create_load_balancer h.nets owner name (record {
        network_id = id;
        vip = parsed_vip;
        frontend_port = port;
        algo = algo;
        backends = backends;
      }) in
      (
        with_nets_state h r.0,
        do lb ← context "lb create" r.1; done (Replies.load_balancer_created lb),
      )
]

unfoldable pub delete_load_balancer : MemVmHost → LoadBalancerId → Outcome
delete_load_balancer h id = (
  with_nets_state h (Policies.delete_load_balancer h.nets id),
  done (Replies.load_balancer_deleted id),
)
