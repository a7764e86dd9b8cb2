-- ===== src/Vault/Networks/Nics.antt =====
-- The NICs of the network store of crates/celvault/src/network.rs: their addresses by a linear scan,
-- and their MAC addresses.
use celium.Prelude.{
  ℕ, zero, suc, ◌*◌, ◌/◌, ◌%◌, ◌^◌, Bool, true, false, not, Option, none, some, List, [], ◌∷◌, leb,
  bit_and, if◌then◌else◌,
}
use celium.Prelude.Key.{Bytes, bytes_key, nat_key}
use celium.Prelude.Map.{Map, empty, get, insert, remove, values, len}
use celium.Prelude.Error.{CelResult, ok, err, ◌>>=◌, ◌>>◌, refuse_if, ok_or, invalid, exhausted}
use celium.Prelude.Words.{u32_max, saturating_add}
use celium.Vault.Network.{NetworkId, NicId, MacBytes, Cidr4, Nic}
use celium.Vault.Network.Blocks.{capacity, nth_host, contains}
use Prim.Native.Nat.{bit_xor}
use celium.Vault.Networks.{MemInner, UsedIps, nic_id, max_nics_per_network}

-- One round of the FNV-1a hash.
unfoldable pub hash_byte : ℕ → ℕ → ℕ
hash_byte h b = bit_xor h b * 0x100000001b3 % 2 ^ 64

unfoldable pub hash_bytes : ℕ → Bytes → ℕ
hash_bytes h [] = h
hash_bytes h (b ∷ bs) = hash_bytes (hash_byte h b) bs

unfoldable pub make_mac : NetworkId → ℕ → MacBytes
make_mac network idx =
    let h = hash_byte (hash_bytes 0xcbf29ce484222325 network) idx in
    2
    ∷ bit_and (h / 2 ^ 32) 255
    ∷ bit_and (h / 2 ^ 24) 255
    ∷ bit_and (h / 2 ^ 16) 255
    ∷ bit_and (h / 2 ^ 8) 255
    ∷ bit_and h 255
    ∷ []

-- `used_ips.get(network_id).cloned().unwrap_or_default()`; its `len` and its `contains_key` are
-- what the code takes from the map where it is there, and 0 and `false` where it is not.
abbrev pub used_of : MemInner → NetworkId → UsedIps
used_of g id = elim (get g.used_ips id) [ none ↦ empty | some used ↦ used ]

abbrev pub is_used : UsedIps → ℕ → Bool
is_used used a = elim (get used a) [ none ↦ false | some _ ↦ true ]

-- One host of the linear scan: free or not there.
abbrev pub free_host : Cidr4 → UsedIps → ℕ → Option ℕ
free_host c used n = elim (nth_host c n) [
  | none ↦ none
  | some a ↦ if is_used used a then none else some a
]

-- The scan of `k` hosts from the host `n`.
unfoldable pub scan : Cidr4 → UsedIps → ℕ → ℕ → Option ℕ
scan c used zero n = none
scan c used (suc k) n = elim (free_host c used n) [ some a ↦ some a | none ↦ scan c used k (suc n) ]

unfoldable pub choose_ip : Cidr4 → UsedIps → Option ℕ → CelResult ℕ
choose_ip c used (some req) = do
  refuse_if (not (contains c req)) (invalid "attach_nic: ip outside network")
  refuse_if (is_used used req) (invalid "attach_nic: ip already in use")
  ok req
choose_ip c used none = ok_or (scan c used (capacity c) 1) (exhausted "attach_nic: CIDR exhausted")

abbrev pub attach_checks : MemInner → NetworkId → Option ℕ → CelResult ℕ
attach_checks g id ip = do
  net ← ok_or (get g.networks id) (invalid "attach_nic: unknown network")
  refuse_if (leb max_nics_per_network (len (used_of g id)))
      (exhausted "attach_nic: per-network NIC cap")
  choose_ip net.cidr (used_of g id) ip

-- `entry(id).or_insert(0)`, then `saturating_add(1)`.
abbrev pub next_counter : MemInner → NetworkId → ℕ
next_counter g id = elim (get g.next_nic id) [
  | none ↦ saturating_add u32_max 0 1
  | some n ↦ saturating_add u32_max n 1
]

unfoldable pub attach_commit : MemInner → NetworkId → ℕ → ℕ → MemInner × Nic
attach_commit g id vm_id chosen =
    let counter = next_counter g id in
    let nic_id = nic_id id counter in
    let nic : Nic = record {
      id = nic_id;
      network_id = id;
      vm_id = vm_id;
      ip = chosen;
      mac = make_mac id counter;
    } in
    (
      record g {
        next_nic = insert id counter g.next_nic;
        used_ips = insert id (insert chosen nic_id (used_of g id)) g.used_ips;
        nics = insert nic_id nic g.nics;
      },
      nic,
    )

unfoldable pub attach_nic : MemInner → NetworkId → ℕ → Option ℕ → MemInner × CelResult Nic
attach_nic g id vm_id ip = elim (attach_checks g id ip) [
  | err e ↦ (g, err e)
  | ok chosen ↦ let r = attach_commit g id vm_id chosen in (r.0, ok r.1)
]

-- `get_mut` of the network's used addresses, and the removal of one.
abbrev pub release : MemInner → NetworkId → ℕ → Map NetworkId UsedIps
release g network ip = elim (get g.used_ips network) [
  | none ↦ g.used_ips
  | some used ↦ insert network (remove ip used) g.used_ips
]

unfoldable pub detach_nic : MemInner → NicId → MemInner
detach_nic g id = elim (get g.nics id) [
  | none ↦ g
  | some nic ↦ record g { nics = remove id g.nics; used_ips = release g nic.network_id nic.ip }
]

unfoldable pub list_nics : MemInner → List Nic
list_nics g = values g.nics
