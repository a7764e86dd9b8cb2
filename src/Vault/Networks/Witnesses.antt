-- ===== src/Vault/Networks/Witnesses.antt =====
-- Runs of the network store of crates/celvault/src/network.rs on one small network, and the theorems
-- applied to them.
use celium.Prelude.{ℕ, suc, ◌≡◌, ◌≤◌, ◌↔◌, refl, none, some, List, [], ◌∷◌, arith}
use celium.Prelude.Key.{bytes_eq, bytes_lt, bytes_key, nat_key}
use celium.Prelude.Map.{empty, get, insert, len}
use celium.Prelude.Map.Assoc.{lookup, place}
use celium.Prelude.Decimal.{digits}
use celium.Prelude.Error.{ok, err, invalid}
use celium.Prelude.Text.{text}
use celium.Vault.Network.{Cidr4, NetworkId, NicId, Nic, VirtualNetwork}
use celium.Vault.Network.Blocks.{IsBlock, capacity}
use celium.Vault.Network.Addresses.{parse, display, parse-display}
use celium.Vault.Networks.{MemInner, new, create_network, create_network_commit, delete_network}
use celium.Vault.Networks.Nics.{attach_nic, attach_commit, used_of}
use celium.Vault.Networks.Scan.{IsFirstFree, attach_nic-first}
use celium.Vault.Networks.Invariant.{IsWellFormed}
use celium.Vault.Networks.History.{
  Call, creates, attaches, detaches, run, run_networks-IsWellFormed,
}
use celium.Vault.Networks.Deletion.{delete_network-refused}

-- 10.0.0.0/29: six hosts.
abbrev block : Cidr4
block = record { base = 0xa000000; prefix_len = 29 }

block-IsBlock : IsBlock block
block-IsBlock = record {
  long = omega arith;
  short = omega arith;
  fits = omega arith;
  masked = refl;
}

parse-display_example : parse (display block) ≡ ok block
parse-display_example = parse-display block block-IsBlock

abbrev lan : NetworkId
lan = text "a/n1"

abbrev setup : List Call
setup =
    creates (text "a") (text "lan") (text "10.0.0.0/29")
    ∷ attaches lan 0 none
    ∷ attaches lan 1 (some 0xa000003)
    ∷ detaches (text "a/n1/nic1")
    ∷ []

abbrev store : MemInner
store = run new setup

run_networks-IsWellFormed_example : IsWellFormed (run new setup)
run_networks-IsWellFormed_example = run_networks-IsWellFormed setup (omega arith)

delete_network-refused_example :
    (delete_network store lan ≡ (store, err (invalid "network: NICs still attached")))
    ↔ ((nid : NicId) × (nic : Nic) × (get store.nics nid ≡ some nic) × (nic.network_id ≡ lan))
delete_network-refused_example =
    delete_network-refused store lan (run_networks-IsWellFormed setup (omega arith))

abbrev fresh : MemInner
fresh = (create_network new (text "a") (text "lan") block).0

abbrev net : VirtualNetwork
net = record { id = lan; owner = text "a"; name = text "lan"; cidr = block }

net_there : get fresh.networks lan ≡ some net
unfolding new create_network create_network_commit get insert lookup place empty bytes_eq bytes_lt
    digits
net_there = refl

none_used : len (used_of fresh lan) ≡ 0
unfolding new create_network create_network_commit get insert lookup place empty bytes_eq bytes_lt
    digits len
none_used = refl

six_hosts : capacity block ≡ 6
unfolding capacity
six_hosts = refl

attach_nic-first_example :
    (a : ℕ) × (n : ℕ) × (attach_nic fresh lan 7 none
      ≡ ((attach_commit fresh lan 7 a).0, ok (attach_commit fresh lan 7 a).1))
    × ((attach_commit fresh lan 7 a).1.ip ≡ a)
    × IsFirstFree block (used_of fresh lan) a n
    × (n ≤ suc (len (used_of fresh lan)))
attach_nic-first_example =
    attach_nic-first fresh lan 7 net net_there (omega (arith, none_used))
      (omega (arith, none_used, six_hosts))
