-- ===== src/Mesh/Federation.antt =====
-- crates/celmesh/src/federation.rs: the union of the VM lists of all nodes. The nodes' ids are text.
pub mod Newest
pub mod Paths
mod Witnesses
use celium.Prelude.{
  ℕ, ◌≡◌, ◌↔◌, refl, Bool, true, false, not, Option, none, some, List, [], ◌∷◌, ◌++◌, ◌&&◌, ◌||◌,
  arith, eqb, ltb, leb, any, retain, if◌then◌else◌, eqb_iff,
}
use celium.Prelude.Key.{Key, Bytes, bytes_eq, bytes_lt, bytes_eq_iff}
use celium.Prelude.Map.{Map, empty, get, insert, values, map_values, retain as retain_rows}
use celium.Prelude.Words.{u32_max}
use celium.Prelude.Text.{text}
use celium.Prelude.Decimal.{at_most, decimal, parse_u64, split_once}
use celium.Vault.Attachments.{VolumeAttachment}
use celium.Mesh.Membership.{NodeId}
use celium.Mesh.Operations.{RestartPolicy}

pub record RemoteVm : Type 0 where
  pub owner : NodeId
  pub vm_id : ℕ
  pub label : Bytes
  pub state : Bytes
  pub last_exit : Option ℕ
  pub epoch : ℕ
  pub hlc : ℕ
  pub owner_alive : Bool
  pub restart_policy : RestartPolicy
  pub volumes : List VolumeAttachment
  pub image_path : Option Bytes
  pub cpu_count : Option ℕ
  pub memory_mib : Option ℕ
  pub boot_blob_crc32c : Option ℕ

abbrev pub RowKey : Type 0
RowKey = NodeId × ℕ

abbrev pub row_eq : RowKey → RowKey → Bool
row_eq a b = bytes_eq a.0 b.0 && eqb a.1 b.1

pub row_eq_iff : (a b : RowKey) → (row_eq a b ≡ true) ↔ (a ≡ b)
row_eq_iff (a, i) (b, j) = ground (arith, bytes_eq_iff a b, eqb_iff i j)

-- The lexicographic order of a pair.
instance abbrev pub row_key : Key RowKey
row_key = record {
  beq = row_eq;
  lt = λ a b. bytes_lt a.0 b.0 || (bytes_eq a.0 b.0 && ltb a.1 b.1);
  beq_iff = row_eq_iff;
}

-- `/cluster/` and `/vms/`
abbrev pub cluster : Bytes
cluster = text "/cluster/"

abbrev pub vms : Bytes
vms = text "vms/"

unfoldable pub path : RemoteVm → Bytes
path r = cluster ++ (r.owner ++ 47 ∷ (vms ++ decimal r.vm_id))

abbrev pub key : RemoteVm → RowKey
key r = (r.owner, r.vm_id)

pub record NamespaceFederation : Type 0 where
  pub self_id : NodeId
  pub rows : Map RowKey RemoteVm

unfoldable pub new : NodeId → NamespaceFederation
new self_id = record { self_id = self_id; rows = empty }

-- The row as `set_local` writes it.
abbrev pub own : NodeId → RemoteVm → RemoteVm
own self r = record r { owner = self; owner_alive = true }

unfoldable pub insert_each : NodeId → List RemoteVm → Map RowKey RemoteVm → Map RowKey RemoteVm
insert_each self [] m = m
insert_each self (r ∷ rs) m = insert_each self rs (insert (self, r.vm_id) (own self r) m)

unfoldable pub set_local : NamespaceFederation → List RemoteVm → NamespaceFederation
set_local f local = record f {
  rows = insert_each f.self_id local (retain_rows (λ k _. not (bytes_eq k.0 f.self_id)) f.rows);
}

-- `(a.epoch, a.hlc) >= (b.epoch, b.hlc)`
abbrev pub as_new : RemoteVm → RemoteVm → Bool
as_new a b = ltb b.epoch a.epoch || (eqb a.epoch b.epoch && leb b.hlc a.hlc)

-- Whether the row that is there, if any, stays.
abbrev pub stays : NamespaceFederation → RemoteVm → Bool
stays f r = elim (get f.rows (key r)) [ none ↦ false | some old ↦ as_new old r ]

unfoldable pub merge : NamespaceFederation → RemoteVm → NamespaceFederation × Bool
merge f r =
    if bytes_eq r.owner f.self_id
    then (f, false)
    else if stays f r
    then (f, false)
    else (record f { rows = insert (key r) (record r { owner_alive = true }) f.rows }, true)

unfoldable pub refresh_alive : NamespaceFederation → (NodeId → Bool) → NamespaceFederation
refresh_alive f alive_of = record f {
  rows =
      map_values
        (λ _ r. record r {
          owner_alive = if bytes_eq r.owner f.self_id then true else alive_of r.owner;
        })
        f.rows;
}

unfoldable pub list : NamespaceFederation → List RemoteVm
list f = values f.rows

unfoldable pub local_rows : NamespaceFederation → List RemoteVm
local_rows f = retain (λ r. bytes_eq r.owner f.self_id) (values f.rows)

-- `strip_prefix`
unfoldable pub strip_prefix : Bytes → Bytes → Option Bytes
strip_prefix [] s = some s
strip_prefix (c ∷ cs) [] = none
strip_prefix (c ∷ cs) (d ∷ s) = let rest = strip_prefix cs s in if eqb c d then rest else none

-- `str::parse::<u32>`
abbrev pub parse_u32 : Bytes → Option ℕ
parse_u32 s = at_most u32_max (parse_u64 s)

abbrev pub numbered : NodeId → Option ℕ → Option RowKey
numbered node none = none
numbered node (some n) = some (node, n)

-- The number of the VM, behind `vms/`.
abbrev pub number : NodeId → Option Bytes → Option RowKey
number node none = none
number node (some rest) =
    if bytes_eq rest [] || any (eqb 47) rest then none else numbered node (parse_u32 rest)

-- The node's id and what follows, behind `/cluster/`.
abbrev pub node_and_vm : Option (Bytes × Bytes) → Option RowKey
node_and_vm none = none
node_and_vm (some (node, rest)) = number node (strip_prefix vms rest)

abbrev pub in_cluster : Option Bytes → Option RowKey
in_cluster none = none
in_cluster (some suffix) = node_and_vm (split_once 47 suffix)

-- The key that a path names.
abbrev pub parse_path : Bytes → Option RowKey
parse_path s = in_cluster (strip_prefix cluster s)

-- `Err(())` is the outer `none`.
unfoldable pub resolve : NamespaceFederation → Bytes → Option (Option RemoteVm)
resolve f s = elim (parse_path s) [ none ↦ none | some k ↦ some (get f.rows k) ]
