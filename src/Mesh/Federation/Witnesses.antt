-- ===== src/Mesh/Federation/Witnesses.antt =====
-- A table of two nodes of crates/celmesh/src/federation.rs, and the theorems applied to it.
use celium.Prelude.{◌≡◌, refl, true, none, some, List, [], ◌∷◌, arith}
use celium.Prelude.Map.{get}
use celium.Prelude.Text.{text}
use celium.Mesh.Operations.{never, always}
use celium.Mesh.Federation.{
  RemoteVm, NamespaceFederation, new, set_local, path, key, resolve, row_key,
}
use celium.Mesh.Federation.Newest.{IsNewest, merge_all, merge_all-IsNewest}
use celium.Mesh.Federation.Paths.{resolve-path}

abbrev mine : RemoteVm
mine = record {
  owner = text "a";
  vm_id = 0;
  label = text "web";
  state = text "created";
  last_exit = none;
  epoch = 1;
  hlc = 4;
  owner_alive = true;
  restart_policy = never;
  volumes = [];
  image_path = none;
  cpu_count = none;
  memory_mib = none;
  boot_blob_crc32c = none;
}

abbrev theirs : RemoteVm
theirs = record mine { owner = text "b"; vm_id = 2; restart_policy = always }

abbrev table : NamespaceFederation
table = set_local (new (text "a")) (mine ∷ [])

abbrev gossip : List RemoteVm
gossip = theirs ∷ record theirs { hlc = 9 } ∷ record mine { hlc = 99 } ∷ []

merge_all-IsNewest_example : IsNewest table gossip (merge_all table gossip)
merge_all-IsNewest_example = merge_all-IsNewest table gossip

resolve-path_example :
    resolve (merge_all table gossip) (path theirs)
    ≡ some (get (merge_all table gossip).rows (key theirs))
resolve-path_example = resolve-path (merge_all table gossip) theirs refl (omega arith)
