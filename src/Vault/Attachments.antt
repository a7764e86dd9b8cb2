-- ===== src/Vault/Attachments.antt =====
-- `VolumeAttachment` of crates/celvault/src/lib.rs.
use celium.Prelude.{ℕ}
use celium.Prelude.Key.{Bytes}
use celium.Vault.Volumes.{VolumeId}

pub record VolumeAttachment : Type 0 where
  pub volume_id : VolumeId
  pub mount_name : Bytes

abbrev pub max_mount : ℕ
max_mount = 32
