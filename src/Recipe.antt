-- ===== src/Recipe.antt =====
-- internal/recipe/recipe.go: the recipe that describes a medium, and the two JSON forms of an
-- offline payload. Text is a list of bytes; a JSON document that a field keeps undecoded
-- (`Remora`) is its bytes.
pub mod Payload
pub mod Defaults
use tacklebox.Common.{Bool, List, Bytes}

pub record SharedStore : Type 0 where
  pub format : Bytes
  pub compression : Bytes
  pub compressor : Bytes
  pub dedup : Bool
  pub dedup_layout : Bytes
  pub delta_base : Bytes
  pub prune_source_images : Bool

pub record Partitions : Type 0 where
  pub esp : Bytes
  pub store : Bytes
  pub persist : Bytes

-- `BootMode` is a string type: any text can stand in a recipe.
abbrev pub BootMode : Type 0
BootMode = Bytes

pub record BootableEnvironment : Type 0 where
  pub id : Bytes
  pub image : Bytes
  pub title : Bytes
  pub desktop : Bytes
  pub backend : Bytes
  pub modes : List BootMode
  pub skip_initramfs_rebuild : Bool
  pub live_customize : List Bytes
  pub remora : Bytes

pub record OfflinePayload : Type 0 where
  pub source : Bytes
  pub ref : Bytes

pub record MediaRecipe : Type 0 where
  pub media_name : Bytes
  pub size : Bytes
  pub shared_store : SharedStore
  pub partitions : Partitions
  pub default_boot : Bytes
  pub bootable_environments : List BootableEnvironment
  pub offline_payloads : List OfflinePayload
  pub kargs : List Bytes
