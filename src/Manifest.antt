-- ===== src/Manifest.antt =====
-- crates/fcb_core/src/manifest.rs: the records of a patch manifest.
use fl_codepush_box.Prelude.{ℕ, Bool, Option, Str}

pub record PayloadManifest : Type 0 where
  pub kind : Str
  pub compression : Str
  pub hash : Str
  pub size : ℕ
  pub download_url : Str
  pub diff_algorithm : Option Str
  pub base_hash : Option Str
  pub output_hash : Option Str

pub record PatchPolicy : Type 0 where
  pub rollout_percentage : ℕ
  pub allow_downgrade : Bool

pub record PatchSignature : Type 0 where
  pub algorithm : Str
  pub key_id : Str
  pub value : Str

pub record PatchManifest : Type 0 where
  pub schema_version : ℕ
  pub app_id : Str
  pub release_version : Str
  pub patch_number : ℕ
  pub channel : Str
  pub created_at : Str
  pub backend : Str
  pub platform : Str
  pub arch : Str
  pub payload : PayloadManifest
  pub policy : PatchPolicy
  pub signature : PatchSignature
