-- ===== src/BuildInfo.antt =====
-- crates/fcb_core/src/build_info.rs: the record of how a build was made, its validation, and the
-- comparison of a release with a patch. Maps and sets are lists in the order of their keys.
pub mod Compare
mod Examples
use fl_codepush_box.Prelude.{
  ℕ, Bool, true, false, not, ◌&&◌, ◌||◌, Option, none, some, List, [], ◌∷◌, ◌++◌, if◌then◌else◌,
  ◌==◌, ltb, Str, codes, bytes_eq, contains_str, is_blank, decimal, Result, ok, err, ◌>>=◌, ◌>>◌,
  refuse_if,
}

pub record BuildInfo : Type 0 where
  pub schema_version : ℕ
  pub backend : Str
  pub platform : Str
  pub arch : Str
  pub target_platform : Str
  pub build_mode : Str
  pub flavor : Option Str
  pub flutter_tool_rev : Str
  pub engine_fork_rev : Str
  pub dart_sdk_rev : Str
  pub pubspec_lock_hash : Str
  pub asset_hash : Str
  pub native_hash : Str
  pub plugin_hash : Str
  pub obfuscation : Bool
  pub split_debug_info : Option Str
  pub dart_defines : List (Str × Str)
  pub ignored_dart_define_keys : List Str

pub data MismatchSeverity : Type 0 where
  hard_fail warning : MismatchSeverity

pub record BuildInfoMismatch : Type 0 where
  pub field : Str
  pub release_value : Str
  pub patch_value : Str
  pub severity : MismatchSeverity

pub record BuildInfoComparison : Type 0 where
  pub hard_failures : List BuildInfoMismatch
  pub warnings : List BuildInfoMismatch

abbrev pub no_failures : List BuildInfoMismatch → Bool
no_failures [] = true
no_failures (m ∷ ms) = false

unfoldable pub is_ok : BuildInfoComparison → Bool
is_ok c = no_failures c.hard_failures

pub data BuildInfoError : Type 0 where
  different_config : List Str → BuildInfoError
  unsupported_schema_version : ℕ → BuildInfoError
  missing : Str → BuildInfoError

abbrev fields_of : List BuildInfoMismatch → List Str
fields_of [] = []
fields_of (m ∷ ms) = m.field ∷ fields_of ms

-- The message lists the fields, joined by commas.
unfoldable pub ensure_ok : BuildInfoComparison → Result BuildInfoError (Unit {0})
ensure_ok c = if is_ok c then ok tt else err (different_config (fields_of c.hard_failures))

abbrev pub build_info_schema_version : ℕ
build_info_schema_version = 3

unfoldable pub require_texts : List (Str × Str) → Result BuildInfoError (Unit {0})
require_texts [] = ok tt
require_texts ((field, value) ∷ rest) =
    refuse_if (is_blank value) (missing field) >> require_texts rest

abbrev pub required : BuildInfo → List (Str × Str)
required b =
    (codes "backend", b.backend)
    ∷ (codes "platform", b.platform)
    ∷ (codes "arch", b.arch)
    ∷ (codes "target_platform", b.target_platform)
    ∷ (codes "build_mode", b.build_mode)
    ∷ (codes "flutter_tool_rev", b.flutter_tool_rev)
    ∷ (codes "engine_fork_rev", b.engine_fork_rev)
    ∷ (codes "dart_sdk_rev", b.dart_sdk_rev)
    ∷ []

unfoldable pub validate : BuildInfo → Result BuildInfoError (Unit {0})
unfolding require_texts
validate b =
    refuse_if (not (b.schema_version == build_info_schema_version))
      (unsupported_schema_version b.schema_version)
    >> require_texts (required b)

abbrev pub or_default : Option Str → Str
or_default none = []
or_default (some s) = s

abbrev pub bool_text : Bool → Str
bool_text true = codes "true"
bool_text false = codes "false"

-- The fields that are compared, each as a text.
unfoldable pub compared : BuildInfo → List (Str × Str)
compared b =
    (codes "schema_version", decimal b.schema_version)
    ∷ (codes "backend", b.backend)
    ∷ (codes "platform", b.platform)
    ∷ (codes "arch", b.arch)
    ∷ (codes "target_platform", b.target_platform)
    ∷ (codes "build_mode", b.build_mode)
    ∷ (codes "flavor", or_default b.flavor)
    ∷ (codes "flutter_tool_rev", b.flutter_tool_rev)
    ∷ (codes "engine_fork_rev", b.engine_fork_rev)
    ∷ (codes "dart_sdk_rev", b.dart_sdk_rev)
    ∷ (codes "pubspec_lock_hash", b.pubspec_lock_hash)
    ∷ (codes "asset_hash", b.asset_hash)
    ∷ (codes "native_hash", b.native_hash)
    ∷ (codes "plugin_hash", b.plugin_hash)
    ∷ (codes "obfuscation", bool_text b.obfuscation)
    ∷ (codes "split_debug_info", or_default b.split_debug_info)
    ∷ []

unfoldable pub mismatches : List (Str × Str) → List (Str × Str) → List BuildInfoMismatch
mismatches [] _ = []
mismatches (r ∷ rs) [] = []
mismatches ((field, release) ∷ rs) ((same, patch) ∷ ps) =
    let rest = mismatches rs ps in
    if bytes_eq release patch
    then rest
    else record {
      field = field;
      release_value = release;
      patch_value = patch;
      severity = hard_fail;
    }
      ∷ rest

-- The order of texts, and the set of keys.
unfoldable pub str_ltb : Str → Str → Bool
str_ltb s [] = false
str_ltb [] (c ∷ t) = true
str_ltb (b ∷ s) (c ∷ t) = ltb b c || (b == c && str_ltb s t)

unfoldable pub insert_key : Str → List Str → List Str
insert_key k [] = k ∷ []
insert_key k (j ∷ ks) =
    let rest = insert_key k ks in
    if bytes_eq k j then j ∷ ks else if str_ltb k j then k ∷ j ∷ ks else j ∷ rest

unfoldable pub insert_keys : List (Str × Str) → List Str → List Str
insert_keys [] ks = ks
insert_keys ((k, _) ∷ defines) ks = insert_key k (insert_keys defines ks)

abbrev pub value_of : List (Str × Str) → Str → Str
value_of [] k = []
value_of ((j, v) ∷ defines) k = let rest = value_of defines k in if bytes_eq j k then v else rest

unfoldable pub define_warnings : BuildInfo → BuildInfo → List Str → List BuildInfoMismatch
define_warnings r p [] = []
define_warnings r p (k ∷ ks) =
    let rest = define_warnings r p ks in
    let release = value_of r.dart_defines k in
    let patch = value_of p.dart_defines k in
    let ignored =
      contains_str r.ignored_dart_define_keys k || contains_str p.ignored_dart_define_keys k in
    if ignored || bytes_eq release patch
    then rest
    else record {
      field = codes "dart_define." ++ k;
      release_value = release;
      patch_value = patch;
      severity = warning;
    }
      ∷ rest

unfoldable pub compare_for_patch : BuildInfo → BuildInfo → BuildInfoComparison
compare_for_patch r p = record {
  hard_failures = mismatches (compared r) (compared p);
  warnings = define_warnings r p (insert_keys r.dart_defines (insert_keys p.dart_defines []));
}
