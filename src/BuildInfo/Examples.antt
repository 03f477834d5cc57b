-- ===== src/BuildInfo/Examples.antt =====
-- Concrete comparisons of crates/fcb_core/src/build_info.rs.
use fl_codepush_box.Prelude.{
  ◌≡◌, refl, false, none, some, [], ◌∷◌, Str, codes, decimal, is_blank, ok, err, arith,
}
use fl_codepush_box.BuildInfo.{
  BuildInfo, is_ok, ensure_ok, different_config, validate, missing, require_texts, compared,
  mismatches, compare_for_patch,
}
use fl_codepush_box.BuildInfo.Compare.{compare_for_patch-is_ok}

abbrev release : BuildInfo
release = record {
  schema_version = 3;
  backend = codes "bytecode";
  platform = codes "android";
  arch = codes "arm64";
  target_platform = codes "android-arm64";
  build_mode = codes "release";
  flavor = none;
  flutter_tool_rev = codes "f";
  engine_fork_rev = codes "e";
  dart_sdk_rev = codes "d";
  pubspec_lock_hash = codes "l";
  asset_hash = codes "a";
  native_hash = codes "n";
  plugin_hash = codes "p";
  obfuscation = false;
  split_debug_info = none;
  dart_defines = (codes "KEY", codes "1") ∷ [];
  ignored_dart_define_keys = [];
}

-- Another define, an empty flavor, and another engine.
abbrev patch : Str → BuildInfo
patch engine = record release {
  flavor = some [];
  engine_fork_rev = engine;
  dart_defines = (codes "KEY", codes "2") ∷ [];
}

accepted : ensure_ok (compare_for_patch release (patch (codes "e"))) ≡ ok tt
unfolding ensure_ok is_ok compare_for_patch compared mismatches decimal
accepted = refl

refused :
    ensure_ok (compare_for_patch release (patch (codes "x")))
    ≡ err (different_config (codes "engine_fork_rev" ∷ []))
unfolding ensure_ok is_ok compare_for_patch compared mismatches decimal
refused = refl

no_engine : validate (patch []) ≡ err (missing (codes "engine_fork_rev"))
unfolding validate require_texts is_blank
no_engine = refl

compare_for_patch-is_ok_example : is_ok (compare_for_patch release (patch (codes "x"))) ≡ false
compare_for_patch-is_ok_example =
    compare_for_patch-is_ok release (patch (codes "x")) (omega arith) (omega arith)
