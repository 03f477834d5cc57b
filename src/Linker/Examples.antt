-- ===== src/Linker/Examples.antt =====
-- A concrete plan of crates/fcb_core/src/linker.rs.
use fl_codepush_box.Prelude.{◌≤◌, ◌≡◌, refl, none, some, [], ◌∷◌, Str, codes, length, ok, is_blank}
use fl_codepush_box.Linker.{
  FunctionInventoryEntry, KernelInventory, LinkerPlan, validate, function_map, class_map, field_map,
  check_class, check_field, check_function, check_reasons, check_source, plan_bytecode_link,
  decided, rejected, missing_baseline_function,
}
use fl_codepush_box.Linker.Accepted.{
  decisions, unchanged_in, interpreted_in, refused, plan_bytecode_link_lem,
}

abbrev entry : Str → Str → FunctionInventoryEntry
entry id body = record {
  function_id = id;
  library_uri = [];
  enclosing = [];
  member_name = id;
  signature_hash = codes "s";
  body_hash = body;
  source_location = none;
  bytecode_source = some [];
  unsupported_reasons = [];
}

abbrev release : KernelInventory
release = record {
  schema_version = 1;
  functions = entry (codes "a") (codes "1") ∷ entry (codes "b") (codes "1") ∷ [];
  classes = [];
  top_level_fields = [];
}

abbrev patch : KernelInventory
patch = record release {
  functions =
      entry (codes "a") (codes "1")
      ∷ entry (codes "b") (codes "2")
      ∷ entry (codes "c") (codes "1")
      ∷ [];
}

abbrev plan : LinkerPlan
plan = record {
  unchanged = decided (entry (codes "a") (codes "1")) ∷ [];
  interpret = decided (entry (codes "b") (codes "2")) ∷ [];
  reject =
      rejected (codes "c") none missing_baseline_function
        (codes "function is not present in the release baseline")
      ∷ [];
}

planned : plan_bytecode_link release patch ≡ ok plan
unfolding plan_bytecode_link validate is_blank function_map class_map field_map check_class
    check_field check_function check_reasons check_source
planned = refl

plan_bytecode_link_lem_example :
    (plan.unchanged ≡ decisions (unchanged_in release.functions) patch.functions)
    × (plan.interpret ≡ decisions (interpreted_in release.functions) patch.functions)
    × (refused release.functions patch.functions ≤ length plan.reject)
plan_bytecode_link_lem_example = plan_bytecode_link_lem release patch {plan = plan} planned
