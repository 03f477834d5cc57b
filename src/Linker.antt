-- ===== src/Linker.antt =====
-- crates/fcb_core/src/linker.rs: the comparison of the kernel inventories of a release and a patch.
-- A `BTreeMap` is the list of its values, ascending by their keys.
pub mod Maps
pub mod Accepted
mod Examples
use fl_codepush_box.Prelude.{
  ℕ, Bool, true, false, not, Option, none, some, List, [], ◌∷◌, ◌++◌, if◌then◌else◌, ◌==◌, Str,
  Bytes, codes, bytes_eq, contains_str, is_blank, length, Result, ok, err, ◌>>=◌, ◌>>◌, refuse_if,
}
use fl_codepush_box.Bytecode.Targets.{str_lt}

pub data RejectReason : Type 0 where
  missing_baseline_function signature_changed class_shape_changed field_signature_changed :
      RejectReason
  unsupported_kernel_node escaping_capturing_closure returning_capturing_closure : RejectReason
  passing_capturing_closure async_await_unsupported generic_closure_unsupported : RejectReason
  function_type_unsupported record_type_unsupported missing_bytecode_source : RejectReason
  original_target_not_in_aot : RejectReason

-- `bytecode_source` is the text of its JSON.
pub record FunctionInventoryEntry : Type 0 where
  pub function_id : Str
  pub library_uri : Str
  pub enclosing : Str
  pub member_name : Str
  pub signature_hash : Str
  pub body_hash : Str
  pub source_location : Option Str
  pub bytecode_source : Option Bytes
  pub unsupported_reasons : List RejectReason

pub record ClassInventoryEntry : Type 0 where
  pub class_id : Str
  pub shape_hash : Str

pub record FieldInventoryEntry : Type 0 where
  pub field_id : Str
  pub signature_hash : Str

pub record KernelInventory : Type 0 where
  pub schema_version : ℕ
  pub functions : List FunctionInventoryEntry
  pub classes : List ClassInventoryEntry
  pub top_level_fields : List FieldInventoryEntry

pub record FunctionDecision : Type 0 where
  pub function_id : Str
  pub source_location : Option Str

pub record RejectDecision : Type 0 where
  pub function_id : Str
  pub source_location : Option Str
  pub reject_reason : RejectReason
  pub message : Str

pub record LinkerPlan : Type 0 where
  pub unchanged : List FunctionDecision
  pub interpret : List FunctionDecision
  pub reject : List RejectDecision

pub has_rejects : LinkerPlan → Bool
has_rejects plan = not (length plan.reject == 0)

pub changed_function_count : LinkerPlan → ℕ
changed_function_count plan = length plan.interpret

pub data LinkError : Type 0 where
  unsupported_schema : ℕ → LinkError
  empty_function_id : LinkError
  duplicate_function duplicate_class duplicate_field : Str → LinkError

abbrev pub inventory_schema_version : ℕ
inventory_schema_version = 1

abbrev check_ids : List Str → List FunctionInventoryEntry → Result LinkError (Unit {0})
check_ids seen [] = ok tt
check_ids seen (f ∷ fs) = do
  refuse_if (is_blank f.function_id) empty_function_id
  refuse_if (contains_str seen f.function_id) (duplicate_function f.function_id)
  check_ids (f.function_id ∷ seen) fs

pub validate : KernelInventory → Result LinkError (Unit {0})
validate k = do
  refuse_if (not (k.schema_version == inventory_schema_version))
      (unsupported_schema k.schema_version)
  check_ids [] k.functions

-- Values with their key, and the error for a key that is there already.
module _ {A : Type 0} (key : A → Str) where
  -- `BTreeMap::get`
  abbrev pub get : Str → List A → Option A
  get k [] = none
  get k (a ∷ as_) = let later = get k as_ in if bytes_eq (key a) k then some a else later

  -- `BTreeMap::insert` of a new key.
  abbrev pub insert_new : A → List A → List A
  insert_new a [] = a ∷ []
  insert_new a (b ∷ bs) =
      let later = insert_new a bs in if str_lt (key a) (key b) then a ∷ b ∷ bs else b ∷ later

  abbrev pub is_there : Str → List A → Bool
  is_there k [] = false
  is_there k (a ∷ as_) = let later = is_there k as_ in if bytes_eq (key a) k then true else later

  -- The loop of `function_map`, `class_map` and `field_map`.
  abbrev pub insert_all : (Str → LinkError) → List A → List A → Result LinkError (List A)
  insert_all duplicate m [] = ok m
  insert_all duplicate m (a ∷ as_) =
      let rest = insert_all duplicate (insert_new a m) as_ in
      if is_there (key a) m then err (duplicate (key a)) else rest

unfoldable pub function_map : KernelInventory → Result LinkError (List FunctionInventoryEntry)
function_map k =
    insert_all (λ (f : FunctionInventoryEntry). f.function_id) duplicate_function [] k.functions

pub class_map : KernelInventory → Result LinkError (List ClassInventoryEntry)
class_map k = insert_all (λ (c : ClassInventoryEntry). c.class_id) duplicate_class [] k.classes

pub field_map : KernelInventory → Result LinkError (List FieldInventoryEntry)
field_map k =
    insert_all (λ (f : FieldInventoryEntry). f.field_id) duplicate_field [] k.top_level_fields

abbrev pub push_reject : RejectDecision → LinkerPlan → LinkerPlan
push_reject r plan = record plan { reject = plan.reject ++ r ∷ [] }

abbrev pub rejected : Str → Option Str → RejectReason → Str → RejectDecision
rejected id location reason message = record {
  function_id = id;
  source_location = location;
  reject_reason = reason;
  message = message;
}

abbrev pub decided : FunctionInventoryEntry → FunctionDecision
decided f = record { function_id = f.function_id; source_location = f.source_location }

-- A class of the patch, with the class of the release that has its id, if there is one.
pub check_class : Option ClassInventoryEntry → ClassInventoryEntry → LinkerPlan → LinkerPlan
check_class none c plan = plan
check_class (some r) c plan =
    if bytes_eq r.shape_hash c.shape_hash
    then plan
    else push_reject (rejected c.class_id none class_shape_changed (codes "class shape changed"))
        plan

pub check_field : Option FieldInventoryEntry → FieldInventoryEntry → LinkerPlan → LinkerPlan
check_field none f plan = plan
check_field (some r) f plan =
    if bytes_eq r.signature_hash f.signature_hash
    then plan
    else push_reject
        (rejected f.field_id none field_signature_changed
          (codes "top-level field signature changed"))
        plan

pub check_source : Option Bytes → FunctionInventoryEntry → LinkerPlan → LinkerPlan
check_source none f plan =
    push_reject
      (rejected f.function_id f.source_location missing_bytecode_source
        (codes "changed function has no bytecode source"))
      plan
check_source (some source) f plan = record plan { interpret = plan.interpret ++ decided f ∷ [] }

pub check_reasons : List RejectReason → FunctionInventoryEntry → LinkerPlan → LinkerPlan
check_reasons (reason ∷ reasons) f plan =
    push_reject
      (rejected f.function_id f.source_location reason
        (codes "changed function contains unsupported Kernel nodes"))
      plan
check_reasons [] f plan = check_source f.bytecode_source f plan

-- The body of the loop over the functions of the patch.
pub check_function :
    Option FunctionInventoryEntry → FunctionInventoryEntry → LinkerPlan → LinkerPlan
check_function none f plan =
    push_reject
      (rejected f.function_id f.source_location missing_baseline_function
        (codes "function is not present in the release baseline"))
      plan
check_function (some r) f plan =
    if not (bytes_eq r.signature_hash f.signature_hash)
    then push_reject
        (rejected f.function_id f.source_location signature_changed
          (codes "function signature changed"))
        plan
    else if bytes_eq r.body_hash f.body_hash
    then record plan { unchanged = plan.unchanged ++ decided f ∷ [] }
    else check_reasons f.unsupported_reasons f plan

-- A loop that checks each entry of the patch against the release's entry with its key.
module _ {A : Type 0} (key : A → Str) (check : Option A → A → LinkerPlan → LinkerPlan) where
  abbrev pub check_all : List A → List A → LinkerPlan → LinkerPlan
  check_all release [] plan = plan
  check_all release (a ∷ as_) plan = check_all release as_ (check (get key (key a) release) a plan)

abbrev pub empty_plan : LinkerPlan
empty_plan = record { unchanged = []; interpret = []; reject = [] }

pub plan_bytecode_link : KernelInventory → KernelInventory → Result LinkError LinkerPlan
plan_bytecode_link release patch = do
  validate release
  validate patch
  release_functions ← function_map release
  release_classes ← class_map release
  patch_classes ← class_map patch
  release_fields ← field_map release
  patch_fields ← field_map patch
  let plan₁ =
      check_all (λ (c : ClassInventoryEntry). c.class_id) check_class release_classes patch_classes
        empty_plan
  let plan₂ =
      check_all (λ (f : FieldInventoryEntry). f.field_id) check_field release_fields patch_fields
        plan₁
  ok (
      check_all (λ (f : FunctionInventoryEntry). f.function_id) check_function release_functions
        patch.functions plan₂)
