-- ===== src/BuildInfo/Compare.antt =====
-- crates/fcb_core/src/build_info.rs: the builds that `compare_for_patch` accepts.
use fl_codepush_box.Prelude.{
  ℕ, ◌≤◌, ◌≡◌, refl, ap, sym, ◌∙◌, Bool, true, false, not, ◌&&◌, some, List, [], ◌∷◌, ◌==◌, Str,
  bytes_eq, bytes_eq-eq, bytes_eq_refl, decimal, arith, Bool-cases, inl, inr,
}
use fl_codepush_box.State.{u32_max}
use fl_codepush_box.Ffi.Progress.{parse_digits, parse_digits-digits}
use fl_codepush_box.BuildInfo.{
  BuildInfo, no_failures, is_ok, or_default, bool_text, compared, mismatches, compare_for_patch,
}

decimal-injective : (a b : ℕ) → a ≤ u32_max → b ≤ u32_max → decimal a ≡ decimal b → a ≡ b
unfolding decimal
decimal-injective a b small small' e =
    let first = parse_digits-digits 9 a (omega arith) (omega arith) in
    let second = parse_digits-digits 9 b (omega arith) (omega arith) in
    let same = ap (parse_digits 0) e in
    let both : some a ≡ some b = sym first ∙ same ∙ second in ground (arith, both)

bytes_eq-decimal :
    (a b : ℕ) → a ≤ u32_max → b ≤ u32_max → bytes_eq (decimal a) (decimal b) ≡ (a == b)
bytes_eq-decimal a b small small' = elim (Bool-cases (a == b)) [
  | inl e ↦ let same : a ≡ b = ground arith in rw (e, same) (bytes_eq_refl (decimal b))
  | inr e ↦ elim (Bool-cases (bytes_eq (decimal a) (decimal b))) [
    | inl f ↦
        let same = decimal-injective a b small small' (bytes_eq-eq (decimal a) (decimal b) f) in
        ground arith
    | inr f ↦ f ∙ sym e
  ]
]

abbrev same_flag : Bool → Bool → Bool
same_flag true b = b
same_flag false b = not b

bytes_eq-bool_text : (a b : Bool) → bytes_eq (bool_text a) (bool_text b) ≡ same_flag a b
bytes_eq-bool_text true true = refl
bytes_eq-bool_text true false = refl
bytes_eq-bool_text false true = refl
bytes_eq-bool_text false false = refl

-- The values agree, one by one.
abbrev agree : List (Str × Str) → List (Str × Str) → Bool
agree ((_, v) ∷ rs) ((_, w) ∷ ps) = bytes_eq v w && agree rs ps
agree _ _ = true

no_failures-mismatches : (rs ps : List (Str × Str)) → no_failures (mismatches rs ps) ≡ agree rs ps
unfolding mismatches
no_failures-mismatches [] ps = refl
no_failures-mismatches (r ∷ rs) [] = refl
no_failures-mismatches ((k, v) ∷ rs) ((j, w) ∷ ps) = elim (Bool-cases (bytes_eq v w)) [
  | inl e ↦ rw e (no_failures-mismatches rs ps)
  | inr e ↦ rw e refl
]

-- The builds were made from the same sources with the same tools: the fields below are equal, where
-- no flavor and no directory of debug symbols count as the empty text.
abbrev pub is_same_build : BuildInfo → BuildInfo → Bool
is_same_build r p =
    r.schema_version == p.schema_version
    && (bytes_eq r.backend p.backend
        && (bytes_eq r.platform p.platform
            && (bytes_eq r.arch p.arch
                && (bytes_eq r.target_platform p.target_platform
                    && (bytes_eq r.build_mode p.build_mode
                        && (bytes_eq (or_default r.flavor) (or_default p.flavor)
                            && (bytes_eq r.flutter_tool_rev p.flutter_tool_rev
                                && (bytes_eq r.engine_fork_rev p.engine_fork_rev
                                    && (bytes_eq r.dart_sdk_rev p.dart_sdk_rev
                                        && (bytes_eq r.pubspec_lock_hash p.pubspec_lock_hash
                                            && (bytes_eq r.asset_hash p.asset_hash
                                                && (bytes_eq r.native_hash p.native_hash
                                                    && (bytes_eq r.plugin_hash p.plugin_hash
                                                        && (same_flag r.obfuscation p.obfuscation
                                                            && (bytes_eq
                                                            (or_default r.split_debug_info)
                                                            (or_default p.split_debug_info)
                                                            && true)))))))))))))))

-- A patch's build is accepted for a release exactly if the sixteen compared fields are equal, where
-- the schema versions are numbers of 32 bits and an absent flavor or directory of debug symbols
-- counts as the empty text.
pub compare_for_patch-is_ok :
    (r p : BuildInfo)
    → r.schema_version ≤ u32_max
    → p.schema_version ≤ u32_max
    → is_ok (compare_for_patch r p) ≡ is_same_build r p
unfolding is_ok compare_for_patch compared
compare_for_patch-is_ok r p small small' =
    no_failures-mismatches (compared r) (compared p)
    ∙ rw
        (
          bytes_eq-decimal r.schema_version p.schema_version small small',
          bytes_eq-bool_text r.obfuscation p.obfuscation,
        )
        refl
