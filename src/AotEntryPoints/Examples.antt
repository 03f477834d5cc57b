-- ===== src/AotEntryPoints/Examples.antt =====
-- Concrete names of cli/src/aot_entry_points.rs.
use fl_codepush_box.Prelude.{◌≡◌, refl, true, none, some, codes}
use fl_codepush_box.AotEntryPoints.{
  strip_from, strip_mangle, untagged, is_addressable, normalize_name, normalize_entry,
}
use fl_codepush_box.AotEntryPoints.Mangle.{is_unmangled, strip_mangle_lem}

method_named :
    normalize_entry (record {
      l = some (codes "package:a/b.dart");
      c = some (codes "_S@12");
      n = codes "[Optimized] _refresh@12";
    })
    ≡ some (codes "package:a/b.dart::class:_S._refresh")
unfolding normalize_entry normalize_name untagged is_addressable strip_mangle strip_from
method_named = refl

stub_ignored :
    normalize_entry (record { l = some (codes "l"); c = none; n = codes "[Stub] Allocate A" })
    ≡ none
unfolding normalize_entry normalize_name untagged is_addressable
stub_ignored = refl

strip_mangle_lem_example :
    (is_unmangled (strip_mangle (codes "a@@1b@2")) ≡ true)
    × (strip_mangle (strip_mangle (codes "a@@1b@2")) ≡ strip_mangle (codes "a@@1b@2"))
strip_mangle_lem_example = strip_mangle_lem (codes "a@@1b@2") refl
