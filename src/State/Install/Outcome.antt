-- ===== src/State/Install/Outcome.antt =====
-- crates/fcb_core/src/state.rs: what a successful `install_payload_with_baseline` has checked and
-- written, and that a failed one leaves the state alone.
use fl_codepush_box.Prelude.{
  ◌≡◌, refl, ap, subst, sym, ◌∙◌, Bool, not, Option, none, some, arith, Str, Bytes, bytes_eq,
  bytes_eq-eq, Result, ok, err, >>=-eq-ok, refuse_if, refuse_if-eq-ok, ok_or, ok_or-eq-ok,
}
use fl_codepush_box.Host.{Host}
use fl_codepush_box.Manifest.{PatchManifest}
use fl_codepush_box.Signing.{verify_patch_manifest}
use fl_codepush_box.State.{State}
use fl_codepush_box.State.Disk.{Disk, StateFile, stored, unreadable, save_state, load_state}
use fl_codepush_box.State.PatchFiles.{InstallError, map_err, validate_payload_contract}
use fl_codepush_box.State.Install.{
  announced, pruned, store_installed, checked, write_patch, finish, store,
  install_payload_with_baseline,
}

map_err-eq-ok :
    {E A : Type 0} (f : E → InstallError) (r : Result E A) {a : A} → map_err f r ≡ ok a → r ≡ ok a
map_err-eq-ok f (ok a) h = cc
map_err-eq-ok f (err e) h = cc

-- The state that an install stores, from the one that it loads.
abbrev pub outcome : Str → PatchManifest → Option Str → State → State
outcome now m path s = pruned (announced now m path s)

-- What the checks have found, where they succeed.
pub record IsChecked (h : Host) (flag : Bool) (key : Str) (manifest payload : Option Bytes)
    (m : PatchManifest) : Type 0 where
  pub manifest_bytes : Bytes
  pub payload_bytes : Bytes
  pub read : manifest ≡ some manifest_bytes
  pub parsed : h.parse_manifest manifest_bytes ≡ some m
  pub signed : verify_patch_manifest h m key ≡ ok tt
  pub read_payload : payload ≡ some payload_bytes
  pub hashed : h.sha256_hex payload_bytes ≡ m.payload.hash
  pub contract : validate_payload_contract h flag m payload_bytes ≡ ok tt

module _ (h : Host) (flag : Bool) (key : Str) (manifest payload : Option Bytes) where
  checked-IsChecked :
      {b p : Bytes} {m : PatchManifest}
      → checked h flag key manifest payload ≡ ok (b, m, p)
      → IsChecked h flag key manifest payload m
  unfolding checked
  checked-IsChecked {b} {p} {m} e =
      let (b₁, e₁, k₁) = >>=-eq-ok (ok_or manifest _) _ e in
      let (m₁, e₂, k₂) = >>=-eq-ok (ok_or (h.parse_manifest b₁) _) _ k₁ in
      let (u, e₃, k₃) = >>=-eq-ok (map_err _ (verify_patch_manifest h m₁ key)) _ k₂ in
      let (p₁, e₄, k₄) = >>=-eq-ok (ok_or payload _) _ k₃ in
      let (v, e₅, k₅) =
        >>=-eq-ok (refuse_if (not (bytes_eq (h.sha256_hex p₁) m₁.payload.hash)) _) _ k₄ in
      let (w, e₆, k₆) = >>=-eq-ok (validate_payload_contract h flag m₁ p₁) _ k₅ in
      let same : m₁ ≡ m = cc k₆ in
      subst (IsChecked h flag key manifest payload) same (record {
        manifest_bytes = b₁;
        payload_bytes = p₁;
        read = ok_or-eq-ok manifest _ e₁;
        parsed = ok_or-eq-ok (h.parse_manifest b₁) _ e₂;
        signed = map_err-eq-ok _ (verify_patch_manifest h m₁ key) e₃;
        read_payload = ok_or-eq-ok payload _ e₄;
        hashed =
            bytes_eq-eq (h.sha256_hex p₁) m₁.payload.hash (ground (arith, refuse_if-eq-ok _ _ e₅));
        contract = e₆;
      })

module _ (h : Host) (flag : Bool) (now : Str) where
  finish-ok :
      (m : PatchManifest) (d : Disk) (s : State) (a : Result InstallError (Option Bytes))
      {d' : Disk}
      → finish h flag now m d s a ≡ (d', ok tt)
      → (path : Option Str) × (d'.state_json ≡ some (stored (outcome now m path s)))
  unfolding finish store_installed save_state
  finish-ok m d s (err x) e = ground arith
  finish-ok m d s (ok a) e =
      (_, ap (λ (r : Disk × Result InstallError (Unit {0})). r.0.state_json) (sym e))

  finish-err :
      (m : PatchManifest) (d : Disk) (s : State) (a : Result InstallError (Option Bytes))
      {d' : Disk} {x : InstallError}
      → finish h flag now m d s a ≡ (d', err x)
      → d' ≡ d
  unfolding finish
  finish-err m d s (err y) e = cc e
  finish-err m d s (ok a) e = ground arith

-- Writing a patch's files does not change the state that is loaded.
pub load_state-write_patch :
    (h : Host) (flag : Bool) (now : Str) (m : PatchManifest) (b p : Bytes) (d : Disk)
    (f : Option StateFile)
    → d.state_json ≡ f
    → (load_state now (write_patch h flag m b p d)).1 ≡ (load_state now d).1
unfolding load_state write_patch
load_state-write_patch h flag now m b p d none e = rw e refl
load_state-write_patch h flag now m b p d (some (stored s)) e = rw e refl
load_state-write_patch h flag now m b p d (some (unreadable c x)) e = rw e refl

load_state-keeps :
    (now : Str) (d : Disk) (s : State) → d.state_json ≡ some (stored s) → (load_state now d).0 ≡ d
unfolding load_state
load_state-keeps now d s e = rw e refl

module _ (h : Host) (flag : Bool) (now key : Str) (manifest payload : Option Bytes)
    (baseline : Option (Option Bytes)) (d : Disk) where
  install-err_store :
      (s : State) (r : Result InstallError (Bytes × PatchManifest × Bytes)) {d' : Disk}
      {x : InstallError}
      → d.state_json ≡ some (stored s)
      → store h flag now baseline d r ≡ (d', err x)
      → d'.state_json ≡ some (stored s)
  unfolding store
  install-err_store s (err y) e k = ground arith
  install-err_store s (ok (b, m, p)) e k =
      let written = write_patch h flag m b p d in
      let kept : written.state_json ≡ some (stored s) = unfold write_patch in e in
      let same = finish-err h flag now m _ (load_state now written).1 _ k in
      rw (same, load_state-keeps now written s kept) kept

  -- If state.json holds a state and an install fails, state.json holds the same state afterwards.
  pub install_payload-err :
      (s : State) {d' : Disk} {x : InstallError}
      → d.state_json ≡ some (stored s)
      → install_payload_with_baseline h flag now manifest payload key baseline d ≡ (d', err x)
      → d'.state_json ≡ some (stored s)
  unfolding install_payload_with_baseline
  install_payload-err s e k = install-err_store s (checked h flag key manifest payload) e k

  store-ok :
      (r : Result InstallError (Bytes × PatchManifest × Bytes)) {d' : Disk}
      → checked h flag key manifest payload ≡ r
      → store h flag now baseline d r ≡ (d', ok tt)
      → (m : PatchManifest) × (path : Option Str) × IsChecked h flag key manifest payload m
        × (d'.state_json ≡ some (stored (outcome now m path (load_state now d).1)))
  unfolding store
  store-ok (err y) c k = ground arith
  store-ok (ok (b, m, p)) c k =
      let written = write_patch h flag m b p d in
      let (path, e) = finish-ok h flag now m _ (load_state now written).1 _ k in
      let loaded = load_state-write_patch h flag now m b p d d.state_json refl in
      (
        m,
        path,
        checked-IsChecked h flag key manifest payload c,
        e ∙ ap (λ s. some (stored (outcome now m path s))) loaded,
      )

  pub install-ok :
      {d' : Disk}
      → install_payload_with_baseline h flag now manifest payload key baseline d ≡ (d', ok tt)
      → (m : PatchManifest) × (path : Option Str) × IsChecked h flag key manifest payload m
        × (d'.state_json ≡ some (stored (outcome now m path (load_state now d).1)))
  unfolding install_payload_with_baseline
  install-ok k = store-ok (checked h flag key manifest payload) refl k
