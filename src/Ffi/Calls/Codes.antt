-- ===== src/Ffi/Calls/Codes.antt =====
-- updater/src/lib.rs: the codes that the calls return to C.
use fl_codepush_box.Prelude.{
  ℕ, ℤ, pos, negsuc, c_int_max, in_c_int, ◌≡◌, refl, true, Option, none, some, ltb, Str, arith,
  Bool-cases, inl, inr, ◌⊎◌,
}
use fl_codepush_box.State.Disk.{load_state}
use fl_codepush_box.Ffi.{Runtime, CheckResponse, set_error, PatchCheck}
use fl_codepush_box.Ffi.Events.{Outside, Store}
use fl_codepush_box.Ffi.Calls.{
  number_or, good_number, offered_number, checked_code, active_patch, fcb_current_patch_number,
  fcb_active_patch_number, fcb_last_known_good_patch_number, fcb_last_check_patch_number,
}

-- The code is that of an error or the number itself, and an `int` holds it.
abbrev pub Codes : ℕ → ℤ → Type 0
Codes n c = (in_c_int c ≡ true) × ((c ≡ pos n) ⊎ ((c ≡ negsuc 0) × (ltb c_int_max n ≡ true)))

number_or-Codes :
    (r : Runtime) (st : Store) (message : Str) (n : ℕ) → Codes n (number_or r st message n).2
unfolding set_error
number_or-Codes r st message n = elim (Bool-cases (ltb c_int_max n)) [
  | inl e ↦ rw e (refl, inr (refl, refl))
  | inr e ↦ rw e (ground arith, inl refl)
]

abbrev pub number_of : Option ℕ → ℕ
number_of none = 0
number_of (some p) = p

abbrev pub offered : Option PatchCheck → ℕ
offered none = 0
offered (some p) = p.patch_number

abbrev pub checked_number : Option CheckResponse → ℕ
checked_number none = 0
checked_number (some c) = offered c.patch

module _ (o : Outside) (r : Runtime) (st : Store) where
  good_number-Codes : (left : Store) (p : Option ℕ) → Codes (number_of p) (good_number o r left p).2
  unfolding good_number
  good_number-Codes left none = (refl, inl refl)
  good_number-Codes left (some p) = number_or-Codes r left _ p

  offered_number-Codes : (p : Option PatchCheck) → Codes (offered p) (offered_number o r st p).2
  unfolding offered_number
  offered_number-Codes none = (refl, inl refl)
  offered_number-Codes (some p) = number_or-Codes r st _ p.patch_number

  checked_code-Codes :
      (c : Option CheckResponse) → Codes (checked_number c) (checked_code o r st c).2
  unfolding checked_code
  checked_code-Codes none = (refl, inl refl)
  checked_code-Codes (some c) = offered_number-Codes c.patch

  -- Each call that returns a patch number returns the number of the state, or of the last check, and
  -- 0 where there is none; a number above the largest `int` gives -1 instead. An `int` holds every
  -- result.
  pub patch_number-Codes :
      Codes (load_state o.now st.disk).1.current_patch_number (fcb_current_patch_number o r st).2
      × Codes (active_patch o (load_state o.now st.disk).1) (fcb_active_patch_number o r st).2
      × Codes
          (number_of (load_state o.now st.disk).1.last_known_good_patch_number)
          (fcb_last_known_good_patch_number o r st).2
      × Codes (checked_number r.last_check) (fcb_last_check_patch_number o r st).2
  unfolding fcb_current_patch_number fcb_active_patch_number fcb_last_known_good_patch_number
      fcb_last_check_patch_number
  patch_number-Codes = (
    number_or-Codes r _ _ _,
    number_or-Codes r _ _ _,
    good_number-Codes (record st { disk = (load_state o.now st.disk).0 })
        (load_state o.now st.disk).1.last_known_good_patch_number,
    checked_code-Codes r.last_check,
  )
