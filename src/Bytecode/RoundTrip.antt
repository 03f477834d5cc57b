-- ===== src/Bytecode/RoundTrip.antt =====
-- crates/fcb_core/src/bytecode.rs: what `to_binary_vec` writes, `from_binary` reads back.
mod Words
mod Rules
mod Items
use fl_codepush_box.Prelude.{
  ℕ, ◌+◌, ◌<◌, ◌≡◌, refl, sym, ap, subst, Bool, true, false, Option, some, List, [], ◌∷◌, ◌++◌,
  append-nil, arith, Bytes, is_utf8, length, All, Result, ok, err, ◌>>=◌, ◌>>◌, >>=-eq-ok, ltb,
  ◌||◌, refuse_if,
}
use fl_codepush_box.Bytecode.Format.{
  BytecodeFunction, BytecodeModule, format_version, min_supported_module_version, binary_magic,
  unexpected_version,
}
use fl_codepush_box.Bytecode.Envelope.{validate, validate_envelope}
use fl_codepush_box.Bytecode.Reader
use fl_codepush_box.Bytecode.Reader.{
  read_uint, read_string, read_many, read_constant, read_source_map_entry, read_debug_local,
  read_debug_locals, read_function, bytes, expect_magic, finish, read_module, read_binary,
}
use fl_codepush_box.Bytecode.Writer.{
  to_be, write_uint, write_string, write_many, write_constant, write_convention,
  write_source_map_entry, write_debug_local, kind_byte, write_function, to_binary_vec,
}
use fl_codepush_box.Bytecode.Load.{from_binary, from_slice}
use Rules.{
  Reads, Reads-pure, Reads-bind, Reads-map, Reads-bytes, read_uint-byte, read_uint-to_be,
  read_uint-write_uint₂, read_uint-write_uint₄, read_string-write_string, read_many-write_many,
}
use Items.{
  IsConstant, IsSourceMapEntry, IsDebugLocal, read_constant-write_constant,
  read_convention-write_convention, read_kind-kind_byte,
  read_source_map_entry-write_source_map_entry, read_debug_local-write_debug_local,
}

-- The ranges of the source's types.
pub record IsFunction (f : BytecodeFunction) : Type 0 where
  pub name_utf8 : is_utf8 f.name ≡ true
  pub constants_typed : All IsConstant f.constants
  pub source_map_typed : All IsSourceMapEntry f.source_map
  pub debug_locals_typed : All IsDebugLocal f.debug_locals

All-map :
    {A : Type 0} {P Q : A → Type 0} (xs : List A) → ((x : A) → P x → Q x) → All P xs → All Q xs
All-map [] f h = tt
All-map (x ∷ xs) f h = (f x h.0, All-map xs f h.1)

read_function-write_function :
    (f : BytecodeFunction) (w : Bytes)
    → IsFunction f
    → write_function f ≡ ok w
    → Reads (read_function format_version) f w
unfolding read_function read_debug_locals write_function
read_function-write_function f w h e =
    let (name, e_name, e₁) = >>=-eq-ok (write_string f.name "function name") _ e in
    let (conv, e_conv, e₂) = >>=-eq-ok (write_convention f.return_convention f.name) _ e₁ in
    let (c_count, e_c_count, e₃) =
      >>=-eq-ok (write_uint 2 (length f.constants) "constant count") _ e₂ in
    let (consts, e_consts, e₄) = >>=-eq-ok (write_many write_constant f.constants) _ e₃ in
    let (code_len, e_code_len, e₅) = >>=-eq-ok (write_uint 4 (length f.code) "code length") _ e₄ in
    let (s_count, e_s_count, e₆) =
      >>=-eq-ok (write_uint 2 (length f.source_map) "source map count") _ e₅ in
    let (s_map, e_s_map, e₇) = >>=-eq-ok (write_many write_source_map_entry f.source_map) _ e₆ in
    let (d_count, e_d_count, e₈) =
      >>=-eq-ok (write_uint 2 (length f.debug_locals) "debug locals count") _ e₇ in
    let (d_loc, e_d_loc, e₉) = >>=-eq-ok (write_many write_debug_local f.debug_locals) _ e₈ in
    subst (Reads (read_function format_version) f) (ground arith) (
      Reads-bind _ _ f.name f name _ (read_string-write_string _ _ name h.name_utf8 e_name) (
        Reads-bind _ _ f.return_convention f conv _
          (read_convention-write_convention _ _ conv e_conv)
          (Reads-bind _ _ f.async_kind f (kind_byte f.async_kind ∷ []) _ (read_kind-kind_byte _) (
            Reads-bind _ _ f.param_count f (f.param_count ∷ []) _ (read_uint-byte _) (
              Reads-bind _ _ f.local_count f (f.local_count ∷ []) _ (read_uint-byte _) (
                Reads-bind _ _ (length f.constants) f c_count _
                  (read_uint-write_uint₂ _ _ e_c_count)
                  (Reads-bind _ _ f.constants f consts _
                    (read_many-write_many _ _ _
                      (All-map f.constants (λ x p v. read_constant-write_constant x v p)
                        h.constants_typed)
                      e_consts)
                    (Reads-bind _ _ (length f.code) f code_len _
                      (read_uint-write_uint₄ _ _ e_code_len)
                      (Reads-bind _ _ f.code f f.code _ (Reads-bytes _ f.code refl) (
                        Reads-bind _ _ (length f.source_map) f s_count _
                          (read_uint-write_uint₂ _ _ e_s_count)
                          (Reads-bind _ _ f.source_map f s_map _
                            (read_many-write_many _ _ _
                              (All-map f.source_map
                                (λ x p v. read_source_map_entry-write_source_map_entry x v p)
                                h.source_map_typed)
                              e_s_map)
                            (Reads-map _ _ f.debug_locals _ (
                              Reads-bind _ _ (length f.debug_locals) f.debug_locals d_count d_loc
                                (read_uint-write_uint₂ _ _ e_d_count)
                                (read_many-write_many _ _ _
                                  (All-map f.debug_locals
                                    (λ x p v. read_debug_local-write_debug_local x v p)
                                    h.debug_locals_typed)
                                  e_d_loc))))))))))))))

magic_read : Reads (expect_magic binary_magic) tt binary_magic
unfolding expect_magic
magic_read = subst (Reads (expect_magic binary_magic) tt) (append-nil binary_magic) (
    Reads-bind (bytes 4) _ binary_magic tt binary_magic [] (Reads-bytes 4 binary_magic refl)
      (Reads-pure tt))

-- The header and the functions are read; what follows is left to `finish`.
header_read :
    (fs : List BytecodeFunction) {count functions : Bytes}
    → All IsFunction fs
    → write_uint 2 (length fs) "function count" ≡ ok count
    → write_many write_function fs ≡ ok functions
    → read_module (binary_magic ++ (to_be 4 format_version ++ (count ++ functions)))
      ≡ ok (record { version = format_version; functions = fs }, [])
unfolding read_module finish Reader.◌>>=◌
header_read fs {count} {functions} typed counted written =
    rw (magic_read.at (to_be 4 format_version ++ (count ++ functions))) (
      rw ((read_uint-to_be 4 format_version refl).at (count ++ functions)) (
        rw ((read_uint-write_uint₂ (length fs) "function count" counted).at functions) (
          let all =
            read_many-write_many (read_function format_version) write_function fs
              (All-map fs (λ f h w. read_function-write_function f w h) typed) written in
          let whole =
            subst (λ w. read_many (length fs) (read_function format_version) w ≡ ok (fs, []))
              (append-nil functions) (all.at []) in
          rw whole refl)))

-- The version of a valid module does not matter to the other checks.
validate-current :
    (m : BytecodeModule)
    → validate m ≡ ok tt
    → validate (record { version = format_version; functions = m.functions }) ≡ ok tt
unfolding validate validate_envelope
validate-current m h =
    let (_, enveloped, each) = >>=-eq-ok (validate_envelope m) _ h in
    let (_, _, rest) =
      >>=-eq-ok
        (refuse_if (ltb m.version min_supported_module_version || ltb format_version m.version)
          (unexpected_version m.version))
        _ enveloped in
    rw rest each

-- Where the names, texts and numbers of its functions are values of their Rust types, a module that
-- `to_binary_vec` writes is loaded again, by `from_binary` and, whatever the JSON
-- parser does, by `from_slice`: with the same functions, and the current version of the format.
pub from_slice-to_binary_vec :
    (json : Bytes → Option BytecodeModule) (m : BytecodeModule) {w : Bytes}
    → All IsFunction m.functions
    → to_binary_vec m ≡ ok w
    → (from_binary w ≡ ok (record { version = format_version; functions = m.functions }))
      × (from_slice json w ≡ ok (record { version = format_version; functions = m.functions }))
unfolding from_slice from_binary read_binary to_binary_vec
from_slice-to_binary_vec json m {w} typed e =
    let (_, valid, e₁) = >>=-eq-ok (validate m) _ e in
    let (count, counted, e₂) =
      >>=-eq-ok (write_uint 2 (length m.functions) "function count") _ e₁ in
    let (functions, written, e₃) = >>=-eq-ok (write_many write_function m.functions) _ e₂ in
    let same : binary_magic ++ (to_be 4 format_version ++ (count ++ functions)) ≡ w =
      ground arith in
    rw (← same) (
      rw (header_read m.functions typed counted written)
        (rw (validate-current m valid) (refl, refl)))
