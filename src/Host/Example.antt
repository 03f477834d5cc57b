-- ===== src/Host/Example.antt =====
-- A concrete host: hashes and base64 are the identity, and every key and signature is accepted. Its
-- JSON of a simple diff is the two lengths and the lengths of three texts, before the texts.
use fl_codepush_box.Prelude.{
  ℕ, zero, suc, refl, true, false, Option, none, some, [], ◌∷◌, ◌++◌, Bytes, codes, length, take,
  drop, take-append, drop-append,
}
use fl_codepush_box.Bytecode.Format.{BytecodeModule, BytecodeFunction, AsyncKind, Constant}
use fl_codepush_box.Manifest.{PatchManifest}
use fl_codepush_box.Host.{Host, SimpleBinaryDiff, DecodesText, SignsMessages}

abbrev render : SimpleBinaryDiff → Bytes
render d =
    d.prefix_len
    ∷ d.suffix_len
    ∷ length d.algorithm
    ∷ length d.base_hash
    ∷ length d.output_hash
    ∷ (d.algorithm ++ (d.base_hash ++ (d.output_hash ++ d.insert_b64)))

abbrev parse : Bytes → Option SimpleBinaryDiff
parse (p ∷ s ∷ a ∷ b ∷ o ∷ rest) = some (record {
  algorithm = take a rest;
  base_hash = take b (drop a rest);
  output_hash = take o (drop b (drop a rest));
  prefix_len = p;
  suffix_len = s;
  insert_b64 = drop o (drop b (drop a rest));
})
parse _ = none

abbrev pub zeros : ℕ → Bytes
zeros zero = []
zeros (suc n) = 0 ∷ zeros n

abbrev pub example_payload : Bytes
example_payload = 7 ∷ []

-- The manifest of patch 2, with a bytecode payload.
abbrev pub example_manifest : PatchManifest
example_manifest = record {
  schema_version = 1;
  app_id = codes "app";
  release_version = codes "1.0";
  patch_number = 2;
  channel = codes "stable";
  created_at = [];
  backend = codes "bytecode";
  platform = codes "android";
  arch = codes "arm64";
  payload = record {
    kind = codes "bytecode_module";
    compression = codes "none";
    hash = example_payload;
    size = 1;
    download_url = [];
    diff_algorithm = none;
    base_hash = none;
    output_hash = none;
  };
  policy = record { rollout_percentage = 100; allow_downgrade = false };
  signature = record { algorithm = codes "ed25519"; key_id = []; value = zeros 64 };
}

-- It calls the AOT function `g` by name, without arguments, and returns.
abbrev pub example_function : BytecodeFunction
example_function = record {
  name = codes "f";
  return_convention = codes "tagged";
  async_kind = AsyncKind.sync;
  param_count = 0;
  local_count = 0;
  constants = Constant.string (codes "g") ∷ [];
  code = 0x50 ∷ 0 ∷ 0 ∷ 0 ∷ 0xff ∷ [];
  source_map = [];
  debug_locals = [];
}

abbrev pub example_module : BytecodeModule
example_module = record { version = 2; functions = example_function ∷ [] }

abbrev pub example_host : Host
example_host = record {
  sha256_hex = λ bytes. bytes;
  b64_encode = λ bytes. bytes;
  b64_decode = λ text. some text;
  is_verifying_key = λ key. true;
  ed25519_verify = λ key message signature. true;
  ed25519_public = λ seed. zeros 32;
  ed25519_sign = λ seed message. zeros 64;
  canonical_json = λ m. m.app_id;
  parse_manifest = λ bytes. some example_manifest;
  parse_module = λ bytes. some example_module;
  render_simple_diff = render;
  parse_simple_diff = parse;
  zstd_decode = λ bytes. some bytes;
  bsdiff_patch = λ base patch. some patch;
}

pub example_host-SignsMessages : SignsMessages example_host
example_host-SignsMessages = record {
  b64 = λ bytes. refl;
  key_length = λ seed. refl;
  signature_length = λ seed message. refl;
  is_key = λ seed. refl;
  verifies = λ seed message. refl;
}

pub example_host-DecodesText : DecodesText example_host
example_host-DecodesText = record {
  b64 = λ bytes. refl;
  simple_diff = λ d.
      let a = d.algorithm in
      let b = d.base_hash in
      let o = d.output_hash in
      rw
        (
          take-append a (b ++ (o ++ d.insert_b64)),
          drop-append a (b ++ (o ++ d.insert_b64)),
          take-append b (o ++ d.insert_b64),
          drop-append b (o ++ d.insert_b64),
          take-append o d.insert_b64,
          drop-append o d.insert_b64,
        )
        refl;
}
