-- ===== src/Lib.antt =====
-- Models of fl_codepush_box, the code-push client of a Flutter application, which downloads and
-- installs signed patches, chooses the patch that a launch starts, and falls back when a patch
-- crashes. The sources are the core crate, under crates/fcb_core/src, and the updater library with
-- its C interface, updater/src/lib.rs.
--
-- The parts, with the file that models each and the Rust functions in it:
-- Bytecode: bytecode.rs. A patch's payload is a module of bytecode functions. Bytecode/OpCode has
-- the opcodes, Bytecode/Verify `validate_bytecode` with both of its loops, Bytecode/Envelope
-- `validate_envelope` and `validate`, Bytecode/Reader and Bytecode/Writer the binary format
-- (`read_binary`, `to_binary_vec`), Bytecode/Load `from_slice` and its kin, Bytecode/Targets the
-- gate on the names that a module calls in the AOT snapshot, Bytecode/Pool the constant pool.
-- State: state.rs. State has the records, State/Disk what is below `cache_dir` with `load_state`
-- and the event log, State/Patches the choice of a patch and the marking of bad ones, State/Launch
-- `launch_patch`, `ready_patch`, `mark_success` and `mark_failure`, State/PatchFiles the contract of
-- a payload and the diff base, State/Prune the pruning of installed patches, State/Install
-- `install_payload_with_baseline`, and State/Reach the sequences of these operations.
-- Manifest and Signing: manifest.rs and crypto.rs, the records of a manifest and the check of its
-- signature, which an install makes first; Signing/Keys has the private keys, in base64 and in the
-- OpenSSH format, and Signing/Sign `sign_patch_manifest`.
-- Diff: diff.rs, the simple diff, and the choice among the diff algorithms, which an install of a
-- snapshot patch applies to an earlier artifact.
-- Linker: linker.rs, the plan that says which functions of a patch are interpreted.
-- Client: server_api.rs, the client of the patch server. A server is any function from requests and
-- attempts to replies. Client/Calls has the calls with JSON (`post_json`, `get_json`, `check`),
-- Client/Download the downloads with a resume offset, where the answers of `should_cancel` are any
-- sequence of Booleans.
-- Ffi: updater/src/lib.rs, which ties the parts together. Ffi has the runtime, Ffi/Config `fcb_init`,
-- the setters and runtime_config.json (Ffi/Config/Process has a process that calls them, with the files
-- that they write), Ffi/Keys the formats of the public key, Ffi/Downloads
-- `download_patch_files` with the part file that the next download resumes, Ffi/Progress the text of
-- its length, Ffi/Events the events for the server, Ffi/Install the check for an update and
-- `download_and_install`, which calls State/Install, and Ffi/Calls the calls about launches, which
-- call State/Launch. Ffi/Flights has `check_for_update_singleflight` as the steps of threads, with every
-- interleaving of them. Otherwise a call takes and returns the runtime and what is below `cache_dir`.
-- BuildInfo: build_info.rs, the comparison of the builds of a release and of a patch.
-- AotEntryPoints: cli/src/aot_entry_points.rs of the command line tool, `normalize_entry` with
-- `strip_mangle`: the names that the gate of Bytecode/Targets compares.
-- Host: what comes from other packages (hashes, base64, ed25519, serde_json, zstd, bsdiff), as a
-- record of functions that the models take, with the laws that a theorem needs of them.
--
-- Numbers are natural numbers, and the wrap-around of a machine integer is written out. Texts and
-- byte strings are lists of bytes. A `Result` is one, with the source's early returns as the binds
-- of a do block. A disk is a record that each operation takes and returns; the current time is an
-- argument.
--
-- Fuel: the two loops of `validate_bytecode` and the loop of `targets_for` take the length of the
-- code plus one, since each round moves on by a byte at least; the suffix loop of
-- `create_simple_diff` takes the length of the base, and the pruning loop the number of installed
-- patches, of which each round removes one. The loops of attempts take the five attempts that the
-- source makes; a round of a download that is asked for again from 0 is one of them. The number of
-- digits of a `u32` is at most ten, and of a `u64` at most twenty.
--
-- Not modelled: failures of the file system other than missing and unreadable contents, an events.log
-- that is not UTF-8 (the library writes JSON lines in UTF-8 only), other
-- processes that write the same directory, the pointers that C gets, the texts of errors, the delays
-- of the retries other than their length, the JSON of a request, configuration (config.rs), canonical
-- JSON (manifest.rs) and the rest of the command line tool (cli/src): they are glue around the core,
-- or code of other packages.
pub mod Prelude
pub mod Bytecode
pub mod Manifest
pub mod Host
pub mod Signing
pub mod Diff
pub mod State
pub mod Linker
pub mod Client
pub mod Ffi
pub mod BuildInfo
pub mod AotEntryPoints
