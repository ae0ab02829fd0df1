-- ===== src/Provenance/Gate.antt =====
-- `generate`, which records the artifacts with their inputs, and `verify`, the release gate.
use Prim.Native.Nat.{Ordering, lt, eq, gt}
use Prim.Native.String.{String}
use Prim.Native.String
use text.Mathlib.Text.{◌==◌}
use fluxora_contracts.Base.{
  ℕ, zero, suc, Bool, true, false, not, ◌&&◌, ◌||◌, if◌then◌else◌, Option, none, some, List, [],
  ◌∷◌,
}
use fluxora_contracts.Types.{is_some}
use fluxora_contracts.Provenance.{
  PathBuf, Subject, BuildInfo, Manifest, Field, target, git_revision, rustc, cargo, soroban_sdk,
  toolchain_channel, profile, release_dir_missing, not_a_directory, no_wasm_artifacts,
  manifest_missing, io, json, missing_artifact, unlisted_artifact, hash_mismatch, metadata_mismatch,
  Outcome, done, failed, panicked, ok_or, reject_if, of_text, File, readable, Disk, Machine, ◌>>=◌,
  ◌>>◌,
}
use fluxora_contracts.Provenance.Calendar.{format_unix}
use fluxora_contracts.Provenance.Build.{
  is_file, bytes_of, read_to_string, map_option, insert, BuildMetadata, find_workspace_root,
  collect_metadata,
}

abbrev pub length : {A : Type 0} → List A → ℕ
length [] = zero
length (x ∷ xs) = suc (length xs)

abbrev pub filter : {A : Type 0} → (A → Bool) → List A → List A
filter p [] = []
filter p (x ∷ xs) = let rest = filter p xs in if p x then x ∷ rest else rest

abbrev pub same_path : PathBuf → PathBuf → Bool
same_path [] [] = true
same_path [] (c ∷ cs) = false
same_path (c ∷ cs) [] = false
same_path (c ∷ cs) (d ∷ ds) = c == d && same_path cs ds

-- `sort` on the paths of one directory, which compares their last components.
abbrev is_after : Ordering → Bool
is_after lt = false
is_after eq = false
is_after gt = true

abbrev sorted_insert : String → List String → List String
sorted_insert s [] = s ∷ []
sorted_insert s (x ∷ xs) =
    let rest = sorted_insert s xs in if is_after (String.compare s x) then x ∷ rest else s ∷ x ∷ xs

abbrev sort : List String → List String
sort [] = []
sort (x ∷ xs) = sorted_insert x (sort xs)

abbrev is_wasm : Option String → Bool
is_wasm none = false
is_wasm (some e) = e == "wasm"

abbrev pub lookup : {V : Type 0} → String → List (String × V) → Option V
lookup k [] = none
lookup k ((j, v) ∷ m) = if j == k then some v else lookup k m

-- `opt_string`
abbrev pub opt_string : Option String → String
opt_string none = "<none>"
opt_string (some s) = s

abbrev pub check_field : Field → String → String → Outcome Unit
check_field field recorded actual =
    if recorded == actual then done tt else failed (metadata_mismatch field recorded actual)

abbrev pub lists : List Subject → String → Bool
lists [] name = false
lists (s ∷ subjects) name = s.name == name || lists subjects name

abbrev check_hash : Subject → Option String → Outcome Unit
check_hash s none = failed (missing_artifact s.name)
check_hash s (some actual) =
    if actual == s.sha256 then done tt else failed (hash_mismatch s.name s.sha256 actual)

-- Every recorded artifact exists with the recorded hash.
unfoldable pub check_integrity : List (String × String) → List Subject → Outcome Unit
check_integrity current [] = done tt
check_integrity current (s ∷ subjects) =
    check_hash s (lookup s.name current) >> check_integrity current subjects

-- Every artifact is recorded.
unfoldable pub check_complete : List Subject → List (String × String) → Outcome Unit
check_complete subjects [] = done tt
check_complete subjects ((name, hash) ∷ current) =
    reject_if (not (lists subjects name)) (unlisted_artifact name)
    >> check_complete subjects current

unfoldable pub shasums_text : List Subject → String
shasums_text [] = ""
shasums_text (s ∷ subjects) =
    String.◌++◌ (String.◌++◌ s.sha256 (String.◌++◌ "  " (String.◌++◌ s.name "\n")))
      (shasums_text subjects)

module _ {T J : Type 0} (m : Machine T J) where
  unfoldable pub hash_file : Disk → PathBuf → Outcome String
  hash_file d path = do bytes ← bytes_of path (d.file path); done (m.sha256_hex bytes)

  -- The names of the artifacts in a directory, sorted.
  unfoldable pub list_wasm_files : Disk → PathBuf → Outcome (List String)
  list_wasm_files d dir = do
    names ← ok_or (d.names dir) (io dir)
    done (sort (filter (λ name. is_file d (name ∷ dir) && is_wasm (m.extension name)) names))

  unfoldable pub validate_release_dir : Disk → PathBuf → Outcome Unit
  validate_release_dir d dir = do
    reject_if (not (d.is_dir dir || is_file d dir)) (release_dir_missing dir)
    reject_if (not (d.is_dir dir)) (not_a_directory dir)

  abbrev pub subjects_of : Disk → PathBuf → List String → Outcome (List Subject)
  subjects_of d dir [] = done []
  subjects_of d dir (name ∷ names) = do
    hash ← hash_file d (name ∷ dir)
    subjects ← subjects_of d dir names
    done (record { name = name; sha256 = hash } ∷ subjects)

  abbrev is_empty : List String → Bool
  is_empty [] = true
  is_empty (name ∷ names) = false

  unfoldable pub collect_artifacts : Disk → PathBuf → Outcome (List Subject)
  unfolding hash_file list_wasm_files
  collect_artifacts d dir = do
    files ← list_wasm_files d dir
    reject_if (is_empty files) (no_wasm_artifacts dir)
    subjects_of d dir files

  -- The map from the artifacts' names to their hashes.
  abbrev pub hashes_of :
      Disk → PathBuf → List (String × String) → List String → Outcome (List (String × String))
  hashes_of d dir current [] = done current
  hashes_of d dir current (name ∷ names) = do
    hash ← hash_file d (name ∷ dir)
    hashes_of d dir (insert name hash current) names

  abbrev pub root_of : Disk → PathBuf → Option PathBuf → Outcome PathBuf
  root_of d dir (some root) = done root
  root_of d dir none = find_workspace_root m d dir

  abbrev pub default_path : PathBuf → Option PathBuf → PathBuf
  default_path dir none = "provenance.json" ∷ dir
  default_path dir (some path) = path

  -- A file is written under another name first, and then renamed.
  abbrev present : String → List String → List String
  present name [] = name ∷ []
  present name (n ∷ names) = if n == name then n ∷ names else n ∷ present name names

  abbrev absent : String → List String → List String
  absent name names = filter (λ n. not (n == name)) names

  abbrev pub put_file : String → PathBuf → Option File → Disk → Disk
  put_file name dir contents d = record d {
    file = λ p. if same_path p (name ∷ dir) then contents else d.file p;
    names = λ p.
        if same_path p dir
        then map_option (if is_some contents then present name else absent name) (d.names p)
        else d.names p;
  }

  -- The root has no file name and is not replaced. A failure carries no disk.
  unfoldable pub write_atomic : PathBuf → String → Disk → Outcome Disk
  write_atomic [] contents d = do
    reject_if (not (d.writes (".out.tmp" ∷ []))) (io (".out.tmp" ∷ []))
    failed (io [])
  write_atomic (name ∷ dir) contents d = do
    let tmp = String.◌++◌ "." (String.◌++◌ name ".tmp")
    reject_if (not (d.writes (tmp ∷ dir))) (io (tmp ∷ dir))
    let data_file = some (readable (of_text contents))
    let written = put_file tmp dir data_file d
    reject_if (not (written.renames (tmp ∷ dir) (name ∷ dir))) (io (name ∷ dir))
    done (put_file tmp dir none (put_file name dir data_file written))

  -- `unwrap_or(0)`
  abbrev seconds : Option ℕ → ℕ
  seconds none = 0
  seconds (some secs) = secs

  abbrev or_panic : {A : Type 0} → Option A → Outcome A
  or_panic none = panicked
  or_panic (some a) = done a

  unfoldable pub now_rfc3339 : Outcome String
  now_rfc3339 = or_panic (format_unix (seconds m.unix_time))

  unfoldable pub generate :
      Disk → PathBuf → Option PathBuf → Option PathBuf → String → Outcome (Manifest J × Disk)
  unfolding validate_release_dir collect_artifacts write_atomic shasums_text
  generate d dir manifest_path workspace_root requested = do
    validate_release_dir d dir
    root ← root_of d dir workspace_root
    artifacts ← collect_artifacts d dir
    now ← collect_metadata m d root
    started_on ← now_rfc3339
    let manifest : Manifest J = record {
      schema = "https://slsa.dev/provenance/v1.0";
      subject = artifacts;
      build = record {
        build_type = "https://github.com/Fluxora-Org/Fluxora-Contracts/provenance/v1";
        target = requested;
        profile = now.profile;
        git_revision = now.git_revision;
        git_ref = now.git_ref;
        git_dirty = now.git_dirty;
        toolchain_channel = now.toolchain_channel;
        rustc = now.rustc;
        cargo = now.cargo;
        soroban_sdk = now.soroban_sdk;
        host = now.host;
        started_on = started_on;
      };
    }
    text ← ok_or (m.manifest_text manifest) json
    written ← write_atomic (default_path dir manifest_path) (String.◌++◌ text "\n") d
    listed ← write_atomic ("SHASUMS" ∷ dir) (shasums_text artifacts) written
    done (manifest, listed)

  -- The comparison of the recorded inputs with the current ones, in the order of the source.
  unfoldable pub check_inputs : BuildInfo J → BuildMetadata J → String → Outcome Unit
  check_inputs b now requested = do
    check_field target b.target requested
    check_field git_revision b.git_revision now.git_revision
    check_field rustc b.rustc now.rustc
    check_field cargo b.cargo now.cargo
    check_field soroban_sdk b.soroban_sdk now.soroban_sdk
    check_field toolchain_channel (opt_string b.toolchain_channel)
        (opt_string now.toolchain_channel)
    recorded_profile ← ok_or (m.profile_text b.profile) json
    current_profile ← ok_or (m.profile_text now.profile) json
    check_field profile recorded_profile current_profile

  unfoldable pub verify : Disk → PathBuf → Option PathBuf → Option PathBuf → String → Outcome ℕ
  unfolding validate_release_dir hash_file list_wasm_files check_integrity check_complete
      check_inputs
  verify d dir manifest_path workspace_root requested = do
    validate_release_dir d dir
    let path = default_path dir manifest_path
    reject_if (not (is_file d path)) (manifest_missing path)
    text ← read_to_string d path
    manifest ← ok_or (m.read_manifest text) json
    files ← list_wasm_files d dir
    current ← hashes_of d dir [] files
    check_integrity current manifest.subject
    check_complete manifest.subject current
    root ← root_of d dir workspace_root
    now ← collect_metadata m d root
    check_inputs manifest.build now requested
    done (length manifest.subject)
