-- ===== src/Tests/Manifests.antt =====
-- The theorems on the provenance tool, applied to a release directory with one artifact: a manifest is
-- generated, and verified on the disk that this leaves.
use Prim.Native.String.{String}
use text.Mathlib.Text.{◌==◌}
use fluxora_contracts.Base.{
  ◌+ℤ◌, ◌-ℤ◌, ◌*ℤ◌, ◌/ℤ◌, ◌⊎◌, ℕ, ◌≡◌, refl, subst, true, if◌then◌else◌, none, some, [], ◌∷◌,
}
use fluxora_contracts.Provenance.{
  PathBuf, Manifest, Outcome, done, failed, panicked, Bytes, of_text, not_text, readable, Disk,
  Machine, ◌>>=◌,
}
use fluxora_contracts.Provenance.Build.{
  find_workspace_root, load_toml, profile_from_workspace, soroban_sdk_version, toolchain_channel,
  git_metadata, collect_metadata,
}
use fluxora_contracts.Provenance.Calendar.{
  year_of_era, day_of_year, date_in_year, shifted_date, civil_from_days, digits, padded,
  format_unix,
}
use fluxora_contracts.Provenance.Gate.{
  now_rfc3339, length, check_integrity, check_complete, check_inputs, hash_file, list_wasm_files,
  validate_release_dir, collect_artifacts, default_path, write_atomic, same_path, generate, verify,
}
use fluxora_contracts.Provenance.Acceptance.{Accepted, same_answer, verify-Accepted}
use fluxora_contracts.Provenance.Artifacts.{SameArtifacts}
use fluxora_contracts.Provenance.Writing.{is_listing, Written}
use fluxora_contracts.Provenance.RoundTrip.{Unchanged, generate-verify}

abbrev recorded : Manifest ℕ
recorded = record {
  schema = "https://slsa.dev/provenance/v1.0";
  subject = record { name = "a.wasm"; sha256 = "A" } ∷ [];
  build = record {
    build_type = "https://github.com/Fluxora-Org/Fluxora-Contracts/provenance/v1";
    target = "wasm32v1-none";
    profile = record { values = [] };
    git_revision = "abc";
    git_ref = some "abc";
    git_dirty = true;
    toolchain_channel = none;
    rustc = "1.80";
    cargo = "1.80";
    soroban_sdk = "soroban-sdk";
    host = "linux";
    started_on = "1970-01-01T00:00:00Z";
  };
}

-- Every lookup in a TOML document finds the name of the SDK; a file is its own hash.
abbrev text_part : Bytes → String
text_part (of_text s) = s
text_part (not_text b) = ""

abbrev machine : Machine ℕ ℕ
machine = record {
  sha256_hex = text_part;
  extension = λ name. if name == "a.wasm" then some "wasm" else none;
  canonicalize = λ p. none;
  run_git = λ q p. some "abc";
  version = λ t. done "1.80";
  host_triple = done "linux";
  parse_toml = λ text. some 0;
  get = λ doc k. some 0;
  as_str = λ v. some "soroban-sdk";
  as_array = λ v. some (0 ∷ []);
  as_table = λ v. some [];
  to_json = λ v. some v;
  manifest_text = λ mf. some "manifest";
  read_manifest = λ text. if text == "manifest\n" then some recorded else none;
  profile_text = λ p. some "{}";
  unix_time = some 0;
}

abbrev release : PathBuf
release = "release" ∷ []

abbrev workspace : PathBuf
workspace = "fluxora" ∷ []

abbrev disk : Disk
disk = record {
  is_dir = λ p. same_path p release;
  file = λ p.
      if same_path p ("a.wasm" ∷ release)
      then some (readable (of_text "A"))
      else (if same_path p ("Cargo.toml" ∷ workspace)
          then some (readable (of_text ""))
          else (if same_path p ("Cargo.lock" ∷ workspace)
              then some (readable (of_text ""))
              else none));
  names = λ p. some ("a.wasm" ∷ []);
  writes = λ p. true;
  renames = λ p q. true;
}

abbrev disk_of : Outcome (Manifest ℕ × Disk) → Disk
disk_of (done r) = r.1
disk_of (failed x) = disk
disk_of panicked = disk

abbrev released : Disk
released = disk_of (generate machine disk release none (some workspace) "wasm32v1-none")

generated :
    generate machine disk release none (some workspace) "wasm32v1-none" ≡ done (recorded, released)
unfolding generate validate_release_dir collect_artifacts list_wasm_files hash_file collect_metadata
    git_metadata toolchain_channel soroban_sdk_version profile_from_workspace load_toml ◌>>=◌
    find_workspace_root write_atomic now_rfc3339 format_unix padded digits civil_from_days
    shifted_date date_in_year day_of_year year_of_era ◌+ℤ◌ ◌-ℤ◌ ◌*ℤ◌ ◌/ℤ◌
generated = refl

released-Unchanged : Unchanged machine disk released release
unfolding generate validate_release_dir collect_artifacts list_wasm_files hash_file collect_metadata
    git_metadata toolchain_channel soroban_sdk_version profile_from_workspace load_toml ◌>>=◌
    find_workspace_root write_atomic now_rfc3339 format_unix padded digits civil_from_days
    shifted_date date_in_year day_of_year year_of_era ◌+ℤ◌ ◌-ℤ◌ ◌*ℤ◌ ◌/ℤ◌
released-Unchanged = record {
  is_dir = refl;
  artifacts = refl;
  contents = λ names listed.
      subst (SameArtifacts machine disk released release) (same_answer listed) (refl, tt);
  roots = λ w. elim w [ none ↦ refl | some root ↦ refl ];
  metadata = λ root. refl;
}

generate-verify_example :
    (verify machine released release none (some workspace) "wasm32v1-none" ≡ done 1)
    × ((is_listing release ("provenance.json" ∷ release) ≡ true)
        ⊎ Written machine released ("provenance.json" ∷ release) recorded)
unfolding generate validate_release_dir collect_artifacts list_wasm_files hash_file collect_metadata
    git_metadata toolchain_channel soroban_sdk_version profile_from_workspace load_toml ◌>>=◌
    find_workspace_root write_atomic now_rfc3339 format_unix padded digits civil_from_days
    shifted_date date_in_year day_of_year year_of_era ◌+ℤ◌ ◌-ℤ◌ ◌*ℤ◌ ◌/ℤ◌
generate-verify_example =
    generate-verify machine disk released released release none (some workspace) "wasm32v1-none"
      "manifest\n" "{}" recorded generated refl refl refl released-Unchanged

verified : verify machine released release none (some workspace) "wasm32v1-none" ≡ done 1
unfolding verify check_integrity check_complete check_inputs generate validate_release_dir
    collect_artifacts list_wasm_files hash_file collect_metadata git_metadata toolchain_channel
    soroban_sdk_version profile_from_workspace load_toml ◌>>=◌ find_workspace_root write_atomic
    now_rfc3339 format_unix padded digits civil_from_days shifted_date date_in_year day_of_year
    year_of_era ◌+ℤ◌ ◌-ℤ◌ ◌*ℤ◌ ◌/ℤ◌
verified = refl

verify-Accepted_example :
    (text : String) × (mf : Manifest ℕ) × (released.file (default_path machine release none)
      ≡ some (readable (of_text text)))
    × (machine.read_manifest text ≡ some mf)
    × (1 ≡ length mf.subject)
    × Accepted machine released release (some workspace) "wasm32v1-none" mf
verify-Accepted_example =
    verify-Accepted machine released release none (some workspace) "wasm32v1-none" 1 verified
