-- ===== src/Provenance.antt =====
-- The provenance tool (tools/provenance/src/lib.rs): its records, its errors, the files that it works on
-- and the programs and libraries that it calls, which are parameters.
pub mod Build
pub mod Gate
pub mod Acceptance
pub mod Artifacts
pub mod Writing
pub mod RoundTrip
pub mod Calendar
pub mod Gregorian
pub mod Dates
use Prim.Native.String.{String}
use fluxora_contracts.Base.{ℕ, Bool, true, false, Option, none, some, List}

-- An absolute path, its last component first.
abbrev pub PathBuf : Type 0
PathBuf = List String

pub record Subject : Type 0 where
  pub name : String
  pub sha256 : String

-- The release profile: keys with values of JSON.
pub record Profile (J : Type 0) : Type 0 where
  pub values : List (String × J)

pub record BuildInfo (J : Type 0) : Type 0 where
  pub build_type : String
  pub target : String
  pub profile : Profile J
  pub git_revision : String
  pub git_ref : Option String
  pub git_dirty : Bool
  pub toolchain_channel : Option String
  pub rustc : String
  pub cargo : String
  pub soroban_sdk : String
  pub host : String
  pub started_on : String

pub record Manifest (J : Type 0) : Type 0 where
  pub schema : String
  pub subject : List Subject
  pub build : BuildInfo J

-- The recorded inputs that are compared.
pub data Field : Type 0 where
  target git_revision rustc cargo soroban_sdk toolchain_channel profile : Field

-- The sources of an error that come from a library are left out.
pub data Failure : Type 0 where
  release_dir_missing not_a_directory no_wasm_artifacts : PathBuf → Failure
  workspace_root_not_found io manifest_missing : PathBuf → Failure
  utf8 toml json git tool_version host_parse sdk_version_not_found : Failure
  missing_artifact unlisted_artifact : String → Failure
  hash_mismatch : String → String → String → Failure
  metadata_mismatch : Field → String → String → Failure

pub data Outcome (A : Type 0) : Type 0 where
  done : A → Outcome A
  failed : Failure → Outcome A
  panicked : Outcome A

abbrev pub ok_or : {A : Type 0} → Option A → Failure → Outcome A
ok_or none x = failed x
ok_or (some a) x = done a

abbrev pub reject_if : Bool → Failure → Outcome Unit
reject_if true x = failed x
reject_if false x = done tt

infixl 5 ◌>>=◌ ◌>>◌
unfoldable pub ◌>>=◌ : {A B : Type 0} → Outcome A → (A → Outcome B) → Outcome B
done a >>= f = f a
failed x >>= f = failed x
panicked >>= f = panicked

abbrev pub ◌>>◌ : {B : Type 0} → Outcome Unit → Outcome B → Outcome B
m >> k = m >>= λ _. k

-- The bytes of a file: those of a text, or others, which are not UTF-8.
pub data Bytes : Type 0 where
  of_text : String → Bytes
  not_text : List ℕ → Bytes

pub data File : Type 0 where
  readable : Bytes → File
  unreadable : File

-- The files: what is a directory, what is a file, the names in a directory where they can be read, and
-- where a file can be written, and renamed to another path.
pub record Disk : Type 0 where
  pub is_dir : PathBuf → Bool
  pub file : PathBuf → Option File
  pub names : PathBuf → Option (List String)
  pub writes : PathBuf → Bool
  pub renames : PathBuf → PathBuf → Bool

pub data Query : Type 0 where
  rev_parse_head show_current_branch status_porcelain : Query

pub data Tool : Type 0 where
  rustc_tool cargo_tool : Tool

-- The programs and the libraries: `T` are the values of TOML, `J` those of JSON. `unix_time` is the
-- clock, in seconds since 1970, or `none` where it is set before.
pub record Machine (T J : Type 0) : Type 0 where
  pub sha256_hex : Bytes → String
  pub extension : String → Option String
  pub canonicalize : PathBuf → Option PathBuf
  pub run_git : Query → PathBuf → Option String
  pub version : Tool → Outcome String
  pub host_triple : Outcome String
  pub parse_toml : String → Option T
  pub get : T → String → Option T
  pub as_str : T → Option String
  pub as_array : T → Option (List T)
  pub as_table : T → Option (List (String × T))
  pub to_json : T → Option J
  pub manifest_text : Manifest J → Option String
  pub read_manifest : String → Option (Manifest J)
  pub profile_text : Profile J → Option String
  pub unix_time : Option ℕ
