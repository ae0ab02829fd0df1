-- ===== src/Provenance/Build.antt =====
-- The discovery of the build's inputs: the workspace's root, its profile, the SDK, the toolchain, git.
use Prim.Native.String.{String}
use text.Mathlib.Text.{◌==◌}
use fluxora_contracts.Base.{Bool, false, not, if◌then◌else◌, Option, none, some, List, [], ◌∷◌}
use fluxora_contracts.Types.{is_some}
use fluxora_contracts.Provenance.{
  PathBuf, Profile, workspace_root_not_found, io, toml, json, sdk_version_not_found, Outcome, done,
  git, failed, panicked, ok_or, Bytes, of_text, not_text, File, readable, unreadable, Disk, Machine,
  rev_parse_head, show_current_branch, status_porcelain, rustc_tool, cargo_tool, ◌>>=◌,
}

-- `option.and_then`
abbrev pub and_then : {A B : Type 0} → Option A → (A → Option B) → Option B
and_then none f = none
and_then (some a) f = f a

abbrev pub map_option : {A B : Type 0} → (A → B) → Option A → Option B
map_option f none = none
map_option f (some a) = some (f a)

abbrev pub is_file : Disk → PathBuf → Bool
is_file d p = is_some (d.file p)

-- `std::fs::read`
abbrev pub bytes_of : PathBuf → Option File → Outcome Bytes
bytes_of p none = failed (io p)
bytes_of p (some unreadable) = failed (io p)
bytes_of p (some (readable b)) = done b

-- `std::fs::read_to_string`, which fails on bytes that are not UTF-8.
abbrev pub text_of : PathBuf → Option File → Outcome String
text_of p none = failed (io p)
text_of p (some unreadable) = failed (io p)
text_of p (some (readable (not_text b))) = failed (io p)
text_of p (some (readable (of_text s))) = done s

abbrev pub read_to_string : Disk → PathBuf → Outcome String
read_to_string d p = text_of p (d.file p)

-- `.ok()`
abbrev ok_part : {A : Type 0} → Outcome A → Option A
ok_part (failed x) = none
ok_part panicked = none
ok_part (done a) = some a

-- A write to a map replaces the value of a key that it has.
abbrev pub insert : {V : Type 0} → String → V → List (String × V) → List (String × V)
insert k v [] = (k, v) ∷ []
insert k v ((j, w) ∷ values) = if j == k then (k, v) ∷ values else (j, w) ∷ insert k v values

module _ {T J : Type 0} (m : Machine T J) where
  -- A directory whose `Cargo.toml` parses and has a workspace.
  abbrev declares_workspace : Disk → PathBuf → Bool
  declares_workspace d dir = is_some (
      and_then (ok_part (read_to_string d ("Cargo.toml" ∷ dir)))
        (λ text. and_then (m.parse_toml text) (λ doc. m.get doc "workspace")))

  -- The loop walks up to the root, which has no component left.
  abbrev walk_up : Disk → PathBuf → Option PathBuf
  walk_up d [] = if declares_workspace d [] then some [] else none
  walk_up d (c ∷ dir) =
      let above = walk_up d dir in if declares_workspace d (c ∷ dir) then some (c ∷ dir) else above

  unfoldable pub find_workspace_root : Disk → PathBuf → Outcome PathBuf
  find_workspace_root d from = do
    dir ← ok_or (m.canonicalize from) (io from)
    ok_or (walk_up d dir) (workspace_root_not_found from)

  unfoldable pub load_toml : Disk → PathBuf → String → Outcome T
  load_toml d root file = do text ← read_to_string d (file ∷ root); ok_or (m.parse_toml text) toml

  abbrev to_values : List (String × J) → List (String × T) → Outcome (List (String × J))
  to_values values [] = done values
  to_values values ((key, value) ∷ rest) = do
    v ← ok_or (m.to_json value) json
    to_values (insert key v values) rest

  abbrev or_empty : Option (List (String × T)) → List (String × T)
  or_empty none = []
  or_empty (some release) = release

  unfoldable pub profile_from_workspace : Disk → PathBuf → Outcome (Profile J)
  unfolding load_toml
  profile_from_workspace d root = do
    doc ← load_toml d root "Cargo.toml"
    let release = and_then (m.get doc "profile") (λ p. and_then (m.get p "release") m.as_table)
    values ← to_values [] (or_empty release)
    done record { values = values }

  abbrev named : Option String → String → Bool
  named none name = false
  named (some s) name = s == name

  -- The first package with the name decides.
  abbrev sdk_package : List T → Outcome String
  sdk_package [] = failed sdk_version_not_found
  sdk_package (pkg ∷ packages) =
      let rest = sdk_package packages in
      if named (and_then (m.get pkg "name") m.as_str) "soroban-sdk"
      then ok_or (and_then (m.get pkg "version") m.as_str) sdk_version_not_found
      else rest

  unfoldable pub soroban_sdk_version : Disk → PathBuf → Outcome String
  unfolding load_toml
  soroban_sdk_version d root = do
    doc ← load_toml d root "Cargo.lock"
    packages ← ok_or (and_then (m.get doc "package") m.as_array) sdk_version_not_found
    sdk_package packages

  abbrev channel : Disk → PathBuf → Outcome (Option String)
  channel d root = do
    doc ← load_toml d root "rust-toolchain.toml"
    done (and_then (m.get doc "toolchain") (λ t. and_then (m.get t "channel") m.as_str))

  unfoldable pub toolchain_channel : Disk → PathBuf → Outcome (Option String)
  unfolding load_toml
  toolchain_channel d root =
      if is_file d ("rust-toolchain.toml" ∷ root) then channel d root else done none

  -- `.ok().filter(|r| !r.is_empty())`
  abbrev nonempty_ref : Option String → Option String
  nonempty_ref none = none
  nonempty_ref (some r) = if r == "" then none else some r

  unfoldable pub git_metadata : PathBuf → Outcome (String × (Option String × Bool))
  git_metadata root = do
    revision ← ok_or (m.run_git rev_parse_head root) git
    let reference = nonempty_ref (m.run_git show_current_branch root)
    status ← ok_or (m.run_git status_porcelain root) git
    done (revision, (reference, not (status == "")))

-- What was found of the build.
pub record BuildMetadata (J : Type 0) : Type 0 where
  pub git_revision : String
  pub git_ref : Option String
  pub git_dirty : Bool
  pub toolchain_channel : Option String
  pub rustc : String
  pub cargo : String
  pub soroban_sdk : String
  pub host : String
  pub profile : Profile J

module _ {T J : Type 0} (m : Machine T J) where
  unfoldable pub collect_metadata : Disk → PathBuf → Outcome (BuildMetadata J)
  unfolding git_metadata toolchain_channel soroban_sdk_version profile_from_workspace
  collect_metadata d root = do
    (revision, (reference, dirty)) ← git_metadata m root
    channel ← toolchain_channel m d root
    rustc ← m.version rustc_tool
    cargo ← m.version cargo_tool
    sdk ← soroban_sdk_version m d root
    host ← m.host_triple
    profile ← profile_from_workspace m d root
    done record {
      git_revision = revision;
      git_ref = reference;
      git_dirty = dirty;
      toolchain_channel = channel;
      rustc = rustc;
      cargo = cargo;
      soroban_sdk = sdk;
      host = host;
      profile = profile;
    }
