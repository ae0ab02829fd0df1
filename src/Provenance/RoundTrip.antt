-- ===== src/Provenance/RoundTrip.antt =====
-- `verify` on what `generate` has recorded.
use Prim.Native.String.{String}
use Prim.Native.String
use fluxora_contracts.Base.{
  ◌⊎◌, ◌∷◌, ◌≡◌, refl, sym, ◌∙◌, ap, subst, true, not, Option, some, List, [], arith,
}
use fluxora_contracts.Provenance.{of_text, readable}
use fluxora_contracts.Provenance.Writing.{is_listing, Written, generate-Written}
use fluxora_contracts.Provenance.Gate.{now_rfc3339, write_atomic, shasums_text}
use fluxora_contracts.Provenance.{
  PathBuf, Subject, BuildInfo, Manifest, done, ok_or, reject_if, Disk, Machine, json,
  manifest_missing, ◌>>=◌,
}
use fluxora_contracts.Provenance.Build.{is_file, read_to_string, BuildMetadata, collect_metadata}
use fluxora_contracts.Provenance.Gate.{
  length, opt_string, check_field, lists, list_wasm_files, validate_release_dir, subjects_of,
  collect_artifacts, root_of, default_path, check_inputs, generate, verify,
}
use fluxora_contracts.Provenance.Acceptance.{>>=-done, same_answer, ==_self}
use fluxora_contracts.Provenance.Artifacts.{
  SameArtifacts, chain, hashes_of-again, hashes_of-AllOf, subjects_of-Recorded,
  check_integrity-done, check_complete-done,
}

check_field-done : (f : _) (a b : String) → a ≡ b → check_field f a b ≡ done tt
check_field-done f a b e = let self = ==_self b in rw e (ground (arith, self))

-- Nothing that the gate looks at has changed from one disk to another.
pub record Unchanged {T J : Type 0} (m : Machine T J) (d d' : Disk) (dir : PathBuf) : Type 0 where
  pub is_dir : d'.is_dir dir ≡ true
  pub artifacts : list_wasm_files m d' dir ≡ list_wasm_files m d dir
  pub contents :
      (names : List String) → list_wasm_files m d dir ≡ done names → SameArtifacts m d d' dir names
  pub roots : (workspace : Option PathBuf) → root_of m d' dir workspace ≡ root_of m d dir workspace
  pub metadata : (root : PathBuf) → collect_metadata m d' root ≡ collect_metadata m d root

module _ {T J : Type 0} (m : Machine T J) where
  check_inputs-own :
      (b : BuildInfo J) (now : BuildMetadata J) (requested text : String)
      → b.target ≡ requested
      → b.git_revision ≡ now.git_revision
      → b.rustc ≡ now.rustc
      → b.cargo ≡ now.cargo
      → b.soroban_sdk ≡ now.soroban_sdk
      → b.toolchain_channel ≡ now.toolchain_channel
      → b.profile ≡ now.profile
      → m.profile_text b.profile ≡ some text
      → check_inputs m b now requested ≡ done tt
  unfolding check_inputs
  check_inputs-own b now requested text target revision rustc cargo sdk toolchain profile written =
      chain _ _ (check_field-done _ _ _ target) (
        chain _ _ (check_field-done _ _ _ revision) (
          chain _ _ (check_field-done _ _ _ rustc) (
            chain _ _ (check_field-done _ _ _ cargo) (
              chain _ _ (check_field-done _ _ _ sdk) (
                chain _ _ (check_field-done _ _ _ (ap opt_string toolchain)) (
                  chain _ _ (ap (λ o. ok_or o json) written) (
                    chain _ _ (ap (λ o. ok_or o json) (ap m.profile_text (sym profile) ∙ written))
                      (check_field-done _ _ _ refl))))))))

  opened :
      (d' : Disk) (dir : PathBuf) → d'.is_dir dir ≡ true → validate_release_dir m d' dir ≡ done tt
  unfolding validate_release_dir ◌>>=◌
  opened d' dir h = ground (arith, h)

  -- What a generated manifest records.
  record Records (d : Disk) (dir : PathBuf) (workspace : Option PathBuf) (requested : String)
      (mf : Manifest J) : Type 0 where
    root : PathBuf
    rooted : root_of m d dir workspace ≡ done root
    now : BuildMetadata J
    found : collect_metadata m d root ≡ done now
    names : List String
    listed : list_wasm_files m d dir ≡ done names
    subjects : subjects_of m d dir names ≡ done mf.subject
    target : mf.build.target ≡ requested
    git_revision : mf.build.git_revision ≡ now.git_revision
    rustc : mf.build.rustc ≡ now.rustc
    cargo : mf.build.cargo ≡ now.cargo
    soroban_sdk : mf.build.soroban_sdk ≡ now.soroban_sdk
    toolchain_channel : mf.build.toolchain_channel ≡ now.toolchain_channel
    profile : mf.build.profile ≡ now.profile

  collected_subjects :
      (d : Disk) (dir : PathBuf) {artifacts : List Subject}
      → collect_artifacts m d dir ≡ done artifacts
      → (names : List String) × (list_wasm_files m d dir ≡ done names)
        × (subjects_of m d dir names ≡ done artifacts)
  unfolding collect_artifacts
  collected_subjects d dir e0 =
      let (names, listed, e1) = >>=-done (list_wasm_files m d dir) _ e0 in
      let (_, some_there, e2) = >>=-done (reject_if _ _) _ e1 in (names, listed, e2)

  generate-Records :
      (d d1 : Disk) (dir : PathBuf) (manifest_path workspace : Option PathBuf) (requested : String)
      (mf : Manifest J)
      → generate m d dir manifest_path workspace requested ≡ done (mf, d1)
      → Records d dir workspace requested mf
  unfolding generate
  generate-Records d d1 dir manifest_path workspace requested mf e0 =
      let (_, h1, e1) = >>=-done (validate_release_dir m d dir) _ e0 in
      let (root, rooted, e2) = >>=-done (root_of m d dir workspace) _ e1 in
      let (artifacts, collected, e3) = >>=-done (collect_artifacts m d dir) _ e2 in
      let (now, found, e4) = >>=-done (collect_metadata m d root) _ e3 in
      let (started, h0, e4') = >>=-done (now_rfc3339 m) _ e4 in
      let (text, h5, e5) = >>=-done (ok_or _ _) _ e4' in
      let (d2, h6, e6) =
        >>=-done (write_atomic m (default_path m dir manifest_path) (String.◌++◌ text "\n") d) _
          e5 in
      let (d3, h7, e7) =
        >>=-done (write_atomic m ("SHASUMS" ∷ dir) (shasums_text artifacts) d2) _ e6 in
      let (names, listed, subjects) = collected_subjects d dir collected in
      let is_mf = ap (λ (r : Manifest J × Disk). r.0) (same_answer e7) in
      subst (Records d dir workspace requested) is_mf record {
        root = root;
        rooted = rooted;
        now = now;
        found = found;
        names = names;
        listed = listed;
        subjects = subjects;
        target = refl;
        git_revision = refl;
        rustc = refl;
        cargo = refl;
        soroban_sdk = refl;
        toolchain_channel = refl;
        profile = refl;
      }

  -- The manifest that is read and the part of the gate on the artifacts.
  manifest_read :
      (d' : Disk) (path : PathBuf) {text : String}
      → d'.file path ≡ some (readable (of_text text))
      → (reject_if (not (is_file d' path)) (manifest_missing path) ≡ done tt)
        × (read_to_string d' path ≡ done text)
  manifest_read d' path h = (ground (arith, h), ground (arith, h))

  -- The second run finds what the first has recorded.
  verify_again :
      (d d1 d' : Disk) (dir : PathBuf) (manifest_path workspace : Option PathBuf)
      (requested text profile_text : String) (mf : Manifest J)
      → generate m d dir manifest_path workspace requested ≡ done (mf, d1)
      → d'.file (default_path m dir manifest_path) ≡ some (readable (of_text text))
      → m.read_manifest text ≡ some mf
      → m.profile_text mf.build.profile ≡ some profile_text
      → Unchanged m d d' dir
      → verify m d' dir manifest_path workspace requested ≡ done (length mf.subject)
  unfolding verify
  verify_again d d1 d' dir manifest_path workspace requested text profile_text mf e there decoded
        written same =
      let r = generate-Records d d1 dir manifest_path workspace requested mf e in
      let names = r.names in
      let same_names = same.contents names r.listed in
      let (all, listed) = subjects_of-Recorded m d d' dir names r.subjects in
      let (current, hashes) = hashes_of-again m d d' dir names [] same_names r.subjects in
      let (exists, read) = manifest_read d' (default_path m dir manifest_path) there in
      chain _ _ (opened d' dir same.is_dir) (
        chain _ _ exists (
          chain _ _ read (
            chain _ _ (ap (λ o. ok_or o json) decoded) (
              chain _ _ (same.artifacts ∙ r.listed) (
                chain _ _ hashes (
                  chain _ _
                    (check_integrity-done m d d' dir names current mf.subject same_names hashes all)
                    (chain _ _
                      (check_complete-done mf.subject current (
                        hashes_of-AllOf m d d' dir (λ name. lists mf.subject name ≡ true) names []
                          listed tt hashes))
                      (chain _ _ (same.roots workspace ∙ r.rooted) (
                        chain _ _ (same.metadata r.root ∙ r.found) (
                          chain _ _
                            (check_inputs-own mf.build r.now requested profile_text r.target
                              r.git_revision r.rustc r.cargo r.soroban_sdk r.toolchain_channel
                              r.profile written)
                            refl))))))))))

  -- When `generate` succeeds with a manifest, the manifest file of a disk reads as that manifest,
  -- the profile can be written as text, and on that disk the release directory, the list and the
  -- contents of its wasm files, the root of the workspace and what is found of the build are as
  -- they were, `verify` with the same arguments succeeds with the number of its artifacts; and
  -- `generate` has left, at the manifest's path, the manifest as text with a line break, or that
  -- path is the one of `SHASUMS` or of its temporary file in the release directory.
  pub generate-verify :
      (d d1 d' : Disk) (dir : PathBuf) (manifest_path workspace : Option PathBuf)
      (requested text profile_text : String) (mf : Manifest J)
      → generate m d dir manifest_path workspace requested ≡ done (mf, d1)
      → d'.file (default_path m dir manifest_path) ≡ some (readable (of_text text))
      → m.read_manifest text ≡ some mf
      → m.profile_text mf.build.profile ≡ some profile_text
      → Unchanged m d d' dir
      → (verify m d' dir manifest_path workspace requested ≡ done (length mf.subject))
        × ((is_listing dir (default_path m dir manifest_path) ≡ true)
            ⊎ Written m d1 (default_path m dir manifest_path) mf)
  generate-verify d d1 d' dir manifest_path workspace requested text profile_text mf e there decoded
        written same =
      (
        verify_again d d1 d' dir manifest_path workspace requested text profile_text mf e there
            decoded written same,
        generate-Written m d d1 dir manifest_path workspace requested mf e,
      )
