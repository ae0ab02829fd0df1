-- ===== src/Provenance/Acceptance.antt =====
-- What the release gate accepts.
use Prim.Native.String.{String}
use text.Mathlib.Text.{◌==◌}
use text.Mathlib.TextEquality.{eq_iff}
use fluxora_contracts.Base.{
  ℕ, ◌≡◌, refl, sym, ◌∙◌, ap, subst, inl, inr, Bool, true, false, not, ◌||◌, if◌then◌else◌, Option,
  none, some, List, [], ◌∷◌, arith, Bool-cases,
}
use fluxora_contracts.Provenance.{
  PathBuf, Subject, BuildInfo, Manifest, Field, Failure, Outcome, done, failed, panicked, ok_or,
  reject_if, of_text, not_text, File, readable, unreadable, Disk, Machine, ◌>>=◌,
}
use fluxora_contracts.Provenance.Build.{
  text_of, read_to_string, insert, BuildMetadata, collect_metadata,
}
use fluxora_contracts.Provenance.Gate.{
  length, lookup, opt_string, check_field, lists, check_integrity, check_complete, hash_file,
  list_wasm_files, validate_release_dir, hashes_of, root_of, default_path, check_inputs, verify,
}

-- The first step of a chain that succeeds.
pub >>=-done :
    {A B : Type 0} (m : Outcome A) (f : A → Outcome B) {b : B}
    → (m >>= f) ≡ done b
    → (a : A) × (m ≡ done a) × (f a ≡ done b)
unfolding ◌>>=◌
>>=-done (done a) f e = (a, refl, e)
>>=-done (failed x) f e = cc
>>=-done panicked f e = cc

pub same_answer : {A : Type 0} {a b : A} → ◌≡◌ {A = Outcome A} (done a) (done b) → a ≡ b
same_answer e = cc

pub ok_or-done : {A : Type 0} (o : Option A) (x : Failure) {a : A} → ok_or o x ≡ done a → o ≡ some a
ok_or-done none x e = cc
ok_or-done (some a) x e = cc

text_of-done :
    (p : PathBuf) (o : Option File) {s : String}
    → text_of p o ≡ done s
    → o ≡ some (readable (of_text s))
text_of-done p none e = cc
text_of-done p (some unreadable) e = cc
text_of-done p (some (readable (not_text b))) e = cc
text_of-done p (some (readable (of_text s))) e = cc

-- Every member of a list has `P`.
abbrev pub AllOf : {A : Type 0} → (A → Type 0) → List A → Type 0
AllOf P [] = Unit
AllOf P (x ∷ xs) = P x × AllOf P xs

abbrev pub among : List String → String → Bool
among [] name = false
among (n ∷ names) name = n == name || among names name

lookup-insert :
    (k j : String) (v : String) (m : List (String × String))
    → lookup j (insert k v m) ≡ (if k == j then some v else lookup j m)
lookup-insert k j v [] = refl
lookup-insert k j v ((i, w) ∷ m) =
    ground (arith, eq_iff k j, eq_iff i k, eq_iff i j, lookup-insert k j v m)

same_name : (a b : String) → (a == b) ≡ true → a ≡ b
same_name a b e = (eq_iff a b).0 e

module _ {T J : Type 0} (m : Machine T J) (d : Disk) (dir : PathBuf) where
  -- A name that is not gone through keeps what it had.
  hashes_of-outside :
      (current : List (String × String)) (names : List String) {result : List (String × String)}
      (name : String)
      → hashes_of m d dir current names ≡ done result
      → among names name ≡ false
      → lookup name result ≡ lookup name current
  hashes_of-outside current [] name e h = cc
  hashes_of-outside current (n ∷ names) {result} name e h =
      let (hash, hashed, rest) = >>=-done (hash_file m d (n ∷ dir)) _ e in
      let later = hashes_of-outside (insert n hash current) names name rest (ground (arith, h)) in
      let put = lookup-insert n name hash current in ground (arith, later, put, h)

  -- What the map has under the name of an artifact is the artifact's hash.
  pub hashes_of-inside :
      (current : List (String × String)) (names : List String) {result : List (String × String)}
      (name : String)
      → hashes_of m d dir current names ≡ done result
      → among names name ≡ true
      → (h : String) × (lookup name result ≡ some h) × (hash_file m d (name ∷ dir) ≡ done h)
  hashes_of-inside current [] name e h = cc
  hashes_of-inside current (n ∷ names) {result} name e h =
      let (hash, hashed, rest) = >>=-done (hash_file m d (n ∷ dir)) _ e in
      elim (Bool-cases (among names name)) [
        | inl later ↦ hashes_of-inside (insert n hash current) names name rest later
        | inr last ↦
            let is_n : (n == name) ≡ true = ground (arith, h, last) in
            let kept = hashes_of-outside (insert n hash current) names name rest last in
            let put = lookup-insert n name hash current in
            (
              hash,
              ground (arith, kept, put, is_n),
              subst (λ k. hash_file m d (k ∷ dir) ≡ done hash) (same_name n name is_n) hashed,
            )
      ]

  -- A recorded artifact that is among the names with the recorded hash.
  abbrev pub Intact : List String → Subject → Type 0
  Intact names s = (among names s.name ≡ true) × (hash_file m d (s.name ∷ dir) ≡ done s.sha256)

  check_integrity-Intact :
      (names : List String) (current : List (String × String)) (subjects : List Subject)
      → hashes_of m d dir [] names ≡ done current
      → check_integrity current subjects ≡ done tt
      → AllOf (Intact names) subjects
  unfolding check_integrity ◌>>=◌
  check_integrity-Intact names current [] hashes e = tt
  check_integrity-Intact names current (s ∷ subjects) hashes e =
      elim (Bool-cases (among names s.name)) [
        | inl present ↦
            let (h, found, hashed) = hashes_of-inside [] names s.name hashes present in
            let same : (h == s.sha256) ≡ true = ground (arith, e, found) in
            (
              (
                present,
                subst (λ k. hash_file m d (s.name ∷ dir) ≡ done k) (same_name h s.sha256 same)
                    hashed,
              ),
              check_integrity-Intact names current subjects hashes (ground (arith, e, found)),
            )
        | inr missing ↦
            let none_there = hashes_of-outside [] names s.name hashes missing in
            absurd (ground (arith, e, none_there))
      ]

check_complete-lists :
    (subjects : List Subject) (current : List (String × String)) (name : String) {h : String}
    → check_complete subjects current ≡ done tt
    → lookup name current ≡ some h
    → lists subjects name ≡ true
unfolding check_complete
check_complete-lists subjects [] name {h} e f = cc
check_complete-lists subjects ((k, v) ∷ current) name {h} e f =
    let (done_one, listed, rest) = >>=-done (reject_if (not (lists subjects k)) _) _ e in
    let here : lists subjects k ≡ true = ground arith in
    elim (Bool-cases (k == name)) [
      | inl same ↦ subst (λ n. lists subjects n ≡ true) (same_name k name same) here
      | inr other ↦
          check_complete-lists subjects current name {h = h} rest (ground (arith, f, other))
    ]

pub ==_self : (s : String) → (s == s) ≡ true
==_self s = (eq_iff s s).1 refl

pub among_head : (n : String) (names : List String) → among (n ∷ names) n ≡ true
among_head n names = let self = ==_self n in ground (arith, self)

pub among_tail :
    (n k : String) (names : List String) → among names k ≡ true → among (n ∷ names) k ≡ true
among_tail n k names h = ground (arith, h)

all_among :
    {P : String → Type 0} (names : List String)
    → ((name : String) → among names name ≡ true → P name)
    → AllOf P names
all_among [] h = tt
all_among (n ∷ names) h =
    (h n (among_head n names), all_among names (λ k p. h k (among_tail n k names p)))

check_field-same : (f : Field) (a b : String) → check_field f a b ≡ done tt → a ≡ b
check_field-same f a b e = same_name a b (ground (arith, e))

-- The recorded inputs that are the current ones.
pub record SameInputs {T J : Type 0} (m : Machine T J) (b : BuildInfo J) (now : BuildMetadata J)
    (requested : String) : Type 0 where
  pub target : b.target ≡ requested
  pub git_revision : b.git_revision ≡ now.git_revision
  pub rustc : b.rustc ≡ now.rustc
  pub cargo : b.cargo ≡ now.cargo
  pub soroban_sdk : b.soroban_sdk ≡ now.soroban_sdk
  pub toolchain_channel : opt_string b.toolchain_channel ≡ opt_string now.toolchain_channel
  pub profile : m.profile_text b.profile ≡ m.profile_text now.profile

module _ {T J : Type 0} (m : Machine T J) where
  check_inputs-SameInputs :
      (b : BuildInfo J) (now : BuildMetadata J) (requested : String)
      → check_inputs m b now requested ≡ done tt
      → SameInputs m b now requested
  unfolding check_inputs
  check_inputs-SameInputs b now requested e0 =
      let (_, h1, e1) = >>=-done (check_field _ _ _) _ e0 in
      let (_, h2, e2) = >>=-done (check_field _ _ _) _ e1 in
      let (_, h3, e3) = >>=-done (check_field _ _ _) _ e2 in
      let (_, h4, e4) = >>=-done (check_field _ _ _) _ e3 in
      let (_, h5, e5) = >>=-done (check_field _ _ _) _ e4 in
      let (_, h6, e6) = >>=-done (check_field _ _ _) _ e5 in
      let (recorded, h7, e7) = >>=-done (ok_or _ _) _ e6 in
      let (current, h8, h9) = >>=-done (ok_or _ _) _ e7 in
      record {
        target = check_field-same _ _ _ h1;
        git_revision = check_field-same _ _ _ h2;
        rustc = check_field-same _ _ _ h3;
        cargo = check_field-same _ _ _ h4;
        soroban_sdk = check_field-same _ _ _ h5;
        toolchain_channel = check_field-same _ _ _ h6;
        profile = ok_or-done _ _ h7 ∙ ap some (check_field-same _ _ _ h9) ∙ sym (ok_or-done _ _ h8);
      }

  -- What the gate has established of a manifest.
  pub record Accepted (d : Disk) (dir : PathBuf) (workspace : Option PathBuf) (requested : String)
      (mf : Manifest J) : Type 0 where
    pub names : List String
    pub listed : list_wasm_files m d dir ≡ done names
    pub intact : AllOf (Intact m d dir names) mf.subject
    pub covered : AllOf (λ name. lists mf.subject name ≡ true) names
    pub root : PathBuf
    pub rooted : root_of m d dir workspace ≡ done root
    pub now : BuildMetadata J
    pub collected : collect_metadata m d root ≡ done now
    pub inputs : SameInputs m mf.build now requested

  -- When `verify` succeeds, the manifest file is there, is text and reads as a manifest with as
  -- many artifacts as the answer says, the release directory can be listed, each of the artifacts
  -- is among its wasm files and hashes to the recorded digest, every wasm file there is listed, and
  -- the target, the git revision, the versions of rustc, cargo and the SDK, the text of the
  -- toolchain's channel and the text of the profile are those that are found now.
  pub verify-Accepted :
      (d : Disk) (dir : PathBuf) (manifest_path workspace : Option PathBuf) (requested : String)
      (n : ℕ)
      → verify m d dir manifest_path workspace requested ≡ done n
      → (text : String) × (mf : Manifest J) × (d.file (default_path m dir manifest_path)
          ≡ some (readable (of_text text)))
        × (m.read_manifest text ≡ some mf)
        × (n ≡ length mf.subject)
        × Accepted d dir workspace requested mf
  unfolding verify
  verify-Accepted d dir manifest_path workspace requested n e0 =
      let (_, h1, e1) = >>=-done (validate_release_dir m d dir) _ e0 in
      let (_, h2, e2) = >>=-done (reject_if _ _) _ e1 in
      let (text, h3, e3) = >>=-done (read_to_string d (default_path m dir manifest_path)) _ e2 in
      let (mf, h4, e4) = >>=-done (ok_or _ _) _ e3 in
      let (names, listed, e4') = >>=-done (list_wasm_files m d dir) _ e4 in
      let (current, hashes, e5) = >>=-done (hashes_of m d dir [] names) _ e4' in
      let (_, integrity, e6) = >>=-done (check_integrity current mf.subject) _ e5 in
      let (_, complete, e7) = >>=-done (check_complete mf.subject current) _ e6 in
      let (root, rooted, e8) = >>=-done (root_of m d dir workspace) _ e7 in
      let (now, collected, e9) = >>=-done (collect_metadata m d root) _ e8 in
      let (_, inputs, e10) = >>=-done (check_inputs m mf.build now requested) _ e9 in
      (
        text,
        mf,
        text_of-done _ _ h3,
        ok_or-done _ _ h4,
        sym (same_answer e10),
        record {
          names = names;
          listed = listed;
          intact = check_integrity-Intact m d dir names current mf.subject hashes integrity;
          covered = all_among names (λ name p.
              let (h, found, hashed) = hashes_of-inside m d dir [] names name hashes p in
              check_complete-lists mf.subject current name complete found);
          root = root;
          rooted = rooted;
          now = now;
          collected = collected;
          inputs = check_inputs-SameInputs mf.build now requested inputs;
        },
      )
