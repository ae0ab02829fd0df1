-- ===== src/Provenance/Artifacts.antt =====
-- The digests and the list of the artifacts on a disk that has the artifacts of another: `subjects_of`,
-- `hashes_of` and the checks of the gate on them.
use Prim.Native.String.{String}
use text.Mathlib.Text.{◌==◌}
use text.Mathlib.TextEquality.{eq_iff}
use fluxora_contracts.Base.{
  ◌≡◌, refl, sym, ◌∙◌, subst, inl, inr, true, List, [], ◌∷◌, arith, Bool-cases,
}
use fluxora_contracts.Provenance.{PathBuf, Subject, Outcome, done, Disk, Machine, ◌>>=◌}
use fluxora_contracts.Provenance.Build.{insert}
use fluxora_contracts.Provenance.Gate.{
  lists, check_integrity, check_complete, hash_file, subjects_of, hashes_of,
}
use fluxora_contracts.Provenance.Acceptance.{
  AllOf, among, >>=-done, same_answer, ==_self, hashes_of-inside, among_head, among_tail,
}

-- A chain of two steps that succeed.
pub chain :
    {A B : Type 0} (m : Outcome A) (f : A → Outcome B) {a : A} {b : B}
    → m ≡ done a
    → f a ≡ done b
    → (m >>= f) ≡ done b
unfolding ◌>>=◌
chain m f e h = rw e h

AllOf-map :
    {A : Type 0} {P Q : A → Type 0} (xs : List A) → ((x : A) → P x → Q x) → AllOf P xs → AllOf Q xs
AllOf-map [] h all = tt
AllOf-map (x ∷ xs) h all = (h x all.0, AllOf-map xs h all.1)

AllOf-among :
    (P : String → Type 0) (names : List String) (name : String)
    → AllOf P names
    → among names name ≡ true
    → P name
AllOf-among P [] name all h = cc
AllOf-among P (n ∷ names) name all h = elim (Bool-cases (n == name)) [
  | inl e ↦ subst P ((eq_iff n name).0 e) all.0
  | inr e ↦ AllOf-among P names name all.1 (ground (arith, h, e))
]

-- The artifacts of one disk that have the same contents on another.
abbrev pub SameArtifacts :
    {T J : Type 0} → Machine T J → Disk → Disk → PathBuf → List String → Type 0
SameArtifacts m d d' dir = AllOf (λ name. hash_file m d' (name ∷ dir) ≡ hash_file m d (name ∷ dir))

insert-AllOf :
    (P : String → Type 0) (k v : String) (current : List (String × String))
    → P k
    → AllOf (λ entry. P entry.0) current
    → AllOf (λ entry. P entry.0) (insert k v current)
insert-AllOf P k v [] here all = (here, tt)
insert-AllOf P k v ((j, w) ∷ current) here all = elim (Bool-cases (j == k)) [
  | inl e ↦ rw e (here, all.1)
  | inr e ↦ rw e (all.0, insert-AllOf P k v current here all.1)
]

pub check_complete-done :
    (subjects : List Subject) (current : List (String × String))
    → AllOf (λ entry. lists subjects entry.0 ≡ true) current
    → check_complete subjects current ≡ done tt
unfolding check_complete
check_complete-done subjects [] all = refl
check_complete-done subjects ((k, v) ∷ current) all =
    let here = all.0 in
    chain _ _ (ground (arith, here)) (check_complete-done subjects current all.1)

module _ {T J : Type 0} (m : Machine T J) (d d' : Disk) (dir : PathBuf) where
  -- Every artifact can be hashed again.
  pub hashes_of-again :
      (names : List String) (current : List (String × String)) {subjects : List Subject}
      → SameArtifacts m d d' dir names
      → subjects_of m d dir names ≡ done subjects
      → (result : List (String × String)) × (hashes_of m d' dir current names ≡ done result)
  hashes_of-again [] current same e = (current, refl)
  hashes_of-again (n ∷ names) current same e =
      let (hash, hashed, e1) = >>=-done (hash_file m d (n ∷ dir)) _ e in
      let (rest, recorded, e2) = >>=-done (subjects_of m d dir names) _ e1 in
      let (result, h) = hashes_of-again names (insert n hash current) same.1 recorded in
      (result, chain _ _ (same.0 ∙ hashed) h)

  -- The map has no other names than the artifacts'.
  pub hashes_of-AllOf :
      (P : String → Type 0) (names : List String) (current : List (String × String))
      {result : List (String × String)}
      → AllOf P names
      → AllOf (λ entry. P entry.0) current
      → hashes_of m d' dir current names ≡ done result
      → AllOf (λ entry. P entry.0) result
  hashes_of-AllOf P [] current all known e =
      subst (AllOf (λ entry. P entry.0)) (same_answer e) known
  hashes_of-AllOf P (n ∷ names) current all known e =
      let (hash, hashed, rest) = >>=-done (hash_file m d' (n ∷ dir)) _ e in
      hashes_of-AllOf P names (insert n hash current) all.1
        (insert-AllOf P n hash current all.0 known) rest

  abbrev Recorded : List String → Subject → Type 0
  Recorded names s = (among names s.name ≡ true) × (hash_file m d (s.name ∷ dir) ≡ done s.sha256)

  pub subjects_of-Recorded :
      (names : List String) {subjects : List Subject}
      → subjects_of m d dir names ≡ done subjects
      → AllOf (Recorded names) subjects × AllOf (λ name. lists subjects name ≡ true) names
  subjects_of-Recorded [] e = (subst (AllOf (Recorded [])) (same_answer e) tt, tt)
  subjects_of-Recorded (n ∷ names) e =
      let (hash, hashed, e1) = >>=-done (hash_file m d (n ∷ dir)) _ e in
      let (rest, recorded, e2) = >>=-done (subjects_of m d dir names) _ e1 in
      let (all, listed) = subjects_of-Recorded names recorded in
      let self = ==_self n in
      subst
        (λ ss. AllOf (Recorded (n ∷ names)) ss × AllOf (λ name. lists ss name ≡ true) (n ∷ names))
        (same_answer e2)
        (
          (
            (among_head n names, hashed),
            AllOf-map rest (λ s p. (among_tail n s.name names p.0, p.1)) all,
          ),
          (ground (arith, self), AllOf-map names (λ k p. ground (arith, p)) listed),
        )

  pub check_integrity-done :
      (names : List String) (current : List (String × String)) (subjects : List Subject)
      → SameArtifacts m d d' dir names
      → hashes_of m d' dir [] names ≡ done current
      → AllOf (Recorded names) subjects
      → check_integrity current subjects ≡ done tt
  unfolding check_integrity
  check_integrity-done names current [] same hashes all = refl
  check_integrity-done names current (s ∷ subjects) same hashes all =
      let (h, found, hashed) = hashes_of-inside m d' dir [] names s.name hashes all.0.0 in
      let agree =
        AllOf-among (λ name. hash_file m d' (name ∷ dir) ≡ hash_file m d (name ∷ dir)) names s.name
          same all.0.0 in
      let is_h : h ≡ s.sha256 = same_answer (sym hashed ∙ agree ∙ all.0.1) in
      let self = ==_self s.sha256 in
      chain _ _ (rw found (rw is_h (ground (arith, self))))
        (check_integrity-done names current subjects same hashes all.1)
