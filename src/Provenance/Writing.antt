-- ===== src/Provenance/Writing.antt =====
-- What `generate` leaves on the disk: the manifest file.
use Prim.Native.String
use Prim.Native.String.{String}
use text.Mathlib.Text.{◌==◌}
use text.Mathlib.TextEquality.{eq_iff}
use text.Mathlib.TextLemmas.{length-append}
use fluxora_contracts.Base.{
  ◌≡◌, refl, sym, ◌∙◌, ap, subst, ◌⊎◌, inl, inr, Bool, true, false, ◌||◌, Option, some, [], ◌∷◌,
  arith, Bool-cases,
}
use fluxora_contracts.Provenance.{
  PathBuf, Manifest, Failure, Outcome, done, failed, ok_or, reject_if, of_text, readable, Disk,
  Machine,
}
use fluxora_contracts.Provenance.Build.{collect_metadata}
use fluxora_contracts.Provenance.Gate.{
  now_rfc3339, same_path, write_atomic, shasums_text, validate_release_dir, root_of,
  collect_artifacts, default_path, generate,
}
use fluxora_contracts.Provenance.Acceptance.{>>=-done, same_answer, ok_or-done, ==_self}

abbrev temporary : String → String
temporary name = String.◌++◌ "." (String.◌++◌ name ".tmp")

temporary_differs : (name : String) → (name == temporary name) ≡ false
temporary_differs name = elim (Bool-cases (name == temporary name)) [
  | inl e ↦
      let same = ap String.count ((eq_iff name (temporary name)).0 e) in
      let outer = length-append "." (String.◌++◌ name ".tmp") in
      let inner = length-append name ".tmp" in absurd (omega (arith, same, outer, inner))
  | inr e ↦ e
]

same_path_self : (p : PathBuf) → same_path p p ≡ true
same_path_self [] = refl
same_path_self (c ∷ cs) =
    let self = ==_self c in let rest = same_path_self cs in ground (arith, self, rest)

-- The paths of `SHASUMS` and of its temporary file.
abbrev pub is_listing : PathBuf → PathBuf → Bool
is_listing dir path = same_path path ("SHASUMS" ∷ dir) || same_path path (".SHASUMS.tmp" ∷ dir)

module _ {T J : Type 0} (m : Machine T J) where
  root_refuses : {A : Type 0} {x : Failure} {a : A} → ◌≡◌ {A = Outcome A} (failed x) (done a) → ⊥
  root_refuses e = cc

  write_atomic-elsewhere :
      (name : String) (dir : PathBuf) (contents : String) (d : Disk) {d1 : Disk} (p : PathBuf)
      → write_atomic m (name ∷ dir) contents d ≡ done d1
      → same_path p (name ∷ dir) ≡ false
      → same_path p (temporary name ∷ dir) ≡ false
      → d1.file p ≡ d.file p
  unfolding write_atomic
  write_atomic-elsewhere name dir contents d p e0 h k =
      let (_, h1, e1) = >>=-done (reject_if _ _) _ e0 in
      let (_, h2, e2) = >>=-done (reject_if _ _) _ e1 in
      ap (λ (x : Disk). x.file p) (sym (same_answer e2)) ∙ rw k (rw h refl)

  write_atomic-file :
      (path : PathBuf) (contents : String) (d : Disk) {d1 : Disk}
      → write_atomic m path contents d ≡ done d1
      → d1.file path ≡ some (readable (of_text contents))
  unfolding write_atomic
  write_atomic-file [] contents d e = absurd (root_refuses (>>=-done (reject_if _ _) _ e).2)
  write_atomic-file (name ∷ dir) contents d e0 =
      let (_, h1, e1) = >>=-done (reject_if _ _) _ e0 in
      let (_, h2, e2) = >>=-done (reject_if _ _) _ e1 in
      let other = temporary_differs name in
      let self = ==_self name in
      let above = same_path_self dir in
      ap (λ (x : Disk). x.file (name ∷ dir)) (sym (same_answer e2))
      ∙ rw other (rw self (rw above refl))

  -- The text of a manifest, with a line break, is the file at a path.
  abbrev pub Written : Disk → PathBuf → Manifest J → Type 0
  Written d path mf =
      (text : String) × (m.manifest_text mf ≡ some text)
      × (d.file path ≡ some (readable (of_text (String.◌++◌ text "\n"))))

  pub generate-Written :
      (d d1 : Disk) (dir : PathBuf) (manifest_path workspace : Option PathBuf) (requested : String)
      (mf : Manifest J)
      → generate m d dir manifest_path workspace requested ≡ done (mf, d1)
      → (is_listing dir (default_path m dir manifest_path) ≡ true)
        ⊎ Written d1 (default_path m dir manifest_path) mf
  unfolding generate
  generate-Written d d1 dir manifest_path workspace requested mf e0 =
      let path = default_path m dir manifest_path in
      let (_, h1, e1) = >>=-done (validate_release_dir m d dir) _ e0 in
      let (root, h2, e2) = >>=-done (root_of m d dir workspace) _ e1 in
      let (artifacts, h3, e3) = >>=-done (collect_artifacts m d dir) _ e2 in
      let (now, h4, e4) = >>=-done (collect_metadata m d root) _ e3 in
      let (started, h0, e4') = >>=-done (now_rfc3339 m) _ e4 in
      let (text, h5, e5) = >>=-done (ok_or _ _) _ e4' in
      let (d2, h6, e6) = >>=-done (write_atomic m path (String.◌++◌ text "\n") d) _ e5 in
      let (d3, h7, e7) =
        >>=-done (write_atomic m ("SHASUMS" ∷ dir) (shasums_text artifacts) d2) _ e6 in
      elim (Bool-cases (is_listing dir path)) [
        | inl e ↦ inl e
        | inr e ↦
            let kept =
              write_atomic-elsewhere "SHASUMS" dir (shasums_text artifacts) d2 path h7
                (ground (arith, e)) (ground (arith, e)) in
            inr (
              subst (λ (r : Manifest J × Disk). Written r.1 path r.0) (same_answer e7)
                (
                  text,
                  ok_or-done _ _ h5,
                  kept ∙ write_atomic-file path (String.◌++◌ text "\n") d h6,
                ))
      ]
