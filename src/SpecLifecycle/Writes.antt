-- ===== src/SpecLifecycle/Writes.antt =====
-- What writing a stage leaves in the .openspec.yaml (src/otaman_core/spec_lifecycle.py: set_stage).
use otaman_core.Prelude.{
  String, true, false, some, ok, elem, is_empty, str_eq_ne, >>=-eq-ok, require, require-eq-ok, ◌≡◌,
  ◌≢◌, refl, sym, ap, ◌∙◌, subst, arith,
}
use otaman_core.Yaml.{Value, File, content, dict, str, get, put}
use otaman_core.Yaml.Laws.{get-put}
use otaman_core.SpecLifecycle.{stages, unknown_stage}
use otaman_core.SpecLifecycle.OpenSpec.{
  read_openspec, read_stage, rewrite_yaml_key, set_stage, filled_text,
}

-- A stage of the table is not the empty text.
stage-filled : (s : String) → elem s stages ≡ true → is_empty s ≡ false
stage-filled String.[] h = ground arith
stage-filled (String.◌∷◌ c s) h = refl

module _ (store : Value → File) (faithful : (v : Value) → store v ≡ content v) where
  -- With a store that reads back the value it wrote: after `set_stage` succeeds, the file reads back
  -- the stage, and every other key as it read before; so a file that could not be parsed, which
  -- reads as empty, has lost every other key.
  pub set_stage-reads_back :
      (file : File) (stage : String) (next : File)
      → set_stage store file stage ≡ ok next
      → (read_stage next ≡ some stage)
        × ((k : String) → k ≢ "stage" → get k (read_openspec next) ≡ get k (read_openspec file))
  unfolding set_stage rewrite_yaml_key read_stage read_openspec
  set_stage-reads_back file stage next h =
      let (u, known, done) = >>=-eq-ok (require (elem stage stages) (unknown_stage stage)) _ h in
      let written : content (dict (put "stage" (str stage) (read_openspec file))) ≡ next =
        sym (faithful _) ∙ ground arith in
      subst
        (λ f.
          (read_stage f ≡ some stage)
          × ((k : String) → k ≢ "stage" → get k (read_openspec f) ≡ get k (read_openspec file)))
        written
        (
          ap filled_text (get-put "stage" "stage" (str stage) (read_openspec file))
              ∙ rw (stage-filled stage (require-eq-ok _ _ known)) refl,
          λ k off.
              get-put "stage" k (str stage) (read_openspec file)
              ∙ rw (str_eq_ne "stage" k (λ e. off (sym e))) refl,
        )
