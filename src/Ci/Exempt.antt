-- ===== src/Ci/Exempt.antt =====
-- When .github/scripts/ci/select-checks.py leaves a gate out.
use mathlib.Core.Path.{subst}
use terragrunt_demo.Common.{
  ℕ, ◌≡◌, refl, ap, ◌∙◌, sym, Bool, true, ◌&&◌, List, [], ◌∷◌, ◌⊎◌, inl, inr, codes, Result, ok,
  raise, Raised, require-then, returned-bind, ok-injective, &&-true,
}
use terragrunt_demo.Ci.FilePath.{Text, same_text}
use terragrunt_demo.Ci.Classify.{Selection, every_gate, classify}
use terragrunt_demo.Ci.Select.{
  Event, or_empty, is_commit_text, git_text, history, selection, select,
}
use terragrunt_demo.Ci.History.{Complete, history-Complete, same_text-eq}

module _ (run : List Text → Result (Bool × List ℕ)) where
  -- A selection by the paths of a complete history.
  pub record ByPaths (event : Event) (actual : Text) (s : Selection) : Type 0 where
    pub paths : List Text
    pub complete : Complete run event actual paths
    pub chosen : s ≡ classify paths

  selection-ByPaths :
      (event : Event) (actual : Text) (r : Result (List Text)) (s : Selection)
      → history run event actual ≡ r
      → selection r ≡ ok s
      → (s.gates ≡ every_gate) ⊎ ByPaths event actual s
  unfolding selection
  selection-ByPaths event actual (ok paths) s e h = inr (record {
    paths = paths;
    complete = history-Complete run event actual paths e;
    chosen = sym (ok-injective h);
  })
  selection-ByPaths event actual (raise (Raised.uncertain reason)) s e h =
      inl (ap (λ (x : Selection). x.gates) (sym (ok-injective h)))
  selection-ByPaths event actual (raise Raised.unicode_error) s e h =
      inl (ap (λ (x : Selection). x.gates) (sym (ok-injective h)))
  selection-ByPaths event actual (raise Raised.timeout) s e h =
      inl (ap (λ (x : Selection). x.gates) (sym (ok-injective h)))
  selection-ByPaths event actual (raise Raised.rejected) s e h = cc
  selection-ByPaths event actual (raise Raised.key_error) s e h = cc
  selection-ByPaths event actual (raise Raised.type_error) s e h = cc
  selection-ByPaths event actual (raise Raised.index_error) s e h = cc
  selection-ByPaths event actual (raise Raised.absent) s e h = cc
  selection-ByPaths event actual (raise (Raised.journal key)) s e h = cc
  selection-ByPaths event actual (raise Raised.recursion_error) s e h = cc
  selection-ByPaths event actual (raise Raised.file_exists) s e h = cc
  selection-ByPaths event actual (raise (Raised.provider code)) s e h = cc

  -- A selection is for the event's own commit, and it takes every gate, or it classifies the paths of
  -- a complete history: those of git's diffs on both sides of the merge of a pull request, or those
  -- between the base and the pushed commit, each admitted by the strict reading.
  pub select-ByPaths :
      (event : Event) (s : Selection) (actual : Text)
      → select run event ≡ ok (s, actual)
      → (actual ≡ or_empty event.github_sha)
        × (is_commit_text actual ≡ true)
        × ((s.gates ≡ every_gate) ⊎ ByPaths event actual s)
  unfolding select
  select-ByPaths event s actual h =
      let sha = or_empty event.github_sha in
      let (at, _, h1) =
        returned-bind (git_text run (codes "rev-parse" ∷ codes "--verify" ∷ codes "HEAD" ∷ [])) _
          h in
      let (identity, h2) = require-then (is_commit_text sha && same_text at sha) _ h1 in
      let (chosen, taken, done) = returned-bind (selection (history run event at)) _ h2 in
      let (commit, same) = &&-true (is_commit_text sha) _ identity in
      let e = same_text-eq at sha same in
      subst
        (λ (x : Selection × Text).
          (x.1 ≡ sha)
          × (is_commit_text x.1 ≡ true)
          × ((x.0.gates ≡ every_gate) ⊎ ByPaths event x.1 x.0))
        (ok-injective done)
        (
          e,
          ap is_commit_text e ∙ commit,
          selection-ByPaths event at (history run event at) chosen refl taken,
        )
