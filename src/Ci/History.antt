-- ===== src/Ci/History.antt =====
-- What git has answered when .github/scripts/ci/select-checks.py finds the history complete.
use mathlib.Core.Path.{subst}
use terragrunt_demo.Common.{
  ℕ, String, ◌≡◌, refl, ap, ◌∙◌, sym, Bool, true, false, not, ◌&&◌, List, [], ◌∷◌, ◌++◌, ◌⊎◌, inl,
  inr, All, arith, nat_eq, Bool-cases, codes, Result, ok, ◌>>◌, returned-bind, ok-injective,
  &&-true,
}
use terragrunt_demo.Ci.FilePath.{Text, same_text, is, starts, is_one_of}
use terragrunt_demo.Ci.Diff.{
  certain, or_uncertain, changed_path, pairs_of, paths_of, changed_paths, is_uncertain_path,
  decode_ascii, decode_utf8, parse_record, is_uncertain_mode,
}
use terragrunt_demo.Ci.Select.{
  Event, or_empty, strip_bytes, is_commit_text, git, git_text, diff, check_commit, pull_request,
  push, by_event, history,
}

pub same_text-eq : (s t : Text) → same_text s t ≡ true → s ≡ t
same_text-eq [] [] h = refl
same_text-eq [] (d ∷ t) h = cc
same_text-eq (c ∷ s) [] h = cc
same_text-eq (c ∷ s) (d ∷ t) h =
    let (one, rest) = &&-true (nat_eq c d) (same_text s t) h in
    let e = same_text-eq s t rest in let f : c ≡ d = ground (arith, one) in cc (e, f)

certain-then :
    {B : Type 0} (c : Bool) (reason : String) (k : Result B) {b : B}
    → (certain c reason >> k) ≡ ok b
    → (c ≡ true) × (k ≡ ok b)
certain-then true reason k h = (refl, h)
certain-then false reason k h = cc

changed_path-certain :
    (r p : List ℕ) (path : Text) → changed_path r p ≡ ok path → is_uncertain_path path ≡ false
unfolding changed_path
changed_path-certain r p path h =
    let (found, _, h1) = returned-bind (decode_ascii r) _ h in
    let (modes, _, h2) =
      returned-bind (or_uncertain (parse_record found) "uncertain-file-type") _ h1 in
    let (s, _, h3) = returned-bind (decode_utf8 p) _ h2 in
    let (clean, h4) = certain-then (not (is_uncertain_path s)) "uncertain-path" _ h3 in
    let (_, done) =
      certain-then (not (is_uncertain_mode modes.0 modes.1 s)) "uncertain-file-mode" _ h4 in
    let e : s ≡ path = ok-injective done in ap is_uncertain_path (sym e) ∙ ground (arith, clean)

-- Every path is one that the strict reading admits.
abbrev pub AllCertain : List Text → Type 0
AllCertain = All (λ path. is_uncertain_path path ≡ false)

paths_of-AllCertain :
    (pairs : List (List ℕ × List ℕ)) (paths : List Text)
    → paths_of pairs ≡ ok paths
    → AllCertain paths
unfolding paths_of
paths_of-AllCertain [] paths h = subst AllCertain (ok-injective h) tt
paths_of-AllCertain ((r, p) ∷ rest) paths h =
    let (path, one, h1) = returned-bind (changed_path r p) _ h in
    let (others, more, done) = returned-bind (paths_of rest) _ h1 in
    subst AllCertain (ok-injective done)
      (changed_path-certain r p path one, paths_of-AllCertain rest others more)

changed_paths-AllCertain :
    (raw : List ℕ) (paths : List Text) → changed_paths raw ≡ ok paths → AllCertain paths
unfolding changed_paths
changed_paths-AllCertain raw paths h =
    let (pairs, _, h1) = returned-bind (or_uncertain (pairs_of _) "malformed-diff") _ h in
    paths_of-AllCertain pairs paths h1

module _ (run : List Text → Result (Bool × List ℕ)) where
  -- The paths are those that git's raw diff from the old commit to the new one lists, each of which
  -- the strict reading admits.
  pub record Diffed (old new : Text) (paths : List Text) : Type 0 where
    pub raw : List ℕ
    pub listed :
        git run (
          codes "diff"
          ∷ codes "--raw"
          ∷ codes "--no-abbrev"
          ∷ codes "-z"
          ∷ codes "--no-renames"
          ∷ codes "--no-ext-diff"
          ∷ codes "--no-textconv"
          ∷ old
          ∷ new
          ∷ codes "--"
          ∷ [])
        ≡ ok raw
    pub reading : changed_paths raw ≡ ok paths
    pub certain_paths : AllCertain paths

  diff-Diffed :
      (old new : Text) (paths : List Text) → diff run old new ≡ ok paths → Diffed old new paths
  unfolding diff
  diff-Diffed old new paths h =
      let (raw, listed, h1) = returned-bind _ changed_paths h in
      record {
        raw = raw;
        listed = listed;
        reading = h1;
        certain_paths = changed_paths-AllCertain raw paths h1;
      }

  -- HEAD is the merge of a pull request's two commits into one of the two branches, and the paths are
  -- those of both sides: from the one merge base to the head, then from the base to HEAD.
  pub record Merged (event : Event) (actual base head : Text) (paths : List Text) : Type 0 where
    pub named : is (or_empty event.github_event_name) "pull_request" ≡ true
    pub target : is_one_of (or_empty event.github_base_ref) ("develop" ∷ "main" ∷ []) ≡ true
    pub parents :
        git_text run (codes "show" ∷ codes "-s" ∷ codes "--format=%P" ∷ actual ∷ [])
        ≡ ok (base ++ (codes " " ++ head))
    pub ancestor : Text
    pub merge_base :
        git_text run (codes "merge-base" ∷ codes "--all" ∷ base ∷ head ∷ []) ≡ ok ancestor
    pub one_base : is_commit_text ancestor ≡ true
    pub ours : List Text
    pub of_head : Diffed ancestor head ours
    pub theirs : List Text
    pub of_merge : Diffed base actual theirs
    pub joined : paths ≡ ours ++ theirs

  -- HEAD is the pushed commit of a branch on top of the base, and the paths are those in between.
  pub record Pushed (event : Event) (actual base head : Text) (paths : List Text) : Type 0 where
    pub named : is (or_empty event.github_event_name) "push" ≡ true
    pub same_head : head ≡ actual
    pub branch : starts (or_empty event.github_ref) "refs/heads/" ≡ true
    pub out : List ℕ
    pub on_top : git run (codes "merge-base" ∷ codes "--is-ancestor" ∷ base ∷ head ∷ []) ≡ ok out
    pub between : Diffed base head paths

  abbrev pub Linked : Event → Text → Text → Text → List Text → Type 0
  Linked event actual base head paths =
      Merged event actual base head paths ⊎ Pushed event actual base head paths

  pull_request-Merged :
      (event : Event) (actual base head : Text) (paths : List Text)
      → is (or_empty event.github_event_name) "pull_request" ≡ true
      → pull_request run event actual base head ≡ ok paths
      → Merged event actual base head paths
  unfolding pull_request
  pull_request-Merged event actual base head paths named h =
      let (target, h1) =
        certain-then (is_one_of (or_empty event.github_base_ref) ("develop" ∷ "main" ∷ []))
          "unexpected-pr-target" _ h in
      let (parents, shown, h2) =
        returned-bind (git_text run (codes "show" ∷ codes "-s" ∷ codes "--format=%P" ∷ actual ∷ []))
          _ h1 in
      let (same, h3) =
        certain-then (same_text parents (base ++ (codes " " ++ head))) "ambiguous-merge" _ h2 in
      let (ancestor, merge_base, h4) =
        returned-bind (git_text run (codes "merge-base" ∷ codes "--all" ∷ base ∷ head ∷ [])) _ h3 in
      let (one_base, h5) = certain-then (is_commit_text ancestor) "ambiguous-merge-base" _ h4 in
      let (ours, mine, h6) = returned-bind (diff run ancestor head) _ h5 in
      let (theirs, yours, done) = returned-bind (diff run base actual) _ h6 in
      record {
        named = named;
        target = target;
        parents = shown ∙ ap ok (same_text-eq parents _ same);
        ancestor = ancestor;
        merge_base = merge_base;
        one_base = one_base;
        ours = ours;
        of_head = diff-Diffed ancestor head ours mine;
        theirs = theirs;
        of_merge = diff-Diffed base actual theirs yours;
        joined = sym (ok-injective done);
      }

  push-Pushed :
      (event : Event) (actual base head : Text) (paths : List Text)
      → is (or_empty event.github_event_name) "push" ≡ true
      → push run event actual base head ≡ ok paths
      → Pushed event actual base head paths
  unfolding push
  push-Pushed event actual base head paths named h =
      let (identity, h1) =
        certain-then (same_text head actual && starts (or_empty event.github_ref) "refs/heads/")
          "unexpected-push-identity" _ h in
      let (same, branch) = &&-true (same_text head actual) _ identity in
      let (out, on_top, h2) =
        returned-bind (git run (codes "merge-base" ∷ codes "--is-ancestor" ∷ base ∷ head ∷ [])) _
          h1 in
      record {
        named = named;
        same_head = same_text-eq head actual same;
        branch = branch;
        out = out;
        on_top = on_top;
        between = diff-Diffed base head paths h2;
      }

  by_event-Linked :
      (event : Event) (actual base head : Text) (paths : List Text)
      → by_event run event actual base head ≡ ok paths
      → Linked event actual base head paths
  unfolding by_event
  by_event-Linked event actual base head paths h =
      elim (Bool-cases (is (or_empty event.github_event_name) "pull_request")) [
        | inl pr ↦ inl (pull_request-Merged event actual base head paths pr (rw pr at h))
        | inr other ↦ elim (Bool-cases (is (or_empty event.github_event_name) "push")) [
          | inl pushes ↦
              inr (push-Pushed event actual base head paths pushes (rw (other, pushes) at h))
          | inr neither ↦ absurd (ground arith)
        ]
      ]

  -- The complete history of an event.
  pub record Complete (event : Event) (actual : Text) (paths : List Text) : Type 0 where
    pub shallow : List ℕ
    pub asked : git run (codes "rev-parse" ∷ codes "--is-shallow-repository" ∷ []) ≡ ok shallow
    pub whole : is (strip_bytes shallow) "false" ≡ true
    pub base_there : check_commit run (or_empty event.ci_base_sha) ≡ ok tt
    pub head_there : check_commit run (or_empty event.ci_head_sha) ≡ ok tt
    pub linked : Linked event actual (or_empty event.ci_base_sha) (or_empty event.ci_head_sha) paths

  pub history-Complete :
      (event : Event) (actual : Text) (paths : List Text)
      → history run event actual ≡ ok paths
      → Complete event actual paths
  unfolding history
  history-Complete event actual paths h =
      let base = or_empty event.ci_base_sha in
      let head = or_empty event.ci_head_sha in
      let (shallow, asked, h1) =
        returned-bind (git run (codes "rev-parse" ∷ codes "--is-shallow-repository" ∷ [])) _ h in
      let (whole, h2) = certain-then (is (strip_bytes shallow) "false") "shallow-history" _ h1 in
      let (_, base_there, h3) = returned-bind (check_commit run base) _ h2 in
      let (_, head_there, h4) = returned-bind (check_commit run head) _ h3 in
      let linked = by_event-Linked event actual base head paths h4 in
      record {
        shallow = shallow;
        asked = asked;
        whole = whole;
        base_there = base_there;
        head_there = head_there;
        linked = linked;
      }
