-- ===== src/Ci/Select.antt =====
-- `select` of .github/scripts/ci/select-checks.py: the gates of an event. The git command is a
-- parameter, `run`: what `subprocess.run` gives for the arguments, whether it failed and its output,
-- or `TimeoutExpired`.
use terragrunt_demo.Common.{
  ℕ, Bool, not, ◌&&◌, ◌||◌, Option, none, some, List, [], ◌∷◌, ◌++◌, if◌then◌else◌, leb, codes,
  fits, times, is_hex, is_space, length, nat_eq, Result, ok, raise, Raised, ◌>>=◌, ◌>>◌, require,
}
use mathlib.Core.List.{reverse}
use terragrunt_demo.Ci.FilePath.{Text, same_text, is, starts, is_one_of}
use terragrunt_demo.Ci.Classify.{Selection, Reason, all_gates, classify}
use terragrunt_demo.Ci.Diff.{certain, decode_utf8, changed_paths}

-- The environment variables of the event that are read.
pub record Event : Type 0 where
  pub github_sha : Option Text
  pub ci_base_sha : Option Text
  pub ci_head_sha : Option Text
  pub github_event_name : Option Text
  pub github_base_ref : Option Text
  pub github_ref : Option Text

-- `event.get(name, '')`; without the default, no event is named by the empty text either.
abbrev pub or_empty : Option Text → Text
or_empty none = []
or_empty (some s) = s

-- The white space of bytes, which is that of ASCII without the separators
abbrev pub is_byte_space : ℕ → Bool
is_byte_space c = (leb 9 c && leb c 13) || nat_eq c 32

abbrev pub strip_start : (ℕ → Bool) → List ℕ → List ℕ
strip_start space [] = []
strip_start space (c ∷ s) = let rest = strip_start space s in if space c then rest else c ∷ s

abbrev pub strip_by : (ℕ → Bool) → List ℕ → List ℕ
strip_by space s = reverse (strip_start space (reverse (strip_start space s)))

-- `s.strip()` of a text, and of bytes
unfoldable pub strip : Text → Text
strip s = strip_by is_space s

unfoldable pub strip_bytes : List ℕ → List ℕ
strip_bytes raw = strip_by is_byte_space raw

unfoldable pub is_commit_text : Text → Bool
is_commit_text s = fits (times 40 is_hex []) s

abbrev pub is_zero_commit : Text → Bool
is_zero_commit s = fits (times 40 (nat_eq b'0') []) s

-- The handler: what is uncertain selects every gate.
unfoldable pub selection : Result (List Text) → Result Selection
selection (ok paths) = ok (classify paths)
selection (raise (Raised.uncertain reason)) = ok (all_gates (Reason.uncertain reason))
selection (raise Raised.unicode_error) = ok (all_gates Reason.history_decoding_or_timeout)
selection (raise Raised.timeout) = ok (all_gates Reason.history_decoding_or_timeout)
selection (raise x) = raise x

module _ (run : List Text → Result (Bool × List ℕ)) where
  -- `git(*args)`
  unfoldable pub git : List Text → Result (List ℕ)
  git args = do
    out ← run args
    certain (not (out.0 || not (leb (length out.1) 4194304))) "unavailable-history"
    ok out.1

  -- `git(*args).decode().strip()`
  unfoldable pub git_text : List Text → Result Text
  git_text args = do out ← git args; text ← decode_utf8 out; ok (strip text)

  -- The changed paths between two commits.
  unfoldable pub diff : Text → Text → Result (List Text)
  diff old new = do
    out ← git (
        codes "diff"
        ∷ codes "--raw"
        ∷ codes "--no-abbrev"
        ∷ codes "-z"
        ∷ codes "--no-renames"
        ∷ codes "--no-ext-diff"
        ∷ codes "--no-textconv"
        ∷ old
        ∷ new
        ∷ codes "--"
        ∷ [])
    changed_paths out

  -- One commit of the event: it is named, and it is there.
  unfoldable pub check_commit : Text → Result (Unit {0})
  check_commit sha = do
    certain (is_commit_text sha && not (is_zero_commit sha)) "unavailable-event-commit"
    _ ← git (codes "cat-file" ∷ codes "-e" ∷ (sha ++ codes "^{commit}") ∷ [])
    ok tt

  -- A pull request: HEAD is the merge of the two commits, and both sides' changes count.
  unfoldable pub pull_request : Event → Text → Text → Text → Result (List Text)
  pull_request event actual base head = do
    certain (is_one_of (or_empty event.github_base_ref) ("develop" ∷ "main" ∷ []))
        "unexpected-pr-target"
    parents ← git_text (codes "show" ∷ codes "-s" ∷ codes "--format=%P" ∷ actual ∷ [])
    certain (same_text parents (base ++ (codes " " ++ head))) "ambiguous-merge"
    ancestor ← git_text (codes "merge-base" ∷ codes "--all" ∷ base ∷ head ∷ [])
    certain (is_commit_text ancestor) "ambiguous-merge-base"
    ours ← diff ancestor head
    theirs ← diff base actual
    ok (ours ++ theirs)

  -- A push: HEAD is the pushed commit of a branch, and the base is its ancestor.
  unfoldable pub push : Event → Text → Text → Text → Result (List Text)
  push event actual base head = do
    certain (same_text head actual && starts (or_empty event.github_ref) "refs/heads/")
        "unexpected-push-identity"
    _ ← git (codes "merge-base" ∷ codes "--is-ancestor" ∷ base ∷ head ∷ [])
    diff base head

  unfoldable pub by_event : Event → Text → Text → Text → Result (List Text)
  by_event event actual base head =
      if is (or_empty event.github_event_name) "pull_request"
      then pull_request event actual base head
      else if is (or_empty event.github_event_name) "push"
      then push event actual base head
      else raise (Raised.uncertain "unsupported-event")

  -- The body of the `try`, as far as the paths.
  unfoldable pub history : Event → Text → Result (List Text)
  history event actual = do
    shallow ← git (codes "rev-parse" ∷ codes "--is-shallow-repository" ∷ [])
    certain (is (strip_bytes shallow) "false") "shallow-history"
    check_commit (or_empty event.ci_base_sha)
    check_commit (or_empty event.ci_head_sha)
    by_event event actual (or_empty event.ci_base_sha) (or_empty event.ci_head_sha)

  unfoldable pub select : Event → Result (Selection × Text)
  select event = do
    actual ← git_text (codes "rev-parse" ∷ codes "--verify" ∷ codes "HEAD" ∷ [])
    require
        (is_commit_text (or_empty event.github_sha) && same_text actual (or_empty event.github_sha))
    chosen ← selection (history event actual)
    ok (chosen, actual)
