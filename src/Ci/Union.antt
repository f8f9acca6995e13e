-- ===== src/Ci/Union.antt =====
-- The gates of a change are those of its paths, one by one
-- (.github/scripts/ci/select-checks.py).
use terragrunt_demo.Common.{
  ◌≡◌, refl, ap, ◌∙◌, sym, Bool, true, false, ◌||◌, List, [], ◌∷◌, arith, ◌⊎◌, inl, inr,
}
use terragrunt_demo.Ci.FilePath.{Text}
use terragrunt_demo.Ci.Classify.{
  Gates, Reason, Verdict, needs, everything, none_selected, every_gate, all_gates, Selection, join,
  visit, classify_from, classify,
}

-- The gates that a path asks for when it is the only one.
abbrev pub alone : Text → Gates
alone path = (classify (path ∷ [])).gates

-- The gates that each of several paths asks for, together.
abbrev pub joined : List Text → Gates
joined [] = none_selected
joined (path ∷ paths) = join (alone path) (joined paths)

or_assoc : (a b c : Bool) → ((a || b) || c) ≡ (a || (b || c))
or_assoc true b c = refl
or_assoc false b c = refl

or_true : (a : Bool) → (a || true) ≡ true
or_true true = refl
or_true false = refl

or_false : (a : Bool) → (a || false) ≡ a
or_false true = refl
or_false false = refl

join_assoc : (a b c : Gates) → join (join a b) c ≡ join a (join b c)
join_assoc a b c = simp or_assoc

join_none : (a : Gates) → join a none_selected ≡ a
join_none a = simp or_false

none_join : (a : Gates) → join none_selected a ≡ a
none_join a = refl

join_every : (a b : Gates) → join a (join every_gate b) ≡ every_gate
join_every a b = simp or_true

Verdict-cases : (v : Verdict) → ((g : Gates) × (v ≡ needs g)) ⊎ ((r : Reason) × (v ≡ everything r))
Verdict-cases (needs g) = inl (g, refl)
Verdict-cases (everything r) = inr (r, refl)

abbrev verdict_gates : Verdict → Gates
verdict_gates (needs gates) = gates
verdict_gates (everything reason) = every_gate

alone_lem : (path : Text) → alone path ≡ verdict_gates (visit path)
unfolding classify classify_from
alone_lem path = elim (Verdict-cases (visit path)) [
  | inl (gates, e) ↦ ground arith
  | inr (reason, e) ↦ ground arith
]

classify_from-joined :
    (so_far : Gates) (paths : List Text)
    → (classify_from so_far paths).gates ≡ join so_far (joined paths)
unfolding classify_from
classify_from-joined so_far [] = sym (join_none so_far)
classify_from-joined so_far (path ∷ paths) = elim (Verdict-cases (visit path)) [
  | inl (more, e) ↦
      let step : classify_from so_far (path ∷ paths) ≡ classify_from (join so_far more) paths =
        ground arith in
      ap (λ (s : Selection). s.gates) step
      ∙ classify_from-joined (join so_far more) paths
      ∙ join_assoc so_far more (joined paths)
      ∙ ap (λ g. join so_far (join g (joined paths))) (sym (alone_lem path ∙ ap verdict_gates e))
  | inr (reason, e) ↦
      let step : classify_from so_far (path ∷ paths) ≡ all_gates reason = ground arith in
      ap (λ (s : Selection). s.gates) step
      ∙ sym (join_every so_far (joined paths))
      ∙ ap (λ g. join so_far (join g (joined paths))) (sym (alone_lem path ∙ ap verdict_gates e))
]

-- Where something has changed, the gates are those that the single paths ask for, together: no path
-- is overlooked, no other gate is added, and the order of the paths does not matter.
pub classify-joined :
    (path : Text) (paths : List Text) → (classify (path ∷ paths)).gates ≡ joined (path ∷ paths)
unfolding classify
classify-joined path paths =
    classify_from-joined none_selected (path ∷ paths) ∙ none_join (joined (path ∷ paths))
