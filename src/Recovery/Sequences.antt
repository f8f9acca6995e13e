-- ===== src/Recovery/Sequences.antt =====
-- Sequences of runs of scripts/recovery/journal.py over one storage: of any controllers, operations
-- and environments, again and again, with the writes of others in between.
use mathlib.Core.Path.{subst}
use terragrunt_demo.Common.{String, ◌≡◌, sym, refl, []}
use terragrunt_demo.Recovery.Ports.{Ports, State, Domain}
use terragrunt_demo.Recovery.Intent.{Journal}
use terragrunt_demo.Recovery.Run.{run}
use terragrunt_demo.Recovery.Stable.{Immutable, Grows}
use terragrunt_demo.Recovery.Once.{Distinct, Recorded, Once, Once-Grows}
use terragrunt_demo.Recovery.Effects.{LeavesAll}
use terragrunt_demo.Recovery.Runs.{run-Once}

module _ (p : Ports) (laws : Immutable p) where
  pub data Runs (s : State p) : State p → Type 0 where
    start : Runs s s
    next :
        {t : State p} (j : Journal) (d : Domain p)
        → LeavesAll p laws d
        → (operation : String) (raw : p.Raw) → Runs s t
        → Runs s (run p j operation raw d t).1
    others :
        {t : State p} (w : p.World)
        → Grows p laws t.world w
        → Runs s t
        → Runs s (record t { world = w })

  Runs-Once : {s t : State p} → Runs s t → Once p laws s → Once p laws t
  Runs-Once start h = h
  Runs-Once (next j d leaves operation raw r) h =
      (run-Once p laws j d leaves operation raw).at _ (Runs-Once r h)
  Runs-Once (others {t} w grows r) h = Once-Grows p laws t _ refl grows (Runs-Once r h)

  -- However often the controllers run, and whatever happens to a run, no token is dispatched twice,
  -- and each dispatched one has its attempt on record.
  pub runs_dispatch_once :
      (s t : State p) → s.calls ≡ [] → Runs s t → Distinct t.calls × Recorded p laws t.world t.calls
  runs_dispatch_once s t none_yet r =
      let h = Runs-Once r (record {
        recorded = subst (Recorded p laws s.world) (sym none_yet) tt;
        distinct = subst Distinct (sym none_yet) tt;
      }) in
      (h.distinct, h.recorded)
