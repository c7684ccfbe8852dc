-- ===== src/MainLoop/Suspend.antt =====
-- How the main state's loop of src/rava_process_thread.c ends.
use rava.Base.{◌⊎◌, ◌≡◌, ◌≢◌, true, false, List, [], ◌∷◌}
use rava.Outcome.{Outcome, ok, raised, fault, aborted, stuck, dead_fiber}
use rava.Scheduler.Loop.{Settled}
use rava.Scheduler.Runs.{thread_loop}
use rava.Stream.{Uv, Net}
use rava.Stream.Events.{Event, Faulty}
use rava.MainLoop.{Round, round}

module _ (uv : Uv) where
  -- The loop reaches a round whose turns do not empty the queue; or it makes all rounds, each of them
  -- leaves the main state unready and handles active, and no round is left.
  abbrev pub UsedUp : List (Round uv) → Net uv.Handle → Type 0
  UsedUp [] n = Unit {0}
  UsedUp (r ∷ rs) n =
      (thread_loop r.turns n.loop ≡ stuck)
      ⊎ ((n' : Net uv.Handle) × (round uv r n ≡ ok n')
          × (n'.loop.ready ≡ false)
          × (r.active ≡ true)
          × UsedUp rs n')

  -- How such a run may end. A fault is a callback that `Faulty` names; `S` tells when the run has used
  -- up what was given of it.
  abbrev pub Ran : Type 0 → (Net uv.Handle → Type 0) → Outcome (Net uv.Handle) → Type 0
  Ran S P (ok n) = P n
  Ran S P (raised e) = e ≢ dead_fiber
  Ran S P fault = (ev : Event uv) × (n : Net uv.Handle) × Faulty uv ev n
  Ran S P aborted = Unit {0}
  Ran S P stuck = S

  abbrev pub SettledNet : Net uv.Handle → Type 0
  SettledNet n = Settled n.loop
