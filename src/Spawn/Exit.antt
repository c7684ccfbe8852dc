-- ===== src/Spawn/Exit.antt =====
-- `_exit_cb` of src/rava_process_spawn.c: whom the end of a child process wakes.
use rava.Base.{ℕ, ◌≡◌, refl, ap, ◌∙◌, true, List, [], ◌∷◌, ==_refl, if◌then◌else◌}
use rava.Lua.{Value}
use rava.Scheduler.{
  State, thread, fiber, Thread, set_cond, push_values, cond_signal, cond_signal_head, state_ready,
}
use rava.Scheduler.Balance.{push_values-Balanced}
use rava.Scheduler.Loop.{Settled}
use rava.Scheduler.Waking.{ready-fiber_ready, conds-state_ready}
use rava.Stream.Events.{cond_signal-Settled}
use rava.Spawn.{exit_cb}

push_values-Settled :
    (vs : List Value) (s : State) (t : Thread) → Settled t → Settled (push_values vs s t)
push_values-Settled vs thread t (c, v) =
    (c, λ i. record { queued = (v i).queued; dead_ready = (v i).dead_ready; runs = (v i).runs })
push_values-Settled vs (fiber i) t (c, v) = (c, push_values-Balanced vs (fiber i) t v)

conds-push_values :
    (vs : List Value) (s : State) (t : Thread) → (push_values vs s t).conds ≡ t.conds
conds-push_values vs thread t = refl
conds-push_values vs (fiber i) t = refl

signal_first :
    (c i : ℕ) (q : List State) (t : Thread)
    → t.conds c ≡ fiber i ∷ q
    → (((cond_signal c t).0.fibers i).ready ≡ true) × ((cond_signal c t).0.conds c ≡ q)
unfolding cond_signal cond_signal_head state_ready
signal_first c i q t e = rw e (
  ready-fiber_ready i (set_cond c q t),
  ap (λ f. f c) (conds-state_ready (fiber i) (set_cond c q t))
      ∙ ap (λ b. if b then q else t.conds c) (==_refl c),
)

-- When a child process ends between two turns and fiber `i` is the first to wait for it, that fiber is
-- ready, the others go on waiting in their order, and the queue of fibers agrees with their flags as
-- before.
pub exit_cb-wakes :
    (c i : ℕ) (q : List State) (s : State) (status sigterm : Value) (t : Thread)
    → Settled t
    → t.conds c ≡ fiber i ∷ q
    → Settled (exit_cb c s status sigterm t)
      × (((exit_cb c s status sigterm t).fibers i).ready ≡ true)
      × ((exit_cb c s status sigterm t).conds c ≡ q)
unfolding exit_cb
exit_cb-wakes c i q s status sigterm t v e =
    let u = push_values (status ∷ sigterm ∷ []) s t in
    let woken =
      signal_first c i q u (ap (λ f. f c) (conds-push_values (status ∷ sigterm ∷ []) s t) ∙ e) in
    (cond_signal-Settled c u (push_values-Settled (status ∷ sigterm ∷ []) s t v), woken.0, woken.1)
