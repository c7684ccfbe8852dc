-- ===== src/Scheduler/Outer.antt =====
-- The field `outer` of states: the loops of `ravaL_thread_self` (src/rava_process_thread.c) and of
-- `ravaL_fiber_create` (src/rava_process_fiber.c) that look for the thread of a state.
use rava.Base.{
  ℕ, zero, suc, ◌+◌, ◌<◌, ◌≡◌, refl, sym, ap, ◌∙◌, arith, Bool, true, false, ◌==◌, ==_refl,
  if◌then◌else◌,
}
use rava.Outcome.{Outcome, ok, stuck, ◌>>=◌}

-- A state of any operating-system thread: the thread itself, or a fiber.
pub data Owner : Type 0 where
  os_thread : ℕ → Owner
  fiber : ℕ → Owner

-- The fibers that were made, numbered in that order, each with its field `outer`.
pub record Family : Type 0 where
  pub count : ℕ
  pub outer : ℕ → Owner

-- `while (self->type != RAVA_STATE_TYPE_THREAD) self = self->outer;`
unfoldable pub outer_loop : ℕ → Family → Owner → Outcome ℕ
outer_loop zero f s = stuck
outer_loop (suc fuel) f (os_thread t) = ok t
outer_loop (suc fuel) f (fiber i) = outer_loop fuel f (f.outer i)

-- The new fiber, with this field `outer`.
abbrev pub with_fiber : ℕ → Family → Family
with_fiber t f = record {
  count = f.count + 1;
  outer = λ i. if i == f.count then os_thread t else f.outer i;
}

-- ravaL_fiber_create by state `s`
unfoldable pub add_fiber : ℕ → Owner → Family → Outcome Family
unfolding outer_loop
add_fiber fuel s f = outer_loop fuel f s >>= λ t. ok (with_fiber t f)

-- ravaL_thread_self in state `s`, a thread or a fiber that was not closed: a closed fiber has no entry
-- in the registry.
unfoldable pub thread_self : ℕ → Owner → Family → Outcome ℕ
unfolding outer_loop
thread_self fuel s f = outer_loop fuel f s

-- A state that is there.
abbrev pub IsMade : Family → Owner → Type 0
IsMade f (os_thread t) = Unit {0}
IsMade f (fiber i) = i < f.count

-- The families that states which are there make, one fiber after the other.
pub data Grown : Family → Type 0 where
  empty : (outer : ℕ → Owner) → Grown (record { count = 0; outer = outer })
  grow :
      (fuel t : ℕ) (s : Owner) (f : Family)
      → Grown f
      → IsMade f s
      → outer_loop fuel f s ≡ ok t
      → Grown (with_fiber t f)

abbrev IsThread : Owner → Type 0
IsThread (os_thread t) = Unit {0}
IsThread (fiber i) = ⊥

-- The field `outer` of a fiber is a thread.
Grown-IsThread : (f : Family) → Grown f → (i : ℕ) → i < f.count → IsThread (f.outer i)
Grown-IsThread f (empty outer) i lt = absurd (omega (arith, lt))
Grown-IsThread f (grow fuel t s g d m e) i lt =
    split (i == g.count) refl (λ below. Grown-IsThread g d i below)
  where
    split :
        (b : Bool)
        → (i == g.count) ≡ b
        → (i < g.count → IsThread (g.outer i))
        → IsThread (if b then os_thread t else g.outer i)
    split true same known = tt
    split false other known = known (ground (arith, lt))

outer-thread :
    (fuel : ℕ) (f : Family) (s : Owner)
    → IsThread s
    → (t : ℕ) × (s ≡ os_thread t) × (outer_loop (suc fuel) f s ≡ ok t)
unfolding outer_loop
outer-thread fuel f (os_thread t) h = (t, refl, refl)
outer-thread fuel f (fiber i) h = elim h [ ]

own_thread :
    (fuel : ℕ) (f : Family) (s : Owner)
    → Grown f
    → IsMade f s
    → (t : ℕ) × (outer_loop (suc (suc fuel)) f s ≡ ok t)
unfolding outer_loop
own_thread fuel f (os_thread t) g m = (t, refl)
own_thread fuel f (fiber i) g m =
    let (t, e, r) = outer-thread fuel f (f.outer i) (Grown-IsThread f g i m) in (t, r)

new_outer : (t : ℕ) (f : Family) → (with_fiber t f).outer f.count ≡ os_thread t
new_outer t f = rw (==_refl f.count) refl

old_outer : (t : ℕ) (f : Family) (i : ℕ) → i < f.count → (with_fiber t f).outer i ≡ f.outer i
old_outer t f i m = let other : (i == f.count) ≡ false = ground (arith, m) in rw other refl

kept_thread :
    (fuel t : ℕ) (f : Family) (s : Owner)
    → Grown f
    → IsMade f s
    → outer_loop (suc (suc fuel)) (with_fiber t f) s ≡ outer_loop (suc (suc fuel)) f s
unfolding outer_loop
kept_thread fuel t f (os_thread u) g m = refl
kept_thread fuel t f (fiber i) g m =
    let (u, e, r) = outer-thread fuel f (f.outer i) (Grown-IsThread f g i m) in
    ap (outer_loop (suc fuel) (with_fiber t f)) (old_outer t f i m ∙ e) ∙ sym r

-- Two rounds of the loops over `outer` are enough, for every state of a family that grew fiber by
-- fiber: each state has its thread; a state that makes a fiber succeeds, the new fiber has the thread
-- of that state, and all other states keep theirs.
pub thread_self-add_fiber :
    (fuel : ℕ) (f : Family) (s : Owner)
    → Grown f
    → IsMade f s
    → (t : ℕ) × (g : Family) × (thread_self (suc (suc fuel)) s f ≡ ok t)
      × (add_fiber (suc (suc fuel)) s f ≡ ok g)
      × (thread_self (suc (suc fuel)) (fiber f.count) g ≡ ok t)
      × ((r : Owner)
          → IsMade f r
          → thread_self (suc (suc fuel)) r g ≡ thread_self (suc (suc fuel)) r f)
      × Grown g
unfolding thread_self add_fiber outer_loop
thread_self-add_fiber fuel f s g m =
    let (t, e) = own_thread fuel f s g m in
    (
      t,
      with_fiber t f,
      e,
      rw e refl,
      ap (outer_loop (suc fuel) (with_fiber t f)) (new_outer t f),
      λ r made. kept_thread fuel t f r g made,
      grow (suc (suc fuel)) t s f g m e,
    )
