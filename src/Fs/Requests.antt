-- ===== src/Fs/Requests.antt =====
-- What a caller of RAVA_FS_CALL sees, in the main state and in a fiber.
use rava.Base.{
  ℕ, ◌≡◌, refl, sym, ap, ◌∙◌, Bool, true, false, List, [], ◌∷◌, ◌++◌, Option, none, some,
  if◌then◌else◌, ==_refl,
}
use rava.Outcome.{Outcome, ok, raised, fault, aborted, stuck, ◌>>=◌}
use rava.Scheduler.{State, thread, fiber, same_state, state_ready, fiber_suspend, update}
use rava.Scheduler.Balance.{Balanced, fiber_suspend-Balanced}
use rava.Scheduler.Turns.{back}
use rava.Fs.{
  Answer, failed, completed, Request, Pushed, number, text, nil, boolean, file, fields, array,
  FileSystem, Disk, push, opens, set_handle, fs_pushes, fs_result, fs_cb, fs_refused, error_of,
  fs_call,
}

module _ (fs : FileSystem) where
  open fs use {Number, of_size, of_errno}

  -- The values that the state will return, and the handles of the files.
  abbrev pub seen : State → Disk fs → List (Pushed Number) × (ℕ → Number)
  seen s d = (d.stack s, d.handles)

  abbrev pub see : State → Outcome (Disk fs) → Outcome (List (Pushed Number) × (ℕ → Number))
  see s r = r >>= λ d. ok (seen s d)

  same_state_refl : (s : State) → same_state s s ≡ true
  same_state_refl thread = refl
  same_state_refl (fiber i) = ==_refl i

  pushed :
      (s : State) (vs : List (Pushed Number)) (d : Disk fs)
      → (push fs s vs d).stack s ≡ d.stack s ++ vs
  pushed s vs d = rw (same_state_refl s)

  -- Two disks that look alike to a state each.
  module _ (s r : State) (d e : Disk fs) (h : d.stack s ≡ e.stack r)
      (g : d.handles ≡ e.handles) where
    push-same :
        (vs : List (Pushed Number)) → see s (ok (push fs s vs d)) ≡ see r (ok (push fs r vs e))
    push-same vs =
        let p = pushed s vs d ∙ ap (λ us. us ++ vs) h ∙ sym (pushed r vs e) in λ i. ok (p i, g i)

    set_handle-same :
        (vs : List (Pushed Number)) (n : ℕ)
        → see s (set_handle fs vs n d) ≡ see r (set_handle fs vs n e)
    unfolding set_handle
    set_handle-same [] n = refl
    set_handle-same (file f ∷ []) n = λ i. ok (h i, update (g i) f (of_size n))
    set_handle-same (number m ∷ []) n = refl
    set_handle-same (text x ∷ []) n = refl
    set_handle-same (nil ∷ []) n = refl
    set_handle-same (boolean b ∷ []) n = refl
    set_handle-same (fields xs ∷ []) n = refl
    set_handle-same (array xs ∷ []) n = refl
    set_handle-same (v ∷ w ∷ vs) n = set_handle-same (w ∷ vs) n

    pushes-same :
        (o : Outcome (List (Pushed Number)))
        → see s (o >>= λ vs. ok (push fs s vs d)) ≡ see r (o >>= λ vs. ok (push fs r vs e))
    pushes-same (ok vs) = push-same vs
    pushes-same (raised x) = refl
    pushes-same fault = refl
    pushes-same aborted = refl
    pushes-same stuck = refl

    fs_result-same :
        (q : Request Number) (a : Answer)
        → see s (fs_result fs q a s d) ≡ see r (fs_result fs q a r e)
    unfolding fs_result
    fs_result-same q (failed x) = push-same (nil ∷ number (of_errno x) ∷ [])
    fs_result-same q (completed n mem st) = split (opens fs q)
      where
        split :
            (b : Bool)
            → see s (
                if b
                then set_handle fs (d.stack s) n d
                else (fs_pushes fs q n mem st >>= λ vs. ok (push fs s vs d)))
              ≡ see r (
                  if b
                  then set_handle fs (e.stack r) n e
                  else (fs_pushes fs q n mem st >>= λ vs. ok (push fs r vs e)))
        split true = ap (λ vs. see s (set_handle fs vs n d)) h ∙ set_handle-same (e.stack r) n
        split false = pushes-same (fs_pushes fs q n mem st)

  ready-same :
      (s : State) (o : Outcome (Disk fs))
      → see s (o >>= λ d. ok (record d { loop = state_ready s d.loop })) ≡ see s o
  ready-same s (ok d) = refl
  ready-same s (raised x) = refl
  ready-same s fault = refl
  ready-same s aborted = refl
  ready-same s stuck = refl

  abbrev returned : Disk fs → Outcome (Disk fs × Bool)
  returned d = ok (d, false)

  done-same :
      (s : State) (o : Outcome (Disk fs)) → see s ((o >>= returned) >>= λ r. ok r.0) ≡ see s o
  done-same s (ok d) = refl
  done-same s (raised x) = refl
  done-same s fault = refl
  done-same s aborted = refl
  done-same s stuck = refl

  abbrev suspended : ℕ → Disk fs → Option ℕ → Disk fs
  suspended i e r = record (fs_refused fs r (fiber i) e) {
    loop = (fiber_suspend i (fs_refused fs r (fiber i) e).loop).0;
  }

  -- What a request comes to in the main state, and in a fiber once its callback has run.
  abbrev pub at_once : Request Number → Disk fs → Outcome (List (Pushed Number) × (ℕ → Number))
  at_once q d = see thread (fs_call fs q thread d >>= λ r. ok r.0)

  abbrev pub later :
      Request Number → Answer → ℕ → Disk fs → Outcome (List (Pushed Number) × (ℕ → Number))
  later q a i e = see (fiber i) (fs_call fs q (fiber i) e >>= λ r. fs_cb fs q a (fiber i) r.0)

  at_once-fs_result :
      (q : Request Number) (d : Disk fs)
      → at_once q d
        ≡ see thread (
            fs_result fs q
              (fs.perform q)
              thread
              (fs_refused fs (error_of fs (fs.perform q)) thread d))
  unfolding fs_call
  at_once-fs_result q d =
      let a = fs.perform q in
      done-same thread (fs_result fs q a thread (fs_refused fs (error_of fs a) thread d))

  later-fs_result :
      (q : Request Number) (a : Answer) (i : ℕ) (e : Disk fs)
      → fs.submit q ≡ none
      → later q a i e ≡ see (fiber i) (fs_result fs q a (fiber i) (suspended i e none))
  unfolding fs_call fs_cb
  later-fs_result q a i e u =
      ap (λ r. see (fiber i) (fs_cb fs q a (fiber i) (suspended i e r))) u
      ∙ ready-same (fiber i) (fs_result fs q a (fiber i) (suspended i e none))

  -- A result is the same at once and later. The error of a request that is performed at once is also
  -- what the call returns: the main state gets `false` and its text in front of the nil and the number.
  abbrev pub Compared : Request Number → Answer → ℕ → Disk fs → Disk fs → Type 0
  Compared q (completed n mem st) i d e = at_once q d ≡ later q (completed n mem st) i e
  Compared q (failed x) i d e =
      (at_once q d
        ≡ ok (boolean false ∷ text (fs.strerror x) ∷ nil ∷ number (of_errno x) ∷ [], d.handles))
      × (later q (failed x) i e
          ≡ ok (e.stack (fiber i) ++ nil ∷ number (of_errno x) ∷ [], e.handles))

  -- A request is performed at once for the main state, and by a call that libuv accepts and a later
  -- callback for a fiber, with the same answer; the two states have the same values on their stacks and
  -- the same files. If the answer is a result, both end alike: with the same values to return and the
  -- same handles, or in the same error or fault. If it is an error, the main state returns false, the
  -- text, nil and the number, in place of what was on its stack, and the fiber's values are followed by
  -- nil and the number; no handle changes.
  pub fs_call-fs_cb :
      (q : Request Number) (a : Answer) (i : ℕ) (d e : Disk fs)
      → fs.perform q ≡ a
      → fs.submit q ≡ none
      → d.stack thread ≡ e.stack (fiber i)
      → d.handles ≡ e.handles
      → Compared q a i d e
  unfolding fs_refused
  fs_call-fs_cb q (completed n mem st) i d e p u h g =
      let a = completed n mem st in
      at_once-fs_result q d
      ∙ ap (λ r. see thread (fs_result fs q r thread (fs_refused fs (error_of fs r) thread d))) p
      ∙ fs_result-same thread (fiber i) d (suspended i e none) h g q a
      ∙ sym (later-fs_result q a i e u)
  fs_call-fs_cb q (failed x) i d e p u h g = (
    at_once-fs_result q d
        ∙ ap (λ r. see thread (fs_result fs q r thread (fs_refused fs (error_of fs r) thread d))) p
        ∙ unfold fs_result in refl,
    later-fs_result q (failed x) i e u
        ∙ unfold fs_result in
          λ j.
            ok
              (pushed (fiber i) (nil ∷ number (of_errno x) ∷ []) (suspended i e none) j, e.handles),
  )

  -- The running fiber makes a request that libuv refuses. It gets `false` and the text of the error on
  -- its stack, but it is suspended as if the request were under way: it yields, it is no longer ready,
  -- and the queue agrees with the flags once the thread is back, so it is not in it.
  pub fs_call-refused :
      (q : Request Number) (i x : ℕ) (d : Disk fs)
      → fs.submit q ≡ some x
      → d.loop.curr ≡ fiber i
      → Balanced d.loop
      → (d' : Disk fs) × (fs_call fs q (fiber i) d ≡ ok (d', true))
        × (d'.stack (fiber i) ≡ boolean false ∷ text (fs.strerror x) ∷ [])
        × ((d'.loop.fibers i).ready ≡ false)
        × Balanced (back d'.loop)
  unfolding fs_call fs_refused
  fs_call-refused q i x d u c v =
      let (yields, unready, balanced) = fiber_suspend-Balanced i d.loop c v in
      let after : Option ℕ → Disk fs × Bool = λ r.
        let d' = fs_refused fs r (fiber i) d in
        (record d' { loop = (fiber_suspend i d'.loop).0 }, (fiber_suspend i d'.loop).1) in
      (
        (after (some x)).0,
        ap (λ r. ok (after r)) u ∙ ap (λ b. ok ((after (some x)).0, b)) yields,
        rw (==_refl i),
        unready,
        balanced,
      )
