-- ===== src/Main/Signals.antt =====
-- src/main.c, `docall` with its signal handlers `laction` and `lstop`: what an interrupt from the
-- keyboard does to a call.
--
-- The call runs Lua code: a list of events, in the order in which they happen. `sigint` is the arrival
-- of the signal. `vm` is an event at which LuaJIT looks for a hook (a call, a return, an instruction);
-- it says whether an error raised there is caught by the code itself, which then runs on.
use rava.Base.{
  ℕ, ◌≡◌, refl, ap, ◌∙◌, Bool, true, false, List, [], ◌∷◌, ◌++◌, Option, none, some, codes,
  if◌then◌else◌, ◌&&◌, not, sym, append-nil,
}
use rava.Lua.{Value, str}
use rava.Main.{Interpreter, traceback}

pub data Event : Type 0 where
  sigint : Event
  vm : Bool → Event

-- What SIGINT does: SIG_DFL, which ends the process, or `laction`
pub data Handler : Type 0 where
  default : Handler
  action : Handler

-- The handler, and whether `lstop` is the hook of the Lua state
pub record Signals : Type 0 where
  pub handler : Handler
  pub hooked : Bool

-- laction: the next signal ends the process, and the next event of the virtual machine runs `lstop`.
abbrev pub laction : Signals → Signals
laction s = record { handler = default; hooked = true }

-- lstop, up to the error: the hook is gone.
abbrev pub lstop : Signals → Signals
lstop s = record s { hooked = false }

-- The process was ended by the signal; the error of `lstop` left the call; or the call ran to its end.
pub data Ran : Type 0 where
  killed : Ran
  interrupted : Signals → Ran
  finished : Signals → Ran

abbrev on_sigint : Handler → Ran → Ran
on_sigint default rest = killed
on_sigint action rest = rest

-- Where `lstop` is not the hook, `lstop` of the state is that state.
unfoldable pub run_events : List Event → Signals → Ran
run_events [] s = finished s
run_events (sigint ∷ es) s = on_sigint s.handler (run_events es (laction s))
run_events (vm caught ∷ es) s =
    let rest = run_events es (lstop s) in
    if s.hooked && not caught then interrupted (lstop s) else rest

-- `exited` stands for the end of the process.
pub data Called : Type 0 where
  exited : Called
  came_back : Option Value → Signals → Called

module _ (I : Interpreter) where
  -- The error of `lstop`, behind the place that luaL_where gives, through the handler of errors
  abbrev pub interruption : List ℕ → Value
  interruption place = traceback I (str (place ++ codes "interrupted!"))

  -- docall of a call that makes these events and has this result, if it runs to its end: the status,
  -- with the error object
  unfoldable pub do_call : List ℕ → Option Value → List Event → Signals → Called
  do_call place result es s = returned (run_events es (record s { handler = action }))
    where
      returned : Ran → Called
      returned killed = exited
      returned (interrupted s') =
          came_back (some (interruption place)) (record s' { handler = default })
      returned (finished s') = came_back result (record s' { handler = default })

  -- dostring: luaL_loadbuffer fails with an error object, or the chunk is called.
  unfoldable pub do_string : Option Value → List ℕ → Option Value → List Event → Signals → Called
  unfolding do_call
  do_string (some e) place result es s = came_back (some e) s
  do_string none place result es s = do_call place result es s

-- Events without the signal.
abbrev pub Quiet : List Event → Type 0
Quiet [] = Unit {0}
Quiet (sigint ∷ es) = ⊥
Quiet (vm caught ∷ es) = Quiet es

-- Events without the signal whose errors the code catches.
abbrev pub Caught : List Event → Type 0
Caught [] = Unit {0}
Caught (sigint ∷ es) = ⊥
Caught (vm caught ∷ es) = (caught ≡ true) × Caught es

-- Nothing is pending.
abbrev pub idle : Handler → Signals
idle h = record { handler = h; hooked = false }

run_events-Quiet :
    (quiet es : List Event) (h : Handler)
    → Quiet quiet
    → run_events (quiet ++ es) (idle h) ≡ run_events es (idle h)
unfolding run_events
run_events-Quiet [] es h q = refl
run_events-Quiet (sigint ∷ quiet) es h q = elim q [ ]
run_events-Quiet (vm caught ∷ quiet) es h q = run_events-Quiet quiet es h q

run_events-alone :
    (quiet : List Event) (h : Handler) → Quiet quiet → run_events quiet (idle h) ≡ finished (idle h)
unfolding run_events
run_events-alone quiet h q =
    ap (λ es. run_events es (idle h)) (sym (append-nil quiet)) ∙ run_events-Quiet quiet [] h q

-- The signal arrived, and the code catches all errors: a second signal ends the process.
run_events-second :
    (caught es : List Event) (hooked : Bool)
    → Caught caught
    → run_events (caught ++ sigint ∷ es) (record { handler = default; hooked = hooked }) ≡ killed
unfolding run_events
run_events-second [] es hooked c = refl
run_events-second (sigint ∷ caught) es hooked c = elim c [ ]
run_events-second (vm true ∷ caught) es true c = run_events-second caught es false c.1
run_events-second (vm true ∷ caught) es false c = run_events-second caught es false c.1
run_events-second (vm false ∷ caught) es hooked c = let z : ⊥ = cc (c.0) in absurd z

module _ (I : Interpreter) (place : List ℕ) (result : Option Value) where
  -- What a signal does to a call that `docall` makes while nothing is pending, in five cases. Without
  -- a signal the call has its result. If the very next event after the signal is one whose errors the
  -- code does not catch, the call fails with the interruption. If the very next event is one whose
  -- errors the code catches and no signal follows, the interruption is forgotten and the call has its
  -- result. If since the signal the code caught all errors, a second signal ends the process. A signal
  -- behind the last event leaves the result, and makes the next call fail if the errors of its first
  -- event are not caught. In every case in which the call returns, the handler is the default one
  -- after it.
  pub do_call-signals :
      (quiet : List Event)
      → Quiet quiet
      → (do_call I place result quiet (idle default) ≡ came_back result (idle default))
        × ((rest : List Event)
            → do_call I place result (quiet ++ sigint ∷ vm false ∷ rest) (idle default)
              ≡ came_back (some (interruption I place)) (idle default))
        × ((quiet' : List Event)
            → Quiet quiet'
            → do_call I place result (quiet ++ sigint ∷ vm true ∷ quiet') (idle default)
              ≡ came_back result (idle default))
        × ((caught rest : List Event)
            → Caught caught
            → do_call I place result (quiet ++ sigint ∷ (caught ++ sigint ∷ rest)) (idle default)
              ≡ exited)
        × ((s : Signals) × (do_call I place result (quiet ++ sigint ∷ []) (idle default)
              ≡ came_back result s)
            × (s.handler ≡ default)
            × ((place' : List ℕ) (result' : Option Value) (rest : List Event)
                → do_call I place' result' (vm false ∷ rest) s
                  ≡ came_back (some (interruption I place')) (idle default)))
  unfolding do_call run_events
  do_call-signals quiet q = (
    rw (run_events-alone quiet action q) refl,
    λ rest. rw (run_events-Quiet quiet (sigint ∷ vm false ∷ rest) action q) refl,
    λ quiet' q'.
        rw
          (
            run_events-Quiet quiet (sigint ∷ vm true ∷ quiet') action q,
            run_events-alone quiet' default q',
          )
          refl,
    λ caught rest c.
        rw
          (
            run_events-Quiet quiet (sigint ∷ (caught ++ sigint ∷ rest)) action q,
            run_events-second caught rest true c,
          )
          refl,
    (
      record { handler = default; hooked = true },
      rw (run_events-Quiet quiet (sigint ∷ []) action q) refl,
      refl,
      λ place' result' rest. refl,
    ),
  )
