-- ===== src/Examples/Options.antt =====
-- Concrete runs of the options of a child process, of the list of interfaces and of the start.
use rava.Base.{
  ℕ, zero, suc, ◌*◌, ◌^◌, ◌≡◌, ◌≢◌, refl, arith, true, false, List, [], ◌∷◌, ◌++◌, Option, none,
  some, length, take, map, replicate, codes,
}
use rava.Outcome.{ok, fault, ◌>>=◌}
use rava.Lua.{Value}
use rava.Spawn.{Text, Slot, put_at, fill_args, read_args, read_env}
use rava.Spawn.Arrays.{read_args-fill_args}
use rava.Spawn.Environment.{entries, read_env-bounds}
use rava.System.{
  Interface, inet, inet6, other, own_row, row_with, system_interfaces, system_interfaces-rows,
}
use rava.Main.{Interpreter}
use rava.Main.Signals.{
  Event, sigint, vm, Signals, default, idle, Quiet, Caught, came_back, exited, interruption,
  do_call, do_call-signals,
}

abbrev to_text : Value → Option Text
to_text (Value.str x) = some x
to_text v = none

abbrev text_of : Option Text → Text
text_of none = []
text_of (some x) = x

abbrev pair_text : Option Text → Option Text → Text
pair_text k v = text_of k ++ 61 ∷ text_of v

abbrev cat_args : List Value
cat_args = Value.str (codes "foo") ∷ Value.str (codes "bar") ∷ []

read_args-fill_args_example :
    ((cells : List Slot) × ((put_at (replicate 3 none) 0 (some (codes "cat"))
          >>= fill_args to_text pair_text cat_args 1)
        ≡ ok cells)
      × (cells ≡ map some (some (codes "cat") ∷ map to_text cat_args)))
    × (read_args to_text pair_text (codes "cat") cat_args ≡ fault)
read_args-fill_args_example = read_args-fill_args to_text pair_text (codes "cat") cat_args

-- Thirty-two entries
abbrev home : Value × Value
home = (Value.str (codes "HOME"), Value.str (codes "/"))

abbrev variables : List (Value × Value)
variables =
    home ∷ home ∷ home ∷ home ∷ home ∷ home ∷ home ∷ home ∷ home ∷ home ∷ home ∷ home ∷ home ∷ home
    ∷ home ∷ home ∷ home ∷ home ∷ home ∷ home ∷ home ∷ home ∷ home ∷ home ∷ home ∷ home ∷ home
    ∷ home ∷ home ∷ home ∷ home ∷ home ∷ []

read_env-bounds_example :
    ((j : ℕ) → length variables ≡ 32 * 2 ^ j → read_env to_text pair_text variables ≡ fault)
    × (((j : ℕ) → length variables ≢ 32 * 2 ^ j)
        → (cells : List Slot) × (read_env to_text pair_text variables ≡ ok cells)
          × (take (suc (length variables)) cells
              ≡ map some (entries to_text pair_text variables ++ none ∷ [])))
read_env-bounds_example = read_env-bounds to_text pair_text variables (omega arith)

abbrev loopback : Interface
loopback = record { name = codes "lo"; is_internal = true; family = inet; text = codes "127.0.0.1" }

abbrev packet : Interface
packet = record { name = codes "p0"; is_internal = false; family = other; text = [] }

abbrev wired : Interface
wired = record { name = codes "e0"; is_internal = false; family = inet6; text = codes "fe80::1" }

system_interfaces-rows_example :
    (system_interfaces none (loopback ∷ []) ≡ ok (own_row loopback ∷ []))
    × (system_interfaces none (loopback ∷ wired ∷ packet ∷ loopback ∷ [])
        ≡ ok
            (own_row loopback ∷ own_row wired ∷ row_with wired.text packet ∷ own_row loopback ∷ []))
    × (system_interfaces none (packet ∷ loopback ∷ []) ≡ fault)
system_interfaces-rows_example =
    system_interfaces-rows (loopback ∷ []) (loopback ∷ []) wired packet (tt, tt) (tt, tt) tt refl

abbrev toy_interpreter : Interpreter
toy_interpreter = record {
  State = ℕ;
  require = required;
  to_string = to_text;
  call_tostring = λ v. none;
  trace = λ x. Value.str x;
}
  where
    required : ℕ → List ℕ → Option Value × ℕ
    required zero name = (some (Value.str name), 1)
    required (suc n) name = (none, 2)

do_call-signals_example :
    (do_call toy_interpreter (codes "init:1:") none (vm true ∷ []) (idle default)
      ≡ came_back none (idle default))
    × ((rest : List Event)
        → do_call toy_interpreter
            (codes "init:1:")
            none
            (vm true ∷ [] ++ sigint ∷ vm false ∷ rest)
            (idle default)
          ≡ came_back (some (interruption toy_interpreter (codes "init:1:"))) (idle default))
    × ((quiet' : List Event)
        → Quiet quiet'
        → do_call toy_interpreter
            (codes "init:1:")
            none
            (vm true ∷ [] ++ sigint ∷ vm true ∷ quiet')
            (idle default)
          ≡ came_back none (idle default))
    × ((caught rest : List Event)
        → Caught caught
        → do_call toy_interpreter
            (codes "init:1:")
            none
            (vm true ∷ [] ++ sigint ∷ (caught ++ sigint ∷ rest))
            (idle default)
          ≡ exited)
    × ((s : Signals) × (do_call toy_interpreter
            (codes "init:1:")
            none
            (vm true ∷ [] ++ sigint ∷ [])
            (idle default)
          ≡ came_back none s)
        × (s.handler ≡ default)
        × ((place' : List ℕ) (result' : Option Value) (rest : List Event)
            → do_call toy_interpreter place' result' (vm false ∷ rest) s
              ≡ came_back (some (interruption toy_interpreter place')) (idle default)))
do_call-signals_example = do_call-signals toy_interpreter (codes "init:1:") none (vm true ∷ []) tt
