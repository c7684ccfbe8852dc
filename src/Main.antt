-- ===== src/Main.antt =====
-- src/main.c: the start of the interpreter, which requires the modules `init` and `main` in turn.
--
-- LuaJIT's state, the calls of `require` and the conversion of an error to a text are given. What a
-- signal does to a call is in Main/Signals.
pub mod Signals
pub mod Start
use rava.Base.{
  ℕ, ◌+◌, ◌≡◌, refl, Bool, true, false, List, [], ◌∷◌, ◌++◌, Option, none, some, codes,
  if◌then◌else◌,
}
use rava.Lua.{Value, nil}

pub record Interpreter : Type 1 where
  pub State : Type 0
  -- lua_pcall of `require` on a name: no error, or the error object that the handler made of it
  pub require : State → List ℕ → Option Value × State
  -- lua_tostring
  pub to_string : Value → Option (List ℕ)
  -- luaL_callmeta of `__tostring`
  pub call_tostring : Value → Option Value
  -- luaL_traceback behind a text
  pub trace : List ℕ → Value

-- l_message: the program's name and the message, as a line of stderr
abbrev pub Line : Type 0
Line = List ℕ × List ℕ

module _ (I : Interpreter) where
  open I use {State}

  -- traceback, the handler of errors: on the error object
  unfoldable pub traceback : Value → Value
  traceback nil = nil
  traceback v = direct (I.to_string v)
    where
      by_meta : Option Value → Value
      by_meta none = v
      by_meta (some r) = elim (I.to_string r) [ none ↦ r | some text ↦ I.trace text ]

      direct : Option (List ℕ) → Value
      direct (some text) = I.trace text
      direct none = by_meta (I.call_tostring v)

  abbrev pub not_a_string : List ℕ
  not_a_string = codes "(error object is not a string)"

  abbrev pub is_nil : Value → Bool
  is_nil nil = true
  is_nil v = false

  abbrev pub text_or : Option (List ℕ) → List ℕ
  text_or none = not_a_string
  text_or (some text) = text

  -- report
  unfoldable pub report : List ℕ → Option Value → List Line
  report progname none = []
  report progname (some v) = if is_nil v then [] else (progname, text_or (I.to_string v)) ∷ []

  -- dolibrary: the status, what is printed, and the state
  unfoldable pub do_library : List ℕ → List ℕ → State → Option Value × List Line × State
  unfolding report
  do_library progname name s = let (r, s') = I.require s name in (r, report progname r, s')

  -- `if (argv[0] && argv[0][0]) progname = argv[0];`
  unfoldable pub program_name : List (List ℕ) → List ℕ
  program_name ((x ∷ xs) ∷ args) = x ∷ xs
  program_name args = codes "rava"

  -- The table `arg`: the arguments from index 0 on
  unfoldable pub arg_table : ℕ → List (List ℕ) → List (ℕ × List ℕ)
  arg_table i [] = []
  arg_table i (a ∷ args) = (i, a) ∷ arg_table (i + 1) args

  abbrev pub exit_failure : Option Value → Bool
  exit_failure none = false
  exit_failure (some v) = true

  -- main: does it exit with a failure, the lines that it prints, and the state that is closed.
  -- `set_args` sets the global `arg`.
  unfoldable pub run :
      (List (ℕ × List ℕ) → State → State) → List (List ℕ) → State → Bool × List Line × State
  unfolding do_library program_name arg_table
  run set_args argv s =
      let name = program_name argv in
      let (r, lines, s₁) = do_library name (codes "init") (set_args (arg_table 0 argv) s) in
      let (r', lines', s₂) = do_library name (codes "main") s₁ in
      (exit_failure r', lines ++ lines', s₂)

  -- An error of `init` is printed, but `main` runs all the same, and the program exits as it would
  -- have if `init` had left the same state without an error.
  run-init_ignored :
      (set_args : List (ℕ × List ℕ) → State → State) (argv : List (List ℕ)) (s s₁ s₂ : State)
      (v : Value) (r : Option Value)
      → I.require (set_args (arg_table 0 argv) s) (codes "init") ≡ (some v, s₁)
      → I.require s₁ (codes "main") ≡ (r, s₂)
      → run set_args argv s
        ≡ (exit_failure r, report (program_name argv) (some v) ++ report (program_name argv) r, s₂)
  unfolding run
  run-init_ignored set_args argv s s₁ s₂ v r e e' = rw (e, e') refl
