-- ===== src/Outcome.antt =====
-- What a call of the C code can end in. `raised` is a Lua error (`luaL_error`, which does not
-- return); `fault` is undefined behaviour, such as a read of memory that nothing was written to;
-- `aborted` is a failed `assert`; `stuck` has no counterpart in the program: a loop of the model ran out of fuel.
use rava.Base.{ℕ, ◌≡◌, refl, ◌≢◌}

pub data Error : Type 0 where
  -- encode: a hook's first result is neither a function nor a string
  serialize_result : Error
  -- encode: attempt to persist a C function
  c_function : Error
  -- encode: a userdata without a hook, and a value of a type that has no encoding
  encode_userdata : Error
  encode_type : ℕ → Error
  -- decode: no decoder of that name, a chunk that does not load, an unknown type byte, a failed
  -- luaL_checktype
  no_decoder : Error
  load_chunk : Error
  bad_code : Error
  wrong_type : Error
  -- thread: cannot resume a dead fiber
  dead_fiber : Error
  -- an error that a called Lua function or a call of the Lua API raised
  thrown : ℕ → Error

pub data Outcome {ℓ} (A : Type ℓ) : Type ℓ where
  ok : A → Outcome A
  raised : Error → Outcome A
  fault : Outcome A
  aborted : Outcome A
  stuck : Outcome A

infixl 5 ◌>>=◌ ◌>>◌
abbrev pub ◌>>=◌ {ℓ κ} : {A : Type ℓ} {B : Type κ} → Outcome A → (A → Outcome B) → Outcome B
ok a >>= f = f a
raised e >>= f = raised e
fault >>= f = fault
aborted >>= f = aborted
stuck >>= f = stuck

abbrev pub ◌>>◌ {ℓ} : {B : Type ℓ} → Outcome (Unit {0}) → Outcome B → Outcome B
m >> k = m >>= λ _. k

-- The run kept within its fuel.
abbrev pub Ends {ℓ} : {A : Type ℓ} → Outcome A → Type ℓ
Ends r = r ≢ stuck

pub Ends-bind {ℓ κ} :
    {A : Type ℓ} {B : Type κ} (r : Outcome A) (f : A → Outcome B)
    → Ends r
    → ((a : A) → r ≡ ok a → Ends (f a))
    → Ends (r >>= f)
Ends-bind (ok a) f h k = k a refl
Ends-bind (raised e) f h k = λ p. cc
Ends-bind fault f h k = λ p. cc
Ends-bind aborted f h k = λ p. cc
Ends-bind stuck f h k = absurd (h refl)

pub >>=_assoc {ℓ κ μ} :
    {A : Type ℓ} {B : Type κ} {C : Type μ} (r : Outcome A) (f : A → Outcome B) (g : B → Outcome C)
    → ((r >>= f) >>= g) ≡ (r >>= λ a. f a >>= g)
>>=_assoc (ok a) f g = refl
>>=_assoc (raised e) f g = refl
>>=_assoc fault f g = refl
>>=_assoc aborted f g = refl
>>=_assoc stuck f g = refl
