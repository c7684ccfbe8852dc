-- ===== src/Examples/States.antt =====
-- Concrete runs of what passes between Lua states: bytes, threads and modules.
use rava.Base.{ℕ, ◌+◌, true, List, [], ◌∷◌, ◌++◌, none, some}
use rava.Outcome.{ok}
use rava.Lua.{Value, Lua}
use rava.Serialize.Format.{Item, boolean, number, function_val, end}
use rava.Serialize.Build.{World}
use rava.Threads.{Called, returned, Child}
use rava.Examples.{Toy, next_entry, one, heap}

-- A table whose entries never end
abbrev broken : List ℕ
broken = 1 ∷ 5 ∷ 2 ∷ 1 ∷ []

-- Functions are numbers; their bytecode is the bytes 27 and 76, and it loads as function 9.
abbrev functional : Lua
functional = record {
  Heap = Toy;
  next = next_entry;
  serializer = λ h v. none;
  call_two = λ h f v. ok (Value.nil, Value.nil, h);
  call_one = λ h f v. ok (Value.nil, h);
  is_lua = λ h g. true;
  nups = λ h g. 0;
  dump = λ h g. (27 ∷ 76 ∷ []) ∷ [];
  load_buffer = λ h code. some (9, h);
  get_upvalue = λ h g k. Value.nil;
  set_upvalue = λ h g k v. h;
  new_table = λ h. (h.0 + 1, (h.0 + 1, h.1));
  set_table = λ h t k v. ok (h.0, h.1 ++ (t, k, v) ∷ []);
  raw_set_i = λ h t k v. h;
  raw_get_i = λ h t k. Value.nil;
  obj_len = λ h t. 0;
  registry = λ h v. Value.nil;
  globals = λ h v. Value.nil;
}

abbrev args : List Value
args = Value.function 3 ∷ Value.boolean true ∷ []

abbrev items : List Item
items = function_val (27 ∷ 76 ∷ []) end ∷ boolean true ∷ []

abbrev after : World functional
after = record { seen = Value.function 3 ∷ []; heap = (1, []) }

abbrev echo : Toy → ℕ → List Value → Called Toy
echo h g vs = returned vs h

-- A thread that has ended with the result 1.
abbrev ended : Child functional
ended = record {
  ready = true;
  dead = true;
  stack = Value.boolean true ∷ Value.number one ∷ [];
  heap = (0, []);
}

abbrev results : List Item
results = boolean true ∷ number one ∷ []
