-- ===== src/Examples/Hooks.antt =====
-- Concrete runs of the decoder: the numbers of objects behind a hook.
use rava.Base.{
  ℕ, suc, ◌≡◌, refl, arith, true, false, [], ◌∷◌, Option, none, some, ◌==◌, if◌then◌else◌,
}
use rava.Outcome.{ok, ◌>>=◌}
use rava.Lua.{Value, Lua}
use rava.Serialize.{serialize_encode}
use rava.Serialize.Decode.{serialize_decode, find_decoder}
use rava.Serialize.Numbering.{serialize_decode-crossed}

-- Table 3 has a hook that sends table 4 to the decoder "d", which makes table 77 of it.
abbrev crossing : Lua
crossing = record {
  Heap = ℕ;
  next = λ h t k. ok none;
  serializer = λ h v. hook_of v;
  call_two = λ h f v. ok (Value.str (100 ∷ []), Value.table 4, h);
  call_one = λ h f v. ok (Value.table 77, h);
  is_lua = λ h g. false;
  nups = λ h g. 0;
  dump = λ h g. [];
  load_buffer = λ h code. none;
  get_upvalue = λ h g k. Value.nil;
  set_upvalue = λ h g k v. h;
  new_table = λ h. (h, suc h);
  set_table = λ h t k v. ok h;
  raw_set_i = λ h t k v. h;
  raw_get_i = λ h t k. Value.nil;
  obj_len = λ h t. 0;
  registry = λ h v. Value.function 21;
  globals = λ h v. Value.nil;
}
  where
    hook_of : Value → Option Value
    hook_of (Value.table t) = if t == 3 then some (Value.function 20) else none
    hook_of v = none

named : find_decoder crossing 30 (Value.str (100 ∷ [])) ≡ ok (Value.function 21)
unfolding find_decoder
named = refl

serialize_decode-crossed_example :
    (serialize_encode crossing 4 (Value.table 3 ∷ Value.table 3 ∷ []) 10 >>= λ (bytes, sent).
    serialize_decode crossing 5 bytes 30)
    ≡ ok (Value.table 77 ∷ Value.table 30 ∷ [], 31)
serialize_decode-crossed_example =
    serialize_decode-crossed crossing 3 4 (Value.function 20) (100 ∷ []) 0 0 10 10 30 31
      (Value.function 21) (Value.table 77) refl refl refl refl (λ e. omega (arith, e)) named refl
      (omega arith)

-- Table 3 has a hook that sends true to a decoder, which returns nil.
abbrev vanishing : Lua
vanishing = record crossing {
  call_two = λ h f v. ok (Value.str (100 ∷ []), Value.boolean true, h);
  call_one = λ h f v. ok (Value.nil, h);
}
