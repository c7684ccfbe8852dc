-- ===== src/Examples/Opened.antt =====
-- A concrete Lua state for the set-up of modules and classes: tables are numbered, and fields, the
-- metatables and the registry are functions.
use rava.Base.{
  ℕ, suc, ◌<◌, ◌≡◌, ◌≢◌, refl, arith, Bool, true, false, ◌&&◌, List, [], Option, none, some, ◌==◌,
  ==_refl, if◌then◌else◌, codes, same_text, same_text_refl, same_text-eq,
}
use rava.Outcome.{Outcome, ok, aborted}
use rava.Lua.{Value, Lua}
use rava.Modules.{Codec, is_table, decoder_name, lib_encoder, lib_decoder}
use rava.Serialize.Decode.{is_nil}
use rava.Setup.{TableApi, hook_field, name_field}
use rava.Setup.Opening.{open_rava}
use rava.Setup.Opened.Modules.{AllOpen, module_names, open_rava-AllOpen}
use rava.Setup.Travel.{Fits, AllTravel, open_rava-AllTravel}

record Machine : Type 0 where
  count : ℕ
  fields : ℕ → List ℕ → Value
  metas : ℕ → Option ℕ
  entries : List ℕ → Value

abbrev no_fields : ℕ → List ℕ → Value
no_fields t k = Value.nil

abbrev no_entries : List ℕ → Value
no_entries k = Value.nil

abbrev no_metas : ℕ → Option ℕ
no_metas t = none

abbrev blank : ℕ → Machine
blank n = record { count = n; fields = no_fields; metas = no_metas; entries = no_entries }

abbrev entry_of : Machine → Value → Value
entry_of h (Value.str k) = h.entries k
entry_of h v = Value.nil

abbrev as_hook : Value → Option Value
as_hook (Value.function g) = some (Value.function g)
as_hook v = none

abbrev hook_of : Machine → Option ℕ → Option Value
hook_of h none = none
hook_of h (some m) = as_hook (h.fields m hook_field)

abbrev meta_hook : Machine → Value → Option Value
meta_hook h (Value.table t) = hook_of h (h.metas t)
meta_hook h v = none

abbrev encode_module : Machine → Value → Outcome (Value × Value × Machine)
encode_module h (Value.table t) =
    let name = h.fields t name_field in
    if is_nil name then aborted else ok (Value.str decoder_name, name, h)
encode_module h v = aborted

abbrev decode_module : Machine → Value → Outcome (Value × Machine)
decode_module h (Value.str name) =
    if is_table (h.entries name) then ok (h.entries name, h) else aborted
decode_module h v = aborted

abbrev opening : Lua
opening = record {
  Heap = Machine;
  next = λ h t k. ok none;
  serializer = meta_hook;
  call_two = λ h f v. encode_module h v;
  call_one = λ h f v. decode_module h v;
  is_lua = λ h g. false;
  nups = λ h g. 0;
  dump = λ h g. [];
  load_buffer = λ h code. none;
  get_upvalue = λ h g k. Value.nil;
  set_upvalue = λ h g k v. h;
  new_table = λ h. (h.count, record h { count = suc h.count });
  set_table = λ h t k v. ok h;
  raw_set_i = λ h t k v. h;
  raw_get_i = λ h t k. Value.nil;
  obj_len = λ h t. 0;
  registry = entry_of;
  globals = λ h v. Value.nil;
}

abbrev put_field : Machine → ℕ → List ℕ → Value → Machine
put_field h t k v = record h {
  fields = λ u c. if (u == t) && same_text c k then v else h.fields u c;
}

abbrev put_entry : Machine → List ℕ → Value → Machine
put_entry h k v = record h { entries = λ c. if same_text c k then v else h.entries c }

abbrev put_meta : Machine → ℕ → ℕ → Machine
put_meta h t m = record h { metas = λ u. if u == t then some m else h.metas u }

other_text : (c k : List ℕ) → c ≢ k → same_text c k ≡ false
other_text c k ne = split (same_text c k) refl
  where
    split : (b : Bool) → same_text c k ≡ b → b ≡ false
    split true e = absurd (ne (same_text-eq c k e))
    split false e = refl

other_table : (u t : ℕ) → u ≢ t → (u == t) ≡ false
other_table u t ne = ground arith

field_at : (h : Machine) (t : ℕ) (k : List ℕ) (v : Value) → (put_field h t k v).fields t k ≡ v
field_at h t k v = rw (==_refl t, same_text_refl k) refl

field_other :
    (h : Machine) (t u : ℕ) (k c : List ℕ) (v : Value)
    → c ≢ k
    → (put_field h t k v).fields u c ≡ h.fields u c
field_other h t u k c v ne = rw (other_text c k ne) (split (u == t))
  where
    split : (b : Bool) → (if b && false then v else h.fields u c) ≡ h.fields u c
    split true = refl
    split false = refl

field_keeps :
    (h : Machine) (t u : ℕ) (k c : List ℕ) (v : Value)
    → u ≢ t
    → (put_field h t k v).fields u c ≡ h.fields u c
field_keeps h t u k c v ne = rw (other_table u t ne) refl

abbrev c_function : List ℕ → ℕ
c_function name = if same_text name (codes "ravaL_lib_encoder") then 20 else 21

metafield_hook :
    (h : Machine) (t m g : ℕ)
    → h.metas t ≡ some m
    → h.fields m hook_field ≡ Value.function g
    → meta_hook h (Value.table t) ≡ some (Value.function g)
metafield_hook h t m g e e' = rw (e, e') refl

abbrev machine : TableApi opening
machine = record {
  Alive = λ h t. t < h.count;
  c_function = c_function;
  set_field = put_field;
  set_registry = put_entry;
  set_metatable = put_meta;
  new_object = λ h m. (0, h);
  set_self = λ h s. h;
  coroutine_yield = λ h. Value.function 22;
  field = λ h t k. h.fields t k;
  metatable = λ h t. h.metas t;
  new_alive = λ h. omega arith;
  new_other = λ h u lt. omega (arith, lt);
  new_keeps = λ h u lt. record { fields = λ k. refl; meta = refl; alive = λ a. omega (arith, a) };
  new_registry = λ h k. refl;
  set_field_at = field_at;
  set_field_alive = λ h t u k v lt. lt;
  set_field_other = field_other;
  set_field_keeps = field_keeps;
  set_field_meta = λ h t u k v. refl;
  set_field_registry = λ h t k c v. refl;
  set_registry_at = λ h k v. rw (same_text_refl k) refl;
  set_registry_other = λ h k c v ne. rw (other_text c k ne) refl;
  set_registry_keeps = λ h k v u. record { fields = λ c. refl; meta = refl; alive = λ a. a };
  set_metatable_at = λ h t m. rw (==_refl t) refl;
  set_metatable_fields = λ h t m u k. refl;
  set_metatable_keeps = λ h t m u ne. record {
    fields = λ c. refl;
    meta = rw (other_table u t ne) refl;
    alive = λ a. a;
  };
  set_metatable_alive = λ h t m u lt. lt;
  set_metatable_registry = λ h t m k. refl;
  new_object_keeps = λ h m u. record { fields = λ c. refl; meta = refl; alive = λ a. a };
  new_object_registry = λ h m k. refl;
  set_self_keeps = λ h s u. record { fields = λ c. refl; meta = refl; alive = λ a. a };
  set_self_registry = λ h s k. refl;
  metafield = metafield_hook;
}

abbrev hooks : Codec opening
hooks = record {
  encoder = 20;
  decoder = 21;
  name_of = λ h t. h.fields t name_field;
  runs_encoder = λ h t. unfold lib_encoder in refl;
  runs_decoder = λ h name. unfold lib_decoder in refl;
}

machine-Fits : Fits opening machine hooks
unfolding same_text
machine-Fits = record { encoder_is = refl; decoder_is = refl; name_is = λ h t. refl }

open_rava-AllOpen_example :
    (t : ℕ) × (after : Machine) × (open_rava opening machine (blank 5) ≡ ok (t, after))
    × AllOpen opening machine after module_names
    × (after.entries (codes "rava:lib:decoder")
        ≡ Value.function (c_function (codes "ravaL_lib_decoder")))
open_rava-AllOpen_example =
    open_rava-AllOpen opening machine (blank 5)
      (refl, (refl, (refl, (refl, (refl, (refl, (refl, (refl, (refl, (refl, tt))))))))))

open_rava-AllTravel_example :
    (t : ℕ) × (t' : ℕ) × (after : Machine) × (after' : Machine) × (open_rava opening machine
        (blank 5)
      ≡ ok (t, after))
    × (open_rava opening machine (blank 9) ≡ ok (t', after'))
    × AllTravel opening machine hooks machine-Fits 1 1 after after' module_names
open_rava-AllTravel_example =
    open_rava-AllTravel opening machine hooks machine-Fits 1 1 (blank 5) (blank 9)
      (refl, (refl, (refl, (refl, (refl, (refl, (refl, (refl, (refl, (refl, tt))))))))))
      (refl, (refl, (refl, (refl, (refl, (refl, (refl, (refl, (refl, (refl, tt))))))))))
