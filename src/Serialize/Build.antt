-- ===== src/Serialize/Build.antt =====
-- What an item stands for: the value that its reader makes, and the objects that it numbers.
use rava.Base.{ℕ, List, Option, none, some, if◌then◌else◌}
use rava.Outcome.{Outcome, ok, raised, ◌>>=◌, load_chunk, wrong_type}
use rava.Lua.{Value, Lua}
use rava.Serialize.Decode.{seen_at, append_object, resolve_hook, is_function, install_upvalues}
use rava.Serialize.Format.{
  Item, Entries, nil, boolean, lightuserdata, number, str, table_ref, table_val, table_usr,
  function_ref, function_val, userdata, end, entry,
}

module _ (L : Lua) where
  open L use {Heap}

  pub record World : Type 0 where
    pub seen : List Value
    pub heap : Heap

  abbrev pub number_object : Value → World → World
  number_object v w = record w { seen = append_object v w.seen }

  -- An object behind a hook is numbered after everything that its hook sent, unless the
  -- hook's result is nil.
  abbrev pub call_numbered : Value → Value → World → Outcome (Value × World)
  call_numbered hook arg w = L.call_one w.heap hook arg >>= λ (result, heap).
      ok (result, number_object result (record w { heap = heap }))

  abbrev pub call_checked : Value → Value → World → Outcome (Value × World)
  call_checked hook arg w =
      if is_function hook
      then (L.call_one w.heap hook arg >>= λ (result, heap). ok (result, record w { heap = heap }))
      else raised wrong_type

  -- A loaded function is numbered, then its upvalues come as a table of their own.
  unfoldable pub build_loaded :
      (ℕ → World → Outcome World) → Option (ℕ × Heap) → World → Outcome (Value × World)
  build_loaded entries none w = raised load_chunk
  build_loaded entries (some (g, heap)) w =
      let (t, heap') = L.new_table heap in
      entries t (number_object (Value.function g) (record w { heap = heap' })) >>= λ w'. ok (
        Value.function g,
        record w' { heap = install_upvalues L (L.obj_len w'.heap t) 1 g t w'.heap },
      )

  unfoldable mutual
    pub build : Item → World → Outcome (Value × World)
    build nil w = ok (Value.nil, w)
    build (boolean b) w = ok (Value.boolean b, w)
    build (lightuserdata p) w = ok (Value.lightuserdata p, w)
    build (number n) w = ok (Value.number n, w)
    build (str x) w = ok (Value.str x, w)
    build (table_ref k) w = ok (seen_at w.seen k, w)
    build (table_val es) w =
        let (t, heap) = L.new_table w.heap in
        build_entries es t (number_object (Value.table t) (record w { heap = heap })) >>= λ w'.
        ok (Value.table t, w')
    build (table_usr a b) w = build a w >>= λ (hook, w₁). resolve_hook L w₁.heap hook >>= λ hook'.
        build b w₁ >>= λ (arg, w₂). call_numbered hook' arg w₂
    build (function_ref k) w = ok (seen_at w.seen k, w)
    build (function_val code es) w = build_loaded (build_entries es) (L.load_buffer w.heap code) w
    build (userdata a b) w = build a w >>= λ (hook, w₁). resolve_hook L w₁.heap hook >>= λ hook'.
        build b w₁ >>= λ (arg, w₂). call_checked hook' arg w₂

    pub build_entries : Entries → ℕ → World → Outcome World
    build_entries end t w = ok w
    build_entries (entry k v es) t w = build k w >>= λ (key, w₁). build v w₁ >>= λ (val, w₂).
        L.set_table w₂.heap t key val >>= λ heap. build_entries es t (record w₂ { heap = heap })
