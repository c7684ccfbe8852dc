-- ===== src/Serialize/Describe.antt =====
-- Which item is sent for a value: the encoder of src/rava_core_serialize.c without its bytes.
use rava.Base.{ℕ, zero, suc, List, [], ◌∷◌, ◌++◌, Option, none, some, if◌then◌else◌, ◌==◌}
use rava.Outcome.{
  Outcome, ok, raised, aborted, stuck, ◌>>=◌, serialize_result, c_function, encode_userdata,
  encode_type,
}
use rava.Lua.{Value, Lua}
use rava.Serialize.{ref_of, is_decoder, copy_upvalues}
use rava.Serialize.Format.{
  Item, Entries, nil, boolean, lightuserdata, number, str, table_ref, table_val, table_usr,
  function_ref, function_val, userdata, end, entry,
}
use rava.Serialize.Build.{World, number_object}

unfoldable pub concat : List (List ℕ) → List ℕ
concat [] = []
concat (piece ∷ pieces) = piece ++ concat pieces

module _ (L : Lua) where
  module _ (enc : Value → World L → Outcome (Item × World L))
      (tbl : ℕ → Value → World L → Outcome (Entries × World L)) where
    abbrev pub describe_both :
        (Item → Item → Item) → Value × Value × Lua.Heap L → World L → Outcome (Item × World L)
    describe_both make (a, b, heap) w =
        if is_decoder a
        then (enc a (record w { heap = heap }) >>= λ (i, w₁).
            enc b w₁ >>= λ (j, w₂). ok (make i j, w₂))
        else raised serialize_result

    unfoldable pub describe_hook :
        (Item → Item → Item) → Value → Value → World L → Outcome (Item × World L)
    describe_hook make hook v w = L.call_two w.heap hook v >>= λ r. describe_both make r w

    unfoldable pub describe_new_table : Option Value → ℕ → World L → Outcome (Item × World L)
    unfolding describe_hook
    describe_new_table (some hook) t w = describe_hook table_usr hook (Value.table t) w
    describe_new_table none t w = tbl t Value.nil w >>= λ (es, w'). ok (table_val es, w')

    unfoldable pub describe_upvalues : ℕ → World L → Outcome (Entries × World L)
    describe_upvalues g w =
        let (t, heap) = L.new_table w.heap in
        let heap' = copy_upvalues L (L.nups w.heap g) 1 g t heap in
        if L.obj_len heap' t == L.nups w.heap g
        then tbl t Value.nil (record w { heap = heap' })
        else aborted

    unfoldable pub describe_new_function : ℕ → World L → Outcome (Item × World L)
    unfolding describe_upvalues
    describe_new_function g w =
        describe_upvalues g w >>= λ (es, w'). ok (function_val (concat (L.dump w.heap g)) es, w')

    unfoldable pub describe_seen_table : Option ℕ → ℕ → World L → Outcome (Item × World L)
    unfolding describe_new_table
    describe_seen_table (some ref) t w = ok (table_ref ref, w)
    describe_seen_table none t w =
        describe_new_table (L.serializer w.heap (Value.table t)) t
          (number_object L (Value.table t) w)

    unfoldable pub describe_seen_function : Option ℕ → ℕ → World L → Outcome (Item × World L)
    unfolding describe_new_function
    describe_seen_function (some ref) g w = ok (function_ref ref, w)
    describe_seen_function none g w =
        if L.is_lua w.heap g
        then describe_new_function g (number_object L (Value.function g) w)
        else raised c_function

    unfoldable pub describe_userdata : Option Value → ℕ → World L → Outcome (Item × World L)
    unfolding describe_hook
    describe_userdata (some hook) u w = describe_hook userdata hook (Value.userdata u) w
    describe_userdata none u w = raised encode_userdata

    unfoldable pub describe_body : Value → World L → Outcome (Item × World L)
    unfolding describe_seen_table describe_seen_function describe_userdata
    describe_body Value.nil w = ok (nil, w)
    describe_body (Value.boolean b) w = ok (boolean b, w)
    describe_body (Value.lightuserdata p) w = ok (lightuserdata p, w)
    describe_body (Value.number n) w = ok (number n, w)
    describe_body (Value.str x) w = ok (str x, w)
    describe_body (Value.table t) w = describe_seen_table (ref_of w.seen (Value.table t)) t w
    describe_body (Value.function g) w =
        describe_seen_function (ref_of w.seen (Value.function g)) g w
    describe_body (Value.userdata u) w =
        describe_userdata (L.serializer w.heap (Value.userdata u)) u w
    describe_body (Value.thread t) w = raised (encode_type 8)

    -- The sentinel of a table takes a round of its own.
    unfoldable pub describe_pair :
        ℕ → Option (Value × Value) → World L → Outcome (Entries × World L)
    describe_pair t none w = enc Value.nil w >>= λ (i, w'). ok (end, w')
    describe_pair t (some (k, v)) w = enc k w >>= λ (i, w₁).
        enc v w₁ >>= λ (j, w₂). tbl t k w₂ >>= λ (es, w₃). ok (entry i j es, w₃)

  unfoldable mutual
    pub describe : ℕ → Value → World L → Outcome (Item × World L)
    describe zero v w = stuck
    describe (suc fuel) v w = describe_body (describe fuel) (describe_table fuel) v w

    pub describe_table : ℕ → ℕ → Value → World L → Outcome (Entries × World L)
    describe_table zero t key w = stuck
    describe_table (suc fuel) t key w =
        L.next w.heap t key >>= λ pair. describe_pair (describe fuel) (describe_table fuel) t pair w

  unfoldable pub describe_args : ℕ → List Value → World L → Outcome (List Item × World L)
  describe_args fuel [] w = ok ([], w)
  describe_args fuel (v ∷ vs) w =
      describe fuel v w >>= λ (i, w₁). describe_args fuel vs w₁ >>= λ (is, w₂). ok (i ∷ is, w₂)
