-- ===== src/Modules.antt =====
-- The functions of src/rava_core.c that let a module pass between Lua states: `ravaL_lib_encoder` is
-- the `__serialize` hook of every module's table, and `ravaL_lib_decoder` is registered under the name
-- that this hook returns.
--
-- The call of a C function by LuaJIT is `call_one` or `call_two` of the Lua record; that it runs the
-- function's body is what `Codec` states.
use rava.Base.{
  ◌+◌, ◌++◌, length-append, ℕ, suc, ◌^◌, ◌≤◌, ◌<◌, ◌≡◌, refl, ap, ◌∙◌, arith, Bool, true, false,
  List, [], ◌∷◌, length, some, if◌then◌else◌, codes,
}
use rava.Outcome.{Outcome, ok, aborted, ◌>>=◌}
use rava.Buffer.Uleb.{uleb128, length-groups}
use rava.Lua.{Value, str, table, function, Lua}
use rava.Serialize.{serialize_encode, ref_of, ref_from}
use rava.Serialize.Decode.{is_nil, serialize_decode, resolve_hook, find_decoder}
use rava.Serialize.Format.{Item, table_usr, print, rounds}
use rava.Serialize.Build.{World, build, number_object}
use rava.Serialize.Describe.{
  describe, describe_args, describe_body, describe_seen_table, describe_new_table, describe_hook,
}
use rava.Serialize.RoundTrip.{
  start, result, build_all, print_all, serialize_decode-serialize_encode,
}

abbrev pub is_table : Value → Bool
is_table (table t) = true
is_table _ = false

-- "rava:lib:decoder"
abbrev pub decoder_name : List ℕ
decoder_name = codes "rava:lib:decoder"

length-print_str : (x : List ℕ) → length (print (Item.str x)) ≤ 6 + length x
unfolding print
length-print_str x = omega (arith, length-append (uleb128 (length x)) x, length-groups 4 (length x))

length-print_usr :
    (a b : Item)
    → length (print_all (table_usr a b ∷ [])) ≡ 2 + (length (print a) + length (print b))
unfolding print_all print
length-print_usr a b =
    omega (arith, length-append (print a ++ print b) [], length-append (print a) (print b))

module _ (L : Lua) where
  open L use {Heap}

  -- ravaL_lib_encoder on a module's table; `name` is its field `__name`.
  unfoldable pub lib_encoder : Heap → Value → Outcome (Value × Value × Heap)
  lib_encoder heap name = if is_nil name then aborted else ok (str decoder_name, name, heap)

  -- ravaL_lib_decoder
  unfoldable pub lib_decoder : Heap → List ℕ → Outcome (Value × Heap)
  lib_decoder heap name =
      if is_table (L.registry heap (str name))
      then ok (L.registry heap (str name), heap)
      else aborted

  -- The two C functions as values of Lua; `name_of` reads the field `__name` of a table.
  pub record Codec : Type 0 where
    pub encoder : ℕ
    pub decoder : ℕ
    pub name_of : Heap → ℕ → Value
    pub runs_encoder :
        (heap : Heap) (t : ℕ)
        → L.call_two heap (function encoder) (table t) ≡ lib_encoder heap (name_of heap t)
    pub runs_decoder :
        (heap : Heap) (name : List ℕ)
        → L.call_one heap (function decoder) (str name) ≡ lib_decoder heap name

  abbrev pub module_item : List ℕ → Item
  module_item name = table_usr (Item.str decoder_name) (Item.str name)

  module _ (codec : Codec) where
    open codec use {encoder, decoder, name_of, runs_encoder, runs_decoder}

    -- What ravaL_module sets up for table `t`: its name, and the hook in its metatable.
    pub record IsModule (heap : Heap) (t : ℕ) (name : List ℕ) : Type 0 where
      pub named : name_of heap t ≡ str name
      pub hooked : L.serializer heap (table t) ≡ some (function encoder)

    -- What the state that reads has in its registry: the decoder, and its own module of that name.
    pub record Knows (heap : Heap) (t : ℕ) (name : List ℕ) : Type 0 where
      pub decodes : L.registry heap (str decoder_name) ≡ function decoder
      pub registered : L.registry heap (str name) ≡ table t

    described :
        (fuel : ℕ) (heap : Heap) (t : ℕ) (name : List ℕ)
        → IsModule heap t name
        → (w : World L) × (describe_args L (suc (suc fuel)) (table t ∷ []) (start L heap)
            ≡ ok (module_item name ∷ [], w))
    unfolding describe_args describe describe_body describe_seen_table describe_new_table
        describe_hook ref_of ref_from lib_encoder
    described fuel heap t name m =
        let w = number_object L (table t) (start L heap) in
        let called : L.call_two heap (function encoder) (table t)
            ≡ ok (str decoder_name, str name, heap) =
          runs_encoder heap t ∙ ap (lib_encoder heap) m.named in
        (w, rw (m.hooked, called) refl)

    built :
        (heap : Heap) (t : ℕ) (name : List ℕ)
        → Knows heap t name
        → (build_all L (module_item name ∷ []) (start L heap) >>= result L)
          ≡ ok (table t ∷ [], heap)
    unfolding build_all build resolve_hook find_decoder lib_decoder
    built heap t name k =
        let called : L.call_one heap (function decoder) (str name) ≡ ok (table t, heap) =
          runs_decoder heap name
          ∙ ap (λ v. if is_table v then ok (v, heap) else aborted) k.registered in
        rw (k.decodes, called) refl

    -- A module that is sent, a table with its name and the hook, arrives as the module that the state
    -- that reads it has registered under that name, and nothing of that state's heap changes. The
    -- decoder is registered there, and the name is shorter than 2^32 bytes.
    pub lib_decoder-lib_encoder :
        (fuel fuel' : ℕ) (heap heap' : Heap) (t t' : ℕ) (name : List ℕ)
        → IsModule heap t name
        → Knows heap' t' name
        → length name < 2 ^ 32
        → (serialize_encode L (suc (suc fuel)) (table t ∷ []) heap >>= λ (bytes, after).
            serialize_decode L (suc (suc (suc fuel'))) bytes heap')
          ≡ ok (table t' ∷ [], heap')
    unfolding rounds
    lib_decoder-lib_encoder fuel fuel' heap heap' t t' name m k short =
        let (w, d) = described fuel heap t name m in
        let small : length (print_all (module_item name ∷ [])) ≤ 2 ^ 62 = omega (
          arith,
          length-print_usr (Item.str decoder_name) (Item.str name),
          length-print_str decoder_name,
          length-print_str name,
        ) in
        serialize_decode-serialize_encode L (suc (suc fuel)) (suc (suc (suc fuel'))) (table t ∷ [])
          (module_item name ∷ []) heap heap' w d ((omega arith, short), tt) (omega arith, tt)
          (omega arith) small
        ∙ built heap' t' name k
