-- ===== src/Serialize/Numbering.antt =====
-- src/rava_core_serialize.c: a table with a hook has its number before what its hook sends in
-- `encode_value`, and behind it in `decode_value`.
use rava.Base.{
  ℕ, suc, ◌+◌, ◌^◌, ◌≤◌, ◌<◌, ◌≡◌, ◌≢◌, refl, ◌∙◌, ap, arith, Bool, true, false, if◌then◌else◌,
  List, [], ◌∷◌, ◌++◌, none, some, length, length-append, ◌==◌, ==_refl,
}
use rava.Outcome.{ok, ◌>>=◌}
use rava.Buffer.Uleb.{uleb128, length-groups}
use rava.Lua.{Value, str, table, Lua}
use rava.Serialize.{ref_of, ref_from, serialize_encode}
use rava.Serialize.Decode.{
  serialize_decode, seen_at, append_object, is_nil, resolve_hook, find_decoder,
}
use rava.Serialize.Format.{Item, end, table_val, table_usr, table_ref, print, rounds}
use rava.Serialize.Build.{build}
use rava.Serialize.Describe.{
  describe, describe_args, describe_body, describe_pair, describe_seen_table, describe_new_table,
  describe_hook,
}
use rava.Serialize.RoundTrip.{
  start, result, build_all, print_all, serialize_decode-serialize_encode,
}

-- The hook's name and table, then a reference to the first object.
abbrev items : List ℕ → List Item
items d = table_usr (Item.str d) (table_val end) ∷ table_ref 1 ∷ []

print-small : (d : List ℕ) → length d < 2 ^ 32 → length (print_all (items d)) ≤ 2 ^ 62
unfolding print_all print
print-small d short = omega (
  arith,
  short,
  length-append (uleb128 (length d)) d,
  length-append (4 ∷ (uleb128 (length d) ++ d)) (5 ∷ 2 ∷ 0 ∷ []),
  length-append (5 ∷ 3 ∷ (4 ∷ (uleb128 (length d) ++ d)) ++ 5 ∷ 2 ∷ 0 ∷ [])
      (5 ∷ 1 ∷ uleb128 1 ++ []),
  length-append (uleb128 1) [],
  length-groups 4 (length d),
  length-groups 4 1,
)

-- What is numbered behind the first object leaves it at number 1.
first_seen : (r v : Value) → seen_at (append_object r (v ∷ [])) 1 ≡ v
first_seen r v = split (is_nil r)
  where
    split : (b : Bool) → seen_at (if b then v ∷ [] else v ∷ r ∷ []) 1 ≡ v
    split true = refl
    split false = refl

module _ (L : Lua) (t u : ℕ) (hook : Value) (d : List ℕ) where
  described :
      (fuel : ℕ) (heap heap₁ : Lua.Heap L)
      → L.serializer heap (table t) ≡ some hook
      → L.call_two heap hook (table t) ≡ ok (str d, table u, heap₁)
      → L.serializer heap₁ (table u) ≡ none
      → L.next heap₁ u Value.nil ≡ ok none
      → (t == u) ≡ false
      → describe_args L (suc (suc (suc (suc fuel)))) (table t ∷ table t ∷ []) (start L heap)
        ≡ ok (items d, record { seen = table t ∷ table u ∷ []; heap = heap₁ })
  unfolding describe_args describe describe_body describe_seen_table describe_new_table
      describe_hook describe_pair ref_of ref_from
  described fuel heap heap₁ hooked called plain empty other =
      rw (hooked, called, other, plain, empty, ==_refl t) refl

  built :
      (heap' heap₂ : Lua.Heap L) (g r : Value)
      → find_decoder L heap' (str d) ≡ ok g
      → L.call_one (L.new_table heap').1 g (table (L.new_table heap').0) ≡ ok (r, heap₂)
      → (build_all L (items d) (start L heap') >>= result L)
        ≡ ok (r ∷ table (L.new_table heap').0 ∷ [], heap₂)
  unfolding build_all build resolve_hook
  built heap' heap₂ g r found answered =
      rw (found, answered)
        (ap (λ (x : Value). ok (r ∷ x ∷ [], heap₂)) (first_seen r (table (L.new_table heap').0)))

  -- A table `t` whose hook sends another table, an empty one without a hook, is sent twice. The reader
  -- gets what the decoder makes of it as the first value, but as the second one the table that was
  -- sent to the decoder: number 1 is the table `t` where it is written and that other table where it
  -- is read.
  pub serialize_decode-crossed :
      (fuel fuel' : ℕ) (heap heap₁ heap' heap₂ : Lua.Heap L) (g r : Value)
      → L.serializer heap (table t) ≡ some hook
      → L.call_two heap hook (table t) ≡ ok (str d, table u, heap₁)
      → L.serializer heap₁ (table u) ≡ none
      → L.next heap₁ u Value.nil ≡ ok none
      → t ≢ u
      → find_decoder L heap' (str d) ≡ ok g
      → L.call_one (L.new_table heap').1 g (table (L.new_table heap').0) ≡ ok (r, heap₂)
      → length d < 2 ^ 32
      → (serialize_encode L (suc (suc (suc (suc fuel)))) (table t ∷ table t ∷ []) heap
          >>= λ (bytes, sent). serialize_decode L (5 + fuel') bytes heap')
        ≡ ok (r ∷ table (L.new_table heap').0 ∷ [], heap₂)
  unfolding rounds
  serialize_decode-crossed fuel fuel' heap heap₁ heap' heap₂ g r hooked called plain empty ne found
        answered short =
      let other : (t == u) ≡ false = ground arith in
      serialize_decode-serialize_encode L (suc (suc (suc (suc fuel)))) (5 + fuel')
        (table t ∷ table t ∷ []) (items d) heap heap'
        (record { seen = table t ∷ table u ∷ []; heap = heap₁ })
        (described fuel heap heap₁ hooked called plain empty other) ((short, tt), (omega arith, tt))
        (omega arith, (omega arith, tt)) (omega arith) (print-small d short)
      ∙ built heap' heap₂ g r found answered
