-- ===== src/Serialize/Rounds.antt =====
-- src/rava_core_serialize.c, `decode_value`, `decode_table`: what one round of each uses up.
use rava.Base.{ℕ, zero, suc, ◌≤◌, ◌<◌, arith, not, List, Option, none, some, ◌==◌}
use rava.Outcome.{Outcome, ok, raised, aborted, ◌>>=◌, wrong_type}
use rava.Lua.{Value, boolean, lightuserdata, number, str, Lua}
use rava.Serialize.{codec_tref, codec_tusr}
use rava.Serialize.Decode.{
  Decoder, is_nil, is_function, get, read, read_uleb128, resolve_hook, decode_ref,
  decode_user_table, decode_new_table, decode_upvalues, decode_loaded, decode_new_function,
  decode_userdata, decode_table_tag, decode_function_tag, decode_userdata_tag, decode_body,
  expect_nil, decode_pair,
}
use rava.Serialize.Progress.{
  Below, Below-bind, Ends-Below-bind, Below-if, Below-weaken, get-Below, read-Below,
  read_uleb128-Below, resolve_hook-Ends, ahead, Answers,
}

module _ (L : Lua) where
  -- What is assumed of `decode_value` and of the loop of `decode_table` on states that have at most
  -- `m` cells left: they end, and use at least one cell up.
  module _ (dec : Decoder L → Outcome (Value × Decoder L))
      (tbl : ℕ → Decoder L → Outcome (Decoder L)) (m : ℕ) (answers : Answers L)
      (dec-Below : (s : Decoder L)
        → ahead L s ≤ m
        → Below (λ (r : Value × Decoder L). ahead L r.1) (ahead L s) (dec s))
      (tbl-Below : (t : ℕ) (s : Decoder L)
        → ahead L s ≤ m
        → Below (λ r. ahead L r) (ahead L s) (tbl t s)) where
    decode_ref-Below :
        (s : Decoder L)
        → Below {A = Value × Decoder L} (λ r. ahead L r.1) (suc (ahead L s)) (decode_ref L s)
    unfolding decode_ref
    decode_ref-Below s =
        Below-bind {B = Value × Decoder L} (λ (r : ℕ × Decoder L). ahead L r.1) (λ r. ahead L r.1)
          (suc (ahead L s)) (suc (ahead L s)) (read_uleb128 L s) _ (read_uleb128-Below L s)
          (λ r lt. lt)

    hooked-Below :
        (s : Decoder L)
        → ahead L s ≤ m
        → (h : Value → Value → Decoder L → Outcome (Value × Decoder L))
        → ((hook arg : Value) (s' : Decoder L)
            → Below {A = Value × Decoder L} (λ r. ahead L r.1) (suc (ahead L s')) (h hook arg s'))
        → Below {A = Value × Decoder L}
            (λ r. ahead L r.1)
            (suc (ahead L s))
            (dec s >>= λ (hook, s₁).
              resolve_hook L s₁.heap hook >>= λ hook'. dec s₁ >>= λ (arg, s₂). h hook' arg s₂)
    hooked-Below s le h next =
        Below-bind {B = Value × Decoder L} (λ (r : Value × Decoder L). ahead L r.1)
          (λ r. ahead L r.1) (ahead L s) (suc (ahead L s)) (dec s) _ (dec-Below s le)
          (λ (hook, s₁) lt₁.
            Ends-Below-bind {B = Value × Decoder L} (λ r. ahead L r.1) (suc (ahead L s))
              (resolve_hook L s₁.heap hook) _ (resolve_hook-Ends L s₁.heap hook)
              (λ hook'.
                Below-bind {B = Value × Decoder L} (λ (r : Value × Decoder L). ahead L r.1)
                  (λ r. ahead L r.1) (ahead L s₁) (suc (ahead L s)) (dec s₁) _
                  (dec-Below s₁ (omega arith))
                  (λ (arg, s₂) lt₂.
                    Below-weaken {A = Value × Decoder L} (λ r. ahead L r.1) (suc (ahead L s₂))
                      (suc (ahead L s)) (h hook' arg s₂) (omega arith) (next hook' arg s₂))))

    decode_user_table-Below :
        (s : Decoder L)
        → ahead L s ≤ m
        → Below {A = Value × Decoder L}
            (λ r. ahead L r.1)
            (suc (ahead L s))
            (decode_user_table L dec tbl s)
    unfolding decode_user_table
    decode_user_table-Below s le = hooked-Below s le _ (λ hook arg s'.
        Ends-Below-bind {B = Value × Decoder L} (λ r. ahead L r.1) (suc (ahead L s'))
          (L.call_one s'.heap hook arg) _ (answers.call_one s'.heap hook arg) (λ r. omega arith))

    decode_userdata-Below :
        (s : Decoder L)
        → ahead L s ≤ m
        → Below {A = Value × Decoder L}
            (λ r. ahead L r.1)
            (suc (ahead L s))
            (decode_userdata L dec tbl s)
    unfolding decode_userdata
    decode_userdata-Below s le = hooked-Below s le _ (λ hook arg s'.
        Below-if {A = Value × Decoder L} (λ r. ahead L r.1) (suc (ahead L s')) (is_function hook) _
          (raised wrong_type)
          (Ends-Below-bind {B = Value × Decoder L} (λ r. ahead L r.1) (suc (ahead L s'))
            (L.call_one s'.heap hook arg) _ (answers.call_one s'.heap hook arg) (λ r. omega arith))
          tt)

    decode_new_table-Below :
        (s : Decoder L)
        → ahead L s ≤ m
        → Below {A = Value × Decoder L}
            (λ r. ahead L r.1)
            (suc (ahead L s))
            (decode_new_table L dec tbl s)
    unfolding decode_new_table
    decode_new_table-Below s le =
        Below-bind {B = Value × Decoder L} (λ (r : Decoder L). ahead L r) (λ r. ahead L r.1)
          (ahead L s) (suc (ahead L s)) (tbl _ _) _ (tbl-Below _ _ le) (λ s' lt. omega arith)

    decode_loaded-Below :
        (loaded : Option (ℕ × Lua.Heap L)) (s : Decoder L)
        → ahead L s ≤ m
        → Below {A = Value × Decoder L}
            (λ r. ahead L r.1)
            (suc (ahead L s))
            (decode_loaded L dec tbl loaded s)
    unfolding decode_loaded decode_upvalues
    decode_loaded-Below none s le = tt
    decode_loaded-Below (some (g, heap)) s le =
        Below-bind {B = Value × Decoder L} (λ (r : Decoder L). ahead L r) (λ r. ahead L r.1)
          (ahead L s) (suc (ahead L s)) (tbl _ _) _ (tbl-Below _ _ le) (λ s' lt. omega arith)

    -- A length and then that many bytes.
    chunk-Below :
        (s : Decoder L) (h : List ℕ → Decoder L → Outcome (Value × Decoder L))
        → ((x : List ℕ) (s' : Decoder L)
            → ahead L s' ≤ ahead L s
            → Below {A = Value × Decoder L} (λ r. ahead L r.1) (suc (ahead L s')) (h x s'))
        → Below {A = Value × Decoder L}
            (λ r. ahead L r.1)
            (suc (ahead L s))
            (read_uleb128 L s >>= λ (len, s₁). read L len s₁ >>= λ (x, s₂). h x s₂)
    chunk-Below s h next =
        Below-bind {B = Value × Decoder L} (λ (r : ℕ × Decoder L). ahead L r.1) (λ r. ahead L r.1)
          (suc (ahead L s)) (suc (ahead L s)) (read_uleb128 L s) _ (read_uleb128-Below L s)
          (λ (len, s₁) lt₁.
            Below-bind {B = Value × Decoder L} (λ (r : List ℕ × Decoder L). ahead L r.1)
              (λ r. ahead L r.1) (suc (ahead L s₁)) (suc (ahead L s)) (read L len s₁) _
              (read-Below L len s₁)
              (λ (x, s₂) lt₂.
                Below-weaken {A = Value × Decoder L} (λ r. ahead L r.1) (suc (ahead L s₂))
                  (suc (ahead L s)) (h x s₂) (omega arith) (next x s₂ (omega arith))))

    decode_new_function-Below :
        (s : Decoder L)
        → ahead L s ≤ m
        → Below {A = Value × Decoder L}
            (λ r. ahead L r.1)
            (suc (ahead L s))
            (decode_new_function L dec tbl s)
    unfolding decode_new_function
    decode_new_function-Below s le =
        chunk-Below s (λ x s'. decode_loaded L dec tbl (L.load_buffer s'.heap x) s')
          (λ x s' le'. decode_loaded-Below (L.load_buffer s'.heap x) s' (omega arith))

    -- A tag byte and what it selects.
    tag-Below :
        (s : Decoder L) (h : ℕ → Decoder L → Outcome (Value × Decoder L))
        → ((x : ℕ) (s' : Decoder L)
            → ahead L s' ≤ ahead L s
            → Below {A = Value × Decoder L} (λ r. ahead L r.1) (suc (ahead L s')) (h x s'))
        → Below {A = Value × Decoder L}
            (λ r. ahead L r.1)
            (suc (ahead L s))
            (get L s >>= λ (x, s'). h x s')
    tag-Below s h next =
        Below-bind {B = Value × Decoder L} (λ (r : ℕ × Decoder L). ahead L r.1) (λ r. ahead L r.1)
          (ahead L s) (suc (ahead L s)) (get L s) _ (get-Below L s)
          (λ (x, s') lt.
            Below-weaken {A = Value × Decoder L} (λ r. ahead L r.1) (suc (ahead L s'))
              (suc (ahead L s)) (h x s') (omega arith) (next x s' (omega arith)))

    decode_table_tag-Below :
        (tag : ℕ) (s : Decoder L)
        → ahead L s ≤ m
        → Below {A = Value × Decoder L}
            (λ r. ahead L r.1)
            (suc (ahead L s))
            (decode_table_tag L dec tbl tag s)
    unfolding decode_table_tag
    decode_table_tag-Below tag s le =
        Below-if {A = Value × Decoder L} (λ r. ahead L r.1) (suc (ahead L s)) (tag == codec_tref)
          (decode_ref L s) _ (decode_ref-Below s)
          (Below-if {A = Value × Decoder L} (λ r. ahead L r.1) (suc (ahead L s)) (tag == codec_tusr)
            (decode_user_table L dec tbl s) (decode_new_table L dec tbl s)
            (decode_user_table-Below s le) (decode_new_table-Below s le))

    decode_function_tag-Below :
        (tag : ℕ) (s : Decoder L)
        → ahead L s ≤ m
        → Below {A = Value × Decoder L}
            (λ r. ahead L r.1)
            (suc (ahead L s))
            (decode_function_tag L dec tbl tag s)
    unfolding decode_function_tag
    decode_function_tag-Below tag s le =
        Below-if {A = Value × Decoder L} (λ r. ahead L r.1) (suc (ahead L s)) (tag == codec_tref)
          (decode_ref L s) (decode_new_function L dec tbl s) (decode_ref-Below s)
          (decode_new_function-Below s le)

    decode_userdata_tag-Below :
        (tag : ℕ) (s : Decoder L)
        → ahead L s ≤ m
        → Below {A = Value × Decoder L}
            (λ r. ahead L r.1)
            (suc (ahead L s))
            (decode_userdata_tag L dec tbl tag s)
    unfolding decode_userdata_tag
    decode_userdata_tag-Below tag s le =
        Below-if {A = Value × Decoder L} (λ r. ahead L r.1) (suc (ahead L s)) (tag == codec_tusr)
          (decode_userdata L dec tbl s) aborted (decode_userdata-Below s le) tt

    fixed-Below :
        (n : ℕ) (s : Decoder L) (h : List ℕ → Value)
        → Below {A = Value × Decoder L}
            (λ r. ahead L r.1)
            (suc (ahead L s))
            (read L n s >>= λ (x, s'). ok (h x, s'))
    fixed-Below n s h =
        Below-bind {B = Value × Decoder L} (λ (r : List ℕ × Decoder L). ahead L r.1)
          (λ r. ahead L r.1) (suc (ahead L s)) (suc (ahead L s)) (read L n s) _ (read-Below L n s)
          (λ r lt. lt)

    pub decode_body-Below :
        (x : ℕ) (s : Decoder L)
        → ahead L s ≤ m
        → Below {A = Value × Decoder L}
            (λ r. ahead L r.1)
            (suc (ahead L s))
            (decode_body L dec tbl x s)
    unfolding decode_body
    decode_body-Below zero s le = omega arith
    decode_body-Below (suc zero) s le =
        tag-Below s (λ x s'. ok (boolean (not (x == 0)), s')) (λ x s' le'. omega arith)
    decode_body-Below (suc (suc zero)) s le = fixed-Below 8 s lightuserdata
    decode_body-Below (suc (suc (suc zero))) s le = fixed-Below 8 s number
    decode_body-Below (suc (suc (suc (suc zero)))) s le =
        chunk-Below s (λ x s'. ok (str x, s')) (λ x s' le'. omega arith)
    decode_body-Below (suc (suc (suc (suc (suc zero))))) s le =
        tag-Below s (decode_table_tag L dec tbl)
          (λ x s' le'. decode_table_tag-Below x s' (omega arith))
    decode_body-Below (suc (suc (suc (suc (suc (suc zero)))))) s le =
        tag-Below s (decode_function_tag L dec tbl)
          (λ x s' le'. decode_function_tag-Below x s' (omega arith))
    decode_body-Below (suc (suc (suc (suc (suc (suc (suc zero))))))) s le =
        tag-Below s (decode_userdata_tag L dec tbl)
          (λ x s' le'. decode_userdata_tag-Below x s' (omega arith))
    decode_body-Below (suc (suc (suc (suc (suc (suc (suc (suc x)))))))) s le = tt

  -- The loop of the table reads a key and a value before it goes on.
  pub decode_pair-Below :
      (dec : Decoder L → Outcome (Value × Decoder L)) (tbl : ℕ → Decoder L → Outcome (Decoder L))
      (answers : Answers L) (t x : ℕ) (s : Decoder L)
      → ((s' : Decoder L)
          → ahead L s' ≤ ahead L s
          → Below (λ (r : Value × Decoder L). ahead L r.1) (ahead L s') (dec s'))
      → ((t' : ℕ) (s' : Decoder L)
          → ahead L s' < ahead L s
          → Below (λ r. ahead L r) (ahead L s') (tbl t' s'))
      → Below {A = Decoder L} (λ r. ahead L r) (ahead L s) (decode_pair L dec tbl t x s)
  unfolding decode_pair
  decode_pair-Below dec tbl answers t x s dec-Below tbl-Below =
      Below-if {A = Decoder L} (λ r. ahead L r) (ahead L s) (x == 0) _ _
        (Below-bind {B = Decoder L} (λ (r : Value × Decoder L). ahead L r.1) (λ r. ahead L r)
          (ahead L s) (ahead L s) (dec s) (expect_nil L dec tbl) (dec-Below s (omega arith))
          (λ (v, s') lt.
            Below-if {A = Decoder L} (λ r. ahead L r) (ahead L s) (is_nil v) (ok s') aborted lt tt))
        (Below-bind {B = Decoder L} (λ (r : Value × Decoder L). ahead L r.1) (λ r. ahead L r)
          (ahead L s) (ahead L s) (dec s) _ (dec-Below s (omega arith))
          (λ (k, s₁) lt₁.
            Below-bind {B = Decoder L} (λ (r : Value × Decoder L). ahead L r.1) (λ r. ahead L r)
              (ahead L s₁) (ahead L s) (dec s₁) _ (dec-Below s₁ (omega arith))
              (λ (v, s₂) lt₂.
                Ends-Below-bind {B = Decoder L} (λ r. ahead L r) (ahead L s)
                  (L.set_table s₂.heap t k v) _ (answers.set_table s₂.heap t k v)
                  (λ heap.
                    Below-weaken {A = Decoder L} (λ r. ahead L r) (ahead L s₂) (ahead L s) _
                      (omega arith) (tbl-Below t (record s₂ { heap = heap }) (omega arith))))))
