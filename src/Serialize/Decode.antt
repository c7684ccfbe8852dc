-- ===== src/Serialize/Decode.antt =====
-- src/rava_core_serialize.c, `find_decoder` to `ravaL_serialize_decode`: bytes to values.
--
-- Here the table `seen` of the Lua stack is the list of the objects that were made, in order.
use rava.Base.{
  ℕ, zero, suc, ◌+◌, ◌^◌, Bool, true, false, not, List, [], ◌∷◌, ◌++◌, Option, none, some, ltb,
  ◌==◌, if◌then◌else◌,
}
use rava.Outcome.{
  Outcome, ok, raised, aborted, stuck, ◌>>=◌, no_decoder, load_chunk, bad_code, wrong_type,
}
use rava.Buffer.{Buf, null_buf, buf_init, buf_get, buf_peek, buf_read, buf_read_uleb128}
use rava.Lua.{Value, nil, boolean, lightuserdata, number, str, table, function, Lua}
use rava.Serialize.{codec_tref, codec_tusr}

abbrev pub is_string : Value → Bool
is_string (str x) = true
is_string _ = false

abbrev pub is_function : Value → Bool
is_function (function g) = true
is_function _ = false

abbrev pub is_nil : Value → Bool
is_nil nil = true
is_nil _ = false

-- `lua_rawgeti(L, seen, ref)`: nil where nothing was stored.
abbrev pub seen_at : List Value → ℕ → Value
seen_at [] ref = nil
seen_at (v ∷ vs) zero = nil
seen_at (v ∷ vs) (suc zero) = v
seen_at (v ∷ vs) (suc (suc ref)) = seen_at vs (suc ref)

-- `lua_rawseti(L, seen, lua_objlen(L, seen) + 1)`: a nil stores nothing, and its number is left to
-- the next object.
abbrev pub append_object : Value → List Value → List Value
append_object v seen = if is_nil v then seen else seen ++ v ∷ []

module _ (L : Lua) where
  open L use {Heap}

  pub record Decoder : Type 0 where
    pub buf : Buf
    pub seen : List Value
    pub heap : Heap

  abbrev pub decoder_seen : Value → Decoder → Decoder
  decoder_seen v s = record s { seen = append_object v s.seen }

  abbrev pub get : Decoder → Outcome (ℕ × Decoder)
  get s = buf_get s.buf >>= λ (x, b). ok (x, record s { buf = b })

  abbrev pub read : ℕ → Decoder → Outcome (List ℕ × Decoder)
  read n s = buf_read s.buf n >>= λ (xs, b). ok (xs, record s { buf = b })

  abbrev pub read_uleb128 : Decoder → Outcome (ℕ × Decoder)
  read_uleb128 s = buf_read_uleb128 s.buf >>= λ (n, b). ok (n, record s { buf = b })

  -- The registry is looked up first, then the globals; what is found must be a function.
  abbrev pub lookup : Heap → Value → Value
  lookup heap key =
      if is_nil (L.registry heap key)
      then (if is_nil (L.globals heap key) then key else L.globals heap key)
      else L.registry heap key

  unfoldable pub find_decoder : Heap → Value → Outcome Value
  find_decoder heap key =
      if is_function (lookup heap key) then ok (lookup heap key) else raised no_decoder

  -- `if (lua_type(L, -1) == LUA_TSTRING) find_decoder(...)`
  unfoldable pub resolve_hook : Heap → Value → Outcome Value
  unfolding find_decoder
  resolve_hook heap hook = if is_string hook then find_decoder heap hook else ok hook

  unfoldable pub decode_ref : Decoder → Outcome (Value × Decoder)
  decode_ref s = read_uleb128 s >>= λ (ref, s'). ok (seen_at s'.seen ref, s')

  -- `lua_rawgeti(L, -1, i); lua_setupvalue(L, -3, i);` for the `n` upvalues from `i` on.
  unfoldable pub install_upvalues : ℕ → ℕ → ℕ → ℕ → Heap → Heap
  install_upvalues zero i g t heap = heap
  install_upvalues (suc n) i g t heap =
      install_upvalues n (i + 1) g t (L.set_upvalue heap g i (L.raw_get_i heap t i))

  -- `dec` is `decode_value`, and `tbl t` the loop of `decode_table` on table `t`.
  module _ (dec : Decoder → Outcome (Value × Decoder)) (tbl : ℕ → Decoder → Outcome Decoder) where
    -- LUA_TTABLE with RAVA_CODEC_TUSR: the result is numbered once it is there,
    -- unless it is nil.
    unfoldable pub decode_user_table : Decoder → Outcome (Value × Decoder)
    unfolding resolve_hook
    decode_user_table s = do
      (hook, s₁) ← dec s
      hook' ← resolve_hook s₁.heap hook
      (arg, s₂) ← dec s₁
      (result, heap) ← L.call_one s₂.heap hook' arg
      ok (result, decoder_seen result (record s₂ { heap = heap }))

    unfoldable pub decode_new_table : Decoder → Outcome (Value × Decoder)
    decode_new_table s =
        let (t, heap) = L.new_table s.heap in
        tbl t (decoder_seen (table t) (record s { heap = heap })) >>= λ s'. ok (table t, s')

    unfoldable pub decode_upvalues : ℕ → Decoder → Outcome (Value × Decoder)
    unfolding install_upvalues
    decode_upvalues g s =
        let (t, heap) = L.new_table s.heap in
        tbl t (record s { heap = heap }) >>= λ s'.
        ok (function g, record s' { heap = install_upvalues (L.obj_len s'.heap t) 1 g t s'.heap })

    unfoldable pub decode_loaded : Option (ℕ × Heap) → Decoder → Outcome (Value × Decoder)
    unfolding decode_upvalues
    decode_loaded none s = raised load_chunk
    decode_loaded (some (g, heap)) s =
        decode_upvalues g (decoder_seen (function g) (record s { heap = heap }))

    unfoldable pub decode_new_function : Decoder → Outcome (Value × Decoder)
    unfolding decode_loaded
    decode_new_function s = do
      (len, s₁) ← read_uleb128 s
      (code, s₂) ← read len s₁
      decode_loaded (L.load_buffer s₂.heap code) s₂

    unfoldable pub decode_userdata : Decoder → Outcome (Value × Decoder)
    unfolding resolve_hook
    decode_userdata s = do
      (hook, s₁) ← dec s
      hook' ← resolve_hook s₁.heap hook
      (arg, s₂) ← dec s₁
      let called =
          L.call_one s₂.heap hook' arg >>= λ (result, heap). ok (result, record s₂ { heap = heap })
      if is_function hook' then called else raised wrong_type

    -- The cases LUA_TTABLE, LUA_TFUNCTION and LUA_TUSERDATA behind their tag byte.
    unfoldable pub decode_table_tag : ℕ → Decoder → Outcome (Value × Decoder)
    unfolding decode_ref decode_user_table decode_new_table
    decode_table_tag tag s =
        if tag == codec_tref
        then decode_ref s
        else (if tag == codec_tusr then decode_user_table s else decode_new_table s)

    unfoldable pub decode_function_tag : ℕ → Decoder → Outcome (Value × Decoder)
    unfolding decode_ref decode_new_function
    decode_function_tag tag s = if tag == codec_tref then decode_ref s else decode_new_function s

    unfoldable pub decode_userdata_tag : ℕ → Decoder → Outcome (Value × Decoder)
    unfolding decode_userdata
    decode_userdata_tag tag s = if tag == codec_tusr then decode_userdata s else aborted

    -- The switch of `decode_value` on the type byte.
    unfoldable pub decode_body : ℕ → Decoder → Outcome (Value × Decoder)
    unfolding decode_table_tag decode_function_tag decode_userdata_tag
    decode_body zero s = ok (nil, s)
    decode_body (suc zero) s = get s >>= λ (x, s'). ok (boolean (not (x == 0)), s')
    decode_body (suc (suc zero)) s = read 8 s >>= λ (p, s'). ok (lightuserdata p, s')
    decode_body (suc (suc (suc zero))) s = read 8 s >>= λ (n, s'). ok (number n, s')
    decode_body (suc (suc (suc (suc zero)))) s = do
      (len, s₁) ← read_uleb128 s
      (x, s₂) ← read len s₁
      ok (str x, s₂)
    decode_body (suc (suc (suc (suc (suc zero))))) s =
        get s >>= λ (tag, s'). decode_table_tag tag s'
    decode_body (suc (suc (suc (suc (suc (suc zero)))))) s =
        get s >>= λ (tag, s'). decode_function_tag tag s'
    decode_body (suc (suc (suc (suc (suc (suc (suc zero))))))) s =
        get s >>= λ (tag, s'). decode_userdata_tag tag s'
    decode_body _ s = raised bad_code

    -- The sentinel must be nil.
    abbrev pub expect_nil : Value × Decoder → Outcome Decoder
    expect_nil (v, s) = if is_nil v then ok s else aborted

    -- One round of the loop of `decode_table`, on the byte that `ravaL_buf_peek` shows.
    unfoldable pub decode_pair : ℕ → ℕ → Decoder → Outcome Decoder
    decode_pair t x s =
        let pair = do
          (k, s₁) ← dec s
          (v, s₂) ← dec s₁
          heap ← L.set_table s₂.heap t k v
          tbl t (record s₂ { heap = heap })
        in let end = dec s >>= expect_nil in if x == 0 then end else pair

  unfoldable mutual
    pub decode_value : ℕ → Decoder → Outcome (Value × Decoder)
    decode_value zero s = stuck
    decode_value (suc fuel) s =
        get s >>= λ (x, s'). decode_body (decode_value fuel) (decode_table fuel) x s'

    pub decode_table : ℕ → ℕ → Decoder → Outcome Decoder
    decode_table zero t s = stuck
    decode_table (suc fuel) t s =
        buf_peek s.buf >>= λ x. decode_pair (decode_value fuel) (decode_table fuel) t x s

  unfoldable pub decode_many : ℕ → ℕ → Decoder → Outcome (List Value × Decoder)
  decode_many fuel zero s = ok ([], s)
  decode_many fuel (suc n) s = do
    (v, s₁) ← decode_value fuel s
    (vs, s₂) ← decode_many fuel n s₁
    ok (v ∷ vs, s₂)

  -- `ravaL_serialize_decode`: the values that it pushes. A count that is negative as an int makes
  -- no round of the loop, and the assertion on the stack's height fails.
  unfoldable pub serialize_decode : ℕ → List ℕ → Heap → Outcome (List Value × Heap)
  unfolding decode_many
  serialize_decode fuel bytes heap = do
    b ← buf_init null_buf bytes
    (nval, b') ← buf_read_uleb128 (record b { head = 0 })
    let many = decode_many fuel nval (record { buf = b'; seen = []; heap = heap }) >>= λ (vs, s).
        ok (vs, s.heap)
    if ltb nval (2 ^ 31) then many else aborted
