-- ===== src/Serialize.antt =====
-- src/rava_core_serialize.c, `encode_value` to `ravaL_serialize_encode`: values to bytes.
--
-- The table `seen` of the Lua stack maps each table and function that was met to its number, and
-- each number to true: it is the list of those objects, in order, the first one numbered 1.
pub mod Decode
pub mod Format
pub mod Build
pub mod Reader
pub mod Objects
pub mod Bodies
pub mod Follows
pub mod Progress
pub mod Rounds
pub mod Ending
pub mod Describe
pub mod Writer
pub mod Encoding
pub mod Encodes
pub mod RoundTrip
pub mod Numbering
pub mod Shifted
pub mod Refs
pub mod Plain
pub mod Enough
pub mod Total
pub mod Links
pub mod Copies
pub mod Copying
pub mod Filling
pub mod Isomorphic
use rava.Base.{
  ℕ, zero, suc, ◌+◌, Bool, true, false, ◌||◌, List, [], ◌∷◌, ◌++◌, Option, none, some, length, ◌==◌,
  if◌then◌else◌,
}
use rava.Outcome.{
  Outcome, ok, raised, aborted, stuck, ◌>>=◌, serialize_result, c_function, encode_userdata,
  encode_type,
}
use rava.Buffer.{Buf, null_buf, buf_put, buf_write, buf_write_uleb128, buf_close, writer, load_many}
use rava.Lua.{
  Value, nil, boolean, lightuserdata, number, str, table, function, userdata, thread, lua_type, Lua,
}

-- RAVA_CODEC_TREF, RAVA_CODEC_TVAL, RAVA_CODEC_TUSR
abbrev pub codec_tref : ℕ
codec_tref = 1

abbrev pub codec_tval : ℕ
codec_tval = 2

abbrev pub codec_tusr : ℕ
codec_tusr = 3

-- Raw equality of two objects that `seen` may hold.
abbrev pub same_object : Value → Value → Bool
same_object (table s) (table t) = s == t
same_object (function f) (function g) = f == g
same_object _ _ = false

-- `lua_rawget(L, seen)` with the object as key.
unfoldable pub ref_from : ℕ → List Value → Value → Option ℕ
ref_from n [] v = none
ref_from n (x ∷ xs) v = if same_object x v then some n else ref_from (n + 1) xs v

unfoldable pub ref_of : List Value → Value → Option ℕ
ref_of seen v = ref_from 1 seen v

-- `lua_toboolean` as an int.
abbrev pub bool_byte : Bool → ℕ
bool_byte true = 1
bool_byte false = 0

-- A hook's first result must be a function or a string.
abbrev pub is_decoder : Value → Bool
is_decoder (str x) = true
is_decoder (function g) = true
is_decoder _ = false

-- lua_dump: each piece goes to `ravaL_writer`.
unfoldable pub dump_to : List (List ℕ) → Buf → Outcome Buf
dump_to [] b = ok b
dump_to (piece ∷ pieces) b = writer piece b >>= λ (_, b'). dump_to pieces b'

module _ (L : Lua) where
  open L use {Heap}

  pub record Encoder : Type 0 where
    pub buf : Buf
    pub seen : List Value
    pub heap : Heap

  -- encoder_seen
  abbrev pub encoder_seen : Value → Encoder → Encoder
  encoder_seen v s = record s { seen = s.seen ++ v ∷ [] }

  abbrev pub put : ℕ → Encoder → Outcome Encoder
  put x s = buf_put s.buf x >>= λ b. ok (record s { buf = b })

  abbrev pub write : List ℕ → Encoder → Outcome Encoder
  write xs s = buf_write s.buf xs >>= λ b. ok (record s { buf = b })

  abbrev pub write_uleb128 : ℕ → Encoder → Outcome Encoder
  write_uleb128 n s = buf_write_uleb128 s.buf n >>= λ b. ok (record s { buf = b })

  unfoldable pub encode_ref : ℕ → Encoder → Outcome Encoder
  encode_ref ref s = put codec_tref s >>= write_uleb128 ref

  -- `lua_getupvalue(L, -2, i); lua_rawseti(L, -2, i);` for the `n` upvalues from `i` on.
  unfoldable pub copy_upvalues : ℕ → ℕ → ℕ → ℕ → Heap → Heap
  copy_upvalues zero i g t heap = heap
  copy_upvalues (suc n) i g t heap =
      copy_upvalues n (i + 1) g t (L.raw_set_i heap t i (L.get_upvalue heap g i))

  -- The uses of the API that the two recursive functions are made of: `enc` is `encode_value`, and
  -- `tbl t key` the loop of `encode_table` on table `t` behind `key`.
  module _ (enc : Value → Encoder → Outcome Encoder)
      (tbl : ℕ → Value → Encoder → Outcome Encoder) where
    -- encoder_hook
    unfoldable pub encoder_hook : Value → Value → Encoder → Outcome Encoder
    encoder_hook hook v s = do
      s₁ ← put codec_tusr s
      (a, b, heap) ← L.call_two s₁.heap hook v
      let both = enc a (record s₁ { heap = heap }) >>= enc b
      if is_decoder a then both else raised serialize_result

    unfoldable pub encode_new_table : Option Value → ℕ → Encoder → Outcome Encoder
    unfolding encoder_hook
    encode_new_table (some hook) t s = encoder_hook hook (table t) s
    encode_new_table none t s = put codec_tval s >>= tbl t nil

    unfoldable pub encode_upvalues : ℕ → Encoder → Outcome Encoder
    unfolding copy_upvalues
    encode_upvalues g s =
        let (t, heap) = L.new_table s.heap in
        let heap' = copy_upvalues (L.nups s.heap g) 1 g t heap in
        let rest = tbl t nil (record s { heap = heap' }) in
        if L.obj_len heap' t == L.nups s.heap g then rest else aborted

    unfoldable pub encode_new_function : ℕ → Encoder → Outcome Encoder
    unfolding dump_to encode_upvalues
    encode_new_function g s = do
      s₁ ← put codec_tval (encoder_seen (function g) s)
      b ← dump_to (L.dump s₁.heap g) null_buf
      code ← load_many b.cells 0 b.head
      s₂ ← write_uleb128 b.head s₁
      s₃ ← write code s₂
      encode_upvalues g s₃

    -- The cases LUA_TTABLE, LUA_TFUNCTION and LUA_TUSERDATA, on what was looked up.
    unfoldable pub encode_seen_table : Option ℕ → ℕ → Encoder → Outcome Encoder
    unfolding encode_ref encode_new_table
    encode_seen_table (some ref) t s = encode_ref ref s
    encode_seen_table none t s =
        encode_new_table (L.serializer s.heap (table t)) t (encoder_seen (table t) s)

    unfoldable pub encode_seen_function : Option ℕ → ℕ → Encoder → Outcome Encoder
    unfolding encode_ref encode_new_function
    encode_seen_function (some ref) g s = encode_ref ref s
    encode_seen_function none g s =
        if L.is_lua s.heap g then encode_new_function g s else raised c_function

    unfoldable pub encode_userdata_hook : Option Value → ℕ → Encoder → Outcome Encoder
    unfolding encoder_hook
    encode_userdata_hook (some hook) u s = encoder_hook hook (userdata u) s
    encode_userdata_hook none u s = raised encode_userdata

    -- The switch of `encode_value`, behind the type byte.
    unfoldable pub encode_body : Value → Encoder → Outcome Encoder
    unfolding encode_seen_table encode_seen_function encode_userdata_hook
    encode_body nil s = ok s
    encode_body (boolean b) s = put (bool_byte b) s
    encode_body (lightuserdata p) s = write p s
    encode_body (number n) s = write n s
    encode_body (str x) s = write_uleb128 (length x) s >>= write x
    encode_body (table t) s = encode_seen_table (ref_of s.seen (table t)) t s
    encode_body (function g) s = encode_seen_function (ref_of s.seen (function g)) g s
    encode_body (userdata u) s = encode_userdata_hook (L.serializer s.heap (userdata u)) u s
    encode_body (thread t) s = raised (encode_type (lua_type (thread t)))

    -- One round of the loop of `encode_table`; `nil` is the sentinel.
    unfoldable pub encode_pair : ℕ → Option (Value × Value) → Encoder → Outcome Encoder
    encode_pair t none s = enc nil s
    encode_pair t (some (k, v)) s = enc k s >>= λ s₁. enc v s₁ >>= λ s₂. tbl t k s₂

  unfoldable mutual
    pub encode_value : ℕ → Value → Encoder → Outcome Encoder
    encode_value zero v s = stuck
    encode_value (suc fuel) v s =
        put (lua_type v) s >>= encode_body (encode_value fuel) (encode_table fuel) v

    pub encode_table : ℕ → ℕ → Value → Encoder → Outcome Encoder
    encode_table zero t key s = stuck
    encode_table (suc fuel) t key s =
        L.next s.heap t key >>= λ pair. encode_pair (encode_value fuel) (encode_table fuel) t pair s

  unfoldable pub encode_args : ℕ → List Value → Encoder → Outcome Encoder
  encode_args fuel [] s = ok s
  encode_args fuel (v ∷ vs) s = encode_value fuel v s >>= encode_args fuel vs

  -- `ravaL_serialize_encode` on the arguments at the top of the stack: the string that it pushes.
  unfoldable pub serialize_encode : ℕ → List Value → Heap → Outcome (List ℕ × Heap)
  unfolding encode_args
  serialize_encode fuel args heap = do
    b ← buf_write_uleb128 null_buf (length args)
    s ← encode_args fuel args (record { buf = b; seen = []; heap = heap })
    result ← load_many s.buf.cells 0 s.buf.head
    ok (result, s.heap)
