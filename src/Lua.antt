-- ===== src/Lua.antt =====
-- The Lua values that the C code sees through the API of deps/luajit, and that API itself.
--
-- LuaJIT is a git submodule and not part of the repository: its heap and the calls that the
-- serializer makes are the fields of a record that the definitions take as an argument. A table, a
-- function, a userdata and a thread are references, numbered by the address that makes them
-- different. A number is the eight bytes of its lua_Number, a light userdata those of its pointer.
use rava.Base.{ℕ, Bool, List, Option}
use rava.Outcome.{Outcome}

pub data Value : Type 0 where
  nil : Value
  boolean : Bool → Value
  lightuserdata : List ℕ → Value
  number : List ℕ → Value
  str : List ℕ → Value
  table : ℕ → Value
  function : ℕ → Value
  userdata : ℕ → Value
  thread : ℕ → Value

-- `lua_type`, with the values of the LUA_T constants of lua.h.
abbrev pub lua_type : Value → ℕ
lua_type nil = 0
lua_type (boolean b) = 1
lua_type (lightuserdata p) = 2
lua_type (number n) = 3
lua_type (str x) = 4
lua_type (table t) = 5
lua_type (function g) = 6
lua_type (userdata u) = 7
lua_type (thread t) = 8

pub record Lua : Type 1 where
  pub Heap : Type 0
  -- lua_next on a table and the last key: the next key and its value, or the end
  pub next : Heap → ℕ → Value → Outcome (Option (Value × Value))
  -- luaL_getmetafield of "__serialize"
  pub serializer : Heap → Value → Option Value
  -- lua_call with one argument and two results, and with one result
  pub call_two : Heap → Value → Value → Outcome (Value × Value × Heap)
  pub call_one : Heap → Value → Value → Outcome (Value × Heap)
  -- lua_getinfo: does `what` start with L, as "Lua" does and "C" and "main" do not; `nups`
  pub is_lua : Heap → ℕ → Bool
  pub nups : Heap → ℕ → ℕ
  -- the pieces that lua_dump hands to its writer
  pub dump : Heap → ℕ → List (List ℕ)
  -- luaL_loadbuffer, `none` on an error
  pub load_buffer : Heap → List ℕ → Option (ℕ × Heap)
  pub get_upvalue : Heap → ℕ → ℕ → Value
  pub set_upvalue : Heap → ℕ → ℕ → Value → Heap
  pub new_table : Heap → ℕ × Heap
  -- lua_settable on a table with no metatable raises on a nil or NaN key
  pub set_table : Heap → ℕ → Value → Value → Outcome Heap
  pub raw_set_i : Heap → ℕ → ℕ → Value → Heap
  pub raw_get_i : Heap → ℕ → ℕ → Value
  pub obj_len : Heap → ℕ → ℕ
  -- lua_gettable on the registry, and on the table of globals
  pub registry : Heap → Value → Value
  pub globals : Heap → Value → Value
