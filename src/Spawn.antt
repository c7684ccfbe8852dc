-- ===== src/Spawn.antt =====
-- src/rava_process_spawn.c: the options of a child process, which `rava_new_spawn` turns into the
-- arrays of the process's arguments and of its environment, and the end of the process.
--
-- An allocated array of `char*` is the list of its cells, `none` where nothing was written yet; a
-- cell holds a string or NULL. malloc and realloc succeed. lua_tostring and lua_pushfstring belong to
-- LuaJIT and are given. The string keys of `env` are those that lua_next visits, in its order.
pub mod Arrays
pub mod Environment
pub mod Exit
use rava.Base.{
  ℕ, zero, suc, ◌+◌, ◌*◌, ◌^◌, Bool, true, false, List, [], ◌∷◌, ◌++◌, Option, none, some, length,
  set, replicate, ltb, leb, if◌then◌else◌,
}
use rava.Outcome.{Outcome, ok, raised, fault, ◌>>=◌, wrong_type, thrown}
use rava.Lua.{Value, nil, userdata}
use rava.Scheduler.{State, fiber, Thread, push_values, cond_signal}
use rava.Stream.{Uv, Net, set_object, object_init, object_close}
use rava.Stream.Methods.{Answer, returns, wait_for}

abbrev pub Text : Type 0
Text = List ℕ

-- A cell of a `char*[]`
abbrev pub Slot : Type 0
Slot = Option (Option Text)

-- `cells[i] = x;`
unfoldable pub put_at : List Slot → ℕ → Option Text → Outcome (List Slot)
put_at cells i x = if ltb i (length cells) then ok (set cells i (some x)) else fault

-- `i >= len`: the array doubles; `len` is an int.
unfoldable pub grow_env : ℕ → ℕ → List Slot → Outcome (ℕ × List Slot)
grow_env i len cells =
    let more =
      if ltb (len * 2) (2 ^ 31) then ok (len * 2, cells ++ replicate len none) else fault in
    if leb len i then more else ok (len, cells)

-- The entry of `stdio` for one of the three standard streams: UV_IGNORE, or the stream of a pipe.
pub data Stdio : Type 0 where
  ignore : Stdio
  inherit : ℕ → Stdio

module _ (to_string : Value → Option Text) (pushf : Option Text → Option Text → Text) where
  -- args[i], args[i + 1], ... from the values of the options table
  unfoldable pub fill_args : List Value → ℕ → List Slot → Outcome (List Slot)
  unfolding put_at
  fill_args [] i cells = ok cells
  fill_args (v ∷ vs) i cells = put_at cells i (to_string v) >>= fill_args vs (suc i)

  -- `args` for the command and the `argc` values
  unfoldable pub read_args : Text → List Value → Outcome (List Slot)
  unfolding fill_args
  read_args cmd vs = do
    first ← put_at (replicate (length vs + 1) none) 0 (some cmd)
    filled ← fill_args vs 1 first
    put_at filled (length vs + 1) none

  abbrev pub env_entry : Value → Value → Text
  env_entry k v = pushf (to_string k) (to_string v)

  -- The loop over `env`, and NULL behind the last entry
  unfoldable pub fill_env : List (Value × Value) → ℕ → ℕ → List Slot → Outcome (List Slot)
  unfolding put_at grow_env
  fill_env [] i len cells = put_at cells i none
  fill_env ((k, v) ∷ es) i len cells = grow_env i len cells >>= λ (len', cells').
      put_at cells' i (some (env_entry k v)) >>= fill_env es (suc i) len'

  unfoldable pub read_env : List (Value × Value) → Outcome (List Slot)
  unfolding fill_env
  read_env es = fill_env es 0 32 (replicate 32 none)

-- luaL_checkudata of a pipe, for a value that is not nil
unfoldable pub read_stdio : (Value → Option ℕ) → Value → Outcome Stdio
read_stdio check_pipe nil = ok ignore
read_stdio check_pipe v = found (check_pipe v)
  where
    found : Option ℕ → Outcome Stdio
    found (some obj) = ok (inherit obj)
    found none = raised wrong_type

-- _exit_cb of process `c`, which belongs to state `s`: `status` and `sigterm` as Lua integers
unfoldable pub exit_cb : ℕ → State → Value → Value → Thread → Thread
exit_cb c s status sigterm t = (cond_signal c (push_values (status ∷ sigterm ∷ []) s t)).0

-- The table of options, as its fields are read
pub record Options : Type 0 where
  pub values : List Value
  pub cwd : Option Text
  pub env : Option (List (Value × Value))
  pub streams : Value × Value × Value
  pub detach : Bool

-- uv_process_options_t, as far as it is filled in
pub record Prepared : Type 0 where
  pub args : List Slot
  pub env_block : Option (List Slot)
  pub dir : Option Text
  pub stdio : Stdio × Stdio × Stdio
  pub detached : Bool

-- `memset(&opts, 0, n)` on a variable of `size` bytes
unfoldable pub clear_local : ℕ → ℕ → Outcome (Unit {0})
clear_local size n = if leb n size then ok tt else fault

module _ (to_string : Value → Option Text) (pushf : Option Text → Option Text → Text)
    (check_pipe : Value → Option ℕ) where
  unfoldable pub read_env_field : Option (List (Value × Value)) → Outcome (Option (List Slot))
  unfolding read_env
  read_env_field none = ok none
  read_env_field (some es) = read_env to_string pushf es >>= λ cells. ok (some cells)

  -- rava_new_spawn up to the creation of the object. `opts` is a pointer of eight bytes, and
  -- `opts_size` is the size of uv_process_options_t.
  unfoldable pub prepare : ℕ → Text → Options → Outcome Prepared
  unfolding clear_local read_args read_env_field read_stdio
  prepare opts_size cmd o = do
    _ ← clear_local 8 opts_size
    args ← read_args to_string pushf cmd o.values
    env ← read_env_field o.env
    s₀ ← read_stdio check_pipe (o.streams.0)
    s₁ ← read_stdio check_pipe (o.streams.1)
    s₂ ← read_stdio check_pipe (o.streams.2)
    ok (record {
      args = args;
      env_block = env;
      dir = o.cwd;
      stdio = (s₀, s₁, s₂);
      detached = o.detach;
    })

-- libuv's calls on a process
pub record Processes (H : Type 0) : Type 0 where
  pub spawn : Prepared → Option ℕ × H
  pub unref : H → H
  pub kill : H → ℕ → Option ℕ × H

module _ (uv : Uv) (procs : Processes uv.Handle) where
  -- The end of rava_new_spawn by fiber `i`, with the new object `c`: the child runs on its own, or the
  -- fiber waits for its end.
  unfoldable pub launch : ℕ → ℕ → Prepared → Net uv.Handle → Outcome (Net uv.Handle × Answer)
  unfolding object_init
  launch c i p n =
      let m = object_init uv (fiber i) c n in
      let with_handle =
        λ (h : uv.Handle). set_object uv c (record (m.objects c) { handle = h }) m in
      let h = (procs.spawn p).1 in
      elim ((procs.spawn p).0) [
        | some e ↦ raised (thrown e)
        | none ↦ elim p.detached [
          | true ↦ ok (with_handle (procs.unref h), returns (userdata c ∷ []))
          | false ↦ ok (wait_for uv c i (with_handle h))
        ]
      ]

  -- rava_spawn_kill
  unfoldable pub spawn_kill : ℕ → ℕ → Net uv.Handle → Outcome (Net uv.Handle × Answer)
  spawn_kill c signum n =
      let o = n.objects c in
      elim ((procs.kill o.handle signum).0) [
        | none ↦
            ok
              (set_object uv c (record o { handle = (procs.kill o.handle signum).1 }) n, returns [])
        | some e ↦ raised (thrown e)
      ]

  -- rava_spawn_free
  unfoldable pub spawn_free : ℕ → Net uv.Handle → Net uv.Handle
  spawn_free c n = object_close uv c n
