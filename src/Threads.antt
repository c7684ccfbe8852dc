-- ===== src/Threads.antt =====
-- Operating-system threads: `ravaL_thread_create`, `_thread_enter` and `rava_thread_join` of
-- src/rava_process_thread.c. Two Lua states share nothing: what one hands to the other goes through
-- the serializer as a string.
--
-- The new state's heap, which `luaL_newstate` and `luaL_openlibs` make, and `lua_pcall` are given. An
-- error outside of `lua_pcall` is raised in a state that has no handler. The wait of
-- rava_thread_join for the other thread is `thread_suspend` (MainLoop) and `uv_thread_join`.
use rava.Base.{ℕ, Bool, true, false, List, [], ◌∷◌}
use rava.Outcome.{Outcome, ok, raised, ◌>>=◌, wrong_type, thrown}
use rava.Lua.{Value, nil, boolean, str, function, Lua}
use rava.Serialize.{serialize_encode}
use rava.Serialize.Decode.{serialize_decode}

-- How lua_pcall ends: with results, or with an error.
pub data Called {ℓ} (H : Type ℓ) : Type ℓ where
  returned : List Value → H → Called H
  failed : ℕ → Called H

module _ (L : Lua) where
  open L use {Heap}

  -- A rava_thread_t and its own Lua state
  pub record Child : Type 0 where
    pub ready : Bool
    pub dead : Bool
    pub stack : List Value
    pub heap : Heap

  -- ravaL_thread_create on the `narg` values at the top of the stack; `fresh` is the new state's
  -- heap. The pair is the new thread and the heap of the state that makes it.
  unfoldable pub thread_create : ℕ → Heap → List Value → Heap → Outcome (Child × Heap)
  thread_create fuel fresh args heap = serialize_encode L fuel args heap >>= λ (bytes, heap').
      ok (record { ready = true; dead = false; stack = str bytes ∷ []; heap = fresh }, heap')

  -- `luaL_checklstring(L, 1, &len)`
  abbrev pub check_string : List Value → Outcome (List ℕ)
  check_string (str bytes ∷ vs) = ok bytes
  check_string vs = raised wrong_type

  -- The end of _thread_enter. On an error the thread is made ready, and the error is raised again.
  unfoldable pub finish : Called Heap → Child → Outcome Child
  finish (returned results heap) self =
      ok (record self { stack = boolean true ∷ results; heap = heap; dead = true })
  finish (failed e) self = raised (thrown e)

  -- The first value must be a function; it is called on the others.
  unfoldable pub run_main :
      (Heap → ℕ → List Value → Called Heap) → Child → List Value → Outcome Child
  unfolding finish
  run_main pcall self (function g ∷ args) = finish (pcall self.heap g args) self
  run_main pcall self vs = raised wrong_type

  -- _thread_enter
  unfoldable pub thread_enter : (Heap → ℕ → List Value → Called Heap) → ℕ → Child → Outcome Child
  unfolding run_main
  thread_enter pcall fuel self = check_string self.stack >>= λ bytes.
      serialize_decode L fuel bytes self.heap >>= λ (vs, heap).
      run_main pcall (record self { stack = []; heap = heap }) vs

  -- What ravaL_serialize_encode leaves of the values that it encodes: its last `lua_settop(L, seen)`
  -- keeps the first one, and makes a nil where there was none.
  abbrev pub left_behind : List Value → List Value
  left_behind [] = nil ∷ []
  left_behind (v ∷ vs) = v ∷ []

  -- rava_thread_join, once the other thread has ended: the values that it returns, the heap of the
  -- state that joins, and the thread that was joined.
  unfoldable pub join_results : ℕ → ℕ → Child → Heap → Outcome (List Value × Heap × Child)
  join_results fuel fuel' self heap =
      serialize_encode L fuel self.stack self.heap >>= λ (bytes, own).
      serialize_decode L fuel' bytes heap >>= λ (vs, heap').
      ok (vs, heap', record self { ready = true; stack = left_behind self.stack; heap = own })

  abbrev pub started : Heap → Child
  started heap = record { ready = true; dead = false; stack = []; heap = heap }
