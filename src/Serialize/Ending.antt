-- ===== src/Serialize/Ending.antt =====
-- `ravaL_serialize_decode` comes back on any bytes, well formed or not: its rounds are bounded by
-- the size of the buffer that the bytes are copied to.
use rava.Base.{ℕ, zero, suc, ◌+◌, ◌*◌, ◌<◌, arith, length}
use rava.Buffer.{load, buf_peek}
use rava.Lua.{Value, Lua}
use rava.Serialize.Decode.{Decoder, get, decode_value, decode_table}
use rava.Serialize.Progress.{load-Below, Below, Below-bind, Below-weaken, get-Below, ahead, Answers}
use rava.Serialize.Rounds.{decode_body-Below, decode_pair-Below}

module _ (L : Lua) (answers : Answers L) where
  abbrev Rounds : ℕ → Type 0
  Rounds fuel =
      ((s : Decoder L)
        → 2 * ahead L s < fuel
        → Below {A = Value × Decoder L} (λ r. ahead L r.1) (ahead L s) (decode_value L fuel s))
      × ((t : ℕ) (s : Decoder L)
          → 2 * ahead L s + 1 < fuel
          → Below {A = Decoder L} (λ r. ahead L r) (ahead L s) (decode_table L fuel t s))

  -- A call is given two rounds for each cell that is left.
  rounds : (fuel : ℕ) → Rounds fuel
  unfolding decode_value decode_table buf_peek
  rounds zero = ((λ s lt. absurd (omega arith)), (λ t s lt. absurd (omega arith)))
  rounds (suc fuel) =
      let (value, loop) = rounds fuel in
      (
        (λ s lt.
            Below-bind {B = Value × Decoder L} (λ (r : ℕ × Decoder L). ahead L r.1)
              (λ r. ahead L r.1) (ahead L s) (ahead L s) (get L s) _ (get-Below L s)
              (λ (x, s') lt'.
                Below-weaken {A = Value × Decoder L} (λ r. ahead L r.1) (suc (ahead L s'))
                  (ahead L s) _ (omega arith)
                  (decode_body-Below L (decode_value L fuel) (decode_table L fuel) (ahead L s')
                    answers (λ s'' le. value s'' (omega arith))
                    (λ t s'' le. loop t s'' (omega arith)) x s' (omega arith)))),
        (λ t s lt.
            Below-bind {B = Decoder L} (λ (x : ℕ). s.buf.head) (λ r. ahead L r) (length s.buf.cells)
              (ahead L s) (load s.buf.cells s.buf.head) _ (load-Below s.buf.cells s.buf.head)
              (λ x lt'.
                decode_pair-Below L (decode_value L fuel) (decode_table L fuel) answers t x s
                  (λ s'' le. value s'' (omega arith)) (λ t' s'' lt''. loop t' s'' (omega arith)))),
      )
