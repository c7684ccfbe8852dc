-- ===== src/Serialize/Progress.antt =====
-- src/rava_core_serialize.c, decoding: what each read from the buffer uses up, on any bytes, well
-- formed or not.
use rava.Base.{
  ℕ, zero, suc, ◌+◌, ◌-◌, ◌*◌, ◌^◌, ◌≤◌, ◌<◌, ◌≡◌, refl, arith, Bool, true, false, List, [], ◌∷◌,
  none, some, length, get_elem?, if◌then◌else◌, leb, bit_and, bit_or, ◌%◌,
}
use rava.Outcome.{Outcome, ok, raised, fault, aborted, stuck, ◌>>=◌, Ends}
use rava.Buffer.{
  Buf, Cell, uint32_mod, load_cell, load, load_many, buf_get, buf_read, get_groups,
  buf_read_uleb128,
}
use rava.Lua.{Value, Lua}
use rava.Serialize.Decode.{Decoder, get, read, read_uleb128, find_decoder, resolve_hook}

-- A call that does not run out of rounds, and whose result, if it has one, is less than `l` away from
-- the end by the measure `f`.
abbrev pub Below {ℓ} : {A : Type ℓ} → (A → ℕ) → ℕ → Outcome A → Type 0
Below f l (ok a) = f a < l
Below f l (raised e) = Unit {0}
Below f l fault = Unit {0}
Below f l aborted = Unit {0}
Below f l stuck = ⊥

pub Below-bind {ℓ κ} :
    {A : Type ℓ} {B : Type κ} (f : A → ℕ) (g : B → ℕ) (l k : ℕ) (r : Outcome A) (h : A → Outcome B)
    → Below f l r
    → ((a : A) → f a < l → Below g k (h a))
    → Below g k (r >>= h)
Below-bind f g l k (ok a) h p next = next a p
Below-bind f g l k (raised e) h p next = tt
Below-bind f g l k fault h p next = tt
Below-bind f g l k aborted h p next = tt
Below-bind f g l k stuck h p next = p

pub Ends-Below-bind {ℓ κ} :
    {A : Type ℓ} {B : Type κ} (g : B → ℕ) (k : ℕ) (r : Outcome A) (h : A → Outcome B)
    → Ends r
    → ((a : A) → Below g k (h a))
    → Below g k (r >>= h)
Ends-Below-bind g k (ok a) h p next = next a
Ends-Below-bind g k (raised e) h p next = tt
Ends-Below-bind g k fault h p next = tt
Ends-Below-bind g k aborted h p next = tt
Ends-Below-bind g k stuck h p next = absurd (p refl)

pub Below-if {ℓ} :
    {A : Type ℓ} (g : A → ℕ) (k : ℕ) (b : Bool) (x y : Outcome A)
    → Below g k x
    → Below g k y
    → Below g k (if b then x else y)
Below-if g k true x y p q = p
Below-if g k false x y p q = q

pub Below-weaken {ℓ} :
    {A : Type ℓ} (f : A → ℕ) (k l : ℕ) (r : Outcome A) → k ≤ l → Below f k r → Below f l r
Below-weaken f k l (ok a) le h = omega (arith, h)
Below-weaken f k l (raised e) le h = tt
Below-weaken f k l fault le h = tt
Below-weaken f k l aborted le h = tt
Below-weaken f k l stuck le h = h

pub Below-Ends {ℓ} : {A : Type ℓ} (f : A → ℕ) (l : ℕ) (r : Outcome A) → Below f l r → Ends r
Below-Ends f l (ok a) h = λ p. cc
Below-Ends f l (raised e) h = λ p. cc
Below-Ends f l fault h = λ p. cc
Below-Ends f l aborted h = λ p. cc
Below-Ends f l stuck h = absurd h

-- The cells from the head on.
abbrev pub left : Buf → ℕ
left b = length b.cells - b.head

pub load-Below : (cells : List Cell) (off : ℕ) → Below (λ x. off) (length cells) (load cells off)
unfolding load
load-Below [] off = tt
load-Below (none ∷ cells) zero = tt
load-Below (some x ∷ cells) zero = omega arith
load-Below (c ∷ cells) (suc off) = shift (load_cell (get_elem? cells off)) (load-Below cells off)
  where
    shift :
        (r : Outcome ℕ)
        → Below (λ x. off) (length cells) r
        → Below (λ x. suc off) (suc (length cells)) r
    shift (ok x) h = omega (arith, h)
    shift (raised e) h = tt
    shift fault h = tt
    shift aborted h = tt
    shift stuck h = h

-- A run of loads ends.
load_many-Below : (cells : List Cell) (n off : ℕ) → Below (λ xs. 0) 1 (load_many cells off n)
unfolding load_many
load_many-Below cells zero off = omega arith
load_many-Below cells (suc n) off =
    Below-bind (λ x. off) (λ xs. 0) (length cells) 1 (load cells off) _ (load-Below cells off)
      (λ x lt.
        Below-bind (λ xs. 0) (λ xs. 0) 1 1 (load_many cells (suc off) n) _
          (load_many-Below cells n (suc off)) (λ xs le. omega arith))

-- The five rounds of the variable-length integer are enough: the shift ends the fifth.
get_groups-Below :
    (fuel : ℕ) (cells : List Cell) (p v sh : ℕ)
    → sh < 32
    → 32 ≤ sh + 7 * fuel
    → Below (λ r. length cells - r.1) (suc (length cells - p)) (get_groups fuel cells p v sh)
unfolding get_groups
get_groups-Below zero cells p v sh low high = absurd (omega arith)
get_groups-Below (suc fuel) cells p v sh low high =
    Below-bind (λ x. p) (λ (r : ℕ × ℕ). length cells - r.1) (length cells) (suc (length cells - p))
      (load cells p) _ (load-Below cells p)
      (λ x lt.
        let v' = bit_or v (bit_and x 0x7f * 2 ^ (sh + 7) % uint32_mod) in
        split x v' (get_groups-Below fuel cells (suc p) v' (sh + 7)) (leb 32 (sh + 7)) refl
          (leb 0x80 x))
  where
    split :
        (x v' : ℕ)
        → (sh + 7 < 32
            → 32 ≤ sh + 7 + 7 * fuel
            → Below
                (λ r. length cells - r.1)
                (suc (length cells - suc p))
                (get_groups fuel cells (suc p) v' (sh + 7)))
        → (b : Bool) → leb 32 (sh + 7) ≡ b
        → (c : Bool)
        → Below
            (λ r. length cells - r.1)
            (suc (length cells - p))
            (if b
              then fault
              else (if c then get_groups fuel cells (suc p) v' (sh + 7) else ok (v', suc p)))
    split x v' rest true e c = tt
    split x v' rest false e false = omega arith
    split x v' rest false e true =
        Below-weaken (λ r. length cells - r.1) (suc (length cells - suc p)) (suc (length cells - p))
          (get_groups fuel cells (suc p) v' (sh + 7)) (omega arith)
          (rest (ground arith) (omega arith))

pub uleb-Below : (b : Buf) → Below (λ (r : ℕ × Buf). left r.1) (suc (left b)) (buf_read_uleb128 b)
unfolding buf_read_uleb128
uleb-Below b =
    Below-bind {B = ℕ × Buf} (λ x. b.head) (λ r. left r.1) (length b.cells) (suc (left b))
      (load b.cells b.head) _ (load-Below b.cells b.head)
      (λ x lt.
        Below-if {A = ℕ × Buf} (λ r. left r.1) (suc (left b)) (leb 0x80 x) _ _
          (Below-bind {B = ℕ × Buf} (λ (r : ℕ × ℕ). length b.cells - r.1) (λ r. left r.1)
            (suc (length b.cells - suc b.head)) (suc (left b))
            (get_groups 5 b.cells (suc b.head) (bit_and x 0x7f) 0) _
            (get_groups-Below 5 b.cells (suc b.head) (bit_and x 0x7f) 0 (omega arith) (omega arith))
            (λ r le. omega arith))
          (omega arith))

module _ (L : Lua) where
  -- Calls from C into Lua come back, with a result or an error.
  pub record Answers : Type 0 where
    pub call_one : (heap : Lua.Heap L) (g v : Value) → Ends (L.call_one heap g v)
    pub set_table : (heap : Lua.Heap L) (t : ℕ) (k v : Value) → Ends (L.set_table heap t k v)

  abbrev pub ahead : Decoder L → ℕ
  ahead s = left s.buf

  pub get-Below : (s : Decoder L) → Below (λ (r : ℕ × Decoder L). ahead r.1) (ahead s) (get L s)
  unfolding buf_get
  get-Below s =
      Below-bind {B = ℕ × Decoder L} (λ (r : ℕ × Buf). left r.1) (λ r. ahead r.1) (left s.buf)
        (ahead s) (buf_get s.buf) _
        (Below-bind {B = ℕ × Buf} (λ x. s.buf.head) (λ r. left r.1) (length s.buf.cells)
          (left s.buf) (load s.buf.cells s.buf.head) _ (load-Below s.buf.cells s.buf.head)
          (λ x lt. omega arith))
        (λ r lt. lt)

  pub read-Below :
      (n : ℕ) (s : Decoder L)
      → Below (λ (r : List ℕ × Decoder L). ahead r.1) (suc (ahead s)) (read L n s)
  unfolding buf_read
  read-Below n s =
      Below-bind {B = List ℕ × Decoder L} (λ (r : List ℕ × Buf). left r.1) (λ r. ahead r.1)
        (suc (left s.buf)) (suc (ahead s)) (buf_read s.buf n) _
        (Below-bind {B = List ℕ × Buf} (λ xs. 0) (λ r. left r.1) 1 (suc (left s.buf))
          (load_many s.buf.cells s.buf.head n) _ (load_many-Below s.buf.cells n s.buf.head)
          (λ xs lt. omega arith))
        (λ r lt. lt)

  pub read_uleb128-Below :
      (s : Decoder L) → Below (λ (r : ℕ × Decoder L). ahead r.1) (suc (ahead s)) (read_uleb128 L s)
  read_uleb128-Below s =
      Below-bind {B = ℕ × Decoder L} (λ (r : ℕ × Buf). left r.1) (λ r. ahead r.1) (suc (left s.buf))
        (suc (ahead s)) (buf_read_uleb128 s.buf) _ (uleb-Below s.buf) (λ r lt. lt)

  pub resolve_hook-Ends : (heap : Lua.Heap L) (hook : Value) → Ends (resolve_hook L heap hook)
  unfolding resolve_hook find_decoder
  resolve_hook-Ends heap hook = ground arith
