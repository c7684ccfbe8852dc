-- ===== src/Buffer.antt =====
-- src/rava_core_serialize.c and src/rava.h, the byte buffer: `rava_buf_t` and `ravaL_buf_*`.
--
-- The allocation that `base` points to is a list of cells, one for each byte; a cell is `none`
-- until the code writes it. `head` is the offset of the pointer `head` from `base`; a NULL `base` is
-- an empty list of cells. An access outside the cells, and a read of a cell that was not written, is
-- `fault`. malloc and realloc succeed: the code does not look at their result.
pub mod Growth
pub mod Content
pub mod Uleb
pub mod Reading
use rava.Base.{
  ℕ, zero, suc, ◌+◌, ◌-◌, ◌*◌, ◌/◌, ◌%◌, ◌^◌, bit_and, bit_or, List, [], ◌∷◌, ◌++◌, Option, none,
  some, Bool, ltb, leb, ◌==◌, if◌then◌else◌, length, get_elem?, set, replicate,
}
use rava.Outcome.{Outcome, ok, fault, stuck, ◌>>=◌}

abbrev pub Cell : Type 0
Cell = Option ℕ

pub record Buf : Type 0 where
  pub size : ℕ
  pub head : ℕ
  pub cells : List Cell

abbrev pub size_mod : ℕ
size_mod = 2 ^ 64

abbrev pub uint32_mod : ℕ
uint32_mod = 2 ^ 32

-- `rava_buf_t b; b.base = NULL; b.head = NULL; b.size = 0;`
abbrev pub null_buf : Buf
null_buf = record { size = 0; head = 0; cells = [] }

default_size : ℕ → ℕ
default_size size = if size == 0 then 128 else size

unfoldable pub buf_new : ℕ → Buf
unfolding default_size
buf_new size = record {
  size = default_size size;
  head = 0;
  cells = replicate (default_size size) none;
}

unfoldable pub buf_close : Buf → Buf
buf_close b = null_buf

-- `while (size < need) size *= 2;`, `size` a size_t.
unfoldable pub grow : ℕ → ℕ → ℕ → Outcome ℕ
grow zero size need = stuck
grow (suc fuel) size need =
    let more = grow fuel (size * 2 % size_mod) need in if ltb size need then more else ok size

-- A size_t doubles at most 63 times before it wraps to 0.
abbrev pub grow_fuel : ℕ
grow_fuel = 64

-- The first allocation of a NULL buffer.
unfoldable pub ensure_base : Buf → Buf
ensure_base b =
    if b.size == 0 then record { size = 128; head = 0; cells = replicate 128 none } else b

-- realloc keeps the old cells; the new ones are not written yet.
unfoldable pub enlarge : Buf → ℕ → Buf
enlarge b size =
    if ltb b.size size
    then record b { size = size; cells = b.cells ++ replicate (size - b.size) none }
    else b

unfoldable pub buf_need : Buf → ℕ → Outcome Buf
buf_need b len =
    let b₁ = ensure_base b in
    grow grow_fuel b₁.size ((b₁.head + len) % size_mod) >>= λ size. ok (enlarge b₁ size)

-- `cells[off] = val;` through a pointer.
unfoldable pub store : List Cell → ℕ → ℕ → Outcome (List Cell)
store cells off val = if ltb off (length cells) then ok (set cells off (some val)) else fault

-- memcpy to `cells + off`.
unfoldable pub copy : List Cell → ℕ → List ℕ → Outcome (List Cell)
copy cells off [] = ok cells
copy cells off (x ∷ xs) = store cells off x >>= λ cells'. copy cells' (suc off) xs

-- The data goes to `base`, but `head` moves on from where it stood.
unfoldable pub buf_init : Buf → List ℕ → Outcome Buf
buf_init b xs = do
  b₁ ← buf_need b (length xs)
  cells ← copy b₁.cells 0 xs
  ok (record b₁ { cells = cells; head = b₁.head + length xs })

unfoldable pub buf_put : Buf → ℕ → Outcome Buf
buf_put b val = do
  b₁ ← buf_need b 1
  cells ← store b₁.cells b₁.head (val % 256)
  ok (record b₁ { cells = cells; head = b₁.head + 1 })

unfoldable pub buf_write : Buf → List ℕ → Outcome Buf
buf_write b xs = do
  b₁ ← buf_need b (length xs)
  cells ← copy b₁.cells b₁.head xs
  ok (record b₁ { cells = cells; head = b₁.head + length xs })

-- The loop of `ravaL_buf_write_uleb128`: `off` is `p + n`. The result has the final `p + n`.
unfoldable pub put_groups : ℕ → List Cell → ℕ → ℕ → Outcome (List Cell × ℕ)
put_groups zero cells off val = stuck
put_groups (suc fuel) cells off val =
    let more = store cells off (bit_or (bit_and val 0x7f) 0x80 % 256) >>= λ cells'.
    put_groups fuel cells' (suc off) (val / 2 ^ 7) in
    let last = store cells off (val % 256) >>= λ cells'. ok (cells', suc off) in
    if leb 0x80 val then more else last

unfoldable pub buf_write_uleb128 : Buf → ℕ → Outcome Buf
buf_write_uleb128 b val = do
  b₁ ← buf_need b 5
  (cells, head) ← put_groups 5 b₁.cells b₁.head (val % uint32_mod)
  ok (record b₁ { cells = cells; head = head })

-- `*p`, with `p` at an offset from `base`.
abbrev pub load_cell : Option Cell → Outcome ℕ
load_cell none = fault
load_cell (some none) = fault
load_cell (some (some x)) = ok x

unfoldable pub load : List Cell → ℕ → Outcome ℕ
load cells off = load_cell (get_elem? cells off)

unfoldable pub buf_get : Buf → Outcome (ℕ × Buf)
buf_get b = load b.cells b.head >>= λ x. ok (x, record b { head = b.head + 1 })

unfoldable pub buf_peek : Buf → Outcome ℕ
buf_peek b = load b.cells b.head

-- The bytes that the caller reads through the returned pointer.
unfoldable pub load_many : List Cell → ℕ → ℕ → Outcome (List ℕ)
load_many cells off zero = ok []
load_many cells off (suc n) = do x ← load cells off; xs ← load_many cells (suc off) n; ok (x ∷ xs)

unfoldable pub buf_read : Buf → ℕ → Outcome (List ℕ × Buf)
buf_read b len = load_many b.cells b.head len >>= λ xs. ok (xs, record b { head = b.head + len })

-- `do { v |= (*p & 0x7f) << (sh += 7); } while (*p++ >= 0x80);`. A shift of an int by 32 or more
-- is undefined.
unfoldable pub get_groups : ℕ → List Cell → ℕ → ℕ → ℕ → Outcome (ℕ × ℕ)
get_groups zero cells p v sh = stuck
get_groups (suc fuel) cells p v sh = do
  x ← load cells p
  let sh' = sh + 7
  let v' = bit_or v (bit_and x 0x7f * 2 ^ sh' % uint32_mod)
  let more = get_groups fuel cells (suc p) v' sh'
  if leb 32 sh' then fault else (if leb 0x80 x then more else ok (v', suc p))

-- The fifth round stops at the shift.
unfoldable pub buf_read_uleb128 : Buf → Outcome (ℕ × Buf)
buf_read_uleb128 b = do
  x ← load b.cells b.head
  let more = get_groups 5 b.cells (suc b.head) (bit_and x 0x7f) 0 >>= λ (v, p).
      ok (v, record b { head = p })
  if leb 0x80 x then more else ok (x, record b { head = suc b.head })

-- The callback of lua_dump: append, and report success.
unfoldable pub writer : List ℕ → Buf → Outcome (ℕ × Buf)
writer str b = buf_write b str >>= λ b'. ok (0, b')
