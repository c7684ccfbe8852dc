-- ===== src/Buffer/Content.antt =====
-- The buffer as a sequence of bytes: each writing operation appends, whatever the allocation does.
use rava.Base.{
  ℕ, suc, ◌+◌, ◌%◌, ◌^◌, ◌≤◌, ◌<◌, ◌≡◌, refl, sym, ap, ◌∙◌, subst₃, arith, List, [], ◌∷◌, ◌++◌,
  some, map, length, length-append, length-set, take, take-set, set, lt→ltb, append_assoc,
  map-append, append-nil,
}
use rava.Outcome.{Outcome, ok}
use rava.Buffer.{Buf, Cell, null_buf, store, copy, buf_need, buf_put, buf_write, buf_init}
use rava.Buffer.Growth.{Holds, need-Holds}

pub null-Holds : Holds null_buf []
null-Holds = record { fits = refl; ends = refl; filled = refl; within = omega arith }

-- The cells from the start up to `off` are these bytes, and `n` cells more are there.
pub record Written (cells : List Cell) (off n : ℕ) (bs : List ℕ) : Type 0 where
  pub room : off + n ≤ length cells
  pub prefix : take off cells ≡ map some bs

pub store-Written :
    (cells : List Cell) (off n x : ℕ) (bs : List ℕ)
    → Written cells off (suc n) bs
    → (store cells off x ≡ ok (set cells off (some x)))
      × Written (set cells off (some x)) (suc off) n (bs ++ x ∷ [])
unfolding store
store-Written cells off n x bs w = (
  rw (lt→ltb off (length cells) (omega (arith, w.room))),
  record {
    room = omega (arith, w.room, length-set cells off (some x));
    prefix =
        take-set cells off (some x) (omega (arith, w.room))
        ∙ ap (λ t. t ++ some x ∷ []) w.prefix
        ∙ sym (map-append some bs (x ∷ []));
  },
)

pub Written-cong :
    {off off' n n' : ℕ} {bs bs' : List ℕ} (cells : List Cell)
    → Written cells off n bs
    → off ≡ off'
    → n ≡ n'
    → bs ≡ bs'
    → Written cells off' n' bs'
Written-cong cells w e₁ e₂ e₃ = subst₃ (Written cells) e₁ e₂ e₃ w

store_then :
    (cells : List Cell) (off x : ℕ) (xs : List ℕ) {cells' : List Cell} {r : Outcome (List Cell)}
    → store cells off x ≡ ok cells'
    → copy cells' (suc off) xs ≡ r
    → copy cells off (x ∷ xs) ≡ r
unfolding copy
store_then cells off x xs e e' = rw e e'

-- memcpy into the room behind what was written appends the data.
pub copy-Written :
    (cells : List Cell) (off n : ℕ) (bs xs : List ℕ)
    → Written cells off (length xs + n) bs
    → (cells' : List Cell) × (copy cells off xs ≡ ok cells')
      × Written cells' (off + length xs) n (bs ++ xs)
      × (length cells' ≡ length cells)
copy-Written cells off n bs [] w = (
  cells,
  unfold copy in refl,
  Written-cong cells w (omega arith) (omega arith) (sym (append-nil bs)),
  refl,
)
copy-Written cells off n bs (x ∷ xs) w =
    let (eq, w₁) =
      store-Written cells off (length xs + n) x bs (Written-cong cells w refl (omega arith) refl) in
    let (cells', eq', w₂, len) =
      copy-Written (set cells off (some x)) (suc off) n (bs ++ x ∷ []) xs w₁ in
    (
      cells',
      store_then cells off x xs eq eq',
      Written-cong cells' w₂ (omega arith) refl (append_assoc bs (x ∷ []) xs),
      len ∙ length-set cells off (some x),
    )

pub Holds-Written :
    (b : Buf) (bs : List ℕ) (n : ℕ)
    → Holds b bs
    → length bs + n ≤ b.size
    → Written b.cells b.head n bs
Holds-Written b bs n h room = record { room = omega (arith, h.fits, h.ends); prefix = h.filled }

-- The buffer whose cells were written up to its new head.
pub Written-Holds :
    (b : Buf) (bs ds : List ℕ) (cells : List Cell) (head n : ℕ)
    → Holds b bs
    → length cells ≡ length b.cells
    → head ≡ length ds
    → Written cells head n ds
    → Holds (record b { cells = cells; head = head }) ds
Written-Holds b bs ds cells head n h len e w = record {
  fits = len ∙ h.fits;
  ends = e;
  filled = w.prefix;
  within = omega (arith, w.room, h.fits);
}

write_grown :
    (b : Buf) (xs : List ℕ) {b₁ : Buf} {cells : List Cell}
    → buf_need b (length xs) ≡ ok b₁
    → copy b₁.cells b₁.head xs ≡ ok cells
    → buf_write b xs ≡ ok (record b₁ { cells = cells; head = b₁.head + length xs })
unfolding buf_write
write_grown b xs e e' = rw (e, e')

-- `ravaL_buf_write` appends the data to the content.
pub write-Holds :
    (b : Buf) (bs xs : List ℕ)
    → Holds b bs
    → length bs + length xs ≤ 2 ^ 63
    → (b' : Buf) × (buf_write b xs ≡ ok b') × Holds b' (bs ++ xs)
write-Holds b bs xs h small =
    let (b₁, eq, h₁, room) = need-Holds b bs (length xs) h small in
    let (cells, eq', w, len) =
      copy-Written b₁.cells b₁.head 0 bs xs
        (Holds-Written b₁ bs (length xs + 0) h₁ (omega (arith, room))) in
    (
      record b₁ { cells = cells; head = b₁.head + length xs },
      write_grown b xs eq eq',
      Written-Holds b₁ bs (bs ++ xs) cells (b₁.head + length xs) 0 h₁ len
          (omega (arith, h₁.ends, length-append bs xs)) w,
    )

put_grown :
    (b : Buf) (x : ℕ) {b₁ : Buf} {cells : List Cell}
    → x < 256
    → buf_need b 1 ≡ ok b₁
    → store b₁.cells b₁.head x ≡ ok cells
    → buf_put b x ≡ ok (record b₁ { cells = cells; head = b₁.head + 1 })
unfolding buf_put
put_grown b x h e e' = let byte : x % 256 ≡ x = omega arith in rw (byte, e, e')

-- `ravaL_buf_put` appends one byte.
pub put-Holds :
    (b : Buf) (bs : List ℕ) (x : ℕ)
    → Holds b bs
    → x < 256
    → length bs + 1 ≤ 2 ^ 63
    → (b' : Buf) × (buf_put b x ≡ ok b') × Holds b' (bs ++ x ∷ [])
put-Holds b bs x h byte small =
    let (b₁, eq, h₁, room) = need-Holds b bs 1 h small in
    let (eq', w) = store-Written b₁.cells b₁.head 0 x bs (Holds-Written b₁ bs 1 h₁ room) in
    (
      record b₁ { cells = set b₁.cells b₁.head (some x); head = b₁.head + 1 },
      put_grown b x byte eq eq',
      Written-Holds b₁ bs (bs ++ x ∷ []) _ (b₁.head + 1) 0 h₁ (length-set b₁.cells b₁.head (some x))
          (omega (arith, h₁.ends, length-append bs (x ∷ [])))
          (Written-cong _ w (omega arith) refl refl),
    )

init_grown :
    (b : Buf) (xs : List ℕ) {b₁ : Buf} {cells : List Cell}
    → buf_need b (length xs) ≡ ok b₁
    → copy b₁.cells 0 xs ≡ ok cells
    → buf_init b xs ≡ ok (record b₁ { cells = cells; head = b₁.head + length xs })
unfolding buf_init
init_grown b xs e e' = rw (e, e')

-- `ravaL_buf_init` on a NULL buffer makes the data its content.
pub init-Holds :
    (xs : List ℕ) → length xs ≤ 2 ^ 63 → (b : Buf) × (buf_init null_buf xs ≡ ok b) × Holds b xs
init-Holds xs small =
    let (b₁, eq, h₁, room) = need-Holds null_buf [] (length xs) null-Holds (omega arith) in
    let (cells, eq', w, len) =
      copy-Written b₁.cells 0 0 [] xs
        (record { room = omega (arith, room, h₁.fits); prefix = refl }) in
    (
      record b₁ { cells = cells; head = b₁.head + length xs },
      init_grown null_buf xs eq eq',
      Written-Holds b₁ [] xs cells (b₁.head + length xs) 0 h₁ len (omega (arith, h₁.ends))
          (Written-cong cells w (omega (arith, h₁.ends)) refl refl),
    )
