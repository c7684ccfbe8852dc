-- ===== src/Buffer/Uleb.antt =====
-- `ravaL_buf_write_uleb128`: the number in groups of seven bits, lowest first, the top bit set on
-- every byte but the last.
use rava.Base.{
  ℕ, zero, suc, ◌+◌, ◌/◌, ◌%◌, ◌^◌, ◌≤◌, ◌<◌, bit_and, bit_or, ◌≡◌, refl, ap, ◌∙◌, arith, inl, inr,
  Bool-cases, List, [], ◌∷◌, ◌++◌, some, length, length-append, length-set, set, ltb, ltb→lt,
  ltb-false→le, true, false, leb, if◌then◌else◌, append_assoc,
}
use native.Mathlib.Nat.{pow-suc}
use rava.Base.Bits.{and_low_seven, or_top_bit}
use rava.Outcome.{ok}
use rava.Buffer.{Buf, Cell, uint32_mod, store, put_groups, buf_need, buf_write_uleb128}
use rava.Buffer.Growth.{Holds, need-Holds}
use rava.Buffer.Content.{Written, Written-cong, store-Written, Holds-Written, Written-Holds}

-- The groups of `v`, for `v` below 128 ^ (k + 1).
unfoldable pub groups : ℕ → ℕ → List ℕ
groups zero v = v ∷ []
groups (suc k) v =
    let rest = groups k (v / 128) in if ltb v 128 then v ∷ [] else (v % 128 + 128) ∷ rest

-- Five groups hold a uint32.
abbrev pub uleb128 : ℕ → List ℕ
uleb128 v = groups 4 v

pub groups-small : (k v : ℕ) → v < 128 → groups k v ≡ v ∷ []
unfolding groups
groups-small zero v h = refl
groups-small (suc k) v h = ground arith

pub groups-large : (k v : ℕ) → 128 ≤ v → groups (suc k) v ≡ (v % 128 + 128) ∷ groups k (v / 128)
unfolding groups
groups-large k v h = ground arith

pub length-groups : (k v : ℕ) → length (groups k v) ≤ suc k
unfolding groups
length-groups zero v = omega arith
length-groups (suc k) v = ground (arith, length-groups k (v / 128))

inner_group : (v : ℕ) → bit_or (bit_and v 0x7f) 0x80 % 256 ≡ v % 128 + 128
inner_group v =
    omega
      (arith, ap (λ (t : ℕ). bit_or t 0x80) (and_low_seven v), or_top_bit (v % 128) (omega arith))

put_last :
    (fuel v off : ℕ) (cells : List Cell) {cells' : List Cell}
    → v < 128
    → store cells off v ≡ ok cells'
    → put_groups (suc fuel) cells off v ≡ ok (cells', suc off)
unfolding put_groups
put_last fuel v off cells h e =
    let byte : v % 256 ≡ v = omega arith in
    let test : leb 0x80 v ≡ false = ground arith in rw (test, byte, e)

put_inner :
    (fuel v off : ℕ) (cells : List Cell) {cells' : List Cell}
    → 128 ≤ v
    → store cells off (v % 128 + 128) ≡ ok cells'
    → put_groups (suc fuel) cells off v ≡ put_groups fuel cells' (suc off) (v / 128)
unfolding put_groups
put_inner fuel v off cells h e =
    let test : leb 0x80 v ≡ true = ground arith in rw (test, inner_group v, e)

-- The loop of `ravaL_buf_write_uleb128` ends, and appends `out`.
abbrev PutsGroups : ℕ → List Cell → ℕ → ℕ → List ℕ → List ℕ → Type 0
PutsGroups fuel cells off v bs out =
    (cells' : List Cell) × (put_groups fuel cells off v ≡ ok (cells', off + length out))
    × Written cells' (off + length out) 0 (bs ++ out)
    × (length cells' ≡ length cells)

put_short :
    (k v off : ℕ) (cells : List Cell) (bs : List ℕ)
    → v < 128
    → Written cells off (suc k) bs
    → PutsGroups (suc k) cells off v bs (v ∷ [])
put_short k v off cells bs h w =
    let (eq, w₁) = store-Written cells off k v bs w in
    (
      set cells off (some v),
      put_last k v off cells h eq ∙ ap (λ (t : ℕ). ok (set cells off (some v), t)) (omega arith),
      record {
        room = omega (arith, w₁.room);
        prefix = (Written-cong _ w₁ (omega arith) refl refl).prefix;
      },
      length-set cells off (some v),
    )

put_long :
    (k v off : ℕ) (cells : List Cell) (bs out : List ℕ)
    → 128 ≤ v
    → Written cells off (suc (suc k)) bs
    → PutsGroups
        (suc k)
        (set cells off (some (v % 128 + 128)))
        (suc off)
        (v / 128)
        (bs ++ (v % 128 + 128) ∷ [])
        out
    → PutsGroups (suc (suc k)) cells off v bs ((v % 128 + 128) ∷ out)
put_long k v off cells bs out h w (cells', eq', w', len) =
    let x = v % 128 + 128 in
    let (eq, w₁) = store-Written cells off (suc k) x bs w in
    (
      cells',
      put_inner (suc k) v off cells h eq ∙ eq' ∙ ap (λ (t : ℕ). ok (cells', t)) (omega arith),
      Written-cong cells' w' (omega arith) refl (append_assoc bs (x ∷ []) out),
      len ∙ length-set cells off (some x),
    )

-- The loop writes exactly the groups, into room that was there for five bytes.
put_groups-Written :
    (k v off : ℕ) (cells : List Cell) (bs : List ℕ)
    → v < 128 ^ suc k
    → Written cells off (suc k) bs
    → PutsGroups (suc k) cells off v bs (groups k v)
put_groups-Written zero v off cells bs small w =
    rw (groups-small 0 v (omega arith)) (put_short 0 v off cells bs (omega arith) w)
put_groups-Written (suc k) v off cells bs small w = elim (Bool-cases (ltb v 128)) [
  | inl last ↦
      let h = ltb→lt v 128 last in
      rw (groups-small (suc k) v h) (put_short (suc k) v off cells bs h w)
  | inr more ↦
      let h = ltb-false→le v 128 more in
      rw (groups-large k v h) (
        put_long k v off cells bs (groups k (v / 128)) h w (
          put_groups-Written k (v / 128) (suc off) _ _ (omega (arith, pow-suc 128 (suc k)))
            (store-Written cells off (suc k) (v % 128 + 128) bs w).1))
]

uleb_grown :
    (b : Buf) (v : ℕ) {b₁ : Buf} {cells : List Cell} {head : ℕ}
    → v < uint32_mod
    → buf_need b 5 ≡ ok b₁
    → put_groups 5 b₁.cells b₁.head v ≡ ok (cells, head)
    → buf_write_uleb128 b v ≡ ok (record b₁ { cells = cells; head = head })
unfolding buf_write_uleb128
uleb_grown b v h e e' = let word : v % uint32_mod ≡ v = omega arith in rw (word, e, e')

-- `ravaL_buf_write_uleb128` appends the groups of a uint32, one to five bytes.
pub write_uleb128-Holds :
    (b : Buf) (bs : List ℕ) (v : ℕ)
    → Holds b bs
    → v < 2 ^ 32
    → length bs + 5 ≤ 2 ^ 63
    → (b' : Buf) × (buf_write_uleb128 b v ≡ ok b') × Holds b' (bs ++ uleb128 v)
write_uleb128-Holds b bs v h small room =
    let (b₁, eq, h₁, fits) = need-Holds b bs 5 h room in
    let (cells, eq', w, len) =
      put_groups-Written 4 v b₁.head b₁.cells bs (omega arith) (Holds-Written b₁ bs 5 h₁ fits) in
    (
      record b₁ { cells = cells; head = b₁.head + length (uleb128 v) },
      uleb_grown b v small eq eq',
      Written-Holds b₁ bs (bs ++ uleb128 v) cells (b₁.head + length (uleb128 v)) 0 h₁ len
          (omega (arith, h₁.ends, length-append bs (uleb128 v))) w,
    )
