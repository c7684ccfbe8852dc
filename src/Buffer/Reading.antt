-- ===== src/Buffer/Reading.antt =====
-- The reading operations, at a place where the bytes to read are known.
use rava.Base.{
  ℕ, zero, suc, ◌+◌, ◌*◌, ◌/◌, ◌%◌, ◌^◌, ◌≤◌, ◌<◌, bit_and, ◌≡◌, refl, sym, ap, ◌∙◌, arith, inl,
  inr, true, false, Bool-cases, List, [], ◌∷◌, ◌++◌, some, map, length, ltb, leb, ltb→lt,
  ltb-false→le, drop, drop-get_elem?, take-append-drop,
}
use rava.Base.Bits.{and_low_seven, or_shifted}
use rava.Outcome.{ok}
use rava.Buffer.{
  Buf, Cell, uint32_mod, load, load_many, get_groups, buf_get, buf_peek, buf_read, buf_read_uleb128,
}
use rava.Buffer.Growth.{Holds}
use rava.Buffer.Uleb.{groups, uleb128, groups-small, groups-large}
use native.Mathlib.Nat.{pow-suc, add-zero, div-add-mod}
use native.Mathlib.Numerals.{towards_suc}
use mathlib.Core.Path.{ap₂}

-- From `off` on the cells hold these bytes, and whatever `tail` says behind them.
pub record Reads (cells : List Cell) (off : ℕ) (bs : List ℕ) : Type 0 where
  pub tail : List Cell
  pub ahead : drop off cells ≡ map some bs ++ tail

-- The buffer moved on by `n` bytes.
abbrev pub advance : Buf → ℕ → Buf
advance b n = record b { head = b.head + n }

module _ (cells : List Cell) where
  pub Reads-step :
      (off x : ℕ) (bs : List ℕ)
      → Reads cells off (x ∷ bs)
      → (load cells off ≡ ok x) × Reads cells (suc off) bs
  unfolding load
  Reads-step off x bs r =
      let (e, d) = drop-get_elem? cells off r.ahead in (rw e, record { tail = r.tail; ahead = d })

  pub Reads-skip :
      (off : ℕ) (xs bs : List ℕ) → Reads cells off (xs ++ bs) → Reads cells (off + length xs) bs
  Reads-skip off [] bs r = record { tail = r.tail; ahead = rw add-zero r.ahead }
  Reads-skip off (x ∷ xs) bs r =
      let rest = Reads-skip (suc off) xs bs (Reads-step off x (xs ++ bs) r).1 in
      record { tail = rest.tail; ahead = ap (λ (k : ℕ). drop k cells) (omega arith) ∙ rest.ahead }

  many_step :
      (off n x : ℕ) (xs : List ℕ)
      → load cells off ≡ ok x
      → load_many cells (suc off) n ≡ ok xs
      → load_many cells off (suc n) ≡ ok (x ∷ xs)
  unfolding load_many
  many_step off n x xs e e' = rw (e, e')

  pub load_many-Reads :
      (off : ℕ) (xs bs : List ℕ)
      → Reads cells off (xs ++ bs)
      → load_many cells off (length xs) ≡ ok xs
  load_many-Reads off [] bs r = unfold load_many in refl
  load_many-Reads off (x ∷ xs) bs r =
      let (e, r') = Reads-step off x (xs ++ bs) r in
      many_step off (length xs) x xs e (load_many-Reads (suc off) xs bs r')

  get_last :
      (fuel p v sh w : ℕ)
      → load cells p ≡ ok w
      → w < 128
      → sh + 7 < 32
      → v < 2 ^ (sh + 7)
      → w * 2 ^ (sh + 7) < 2 ^ 32
      → get_groups (suc fuel) cells p v sh ≡ ok (v + w * 2 ^ (sh + 7), suc p)
  unfolding get_groups
  get_last fuel p v sh w e h hs hv fits =
      let test : leb 32 (sh + 7) ≡ false = ground arith in
      let end : leb 0x80 w ≡ false = ground arith in
      let low : bit_and w 0x7f ≡ w = omega (arith, and_low_seven w) in
      let word : w * 2 ^ (sh + 7) % uint32_mod ≡ w * 2 ^ (sh + 7) = omega arith in
      rw (e, test, end, low, word, or_shifted (sh + 7) v w hv)

  get_inner :
      (fuel p v sh g : ℕ)
      → load cells p ≡ ok (g + 128)
      → g < 128
      → sh + 7 < 32
      → v < 2 ^ (sh + 7)
      → g * 2 ^ (sh + 7) < 2 ^ 32
      → get_groups (suc fuel) cells p v sh
        ≡ get_groups fuel cells (suc p) (v + g * 2 ^ (sh + 7)) (sh + 7)
  unfolding get_groups
  get_inner fuel p v sh g e h hs hv fits =
      let test : leb 32 (sh + 7) ≡ false = ground arith in
      let end : leb 0x80 (g + 128) ≡ true = ground arith in
      let low : bit_and (g + 128) 0x7f ≡ g = omega (arith, and_low_seven (g + 128)) in
      let word : g * 2 ^ (sh + 7) % uint32_mod ≡ g * 2 ^ (sh + 7) = omega arith in
      rw (e, test, end, low, word, or_shifted (sh + 7) v g hv)

  seven_more : (s : ℕ) → 2 ^ (s + 7) ≡ 128 * 2 ^ s
  seven_more s = simp towards_suc (omega arith)

  -- The lowest group of `w` weighs `low`, the others `high`.
  weigh_groups : (w low high : ℕ) → high ≡ 128 * low → w * low ≡ w % 128 * low + w / 128 * high
  weigh_groups w low high e =
      let parts = ap (λ (x : ℕ). x * low) (div-add-mod w 128) in
      let rest = ap (λ (y : ℕ). w / 128 * y) e in omega (arith, rest, parts)

  -- `w` is what is still to be read, and it counts from bit `sh + 7` on.
  get_groups-Reads :
      (k m p v sh w : ℕ) (bs : List ℕ)
      → w < 128 ^ suc k
      → sh + 7 * suc k ≤ 28
      → v < 2 ^ (sh + 7)
      → v + w * 2 ^ (sh + 7) < 2 ^ 32
      → Reads cells p (groups k w ++ bs)
      → get_groups (suc k + m) cells p v sh ≡ ok (v + w * 2 ^ (sh + 7), p + length (groups k w))
  get_groups-Reads zero m p v sh w bs hw hs hv fits r = rw (groups-small 0 w (omega arith)) (
      let one : 1 + m ≡ suc m = omega arith in
      rw one (
        get_last m p v sh w (Reads-step p w bs (rw (groups-small 0 w (omega arith)) at r)).0
          (omega arith) (omega arith) hv (omega arith)
        ∙ ap (λ (t : ℕ). ok (v + w * 2 ^ (sh + 7), t)) (omega arith)))
  get_groups-Reads (suc k) m p v sh w bs hw hs hv fits r = elim (Bool-cases (ltb w 128)) [
    | inl last ↦
        let h = ltb→lt w 128 last in
        let one : suc (suc k) + m ≡ suc (suc k + m) = omega arith in
        rw (groups-small (suc k) w h, one)
          (get_last (suc k + m) p v sh w (Reads-step p w bs (rw (groups-small (suc k) w h) at r)).0
              h (omega arith) hv (omega arith)
            ∙ ap (λ (t : ℕ). ok (v + w * 2 ^ (sh + 7), t)) (omega arith))
    | inr more ↦
        let h = ltb-false→le w 128 more in
        let one : suc (suc k) + m ≡ suc (suc k + m) = omega arith in
        let g = w % 128 in
        let sum = weigh_groups w (2 ^ (sh + 7)) (2 ^ (sh + 7 + 7)) (seven_more (sh + 7)) in
        let (e, r') =
          Reads-step p (g + 128) (groups k (w / 128) ++ bs) (rw (groups-large k w h) at r) in
        rw (groups-large k w h, one)
          (get_inner (suc k + m) p v sh g e (omega arith) (omega arith) hv (omega arith)
            ∙ get_groups-Reads k m (suc p) (v + g * 2 ^ (sh + 7)) (sh + 7) (w / 128) bs
                (omega (arith, pow-suc 128 (suc k))) (omega arith)
                (grind (arith, seven_more (sh + 7))) (omega arith) r'
            ∙ ap₂ (λ (s t : ℕ). ok (s, t)) (omega arith) (omega arith))
  ]

-- The bytes still to be read from a buffer.
abbrev pub Ahead : Buf → List ℕ → Type 0
Ahead b bs = Reads b.cells b.head bs

module _ (b : Buf) where
  pub Ahead-advance : (xs bs : List ℕ) → Ahead b (xs ++ bs) → Ahead (advance b (length xs)) bs
  Ahead-advance xs bs r = Reads-skip b.cells b.head xs bs r

  pub get-Ahead : (x : ℕ) (bs : List ℕ) → Ahead b (x ∷ bs) → buf_get b ≡ ok (x, advance b 1)
  unfolding buf_get
  get-Ahead x bs r = rw ((Reads-step b.cells b.head x bs r).0)

  pub peek-Ahead : (x : ℕ) (bs : List ℕ) → Ahead b (x ∷ bs) → buf_peek b ≡ ok x
  unfolding buf_peek
  peek-Ahead x bs r = (Reads-step b.cells b.head x bs r).0

  -- `ravaL_buf_read` hands out the bytes ahead.
  pub read-Ahead :
      (xs bs : List ℕ)
      → Ahead b (xs ++ bs)
      → buf_read b (length xs) ≡ ok (xs, advance b (length xs))
  unfolding buf_read
  read-Ahead xs bs r = rw (load_many-Reads b.cells b.head xs bs r)

  uleb_one :
      (v : ℕ) → load b.cells b.head ≡ ok v → v < 128 → buf_read_uleb128 b ≡ ok (v, advance b 1)
  unfolding buf_read_uleb128
  uleb_one v e h =
      let test : leb 0x80 v ≡ false = ground arith in
      rw (e, test) (ap (λ (t : ℕ). ok (v, record b { head = t })) (omega arith))

  uleb_more :
      (g v p : ℕ)
      → load b.cells b.head ≡ ok (g + 128)
      → g < 128
      → get_groups 5 b.cells (suc b.head) g 0 ≡ ok (v, p)
      → buf_read_uleb128 b ≡ ok (v, record b { head = p })
  unfolding buf_read_uleb128
  uleb_more g v p e h rest =
      let test : leb 0x80 (g + 128) ≡ true = ground arith in
      let low : bit_and (g + 128) 0x7f ≡ g = omega (arith, and_low_seven (g + 128)) in
      rw (e, test, low, rest)

  -- `ravaL_buf_read_uleb128` gives back the uint32 whose groups are ahead.
  pub read_uleb128-Ahead :
      (v : ℕ) (bs : List ℕ)
      → v < 2 ^ 32
      → Ahead b (uleb128 v ++ bs)
      → buf_read_uleb128 b ≡ ok (v, advance b (length (uleb128 v)))
  read_uleb128-Ahead v bs small r = elim (Bool-cases (ltb v 128)) [
    | inl last ↦
        let h = ltb→lt v 128 last in
        rw (groups-small 4 v h)
          (uleb_one v (Reads-step b.cells b.head v bs (rw (groups-small 4 v h) at r)).0 h)
    | inr more ↦
        let h = ltb-false→le v 128 more in
        let g = v % 128 in
        let (e, r') =
          Reads-step b.cells b.head (g + 128) (groups 3 (v / 128) ++ bs)
            (rw (groups-large 3 v h) at r) in
        let rest =
          get_groups-Reads b.cells 3 1 (suc b.head) g 0 (v / 128) bs (omega arith) (omega arith)
            (omega arith) (omega arith) r' in
        rw (groups-large 3 v h) (
          uleb_more g (g + v / 128 * 2 ^ 7) _ e (omega arith) rest
          ∙ ap₂ (λ (s t : ℕ). ok (s, record b { head = t })) (omega arith) (omega arith))
  ]

-- What a buffer holds lies ahead once `head` is set back to the start.
pub Holds-Ahead : (b : Buf) (bs : List ℕ) → Holds b bs → Ahead (record b { head = 0 }) bs
Holds-Ahead b bs h = record {
  tail = drop b.head b.cells;
  ahead = sym (take-append-drop b.head b.cells) ∙ ap (λ t. t ++ drop b.head b.cells) h.filled;
}
