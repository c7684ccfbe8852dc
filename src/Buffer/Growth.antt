-- ===== src/Buffer/Growth.antt =====
-- `ravaL_buf_need`: the doubling loop ends, and the room asked for is there afterwards.
use rava.Base.{
  ℕ, zero, suc, ◌+◌, ◌-◌, ◌*◌, ◌%◌, ◌^◌, ◌≤◌, ◌<◌, ◌≡◌, refl, ap, ◌∙◌, arith, inl, inr, List, [],
  ◌∷◌, none, some, map, length, length-append, length-replicate, replicate, take, take-append_le,
  ltb, Bool-cases, ◌==◌, ltb→lt, ltb-false→le,
}
use rava.Outcome.{ok}
use rava.Buffer.{Buf, Cell, size_mod, grow, grow_fuel, ensure_base, enlarge, buf_need}
use native.Mathlib.Nat.{pow-suc}

-- What the buffer holds: `head` bytes at the start of an allocation of `size` cells.
pub record Holds (b : Buf) (bs : List ℕ) : Type 0 where
  pub fits : length b.cells ≡ b.size
  pub ends : b.head ≡ length bs
  pub filled : take b.head b.cells ≡ map some bs
  pub within : length bs ≤ b.size

-- The largest content for which the sizes are computed without wrapping.
abbrev pub size_limit : ℕ
size_limit = 2 ^ 62

grow_done : (fuel size need : ℕ) → need ≤ size → grow (suc fuel) size need ≡ ok size
unfolding grow
grow_done fuel size need h = ground arith

grow_more :
    (fuel size need : ℕ)
    → size < need
    → need ≤ 2 ^ 63
    → grow (suc fuel) size need ≡ grow fuel (size * 2) need
unfolding grow
grow_more fuel size need h small = elim (Bool-cases (ltb size need)) [
  | inl more ↦ rw more (ap (λ (s : ℕ). grow fuel s need) (omega arith))
  | inr done ↦ absurd (omega (arith, ltb-false→le _ _ done))
]

-- The loop started on a positive size ends with a size at least as large as before and as needed.
pub grow-reaches :
    (fuel size need : ℕ)
    → need ≤ 2 ^ 63
    → need ≤ size * 2 ^ fuel
    → (r : ℕ) × (grow (suc fuel) size need ≡ ok r) × (need ≤ r) × (size ≤ r)
grow-reaches zero size need small reach =
    (size, grow_done zero size need (omega arith), omega arith, omega arith)
grow-reaches (suc fuel) size need small reach = elim (Bool-cases (ltb size need)) [
  | inr done ↦
      let h = ltb-false→le _ _ done in (size, grow_done (suc fuel) size need h, h, omega arith)
  | inl more ↦
      let (r, eq, h, k) = grow-reaches fuel (size * 2) need small (omega (arith, doubled)) in
      (r, grow_more (suc fuel) size need (ltb→lt _ _ more) small ∙ eq, h, omega arith)
]
  where
    doubled : size * 2 ^ suc fuel ≡ size * 2 * 2 ^ fuel
    doubled = omega (arith, ap (λ (t : ℕ). size * t) (pow-suc 2 fuel))

fresh-Holds : (n : ℕ) → Holds (record { size = n; head = 0; cells = replicate n none }) []
fresh-Holds n = record {
  fits = length-replicate n none;
  ends = refl;
  filled = refl;
  within = omega arith;
}

nothing_held : (b : Buf) (bs : List ℕ) → Holds b bs → b.size ≡ 0 → bs ≡ []
nothing_held b [] h e = refl
nothing_held b (x ∷ xs) h e = absurd (omega (arith, h.within))

ensure_base-Holds :
    (b : Buf) (bs : List ℕ) → Holds b bs → Holds (ensure_base b) bs × (0 < (ensure_base b).size)
unfolding ensure_base
ensure_base-Holds b bs h = elim (Bool-cases (b.size == 0)) [
  | inl e ↦ rw e (rw (nothing_held b bs h (ground arith)) (fresh-Holds 128), omega arith)
  | inr e ↦ rw e (h, ground arith)
]

enlarge-Holds :
    (b : Buf) (bs : List ℕ) (n : ℕ)
    → Holds b bs
    → b.size ≤ n
    → Holds (enlarge b n) bs × ((enlarge b n).size ≡ n)
unfolding enlarge
enlarge-Holds b bs n h le = elim (Bool-cases (ltb b.size n)) [
  | inl more ↦ rw more (
    record {
      fits =
          length-append b.cells (replicate (n - b.size) none)
          ∙ omega (arith, h.fits, length-replicate {A = Cell} (n - b.size) none);
      ends = h.ends;
      filled =
          take-append_le b.cells (replicate (n - b.size) none) b.head
            (omega (arith, h.fits, h.ends, h.within))
          ∙ h.filled;
      within = omega (arith, h.within);
    },
    refl,
  )
  | inr same ↦ rw same (h, omega (arith, ltb-false→le _ _ same))
]

need_grown :
    (b : Buf) (n need : ℕ) {r : ℕ}
    → ((ensure_base b).head + n) % size_mod ≡ need
    → grow grow_fuel (ensure_base b).size need ≡ ok r
    → buf_need b n ≡ ok (enlarge (ensure_base b) r)
unfolding buf_need
need_grown b n need e eq = rw (e, eq)

-- After `ravaL_buf_need` there is room for `n` more bytes, and the content is as it was.
pub need-Holds :
    (b : Buf) (bs : List ℕ) (n : ℕ)
    → Holds b bs
    → length bs + n ≤ 2 ^ 63
    → (b' : Buf) × (buf_need b n ≡ ok b') × Holds b' bs × (length bs + n ≤ b'.size)
need-Holds b bs n h small =
    let (h₁, pos) = ensure_base-Holds b bs h in
    let (r, eq, big, up) =
      grow-reaches 63 (ensure_base b).size (length bs + n) small (omega (arith, pos)) in
    let (h₂, size) = enlarge-Holds (ensure_base b) bs r h₁ up in
    (
      enlarge (ensure_base b) r,
      need_grown b n (length bs + n) (omega (arith, h₁.ends)) eq,
      h₂,
      omega (arith, size),
    )
