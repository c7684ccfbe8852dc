-- ===== src/Spawn/Arrays.antt =====
-- src/rava_process_spawn.c: where the writes to the array of arguments go.
use rava.Base.{
  ℕ, suc, ◌+◌, ◌≤◌, ◌<◌, ◌≡◌, refl, sym, ap, ◌∙◌, arith, List, [], ◌∷◌, ◌++◌, Option, none, some,
  length, set, take, map, replicate, lt→ltb, le→ltb-false, append-nil, map-append, length-set,
  length-replicate, take-set, take_all, append_assoc,
}
use rava.Outcome.{ok, fault, ◌>>=◌}
use rava.Lua.{Value}
use rava.Spawn.{Text, Slot, put_at, fill_args, read_args}

-- The first `i` cells hold `xs`.
pub record Filled (cells : List Slot) (i : ℕ) (xs : List (Option Text)) : Type 0 where
  pub content : take i cells ≡ map some xs

pub put_at-Filled :
    (cells : List Slot) (i : ℕ) (x : Option Text) (xs : List (Option Text))
    → i < length cells
    → Filled cells i xs
    → (put_at cells i x ≡ ok (set cells i (some x)))
      × Filled (set cells i (some x)) (suc i) (xs ++ x ∷ [])
      × (length (set cells i (some x)) ≡ length cells)
unfolding put_at
put_at-Filled cells i x xs h f = (
  rw (lt→ltb i (length cells) h),
  record {
    content =
        take-set cells i (some x) h
        ∙ ap (λ t. t ++ some x ∷ []) f.content
        ∙ sym (map-append some xs (x ∷ []));
  },
  length-set cells i (some x),
)

pub put_at-fault :
    (cells : List Slot) (i : ℕ) (x : Option Text) → length cells ≤ i → put_at cells i x ≡ fault
unfolding put_at
put_at-fault cells i x h = rw (le→ltb-false i (length cells) h)

module _ (to_string : Value → Option Text) (pushf : Option Text → Option Text → Text) where
  fill_args-Filled :
      (vs : List Value) (i : ℕ) (cells : List Slot) (xs : List (Option Text))
      → i + length vs ≤ length cells
      → Filled cells i xs
      → (cells' : List Slot) × (fill_args to_string pushf vs i cells ≡ ok cells')
        × Filled cells' (i + length vs) (xs ++ map to_string vs)
        × (length cells' ≡ length cells)
  unfolding fill_args
  fill_args-Filled [] i cells xs h f = (
    cells,
    refl,
    record {
      content =
          ap (λ n. take n cells) (omega arith) ∙ f.content ∙ ap (map some) (sym (append-nil xs));
    },
    refl,
  )
  fill_args-Filled (v ∷ vs) i cells xs h f =
      let (eq, f₁, len) = put_at-Filled cells i (to_string v) xs (omega arith) f in
      let cells₁ = set cells i (some (to_string v)) in
      let (cells', eq', f', len') =
        fill_args-Filled vs (suc i) cells₁ (xs ++ to_string v ∷ []) (omega (arith, len)) f₁ in
      (
        cells',
        ap (λ r. r >>= fill_args to_string pushf vs (suc i)) eq ∙ eq',
        record {
          content =
              ap (λ n. take n cells') (omega arith)
              ∙ f'.content
              ∙ ap (map some) (append_assoc xs (to_string v ∷ []) (map to_string vs));
        },
        len' ∙ len,
      )

  -- The arguments fit: the array of `argc + 1` cells holds the command and every value of the options
  -- table. But the NULL behind them is written past its end, whatever the options are.
  pub read_args-fill_args :
      (cmd : Text) (vs : List Value)
      → ((cells : List Slot) × ((put_at (replicate (length vs + 1) none) 0 (some cmd)
              >>= fill_args to_string pushf vs 1)
            ≡ ok cells)
          × (cells ≡ map some (some cmd ∷ map to_string vs)))
        × (read_args to_string pushf cmd vs ≡ fault)
  unfolding read_args
  read_args-fill_args cmd vs =
      let fresh = replicate (length vs + 1) none in
      let size = length-replicate {A = Option (Option Text)} (length vs + 1) none in
      let (eq, f, len) =
        put_at-Filled fresh 0 (some cmd) [] (omega (arith, size)) (record { content = refl }) in
      let (cells, eq', f', len') =
        fill_args-Filled vs 1 (set fresh 0 (some (some cmd))) (some cmd ∷ [])
          (omega (arith, len, size)) f in
      let full = ap (λ r. r >>= fill_args to_string pushf vs 1) eq ∙ eq' in
      (
        (
          cells,
          full,
          sym (take_all cells (1 + length vs) (omega (arith, len', len, size))) ∙ f'.content,
        ),
        ap
              (λ r. r >>= λ first.
                fill_args to_string pushf vs 1 first >>= λ c. put_at c (length vs + 1) none)
              eq
            ∙ ap (λ r. r >>= λ c. put_at c (length vs + 1) none) eq'
            ∙ put_at-fault cells (length vs + 1) none (omega (arith, len', len, size)),
      )
