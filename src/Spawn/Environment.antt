-- ===== src/Spawn/Environment.antt =====
-- src/rava_process_spawn.c: the growth of the environment's array, and the NULL behind its entries.
use rava.Base.{
  Bool-cases, ltb→lt, ltb-false→le, ◌≢◌, ℕ, suc, ◌+◌, ◌*◌, ◌^◌, ◌≤◌, ◌<◌, ◌≡◌, refl, sym, ap, ◌∙◌,
  arith, Bool, true, false, List, [], ◌∷◌, ◌++◌, Option, none, some, length, set, take, map,
  replicate, ltb, leb, inl, inr, ◌⊎◌, length-append, length-replicate, take-append_le, append_assoc,
  if◌then◌else◌,
}
use rava.Outcome.{Outcome, ok, fault, ◌>>=◌}
use rava.Lua.{Value}
use rava.Spawn.{Text, Slot, put_at, grow_env, env_entry, fill_env, read_env}
use native.Mathlib.Nat.{pow-suc, pow-le-pow_right}
use rava.Spawn.Arrays.{Filled, put_at-Filled, put_at-fault}

module _ (to_string : Value → Option Text) (pushf : Option Text → Option Text → Text) where
  grow_full :
      (i len : ℕ) (cells : List Slot)
      → len ≤ i
      → len * 2 < 2 ^ 31
      → grow_env i len cells ≡ ok (len * 2, cells ++ replicate len none)
  unfolding grow_env
  grow_full i len cells h small =
      both (leb len i) (ltb (len * 2) (2 ^ 31)) _ _ _ (ground arith) (ground arith)
    where
      both :
          (b c : Bool) (x y z : Outcome (ℕ × List Slot))
          → b ≡ true
          → c ≡ true
          → (if b then (if c then x else y) else z) ≡ x
      both true true x y z p q = refl
      both true false x y z p q = absurd cc
      both false c x y z p q = absurd cc

  -- Behind the test of the loop there is room for one more entry.
  record Room (i k : ℕ) (cells : List Slot) : Type 0 where
    k' : ℕ
    cells' : List Slot
    grown : grow_env i (32 * 2 ^ k) cells ≡ ok (32 * 2 ^ k', cells')
    size : length cells' ≡ 32 * 2 ^ k'
    room : i < 32 * 2 ^ k'
    kept : take i cells' ≡ take i cells
    last : (k' ≡ k) ⊎ ((k' ≡ suc k) × (32 * 2 ^ k ≤ i))

  grow_env-Room :
      (i k : ℕ) (cells : List Slot)
      → length cells ≡ 32 * 2 ^ k
      → i ≤ 32 * 2 ^ k
      → i < 2 ^ 30
      → Room i k cells
  unfolding grow_env
  grow_env-Room i k cells size le small = split (leb (32 * 2 ^ k) i) refl
    where
      double : 32 * 2 ^ suc k ≡ 32 * 2 ^ k * 2
      double = omega (arith, pow-suc 2 k)

      split : (b : Bool) → leb (32 * 2 ^ k) i ≡ b → Room i k cells
      split false e = record {
        k' = k;
        cells' = cells;
        grown = rw e refl;
        size = size;
        room = ground (arith, e);
        kept = refl;
        last = inl refl;
      }
      split true e = record {
        k' = suc k;
        cells' = cells ++ replicate (32 * 2 ^ k) none;
        grown =
            grow_full i (32 * 2 ^ k) cells (ground (arith, e)) (ground (arith, e))
            ∙ ap (λ n. ok (n, cells ++ replicate (32 * 2 ^ k) none)) (sym double);
        size =
            length-append cells (replicate (32 * 2 ^ k) none)
            ∙ omega (arith, size, double, length-replicate {A = Slot} (32 * 2 ^ k) none);
        room = ground (
          arith,
          e,
          double,
          pow-le-pow_right {n = 2} (omega arith) {i = 0} {j = k} (omega arith),
        );
        kept = take-append_le cells (replicate (32 * 2 ^ k) none) i (omega (arith, size));
        last = inr (refl, ground (arith, e));
      }

  -- The entries as the array holds them
  abbrev pub entries : List (Value × Value) → List (Option Text)
  entries [] = []
  entries ((k, v) ∷ es) = some (env_entry to_string pushf k v) ∷ entries es

  length-entries : (es : List (Value × Value)) → length (entries es) ≡ length es
  length-entries [] = refl
  length-entries ((k, v) ∷ es) = ap suc (length-entries es)

  fill_env-next :
      (k v : Value) (es : List (Value × Value)) (i n : ℕ) (cells : List Slot)
      (xs : List (Option Text))
      → (r : Room i n cells) → Filled cells i xs
      → (cells₁ : List Slot) × (fill_env to_string pushf ((k, v) ∷ es) i (32 * 2 ^ n) cells
          ≡ fill_env to_string pushf es (suc i) (32 * 2 ^ r.k') cells₁)
        × Filled cells₁ (suc i) (xs ++ some (env_entry to_string pushf k v) ∷ [])
        × (length cells₁ ≡ 32 * 2 ^ r.k')
  unfolding fill_env
  fill_env-next k v es i n cells xs r f =
      let x = some (env_entry to_string pushf k v) in
      let (eq, f', len) =
        put_at-Filled r.cells' i x xs (omega (arith, r.room, r.size))
          (record { content = r.kept ∙ f.content }) in
      (
        set r.cells' i (some x),
        ap
              (λ m. m >>= λ (len', cells').
                put_at cells' i x >>= fill_env to_string pushf es (suc i) len')
              r.grown
            ∙ ap (λ m. m >>= fill_env to_string pushf es (suc i) (32 * 2 ^ r.k')) eq,
        f',
        len ∙ r.size,
      )

  -- With as many entries as one of the sizes that the array takes on, the NULL does not fit.
  fill_env-fault :
      (es : List (Value × Value)) (i k j : ℕ) (cells : List Slot) (xs : List (Option Text))
      → length cells ≡ 32 * 2 ^ k
      → i ≤ 32 * 2 ^ k
      → i + length es < 2 ^ 30
      → Filled cells i xs
      → k ≤ j
      → i + length es ≡ 32 * 2 ^ j
      → fill_env to_string pushf es i (32 * 2 ^ k) cells ≡ fault
  fill_env-fault [] i k j cells xs size le small f up total =
      let grows = pow-le-pow_right {n = 2} (omega arith) {i = k} {j = j} up in
      unfold fill_env in put_at-fault cells i none (omega (arith, grows))
  fill_env-fault ((a, b) ∷ es) i k j cells xs size le small f up total =
      let r = grow_env-Room i k cells size le (omega arith) in
      let (cells₁, eq, f₁, len) = fill_env-next a b es i k cells xs r f in
      eq
      ∙ fill_env-fault es (suc i) r.k' j cells₁ _ len (omega (arith, r.room)) (omega arith) f₁
          (higher r.last) (omega arith)
    where
      higher : {m : ℕ} → (m ≡ k) ⊎ ((m ≡ suc k) × (32 * 2 ^ k ≤ i)) → m ≤ j
      higher (inl e) = omega (arith, e)
      higher (inr (e, h)) = elim (Bool-cases (ltb k j)) [
        | inl lt ↦ omega (arith, e, ltb→lt k j lt)
        | inr ge ↦
            let grows =
              pow-le-pow_right {n = 2} (omega arith) {i = j} {j = k} (ltb-false→le k j ge) in
            absurd (omega (arith, grows, h))
      ]

  -- With any other number of entries the array holds them, and NULL behind them.
  fill_env-Filled :
      (es : List (Value × Value)) (i k : ℕ) (cells : List Slot) (xs : List (Option Text))
      → length cells ≡ 32 * 2 ^ k
      → i ≤ 32 * 2 ^ k
      → i + length es < 2 ^ 30
      → Filled cells i xs
      → ((j : ℕ) → i + length es ≢ 32 * 2 ^ j)
      → (cells' : List Slot) × (fill_env to_string pushf es i (32 * 2 ^ k) cells ≡ ok cells')
        × Filled cells' (suc (i + length es)) (xs ++ (entries es ++ none ∷ []))
  fill_env-Filled [] i k cells xs size le small f other =
      let apart = other k in
      let here : suc (i + length {A = Value × Value} []) ≡ suc i = omega arith in
      let (eq, f', len) = put_at-Filled cells i none xs (omega (arith, apart, size)) f in
      (
        set cells i (some none),
        unfold fill_env in eq,
        record { content = ap (λ n. take n (set cells i (some none))) here ∙ f'.content },
      )
  fill_env-Filled ((a, b) ∷ es) i k cells xs size le small f other =
      let r = grow_env-Room i k cells size le (omega arith) in
      let x = some (env_entry to_string pushf a b) in
      let (cells₁, eq, f₁, len) = fill_env-next a b es i k cells xs r f in
      let (cells', eq', f') =
        fill_env-Filled es (suc i) r.k' cells₁ (xs ++ x ∷ []) len (omega (arith, r.room))
          (omega arith) f₁ (λ j p. other j (omega (arith, p))) in
      let next : suc (i + suc (length es)) ≡ suc (suc i + length es) = omega arith in
      (
        cells',
        eq ∙ eq',
        record {
          content =
              ap (λ n. take n cells') next
              ∙ f'.content
              ∙ ap (map some) (append_assoc xs (x ∷ []) (entries es ++ none ∷ []));
        },
      )

  fresh-Filled : Filled (replicate 32 none) 0 []
  fresh-Filled = record { content = refl }

  -- The environment of the child (fewer than 2^30 entries): the array holds each entry, in order, with NULL behind
  -- them, unless the number of entries is 32 times a power of 2: then, and only then, NULL is
  -- written past the end of the array.
  pub read_env-bounds :
      (es : List (Value × Value))
      → length es < 2 ^ 30
      → ((j : ℕ) → length es ≡ 32 * 2 ^ j → read_env to_string pushf es ≡ fault)
        × (((j : ℕ) → length es ≢ 32 * 2 ^ j)
            → (cells : List Slot) × (read_env to_string pushf es ≡ ok cells)
              × (take (suc (length es)) cells ≡ map some (entries es ++ none ∷ [])))
  unfolding read_env
  read_env-bounds es small = (
    (λ j e.
        fill_env-fault es 0 0 j (replicate 32 none) [] (length-replicate {A = Slot} 32 none)
          (omega arith) (omega arith) fresh-Filled (omega arith) (omega (arith, e))),
    (λ other.
        let (cells, eq, f) =
          fill_env-Filled es 0 0 (replicate 32 none) [] (length-replicate {A = Slot} 32 none)
            (omega arith) (omega arith) fresh-Filled (λ j p. other j (omega (arith, p))) in
        let all : suc (length es) ≡ suc (0 + length es) = omega arith in
        (cells, eq, ap (λ n. take n cells) all ∙ f.content)),
  )
