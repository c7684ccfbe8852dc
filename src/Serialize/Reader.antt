-- ===== src/Serialize/Reader.antt =====
-- The decoder reads the format: on a printed item it does what the item stands for.
use rava.Base.{ℕ, suc, ◌+◌, ◌^◌, ◌≤◌, ◌<◌, ◌≡◌, refl, List, ◌∷◌, ◌++◌, length}
use rava.Outcome.{Outcome, ok, raised, fault, aborted, stuck, ◌>>=◌}
use rava.Buffer.{Cell}
use rava.Buffer.Uleb.{uleb128}
use rava.Buffer.Reading.{Reads, get-Ahead, read-Ahead, read_uleb128-Ahead}
use rava.Lua.{Value, Lua}
use rava.Serialize.Decode.{
  Decoder, get, read, read_uleb128, decode_value, decode_table, decode_body,
}
use rava.Serialize.Format.{
  Item, Entries, print, print_entries, IsSendable, AreSendable, rounds, rounds_entries,
}
use rava.Serialize.Build.{World, build, build_entries}

module _ (L : Lua) (size : ℕ) (cells : List Cell) where
  open L use {Heap}

  -- The decoder at offset `n` of the data.
  abbrev pub at : ℕ → World L → Decoder L
  at n w = record {
    buf = record { size = size; head = n; cells = cells };
    seen = w.seen;
    heap = w.heap;
  }

  abbrev pub stop : ℕ → Value × World L → Outcome (Value × Decoder L)
  stop n (v, w) = ok (v, at n w)

  abbrev pub stop_table : ℕ → World L → Outcome (Decoder L)
  stop_table n w = ok (at n w)

  module _ (n : ℕ) (w : World L) where
    pub get-at :
        (x : ℕ) (bs : List ℕ) → Reads cells n (x ∷ bs) → get L (at n w) ≡ ok (x, at (n + 1) w)
    get-at x bs r = rw (get-Ahead (record { size = size; head = n; cells = cells }) x bs r)

    pub read-at :
        (len : ℕ) (xs bs : List ℕ)
        → length xs ≡ len
        → Reads cells n (xs ++ bs)
        → read L len (at n w) ≡ ok (xs, at (n + length xs) w)
    read-at len xs bs e r =
        rw (← e, read-Ahead (record { size = size; head = n; cells = cells }) xs bs r)

    pub uleb-at :
        (v : ℕ) (bs : List ℕ)
        → v < 2 ^ 32
        → Reads cells n (uleb128 v ++ bs)
        → read_uleb128 L (at n w) ≡ ok (v, at (n + length (uleb128 v)) w)
    uleb-at v bs h r =
        rw (read_uleb128-Ahead (record { size = size; head = n; cells = cells }) v bs h r)

  -- A step that keeps to the format, followed by the rest.
  pub follow {ℓ κ} :
      {C : Type ℓ} {D : Type κ} (n : ℕ) (r : Outcome (Value × World L))
      {d : Outcome (Value × Decoder L)} (F : Value × Decoder L → Outcome D)
      (G : Value × World L → Outcome C) (H : C → Outcome D)
      → d ≡ (r >>= stop n)
      → ((v : Value) (w : World L) → F (v, at n w) ≡ (G (v, w) >>= H))
      → (d >>= F) ≡ ((r >>= G) >>= H)
  follow n (ok (v, w)) F G H e k = rw e (k v w)
  follow n (raised x) F G H e k = rw e
  follow n fault F G H e k = rw e
  follow n aborted F G H e k = rw e
  follow n stuck F G H e k = rw e

  pub follow_table {ℓ κ} :
      {C : Type ℓ} {D : Type κ} (n : ℕ) (r : Outcome (World L)) {d : Outcome (Decoder L)}
      (F : Decoder L → Outcome D) (G : World L → Outcome C) (H : C → Outcome D)
      → d ≡ (r >>= stop_table n)
      → ((w : World L) → F (at n w) ≡ (G w >>= H))
      → (d >>= F) ≡ ((r >>= G) >>= H)
  follow_table n (ok w) F G H e k = rw e (k w)
  follow_table n (raised x) F G H e k = rw e
  follow_table n fault F G H e k = rw e
  follow_table n aborted F G H e k = rw e
  follow_table n stuck F G H e k = rw e

  pub same {ℓ κ μ} :
      {A : Type ℓ} {C : Type κ} {D : Type μ} (r : Outcome A) (F : A → Outcome D) (G : A → Outcome C)
      (H : C → Outcome D)
      → ((a : A) → F a ≡ (G a >>= H))
      → (r >>= F) ≡ ((r >>= G) >>= H)
  same (ok a) F G H k = k a
  same (raised x) F G H k = refl
  same fault F G H k = refl
  same aborted F G H k = refl
  same stuck F G H k = refl

  -- The decoder does on this item what the item stands for, and moves on behind it.
  abbrev pub Follows : Item → Type 0
  Follows i =
      (fuel n : ℕ) (w : World L) (rest : List ℕ)
      → IsSendable i
      → rounds i ≤ fuel
      → Reads cells n (print i ++ rest)
      → decode_value L fuel (at n w) ≡ (build L i w >>= stop (n + length (print i)))

  abbrev pub FollowsEntries : Entries → Type 0
  FollowsEntries es =
      (fuel n t : ℕ) (w : World L) (rest : List ℕ)
      → AreSendable es
      → rounds_entries es ≤ fuel
      → Reads cells n (print_entries es ++ rest)
      → decode_table L fuel t (at n w)
        ≡ (build_entries L es t w >>= stop_table (n + length (print_entries es)))

  pub decode_opens :
      (fuel n x : ℕ) (w : World L) (bs : List ℕ) {r : Outcome (Value × Decoder L)}
      → Reads cells n (x ∷ bs)
      → decode_body L (decode_value L fuel) (decode_table L fuel) x (at (n + 1) w) ≡ r
      → decode_value L (suc fuel) (at n w) ≡ r
  unfolding decode_value
  decode_opens fuel n x w bs r e = rw (get-at n w x bs r) e
