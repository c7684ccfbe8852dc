-- ===== src/Examples/Copies.antt =====
-- Concrete runs of the serializer on a structure with a cycle.
use rava.Base.{
  ℕ, zero, suc, ◌+◌, ◌≤◌, ◌<◌, ◌≡◌, ◌≢◌, refl, ap, arith, ◌⊎◌, inl, inr, Bool, true, false, ◌&&◌,
  List, [], ◌∷◌, Option, none, some, length, ◌==◌, ==_refl, if◌then◌else◌,
}
use rava.Outcome.{Outcome, ok, ◌>>=◌}
use rava.Lua.{Value, Lua}
use rava.Serialize.{ref_of, ref_from, serialize_encode}
use rava.Serialize.Decode.{serialize_decode}
use rava.Serialize.Format.{Item}
use rava.Serialize.RoundTrip.{message, AllSendable}
use rava.Serialize.Plain.{PlainEntries, PlainHeap, Walks, content, unseen, shallow_all, SendsAll}
use rava.Serialize.Total.{serialize_encode-Returns}
use rava.Serialize.Copies.{Tables}
use rava.Serialize.Copying.{GoodKeys}
use rava.Serialize.Isomorphic.{CopiesOf, serialize_decode-copies}

-- A heap is the number of its tables and what they hold; keys are booleans and tables.
abbrev Store : Type 0
Store = ℕ × (ℕ → Value → Value)

abbrev same_value : Value → Value → Bool
same_value (Value.boolean true) (Value.boolean true) = true
same_value (Value.boolean false) (Value.boolean false) = true
same_value (Value.table s) (Value.table t) = s == t
same_value _ _ = false

abbrev IsKey : Value → Type 0
IsKey (Value.boolean b) = Unit {0}
IsKey (Value.table t) = Unit {0}
IsKey _ = ⊥

abbrev present : Value → Bool
present Value.nil = false
present v = true

abbrev candidates : List Value
candidates = Value.boolean true ∷ Value.boolean false ∷ Value.table 0 ∷ []

abbrev first_present : (Value → Value) → List Value → Option (Value × Value)
first_present m [] = none
first_present m (k ∷ ks) =
    let rest = first_present m ks in if present (m k) then some (k, m k) else rest

abbrev behind_key : Value → List Value → List Value
behind_key key [] = []
behind_key key (k ∷ ks) = let rest = behind_key key ks in if same_value key k then ks else rest

abbrev next_key : Store → ℕ → Value → Outcome (Option (Value × Value))
next_key (n, m) t Value.nil = ok (first_present (m t) candidates)
next_key (n, m) t key = ok (first_present (m t) (behind_key key candidates))

abbrev put_key : Store → ℕ → Value → Value → Store
put_key (n, m) t k v = (n, λ u c. if (u == t) && same_value c k then v else m u c)

abbrev add_table : Store → Store
add_table (n, m) = (suc n, λ u c. if u == n then Value.nil else m u c)

abbrev storing : Lua
storing = record {
  Heap = Store;
  next = next_key;
  serializer = λ h v. none;
  call_two = λ h f v. ok (Value.nil, Value.nil, h);
  call_one = λ h f v. ok (Value.nil, h);
  is_lua = λ h g. false;
  nups = λ h g. 0;
  dump = λ h g. [];
  load_buffer = λ h code. none;
  get_upvalue = λ h g k. Value.nil;
  set_upvalue = λ h g k v. h;
  new_table = λ h. (h.0, add_table h);
  set_table = λ h t k v. ok (put_key h t k v);
  raw_set_i = λ h t k v. h;
  raw_get_i = λ h t k. Value.nil;
  obj_len = λ h t. 0;
  registry = λ h v. Value.nil;
  globals = λ h v. Value.nil;
}

same_value_refl : (k : Value) → IsKey k → same_value k k ≡ true
same_value_refl (Value.boolean true) key = refl
same_value_refl (Value.boolean false) key = refl
same_value_refl (Value.table t) key = ==_refl t
same_value_refl Value.nil key = elim key [ ]
same_value_refl (Value.lightuserdata p) key = elim key [ ]
same_value_refl (Value.number n) key = elim key [ ]
same_value_refl (Value.str x) key = elim key [ ]
same_value_refl (Value.function g) key = elim key [ ]
same_value_refl (Value.userdata u) key = elim key [ ]
same_value_refl (Value.thread t) key = elim key [ ]

same_value→eq : (c k : Value) → same_value c k ≡ true → c ≡ k
same_value→eq (Value.boolean true) (Value.boolean true) e = refl
same_value→eq (Value.boolean false) (Value.boolean false) e = refl
same_value→eq (Value.table s) (Value.table t) e = let p : s ≡ t = ground arith in ap Value.table p
same_value→eq _ _ e = cc

stored : (h : Store) (t : ℕ) (k v : Value) → IsKey k → (put_key h t k v).1 t k ≡ v
stored h t k v key = rw (==_refl t, same_value_refl k key) refl

others :
    (h : Store) (t u : ℕ) (k v c : Value) → (u ≢ t) ⊎ (c ≢ k) → (put_key h t k v).1 u c ≡ h.1 u c
others h t u k v c ne = split (u == t) (same_value c k) refl refl ne
  where
    split :
        (a b : Bool)
        → (u == t) ≡ a
        → same_value c k ≡ b
        → (u ≢ t) ⊎ (c ≢ k)
        → (if a && b then v else h.1 u c) ≡ h.1 u c
    split false b e e' d = refl
    split true false e e' d = refl
    split true true e e' (inl d) = absurd (d (ground arith))
    split true true e e' (inr d) = absurd (d (same_value→eq c k e'))

new_get : (h : Store) (t : ℕ) (k : Value) → t < h.0 → (add_table h).1 t k ≡ h.1 t k
new_get (n, m) t k lt = let e : (t == n) ≡ false = ground arith in rw e refl

abbrev stores : Tables storing
stores = record {
  Alive = λ h t. t < h.0;
  IsKey = IsKey;
  get = λ h t k. h.1 t k;
  table_key = λ t. tt;
  new_alive = λ h. omega arith;
  new_other = λ h t lt. omega (arith, lt);
  new_keeps = λ h t lt. omega (arith, lt);
  new_get = new_get;
  new_empty = λ h k. rw (==_refl h.0) refl;
  stores = λ h t k v alive key.
      (put_key h t k v, refl, stored h t k v key, λ u lt. lt, λ u c key' ne. others h t u k v c ne);
}

-- Table 0 holds table 1 and itself; table 1 holds "hi" under the key table 0.
abbrev ring : ℕ → Value → Value
ring zero (Value.boolean true) = Value.table 1
ring zero (Value.boolean false) = Value.table 0
ring (suc zero) (Value.table zero) = Value.str (104 ∷ 105 ∷ [])
ring t k = Value.nil

abbrev ring_entries : ℕ → List (Value × Value)
ring_entries zero = (Value.boolean true, Value.table 1) ∷ (Value.boolean false, Value.table 0) ∷ []
ring_entries (suc zero) = (Value.table 0, Value.str (104 ∷ 105 ∷ [])) ∷ []
ring_entries t = []

ring-Walks : (t : ℕ) → t < 2 → Walks ring_entries storing (2, ring) t Value.nil (ring_entries t)
ring-Walks zero lt = (refl, (refl, refl))
ring-Walks (suc zero) lt = (refl, refl)
ring-Walks (suc (suc t)) lt = absurd (omega arith)

ring-plain : (t : ℕ) → t < 2 → PlainEntries ring_entries 2 (ring_entries t)
ring-plain zero lt = (tt, tt, omega arith, (tt, tt, omega arith, tt))
ring-plain (suc zero) lt = (tt, omega arith, omega arith, tt)
ring-plain (suc (suc t)) lt = absurd (omega arith)

ring-GoodKeys : (t : ℕ) → GoodKeys storing stores ring_entries (ring_entries t)
ring-GoodKeys zero = (tt, different, (tt, (λ z. z), tt))
  where
    different : (Value.boolean false ≡ Value.boolean true) ⊎ ⊥ → ⊥
    different (inl e) = cc
    different (inr z) = z
ring-GoodKeys (suc zero) = (tt, (λ z. z), tt)
ring-GoodKeys (suc (suc t)) = tt

ring-PlainHeap : PlainHeap ring_entries storing (2, ring) 2
ring-PlainHeap = record { walks = ring-Walks; unhooked = λ t lt. refl; plain = ring-plain }

ring-size : shallow_all (Value.table 0 ∷ []) + unseen ring_entries 2 [] ≡ 44
unfolding unseen content ref_of ref_from
ring-size = refl

abbrev Returned : ℕ → Type 0
Returned fuel =
    (is : List Item) × (after : List Value) × SendsAll ring_entries (Value.table 0 ∷ []) [] is after
    × (serialize_encode storing fuel (Value.table 0 ∷ []) (2, ring) ≡ ok (message is, (2, ring)))
    × (length (message is) ≤ 5 + (shallow_all (Value.table 0 ∷ []) + unseen ring_entries 2 []))
    × AllSendable is

serialize_encode-Returns_example : Returned 60
serialize_encode-Returns_example =
    serialize_encode-Returns storing (2, ring) 2 ring_entries ring-PlainHeap 60 (Value.table 0 ∷ [])
      (omega arith, tt) (omega (arith, ring-size)) (omega (arith, ring-size))

serialize_decode-copies_example :
    (cs : List Value) × (after : Store) × ((serialize_encode storing 60
          (Value.table 0 ∷ [])
          (2, ring)
        >>= λ (bytes, sent). serialize_decode storing 120 bytes (9, ring))
      ≡ ok (cs, after))
    × CopiesOf storing stores ring_entries (Value.table 0 ∷ []) (9, ring) cs after
serialize_decode-copies_example =
    serialize_decode-copies storing stores ring_entries (2, ring) (9, ring) 2 60 120
      (Value.table 0 ∷ []) ring-PlainHeap ring-GoodKeys (omega arith, tt) (omega (arith, ring-size))
      (omega (arith, ring-size)) (omega (arith, ring-size))
