-- ===== src/Serialize/Plain.antt =====
-- Heaps of plain data for the serializer of src/rava_core_serialize.c: finitely many tables without
-- hooks, whose keys and values are nil, booleans, numbers, pointers, strings and those tables.
use rava.Base.{
  ℕ, zero, suc, ◌+◌, ◌^◌, ◌≤◌, ◌<◌, ◌≡◌, refl, sym, ap, ◌∙◌, arith, inl, inr, Bool-cases, List, [],
  ◌∷◌, ◌++◌, Option, none, some, length, ◌==◌, ==_refl,
}
use rava.Outcome.{ok}
use rava.Lua.{Value, nil, boolean, lightuserdata, number, str, table, Lua}
use rava.Serialize.Format.{Item, Entries, table_ref, table_val, end, entry}
use rava.Serialize.Refs.{ref_of-found, ref_of-last}
use rava.Serialize.{ref_of}

-- Data that holds only tables below `n`.
abbrev pub IsPlain : ℕ → Value → Type 0
IsPlain n nil = Unit {0}
IsPlain n (boolean b) = Unit {0}
IsPlain n (lightuserdata p) = length p ≡ 8
IsPlain n (number x) = length x ≡ 8
IsPlain n (str x) = length x < 2 ^ 32
IsPlain n (table t) = t < n
IsPlain n _ = ⊥

abbrev pub NotNil : Value → Type 0
NotNil nil = ⊥
NotNil _ = Unit {0}

-- The bytes that a value takes, at most, the contents of a table left aside.
abbrev pub shallow : Value → ℕ
shallow nil = 1
shallow (boolean b) = 2
shallow (lightuserdata p) = 9
shallow (number x) = 9
shallow (str x) = 6 + length x
shallow _ = 7

-- The same for the contents of a table.
unfoldable pub content : List (Value × Value) → ℕ
content [] = 2
content ((k, v) ∷ es) = shallow k + shallow v + content es

abbrev pub shallow_all : List Value → ℕ
shallow_all [] = 0
shallow_all (v ∷ vs) = shallow v + shallow_all vs

abbrev pub AllPlain : ℕ → List Value → Type 0
AllPlain n [] = Unit {0}
AllPlain n (v ∷ vs) = IsPlain n v × AllPlain n vs

abbrev pub IsLeaf : Value → Type 0
IsLeaf nil = Unit {0}
IsLeaf (boolean b) = Unit {0}
IsLeaf (lightuserdata p) = Unit {0}
IsLeaf (number x) = Unit {0}
IsLeaf (str x) = Unit {0}
IsLeaf _ = ⊥

abbrev pub leaf_item : Value → Item
leaf_item (boolean b) = Item.boolean b
leaf_item (lightuserdata p) = Item.lightuserdata p
leaf_item (number x) = Item.number x
leaf_item (str x) = Item.str x
leaf_item _ = Item.nil

pub shallow_pos : (v : Value) → 0 < shallow v
shallow_pos nil = omega arith
shallow_pos (boolean b) = omega arith
shallow_pos _ = omega arith

-- A table that has a number costs nothing more.
abbrev cost : Option ℕ → ℕ → ℕ
cost none c = c
cost (some ref) c = 0

-- Tables below `n` with their entries, in the order in which lua_next finds them.
module _ (entries : ℕ → List (Value × Value)) where
  -- The bytes that the contents of the tables take that have no number yet.
  unfoldable pub unseen : ℕ → List Value → ℕ
  unseen zero seen = 0
  unseen (suc t) seen = cost (ref_of seen (table t)) (content (entries t)) + unseen t seen

  cost_falls :
      (seen : List Value) (v : Value) (t : ℕ) (c : ℕ)
      → cost (ref_of (seen ++ v ∷ []) (table t)) c ≤ cost (ref_of seen (table t)) c
  cost_falls seen v t c = split (ref_of seen (table t)) refl
    where
      split :
          (o : Option ℕ)
          → ref_of seen (table t) ≡ o
          → cost (ref_of (seen ++ v ∷ []) (table t)) c ≤ cost o c
      split (some ref) e = rw (ref_of-found seen (v ∷ []) (table t) ref e) (omega arith)
      split none e = within (ref_of (seen ++ v ∷ []) (table t))
        where
          within : (o : Option ℕ) → cost o c ≤ c
          within none = omega arith
          within (some ref) = omega arith

  unseen_falls : (n : ℕ) (seen : List Value) (v : Value) → unseen n (seen ++ v ∷ []) ≤ unseen n seen
  unfolding unseen
  unseen_falls zero seen v = omega arith
  unseen_falls (suc t) seen v =
      omega (arith, cost_falls seen v t (content (entries t)), unseen_falls t seen v)

  cost_gone :
      (seen : List Value) (t c : ℕ)
      → ref_of seen (table t) ≡ none
      → cost (ref_of (seen ++ table t ∷ []) (table t)) c + c ≤ cost (ref_of seen (table t)) c
  cost_gone seen t c e = rw (ref_of-last seen (table t) (table t) e, e, ==_refl t) (omega arith)

  -- A table that gets its number takes its contents off what is left.
  pub unseen-number :
      (n : ℕ) (seen : List Value) (t : ℕ)
      → t < n
      → ref_of seen (table t) ≡ none
      → unseen n (seen ++ table t ∷ []) + content (entries t) ≤ unseen n seen
  unfolding unseen
  unseen-number zero seen t lt e = absurd (omega (arith, lt))
  unseen-number (suc m) seen t lt e = elim (Bool-cases (t == m)) [
    | inl same ↦
        let eq : t ≡ m = ground arith in
        let gone =
          cost_gone seen m (content (entries m)) (sym (ap (λ u. ref_of seen (table u)) eq) ∙ e) in
        let at_m = ap (λ (u : ℕ). unseen m (seen ++ table u ∷ []) + content (entries u)) eq in
        let cost_m =
          ap (λ (u : ℕ). cost (ref_of (seen ++ table u ∷ []) (table m)) (content (entries m))) eq in
        omega (
          arith,
          gone,
          at_m,
          cost_m,
          ap (λ (u : ℕ). content (entries u)) eq,
          unseen_falls m seen (table m),
        )
    | inr other ↦
        let below : t < m = ground arith in
        omega
          (arith, cost_falls seen (table t) m (content (entries m)), unseen-number m seen t below e)
  ]

  -- What is sent for a value, without rounds: the item, and the objects that have numbers behind it.
  mutual
    pub data Sends : Value → List Value → Item → List Value → Type 0 where
      leaf : (v : Value) (seen : List Value) → IsLeaf v → Sends v seen (leaf_item v) seen
      known :
          (t ref : ℕ) (seen : List Value)
          → ref_of seen (table t) ≡ some ref
          → Sends (table t) seen (table_ref ref) seen
      fresh :
          (t : ℕ) (seen after : List Value) (is : Entries)
          → ref_of seen (table t) ≡ none
          → SendsEntries (entries t) (seen ++ table t ∷ []) is after
          → Sends (table t) seen (table_val is) after

    pub data SendsEntries : List (Value × Value) → List Value → Entries → List Value → Type 0 where
      done : (seen : List Value) → SendsEntries [] seen end seen
      pair :
          (k v : Value) (es : List (Value × Value)) (s₀ s₁ s₂ s₃ : List Value) (i j : Item)
          (is : Entries)
          → Sends k s₀ i s₁
          → Sends v s₁ j s₂
          → SendsEntries es s₂ is s₃
          → SendsEntries ((k, v) ∷ es) s₀ (entry i j is) s₃

  pub data SendsAll : List Value → List Value → List Item → List Value → Type 0 where
    none_left : (seen : List Value) → SendsAll [] seen [] seen
    one_more :
        (v : Value) (vs s₀ s₁ s₂ : List Value) (i : Item) (is : List Item)
        → Sends v s₀ i s₁
        → SendsAll vs s₁ is s₂
        → SendsAll (v ∷ vs) s₀ (i ∷ is) s₂

  abbrev pub PlainEntries : ℕ → List (Value × Value) → Type 0
  PlainEntries n [] = Unit {0}
  PlainEntries n ((k, v) ∷ es) = NotNil k × IsPlain n k × IsPlain n v × PlainEntries n es

  module _ (L : Lua) (heap : Lua.Heap L) where
    -- lua_next goes through these entries behind `key`.
    abbrev pub Walks : ℕ → Value → List (Value × Value) → Type 0
    Walks t key [] = L.next heap t key ≡ ok none
    Walks t key ((k, v) ∷ es) = (L.next heap t key ≡ ok (some (k, v))) × Walks t k es

    pub record PlainHeap (n : ℕ) : Type 0 where
      pub walks : (t : ℕ) → t < n → Walks t nil (entries t)
      pub unhooked : (t : ℕ) → t < n → L.serializer heap (table t) ≡ none
      pub plain : (t : ℕ) → t < n → PlainEntries n (entries t)
