-- ===== src/Serialize/Copies.antt =====
-- What it means that a heap holds copies of the tables of another heap, and how a run of the decoder
-- of src/rava_core_serialize.c keeps what was copied before.
use rava.Base.{ℕ, ◌≡◌, ◌≢◌, sym, ◌∙◌, subst, ◌⊎◌, inl, inr, List, [], ◌∷◌, ◌++◌, none}
use rava.Outcome.{ok}
use rava.Lua.{Value, nil, table, Lua}
use rava.Serialize.{ref_of}
use rava.Serialize.Links.{
  Links, Linked, sources, ref_of-unlinked, Linked-inv, Copy, Copy-extend, Extends, KeyCopy,
  KeyCopy-extend,
}

-- What the reader relies on of the tables of its own state: lua_newtable makes an empty table that
-- was not there, and lua_settable stores under a key and changes nothing else. `IsKey` says of a key
-- that it is neither nil nor a NaN, and no second image of another number.
pub record Tables (L : Lua) : Type 1 where
  pub Alive : Lua.Heap L → ℕ → Type 0
  pub IsKey : Value → Type 0
  pub get : Lua.Heap L → ℕ → Value → Value
  pub table_key : (t : ℕ) → IsKey (table t)
  pub new_alive : (heap : Lua.Heap L) → Alive (L.new_table heap).1 (L.new_table heap).0
  pub new_other : (heap : Lua.Heap L) (t : ℕ) → Alive heap t → t ≢ (L.new_table heap).0
  pub new_keeps : (heap : Lua.Heap L) (t : ℕ) → Alive heap t → Alive (L.new_table heap).1 t
  pub new_get :
      (heap : Lua.Heap L) (t : ℕ) (k : Value)
      → Alive heap t
      → get (L.new_table heap).1 t k ≡ get heap t k
  pub new_empty :
      (heap : Lua.Heap L) (k : Value) → get (L.new_table heap).1 (L.new_table heap).0 k ≡ nil
  pub stores :
      (heap : Lua.Heap L) (t : ℕ) (k v : Value)
      → Alive heap t
      → IsKey k
      → (after : Lua.Heap L) × (L.set_table heap t k v ≡ ok after)
        × (get after t k ≡ v)
        × ((u : ℕ) → Alive heap u → Alive after u)
        × ((u : ℕ) (c : Value) → IsKey c → (u ≢ t) ⊎ (c ≢ k) → get after u c ≡ get heap u c)

module _ (L : Lua) (T : Tables L) where
  open T use {Alive, IsKey, get}

  -- Each entry has its copy in table `u`.
  abbrev pub EntriesCopied : Links → Lua.Heap L → ℕ → List (Value × Value) → Type 0
  EntriesCopied ls heap u [] = Unit {0}
  EntriesCopied ls heap u ((k, v) ∷ es) =
      ((c : Value) × IsKey c × Copy ls k c × Copy ls v (get heap u c)) × EntriesCopied ls heap u es

  -- Table `u` holds the copies of these entries and, under other keys, nothing.
  pub record TableCopied (ls : Links) (heap : Lua.Heap L) (u : ℕ) (es : List (Value × Value))
      : Type 0 where
    pub held : EntriesCopied ls heap u es
    pub only : (c : Value) → IsKey c → (KeyCopy ls es c → ⊥) → get heap u c ≡ nil

  -- Links are one to one, and lead to tables that are there.
  pub record Sound (ls : Links) (heap : Lua.Heap L) : Type 0 where
    pub one_copy : (t u u' : ℕ) → Linked ls t u → Linked ls t u' → u ≡ u'
    pub one_source : (t t' u : ℕ) → Linked ls t u → Linked ls t' u → t ≡ t'
    pub alive : (t u : ℕ) → Linked ls t u → Alive heap u

  pub EntriesCopied-keep :
      (ls ms : Links) (heap heap' : Lua.Heap L) (u : ℕ) (es : List (Value × Value))
      → Extends ls ms
      → ((c : Value) → IsKey c → get heap' u c ≡ get heap u c)
      → EntriesCopied ls heap u es
      → EntriesCopied ms heap' u es
  EntriesCopied-keep ls ms heap heap' u [] ext keep h = tt
  EntriesCopied-keep ls ms heap heap' u ((k, v) ∷ es) ext keep ((c, key, p, q), h) = (
    (
      c,
      key,
      Copy-extend ls ms k c ext p,
      Copy-extend ls ms v _ ext (subst (Copy ls v) (sym (keep c key)) q),
    ),
    EntriesCopied-keep ls ms heap heap' u es ext keep h,
  )

  TableCopied-keep :
      (ls ms : Links) (heap heap' : Lua.Heap L) (u : ℕ) (es : List (Value × Value))
      → Extends ls ms
      → ((c : Value) → IsKey c → get heap' u c ≡ get heap u c)
      → TableCopied ls heap u es
      → TableCopied ms heap' u es
  TableCopied-keep ls ms heap heap' u es ext keep h = record {
    held = EntriesCopied-keep ls ms heap heap' u es ext keep h.held;
    only = λ c key fresh. keep c key ∙ h.only c key (λ m. fresh (KeyCopy-extend ls ms es c ext m));
  }

  -- A new pair, of a table that had no number and a table that was not there.
  pub Sound-link :
      (ls : Links) (heap heap' : Lua.Heap L) (t u : ℕ)
      → Sound ls heap
      → ref_of (sources ls) (table t) ≡ none
      → ((w : ℕ) → Alive heap w → w ≢ u)
      → ((w : ℕ) → Alive heap w → Alive heap' w)
      → Alive heap' u
      → Sound (ls ++ (t, u) ∷ []) heap'
  Sound-link ls heap heap' t u s e other keeps new = record {
    one_copy = λ a b b' l l'. one_copy a b b' (Linked-inv ls t u a b l) (Linked-inv ls t u a b' l');
    one_source =
        λ a a' b l l'. one_source a a' b (Linked-inv ls t u a b l) (Linked-inv ls t u a' b l');
    alive = λ a b l. alive a b (Linked-inv ls t u a b l);
  }
    where
      one_copy :
          (a b b' : ℕ)
          → Linked ls a b ⊎ ((a ≡ t) × (b ≡ u))
          → Linked ls a b' ⊎ ((a ≡ t) × (b' ≡ u))
          → b ≡ b'
      one_copy a b b' (inl l) (inl l') = s.one_copy a b b' l l'
      one_copy a b b' (inl l) (inr (p, q)) =
          absurd (ref_of-unlinked ls t b e (subst (λ k. Linked ls k b) p l))
      one_copy a b b' (inr (p, q)) (inl l') =
          absurd (ref_of-unlinked ls t b' e (subst (λ k. Linked ls k b') p l'))
      one_copy a b b' (inr (p, q)) (inr (p', q')) = q ∙ sym q'

      one_source :
          (a a' b : ℕ)
          → Linked ls a b ⊎ ((a ≡ t) × (b ≡ u))
          → Linked ls a' b ⊎ ((a' ≡ t) × (b ≡ u))
          → a ≡ a'
      one_source a a' b (inl l) (inl l') = s.one_source a a' b l l'
      one_source a a' b (inl l) (inr (p, q)) = absurd (other b (s.alive a b l) q)
      one_source a a' b (inr (p, q)) (inl l') = absurd (other b (s.alive a' b l') q)
      one_source a a' b (inr (p, q)) (inr (p', q')) = p ∙ sym p'

      alive : (a b : ℕ) → Linked ls a b ⊎ ((a ≡ t) × (b ≡ u)) → Alive heap' b
      alive a b (inl l) = keeps b (s.alive a b l)
      alive a b (inr (p, q)) = subst (Alive heap') (sym q) new

  module _ (entries : ℕ → List (Value × Value)) where
    -- What a run does to the links and the heap: tables that are not `open` stay as they are, and the
    -- tables that it links are copied whole.
    pub record Step (IsOpen : ℕ → Type 0) (ls : Links) (heap : Lua.Heap L) (ms : Links)
        (after : Lua.Heap L) : Type 0 where
      pub extends : Extends ls ms
      pub keeps : (u : ℕ) → Alive heap u → Alive after u
      pub frame :
          (u : ℕ) (c : Value)
          → Alive heap u
          → (IsOpen u → ⊥)
          → IsKey c
          → get after u c ≡ get heap u c
      pub copied : (t u : ℕ) → Linked ms t u → Linked ls t u ⊎ TableCopied ms after u (entries t)
      pub sound : Sound ms after

    module _ (IsOpen : ℕ → Type 0) (is_open : (u : ℕ) → IsOpen u ⊎ (IsOpen u → ⊥))
        (ls ms ns : Links) (h₀ h₁ h₂ : Lua.Heap L) where
      -- An open table was linked before.
      pub Step-then :
          ((t u : ℕ) → IsOpen u → Linked ms t u → Linked ls t u)
          → Step IsOpen ls h₀ ms h₁
          → Step IsOpen ms h₁ ns h₂
          → Step IsOpen ls h₀ ns h₂
      Step-then owned a b = record {
        extends = λ t u l. b.extends t u (a.extends t u l);
        keeps = λ u alive. b.keeps u (a.keeps u alive);
        frame = λ u c alive shut key.
            b.frame u c (a.keeps u alive) shut key ∙ a.frame u c alive shut key;
        copied = λ t u l. copied t u (b.copied t u l);
        sound = b.sound;
      }
        where
          kept :
              (t u : ℕ)
              → Linked ms t u
              → TableCopied ms h₁ u (entries t)
              → IsOpen u ⊎ (IsOpen u → ⊥)
              → Linked ls t u ⊎ TableCopied ns h₂ u (entries t)
          kept t u l c (inl is) = inl (owned t u is l)
          kept t u l c (inr shut) = inr (
              TableCopied-keep ms ns h₁ h₂ u (entries t) b.extends
                (λ k key. b.frame u k (a.sound.alive t u l) shut key) c)

          copied_before :
              (t u : ℕ)
              → Linked ms t u
              → Linked ls t u ⊎ TableCopied ms h₁ u (entries t)
              → Linked ls t u ⊎ TableCopied ns h₂ u (entries t)
          copied_before t u l (inl m) = inl m
          copied_before t u l (inr c) = kept t u l c (is_open u)

          copied :
              (t u : ℕ)
              → Linked ms t u ⊎ TableCopied ns h₂ u (entries t)
              → Linked ls t u ⊎ TableCopied ns h₂ u (entries t)
          copied t u (inl l) = copied_before t u l (a.copied t u l)
          copied t u (inr c) = inr c

    abbrev pub Closed : ℕ → Type 0
    Closed u = ⊥

    pub Step-open :
        (IsOpen : ℕ → Type 0) (ls ms : Links) (heap after : Lua.Heap L)
        → Step Closed ls heap ms after
        → Step IsOpen ls heap ms after
    Step-open IsOpen ls ms heap after s = record {
      extends = s.extends;
      keeps = s.keeps;
      frame = λ u c alive shut key. s.frame u c alive (λ z. z) key;
      copied = s.copied;
      sound = s.sound;
    }
