-- ===== src/Serialize/Copying.antt =====
-- What the decoder of src/rava_core_serialize.c makes of the items that were sent for plain data: a
-- copy of it. Here a leaf, a table that was met before, and a new table.
use rava.Base.{ℕ, ◌≡◌, refl, sym, ap, ◌∙◌, subst₂, ◌⊎◌, inl, inr, List, [], ◌∷◌, ◌++◌, none, some}
use rava.Outcome.{Outcome, ok, ◌>>=◌}
use rava.Lua.{
  Value, nil, boolean, lightuserdata, number, str, table, function, userdata, thread, Lua,
}
use rava.Serialize.{ref_of}
use rava.Serialize.Format.{Item, Entries}
use rava.Serialize.Build.{World, build, build_entries}
use rava.Serialize.Plain.{IsLeaf, leaf_item}
use rava.Serialize.Links.{
  Links, Linked, sources, targets, targets-last, ref_of-Linked, Linked-append, Linked-last,
  Linked-inv, Copy, same, linked, KeyCopy, KeyIn,
}
use rava.Serialize.Copies.{Tables, EntriesCopied, TableCopied, Sound, Sound-link, Step, Closed}

module _ (L : Lua) (T : Tables L) (entries : ℕ → List (Value × Value)) where
  open T use {Alive, IsKey, get}

  -- The keys of a table differ, and Lua takes them for keys.
  abbrev pub GoodKeys : List (Value × Value) → Type 0
  GoodKeys [] = Unit {0}
  GoodKeys ((k, v) ∷ es) = IsKey k × (KeyIn es k → ⊥) × GoodKeys es

  abbrev pub linking : Links → Lua.Heap L → World L
  linking ls heap = record { seen = targets ls; heap = heap }

  pub record ValueMade (v : Value) (ls : Links) (heap : Lua.Heap L) (after : List Value)
      (r : Outcome (Value × World L)) : Type 0 where
    pub value : Value
    pub links : Links
    pub heap' : Lua.Heap L
    pub eq : r ≡ ok (value, linking links heap')
    pub numbered : after ≡ sources links
    pub step : Step L T entries (Closed L T entries) ls heap links heap'
    pub copy : Copy links v value

  pub record EntriesMade (es : List (Value × Value)) (u : ℕ) (ls : Links) (heap : Lua.Heap L)
      (after : List Value) (r : Outcome (World L)) : Type 0 where
    pub links : Links
    pub heap' : Lua.Heap L
    pub eq : r ≡ ok (linking links heap')
    pub numbered : after ≡ sources links
    pub step : Step L T entries (λ w. w ≡ u) ls heap links heap'
    pub held : EntriesCopied L T links heap' u es
    pub own : (c : Value) → IsKey c → (KeyCopy links es c → ⊥) → get heap' u c ≡ get heap u c

  pub stay :
      (ls : Links) (heap : Lua.Heap L)
      → Sound L T ls heap
      → (IsOpen : ℕ → Type 0) → Step L T entries IsOpen ls heap ls heap
  stay ls heap s IsOpen = record {
    extends = λ t u l. l;
    keeps = λ u alive. alive;
    frame = λ u c alive shut key. refl;
    copied = λ t u l. inl l;
    sound = s;
  }

  pub build-leaf : (v : Value) (w : World L) → IsLeaf v → build L (leaf_item v) w ≡ ok (v, w)
  unfolding build
  build-leaf nil w l = refl
  build-leaf (boolean b) w l = refl
  build-leaf (lightuserdata p) w l = refl
  build-leaf (number n) w l = refl
  build-leaf (str x) w l = refl
  build-leaf (table t) w l = elim l [ ]
  build-leaf (function g) w l = elim l [ ]
  build-leaf (userdata u) w l = elim l [ ]
  build-leaf (thread t) w l = elim l [ ]

  pub Copy-IsKey : (ls : Links) (k c : Value) → Copy ls k c → IsKey k → IsKey c
  Copy-IsKey ls k c (same x l) key = key
  Copy-IsKey ls k c (linked t u l) key = T.table_key u

  pub known-made :
      (t ref : ℕ) (ls : Links) (heap : Lua.Heap L)
      → ref_of (sources ls) (table t) ≡ some ref
      → Sound L T ls heap
      → ValueMade (table t) ls heap (sources ls) (build L (Item.table_ref ref) (linking ls heap))
  unfolding build
  known-made t ref ls heap e s =
      let (u, l, at) = ref_of-Linked ls t ref e in
      record {
        value = table u;
        links = ls;
        heap' = heap;
        eq = ap (λ v. ok (v, linking ls heap)) at;
        numbered = refl;
        step = stay ls heap s (Closed L T entries);
        copy = linked t u l;
      }

  module _ (t : ℕ) (ls : Links) (heap : Lua.Heap L) (s : Sound L T ls heap)
      (e : ref_of (sources ls) (table t) ≡ none) where
    abbrev pub made : ℕ
    made = (L.new_table heap).0

    abbrev pub with_new : Lua.Heap L
    with_new = (L.new_table heap).1

    abbrev pub with_link : Links
    with_link = ls ++ (t, made) ∷ []

    pub link-Sound : Sound L T with_link with_new
    link-Sound =
        Sound-link L T ls heap with_new t made s e (T.new_other heap) (T.new_keeps heap)
          (T.new_alive heap)

    pub fresh-made :
        (after : List Value) (is : Entries)
        → EntriesMade
            (entries t)
            made
            with_link
            with_new
            after
            (build_entries L is made (linking with_link with_new))
        → ValueMade (table t) ls heap after (build L (Item.table_val is) (linking ls heap))
    unfolding build
    fresh-made after is d = record {
      value = table made;
      links = d.links;
      heap' = d.heap';
      eq =
          ap
            (λ seen. build_entries L is made (record { seen = seen; heap = with_new }) >>= λ w.
              ok (table made, w))
            (targets-last ls t made)
          ∙ rw d.eq refl;
      numbered = d.numbered;
      step = record {
        extends = λ a b l. d.step.extends a b (Linked-append ls ((t, made) ∷ []) a b l);
        keeps = λ u alive. d.step.keeps u (T.new_keeps heap u alive);
        frame = λ u c alive shut key.
            d.step.frame u c (T.new_keeps heap u alive) (T.new_other heap u alive) key
            ∙ T.new_get heap u c alive;
        copied = λ a b l. copied a b (d.step.copied a b l);
        sound = d.step.sound;
      };
      copy = linked t made (d.step.extends t made (Linked-last ls t made));
    }
      where
        whole : TableCopied L T d.links d.heap' made (entries t)
        whole = record { held = d.held; only = λ c key no. d.own c key no ∙ T.new_empty heap c }

        by_link :
            (a b : ℕ)
            → Linked ls a b ⊎ ((a ≡ t) × (b ≡ made))
            → Linked ls a b ⊎ TableCopied L T d.links d.heap' b (entries a)
        by_link a b (inl l) = inl l
        by_link a b (inr (p, q)) =
            inr
              (subst₂ (λ x y. TableCopied L T d.links d.heap' y (entries x)) (sym p) (sym q) whole)

        copied :
            (a b : ℕ)
            → Linked with_link a b ⊎ TableCopied L T d.links d.heap' b (entries a)
            → Linked ls a b ⊎ TableCopied L T d.links d.heap' b (entries a)
        copied a b (inl l) = by_link a b (Linked-inv ls t made a b l)
        copied a b (inr c) = inr c
