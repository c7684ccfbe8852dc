-- ===== src/Serialize/Filling.antt =====
-- The loop of `decode_table` of src/rava_core_serialize.c on plain data: entry by entry the new table
-- becomes a copy; and so every value does.
use rava.Base.{
  ℕ, ◌≡◌, refl, sym, ap, ◌∙◌, subst, subst₂, ◌⊎◌, inl, inr, List, [], ◌∷◌, ◌++◌, none, some, ◌==◌,
  Bool-cases, arith,
}
use rava.Lua.{Value, table, Lua}
use rava.Serialize.{ref_of}
use rava.Serialize.Format.{Item, Entries}
use rava.Serialize.Build.{build, build_entries}
use rava.Serialize.Plain.{Sends, SendsEntries, leaf, known, fresh, done, pair}
use rava.Serialize.Links.{
  Links, Linked, sources, sources-last, Linked-last, Copy, same, Copy-extend, Extends,
  KeyCopy-KeyIn,
}
use rava.Serialize.Copies.{Tables, Sound, Step, Step-then, Step-open, Closed}
use rava.Serialize.Copying.{
  GoodKeys, linking, ValueMade, EntriesMade, stay, build-leaf, Copy-IsKey, known-made, fresh-made,
  made, with_link, with_new, link-Sound,
}

module _ (L : Lua) (T : Tables L) (entries : ℕ → List (Value × Value)) where
  open T use {Alive, IsKey, get}

  module _ (t u : ℕ) (ls : Links) (l : Linked ls t u) where
    -- The table that is being filled was linked before.
    owned :
        (ms : Links) (heap : Lua.Heap L)
        → Sound L T ms heap
        → Extends ls ms
        → (a w : ℕ) → w ≡ u
        → Linked ms a w
        → Linked ls a w
    owned ms heap s ext a w is m =
        let at_u : Linked ms a u = subst (Linked ms a) is m in
        subst₂ (Linked ls) (s.one_source t a u (ext t u l) at_u) (sym is) l

    is_open : (w : ℕ) → (w ≡ u) ⊎ ((w ≡ u) → ⊥)
    is_open w = elim (Bool-cases (w == u)) [
      | inl e ↦ inl (ground arith)
      | inr e ↦ inr (λ p. ground arith)
    ]

    pair-made :
        (k v : Value) (es : List (Value × Value)) (heap : Lua.Heap L) (s₁ s₂ s₃ : List Value)
        (i j : Item) (is : Entries)
        → Sound L T ls heap
        → GoodKeys L T entries ((k, v) ∷ es)
        → (dk : ValueMade L T entries k ls heap s₁ (build L i (linking L T entries ls heap)))
        → (dv : ValueMade L T entries v dk.links dk.heap' s₂
            (build L j (linking L T entries dk.links dk.heap')))
        → ((h₃ : Lua.Heap L)
            → Sound L T dv.links h₃
            → EntriesMade L T entries es u dv.links h₃ s₃
                (build_entries L is u (linking L T entries dv.links h₃)))
        → EntriesMade L T entries
            ((k, v) ∷ es)
            u
            ls
            heap
            s₃
            (build_entries L (Entries.entry i j is) u (linking L T entries ls heap))
    unfolding build
    pair-made k v es heap s₁ s₂ s₃ i j is s keys dk dv rest =
        let ext : Extends ls dv.links = λ a b m. dv.step.extends a b (dk.step.extends a b m) in
        let key = Copy-IsKey L T entries dk.links k dk.value dk.copy keys.0 in
        let alive₁ = dk.step.keeps u (s.alive t u l) in
        let alive₂ = dv.step.keeps u alive₁ in
        let (h₃, eq, stored, keeps, others) = T.stores dv.heap' u dk.value dv.value alive₂ key in
        let sound₃ : Sound L T dv.links h₃ = record {
          one_copy = dv.step.sound.one_copy;
          one_source = dv.step.sound.one_source;
          alive = λ a b m. keeps b (dv.step.sound.alive a b m);
        } in
        let storing : Step L T entries (λ w. w ≡ u) dv.links dv.heap' dv.links h₃ = record {
          extends = λ a b m. m;
          keeps = keeps;
          frame = λ w c alive shut key. others w c key (inl shut);
          copied = λ a b m. inl m;
          sound = sound₃;
        } in
        let ds = rest h₃ sound₃ in
        let both =
          Step-then L T entries (λ w. w ≡ u) is_open ls dk.links dv.links heap dk.heap' dv.heap'
            (owned dk.links dk.heap' dk.step.sound dk.step.extends)
            (Step-open L T entries (λ w. w ≡ u) ls dk.links heap dk.heap' dk.step)
            (Step-open L T entries (λ w. w ≡ u) dk.links dv.links dk.heap' dv.heap' dv.step) in
        let set =
          Step-then L T entries (λ w. w ≡ u) is_open ls dv.links dv.links heap dv.heap' h₃
            (owned dv.links dv.heap' dv.step.sound ext) both storing in
        let copy_k =
          Copy-extend dk.links ds.links k dk.value
            (λ a b m. ds.step.extends a b (dv.step.extends a b m)) dk.copy in
        let copy_v = Copy-extend dv.links ds.links v dv.value ds.step.extends dv.copy in
        let later =
          ds.own dk.value key (λ m.
            keys.1 (KeyCopy-KeyIn ds.links es k dk.value ds.step.sound.one_source copy_k m)) in
        record {
          links = ds.links;
          heap' = ds.heap';
          eq = rw (dk.eq, dv.eq, eq, ds.eq);
          numbered = ds.numbered;
          step =
              Step-then L T entries (λ w. w ≡ u) is_open ls dv.links ds.links heap h₃ ds.heap'
                (owned dv.links h₃ sound₃ ext) set ds.step;
          held = (
            (dk.value, key, copy_k, subst (Copy ds.links v) (sym (later ∙ stored)) copy_v),
            ds.held,
          );
          own = λ c key' no.
              ds.own c key' (λ m. no (inr m))
              ∙ others u c key' (inr λ e. no (inl (subst (Copy ds.links k) (sym e) copy_k)))
              ∙ dv.step.frame u c alive₁ (λ z. z) key'
              ∙ dk.step.frame u c (s.alive t u l) (λ z. z) key';
        }

  module _ (keys : (t : ℕ) → GoodKeys L T entries (entries t)) where
    mutual
      unfolding build

      pub copy_value :
          (v : Value) (seen after : List Value) (i : Item)
          → Sends entries v seen i after
          → (ls : Links) (heap : Lua.Heap L) → seen ≡ sources ls
          → Sound L T ls heap
          → ValueMade L T entries v ls heap after (build L i (linking L T entries ls heap))
      copy_value v seen after i (leaf x s₀ l) ls heap p s = record {
        value = x;
        links = ls;
        heap' = heap;
        eq = build-leaf L T entries x (linking L T entries ls heap) l;
        numbered = p;
        step = stay L T entries ls heap s (Closed L T entries);
        copy = same x l;
      }
      copy_value v seen after i (known t ref s₀ e) ls heap p s =
          subst
            (λ q.
              ValueMade L T entries (table t) ls heap q
                (build L (Item.table_ref ref) (linking L T entries ls heap)))
            (sym p)
            (known-made L T entries t ref ls heap (subst (λ q. ref_of q (table t) ≡ some ref) p e)
              s)
      copy_value v seen after i (fresh t s₀ s₁ is e sent) ls heap p s =
          let e' = subst (λ q. ref_of q (table t) ≡ none) p e in
          fresh-made L T entries t ls heap s e' s₁ is (
            copy_entries (entries t) (s₀ ++ table t ∷ []) s₁ is sent t
              (made L T entries t ls heap s e') (with_link L T entries t ls heap s e')
              (with_new L T entries t ls heap s e')
              (ap (λ q. q ++ table t ∷ []) p ∙ sources-last ls t (made L T entries t ls heap s e'))
              (link-Sound L T entries t ls heap s e')
              (Linked-last ls t (made L T entries t ls heap s e')) (keys t))

      copy_entries :
          (es : List (Value × Value)) (seen after : List Value) (is : Entries)
          → SendsEntries entries es seen is after
          → (t u : ℕ) (ls : Links) (heap : Lua.Heap L) → seen ≡ sources ls
          → Sound L T ls heap
          → Linked ls t u
          → GoodKeys L T entries es
          → EntriesMade L T entries es u ls heap after
              (build_entries L is u (linking L T entries ls heap))
      copy_entries es seen after is (done s₀) t u ls heap p s l good = record {
        links = ls;
        heap' = heap;
        eq = refl;
        numbered = p;
        step = stay L T entries ls heap s (λ w. w ≡ u);
        held = tt;
        own = λ c key no. refl;
      }
      copy_entries es seen after is (pair k v es' s₀ s₁ s₂ s₃ i j is' a b c) t u ls heap p s l
            good =
          let dk = copy_value k s₀ s₁ i a ls heap p s in
          let dv = copy_value v s₁ s₂ j b dk.links dk.heap' dk.numbered dk.step.sound in
          pair-made t u ls l k v es' heap s₁ s₂ s₃ i j is' s good dk dv λ h₃ sound₃.
            copy_entries es' s₂ s₃ is' c t u dv.links h₃ dv.numbered sound₃
              (dv.step.extends t u (dk.step.extends t u l)) good.2
