-- ===== src/Serialize/Isomorphic.antt =====
-- The whole way of plain data from one state to another, through src/rava_core_serialize.c.
use rava.Base.{
  ℕ, suc, ◌+◌, ◌*◌, ◌^◌, ◌≤◌, ◌<◌, ◌≡◌, refl, ap, ◌∙◌, arith, inl, inr, ◌⊎◌, List, [], ◌∷◌, length,
  length-append,
}
use rava.Outcome.{Outcome, ok, ◌>>=◌}
use rava.Buffer.Uleb.{uleb128}
use rava.Lua.{Value, Lua}
use rava.Serialize.{serialize_encode}
use rava.Serialize.Decode.{serialize_decode}
use rava.Serialize.Format.{Item}
use rava.Serialize.Build.{World}
use rava.Serialize.RoundTrip.{build_all, print_all, serialize_decode-message}
use rava.Serialize.Plain.{AllPlain, PlainHeap, shallow_all, unseen, SendsAll, none_left, one_more}
use rava.Serialize.Total.{length_shallow, serialize_encode-Returns}
use rava.Serialize.Enough.{print_all-RoundsWithin}
use rava.Serialize.Links.{Links, Linked, sources, targets, Copy-extend, CopyAll, Extends}
use rava.Serialize.Copies.{Tables, TableCopied, Sound, Step, Step-then, Closed}
use rava.Serialize.Copying.{GoodKeys, linking, stay}
use rava.Serialize.Filling.{copy_value}

module _ (L : Lua) (T : Tables L) (entries : ℕ → List (Value × Value)) where
  open T use {Alive, IsKey, get}

  -- The values `cs` and the heap `after` hold a copy of the values `vs`: links, one to one, between
  -- the tables of the two states, so that linked tables hold linked entries and nothing else; and the
  -- tables that the heap `before` had are as they were.
  pub record CopiesOf (vs : List Value) (before : Lua.Heap L) (cs : List Value) (after : Lua.Heap L)
      : Type 0 where
    pub links : Links
    pub copies : CopyAll links vs cs
    pub copied : (t u : ℕ) → Linked links t u → TableCopied L T links after u (entries t)
    pub one_copy : (t u u' : ℕ) → Linked links t u → Linked links t u' → u ≡ u'
    pub one_source : (t t' u : ℕ) → Linked links t u → Linked links t' u → t ≡ t'
    pub kept : (u : ℕ) (c : Value) → Alive before u → IsKey c → get after u c ≡ get before u c

  record AllMade (vs : List Value) (ls : Links) (heap : Lua.Heap L)
      (r : Outcome (List Value × World L)) : Type 0 where
    values : List Value
    links : Links
    heap' : Lua.Heap L
    eq : r ≡ ok (values, linking L T entries links heap')
    step : Step L T entries (Closed L T entries) ls heap links heap'
    copies : CopyAll links vs values

  CopyAll-extend :
      (ls ms : Links) (vs cs : List Value) → Extends ls ms → CopyAll ls vs cs → CopyAll ms vs cs
  CopyAll-extend ls ms [] [] ext h = tt
  CopyAll-extend ls ms [] (c ∷ cs) ext h = h
  CopyAll-extend ls ms (v ∷ vs) [] ext h = h
  CopyAll-extend ls ms (v ∷ vs) (c ∷ cs) ext h =
      (Copy-extend ls ms v c ext h.0, CopyAll-extend ls ms vs cs ext h.1)

  module _ (keys : (t : ℕ) → GoodKeys L T entries (entries t)) where
    copy_all :
        (vs seen after : List Value) (is : List Item)
        → SendsAll entries vs seen is after
        → (ls : Links) (heap : Lua.Heap L) → seen ≡ sources ls
        → Sound L T ls heap
        → AllMade vs ls heap (build_all L is (linking L T entries ls heap))
    unfolding build_all
    copy_all vs seen after is (none_left s₀) ls heap p s = record {
      values = [];
      links = ls;
      heap' = heap;
      eq = refl;
      step = stay L T entries ls heap s (Closed L T entries);
      copies = tt;
    }
    copy_all vs seen after is (one_more v vs' s₀ s₁ s₂ i is' a b) ls heap p s =
        let d = copy_value L T entries keys v s₀ s₁ i a ls heap p s in
        let ds = copy_all vs' s₁ s₂ is' b d.links d.heap' d.numbered d.step.sound in
        record {
          values = d.value ∷ ds.values;
          links = ds.links;
          heap' = ds.heap';
          eq = rw (d.eq, ds.eq) refl;
          step =
              Step-then L T entries (Closed L T entries) (λ u. inr (λ z. z)) ls d.links ds.links
                heap d.heap' ds.heap' (λ t u z l. absurd z) d.step ds.step;
          copies = (Copy-extend d.links ds.links v d.value ds.step.extends d.copy, ds.copies);
        }

  length-SendsAll :
      (vs seen after : List Value) (is : List Item)
      → SendsAll entries vs seen is after
      → length is ≡ length vs
  length-SendsAll vs seen after is (none_left s₀) = refl
  length-SendsAll vs seen after is (one_more v vs' s₀ s₁ s₂ i is' a b) =
      ap suc (length-SendsAll vs' s₁ s₂ is' b)

  nothing-Sound : (heap : Lua.Heap L) → Sound L T [] heap
  nothing-Sound heap = record {
    one_copy = λ t u u' l. elim l [ ];
    one_source = λ t t' u l. elim l [ ];
    alive = λ t u l. elim l [ ];
  }

  -- Plain data that one state serializes arrives in another as a copy: cycles and sharing are kept,
  -- and nothing that was in the other state's tables changes. The heap of the one state is plain: its
  -- tables below `n` have no hooks, and the keys of each table differ and are keys for the other state,
  -- whose tables behave as `T` says. Encoding and decoding return: the encoder is given as many rounds
  -- as the data may take bytes, less than 2^31, and the decoder ten more than twice as many.
  pub serialize_decode-copies :
      (heap heap' : Lua.Heap L) (n fuel fuel' : ℕ) (vs : List Value)
      → PlainHeap entries L heap n
      → ((t : ℕ) → GoodKeys L T entries (entries t))
      → AllPlain n vs
      → shallow_all vs + unseen entries n [] < 2 ^ 31
      → shallow_all vs + unseen entries n [] ≤ fuel
      → 10 + 2 * (shallow_all vs + unseen entries n []) ≤ fuel'
      → (cs : List Value) × (after : Lua.Heap L) × ((serialize_encode L fuel vs heap
            >>= λ (bytes, sent). serialize_decode L fuel' bytes heap')
          ≡ ok (cs, after))
        × CopiesOf vs heap' cs after
  unfolding sources targets
  serialize_decode-copies heap heap' n fuel fuel' vs h keys p small enough enough' =
      let (is, seen, sends, sent, size, good) =
        serialize_encode-Returns L heap n entries h fuel vs p small enough in
      let len = length-append (uleb128 (length is)) (print_all is) in
      let d = copy_all keys vs [] seen is sends [] heap' refl (nothing-Sound heap') in
      let read =
        serialize_decode-message L fuel' is heap' good
          (print_all-RoundsWithin is fuel' (omega (arith, size, len, enough')))
          (omega (arith, length-SendsAll vs [] seen is sends, length_shallow vs, small))
          (omega (arith, size, len, small)) in
      (
        d.values,
        d.heap',
        rw sent (read ∙ rw d.eq refl),
        record {
          links = d.links;
          copies = d.copies;
          copied = λ t u l. only_new t u (d.step.copied t u l);
          one_copy = d.step.sound.one_copy;
          one_source = d.step.sound.one_source;
          kept = λ u c alive key. d.step.frame u c alive (λ z. z) key;
        },
      )
    where
      only_new : {P : Type 0} (t u : ℕ) → Linked [] t u ⊎ P → P
      only_new t u (inl l) = elim l [ ]
      only_new t u (inr q) = q
