-- ===== src/Serialize/Follows.antt =====
-- decode_table, and decode_value as a whole, on the bytes of entries and of items.
use rava.Base.{
  ℕ, zero, suc, ◌+◌, ◌≤◌, ◌≡◌, refl, ap, ◌∙◌, subst, arith, false, List, [], ◌∷◌, ◌++◌, length,
  length-append, append_assoc, ◌==◌,
}
use rava.Outcome.{◌>>=◌}
use rava.Buffer.{Cell}
use rava.Buffer.Uleb.{uleb128}
use rava.Buffer.Reading.{Reads, Reads-skip, peek-Ahead}
use rava.Lua.{Lua}
use rava.Serialize.{bool_byte, codec_tref, codec_tval, codec_tusr}
use rava.Serialize.Decode.{decode_value, decode_table, decode_pair}
use rava.Serialize.Format.{
  Item, Entries, nil, boolean, lightuserdata, number, str, table_ref, table_val, table_usr,
  function_ref, function_val, userdata, end, entry, print, print_entries, IsSendable, AreSendable,
  IsKey, rounds, rounds_entries,
}
use rava.Serialize.Build.{World, build, build_entries}
use rava.Serialize.Reader.{at, stop, stop_table, follow, same, Follows, FollowsEntries}
use rava.Serialize.Bodies.{
  Follows-by, nil-Body, boolean-Body, lightuserdata-Body, number-Body, str-Body, Reads-assoc,
  table_ref-Body, function_ref-Body, table_val-Body, table_usr-Body, userdata-Body,
  function_val-Body,
}

module _ (L : Lua) (size : ℕ) (cells : List Cell) where
  table_opens :
      (fuel n t x : ℕ) (w : World L) (bs : List ℕ)
      → Reads cells n (x ∷ bs)
      → decode_table L (suc fuel) t (at L size cells n w)
        ≡ decode_pair L (decode_value L fuel) (decode_table L fuel) t x (at L size cells n w)
  unfolding decode_value
  table_opens fuel n t x w bs r =
      rw (peek-Ahead (record { size = size; head = n; cells = cells }) x bs r)

  end-follows : FollowsEntries L size cells end
  unfolding print rounds
  end-follows zero n t w rest s h r = absurd (omega arith)
  end-follows (suc fuel) n t w rest s h r =
      table_opens fuel n t 0 w rest r
      ∙ sentinel (
          Follows-by L size cells nil 0 [] (unfold print in refl) (unfold rounds in omega arith)
            (nil-Body L size cells) fuel n w rest tt (omega arith) r)
    where
      sentinel :
          decode_value L fuel (at L size cells n w)
            ≡ (build L nil w >>= stop L size cells (n + length (print nil)))
          → decode_pair L (decode_value L fuel) (decode_table L fuel) t 0 (at L size cells n w)
            ≡ (build_entries L end t w >>= stop_table L size cells (n + length (print_entries end)))
      sentinel e = unfold decode_pair build in rw e

  -- No key begins with the type byte of nil.
  key_byte :
      (k : Item) → IsKey k → (x : ℕ) × (bs : List ℕ) × (print k ≡ x ∷ bs) × ((x == 0) ≡ false)
  unfolding print
  key_byte nil h = absurd h
  key_byte (boolean b) h = (_, _, refl, refl)
  key_byte (lightuserdata p) h = (_, _, refl, refl)
  key_byte (number p) h = (_, _, refl, refl)
  key_byte (str x) h = (_, _, refl, refl)
  key_byte (table_ref k) h = (_, _, refl, refl)
  key_byte (table_val es) h = (_, _, refl, refl)
  key_byte (table_usr a b) h = (_, _, refl, refl)
  key_byte (function_ref k) h = (_, _, refl, refl)
  key_byte (function_val code es) h = (_, _, refl, refl)
  key_byte (userdata a b) h = (_, _, refl, refl)

  pair-Follows :
      (k v : Item) (es : Entries)
      → Follows L size cells k
      → Follows L size cells v
      → FollowsEntries L size cells es
      → (fuel n t x : ℕ) (w : World L) (rest : List ℕ) → (x == 0) ≡ false
      → AreSendable (entry k v es)
      → rounds k + rounds v + rounds_entries es ≤ fuel
      → Reads cells n (print k ++ (print v ++ (print_entries es ++ rest)))
      → decode_pair L (decode_value L fuel) (decode_table L fuel) t x (at L size cells n w) ≡ (
          build_entries L (entry k v es) t w
          >>= stop_table L size cells
              (n + length (print k) + length (print v) + length (print_entries es)))
  unfolding decode_pair build
  pair-Follows k v es fk fv fe fuel n t x w rest e s h r =
      let r₁ = Reads-skip cells n (print k) _ r in
      let r₂ = Reads-skip cells (n + length (print k)) (print v) _ r₁ in
      rw e (
        follow L size cells (n + length (print k)) (build L k w) _ _ _
          (fk fuel n w _ s.1 (omega arith) r)
          λ key w₁.
            follow L size cells (n + length (print k) + length (print v)) (build L v w₁) _ _ _
              (fv fuel _ w₁ _ s.2 (omega arith) r₁)
              λ val w₂.
                same L size cells (L.set_table w₂.heap t key val) _ _ _
                  λ heap. fe fuel _ t (record w₂ { heap = heap }) rest s.3 (omega arith) r₂)

  entry-Follows :
      (k v : Item) (es : Entries)
      → Follows L size cells k
      → Follows L size cells v
      → FollowsEntries L size cells es
      → FollowsEntries L size cells (entry k v es)
  unfolding print rounds
  entry-Follows k v es fk fv fe zero n t w rest s h r = absurd (omega arith)
  entry-Follows k v es fk fv fe (suc fuel) n t w rest s h r =
      let (x, bs, starts, nonzero) = key_byte k s.0 in
      let r₁ : Reads cells n (print k ++ (print v ++ (print_entries es ++ rest))) =
        subst (λ p. Reads cells n (print k ++ p)) (append_assoc (print v) (print_entries es) rest)
          (Reads-assoc L size cells (print k) (print v ++ print_entries es) rest r) in
      table_opens fuel n t x w _
        (subst (λ p. Reads cells n (p ++ (print v ++ (print_entries es ++ rest)))) starts r₁)
      ∙ pair-Follows k v es fk fv fe fuel n t x w rest nonzero s (omega arith) r₁
      ∙ ap (λ m. build_entries L (entry k v es) t w >>= stop_table L size cells m)
          (omega (
            arith,
            length-append (print k) (print v ++ print_entries es),
            length-append (print v) (print_entries es),
          ))

  mutual
    unfolding print rounds

    decode-Follows : (i : Item) → Follows L size cells i
    decode-Follows nil = Follows-by L size cells nil 0 [] refl (omega arith) (nil-Body L size cells)
    decode-Follows (boolean b) =
        Follows-by L size cells (boolean b) 1 (bool_byte b ∷ []) refl (omega arith)
          (boolean-Body L size cells b)
    decode-Follows (lightuserdata p) =
        Follows-by L size cells (lightuserdata p) 2 p refl (omega arith)
          (lightuserdata-Body L size cells p)
    decode-Follows (number p) =
        Follows-by L size cells (number p) 3 p refl (omega arith) (number-Body L size cells p)
    decode-Follows (str x) =
        Follows-by L size cells (str x) 4 (uleb128 (length x) ++ x) refl (omega arith)
          (str-Body L size cells x)
    decode-Follows (table_ref k) =
        Follows-by L size cells (table_ref k) 5 (codec_tref ∷ uleb128 k) refl (omega arith)
          (table_ref-Body L size cells k)
    decode-Follows (table_val es) =
        Follows-by L size cells (table_val es) 5 (codec_tval ∷ print_entries es) refl (omega arith)
          (table_val-Body L size cells es (decode_entries-follows es))
    decode-Follows (table_usr a b) =
        Follows-by L size cells (table_usr a b) 5 (codec_tusr ∷ (print a ++ print b)) refl
          (omega arith) (table_usr-Body L size cells a b (decode-Follows a) (decode-Follows b))
    decode-Follows (function_ref k) =
        Follows-by L size cells (function_ref k) 6 (codec_tref ∷ uleb128 k) refl (omega arith)
          (function_ref-Body L size cells k)
    decode-Follows (function_val code es) =
        Follows-by L size cells (function_val code es) 6
          (codec_tval ∷ (uleb128 (length code) ++ (code ++ print_entries es))) refl (omega arith)
          (function_val-Body L size cells code es (decode_entries-follows es))
    decode-Follows (userdata a b) =
        Follows-by L size cells (userdata a b) 7 (codec_tusr ∷ (print a ++ print b)) refl
          (omega arith) (userdata-Body L size cells a b (decode-Follows a) (decode-Follows b))

    decode_entries-follows : (es : Entries) → FollowsEntries L size cells es
    decode_entries-follows end = end-follows
    decode_entries-follows (entry k v es) =
        entry-Follows k v es (decode-Follows k) (decode-Follows v) (decode_entries-follows es)

-- On the bytes of an item, whatever follows them, `decode_value` does what the item stands for,
-- errors included, and moves on behind them, if it has the rounds of the item.
pub decode_value-print :
    (L : Lua) (size : ℕ) (cells : List Cell) (i : Item) (fuel n : ℕ) (w : World L) (rest : List ℕ)
    → IsSendable i
    → rounds i ≤ fuel
    → Reads cells n (print i ++ rest)
    → decode_value L fuel (at L size cells n w)
      ≡ (build L i w >>= stop L size cells (n + length (print i)))
decode_value-print L size cells i = decode-Follows L size cells i
