-- ===== src/Serialize/Bodies.antt =====
-- decode_value behind the type byte of an item, one lemma for each case of its switch.
use rava.Base.{
  ℕ, zero, suc, ◌+◌, ◌^◌, ◌≤◌, ◌<◌, ◌≡◌, refl, ap, ◌∙◌, subst, arith, Bool, true, false, not, List,
  [], ◌∷◌, ◌++◌, length, length-append, append_assoc, ◌==◌,
}
use rava.Outcome.{Outcome, ok, ◌>>=◌}
use rava.Buffer.{Cell}
use rava.Buffer.Uleb.{uleb128}
use rava.Buffer.Reading.{Reads, Reads-step, Reads-skip}
use rava.Lua.{Value, Lua}
use rava.Serialize.{bool_byte, codec_tref, codec_tval, codec_tusr}
use rava.Serialize.Decode.{
  seen_at, decode_value, decode_table, decode_body, decode_ref, decode_table_tag,
  decode_function_tag, decode_userdata_tag,
}
use rava.Serialize.Format.{
  Item, Entries, nil, boolean, lightuserdata, number, str, table_ref, table_val, table_usr,
  function_ref, function_val, userdata, print, print_entries, IsSendable, rounds,
}
use rava.Serialize.Build.{World, build}
use rava.Serialize.Objects.{
  user_table-Follows, userdata-Follows, new_table-follows, new_function-follows,
}
use rava.Serialize.Reader.{
  at, stop, get-at, read-at, uleb-at, Follows, FollowsEntries, decode_opens,
}

module _ (L : Lua) (size : ℕ) (cells : List Cell) where
  -- The same for what stands behind the type byte `x` of the item.
  abbrev Body : Item → ℕ → List ℕ → Type 0
  Body i x bs =
      (fuel n : ℕ) (w : World L) (rest : List ℕ)
      → IsSendable i
      → rounds i ≤ suc fuel
      → Reads cells n (bs ++ rest)
      → decode_body L (decode_value L fuel) (decode_table L fuel) x (at L size cells n w)
        ≡ (build L i w >>= stop L size cells (n + length bs))

  Reads-at : {n m : ℕ} {bs : List ℕ} → n ≡ m → Reads cells n bs → Reads cells m bs
  Reads-at {bs = bs} e r = subst (λ k. Reads cells k bs) e r

  pub Follows-by :
      (i : Item) (x : ℕ) (bs : List ℕ)
      → print i ≡ x ∷ bs
      → 1 ≤ rounds i
      → Body i x bs
      → Follows L size cells i
  Follows-by i x bs e pos body zero n w rest s h r = absurd (omega arith)
  Follows-by i x bs e pos body (suc fuel) n w rest s h r =
      let r' : Reads cells n (x ∷ (bs ++ rest)) = subst (λ p. Reads cells n (p ++ rest)) e r in
      decode_opens L size cells fuel n x w (bs ++ rest) r' (
        body fuel (n + 1) w rest s h
          (Reads-at (omega arith) (Reads-step cells n x (bs ++ rest) r').1))
      ∙ ap (λ m. build L i w >>= stop L size cells m) (omega (arith, ap length e))

  not_zero-bool_byte : (b : Bool) → not (bool_byte b == 0) ≡ b
  not_zero-bool_byte true = refl
  not_zero-bool_byte false = refl

  pub nil-Body : Body nil 0 []
  unfolding decode_body build
  nil-Body fuel n w rest s h r = ap (λ m. ok (Value.nil, at L size cells m w)) (omega arith)

  pub boolean-Body : (b : Bool) → Body (boolean b) 1 (bool_byte b ∷ [])
  unfolding decode_body build
  boolean-Body b fuel n w rest s h r =
      rw (get-at L size cells n w (bool_byte b) rest r, not_zero-bool_byte b)

  pub lightuserdata-Body : (p : List ℕ) → Body (lightuserdata p) 2 p
  unfolding decode_body build
  lightuserdata-Body p fuel n w rest s h r = rw (read-at L size cells n w 8 p rest s r)

  pub number-Body : (p : List ℕ) → Body (number p) 3 p
  unfolding decode_body build
  number-Body p fuel n w rest s h r = rw (read-at L size cells n w 8 p rest s r)

  pub str-Body : (x : List ℕ) → Body (str x) 4 (uleb128 (length x) ++ x)
  unfolding decode_body build
  str-Body x fuel n w rest s h r =
      let len = uleb128 (length x) in
      let r₁ : Reads cells n (len ++ (x ++ rest)) =
        subst (Reads cells n) (append_assoc len x rest) r in
      rw
        (
          uleb-at L size cells n w (length x) _ s r₁,
          read-at L size cells (n + length len) w (length x) x rest refl
              (Reads-skip cells n len _ r₁),
        )
        (ap (λ m. ok (Value.str x, at L size cells m w)) (omega (arith, length-append len x)))

  -- Behind a tag byte.
  ref-body :
      (n k : ℕ) (w : World L) (rest : List ℕ)
      → k < 2 ^ 32
      → Reads cells n (uleb128 k ++ rest)
      → decode_ref L (at L size cells n w)
        ≡ stop L size cells (n + length (uleb128 k)) (seen_at w.seen k, w)
  unfolding decode_ref
  ref-body n k w rest small r = rw (uleb-at L size cells n w k rest small r)

  module _ (fuel n tag : ℕ) (w : World L) (bs : List ℕ) (r : Reads cells n (tag ∷ bs)) where
    table_tag :
        decode_body L (decode_value L fuel) (decode_table L fuel) 5 (at L size cells n w)
        ≡ decode_table_tag L
            (decode_value L fuel)
            (decode_table L fuel)
            tag
            (at L size cells (n + 1) w)
    unfolding decode_body
    table_tag = rw (get-at L size cells n w tag bs r)

    function_tag :
        decode_body L (decode_value L fuel) (decode_table L fuel) 6 (at L size cells n w)
        ≡ decode_function_tag L
            (decode_value L fuel)
            (decode_table L fuel)
            tag
            (at L size cells (n + 1) w)
    unfolding decode_body
    function_tag = rw (get-at L size cells n w tag bs r)

    userdata_tag :
        decode_body L (decode_value L fuel) (decode_table L fuel) 7 (at L size cells n w)
        ≡ decode_userdata_tag L
            (decode_value L fuel)
            (decode_table L fuel)
            tag
            (at L size cells (n + 1) w)
    unfolding decode_body
    userdata_tag = rw (get-at L size cells n w tag bs r)

    behind_tag : Reads cells (n + 1) bs
    behind_tag = Reads-at (omega arith) (Reads-step cells n tag bs r).1

  -- The offset where an item ends, computed in two ways.
  stop_at :
      (o : Outcome (Value × World L)) {m m' : ℕ}
      → m ≡ m'
      → (o >>= stop L size cells m) ≡ (o >>= stop L size cells m')
  stop_at o e = ap (λ k. o >>= stop L size cells k) e

  pub Reads-assoc :
      {n : ℕ} (xs ys rest : List ℕ)
      → Reads cells n ((xs ++ ys) ++ rest)
      → Reads cells n (xs ++ (ys ++ rest))
  Reads-assoc {n} xs ys rest r = subst (Reads cells n) (append_assoc xs ys rest) r

  pub table_ref-Body : (k : ℕ) → Body (table_ref k) 5 (codec_tref ∷ uleb128 k)
  unfolding build decode_table_tag
  table_ref-Body k fuel n w rest s h r =
      table_tag fuel n codec_tref w (uleb128 k ++ rest) r
      ∙ ref-body (n + 1) k w rest s (behind_tag fuel n codec_tref w (uleb128 k ++ rest) r)
      ∙ ap (λ m. stop L size cells m (seen_at w.seen k, w)) (omega arith)

  pub function_ref-Body : (k : ℕ) → Body (function_ref k) 6 (codec_tref ∷ uleb128 k)
  unfolding build decode_function_tag
  function_ref-Body k fuel n w rest s h r =
      function_tag fuel n codec_tref w (uleb128 k ++ rest) r
      ∙ ref-body (n + 1) k w rest s (behind_tag fuel n codec_tref w (uleb128 k ++ rest) r)
      ∙ ap (λ m. stop L size cells m (seen_at w.seen k, w)) (omega arith)

  pub table_val-Body :
      (es : Entries)
      → FollowsEntries L size cells es
      → Body (table_val es) 5 (codec_tval ∷ print_entries es)
  unfolding decode_table_tag rounds
  table_val-Body es fe fuel n w rest s h r =
      table_tag fuel n codec_tval w (print_entries es ++ rest) r
      ∙ new_table-follows L size cells es fe fuel (n + 1) w rest s (omega arith)
          (behind_tag fuel n codec_tval w (print_entries es ++ rest) r)
      ∙ stop_at (build L (table_val es) w) (omega arith)

  pub table_usr-Body :
      (a b : Item)
      → Follows L size cells a
      → Follows L size cells b
      → Body (table_usr a b) 5 (codec_tusr ∷ (print a ++ print b))
  unfolding decode_table_tag rounds
  table_usr-Body a b fa fb fuel n w rest s h r =
      table_tag fuel n codec_tusr w ((print a ++ print b) ++ rest) r
      ∙ user_table-Follows L size cells a b fa fb fuel (n + 1) w rest s.0 s.1 (omega arith) (
          Reads-assoc (print a) (print b) rest
            (behind_tag fuel n codec_tusr w ((print a ++ print b) ++ rest) r))
      ∙ stop_at (build L (table_usr a b) w) (omega (arith, length-append (print a) (print b)))

  pub userdata-Body :
      (a b : Item)
      → Follows L size cells a
      → Follows L size cells b
      → Body (userdata a b) 7 (codec_tusr ∷ (print a ++ print b))
  unfolding decode_userdata_tag rounds
  userdata-Body a b fa fb fuel n w rest s h r =
      userdata_tag fuel n codec_tusr w ((print a ++ print b) ++ rest) r
      ∙ userdata-Follows L size cells a b fa fb fuel (n + 1) w rest s.0 s.1 (omega arith) (
          Reads-assoc (print a) (print b) rest
            (behind_tag fuel n codec_tusr w ((print a ++ print b) ++ rest) r))
      ∙ stop_at (build L (userdata a b) w) (omega (arith, length-append (print a) (print b)))

  pub function_val-Body :
      (code : List ℕ) (es : Entries)
      → FollowsEntries L size cells es
      → Body
          (function_val code es)
          6
          (codec_tval ∷ (uleb128 (length code) ++ (code ++ print_entries es)))
  unfolding decode_function_tag rounds
  function_val-Body code es fe fuel n w rest s h r =
      let len = uleb128 (length code) in
      let out = len ++ (code ++ print_entries es) in
      let r₁ = behind_tag fuel n codec_tval w (out ++ rest) r in
      let r₂ : Reads cells (n + 1) (len ++ (code ++ (print_entries es ++ rest))) =
        subst (λ t. Reads cells (n + 1) (len ++ t)) (append_assoc code (print_entries es) rest)
          (Reads-assoc len (code ++ print_entries es) rest r₁) in
      function_tag fuel n codec_tval w (out ++ rest) r
      ∙ new_function-follows L size cells code es fe fuel (n + 1) w rest s.0 s.1 (omega arith) r₂
      ∙ stop_at (build L (function_val code es) w) (
          omega (
            arith,
            length-append len (code ++ print_entries es),
            length-append code (print_entries es),
          ))
