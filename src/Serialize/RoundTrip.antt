-- ===== src/Serialize/RoundTrip.antt =====
-- `ravaL_serialize_encode` and `ravaL_serialize_decode`, on whole argument lists.
use rava.Base.{
  ℕ, suc, ◌+◌, ◌^◌, ◌≤◌, ◌<◌, ◌≡◌, refl, sym, ap, ◌∙◌, subst, arith, List, [], ◌∷◌, ◌++◌, length,
  length-append, append_assoc, append-nil, lt→ltb,
}
use rava.Outcome.{Outcome, ok, raised, fault, aborted, stuck, ◌>>=◌}
use rava.Buffer.{Buf, Cell, null_buf, load_many, buf_write_uleb128, buf_read_uleb128, buf_init}
use rava.Buffer.Growth.{Holds}
use rava.Buffer.Content.{null-Holds, init-Holds}
use rava.Buffer.Uleb.{uleb128, length-groups, write_uleb128-Holds}
use rava.Buffer.Reading.{Reads, Reads-skip, advance, Holds-Ahead, read_uleb128-Ahead}
use rava.Lua.{Value, Lua}
use rava.Serialize.{encode_value, encode_args, serialize_encode}
use rava.Serialize.Decode.{Decoder, decode_many, serialize_decode}
use rava.Serialize.Format.{Item, print, IsSendable, rounds}
use rava.Serialize.Build.{World, build}
use rava.Serialize.Describe.{describe, describe_args}
use rava.Serialize.Writer.{
  >>=-eq-ok, ok_pair, enc, Emits, Emits-then, nothing-Emits, load_many-Holds,
}
use rava.Serialize.Encodes.{encode_value-print}
use rava.Serialize.Reader.{at, follow}
use rava.Serialize.Follows.{decode_value-print}

unfoldable pub print_all : List Item → List ℕ
print_all [] = []
print_all (i ∷ is) = print i ++ print_all is

abbrev pub AllSendable : List Item → Type 0
AllSendable [] = Unit {0}
AllSendable (i ∷ is) = IsSendable i × AllSendable is

-- Enough rounds for each item.
abbrev pub RoundsWithin : ℕ → List Item → Type 0
RoundsWithin fuel [] = Unit {0}
RoundsWithin fuel (i ∷ is) = (rounds i ≤ fuel) × RoundsWithin fuel is

-- The whole string: the number of values, then the items.
abbrev pub message : List Item → List ℕ
message is = uleb128 (length is) ++ print_all is

module _ (L : Lua) where
  abbrev pub start : Lua.Heap L → World L
  start heap = record { seen = []; heap = heap }

  abbrev stop_all : ℕ → List Cell → ℕ → List Value × World L → Outcome (List Value × Decoder L)
  stop_all size cells k (vs, w) = ok (vs, at L size cells k w)

  abbrev then_cons {ℓ} : {S : Type ℓ} → Value → List Value × S → Outcome (List Value × S)
  then_cons v (vs, s) = ok (v ∷ vs, s)

  -- The values and the heap that are left.
  abbrev pub result : List Value × World L → Outcome (List Value × Lua.Heap L)
  result (vs, w) = ok (vs, w.heap)

  abbrev decoder_result : List Value × Decoder L → Outcome (List Value × Lua.Heap L)
  decoder_result (vs, s) = ok (vs, s.heap)

  -- The values that a message stands for.
  unfoldable pub build_all : List Item → World L → Outcome (List Value × World L)
  build_all [] w = ok ([], w)
  build_all (i ∷ is) w = build L i w >>= λ (v, w₁). build_all is w₁ >>= λ (vs, w₂). ok (v ∷ vs, w₂)

  encode_args-Emits :
      (fuel : ℕ) (vs : List Value) (is : List Item) (b : Buf) (bs : List ℕ) (w w' : World L)
      → describe_args L fuel vs w ≡ ok (is, w')
      → AllSendable is
      → Holds b bs
      → length bs + length (print_all is) + 8 ≤ 2 ^ 63
      → Emits L (encode_args L fuel vs (enc L b w)) bs (print_all is) w'
  unfolding describe_args encode_args print_all
  encode_args-Emits fuel [] is b bs w w' e =
      ok_pair
        (λ is w'.
          AllSendable is
          → Holds b bs
          → length bs + length (print_all is) + 8 ≤ 2 ^ 63
          → Emits L (ok (enc L b w)) bs (print_all is) w')
        e λ s h fits. nothing-Emits L b bs w h
  encode_args-Emits fuel (v ∷ vs) is b bs w w' e =
      let ((i, w₁), d, e₁) = >>=-eq-ok (describe L fuel v w) _ e in
      let ((is', w₂), ds, e₂) = >>=-eq-ok (describe_args L fuel vs w₁) _ e₁ in
      ok_pair
        (λ is w'.
          AllSendable is
          → Holds b bs
          → length bs + length (print_all is) + 8 ≤ 2 ^ 63
          → Emits L (encode_value L fuel v (enc L b w) >>= encode_args L fuel vs) bs (print_all is)
              w')
        e₂
        λ s h fits.
          let l = length-append (print i) (print_all is') in
          Emits-then L _ _ bs (print i) (print_all is') w₁ w₂
            (encode_value-print L fuel v b bs w w₁ i d s.0 h (omega arith))
            λ b₁ h₁.
              encode_args-Emits fuel vs is' b₁ (bs ++ print i) w₁ w₂ ds s.1 h₁
                (omega (arith, length-append bs (print i)))

  pub length-describe_args :
      (fuel : ℕ) (vs : List Value) (is : List Item) (w w' : World L)
      → describe_args L fuel vs w ≡ ok (is, w')
      → length is ≡ length vs
  unfolding describe_args
  length-describe_args fuel [] is w w' e = ok_pair (λ is w'. length is ≡ 0) e refl
  length-describe_args fuel (v ∷ vs) is w w' e =
      let ((i, w₁), d, e₁) = >>=-eq-ok (describe L fuel v w) _ e in
      let ((is', w₂), ds, e₂) = >>=-eq-ok (describe_args L fuel vs w₁) _ e₁ in
      ok_pair (λ is w'. length is ≡ suc (length vs)) e₂
        (ap suc (length-describe_args fuel vs is' w₁ w₂ ds))

  encoded :
      (fuel : ℕ) (vs : List Value) (heap : Lua.Heap L) (b b' : Buf) (w' : World L) (out : List ℕ)
      → buf_write_uleb128 null_buf (length vs) ≡ ok b
      → encode_args L fuel vs (enc L b (start heap)) ≡ ok (enc L b' w')
      → load_many b'.cells 0 b'.head ≡ ok out
      → serialize_encode L fuel vs heap ≡ ok (out, w'.heap)
  unfolding serialize_encode
  encoded fuel vs heap b b' w' out e e₁ e₂ = rw (e, e₁, e₂)

  -- The string that `ravaL_serialize_encode` pushes is the message of the items that describe its
  -- arguments, provided the lengths and the count fit their 32-bit fields.
  pub serialize_encode-message :
      (fuel : ℕ) (vs : List Value) (is : List Item) (heap : Lua.Heap L) (w' : World L)
      → describe_args L fuel vs (start heap) ≡ ok (is, w')
      → AllSendable is
      → length vs < 2 ^ 31
      → length (print_all is) ≤ 2 ^ 62
      → serialize_encode L fuel vs heap ≡ ok (message is, w'.heap)
  serialize_encode-message fuel vs is heap w' d s count small =
      let n = length-describe_args fuel vs is (start heap) w' d in
      let (b, e, h) =
        write_uleb128-Holds null_buf [] (length vs) null-Holds (omega arith) (omega arith) in
      let (b', e', h') =
        encode_args-Emits fuel vs is b (uleb128 (length vs)) (start heap) w' d s h
          (omega (arith, length-groups 4 (length vs))) in
      encoded fuel vs heap b b' w' (message is) e e' (
        load_many-Holds b' (message is)
          (subst (λ k. Holds b' (uleb128 k ++ print_all is)) (sym n) h'))

  module _ (size : ℕ) (cells : List Cell) where
    decode_many-follows :
        (is : List Item) (fuel n : ℕ) (w : World L) (rest : List ℕ)
        → AllSendable is
        → RoundsWithin fuel is
        → Reads cells n (print_all is ++ rest)
        → decode_many L fuel (length is) (at L size cells n w)
          ≡ (build_all is w >>= stop_all size cells (n + length (print_all is)))
    unfolding decode_many build_all print_all
    decode_many-follows [] fuel n w rest s h r =
        ap (λ m. ok ([], at L size cells m w)) (omega arith)
    decode_many-follows (i ∷ is) fuel n w rest s h r =
        let r₁ : Reads cells n (print i ++ (print_all is ++ rest)) =
          subst (Reads cells n) (append_assoc (print i) (print_all is) rest) r in
        let m = n + length (print i) in
        let l : m + length (print_all is) ≡ n + length (print i ++ print_all is) =
          omega (arith, length-append (print i) (print_all is)) in
        follow L size cells m (build L i w) _ _ _
          (decode_value-print L size cells i fuel n w _ s.0 h.0 r₁)
          λ v w₁. after v (build_all is w₁) _ (
            decode_many-follows is fuel m w₁ rest s.1 h.1 (Reads-skip cells n (print i) _ r₁)
            ∙ ap (λ k. build_all is w₁ >>= stop_all size cells k) l)
      where
        after :
            (v : Value) (o : Outcome (List Value × World L)) (k : ℕ)
            {d : Outcome (List Value × Decoder L)}
            → d ≡ (o >>= stop_all size cells k)
            → (d >>= then_cons v) ≡ ((o >>= then_cons v) >>= stop_all size cells k)
        after v (ok (vs, w')) k e = rw e
        after v (raised x) k e = rw e
        after v fault k e = rw e
        after v aborted k e = rw e
        after v stuck k e = rw e

  forget_place :
      (o : Outcome (List Value × World L)) (size k : ℕ) (cells : List Cell)
      {d : Outcome (List Value × Decoder L)}
      → d ≡ (o >>= stop_all size cells k)
      → (d >>= decoder_result) ≡ (o >>= result)
  forget_place (ok (vs, w')) size k cells e = rw e
  forget_place (raised x) size k cells e = rw e
  forget_place fault size k cells e = rw e
  forget_place aborted size k cells e = rw e
  forget_place stuck size k cells e = rw e

  decoded :
      (fuel : ℕ) (bytes : List ℕ) (heap : Lua.Heap L) (b b' : Buf) (count : ℕ)
      → buf_init null_buf bytes ≡ ok b
      → buf_read_uleb128 (record b { head = 0 }) ≡ ok (count, b')
      → count < 2 ^ 31
      → serialize_decode L fuel bytes heap ≡ (
          decode_many L fuel count (record { buf = b'; seen = []; heap = heap }) >>= decoder_result)
  unfolding serialize_decode
  decoded fuel bytes heap b b' count e e₁ small = rw (e, e₁, lt→ltb _ _ small)

  -- `ravaL_serialize_decode` on a message does what its items stand for, errors included.
  pub serialize_decode-message :
      (fuel : ℕ) (is : List Item) (heap : Lua.Heap L)
      → AllSendable is
      → RoundsWithin fuel is
      → length is < 2 ^ 31
      → length (print_all is) ≤ 2 ^ 62
      → serialize_decode L fuel (message is) heap ≡ (build_all is (start heap) >>= result)
  serialize_decode-message fuel is heap s h count small =
      let len = uleb128 (length is) in
      let (b, e, held) =
        init-Holds (message is)
          (omega (arith, length-append len (print_all is), length-groups 4 (length is))) in
      let b₀ : Buf = record b { head = 0 } in
      let r : Reads b.cells 0 (len ++ (print_all is ++ [])) =
        subst (λ t. Reads b.cells 0 (len ++ t)) (sym (append-nil (print_all is)))
          (Holds-Ahead b (message is) held) in
      decoded fuel (message is) heap b (advance b₀ (length len)) (length is) e
        (read_uleb128-Ahead b₀ (length is) _ (omega arith) r) count
      ∙ forget_place (build_all is (start heap)) b.size _ b.cells (
          decode_many-follows b.size b.cells is fuel (0 + length len) (start heap) [] s h
            (Reads-skip b.cells 0 len _ r))

  -- What one state serializes, another reads: encoding returns a string, and decoding that string in
  -- any heap makes the values that the items of the arguments stand for.
  pub serialize_decode-serialize_encode :
      (fuel fuel' : ℕ) (vs : List Value) (is : List Item) (heap heap' : Lua.Heap L) (w' : World L)
      → describe_args L fuel vs (start heap) ≡ ok (is, w')
      → AllSendable is
      → RoundsWithin fuel' is
      → length vs < 2 ^ 31
      → length (print_all is) ≤ 2 ^ 62
      → (serialize_encode L fuel vs heap >>= λ (bytes, after_encoding).
          serialize_decode L fuel' bytes heap')
        ≡ (build_all is (start heap') >>= result)
  serialize_decode-serialize_encode fuel fuel' vs is heap heap' w' d s h count small =
      rw (serialize_encode-message fuel vs is heap w' d s count small) (
        serialize_decode-message fuel' is heap' s h
          (omega (arith, length-describe_args fuel vs is (start heap) w' d)) small)
