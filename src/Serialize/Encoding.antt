-- ===== src/Serialize/Encoding.antt =====
-- The encoder writes the format: where a value is described by an item, its bytes are appended.
use rava.Base.{
  ℕ, ◌+◌, ◌^◌, ◌≤◌, ◌<◌, ◌≡◌, refl, arith, true, List, [], ◌∷◌, ◌++◌, Option, none, some, length,
  length-append, inl, inr, Bool-cases, drop,
}
use rava.Outcome.{Outcome, ok, ◌>>=◌}
use rava.Buffer.{Buf}
use rava.Buffer.Growth.{Holds}
use rava.Buffer.Uleb.{uleb128}
use rava.Lua.{Value, Lua}
use rava.Serialize.{
  Encoder, encoder_hook, encode_ref, encode_new_table, encode_seen_table, encode_userdata_hook,
  encode_value, encode_table, codec_tref, codec_tval, codec_tusr, is_decoder,
}
use rava.Serialize.Format.{
  Item, Entries, table_usr, userdata, print, print_entries, IsSendable, AreSendable,
}
use rava.Serialize.Build.{World}
use rava.Serialize.Describe.{
  describe, describe_table, describe_hook, describe_new_table, describe_seen_table,
  describe_userdata,
}
use rava.Serialize.Writer.{
  >>=-eq-ok, ok_pair, raised-ne-ok, enc, Emits, Emits-then, put-Emits, uleb-Emits,
}

-- Content within which no size wraps, with room for the five bytes that a number asks for.
abbrev pub Fits : List ℕ → List ℕ → Type 0
Fits bs out = length bs + length out + 8 ≤ 2 ^ 63

-- The bytes of an item behind its type byte.
abbrev pub behind : Item → List ℕ
behind i = drop 1 (print i)

module _ (L : Lua) where
  -- With this fuel, the encoder appends the bytes of any item that describes the value.
  abbrev pub Encodes : ℕ → Type 0
  Encodes fuel =
      (v : Value) (b : Buf) (bs : List ℕ) (w w' : World L) (i : Item)
      → describe L fuel v w ≡ ok (i, w')
      → IsSendable i
      → Holds b bs
      → Fits bs (print i)
      → Emits L (encode_value L fuel v (enc L b w)) bs (print i) w'

  abbrev pub EncodesTable : ℕ → Type 0
  EncodesTable fuel =
      (t : ℕ) (key : Value) (b : Buf) (bs : List ℕ) (w w' : World L) (es : Entries)
      → describe_table L fuel t key w ≡ ok (es, w')
      → AreSendable es
      → Holds b bs
      → Fits bs (print_entries es)
      → Emits L (encode_table L fuel t key (enc L b w)) bs (print_entries es) w'

  module _ (fuel : ℕ) (ev : Encodes fuel) (et : EncodesTable fuel) where
    pub ref-Emits :
        (k : ℕ) (b : Buf) (bs : List ℕ) (w : World L)
        → k < 2 ^ 32
        → Holds b bs
        → Fits bs (codec_tref ∷ uleb128 k)
        → Emits L (encode_ref L k (enc L b w)) bs (codec_tref ∷ uleb128 k) w
    unfolding encode_ref
    ref-Emits k b bs w word h fits =
        Emits-then L _ _ bs (codec_tref ∷ []) (uleb128 k) w w
          (put-Emits L b bs w h codec_tref (omega arith) (omega arith))
          λ b₁ h₁. uleb-Emits L b₁ _ w h₁ k word (omega (arith, length-append bs (codec_tref ∷ [])))

    -- Two values that a hook returned, one behind the other.
    both-Emits :
        (a c : Value) (b : Buf) (bs : List ℕ) (w w₁ w₂ : World L) (i j : Item)
        → describe L fuel a w ≡ ok (i, w₁)
        → describe L fuel c w₁ ≡ ok (j, w₂)
        → IsSendable i
        → IsSendable j
        → Holds b bs
        → Fits bs (print i ++ print j)
        → Emits L
            (encode_value L fuel a (enc L b w) >>= encode_value L fuel c)
            bs
            (print i ++ print j)
            w₂
    both-Emits a c b bs w w₁ w₂ i j da dc si sj h fits =
        let sum = length-append (print i) (print j) in
        Emits-then L _ _ bs (print i) (print j) w₁ w₂ (ev a b bs w w₁ i da si h (omega arith))
          λ b₁ h₁. ev c b₁ _ w₁ w₂ j dc sj h₁ (omega (arith, length-append bs (print i)))

    hook-Emits :
        (hook v a c : Value) (heap : Lua.Heap L) (b : Buf) (bs : List ℕ) (w w₁ w₂ : World L)
        (i j : Item)
        → L.call_two w.heap hook v ≡ ok (a, c, heap)
        → is_decoder a ≡ true
        → describe L fuel a (record w { heap = heap }) ≡ ok (i, w₁)
        → describe L fuel c w₁ ≡ ok (j, w₂)
        → IsSendable i
        → IsSendable j
        → Holds b bs
        → Fits bs (codec_tusr ∷ (print i ++ print j))
        → Emits L
            (encoder_hook L (encode_value L fuel) (encode_table L fuel) hook v (enc L b w))
            bs
            (codec_tusr ∷ (print i ++ print j))
            w₂
    unfolding encoder_hook
    hook-Emits hook v a c heap b bs w w₁ w₂ i j called named da dc si sj h fits =
        Emits-then L _ _ bs (codec_tusr ∷ []) (print i ++ print j) w w₂
          (put-Emits L b bs w h codec_tusr (omega arith) (omega arith))
          λ b₁ h₁.
            rw (called, named)
              (both-Emits a c b₁ _ (record w { heap = heap }) w₁ w₂ i j da dc si sj h₁
                (omega (arith, length-append bs (codec_tusr ∷ []))))

    -- How a hook's item came about.
    hook_cases :
        (C : Item → World L → Type 0) (make : Item → Item → Item) (hook v : Value) (w w' : World L)
        (x : Item)
        → describe_hook L (describe L fuel) (describe_table L fuel) make hook v w ≡ ok (x, w')
        → ((a c : Value) (heap : Lua.Heap L) (i j : Item) (w₁ w₂ : World L)
            → L.call_two w.heap hook v ≡ ok (a, c, heap)
            → is_decoder a ≡ true
            → describe L fuel a (record w { heap = heap }) ≡ ok (i, w₁)
            → describe L fuel c w₁ ≡ ok (j, w₂)
            → C (make i j) w₂)
        → C x w'
    unfolding describe_hook
    hook_cases C make hook v w w' x e k =
        let ((a, c, heap), called, e₁) = >>=-eq-ok (L.call_two w.heap hook v) _ e in
        elim (Bool-cases (is_decoder a)) [
          | inl named ↦
              let e₂ = rw named at e₁ in
              let ((i, w₁), da, e₃) =
                >>=-eq-ok (describe L fuel a (record w { heap = heap })) _ e₂ in
              let ((j, w₂), dc, e₄) = >>=-eq-ok (describe L fuel c w₁) _ e₃ in
              ok_pair C e₄ (k a c heap i j w₁ w₂ called named da dc)
          | inr not_named ↦ absurd (raised-ne-ok (rw not_named at e₁))
        ]

    -- What a step of the switch on `v` must do where the value is described by `x`.
    abbrev pub Body : ℕ → Outcome (Encoder L) → List ℕ → Item → World L → Type 0
    Body type r bs x w' =
        IsSendable x → Fits bs (behind x) → (print x ≡ type ∷ behind x) × Emits L r bs (behind x) w'

    table-hook-Emits :
        (t : ℕ) (hook : Option Value) (b : Buf) (bs : List ℕ) (w w' : World L) (x : Item)
        → Holds b bs
        → describe_new_table L (describe L fuel) (describe_table L fuel) hook t w ≡ ok (x, w')
        → Body 5
            (encode_new_table L (encode_value L fuel) (encode_table L fuel) hook t (enc L b w))
            bs
            x
            w'
    unfolding describe_new_table encode_new_table print
    table-hook-Emits t (some hook) b bs w w' x h e =
        hook_cases
          (Body 5
            (encoder_hook L (encode_value L fuel) (encode_table L fuel) hook (Value.table t)
              (enc L b w))
            bs)
          table_usr hook (Value.table t) w w' x e
          λ a c heap i j w₁ w₂ called named da dc (si, sj) fits. (
            refl,
            hook-Emits hook (Value.table t) a c heap b bs w w₁ w₂ i j called named da dc si sj h
                fits,
          )
    table-hook-Emits t none b bs w w' x h e =
        let ((es, w₁), de, e₁) = >>=-eq-ok (describe_table L fuel t Value.nil w) _ e in
        ok_pair
          (Body 5
            (encode_new_table L (encode_value L fuel) (encode_table L fuel) none t (enc L b w)) bs)
          e₁
          λ s fits. (
            refl,
            Emits-then L _ _ bs (codec_tval ∷ []) (print_entries es) w w₁
                (put-Emits L b bs w h codec_tval (omega arith) (omega arith))
                λ b₁ h₁.
                  et t Value.nil b₁ _ w w₁ es de s h₁
                    (omega (arith, length-append bs (codec_tval ∷ []))),
          )

    pub table-Emits :
        (t : ℕ) (ref : Option ℕ) (b : Buf) (bs : List ℕ) (w w' : World L) (x : Item)
        → Holds b bs
        → describe_seen_table L (describe L fuel) (describe_table L fuel) ref t w ≡ ok (x, w')
        → Body 5
            (encode_seen_table L (encode_value L fuel) (encode_table L fuel) ref t (enc L b w))
            bs
            x
            w'
    unfolding describe_seen_table encode_seen_table print
    table-Emits t (some k) b bs w w' x h e =
        ok_pair (Body 5 (encode_ref L k (enc L b w)) bs) e
          λ s fits. (refl, ref-Emits k b bs w s h fits)
    table-Emits t none b bs w w' x h e = table-hook-Emits t _ b bs _ w' x h e

    pub userdata-Emits :
        (u : ℕ) (hook : Option Value) (b : Buf) (bs : List ℕ) (w w' : World L) (x : Item)
        → Holds b bs
        → describe_userdata L (describe L fuel) (describe_table L fuel) hook u w ≡ ok (x, w')
        → Body 7
            (encode_userdata_hook L (encode_value L fuel) (encode_table L fuel) hook u (enc L b w))
            bs
            x
            w'
    unfolding describe_userdata encode_userdata_hook print
    userdata-Emits u (some hook) b bs w w' x h e =
        hook_cases
          (Body 7
            (encoder_hook L (encode_value L fuel) (encode_table L fuel) hook (Value.userdata u)
              (enc L b w))
            bs)
          userdata hook (Value.userdata u) w w' x e
          λ a c heap i j w₁ w₂ called named da dc (si, sj) fits. (
            refl,
            hook-Emits hook (Value.userdata u) a c heap b bs w w₁ w₂ i j called named da dc si sj h
                fits,
          )
    userdata-Emits u none b bs w w' x h e = absurd (raised-ne-ok e)
