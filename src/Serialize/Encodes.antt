-- ===== src/Serialize/Encodes.antt =====
-- The encoder writes the format, on every value.
use rava.Base.{
  ℕ, zero, suc, ◌+◌, ◌^◌, ◌≤◌, ◌<◌, ◌≡◌, refl, sym, ap, ◌∙◌, subst, arith, true, false, List, [],
  ◌∷◌, ◌++◌, Option, none, some, length, length-append, append_assoc, ◌==◌, inl, inr, Bool-cases,
}
use rava.Outcome.{ok, stuck, ◌>>=◌}
use rava.Buffer.{Buf, null_buf}
use rava.Buffer.Growth.{Holds}
use rava.Buffer.Content.{null-Holds}
use rava.Buffer.Uleb.{uleb128}
use rava.Lua.{Value, lua_type, Lua}
use rava.Serialize.{
  put, write, write_uleb128, encode_ref, encode_new_function, encode_upvalues, copy_upvalues,
  encode_seen_function, encode_body, encode_pair, encode_value, encode_table, codec_tval,
}
use rava.Serialize.Encoding.{
  Fits, behind, Encodes, EncodesTable, Body, ref-Emits, table-Emits, userdata-Emits,
}
use rava.Serialize.Format.{Item, Entries, nil, print, print_entries, IsSendable, AreSendable}
use rava.Serialize.Build.{World, number_object}
use rava.Serialize.Describe.{
  describe, describe_table, describe_body, describe_pair, describe_upvalues, describe_new_function,
  describe_seen_function, concat,
}
use rava.Serialize.Writer.{
  >>=-eq-ok, ok_pair, raised-ne-ok, aborted-ne-ok, stuck-ne-ok, enc, Emits, Emits-then, put-Emits,
  write-Emits, uleb-Emits, nothing-Emits, load_many-Holds, dump_to-Holds,
}

pub behind-length : (x : Item) → length (print x) ≡ length (behind x) + 1
unfolding print
behind-length nil = refl
behind-length _ = omega arith

module _ (L : Lua) where
  describe_nil :
      (fuel : ℕ) (w w' : World L) (i : Item) → describe L fuel Value.nil w ≡ ok (i, w') → i ≡ nil
  unfolding describe describe_body
  describe_nil zero w w' i e = absurd (stuck-ne-ok e)
  describe_nil (suc fuel) w w' i e = ok_pair (λ j w''. j ≡ nil) e refl

  describe-zero : (v : Value) (w : World L) → describe L zero v w ≡ stuck
  unfolding describe
  describe-zero v w = refl

  describe_table-zero : (t : ℕ) (key : Value) (w : World L) → describe_table L zero t key w ≡ stuck
  unfolding describe
  describe_table-zero t key w = refl

  module _ (fuel : ℕ) (ev : Encodes L fuel) (et : EncodesTable L fuel) where
    upvalues-Emits :
        (g : ℕ) (b : Buf) (bs : List ℕ) (w w' : World L) (es : Entries)
        → describe_upvalues L (describe L fuel) (describe_table L fuel) g w ≡ ok (es, w')
        → AreSendable es
        → Holds b bs
        → Fits bs (print_entries es)
        → Emits L
            (encode_upvalues L (encode_value L fuel) (encode_table L fuel) g (enc L b w))
            bs
            (print_entries es)
            w'
    unfolding describe_upvalues encode_upvalues
    upvalues-Emits g b bs w w' es e s h fits =
        let t = (L.new_table w.heap).0 in
        let heap = copy_upvalues L (L.nups w.heap g) 1 g t (L.new_table w.heap).1 in
        elim (Bool-cases (L.obj_len heap t == L.nups w.heap g)) [
          | inl full ↦
              rw full (et t Value.nil b bs (record w { heap = heap }) w' es (rw full at e) s h fits)
          | inr short ↦ absurd (aborted-ne-ok (rw short at e))
        ]

    function_code-Emits :
        (code : List ℕ) (pieces : List (List ℕ)) (es : Entries) (b : Buf) (bs : List ℕ) (g : ℕ)
        (w w' : World L)
        → L.dump w.heap g ≡ pieces
        → concat pieces ≡ code
        → describe_upvalues L
            (describe L fuel)
            (describe_table L fuel)
            g
            (number_object L (Value.function g) w)
          ≡ ok (es, w')
        → length code < 2 ^ 32
        → AreSendable es
        → Holds b bs
        → Fits bs (codec_tval ∷ (uleb128 (length code) ++ (code ++ print_entries es)))
        → Emits L
            (encode_new_function L (encode_value L fuel) (encode_table L fuel) g (enc L b w))
            bs
            (codec_tval ∷ (uleb128 (length code) ++ (code ++ print_entries es)))
            w'
    unfolding encode_new_function
    function_code-Emits code pieces es b bs g w w' dumped joined e word s h fits =
        let w₁ = number_object L (Value.function g) w in
        let len = uleb128 (length code) in
        let l₁ = length-append bs (codec_tval ∷ []) in
        let l₂ = length-append len (code ++ print_entries es) in
        let l₃ = length-append code (print_entries es) in
        let l₄ = ap length joined in
        let (scratch, dump, hs) = dump_to-Holds pieces null_buf [] null-Holds (omega (arith, l₄)) in
        let hc : Holds scratch code = subst (Holds scratch) joined hs in
        Emits-then L _ _ bs (codec_tval ∷ []) (len ++ (code ++ print_entries es)) w₁ w'
          (put-Emits L b bs w₁ h codec_tval (omega arith) (omega arith))
          λ b₁ h₁.
            rw (dumped, dump, load_many-Holds scratch code hc, hc.ends)
              (Emits-then L _ _ (bs ++ codec_tval ∷ []) len (code ++ print_entries es) w₁ w'
                (uleb-Emits L b₁ _ w₁ h₁ (length code) word (omega arith))
                λ b₂ h₂.
                  let l₅ = length-append (bs ++ codec_tval ∷ []) len in
                  Emits-then L _ _ _ code (print_entries es) w₁ w'
                    (write-Emits L b₂ _ w₁ h₂ code (omega arith))
                    λ b₃ h₃.
                      let l₆ = length-append ((bs ++ codec_tval ∷ []) ++ len) code in
                      upvalues-Emits g b₃ _ w₁ w' es e s h₃ (omega arith))

    new-function-Emits :
        (g : ℕ) (b : Buf) (bs : List ℕ) (w w' : World L) (x : Item)
        → Holds b bs
        → describe_new_function L
            (describe L fuel)
            (describe_table L fuel)
            g
            (number_object L (Value.function g) w)
          ≡ ok (x, w')
        → Body L fuel ev et 6
            (encode_new_function L (encode_value L fuel) (encode_table L fuel) g (enc L b w))
            bs
            x
            w'
    unfolding describe_new_function print
    new-function-Emits g b bs w w' x h e =
        let w₀ = number_object L (Value.function g) w in
        let ((es, w₁), de, e₁) =
          >>=-eq-ok (describe_upvalues L (describe L fuel) (describe_table L fuel) g w₀) _ e in
        ok_pair
          (Body L fuel ev et 6
            (encode_new_function L (encode_value L fuel) (encode_table L fuel) g (enc L b w)) bs)
          e₁
          λ s fits. (
            refl,
            function_code-Emits (concat (L.dump w.heap g)) (L.dump w.heap g) es b bs g w w₁ refl
                refl de s.0 s.1 h fits,
          )

    function-Emits :
        (g : ℕ) (ref : Option ℕ) (b : Buf) (bs : List ℕ) (w w' : World L) (x : Item)
        → Holds b bs
        → describe_seen_function L (describe L fuel) (describe_table L fuel) ref g w ≡ ok (x, w')
        → Body L fuel ev et 6
            (encode_seen_function L (encode_value L fuel) (encode_table L fuel) ref g (enc L b w))
            bs
            x
            w'
    unfolding describe_seen_function encode_seen_function print
    function-Emits g (some k) b bs w w' x h e =
        ok_pair (Body L fuel ev et 6 (encode_ref L k (enc L b w)) bs) e
          λ s fits. (refl, ref-Emits L fuel ev et k b bs w s h fits)
    function-Emits g none b bs w w' x h e = elim (Bool-cases (L.is_lua w.heap g)) [
      | inr c ↦ absurd (raised-ne-ok (rw c at e))
      | inl lua ↦ rw lua (new-function-Emits g b bs w w' x h (rw lua at e))
    ]

    Body-Emits :
        (v : Value) (b : Buf) (bs : List ℕ) (w w' : World L) (x : Item)
        → Holds b bs
        → describe_body L (describe L fuel) (describe_table L fuel) v w ≡ ok (x, w')
        → Body L fuel ev et
            (lua_type v)
            (encode_body L (encode_value L fuel) (encode_table L fuel) v (enc L b w))
            bs
            x
            w'
    unfolding describe_body encode_body print
    Body-Emits Value.nil b bs w w' x h e =
        ok_pair (Body L fuel ev et 0 (ok (enc L b w)) bs) e
          λ s fits. (refl, nothing-Emits L b bs w h)
    Body-Emits (Value.boolean true) b bs w w' x h e =
        ok_pair (Body L fuel ev et 1 (put L 1 (enc L b w)) bs) e
          λ s fits. (refl, put-Emits L b bs w h 1 (omega arith) (omega arith))
    Body-Emits (Value.boolean false) b bs w w' x h e =
        ok_pair (Body L fuel ev et 1 (put L 0 (enc L b w)) bs) e
          λ s fits. (refl, put-Emits L b bs w h 0 (omega arith) (omega arith))
    Body-Emits (Value.lightuserdata p) b bs w w' x h e =
        ok_pair (Body L fuel ev et 2 (write L p (enc L b w)) bs) e
          λ s fits. (refl, write-Emits L b bs w h p (omega arith))
    Body-Emits (Value.number p) b bs w w' x h e =
        ok_pair (Body L fuel ev et 3 (write L p (enc L b w)) bs) e
          λ s fits. (refl, write-Emits L b bs w h p (omega arith))
    Body-Emits (Value.str p) b bs w w' x h e =
        let len = uleb128 (length p) in
        ok_pair (Body L fuel ev et 4 (write_uleb128 L (length p) (enc L b w) >>= write L p) bs) e
          λ s fits. (
            refl,
            Emits-then L _ _ bs len p w w (uleb-Emits L b bs w h (length p) s (omega arith))
                λ b₁ h₁.
                  write-Emits L b₁ _ w h₁ p
                    (omega (arith, length-append bs len, length-append len p)),
          )
    Body-Emits (Value.table t) b bs w w' x h e = table-Emits L fuel ev et t _ b bs w w' x h e
    Body-Emits (Value.function g) b bs w w' x h e = function-Emits g _ b bs w w' x h e
    Body-Emits (Value.userdata u) b bs w w' x h e = userdata-Emits L fuel ev et u _ b bs w w' x h e
    Body-Emits (Value.thread t) b bs w w' x h e = absurd (raised-ne-ok e)

    lua_type-lt : (v : Value) → lua_type v < 256
    lua_type-lt Value.nil = omega arith
    lua_type-lt _ = omega arith

    value-Encodes : Encodes L (suc fuel)
    unfolding describe encode_value
    value-Encodes v b bs w w' x e s h fits =
        let size = behind-length x in
        let l = length-append bs (lua_type v ∷ []) in
        let (b₁, eq, h₁) = put-Emits L b bs w h (lua_type v) (lua_type-lt v) (omega arith) in
        let (starts, (b₂, eq₂, h₂)) =
          Body-Emits v b₁ (bs ++ lua_type v ∷ []) w w' x h₁ e s (omega arith) in
        (
          b₂,
          rw eq eq₂,
          subst (Holds b₂)
              (append_assoc bs (lua_type v ∷ []) (behind x) ∙ ap (λ t. bs ++ t) (sym starts)) h₂,
        )

    pair-Emits :
        (t : ℕ) (pair : Option (Value × Value)) (b : Buf) (bs : List ℕ) (w w' : World L)
        (es : Entries)
        → describe_pair L (describe L fuel) (describe_table L fuel) t pair w ≡ ok (es, w')
        → AreSendable es
        → Holds b bs
        → Fits bs (print_entries es)
        → Emits L
            (encode_pair L (encode_value L fuel) (encode_table L fuel) t pair (enc L b w))
            bs
            (print_entries es)
            w'
    unfolding describe_pair encode_pair print
    pair-Emits t none b bs w w' es e =
        let ((i, w₁), de, e₁) = >>=-eq-ok (describe L fuel Value.nil w) _ e in
        let only = describe_nil fuel w w₁ i de in
        ok_pair
          (λ es w'.
            AreSendable es
            → Holds b bs
            → Fits bs (print_entries es)
            → Emits L (encode_value L fuel Value.nil (enc L b w)) bs (print_entries es) w')
          e₁
          λ s h fits.
            ev Value.nil b bs w w₁ nil
              (subst (λ j. describe L fuel Value.nil w ≡ ok (j, w₁)) only de) tt h fits
    pair-Emits t (some (k, v)) b bs w w' es e =
        let ((i, w₁), dk, e₁) = >>=-eq-ok (describe L fuel k w) _ e in
        let ((j, w₂), dv, e₂) = >>=-eq-ok (describe L fuel v w₁) _ e₁ in
        let ((rest, w₃), dr, e₃) = >>=-eq-ok (describe_table L fuel t k w₂) _ e₂ in
        let l₁ = length-append (print i) (print j ++ print_entries rest) in
        let l₂ = length-append (print j) (print_entries rest) in
        let l₃ = length-append bs (print i) in
        ok_pair
          (λ es w'.
            AreSendable es
            → Holds b bs
            → Fits bs (print_entries es)
            → Emits L
                (encode_pair L (encode_value L fuel) (encode_table L fuel) t (some (k, v))
                  (enc L b w))
                bs (print_entries es) w')
          e₃
          λ s h fits.
            Emits-then L _ _ bs (print i) (print j ++ print_entries rest) w₁ w₃
              (ev k b bs w w₁ i dk s.1 h (omega arith))
              λ b₁ h₁.
                Emits-then L _ _ (bs ++ print i) (print j) (print_entries rest) w₂ w₃
                  (ev v b₁ _ w₁ w₂ j dv s.2 h₁ (omega arith))
                  λ b₂ h₂.
                    et t k b₂ _ w₂ w₃ rest dr s.3 h₂
                      (omega (arith, length-append (bs ++ print i) (print j)))

    table-Encodes : EncodesTable L (suc fuel)
    unfolding describe encode_value
    table-Encodes t key b bs w w' es e s h fits =
        let (pair, next, e₁) = >>=-eq-ok (L.next w.heap t key) _ e in
        rw next (pair-Emits t pair b bs w w' es e₁ s h fits)

  both : (fuel : ℕ) → Encodes L fuel × EncodesTable L fuel
  both zero = (
    λ v b bs w w' i e s h fits. absurd (stuck-ne-ok (rw describe-zero at e)),
    λ t key b bs w w' es e s h fits. absurd (stuck-ne-ok (rw describe_table-zero at e)),
  )
  both (suc fuel) = let (ev, et) = both fuel in (value-Encodes fuel ev et, table-Encodes fuel ev et)

-- Where a value is described by an item whose sizes fit, `encode_value` returns on a buffer of any
-- content, with exactly the item's bytes appended, the same objects numbered and the same heap.
pub encode_value-print :
    (L : Lua) (fuel : ℕ) (v : Value) (b : Buf) (bs : List ℕ) (w w' : World L) (i : Item)
    → describe L fuel v w ≡ ok (i, w')
    → IsSendable i
    → Holds b bs
    → length bs + length (print i) + 8 ≤ 2 ^ 63
    → (b' : Buf) × (encode_value L fuel v (enc L b w) ≡ ok (enc L b' w')) × Holds b' (bs ++ print i)
encode_value-print L fuel = (both L fuel).0
