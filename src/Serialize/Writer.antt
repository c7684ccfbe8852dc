-- ===== src/Serialize/Writer.antt =====
-- The encoder's steps on a buffer of known content.
use rava.Base.{
  ℕ, ◌+◌, ◌^◌, ◌≤◌, ◌<◌, ◌≡◌, refl, sym, ◌∙◌, subst, subst₂, arith, List, [], ◌∷◌, ◌++◌, length,
  length-append, append_assoc, append-nil,
}
use rava.Outcome.{Outcome, Error, ok, raised, fault, aborted, stuck, ◌>>=◌}
use rava.Buffer.{Buf, writer, buf_write, load_many}
use rava.Buffer.Growth.{Holds}
use rava.Buffer.Content.{put-Holds, write-Holds}
use rava.Buffer.Uleb.{uleb128, write_uleb128-Holds}
use rava.Buffer.Reading.{Reads, load_many-Reads, Holds-Ahead}
use rava.Lua.{Lua}
use rava.Serialize.{Encoder, put, write, write_uleb128, dump_to}
use rava.Serialize.Build.{World}
use rava.Serialize.Describe.{concat}

pub >>=-eq-ok {ℓ κ} :
    {A : Type ℓ} {B : Type κ} (r : Outcome A) (k : A → Outcome B) {c : B}
    → (r >>= k) ≡ ok c
    → (a : A) × (r ≡ ok a) × (k a ≡ ok c)
>>=-eq-ok (ok a) k e = (a, refl, e)
>>=-eq-ok (raised x) k e = cc
>>=-eq-ok fault k e = cc
>>=-eq-ok aborted k e = cc
>>=-eq-ok stuck k e = cc

pub raised-ne-ok {ℓ} : {A : Type ℓ} {e : Error} {a : A} → raised e ≡ ok a → ⊥
raised-ne-ok h = cc

pub aborted-ne-ok {ℓ} : {A : Type ℓ} {a : A} → aborted ≡ ok a → ⊥
aborted-ne-ok h = cc

pub stuck-ne-ok {ℓ} : {A : Type ℓ} {a : A} → stuck ≡ ok a → ⊥
stuck-ne-ok h = cc

-- What holds of a pair holds of any pair that the same run returned.
pub ok_pair {ℓ} :
    {A B : Type 0} (C : A → B → Type ℓ) {a a' : A} {b b' : B}
    → ◌≡◌ {A = Outcome (A × B)} (ok (a, b)) (ok (a', b'))
    → C a b
    → C a' b'
ok_pair C e c = subst₂ C (cc) (cc) c

module _ (L : Lua) where
  -- The encoder with this buffer.
  abbrev pub enc : Buf → World L → Encoder L
  enc b w = record { buf = b; seen = w.seen; heap = w.heap }

  -- The step returns with `out` appended to the content.
  abbrev pub Emits : Outcome (Encoder L) → List ℕ → List ℕ → World L → Type 0
  Emits r bs out w = (b : Buf) × (r ≡ ok (enc b w)) × Holds b (bs ++ out)

  pub Emits-then :
      (r : Outcome (Encoder L)) (F : Encoder L → Outcome (Encoder L)) (bs xs ys : List ℕ)
      (w w' : World L)
      → Emits r bs xs w
      → ((b : Buf) → Holds b (bs ++ xs) → Emits (F (enc b w)) (bs ++ xs) ys w')
      → Emits (r >>= F) bs (xs ++ ys) w'
  Emits-then r F bs xs ys w w' (b, e, h) k =
      let (b', e', h') = k b h in (b', rw e e', subst (Holds b') (append_assoc bs xs ys) h')

  module _ (b : Buf) (bs : List ℕ) (w : World L) (h : Holds b bs) where
    pub put-Emits :
        (x : ℕ) → x < 256 → length bs + 1 ≤ 2 ^ 63 → Emits (put L x (enc b w)) bs (x ∷ []) w
    put-Emits x byte small = let (b', e, h') = put-Holds b bs x h byte small in (b', rw e, h')

    pub write-Emits :
        (xs : List ℕ) → length bs + length xs ≤ 2 ^ 63 → Emits (write L xs (enc b w)) bs xs w
    write-Emits xs small = let (b', e, h') = write-Holds b bs xs h small in (b', rw e, h')

    pub uleb-Emits :
        (n : ℕ)
        → n < 2 ^ 32
        → length bs + 5 ≤ 2 ^ 63
        → Emits (write_uleb128 L n (enc b w)) bs (uleb128 n) w
    uleb-Emits n word small =
        let (b', e, h') = write_uleb128-Holds b bs n h word small in (b', rw e, h')

  pub nothing-Emits :
      (b : Buf) (bs : List ℕ) (w : World L) → Holds b bs → Emits (ok (enc b w)) bs [] w
  nothing-Emits b bs w h = (b, refl, subst (Holds b) (sym (append-nil bs)) h)

pub load_many-Holds : (b : Buf) (bs : List ℕ) → Holds b bs → load_many b.cells 0 b.head ≡ ok bs
load_many-Holds b bs h = rw h.ends (
    load_many-Reads b.cells 0 bs []
      (subst (λ t. Reads b.cells 0 t) (sym (append-nil bs)) (Holds-Ahead b bs h)))

dump_then :
    (piece : List ℕ) (pieces : List (List ℕ)) (b : Buf) {b' : Buf}
    → buf_write b piece ≡ ok b'
    → dump_to (piece ∷ pieces) b ≡ dump_to pieces b'
unfolding dump_to writer
dump_then piece pieces b e = rw e

-- lua_dump leaves its pieces in the scratch buffer, one behind the other.
pub dump_to-Holds :
    (pieces : List (List ℕ)) (b : Buf) (bs : List ℕ)
    → Holds b bs
    → length bs + length (concat pieces) ≤ 2 ^ 63
    → (b' : Buf) × (dump_to pieces b ≡ ok b') × Holds b' (bs ++ concat pieces)
unfolding concat
dump_to-Holds [] b bs h small = (b, unfold dump_to in refl, subst (Holds b) (sym (append-nil bs)) h)
dump_to-Holds (piece ∷ pieces) b bs h small =
    let sum = length-append piece (concat pieces) in
    let (b₁, e, h₁) = write-Holds b bs piece h (omega arith) in
    let (b', e', h') =
      dump_to-Holds pieces b₁ (bs ++ piece) h₁ (omega (arith, length-append bs piece)) in
    (
      b',
      dump_then piece pieces b e ∙ e',
      subst (Holds b') (append_assoc bs piece (concat pieces)) h',
    )
