-- ===== src/Serialize/Links.antt =====
-- Which table of the reader is the copy of which table of the writer, for the serializer of
-- src/rava_core_serialize.c: the two tables `seen` side by side.
use rava.Base.{
  ℕ, suc, ◌+◌, ◌≡◌, refl, sym, ap, ◌∙◌, arith, ◌⊎◌, inl, inr, Bool, true, false, List, [], ◌∷◌,
  ◌++◌, map, map-append, none, some, ◌==◌, if◌then◌else◌,
}
use rava.Lua.{Value, table}
use rava.Serialize.{ref_from, ref_of}
use rava.Serialize.Decode.{seen_at}
use rava.Serialize.Plain.{IsLeaf}

abbrev pub Links : Type 0
Links = List (ℕ × ℕ)

abbrev pub Linked : Links → ℕ → ℕ → Type 0
Linked [] t u = ⊥
Linked ((a, b) ∷ ls) t u = ((t ≡ a) × (u ≡ b)) ⊎ Linked ls t u

unfoldable pub sources : Links → List Value
sources ls = map (λ (p : ℕ × ℕ). table p.0) ls

unfoldable pub targets : Links → List Value
targets ls = map (λ (p : ℕ × ℕ). table p.1) ls

pub sources-last : (ls : Links) (t u : ℕ) → sources ls ++ table t ∷ [] ≡ sources (ls ++ (t, u) ∷ [])
unfolding sources
sources-last ls t u = sym (map-append _ ls ((t, u) ∷ []))

pub targets-last : (ls : Links) (t u : ℕ) → targets ls ++ table u ∷ [] ≡ targets (ls ++ (t, u) ∷ [])
unfolding targets
targets-last ls t u = sym (map-append _ ls ((t, u) ∷ []))

pub Linked-append : (ls ms : Links) (t u : ℕ) → Linked ls t u → Linked (ls ++ ms) t u
Linked-append [] ms t u m = elim m [ ]
Linked-append ((a, b) ∷ ls) ms t u (inl e) = inl e
Linked-append ((a, b) ∷ ls) ms t u (inr m) = inr (Linked-append ls ms t u m)

pub Linked-last : (ls : Links) (t u : ℕ) → Linked (ls ++ (t, u) ∷ []) t u
Linked-last [] t u = inl (refl, refl)
Linked-last ((a, b) ∷ ls) t u = inr (Linked-last ls t u)

pub Linked-inv :
    (ls : Links) (a b t u : ℕ)
    → Linked (ls ++ (a, b) ∷ []) t u
    → Linked ls t u ⊎ ((t ≡ a) × (u ≡ b))
Linked-inv [] a b t u (inl e) = inr e
Linked-inv [] a b t u (inr m) = elim m [ ]
Linked-inv (p ∷ ls) a b t u (inl e) = inl (inl e)
Linked-inv (p ∷ ls) a b t u (inr m) = later (Linked-inv ls a b t u m)
  where
    later : Linked ls t u ⊎ ((t ≡ a) × (u ≡ b)) → Linked (p ∷ ls) t u ⊎ ((t ≡ a) × (u ≡ b))
    later (inl l) = inl (inr l)
    later (inr e) = inr e

-- The number of a table leads to its copy.
found_from :
    (ls : Links) (n t ref : ℕ)
    → ref_from n (sources ls) (table t) ≡ some ref
    → (m : ℕ) × (u : ℕ) × (ref ≡ n + m) × Linked ls t u × (seen_at (targets ls) (suc m) ≡ table u)
unfolding ref_from sources targets
found_from [] n t ref e = cc
found_from ((a, b) ∷ ls) n t ref e = split (a == t) refl e (λ e'. found_from ls (n + 1) t ref e')
  where
    split :
        (test : Bool)
        → (a == t) ≡ test
        → (if test then some n else ref_from (n + 1) (sources ls) (table t)) ≡ some ref
        → (ref_from (n + 1) (sources ls) (table t) ≡ some ref
            → (m : ℕ) × (u : ℕ) × (ref ≡ n + 1 + m)
              × Linked ls t u
              × (seen_at (targets ls) (suc m) ≡ table u))
        → (m : ℕ) × (u : ℕ) × (ref ≡ n + m)
          × Linked ((a, b) ∷ ls) t u
          × (seen_at (table b ∷ targets ls) (suc m) ≡ table u)
    split true same e rest = (0, b, ground arith, inl (ground arith, refl), refl)
    split false other e rest =
        let (m, u, at, l, r) = rest e in (suc m, u, omega (arith, at), inr l, r)

pub ref_of-Linked :
    (ls : Links) (t ref : ℕ)
    → ref_of (sources ls) (table t) ≡ some ref
    → (u : ℕ) × Linked ls t u × (seen_at (targets ls) ref ≡ table u)
unfolding ref_of
ref_of-Linked ls t ref e =
    let (m, u, at, l, r) = found_from ls 1 t ref e in
    let place : ref ≡ suc m = omega (arith, at) in (u, l, ap (seen_at (targets ls)) place ∙ r)

missing_from :
    (ls : Links) (n t u : ℕ) → ref_from n (sources ls) (table t) ≡ none → Linked ls t u → ⊥
unfolding ref_from sources
missing_from [] n t u e m = m
missing_from ((a, b) ∷ ls) n t u e m = split (a == t) refl e m (missing_from ls (n + 1) t u)
  where
    split :
        (test : Bool)
        → (a == t) ≡ test
        → (if test then some n else ref_from (n + 1) (sources ls) (table t)) ≡ none
        → Linked ((a, b) ∷ ls) t u
        → (ref_from (n + 1) (sources ls) (table t) ≡ none → Linked ls t u → ⊥)
        → ⊥
    split true same e m rest = cc
    split false other e (inl (p, q)) rest = ground arith
    split false other e (inr m) rest = rest e m

pub ref_of-unlinked :
    (ls : Links) (t u : ℕ) → ref_of (sources ls) (table t) ≡ none → Linked ls t u → ⊥
unfolding ref_of
ref_of-unlinked ls t u e m = missing_from ls 1 t u e m

-- A copied value: the same data, or the linked table.
pub data Copy (ls : Links) : Value → Value → Type 0 where
  same : (v : Value) → IsLeaf v → Copy ls v v
  linked : (t u : ℕ) → Linked ls t u → Copy ls (table t) (table u)

abbrev pub Extends : Links → Links → Type 0
Extends ls ms = (t u : ℕ) → Linked ls t u → Linked ms t u

pub Copy-extend : (ls ms : Links) (v v' : Value) → Extends ls ms → Copy ls v v' → Copy ms v v'
Copy-extend ls ms v v' ext (same x leaf) = same x leaf
Copy-extend ls ms v v' ext (linked t u l) = linked t u (ext t u l)

-- Different objects have different copies.
pub Copy-injective :
    (ls : Links) (v w c : Value)
    → ((t t' u : ℕ) → Linked ls t u → Linked ls t' u → t ≡ t')
    → Copy ls v c
    → Copy ls w c
    → v ≡ w
Copy-injective ls v w c once (same x leaf) (same y leaf') = refl
Copy-injective ls v w c once (same x leaf) (linked t u l) = elim leaf [ ]
Copy-injective ls v w c once (linked t u l) (same x leaf) = elim leaf [ ]
Copy-injective ls v w c once (linked t u l) (linked t' u' l') = ap table (once t t' u l l')

abbrev pub CopyAll : Links → List Value → List Value → Type 0
CopyAll ls [] [] = Unit {0}
CopyAll ls (v ∷ vs) (c ∷ cs) = Copy ls v c × CopyAll ls vs cs
CopyAll ls _ _ = ⊥

-- `c` is the copy of a key of these entries.
abbrev pub KeyCopy : Links → List (Value × Value) → Value → Type 0
KeyCopy ls [] c = ⊥
KeyCopy ls ((k, v) ∷ es) c = Copy ls k c ⊎ KeyCopy ls es c

pub KeyCopy-extend :
    (ls ms : Links) (es : List (Value × Value)) (c : Value)
    → Extends ls ms
    → KeyCopy ls es c
    → KeyCopy ms es c
KeyCopy-extend ls ms [] c ext m = m
KeyCopy-extend ls ms ((k, v) ∷ es) c ext (inl m) = inl (Copy-extend ls ms k c ext m)
KeyCopy-extend ls ms ((k, v) ∷ es) c ext (inr m) = inr (KeyCopy-extend ls ms es c ext m)

abbrev pub KeyIn : List (Value × Value) → Value → Type 0
KeyIn [] k = ⊥
KeyIn ((k', v) ∷ es) k = (k' ≡ k) ⊎ KeyIn es k

pub KeyCopy-KeyIn :
    (ls : Links) (es : List (Value × Value)) (k c : Value)
    → ((t t' u : ℕ) → Linked ls t u → Linked ls t' u → t ≡ t')
    → Copy ls k c
    → KeyCopy ls es c
    → KeyIn es k
KeyCopy-KeyIn ls [] k c once p m = m
KeyCopy-KeyIn ls ((k', v) ∷ es) k c once p (inl q) = inl (Copy-injective ls k' k c once q p)
KeyCopy-KeyIn ls ((k', v) ∷ es) k c once p (inr m) = inr (KeyCopy-KeyIn ls es k c once p m)
