-- ===== src/Serialize/Refs.antt =====
-- The table `seen` of src/rava_core_serialize.c: what it knows stays when an object is added, and the
-- object that is added gets the next number.
use rava.Base.{
  ℕ, suc, ◌+◌, ◌≤◌, ◌<◌, ◌≡◌, ap, ◌∙◌, arith, Bool, true, false, List, [], ◌∷◌, ◌++◌, none, some,
  length, if◌then◌else◌,
}
use rava.Lua.{Value}
use rava.Serialize.{same_object, ref_from, ref_of}

ref_from-found :
    (n ref : ℕ) (xs ys : List Value) (v : Value)
    → ref_from n xs v ≡ some ref
    → ref_from n (xs ++ ys) v ≡ some ref
unfolding ref_from
ref_from-found n ref [] ys v e = cc
ref_from-found n ref (x ∷ xs) ys v e =
    split (same_object x v) e (λ e'. ref_from-found (n + 1) ref xs ys v e')
  where
    split :
        (b : Bool)
        → (if b then some n else ref_from (n + 1) xs v) ≡ some ref
        → (ref_from (n + 1) xs v ≡ some ref → ref_from (n + 1) (xs ++ ys) v ≡ some ref)
        → (if b then some n else ref_from (n + 1) (xs ++ ys) v) ≡ some ref
    split true e rest = e
    split false e rest = rest e

-- What is numbered last has the next number.
ref_from-last :
    (n : ℕ) (xs : List Value) (y v : Value)
    → ref_from n xs v ≡ none
    → ref_from n (xs ++ y ∷ []) v ≡ (if same_object y v then some (n + length xs) else none)
unfolding ref_from
ref_from-last n [] y v e = ap (λ (k : ℕ). if same_object y v then some k else none) (omega arith)
ref_from-last n (x ∷ xs) y v e = split (same_object x v) e (λ e'. ref_from-last (n + 1) xs y v e')
  where
    split :
        (b : Bool)
        → (if b then some n else ref_from (n + 1) xs v) ≡ none
        → (ref_from (n + 1) xs v ≡ none
            → ref_from (n + 1) (xs ++ y ∷ []) v
              ≡ (if same_object y v then some (n + 1 + length xs) else none))
        → (if b then some n else ref_from (n + 1) (xs ++ y ∷ []) v)
          ≡ (if same_object y v then some (n + suc (length xs)) else none)
    split true e rest = cc
    split false e rest =
        rest e ∙ ap (λ (k : ℕ). if same_object y v then some k else none) (omega arith)

ref_from-bound :
    (n ref : ℕ) (xs : List Value) (v : Value) → ref_from n xs v ≡ some ref → ref < n + length xs
unfolding ref_from
ref_from-bound n ref [] v e = cc
ref_from-bound n ref (x ∷ xs) v e =
    split (same_object x v) e (λ e'. ref_from-bound (n + 1) ref xs v e')
  where
    split :
        (b : Bool)
        → (if b then some n else ref_from (n + 1) xs v) ≡ some ref
        → (ref_from (n + 1) xs v ≡ some ref → ref < n + 1 + length xs)
        → ref < n + suc (length xs)
    split true e rest = ground arith
    split false e rest = omega (arith, rest e)

pub ref_of-found :
    (seen ys : List Value) (v : Value) (ref : ℕ)
    → ref_of seen v ≡ some ref
    → ref_of (seen ++ ys) v ≡ some ref
unfolding ref_of
ref_of-found seen ys v ref e = ref_from-found 1 ref seen ys v e

pub ref_of-last :
    (seen : List Value) (y v : Value)
    → ref_of seen v ≡ none
    → ref_of (seen ++ y ∷ []) v ≡ (if same_object y v then some (1 + length seen) else none)
unfolding ref_of
ref_of-last seen y v e = ref_from-last 1 seen y v e

pub ref_of-bound :
    (seen : List Value) (v : Value) (ref : ℕ) → ref_of seen v ≡ some ref → ref ≤ length seen
unfolding ref_of
ref_of-bound seen v ref e = omega (arith, ref_from-bound 1 ref seen v e)
