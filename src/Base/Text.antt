-- ===== src/Base/Text.antt =====
-- Texts as lists of bytes, and `strcmp`.
use Prim.Native.Char.{code}
use Prim.Native.String.{String}
use Prim.Native.Nat.{ℕ}
use mathlib.Core.Path.{◌≡◌, refl}
use mathlib.Core.Bool.{Bool, true, false, ◌&&◌}
use mathlib.Core.List.{List, [], ◌∷◌}
use native.Mathlib.Omega.{arith}
use rava.Base.Tests.{◌==◌, ==_iff, ==_refl}

-- The bytes of an ASCII text.
abbrev pub codes : String → List ℕ
codes String.[] = []
codes (String.◌∷◌ c s) = code c ∷ codes s

-- `strcmp(a, b) == 0`
unfoldable pub same_text : List ℕ → List ℕ → Bool
same_text [] [] = true
same_text (x ∷ xs) (y ∷ ys) = (x == y) && same_text xs ys
same_text _ _ = false

pub same_text_refl : (s : List ℕ) → same_text s s ≡ true
unfolding same_text
same_text_refl [] = refl
same_text_refl (x ∷ xs) = ground (arith, ==_refl x, same_text_refl xs)

pub same_text-eq : (s r : List ℕ) → same_text s r ≡ true → s ≡ r
unfolding same_text
same_text-eq [] [] h = refl
same_text-eq [] (y ∷ ys) h = absurd cc
same_text-eq (x ∷ xs) [] h = absurd cc
same_text-eq (x ∷ xs) (y ∷ ys) h = ground (arith, ==_iff x y, same_text-eq xs ys)
