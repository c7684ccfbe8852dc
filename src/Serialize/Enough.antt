-- ===== src/Serialize/Enough.antt =====
-- How many rounds `decode_value` of src/rava_core_serialize.c needs for the bytes of items.
use rava.Base.{ℕ, ◌+◌, ◌*◌, ◌≤◌, arith, List, [], ◌∷◌, ◌++◌, length, length-append}
use rava.Buffer.Uleb.{uleb128}
use rava.Serialize.Format.{Item, Entries, end, entry, print, print_entries, rounds, rounds_entries}
use rava.Serialize.RoundTrip.{print_all, RoundsWithin}

mutual
  unfolding rounds print

  rounds-print : (i : Item) → rounds i + 1 ≤ 2 * length (print i)
  rounds-print Item.nil = omega arith
  rounds-print (Item.boolean b) = omega arith
  rounds-print (Item.lightuserdata p) = omega arith
  rounds-print (Item.number p) = omega arith
  rounds-print (Item.str x) = omega arith
  rounds-print (Item.table_ref k) = omega arith
  rounds-print (Item.table_val es) = omega (arith, rounds-print_entries es)
  rounds-print (Item.table_usr a b) =
      omega (arith, length-append (print a) (print b), rounds-print a, rounds-print b)
  rounds-print (Item.function_ref k) = omega arith
  rounds-print (Item.function_val code es) = omega (
    arith,
    length-append (uleb128 (length code)) (code ++ print_entries es),
    length-append code (print_entries es),
    rounds-print_entries es,
  )
  rounds-print (Item.userdata a b) =
      omega (arith, length-append (print a) (print b), rounds-print a, rounds-print b)

  rounds-print_entries : (es : Entries) → rounds_entries es ≤ 2 + 2 * length (print_entries es)
  rounds-print_entries end = omega arith
  rounds-print_entries (entry k v es) = omega (
    arith,
    length-append (print k) (print v ++ print_entries es),
    length-append (print v) (print_entries es),
    rounds-print k,
    rounds-print v,
    rounds-print_entries es,
  )

-- Twice as many rounds as bytes are enough to read items.
pub print_all-RoundsWithin :
    (is : List Item) (fuel : ℕ) → 2 * length (print_all is) ≤ fuel → RoundsWithin fuel is
unfolding print_all
print_all-RoundsWithin [] fuel le = tt
print_all-RoundsWithin (i ∷ is) fuel le =
    let len = length-append (print i) (print_all is) in
    (
      omega (arith, rounds-print i, len, le),
      print_all-RoundsWithin is fuel (omega (arith, len, le)),
    )
