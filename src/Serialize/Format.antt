-- ===== src/Serialize/Format.antt =====
-- The format of the bytes: one item for each value that is sent.
--
-- This is the contract between the encoder and the decoder of src/rava_core_serialize.c, said
-- without buffers: `print` gives the bytes of an item.
use rava.Base.{ℕ, suc, ◌+◌, ◌^◌, ◌<◌, ◌≡◌, Bool, List, [], ◌∷◌, ◌++◌, length}
use rava.Buffer.Uleb.{uleb128}
use rava.Serialize.{codec_tref, codec_tval, codec_tusr, bool_byte}

mutual
  pub data Item : Type 0 where
    nil : Item
    boolean : Bool → Item
    lightuserdata : List ℕ → Item
    number : List ℕ → Item
    str : List ℕ → Item
    table_ref : ℕ → Item
    table_val : Entries → Item
    table_usr : Item → Item → Item
    function_ref : ℕ → Item
    function_val : List ℕ → Entries → Item
    userdata : Item → Item → Item

  pub data Entries : Type 0 where
    end : Entries
    entry : Item → Item → Entries → Entries

unfoldable mutual
  pub print : Item → List ℕ
  print nil = 0 ∷ []
  print (boolean b) = 1 ∷ bool_byte b ∷ []
  print (lightuserdata p) = 2 ∷ p
  print (number n) = 3 ∷ n
  print (str x) = 4 ∷ (uleb128 (length x) ++ x)
  print (table_ref k) = 5 ∷ codec_tref ∷ uleb128 k
  print (table_val es) = 5 ∷ codec_tval ∷ print_entries es
  print (table_usr a b) = 5 ∷ codec_tusr ∷ (print a ++ print b)
  print (function_ref k) = 6 ∷ codec_tref ∷ uleb128 k
  print (function_val code es) =
      6 ∷ codec_tval ∷ (uleb128 (length code) ++ (code ++ print_entries es))
  print (userdata a b) = 7 ∷ codec_tusr ∷ (print a ++ print b)

  -- The type byte of nil ends the entries.
  pub print_entries : Entries → List ℕ
  print_entries end = 0 ∷ []
  print_entries (entry k v es) = print k ++ (print v ++ print_entries es)

abbrev pub IsKey : Item → Type 0
IsKey nil = ⊥
IsKey _ = Unit {0}

-- Lengths and numbers of objects fit a uint32, images of words have eight bytes, and no key is nil.
abbrev mutual
  pub IsSendable : Item → Type 0
  IsSendable nil = Unit {0}
  IsSendable (boolean b) = Unit {0}
  IsSendable (lightuserdata p) = length p ≡ 8
  IsSendable (number n) = length n ≡ 8
  IsSendable (str x) = length x < 2 ^ 32
  IsSendable (table_ref k) = k < 2 ^ 32
  IsSendable (table_val es) = AreSendable es
  IsSendable (table_usr a b) = IsSendable a × IsSendable b
  IsSendable (function_ref k) = k < 2 ^ 32
  IsSendable (function_val code es) = (length code < 2 ^ 32) × AreSendable es
  IsSendable (userdata a b) = IsSendable a × IsSendable b

  pub AreSendable : Entries → Type 0
  AreSendable end = Unit {0}
  AreSendable (entry k v es) = IsKey k × IsSendable k × IsSendable v × AreSendable es

-- The rounds that the recursion takes, at most.
unfoldable mutual
  pub rounds : Item → ℕ
  rounds nil = 1
  rounds (boolean b) = 1
  rounds (lightuserdata p) = 1
  rounds (number n) = 1
  rounds (str x) = 1
  rounds (table_ref k) = 1
  rounds (table_val es) = suc (rounds_entries es)
  rounds (table_usr a b) = suc (rounds a + rounds b)
  rounds (function_ref k) = 1
  rounds (function_val code es) = suc (rounds_entries es)
  rounds (userdata a b) = suc (rounds a + rounds b)

  pub rounds_entries : Entries → ℕ
  rounds_entries end = 2
  rounds_entries (entry k v es) = suc (rounds k + rounds v + rounds_entries es)
