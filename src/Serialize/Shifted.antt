-- ===== src/Serialize/Shifted.antt =====
-- src/rava_core_serialize.c: a decoder that returns nil takes no number, since storing nil in a table
-- of Lua stores nothing, while `encode_value` gave the table that it stands for one.
use rava.Base.{ℕ, true, List, [], ◌∷◌}
use rava.Lua.{str, Lua}
use rava.Serialize.Format.{Item, end, table_val, table_usr, table_ref}

-- The hook's name and a Boolean, an empty table, and a reference to the second object.
abbrev items : List ℕ → List Item
items d = table_usr (Item.str d) (Item.boolean true) ∷ table_val end ∷ table_ref 2 ∷ []
