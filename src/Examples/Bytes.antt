-- ===== src/Examples/Bytes.antt =====
-- Concrete runs of the serializer and of its buffer.
use rava.Base.{ℕ, ◌+◌, ◌^◌, ◌≤◌, ◌≡◌, refl, arith, true, List, [], ◌∷◌, ◌++◌, some, length}
use rava.Outcome.{ok, ◌>>=◌}
use rava.Lua.{Value}
use rava.Serialize.Format.{
  Item, boolean, table_val, table_ref, number, str, entry, end, print, rounds,
}
use rava.Serialize.Describe.{describe, describe_args, describe_body, describe_pair}
use rava.Serialize.{ref_of, ref_from, encode_value, serialize_encode}
use rava.Serialize.Decode.{decode_value, serialize_decode}
use rava.Serialize.Build.{World, build}
use rava.Serialize.RoundTrip.{
  start, result, message, build_all, print_all, AllSendable, RoundsWithin, serialize_decode-message,
  serialize_decode-serialize_encode,
}
use rava.Serialize.Encodes.{encode_value-print}
use rava.Serialize.Follows.{decode_value-print}
use rava.Serialize.Writer.{enc}
use rava.Serialize.Reader.{at, stop}
use rava.Buffer.{Buf, Cell, null_buf, buf_need, buf_read_uleb128}
use rava.Buffer.Growth.{Holds, need-Holds}
use rava.Buffer.Content.{null-Holds}
use rava.Buffer.Uleb.{uleb128, groups}
use rava.Buffer.Reading.{Reads, Ahead, advance, read_uleb128-Ahead}
use rava.Examples.{toy, one, heap}

abbrev args : List Value
args = Value.boolean true ∷ Value.table 1 ∷ Value.table 1 ∷ []

abbrev items : List Item
items = boolean true ∷ table_val (entry (number one) (str (104 ∷ 105 ∷ [])) end) ∷ table_ref 1 ∷ []

abbrev numbered : World toy
numbered = record { seen = Value.table 1 ∷ []; heap = heap }

described : describe_args toy 5 args (start toy heap) ≡ ok (items, numbered)
unfolding describe_args describe describe_body ref_of ref_from describe_pair
described = refl

items-AllSendable : AllSendable items
items-AllSendable = (tt, ((tt, refl, omega arith, tt), (omega arith, tt)))

items-RoundsWithin : RoundsWithin 9 items
unfolding rounds
items-RoundsWithin = (omega arith, (omega arith, (omega arith, tt)))

items-small : length (print_all items) ≤ 2 ^ 62
unfolding print_all print groups
items-small = omega arith

serialize_decode-serialize_encode_example :
    (serialize_encode toy 5 args heap >>= λ (out, after). serialize_decode toy 9 out (0, []))
    ≡ (build_all toy items (start toy (0, [])) >>= result toy)
serialize_decode-serialize_encode_example =
    serialize_decode-serialize_encode toy 5 9 args items heap (0, []) numbered described
      items-AllSendable items-RoundsWithin (omega arith) items-small

serialize_decode-message_example :
    serialize_decode toy 9 (message items) (0, [])
    ≡ (build_all toy items (start toy (0, [])) >>= result toy)
serialize_decode-message_example =
    serialize_decode-message toy 9 items (0, []) items-AllSendable items-RoundsWithin (omega arith)
      items-small

abbrev sent : Item
sent = table_val (entry (number one) (str (104 ∷ 105 ∷ [])) end)

sent_described : describe toy 4 (Value.table 1) (start toy heap) ≡ ok (sent, numbered)
unfolding describe describe_body ref_of ref_from describe_pair
sent_described = refl

sent-small : 0 + length (print sent) + 8 ≤ 2 ^ 63
unfolding print groups
sent-small = omega arith

encode_value-print_example :
    (b' : Buf) × (encode_value toy 4 (Value.table 1) (enc toy null_buf (start toy heap))
      ≡ ok (enc toy b' numbered))
    × Holds b' ([] ++ print sent)
encode_value-print_example =
    encode_value-print toy 4 (Value.table 1) null_buf [] (start toy heap) numbered sent
      sent_described (tt, refl, omega arith, tt) null-Holds sent-small

abbrev cells_of : List ℕ → List Cell
cells_of [] = []
cells_of (x ∷ xs) = some x ∷ cells_of xs

abbrev sent_cells : List Cell
sent_cells = cells_of (print sent)

sent-Reads : Reads sent_cells 0 (print sent ++ [])
unfolding print groups
sent-Reads = record { tail = []; ahead = refl }

sent-rounds : rounds sent ≤ 9
unfolding rounds
sent-rounds = omega arith

decode_value-print_example :
    decode_value toy 9 (at toy 20 sent_cells 0 (start toy (0, [])))
    ≡ (build toy sent (start toy (0, [])) >>= stop toy 20 sent_cells (0 + length (print sent)))
decode_value-print_example =
    decode_value-print toy 20 sent_cells sent 9 0 (start toy (0, [])) [] (tt, refl, omega arith, tt)
      sent-rounds sent-Reads

need-Holds_example :
    (b' : Buf) × (buf_need null_buf 200 ≡ ok b') × Holds b' [] × (0 + 200 ≤ b'.size)
need-Holds_example = need-Holds null_buf [] 200 null-Holds (omega arith)

-- The groups of 300, 44 + 2 * 128.
abbrev word : Buf
word = record { size = 2; head = 0; cells = some 172 ∷ some 2 ∷ [] }

word-Ahead : Ahead word (uleb128 300 ++ [])
unfolding groups
word-Ahead = record { tail = []; ahead = refl }

read_uleb128-Ahead_example : buf_read_uleb128 word ≡ ok (300, advance word (length (uleb128 300)))
read_uleb128-Ahead_example = read_uleb128-Ahead word 300 [] (omega arith) word-Ahead
