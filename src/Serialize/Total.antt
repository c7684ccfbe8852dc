-- ===== src/Serialize/Total.antt =====
-- src/rava_core_serialize.c on plain data: encoding returns, cyclic structures included.
--
-- Every table is entered once, since it gets its number first; what is still to come is bounded by the
-- contents of the tables that have no number yet.
use rava.Base.{
  ℕ, zero, suc, ◌+◌, ◌^◌, ◌≤◌, ◌<◌, ◌≡◌, refl, arith, List, [], ◌∷◌, ◌++◌, Option, none, some,
  length, length-append,
}
use rava.Outcome.{Outcome, ok, ◌>>=◌}
use rava.Buffer.Uleb.{uleb128, length-groups}
use rava.Lua.{
  Value, nil, boolean, lightuserdata, number, str, table, function, userdata, thread, Lua,
}
use rava.Serialize.{ref_of, serialize_encode}
use rava.Serialize.Format.{
  Item, Entries, end, entry, print, print_entries, IsKey, IsSendable, AreSendable,
}
use rava.Serialize.Build.{World}
use rava.Serialize.Describe.{
  describe, describe_table, describe_body, describe_pair, describe_seen_table, describe_new_table,
  describe_args,
}
use rava.Serialize.Encodes.{behind-length}
use rava.Serialize.RoundTrip.{print_all, AllSendable, message, serialize_encode-message}
use rava.Serialize.Refs.{ref_of-bound}
use rava.Serialize.Plain.{
  IsPlain, NotNil, shallow, content, shallow_all, AllPlain, shallow_pos, unseen, unseen-number,
  Sends, SendsEntries, SendsAll, leaf, known, fresh, done, pair, none_left, one_more, PlainEntries,
  Walks, PlainHeap,
}

content_pos : (es : List (Value × Value)) → 0 < content es
unfolding content
content_pos [] = omega arith
content_pos ((k, v) ∷ es) = omega (arith, shallow_pos k)

pub length_shallow : (vs : List Value) → length vs ≤ shallow_all vs
length_shallow [] = omega arith
length_shallow (v ∷ vs) = omega (arith, shallow_pos v, length_shallow vs)

module _ (L : Lua) (heap : Lua.Heap L) (n : ℕ) (entries : ℕ → List (Value × Value))
    (h : PlainHeap entries L heap n) where
  abbrev world : List Value → World L
  world seen = record { seen = seen; heap = heap }

  abbrev todo : List Value → ℕ
  todo seen = unseen entries n seen

  -- The run returns, and its bytes are paid for by `cost` and by the tables that it numbers.
  record Describes {I : Type 0} (bytes : I → ℕ) (Good : I → Type 0) (cost : ℕ)
      (Sent : List Value → I → List Value → Type 0) (seen : List Value) (r : Outcome (I × World L))
      : Type 0 where
    item : I
    after : List Value
    eq : r ≡ ok (item, world after)
    sent : Sent seen item after
    good : Good item
    size : bytes item + todo after ≤ cost + todo seen
    room : length after + todo after ≤ length seen + todo seen

  abbrev bytes : Item → ℕ
  bytes i = length (print i)

  abbrev entry_bytes : Entries → ℕ
  entry_bytes es = length (print_entries es)

  abbrev GoodFor : Value → Item → Type 0
  GoodFor v i = IsSendable i × (NotNil v → IsKey i)

  abbrev ValueSide : ℕ → Type 0
  ValueSide fuel =
      (v : Value) (seen : List Value)
      → IsPlain n v
      → length seen + todo seen < 2 ^ 32
      → shallow v + todo seen ≤ fuel
      → Describes bytes (GoodFor v) (shallow v) (Sends entries v) seen
          (describe L fuel v (world seen))

  abbrev TableSide : ℕ → Type 0
  TableSide fuel =
      (t : ℕ) (key : Value) (es : List (Value × Value)) (seen : List Value)
      → Walks entries L heap t key es
      → PlainEntries entries n es
      → length seen + todo seen < 2 ^ 32
      → content es + todo seen ≤ fuel
      → Describes entry_bytes AreSendable (content es) (SendsEntries entries es) seen
          (describe_table L fuel t key (world seen))

  returns_at_once :
      (v : Value) (i : Item) (seen : List Value)
      → Sends entries v seen i seen
      → GoodFor v i
      → bytes i ≤ shallow v
      → Describes bytes (GoodFor v) (shallow v) (Sends entries v) seen (ok (i, world seen))
  returns_at_once v i seen sent good le = record {
    item = i;
    after = seen;
    eq = refl;
    sent = sent;
    good = good;
    size = omega (arith, le);
    room = omega arith;
  }

  nil-described :
      (fuel : ℕ) (seen : List Value)
      → 0 < fuel
      → describe L fuel nil (world seen) ≡ ok (Item.nil, world seen)
  unfolding describe describe_body
  nil-described zero seen pos = absurd (omega arith)
  nil-described (suc fuel) seen pos = refl

  module _ (fuel : ℕ) (value : ValueSide fuel) (loop : TableSide fuel) where
    table-Describes :
        (t : ℕ) (seen : List Value)
        → t < n
        → length seen + todo seen < 2 ^ 32
        → 7 + todo seen ≤ suc fuel
        → (o : Option ℕ) → ref_of seen (table t) ≡ o
        → Describes bytes
            (GoodFor (table t))
            7
            (Sends entries (table t))
            seen
            (describe_seen_table L (describe L fuel) (describe_table L fuel) o t (world seen))
    unfolding describe_seen_table describe_new_table print
    table-Describes t seen lt fits enough (some ref) e =
        returns_at_once (table t) (Item.table_ref ref) seen (known t ref seen e)
          (omega (arith, ref_of-bound seen (table t) ref e), λ k. tt)
          (omega (arith, length-groups 4 ref))
    table-Describes t seen lt fits enough none e =
        let seen' : List Value = seen ++ table t ∷ [] in
        let paid = unseen-number entries n seen t lt e in
        let len = length-append seen (table t ∷ []) in
        let some_content = content_pos (entries t) in
        let d =
          loop t nil (entries t) seen' (h.walks t lt) (h.plain t lt)
            (omega (arith, paid, len, some_content)) (omega (arith, paid)) in
        record {
          item = Item.table_val d.item;
          after = d.after;
          eq = rw (h.unhooked t lt, d.eq) refl;
          sent = fresh t seen d.after d.item e d.sent;
          good = (d.good, λ k. tt);
          size = omega (arith, d.size, paid);
          room = omega (arith, d.room, len, paid, some_content);
        }

    value-Describes :
        (v : Value) (seen : List Value)
        → IsPlain n v
        → length seen + todo seen < 2 ^ 32
        → shallow v + todo seen ≤ suc fuel
        → Describes bytes
            (GoodFor v)
            (shallow v)
            (Sends entries v)
            seen
            (describe_body L (describe L fuel) (describe_table L fuel) v (world seen))
    unfolding describe_body print
    value-Describes nil seen p fits enough =
        returns_at_once nil Item.nil seen (leaf nil seen tt) (tt, λ k. k) (omega arith)
    value-Describes (boolean b) seen p fits enough =
        returns_at_once (boolean b) (Item.boolean b) seen (leaf (boolean b) seen tt) (tt, λ k. tt)
          (omega arith)
    value-Describes (lightuserdata x) seen p fits enough =
        returns_at_once (lightuserdata x) (Item.lightuserdata x) seen
          (leaf (lightuserdata x) seen tt) (p, λ k. tt) (omega (arith, p))
    value-Describes (number x) seen p fits enough =
        returns_at_once (number x) (Item.number x) seen (leaf (number x) seen tt) (p, λ k. tt)
          (omega (arith, p))
    value-Describes (str x) seen p fits enough =
        returns_at_once (str x) (Item.str x) seen (leaf (str x) seen tt) (p, λ k. tt)
          (omega (arith, length-append (uleb128 (length x)) x, length-groups 4 (length x)))
    value-Describes (table t) seen p fits enough =
        table-Describes t seen p fits enough (ref_of seen (table t)) refl
    value-Describes (function g) seen p fits enough = elim p [ ]
    value-Describes (userdata u) seen p fits enough = elim p [ ]
    value-Describes (thread t) seen p fits enough = elim p [ ]

    pair-Describes :
        (t : ℕ) (key : Value) (es : List (Value × Value)) (seen : List Value)
        → Walks entries L heap t key es
        → PlainEntries entries n es
        → length seen + todo seen < 2 ^ 32
        → content es + todo seen ≤ suc fuel
        → Describes entry_bytes AreSendable (content es) (SendsEntries entries es) seen (
            L.next heap t key >>= λ pair.
            describe_pair L (describe L fuel) (describe_table L fuel) t pair (world seen))
    unfolding describe_pair content print
    pair-Describes t key [] seen w p fits enough = record {
      item = end;
      after = seen;
      eq = rw (w, nil-described fuel seen (omega (arith, enough)));
      sent = done seen;
      good = tt;
      size = omega arith;
      room = omega arith;
    }
    pair-Describes t key ((k, v) ∷ es) seen w p fits enough =
        let dk = value k seen p.1 fits (omega (arith, enough, shallow_pos v)) in
        let dv =
          value v dk.after p.2 (omega (arith, dk.room)) (omega (arith, dk.size, content_pos es)) in
        let ds =
          loop t k es dv.after w.1 p.3 (omega (arith, dk.room, dv.room))
            (omega (arith, dk.size, dv.size, behind-length dk.item)) in
        record {
          item = entry dk.item dv.item ds.item;
          after = ds.after;
          eq = rw (w.0, dk.eq, dv.eq, ds.eq);
          sent =
              pair k v es seen dk.after dv.after ds.after dk.item dv.item ds.item dk.sent dv.sent
                ds.sent;
          good = (dk.good.1 p.0, dk.good.0, dv.good.0, ds.good);
          size = omega (
            arith,
            dk.size,
            dv.size,
            ds.size,
            length-append (print dk.item) (print dv.item ++ print_entries ds.item),
            length-append (print dv.item) (print_entries ds.item),
          );
          room = omega (arith, dk.room, dv.room, ds.room);
        }

  sides : (fuel : ℕ) → ValueSide fuel × TableSide fuel
  unfolding describe
  sides zero = (
    λ v seen p fits enough. absurd (omega (arith, shallow_pos v)),
    λ t key es seen w p fits enough. absurd (omega (arith, content_pos es)),
  )
  sides (suc fuel) =
      let (value, loop) = sides fuel in
      (
        λ v seen p fits enough. value-Describes fuel value loop v seen p fits enough,
        λ t key es seen w p fits enough.
            pair-Describes fuel value loop t key es seen w p fits enough,
      )

  args-Describes :
      (fuel : ℕ) (vs : List Value) (seen : List Value)
      → AllPlain n vs
      → length seen + todo seen < 2 ^ 32
      → shallow_all vs + todo seen ≤ fuel
      → Describes
          (λ is. length (print_all is))
          AllSendable
          (shallow_all vs)
          (SendsAll entries vs)
          seen
          (describe_args L fuel vs (world seen))
  unfolding describe_args print_all
  args-Describes fuel [] seen p fits enough = record {
    item = [];
    after = seen;
    eq = refl;
    sent = none_left seen;
    good = tt;
    size = omega arith;
    room = omega arith;
  }
  args-Describes fuel (v ∷ vs) seen p fits enough =
      let d = (sides fuel).0 v seen p.0 fits (omega (arith, enough)) in
      let ds =
        args-Describes fuel vs d.after p.1 (omega (arith, d.room))
          (omega (arith, d.size, enough)) in
      record {
        item = d.item ∷ ds.item;
        after = ds.after;
        eq = rw (d.eq, ds.eq) refl;
        sent = one_more v vs seen d.after ds.after d.item ds.item d.sent ds.sent;
        good = (d.good.0, ds.good);
        size = omega (arith, d.size, ds.size, length-append (print d.item) (print_all ds.item));
        room = omega (arith, d.room, ds.room);
      }

  -- Encoding plain data of a plain heap returns, cyclic and shared tables included, when it is given as
  -- many rounds as the arguments and the tables may take bytes, less than 2^31: the string is the
  -- message of the items that are sent for the arguments, all of them within the limits of the format;
  -- it has at most that many bytes and five for the count; and the heap is as before.
  pub serialize_encode-Returns :
      (fuel : ℕ) (vs : List Value)
      → AllPlain n vs
      → shallow_all vs + unseen entries n [] < 2 ^ 31
      → shallow_all vs + unseen entries n [] ≤ fuel
      → (is : List Item) × (after : List Value) × SendsAll entries vs [] is after
        × (serialize_encode L fuel vs heap ≡ ok (message is, heap))
        × (length (message is) ≤ 5 + (shallow_all vs + unseen entries n []))
        × AllSendable is
  serialize_encode-Returns fuel vs p small enough =
      let d = args-Describes fuel vs [] p (omega (arith, small)) enough in
      let len = length_shallow vs in
      (
        d.item,
        d.after,
        d.sent,
        serialize_encode-message L fuel vs d.item heap (world d.after) d.eq d.good
            (omega (arith, small, len)) (omega (arith, d.size, small)),
        omega (
          arith,
          d.size,
          length-append (uleb128 (length d.item)) (print_all d.item),
          length-groups 4 (length d.item),
        ),
        d.good,
      )
