-- ===== src/Stream/Tests.antt =====
-- data_structures/stream.rs: runs on a stream of one entry.
use redrum_db.Base.{
  ◌≡◌, true, ◌++◌, refl, sym, ◌∙◌, Option, none, some, List, [], ◌∷◌, slice, arith,
}
use mathlib.Core.Path.{subst}
use redrum_db.Base.Result.{ok, err, panic}
use redrum_db.Base.Int.{pos}
use redrum_db.Base.Text.{codes}
use redrum_db.Radix
use redrum_db.Radix.{RadixTree, node, nil, cons}
use redrum_db.Listpack
use redrum_db.Listpack.{Listpack}
use redrum_db.Listpack.Codec.{
  Value, string, int, encode_string, encode_int, encode_backlen, decode_entry, decode_form, form_of,
}
use redrum_db.Listpack.Number.{strict_parse_i64}
use redrum_db.Listpack.Represents.{IsListpack}
use redrum_db.Base.Decimal.{show}
use redrum_db.Stream.Id.{StreamId, id_lt, id_le, to_bytes, parse}
use redrum_db.Stream.Parse.{parse-show, parse_star}
use redrum_db.Stream.Find.{find_entry_in_listpack}
use redrum_db.Stream.{
  Stream, Fields, new, append_unwrap, append_fields, append_entry, index_insert, rejects, floor_key,
  open_node, add_node, place, add, get,
}
use redrum_db.Stream.Log.{LogEntry, log_values, field_values, lookup, IsPlainEntry, small-IsPlain}
use redrum_db.Stream.Write.{append_entry-log_values}
use redrum_db.Stream.Order.{to_bytes_injective}
use redrum_db.Stream.Search.{find_entry_in_listpack-lookup}
use redrum_db.Stream.Chunks.{Represents, get-lookup}
use redrum_db.Stream.Add.{add-Represents}
use redrum_db.Stream.Laws.{new-Represents, get-add, ok_injective}

abbrev one_two : StreamId
one_two = record { ms = 1; seq = 2 }

abbrev fields : Fields
fields = (codes "a", codes "7") ∷ []

abbrev entry : LogEntry
entry = record { id = one_two; fields = fields }

entry-IsPlainEntry : IsPlainEntry entry
entry-IsPlainEntry =
    (small-IsPlain 1 (omega arith), small-IsPlain 2 (omega arith), small-IsPlain 1 (omega arith))

abbrev lp : Listpack
lp = record {
  bytes =
      42 ∷ 0 ∷ 0 ∷ 0 ∷ 5 ∷ 0 ∷ 0x88 ∷ 0 ∷ 0 ∷ 0 ∷ 0 ∷ 0 ∷ 0 ∷ 0 ∷ 1 ∷ 9 ∷ 0x88 ∷ 0 ∷ 0 ∷ 0 ∷ 0 ∷ 0
      ∷ 0 ∷ 0 ∷ 2 ∷ 9 ∷ 0x88 ∷ 0 ∷ 0 ∷ 0 ∷ 0 ∷ 0 ∷ 0 ∷ 0 ∷ 1 ∷ 9 ∷ 0x81 ∷ 97 ∷ 2 ∷ 7 ∷ 1 ∷ 0xFF
      ∷ [];
}

abbrev empty_lp : Listpack
empty_lp = record { bytes = 7 ∷ 0 ∷ 0 ∷ 0 ∷ 0 ∷ 0 ∷ 0xFF ∷ [] }

empty_lp-IsListpack : IsListpack empty_lp []
empty_lp-IsListpack = record { body = []; is = refl; fits = omega arith; entries = refl }

append_entry_test : append_entry empty_lp one_two fields ≡ ok lp
unfolding append_entry append_fields append_unwrap Listpack.append strict_parse_i64 encode_string
    encode_int encode_backlen Listpack.push_encoded_entry Listpack.write_total_bytes Listpack.pop
    Listpack.bump_num_elements
append_entry_test = refl

lp-IsListpack : IsListpack lp (log_values (entry ∷ []))
lp-IsListpack =
    let (lp', run, h) =
      append_entry-log_values empty_lp [] entry empty_lp-IsListpack (omega arith) in
    subst (λ l. IsListpack l (log_values (entry ∷ [])))
      (ok_injective lp' lp (sym run ∙ append_entry_test)) h

find_entry_in_listpack-lookup_example :
    find_entry_in_listpack lp one_two ≡ some (lookup (entry ∷ []) one_two)
find_entry_in_listpack-lookup_example =
    find_entry_in_listpack-lookup lp (entry ∷ []) one_two lp-IsListpack (entry-IsPlainEntry, tt)

append_entry-log_values_example :
    (lp' : Listpack) × (append_entry lp one_two fields ≡ ok lp')
    × IsListpack lp' (log_values (entry ∷ entry ∷ []))
append_entry-log_values_example =
    append_entry-log_values lp (entry ∷ []) entry lp-IsListpack (omega arith)

abbrev stream : Stream
stream = record {
  tree = record {
    root =
        node []
          (cons 0
            (node (0 ∷ 0 ∷ 0 ∷ 0 ∷ 0 ∷ 0 ∷ 0 ∷ 1 ∷ 0 ∷ 0 ∷ 0 ∷ 0 ∷ 0 ∷ 0 ∷ 0 ∷ 2 ∷ []) nil
              (some (record { last_id = one_two; lp = lp })))
            nil)
          none;
  };
  index = one_two ∷ [];
  last_id = some one_two;
}

add_test : add new one_two fields ≡ ok stream
unfolding add rejects place open_node floor_key add_node new index_insert to_bytes Radix.insert
    Listpack.new append_entry append_fields append_unwrap Listpack.append strict_parse_i64
    encode_string encode_int encode_backlen Listpack.push_encoded_entry Listpack.write_total_bytes
    Listpack.pop Listpack.bump_num_elements
add_test = refl

stream-Represents : Represents stream (entry ∷ [])
unfolding rejects
stream-Represents =
    let (s', run, r) =
      add-Represents new [] one_two fields new-Represents entry-IsPlainEntry (omega arith) in
    subst (λ s. Represents s (entry ∷ [])) (ok_injective s' stream (sym run ∙ add_test)) r

add-Represents_example :
    (s' : Stream) × (add stream (record { ms = 5; seq = 0 }) fields ≡ ok s')
    × Represents s' (entry ∷ record { id = record { ms = 5; seq = 0 }; fields = fields } ∷ [])
unfolding rejects
add-Represents_example =
    add-Represents stream (entry ∷ []) (record { ms = 5; seq = 0 }) fields stream-Represents
      (small-IsPlain 5 (omega arith), small-IsPlain 0 (omega arith), small-IsPlain 1 (omega arith))
      (omega arith)

get-lookup_example : get stream one_two ≡ some (some (string (codes "a") ∷ int (pos 7) ∷ []))
unfolding strict_parse_i64
get-lookup_example = get-lookup stream (entry ∷ []) one_two stream-Represents

get-add_example : get stream one_two ≡ some (some (field_values fields))
get-add_example =
    get-add new [] one_two fields stream one_two new-Represents entry-IsPlainEntry (omega arith)
      add_test

-- The eight bytes of this number print an integer. They are stored as that integer, and the search ends
-- at it: the entry that was added is not found.
abbrev digits_id : StreamId
digits_id = record { ms = 0x3131313131313131; seq = 0 }

lost : Option (Option (List Value))
lost = elim (add new digits_id fields) [ ok s ↦ get s digits_id | err e ↦ none | panic ↦ none ]

lost_test : lost ≡ some none
unfolding lost get find_entry_in_listpack add rejects place open_node floor_key add_node new
    index_insert to_bytes Radix.insert Radix.get Listpack.new append_entry append_fields
    append_unwrap Listpack.append strict_parse_i64 encode_string encode_int encode_backlen
    Listpack.push_encoded_entry Listpack.write_total_bytes Listpack.pop Listpack.bump_num_elements
    Listpack.next decode_entry decode_form form_of slice
lost_test = refl

to_bytes_injective_example : (one_two.ms ≡ one_two.ms) × (one_two.seq ≡ one_two.seq)
to_bytes_injective_example =
    to_bytes_injective one_two one_two (omega arith, omega arith) (omega arith, omega arith) refl

parse-show_example :
    parse true 0 (show 1 ++ (b'-' ∷ show 2)) (record { ms = 9; seq = 9 }) ≡ ok one_two
parse-show_example =
    parse-show true 0 one_two (record { ms = 9; seq = 9 }) (omega arith) (omega arith)

parse_star_example :
    (id : StreamId) × (parse true 0 (show 1 ++ (b'-' ∷ b'*' ∷ [])) one_two ≡ ok id)
    × (id.ms ≡ 1)
    × (id_lt one_two id ≡ true)
    × ((other : StreamId) → other.ms ≡ 1 → id_lt one_two other ≡ true → id_le id other ≡ true)
parse_star_example = parse_star true 0 1 one_two (omega arith) (omega arith)
