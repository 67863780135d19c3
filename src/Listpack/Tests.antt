-- ===== src/Listpack/Tests.antt =====
-- data_structures/listpack.rs: runs on the entries of the comment at the end of the file.
use redrum_db.Base.{◌+◌, ◌<◌, ◌≤◌, ◌^◌, ◌≡◌, refl, ap, none, some, [], ◌∷◌, ◌++◌, length, arith}
use redrum_db.Base.Result.{ok, ◌>>=◌}
use redrum_db.Base.Int.{negsuc, IsI64}
use redrum_db.Base.Text.{codes}
use redrum_db.Listpack.Codec.{
  string, int, ListpackError, encode_string, encode_int, encode_backlen, decode_entry,
}
use redrum_db.Listpack.Number.{strict_parse_i64}
use redrum_db.Listpack.Number.Canonical.{show_ℤ, strict_parse_i64-canonical}
use redrum_db.Listpack.RoundTrip.{encode_string-Encoded}
use redrum_db.Listpack.Entry.{decode_entry-encode_string, decode_entry-encode_int}
use redrum_db.Listpack.Represents.{IsListpack}
use redrum_db.Listpack.Append.{stored, Extends, append-Extends, append_fits}
use redrum_db.Listpack.Laws.{collect-iter, get-get_elem?, element_count-length}
use redrum_db.Listpack.Built.{append_all, build, Reads, build-Reads}
use redrum_db.Listpack.{
  Listpack, pop, write_total_bytes, bump_num_elements, new, push_encoded_entry, append, iter,
  collect, get, element_count,
}

abbrev empty : Listpack
empty = record { bytes = 7 ∷ 0 ∷ 0 ∷ 0 ∷ 0 ∷ 0 ∷ 0xFF ∷ [] }

new_test : new {E = ListpackError} ≡ ok empty
unfolding new
new_test = refl

abbrev hello : Listpack
hello = record {
  bytes = 14 ∷ 0 ∷ 0 ∷ 0 ∷ 1 ∷ 0 ∷ 0x85 ∷ 104 ∷ 101 ∷ 108 ∷ 108 ∷ 111 ∷ 6 ∷ 0xFF ∷ [];
}

append-hello_test : append empty (codes "hello") ≡ ok hello
unfolding append strict_parse_i64 encode_string push_encoded_entry encode_backlen write_total_bytes
    pop bump_num_elements
append-hello_test = refl

hello_encoded : encode_string (codes "hello") ≡ ok (0x85 ∷ 104 ∷ 101 ∷ 108 ∷ 108 ∷ 111 ∷ [])
unfolding encode_string
hello_encoded = refl

hello_back : encode_backlen 6 ≡ ok (6 ∷ [])
unfolding encode_backlen
hello_back = refl

hello-IsListpack : IsListpack hello (string (codes "hello") ∷ [])
hello-IsListpack = record {
  body = 0x85 ∷ 104 ∷ 101 ∷ 108 ∷ 108 ∷ 111 ∷ 6 ∷ [];
  is = refl;
  fits = omega arith;
  entries = (
    _,
    [],
    record {
      enc = 0x85 ∷ 104 ∷ 101 ∷ 108 ∷ 108 ∷ 111 ∷ [];
      back = 6 ∷ [];
      is = refl;
      encoded = encode_string-Encoded (codes "hello") _ hello_encoded;
      back_is = hello_back;
    },
    refl,
    refl,
  );
}

append-Extends_example :
    Extends (append hello (codes "-45")) (string (codes "hello") ∷ stored (codes "-45") ∷ [])
append-Extends_example =
    append-Extends hello (string (codes "hello") ∷ []) hello-IsListpack (codes "-45")

append_fits_example :
    (lp' : Listpack) × (append hello (codes "-45") ≡ ok lp')
    × IsListpack lp' (string (codes "hello") ∷ stored (codes "-45") ∷ [])
    × (length lp'.bytes ≤ 33)
append_fits_example =
    append_fits hello (string (codes "hello") ∷ []) hello-IsListpack (codes "-45") (omega arith)
      (omega arith)

collect-iter_example : collect 14 (iter hello) ≡ some (string (codes "hello") ∷ [])
collect-iter_example = collect-iter hello (string (codes "hello") ∷ []) hello-IsListpack

get-get_elem?_example : get hello 1 ≡ none
get-get_elem?_example = get-get_elem? hello (string (codes "hello") ∷ []) hello-IsListpack 1

element_count-length_example : element_count hello ≡ ok 1
element_count-length_example =
    element_count-length hello (string (codes "hello") ∷ []) hello-IsListpack

build_test : build (codes "hello" ∷ []) ≡ ok hello
unfolding build new
build_test = ap (λ r. r >>= (λ l. append_all l [])) append-hello_test

build-Reads_example : Reads (codes "hello" ∷ []) (build (codes "hello" ∷ []))
build-Reads_example = build-Reads (codes "hello" ∷ [])

decode_entry-encode_string_example : decode_entry hello.bytes 6 ≡ ok (string (codes "hello"), 7)
decode_entry-encode_string_example =
    decode_entry-encode_string (14 ∷ 0 ∷ 0 ∷ 0 ∷ 1 ∷ 0 ∷ []) (codes "hello")
      (0x85 ∷ 104 ∷ 101 ∷ 108 ∷ 108 ∷ 111 ∷ []) (6 ∷ []) (0xFF ∷ []) hello_encoded hello_back
      (omega arith)

back_of_45 : encode_backlen (length (encode_int (negsuc 44))) ≡ ok (2 ∷ [])
unfolding encode_backlen encode_int
back_of_45 = refl

minus_45_fits : 0 + (length (encode_int (negsuc 44)) + 1) < 2 ^ 64
unfolding encode_int
minus_45_fits = omega arith

decode_entry-encode_int_example :
    decode_entry (encode_int (negsuc 44) ++ (2 ∷ 0xFF ∷ [])) 0
    ≡ ok (int (negsuc 44), length (encode_int (negsuc 44)) + 1)
decode_entry-encode_int_example =
    decode_entry-encode_int [] (negsuc 44) (2 ∷ []) (0xFF ∷ []) (omega arith) back_of_45
      minus_45_fits

parse_45_test : strict_parse_i64 (codes "-45") ≡ some (negsuc 44)
unfolding strict_parse_i64
parse_45_test = refl

strict_parse_i64-canonical_example : (codes "-45" ≡ show_ℤ (negsuc 44)) × IsI64 (negsuc 44)
strict_parse_i64-canonical_example =
    strict_parse_i64-canonical (codes "-45") (negsuc 44) parse_45_test
