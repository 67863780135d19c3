-- ===== src/Stream/Search.antt =====
-- data_structures/stream.rs: the search in a listpack finds the entry with the ID.
use redrum_db.Base.{
  ℕ, zero, suc, ◌+◌, ◌<◌, ◌≤◌, ◌≡◌, refl, ap, ◌&&◌, some, List, [], ◌∷◌, ◌++◌, length,
  length-append, ◌==◌, arith, Bool-cases, inl, inr,
}
use redrum_db.Base.Words.{u64_mod, to_be_bytes}
use redrum_db.Listpack.{Listpack, ListpackIter, iter}
use redrum_db.Listpack.Codec.{Value, string}
use redrum_db.Listpack.Append.{stored}
use redrum_db.Listpack.Represents.{IsListpack}
use redrum_db.Listpack.Laws.{length-Entries, length_is}
use redrum_db.Listpack.Cursor.{Remaining, iter-Remaining, next_done, next-Remaining}
use redrum_db.Stream.Id.{StreamId}
use redrum_db.Stream.{Fields}
use redrum_db.Stream.Find.{
  be_u64, as_string, as_count, read_fields, read_entry, find_loop, find_entry_in_listpack,
}
use redrum_db.Stream.Log.{
  LogEntry, field_values, entry_values, log_values, lookup, IsPlain, IsPlainEntry, ArePlain,
  from_to_be_8,
}

stored_plain : (n : ℕ) → IsPlain n → stored (to_be_bytes 8 n) ≡ string (to_be_bytes 8 n)
stored_plain n (low, text) = rw (text, stored)

be_u64-to_be_bytes : (n : ℕ) → n < u64_mod → be_u64 (to_be_bytes 8 n) ≡ some n
unfolding be_u64
be_u64-to_be_bytes n low = ap some (from_to_be_8 n low)

read_fields-field_values :
    (fields : Fields) (rest : List Value) (it : ListpackIter)
    → Remaining it (field_values fields ++ rest)
    → (it' : ListpackIter) × (read_fields (length fields) it ≡ some (field_values fields, it'))
      × Remaining it' rest
unfolding read_fields
read_fields-field_values [] rest it r = (it, refl, r)
read_fields-field_values ((f, v) ∷ fields) rest it r =
    let (it1, e1, r1) = next-Remaining it (stored f) _ r in
    let (it2, e2, r2) = next-Remaining it1 (stored v) _ r1 in
    let (it3, e3, r3) = read_fields-field_values fields rest it2 r2 in
    (it3, rw e1 (rw e2 (rw e3)), r3)

-- A round of the loop reads the entry and goes behind it.
read_entry-entry_values :
    (e : LogEntry) (rest : List Value) (it : ListpackIter)
    → IsPlainEntry e
    → Remaining it (
        stored (to_be_bytes 8 e.id.seq)
        ∷ stored (to_be_bytes 8 (length e.fields))
        ∷ (field_values e.fields ++ rest))
    → (it' : ListpackIter) × (read_entry (to_be_bytes 8 e.id.ms) it
        ≡ some (record { ms = e.id.ms; seq = e.id.seq; fields = field_values e.fields }, it'))
      × Remaining it' rest
unfolding read_entry as_string as_count
read_entry-entry_values e rest it (ms_is, seq_is, count_is) r =
    let (it1, e1, r1) = next-Remaining it _ _ r in
    let (it2, e2, r2) = next-Remaining it1 _ _ r1 in
    let (it3, e3, r3) = read_fields-field_values e.fields rest it2 r2 in
    (
      it3,
      rw (e1, read_entry)
          (rw
            (
              stored_plain e.id.seq seq_is,
              be_u64-to_be_bytes e.id.ms ms_is.0,
              be_u64-to_be_bytes e.id.seq seq_is.0,
            )
            (rw (e2, stored_plain (length e.fields) count_is)
              (rw (be_u64-to_be_bytes (length e.fields) count_is.0) (rw e3)))),
      r3,
    )

find_loop-log_values :
    (es : List LogEntry) (fuel : ℕ) (it : ListpackIter) (target : StreamId)
    → ArePlain es
    → length es < fuel
    → Remaining it (log_values es)
    → find_loop fuel it target ≡ some (lookup es target)
unfolding find_loop
find_loop-log_values es zero it target plain low r = absurd (omega arith)
find_loop-log_values [] (suc fuel) it target plain low r = rw (next_done it r, find_loop)
find_loop-log_values (e ∷ es) (suc fuel) it target (plain, plains) low r =
    let (it1, e1, r1) = next-Remaining it _ _ r in
    let (it2, e2, r2) = read_entry-entry_values e (log_values es) it1 plain r1 in
    let rest = find_loop-log_values es fuel it2 target plains (omega arith) r2 in
    rw (e1, find_loop)
      (rw (stored_plain e.id.ms plain.0) (
        rw e2 (elim (Bool-cases (e.id.ms == target.ms && e.id.seq == target.seq)) [
          | inl here ↦ rw here
          | inr behind ↦ rw behind rest
        ])))

length-log_values : (es : List LogEntry) → length es ≤ length (log_values es)
length-log_values [] = omega arith
length-log_values (e ∷ es) =
    omega (arith, length-append (entry_values e) (log_values es), length-log_values es)

-- In a listpack of log entries whose numbers are plain, the search ends within its fuel, with the
-- fields of the entry with the ID, or with nothing where there is none.
pub find_entry_in_listpack-lookup :
    (lp : Listpack) (es : List LogEntry) (target : StreamId)
    → IsListpack lp (log_values es)
    → ArePlain es
    → find_entry_in_listpack lp target ≡ some (lookup es target)
unfolding find_entry_in_listpack
find_entry_in_listpack-lookup lp es target h plain =
    let n = length-Entries (log_values es) h.body h.entries in
    let m = length-log_values es in
    let k : length lp.bytes ≡ 7 + length h.body = length_is lp (log_values es) h in
    find_loop-log_values es (suc (length lp.bytes)) (iter lp) target plain (omega arith)
      (iter-Remaining lp (log_values es) h)
