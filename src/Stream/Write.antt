-- ===== src/Stream/Write.antt =====
-- data_structures/stream.rs: `append_entry` adds an entry to a listpack of log entries.
use redrum_db.Base.{
  ℕ, ◌+◌, ◌≤◌, ◌≡◌, refl, ap, sym, ◌∙◌, List, [], ◌∷◌, ◌++◌, append_assoc, append-nil, Bytes,
  length, arith,
}
use mathlib.Core.Path.{subst}
use redrum_db.Base.Result.{ok}
use redrum_db.Base.Words.{to_be_bytes}
use redrum_db.Listpack.{Listpack}
use redrum_db.Listpack.Codec.{Value}
use redrum_db.Listpack.Append.{stored, append_fits}
use redrum_db.Listpack.Represents.{IsListpack}
use redrum_db.Stream.{Fields, append_unwrap, append_fields, append_entry}
use redrum_db.Stream.Log.{LogEntry, field_values, entry_values, log_values}

-- Bytes that the fields take at most.
abbrev pub fields_room : Fields → ℕ
fields_room [] = 0
fields_room ((f, v) ∷ fields) = length f + 16 + (length v + 16) + fields_room fields

-- The bytes that a listpack may have for an entry to fit.
abbrev pub room : ℕ
room = 0x0FFFFFFF

append_unwrap_fits :
    (lp : Listpack) (vs : List Value)
    → IsListpack lp vs
    → (value : Bytes) → length lp.bytes + length value + 16 ≤ room
    → (lp' : Listpack) × (append_unwrap lp value ≡ ok lp')
      × IsListpack lp' (vs ++ (stored value ∷ []))
      × (length lp'.bytes ≤ length lp.bytes + length value + 16)
unfolding append_unwrap
append_unwrap_fits lp vs h value low =
    let (lp', is, h', size) = append_fits lp vs h value (omega arith) (omega arith) in
    (lp', rw (is, append_unwrap), h', size)

append_fields_fits :
    (fields : Fields) (lp : Listpack) (vs : List Value)
    → IsListpack lp vs
    → length lp.bytes + fields_room fields ≤ room
    → (lp' : Listpack) × (append_fields lp fields ≡ ok lp')
      × IsListpack lp' (vs ++ field_values fields)
unfolding append_fields
append_fields_fits [] lp vs h low = (lp, refl, subst (IsListpack lp) (sym (append-nil vs)) h)
append_fields_fits ((f, v) ∷ fields) lp vs h low =
    let (lp1, e1, h1, n1) = append_unwrap_fits lp vs h f (omega arith) in
    let (lp2, e2, h2, n2) = append_unwrap_fits lp1 _ h1 v (omega arith) in
    let (lp3, e3, h3) = append_fields_fits fields lp2 _ h2 (omega arith) in
    let is =
      append_assoc (vs ++ (stored f ∷ [])) (stored v ∷ []) (field_values fields)
      ∙ append_assoc vs (stored f ∷ []) (stored v ∷ field_values fields) in
    (lp3, rw e1 (rw e2 e3), subst (IsListpack lp3) is h3)

log_values_snoc :
    (es : List LogEntry) (e : LogEntry)
    → log_values (es ++ (e ∷ [])) ≡ log_values es ++ entry_values e
log_values_snoc [] e = append-nil (entry_values e)
log_values_snoc (f ∷ es) e =
    ap (λ vs. entry_values f ++ vs) (log_values_snoc es e)
    ∙ sym (append_assoc (entry_values f) (log_values es) (entry_values e))

-- On a listpack of log entries `append_entry` does not panic where its bytes, with 72 more, and those of
-- the fields and their values, with 16 more for each, are at most 0x0FFFFFFF together: the listpack then
-- holds the entry behind those that it held.
pub append_entry-log_values :
    (lp : Listpack) (es : List LogEntry) (e : LogEntry)
    → IsListpack lp (log_values es)
    → length lp.bytes + 72 + fields_room e.fields ≤ room
    → (lp' : Listpack) × (append_entry lp e.id e.fields ≡ ok lp')
      × IsListpack lp' (log_values (es ++ (e ∷ [])))
unfolding append_entry
append_entry-log_values lp es e h low =
    let vs = log_values es in
    let a = stored (to_be_bytes 8 e.id.ms) in
    let b = stored (to_be_bytes 8 e.id.seq) in
    let c = stored (to_be_bytes 8 (length e.fields)) in
    let (lp1, e1, h1, n1) = append_unwrap_fits lp vs h (to_be_bytes 8 e.id.ms) (omega arith) in
    let (lp2, e2, h2, n2) = append_unwrap_fits lp1 _ h1 (to_be_bytes 8 e.id.seq) (omega arith) in
    let (lp3, e3, h3, n3) =
      append_unwrap_fits lp2 _ h2 (to_be_bytes 8 (length e.fields)) (omega arith) in
    let (lp4, e4, h4) = append_fields_fits e.fields lp3 _ h3 (omega arith) in
    let fs = field_values e.fields in
    let is =
      append_assoc ((vs ++ (a ∷ [])) ++ (b ∷ [])) (c ∷ []) fs
      ∙ append_assoc (vs ++ (a ∷ [])) (b ∷ []) (c ∷ fs)
      ∙ append_assoc vs (a ∷ []) (b ∷ c ∷ fs)
      ∙ sym (log_values_snoc es e) in
    (lp4, rw e1 (rw e2 (rw e3 e4)), subst (IsListpack lp4) is h4)
