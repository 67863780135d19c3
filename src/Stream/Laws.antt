-- ===== src/Stream/Laws.antt =====
-- data_structures/stream.rs: what `get` reads after `add`.
use redrum_db.Base.{
  ◌+◌, ◌≤◌, ◌≡◌, refl, ap, sym, ◌∙◌, true, ◌&&◌, none, some, List, [], ◌∷◌, ◌++◌, Bytes, ◌==◌,
  if◌then◌else◌, arith, Bool-cases, inl, inr,
}
use redrum_db.Base.Result.{Result, ok, err}
use redrum_db.Stream.Id.{StreamId, id_le, top_item_error}
use redrum_db.Stream.{Stream, Fields, new, add, get, rejects}
use redrum_db.Stream.Log.{LogEntry, field_values, lookup, IsPlainEntry}
use redrum_db.Stream.Write.{fields_room, room}
use redrum_db.Stream.Order.{lookup-append_none, lookup-append_end}
use redrum_db.Stream.Chunks.{Represents, newest, lookup-log_Below, get-lookup}
use redrum_db.Stream.Frame.{accepted-AllBelow}
use redrum_db.Stream.Add.{add-Represents}

-- A new stream is the empty log.
pub new-Represents : Represents new []
unfolding new
new-Represents = record {
  chunks = [];
  log_is = refl;
  index_is = refl;
  in_tree = tt;
  last_is = refl;
  top = refl;
}

same_le : (a b : StreamId) → (a.ms == b.ms && a.seq == b.seq) ≡ true → id_le a b ≡ true
same_le a b h = ground arith

lookup_added :
    (es : List LogEntry) (e : LogEntry) (j : StreamId)
    → (id_le e.id j ≡ true → lookup es j ≡ none)
    → lookup (es ++ (e ∷ [])) j
      ≡ (if e.id.ms == j.ms && e.id.seq == j.seq then some (field_values e.fields) else lookup es j)
lookup_added es e j fresh = elim (Bool-cases (e.id.ms == j.ms && e.id.seq == j.seq)) [
  | inl here ↦ rw here (lookup-append_none es (e ∷ []) j (fresh (same_le e.id j here)) ∙ rw here)
  | inr other ↦ rw other (lookup-append_end es (e ∷ []) j (rw other))
]

pub ok_injective : {A : Type 0} (a b : A) → Path (Result Bytes A) (ok a) (ok b) → a ≡ b
ok_injective a b h = cc

err-ne-ok : {A : Type 0} (e : Bytes) (a : A) → Path (Result Bytes A) (err e) (ok a) → ⊥
err-ne-ok e a h = cc

-- On a stream that holds a log, once `add` succeeds with an entry whose numbers are plain and whose
-- fields have the room that `add-Represents` asks for, its ID reads the fields, and every other ID reads
-- what it read before.
pub get-add :
    (s : Stream) (es : List LogEntry) (id : StreamId) (fields : Fields) (s' : Stream) (j : StreamId)
    → Represents s es
    → IsPlainEntry (record { id = id; fields = fields })
    → fields_room fields + 4168 ≤ room
    → add s id fields ≡ ok s'
    → get s' j
      ≡ (if id.ms == j.ms && id.seq == j.seq then some (some (field_values fields)) else get s j)
get-add s es id fields s' j r plain low run = elim (Bool-cases (rejects (newest es) id)) [
  | inl old ↦ absurd (
      err-ne-ok top_item_error s'
        (sym (rw old at (add-Represents s es id fields r plain low)) ∙ run))
  | inr above ↦
      let below = accepted-AllBelow s.last_id id r.chunks r.top (rw r.last_is above) in
      let (s'', run'', r'') = rw above at (add-Represents s es id fields r plain low) in
      let same : s'' ≡ s' = ok_injective s'' s' (sym run'' ∙ run) in
      let fresh : id_le id j ≡ true → lookup es j ≡ none =
        λ le. ap (λ l. lookup l j) (sym r.log_is) ∙ lookup-log_Below id j r.chunks below le in
      let e : LogEntry = record { id = id; fields = fields } in
      let before = get-lookup s es j r in
      ap (λ t. get t j) (sym same)
      ∙ get-lookup s'' (es ++ (e ∷ [])) j r''
      ∙ ap some (lookup_added es e j fresh)
      ∙ elim (Bool-cases (id.ms == j.ms && id.seq == j.seq)) [
        | inl here ↦ rw here
        | inr other ↦ rw other (sym before)
      ]
]
