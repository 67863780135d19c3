-- ===== src/Commands/Tracked.antt =====
-- commands/handlers: the keys with an expiry and the heap of expiries.
use redrum_db.Base.{
  ℕ, ◌≡◌, refl, Bool, true, false, ◌&&◌, ◌||◌, Option, none, some, [], ◌∷◌, Bytes, bytes_eq,
  bytes_eq_sound, bytes_eq_refl, ◌==◌, arith, Bool-cases, inl, inr,
}
use redrum_db.Base.Dict.{lookup, insert, erase, lookup-insert, lookup-erase}
use redrum_db.Base.Heap.{push}
use redrum_db.Database.{Db, Value, string, list, stream, Entry, Expiries, expires_before}
use redrum_db.Commands.Strings.{note_expiry, string_entry}
use redrum_db.Commands.Lists.{entry_or_new, list_or_new}
use redrum_db.Commands.Streams.{stream_or_new, stream_in}

unfoldable pub has : ℕ → Bytes → Expiries → Bool
has t k [] = false
has t k ((u, l) ∷ q) = (t == u && bytes_eq k l) || has t k q

-- The expiry of the entry, if there is one, is in the heap with the key.
abbrev pub TrackedAt : Bytes → Expiries → Option Entry → Type 0
TrackedAt k q none = Unit
TrackedAt k q (some e) = (t : ℕ) → e.expiry ≡ some t → has t k q ≡ true

abbrev pub AllTracked : Db → Expiries → Type 0
AllTracked db q = (k : Bytes) → TrackedAt k q (lookup k db)

has-push :
    (t : ℕ) (k : Bytes) (u : ℕ) (l : Bytes) (q : Expiries)
    → has t k (push expires_before (u, l) q) ≡ ((t == u && bytes_eq k l) || has t k q)
unfolding has push
has-push t k u l [] = refl
has-push t k u l ((v, m) ∷ q) = ground (arith, has-push t k u l q)

pub insert-AllTracked :
    (key : Bytes) (e : Entry) (db : Db) (q : Expiries)
    → AllTracked db q
    → TrackedAt key q (some e)
    → AllTracked (insert key e db) q
insert-AllTracked key e db q all h k =
    rw (lookup-insert key k e db) (elim (Bool-cases (bytes_eq k key)) [
      | inl f ↦ rw (f, bytes_eq_sound k key f) h
      | inr f ↦ rw f (all k)
    ])

pub erase-AllTracked :
    (key : Bytes) (db : Db) (q : Expiries) → AllTracked db q → AllTracked (erase key db) q
erase-AllTracked key db q all k =
    rw (lookup-erase key k db)
      (elim (Bool-cases (bytes_eq k key)) [ inl f ↦ rw f tt | inr f ↦ rw f (all k) ])

pub TrackedAt-grows :
    (k : Bytes) (q q' : Expiries) (o : Option Entry)
    → ((t : ℕ) → has t k q ≡ true → has t k q' ≡ true)
    → TrackedAt k q o
    → TrackedAt k q' o
TrackedAt-grows k q q' none grows h = tt
TrackedAt-grows k q q' (some e) grows h = λ t f. grows t (h t f)

pub note_expiry-grows :
    (expiry : Option ℕ) (key : Bytes) (q : Expiries) (t : ℕ) (k : Bytes)
    → has t k q ≡ true
    → has t k (note_expiry expiry key q) ≡ true
unfolding note_expiry
note_expiry-grows none key q t k h = h
note_expiry-grows (some u) key q t k h = rw (has-push t k u key q) (rw h (ground arith))

pub note_expiry-TrackedAt :
    (expiry : Option ℕ) (key value : Bytes) (q : Expiries)
    → TrackedAt key (note_expiry expiry key q) (some (string_entry value expiry))
unfolding note_expiry
note_expiry-TrackedAt none key value q t e = cc
note_expiry-TrackedAt (some u) key value q t e =
    rw (has-push t key u key q)
      (let same : (t == u) ≡ true = ground arith in rw (same, bytes_eq_refl key) refl)

pub entry_or_new-TrackedAt :
    (key : Bytes) (q : Expiries) (o : Option Entry)
    → TrackedAt key q o
    → TrackedAt key q (some (entry_or_new o).0)
unfolding entry_or_new list_or_new
entry_or_new-TrackedAt key q none h = λ t e. cc
entry_or_new-TrackedAt key q (some e) h = of_value e.value
  where
    of_value : (v : Value) → TrackedAt key q (some (list_or_new e v).0)
    of_value (list xs) = h
    of_value (string s) = λ t f. cc
    of_value (stream s) = λ t f. cc

pub stream_or_new-TrackedAt :
    (key : Bytes) (q : Expiries) (o : Option Entry)
    → TrackedAt key q o
    → TrackedAt key q (some (stream_or_new o).0)
unfolding stream_or_new stream_in
stream_or_new-TrackedAt key q none h = λ t e. cc
stream_or_new-TrackedAt key q (some e) h = of_value e.value
  where
    of_value : (v : Value) → TrackedAt key q (some (stream_in e v).0)
    of_value (stream s) = h
    of_value (string s) = λ t f. cc
    of_value (list xs) = λ t f. cc
