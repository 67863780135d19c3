-- ===== src/Server/Expiry.antt =====
-- server/expiry.rs
use redrum_db.Base.{ℕ, suc, ◌||◌, Option, none, some, [], ◌∷◌, Bytes, ltb, ◌==◌, if◌then◌else◌}
use redrum_db.Base.Dict.{lookup, erase}
use redrum_db.Database.{Db, Entry, Expiries}

abbrev pub max_cleanup : ℕ
max_cleanup = 169

-- What the loop does with a key that was due at `t`: it is removed where that is still its expiry.
unfoldable pub drop_due : ℕ → Option Entry → Bytes → Db → Db
drop_due t none key db = db
drop_due t (some e) key db = elim e.expiry [
  | none ↦ db
  | some actual ↦ if actual == t then erase key db else db
]

-- The `while` loop; every round pops an element.
unfoldable pub cleanup_loop : ℕ → ℕ → Db → Expiries → Db × Expiries
unfolding drop_due
cleanup_loop now cleaned db [] = (db, [])
cleanup_loop now cleaned db ((t, key) ∷ q) =
    let rest = cleanup_loop now (suc cleaned) (drop_due t (lookup key db) key db) q in
    if ltb max_cleanup cleaned || ltb now t then (db, (t, key) ∷ q) else rest

unfoldable pub cleanup_expired : ℕ → Db → Expiries → Db × Expiries
unfolding cleanup_loop
cleanup_expired now db expiries = cleanup_loop now 0 db expiries
