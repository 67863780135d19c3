-- ===== src/Server/Expiries.antt =====
-- server/expiry.rs: what the clean-up of the expired keys does, and what clients see of it.
use redrum_db.Base.{
  ℕ, suc, ◌+◌, ◌-◌, ◌≤◌, ◌≡◌, ◌⊎◌, refl, ap, sym, ◌∙◌, true, ◌||◌, Option, none, some, List, [],
  ◌∷◌, Bytes, length, ltb, leb, ◌==◌, ==_iff, bytes_eq, bytes_eq_sound, Option-cases, Bool-cases,
  inl, inr, arith,
}
use redrum_db.Base.Dict.{lookup, lookup-erase}
use redrum_db.Database.{Db, Entry, Expiries}
use redrum_db.Commands.Context.{Context, Env}
use redrum_db.Commands.Strings.{is_expired, get}
use redrum_db.Commands.Strings.Laws.{get_reply, get_lem}
use redrum_db.Server.Expiry.{max_cleanup, drop_due, cleanup_loop, cleanup_expired}

-- Every round pops one element and the rounds stop behind 170: at most so many elements leave the heap.
pub cleanup_expired_bound :
    (now : ℕ) (db : Db) (expiries : Expiries)
    → length expiries ≤ length (cleanup_expired now db expiries).1 + 170
unfolding cleanup_expired cleanup_loop
cleanup_expired_bound now db expiries = loop 0 db expiries
  where
    loop :
        (cleaned : ℕ) (db' : Db) (q : Expiries)
        → length q ≤ length (cleanup_loop now cleaned db' q).1 + (170 - cleaned)
    loop cleaned db' [] = omega arith
    loop cleaned db' ((t, key) ∷ q) =
        ground (arith, loop (suc cleaned) (drop_due t (lookup key db') key db') q)

-- Either the key has the entry that it had, or it has none any more and its entry was expired.
abbrev pub Survives : ℕ → Bytes → Db → Db → Type 0
Survives now k db db' =
    (lookup k db' ≡ lookup k db)
    ⊎ ((e : Entry) × (lookup k db ≡ some e)
        × (is_expired now e.expiry ≡ true)
        × (lookup k db' ≡ none))

drop_due-Survives :
    (now t : ℕ) (key k : Bytes) (db : Db)
    → leb t now ≡ true
    → Survives now k db (drop_due t (lookup key db) key db)
unfolding drop_due is_expired
drop_due-Survives now t key k db due = elim (Option-cases (lookup key db)) [
  | inl e ↦ rw e (inl refl)
  | inr (entry, e) ↦ rw e (elim (Option-cases entry.expiry) [
    | inl f ↦ rw f (inl refl)
    | inr (actual, f) ↦ rw f (elim (Bool-cases (actual == t)) [
      | inr g ↦ rw g (inl refl)
      | inl g ↦ rw g (elim (Bool-cases (bytes_eq k key)) [
        | inr other ↦ inl (lookup-erase key k db ∙ rw other refl)
        | inl same ↦ inr (
          entry,
          ap (λ x. lookup x db) (bytes_eq_sound k key same) ∙ e,
          rw f (rw ((==_iff actual t).0 g) due),
          lookup-erase key k db ∙ rw same refl,
        )
      ])
    ])
  ])
]

Survives-after :
    (now : ℕ) (k : Bytes) (a b c : Db)
    → Survives now k a b
    → Survives now k b c
    → Survives now k a c
Survives-after now k a b c (inl h) (inl j) = inl (j ∙ h)
Survives-after now k a b c (inl h) (inr (e, f, g, j)) = inr (e, sym h ∙ f, g, j)
Survives-after now k a b c (inr (e, f, g, h)) (inl j) = inr (e, f, g, j ∙ h)
Survives-after now k a b c (inr (e, f, g, h)) (inr (e', f', g', h')) = inr (e, f, g, h')

-- The clean-up removes no key that has not expired at its time, and changes no other entry.
pub cleanup_expired-Survives :
    (now : ℕ) (db : Db) (expiries : Expiries) (k : Bytes)
    → Survives now k db (cleanup_expired now db expiries).0
unfolding cleanup_expired cleanup_loop
cleanup_expired-Survives now db expiries k = loop 0 db expiries
  where
    loop :
        (cleaned : ℕ) (db' : Db) (q : Expiries)
        → Survives now k db' (cleanup_loop now cleaned db' q).0
    loop cleaned db' [] = inl refl
    loop cleaned db' ((t, key) ∷ q) =
        let db'' = drop_due t (lookup key db') key db' in
        let rest = loop (suc cleaned) db'' q in
        elim (Bool-cases (ltb max_cleanup cleaned || ltb now t)) [
          | inl stop ↦ rw stop (inl refl)
          | inr go ↦ rw go (
              Survives-after now k db' db'' (cleanup_loop now (suc cleaned) db'' q).0
                (drop_due-Survives now t key k db' (ground arith)) rest)
        ]

is_expired_later :
    (now now' : ℕ) (expiry : Option ℕ)
    → leb now now' ≡ true
    → is_expired now expiry ≡ true
    → is_expired now' expiry ≡ true
unfolding is_expired
is_expired_later now now' none later h = h
is_expired_later now now' (some t) later h = ground arith

-- The clean-up cannot be seen through `get`: at any time that is not before that of the clean-up, the reply
-- to `get` of any key is the same with and without it.
pub get-cleanup_expired :
    (env : Env) (now : ℕ) (key : Bytes) (args : List Bytes) (ctx : Context)
    → leb now env.now ≡ true
    → let db' = (cleanup_expired now ctx.db ctx.expiries).0 in
      (get env (key ∷ args) (record ctx { db = db' })).0 ≡ (get env (key ∷ args) ctx).0
get-cleanup_expired env now key args ctx later =
    rw
      (
        get_lem env key args ctx,
        get_lem env key args (record ctx { db = (cleanup_expired now ctx.db ctx.expiries).0 }),
      )
      (same (cleanup_expired-Survives now ctx.db ctx.expiries key))
  where
    same :
        Survives now key ctx.db (cleanup_expired now ctx.db ctx.expiries).0
        → get_reply env.now ctx.is_pubsub (lookup key (cleanup_expired now ctx.db ctx.expiries).0)
          ≡ get_reply env.now ctx.is_pubsub (lookup key ctx.db)
    same (inl e) = rw e refl
    same (inr (entry, found, expired, gone)) =
        rw (found, gone) (rw (is_expired_later now env.now entry.expiry later expired) refl)
