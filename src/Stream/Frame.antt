-- ===== src/Stream/Frame.antt =====
-- data_structures/stream.rs: the runs of a log when the tree changes under one key, and IDs above all
-- others.
use redrum_db.Base.{
  ◌≡◌, refl, sym, ◌∙◌, Bool, true, false, ◌&&◌, Option, none, some, List, [], ◌∷◌, ◌++◌, Bytes,
  arith, bytes_eq,
}
use mathlib.Core.Path.{subst}
use redrum_db.Radix
use redrum_db.Radix.{RadixTree}
use redrum_db.Stream.Id.{StreamId, id_lt, id_le, to_bytes}
use redrum_db.Stream.{StreamNode, index_insert, rejects}
use redrum_db.Stream.Log.{LogEntry, IsPlainEntry, ArePlain}
use redrum_db.Stream.Order.{IsId, to_bytes-lt, From, UpTo, UpTo-Below, Below-UpTo}
use redrum_db.Stream.Chunks.{Chunk, entries, bases, AllBelow, AllUpTo, InTree, Chunks, newest, Top}

pub and_left : (a b : Bool) → (a && b) ≡ true → a ≡ true
and_left a b h = ground arith

pub id_le_refl : (a : StreamId) → id_le a a ≡ true
id_le_refl a = ground arith

pub lt-of-not_le : (a b : StreamId) → id_le a b ≡ false → id_lt b a ≡ true
lt-of-not_le a b h = ground arith

pub newest_snoc : (es : List LogEntry) (e : LogEntry) → newest (es ++ (e ∷ [])) ≡ some e.id
newest_snoc [] e = refl
newest_snoc (x ∷ []) e = refl
newest_snoc (x ∷ y ∷ es) e = newest_snoc (y ∷ es) e

pub ArePlain-snoc :
    (es : List LogEntry) (e : LogEntry) → ArePlain es → IsPlainEntry e → ArePlain (es ++ (e ∷ []))
ArePlain-snoc [] e h p = (p, tt)
ArePlain-snoc (x ∷ es) e (q, h) p = (q, ArePlain-snoc es e h p)

pub From-snoc :
    (b : StreamId) (es : List LogEntry) (e : LogEntry)
    → From b es
    → id_le b e.id ≡ true
    → From b (es ++ (e ∷ []))
From-snoc b [] e h p = (p, tt)
From-snoc b (x ∷ es) e (q, h) p = (q, From-snoc b es e h p)

pub UpTo-snoc : (es : List LogEntry) (e : LogEntry) → UpTo e.id es → UpTo e.id (es ++ (e ∷ []))
UpTo-snoc es e h = go es h
  where
    go : (xs : List LogEntry) → UpTo e.id xs → UpTo e.id (xs ++ (e ∷ []))
    go [] h = (id_le_refl e.id, tt)
    go (x ∷ xs) (q, h) = (q, go xs h)

pub AllUpTo-AllBelow :
    (b c : StreamId) (cs : List Chunk) → id_lt b c ≡ true → AllUpTo b cs → AllBelow c cs
AllUpTo-AllBelow b c [] low h = tt
AllUpTo-AllBelow b c (x ∷ cs) low (p, h) =
    (UpTo-Below b c (entries x) low p, AllUpTo-AllBelow b c cs low h)

pub AllBelow-AllUpTo : (b : StreamId) (cs : List Chunk) → AllBelow b cs → AllUpTo b cs
AllBelow-AllUpTo b [] h = tt
AllBelow-AllUpTo b (x ∷ cs) (p, h) = (Below-UpTo b (entries x) p, AllBelow-AllUpTo b cs h)

-- An ID that is not rejected is above all others.
pub accepted-AllBelow :
    (last : Option StreamId) (id : StreamId) (cs : List Chunk)
    → Top last cs
    → rejects last id ≡ false
    → AllBelow id cs
unfolding rejects
accepted-AllBelow none id cs top h = subst (AllBelow id) (sym top) tt
accepted-AllBelow (some last) id cs top h = AllUpTo-AllBelow last id cs (lt-of-not_le id last h) top

pub IsId-first : (t : RadixTree StreamNode) (c : Chunk) → InTree t c → IsId c.first.id
IsId-first t c h = let (((ms, _), (seq, _), _), _) = h.plain in (ms, seq)

-- What stands under other keys stays in the tree.
pub Chunks-frame :
    (t t' : RadixTree StreamNode) (b : StreamId) (cs : List Chunk)
    → IsId b
    → ((j : Bytes) → bytes_eq j (to_bytes b) ≡ false → Radix.get t' j ≡ Radix.get t j)
    → AllBelow b cs
    → Chunks t cs
    → Chunks t' cs
Chunks-frame t t' b [] b_is keeps low h = tt
Chunks-frame t t' b (c ∷ cs) b_is keeps ((p, ps), low) (here, below, h) = (
  record {
    node = here.node;
    found =
        keeps (to_bytes c.first.id) (to_bytes-lt c.first.id b (IsId-first t c here) b_is p)
        ∙ here.found;
    holds = here.holds;
    plain = here.plain;
    from_base = here.from_base;
  },
  below,
  Chunks-frame t t' b cs b_is keeps low h,
)

pub index_insert_top :
    (id : StreamId) (cs : List Chunk) → AllBelow id cs → index_insert id (bases cs) ≡ id ∷ bases cs
unfolding index_insert
index_insert_top id [] h = refl
index_insert_top id (c ∷ cs) ((p, _), h) = rw p
