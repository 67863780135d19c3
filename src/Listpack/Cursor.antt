-- ===== src/Listpack/Cursor.antt =====
-- data_structures/listpack.rs: an iterator as the values that are left.
use redrum_db.Base.{
  ◌+◌, ◌<◌, ◌≡◌, refl, ap, ◌∙◌, none, some, List, [], ◌∷◌, ◌++◌, Bytes, length, length-append,
  arith,
}
use redrum_db.Base.Words.{u64_mod}
use redrum_db.Listpack.Codec.{Value, lp_eof}
use redrum_db.Listpack.Represents.{Entries, IsListpack, header, saturated, at, next_end, next_step}
use redrum_db.Listpack.{Listpack, ListpackIter, iter, next}

-- The iterator stands in front of the entries of the values and the end mark.
pub record Remaining (it : ListpackIter) (vs : List Value) : Type 0 where
  pub pre : Bytes
  pub body : Bytes
  pub is : it ≡ at (pre ++ (body ++ (lp_eof ∷ []))) (length pre)
  pub low : length pre + length body < u64_mod
  pub entries : Entries vs body

pub iter-Remaining : (lp : Listpack) (vs : List Value) → IsListpack lp vs → Remaining (iter lp) vs
iter-Remaining lp vs h =
    let low = h.fits in
    record {
      pre = header (7 + length h.body) (saturated (length vs));
      body = h.body;
      is = ap (λ b. at b 6) h.is;
      low = omega arith;
      entries = h.entries;
    }

pub next_done : (it : ListpackIter) → Remaining it [] → next it ≡ none
next_done it r =
    ap next (r.is ∙ ap (λ b. at (r.pre ++ (b ++ (lp_eof ∷ []))) (length r.pre)) r.entries)
    ∙ next_end r.pre []

pub next-Remaining :
    (it : ListpackIter) (v : Value) (vs : List Value)
    → Remaining it (v ∷ vs)
    → (it' : ListpackIter) × (next it ≡ some (v, it')) × Remaining it' vs
next-Remaining it v vs r =
    let (e, rest, he, hr, is) = r.entries in
    let n : length r.body ≡ length e + length rest = ap length is ∙ length-append e rest in
    let low = r.low in
    (
      _,
      ap next (r.is ∙ ap (λ b. at (r.pre ++ (b ++ (lp_eof ∷ []))) (length r.pre)) is)
          ∙ next_step v vs r.pre e rest he (omega arith),
      record {
        pre = r.pre ++ e;
        body = rest;
        is = refl;
        low = omega (arith, length-append r.pre e);
        entries = hr;
      },
    )
