-- ===== src/Listpack/Built.antt =====
-- data_structures/listpack.rs: a listpack that is built by `new` and `append`.
use redrum_db.Base.{
  ℕ, ◌+◌, ◌≤◌, leb, if◌then◌else◌, Bool-cases, arith, ◌≡◌, refl, ap, ◌⊎◌, ◌∙◌, some, List, [], ◌∷◌,
  ◌++◌, append_assoc, append-nil, Bytes, length, inl, inr, suc,
}
use redrum_db.Base.Result.{Result, ok, err, ◌>>=◌}
use redrum_db.Listpack.Codec.{Value, ListpackError, overflow}
use redrum_db.Listpack.{Listpack, new, append, iter, collect, element_count, total_bytes}
use redrum_db.Listpack.Represents.{IsListpack}
use redrum_db.Listpack.Append.{stored, Extends, append-Extends, append_fits}
use redrum_db.Listpack.Laws.{new-IsListpack, total_bytes-length, element_count-length, collect-iter}

-- The texts are appended one after another.
unfoldable pub append_all : Listpack → List Bytes → Result ListpackError Listpack
append_all lp [] = ok lp
append_all lp (text ∷ texts) = do lp' ← append lp text; append_all lp' texts

-- A new listpack with the texts.
unfoldable pub build : List Bytes → Result ListpackError Listpack
unfolding append_all
build texts = do lp ← new; append_all lp texts

abbrev pub all_stored : List Bytes → List Value
all_stored [] = []
all_stored (text ∷ texts) = stored text ∷ all_stored texts

length-all_stored : (texts : List Bytes) → length (all_stored texts) ≡ length texts
length-all_stored [] = refl
length-all_stored (text ∷ texts) = ap suc (length-all_stored texts)

append_all-Extends :
    (texts : List Bytes) (lp : Listpack) (vs : List Value)
    → IsListpack lp vs
    → Extends (append_all lp texts) (vs ++ all_stored texts)
unfolding append_all
append_all-Extends [] lp vs h = inl (lp, refl, rw (append-nil vs) h)
append_all-Extends (text ∷ texts) lp vs h = elim (append-Extends lp vs h text) [
  | inl (mid, e, k) ↦
      rw (e, append_all)
        (rw (append_assoc vs (stored text ∷ []) (all_stored texts)) at
          (append_all-Extends texts mid (vs ++ (stored text ∷ [])) k))
  | inr e ↦ rw (e, append_all) (inr refl)
]

-- What the texts take at most.
abbrev pub size_of : List Bytes → ℕ
size_of [] = 0
size_of (text ∷ texts) = length text + 16 + size_of texts

append_all_fits :
    (texts : List Bytes) (lp : Listpack) (vs : List Value)
    → IsListpack lp vs
    → length lp.bytes + size_of texts ≤ 0x0FFFFFFF
    → (lp' : Listpack) × (append_all lp texts ≡ ok lp') × IsListpack lp' (vs ++ all_stored texts)
unfolding append_all
append_all_fits [] lp vs h room = (lp, refl, rw (append-nil vs) h)
append_all_fits (text ∷ texts) lp vs h room =
    let (mid, e, k, size) = append_fits lp vs h text (omega arith) (omega arith) in
    let (lp', run, h') = append_all_fits texts mid (vs ++ (stored text ∷ [])) k (omega arith) in
    (lp', rw (e, append_all) run, rw (append_assoc vs (stored text ∷ []) (all_stored texts)) at h')

-- The run gives a listpack. The header has the length of its vector, the values are counted, and the
-- iterator gives what was stored for the texts within fuel for the number of bytes.
abbrev pub Reads : List Bytes → Result ListpackError Listpack → Type 0
Reads texts r =
    (lp : Listpack) × (r ≡ ok lp)
    × (total_bytes {E = ListpackError} lp ≡ ok (length lp.bytes))
    × (element_count lp ≡ ok (length texts))
    × (collect (length lp.bytes) (iter lp) ≡ some (all_stored texts))

IsListpack-Reads :
    (texts : List Bytes) (r : Result ListpackError Listpack) (lp : Listpack)
    → r ≡ ok lp
    → IsListpack lp (all_stored texts)
    → Reads texts r
IsListpack-Reads texts r lp run k = (
  lp,
  run,
  total_bytes-length lp (all_stored texts) k,
  element_count-length lp (all_stored texts) k ∙ ap ok (length-all_stored texts),
  collect-iter lp (all_stored texts) k,
)

-- `new` and any number of appends give a listpack that has the length of its vector in its header, counts as
-- many values as were appended, and iterates over what was stored for the texts, in their order, where the
-- number of bytes is enough fuel; or, where the texts with 16 bytes for each and the 7 bytes of the new
-- listpack exceed 0x0FFFFFFF, an append may report an overflow. They do not panic.
pub build-Reads :
    (texts : List Bytes)
    → (if leb (7 + size_of texts) 0x0FFFFFFF
        then Reads texts (build texts)
        else Reads texts (build texts)
        ⊎ (build texts ≡ err overflow))
unfolding build
build-Reads texts =
    let (empty, e, h) = new-IsListpack {E = ListpackError} in
    elim (Bool-cases (leb (7 + size_of texts) 0x0FFFFFFF)) [
      | inl fits ↦
          let (lp, run, k) = append_all_fits texts empty [] h (ground arith) in
          rw fits (IsListpack-Reads texts (build texts) lp (rw (e, build) run) k)
      | inr big ↦ rw big (elim (append_all-Extends texts empty [] h) [
        | inl (lp, run, k) ↦ inl (IsListpack-Reads texts (build texts) lp (rw (e, build) run) k)
        | inr run ↦ inr (rw (e, build) run)
      ])
    ]
