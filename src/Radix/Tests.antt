-- ===== src/Radix/Tests.antt =====
-- data_structures/radix.rs: runs on the keys of the comment at the end of the file.
use redrum_db.Base.{ℕ, ◌≡◌, refl, none, some, [], Bytes, bytes_eq, if◌then◌else◌, arith}
use mathlib.Core.Option
use redrum_db.Base.Text.{codes}
use redrum_db.Radix.{node, nil, cons, RadixTree, new, insert, get, write}
use redrum_db.Radix.Wf.{IsWf}
use redrum_db.Radix.Shape.{insert-IsWf}
use redrum_db.Radix.Lookup.{get-insert, get-write}

-- "hii" and "hiia" in an empty tree.
abbrev hii : RadixTree ℕ
hii = record { root = node [] (cons 104 (node (codes "hii") nil (some 19)) nil) none }

abbrev hiia : RadixTree ℕ
hiia = record {
  root =
      node []
        (cons 104 (node (codes "hii") (cons 97 (node (codes "a") nil (some 17)) nil) (some 19)) nil)
        none;
}

insert-hii_test : insert new (codes "hii") 19 ≡ some hii
unfolding insert new
insert-hii_test = refl

insert-hiia_test : insert hii (codes "hiia") 17 ≡ some hiia
unfolding insert
insert-hiia_test = refl

get_missing_test : get hiia (codes "hi") ≡ none
unfolding get
get_missing_test = refl

get-insert_example :
    (t' : RadixTree ℕ) × (insert hiia (codes "hc") 12 ≡ some t')
    × ((j : Bytes) → get t' j ≡ (if bytes_eq j (codes "hc") then some 12 else get hiia j))
get-insert_example = get-insert hiia (codes "hc") 12

get-write_example : get (write hiia (codes "hii") 5) (codes "hiia") ≡ (
    if bytes_eq (codes "hiia") (codes "hii")
    then Option.map (λ _. 5) (get hiia (codes "hii"))
    else get hiia (codes "hiia"))
get-write_example = get-write hiia (codes "hii") 5 (codes "hiia")

insert-IsWf_example : IsWf hiia
insert-IsWf_example =
    insert-IsWf hii (codes "hiia") 17 hiia ((refl, ((refl, tt, (omega arith, tt), tt))))
      insert-hiia_test
