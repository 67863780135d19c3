-- ===== src/Server/Ticks.antt =====
-- server/blocking.rs: the heap of the deadlines, in its order and with its tokens.
use redrum_db.Base.{
  ℕ, ◌-◌, ◌≡◌, refl, Bool, true, false, ◌&&◌, ◌||◌, [], ◌∷◌, ◌==◌, ==_refl, ltb, arith, Bool-cases,
  inl, inr,
}
use redrum_db.Base.Heap.{push}
use redrum_db.Server.Blocking.{Timeouts, times_out_before}

-- The heap has a token of the connection with the key `j` at the time `t`.
unfoldable pub ticks : ℕ → ℕ → Timeouts → Bool
ticks j t [] = false
ticks j t ((u, token) ∷ q) = (t == u && j == (token - 1)) || ticks j t q

-- No time of the heap is before `t`.
abbrev pub AllFrom : ℕ → Timeouts → Type 0
AllFrom t [] = Unit
AllFrom t ((u, token) ∷ q) = (ltb u t ≡ false) × AllFrom t q

abbrev pub IsOrdered : Timeouts → Type 0
IsOrdered [] = Unit
IsOrdered ((t, token) ∷ q) = AllFrom t q × IsOrdered q

AllFrom-trans : (t u : ℕ) (q : Timeouts) → ltb u t ≡ false → AllFrom u q → AllFrom t q
AllFrom-trans t u [] h all = tt
AllFrom-trans t u ((v, token) ∷ q) h all = (ground (arith, h, all.0), AllFrom-trans t u q h all.1)

push-AllFrom :
    (t u token : ℕ) (q : Timeouts)
    → ltb u t ≡ false
    → AllFrom t q
    → AllFrom t (push times_out_before (u, token) q)
unfolding push
push-AllFrom t u token [] h all = (h, tt)
push-AllFrom t u token ((v, a) ∷ q) h all = elim (Bool-cases (times_out_before (u, token) (v, a))) [
  | inl e ↦ rw (e, push) (h, all)
  | inr e ↦ rw (e, push) (all.0, push-AllFrom t u token q h all.1)
]

pub push-IsOrdered :
    (u token : ℕ) (q : Timeouts) → IsOrdered q → IsOrdered (push times_out_before (u, token) q)
unfolding push times_out_before
push-IsOrdered u token [] h = (tt, tt)
push-IsOrdered u token ((v, a) ∷ q) h = elim (Bool-cases (times_out_before (u, token) (v, a))) [
  | inl e ↦
      let below : ltb v u ≡ false = ground (arith, e) in
      rw (e, push) ((below, AllFrom-trans u v q below h.0), h)
  | inr e ↦
      let below : ltb u v ≡ false = ground (arith, e) in
      rw (e, push) (push-AllFrom v u token q below h.0, push-IsOrdered u token q h.1)
]

pub push-ticks_self :
    (t token : ℕ) (q : Timeouts) → ticks (token - 1) t (push times_out_before (t, token) q) ≡ true
unfolding push ticks
push-ticks_self t token [] = rw (==_refl t) (rw (==_refl (token - 1)) refl)
push-ticks_self t token ((v, a) ∷ q) = elim (Bool-cases (times_out_before (t, token) (v, a))) [
  | inl e ↦ rw (e, push) (rw (==_refl t) (rw (==_refl (token - 1)) refl))
  | inr e ↦ rw (e, push) (rw (push-ticks_self t token q) (ground arith))
]

pub push-ticks :
    (j t u token : ℕ) (q : Timeouts)
    → ticks j t q ≡ true
    → ticks j t (push times_out_before (u, token) q) ≡ true
unfolding push ticks
push-ticks j t u token [] h = cc
push-ticks j t u token ((v, a) ∷ q) h = elim (Bool-cases (times_out_before (u, token) (v, a))) [
  | inl e ↦ rw (e, push) (rw h (ground arith))
  | inr e ↦
      rw (e, push)
        (elim (Bool-cases (t == v && j == (a - 1))) [
          | inl f ↦ rw f refl
          | inr f ↦ rw (push-ticks j t u token q (rw f at h)) (ground arith)
        ])
]
