-- ===== src/Server/Overdue.antt =====
-- server/blocking.rs: the heap of the deadlines under the clean-up of the clients that wait.
use redrum_db.Base.{
  ℕ, ◌-◌, ◌≡◌, refl, ap, sym, ◌∙◌, Bool, true, not, ◌⊎◌, if◌then◌else◌, false, ◌&&◌, ◌||◌, Option,
  none, some, [], ◌∷◌, ◌++◌, ◌==◌, ltb, arith, Bool-cases, inl, inr,
}
use redrum_db.Server.Connection.{Connection, Slab, send, unblock}
use redrum_db.Server.Waiting.{served_with}
use redrum_db.Server.Blocking.{Timeouts, null_array, time_out, cleanup_blocked}
use redrum_db.Server.TimedOut.{
  timed_out, timed_out_waiting, timed_out_other, AllDue, StartsLater, names, get-time_out,
  cleanup_blocked-timed_out,
}
use redrum_db.Server.Ticks.{ticks, AllFrom, IsOrdered}
use redrum_db.Server.Timed.{TimedAt, TimedAt-grows, untimed-IsTimed, AllTimed}

-- The part of the heap whose times are over, and the rest.
pub heap_split :
    (now : ℕ) (q : Timeouts)
    → (due : Timeouts) × (later : Timeouts) × (q ≡ due ++ later)
      × AllDue now due
      × StartsLater now later
heap_split now [] = ([], [], refl, tt, tt)
heap_split now ((t, token) ∷ q) = elim (Bool-cases (ltb now t)) [
  | inl e ↦ ([], (t, token) ∷ q, refl, tt, e)
  | inr e ↦
      let (due, later, same, all, starts) = heap_split now q in
      ((t, token) ∷ due, later, ap (λ r. (t, token) ∷ r) same, (e, all), starts)
]

AllFrom-ticks : (j t u : ℕ) (q : Timeouts) → AllFrom u q → ltb t u ≡ true → ticks j t q ≡ false
unfolding ticks
AllFrom-ticks j t u [] all h = refl
AllFrom-ticks j t u ((v, token) ∷ q) all h =
    rw (AllFrom-ticks j t u q all.1 h)
      (let other : (t == v) ≡ false = ground (arith, h, all.0) in rw other refl)

later-ticks :
    (now j t : ℕ) (later : Timeouts)
    → IsOrdered later
    → StartsLater now later
    → ltb now t ≡ false
    → ticks j t later ≡ false
unfolding ticks
later-ticks now j t [] ordered starts h = refl
later-ticks now j t ((u, token) ∷ q) ordered starts h =
    let before : ltb t u ≡ true = ground (arith, starts, h) in
    let other : (t == u) ≡ false = ground (arith, before) in
    rw (AllFrom-ticks j t u q ordered.0 before) (rw other refl)

-- A token whose time is over is in the part of the heap that the clean-up takes.
pub ticks-names :
    (now j t : ℕ) (due later : Timeouts)
    → IsOrdered (due ++ later)
    → StartsLater now later
    → ltb now t ≡ false
    → ticks j t (due ++ later) ≡ true
    → names j due ≡ true
unfolding ticks names
ticks-names now j t [] later ordered starts h ticked =
    absurd (false-ne-true (sym (later-ticks now j t later ordered starts h) ∙ ticked))
  where
    false-ne-true : false ≡ true → ⊥
    false-ne-true e = cc
ticks-names now j t ((u, token) ∷ due) later ordered starts h ticked =
    elim (Bool-cases (j == (token - 1))) [
      | inl e ↦ rw e refl
      | inr e ↦
          let rest : ticks j t (due ++ later) ≡ true = dropped (rw e at ticked) in
          rw (ticks-names now j t due later ordered.1 starts h rest) (ground arith)
    ]
  where
    dropped :
        ((t == u && false) || ticks j t (due ++ later)) ≡ true → ticks j t (due ++ later) ≡ true
    dropped k = ground (arith, k)

vacant-TimedAt : (q : Timeouts) (j : ℕ) → TimedAt q j (timed_out none)
unfolding timed_out
vacant-TimedAt q j = tt

answered_untimed : (conn : Connection) → (send null_array (unblock conn)).block_deadline ≡ none
unfolding send unblock
answered_untimed conn = refl

timed_out-TimedAt :
    (q q' : Timeouts) (j : ℕ) (o : Option Connection) → TimedAt q j o → TimedAt q' j (timed_out o)
timed_out-TimedAt q q' j none h = vacant-TimedAt q' j
timed_out-TimedAt q q' j (some conn) h = elim (Bool-cases conn.blocked) [
  | inl e ↦
      rw (timed_out_waiting conn e)
        (untimed-IsTimed q' j (send null_array (unblock conn)) (answered_untimed conn))
  | inr e ↦ rw (timed_out_other conn e) (λ t k. absurd (true-ne-false (sym (h t k).0 ∙ e)))
]
  where
    true-ne-false : true ≡ false → ⊥
    true-ne-false e = cc

ticks_behind :
    (j t u token : ℕ) (q : Timeouts)
    → (j == (token - 1)) ≡ false
    → ticks j t ((u, token) ∷ q) ≡ true
    → ticks j t q ≡ true
unfolding ticks
ticks_behind j t u token q other h = ground (arith, other, h)

abbrev pub is_over : ℕ → Option ℕ → Bool
is_over now none = false
is_over now (some t) = not (ltb now t)

-- What a client is given whose wait ends: the null array behind the bytes that it has to write.
abbrev pub ended : Connection → Connection
ended = served_with null_array

-- What the clean-up makes of what the slab has under a key.
abbrev pub Ends : ℕ → Option Connection → Option Connection → Type 0
Ends now none o = o ≡ none
Ends now (some conn) o =
    if is_over now conn.block_deadline
    then o ≡ some (ended conn)
    else (if conn.blocked then (o ≡ some conn) ⊎ (o ≡ some (ended conn)) else o ≡ some conn)

timed_out-ended :
    (conn : Connection) → conn.blocked ≡ true → timed_out (some conn) ≡ some (ended conn)
unfolding send unblock
timed_out-ended conn e = timed_out_waiting conn e

by_test : {A B : Type 0} (b : Bool) → (b ≡ true → A) → (b ≡ false → B) → (if b then A else B)
by_test true f g = f refl
by_test false f g = g refl

-- A token takes part in the clean-up or not, and does where the deadline is over.
token-Ends :
    (now : ℕ) (taken : Bool) (conn : Connection)
    → (is_over now conn.block_deadline ≡ true → (conn.blocked ≡ true) × (taken ≡ true))
    → Ends now (some conn) (if taken then timed_out (some conn) else some conn)
token-Ends now taken conn h =
    by_test (is_over now conn.block_deadline) (λ e. rw (h e).1 (timed_out-ended conn (h e).0))
      (λ e.
        by_test conn.blocked
          (λ waiting. elim (Bool-cases taken) [
            | inl f ↦ rw f (inr (timed_out-ended conn waiting))
            | inr f ↦ rw f (inl refl)
          ])
          (λ idle. elim (Bool-cases taken) [
            | inl f ↦ rw f (timed_out_other conn idle)
            | inr f ↦ rw f refl
          ]))

vacant-Ends : (now : ℕ) (taken : Bool) → Ends now none (if taken then timed_out none else none)
unfolding timed_out
vacant-Ends now true = refl
vacant-Ends now false = refl

over_time :
    (now : ℕ) (deadline : Option ℕ)
    → is_over now deadline ≡ true
    → (t : ℕ) × (deadline ≡ some t) × (ltb now t ≡ false)
over_time now none e = cc
over_time now (some t) e = (t, refl, ground (arith, e))

-- The same for what the slab has under a key, where a token whose time is over takes part.
names-Ends :
    (now j : ℕ) (q : Timeouts) (taken : Bool) (o : Option Connection)
    → TimedAt q j o
    → ((t : ℕ) → ltb now t ≡ false → ticks j t q ≡ true → taken ≡ true)
    → Ends now o (if taken then timed_out o else o)
names-Ends now j q taken none h takes = vacant-Ends now taken
names-Ends now j q taken (some conn) h takes = token-Ends now taken conn (λ over.
    let (t, deadline, due) = over_time now conn.block_deadline over in
    let (blocked, ticked) = h t deadline in (blocked, takes t due ticked))

module _ (slab : Slab) where
  open slab use {Conns, get}

  time_out-AllTimed :
      (t token : ℕ) (q : Timeouts) (conns : Conns)
      → AllTimed slab ((t, token) ∷ q) conns
      → AllTimed slab q (time_out slab token conns)
  time_out-AllTimed t token q conns all j =
      rw (get-time_out slab token conns j) (elim (Bool-cases (j == (token - 1))) [
        | inl e ↦ rw e (timed_out-TimedAt ((t, token) ∷ q) q j (get conns j) (all j))
        | inr e ↦ rw e (
            TimedAt-grows ((t, token) ∷ q) q j (get conns j) (λ u. ticks_behind j u t token q e)
              (all j))
      ])

  -- The clean-up leaves the heap in its order, with the deadlines of the clients that wait.
  pub cleanup_blocked-AllTimed :
      (now : ℕ) (q : Timeouts) (conns : Conns)
      → IsOrdered q
      → AllTimed slab q conns
      → let (q', conns') = cleanup_blocked slab now q conns in
        IsOrdered q' × AllTimed slab q' conns'
  unfolding cleanup_blocked
  cleanup_blocked-AllTimed now [] conns ordered all = (tt, all)
  cleanup_blocked-AllTimed now ((t, token) ∷ q) conns ordered all = elim (Bool-cases (ltb now t)) [
    | inl later ↦ rw later (ordered, all)
    | inr due ↦ rw due (
        cleanup_blocked-AllTimed now q (time_out slab token conns) ordered.1
          (time_out-AllTimed t token q conns all))
  ]

  pub cleanup_blocked-Ends :
      (now j : ℕ) (q : Timeouts) (conns : Conns)
      → IsOrdered q
      → AllTimed slab q conns
      → Ends now (get conns j) (get (cleanup_blocked slab now q conns).1 j)
  cleanup_blocked-Ends now j q conns ordered all =
      let (due, later, same, over, starts) = heap_split now q in
      let ordered' = rw same at ordered in
      let after = cleanup_blocked-timed_out slab now due later conns over starts in
      rw same (
        rw (after.1 j) (
          names-Ends now j q (names j due) (get conns j) (all j)
            (λ t h ticked. ticks-names now j t due later ordered' starts h (rw same at ticked))))
