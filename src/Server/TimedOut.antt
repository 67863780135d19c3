-- ===== src/Server/TimedOut.antt =====
-- server/blocking.rs: the clients whose time is over.
use redrum_db.Base.{
  ℕ, ◌-◌, ◌≡◌, refl, ap, sym, ◌∙◌, Bool, true, false, ◌||◌, Option, none, some, [], ◌∷◌, ◌++◌, ltb,
  ◌==◌, ==_iff, if◌then◌else◌, Option-cases, Bool-cases, inl, inr,
}
use redrum_db.Server.Connection.{Connection, Slab, send, unblock}
use redrum_db.Server.Blocking.{Timeouts, null_array, time_out, cleanup_blocked}

-- The connection of a client whose time is over, if it waits.
unfoldable pub timed_out : Option Connection → Option Connection
unfolding send unblock
timed_out none = none
timed_out (some conn) = some (if conn.blocked then send null_array (unblock conn) else conn)

pub timed_out_waiting :
    (conn : Connection)
    → conn.blocked ≡ true
    → timed_out (some conn) ≡ some (send null_array (unblock conn))
unfolding timed_out
timed_out_waiting conn e = simp e

pub timed_out_other : (conn : Connection) → conn.blocked ≡ false → timed_out (some conn) ≡ some conn
unfolding timed_out
timed_out_other conn e = simp e

timed_out-none : timed_out (timed_out none) ≡ timed_out none
unfolding timed_out
timed_out-none = refl

timed_out_twice : (o : Option Connection) → timed_out (timed_out o) ≡ timed_out o
unfolding send unblock
timed_out_twice none = timed_out-none
timed_out_twice (some conn) = elim (Bool-cases conn.blocked) [
  | inl e ↦
      ap timed_out (timed_out_waiting conn e)
      ∙ (timed_out_other (send null_array (unblock conn)) refl ∙ sym (timed_out_waiting conn e))
  | inr e ↦ ap timed_out (timed_out_other conn e)
]

-- The times are over.
abbrev pub AllDue : ℕ → Timeouts → Type 0
AllDue now [] = Unit
AllDue now ((t, token) ∷ q) = (ltb now t ≡ false) × AllDue now q

-- The first of the times, if there is one, is not over.
abbrev pub StartsLater : ℕ → Timeouts → Type 0
StartsLater now [] = Unit
StartsLater now ((t, token) ∷ q) = ltb now t ≡ true

-- The connection has a token among these.
unfoldable pub names : ℕ → Timeouts → Bool
names j [] = false
names j ((t, token) ∷ q) = (j == (token - 1)) || names j q

module _ (slab : Slab) where
  open slab use {Conns, get, set, get-set}

  time_out_waiting :
      (token : ℕ) (conns : Conns) (conn : Connection)
      → get conns (token - 1) ≡ some conn
      → conn.blocked ≡ true
      → time_out slab token conns ≡ set conns (token - 1) (send null_array (unblock conn))
  unfolding time_out
  time_out_waiting token conns conn e b = rw (e, time_out) (simp b)

  time_out_other :
      (token : ℕ) (conns : Conns) (conn : Connection)
      → get conns (token - 1) ≡ some conn
      → conn.blocked ≡ false
      → time_out slab token conns ≡ conns
  unfolding time_out
  time_out_other token conns conn e b = rw (e, time_out) (simp b)

  time_out_gone :
      (token : ℕ) (conns : Conns) → get conns (token - 1) ≡ none → time_out slab token conns ≡ conns
  unfolding time_out
  time_out_gone token conns e = rw (e, time_out) refl

  unchanged :
      (i : ℕ) (conns : Conns) (j : ℕ)
      → timed_out (get conns i) ≡ get conns i
      → get conns j ≡ (if j == i then timed_out (get conns j) else get conns j)
  unchanged i conns j same = elim (Bool-cases (j == i)) [
    | inl f ↦ rw f (rw ((==_iff j i).0 f) (sym same))
    | inr f ↦ rw f refl
  ]

  pub get-time_out :
      (token : ℕ) (conns : Conns) (j : ℕ)
      → get (time_out slab token conns) j
        ≡ (if j == (token - 1) then timed_out (get conns j) else get conns j)
  unfolding timed_out
  get-time_out token conns j = elim (Option-cases (get conns (token - 1))) [
    | inl e ↦
        rw (time_out_gone token conns e) (unchanged (token - 1) conns j (ap timed_out e ∙ sym e))
    | inr (conn, e) ↦ elim (Bool-cases conn.blocked) [
      | inr b ↦
          rw (time_out_other token conns conn e b)
            (unchanged (token - 1) conns j (ap timed_out e ∙ (timed_out_other conn b ∙ sym e)))
      | inl b ↦ rw (time_out_waiting token conns conn e b) (
          rw (get-set conns (token - 1) (send null_array (unblock conn)) conn j e)
            (elim (Bool-cases (j == (token - 1))) [
              | inl f ↦ rw f (
                  sym (
                    ap (λ i. timed_out (get conns i)) ((==_iff j (token - 1)).0 f)
                    ∙ (ap timed_out e ∙ timed_out_waiting conn b)))
              | inr f ↦ rw f refl
            ]))
    ]
  ]

  -- The clean-up of the clients takes those times from the front of the heap that are over, and stops at the
  -- first that is not. Every client with one of their tokens that waits gets the null array and waits no
  -- longer; every other connection is as it was.
  pub cleanup_blocked-timed_out :
      (now : ℕ) (due later : Timeouts) (conns : Conns)
      → AllDue now due
      → StartsLater now later
      → let (q', conns') = cleanup_blocked slab now (due ++ later) conns in
        (q' ≡ later)
        × ((j : ℕ) → get conns' j ≡ (if names j due then timed_out (get conns j) else get conns j))
  unfolding cleanup_blocked names
  cleanup_blocked-timed_out now [] [] conns all starts = (refl, λ j. refl)
  cleanup_blocked-timed_out now [] ((t, token) ∷ later) conns all starts =
      rw starts (refl, λ j. refl)
  cleanup_blocked-timed_out now ((t, token) ∷ due) later conns all starts =
      let (same, rest) =
        cleanup_blocked-timed_out now due later (time_out slab token conns) all.1 starts in
      rw (all.0) (same, λ j. rest j ∙ rw (get-time_out token conns j) (both j))
    where
      both :
          (j : ℕ)
          → (if names j due
              then timed_out (if j == (token - 1) then timed_out (get conns j) else get conns j)
              else (if j == (token - 1) then timed_out (get conns j) else get conns j))
            ≡ (if (j == (token - 1)) || names j due then timed_out (get conns j) else get conns j)
      both j = elim (Bool-cases (j == (token - 1))) [
        | inr f ↦ rw f refl
        | inl f ↦ rw f (elim (Bool-cases (names j due)) [
          | inl g ↦ rw g (timed_out_twice (get conns j))
          | inr g ↦ rw g refl
        ])
      ]
