-- ===== src/Server/TestSlab.antt =====
-- server/connection.rs: a slab for the runs, which keeps its vacant keys in a stack.
use redrum_db.Base.{ℕ, suc, refl, true, Option, none, some, List, [], ◌∷◌, ◌==◌, if◌then◌else◌}
use redrum_db.Server.Request.{TimeoutParser}
use redrum_db.Commands.Context.{Env}
use redrum_db.Server.Connection.{Connection, new, Slab}

abbrev pub update : ℕ → Option Connection → (ℕ → Option Connection) → ℕ → Option Connection
update i o f j = if j == i then o else f j

-- The connections, the stack of the vacant keys below the end, and the end.
pub record Entries : Type 0 where
  pub at : ℕ → Option Connection
  pub free : List ℕ
  pub end : ℕ

abbrev first_free : List ℕ → ℕ → ℕ
first_free [] end = end
first_free (i ∷ free) end = i

abbrev rest_free : List ℕ → List ℕ
rest_free [] = []
rest_free (i ∷ free) = free

abbrev end_after : List ℕ → ℕ → ℕ
end_after [] end = suc end
end_after (i ∷ free) end = end

abbrev pub slab : Slab
slab = record {
  Conns = Entries;
  get = λ s i. s.at i;
  set = λ s i c. record s { at = update i (some c) s.at };
  remove = λ s i. record { at = update i none s.at; free = i ∷ s.free; end = s.end };
  insert = λ s c. record {
    at = update (first_free s.free s.end) (some c) s.at;
    free = rest_free s.free;
    end = end_after s.free s.end;
  };
  next_key = λ s. first_free s.free s.end;
  get-set = λ s i c d j e. refl;
  get-remove = λ s i j. refl;
  get-insert = λ s c j. refl;
  next_key-remove = λ s i c e. refl;
  next_key-set = λ s i c. refl;
}

abbrev pub no_clients : Entries
no_clients = record { at = λ i. none; free = []; end = 0 }

abbrev pub one_client : Entries
one_client = record { at = update 0 (some new) (λ i. none); free = []; end = 1 }

abbrev pub env : Env
env = record { now = 5; wall = 5; instant_max = 2000000000000; checks = true }

abbrev pub timeouts : TimeoutParser
timeouts text = some none
