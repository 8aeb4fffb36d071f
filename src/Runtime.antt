-- ===== src/Runtime.antt =====
-- What the program's code runs in: the surroundings that it consults, the state that it changes,
-- and an action over that state that can fail. A Go function `(T, error)` is a `Fallible T`.
pub mod Keeps
pub mod From
pub mod Gives
pub mod Transaction
pub mod Steps
pub mod Ends
pub mod Returns
pub mod After
use insider_one.Prelude.{ℕ, suc, ◌-◌, String, Bool, Option, none, some, List}
use insider_one.Domain.{Time}
use insider_one.Repository.Schema.{Database}
use insider_one.Provider.Message.{DeliveryRequest, Exchange}
use insider_one.Metrics.{Metrics}

-- A Go `error`, by its text.
abbrev pub Error : Type 0
Error = String

pub data Result (A : Type 0) : Type 0 where
  ok : A → Result A
  err : Error → Result A

-- How one exchange with the database server goes: the server is reached and takes the statement with
-- its values; or the statement is not run and an error comes back, of the connection or of PostgreSQL,
-- which refuses values that a column cannot hold, such as a NUL in a text or a number beyond an
-- INTEGER; or it is run and its answer is lost.
pub data Fault : Type 0 where
  taken : Fault
  refused : Error → Fault
  lost : Error → Fault

-- What is outside the program, by the number of the step at which it is consulted.
pub record Env : Type 0 where
  pub now : ℕ → Time  -- time.Now
  pub random : ℕ → ℕ → Option (List ℕ)  -- crypto/rand.Read of so many bytes, or its failure
  pub ctx_err : ℕ → Option Error  -- ctx.Err
  pub fault : ℕ → Fault  -- the connection to PostgreSQL
  pub locked : ℕ → String → Bool  -- the rows of `notifications` that other transactions hold
  pub exchange : ℕ → String → DeliveryRequest → Exchange  -- an HTTP POST to an endpoint
  pub time_text : String → Time → String  -- Format, by the layout
  pub stored : Time → Time  -- what a TIMESTAMPTZ column keeps of a time
  pub unique_violation : String → Error  -- the driver's error at a unique index
  pub foreign_key_violation : Error
  pub no_rows : Error  -- sql.ErrNoRows
  pub out_of_range : Error  -- PostgreSQL's error at a number beyond an INTEGER
  pub negative_offset : Error  -- PostgreSQL's error at a negative OFFSET

pub record World : Type 0 where
  pub db : Database
  pub metrics : Metrics
  pub tick : ℕ  -- the number of consultations so far

abbrev pub Fallible : Type 0 → Type 0
Fallible A = World → Result A × World

abbrev pub pure : {A : Type 0} → A → Fallible A
pure a w = (ok a, w)

abbrev pub raise : {A : Type 0} → Error → Fallible A
raise e w = (err e, w)

infixl 5 ◌>>=◌ ◌>>◌
unfoldable pub ◌>>=◌ : {A B : Type 0} → Fallible A → (A → Fallible B) → Fallible B
◌>>=◌ m f w = let (r, w') = m w in elim r [ ok a ↦ f a w' | err e ↦ (err e, w') ]

abbrev pub ◌>>◌ : {A B : Type 0} → Fallible A → Fallible B → Fallible B
m >> k = m >>= λ _. k

-- The error as a value, for code that looks at it or drops it.
unfoldable pub attempt : {A : Type 0} → Fallible A → Fallible (Result A)
attempt m w = let (r, w') = m w in (ok r, w')

-- `_ = m`: the result and the error are dropped.
unfoldable pub ignore : {A : Type 0} → Fallible A → Fallible (Unit {0})
ignore m w = (ok tt, (m w).1)

-- Hands a result on.
unfoldable pub lift : {A : Type 0} → Result A → Fallible A
lift r w = (r, w)

-- A consultation of the surroundings, which is one step.
unfoldable pub ask : {A : Type 0} → (ℕ → A) → Fallible A
ask source w = (ok (source w.tick), record w { tick = suc w.tick })

unfoldable pub modify_metrics : (Metrics → Metrics) → Fallible (Unit {0})
modify_metrics f w = (ok tt, record w { metrics = f w.metrics })

unfoldable pub get_metrics : Fallible Metrics
get_metrics w = (ok w.metrics, w)

-- `t.UnixNano()`, for a time after 1970.
abbrev pub unix_nano : Time → ℕ
unix_nano t = t - 62_135_596_800_000_000_000

abbrev err_of : Option Error → Result (Unit {0})
err_of none = ok tt
err_of (some e) = err e

-- The outcome of a statement with its result and the tables behind it.
unfoldable pub under_fault : {A : Type 0} → Fault → Result A × Database → World → Result A × World
under_fault taken (r, db) w = (r, record w { db = db })
under_fault (refused e) (r, db) w = (err e, w)
under_fault (lost e) (r, db) w = (err e, record w { db = db })

-- The same inside a transaction, with the view behind it.
unfoldable pub view_under_fault : {A : Type 0} → Fault → Result A × Database → Result (A × Database)
view_under_fault taken (ok a, tx) = ok (a, tx)
view_under_fault taken (err e, tx) = err e
view_under_fault (refused e) (r, tx) = err e
view_under_fault (lost e) (r, tx) = err e

module _ (env : Env) where
  -- `time.Now().UTC()`
  unfoldable pub clock : Fallible Time
  unfolding ask
  clock = ask env.now

  -- `if err := ctx.Err(); err != nil { return err }`
  unfoldable pub check_ctx : Fallible (Unit {0})
  unfolding ask ◌>>=◌ lift
  check_ctx = do e ← ask env.ctx_err; lift (err_of e)

  -- One statement outside a transaction: its effect on the tables, and the connection's fault.
  unfoldable pub exec : {A : Type 0} → (Database → Result A × Database) → Fallible A
  unfolding under_fault
  exec statement w =
      under_fault (env.fault w.tick) (statement w.db) (record w { tick = suc w.tick })

  -- A query, which changes no table.
  unfoldable pub query : {A : Type 0} → (Database → Result A) → Fallible A
  unfolding exec
  query select = exec (λ db. (select db, db))

  -- One statement inside a transaction, on the transaction's own view of the tables. A fault ends
  -- the transaction, whose deferred Rollback drops the view.
  unfoldable pub tx_exec :
      {A : Type 0} → (Database → Result A × Database) → Database → Fallible (A × Database)
  unfolding view_under_fault
  tx_exec statement tx w =
      (view_under_fault (env.fault w.tick) (statement tx), record w { tick = suc w.tick })

  -- `db.BeginTx`: the view begins as the tables.
  unfoldable pub begin_tx : Fallible Database
  unfolding query
  begin_tx = query (λ db. ok db)

  -- `tx.Commit`: the view becomes the tables.
  unfoldable pub commit : Database → Fallible (Unit {0})
  unfolding exec
  commit tx = exec (λ _. (ok tt, tx))
