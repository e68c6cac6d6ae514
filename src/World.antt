-- ===== src/World.antt =====
-- The database as one state, and the code that runs against it as a monad of state and exceptions.
pub mod Commit
pub mod Keeps
pub mod Inversion
use remote_control_pjt.Prelude.{
  ℕ, String, ◌≡◌, Bool, Option, none, some, List, [], ◌∷◌, if◌then◌else◌,
}
use remote_control_pjt.Result.{Error, Result, ok, err}
use remote_control_pjt.Records.{
  JobRecord, EventRecord, HostRecord, ExecutionLeaseRecord, RemoteExecutionRecord,
  ProjectSessionRecord, SessionRecord, ApprovalRecord, RecoveryRecord, TelegramProjectTopicRecord,
  TelegramMessageBindingRecord, ProjectWorkRecord, QaRunRecord,
}
use remote_control_pjt.Memory.{Task, RunHandle}

-- How the database answers one COMMIT: it writes, SQLite reports that it is busy or locked, or the
-- COMMIT fails for another reason.
pub data Outcome : Type 0 where
  committed busy broken : Outcome

-- How one call of a notifier ends: it delivers, it raises an exception, of which the name of its class
-- and its text are kept, or the task that awaits it is cancelled.
pub data Delivery : Type 0 where
  delivered cancelled : Delivery
  refused : String → String → Delivery

-- The tables in the order of insertion; `clock` is what `datetime.now` returns; `outcomes` says
-- how the coming COMMITs end (`committed` where the list has run out).
pub record World : Type 0 where
  pub jobs : List JobRecord
  pub events : List EventRecord
  pub hosts : List HostRecord
  pub leases : List ExecutionLeaseRecord
  pub executions : List RemoteExecutionRecord
  pub project_sessions : List ProjectSessionRecord
  pub sessions : List SessionRecord
  pub approvals : List ApprovalRecord
  pub recovery : List RecoveryRecord
  pub topics : List TelegramProjectTopicRecord
  pub bindings : List TelegramMessageBindingRecord
  pub project_work : List ProjectWorkRecord
  pub qa_runs : List QaRunRecord
  pub clock : ℕ
  pub outcomes : List Outcome
  -- The job manager's `_tasks`, `_handles` and `_steering`, and the channels with a notifier, and
  -- with one for questions.
  pub tasks : List (String × Task)
  pub handles : List (String × RunHandle)
  pub steering : List (String × List String)
  -- The background tasks `_stop_active_turn`, by job.
  pub stops : List String
  pub channels : List String
  pub approval_channels : List String
  -- How the coming calls of a notifier end; all deliver where the list has run out.
  pub sends : List Delivery

abbrev pub Action : Type 0 → Type 0
Action A = World → Result A × World

unfoldable pub pure : {A : Type 0} → A → Action A
pure a w = (ok a, w)

unfoldable pub raise : {A : Type 0} → Error → Action A
raise e w = (err e, w)

unfoldable pub gets : {A : Type 0} → (World → A) → Action A
gets f w = (ok (f w), w)

abbrev pub modify : (World → World) → Action (Unit {0})
modify f w = (ok tt, f w)

abbrev pub continue : {A B : Type 0} → Result A → (A → Action B) → Action B
continue (ok a) f w = f a w
continue (err e) f w = (err e, w)

-- `try: … except …:` with a handler for each exception.
abbrev pub handle : {A : Type 0} → Result A → (Error → Action A) → Action A
handle (ok a) h w = (ok a, w)
handle (err e) h w = h e w

unfoldable pub catch : {A : Type 0} → Action A → (Error → Action A) → Action A
catch m h w = let (r, w') = m w in handle r h w'

unfoldable pub or_raise : {A : Type 0} → Option A → Error → Action A
or_raise none e = raise e
or_raise (some a) e = pure a

unfoldable pub lift : {A : Type 0} → Result A → Action A
lift r w = (r, w)

infixl 5 ◌>>=◌ ◌>>◌
-- Opening this opens the actions above too.
unfoldable pub ◌>>=◌ : {A B : Type 0} → Action A → (A → Action B) → Action B
unfolding pure raise gets lift or_raise catch
◌>>=◌ m f w = let (r, w') = m w in continue r f w'

abbrev pub ◌>>◌ : {A B : Type 0} → Action A → Action B → Action B
m >> k = m >>= λ _. k

abbrev pub raise_if : Bool → Error → Action (Unit {0})
raise_if b e = if b then raise e else pure tt

-- `try: … except …:` whose handler comes later: the outcome as a value.
unfoldable pub outcome : {A : Type 0} → Action A → Action (Result A)
outcome m w = let (r, w') = m w in (ok r, w')

-- An action that does nothing when the condition fails.
abbrev pub when : Bool → Action (Unit {0}) → Action (Unit {0})
when b m = if b then m else pure tt

-- `datetime.now(timezone.utc)`
abbrev pub now : Action ℕ
now = gets (λ w. w.clock)

abbrev pub head_outcome : List Outcome → Outcome
head_outcome [] = committed
head_outcome (o ∷ os) = o

abbrev pub later : List Outcome → List Outcome
later [] = []
later (o ∷ os) = os

-- What a COMMIT that does not write leaves: all tables as they were.
abbrev pub untouched : World → World
untouched w = record w { outcomes = later w.outcomes }

abbrev pub settle : Outcome → Bool → (World → World) → Action (Unit {0})
settle committed violated f w = if violated then (err Error.integrity_error, w) else (ok tt, f w)
settle busy violated f w = (err Error.database_busy, w)
settle broken violated f w = (err Error.operational_error, w)

-- One transaction: all its writes `f` at once, or none of them. `violated` says that a PRIMARY KEY
-- or UNIQUE constraint refuses them.
unfoldable pub commit : Bool → (World → World) → Action (Unit {0})
commit violated f w = settle (head_outcome w.outcomes) violated f (untouched w)

-- The same tables and clock: the two states differ at most in the COMMITs to come.
abbrev pub Same : World → World → Type 0
Same v w = record v { outcomes = [] } ≡ record w { outcomes = [] }
