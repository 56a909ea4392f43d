-- ===== src/Controllers/Flow.antt =====
-- A reconciler's run: its state is the world outside and the log of what it did to it, and it may
-- return early, as Go's `return` does. `W` is the world.
use fluxseer_rca.Base.{String, List, ◌∷◌, Option, none, some, pos, if◌then◌else◌}
use fluxseer_rca.Api.Meta.{
  Duration, Key, Result, ok, err, Error, is_not_found, NamespacedObjectReference,
}
use fluxseer_rca.Api.Action.{AgentAction, RemediationPlan}
use fluxseer_rca.Executor.Contract.{ExecutorRequest}

-- What `Reconcile` returns: the delay after which it wants to run again (0 for none) and an error.
-- A nil dereference crashes it.
pub data Outcome : Type 0 where
  finished : Duration → Option Error → Outcome
  crashed : Outcome

abbrev pub done : Outcome
done = finished (pos 0) none

abbrev pub failed : Error → Outcome
failed e = finished (pos 0) (some e)

abbrev pub requeue : Duration → Outcome
requeue d = finished d none

-- `client.IgnoreNotFound(err)`.
abbrev pub ignoring_not_found : Error → Outcome
ignoring_not_found e = if is_not_found e then done else failed e

-- The effects on the world, as the log records them.
pub data Effect : Type 0 where
  saved : AgentAction → Effect
  dispatched : ExecutorRequest → Effect
  deleted : Key → Effect
  notified : Effect
  event : String → String → String → Effect
  verification_created : NamespacedObjectReference → Effect
  plan_updated : RemediationPlan → Effect
  plan_saved : RemediationPlan → Effect
  action_applied : AgentAction → Effect

-- The newest effect stands first.
pub record State (W : Type 0) : Type 0 where
  pub world : W
  pub log : List Effect

pub data Step (A : Type 0) : Type 0 where
  next : A → Step A
  exit : Outcome → Step A

abbrev pub Flow : Type 0 → Type 0 → Type 0
Flow W A = State W → Step A × State W

module _ {W : Type 0} where
  unfoldable pub pure : {A : Type 0} → A → Flow W A
  pure a s = (next a, s)

  -- `return` from inside.
  unfoldable pub leave : {A : Type 0} → Outcome → Flow W A
  leave o s = (exit o, s)

  unfoldable pub and_then : {A B : Type 0} → Step A → (A → Flow W B) → Flow W B
  and_then (next a) f s = f a s
  and_then (exit o) f s = (exit o, s)

  infixl 5 ◌>>=◌ ◌>>◌
  unfoldable pub ◌>>=◌ : {A B : Type 0} → Flow W A → (A → Flow W B) → Flow W B
  unfolding and_then
  ◌>>=◌ m f s = let (r, s') = m s in and_then r f s'

  abbrev pub ◌>>◌ : {A B : Type 0} → Flow W A → Flow W B → Flow W B
  m >> n = m >>= λ _. n

  -- A call of the world that leaves no effect behind.
  unfoldable pub query : {A : Type 0} → (W → A × W) → Flow W A
  query call s = let (a, w) = call s.world in (next a, record s { world = w })

  unfoldable pub write : Effect → Flow W (Unit {0})
  write e s = (next tt, record s { log = e ∷ s.log })

  -- `if err != nil { return ctrl.Result{}, err }`.
  unfoldable pub or_fail : {A : Type 0} → Result A → Flow W A
  unfolding pure leave
  or_fail (ok a) = pure a
  or_fail (err e) = leave (failed e)

  unfoldable pub or_ignore : {A : Type 0} → Result A → Flow W A
  unfolding pure leave
  or_ignore (ok a) = pure a
  or_ignore (err e) = leave (ignoring_not_found e)

abbrev pub outcome_of : Step Outcome → Outcome
outcome_of (next o) = o
outcome_of (exit o) = o
