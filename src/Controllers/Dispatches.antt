-- ===== src/Controllers/Dispatches.antt =====
-- What a reconciler's log tells of its dispatches, and the flows that send nothing.
use fluxseer_rca.Base.{
  String, List, [], ◌∷◌, some, Bool, true, false, if◌then◌else◌, ◌≡◌, refl, subst, ◌∙◌,
}
use fluxseer_rca.Api.Meta.{Key, NamespacedObjectReference, Result, ok, err}
use fluxseer_rca.Api.Action.{
  AgentAction, AgentActionStatus, AgentActionExecutionStatus, phase_executing,
}
use fluxseer_rca.Executor.Contract.{ExecutorRequest}
use fluxseer_rca.Controllers.Flow.{
  Flow, State, Step, next, exit, Outcome, failed, ignoring_not_found, Effect, saved, dispatched,
  deleted, notified, event, verification_created, plan_updated, plan_saved, action_applied, pure,
  leave, query, write, or_fail, or_ignore, ◌>>=◌, and_then,
}

-- The requests that went to an executor, the newest first.
unfoldable pub dispatches : List Effect → List ExecutorRequest
dispatches [] = []
dispatches (dispatched request ∷ log) = request ∷ dispatches log
dispatches (saved _ ∷ log) = dispatches log
dispatches (deleted _ ∷ log) = dispatches log
dispatches (notified ∷ log) = dispatches log
dispatches (event _ _ _ ∷ log) = dispatches log
dispatches (verification_created _ ∷ log) = dispatches log
dispatches (plan_updated _ ∷ log) = dispatches log
dispatches (plan_saved _ ∷ log) = dispatches log
dispatches (action_applied _ ∷ log) = dispatches log

-- The status holds the identity of the request, as an execution under way.
unfoldable pub IsRecordedIn : ExecutorRequest → AgentActionStatus → Type 0
IsRecordedIn request status =
    (status.phase ≡ phase_executing)
    × ((e : AgentActionExecutionStatus) × (status.execution ≡ some e)
        × (e.execution_id ≡ request.execution_id)
        × (e.idempotency_key ≡ request.idempotency_key))

-- The last status that was saved holds it, and only events came after.
unfoldable pub IsRecorded : ExecutorRequest → List Effect → Type 0
unfolding IsRecordedIn
IsRecorded request [] = ⊥
IsRecorded request (saved action ∷ log) = IsRecordedIn request action.status
IsRecorded request (event _ _ _ ∷ log) = IsRecorded request log
IsRecorded request (dispatched _ ∷ log) = ⊥
IsRecorded request (deleted _ ∷ log) = ⊥
IsRecorded request (notified ∷ log) = ⊥
IsRecorded request (verification_created _ ∷ log) = ⊥
IsRecorded request (plan_updated _ ∷ log) = ⊥
IsRecorded request (plan_saved _ ∷ log) = ⊥
IsRecorded request (action_applied _ ∷ log) = ⊥

-- Each dispatch came after its identity was stored.
unfoldable pub IsGuarded : List Effect → Type 0
unfolding IsRecorded
IsGuarded [] = Unit {0}
IsGuarded (dispatched request ∷ log) = IsRecorded request log × IsGuarded log
IsGuarded (saved _ ∷ log) = IsGuarded log
IsGuarded (deleted _ ∷ log) = IsGuarded log
IsGuarded (notified ∷ log) = IsGuarded log
IsGuarded (event _ _ _ ∷ log) = IsGuarded log
IsGuarded (verification_created _ ∷ log) = IsGuarded log
IsGuarded (plan_updated _ ∷ log) = IsGuarded log
IsGuarded (plan_saved _ ∷ log) = IsGuarded log
IsGuarded (action_applied _ ∷ log) = IsGuarded log

-- From one log to the next nothing was dispatched.
unfoldable pub IsStill : List Effect → List Effect → Type 0
unfolding dispatches IsGuarded
IsStill log log' = (dispatches log' ≡ dispatches log) × (IsGuarded log → IsGuarded log')

pub IsStill-refl : (log : List Effect) → IsStill log log
unfolding IsStill
IsStill-refl log = (refl, λ g. g)

pub IsStill-trans : (a b c : List Effect) → IsStill a b → IsStill b c → IsStill a c
unfolding IsStill
IsStill-trans a b c (p, g) (q, h) = (q ∙ p, λ x. h (g x))

-- `m` dispatches nothing, whether it returns or leaves.
pub record IsQuiet {W A : Type 0} (m : Flow W A) : Type 0 where
  pub at : (s : State W) → IsStill s.log (m s).1.log

-- What `m` returns, where it does.
pub record IsReturning {W A : Type 0} (P : A → Type 0) (m : Flow W A) : Type 0 where
  pub at : (s : State W) (a : A) → (m s).0 ≡ next a → P a

next-injective : {A : Type 0} {a b : A} → next a ≡ next b → a ≡ b
next-injective e = cc

module _ {W A : Type 0} where
  pub IsQuiet-pure : (a : A) → IsQuiet (pure {W = W} a)
  unfolding pure
  IsQuiet-pure a = record { at = λ s. IsStill-refl s.log }

  pub IsQuiet-leave : (o : Outcome) → IsQuiet (leave {W = W} {A = A} o)
  unfolding leave
  IsQuiet-leave o = record { at = λ s. IsStill-refl s.log }

  pub IsQuiet-query : (call : W → A × W) → IsQuiet (query call)
  unfolding query
  IsQuiet-query call = record { at = λ s. IsStill-refl s.log }

  pub IsQuiet-or_fail : (r : Result A) → IsQuiet (or_fail {W = W} r)
  unfolding or_fail
  IsQuiet-or_fail (ok a) = IsQuiet-pure a
  IsQuiet-or_fail (err e) = IsQuiet-leave (failed e)

  pub IsQuiet-or_ignore : (r : Result A) → IsQuiet (or_ignore {W = W} r)
  unfolding or_ignore
  IsQuiet-or_ignore (ok a) = IsQuiet-pure a
  IsQuiet-or_ignore (err e) = IsQuiet-leave (ignoring_not_found e)

  pub IsQuiet-if :
      (c : Bool) (m n : Flow W A) → IsQuiet m → IsQuiet n → IsQuiet (if c then m else n)
  IsQuiet-if true m n p q = p
  IsQuiet-if false m n p q = q

module _ {W A B : Type 0} where
  IsStill-and_then :
      (log : List Effect) (r : Step A) (f : A → Flow W B) (s : State W)
      → IsStill log s.log
      → ((a : A) → IsQuiet (f a))
      → IsStill log (and_then r f s).1.log
  unfolding and_then
  IsStill-and_then log (next a) f s h q = IsStill-trans log s.log (f a s).1.log h ((q a).at s)
  IsStill-and_then log (exit o) f s h q = h

  pub IsQuiet-bind :
      (m : Flow W A) (f : A → Flow W B) → IsQuiet m → ((a : A) → IsQuiet (f a)) → IsQuiet (m >>= f)
  unfolding ◌>>=◌
  IsQuiet-bind m f p q = record { at = λ s. IsStill-and_then s.log (m s).0 f (m s).1 (p.at s) q }

module _ (W : Type 0) where
  pub IsQuiet-saved : (action : AgentAction) → IsQuiet (write {W = W} (saved action))
  unfolding write IsStill
  IsQuiet-saved action = record { at = λ s. (refl, λ g. g) }

  pub IsQuiet-deleted : (key : Key) → IsQuiet (write {W = W} (deleted key))
  unfolding write IsStill
  IsQuiet-deleted key = record { at = λ s. (refl, λ g. g) }

  pub IsQuiet-notified : IsQuiet (write {W = W} notified)
  unfolding write IsStill
  IsQuiet-notified = record { at = λ s. (refl, λ g. g) }

  pub IsQuiet-event :
      (type reason message : String) → IsQuiet (write {W = W} (event type reason message))
  unfolding write IsStill
  IsQuiet-event type reason message = record { at = λ s. (refl, λ g. g) }

  pub IsQuiet-verification :
      (reference : NamespacedObjectReference)
      → IsQuiet (write {W = W} (verification_created reference))
  unfolding write IsStill
  IsQuiet-verification reference = record { at = λ s. (refl, λ g. g) }

pub ruleset quiet_rules = (
  IsQuiet-pure, IsQuiet-leave, IsQuiet-query, IsQuiet-or_fail, IsQuiet-or_ignore, IsQuiet-if,
  IsQuiet-bind, IsQuiet-saved, IsQuiet-deleted, IsQuiet-notified, IsQuiet-event,
  IsQuiet-verification,
)

module _ {W A : Type 0} (P : A → Type 0) where
  pub IsReturning-pure : (a : A) → P a → IsReturning P (pure {W = W} a)
  unfolding pure
  IsReturning-pure a p = record { at = λ s b e. subst P (next-injective e) p }

  pub IsReturning-leave : (o : Outcome) → IsReturning P (leave {W = W} o)
  unfolding leave
  IsReturning-leave o = record { at = λ s b e. cc }

module _ {W A B : Type 0} (P : B → Type 0) where
  and_then_returning :
      (r : Step A) (f : A → Flow W B) (s : State W) (b : B)
      → ((a : A) → IsReturning P (f a))
      → (and_then r f s).0 ≡ next b
      → P b
  unfolding and_then
  and_then_returning (next a) f s b h e = (h a).at s b e
  and_then_returning (exit o) f s b h e = cc

  pub IsReturning-bind :
      (m : Flow W A) (f : A → Flow W B) → ((a : A) → IsReturning P (f a)) → IsReturning P (m >>= f)
  unfolding ◌>>=◌
  IsReturning-bind m f h = record { at = λ s b e. and_then_returning (m s).0 f (m s).1 b h e }
