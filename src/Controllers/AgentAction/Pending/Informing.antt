-- ===== src/Controllers/AgentAction/Pending/Informing.antt =====
-- What the saves and the message of an escalation do to the log.
use fluxseer_rca.Base.{String, List, Option, none, some, ◌||◌, ◌==◌, ◌≡◌, refl, ℤ}
use fluxseer_rca.Api.Meta.{ok, err, Time, Error, error_text, Result}
use fluxseer_rca.Api.Action.{AgentAction, AgentActionStatus, AgentActionNotificationStatus}
use fluxseer_rca.Escalation.Router.{ResolveRequest, Route}
use fluxseer_rca.Controllers.Flow.{
  query, or_fail, ◌>>=◌, write, pure, leave, and_then, Outcome, Flow, Step, next, exit, Effect,
  saved, event, crashed, failed,
}
use fluxseer_rca.Controllers.Triples.{
  Triple, Ends, Triple-pure, Triple-leave, Triple-query, Triple-or_fail, Triple-if, Triple-write,
  Triple-bind,
}
use fluxseer_rca.Controllers.Equality.{status_changed, status_unchanged_eq}
use fluxseer_rca.Controllers.Events.{phase_transition_event}
use fluxseer_rca.Controllers.AgentAction.Env.{Env, Message, save, record_phase_transition}
use fluxseer_rca.Controllers.AgentAction.Approval.{spec_digest_of}
use fluxseer_rca.Controllers.AgentAction.Pending.{
  attempt_status, set_last_error, find_route, record_retry_failure, delivered, notify_escalation,
  save_transition,
}
use fluxseer_rca.Controllers.AgentAction.Pending.Protocol.{
  IsOverdue, IsEscalated, Stage, idle, attempted, informed, blamed, escalated, Move, attempt,
  inform, blame, warn, escalate_unnoticed, escalate_informed, Trace, later, IsEscalation,
  told_stage, IsConcluded,
}

module _ {W : Type 0} (env : Env W) (action : AgentAction) (now : Time) (start : List Effect) where
  abbrev pub In : Stage → List Effect → Type 0
  In stage log = Trace env action now start stage log

  abbrev pub Out : List Effect → Type 0
  Out log = IsEscalation env action now start log

  pub reached : (stage : Stage) (log : List Effect) → In stage log → Out log
  reached stage log t = record { stage = stage; trace = t }

  unfoldable pub Concluded : Outcome → List Effect → Type 0
  Concluded o log = IsConcluded env action now start o log

  weaker_end :
      {A : Type 0} (stage : Stage) (Q : List Effect → Type 0)
      → ((log : List Effect) → In stage log → Q log)
      → (r : Step A) (log : List Effect) → Ends (λ _. In stage) Out r log
      → Ends (λ _. Q) Out r log
  weaker_end stage Q q (next a) log h = q log h
  weaker_end stage Q q (exit o) log h = h

  weaker :
      {A : Type 0} (stage : Stage) (Q : List Effect → Type 0)
      → ((log : List Effect) → In stage log → Q log)
      → {P : List Effect → Type 0} {m : Flow W A} → Triple P m (λ _. In stage) Out
      → Triple P m (λ _. Q) Out
  weaker stage Q q {m = m} t = record { at = λ s p. weaker_end stage Q q (m s).0 _ (t.at s p) }

  saving :
      (from to : Stage) (a : AgentAction)
      → Move env action now from (saved a) to
      → Triple (In from) (save env a) (λ _. In to) Out
  unfolding save
  saving from to a m = Triple-bind (Triple-query _) (λ r.
      Triple-bind (Triple-or_fail _ (reached from)) (λ stored.
        Triple-bind (Triple-write _ (λ log t. later t m)) (λ u. Triple-pure _ (λ log t. t))))

  -- A fact that a flow's result carries is at hand in what follows.
  pub carried :
      {A : Type 0} {F : Type 0} {P : List Effect → Type 0} {m : Flow W A}
      {Q : A → List Effect → Type 0}
      → (F → Triple P m Q Out)
      → Triple (λ log. P log × F) m Q Out
  carried t = record { at = λ s p. (t p.1).at s p.0 }

  -- What the server answered to an update.
  unfoldable pub Answered : AgentAction → Type 0
  Answered stored = (a : AgentAction) × (w : W) × ((env.update_status a w).0 ≡ ok stored)

  asking :
      {P : List Effect → Type 0} {A : Type 0} (call : W → A × W)
      → Triple P (query call) (λ r log. P log × ((w : W) × ((call w).0 ≡ r))) Out
  unfolding query
  asking call = record { at = λ s p. (p, (s.world, refl)) }

  storing :
      (from to : Stage) (a : AgentAction) (r : Result AgentAction) (w : W)
      → Move env action now from (saved a) to
      → (env.update_status a w).0 ≡ r
      → Triple {W = W}
          (In from)
          (or_fail r >>= λ stored. write (saved a) >>= λ _. pure stored)
          (λ stored log. In to log × Answered stored)
          Out
  unfolding or_fail ◌>>=◌ and_then write pure leave Answered
  storing from to a (ok stored) w m h = record { at = λ s t. (later t m, (a, w, h)) }
  storing from to a (err e) w m h = record { at = λ s t. reached from s.log t }

  saving-Answered :
      (from to : Stage) (a : AgentAction)
      → Move env action now from (saved a) to
      → Triple (In from) (save env a) (λ stored log. In to log × Answered stored) Out
  unfolding save
  saving-Answered from to a m =
      Triple-bind (asking _) (λ r. carried (λ (w, h). storing from to a r w m h))

  announcing :
      (stage : Stage) (from to : String)
      → ((t r m : String) → Move env action now stage (event t r m) stage)
      → Triple (In stage) (record_phase_transition env from to) (λ _. In stage) Out
  unfolding record_phase_transition
  announcing stage from to m =
      Triple-if env.has_recorder
        (λ h.
          Triple-if (from == to || (phase_transition_event env.quote from to).reason == "")
            (λ c. Triple-pure _ (λ log t. t)) (λ c. Triple-write _ (λ log t. later t (m _ _ _))))
        (λ h. Triple-pure _ (λ log t. t))

  pub save_transition_traced :
      (from to : Stage) (old : AgentAction) (status : AgentActionStatus) (Q : List Effect → Type 0)
      → Move env action now from (saved (record old { status = status })) to
      → ((t r m : String) → Move env action now to (event t r m) to)
      → ((log : List Effect) → In to log → Q log)
      → (old.status ≡ status → (log : List Effect) → In from log → Q log)
      → Triple (In from) (save_transition env old status) (λ _. Q) Out
  unfolding save_transition
  save_transition_traced from to old status Q m a changed same =
      Triple-if (status_changed old.status status)
        (λ c.
          Triple-bind (saving from to _ m) (λ stored. weaker to Q changed (announcing to _ _ a)))
        (λ c. Triple-pure _ (same (status_unchanged_eq _ _ c)))

  mapped_end :
      {A : Type 0} (F G : A → Type 0) (stage : Stage)
      → ((a : A) → F a → G a)
      → (r : Step A) (log : List Effect) → Ends (λ a l. In stage l × F a) Out r log
      → Ends (λ a l. In stage l × G a) Out r log
  mapped_end F G stage f (next a) log h = (h.0, f a h.1)
  mapped_end F G stage f (exit o) log h = h

  mapped :
      {A : Type 0} (F G : A → Type 0) (stage : Stage)
      → ((a : A) → F a → G a)
      → {P : List Effect → Type 0} {m : Flow W A} → Triple P m (λ a l. In stage l × F a) Out
      → Triple P m (λ a l. In stage l × G a) Out
  mapped F G stage f {m = m} t = record { at = λ s p. mapped_end F G stage f (m s).0 _ (t.at s p) }

  -- The action, with another error in its notification.
  record IsMarked (text : String) (a b : AgentAction) : Type 0 where
    notification : AgentActionNotificationStatus
    holds : b.status.notification ≡ some notification
    marked : notification.last_error ≡ text
    phase : b.status.phase ≡ a.status.phase
    approval : b.status.approval ≡ a.status.approval

  set_last_error_traced :
      (stage : Stage) (text : String) (a : AgentAction) (n : Option AgentActionNotificationStatus)
      → Triple
          (In stage)
          (set_last_error env text a n)
          (λ b log. In stage log × IsMarked text a b)
          Out
  unfolding set_last_error
  set_last_error_traced stage text a none = Triple-leave crashed (reached stage)
  set_last_error_traced stage text a (some n) = Triple-pure _ (λ log t. (
    t,
    record {
      notification = record n { last_error = text };
      holds = refl;
      marked = refl;
      phase = refl;
      approval = refl;
    },
  ))

  pub find_route_traced :
      (a : AgentAction) (notifier : Option (Message → W → Option Error × W))
      (resolve : Option (ResolveRequest → W → Result (Option Route) × W))
      → Triple (In idle) (find_route env a notifier resolve) (λ _. In idle) Out
  unfolding find_route
  find_route_traced a (some n) (some r) =
      Triple-bind (Triple-query _) (λ x. Triple-or_fail _ (reached idle))
  find_route_traced a none r = Triple-pure _ (λ log t. t)
  find_route_traced a (some n) none = Triple-pure _ (λ log t. t)

  record_retry_failure_traced :
      (count : ℤ) (e : Error)
      → Triple (In blamed) (record_retry_failure env count e) (λ _. In blamed) Out
  unfolding record_retry_failure
  record_retry_failure_traced count e =
      Triple-if env.has_recorder (λ c. Triple-write _ (λ log t. later t (warn _ _ _)))
        (λ c. Triple-pure _ (λ log t. t))

  -- What is known of the action after the delivery: it is the one before, without a notifier; else
  -- it has the phase and the approval that the server answered.
  unfoldable pub IsTold : Option (Message → W → Option Error × W) → AgentAction → Type 0
  IsTold none told = told ≡ action
  IsTold (some notify) told =
      (stored : AgentAction) × Answered stored
      × (told.status.phase ≡ stored.status.phase)
      × (told.status.approval ≡ stored.status.approval)

  delivered_traced :
      (stored : AgentAction) (count : ℤ) (e : Option Error)
      → Triple
          (In informed)
          (delivered env stored count e)
          (λ told log.
            In informed log
            × ((told.status.phase ≡ stored.status.phase)
                × (told.status.approval ≡ stored.status.approval)))
          Out
  unfolding delivered
  delivered_traced stored count none =
      mapped (IsMarked "" stored) _ informed (λ b k. (k.phase, k.approval))
        (set_last_error_traced informed "" stored stored.status.notification)
  delivered_traced stored count (some e) =
      Triple-bind (set_last_error_traced informed (error_text e) stored stored.status.notification)
        (λ b. carried (λ k.
          Triple-bind (saving informed blamed b (blame b k.notification e k.holds k.marked)) (λ x.
            Triple-bind (record_retry_failure_traced count e)
              (λ u. Triple-leave (failed e) (reached blamed)))))

  pub notify_escalation_traced :
      (route : Option Route) (notifier : Option (Message → W → Option Error × W))
      → IsOverdue (spec_digest_of env.spec_digest action) action now
      → Triple
          (In idle)
          (notify_escalation env action route now notifier)
          (λ told log. In (told_stage notifier) log × IsTold notifier told)
          Out
  unfolding notify_escalation attempt_status told_stage IsTold
  notify_escalation_traced route none o = Triple-pure _ (λ log t. (t, refl))
  notify_escalation_traced route (some notify) o =
      Triple-bind (saving-Answered idle attempted _ (attempt _ o (_, refl, refl))) (λ stored.
        carried (λ h. Triple-bind (Triple-query _) (λ failure.
          Triple-bind (Triple-write _ (λ log t. later t inform)) (λ u.
            mapped _ _ informed (λ told k. (stored, h, k.0, k.1))
              (delivered_traced stored _ failure)))))

  pub escalation_move :
      (notifier : Option (Message → W → Option Error × W)) (a : AgentAction)
      → env.notifier ≡ notifier
      → IsOverdue (spec_digest_of env.spec_digest action) action now
      → IsEscalated now a
      → Move env action now (told_stage notifier) (saved a) escalated
  unfolding told_stage
  escalation_move none a n o e = escalate_unnoticed a n o e
  escalation_move (some notify) a n o e = escalate_informed a e
