-- ===== src/Engine/Command.antt =====
-- `processPublishCommand`, with `handlePublishFailure` and the queues: the part of the state that one
-- target has, and a handler for each message that a worker took. A handler gives up control at every
-- statement, and every statement may throw; a schedule is a list of events, in any order.
use influence_platform.Prelude.{
  ℕ, suc, ◌-◌, Bool, true, false, not, List, [], ◌∷◌, ◌++◌, Option, none, some, if◌then◌else◌,
  or_else, ltb, length,
}
use influence_platform.Js.Text.{Text, codes, ◌===◌, truthy, truthy?, join}
use influence_platform.Engine.Target.{
  TargetStatus, pending, publishing, published, failed, uncertain, other, Target, Post, Failure,
  claim, mark_published, record_published, schedule_retry, mark_failed, is_publishing,
}
use influence_platform.Engine.Intent.{IntentRow, aggregate_intent}
use influence_platform.Engine.Publication.{PublicationRow, sync_publication}

-- A failure that the adapter answers; `safe_to_retry` may be missing.
pub record Refusal : Type 0 where
  pub error : Option Text
  pub stage : Option Text
  pub container_id : Option Text
  pub safe_to_retry : Option Bool

-- What the adapter answers, or throws, or that its time is over.
pub data AdapterReply : Type 0 where
  posted : Post → AdapterReply
  refused : Refusal → AdapterReply
  raised : Text → AdapterReply
  timed_out : AdapterReply

-- What is left to do after a row was found or made final: skip, the post was there, success.
pub data Ending : Type 0 where
  skip adopt success : Ending

-- The statement that a handler waits for.
pub data Stage : Type 0 where
  received claiming checking adapting adopting dropping requeueing done : Stage
  dead_lettering : Bool → Stage
  recording : Post → Stage
  syncing sync_aggregating removing : Ending → Stage
  aggregating : Stage
  retrying marking failure_syncing failure_aggregating failure_dead_lettering failure_removing :
      Failure → Stage
  retry_pushing retry_removing broken : Stage
  catching : Text → Stage

-- The outcome of the statement: it answers, the adapter answers, or it throws.
pub data Reply : Type 0 where
  answers : Reply
  adapter : AdapterReply → Reply
  throws : Text → Reply

-- The row, the messages in `publish:commands`, in the processing queues and in `publish:failed`, the
-- calls of the adapter and those after which a post may exist, the row of the publications table, the
-- intent's row and the statuses of its other targets.
pub record Shared : Type 0 where
  pub target : Target
  pub commands : ℕ
  pub processing : ℕ
  pub dead : ℕ
  pub calls : ℕ
  pub exposures : ℕ
  pub publication : Option PublicationRow
  pub intent : IntentRow
  pub siblings : List TargetStatus

-- The chain of tests on the row that a handler reads first.
unfoldable pub triage : Target → Stage
triage t = elim t.status [
  | published ↦ syncing skip
  | publishing ↦ if truthy? t.external_post_id then adopting else dropping
  | pending ↦ claiming
  | uncertain ↦ dropping
  | failed ↦ dead_lettering true
  | other s ↦ dead_lettering true
]

-- `handlePublishFailure` begins with the retry, if it is allowed.
unfoldable pub start_failure : Failure → Stage
start_failure f = if f.allow_retry then retrying f else marking f

-- An exception that reached the outermost `catch`.
abbrev pub rescue : Text → Failure
rescue message = record { message = message; stage = none; container_id = none; allow_retry = true }

abbrev pub timeout_message : Text
timeout_message = codes "PUBLISH_EXECUTION_TIMEOUT"

-- An exception of the call: only the time limit's forbids a retry.
unfoldable pub raised_failure : Text → Failure
raised_failure message = record {
  message = message;
  stage = none;
  container_id = none;
  allow_retry = not (message === timeout_message);
}

abbrev labelled : Text → Option Text → List Text
labelled label none = []
labelled label (some s) = if truthy s then (label ++ s) ∷ [] else []

-- `value || null`
abbrev nonempty : Option Text → Option Text
nonempty value = if truthy? value then value else none

abbrev is_unsafe : Option Bool → Bool
is_unsafe (some false) = true
is_unsafe _ = false

-- The message with its context, and `safe_to_retry !== false`.
unfoldable pub refusal_failure : Refusal → Failure
refusal_failure r =
    let text = if truthy? r.error then or_else r.error [] else codes "publish_adapter_failed" in
    let context =
      labelled (codes "stage=") r.stage
      ++ labelled (codes "container_id=") r.container_id
      ++ (if is_unsafe r.safe_to_retry then codes "safe_to_retry=false" ∷ [] else []) in
    record {
      message =
          if ltb 0 (length context)
          then text ++ codes " (" ++ join (codes ", ") context ++ codes ")"
          else text;
      stage = nonempty r.stage;
      container_id = nonempty r.container_id;
      allow_retry = not (is_unsafe r.safe_to_retry);
    }

-- After the adapter. A post may exist if it says so, if it says that a retry is not safe, and if its
-- time was over while it ran on.
unfoldable pub adapted : AdapterReply → Shared → Stage × Shared
adapted (posted post) s = (recording post, record s { exposures = suc s.exposures })
adapted (refused r) s =
    let f = refusal_failure r in
    (
      start_failure f,
      record s { exposures = if f.allow_retry then s.exposures else suc s.exposures },
    )
adapted (raised message) s = (start_failure (raised_failure message), s)
adapted timed_out s =
    (start_failure (raised_failure timeout_message), record s { exposures = suc s.exposures })

abbrev pub push : Shared → Shared
push s = record s { commands = suc s.commands }

-- `LREM` takes out one copy, if there is one.
abbrev pub remove : Shared → Shared
remove s = record s { processing = s.processing - 1 }

abbrev pub synchronise : Shared → Shared
synchronise s = record s { publication = sync_publication s.target s.publication }

-- `tryAggregateIntent` swallows an exception.
abbrev pub aggregate : Shared → Shared
aggregate s = record s { intent = aggregate_intent (s.target.status ∷ s.siblings) s.intent }

-- After the message is taken out, at the end of each branch.
unfoldable pub ended : Ending → Stage
ended skip = done
ended adopt = aggregating
ended success = aggregating

-- Where an exception leads while the message is taken out: `safeLrem` swallows it.
unfoldable pub unremoved : Ending → Text → Stage
unremoved skip message = done
unremoved adopt message = aggregating
unremoved success message = catching message

claimed : Target × Bool → Shared → Stage × Shared
claimed (t, true) s = (checking, record s { target = t })
claimed (t, false) s = (requeueing, record s { target = t })

recorded : Target × Bool → Shared → Stage × Shared
recorded (t, true) s = (syncing success, record s { target = t })
recorded (t, false) s = (dropping, record s { target = t })

retried : Failure → Target × Bool → Shared → Stage × Shared
retried f (t, true) s = (retry_pushing, record s { target = t })
retried f (t, false) s = (marking f, record s { target = t })

-- After the row is claimed, the adapter is called unless the row has a post.
checked : Shared → Stage × Shared
checked s =
    if truthy? s.target.external_post_id
    then (adopting, s)
    else (adapting, record s { calls = suc s.calls })

caught : Text → Shared → Stage × Shared
caught message s =
    if is_publishing s.target.status then (start_failure (rescue message), s) else (requeueing, s)

-- One statement of `processPublishCommand` that answers.
unfoldable pub proceed : Stage → Shared → Stage × Shared
unfolding claimed recorded retried checked caught
proceed received s = (triage s.target, s)
proceed claiming s = claimed (claim s.target) s
proceed checking s = checked s
proceed adapting s = (adapting, s)
proceed adopting s = (syncing adopt, record s { target = mark_published s.target })
proceed (recording post) s = recorded (record_published post s.target) s
proceed (syncing e) s = (sync_aggregating e, synchronise s)
proceed (sync_aggregating e) s = (removing e, aggregate s)
proceed (removing e) s = (ended e, remove s)
proceed aggregating s = (done, aggregate s)
proceed dropping s = (done, remove s)
proceed (dead_lettering valid) s = (dropping, record s { dead = suc s.dead })
proceed requeueing s = (dropping, push s)
proceed (retrying f) s = retried f (schedule_retry f.message s.target) s
proceed retry_pushing s = (retry_removing, push s)
proceed retry_removing s = (done, remove s)
proceed (marking f) s = (failure_syncing f, record s { target = mark_failed f s.target })
proceed (failure_syncing f) s = (failure_aggregating f, synchronise s)
proceed (failure_aggregating f) s = (failure_dead_lettering f, aggregate s)
proceed (failure_dead_lettering f) s = (failure_removing f, record s { dead = suc s.dead })
proceed (failure_removing f) s = (aggregating, remove s)
proceed broken s = (dropping, push s)
proceed (catching message) s = caught message s
proceed done s = (done, s)

-- One that throws. `broken` pushes the message back and takes it out of the processing queue, and
-- swallows both errors.
unfoldable pub thrown : Stage → Text → Stage
thrown adapting message = adapting
thrown (removing e) message = unremoved e message
thrown (sync_aggregating e) message = removing e
thrown aggregating message = done
thrown dropping message = done
thrown (dead_lettering true) message = catching message
thrown (dead_lettering false) message = requeueing
thrown requeueing message = done
thrown (retrying f) message = broken
thrown retry_pushing message = broken
thrown retry_removing message = broken
thrown (marking f) message = broken
thrown (failure_syncing f) message = broken
thrown (failure_aggregating f) message = failure_dead_lettering f
thrown (failure_dead_lettering f) message = broken
thrown (failure_removing f) message = broken
thrown broken message = dropping
thrown (catching m) message = requeueing
thrown done message = done
thrown stage message = catching message

-- A handler resumes; only the one that waits for the adapter takes an adapter's reply.
unfoldable pub resume : Stage → Reply → Shared → Stage × Shared
resume stage answers s = proceed stage s
resume stage (throws message) s = (thrown stage message, s)
resume adapting (adapter reply) s = adapted reply s
resume stage (adapter reply) s = (stage, s)
