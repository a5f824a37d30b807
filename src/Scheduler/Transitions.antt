-- ===== src/Scheduler/Transitions.antt =====
-- crates/hyperindex-scheduler/src/queue.rs: which job a transition changes.
use mathlib.Core.Option
use repo_hyperindex.Base.{
  ◌≡◌, refl, false, ◌&&◌, Option, none, some, List, [], ◌∷◌, ◌++◌, arith, find, if◌then◌else◌,
}
use repo_hyperindex.Base.Order.{beq, beq_iff}
use repo_hyperindex.Base.Text.{text_ord, Text}
use repo_hyperindex.Base.Distinct.{contains}
use repo_hyperindex.Scheduler.{
  JobKind, JobState, pending, JobRecord, SchedulerService, job_name, enqueue, set_state, transition,
}
use repo_hyperindex.Scheduler.Names.{ids, ids-set_state, IsNumbered, IsNumbered-fresh}

-- The state of the first job with an id.
abbrev pub state_of : List JobRecord → Text → Option JobState
state_of jobs job_id =
    Option.map (λ (job : JobRecord). job.state)
      (find (λ (job : JobRecord). beq job.job_id job_id) jobs)

set_state_done :
    (jobs : List JobRecord) (job_id : Text) (state : JobState)
    → (set_state jobs job_id state).1 ≡ contains (ids jobs) job_id
unfolding set_state
set_state_done [] job_id state = refl
set_state_done (job ∷ jobs) job_id state = ground (arith, set_state_done jobs job_id state)

state_of-set_state :
    (jobs : List JobRecord) (job_id other : Text) (state : JobState)
    → state_of (set_state jobs job_id state).0 other
      ≡ (if beq job_id other && contains (ids jobs) job_id then some state else state_of jobs other)
unfolding set_state
state_of-set_state [] job_id other state = ground arith
state_of-set_state (job ∷ jobs) job_id other state = ground (
  arith,
  state_of-set_state jobs job_id other state,
  beq_iff job.job_id job_id,
  beq_iff job.job_id other,
  beq_iff job_id other,
)

-- A transition reports whether the id is known. It gives the known id the new state, whatever its
-- old one was, and leaves the states of the other ids, the ids and the counter as they are.
pub transition_exact :
    (s : SchedulerService) (job_id other : Text) (state : JobState)
    → ((transition s job_id state).1 ≡ contains (ids s.jobs) job_id)
      × ((transition s job_id state).0.next_job_id ≡ s.next_job_id)
      × (ids (transition s job_id state).0.jobs ≡ ids s.jobs)
      × (state_of (transition s job_id state).0.jobs other ≡ (
          if beq job_id other && contains (ids s.jobs) job_id
          then some state
          else state_of s.jobs other))
unfolding transition
transition_exact s job_id other state = (
  set_state_done s.jobs job_id state,
  refl,
  ids-set_state s.jobs job_id state,
  state_of-set_state s.jobs job_id other state,
)

state_of-snoc :
    (jobs : List JobRecord) (job : JobRecord) (other : Text)
    → state_of (jobs ++ job ∷ []) other ≡ elim (state_of jobs other) [
      | none ↦ if beq job.job_id other then some job.state else none
      | some state ↦ some state
    ]
state_of-snoc [] job other = ground arith
state_of-snoc (j ∷ jobs) job other = ground (arith, state_of-snoc jobs job other)

state_of_unknown :
    (jobs : List JobRecord) (job_id : Text)
    → contains (ids jobs) job_id ≡ false
    → state_of jobs job_id ≡ none
state_of_unknown [] job_id h = refl
state_of_unknown (job ∷ jobs) job_id h = ground (arith, state_of_unknown jobs job_id)

-- In a service whose jobs are numbered, a new job is pending under an id that no job had, and the
-- states of the other ids stay.
pub enqueue_exact :
    (s : SchedulerService) (repo_id : Option Text) (kind : JobKind) (other : Text)
    → IsNumbered s
    → (contains (ids s.jobs) (enqueue s repo_id kind).1 ≡ false)
      × (state_of (enqueue s repo_id kind).0.jobs other
          ≡ (if beq (enqueue s repo_id kind).1 other then some pending else state_of s.jobs other))
unfolding enqueue
enqueue_exact s repo_id kind other h =
    let fresh = IsNumbered-fresh s h in
    let job : JobRecord = record {
      job_id = job_name s.next_job_id;
      repo_id = repo_id;
      kind = kind;
      state = pending;
    } in
    (
      fresh,
      ground (
        arith,
        state_of-snoc s.jobs job other,
        beq_iff (job_name s.next_job_id) other,
        state_of_unknown s.jobs (job_name s.next_job_id) fresh,
      ),
    )
