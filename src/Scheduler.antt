-- ===== src/Scheduler.antt =====
-- crates/hyperindex-scheduler: the job list of the daemon (jobs.rs, queue.rs, status.rs) and
-- `SchedulerSnapshot` of crates/hyperindex-protocol/src/status.rs. A `u64` counter wraps.
pub mod Names
pub mod Transitions
pub mod Status
use repo_hyperindex.Base.{
  ℕ, zero, suc, ◌+◌, ◌%◌, ◌^◌, Bool, true, false, ◌&&◌, Option, none, some, List, [], ◌∷◌, ◌++◌,
  map, if◌then◌else◌, length, filter, find_map,
}
use repo_hyperindex.Base.Order.{beq, opt_beq}
use repo_hyperindex.Base.Text.{text_ord, Text, text, decimal}
use repo_hyperindex.Base.Decimal.{pad_zeros}

pub data JobKind : Type 0 where
  repo_refresh watch_ingest snapshot_capture : JobKind

pub data JobState : Type 0 where
  pending running succeeded failed cancelled : JobState

pub record JobRecord : Type 0 where
  pub job_id : Text
  pub repo_id : Option Text
  pub kind : JobKind
  pub state : JobState

unfoldable pub kind_str : JobKind → Text
kind_str repo_refresh = text "repo_refresh"
kind_str watch_ingest = text "watch_ingest"
kind_str snapshot_capture = text "snapshot_capture"

unfoldable pub state_str : JobState → Text
state_str pending = text "pending"
state_str running = text "running"
state_str succeeded = text "succeeded"
state_str failed = text "failed"
state_str cancelled = text "cancelled"

abbrev colon : Text
colon = text ":"

unfoldable pub label : JobRecord → Text
unfolding kind_str state_str
label job =
    let front = job.job_id ++ (colon ++ (kind_str job.kind ++ (colon ++ state_str job.state))) in
    elim job.repo_id [ none ↦ front | some repo_id ↦ front ++ (colon ++ repo_id) ]

pub record SchedulerService : Type 0 where
  pub next_job_id : ℕ
  pub jobs : List JobRecord

pub record SchedulerSnapshot : Type 0 where
  pub mode : Text
  pub queue_depth : ℕ
  pub active_jobs : List Text

unfoldable pub new : SchedulerService
new = record { next_job_id = 1; jobs = [] }

-- `format!("job-{:06}", n)`
unfoldable pub job_name : ℕ → Text
job_name n = text "job-" ++ pad_zeros 6 (decimal n)

unfoldable pub enqueue : SchedulerService → Option Text → JobKind → SchedulerService × Text
enqueue s repo_id kind =
    let job_id = job_name s.next_job_id in
    (
      record {
        next_job_id = (s.next_job_id + 1) % 2 ^ 64;
        jobs =
            s.jobs
            ++ record { job_id = job_id; repo_id = repo_id; kind = kind; state = pending } ∷ [];
      },
      job_id,
    )

-- `iter_mut().find`: the state of the first job with the id is set.
unfoldable pub set_state : List JobRecord → Text → JobState → List JobRecord × Bool
set_state [] job_id state = ([], false)
set_state (job ∷ jobs) job_id state =
    let (rest, done) = set_state jobs job_id state in
    if beq job.job_id job_id
    then (record job { state = state } ∷ jobs, true)
    else (job ∷ rest, done)

unfoldable pub transition : SchedulerService → Text → JobState → SchedulerService × Bool
transition s job_id state =
    let (jobs, done) = set_state s.jobs job_id state in (record s { jobs = jobs }, done)

unfoldable pub mark_running : SchedulerService → Text → SchedulerService × Bool
unfolding transition
mark_running s job_id = transition s job_id running

unfoldable pub mark_succeeded : SchedulerService → Text → SchedulerService × Bool
unfolding transition
mark_succeeded s job_id = transition s job_id succeeded

unfoldable pub mark_failed : SchedulerService → Text → SchedulerService × Bool
unfolding transition
mark_failed s job_id = transition s job_id failed

-- `matches!(job.state, JobState::Pending | JobState::Running)`
abbrev pub is_active : JobState → Bool
is_active pending = true
is_active running = true
is_active succeeded = false
is_active failed = false
is_active cancelled = false

abbrev pub is_pending : JobState → Bool
is_pending pending = true
is_pending running = false
is_pending succeeded = false
is_pending failed = false
is_pending cancelled = false

unfoldable pub active_job_for_repo : SchedulerService → Text → Option Text
active_job_for_repo s repo_id =
    find_map
      (λ job.
        if opt_beq job.repo_id (some repo_id) && is_active job.state
        then some (label job)
        else none)
      s.jobs

unfoldable pub idle_status : SchedulerSnapshot
idle_status = record { mode = text "local"; queue_depth = 0; active_jobs = [] }

abbrev no_jobs : List JobRecord → Bool
no_jobs [] = true
no_jobs (job ∷ jobs) = false

unfoldable pub status : SchedulerService → SchedulerSnapshot
unfolding idle_status
status s = if no_jobs s.jobs then idle_status else record {
  mode = text "local";
  queue_depth = length (filter (λ job. is_pending job.state) s.jobs);
  active_jobs = map label (filter (λ job. is_active job.state) s.jobs);
}
