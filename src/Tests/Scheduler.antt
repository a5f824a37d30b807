-- ===== src/Tests/Scheduler.antt =====
-- crates/hyperindex-scheduler/src/queue.rs at a service with two jobs.
use repo_hyperindex.Base.{
  ℕ, ◌+◌, ◌<◌, ◌^◌, ◌≡◌, ◌≤◌, refl, Option, some, none, List, [], ◌∷◌, arith, false, true, length,
  filter, is_some, if◌then◌else◌, ◌&&◌,
}
use repo_hyperindex.Base.Order.{beq}
use repo_hyperindex.Base.Text.{text_ord, Text, text}
use repo_hyperindex.Base.Distinct.{contains, Distinct}
use repo_hyperindex.Scheduler.{
  SchedulerService, new, enqueue, transition, status, active_job_for_repo, repo_refresh,
  watch_ingest, pending, running, is_pending, label, mark_running,
}
use repo_hyperindex.Scheduler.Names.{Call, enqueue_job, run_job, calls, ids, calls-Distinct}
use repo_hyperindex.Scheduler.Transitions.{state_of, transition_exact}

abbrev two_jobs : List Call
two_jobs =
    enqueue_job (some (text "repo")) repo_refresh
    ∷ enqueue_job none watch_ingest
    ∷ run_job (text "job-000001")
    ∷ []

abbrev busy : SchedulerService
busy = calls new two_jobs

busy_label :
    active_job_for_repo busy (text "repo") ≡ some (text "job-000001:repo_refresh:running:repo")
unfolding active_job_for_repo new enqueue mark_running label repo_hyperindex.Scheduler.set_state
    repo_hyperindex.Scheduler.job_name repo_hyperindex.Base.Decimal.pad_zeros
    repo_hyperindex.Base.Text.decimal
busy_label = refl

calls-Distinct_example : Distinct (ids (calls new two_jobs).jobs)
calls-Distinct_example = calls-Distinct two_jobs (omega arith)

transition_exact_example :
    ((transition busy (text "job-000002") running).1 ≡ contains (ids busy.jobs) (text "job-000002"))
    × ((transition busy (text "job-000002") running).0.next_job_id ≡ busy.next_job_id)
    × (ids (transition busy (text "job-000002") running).0.jobs ≡ ids busy.jobs)
    × (state_of (transition busy (text "job-000002") running).0.jobs (text "job-000001") ≡ (
        if beq (text "job-000002") (text "job-000001")
          && contains (ids busy.jobs) (text "job-000002")
        then some running
        else state_of busy.jobs (text "job-000001")))
transition_exact_example = transition_exact busy (text "job-000002") (text "job-000001") running
