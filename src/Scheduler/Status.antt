-- ===== src/Scheduler/Status.antt =====
-- crates/hyperindex-scheduler/src/queue.rs: what a service reports.
use repo_hyperindex.Base.{
  ℕ, ◌≤◌, ◌≡◌, refl, Bool, true, ◌&&◌, none, some, List, [], ◌∷◌, map, arith, any, filter, length,
  find_map, if◌then◌else◌, is_some,
}
use repo_hyperindex.Base.Order.{beq_iff, opt_beq}
use repo_hyperindex.Base.Text.{text_ord, Text}
use repo_hyperindex.Base.Distinct.{contains}
use repo_hyperindex.Scheduler.{
  JobRecord, SchedulerService, label, is_active, is_pending, active_job_for_repo, status,
}

abbrev active_labels : List JobRecord → List Text
active_labels jobs = map label (filter (λ job. is_active job.state) jobs)

abbrev pending_jobs : List JobRecord → List JobRecord
pending_jobs jobs = filter (λ job. is_pending job.state) jobs

-- The early return for no jobs is the general case.
status_lem :
    (next_job_id : ℕ) (jobs : List JobRecord)
    → ((status (record { next_job_id = next_job_id; jobs = jobs })).queue_depth
        ≡ length (pending_jobs jobs))
      × ((status (record { next_job_id = next_job_id; jobs = jobs })).active_jobs
          ≡ active_labels jobs)
unfolding status
status_lem next_job_id [] = (refl, refl)
status_lem next_job_id (job ∷ jobs) = (refl, refl)

pending-le-active :
    (jobs : List JobRecord)
    → length (filter (λ job. is_pending job.state) jobs) ≤ length (active_labels jobs)
pending-le-active [] = omega arith
pending-le-active (job ∷ jobs) = ground (arith, pending-le-active jobs)

abbrev pub has_active : List JobRecord → Text → Bool
has_active jobs repo_id =
    any (λ job. opt_beq job.repo_id (some repo_id) && is_active job.state) jobs

active_job_lem :
    (jobs : List JobRecord) (repo_id : Text)
    → is_some (
        find_map
          (λ job.
            if opt_beq job.repo_id (some repo_id) && is_active job.state
            then some (label job)
            else none)
          jobs)
      ≡ has_active jobs repo_id
active_job_lem [] repo_id = refl
active_job_lem (job ∷ jobs) repo_id = ground (arith, active_job_lem jobs repo_id)

active_job_listed :
    (jobs : List JobRecord) (repo_id l : Text)
    → find_map
        (λ job.
          if opt_beq job.repo_id (some repo_id) && is_active job.state
          then some (label job)
          else none)
        jobs
      ≡ some l
    → contains (active_labels jobs) l ≡ true
active_job_listed [] repo_id l h = cc
active_job_listed (job ∷ jobs) repo_id l h =
    ground (arith, active_job_listed jobs repo_id l, beq_iff (label job) l)

-- The label that is returned for a repository's active job is one of those that the status lists.
pub active_job_for_repo-listed :
    (s : SchedulerService) (repo_id l : Text)
    → active_job_for_repo s repo_id ≡ some l
    → contains (status s).active_jobs l ≡ true
unfolding active_job_for_repo
active_job_for_repo-listed s repo_id l h =
    rw (status_lem s.next_job_id s.jobs).1 (active_job_listed s.jobs repo_id l h)

-- The queue depth counts the pending jobs; it is at most the number of active ones. A repository has
-- an active job exactly if one of its jobs is pending or running.
pub status_exact :
    (s : SchedulerService) (repo_id : Text)
    → ((status s).queue_depth ≡ length (filter (λ job. is_pending job.state) s.jobs))
      × ((status s).queue_depth ≤ length (status s).active_jobs)
      × (is_some (active_job_for_repo s repo_id) ≡ has_active s.jobs repo_id)
unfolding active_job_for_repo
status_exact s repo_id =
    let (depth, active) = status_lem s.next_job_id s.jobs in
    (depth, rw (depth, active) (pending-le-active s.jobs), active_job_lem s.jobs repo_id)
