-- ===== src/Scheduler/Names.antt =====
-- crates/hyperindex-scheduler/src/queue.rs: no two jobs of a service share an id.
use repo_hyperindex.Base.{
  ℕ, zero, suc, ◌+◌, ◌^◌, ◌<◌, ◌≤◌, ◌≡◌, refl, sym, ap, ◌∙◌, false, Option, List, [], ◌∷◌, ◌++◌,
  map, arith, length, length-append, drop,
}
use repo_hyperindex.Base.Order.{beq_iff}
use repo_hyperindex.Base.Text.{text_ord, Text}
use repo_hyperindex.Base.Decimal.{digits_value, digits_value-pad_zeros}
use repo_hyperindex.Base.Distinct.{contains, Distinct}
use repo_hyperindex.Scheduler.{
  JobKind, JobState, JobRecord, SchedulerService, new, job_name, enqueue, set_state, transition,
  running, succeeded, failed, mark_running, mark_succeeded, mark_failed,
}

-- An id determines the counter value that it was made of.
pub job_name-injective : (m n : ℕ) → m < 10 ^ 20 → n < 10 ^ 20 → job_name m ≡ job_name n → m ≡ n
unfolding job_name
job_name-injective m n hm hn e =
    sym (digits_value-pad_zeros 6 m hm)
    ∙ ap (λ t. digits_value 0 (drop 4 t)) e
    ∙ digits_value-pad_zeros 6 n hn

abbrev pub ids : List JobRecord → List Text
ids = map (λ (job : JobRecord). job.job_id)

-- The ids made of `n` counter values from `k` on.
abbrev pub numbered : ℕ → ℕ → List Text
numbered k zero = []
numbered k (suc n) = job_name k ∷ numbered (suc k) n

not_numbered : (a n k : ℕ) → k < a → a + n < 10 ^ 20 → contains (numbered a n) (job_name k) ≡ false
not_numbered a zero k h b = refl
not_numbered a (suc n) k h b =
    ground
      (arith, not_numbered (suc a) n k, beq_iff (job_name a) (job_name k), job_name-injective a k)

not_numbered_yet :
    (a n k : ℕ) → a + n ≤ k → k < 10 ^ 20 → contains (numbered a n) (job_name k) ≡ false
not_numbered_yet a zero k h b = refl
not_numbered_yet a (suc n) k h b =
    ground (
      arith,
      not_numbered_yet (suc a) n k,
      beq_iff (job_name a) (job_name k),
      job_name-injective a k,
    )

numbered-Distinct : (a n : ℕ) → a + n < 10 ^ 20 → Distinct (numbered a n)
numbered-Distinct a zero b = tt
numbered-Distinct a (suc n) b = (
  not_numbered (suc a) n a (omega arith) (omega arith),
  numbered-Distinct (suc a) n (omega arith),
)

numbered-snoc : (a n : ℕ) → numbered a (suc n) ≡ numbered a n ++ job_name (a + n) ∷ []
numbered-snoc a zero = ap (λ k. job_name k ∷ []) (omega arith)
numbered-snoc a (suc n) =
    ap (λ t. job_name a ∷ t)
      (numbered-snoc (suc a) n ∙ ap (λ k. numbered (suc a) n ++ job_name k ∷ []) (omega arith))

-- The jobs are those that the counter has numbered, in order, and it has not wrapped.
pub record IsNumbered (s : SchedulerService) : Type 0 where
  pub next : s.next_job_id ≡ 1 + length s.jobs
  pub named : ids s.jobs ≡ numbered 1 (length s.jobs)
  pub fits : length s.jobs + 1 < 2 ^ 64

pub new-IsNumbered : IsNumbered new
unfolding new
new-IsNumbered = record { next = refl; named = refl; fits = omega arith }

ids-snoc :
    (jobs : List JobRecord) (job : JobRecord) → ids (jobs ++ job ∷ []) ≡ ids jobs ++ job.job_id ∷ []
ids-snoc [] job = refl
ids-snoc (j ∷ jobs) job = ap (λ t. j.job_id ∷ t) (ids-snoc jobs job)

-- A new job takes the next number, as long as the counter does not reach 2^64.
pub enqueue-IsNumbered :
    (s : SchedulerService) (repo_id : Option Text) (kind : JobKind)
    → IsNumbered s
    → length s.jobs + 2 < 2 ^ 64
    → IsNumbered (enqueue s repo_id kind).0
unfolding enqueue
enqueue-IsNumbered s repo_id kind h room =
    let job : JobRecord = record {
      job_id = job_name s.next_job_id;
      repo_id = repo_id;
      kind = kind;
      state = JobState.pending;
    } in
    let count : length (s.jobs ++ job ∷ []) ≡ suc (length s.jobs) =
      omega (arith, length-append s.jobs (job ∷ [])) in
    record {
      next = omega (arith, h.next, count);
      named = rw count (
          ids-snoc s.jobs job
          ∙ ap (λ t. t ++ job_name s.next_job_id ∷ []) h.named
          ∙ ap (λ k. numbered 1 (length s.jobs) ++ job_name k ∷ []) h.next
          ∙ sym (numbered-snoc 1 (length s.jobs)));
      fits = omega (arith, count);
    }

-- The next id is not in use.
pub IsNumbered-fresh :
    (s : SchedulerService) → IsNumbered s → contains (ids s.jobs) (job_name s.next_job_id) ≡ false
IsNumbered-fresh s h = rw h.named (
    not_numbered_yet 1 (length s.jobs) s.next_job_id (omega (arith, h.next))
      (omega (arith, h.next, h.fits)))

pub ids-set_state :
    (jobs : List JobRecord) (job_id : Text) (state : JobState)
    → ids (set_state jobs job_id state).0 ≡ ids jobs
unfolding set_state
ids-set_state [] job_id state = refl
ids-set_state (j ∷ jobs) job_id state = ground (arith, ids-set_state jobs job_id state)

length-set_state :
    (jobs : List JobRecord) (job_id : Text) (state : JobState)
    → length (set_state jobs job_id state).0 ≡ length jobs
unfolding set_state
length-set_state [] job_id state = refl
length-set_state (j ∷ jobs) job_id state = ground (arith, length-set_state jobs job_id state)

pub transition-IsNumbered :
    (s : SchedulerService) (job_id : Text) (state : JobState)
    → IsNumbered s
    → IsNumbered (transition s job_id state).0
unfolding transition
transition-IsNumbered s job_id state h =
    let count = length-set_state s.jobs job_id state in
    record {
      next = omega (arith, h.next, count);
      named = ids-set_state s.jobs job_id state ∙ h.named ∙ ap (numbered 1) (sym count);
      fits = omega (arith, h.fits, count);
    }

-- The calls that change a service.
pub data Call : Type 0 where
  enqueue_job : Option Text → JobKind → Call
  run_job succeed_job fail_job : Text → Call

abbrev pub call : SchedulerService → Call → SchedulerService
call s (enqueue_job repo_id kind) = (enqueue s repo_id kind).0
call s (run_job job_id) = (mark_running s job_id).0
call s (succeed_job job_id) = (mark_succeeded s job_id).0
call s (fail_job job_id) = (mark_failed s job_id).0

abbrev pub calls : SchedulerService → List Call → SchedulerService
calls s [] = s
calls s (c ∷ cs) = calls (call s c) cs

call-IsNumbered :
    (s : SchedulerService) (c : Call)
    → IsNumbered s
    → length s.jobs + 2 < 2 ^ 64
    → IsNumbered (call s c) × (length (call s c).jobs ≤ length s.jobs + 1)
unfolding mark_running mark_succeeded mark_failed
call-IsNumbered s (enqueue_job repo_id kind) h room = (
  enqueue-IsNumbered s repo_id kind h room,
  unfold enqueue in omega (arith, length-append s.jobs),
)
call-IsNumbered s (run_job job_id) h room = (
  transition-IsNumbered s job_id running h,
  unfold transition in omega (arith, length-set_state s.jobs job_id running),
)
call-IsNumbered s (succeed_job job_id) h room = (
  transition-IsNumbered s job_id succeeded h,
  unfold transition in omega (arith, length-set_state s.jobs job_id succeeded),
)
call-IsNumbered s (fail_job job_id) h room = (
  transition-IsNumbered s job_id failed h,
  unfold transition in omega (arith, length-set_state s.jobs job_id failed),
)

pub calls-IsNumbered :
    (s : SchedulerService) (cs : List Call)
    → IsNumbered s
    → length s.jobs + length cs + 1 < 2 ^ 64
    → IsNumbered (calls s cs)
calls-IsNumbered s [] h room = h
calls-IsNumbered s (c ∷ cs) h room =
    let (h', grown) = call-IsNumbered s c h (omega arith) in
    calls-IsNumbered (call s c) cs h' (omega arith)

-- Whatever calls are made of a new service, fewer than 2^64 - 1 of them, its jobs have different ids.
pub calls-Distinct : (cs : List Call) → length cs + 1 < 2 ^ 64 → Distinct (ids (calls new cs).jobs)
calls-Distinct cs room =
    let h = calls-IsNumbered new cs new-IsNumbered (unfold new in omega arith) in
    rw h.named (numbered-Distinct 1 (length (calls new cs).jobs) (omega (arith, h.fits)))
