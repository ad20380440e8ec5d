-- ===== src/Scheduler/Listing.antt =====
-- control-plane/scheduler/main.go, `listJobs`: the order of the map does not matter.
use mathlib.Core.List.{Permᴰ}
use tiny_aws.Prelude.{
  ℕ, String, Bool, true, false, not, ◌&&◌, ◌||◌, ◌≡◌, refl, ap, subst, List, [], leb, ◌==◌, select,
  length, if◌then◌else◌, Bool-cases, inl, inr,
}
use tiny_aws.Go.Http.{json, status_ok}
use tiny_aws.Go.Map.{values, UniqueKeys}
use tiny_aws.Go.Map.Order.{IsSameMap, values-Perm, select-Perm, length-Perm}
use tiny_aws.Scheduler.Job.{Job}
use tiny_aws.Scheduler.Server.{Scheduler, job_list, is_running_on, is_listed, list_jobs}

-- the test for a node that runs as many jobs as it may
abbrev is_full : ℕ → String → String → List Job → Bool
is_full max_jobs node status jobs =
    not (node == "")
    && status == "pending"
    && leb max_jobs (length (select (is_running_on node) jobs))

-- the jobs that `listJobs` answers with
abbrev listed : ℕ → String → String → List Job → List Job
listed max_jobs node status jobs =
    if is_full max_jobs node status jobs then [] else select (is_listed node status) jobs

list_jobs-listed :
    (max_jobs : ℕ) (node status : String) (s : Scheduler)
    → list_jobs max_jobs node status s
      ≡ json status_ok (job_list (listed max_jobs node status (values s.jobs)))
unfolding list_jobs
list_jobs-listed max_jobs node status s =
    elim (Bool-cases (is_full max_jobs node status (values s.jobs))) [
      | inl e ↦ rw e refl
      | inr e ↦ rw e refl
    ]

listed-Perm :
    (max_jobs : ℕ) (node status : String) (xs ys : List Job)
    → Permᴰ xs ys
    → Permᴰ (listed max_jobs node status xs) (listed max_jobs node status ys)
listed-Perm max_jobs node status xs ys h =
    subst
      (λ b.
        Permᴰ (listed max_jobs node status xs)
          (if b then [] else select (is_listed node status) ys))
      same (either (is_full max_jobs node status xs))
  where
    same : is_full max_jobs node status xs ≡ is_full max_jobs node status ys
    same =
        ap (λ n. not (node == "") && status == "pending" && leb max_jobs n)
          (length-Perm (select-Perm (is_running_on node) h))

    either :
        (b : Bool)
        → Permᴰ
            (if b then [] else select (is_listed node status) xs)
            (if b then [] else select (is_listed node status) ys)
    either true = Permᴰ.nil
    either false = select-Perm (is_listed node status) h

-- The jobs that are listed for a node and a status, "" for any: none if a node asks for its pending
-- jobs while as many jobs as the limit run on it, and otherwise all that have this node and status.
-- Two schedulers with the same map of jobs, whatever the order in which a range loop visits it, list
-- the same jobs, each as often, in an order of their own.
pub list_jobs_any_order :
    (max_jobs : ℕ) (node status : String) (s s' : Scheduler)
    → UniqueKeys s.jobs
    → UniqueKeys s'.jobs
    → IsSameMap s.jobs s'.jobs
    → (xs : List Job) × (ys : List Job) × (xs ≡ (
        if not (node == "")
          && status == "pending"
          && leb max_jobs
              (length (select (λ j. j.node_id == node && j.status == "running") (values s.jobs)))
        then []
        else select
            (λ j. (node == "" || j.node_id == node) && (status == "" || j.status == status))
            (values s.jobs)))
      × (list_jobs max_jobs node status s ≡ json status_ok (job_list xs))
      × (list_jobs max_jobs node status s' ≡ json status_ok (job_list ys))
      × Permᴰ xs ys
unfolding is_running_on is_listed
list_jobs_any_order max_jobs node status s s' u u' same = (
  listed max_jobs node status (values s.jobs),
  listed max_jobs node status (values s'.jobs),
  refl,
  list_jobs-listed max_jobs node status s,
  list_jobs-listed max_jobs node status s',
  listed-Perm max_jobs node status _ _ (values-Perm s.jobs s'.jobs u u' same),
)
