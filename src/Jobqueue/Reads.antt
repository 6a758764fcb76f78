-- ===== src/Jobqueue/Reads.antt =====
-- internal/jobqueue: polling a job, and the pages of a tenant's jobs (GetJob, ListJobs).
use racetify_api.Base.{ℤ, String, Bool, true, ◌&&◌, Option, none, some, ◌==◌}
use racetify_api.Domain.{Result, ok, and_then}
use racetify_api.Database.{with_tenant_tx}
use racetify_api.Pagination.{Position, IdOrder, Page, normalize_limit, list_page}
use racetify_api.Jobqueue.{Job, Store, belongs, get_by_id}

abbrev pub passes : Option String → String → Bool
passes none value = true
passes (some wanted) value = value == wanted

module _ {V : Type 0} where
  unfoldable pub get_job : String → String → Store V → Result (Job V) × Store V
  get_job tenant_id id =
      with_tenant_tx tenant_id (λ s. and_then (get_by_id tenant_id id s) λ j. ok (j, s))

  -- The WHERE clause of the list.
  abbrev pub is_listed : String → Option String → Option String → Job V → Bool
  is_listed tenant_id job_type status j =
      belongs tenant_id j && passes job_type j.job_type && passes status j.status

  abbrev pub position : Job V → Position
  position j = record { created_at = j.created_at; id = j.id }

  unfoldable pub list_jobs :
      IdOrder
      → String
      → ℤ
      → Option Position
      → Option String
      → Option String
      → Store V
      → Result (Page (Job V)) × Store V
  list_jobs o tenant_id limit cursor job_type status = with_tenant_tx tenant_id (λ s. ok (
    list_page o position (is_listed tenant_id job_type status) (normalize_limit limit) cursor
        s.jobs,
    s,
  ))
