-- ===== src/Jobqueue/Own.antt =====
-- internal/jobqueue: a client that polls sees the jobs of its tenant, all of them and no others.
use racetify_api.Base.{
  ℤ, ◌≤◌, All-map, String, Bool, true, ◌&&◌, Option, ◌≡◌, sym, ap, ◌∙◌, arith, eq_iff, length, All,
  find_sound, subst,
}
use racetify_api.Domain.{Result, ok, and_then, and_then-eq-ok}
use racetify_api.Tenant.Rows.{with_tenant_tx-eq-ok, get_row-eq-ok}
use racetify_api.Pagination.{Position, IdOrder, Page, normalize_limit, list_page}
use racetify_api.Pagination.Complete.{list_page-All, list_page_bounds}
use racetify_api.Jobqueue.{Job, Store, belongs, has_id, get_by_id}
use racetify_api.Jobqueue.Reads.{get_job, list_jobs, is_listed, position, passes}

module _ {V : Type 0} where
  module _ (o : IdOrder) (tenant_id : String) (limit : ℤ) (cursor : Option Position)
      (job_type status : Option String) (s : Store V) where
    listed_row :
        (j : Job V)
        → is_listed tenant_id job_type status j ≡ true
        → (j.tenant_id ≡ tenant_id)
          × (passes job_type j.job_type ≡ true)
          × (passes status j.status ≡ true)
    listed_row j h = ((eq_iff j.tenant_id tenant_id).0 (ground arith), ground arith, ground arith)

    -- A page of jobs that is given out holds jobs of the tenant that was asked for, of the type and in
    -- the status that were asked for, and at most 100 of them; and nothing changes.
    pub list_jobs-IsOwn :
        (page : Page (Job V)) (s' : Store V)
        → list_jobs o tenant_id limit cursor job_type status s ≡ (ok page, s')
        → All
            (λ j.
              (j.tenant_id ≡ tenant_id)
              × (passes job_type j.job_type ≡ true)
              × (passes status j.status ≡ true))
            page.items
          × (length page.items ≤ 100)
          × (s' ≡ s)
    unfolding list_jobs
    list_jobs-IsOwn page s' h =
        let mine : Job V → Bool = is_listed tenant_id job_type status in
        let asked = list_page o position mine (normalize_limit limit) cursor s.jobs in
        let out : ◌≡◌ {A = Result (Page (Job V) × Store V)} (ok (asked, s)) (ok (page, s')) =
          with_tenant_tx-eq-ok tenant_id
            (λ t. ok (list_page o position mine (normalize_limit limit) cursor t.jobs, t)) s s' page
            h in
        let same : asked ≡ page = cc in
        let left : s' ≡ s = cc in
        let passed =
          All-map (λ j. mine j ≡ true)
            (λ j.
              (j.tenant_id ≡ tenant_id)
              × (passes job_type j.job_type ≡ true)
              × (passes status j.status ≡ true))
            listed_row asked.items
            (list_page-All o position mine (normalize_limit limit) cursor s.jobs) in
        let (_, few) = list_page_bounds o position mine limit cursor s.jobs in
        let (all, size) =
          subst
            (λ p.
              All
                (λ j.
                  (j.tenant_id ≡ tenant_id)
                  × (passes job_type j.job_type ≡ true)
                  × (passes status j.status ≡ true))
                p.items
              × (length p.items ≤ 100))
            same (passed, few) in
        (all, size, left)

  -- A job that is given out is the one that was asked for, of the tenant that was asked for.
  pub get_job-IsOwn :
      (tenant_id id : String) (s s' : Store V) (j : Job V)
      → get_job tenant_id id s ≡ (ok j, s')
      → (j.tenant_id ≡ tenant_id) × (j.id ≡ id) × (s' ≡ s)
  unfolding get_job
  get_job-IsOwn tenant_id id s s' j h =
      let out =
        with_tenant_tx-eq-ok tenant_id (λ t. and_then (get_by_id tenant_id id t) λ k. ok (k, t)) s
          s' j h in
      let (k, got, e) = and_then-eq-ok (get_by_id tenant_id id s) (λ k. ok (k, s)) out in
      let same : k ≡ j = cc in
      let left : s' ≡ s = cc in
      let found = get_row-eq-ok (λ i. belongs tenant_id i && has_id id i) s.jobs k got in
      let own : (belongs tenant_id k && has_id id k) ≡ true =
        find_sound (λ i. belongs tenant_id i && has_id id i) s.jobs k found in
      (
        ap (λ i. i.tenant_id) (sym same) ∙ (eq_iff k.tenant_id tenant_id).0 (ground arith),
        ap (λ i. i.id) (sym same) ∙ (eq_iff k.id id).0 (ground arith),
        left,
      )
