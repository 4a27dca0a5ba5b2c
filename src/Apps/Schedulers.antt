-- ===== src/Apps/Schedulers.antt =====
-- deploy/util.go: `addCloudSchedulers`. Where it ends the process by log.Fatal, the model panics.
use Prim.Native.String.{◌++◌}
use cli_plugin_gcp.Common.{
  inr, inl, ℕ, zero, suc, ◌+◌, ◌≡◌, sym, ◌∙◌, ap, String, List, [], ◌∷◌, some, if◌then◌else◌, ◌==◌,
  string_eq, get_elem?, arith,
}
use cli_plugin_gcp.Common.Action.{
  Result-cases, Action, Result, ok, err, panic, pure, crash, ◌>>=◌, ◌>>◌, >>=-eq-ok,
}
use cli_plugin_gcp.Scheduler.{CloudSchedulerJob, job_reference, job_path}
use cli_plugin_gcp.Apps.{App, AppScheduler, AppPlanner, AppArgs, scheduler_job, asked}

ok_injective : {A : Type 0} (a b : A) → ok a ≡ ok b → a ≡ b
ok_injective a b h = ground arith

module _ (l : AppPlanner) (c : AppArgs) where
  open l use {World, Url}

  -- log.Fatal
  abbrev or_fatal : {A : Type 0} → Result A → Action World A
  or_fatal (ok a) = pure a
  or_fatal (err e) = crash
  or_fatal panic = crash

  -- the name of the scheduler, or its place in the list from 1
  abbrev pub cron_name : ℕ → AppScheduler → String
  cron_name i sch = if sch.name == "" then l.id (l.itoa (i + 1)) else l.id sch.name

  abbrev pub job_of : ℕ → AppScheduler → String → CloudSchedulerJob
  job_of i sch url = record {
    name = asked (cron_name i sch);
    project_id = asked c.project_id;
    region = asked c.region;
    schedule = asked sch.cron;
    http_method = asked (if sch.method == "" then "GET" else sch.method);
    http_url = asked url;
    http_headers = asked sch.headers;
  }

  -- one round of the loop
  abbrev pub add_cloud_scheduler : App → ℕ → AppScheduler → Action World CloudSchedulerJob
  add_cloud_scheduler app i sch = or_fatal (l.parse_url app.url) >>= λ base.
      or_fatal (l.parse_url sch.path) >>= λ u.
      l.register app.id ("cloud_scheduler_job_" ++ l.itoa (i + 1))
        (scheduler_job (job_of i sch (l.resolve_url base u)))
      >> pure (job_of i sch (l.resolve_url base u))

  unfoldable pub add_cloud_schedulers :
      App → ℕ → List AppScheduler → Action World (List CloudSchedulerJob)
  add_cloud_schedulers app i [] = pure []
  add_cloud_schedulers app i (sch ∷ schs) = add_cloud_scheduler app i sch >>= λ job.
      add_cloud_schedulers app (suc i) schs >>= λ jobs. pure (job ∷ jobs)

  -- the parts of a job that do not depend on the app
  add_cloud_scheduler_lem :
      (app : App) (i : ℕ) (sch : AppScheduler) (job : CloudSchedulerJob) (w : World)
      → (add_cloud_scheduler app i sch w).0 ≡ ok job
      → job_reference job ≡ job_path c.project_id c.region (cron_name i sch)
  add_cloud_scheduler_lem app i sch job w e = elim (Result-cases (l.parse_url app.url)) [
    | inl (base, p) ↦ elim (Result-cases (l.parse_url sch.path)) [
      | inl (u, q) ↦
          let made = job_of i sch (l.resolve_url base u) in
          let (a, done, rest) =
            >>=-eq-ok (λ _. pure made)
              (l.register app.id ("cloud_scheduler_job_" ++ l.itoa (i + 1)) (scheduler_job made)) w
              job (ground arith) in
          ap job_reference (sym (ok_injective made job (ap (λ r. r.0) (sym rest) ∙ ground arith)))
      | inr other ↦ absurd (ground arith)
    ]
    | inr other ↦ absurd (ground arith)
  ]

  -- the job at a place, from that at the first place and those at the later ones
  at_place :
      (app : App) (i : ℕ) (first : AppScheduler) (schs : List AppScheduler)
      (job0 : CloudSchedulerJob) (jobs0 : List CloudSchedulerJob) (w w0 : World) (j : ℕ)
      (sch : AppScheduler) (job : CloudSchedulerJob)
      → (add_cloud_scheduler app i first w).0 ≡ ok job0
      → (add_cloud_schedulers app (suc i) schs w0).0 ≡ ok jobs0
      → get_elem? (first ∷ schs) j ≡ some sch
      → get_elem? (job0 ∷ jobs0) j ≡ some job
      → ((k : ℕ) (sch : AppScheduler) (job : CloudSchedulerJob)
          → (add_cloud_schedulers app (suc i) schs w0).0 ≡ ok jobs0
          → get_elem? schs k ≡ some sch
          → get_elem? jobs0 k ≡ some job
          → job_reference job ≡ job_path c.project_id c.region (cron_name (suc i + k) sch))
      → job_reference job ≡ job_path c.project_id c.region (cron_name (i + j) sch)
  at_place app i first schs job0 jobs0 w w0 zero sch job done done' at at' later =
      let same : first ≡ sch = ground arith in
      let same' : job0 ≡ job = ground arith in
      let place : i ≡ i + 0 = omega arith in
      ap job_reference (sym same')
      ∙ add_cloud_scheduler_lem app i first job0 w done
      ∙ ap (λ s. job_path c.project_id c.region (cron_name i s)) same
      ∙ ap (λ k. job_path c.project_id c.region (cron_name k sch)) place
  at_place app i first schs job0 jobs0 w w0 (suc j) sch job done done' at at' later =
      let place : suc i + j ≡ i + suc j = omega arith in
      later j sch job done' at at'
      ∙ ap (λ k. job_path c.project_id c.region (cron_name k sch)) place

  add_cloud_schedulers_at :
      (app : App) (i : ℕ) (schs : List AppScheduler) (jobs : List CloudSchedulerJob) (w : World)
      (j : ℕ) (sch : AppScheduler) (job : CloudSchedulerJob)
      → (add_cloud_schedulers app i schs w).0 ≡ ok jobs
      → get_elem? schs j ≡ some sch
      → get_elem? jobs j ≡ some job
      → job_reference job ≡ job_path c.project_id c.region (cron_name (i + j) sch)
  unfolding add_cloud_schedulers
  add_cloud_schedulers_at app i [] jobs w j sch job e at at' = absurd (ground arith)
  add_cloud_schedulers_at app i (first ∷ schs) jobs w j sch job e at at' =
      let (job0, done, rest) =
        >>=-eq-ok (λ job. add_cloud_schedulers app (suc i) schs >>= λ jobs. pure (job ∷ jobs))
          (add_cloud_scheduler app i first) w jobs e in
      let w0 = (add_cloud_scheduler app i first w).1 in
      let (jobs0, done', rest') =
        >>=-eq-ok (λ jobs. pure (job0 ∷ jobs)) (add_cloud_schedulers app (suc i) schs) w0 jobs
          (ap (λ r. r.0) (sym rest) ∙ e) in
      let same : job0 ∷ jobs0 ≡ jobs =
        ok_injective (job0 ∷ jobs0) jobs
          (ap (λ r. r.0) (sym rest') ∙ ap (λ r. r.0) (sym rest) ∙ e) in
      at_place app i first schs job0 jobs0 w w0 j sch job done done' at
        (ap (λ js. get_elem? js j) same ∙ at') (add_cloud_schedulers_at app (suc i) schs jobs0 w0)

  -- The jobs of two apps collide: where the schedulers at the same place of two apps have no name,
  -- or the same name, their jobs have the same project, region and name, which is one job of Cloud Scheduler.
  pub add_cloud_schedulers-collide :
      (app app' : App) (schs schs' : List AppScheduler) (jobs jobs' : List CloudSchedulerJob)
      (w w' : World) (j : ℕ) (sch sch' : AppScheduler) (job job' : CloudSchedulerJob)
      → (add_cloud_schedulers app 0 schs w).0 ≡ ok jobs
      → (add_cloud_schedulers app' 0 schs' w').0 ≡ ok jobs'
      → get_elem? schs j ≡ some sch
      → get_elem? schs' j ≡ some sch'
      → get_elem? jobs j ≡ some job
      → get_elem? jobs' j ≡ some job'
      → sch.name ≡ sch'.name
      → job_reference job ≡ job_reference job'
  add_cloud_schedulers-collide app app' schs schs' jobs jobs' w w' j sch sch' job job' e e' a a' b
        b' same =
      add_cloud_schedulers_at app 0 schs jobs w j sch job e a b
      ∙ ap
          (λ n.
            job_path c.project_id c.region (if n == "" then l.id (l.itoa (0 + j + 1)) else l.id n))
          same
      ∙ sym (add_cloud_schedulers_at app' 0 schs' jobs' w' j sch' job' e' a' b')
