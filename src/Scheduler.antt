-- ===== src/Scheduler.antt =====
-- gcp/cloud_scheduler_job.go: the resource `CloudSchedulerJob`, the job that is sent, and how one is read,
-- made, changed and deleted. The client and the accessors of the fields are parameters.
use Prim.Native.String.{◌++◌}
use cli_plugin_gcp.Common.{String, Bool, true, false, Option, none, some, if◌then◌else◌, Dict}
use cli_plugin_gcp.Common.Action.{
  Action, Result, ok, err, panic, wrap, try, pure, fail, crash, ◌>>=◌, ◌>>◌,
}
use cli_plugin_gcp.ApiErrors.{err_is_404}
use cli_plugin_gcp.Fields.{Input, set_current, unset_current}

pub record CloudSchedulerJob : Type 0 where
  pub name : Input String
  pub project_id : Input String
  pub region : Input String
  pub schedule : Input String
  pub http_method : Input String
  pub http_url : Input String
  pub http_headers : Input (Dict String)

-- cloudscheduler.HttpTarget and cloudscheduler.Job
pub record HttpTarget : Type 0 where
  pub http_method : String
  pub uri : String
  pub headers : Dict String

pub record Job : Type 0 where
  pub name : String
  pub schedule : String
  pub http_target : Option HttpTarget

pub record SchedulerService : Type 1 where
  pub World : Type 0
  pub client : Action World (Unit {0})
  pub get : String → Action World Job
  pub create : String → Job → Action World (Unit {0})
  pub patch : String → Job → Action World (Unit {0})
  pub delete : String → Action World (Unit {0})
  pub any : Input String → String

abbrev pub job_path : String → String → String → String
job_path project region name = "projects/" ++ project ++ "/locations/" ++ region ++ "/jobs/" ++ name

-- ReferenceID, of the values that are asked for
abbrev pub job_reference : CloudSchedulerJob → String
job_reference o = job_path o.project_id.wanted o.region.wanted o.name.wanted

unfoldable pub make_job : CloudSchedulerJob → Job
make_job o = record {
  name = job_path o.project_id.wanted o.region.wanted o.name.wanted;
  schedule = o.schedule.wanted;
  http_target = some (record {
    http_method = o.http_method.wanted;
    uri = o.http_url.wanted;
    headers = o.http_headers.wanted;
  });
}

abbrev read_target : Option HttpTarget → CloudSchedulerJob → CloudSchedulerJob
read_target none o = record o {
  http_method = unset_current o.http_method;
  http_url = unset_current o.http_url;
  http_headers = unset_current o.http_headers;
}
read_target (some t) o = record o {
  http_method = set_current o.http_method t.http_method;
  http_url = set_current o.http_url t.uri;
  http_headers = set_current o.http_headers t.headers;
}

module _ (s : SchedulerService) where
  open s use {World}

  abbrev id_of : CloudSchedulerJob → String
  id_of o = job_path (s.any o.project_id) (s.any o.region) (s.any o.name)

  abbrev pub read_found_job : Job → CloudSchedulerJob → CloudSchedulerJob
  read_found_job job o = read_target job.http_target (record o {
    project_id = set_current o.project_id (s.any o.project_id);
    name = set_current o.name (s.any o.name);
    region = set_current o.region (s.any o.region);
    schedule = set_current o.schedule job.schedule;
  })

  abbrev after_get_job : CloudSchedulerJob → Result Job → Action World (Bool × CloudSchedulerJob)
  after_get_job o (ok job) = pure (true, read_found_job job o)
  after_get_job o (err e) =
      if err_is_404 (some e)
      then pure (false, o)
      else fail (wrap "error fetching cloud scheduler" e)
  after_get_job o panic = crash

  -- `Read`; the test says whether the resource exists
  unfoldable pub read_job : CloudSchedulerJob → Action World (Bool × CloudSchedulerJob)
  read_job o = s.client >> try (s.get (id_of o)) >>= after_get_job o

  unfoldable pub create_job : CloudSchedulerJob → Action World (Unit {0})
  create_job o =
      s.client
      >> s.create ("projects/" ++ o.project_id.wanted ++ "/locations/" ++ o.region.wanted)
          (make_job o)

  unfoldable pub update_job : CloudSchedulerJob → Action World (Unit {0})
  update_job o = s.client >> s.patch (make_job o).name (make_job o)

  unfoldable pub delete_job : CloudSchedulerJob → Action World (Unit {0})
  delete_job o = s.client >> s.delete (id_of o)
