-- ===== src/Lib.antt =====
-- A model of the Outblocks CLI plugin for Google Cloud (outblocks/cli-plugin-gcp).
--
-- The plugin serves the Outblocks CLI over gRPC. The CLI asks it for the state of a project, which
-- is one object in a bucket (plugin/state.go); takes and gives back named locks, each an object in a
-- second bucket (plugin/locking.go); keeps secrets in Secret Manager (plugin/secrets.go); and has it
-- plan and apply cloud resources (actions, deploy, gcp). Handlers that meet an API which is not
-- enabled enable it and try again (plugin/plugin.go).
--
--   Common      shared names; Common/Action: how a Go function ends (value, error or panic) and how
--               calls follow one another; Common/Maps: a Go map as a list of pairs
--   Strconv     strconv.FormatInt and strconv.ParseInt in base 36, by which plugin/state.go writes the
--               generation of a lock object as the lock's id
--   Gcs         the Cloud Storage client and the clock as a parameter, with the laws that the proofs
--               use; Gcs/Memory: a storage service in memory that meets them
--   Lock        plugin/state.go: lockdata, acquireLock, checkLock, releaseLock; Lock/Exclusion: the
--               calls of several clients as a step relation
--   Naming      plugin/state.go, plugin/locking.go and gcp/util.go: the names of buckets, objects and
--               resources
--   State       plugin/state.go: getBucket, lockState, GetState, SaveState, ReleaseStateLock
--   Locking     plugin/locking.go: acquireLocks, AcquireLocks, ReleaseLocks
--   ApiErrors   gcp/util.go: checkErrCode and what builds on it, ErrExtractMissingAPI
--   EnsureApi   plugin/plugin.go: ensureAPI, runAndEnsureAPI
--   Secrets     plugin/secrets.go: the calls of Secret Manager and, in Secrets/Handlers, the handlers
--   Operations  gcp/util.go: the waits for long-running operations
--   Url         gcp/util.go: SplitURL and RegionToGCR
--   PluginContext  internal/config/pluginctx.go: the clients that are made once, and FuncCache
--   Bucket      gcp/bucket.go: Create, Update and Delete of a bucket
--   Start       plugin/start.go: Start
--   Fields      the fields of a resource: what the state holds and what the configuration asks for
--   Policies    the access policies of Cloud Run and Cloud Functions
--   CloudRun    gcp/cloud_run.go: CloudRun/Make, the service that is sent; CloudRun/Read, what is read
--               of one; CloudRun/Calls, the calls, the waits, Read, Create, Update and Delete
--   CloudFunction  gcp/cloud_function.go: the same for a function; CloudFunction/Policy, its policy
--   UrlMap      gcp/url_map.go: the mapping by hosts, and its methods; UrlMap/Made, the URL map that is
--               made and read; UrlMap/Calls, Read, Create, Update and Delete
--   LoadBalancer  deploy/load_balancer.go: the apps that are taken on; LoadBalancer/Plan, the
--               certificates and the plan
--   Planning    actions/plan.go: Plan and Apply with the calls of the registries, and
--               prepareCloudRunURL of actions/plan_service.go; Planning/Apps, planApps and the plans
--               by kind of app, actions/plan_static.go, plan_service.go and plan_function.go
--   AppStates   actions/plan.go: the DNS and certificate states of apps; AppStates/Deployments,
--               actions/status.go and the rest of save
--   Dependencies  deploy/dep_database.go, deploy/dep_storage.go and actions/plan_dependency.go: the plans of
--               databases and storages, planDependencies of actions/plan.go, and the variables of apps
--   Sql         gcp/cloud_sql.go, gcp/cloud_sql_user.go and gcp/cloud_sql_database.go
--   Scheduler   gcp/cloud_scheduler_job.go; Objects: gcp/bucket_object.go
--   Apps        deploy/app_service.go, deploy/app_static.go, deploy/app_function.go and deploy/util.go: the
--               options of apps, their plans, runsd and the jobs of schedulers
--   DumpArgs    plugin/command_dbdump.go: the arguments of a dump
--   Image       gcp/image.go: how an image is read, pushed and deleted
--   Examples    values for the parameters, at which the Tests modules run the model
--
-- A function that talks to the outside is an action: from the world it gives a result, which is a
-- value, an error or a panic, and the world after it. The world of plugin/state.go and
-- plugin/locking.go is that of Gcs, that of plugin/secrets.go is its own. Clients of Google's
-- services, SanitizeName, LimitString and SHAString of outblocks-plugin-go, base64 and times in RFC
-- 3339 are parameters. The goroutines of an errgroup run one after the other in the order of their
-- start, and a Go map is a list of pairs.
--
-- Loops that wait have fuel, and `none` says that it ran out. The loop of lockState needs two more
-- than the time that is left to wait, since each tick of its clock comes at a later time, and the
-- inner loop of acquireLocks waits in the same way for each lock; runAndEnsureAPI needs one more
-- than there are APIs that a failure can name, since it tries again once for each; a wait for an
-- operation, or for a Cloud Run service to be ready, needs one more than the rounds that the service
-- takes.
--
-- Not modelled: the registry, the handlers of plugin/deploy.go, the resources of gcp that are mostly
-- calls of one client, but for their names and waits, the log and monitoring handlers, the commands
-- that start processes, and the entry point.
pub mod Common
pub mod Strconv
pub mod Gcs
pub mod Lock
pub mod Naming
pub mod State
pub mod Locking
pub mod ApiErrors
pub mod EnsureApi
pub mod Secrets
pub mod Url
pub mod Operations
pub mod PluginContext
pub mod Bucket
pub mod Start
pub mod Fields
pub mod CloudRun
pub mod UrlMap
pub mod Image
pub mod LoadBalancer
pub mod AppStates
pub mod DumpArgs
pub mod Policies
pub mod CloudFunction
pub mod Dependencies
pub mod Scheduler
pub mod Objects
pub mod Apps
pub mod Sql
pub mod Planning
pub mod Examples
