-- ===== src/Lib.antt =====
-- Kumquat, a control plane for applications on many Kubernetes clusters: its scheduler, the replica
-- arithmetic of its rollouts, and the permissions and the rate limiter of its portal.
--
-- The scheduler (engine/internal/manager/scheduler) takes an application from a queue, takes a snapshot
-- of the cluster cache, lets the label index narrow the clusters down, runs the filter plugins and the
-- score plugins over them, selects a placement, writes it to the application's status and records it
-- in the cache until the API server confirms it. A rollout (engine/internal/manager/application) splits
-- the replicas of each cluster of a placement into canary and stable ones. The portal (apiserver) answers
-- the users' requests: it limits their rate and checks the permissions of their roles.
--
-- Which file models which part (paths below engine/internal/manager):
--   Api: the objects, engine/pkg/apis/{apps,storage}/v1alpha1 from the root, with the fields that the code uses.
--   Framework: scheduler/framework. RunFilterPlugins is run_filter_plugins, RunScorePlugins is
--     run_score_plugins, normalizeFinalScores is normalize_final_scores.
--   Plugins: scheduler/plugins, a module for each plugin, Filter as filter, Score as score.
--   Cache.Indexer: SimpleIndexer of scheduler/cache/interface.go. Cache.Requests and Cache.Store:
--     scheduler/cache/cache.go, with AddCluster as add_cluster and so on.
--   Scheduler.Prefilter: prefilterByAffinity and prefilterByTermUsingIndexer of
--     scheduler/scheduler.go. Scheduler.Waterfill: selectClustersStatefulSetWaterfill.
--     Scheduler.Spread: selectClustersSpread. Scheduler.Single: selectCluster. Scheduler.Setup:
--     NewSchedulerWithConfig. Scheduler.Cycle: scheduleOne with bind and gatherExistingPlacements.
--     Scheduler.Events: scheduler/event_handler.go.
--   Queueing: scheduler/queue/queue.go.
--   Sharding: sharding/sharding.go.
--   Rollout.Calculator: application/replica_calculator.go. Rollout.Reports: application/rollout_status.go.
--   Controller: application/controller.go, a run of Reconcile as the list of its calls; Controller.Reconcile:
--     the cleanup, the new status and reconcileDelete. Controller.Health: mergeClusterStatus and
--     calculatePhase of application/status_controller.go; Controller.Aggregation: its aggregateStatus.
--   Portal.Permissions: model/permission.go, service/role.go and RequirePermission of
--     middleware/auth.go, below apiserver/pkg. Portal.Limiter: middleware/rate_limiter.go.
--   Base: the shared lists, maps, integers and their laws. Tests: runs on small inputs.
--
-- State is passed explicitly: an operation takes the cache or the queue and returns the new one, with
-- its error where it has one. A mutex makes each operation atomic, so that a history of calls is a
-- list. A Go map is an association list whose order stands for an order of iteration; a theorem that
-- holds for every list holds for every order. An int32 or int64 operation wraps its exact result into
-- the range (Base.Words). Loops are recursion over the list that they run over, so that no fuel is
-- needed. A slice is a list.
--
-- What the code takes from elsewhere is a parameter: Api.Quantities.Resources has the operations of
-- resource.Quantity and the decoding of a pod template, Api.Floats has the operations of float64 and
-- package math, Scheduler.Slices has sort.Slice, Scheduler.Cycle.Client has the client of the API server, Portal.Permissions.Tables has the tables of
-- roles and rules, Queueing.WorkQueue has client-go's rate limiting queue, and the hash of a key is a function.
-- A theorem that relies on the rounding of a quotient says so (IsCeiling, which IEEE
-- arithmetic gives where the product is exact).
--
-- Not modelled: logging, metrics and tracing, which change no state; the builder and the coordinator of
-- rollouts; the workload object that the application controller writes to a cluster; the watches of the
-- status controller; the other controllers, the rest of the portal's API server and the command line tool.
pub mod Base
pub mod Api
pub mod Framework
pub mod Cache
pub mod Plugins
pub mod Queueing
pub mod Scheduler
pub mod Sharding
pub mod Rollout
pub mod Controller
pub mod Portal
pub mod Tests
