-- ===== src/Lib.antt =====
-- HuddleCluster: a self-organising load balancer and the master that coordinates a fleet of it.
--
-- The program's parts, and the files that model them (paths from the repository's root):
--
-- Ring models huddle_cluster.py, the balancer itself: `Cluster` keeps `_inner_ring`, `_outer_ring`,
-- `_draining_servers` and `_affinity_map` of `HuddleCluster`; `move_to_outer`, `complete_eviction`,
-- `move_to_inner` (Ring), `rotate`, `check_draining_servers` (Ring/Rotate), `get_server`,
-- `add_server`, `remove_server` and `force_evict` (Ring/Routing) and `get_server_excluding`
-- (Ring/Retries) are the methods of these names. A server object is the copy in the ring that it is
-- in; `heapq` is a parameter, and the remediator an interface (Ring/Outside).
--
-- Breaker models huddle_cluster_pkg/cluster_circuit_breaker.py: the dict `_states` of per-node
-- records; `evaluate` is `_evaluate` with the nodes that the master reports, `evaluate_node` its
-- loop body, `reset`, `is_open` and `is_tripped` the methods of these names.
--
-- RateLimiter models huddle_cluster_pkg/cluster_rate_limiter.py: `consume_bucket`, `refill` and
-- `fill` are the methods of `TokenBucket`, and `consume`, `is_rate_limited`, `reset` and
-- `bucket_for` those of `ClusterRateLimiter`; the bucket objects that the dict shares are written
-- back on each change.
--
-- Master models the registry of huddle_cluster_pkg/cluster_master.py: `handle_join` (Master/Join),
-- `handle_heartbeat` and `handle_leave` (Master), and `check_heartbeats` and `check_cluster_health`
-- (Master/Monitor) are `_handle_join`, `_handle_heartbeat`, `_handle_leave`, `_check_heartbeats`
-- and `_check_cluster_health` of `MasterNode`, over the dict `_nodes` of `NodeRecord`.
--
-- HighAvailability models huddle_cluster_pkg/cluster_ha.py, one function for each section of code
-- that holds `_lock`: the vote and sync handlers, `_step_down`, the two ends of `_start_election`
-- (HighAvailability/Election), the quorum test of `_heartbeat_loop` (HighAvailability/Quorum).
-- Whether a state file is configured and its write succeeds is an argument of each section. Other
-- threads run between two sections, so a history of a master is a list of sections in any order
-- (HighAvailability/Voting).
--
-- Canary models huddle_cluster_pkg/cluster_canary_deployment.py: `start`, `advance`, `set_weight`,
-- `promote`, `abort`, `announce_canary`, `remove_canary` and `pick_pool` are the methods of these
-- names.
--
-- Scaling models huddle_cluster_pkg/cluster_autoscaler.py: `evaluate` is the method of this name,
-- with `judge` its decision before the cooldown.
--
-- Scheduler models huddle_cluster_pkg/cluster_scheduler.py: `fitness` is `_node_fitness`
-- (Scheduler/Fitness), `pick`, `select`, `current_heat`, `apply_heat` and `record_report` are the
-- methods of these names. What it asks of the breaker, the limiter and the canary deployment is the
-- interface of Scheduler/Asked, which Scheduler/Composed fills with those components. `candidates`
-- is the part of `pick` before its lock, and `pick_locked` the part with it; what other threads do
-- to the limiter between the calls is an argument (`Others`), and the state is the one that the
-- lock finds.
--
-- Rollout models huddle_cluster_pkg/cluster_rolling_updater.py: `sorted_nodes` and `batches`
-- (Rollout/Plan) are the plan, `work` is a step of the thread of `_do_rollout` from one of its
-- places to the next, and `pause`, `resume` and `abort` fall between two steps. The threads of a
-- batch are started in the order of the batch and end in an order that is an argument
-- (`Finishing`); a step joins them all.
--
-- Remediator models huddle_cluster_pkg/cluster_remediator.py: the methods have their names; the two
-- sections of `trigger_remediation` with the lock are `begin_remediation` and `settle`, and in a
-- history (Remediator/Quarantine) anything falls between them; `remediation` (Remediator/Rings)
-- fills the interface that the rings ask, with the calls that huddle_cluster.py makes in
-- `_complete_eviction`, `_move_to_inner` and `rotate`.
--
-- Discovery models huddle_cluster_pkg/cluster_service_discovery.py: `announce`, `deregister`,
-- `alive_nodes_for`, `sync_from_metadata` and `check_service_health` are its methods over the dict
-- `_registry`; Discovery/Dns has `build_dns_response` and `handle_dns_query` over bytes, with
-- `inet_aton` as a parameter.
--
-- Regions models huddle_cluster_pkg/cluster_multi_region.py: `preferred_nodes` and the refresh; its
-- registry and transitions are those of Discovery, whose code it repeats.
--
-- Webhooks models huddle_cluster_pkg/cluster_webhooks.py: `register`, `dispatch`, `test_ping` and
-- the worker's loop over the queue; `deliver` is the retry loop of `_deliver`, over the replies that
-- its attempts meet.
--
-- Thresholds models `AdaptiveThresholdController` of huddle_cluster.py: `maybe_adapt` gives the
-- two thresholds that `rotate` takes as an argument.
--
-- How they interact: the master's handlers and monitor keep the registry; the breaker reads its
-- nodes; the leader that the election finds replicates the registry. The scheduler asks the
-- breaker, the limiter and the canary deployment; the rings call the remediator and ask it who is
-- in quarantine.
--
-- Conventions. A method returns the new state, its result and the callbacks that it makes, in
-- order; the code swallows what a callback raises, but for the rotation callback of the rings,
-- which is taken not to raise. What a method does under one lock is one step (the check of the
-- draining servers is called without a lock, and is taken as one), and where a method works outside
-- its lock it is split there, or takes what other threads do meanwhile as an argument. The rings
-- alone call the remediator's `trigger_remediation` as a whole. A dict is an association list in
-- insertion order (Base/Dicts). Floats are a parameter (Base/Floats) of which only laws of IEEE
-- comparison are assumed, NaN included; the rate limiter alone is over whole numbers of a small
-- unit, where its sums are exact. The clock, random numbers, JSON values and `str.strip` are
-- arguments. All loops are recursions on the list they run over, except the two that promote
-- servers: each round takes one server off the outer ring, so its length is fuel enough.
--
-- Not modelled: HTTP, threads and their sleeping, logging, the dict views for REST and metrics, and
-- the parts that the manifest lists as not modelled.
pub mod Base
pub mod Breaker
pub mod RateLimiter
pub mod Master
pub mod HighAvailability
pub mod Ring
pub mod Canary
pub mod Scaling
pub mod Scheduler
pub mod Rollout
pub mod Remediator
pub mod Discovery
pub mod Regions
pub mod Webhooks
pub mod Thresholds
