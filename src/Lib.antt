-- ===== src/Lib.antt =====
-- ZigbeeLens core: a model of the decision logic and of the stateful services of
-- apps/core/src/zigbeelens, the service that listens to Zigbee2MQTT over MQTT, stores what it hears
-- in SQLite, and classifies the health of devices and networks.
--
-- The parts and their files:
-- * Dashboard (mqtt/dashboard_scheduler.py). Dashboard/Scheduler: the fields of
--   DashboardPublishScheduler and its critical sections, one function for each. Dashboard/Threads:
--   callers, timers and publishers around it, interleaved at the critical sections; a timer is known
--   by the generation that its callback carries, and a timer that has fired can no longer be
--   cancelled. The building of the dashboard and the broadcast stand for one step, `finish`, whose
--   flag tells whether the update was broadcast before an exception.
-- * Health (diagnostics/models.py, device_health.py). Health/Types: the enumerations, and each text
--   of evidence as a constructor with the values formatted into it. Health/Device/Checks: the checks
--   in the order of classify_device; Health/Device: the choice of the primary flag, of the severity
--   and of the confidence. Health/Bridge and Health/Network (bridge_health.py, network_health.py):
--   the verdicts on bridges and networks. The summary texts are left out.
-- * Incident (diagnostics/incidents/models.py and lifecycle.py, the statements on the incident tables
--   in storage/repository.py). Incident/Store: the statements; a violated primary key is an
--   exception. Incident/Lifecycle: sync with its two loops in one transaction, which an exception
--   rolls back. Incident/Identity, Rules, Priority and Correlation (diagnostics/incidents/correlator.py
--   and service.py): the identity keys, the rules of the correlator, _apply_priority, and correlate
--   with correlate_and_sync, which hands the candidates to the lifecycle. The texts of candidates are
--   left out, as is what topology and Home Assistant add to them.
-- * Rhythm (decisions/reporting_rhythm.py, reporting_silence.py, lqi_trend.py). Rhythm/Sorted and
--   Rhythm/Quantile: `sorted`, `_percentile` and the median; Rhythm/Reporting: the rhythm from the instants of the
--   stored payloads; Rhythm/Silence: the silence since the latest of them; Rhythm/Trend: the trend
--   of the reported link quality.
-- * Availability (topology/passive_hints.py, decisions/availability_event_groups.py).
--   Availability/Windows: the offline transitions and their clustering (its lemmas in Clusters and
--   Transitions); Availability/Groups: the
--   windows that many devices share. The pairwise hints are left out.
-- * Topology (topology/scheduler.py). Topology/Scheduler: the rounds of the startup scan, each with
--   what it observes as its input. The periodic refresh is left out.
-- * Session (security/browser_sessions.py). Session/Claims: SessionClaims with its conversions;
--   Session/Manager: BrowserSessionManager; Session/Lifetime and Session/Forgery: what follows for
--   cookies and tokens. The signer of itsdangerous, hmac, str.strip and bytes.fromhex are given.
-- * Mqtt (mqtt/topics.py, payload_utils.py, normalizer.py). Mqtt/Topics: match_network and classify_topic (their
--   lemmas in Splitting, Matching and Roundtrip); Mqtt/Payload: JSON values, redaction of payloads,
--   and the state that an availability message tells; Mqtt/Redaction: what redaction leaves;
--   Mqtt/Normalizer: normalize_message with its handlers, without titles and summaries.
-- * Maintenance (storage/retention_policy.py, access/maintenance.py, maintenance.py).
--   Maintenance/Policy: cutoffs and the number of batches; Maintenance/Purge: a batch of deletions and
--   the loop around it, for any table, where a given function tells which transactions fail;
--   Maintenance/Tables: the tables and which rows are due, with the cap on snapshots in
--   Tables/Cap; Maintenance/Executor: _execute_deletes,
--   phase by phase, with what a cycle leaves in Executor/Outcome; Maintenance/Result: the names of the
--   events that follow a cycle. Children of deleted rows, the preview, the stored status and the
--   housekeeping are left out.
-- * Diagnostics (diagnostics/coordinator.py, diagnostics/service.py). Diagnostics/Periodic:
--   PeriodicEvaluationScheduler with its callers and timers, interleaved at the critical sections of
--   its lock; an evaluation is one step.
--   Flights and Chain: what holds of every schedule of steps. Diagnostics/Service:
--   which networks HealthDiagnosticService evaluates; the health of each is a parameter, as is the
--   incident service. Diagnostics/Coordinator: EvaluationCoordinator, one call under its lock at a
--   time; Coordinator/Estate: what the correlator sees (its lemmas in Snapshots);
--   Coordinator/Incremental: what one request leaves as it is.
--
-- Conventions. Python integers that are never negative here are native numbers; instants are
-- microseconds since 1970, but seconds in Session, of a clock of its own in Topology, and in
-- Maintenance/Policy since the least datetime. Texts are native strings, compared as Python compares
-- them. A callback, a clock, datetime.fromisoformat, datetime.isoformat and uuid4 are parameters. Each loop runs over
-- a list, but for the loop over batches, whose fuel is one more than the number of rows: every batch
-- but the last removes rows.
--
-- Not modelled: the HTTP routes, the MQTT client, the SQL beyond the statements named above, the
-- schemas, the reports and their redaction, the reading of network maps, the Home Assistant integration and
-- the user interface. A timestamp without a time zone, which raises a TypeError where the health checks
-- and the lifecycle of incidents subtract it from the clock, is left out: there `parse` stands for
-- texts that have one.
mod Common
pub mod Dashboard
pub mod Health
pub mod Incident
pub mod Rhythm
pub mod Session
pub mod Availability
pub mod Topology
pub mod Mqtt
pub mod Maintenance
pub mod Diagnostics
