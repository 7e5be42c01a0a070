-- ===== src/Diagnostics/Coordinator.antt =====
-- `EvaluationCoordinator` of diagnostics/coordinator.py. The result of a request is `none` where the
-- code raises a KeyError.
pub mod Snapshots
pub mod Estate
pub mod Incremental
use zigbeelens.Common.{
  ℕ, String, Bool, true, false, not, ◌&&◌, ◌||◌, Option, none, some, List, [], ◌∷◌, map, any, elem,
  sorted, str_eq, str_leb, is_empty, if◌then◌else◌,
}
use zigbeelens.Common.Order.{sort_with}
use zigbeelens.Diagnostics.Service.{
  NetworkEvaluationSnapshot, Services, evaluate_network, evaluate_device_from_snapshot,
  evaluate_all,
}

-- `EvaluationResult`, with the snapshots that went to the correlator, if it was called.
pub record EvaluationResult (C : Type 0) : Type 0 where
  pub evaluated_at : ℕ
  pub network_ids : List String
  pub health_changed : Bool
  pub incident_events : List String
  pub dashboard_update_required : Bool
  pub correlated : Option (List (NetworkEvaluationSnapshot C))

-- `_snapshots_by_network` and the result.
pub record Evaluation (C : Type 0) : Type 0 where
  pub snapshots : List (String × NetworkEvaluationSnapshot C)
  pub result : EvaluationResult C

pub data Request : Type 0 where
  network : String → Request
  device : String → String → Request
  all : Request

abbrev pub includes : List String → List String → Bool
includes xs [] = true
includes xs (y ∷ ys) = elem y xs && includes xs ys

module _ {C : Type 0} where
  abbrev pub get_snapshot :
      String → List (String × NetworkEvaluationSnapshot C) → Option (NetworkEvaluationSnapshot C)
  get_snapshot id [] = none
  get_snapshot id ((k, s) ∷ rest) = if str_eq k id then some s else get_snapshot id rest

  abbrev pub put_snapshot :
      String
      → NetworkEvaluationSnapshot C
      → List (String × NetworkEvaluationSnapshot C)
      → List (String × NetworkEvaluationSnapshot C)
  put_snapshot id s [] = (id, s) ∷ []
  put_snapshot id s ((k, v) ∷ rest) =
      if str_eq k id then (k, s) ∷ rest else (k, v) ∷ put_snapshot id s rest

  -- `_ordered_snapshots`
  unfoldable pub ordered_snapshots :
      List (NetworkEvaluationSnapshot C) → List (NetworkEvaluationSnapshot C)
  ordered_snapshots = sort_with (λ a b. str_leb a.network_id b.network_id)

  -- `_snapshot_universe_matches`
  unfoldable pub universe_matches : List String → List (String × NetworkEvaluationSnapshot C) → Bool
  universe_matches ids dict =
      let keys = map (λ e. e.0) dict in includes keys ids && includes ids keys

  -- `[self._snapshots_by_network[network_id] for network_id in configured_ids]`; `none` is a KeyError.
  unfoldable pub collect :
      List String
      → List (String × NetworkEvaluationSnapshot C)
      → Option (List (NetworkEvaluationSnapshot C))
  collect [] dict = some []
  collect (id ∷ ids) dict =
      let rest = collect ids dict in
      elim (get_snapshot id dict) [
        | none ↦ none
        | some s ↦ elim rest [ none ↦ none | some ss ↦ some (s ∷ ss) ]
      ]

  -- `_complete_snapshots`; the outer `none` is a KeyError.
  unfoldable pub complete_snapshots :
      List String
      → List (String × NetworkEvaluationSnapshot C)
      → Option (Option (List (NetworkEvaluationSnapshot C)))
  unfolding universe_matches collect
  complete_snapshots ids dict =
      if universe_matches ids dict
      then elim (collect ids dict) [ none ↦ none | some ss ↦ some (some ss) ]
      else some none

module _ {C : Type 0} (services : Services C) (now : ℕ) where
  -- `_finish`
  unfoldable pub finish_evaluation :
      List (String × NetworkEvaluationSnapshot C)
      → List (NetworkEvaluationSnapshot C)
      → List String
      → Bool
      → Evaluation C
  unfolding ordered_snapshots
  finish_evaluation dict snapshots ids health_changed =
      let given = ordered_snapshots snapshots in
      let events = services.sync_incidents given now in
      record {
        snapshots = dict;
        result = record {
          evaluated_at = now;
          network_ids = ids;
          health_changed = health_changed;
          incident_events = events;
          dashboard_update_required = health_changed || not (is_empty events);
          correlated = some given;
        };
      }

  -- The result when nothing was evaluated.
  unfoldable pub unevaluated : List (String × NetworkEvaluationSnapshot C) → Evaluation C
  unevaluated dict = record {
    snapshots = dict;
    result = record {
      evaluated_at = now;
      network_ids = [];
      health_changed = false;
      incident_events = [];
      dashboard_update_required = false;
      correlated = none;
    };
  }

  -- `_evaluate_all_locked`
  unfoldable pub evaluate_all_locked : Evaluation C
  unfolding finish_evaluation ordered_snapshots
  evaluate_all_locked =
      let snapshots = ordered_snapshots (evaluate_all services now) in
      finish_evaluation (map (λ s. (s.network_id, s)) snapshots) snapshots
        (map (λ s. s.network_id) snapshots) (any (λ s. s.health_changed) snapshots)

  -- What follows once one network has been evaluated, or not.
  unfoldable pub refresh_one :
      List (String × NetworkEvaluationSnapshot C)
      → String
      → Option (NetworkEvaluationSnapshot C)
      → Option (Evaluation C)
  unfolding unevaluated complete_snapshots evaluate_all_locked finish_evaluation
  refresh_one dict id none = some (unevaluated dict)
  refresh_one dict id (some refreshed) =
      let updated = put_snapshot id refreshed dict in
      elim (complete_snapshots (sorted services.networks) updated) [
        | none ↦ none
        | some complete ↦ elim complete [
          | none ↦ some evaluate_all_locked
          | some snapshots ↦
              some (finish_evaluation updated snapshots (id ∷ []) refreshed.health_changed)
        ]
      ]

  -- The tests that evaluate_network and evaluate_device share.
  unfoldable pub evaluate_one :
      List (String × NetworkEvaluationSnapshot C)
      → String
      → Option (NetworkEvaluationSnapshot C)
      → Option (Evaluation C)
  unfolding unevaluated universe_matches evaluate_all_locked refresh_one
  evaluate_one dict id refreshed =
      let configured = sorted services.networks in
      if not (elem id configured)
      then some (unevaluated dict)
      else if not (universe_matches configured dict)
      then some evaluate_all_locked
      else refresh_one dict id refreshed

  -- The snapshot of the network after an evaluation of one device of it.
  unfoldable pub refreshed_device :
      List (String × NetworkEvaluationSnapshot C)
      → String
      → String
      → Option (NetworkEvaluationSnapshot C)
  refreshed_device dict id ieee =
      let whole : Option (NetworkEvaluationSnapshot C) = evaluate_network services now id in
      elim (get_snapshot id dict) [
        | none ↦ whole
        | some cached ↦ elim (evaluate_device_from_snapshot services now cached ieee) [
          | none ↦ whole
          | some s ↦ some s
        ]
      ]

  -- `evaluate_network`, `evaluate_device` and `evaluate_all`
  unfoldable pub evaluate_request :
      List (String × NetworkEvaluationSnapshot C) → Request → Option (Evaluation C)
  unfolding evaluate_one refreshed_device evaluate_all_locked
  evaluate_request dict (network id) = evaluate_one dict id (evaluate_network services now id)
  evaluate_request dict (device id ieee) = evaluate_one dict id (refreshed_device dict id ieee)
  evaluate_request dict all = some evaluate_all_locked
