-- ===== src/Diagnostics/Service.antt =====
-- The part of `HealthDiagnosticService` of diagnostics/service.py that says which networks are
-- evaluated. How the health of one network comes about, from the rows of its devices, is a parameter.
-- The networks are those of the table while a request is evaluated.
use zigbeelens.Common.{
  ℕ, String, Bool, Option, none, some, List, [], ◌∷◌, elem, str_leb, if◌then◌else◌,
}
use zigbeelens.Common.Order.{sort_with}

-- `NetworkEvaluationSnapshot`, with whatever else it has.
pub record NetworkEvaluationSnapshot (C : Type 0) : Type 0 where
  pub network_id : String
  pub health_changed : Bool
  pub content : C

-- `networks`: the ids of the table, as `list_networks` gives them. `assess`: the rest of
-- `_build_network_snapshot`. `reassess`: the rest of `evaluate_device_from_snapshot`, `none` where it
-- asks for the whole network. `sync_incidents`: `IncidentService.correlate_and_sync`.
pub record Services (C : Type 0) : Type 0 where
  pub networks : List String
  pub assess : String → ℕ → Bool × C
  pub reassess : NetworkEvaluationSnapshot C → String → ℕ → Option (Bool × C)
  pub sync_incidents : List (NetworkEvaluationSnapshot C) → ℕ → List String

module _ {C : Type 0} (services : Services C) (now : ℕ) where
  -- `_build_network_snapshot`
  unfoldable pub build_network_snapshot : String → Option (NetworkEvaluationSnapshot C)
  build_network_snapshot id =
      if elem id services.networks
      then some (record {
        network_id = id;
        health_changed = (services.assess id now).0;
        content = (services.assess id now).1;
      })
      else none

  -- `evaluate_network`
  unfoldable pub evaluate_network : String → Option (NetworkEvaluationSnapshot C)
  evaluate_network id = build_network_snapshot id

  -- `evaluate_device_from_snapshot`
  unfoldable pub evaluate_device_from_snapshot :
      NetworkEvaluationSnapshot C → String → Option (NetworkEvaluationSnapshot C)
  evaluate_device_from_snapshot snapshot ieee =
      if elem snapshot.network_id services.networks
      then elim (services.reassess snapshot ieee now) [
        | none ↦ none
        | some updated ↦ some (record {
          network_id = snapshot.network_id;
          health_changed = updated.0;
          content = updated.1;
        })
      ]
      else none

  -- The comprehension of `evaluate_all`.
  unfoldable pub build_snapshots : List String → List (NetworkEvaluationSnapshot C)
  unfolding build_network_snapshot
  build_snapshots [] = []
  build_snapshots (id ∷ ids) =
      let rest = build_snapshots ids in
      elim (build_network_snapshot id) [ none ↦ rest | some snapshot ↦ snapshot ∷ rest ]

  -- `evaluate_all`
  unfoldable pub evaluate_all : List (NetworkEvaluationSnapshot C)
  evaluate_all =
      sort_with (λ a b. str_leb a.network_id b.network_id) (build_snapshots services.networks)
