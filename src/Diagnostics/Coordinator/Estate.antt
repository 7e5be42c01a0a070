-- ===== src/Diagnostics/Coordinator/Estate.antt =====
-- The correlator sees the whole estate.
use zigbeelens.Common.{
  ℕ, String, ◌≡◌, refl, ap, ◌∙◌, Bool, true, false, Option, none, some, List, [], ◌∷◌, map, any,
  elem, sorted, elem-sorted, ◌⊎◌, All, Bool-cases, Option-cases, inl, inr,
}
use zigbeelens.Diagnostics.Service.{
  NetworkEvaluationSnapshot, Services, build_network_snapshot, build_snapshots, evaluate_network,
  evaluate_device_from_snapshot, evaluate_all,
}
use zigbeelens.Diagnostics.Coordinator.{
  Evaluation, Request, get_snapshot, put_snapshot, ordered_snapshots, universe_matches,
  finish_evaluation, unevaluated, evaluate_all_locked, refresh_one, evaluate_one, refreshed_device,
  evaluate_request,
}
use zigbeelens.Diagnostics.Coordinator.Snapshots.{
  sorted_twice, All-elem, ids-ordered_snapshots, ids-sort_with, same_universe, keys-file, IsFiled,
  get_snapshot-IsFiled, put_snapshot-IsFiled, file-IsFiled, complete_cases,
}

module _ {C : Type 0} (services : Services C) (now : ℕ) where
  -- Whether a request is about a network of the table, or about all of them.
  unfoldable pub is_known : Request → Bool
  is_known (Request.network id) = elem id services.networks
  is_known (Request.device id ieee) = elem id services.networks
  is_known Request.all = true

  -- The correlator was given each network of the table once, in the order of the ids, and the
  -- dictionary has just these networks; or the request was about another network, the correlator was
  -- not called and nothing has changed. The snapshots kept are filed under their networks.
  unfoldable pub SeesEstate :
      Bool → List (String × NetworkEvaluationSnapshot C) → Evaluation C → Type 0
  SeesEstate known dict o =
      (((known ≡ true)
          × ((ss : List (NetworkEvaluationSnapshot C)) × (o.result.correlated ≡ some ss)
              × (map (λ s. s.network_id) ss ≡ sorted services.networks))
          × (universe_matches (sorted services.networks) o.snapshots ≡ true))
        ⊎ ((known ≡ false)
            × (o.result.correlated ≡ none)
            × (o.snapshots ≡ dict)
            × (o.result.dashboard_update_required ≡ false)))
      × IsFiled o.snapshots

  -- The request ends without a KeyError.
  abbrev Ends : Bool → List (String × NetworkEvaluationSnapshot C) → Option (Evaluation C) → Type 0
  Ends known dict e = (o : Evaluation C) × (e ≡ some o) × SeesEstate known dict o

  pub evaluate_network-Answers :
      (id : String)
      → elem id services.networks ≡ true
      → (s : NetworkEvaluationSnapshot C) × (evaluate_network services now id ≡ some s)
        × (s.network_id ≡ id)
  unfolding evaluate_network build_network_snapshot
  evaluate_network-Answers id h =
      rw (h, build_network_snapshot)
        (
          record {
            network_id = id;
            health_changed = (services.assess id now).0;
            content = (services.assess id now).1;
          },
          refl,
          refl,
        )

  build_snapshots-next :
      (id : String) (ids : List String) (s : NetworkEvaluationSnapshot C)
      → build_network_snapshot services now id ≡ some s
      → build_snapshots services now (id ∷ ids) ≡ s ∷ build_snapshots services now ids
  unfolding build_snapshots
  build_snapshots-next id ids s e = rw (e, build_snapshots) refl

  ids-build_snapshots :
      (ids : List String)
      → All (λ id. elem id services.networks ≡ true) ids
      → map (λ s. s.network_id) (build_snapshots services now ids) ≡ ids
  unfolding build_snapshots evaluate_network
  ids-build_snapshots [] h = refl
  ids-build_snapshots (id ∷ ids) h =
      let rest = ids-build_snapshots ids h.1 in
      let built = evaluate_network-Answers id h.0 in
      ap (map (λ s. s.network_id)) (build_snapshots-next id ids built.0 built.1)
      ∙ cc (built.2, rest)

  ids-evaluate_all :
      map (λ s. s.network_id) (ordered_snapshots (evaluate_all services now))
      ≡ sorted services.networks
  unfolding evaluate_all
  ids-evaluate_all =
      let known = All-elem services.networks in
      ids-ordered_snapshots (evaluate_all services now)
      ∙ ap sorted (ids-sort_with (build_snapshots services now services.networks))
      ∙ ap (λ l. sorted (sorted l)) (ids-build_snapshots services.networks known)
      ∙ sorted_twice services.networks

  finish_evaluation-SeesEstate :
      (before dict : List (String × NetworkEvaluationSnapshot C))
      (snapshots : List (NetworkEvaluationSnapshot C)) (ids : List String) (changed : Bool)
      → map (λ s. s.network_id) snapshots ≡ sorted services.networks
      → universe_matches (sorted services.networks) dict ≡ true
      → IsFiled dict
      → SeesEstate true before (finish_evaluation services now dict snapshots ids changed)
  unfolding finish_evaluation SeesEstate
  finish_evaluation-SeesEstate before dict snapshots ids changed whole just filed =
      let ordered =
        ids-ordered_snapshots snapshots ∙ ap sorted whole ∙ sorted_twice services.networks in
      (inl (refl, (ordered_snapshots snapshots, refl, ordered), just), filed)

  unevaluated-SeesEstate :
      (dict : List (String × NetworkEvaluationSnapshot C))
      → IsFiled dict
      → SeesEstate false dict (unevaluated services now dict)
  unfolding unevaluated SeesEstate
  unevaluated-SeesEstate dict filed = (inr (refl, refl, refl, refl), filed)

  all-SeesEstate :
      (before : List (String × NetworkEvaluationSnapshot C))
      → SeesEstate true before (evaluate_all_locked services now)
  unfolding evaluate_all_locked
  all-SeesEstate before =
      let snapshots = ordered_snapshots (evaluate_all services now) in
      let dict = map (λ s. (s.network_id, s)) snapshots in
      finish_evaluation-SeesEstate before dict snapshots (map (λ s. s.network_id) snapshots)
        (any (λ s. s.health_changed) snapshots) ids-evaluate_all
        (same_universe (sorted services.networks) dict (keys-file snapshots ∙ ids-evaluate_all))
        (file-IsFiled snapshots)

  refresh-Ends :
      (dict : List (String × NetworkEvaluationSnapshot C)) (id : String)
      (s : NetworkEvaluationSnapshot C)
      → IsFiled dict
      → s.network_id ≡ id
      → Ends true dict (refresh_one services now dict id (some s))
  unfolding refresh_one
  refresh-Ends dict id s filed answers =
      let updated = put_snapshot id s dict in
      let filed' = put_snapshot-IsFiled id s dict answers filed in
      elim (complete_cases (sorted services.networks) updated filed') [
        | inr incomplete ↦ (
          evaluate_all_locked services now,
          rw (incomplete, refresh_one) refl,
          all-SeesEstate dict,
        )
        | inl whole ↦ (
          finish_evaluation services now updated whole.0 (id ∷ []) s.health_changed,
          rw (whole.1, refresh_one) refl,
          finish_evaluation-SeesEstate dict updated whole.0 (id ∷ []) s.health_changed whole.2
              whole.3 filed',
        )
      ]

  one-Ends :
      (dict : List (String × NetworkEvaluationSnapshot C)) (id : String)
      (refreshed : Option (NetworkEvaluationSnapshot C))
      → IsFiled dict
      → (elem id services.networks ≡ true
          → (s : NetworkEvaluationSnapshot C) × (refreshed ≡ some s) × (s.network_id ≡ id))
      → Ends (elem id services.networks) dict (evaluate_one services now dict id refreshed)
  unfolding evaluate_one
  one-Ends dict id refreshed filed answers =
      let same = elem-sorted id services.networks in
      elim (Bool-cases (elem id services.networks)) [
        | inr unknown ↦
            rw (same, unknown, evaluate_one)
              (unevaluated services now dict, refl, unevaluated-SeesEstate dict filed)
        | inl known ↦ elim (Bool-cases (universe_matches (sorted services.networks) dict)) [
          | inr stale ↦
              rw (same, known, stale, evaluate_one)
                (evaluate_all_locked services now, refl, all-SeesEstate dict)
          | inl fresh ↦
              let answer = answers known in
              rw (same, known, fresh, answer.1, evaluate_one)
                (refresh-Ends dict id answer.0 filed answer.2)
        ]
      ]

  pub device-Answers :
      (dict : List (String × NetworkEvaluationSnapshot C)) (id ieee : String)
      → IsFiled dict
      → elem id services.networks ≡ true
      → (s : NetworkEvaluationSnapshot C) × (refreshed_device services now dict id ieee ≡ some s)
        × (s.network_id ≡ id)
  unfolding refreshed_device evaluate_device_from_snapshot
  device-Answers dict id ieee filed known =
      let whole = evaluate_network-Answers id known in
      elim (Option-cases (get_snapshot id dict)) [
        | inl missing ↦ rw (missing, refreshed_device) whole
        | inr (cached, found) ↦
            let own = get_snapshot-IsFiled id dict filed cached found in
            let held : elem cached.network_id services.networks ≡ true =
              ap (λ x. elem x services.networks) own ∙ known in
            elim (Option-cases (services.reassess cached ieee now)) [
              | inl missed ↦
                  rw (found, refreshed_device)
                    (rw (held, evaluate_device_from_snapshot) (rw missed whole))
              | inr (r, answered) ↦
                  let s : NetworkEvaluationSnapshot C = record {
                    network_id = cached.network_id;
                    health_changed = r.0;
                    content = r.1;
                  } in
                  (
                    s,
                    rw (found, refreshed_device)
                        (rw (held, evaluate_device_from_snapshot) (rw answered refl)),
                    own,
                  )
            ]
      ]

  -- A request for one network, one device or all networks ends without a KeyError. Where it is about a
  -- network of the table, or all of them, the correlator is given one snapshot for each network of
  -- the table, in the order of their ids, and the dictionary of snapshots then has just these
  -- networks; otherwise the correlator is not called and nothing changes. Snapshots that were filed
  -- under their networks stay so.
  pub evaluate_request-SeesEstate :
      (dict : List (String × NetworkEvaluationSnapshot C)) (r : Request)
      → IsFiled dict
      → (o : Evaluation C) × (evaluate_request services now dict r ≡ some o)
        × SeesEstate (is_known r) dict o
  unfolding evaluate_request is_known
  evaluate_request-SeesEstate dict (Request.network id) filed =
      one-Ends dict id (evaluate_network services now id) filed (evaluate_network-Answers id)
  evaluate_request-SeesEstate dict (Request.device id ieee) filed =
      one-Ends dict id (refreshed_device services now dict id ieee) filed
        (device-Answers dict id ieee filed)
  evaluate_request-SeesEstate dict Request.all filed =
      (evaluate_all_locked services now, refl, all-SeesEstate dict)
