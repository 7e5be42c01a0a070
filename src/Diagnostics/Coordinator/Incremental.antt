-- ===== src/Diagnostics/Coordinator/Incremental.antt =====
-- A request for one network or device evaluates that network alone.
use zigbeelens.Common.{
  ℕ, String, ◌≡◌, refl, sym, ap, ◌∙◌, true, false, Option, some, List, [], ◌∷◌, map, elem, sorted,
  str_eq, eq_iff, eq_refl, elem-sorted, arith, Bool-cases, inl, inr,
}
use zigbeelens.Diagnostics.Service.{NetworkEvaluationSnapshot, Services, evaluate_network}
use zigbeelens.Diagnostics.Coordinator.{
  includes, Evaluation, Request, get_snapshot, put_snapshot, ordered_snapshots, universe_matches,
  collect, complete_snapshots, finish_evaluation, refresh_one, evaluate_one, refreshed_device,
  evaluate_request,
}
use zigbeelens.Diagnostics.Coordinator.Snapshots.{IsFiled, includes_keys, collect-some}
use zigbeelens.Diagnostics.Coordinator.Estate.{evaluate_network-Answers, device-Answers}

includes-elem :
    (ids : List String) (id : String) (keys : List String)
    → elem id ids ≡ true
    → includes keys ids ≡ true
    → elem id keys ≡ true
includes-elem [] id keys h hs = absurd (cc h)
includes-elem (x ∷ ids) id keys h hs = elim (Bool-cases (str_eq x id)) [
  | inl same ↦ let eq = (eq_iff x id).0 same in ap (λ y. elem y keys) (sym eq) ∙ ground (arith, hs)
  | inr other ↦ includes-elem ids id keys (ground (arith, other, h)) (ground (arith, hs))
]

module _ {C : Type 0} where
  keys-put_snapshot :
      (id : String) (s : NetworkEvaluationSnapshot C)
      (dict : List (String × NetworkEvaluationSnapshot C))
      → elem id (map {A = String × NetworkEvaluationSnapshot C} (λ e. e.0) dict) ≡ true
      → map {A = String × NetworkEvaluationSnapshot C} (λ e. e.0) (put_snapshot id s dict)
        ≡ map (λ e. e.0) dict
  keys-put_snapshot id s [] h = absurd (cc h)
  keys-put_snapshot id s ((k, v) ∷ rest) h = elim (Bool-cases (str_eq k id)) [
    | inl same ↦ rw same refl
    | inr other ↦
        let later = keys-put_snapshot id s rest (ground (arith, other, h)) in
        rw other (ap (λ l. k ∷ l) later)
  ]

  get_snapshot-put_snapshot :
      (k id : String) (s : NetworkEvaluationSnapshot C)
      (dict : List (String × NetworkEvaluationSnapshot C))
      → str_eq id k ≡ false
      → get_snapshot k (put_snapshot id s dict) ≡ get_snapshot k dict
  get_snapshot-put_snapshot k id s [] h = rw h refl
  get_snapshot-put_snapshot k id s ((j, v) ∷ rest) h =
      let later = get_snapshot-put_snapshot k id s rest h in
      elim (Bool-cases (str_eq j id)) [
        | inl same ↦
            let eq = (eq_iff j id).0 same in
            let apart : str_eq j k ≡ false = ap (λ x. str_eq x k) eq ∙ h in rw same (rw apart refl)
        | inr other ↦ rw other (rw later refl)
      ]

  get_snapshot-put_self :
      (id : String) (s : NetworkEvaluationSnapshot C)
      (dict : List (String × NetworkEvaluationSnapshot C))
      → get_snapshot id (put_snapshot id s dict) ≡ some s
  get_snapshot-put_self id s [] = rw (eq_refl id) refl
  get_snapshot-put_self id s ((j, v) ∷ rest) = elim (Bool-cases (str_eq j id)) [
    | inl same ↦ rw same (rw same refl)
    | inr other ↦ rw other (rw other (get_snapshot-put_self id s rest))
  ]

  -- A dictionary that has just the networks keeps them when a snapshot of one is replaced.
  universe_matches-put_snapshot :
      (ids : List String) (id : String) (s : NetworkEvaluationSnapshot C)
      (dict : List (String × NetworkEvaluationSnapshot C))
      → elem id ids ≡ true
      → universe_matches ids dict ≡ true
      → universe_matches ids (put_snapshot id s dict) ≡ true
  unfolding universe_matches
  universe_matches-put_snapshot ids id s dict known h =
      let held = includes-elem ids id (map (λ e. e.0) dict) known (includes_keys ids dict h) in
      rw (keys-put_snapshot id s dict held) h

module _ {C : Type 0} (services : Services C) (now : ℕ) where
  -- Only the network `id` was evaluated: its new snapshot `s` has replaced the old one, that of the
  -- network `k` is as before, and the correlator was given the snapshots that are kept.
  unfoldable pub Refreshes :
      String
      → String
      → Option (NetworkEvaluationSnapshot C)
      → List (String × NetworkEvaluationSnapshot C)
      → Option (Evaluation C)
      → Type 0
  Refreshes id k fresh dict e =
      (o : Evaluation C) × (e ≡ some o)
      × (o.result.network_ids ≡ id ∷ [])
      × ((s : NetworkEvaluationSnapshot C) × (fresh ≡ some s)
          × (get_snapshot id o.snapshots ≡ some s))
      × (get_snapshot k o.snapshots ≡ get_snapshot k dict)
      × ((ss : List (NetworkEvaluationSnapshot C)) × (collect (sorted services.networks) o.snapshots
            ≡ some ss)
          × (o.result.correlated ≡ some (ordered_snapshots ss)))

  one-Refreshes :
      (dict : List (String × NetworkEvaluationSnapshot C)) (id k : String)
      (s : NetworkEvaluationSnapshot C)
      → elem id services.networks ≡ true
      → universe_matches (sorted services.networks) dict ≡ true
      → str_eq id k ≡ false
      → Refreshes id k (some s) dict (evaluate_one services now dict id (some s))
  unfolding evaluate_one refresh_one complete_snapshots finish_evaluation Refreshes
  one-Refreshes dict id k s known just apart =
      let ids = sorted services.networks in
      let updated = put_snapshot id s dict in
      let known' : elem id ids ≡ true = elem-sorted id services.networks ∙ known in
      let just' = universe_matches-put_snapshot ids id s dict known' just in
      let whole = collect-some ids updated (includes_keys ids updated just') in
      let o = finish_evaluation services now updated whole.0 (id ∷ []) s.health_changed in
      (
        o,
        rw (known', just, evaluate_one)
            (rw (just', refresh_one, complete_snapshots) (rw whole.1 refl)),
        refl,
        (s, refl, get_snapshot-put_self id s dict),
        get_snapshot-put_snapshot k id s dict apart,
        (whole.0, whole.1, refl),
      )

  -- Where the dictionary has just the networks of the table, a request for one of them, or for a device
  -- of it, evaluates this network alone: its new snapshot is kept, that of every other network is
  -- the one from before, and the correlator is given the snapshots that are kept, in order. The
  -- snapshots were filed under their networks before.
  pub evaluate_request-Refreshes :
      (dict : List (String × NetworkEvaluationSnapshot C)) (id ieee k : String)
      → IsFiled dict
      → elem id services.networks ≡ true
      → universe_matches (sorted services.networks) dict ≡ true
      → str_eq id k ≡ false
      → Refreshes id k
          (evaluate_network services now id)
          dict
          (evaluate_request services now dict (Request.network id))
        × Refreshes id k
            (refreshed_device services now dict id ieee)
            dict
            (evaluate_request services now dict (Request.device id ieee))
  unfolding evaluate_request
  evaluate_request-Refreshes dict id ieee k filed known just apart =
      let whole = evaluate_network-Answers services now id known in
      let part = device-Answers services now dict id ieee filed known in
      (
        rw whole.1 (one-Refreshes dict id k whole.0 known just apart),
        rw part.1 (one-Refreshes dict id k part.0 known just apart),
      )
