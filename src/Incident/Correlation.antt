-- ===== src/Incident/Correlation.antt =====
-- `correlate` of diagnostics/incidents/correlator.py, and an evaluation: correlation followed by the
-- synchronisation of the incidents (`correlate_and_sync` of diagnostics/incidents/service.py).
mod Examples
use Prim.Native.String.{◌++◌ as str_append, len}
use text.Mathlib.TextPositions.{len-append}
use zigbeelens.Common.{
  ℕ, String, ◌≡◌, ◌≢◌, refl, sym, ap, subst, Bool, true, false, ◌||◌, not, Option, some, List, [],
  ◌∷◌, ◌++◌, map, arith, elem, filter, str_eq, eq_refl, All, Some, Some-map, inl, inr, ◌⊎◌,
  if◌then◌else◌,
}
use zigbeelens.Incident.Types.{
  IncidentType, Severity, Confidence, Scope, Candidate, Tables, EventName,
}
use zigbeelens.Incident.Store.Rows.{HasUniqueIds}
use zigbeelens.Incident.Lifecycle.{Env, active_keys, sync}
use zigbeelens.Incident.Lifecycle.Coverage.{OpenFor, sync-OpenFor}
use zigbeelens.Incident.Identity.{Draft, Texts, candidate_of, incident_identity_key}
use zigbeelens.Incident.Priority.{apply_priority}
use zigbeelens.Incident.Priority.Suppression.{IsApart, apply_priority-IsApart}
use zigbeelens.Incident.Priority.Fates.{Fate, apply_priority-Fate}
use zigbeelens.Incident.Rules.{
  NetworkContext, Thresholds, concat_map, bridge_offline_rules, multi_network_rules,
  network_unavailability_rules, router_risk_rules, cluster_rules, unknown_rules, has_offline_bridge,
  bridge_offline_rule, is_stale_state,
}

-- The rules for one network, after those for all.
unfoldable pub network_rules : (ℕ → ℕ → ℕ) → Thresholds → NetworkContext → List Draft
network_rules percent cfg ctx =
    network_unavailability_rules percent cfg ctx
    ++ (router_risk_rules ctx ++ (cluster_rules cfg ctx ++ unknown_rules ctx))

-- `raw`
unfoldable pub raw_candidates : (ℕ → ℕ → ℕ) → Thresholds → List NetworkContext → List Draft
unfolding network_rules
raw_candidates percent cfg contexts =
    bridge_offline_rules contexts
    ++ (multi_network_rules cfg contexts ++ concat_map (network_rules percent cfg) contexts)

-- `correlate`
unfoldable pub correlate : (ℕ → ℕ → ℕ) → Thresholds → List NetworkContext → List Draft
unfolding raw_candidates
correlate percent cfg contexts = apply_priority (raw_candidates percent cfg contexts)

-- `correlate_and_sync`
unfoldable pub correlate_and_sync :
    (ℕ → ℕ → ℕ)
    → Thresholds
    → (Draft → Texts)
    → Env
    → List NetworkContext
    → ℕ
    → Tables
    → ℕ
    → Tables × Option (List EventName)
unfolding correlate
correlate_and_sync percent cfg word env contexts now t used =
    sync env (map (candidate_of word) (correlate percent cfg contexts)) now t used

-- The rule for the bridge applies to a network.
abbrev pub has_bridge_trouble : NetworkContext → Bool
has_bridge_trouble ctx = has_offline_bridge ctx || is_stale_state ctx.bridge_health_state

abbrev pub bridge_key : String → String
bridge_key network_id = str_append "bridge_offline" (str_append ":" network_id)

-- What the rule finds.
abbrev bridge_draft : NetworkContext → Draft
bridge_draft ctx = record {
  incident_type = IncidentType.bridge_offline;
  severity = if has_offline_bridge ctx then Severity.critical else Severity.watch;
  scope = Scope.network;
  confidence = if has_offline_bridge ctx then Confidence.high else Confidence.medium;
  affected_devices = [];
  network_ids = ctx.network_id ∷ [];
}

bridge_offline_rule-draft :
    (ctx : NetworkContext)
    → has_bridge_trouble ctx ≡ true
    → bridge_offline_rule ctx ≡ bridge_draft ctx ∷ []
unfolding bridge_offline_rule
bridge_offline_rule-draft ctx h = ground (arith, h)

key-bridge_draft :
    (ctx : NetworkContext) → incident_identity_key (bridge_draft ctx) ≡ bridge_key ctx.network_id
unfolding incident_identity_key
key-bridge_draft ctx = refl

Some-append_left : (P : Draft → Type 0) (xs ys : List Draft) → Some P xs → Some P (xs ++ ys)
Some-append_left P [] ys h = absurd h
Some-append_left P (x ∷ xs) ys (inl h) = inl h
Some-append_left P (x ∷ xs) ys (inr h) = inr (Some-append_left P xs ys h)

Some-append_right : (P : Draft → Type 0) (xs ys : List Draft) → Some P ys → Some P (xs ++ ys)
Some-append_right P [] ys h = h
Some-append_right P (x ∷ xs) ys h = inr (Some-append_right P xs ys h)

Some-concat_map :
    (f : NetworkContext → List Draft) (P : Draft → Type 0) (ctx : NetworkContext)
    (cs : List NetworkContext)
    → Some (λ c. c ≡ ctx) cs
    → Some P (f ctx)
    → Some P (concat_map f cs)
Some-concat_map f P ctx [] m h = absurd m
Some-concat_map f P ctx (c ∷ cs) (inl e) h =
    Some-append_left P (f c) (concat_map f cs) (subst (λ x. Some P (f x)) (sym e) h)
Some-concat_map f P ctx (c ∷ cs) (inr m) h =
    Some-append_right P (f c) (concat_map f cs) (Some-concat_map f P ctx cs m h)

All-Some :
    (P : Draft → Type 0) (d : Draft) (ds : List Draft) → All P ds → Some (λ e. e ≡ d) ds → P d
All-Some P d [] a m = absurd m
All-Some P d (e ∷ ds) a (inl h) = subst P h a.0
All-Some P d (e ∷ ds) a (inr h) = All-Some P d ds a.1 h

-- The candidate for a bridge in trouble is never passed over.
Fate-bridge :
    (all out : List Draft) (ctx : NetworkContext)
    → Fate all out (bridge_draft ctx)
    → Some (λ e. e ≡ bridge_draft ctx) out
Fate-bridge all out ctx (Fate.selected h) = h
Fate-bridge all out ctx (Fate.silenced h) = absurd (cc (h.0))
Fate-bridge all out ctx (Fate.explained h) = absurd (cc (h.1))

correlate-bridge :
    (percent : ℕ → ℕ → ℕ) (cfg : Thresholds) (contexts : List NetworkContext) (ctx : NetworkContext)
    → Some (λ c. c ≡ ctx) contexts
    → has_bridge_trouble ctx ≡ true
    → Some (λ e. e ≡ bridge_draft ctx) (correlate percent cfg contexts)
unfolding correlate bridge_offline_rules
correlate-bridge percent cfg contexts ctx m h =
    let raw = raw_candidates percent cfg contexts in
    let d = bridge_draft ctx in
    let P : Draft → Type 0 = λ e. e ≡ d in
    let own : Some P (bridge_offline_rule ctx) =
      subst (Some P) (sym (bridge_offline_rule-draft ctx h)) (inl refl) in
    let found : Some P raw =
      Some-append_left P (bridge_offline_rules contexts)
        (multi_network_rules cfg contexts ++ concat_map (network_rules percent cfg) contexts)
        (Some-concat_map bridge_offline_rule P ctx contexts m own) in
    Fate-bridge raw (apply_priority raw) ctx
      (All-Some (Fate raw (apply_priority raw)) d raw (apply_priority-Fate raw) found)

elem-active_keys :
    (word : Draft → Texts) (d : Draft) (ds : List Draft)
    → Some (λ e. e ≡ d) ds
    → elem (incident_identity_key d) (active_keys (map (candidate_of word) ds)) ≡ true
unfolding active_keys candidate_of
elem-active_keys word d [] h = absurd h
elem-active_keys word d (e ∷ ds) (inl h) = rw h (ground (arith, eq_refl (incident_identity_key d)))
elem-active_keys word d (e ∷ ds) (inr h) = ground (arith, elem-active_keys word d ds h)

bridge_key-ne-nil : (id : String) → bridge_key id ≢ ""
bridge_key-ne-nil id h =
    let e : len (bridge_key id) ≡ 0 = ap len h in
    let f : len "bridge_offline" ≡ 14 = refl in
    absurd (omega (arith, len-append "bridge_offline" (str_append ":" id), e, f))

-- After an evaluation that returned event names, every network whose bridge is offline or stale has an
-- open incident with its key, whatever else was found. The ids of the incidents were unique before.
pub evaluate-OpenFor :
    (percent : ℕ → ℕ → ℕ) (cfg : Thresholds) (word : Draft → Texts) (env : Env)
    (contexts : List NetworkContext) (now : ℕ) (t t' : Tables) (used : ℕ) (names : List EventName)
    (ctx : NetworkContext)
    → correlate_and_sync percent cfg word env contexts now t used ≡ (t', some names)
    → HasUniqueIds t.incidents
    → Some (λ c. c ≡ ctx) contexts
    → has_bridge_trouble ctx ≡ true
    → OpenFor (bridge_key ctx.network_id) t'.incidents
unfolding correlate_and_sync
evaluate-OpenFor percent cfg word env contexts now t t' used names ctx h n m b =
    let ds = correlate percent cfg contexts in
    let d = bridge_draft ctx in
    let k = key-bridge_draft ctx in
    let e = elem-active_keys word d ds (correlate-bridge percent cfg contexts ctx m b) in
    sync-OpenFor env (map (candidate_of word) ds) now t t' used names h n
      (bridge_key ctx.network_id)
      (subst (λ x. elem x (active_keys (map (candidate_of word) ds)) ≡ true) k e)
      (bridge_key-ne-nil ctx.network_id)

-- In the result of a correlation, a candidate for a bridge in trouble shares no network with another
-- candidate, unless this one is for a bridge or across networks; and of the candidates that the rules
-- found, each is selected, silenced by a bridge in trouble on one of its networks, or explained: it has
-- devices, and all of them are devices of selected candidates for unavailability.
pub correlate-Fate :
    (percent : ℕ → ℕ → ℕ) (cfg : Thresholds) (contexts : List NetworkContext)
    → IsApart (correlate percent cfg contexts)
      × All
          (Fate (raw_candidates percent cfg contexts) (correlate percent cfg contexts))
          (raw_candidates percent cfg contexts)
unfolding correlate
correlate-Fate percent cfg contexts =
    let raw = raw_candidates percent cfg contexts in
    (apply_priority-IsApart raw, apply_priority-Fate raw)
