-- ===== src/Controller/Orderly.antt =====
-- reconciler.go: a whole reconciliation calls in order.
use ruleraven.Common.{
  inl, inr, ◌≡◌, refl, ◌∙◌, true, not, ◌&&◌, Option, none, some, is_some, Bool-cases, Option-cases,
}
use ruleraven.Common.Int.{Duration, pos, Time}
use ruleraven.Domain.{Incident, Snapshot}
use ruleraven.Rules.{Result}
use ruleraven.Provider.Float.{Float64}
use ruleraven.Kube.{ResourceKey, is_valid}
use ruleraven.Controller.{event_requeue, is_recovery, is_resolved}
use ruleraven.Controller.Types.{
  bad_key, Found, found, no_incident, get_failed, Resolved, resolved, no_resource, resolve_failed,
  Normalized, normalized, normalize_failed, Encoding, Reconciler,
}
use ruleraven.Controller.Reconcile.{
  Reconciled, not_reconciled, same_content, was_resolved, is_no_match, deletion_result, settled,
  persisting, concluded, with_settled, with_previous, with_normalized, delete_hashed, delete_found,
  resolve_deletion, with_object, observed, reconcile,
}
use ruleraven.Controller.Monitor.{Phase, idle, IsMonitor}
use ruleraven.Controller.Protocol.{persist-phase}

module _ {S O E : Type 0} (fl : Float64) (enc : Encoding) (r : Reconciler S O E fl)
    (phase : S → Option Phase) (h : IsMonitor fl r phase) where
  orderly_idle : (s : S) → phase s ≡ some idle → is_some (phase s) ≡ true
  orderly_idle s k = rw k refl

  abbrev Ends : Reconciled E × S → Type 0
  Ends c = is_some (phase c.1) ≡ true

  persisting-Ends :
      (snapshot : Snapshot) (previous : Option Incident) (result : Result) (now : Time)
      (requeue : Duration) (s : S)
      → phase s ≡ some idle
      → Ends (persisting fl enc r snapshot previous result now requeue s)
  persisting-Ends snapshot previous result now requeue s k =
      persist-phase fl enc r phase h snapshot previous result now s k

  concluded-Ends :
      (snapshot : Snapshot) (previous : Option Incident) (result : Result) (now : Time) (s : S)
      → phase s ≡ some idle
      → Ends (concluded fl enc r snapshot previous result now s)
  unfolding concluded
  concluded-Ends snapshot previous result now s k =
      elim (Bool-cases (same_content previous snapshot && not (is_recovery result))) [
        | inl a ↦ rw (a, concluded, k) refl
        | inr a ↦ elim (Bool-cases (is_no_match result.disposition && not (is_some previous))) [
          | inl b ↦ rw (a, b, concluded, k) refl
          | inr b ↦ elim (Bool-cases (was_resolved previous && is_no_match result.disposition)) [
            | inl c ↦ rw (a, b, c, concluded, k) refl
            | inr c ↦
                rw (a, b, c, concluded)
                  (persisting-Ends snapshot previous result now
                    (event_requeue snapshot now result r.event_quiet_period) s k)
          ]
        ]
      ]

  settled-Ends :
      (previous : Option Incident) (result : Result) (now : Time) (s : S) (v : Option Snapshot)
      → phase s ≡ some idle
      → Ends (with_settled fl enc r previous result now s v)
  settled-Ends previous result now s none k = rw k refl
  settled-Ends previous result now s (some v) k = concluded-Ends v previous result now s k

  found-Ends :
      (snapshot : Snapshot) (now : Time) (f : Found E × S)
      → phase f.1 ≡ some idle
      → Ends (with_previous fl enc r snapshot now f)
  found-Ends snapshot now (get_failed e, s) k = rw k refl
  found-Ends snapshot now (no_incident, s) k =
      settled-Ends none _ now _ (settled fl enc r snapshot (r.evaluate snapshot none s).0)
        (h.evaluate snapshot none s ∙ k)
  found-Ends snapshot now (found previous, s) k =
      settled-Ends (some previous) _ now _
        (settled fl enc r snapshot (r.evaluate snapshot (some previous) s).0)
        (h.evaluate snapshot (some previous) s ∙ k)

  normalized-Ends :
      (now : Time) (s : S) (v : Normalized E)
      → phase s ≡ some idle
      → Ends (with_normalized fl enc r now s v)
  normalized-Ends now s (normalize_failed e) k = rw k refl
  normalized-Ends now s (normalized v) k = found-Ends v now _ (h.get_incident _ _ s ∙ k)

  hashed-Ends :
      (previous : Incident) (now : Time) (s : S) (v : Option Snapshot)
      → phase s ≡ some idle
      → Ends (delete_hashed fl enc r previous now s v)
  hashed-Ends previous now s none k = rw k refl
  hashed-Ends previous now s (some v) k =
      persisting-Ends v (some previous) deletion_result now (pos 0) s k

  deleted-Ends :
      (key : ResourceKey) (f : Found E × S)
      → phase f.1 ≡ some idle
      → Ends (delete_found fl enc r key f)
  deleted-Ends key (no_incident, s) k = rw k refl
  deleted-Ends key (get_failed e, s) k = rw k refl
  deleted-Ends key (found previous, s) k = elim (Bool-cases (is_resolved previous.status)) [
    | inl e ↦ rw (e, k) refl
    | inr e ↦ rw e (hashed-Ends previous (r.now s).0 (r.now s).1 _ (h.now s ∙ k))
  ]

  object-Ends :
      (key : ResourceKey) (o : Resolved O E × S)
      → phase o.1 ≡ some idle
      → Ends (with_object fl enc r key o)
  unfolding resolve_deletion
  object-Ends key (no_resource, s) k = deleted-Ends key _ (h.get_incident _ _ s ∙ k)
  object-Ends key (resolve_failed e, s) k = rw k refl
  object-Ends key (resolved object, s) k = normalized-Ends (r.now s).0 (r.now s).1 _ (h.now s ∙ k)

  observed-Ends :
      (key : ResourceKey) (c : Reconciled E × S) → Ends c → Ends (observed fl enc r key c)
  observed-Ends key (outcome, s) k = elim (Option-cases r.metrics) [
    | inl e ↦ rw (e, h.log_reconcile key _ s) k
    | inr (m, e) ↦ rw (e, h.log_reconcile key _ _, h.observe_reconcile m _ s e) k
  ]

  -- One reconciliation calls the store and the providers in order, on every path, errors included: at
  -- most one upsert of an incident, then at most one of the snapshot, then at most two requests to
  -- providers, and at most one commit, which is the last of these calls and comes only after the
  -- snapshot's. What it commits fits together: the version of that incident, an evaluation of that
  -- incident and of its new content, and waiting deliveries of that evaluation.
  pub reconcile_orderly :
      (key : ResourceKey) (s : S)
      → phase s ≡ some idle
      → is_some (phase (reconcile fl enc r key s).1) ≡ true
  unfolding reconcile
  reconcile_orderly key s k = elim (Bool-cases (not (is_valid key))) [
    | inl e ↦ rw (e, reconcile) (observed-Ends key (not_reconciled bad_key, s) (rw k refl))
    | inr e ↦
        rw (e, reconcile)
          (observed-Ends key (with_object fl enc r key (r.resolve key s))
            (object-Ends key (r.resolve key s) (h.resolve key s ∙ k)))
  ]
