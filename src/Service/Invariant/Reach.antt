-- ===== src/Service/Invariant/Reach.antt =====
-- The service as a whole: its operations as one type, the steps that they make, and what holds of
-- every state that is reached. The operations run one at a time under the service's lock, so each
-- interleaving of the provider's worker, the lifecycle and the clients is a sequence of steps.
use wf_observer.Common.{
  ℕ, String, ◌≡◌, refl, arith, List, [], Bool, true, Option, Fallible, done, failed, All,
}
use wf_observer.Wire.{TopicRef, Subscribe, SubscriptionItem, SubscriptionEnd, ServiceStatus, ok}
use wf_observer.Runtime.{HostStatus}
use wf_observer.Provider
use wf_observer.Service.Catalog
use wf_observer.Service.Inner.{Inner}
use wf_observer.Service.Settle
use wf_observer.Service.Settle.{any_ended}
use wf_observer.Wire
use wf_observer.Service.Sync
use wf_observer.Service.Batch.{Pending}
use wf_observer.Service.Ticket.{PollTicket}
use wf_observer.Service.Commit
use wf_observer.Service.Discard
use wf_observer.Service.Subscription
use wf_observer.Service.View
use wf_observer.Service.View.{GetSnapshot}
use wf_observer.Service.Invariant.Emit.{close-IsValid, close-IsSettled, InnerIsSound-of-valid}
use wf_observer.Service.Invariant.Sync.{sync_runtime-IsValid, sync_runtime-IsSettled}
use wf_observer.Service.Invariant.Stage.{IsPublished}
use wf_observer.Service.Invariant.Poll.{Stands, commit_poll-Stands}
use wf_observer.Service.Invariant.Discard.{discard_poll-Stands}
use wf_observer.Service.Invariant.Subscribe.{
  subscribe-Stands, drop-Stands, next-Stands, expire-Stands,
}

-- A call of one of the service's public methods; `now` is the clock's reading, and a request
-- for a subscription has several.
pub data Call : Type 0 where
  snapshot : GetSnapshot → ℕ → Call
  status : String → ℕ → Call
  subscribe : Subscribe → Subscription.Readings → Call
  next : ℕ → Call
  drop : ℕ → ℕ → Call
  sync_runtime : HostStatus → ℕ → Call
  commit_poll : PollTicket → Pending → ℕ → ℕ → Call
  discard_poll : PollTicket → List TopicRef → Bool → ℕ → Call
  fail_poll : PollTicket → ℕ → Call
  expire : ℕ → Call
  shutdown : Call

-- What holds of the value, if there is one.
abbrev Gives {ℓ κ} : {A : Type ℓ} → (A → Type κ) → Fallible A → Type κ
Gives P (done a) = P a
Gives P (failed m) = Unit

Gives-value {ℓ κ} :
    {A : Type ℓ} (P : A → Type κ) (m : Fallible A) (a : A) → Gives P m → m ≡ done a → P a
Gives-value P m a h e = simp e at h

new-Stands :
    (manifests : List Provider.ProviderManifest) (run_id : String) (message_bytes : ℕ)
    → Gives Stands (View.new manifests run_id message_bytes)
unfolding View.new any_ended
new-Stands manifests run_id message_bytes = by_catalog (Catalog.catalog manifests)
  where
    by_catalog :
        (r : Fallible Wire.Catalog)
        → Gives Stands (elim r [
          | failed m ↦ failed m
          | done catalog ↦ done (View.started catalog run_id message_bytes)
        ])
    by_catalog (failed m) = tt
    by_catalog (done catalog) = record {
      valid = record { sessions = tt; sequence_fits = omega arith };
      settled = record { live = refl; sessions = tt };
    }

module _ (item_size : SubscriptionItem → Option ℕ) (request_size : Subscribe → Option ℕ)
    (status_size : ServiceStatus → Option ℕ) where
  -- The state after a call.
  unfoldable pub run : Call → Inner → Inner
  run (Call.snapshot request now) s = (View.snapshot item_size request now s).0
  run (Call.status version now) s = (View.status item_size status_size version now s).0
  run (Call.subscribe request t) s = (Subscription.subscribe item_size request_size request t s).0
  run (Call.next id) s = (Subscription.next id s).1
  run (Call.drop id now) s = Subscription.drop item_size request_size id now s
  run (Call.sync_runtime host now) s = (Sync.sync_runtime item_size host now s).0
  run (Call.commit_poll ticket pending deadline now) s =
      (Commit.commit_poll item_size ticket pending deadline now s).0
  run (Call.discard_poll ticket resets gone now) s =
      (Discard.discard_poll item_size ticket resets gone now s).0
  run (Call.fail_poll ticket now) s = Discard.fail_poll item_size ticket now s
  run (Call.expire now) s = Settle.expire item_size now s
  run Call.shutdown s = View.shutdown s

  -- What the callers guarantee: a poll's batch holds what a provider can publish, and a lifecycle
  -- status names registered providers, so that it is not refused.
  unfoldable pub MayCall : Call → Inner → Type 0
  MayCall (Call.commit_poll ticket pending deadline now) s = All IsPublished pending.ops
  MayCall (Call.sync_runtime host now) s = (Sync.sync_runtime item_size host now s).1 ≡ ok tt
  MayCall _ s = Unit

  -- The states that a service with these manifests reaches.
  pub data Reaches (manifests : List Provider.ProviderManifest) (run_id : String)
      (message_bytes : ℕ) : Inner → Type 0 where
    starts :
        {s : Inner}
        → View.new manifests run_id message_bytes ≡ done s
        → Reaches manifests run_id message_bytes s
    steps :
        {s : Inner} (c : Call)
        → Reaches manifests run_id message_bytes s
        → MayCall c s
        → Reaches manifests run_id message_bytes (run c s)

  run-Stands : (c : Call) (s : Inner) → MayCall c s → Stands s → Stands (run c s)
  unfolding run MayCall Discard.fail_poll View.snapshot View.status View.shutdown
  run-Stands (Call.snapshot request now) s may h = expire-Stands item_size now s h
  run-Stands (Call.status version now) s may h = expire-Stands item_size now s h
  run-Stands (Call.subscribe request t) s may h =
      subscribe-Stands item_size request_size request t s h
  run-Stands (Call.next id) s may h = next-Stands id s h
  run-Stands (Call.drop id now) s may h = drop-Stands item_size request_size id now s h
  run-Stands (Call.sync_runtime host now) s may h = record {
    valid = sync_runtime-IsValid item_size host now s h.valid;
    settled = sync_runtime-IsSettled item_size host now s h.valid h.settled may;
  }
  run-Stands (Call.commit_poll ticket pending deadline now) s may h =
      commit_poll-Stands item_size ticket pending deadline now s may h
  run-Stands (Call.discard_poll ticket resets gone now) s may h =
      discard_poll-Stands item_size now ticket resets gone s h
  run-Stands (Call.fail_poll ticket now) s may h =
      discard_poll-Stands item_size now ticket [] true s h
  run-Stands (Call.expire now) s may h = expire-Stands item_size now s h
  run-Stands Call.shutdown s may h = record {
    valid = close-IsValid s SubscriptionEnd.service_stopped (InnerIsSound-of-valid s h.valid);
    settled = close-IsSettled s SubscriptionEnd.service_stopped (InnerIsSound-of-valid s h.valid);
  }

  -- Every state that the service reaches from its start, by its public calls in any order, is
  -- well-formed and settled. The polls' batches hold what a provider can publish, and no
  -- lifecycle status is refused.
  pub reached-Stands :
      (manifests : List Provider.ProviderManifest) (run_id : String) (message_bytes : ℕ) (s : Inner)
      → Reaches manifests run_id message_bytes s
      → Stands s
  reached-Stands manifests run_id message_bytes s (Reaches.starts e) =
      Gives-value Stands _ s (new-Stands manifests run_id message_bytes) e
  reached-Stands manifests run_id message_bytes _ (Reaches.steps {s} c r may) =
      run-Stands c s may (reached-Stands manifests run_id message_bytes s r)
