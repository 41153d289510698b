-- ===== src/Service/Invariant/Subscribe.antt =====
-- The subscriptions' operations and the reads keep a state that stands.
use wf_observer.Common.{
  ℕ, ◌≡◌, refl, true, Option, some, List, [], ◌∷◌, arith, Option-cases, Bool-cases, inl, inr, Map,
  get, replace, ◌==◌, nat_eq, any, checked_add,
}
use wf_observer.Wire.{
  SessionRef, TopicRef, Subscribe, SubscriptionItem, Result, Result-cases, ok, err,
}
use wf_observer.Service.Queue
use wf_observer.Service.Queue.{Queue}
use wf_observer.Service.Catalog.{message_fits}
use wf_observer.Service.Subscriber.{Subscriber, matches}
use wf_observer.Service.Inner.{Inner, set_queue}
use wf_observer.Service.Settle.{any_ended, demanded_by, expire}
use wf_observer.Service.Subscription.{
  Readings, register, activate, drop, opened, open_subscription, subscribe, next, normalise,
  check_selection,
}
use wf_observer.Service.Invariant.Emit.{AllTopics-map}
use wf_observer.Service.Invariant.Settle.{expire_settles}
use wf_observer.Service.Invariant.Poll.{Stands, settle-Stands}

any_ended-same :
    (queues queues' : ℕ → Queue)
    → ((id : ℕ) → Queue.ended (queues' id) ≡ Queue.ended (queues id))
    → (m : Map ℕ Subscriber) → any_ended queues' m ≡ any_ended queues m
unfolding any_ended
any_ended-same queues queues' same [] = refl
any_ended-same queues queues' same ((id, s) ∷ m) =
    rw (same id, any_ended-same queues queues' same m)

any_ended-replace :
    (queues : ℕ → Queue) (m : Map ℕ Subscriber) (id : ℕ) (s : Subscriber)
    → any_ended queues (replace m id s) ≡ any_ended queues m
unfolding any_ended replace
any_ended-replace queues [] id s = refl
any_ended-replace queues ((j, r) ∷ m) id s = ground (arith, any_ended-replace queues m id s)

demanded_by-replace :
    (m : Map ℕ Subscriber) (id : ℕ) (s : Subscriber) (session : SessionRef) (key : TopicRef)
    → get m id ≡ some s
    → demanded_by (replace m id (record s { active = true })) session key
      ≡ demanded_by m session key
unfolding demanded_by replace get any matches
demanded_by-replace [] id s session key g = refl
demanded_by-replace ((j, r) ∷ m) id s session key g =
    ground (arith, demanded_by-replace m id s session key)

ended-pop : (q : Queue) → Queue.ended (Queue.pop q).2 ≡ Queue.ended q
unfolding Queue.pop Queue.pop_initial Queue.pop_update Queue.pop_terminal Queue.ended
ended-pop q = ground arith

module _ (s : Inner) (id : ℕ) where
  set_initial-ended :
      (frames : List SubscriptionItem) (j : ℕ)
      → Queue.ended (set_queue s.queues id (Queue.set_initial (s.queues id) frames) j)
        ≡ Queue.ended (s.queues j)
  unfolding Queue.ended Queue.set_initial
  set_initial-ended frames j = ground (arith, nat_eq.beq_iff id j)

  popped-ended :
      (j : ℕ)
      → Queue.ended (set_queue s.queues id (Queue.pop (s.queues id)).2 j) ≡ Queue.ended (s.queues j)
  popped-ended j = elim (Bool-cases (id == j)) [
    | inl e ↦ rw (e, ended-pop (s.queues id), (nat_eq.beq_iff id j).0 e)
    | inr e ↦ rw e
  ]

pub next-Stands : (id : ℕ) (s : Inner) → Stands s → Stands (next id s).1
unfolding next
next-Stands id s h = record {
  valid = record { sessions = h.valid.sessions; sequence_fits = h.valid.sequence_fits };
  settled = record {
    live = rw (any_ended-same s.queues _ (popped-ended s id) s.subscribers, h.settled.live);
    sessions = h.settled.sessions;
  };
}

pub expire-Stands :
    (item_size : SubscriptionItem → Option ℕ) (now : ℕ) (s : Inner)
    → Stands s
    → Stands (expire item_size now s)
expire-Stands item_size now s h =
    let (v, t) = expire_settles item_size now s h.valid in record { valid = v; settled = t }

module _ (item_size : SubscriptionItem → Option ℕ) (request_size : Subscribe → Option ℕ) where
  activate-Stands :
      (id : ℕ) (frames : List SubscriptionItem) (s : Inner)
      → Stands s
      → Stands (activate s id frames)
  unfolding activate
  activate-Stands id frames s h = elim (Option-cases (get s.subscribers id)) [
    | inl e ↦ simp e (record {
      valid = record { sessions = h.valid.sessions; sequence_fits = h.valid.sequence_fits };
      settled = record {
        live = rw (
          any_ended-same s.queues _ (set_initial-ended s id frames) s.subscribers,
          h.settled.live,
        );
        sessions = h.settled.sessions;
      };
    })
    | inr (subscriber, e) ↦ simp e (record {
      valid = record { sessions = h.valid.sessions; sequence_fits = h.valid.sequence_fits };
      settled = record {
        live = rw (
          any_ended-same s.queues _ (set_initial-ended s id frames) _,
          any_ended-replace s.queues s.subscribers id _,
          h.settled.live,
        );
        sessions =
            AllTopics-map s.run_id s.sessions
              (λ info key t agrees.
                rw (demanded_by-replace s.subscribers id subscriber info.session key e) agrees)
              h.settled.sessions;
      };
    })
  ]

  pub drop-Stands :
      (id now : ℕ) (s : Inner) → Stands s → Stands (drop item_size request_size id now s)
  unfolding drop
  drop-Stands id now s h =
      settle-Stands item_size now _
        (record { sessions = h.valid.sessions; sequence_fits = h.valid.sequence_fits })

  opened-Stands :
      (id now : ℕ) (s : Inner) (r : Result (List SubscriptionItem))
      → Stands s
      → Stands (opened item_size request_size id now s r).0
  unfolding opened
  opened-Stands id now s (ok frames) h = activate-Stands id frames s h
  opened-Stands id now s (err e) h = drop-Stands id now s h

  open_subscription-Stands :
      (selection : Subscribe) (t : Readings) (s : Inner)
      → Stands s
      → Stands (open_subscription item_size request_size selection t s).0
  unfolding open_subscription register
  open_subscription-Stands selection t s h =
      elim (Option-cases (checked_add s.next_subscription 1)) [
        | inl e ↦ rw (e, open_subscription) h
        | inr (id, e) ↦
            rw (e, open_subscription)
              (opened-Stands id t.dropped _ _ (
                settle-Stands item_size t.registered _
                  (record { sessions = h.valid.sessions; sequence_fits = h.valid.sequence_fits })))
      ]

  -- A request for a subscription keeps a state well-formed and settled, also where it is refused or
  -- its bootstrap fails.
  pub subscribe-Stands :
      (request : Subscribe) (t : Readings) (s : Inner)
      → Stands s
      → Stands (subscribe item_size request_size request t s).0
  unfolding subscribe
  subscribe-Stands request t s h =
      elim (Result-cases (message_fits (request_size request) s.message_bytes)) [
        | inl (e, f) ↦ rw (f, subscribe) h
        | inr (u, f) ↦
            let s' = expire item_size t.expired s in
            elim (Result-cases (check_selection s' (normalise request))) [
              | inl (e, g) ↦ rw (f, g, subscribe) (expire-Stands item_size t.expired s h)
              | inr (v, g) ↦
                  rw (f, g, subscribe)
                    (open_subscription-Stands (normalise request) t s'
                      (expire-Stands item_size t.expired s h))
            ]
      ]
