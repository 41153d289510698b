-- ===== src/Service/Invariant/Stage.antt =====
-- What `StagedPublication::prepare` stages: a copy of each demanded topic that a poll publishes for,
-- well-formed but for the sequences of its snapshots, which are numbered when they are committed.
use wf_observer.Common.{
  ℕ, ◌≤◌, ◌<◌, ◌≡◌, ◌≢◌, true, false, Option, none, some, List, [], ◌∷◌, All, any, ◌==◌, arith,
  Bool-cases, Option-cases, inl, inr, u64_max, checked_add, Every, get,
}
use wf_observer.Common.Maps.Laws.{Every-insert, Every-get}
use wf_observer.Wire.{
  SessionInfo, TopicRef, topic_ref_eq, topic_ref_order, TopicSnapshot, DataEnvelope,
  CapabilityHealth, Ensures, Ensures-bind,
}
use wf_observer.Service.Operation.{Operation, operation_key}
use wf_observer.Service.Inner.{Session, Topic}
use wf_observer.Service.Ticket.{PollTicket, Demand}
use wf_observer.Service.Publication.{
  StagedPublication, apply, stage, staged_or_current, prepare_from, prepare, nothing_staged,
}
use wf_observer.Service.Commit.{is_stale}
use wf_observer.Service.Invariant.{TopicIsValid}

-- A provider reports only that a topic is available or unavailable.
abbrev pub IsPublished : Operation → Type 0
IsPublished (Operation.health key h) = h ≢ CapabilityHealth.idle
IsPublished _ = Unit

abbrev pub CarriesUnnumbered : TopicSnapshot → Option DataEnvelope → Type 0
CarriesUnnumbered state none = Unit
CarriesUnnumbered state (some d) =
    (state.health ≡ CapabilityHealth.available)
    × (d.metadata.source ≡ state.source)
    × (d.metadata.generation ≡ state.generation)

pub record TopicIsStaged (info : SessionInfo) (key : TopicRef) (t : Topic) : Type 0 where
  pub owned :
      t.state.source ≡ record { session = info.session; game_id = info.game_id; topic = key }
  pub numbered : 0 < t.state.generation
  pub generation_fits : t.state.generation ≤ u64_max
  pub epoch_fits : t.epoch ≤ u64_max
  pub carries : CarriesUnnumbered t.state t.state.snapshot
  pub demanded : t.demanded ≡ true
  pub awake : t.state.health ≢ CapabilityHealth.idle

TopicIsStaged-of-valid :
    (n : ℕ) (info : SessionInfo) (key : TopicRef) (t : Topic)
    → TopicIsValid n info key t
    → t.demanded ≡ true
    → TopicIsStaged info key t
TopicIsStaged-of-valid n info key t h d = ground arith

abbrev pub StagedIsValid : SessionInfo → StagedPublication → Type 0
StagedIsValid info staged = Every (TopicIsStaged info) staged.topics

module _ (info : SessionInfo) (deadline : ℕ) (staged : StagedPublication) (key : TopicRef)
    (t : Topic) where
  apply-IsValid :
      (op : Operation)
      → IsPublished op
      → TopicIsStaged info key t
      → StagedIsValid info staged
      → Ensures (StagedIsValid info) (apply deadline staged key t op)
  unfolding apply
  apply-IsValid (Operation.reset k) p h v = elim (Option-cases (checked_add t.state.generation 1)) [
    | inl e ↦ rw (e, apply) tt
    | inr (g, e) ↦ elim (Option-cases (checked_add t.epoch 1)) [
      | inl f ↦ rw (e, f, apply) tt
      | inr (x, f) ↦
          rw (e, f, apply)
            (Every-insert _ staged.topics key _ (unfold checked_add in ground arith) v)
    ]
  ]
  apply-IsValid (Operation.snapshot k payload) p h v =
      Every-insert _ staged.topics key _ (ground arith) v
  apply-IsValid (Operation.event k payload) p h v = Every-insert _ staged.topics key t h v
  apply-IsValid (Operation.health k x) p h v = Every-insert _ staged.topics key _ (ground arith) v

-- Every topic of a ticket that is not stale is demanded.
demanded_of_fresh :
    (session : Session) (ds : List Demand) (key : TopicRef) (t : Topic)
    → any (is_stale session) ds ≡ false
    → any (λ d. d.key == key) ds ≡ true
    → get session.topics key ≡ some t
    → t.demanded ≡ true
unfolding any is_stale
demanded_of_fresh session [] key t fresh mem g = cc
demanded_of_fresh session (d ∷ ds) key t fresh mem g =
    ground (arith, topic_ref_eq.beq_iff d.key key, demanded_of_fresh session ds key t)

module _ (n : ℕ) (session : Session) (ticket : PollTicket)
    (valid : Every (TopicIsValid n session.info) session.topics)
    (fresh : any (is_stale session) ticket.topics ≡ false) where
  abbrev current_or : Option Topic → Option Topic → Option Topic
  current_or staged current = elim staged [ none ↦ current | some t ↦ some t ]

  -- The copy that an operation works on.
  staged_or_current-IsStaged :
      (staged : StagedPublication) (key : TopicRef) (current t : Topic)
      → any (λ d. d.key == key) ticket.topics ≡ true
      → get session.topics key ≡ some current
      → StagedIsValid session.info staged
      → staged_or_current session staged key ≡ some t
      → TopicIsStaged session.info key t
  unfolding staged_or_current
  staged_or_current-IsStaged staged key current t mem g v e =
      elim (Option-cases (get staged.topics key)) [
        | inl f ↦
            TopicIsStaged-of-valid n session.info key t
              (Every-get _ session.topics key t valid (ground arith))
              (demanded_of_fresh session ticket.topics key t fresh mem (ground arith))
        | inr (u, f) ↦ Every-get _ staged.topics key t v (ground arith)
      ]

  stage-IsValid :
      (deadline : ℕ) (staged : StagedPublication) (op : Operation)
      → IsPublished op
      → StagedIsValid session.info staged
      → Ensures (StagedIsValid session.info) (stage session ticket deadline staged op)
  unfolding stage
  stage-IsValid deadline staged op p v =
      let key = operation_key op in
      elim (Bool-cases (any (λ d. d.key == key) ticket.topics)) [
        | inr e ↦ rw (e, stage) tt
        | inl e ↦ elim (Option-cases (get session.topics key)) [
          | inl f ↦ rw (e, f, stage) tt
          | inr (current, f) ↦ elim (Option-cases (staged_or_current session staged key)) [
            | inl g ↦ rw (e, f, g, stage) tt
            | inr (t, g) ↦
                rw (e, f, g, stage)
                  (apply-IsValid session.info deadline staged key t op p
                    (staged_or_current-IsStaged staged key current t e f v g) v)
          ]
        ]
      ]

  prepare_from-IsValid :
      (deadline : ℕ) (staged : StagedPublication) (ops : List Operation)
      → All IsPublished ops
      → StagedIsValid session.info staged
      → Ensures (StagedIsValid session.info) (prepare_from session ticket deadline staged ops)
  unfolding prepare_from
  prepare_from-IsValid deadline staged [] p v = v
  prepare_from-IsValid deadline staged (op ∷ ops) p v =
      Ensures-bind (StagedIsValid session.info) (StagedIsValid session.info) _ _
        (stage-IsValid deadline staged op p.0 v)
        (λ next v'. prepare_from-IsValid deadline next ops p.1 v')

  pub prepare-IsValid :
      (deadline : ℕ) (ops : List Operation)
      → All IsPublished ops
      → Ensures (StagedIsValid session.info) (prepare session ticket ops deadline)
  unfolding prepare
  prepare-IsValid deadline ops p = prepare_from-IsValid deadline nothing_staged ops p tt
