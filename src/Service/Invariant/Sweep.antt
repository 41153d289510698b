-- ===== src/Service/Invariant/Sweep.antt =====
-- The loops over every topic: what each visit keeps holds after the loop, and what each visit that
-- does not stop brings about holds of all topics if the loop ran through.
use wf_observer.Common.{String, ◌≡◌, false, [], ◌∷◌, Bool-cases, inl, inr, Map, Every, arith}
use wf_observer.Wire.{SessionRef, SessionInfo, TopicRef}
use wf_observer.Service.Inner.{Session, Topic}
use wf_observer.Service.Settle.{Visit, sweep_topics, sweep}
use wf_observer.Service.Invariant.{SessionHas, AllTopics}

module _ (P : TopicRef → Topic → Type 0) (visit : TopicRef → Topic → Visit)
    (keep : (k : TopicRef) (t : Topic) → P k t → P k (visit k t).topic) where
  sweep_topics-keeps : (m : Map TopicRef Topic) → Every P m → Every P (sweep_topics visit m).entries
  unfolding sweep_topics
  sweep_topics-keeps [] h = tt
  sweep_topics-keeps ((k, t) ∷ m) h = elim (Bool-cases (visit k t).stops) [
    | inl e ↦ rw e (keep k t h.0, h.1)
    | inr e ↦ rw e (keep k t h.0, sweep_topics-keeps m h.1)
  ]

module _ (P Q : TopicRef → Topic → Type 0) (visit : TopicRef → Topic → Visit)
    (reach : (k : TopicRef) (t : Topic)
      → P k t
      → (visit k t).stops ≡ false
      → Q k (visit k t).topic) where
  sweep_topics-reaches :
      (m : Map TopicRef Topic)
      → Every P m
      → (sweep_topics visit m).stops ≡ false
      → Every Q (sweep_topics visit m).entries
  unfolding sweep_topics
  sweep_topics-reaches [] h g = tt
  sweep_topics-reaches ((k, t) ∷ m) h g = elim (Bool-cases (visit k t).stops) [
    | inl e ↦ absurd (ground arith)
    | inr e ↦ rw e (reach k t h.0 e, sweep_topics-reaches m h.1 (rw e at g))
  ]

module _ (P : SessionInfo → TopicRef → Topic → Type 0)
    (visit : SessionRef → TopicRef → Topic → Visit)
    (keep : (r : SessionInfo) (k : TopicRef) (t : Topic)
      → P r k t
      → P r k (visit r.session k t).topic)
    (run_id : String) where
  pub sweep-keeps :
      (m : Map String Session) → AllTopics P run_id m → AllTopics P run_id (sweep visit m).entries
  unfolding sweep
  sweep-keeps [] h = tt
  sweep-keeps ((id, s) ∷ m) h =
      let r = s.info in
      let s' : Session = record s { topics = (sweep_topics (visit r.session) s.topics).entries } in
      let first : SessionHas P run_id id s' = record {
        named = h.0.named;
        topics = sweep_topics-keeps (P r) (visit r.session) (keep r) s.topics h.0.topics;
      } in
      elim (Bool-cases (sweep_topics (visit r.session) s.topics).stops) [
        | inl e ↦ rw e (first, h.1)
        | inr e ↦ rw e (first, sweep-keeps m h.1)
      ]

module _ (P Q : SessionInfo → TopicRef → Topic → Type 0)
    (visit : SessionRef → TopicRef → Topic → Visit)
    (reach : (r : SessionInfo) (k : TopicRef) (t : Topic)
      → P r k t
      → (visit r.session k t).stops ≡ false
      → Q r k (visit r.session k t).topic)
    (run_id : String) where
  pub sweep-reaches :
      (m : Map String Session)
      → AllTopics P run_id m
      → (sweep visit m).stops ≡ false
      → AllTopics Q run_id (sweep visit m).entries
  unfolding sweep
  sweep-reaches [] h g = tt
  sweep-reaches ((id, s) ∷ m) h g =
      let r = s.info in
      elim (Bool-cases (sweep_topics (visit r.session) s.topics).stops) [
        | inl e ↦ absurd (ground arith)
        | inr e ↦ rw e (
          record {
            named = h.0.named;
            topics =
                sweep_topics-reaches (P r) (Q r) (visit r.session) (reach r) s.topics h.0.topics e;
          },
          sweep-reaches m h.1 (rw e at g),
        )
      ]
