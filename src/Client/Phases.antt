-- ===== src/Client/Phases.antt =====
-- crates/wf-observer-sdk/src/subscription/validation.rs: the order of a stream's items, as a state
-- machine that has no sessions.
use mathlib.Core.Path.{◌∙◌, subst, sym}
use wf_observer.Common.{
  ℕ, ◌≡◌, refl, ◌<◌, ◌&&◌, ◌==◌, ltb, Bool, true, false, Option, none, some, List, [], ◌∷◌, arith,
  string_eq, nat_eq, Bool-cases, inl, inr,
}
use wf_observer.Common.Attempt.{yields, ◌>>=◌, Ensures, Ensures-value, Ensures-map, Ensures-bind}
use wf_observer.Wire.{
  service_cursor_eq, ServiceCursor, SessionInfo, TopicSnapshot, UpdateEnvelope, SubscriptionItem,
  SubscriptionUpdate, SubscriptionEnd, Subscribe,
}
use wf_observer.Client.Validation.{
  Validation, Checked, new, accept, accept_item, bounded, begun, is_run, add_session, source, note,
  topic, update,
}
use wf_observer.Client.Keeping.{Keeps, same, update-keeps}

-- Before Begin, before Ready, and after it, with the number of the last update.
pub data Phase : Type 0 where
  opening : Phase
  loading : ServiceCursor → Phase
  live : ServiceCursor → ℕ → Phase

-- What may come in a phase.
pub data Next : Phase → SubscriptionItem → Phase → Type 0 where
  begins : (c : ServiceCursor) → Next Phase.opening (SubscriptionItem.begin c) (Phase.loading c)
  adds :
      (c : ServiceCursor) (info : SessionInfo)
      → Next (Phase.loading c) (SubscriptionItem.session info) (Phase.loading c)
  fills :
      (c : ServiceCursor) (t : TopicSnapshot)
      → Next (Phase.loading c) (SubscriptionItem.topic t) (Phase.loading c)
  completes :
      (c : ServiceCursor)
      → Next (Phase.loading c) (SubscriptionItem.ready c) (Phase.live c c.sequence)
  updates :
      (c : ServiceCursor) (n : ℕ) (u : UpdateEnvelope)
      → c.run_id ≡ u.cursor.run_id
      → n < u.cursor.sequence
      → Next (Phase.live c n) (SubscriptionItem.update u) (Phase.live c u.cursor.sequence)
  breaks_off :
      (c : ServiceCursor) (end : SubscriptionEnd)
      → Next (Phase.loading c) (SubscriptionItem.closed end) (Phase.loading c)
  closes :
      (c : ServiceCursor) (n : ℕ) (end : SubscriptionEnd)
      → Next (Phase.live c n) (SubscriptionItem.closed end) (Phase.live c n)

pub data Runs : Phase → List SubscriptionItem → Phase → Type 0 where
  stays : (p : Phase) → Runs p [] p
  steps :
      (p q r : Phase) (item : SubscriptionItem) (items : List SubscriptionItem)
      → Next p item q
      → Runs q items r
      → Runs p (item ∷ items) r

abbrev pub At : Phase → Validation → Type 0
At Phase.opening v = (v.checkpoint ≡ none) × (v.ready ≡ false)
At (Phase.loading c) v = (v.checkpoint ≡ some c) × (v.ready ≡ false) × (v.sequence ≡ c.sequence)
At (Phase.live c n) v = (v.checkpoint ≡ some c) × (v.ready ≡ true) × (v.sequence ≡ n)

abbrev pub Moves : Phase → SubscriptionItem → Validation → Type 0
Moves p item v = (q : Phase) × Next p item q × At q v

add_session-Ensures : (v : Validation) (info : SessionInfo) → Ensures (Keeps v) (add_session v info)
unfolding add_session update
add_session-Ensures v info = update-keeps v (SubscriptionUpdate.session_started info)

topic-Ensures :
    (v : Validation) (t : TopicSnapshot) (bootstrap : Bool)
    → Ensures (Keeps v) (topic v t bootstrap)
unfolding topic source note
topic-Ensures v t bootstrap = ground (arith, same v)

Keeps-At : (p : Phase) (v v' : Validation) → Keeps v v' → At p v → At p v'
Keeps-At Phase.opening v v' k at = (k.checkpoint ∙ at.0, k.ready ∙ at.1)
Keeps-At (Phase.loading c) v v' k at = (k.checkpoint ∙ at.0, k.ready ∙ at.1, k.sequence ∙ at.2)
Keeps-At (Phase.live c n) v v' k at = (k.checkpoint ∙ at.0, k.ready ∙ at.1, k.sequence ∙ at.2)

module _ (info_size : SessionInfo → Option ℕ) where
  begin-Moves :
      (v : Validation) (p : Phase) (c : ServiceCursor)
      → At p v
      → Ensures
          (Moves p (SubscriptionItem.begin c))
          (accept_item info_size v (SubscriptionItem.begin c))
  unfolding accept_item begun
  begin-Moves v Phase.opening c (started, unready) =
      let moved : Moves Phase.opening (SubscriptionItem.begin c)
          (record v { checkpoint = some c; sequence = c.sequence }) =
        (Phase.loading c, Next.begins c, (refl, unready, refl)) in
      ground (arith, moved)
  begin-Moves v (Phase.loading d) c at = rw (at.0, accept_item) tt
  begin-Moves v (Phase.live d n) c at = rw (at.0, accept_item) tt

  session-Moves :
      (v : Validation) (p : Phase) (info : SessionInfo)
      → At p v
      → Ensures
          (Moves p (SubscriptionItem.session info))
          (accept_item info_size v (SubscriptionItem.session info))
  unfolding accept_item begun
  session-Moves v Phase.opening info (started, unready) = rw (started, accept_item) tt
  session-Moves v (Phase.loading c) info at = ground (
    arith,
    at.0,
    at.1,
    Ensures-map (Keeps v) (Moves (Phase.loading c) (SubscriptionItem.session info))
        (add_session v info)
        (λ v' k. (Phase.loading c, Next.adds c info, Keeps-At (Phase.loading c) v v' k at))
        (add_session-Ensures v info),
  )
  session-Moves v (Phase.live c n) info at = rw (at.0, at.1, accept_item) tt

  topic-Moves :
      (v : Validation) (p : Phase) (t : TopicSnapshot)
      → At p v
      → Ensures
          (Moves p (SubscriptionItem.topic t))
          (accept_item info_size v (SubscriptionItem.topic t))
  unfolding accept_item begun
  topic-Moves v Phase.opening t (started, unready) = rw (started, accept_item) tt
  topic-Moves v (Phase.loading c) t at = ground (
    arith,
    at.0,
    at.1,
    Ensures-map (Keeps v) (Moves (Phase.loading c) (SubscriptionItem.topic t)) (topic v t true)
        (λ v' k. (Phase.loading c, Next.fills c t, Keeps-At (Phase.loading c) v v' k at))
        (topic-Ensures v t true),
  )
  topic-Moves v (Phase.live c n) t at = rw (at.0, at.1, accept_item) tt

  ready-Moves :
      (v : Validation) (p : Phase) (c : ServiceCursor)
      → At p v
      → Ensures
          (Moves p (SubscriptionItem.ready c))
          (accept_item info_size v (SubscriptionItem.ready c))
  unfolding accept_item begun
  ready-Moves v Phase.opening c (started, unready) = rw (started, unready, accept_item) tt
  ready-Moves v (Phase.loading d) c at = elim (Bool-cases (d == c)) [
    | inl same ↦
        let is_c = (service_cursor_eq.beq_iff d c).0 same in
        let moved : Moves (Phase.loading d) (SubscriptionItem.ready c) (record v { ready = true }) =
          (
            Phase.live d d.sequence,
            subst (λ x. Next (Phase.loading d) (SubscriptionItem.ready x) (Phase.live d d.sequence))
                is_c (Next.completes d),
            (at.0, refl, at.2),
          ) in
        ground (arith, moved)
    | inr other ↦ rw (at.0, at.1, other, accept_item) tt
  ]
  ready-Moves v (Phase.live d n) c at = rw (at.0, at.1, accept_item) tt

  update-Moves :
      (v : Validation) (p : Phase) (u : UpdateEnvelope)
      → At p v
      → Ensures
          (Moves p (SubscriptionItem.update u))
          (accept_item info_size v (SubscriptionItem.update u))
  unfolding accept_item begun is_run
  update-Moves v Phase.opening u (started, unready) = rw (started, unready, accept_item) tt
  update-Moves v (Phase.loading c) u at = rw (at.0, at.1, accept_item) tt
  update-Moves v (Phase.live c n) u at =
      elim (Bool-cases (c.run_id == u.cursor.run_id && ltb v.sequence u.cursor.sequence)) [
        | inl f ↦
            let w : Validation = record v { sequence = u.cursor.sequence } in
            let run_id : c.run_id ≡ u.cursor.run_id =
              (string_eq.beq_iff c.run_id u.cursor.run_id).0 (ground (arith, f)) in
            let later : n < u.cursor.sequence = ground (arith, f, at.2) in
            let moved : Ensures (Moves (Phase.live c n) (SubscriptionItem.update u))
                (update w u.update) =
              Ensures-map (Keeps w) (Moves (Phase.live c n) (SubscriptionItem.update u))
                (update w u.update)
                (λ v' k. (
                  Phase.live c u.cursor.sequence,
                  Next.updates c n u run_id later,
                  Keeps-At (Phase.live c u.cursor.sequence) w v' k (at.0, at.1, refl),
                ))
                (update-keeps w u.update) in
            ground (arith, at.0, at.1, f, moved)
        | inr f ↦ rw (at.0, at.1, f, accept_item) tt
      ]

  closed-Moves :
      (v : Validation) (p : Phase) (end : SubscriptionEnd)
      → At p v
      → Ensures
          (Moves p (SubscriptionItem.closed end))
          (accept_item info_size v (SubscriptionItem.closed end))
  unfolding accept_item begun
  closed-Moves v Phase.opening end (started, unready) = rw (started, accept_item) tt
  closed-Moves v (Phase.loading c) end at =
      let moved : Moves (Phase.loading c) (SubscriptionItem.closed end) v =
        (Phase.loading c, Next.breaks_off c end, at) in
      ground (arith, at.0, moved)
  closed-Moves v (Phase.live c n) end at =
      let moved : Moves (Phase.live c n) (SubscriptionItem.closed end) v =
        (Phase.live c n, Next.closes c n end, at) in
      ground (arith, at.0, moved)

  bounded-Ensures : (v : Validation) → Ensures (λ v'. v' ≡ v) (bounded info_size v)
  unfolding bounded
  bounded-Ensures v = ground arith

  item-Moves :
      (v : Validation) (p : Phase) (item : SubscriptionItem)
      → At p v
      → Ensures (Moves p item) (accept_item info_size v item)
  unfolding accept_item
  item-Moves v p (SubscriptionItem.begin c) at = begin-Moves v p c at
  item-Moves v p (SubscriptionItem.session info) at = session-Moves v p info at
  item-Moves v p (SubscriptionItem.topic t) at = topic-Moves v p t at
  item-Moves v p (SubscriptionItem.snapshot frame) at = tt
  item-Moves v p (SubscriptionItem.ready c) at = ready-Moves v p c at
  item-Moves v p (SubscriptionItem.update u) at = update-Moves v p u at
  item-Moves v p (SubscriptionItem.closed end) at = closed-Moves v p end at

  accept-Moves :
      (v v' : Validation) (p : Phase) (item : SubscriptionItem)
      → At p v
      → accept info_size v item ≡ yields v'
      → Moves p item v'
  unfolding accept
  accept-Moves v v' p item at e =
      Ensures-value (Moves p item) (accept_item info_size v item >>= bounded info_size) v'
        (Ensures-bind (Moves p item) (accept_item info_size v item) (bounded info_size) (λ w f.
          Ensures-map (λ w'. w' ≡ w) (Moves p item) (bounded info_size w)
            (λ w' same. subst (Moves p item) (sym same) (
              Ensures-value (Moves p item) (accept_item info_size v item) w (item-Moves v p item at)
                f))
            (bounded-Ensures w)))
        e

  unfoldable pub accept_all : Validation → List SubscriptionItem → Checked
  accept_all v [] = yields v
  accept_all v (item ∷ items) = accept info_size v item >>= λ v'. accept_all v' items

  abbrev pub RunsTo : Phase → List SubscriptionItem → Validation → Type 0
  RunsTo p items v = (q : Phase) × Runs p items q × At q v

  run-RunsTo :
      (v : Validation) (p : Phase) (items : List SubscriptionItem)
      → At p v
      → Ensures (RunsTo p items) (accept_all v items)
  unfolding accept_all
  run-RunsTo v p [] at = (p, Runs.stays p, at)
  run-RunsTo v p (item ∷ items) at =
      Ensures-bind (RunsTo p (item ∷ items)) (accept info_size v item) (λ w. accept_all w items)
        λ w e.
          let (q, next, at_q) = accept-Moves v w p item at e in
          Ensures-map (RunsTo q items) (RunsTo p (item ∷ items)) (accept_all w items)
            (λ v' (r, runs, at_r). (r, Runs.steps p q r item items next runs, at_r))
            (run-RunsTo w q items at_q)

  -- The items that a stream's validation accepts, from its start, are a Begin, then sessions and
  -- topics, then the Ready of the same checkpoint, then updates of the same run whose numbers
  -- increase from that of the checkpoint, with no other item but Closed; the validation ends where
  -- they end.
  pub accept_all-Runs :
      (selection : Subscribe) (items : List SubscriptionItem) (v : Validation)
      → accept_all (new selection) items ≡ yields v
      → (q : Phase) × Runs Phase.opening items q × At q v
  unfolding new
  accept_all-Runs selection items v e =
      Ensures-value (RunsTo Phase.opening items) (accept_all (new selection) items) v
        (run-RunsTo (new selection) Phase.opening items (refl, refl)) e
