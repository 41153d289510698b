-- ===== src/Warframe/Chat/Continuity.antt =====
-- crates/games/warframe/provider/src/topics/chat/cursor.rs: a conversation's messages are published
-- once and in order.
use Prim.Native.String.{String}
use mathlib.Core.Path.{subst, sym}
use wf_observer.Common.{
  ℕ, zero, suc, ◌≡◌, refl, true, false, Option, none, some, List, [], ◌∷◌, All, nat_eq, string_eq,
  Bool-cases, inl, inr, arith,
}
use wf_observer.Common.Maps.Laws.{beq_refl}
use wf_observer.Memory.Bytes.{take, drop}
use wf_observer.Warframe.Chat.Model.{ChatUpdate}
use wf_observer.Warframe.Chat.Layout
use wf_observer.Warframe.Chat.History.{option_time_eq, Entry, Channel, same_occurrence}
use wf_observer.Warframe.Chat.Cursor.{Position, publish, publish_turn, pending_of, take_turn, after}

-- No entry is the same occurrence as a later one.
abbrev pub AreDistinct : List Entry → Type 0
AreDistinct [] = Unit
AreDistinct (e ∷ es) = All (λ f. same_occurrence e f ≡ false) es × AreDistinct es

same-same_occurrence : (e : Entry) → same_occurrence e e ≡ true
unfolding same_occurrence
same-same_occurrence e = ground (
  arith,
  beq_refl e.address,
  beq_refl e.links.previous,
  beq_refl e.role,
  beq_refl e.sender,
  beq_refl e.text,
  beq_refl e.game_time,
)

-- What holds of all entries holds of the first that is left after an anchor.
after-All :
    (P : Entry → Type 0) (es : List Entry) (a e : Entry) (pending : List Entry)
    → after es a ≡ some (e ∷ pending)
    → All P es
    → P e
unfolding after
after-All P [] a e pending h all = cc h
after-All P (x ∷ xs) a e pending h (p, all) = elim (Bool-cases (same_occurrence x a)) [
  | inr f ↦ after-All P xs a e pending (rw (f, after) at h) all
  | inl f ↦
      let found : some xs ≡ some (e ∷ pending) = rw (f, after) at h in
      let same : xs ≡ e ∷ pending = cc found in (subst (All P) same all).0
]

after-head : (e : Entry) (pending : List Entry) → after (e ∷ pending) e ≡ some pending
unfolding after
after-head e pending = rw (same-same_occurrence e, after) refl

-- After the first entry that is left, the others are left.
after-next :
    (es : List Entry) (a e : Entry) (pending : List Entry)
    → AreDistinct es
    → after es a ≡ some (e ∷ pending)
    → after es e ≡ some pending
unfolding after
after-next [] a e pending distinct h = cc h
after-next (x ∷ xs) a e pending (apart, distinct) h = elim (Bool-cases (same_occurrence x a)) [
  | inr f ↦
      let rest : after xs a ≡ some (e ∷ pending) = rw (f, after) at h in
      let other : same_occurrence x e ≡ false =
        after-All (λ f. same_occurrence x f ≡ false) xs a e pending rest apart in
      rw (other, after) (after-next xs a e pending distinct rest)
  | inl f ↦
      let found : some xs ≡ some (e ∷ pending) = rw (f, after) at h in
      let same : xs ≡ e ∷ pending = cc found in
      let other : same_occurrence x e ≡ false =
        (subst (All (λ f. same_occurrence x f ≡ false)) same apart).0 in
      rw (other, after) (subst (λ ys. after ys e ≡ some pending) (sym same) (after-head e pending))
]

pending-next :
    (es : List Entry) (anchor : Option Entry) (e : Entry) (pending : List Entry)
    → AreDistinct es
    → pending_of es anchor ≡ some (e ∷ pending)
    → pending_of es (some e) ≡ some pending
pending-next es none e pending distinct h =
    let same : es ≡ e ∷ pending = cc h in
    subst (λ ys. after ys e ≡ some pending) (sym same) (after-head e pending)
pending-next es (some a) e pending distinct h = after-next es a e pending distinct h

-- The messages of some entries.
abbrev pub messages : List Entry → String → String → Option String → List ChatUpdate
messages [] key id local = []
messages (e ∷ es) key id local =
    ChatUpdate.message (Layout.message e key id local) ∷ messages es key id local

publish-messages :
    (n : ℕ) (pending : List Entry) (p : Position) (key : String) (local : Option String)
    → (publish n pending p key local).0 ≡ messages (take n pending) key p.conversation_id local
unfolding publish take
publish-messages zero pending p key local = refl
publish-messages (suc n) [] p key local = refl
publish-messages (suc n) (e ∷ pending) p key local =
    rw (publish-messages n pending (record p { anchor = some e }) key local) refl

publish-rest :
    (n : ℕ) (es pending : List Entry) (p : Position) (key : String) (local : Option String)
    → AreDistinct es
    → pending_of es p.anchor ≡ some pending
    → pending_of es (publish n pending p key local).1.anchor ≡ some (drop n pending)
unfolding publish drop
publish-rest zero es pending p key local distinct h = h
publish-rest (suc n) es [] p key local distinct h = h
publish-rest (suc n) es (e ∷ pending) p key local distinct h =
    publish-rest n es pending (record p { anchor = some e }) key local distinct
      (pending-next es p.anchor e pending distinct h)

-- Of a channel whose entries are distinct occurrences, with a position after which some entries are
-- left, a turn publishes the messages of as many of those as are allowed, in order, and leaves the
-- position at which exactly the others are left, so that none is lost and none comes twice.
pub take_turn-continues :
    (n : ℕ) (c : Channel) (p : Position) (local : Option String) (pending : List Entry)
    → AreDistinct c.entries
    → pending_of c.entries p.anchor ≡ some pending
    → ((take_turn false n c p local).updates
        ≡ messages (take n pending) c.key p.conversation_id local)
      × (pending_of c.entries (take_turn false n c p local).position.anchor ≡ some (drop n pending))
unfolding take_turn publish_turn
take_turn-continues n c p local pending distinct h =
    let turn : take_turn false n c p local ≡ publish_turn n pending p c.key local = rw h refl in
    (
      rw turn (publish-messages n pending p c.key local),
      rw turn (publish-rest n c.entries pending p c.key local distinct h),
    )
