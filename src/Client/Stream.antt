-- ===== src/Client/Stream.antt =====
-- A stream from the service, transport/delivery.rs, to the client, subscription/reader.rs: what the
-- service sends, with acknowledgements read at any time between, is received in order.
use wf_observer.Common.{ℕ, ◌≤◌, ◌≡◌, refl, Option, some, List, [], ◌∷◌}
use wf_observer.Common.Attempt.{Attempt, yields, ◌>>=◌}
use wf_observer.Wire.{SnapshotPayload, SubscriptionItem, SessionInfo}
use wf_observer.Delta.{Json, SnapshotAck, PatchLaws}
use wf_observer.Transport.Delivery.{Delivery, encode, on_ack}
use wf_observer.Client.Error.{ClientError}
use wf_observer.Client.Validation.{Validation, accept}
use wf_observer.Client.Reader.{Reader, ReadError, receive}
use wf_observer.Client.Agreement.{Agrees, on_ack-Agrees}
use wf_observer.Client.Lockstep.{IsWhole, ItemFollows, encode-receive}

-- The client's reads of the stream.
module _ (json : Json) (item_size : SubscriptionItem → Option ℕ)
    (info_size : SessionInfo → Option ℕ) (encoding_error : ClientError) (limit : ℕ) where
  unfoldable pub receive_all :
      Reader → List SubscriptionItem → Attempt ReadError (List SubscriptionItem)
  unfolding receive
  receive_all r [] = yields []
  receive_all r (frame ∷ frames) =
      receive json item_size info_size encoding_error limit r frame >>= λ (item, r').
      receive_all r' frames >>= λ items. yields (item ∷ items)

module _ (json : Json) (payload_size : SnapshotPayload → Option ℕ)
    (item_size : SubscriptionItem → Option ℕ) (info_size : SessionInfo → Option ℕ)
    (encoding_error : ClientError) (limit : ℕ) where
  -- What the service sends from a state, for which items, while it reads acknowledgements: `Serves
  -- d v frames items`, where the client has validated up to `v`.
  pub data Serves
      : Delivery → Validation → List SubscriptionItem → List SubscriptionItem → Type 1 where
    done : (d : Delivery) (v : Validation) → Serves d v [] []
    hears :
        (d : Delivery) (v : Validation) (ack : Option SnapshotAck)
        (frames items : List SubscriptionItem)
        → Serves (on_ack json d ack) v frames items
        → Serves d v frames items
    sends :
        (d d' : Delivery) (v v' : Validation) (item sent : SubscriptionItem) (n : ℕ)
        (frames items : List SubscriptionItem)
        → IsWhole item
        → ItemFollows json d item
        → item_size item ≡ some n
        → n ≤ limit
        → accept info_size v item ≡ yields v'
        → encode json payload_size d item ≡ some (sent, d')
        → Serves d' v' frames items
        → Serves d v (sent ∷ frames) (item ∷ items)

  module _ (laws : PatchLaws json) where
    -- An item is sent as it is or, when the reader has acknowledged an earlier snapshot of the topic,
    -- as a patch; whatever acknowledgements come between, a reader in agreement with the service
    -- receives exactly the items that were to be sent, in their order, with no error.
    pub receive-serve :
        (d : Delivery) (r : Reader) (v : Validation) (frames items : List SubscriptionItem)
        → Agrees d r
        → r.validation ≡ v
        → Serves d v frames items
        → receive_all json item_size info_size encoding_error limit r frames ≡ yields items
    unfolding receive_all
    receive-serve d r v frames items agrees at_v (done _ _) = refl
    receive-serve d r v frames items agrees at_v (hears _ _ ack _ _ serves) =
        receive-serve (on_ack json d ack) r v frames items (on_ack-Agrees json d r ack agrees) at_v
          serves
    receive-serve d r v frames items agrees at_v
          (sends _ d' _ v' item sent n frames' items' is_whole follows size le a e serves) =
        let (r', received, at_v', agrees') =
          encode-receive json laws payload_size item_size info_size encoding_error limit d r v'
            agrees item sent d' n is_whole follows size le (rw at_v a) e in
        rw (received, receive-serve d' r' v' frames' items' agrees' at_v' serves) refl
