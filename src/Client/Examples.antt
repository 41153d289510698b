-- ===== src/Client/Examples.antt =====
-- crates/wf-observer-sdk/src/subscription: a stream on which the theorems are applied.
use mathlib.Core.Path.{sym, subst}
use wf_observer.Common.{
  ℕ, suc, ◌+◌, ◌≤◌, ◌<◌, ◌≡◌, length, refl, String, Bool, true, false, Option, none, some, List, [],
  ◌∷◌, arith, Map, get, nat_eq, fold, contains,
}
use wf_observer.Common.Attempt.{yields}
use wf_observer.Wire.{
  TopicRef, TopicSource, SessionRef, ServiceCursor, SubscriptionItem, SubscriptionUpdate,
  SubscriptionEnd, Subscribe, SessionSelector, SnapshotPayload, EnvelopeMetadata, SessionInfo,
  EventEnvelope, CapabilityHealth, JsonPayload, DataEnvelope, TopicSnapshot,
}
use wf_observer.Delta.{Json, PatchLaws, PatchKind, SnapshotAck}
use wf_observer.Transport.Delivery.{source_key_eq, Delivery, Baseline, key_of, encode, on_ack}
use wf_observer.Client.Error.{ClientError}
use wf_observer.Client.Validation
use wf_observer.Client.Validation.{Validation, SeenSession, accept}
use wf_observer.Client.Reader.{Reader, topic_of}
use wf_observer.Client.Agreement.{Agrees}
use wf_observer.Client.Phases.{Phase, Runs, At, accept_all, accept_all-Runs}
use wf_observer.Client.Listener
use wf_observer.Client.Buffer.{BufferIsValid, Call, call, calls-IsValid}
use wf_observer.Client.Feed.{Feed, Store, no_state, change, add_info}
use wf_observer.Client.Feed.Shown.{IsOpen, IsShown, change-IsShown}
use wf_observer.Client.Lockstep.{ItemFollows}
use wf_observer.Client.Stream.{Serves, receive_all, receive-serve}

-- Values that are their texts, with a patch that replaces the whole.
abbrev texts : Json
texts = record {
  Value = String;
  PatchOperation = String;
  parse = λ text. some text;
  print = λ value. some value;
  kind = λ operation. PatchKind.replace;
  parse_patch = λ text. some (text ∷ []);
  diff = λ before after. some after;
  patch = λ operations value. elim operations [ [] ↦ some value | operation ∷ _ ↦ some operation ];
  hash = λ text. [];
}

texts-laws : PatchLaws texts
unfolding wf_observer.Common.any wf_observer.Delta.is_plain
texts-laws = record { patch-diff = λ before after text e. (text ∷ [], refl, refl, sym e) }

abbrev payload_size : SnapshotPayload → Option ℕ
payload_size (SnapshotPayload.full payload) = some 9
payload_size (SnapshotPayload.delta base_sequence hash patch) = some 5

abbrev item_size : SubscriptionItem → Option ℕ
item_size item = some 30

abbrev info_size : SessionInfo → Option ℕ
info_size info = some 20

abbrev chat : TopicRef
chat = record { provider_id = "warframe"; topic = "chat"; schema_version = 1 }

abbrev here : SessionRef
here = record { run_id = "run"; session_id = "one" }

abbrev from_here : TopicSource
from_here = record { session = here; game_id = "warframe"; topic = chat }

abbrev info : SessionInfo
info = record {
  session = here;
  provider_id = "warframe";
  game_id = "warframe";
  target = record { pid = 7; executable = "Warframe.x64.exe" };
  game_build = none;
}

abbrev at : ℕ → ServiceCursor
at n = record { run_id = "run"; sequence = n }

abbrev data_at : ℕ → String → DataEnvelope
data_at n text = record {
  metadata = record { source = from_here; generation = 1; sequence = n };
  payload = record { text = text };
}

abbrev chat_at : ℕ → String → TopicSnapshot
chat_at n text = record {
  source = from_here;
  generation = 1;
  health = CapabilityHealth.available;
  snapshot = some (data_at n text);
}

abbrev changed : ℕ → String → SubscriptionItem
changed n text =
    SubscriptionItem.update
      (record { cursor = at n; update = SubscriptionUpdate.topic_changed (chat_at n text) })

-- A stream that is ready, after the update of a number.
abbrev seen : ℕ → Validation
seen n = record {
  selection = record { topics = chat ∷ []; sessions = SessionSelector.all };
  checkpoint = some (at 3);
  ready = true;
  sequence = n;
  sessions = ("one", record { info = info; topics = (chat, 1) ∷ [] }) ∷ [];
}

abbrev reader : Reader
reader = record { validation = seen 3; baselines = []; pending_ack = none; deltas = true }

abbrev delivery : Delivery
delivery = record { topics = chat ∷ []; baselines = [] }

-- A snapshot that is sent whole, its acknowledgement, and the next sent as a patch.
abbrev frame_one : SubscriptionItem
frame_one = SubscriptionItem.snapshot (record {
  cursor = some (at 4);
  metadata = (data_at 4 "one").metadata;
  payload = SnapshotPayload.full (record { text = "one" });
})

abbrev frame_two : SubscriptionItem
frame_two = SubscriptionItem.snapshot (record {
  cursor = some (at 5);
  metadata = (data_at 5 "two").metadata;
  payload = SnapshotPayload.delta 4 [] (record { text = "two" });
})

abbrev with_baseline : ℕ → String → Bool → Delivery
with_baseline n text acknowledged = record {
  topics = chat ∷ [];
  baselines =
      (key_of from_here, record { snapshot = data_at n text; acknowledged = acknowledged }) ∷ [];
}

abbrev ack_one : SnapshotAck
ack_one = record { metadata = (data_at 4 "one").metadata; hash = [] }

accepts_one : accept info_size (seen 3) (changed 4 "one") ≡ yields (seen 4)
unfolding accept wf_observer.Client.Validation.is_run get wf_observer.Wire.SessionRef-discrete
    wf_observer.Common.contains wf_observer.Wire.TopicRef-discrete native.Mathlib.Decide.ℕ_discrete
    wf_observer.Wire.TopicSource-discrete wf_observer.Common.sum_by wf_observer.Common.replace
    wf_observer.Common.saturating_add wf_observer.Common.insert
accepts_one = refl

accepts_two : accept info_size (seen 4) (changed 5 "two") ≡ yields (seen 5)
unfolding accept wf_observer.Client.Validation.is_run get wf_observer.Wire.SessionRef-discrete
    wf_observer.Common.contains wf_observer.Wire.TopicRef-discrete native.Mathlib.Decide.ℕ_discrete
    wf_observer.Wire.TopicSource-discrete wf_observer.Common.sum_by wf_observer.Common.replace
    wf_observer.Common.saturating_add wf_observer.Common.insert
accepts_two = refl

encodes_one :
    encode texts payload_size delivery (changed 4 "one")
    ≡ some (frame_one, with_baseline 4 "one" false)
unfolding encode wf_observer.Common.contains wf_observer.Wire.TopicRef-discrete
    native.Mathlib.Decide.ℕ_discrete get wf_observer.Common.insert
encodes_one = refl

hears_one : on_ack texts (with_baseline 4 "one" false) (some ack_one) ≡ with_baseline 4 "one" true
unfolding on_ack get wf_observer.Transport.Delivery.SourceKey-discrete
    wf_observer.Wire.SessionRef-discrete wf_observer.Wire.TopicRef-discrete
    native.Mathlib.Decide.ℕ_discrete wf_observer.Wire.EnvelopeMetadata-discrete
    wf_observer.Wire.TopicSource-discrete wf_observer.Delta.Hash-discrete wf_observer.Common.replace
hears_one = refl

encodes_two :
    encode texts payload_size (with_baseline 4 "one" true) (changed 5 "two")
    ≡ some (frame_two, with_baseline 5 "two" false)
unfolding encode wf_observer.Common.contains wf_observer.Wire.TopicRef-discrete
    native.Mathlib.Decide.ℕ_discrete get wf_observer.Transport.Delivery.SourceKey-discrete
    wf_observer.Wire.SessionRef-discrete wf_observer.Wire.TopicSource-discrete
    wf_observer.Delta.between wf_observer.Common.insert
encodes_two = refl

follows_one : ItemFollows texts delivery (changed 4 "one")
unfolding topic_of get
follows_one = record {
  available = refl;
  source = refl;
  generation = refl;
  printed = record { print-parse = λ v e. sym e };
  later = λ b e. cc e;
}

only_baseline :
    get (with_baseline 4 "one" true).baselines (key_of from_here)
    ≡ some (record { snapshot = data_at 4 "one"; acknowledged = true })
unfolding get wf_observer.Transport.Delivery.SourceKey-discrete wf_observer.Wire.SessionRef-discrete
    wf_observer.Wire.TopicRef-discrete native.Mathlib.Decide.ℕ_discrete
only_baseline = refl

-- The number of the one snapshot that was sent.
only_four :
    (b : Baseline)
    → get (with_baseline 4 "one" true).baselines (key_of from_here) ≡ some b
    → b.snapshot.metadata.sequence ≡ 4
only_four b e = cc (only_baseline, e)

follows_two : ItemFollows texts (with_baseline 4 "one" true) (changed 5 "two")
unfolding topic_of
follows_two = record {
  available = refl;
  source = refl;
  generation = refl;
  printed = record { print-parse = λ v e. sym e };
  later = λ b e. rw (only_four b e) (omega arith);
}

abbrev unavailable : ClientError
unavailable = ClientError.protocol "encoding"

Serves-both :
    Serves texts payload_size item_size info_size unavailable 100 delivery
      (seen 3)
      (frame_one ∷ frame_two ∷ [])
      (changed 4 "one" ∷ changed 5 "two" ∷ [])
Serves-both =
    Serves.sends delivery (with_baseline 4 "one" false) (seen 3) (seen 4) (changed 4 "one")
      frame_one 30 (frame_two ∷ []) (changed 5 "two" ∷ []) refl follows_one refl (omega arith)
      accepts_one encodes_one
      (Serves.hears (with_baseline 4 "one" false) (seen 4) (some ack_one) (frame_two ∷ [])
        (changed 5 "two" ∷ [])
        (subst
          (λ d.
            Serves texts payload_size item_size info_size unavailable 100 d (seen 4)
              (frame_two ∷ []) (changed 5 "two" ∷ []))
          (sym hears_one)
          (Serves.sends (with_baseline 4 "one" true) (with_baseline 5 "two" false) (seen 4) (seen 5)
            (changed 5 "two") frame_two 30 [] [] refl follows_two refl (omega arith) accepts_two
            encodes_two (Serves.done (with_baseline 5 "two" false) (seen 5)))))

Agrees-first : Agrees delivery reader
unfolding get wf_observer.Common.contains
Agrees-first = record { held = λ k b e. cc e; deltas = refl }

receive-serve_example :
    receive_all texts item_size info_size unavailable 100 reader (frame_one ∷ frame_two ∷ [])
    ≡ yields (changed 4 "one" ∷ changed 5 "two" ∷ [])
receive-serve_example =
    receive-serve texts payload_size item_size info_size unavailable 100 texts-laws delivery reader
      (seen 3) (frame_one ∷ frame_two ∷ []) (changed 4 "one" ∷ changed 5 "two" ∷ []) Agrees-first
      refl Serves-both

abbrev bootstrap : List SubscriptionItem
bootstrap =
    SubscriptionItem.begin (at 3)
    ∷ SubscriptionItem.session info
    ∷ SubscriptionItem.topic (chat_at 2 "zero")
    ∷ SubscriptionItem.ready (at 3)
    ∷ changed 4 "one"
    ∷ SubscriptionItem.closed SubscriptionEnd.service_stopped
    ∷ []

abbrev chosen : Subscribe
chosen = record { topics = chat ∷ []; sessions = SessionSelector.all }

accepts_bootstrap : accept_all info_size (Validation.new chosen) bootstrap ≡ yields (seen 4)
unfolding accept_all accept Validation.new wf_observer.Service.Catalog.identifier
    wf_observer.Common.sum_by Validation.selected wf_observer.Common.any
    wf_observer.Service.Subscription.normalise wf_observer.Common.contains_key
    wf_observer.Common.insert wf_observer.Common.saturating_add get
    wf_observer.Wire.SessionRef-discrete contains wf_observer.Wire.TopicRef-discrete
    native.Mathlib.Decide.ℕ_discrete wf_observer.Wire.TopicSource-discrete wf_observer.Common.filter
    wf_observer.Wire.ServiceCursor-discrete wf_observer.Common.replace
accepts_bootstrap = refl

accept_all-Runs_example : (q : Phase) × Runs Phase.opening bootstrap q × At q (seen 4)
accept_all-Runs_example = accept_all-Runs info_size chosen bootstrap (seen 4) accepts_bootstrap

abbrev spoken : EventEnvelope
spoken = record { metadata = (data_at 4 "one").metadata; payload = record { text = "hello" } }

abbrev used : List Call
used = Call.registers 1 ∷ Call.hears_event spoken ∷ Call.hears_event spoken ∷ Call.reads_next ∷ []

calls-IsValid_example :
    BufferIsValid (λ e. some 4) 9 (fold (call (λ e. some 4) 9) (Listener.new true) used).queue
calls-IsValid_example = calls-IsValid (λ e. some 4) 9 true used

abbrev ready_feed : Feed
ready_feed = record {
  selection = chosen;
  listeners = 1 ∷ [];
  current = no_state;
  ready = true;
  terminal = none;
  stop = false;
}

abbrev listening : Store
listening = record {
  feeds = (5, ready_feed) ∷ [];
  listeners =
      (
        1,
        record {
          receive_events = true;
          queue = record {
            feeds = 5 ∷ [];
            states = [];
            changed = false;
            events = [];
            event_bytes = 0;
            terminal = none;
            closed = false;
          };
        },
      )
      ∷ [];
}

found_feed : get listening.feeds 5 ≡ some ready_feed
unfolding get
found_feed = refl

found_listener : IsOpen listening 1
unfolding get
found_listener = record {
  listener = record {
    receive_events = true;
    queue = record {
      feeds = 5 ∷ [];
      states = [];
      changed = false;
      events = [];
      event_bytes = 0;
      terminal = none;
      closed = false;
    };
  };
  found = refl;
  opened = refl;
}

among_listeners : contains ready_feed.listeners 1 ≡ true
unfolding contains
among_listeners = refl

change-IsShown_example :
    IsShown chat (add_info 4 info no_state) (change listening 5 (add_info 4 info)) 1
change-IsShown_example =
    change-IsShown listening 5 1 ready_feed chat [] (add_info 4 info) found_feed refl refl
      among_listeners found_listener
