-- ===== src/Warframe/Chat/Model.antt =====
-- crates/games/warframe/model/src/chat.rs: chat messages and updates.
use Prim.Native.String.{String}
use wf_observer.Common.{ℕ, ◌&&◌, ltb, Option, none, some, if◌then◌else◌}
use native.Mathlib.Decide.{ℕ_discrete}

pub record ChatTime : Type 0 where
  pub hour : ℕ
  pub minute : ℕ

unfoldable pub ChatTime-discrete : Discrete ChatTime
ChatTime-discrete = hlevel (ℕ_discrete)

-- ChatTime::new
unfoldable pub new_time : ℕ → ℕ → Option ChatTime
new_time hour minute =
    if ltb hour 24 && ltb minute 60 then some (record { hour = hour; minute = minute }) else none

pub data ChatChannel : Type 0 where
  direct squad clan alliance region questions_and_answers recruiting trade design_council hub
        other :
      ChatChannel

pub data ChatDirection : Type 0 where
  incoming outgoing system unknown : ChatDirection

pub record ChatMessage : Type 0 where
  pub channel : ChatChannel
  pub sender : Option String
  pub text : String
  pub game_time : Option ChatTime
  pub direction : ChatDirection
  pub conversation_id : String
  pub peer : Option String

pub data ChatUpdate : Type 0 where
  message : ChatMessage → ChatUpdate
  gap : ChatChannel → ChatUpdate
