-- ===== src/Frontend/Chat.antt =====
-- network/packages/frontend/src/hooks/useChat.ts: the messages of the chat, their effects on a
-- change of the job's status, and the callbacks. Ids, the time, the settings read from
-- `localStorage`, and the outcome of a decryption are arguments.
pub mod Effects
pub mod Actions
pub mod Settled
pub mod Decryption
pub mod Ready
pub mod Reach
use blindference.Prelude.{
  ℕ, String, Bool, true, false, not, ◌&&◌, ◌||◌, ltb, str_eq, if◌then◌else◌, List, [], ◌∷◌, Option,
  none, some, text_length, or_default, ◌<+>◌,
}
use blindference.Frontend.History.{HistoryStatus, EntryMode, HistoryEntry, Slot}
use blindference.Frontend.Status.Types.{DemoStatus, TextResult}

pub data Role : Type 0 where
  user assistant : Role

abbrev pub ChatMetadata : Type 0
ChatMetadata = List (String × String)

pub record ChatEntry : Type 0 where
  pub id : String
  pub role : Role
  pub content : String
  pub status : Option HistoryStatus
  pub request_id : Option String
  pub output_cid : Option String
  pub encrypted_output_key_high : Option String
  pub encrypted_output_key_low : Option String
  pub error_msg : Option String
  pub leader_output_preview : Option String
  pub metadata : Option ChatMetadata
  pub timestamp : Option ℕ

pub record Chat : Type 0 where
  pub messages : List ChatEntry
  pub history : Slot
  pub decrypted_ids : List String
  pub active_request_id : String

abbrev pub is_assistant : Role → Bool
is_assistant Role.assistant = true
is_assistant Role.user = false

-- `m.requestId === id`
abbrev pub has_request : String → Option String → Bool
has_request id none = false
has_request id (some r) = str_eq r id

-- `m.status === 'done' || m.status === 'error' || m.status === 'ready'`
abbrev pub is_settled : Option HistoryStatus → Bool
is_settled (some HistoryStatus.done) = true
is_settled (some HistoryStatus.error) = true
is_settled (some HistoryStatus.ready) = true
is_settled _ = false

-- An assistant's message of that request that is not settled.
abbrev pub is_open_for : String → ChatEntry → Bool
is_open_for request_id m =
    is_assistant m.role && (has_request request_id m.request_id && not (is_settled m.status))

-- `messages.map`, where the function may also update the history.
unfoldable pub map_messages :
    (ChatEntry → Slot → ChatEntry × Slot) → List ChatEntry → Slot → List ChatEntry × Slot
map_messages f [] slot = ([], slot)
map_messages f (m ∷ ms) slot =
    let (m', slot') = f m slot in let (ms', slot'') = map_messages f ms slot' in (m' ∷ ms', slot'')

abbrev pub lookup_text : String → ChatMetadata → Option String
lookup_text key [] = none
lookup_text key ((k, v) ∷ more) = if str_eq k key then some v else lookup_text key more

abbrev pub model_of : Option ChatMetadata → String
model_of none = "unknown"
model_of (some md) = or_default (lookup_text "model" md) "unknown"
