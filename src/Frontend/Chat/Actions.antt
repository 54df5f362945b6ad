-- ===== src/Frontend/Chat/Actions.antt =====
-- The callbacks that useChat.ts hands out.
use blindference.Prelude.{
  ℕ, zero, suc, String, ◌&&◌, ltb, str_eq, if◌then◌else◌, List, [], ◌∷◌, ◌++◌, map, Option, none,
  some, Result, find_first, text_truthy, text_length, or_default, ◌<+>◌,
}
use blindference.Frontend.History.{
  HistoryEntry, HistoryStatus, EntryMode, Assignment, Slot, add_history_entry, update_history_entry,
}
use blindference.Frontend.Chat.{Role, ChatMetadata, ChatEntry, Chat, is_assistant, model_of}
use blindference.Frontend.Chat.Effects.{Browser, decrypted, decrypted_patch}

-- `text.slice(0, n)`
unfoldable pub first_chars : ℕ → String → String
first_chars zero s = ""
first_chars (suc n) String.[] = ""
first_chars (suc n) (String.◌∷◌ c s) = String.◌∷◌ c (first_chars n s)

unfoldable pub title_of : String → String
unfolding first_chars
title_of prompt = first_chars 60 prompt <+> (if ltb 60 (text_length prompt) then "..." else "")

unfoldable pub make_history_from_message : ℕ → ChatEntry → String → HistoryEntry
unfolding title_of
make_history_from_message now m prompt = record {
  id = m.id;
  title = title_of prompt;
  prompt = prompt;
  mode = EntryMode.chat;
  model = model_of m.metadata;
  status = or_default m.status HistoryStatus.pending;
  request_id = m.request_id;
  output_cid = m.output_cid;
  encrypted_output_key_high = m.encrypted_output_key_high;
  encrypted_output_key_low = m.encrypted_output_key_low;
  decrypted_content = none;
  error_msg = m.error_msg;
  timestamp = or_default m.timestamp now;
}

abbrev entry : String → Role → String → String → HistoryStatus → ℕ → ChatEntry
entry id role content model status now = record {
  id = id;
  role = role;
  content = content;
  status = some status;
  request_id = none;
  output_cid = none;
  encrypted_output_key_high = none;
  encrypted_output_key_low = none;
  error_msg = none;
  leader_output_preview = none;
  metadata = some (("model", model) ∷ []);
  timestamp = some now;
}

-- The two ids that `uid` draws, and the time, come first.
unfoldable pub push_user_message : Browser → String → String → ℕ → String → String → Chat → Chat
unfolding make_history_from_message
push_user_message b user_id assistant_id now prompt model chat =
    let user_entry = entry user_id Role.user prompt model HistoryStatus.done now in
    let assistant_entry = entry assistant_id Role.assistant "" model HistoryStatus.encrypting now in
    record chat {
      messages = chat.messages ++ (user_entry ∷ assistant_entry ∷ []);
      history =
          add_history_entry b.fits (make_history_from_message now assistant_entry prompt)
            chat.history;
    }

abbrev update_by_id : String → (ChatEntry → ChatEntry) → List ChatEntry → List ChatEntry
update_by_id id f = map (λ m. if str_eq m.id id then f m else m)

abbrev with_status : HistoryStatus → Option String → ChatEntry → ChatEntry
with_status status none m = record m { status = some status }
with_status status (some r) m =
    if text_truthy r
    then record m { status = some status; request_id = some r }
    else record m { status = some status }

abbrev status_history : Browser → String → HistoryStatus → Option String → Slot → Slot
status_history b id status none slot = slot
status_history b id status (some r) slot =
    if text_truthy r
    then update_history_entry b.fits id (Assignment.status status ∷ Assignment.request_id r ∷ [])
        slot
    else slot

unfoldable pub update_assistant_status :
    Browser → String → HistoryStatus → Option String → Chat → Chat
update_assistant_status b assistant_id status request_id chat = record chat {
  messages = update_by_id assistant_id (with_status status request_id) chat.messages;
  history = status_history b assistant_id status request_id chat.history;
}

unfoldable pub fail_assistant_message : Browser → String → String → Chat → Chat
fail_assistant_message b assistant_id error_msg chat = record chat {
  messages =
      update_by_id assistant_id
        (λ m. record m { status = some HistoryStatus.error; error_msg = some error_msg })
        chat.messages;
  history =
      update_history_entry b.fits assistant_id
        (Assignment.status HistoryStatus.error ∷ Assignment.error_msg error_msg ∷ []) chat.history;
}

-- `{ ...m.metadata, ...patch }`: a key reads as the patch's value first.
unfoldable pub update_assistant_metadata : String → ChatMetadata → Chat → Chat
update_assistant_metadata assistant_id patch chat = record chat {
  messages =
      update_by_id assistant_id
        (λ m. record m { metadata = some (patch ++ or_default m.metadata []) }) chat.messages;
}

abbrev keys : Option String → Option String → Option String → Option (String × String × String)
keys (some high) (some low) (some cid) =
    if text_truthy high && (text_truthy low && text_truthy cid) then some (high, low, cid) else none
keys _ _ _ = none

abbrev pub message_output : Option ChatEntry → Option (String × String × String)
message_output none = none
message_output (some m) = keys m.encrypted_output_key_high m.encrypted_output_key_low m.output_cid

unfoldable pub decrypt_with :
    Browser
    → (String → String → String → Result String)
    → String
    → Option (String × String × String)
    → Chat
    → Chat
decrypt_with b decrypt assistant_id none chat = chat
decrypt_with b decrypt assistant_id (some (high, low, cid)) chat =
    if b.client_ready
    then (let outcome = decrypt high low cid in
        record chat {
          messages = update_by_id assistant_id (decrypted outcome) chat.messages;
          history = update_history_entry b.fits assistant_id (decrypted_patch outcome) chat.history;
        })
    else chat

-- `decrypt` stands for `decryptOutputKey` and `downloadAndDecryptTextOutput` with the two handles
-- and the CID.
unfoldable pub decrypt_message :
    Browser → (String → String → String → Result String) → String → Chat → Chat
unfolding decrypt_with
decrypt_message b decrypt assistant_id chat =
    decrypt_with b decrypt assistant_id
      (message_output
        (find_first (λ m. str_eq m.id assistant_id && is_assistant m.role) chat.messages))
      chat
