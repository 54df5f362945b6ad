-- ===== src/Tests/Chat.antt =====
-- The chat at a concrete exchange: one question, its answer pending.
use blindference.Prelude.{◌≡◌, refl, true, String, [], ◌∷◌, Option, none, some, Result, ok}
use blindference.Frontend.History.{
  HistoryStatus, EntryMode, HistoryEntry, Slot, load_history, add_history_entry,
}
use blindference.Frontend.History.Laws.{load-add}
use blindference.Frontend.Status.Types.{DemoStatus}
use blindference.Frontend.Status.Job.{map_job_to_demo_status}
use blindference.Frontend.Chat.{Role, ChatEntry, Chat}
use blindference.Frontend.Chat.Effects.{Browser, Output, on_progress, on_accepted, on_rejected}
use blindference.Frontend.Chat.Settled.{AllFollow, effects_follow}
use blindference.Tests.Status.{job}

abbrev pub entry : HistoryEntry
entry = record {
  id = "m2";
  title = "hello";
  prompt = "hello";
  mode = EntryMode.chat;
  model = "m";
  status = HistoryStatus.ready;
  request_id = some "r";
  output_cid = some "cid";
  encrypted_output_key_high = some "1";
  encrypted_output_key_low = some "2";
  decrypted_content = none;
  error_msg = none;
  timestamp = 9;
}

abbrev answer_message : ChatEntry
answer_message = record {
  id = "m2";
  role = Role.assistant;
  content = "";
  status = some HistoryStatus.ready;
  request_id = some "r";
  output_cid = some "cid";
  encrypted_output_key_high = some "1";
  encrypted_output_key_low = some "2";
  error_msg = none;
  leader_output_preview = none;
  metadata = none;
  timestamp = some 9;
}

abbrev pub chat : Chat
chat = record {
  messages = answer_message ∷ [];
  history = Slot.entries (entry ∷ []);
  decrypted_ids = [];
  active_request_id = "r";
}

abbrev pub browser : Browser
browser = record { fits = λ es. true; auto_decrypt = true; client_ready = true }

abbrev pub accepted : Option DemoStatus
accepted = some (map_job_to_demo_status job)

load-add_example :
    load_history (add_history_entry (λ es. true) entry Slot.missing)
    ≡ entry ∷ load_history Slot.missing
load-add_example = load-add (λ es. true) entry Slot.missing refl

effects_follow_example :
    AllFollow "r" chat.messages (on_progress accepted chat).messages
    × AllFollow "r" chat.messages (on_accepted browser accepted chat).messages
    × AllFollow "r" chat.messages (on_rejected browser accepted chat).messages
effects_follow_example = effects_follow browser accepted chat

abbrev output : Output
output = record { high = "1"; low = "2"; cid = "cid"; preview = none }

abbrev decrypt : String → String → String → Result String
decrypt high low cid = ok "hi"
