-- ===== src/Frontend/Chat/Effects.antt =====
-- The effects of useChat.ts, which run when the job's status changes.
use blindference.Prelude.{
  String, Bool, true, false, not, ◌&&◌, str_eq, any_of, if◌then◌else◌, List, [], ◌∷◌, map, Option,
  none, some, Result, ok, err, text_truthy, or_default,
}
use blindference.Frontend.History.{
  HistoryEntry, HistoryStatus, Assignment, Patch, Slot, update_history_entry,
}
use blindference.Frontend.Status.Types.{DemoStatus, Stage, Mode, TextResult}
use blindference.Frontend.Chat.{
  ChatEntry, Chat, is_assistant, has_request, is_open_for, map_messages,
}

abbrev pub is_running : Stage → Bool
is_running Stage.queued = true
is_running Stage.assigned = true
is_running Stage.executing = true
is_running _ = false

-- The pending message of the active request goes on to `processing` while the job runs.
unfoldable pub progress_message : String → Stage → ChatEntry → ChatEntry
progress_message active stage m =
    if is_open_for active m && is_running stage
    then record m { status = some HistoryStatus.processing }
    else m

unfoldable pub on_progress : Option DemoStatus → Chat → Chat
unfolding progress_message
on_progress none chat = chat
on_progress (some status) chat =
    if text_truthy chat.active_request_id
    then record chat {
      messages = map (progress_message chat.active_request_id status.status) chat.messages;
    }
    else chat

-- The key halves and the CID of an accepted text job, where none of them is missing or empty.
pub record Output : Type 0 where
  pub high : String
  pub low : String
  pub cid : String
  pub preview : Option String

abbrev output_of : Option String → Option String → Option String → Option String → Option Output
output_of (some high) (some low) (some cid) preview =
    if text_truthy high && (text_truthy low && text_truthy cid)
    then some (record { high = high; low = low; cid = cid; preview = preview })
    else none
output_of _ _ _ preview = none

abbrev pub accepted_text : Stage → Mode → Bool
accepted_text Stage.accepted Mode.text = true
accepted_text _ _ = false

abbrev pub text_output : Option TextResult → Option Output
text_output none = none
text_output (some r) =
    output_of r.encrypted_output_key_high r.encrypted_output_key_low r.output_cid
      r.leader_output_preview

unfoldable pub accepted_output : Option DemoStatus → Option Output
accepted_output none = none
accepted_output (some status) =
    if accepted_text status.status status.mode then text_output status.text_result else none

-- The browser's side: the quota of `localStorage`, the auto-decrypt setting, and whether the CoFHE
-- client is there and ready.
pub record Browser : Type 0 where
  pub fits : List HistoryEntry → Bool
  pub auto_decrypt : Bool
  pub client_ready : Bool

abbrev pub with_output : Output → ChatEntry → ChatEntry
with_output out m = record m {
  output_cid = some out.cid;
  encrypted_output_key_high = some out.high;
  encrypted_output_key_low = some out.low;
  leader_output_preview = out.preview;
}

abbrev pub ready_patch : Output → Patch
ready_patch out =
    Assignment.status HistoryStatus.ready
    ∷ Assignment.output_cid out.cid
    ∷ Assignment.encrypted_output_key_high out.high
    ∷ Assignment.encrypted_output_key_low out.low
    ∷ []

unfoldable pub accept_message : Browser → String → Output → ChatEntry → Slot → ChatEntry × Slot
accept_message b active out m slot =
    if is_open_for active m
    then if b.auto_decrypt && b.client_ready then (with_output out m, slot) else (
      record (with_output out m) { status = some HistoryStatus.ready },
      update_history_entry b.fits m.id (ready_patch out) slot,
    )
    else (m, slot)

abbrev store_messages : Chat → List ChatEntry × Slot → Chat
store_messages chat (ms, slot) = record chat { messages = ms; history = slot }

unfoldable pub accept_output : Browser → Option Output → Chat → Chat
unfolding accept_message map_messages
accept_output b none chat = chat
accept_output b (some out) chat =
    store_messages chat
      (map_messages (accept_message b chat.active_request_id out) chat.messages chat.history)

unfoldable pub on_accepted : Browser → Option DemoStatus → Chat → Chat
unfolding accepted_output accept_output
on_accepted b status chat = accept_output b (accepted_output status) chat

unfoldable pub start_with : Browser → Option Output → Chat → Option Output × Chat
start_with b none chat = (none, chat)
start_with b (some out) chat =
    if b.client_ready
      && (b.auto_decrypt
          && not (any_of (λ id. str_eq id chat.active_request_id) chat.decrypted_ids))
    then (some out, record chat { decrypted_ids = chat.active_request_id ∷ chat.decrypted_ids })
    else (none, chat)

-- Whether the auto-decrypt effect starts a decryption, and of what.
unfoldable pub start_auto_decrypt : Browser → Option DemoStatus → Chat → Option Output × Chat
unfolding accepted_output start_with
start_auto_decrypt b status chat = start_with b (accepted_output status) chat

abbrev pub decrypted : Result String → ChatEntry → ChatEntry
decrypted (ok answer) m = record m { status = some HistoryStatus.done; content = answer }
decrypted (err e) m = record m { status = some HistoryStatus.error; error_msg = some e }

abbrev pub decrypted_patch : Result String → Patch
decrypted_patch (ok answer) =
    Assignment.status HistoryStatus.done ∷ Assignment.decrypted_content answer ∷ []
decrypted_patch (err e) = Assignment.status HistoryStatus.error ∷ Assignment.error_msg e ∷ []

-- What follows when the decryption that was started for request `rid` comes back.
unfoldable pub finish_auto_decrypt : Browser → String → Result String → Chat → Chat
finish_auto_decrypt b rid outcome chat = record chat {
  messages =
      map
        (λ m.
          if is_assistant m.role && has_request rid m.request_id then decrypted outcome m else m)
        chat.messages;
  history = update_history_entry b.fits rid (decrypted_patch outcome) chat.history;
}

abbrev pub refused_text : Stage → Mode → Bool
refused_text Stage.rejected Mode.text = true
refused_text Stage.failed Mode.text = true
refused_text _ _ = false

abbrev pub preview_of : Option TextResult → Option String
preview_of none = none
preview_of (some r) = r.leader_output_preview

unfoldable pub reject_message :
    Browser → String → String → Option String → ChatEntry → Slot → ChatEntry × Slot
reject_message b active reason preview m slot =
    if is_open_for active m
    then (
      record m {
        status = some HistoryStatus.error;
        error_msg = some reason;
        leader_output_preview = preview;
      },
      update_history_entry b.fits m.id
          (Assignment.status HistoryStatus.error ∷ Assignment.error_msg reason ∷ []) slot,
    )
    else (m, slot)

unfoldable pub on_rejected : Browser → Option DemoStatus → Chat → Chat
unfolding reject_message map_messages
on_rejected b none chat = chat
on_rejected b (some status) chat =
    if refused_text status.status status.mode
    then store_messages chat (
        map_messages
          (reject_message b chat.active_request_id
            (or_default status.failure_reason "Quorum rejected the leader result.")
            (preview_of status.text_result))
          chat.messages chat.history)
    else chat
