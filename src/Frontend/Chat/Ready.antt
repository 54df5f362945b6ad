-- ===== src/Frontend/Chat/Ready.antt =====
-- A chat message that is `ready` has what its decryption needs, whatever effect of useChat.ts runs.
use blindference.Prelude.{
  String, ◌≡◌, Bool, true, false, ◌&&◌, ◌||◌, not, if◌then◌else◌, List, [], ◌∷◌, map, Option, none,
  some, inl, inr, Bool-cases, arith, is_some, Result, text_truthy, or_default, All,
}
use blindference.Frontend.History.{HistoryStatus, Slot}
use blindference.Frontend.Status.Types.{DemoStatus, Stage}
use blindference.Frontend.Chat.{ChatEntry, Chat, map_messages, is_assistant, has_request}
use blindference.Frontend.Chat.Effects.{
  Browser, Output, progress_message, on_progress, accept_message, accept_output, on_accepted,
  reject_message, on_rejected, finish_auto_decrypt, decrypted, accepted_output, refused_text,
  preview_of,
}

abbrev pub is_ready : Option HistoryStatus → Bool
is_ready (some HistoryStatus.ready) = true
is_ready _ = false

abbrev pub has_output : ChatEntry → Bool
has_output m =
    is_some m.output_cid
    && (is_some m.encrypted_output_key_high && is_some m.encrypted_output_key_low)

-- Where the status is `ready`, the CID and both key halves are there.
abbrev pub Decryptable : ChatEntry → Type 0
Decryptable m = not (is_ready m.status) || has_output m ≡ true

pub map_keeps :
    (f : ChatEntry → ChatEntry) (ms : List ChatEntry)
    → ((m : ChatEntry) → Decryptable m → Decryptable (f m))
    → All Decryptable ms
    → All Decryptable (map f ms)
map_keeps f [] keeps h = tt
map_keeps f (m ∷ ms) keeps (p, h) = (keeps m p, map_keeps f ms keeps h)

map_messages_keeps :
    (f : ChatEntry → Slot → ChatEntry × Slot) (ms : List ChatEntry) (slot : Slot)
    → ((m : ChatEntry) (s : Slot) → Decryptable m → Decryptable (f m s).0)
    → All Decryptable ms
    → All Decryptable (map_messages f ms slot).0
unfolding map_messages
map_messages_keeps f [] slot keeps h = tt
map_messages_keeps f (m ∷ ms) slot keeps (p, h) =
    (keeps m slot p, map_messages_keeps f ms (f m slot).1 keeps h)

progress_keeps :
    (active : String) (stage : Stage) (m : ChatEntry)
    → Decryptable m
    → Decryptable (progress_message active stage m)
unfolding progress_message
progress_keeps active stage m h = ground arith

accept_keeps :
    (b : Browser) (active : String) (out : Output) (m : ChatEntry) (s : Slot)
    → Decryptable m
    → Decryptable (accept_message b active out m s).0
unfolding accept_message
accept_keeps b active out m s h = ground arith

reject_keeps :
    (b : Browser) (active reason : String) (preview : Option String) (m : ChatEntry) (s : Slot)
    → Decryptable m
    → Decryptable (reject_message b active reason preview m s).0
unfolding reject_message
reject_keeps b active reason preview m s h = ground arith

pub finish_keeps :
    (outcome : Result String) (c : Bool) (m : ChatEntry)
    → Decryptable m
    → Decryptable (if c then decrypted outcome m else m)
finish_keeps outcome c m h = ground arith

pub on_progress_keeps :
    (status : Option DemoStatus) (chat : Chat)
    → All Decryptable chat.messages
    → All Decryptable (on_progress status chat).messages
unfolding on_progress
on_progress_keeps none chat h = h
on_progress_keeps (some status) chat h = elim (Bool-cases (text_truthy chat.active_request_id)) [
  | inl there ↦ rw there (
      map_keeps (progress_message chat.active_request_id status.status) chat.messages
        (progress_keeps chat.active_request_id status.status) h)
  | inr gone ↦ rw gone h
]

pub accept_output_keeps :
    (b : Browser) (out : Option Output) (chat : Chat)
    → All Decryptable chat.messages
    → All Decryptable (accept_output b out chat).messages
unfolding accept_output
accept_output_keeps b none chat h = h
accept_output_keeps b (some out) chat h =
    map_messages_keeps (accept_message b chat.active_request_id out) chat.messages chat.history
      (accept_keeps b chat.active_request_id out) h

pub on_rejected_keeps :
    (b : Browser) (status : Option DemoStatus) (chat : Chat)
    → All Decryptable chat.messages
    → All Decryptable (on_rejected b status chat).messages
unfolding on_rejected
on_rejected_keeps b none chat h = h
on_rejected_keeps b (some status) chat h =
    elim (Bool-cases (refused_text status.status status.mode)) [
      | inl refused ↦
          let reason = or_default status.failure_reason "Quorum rejected the leader result." in
          rw refused (
            map_messages_keeps
              (reject_message b chat.active_request_id reason (preview_of status.text_result))
              chat.messages chat.history
              (reject_keeps b chat.active_request_id reason (preview_of status.text_result)) h)
      | inr other ↦ rw other h
    ]

-- Where every message that is `ready` has its CID and both key halves, so it is after each effect
-- of the hook: on progress, on acceptance, on refusal, and when an automatic decryption comes back.
pub effects-Decryptable :
    (b : Browser) (status : Option DemoStatus) (rid : String) (outcome : Result String)
    (chat : Chat)
    → All Decryptable chat.messages
    → All Decryptable (on_progress status chat).messages
      × All Decryptable (on_accepted b status chat).messages
      × All Decryptable (on_rejected b status chat).messages
      × All Decryptable (finish_auto_decrypt b rid outcome chat).messages
unfolding on_accepted finish_auto_decrypt
effects-Decryptable b status rid outcome chat h = (
  on_progress_keeps status chat h,
  accept_output_keeps b (accepted_output status) chat h,
  on_rejected_keeps b status chat h,
  map_keeps
      (λ m. if is_assistant m.role && has_request rid m.request_id then decrypted outcome m else m)
      chat.messages
      (λ m. finish_keeps outcome (is_assistant m.role && has_request rid m.request_id) m) h,
)
