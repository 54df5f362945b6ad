-- ===== src/Frontend/Chat/Settled.antt =====
-- What the effects of useChat.ts leave alone: messages that are settled, and those of other
-- requests.
use blindference.Prelude.{
  String, ◌≡◌, refl, Bool, true, ◌&&◌, List, [], ◌∷◌, map, Option, none, some, inl, inr, Bool-cases,
  text_truthy, or_default, arith,
}
use blindference.Frontend.History.{HistoryStatus, Slot}
use blindference.Frontend.Status.Types.{DemoStatus, Stage}
use blindference.Frontend.Chat.{ChatEntry, Chat, is_open_for, map_messages}
use blindference.Frontend.Chat.Effects.{
  Browser, Output, progress_message, on_progress, accept_message, on_accepted, reject_message,
  on_rejected, accepted_output, accept_output, with_output, is_running, refused_text, preview_of,
}

-- One message after an effect on the active request: it is the same, or it was open and its id,
-- role, content and request are.
pub data Follows (active : String) : ChatEntry → ChatEntry → Type 0 where
  same : (m : ChatEntry) → Follows active m m
  moved :
      (m m' : ChatEntry)
      → is_open_for active m ≡ true
      → m'.id ≡ m.id
      → m'.role ≡ m.role
      → m'.content ≡ m.content
      → m'.request_id ≡ m.request_id
      → Follows active m m'

and_left : (a b : Bool) → a && b ≡ true → a ≡ true
and_left a b h = ground arith

-- The messages after an effect, one for each that was there, in order.
pub data AllFollow (active : String) : List ChatEntry → List ChatEntry → Type 0 where
  nil : AllFollow active [] []
  next :
      (m m' : ChatEntry) (ms ms' : List ChatEntry)
      → Follows active m m'
      → AllFollow active ms ms'
      → AllFollow active (m ∷ ms) (m' ∷ ms')

all_same : (active : String) (ms : List ChatEntry) → AllFollow active ms ms
all_same active [] = AllFollow.nil
all_same active (m ∷ ms) = AllFollow.next m m ms ms (Follows.same m) (all_same active ms)

map-Follows :
    (active : String) (f : ChatEntry → ChatEntry) (ms : List ChatEntry)
    → ((m : ChatEntry) → Follows active m (f m))
    → AllFollow active ms (map f ms)
map-Follows active f [] h = AllFollow.nil
map-Follows active f (m ∷ ms) h =
    AllFollow.next m (f m) ms (map f ms) (h m) (map-Follows active f ms h)

map_messages-Follows :
    (active : String) (f : ChatEntry → Slot → ChatEntry × Slot) (ms : List ChatEntry) (slot : Slot)
    → ((m : ChatEntry) (s : Slot) → Follows active m (f m s).0)
    → AllFollow active ms (map_messages f ms slot).0
unfolding map_messages
map_messages-Follows active f [] slot h = AllFollow.nil
map_messages-Follows active f (m ∷ ms) slot h =
    AllFollow.next m (f m slot).0 ms (map_messages f ms (f m slot).1).0 (h m slot)
      (map_messages-Follows active f ms (f m slot).1 h)

progress-Follows :
    (active : String) (stage : Stage) (m : ChatEntry)
    → Follows active m (progress_message active stage m)
unfolding progress_message
progress-Follows active stage m = elim (Bool-cases (is_open_for active m && is_running stage)) [
  | inl running ↦ rw running (
      Follows.moved m (record m { status = some HistoryStatus.processing })
        (and_left (is_open_for active m) (is_running stage) running) refl refl refl refl)
  | inr idle ↦ rw idle (Follows.same m)
]

accept-Follows :
    (b : Browser) (active : String) (out : Output) (m : ChatEntry) (s : Slot)
    → Follows active m (accept_message b active out m s).0
unfolding accept_message
accept-Follows b active out m s = elim (Bool-cases (is_open_for active m)) [
  | inl open_one ↦ elim (Bool-cases (b.auto_decrypt && b.client_ready)) [
    | inl auto ↦
        rw (open_one, auto) (Follows.moved m (with_output out m) open_one refl refl refl refl)
    | inr manual ↦
        rw (open_one, manual)
          (Follows.moved m (record (with_output out m) { status = some HistoryStatus.ready })
            open_one refl refl refl refl)
  ]
  | inr shut ↦ rw shut (Follows.same m)
]

reject-Follows :
    (b : Browser) (active reason : String) (preview : Option String) (m : ChatEntry) (s : Slot)
    → Follows active m (reject_message b active reason preview m s).0
unfolding reject_message
reject-Follows b active reason preview m s = elim (Bool-cases (is_open_for active m)) [
  | inl open_one ↦ rw open_one (
      Follows.moved m
        (record m {
          status = some HistoryStatus.error;
          error_msg = some reason;
          leader_output_preview = preview;
        })
        open_one refl refl refl refl)
  | inr shut ↦ rw shut (Follows.same m)
]

-- While the job runs, each message stays as it is, or it was open for the active request and keeps
-- its id, role, content and request.
on_progress-Follows :
    (status : Option DemoStatus) (chat : Chat)
    → AllFollow chat.active_request_id chat.messages (on_progress status chat).messages
unfolding on_progress
on_progress-Follows none chat = all_same chat.active_request_id chat.messages
on_progress-Follows (some status) chat = elim (Bool-cases (text_truthy chat.active_request_id)) [
  | inl there ↦ rw there (
      map-Follows chat.active_request_id (progress_message chat.active_request_id status.status)
        chat.messages (progress-Follows chat.active_request_id status.status))
  | inr gone ↦ rw gone (all_same chat.active_request_id chat.messages)
]

accept_output-Follows :
    (b : Browser) (out : Option Output) (chat : Chat)
    → AllFollow chat.active_request_id chat.messages (accept_output b out chat).messages
unfolding accept_output
accept_output-Follows b none chat = all_same chat.active_request_id chat.messages
accept_output-Follows b (some out) chat =
    map_messages-Follows chat.active_request_id (accept_message b chat.active_request_id out)
      chat.messages chat.history (accept-Follows b chat.active_request_id out)

on_accepted-Follows :
    (b : Browser) (status : Option DemoStatus) (chat : Chat)
    → AllFollow chat.active_request_id chat.messages (on_accepted b status chat).messages
unfolding on_accepted
on_accepted-Follows b status chat = accept_output-Follows b (accepted_output status) chat

on_rejected-Follows :
    (b : Browser) (status : Option DemoStatus) (chat : Chat)
    → AllFollow chat.active_request_id chat.messages (on_rejected b status chat).messages
unfolding on_rejected
on_rejected-Follows b none chat = all_same chat.active_request_id chat.messages
on_rejected-Follows b (some status) chat =
    elim (Bool-cases (refused_text status.status status.mode)) [
      | inl refused ↦ rw refused (
          map_messages-Follows chat.active_request_id
            (reject_message b chat.active_request_id
              (or_default status.failure_reason "Quorum rejected the leader result.")
              (preview_of status.text_result))
            chat.messages chat.history
            (reject-Follows b chat.active_request_id
              (or_default status.failure_reason "Quorum rejected the leader result.")
              (preview_of status.text_result)))
      | inr other ↦ rw other (all_same chat.active_request_id chat.messages)
    ]

-- The three effects on the status of the job keep the list of messages in its order and length, and
-- each message stays as it is, or it was an unsettled assistant's message of the active request and
-- keeps its id, its role, its content and its request.
pub effects_follow :
    (b : Browser) (status : Option DemoStatus) (chat : Chat)
    → AllFollow chat.active_request_id chat.messages (on_progress status chat).messages
      × AllFollow chat.active_request_id chat.messages (on_accepted b status chat).messages
      × AllFollow chat.active_request_id chat.messages (on_rejected b status chat).messages
effects_follow b status chat = (
  on_progress-Follows status chat,
  on_accepted-Follows b status chat,
  on_rejected-Follows b status chat,
)
