-- ===== src/Frontend/Chat/Reach.antt =====
-- The life of a chat: what the hook's effects and callbacks may do to it, in any order.
use blindference.Prelude.{
  ℕ, String, ◌≡◌, refl, sym, subst, Bool-cases, inl, inr, false, ◌&&◌, str_eq, List, [], ◌∷◌, ◌++◌,
  Option, none, some, Result, All, arith,
}
use blindference.Frontend.History.{HistoryStatus}
use blindference.Frontend.Status.Types.{DemoStatus}
use blindference.Frontend.Chat.{ChatEntry, Chat, ChatMetadata, is_assistant, has_request}
use blindference.Frontend.Chat.Effects.{
  Browser, on_progress, on_accepted, on_rejected, accepted_output, start_auto_decrypt, start_with,
  finish_auto_decrypt,
}
use blindference.Frontend.Chat.Actions.{
  push_user_message, update_assistant_status, update_assistant_metadata, fail_assistant_message,
  decrypt_message, decrypt_with,
}
use blindference.Frontend.Chat.Ready.{
  Decryptable, is_ready, map_keeps, on_progress_keeps, accept_output_keeps, on_rejected_keeps,
  finish_keeps,
}

-- One effect or callback. No caller of `updateAssistantStatus` sets `ready`: that is left to the
-- effect on acceptance.
pub data Step (b : Browser) : Chat → Chat → Type 0 where
  push :
      (chat : Chat) (user_id assistant_id : String) (now : ℕ) (prompt model : String)
      → Step b chat (push_user_message b user_id assistant_id now prompt model chat)
  status :
      (chat : Chat) (id : String) (s : HistoryStatus) (request_id : Option String)
      → is_ready (some s) ≡ false
      → Step b chat (update_assistant_status b id s request_id chat)
  metadata :
      (chat : Chat) (id : String) (patch : ChatMetadata)
      → Step b chat (update_assistant_metadata id patch chat)
  fail : (chat : Chat) (id e : String) → Step b chat (fail_assistant_message b id e chat)
  activate : (chat : Chat) (id : String) → Step b chat (record chat { active_request_id = id })
  progress : (chat : Chat) (s : Option DemoStatus) → Step b chat (on_progress s chat)
  accept : (chat : Chat) (s : Option DemoStatus) → Step b chat (on_accepted b s chat)
  reject : (chat : Chat) (s : Option DemoStatus) → Step b chat (on_rejected b s chat)
  start : (chat : Chat) (s : Option DemoStatus) → Step b chat (start_auto_decrypt b s chat).1
  finish :
      (chat : Chat) (rid : String) (outcome : Result String)
      → Step b chat (finish_auto_decrypt b rid outcome chat)
  decrypt :
      (chat : Chat) (open_answer : String → String → String → Result String) (id : String)
      → Step b chat (decrypt_message b open_answer id chat)

-- Any number of them; the settings and the client may change in between.
pub data Reach (chat : Chat) : Chat → Type 0 where
  here : Reach chat chat
  next : {c c' : Chat} (b : Browser) → Reach chat c → Step b c c' → Reach chat c'

All-append :
    (xs ys : List ChatEntry) → All Decryptable xs → All Decryptable ys → All Decryptable (xs ++ ys)
All-append [] ys hx hy = hy
All-append (x ∷ xs) ys (h, hx) hy = (h, All-append xs ys hx hy)

push_keeps :
    (b : Browser) (user_id assistant_id : String) (now : ℕ) (prompt model : String) (chat : Chat)
    → All Decryptable chat.messages
    → All Decryptable (push_user_message b user_id assistant_id now prompt model chat).messages
unfolding push_user_message
push_keeps b user_id assistant_id now prompt model chat h =
    All-append chat.messages _ h (refl, (refl, tt))

status_keeps :
    (b : Browser) (id : String) (s : HistoryStatus) (request_id : Option String) (chat : Chat)
    → is_ready (some s) ≡ false
    → All Decryptable chat.messages
    → All Decryptable (update_assistant_status b id s request_id chat).messages
unfolding update_assistant_status
status_keeps b id s none chat other h = map_keeps _ chat.messages (λ m keeps. ground arith) h
status_keeps b id s (some r) chat other h = map_keeps _ chat.messages (λ m keeps. ground arith) h

metadata_keeps :
    (id : String) (patch : ChatMetadata) (chat : Chat)
    → All Decryptable chat.messages
    → All Decryptable (update_assistant_metadata id patch chat).messages
unfolding update_assistant_metadata
metadata_keeps id patch chat h = map_keeps _ chat.messages (λ m keeps. ground arith) h

fail_keeps :
    (b : Browser) (id e : String) (chat : Chat)
    → All Decryptable chat.messages
    → All Decryptable (fail_assistant_message b id e chat).messages
unfolding fail_assistant_message
fail_keeps b id e chat h = map_keeps _ chat.messages (λ m keeps. ground arith) h

start_keeps :
    (b : Browser) (s : Option DemoStatus) (chat : Chat)
    → (start_auto_decrypt b s chat).1.messages ≡ chat.messages
unfolding start_auto_decrypt start_with
start_keeps b s chat = ground arith

decrypt_with_keeps :
    (b : Browser) (open_answer : String → String → String → Result String) (id : String)
    (keys : Option (String × String × String)) (chat : Chat)
    → All Decryptable chat.messages
    → All Decryptable (decrypt_with b open_answer id keys chat).messages
unfolding decrypt_with
decrypt_with_keeps b open_answer id none chat h = h
decrypt_with_keeps b open_answer id (some (high, low, cid)) chat h =
    elim (Bool-cases b.client_ready) [
      | inl there ↦ rw there (
          map_keeps _ chat.messages
            (λ m. finish_keeps (open_answer high low cid) (str_eq m.id id) m) h)
      | inr gone ↦ rw gone h
    ]

Step-Decryptable :
    {b : Browser} {c c' : Chat}
    → Step b c c'
    → All Decryptable c.messages
    → All Decryptable c'.messages
unfolding on_accepted finish_auto_decrypt decrypt_message
Step-Decryptable {b} (Step.push chat user_id assistant_id now prompt model) h =
    push_keeps b user_id assistant_id now prompt model chat h
Step-Decryptable {b} (Step.status chat id s request_id other) h =
    status_keeps b id s request_id chat other h
Step-Decryptable (Step.metadata chat id patch) h = metadata_keeps id patch chat h
Step-Decryptable {b} (Step.fail chat id e) h = fail_keeps b id e chat h
Step-Decryptable (Step.activate chat id) h = h
Step-Decryptable (Step.progress chat s) h = on_progress_keeps s chat h
Step-Decryptable {b} (Step.accept chat s) h = accept_output_keeps b (accepted_output s) chat h
Step-Decryptable {b} (Step.reject chat s) h = on_rejected_keeps b s chat h
Step-Decryptable {b} (Step.start chat s) h = subst (All Decryptable) (sym (start_keeps b s chat)) h
Step-Decryptable (Step.finish chat rid outcome) h =
    map_keeps _ chat.messages
      (λ m. finish_keeps outcome (is_assistant m.role && has_request rid m.request_id) m) h
Step-Decryptable {b} (Step.decrypt chat open_answer id) h =
    decrypt_with_keeps b open_answer id _ chat h

-- In a chat that starts with no message that is `ready` without its CID and both key halves, none
-- ever appears: not after any number of the hook's effects and callbacks, in any order, while the
-- settings and the CoFHE client come and go, where no caller sets `ready` by hand.
pub Reach-Decryptable :
    {c c' : Chat} → All Decryptable c.messages → Reach c c' → All Decryptable c'.messages
Reach-Decryptable h Reach.here = h
Reach-Decryptable h (Reach.next b r step) = Step-Decryptable step (Reach-Decryptable h r)
