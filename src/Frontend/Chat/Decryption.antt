-- ===== src/Frontend/Chat/Decryption.antt =====
-- How the outcome of a decryption reaches the history, and how often a decryption starts.
use blindference.Prelude.{
  String, ◌≡◌, refl, true, ◌&&◌, str_eq, List, none, some, Result, eq_refl, find_first,
}
use blindference.Frontend.History.{HistoryEntry, load_history, spread}
use blindference.Frontend.History.Laws.{entry_of, update_missing, update_found}
use blindference.Frontend.Chat.{ChatEntry, Chat, is_assistant}
use blindference.Frontend.Chat.Effects.{Browser, finish_auto_decrypt, decrypted_patch}
use blindference.Frontend.Chat.Actions.{decrypt_message, message_output}

-- The outcome of an automatic decryption is filed under the id of the request, and the history is
-- keyed by the id of the assistant's message: where no entry has the request's id for its own, the
-- history stays as it was.
pub finish_auto_decrypt_unfiled :
    (b : Browser) (rid : String) (outcome : Result String) (chat : Chat)
    → entry_of rid (load_history chat.history) ≡ none
    → (finish_auto_decrypt b rid outcome chat).history ≡ chat.history
unfolding finish_auto_decrypt
finish_auto_decrypt_unfiled b rid outcome chat h =
    update_missing b.fits rid (decrypted_patch outcome) chat.history h

-- Where the message is there with its output and the client is ready, the outcome of a decryption
-- that the user asks for is spread over the history's entry of that message.
pub decrypt_message_filed :
    (b : Browser) (decrypt : String → String → String → Result String) (id high low cid : String)
    (m : ChatEntry) (e : HistoryEntry) (chat : Chat)
    → b.client_ready ≡ true
    → ((es : List HistoryEntry) → b.fits es ≡ true)
    → find_first (λ x. str_eq x.id id && is_assistant x.role) chat.messages ≡ some m
    → message_output (some m) ≡ some (high, low, cid)
    → entry_of id (load_history chat.history) ≡ some e
    → entry_of id (load_history (decrypt_message b decrypt id chat).history)
      ≡ some (spread (decrypted_patch (decrypt high low cid)) e)
unfolding decrypt_message
decrypt_message_filed b decrypt id high low cid m e chat ready room found output filed =
    let filed_now =
      update_found b.fits id (decrypted_patch (decrypt high low cid)) chat.history e room filed
        id in
    rw (found, output, ready, filed_now, eq_refl id) refl
