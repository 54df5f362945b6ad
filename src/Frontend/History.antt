-- ===== src/Frontend/History.antt =====
-- network/packages/frontend/src/utils/historyStore.ts: the history in `localStorage`. The slot holds
-- what `JSON.parse` makes of it; whether a write fits the quota is an argument.
pub mod Laws
pub mod Refinement
use blindference.Prelude.{
  ℕ, String, Bool, true, false, str_eq, if◌then◌else◌, List, [], ◌∷◌, Option, none, some,
}

pub data HistoryStatus : Type 0 where
  pending encrypting processing escrow ready done error : HistoryStatus

pub data EntryMode : Type 0 where
  chat risk : EntryMode

pub record HistoryEntry : Type 0 where
  pub id : String
  pub title : String
  pub prompt : String
  pub mode : EntryMode
  pub model : String
  pub status : HistoryStatus
  pub request_id : Option String
  pub output_cid : Option String
  pub encrypted_output_key_high : Option String
  pub encrypted_output_key_low : Option String
  pub decrypted_content : Option String
  pub error_msg : Option String
  pub timestamp : ℕ

-- One field of a `Partial<HistoryEntry>`, of those that the program writes.
pub data Assignment : Type 0 where
  status : HistoryStatus → Assignment
  request_id output_cid encrypted_output_key_high encrypted_output_key_low : String → Assignment
  decrypted_content error_msg : String → Assignment

abbrev pub Patch : Type 0
Patch = List Assignment

unfoldable pub assign : Assignment → HistoryEntry → HistoryEntry
assign (Assignment.status s) e = record e { status = s }
assign (Assignment.request_id s) e = record e { request_id = some s }
assign (Assignment.output_cid s) e = record e { output_cid = some s }
assign (Assignment.encrypted_output_key_high s) e = record e { encrypted_output_key_high = some s }
assign (Assignment.encrypted_output_key_low s) e = record e { encrypted_output_key_low = some s }
assign (Assignment.decrypted_content s) e = record e { decrypted_content = some s }
assign (Assignment.error_msg s) e = record e { error_msg = some s }

-- `{ ...entry, ...patch }`
unfoldable pub spread : Patch → HistoryEntry → HistoryEntry
unfolding assign
spread [] e = e
spread (a ∷ patch) e = spread patch (assign a e)

-- What the storage slot reads as: no item (or an empty text), a text that does not parse, a value
-- that is no array, or a list of entries.
pub data Slot : Type 0 where
  missing malformed not_array : Slot
  entries : List HistoryEntry → Slot

unfoldable pub load_history : Slot → List HistoryEntry
load_history (Slot.entries es) = es
load_history _ = []

-- A write that does not fit the quota throws, and the error is ignored.
unfoldable pub save_history : (List HistoryEntry → Bool) → List HistoryEntry → Slot → Slot
save_history fits es slot = if fits es then Slot.entries es else slot

unfoldable pub add_history_entry : (List HistoryEntry → Bool) → HistoryEntry → Slot → Slot
unfolding load_history save_history
add_history_entry fits entry slot = save_history fits (entry ∷ load_history slot) slot

abbrev push : HistoryEntry → Option (List HistoryEntry) → Option (List HistoryEntry)
push e none = none
push e (some es) = some (e ∷ es)

-- The index of the first entry with that id is found, and the entry there replaced; `none` is the
-- index -1.
unfoldable pub replace_entry : String → Patch → List HistoryEntry → Option (List HistoryEntry)
unfolding spread
replace_entry id patch [] = none
replace_entry id patch (e ∷ es) =
    let rest = replace_entry id patch es in
    if str_eq e.id id then some (spread patch e ∷ es) else push e rest

abbrev save_found : (List HistoryEntry → Bool) → Option (List HistoryEntry) → Slot → Slot
save_found fits none slot = slot
save_found fits (some es) slot = save_history fits es slot

unfoldable pub update_history_entry : (List HistoryEntry → Bool) → String → Patch → Slot → Slot
unfolding load_history save_history replace_entry
update_history_entry fits id patch slot =
    save_found fits (replace_entry id patch (load_history slot)) slot

unfoldable pub clear_history : Slot → Slot
clear_history slot = Slot.missing
