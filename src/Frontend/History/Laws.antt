-- ===== src/Frontend/History/Laws.antt =====
-- The history as a map from ids to entries, newest first.
use blindference.Prelude.{
  String, ◌≡◌, refl, Bool, true, str_eq, eq_iff, if◌then◌else◌, List, [], ◌∷◌, Option, none, some,
  inl, inr, Bool-cases, find_first, arith,
}
use blindference.Frontend.History.{
  HistoryEntry, Assignment, Patch, Slot, assign, spread, load_history, replace_entry,
  add_history_entry, update_history_entry,
}

-- The first entry with that id.
abbrev pub entry_of : String → List HistoryEntry → Option HistoryEntry
entry_of id es = find_first (λ e. str_eq e.id id) es

assign_id : (a : Assignment) (e : HistoryEntry) → (assign a e).id ≡ e.id
unfolding assign
assign_id a e = ground arith

spread_id : (patch : Patch) (e : HistoryEntry) → (spread patch e).id ≡ e.id
unfolding spread
spread_id [] e = refl
spread_id (a ∷ patch) e = rw (spread_id patch (assign a e)) (assign_id a e)

-- Where the entry is missing.
pub replace_entry_missing :
    (id : String) (patch : Patch) (es : List HistoryEntry)
    → entry_of id es ≡ none
    → replace_entry id patch es ≡ none
unfolding replace_entry
replace_entry_missing id patch [] h = refl
replace_entry_missing id patch (e ∷ es) h = ground (arith, replace_entry_missing id patch es)

replace_entry_found :
    (id : String) (patch : Patch) (es : List HistoryEntry) (e : HistoryEntry)
    → entry_of id es ≡ some e
    → (es' : List HistoryEntry) × (replace_entry id patch es ≡ some es')
      × ((j : String)
          → entry_of j es' ≡ (if str_eq id j then some (spread patch e) else entry_of j es))
unfolding replace_entry
replace_entry_found id patch [] e h = cc
replace_entry_found id patch (x ∷ es) e h = elim (Bool-cases (str_eq x.id id)) [
  | inl here ↦
      let same : x ≡ e = ground arith in
      (
        spread patch x ∷ es,
        rw here,
        λ j. ground (
          arith,
          spread_id patch x,
          eq_iff x.id id,
          eq_iff x.id j,
          eq_iff id j,
          eq_iff (spread patch x).id j,
        ),
      )
  | inr later ↦
      let (es', found, reads) = replace_entry_found id patch es e (ground arith) in
      (
        x ∷ es',
        rw (later, found),
        λ j. ground (arith, reads j, eq_iff x.id id, eq_iff x.id j, eq_iff id j),
      )
]

-- An entry added within the quota is the newest, and the others stay behind it.
pub load-add :
    (fits : List HistoryEntry → Bool) (entry : HistoryEntry) (slot : Slot)
    → fits (entry ∷ load_history slot) ≡ true
    → load_history (add_history_entry fits entry slot) ≡ entry ∷ load_history slot
unfolding add_history_entry
load-add fits entry slot h = rw h

-- Updating an id that no entry has changes nothing.
pub update_missing :
    (fits : List HistoryEntry → Bool) (id : String) (patch : Patch) (slot : Slot)
    → entry_of id (load_history slot) ≡ none
    → update_history_entry fits id patch slot ≡ slot
unfolding update_history_entry
update_missing fits id patch slot h = rw (replace_entry_missing id patch (load_history slot) h)

-- Updating an id within the quota spreads the patch over the first entry of that id, and what any
-- other id reads as stays.
pub update_found :
    (fits : List HistoryEntry → Bool) (id : String) (patch : Patch) (slot : Slot) (e : HistoryEntry)
    → ((es : List HistoryEntry) → fits es ≡ true)
    → entry_of id (load_history slot) ≡ some e
    → (j : String)
    → entry_of j (load_history (update_history_entry fits id patch slot))
      ≡ (if str_eq id j then some (spread patch e) else entry_of j (load_history slot))
unfolding update_history_entry load_history
update_found fits id patch slot e room h j =
    let (es', found, reads) = replace_entry_found id patch (load_history slot) e h in
    rw (found, room es') (reads j)
