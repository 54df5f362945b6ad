-- ===== src/Frontend/History/Refinement.antt =====
-- The history as an abstract map from ids to entries, which forgets the order of the entries and
-- those that a newer one of the same id hides.
use blindference.Prelude.{
  String, ◌≡◌, inl, inr, refl, ap, sym, ◌∙◌, Bool, true, str_eq, eq_iff, if◌then◌else◌, List, [],
  ◌∷◌, Option, none, some, Bool-cases,
}
use std.Path.{fun_ext}
use blindference.Frontend.History.{
  HistoryEntry, Patch, Slot, spread, load_history, add_history_entry, update_history_entry,
  clear_history,
}
use blindference.Frontend.History.Laws.{entry_of, load-add, update_missing, update_found}

-- A call of the store.
pub data Command : Type 0 where
  add : HistoryEntry → Command
  update : String → Patch → Command
  clear : Command

unfoldable pub run : (List HistoryEntry → Bool) → Command → Slot → Slot
unfolding add_history_entry update_history_entry clear_history
run fits (add entry) slot = add_history_entry fits entry slot
run fits (update id patch) slot = update_history_entry fits id patch slot
run fits clear slot = clear_history slot

unfoldable pub run_all : (List HistoryEntry → Bool) → List Command → Slot → Slot
unfolding run
run_all fits [] slot = slot
run_all fits (c ∷ cs) slot = run_all fits cs (run fits c slot)

-- The abstract store: what each id reads as.
abbrev pub View : Type 0
View = String → Option HistoryEntry

abbrev pub spread_over : Patch → Option HistoryEntry → Option HistoryEntry
spread_over patch none = none
spread_over patch (some e) = some (spread patch e)

unfoldable pub apply : Command → View → View
apply (add entry) v = λ j. if str_eq entry.id j then some entry else v j
apply (update id patch) v = λ j. if str_eq id j then spread_over patch (v id) else v j
apply clear v = λ j. none

unfoldable pub apply_all : List Command → View → View
unfolding apply
apply_all [] v = v
apply_all (c ∷ cs) v = apply_all cs (apply c v)

abbrev pub view : Slot → View
view slot j = entry_of j (load_history slot)

module _ (fits : List HistoryEntry → Bool) (room : (es : List HistoryEntry) → fits es ≡ true) where
  still_missing :
      (id j : String) (slot : Slot)
      → view slot id ≡ none
      → view slot j ≡ (if str_eq id j then none else view slot j)
  still_missing id j slot h = elim (Bool-cases (str_eq id j)) [
    | inl same ↦ rw same (ap (view slot) (sym ((eq_iff id j).0 same)) ∙ h)
    | inr other ↦ rw other refl
  ]

  update_refines :
      (id : String) (patch : Patch) (slot : Slot) (found : Option HistoryEntry) (j : String)
      → view slot id ≡ found
      → view (update_history_entry fits id patch slot) j
        ≡ (if str_eq id j then spread_over patch found else view slot j)
  update_refines id patch slot none j h =
      ap (λ s. view s j) (update_missing fits id patch slot h) ∙ still_missing id j slot h
  update_refines id patch slot (some e) j h = update_found fits id patch slot e room h j

  run_refines :
      (c : Command) (slot : Slot) (j : String) → view (run fits c slot) j ≡ apply c (view slot) j
  unfolding run apply
  run_refines (add entry) slot j =
      ap (entry_of j) (load-add fits entry slot (room (entry ∷ load_history slot)))
  run_refines (update id patch) slot j = update_refines id patch slot (view slot id) j refl
  run_refines clear slot j = refl

  -- While the quota has room, the stored list refines the abstract map: after any calls of the store,
  -- in any order, every id reads as in the map after the same calls.
  pub run_all_refines :
      (commands : List Command) (slot : Slot)
      → view (run_all fits commands slot) ≡ apply_all commands (view slot)
  unfolding run_all apply_all
  run_all_refines [] slot = refl
  run_all_refines (c ∷ cs) slot =
      run_all_refines cs (run fits c slot) ∙ ap (apply_all cs) (fun_ext (run_refines c slot))
