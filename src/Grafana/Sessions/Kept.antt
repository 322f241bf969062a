-- ===== src/Grafana/Sessions/Kept.antt =====
-- internal/tools/grafana: the sessions over any sequence of calls that change the layout.
use gooners.Base.{
  list_beq_sound, ℤ, ℕ, ◌≡◌, refl, sym, ap, ◌∙◌, ◌⊎◌, inl, inr, true, Option, none, some, List, [],
  ◌∷◌, ◌==◌, nat_eq, list_eq, Bool-cases, Sum-cases, Option-cases, Text,
}
use gooners.Base.Map
use gooners.Base.Map.{Map}
use gooners.Grafana.Sessions.{
  DashboardSession, Error, Sessions, update, delete_row, move_row, move_panel,
}
use gooners.Grafana.Sessions.Moves.{
  panels_of, move_row-panels, delete_row-panels, move_panel-panels,
}

-- A change of the layout: a row or a panel is moved, or a row is deleted with its panels kept.
pub data Change : Type 0 where
  row_moved : Text → Text → Change
  row_deleted : Text → Change
  panel_moved : Text → Text → Option ℤ → Option ℤ → Change

abbrev pub change : Change → DashboardSession → Error ⊎ DashboardSession
change (row_moved row before) s = move_row row before s
change (row_deleted row) s = delete_row row true s
change (panel_moved panel row x y) s = move_panel panel row x y s

change-panels :
    (c : Change) (id ptype : Text) (rest : ℕ) (s s' : DashboardSession)
    → change c s ≡ inr s'
    → panels_of id ptype rest s' ≡ panels_of id ptype rest s
change-panels (row_moved row before) id ptype rest s s' h =
    move_row-panels id ptype rest row before s s' h
change-panels (row_deleted row) id ptype rest s s' h = delete_row-panels id ptype rest row s s' h
change-panels (panel_moved panel row x y) id ptype rest s s' h =
    move_panel-panels id ptype rest panel row x y s s' h

-- The panels of the session of an id that have an id, a type and the other fields.
abbrev pub panels_under : Text → Text → ℕ → Option DashboardSession → ℕ
panels_under id ptype rest none = 0
panels_under id ptype rest (some s) = panels_of id ptype rest s

update-cases :
    (now : ℕ) (key : Text) (fn : DashboardSession → Error ⊎ DashboardSession) (m : Sessions)
    → ((update now key fn m).0 ≡ m)
      ⊎ ((s s' : DashboardSession) × (Map.get key m ≡ some s)
          × (fn s ≡ inr s')
          × ((update now key fn m).0 ≡ Map.put key (record s' { touched_at = now }) m))
unfolding update
update-cases now key fn m = elim (Option-cases (Map.get key m)) [
  | inl e ↦ inl (rw (e, update) refl)
  | inr (s, e) ↦ elim (Sum-cases (fn s)) [
    | inl (err, f) ↦ inl (rw (e, update) rw (f, update) refl)
    | inr (s', f) ↦ inr (s, s', e, f, rw (e, update) rw (f, update) refl)
  ]
]

update-panels :
    (now : ℕ) (key k : Text) (c : Change) (m : Sessions) (id ptype : Text) (rest : ℕ)
    → panels_under id ptype rest (Map.get k (update now key (change c) m).0)
      ≡ panels_under id ptype rest (Map.get k m)
update-panels now key k c m id ptype rest = elim (update-cases now key (change c) m) [
  | inl e ↦ rw e refl
  | inr (s, s', found, ok, e) ↦
      let kept = change-panels c id ptype rest s s' ok in
      let written = Map.get-put key k (record s' { touched_at = now }) m in
      elim (Bool-cases (key == k)) [
        | inl same ↦
            let here : Map.get k m ≡ some s =
              sym (ap (λ x. Map.get x m) (list_beq_sound key k same)) ∙ found in
            rw e (rw written (rw same (rw here kept)))
        | inr other ↦ rw e (rw written (rw other refl))
      ]
]

-- The sessions after some changes, each at a time and for a session, the first of them first.
abbrev pub run : List (ℕ × Text × Change) → Sessions → Sessions
run [] m = m
run ((now, key, c) ∷ more) m = run more (update now key (change c) m).0

-- However rows and panels are moved and rows are deleted with their panels kept, and whichever of these
-- calls fail, every session keeps all its panels: for each id, type and other fields there are as many
-- as before.
pub run-panels :
    (changes : List (ℕ × Text × Change)) (m : Sessions) (k id ptype : Text) (rest : ℕ)
    → panels_under id ptype rest (Map.get k (run changes m))
      ≡ panels_under id ptype rest (Map.get k m)
run-panels [] m k id ptype rest = refl
run-panels ((now, key, c) ∷ more) m k id ptype rest =
    run-panels more (update now key (change c) m).0 k id ptype rest
    ∙ update-panels now key k c m id ptype rest
