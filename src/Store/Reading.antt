-- ===== src/Store/Reading.antt =====
-- The read paths of internal/store: events after a sequence number, and the runs that recovery sees.
use ananke.Prelude.{
  ℕ, zero, suc, ◌+◌, String, ◌≡◌, ap, ◌∙◌, subst, List, [], ◌∷◌, ◌++◌, map, arith, take, drop,
  take-append-drop, inl, inr, Option-cases,
}
use ananke.Table.{lookup, rows}
use ananke.Table.Sort.{order_by, order_by-Ascending}
use ananke.Store.Sequence.{Consecutive, Consecutive-Ascending, keep-Consecutive}
use ananke.Store.Rows.{Event, Db}
use ananke.Store.Events.{list_events}
use ananke.Store.RunJournal.{view}
use ananke.Store.Invariant.{WellFormed, Holds}

numbered_of :
    (id : String) (db : Db)
    → WellFormed (view id db)
    → Consecutive 1 (map (λ e. e.seq) (rows id db.events))
unfolding view
numbered_of id db h = elim (Option-cases (lookup id db.runs)) [
  | inl e ↦
      let events : rows id db.events ≡ [] = (subst (λ o. Holds o (view id db)) e h).2 in
      rw events tt
  | inr (r, e) ↦ (subst (λ o. Holds o (view id db)) e h).numbered
]

drop-Consecutive :
    (k n : ℕ) (xs : List Event)
    → Consecutive n (map (λ e. e.seq) xs)
    → Consecutive (k + n) (map (λ e. e.seq) (drop k xs))
drop-Consecutive zero n xs h = subst (λ m. Consecutive m (map (λ e. e.seq) xs)) (omega arith) h
drop-Consecutive (suc k) n [] h = tt
drop-Consecutive (suc k) n (x ∷ xs) h =
    subst (λ m. Consecutive m (map (λ e. e.seq) (drop k xs))) (omega arith)
      (drop-Consecutive k (suc n) xs h.1)

list_events-drop :
    (id : String) (k : ℕ) (db : Db)
    → WellFormed (view id db)
    → list_events id k db ≡ drop k (rows id db.events)
unfolding list_events
list_events-drop id k db h =
    let numbered = numbered_of id db h in
    ap (order_by (λ e. e.seq))
      (keep-Consecutive (λ e. e.seq) k k 0 (rows id db.events) numbered (omega arith))
    ∙ order_by-Ascending (λ e. e.seq) (drop k (rows id db.events))
        (Consecutive-Ascending (λ e. e.seq) (k + 1) (drop k (rows id db.events))
          (drop-Consecutive k 1 (rows id db.events) numbered))

-- A reader that has taken the first k events of a well-formed run and asks for those after number k
-- gets exactly the rest: together they are the whole list, with no loss and no duplicate, and the
-- rest is numbered from k + 1 without a gap.
pub list_events_resume :
    (id : String) (k : ℕ) (db : Db)
    → WellFormed (view id db)
    → (take k (list_events id 0 db) ++ list_events id k db ≡ list_events id 0 db)
      × Consecutive (k + 1) (map (λ e. e.seq) (list_events id k db))
list_events_resume id k db h = (
  rw (list_events-drop id k db h, list_events-drop id 0 db h)
      (take-append-drop k (rows id db.events)),
  rw (list_events-drop id k db h) (drop-Consecutive k 1 (rows id db.events) (numbered_of id db h)),
)
