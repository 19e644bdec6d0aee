-- ===== src/Proposals/Activity.antt =====
-- The activity of a proposal in internal/store/proposals.go.
use ananke.Prelude.{
  ℕ, String, ◌≡◌, refl, sym, ap, subst, ◌∙◌, inl, inr, true, false, some, List, [], ◌∷◌, ◌++◌, map,
  arith, ◌==◌, eq_iff, eq_refl, exists, exists-append, Bool, not, ◌||◌, if◌then◌else◌, Bool-cases,
  map-append,
}
use ananke.Grill.Patterns.{is_identifier}
use ananke.Table.{lookup, rows, insert, rows-insert}
use ananke.Store.Rows.{next_seq}
use ananke.Table.Sort.{order_by, order_by-Ascending, exists-order_by}
use ananke.Store.Sequence.{
  Consecutive, Consecutive-append, next_seq-Consecutive, Consecutive-Ascending,
}
use ananke.Proposals.Rows.{
  ProposalActivity, Proposal, ProposalMutation, Db, Env, ok, err, ◌>>◌, fail_if, after,
  record_corrupt,
}
use ananke.Proposals.Identity.{identity_exists, validate_proposal_mutation_identity}
use ananke.Proposals.Queries.{
  mutation_of, validate_activity, activity_sequence, list_proposal_activity,
}
use ananke.Proposals.Pairs.{Paired, pairs}
use ananke.Proposals.Changes.{Change}
use ananke.Proposals.Calls.{Call, call, run_calls, empty}
use ananke.Proposals.Outcomes.{call-Outcome}
use ananke.Proposals.Names.{has_names, Change-has_names, identity_exists-Paired}
use ananke.Proposals.Invariant.Histories.{
  WellFormed, empty-WellFormed, call-WellFormed, run_calls-WellFormed_proposals,
}

-- Each record names a revision and its approval that exist.
abbrev AllNamed : String → Db → List ProposalActivity → Type 0
AllNamed id db [] = Unit
AllNamed id db (a ∷ rest) =
    (exists (has_names (mutation_of id a)) (pairs db) ≡ true) × AllNamed id db rest

record Numbered (id : String) (db : Db) : Type 0 where
  in_order : Consecutive 1 (map activity_sequence (rows id db.activity))
  all_named : AllNamed id db (rows id db.activity)

AllNamed-append :
    (id : String) (db : Db) (xs : List ProposalActivity) (y : ProposalActivity)
    → AllNamed id db xs
    → exists (has_names (mutation_of id y)) (pairs db) ≡ true
    → AllNamed id db (xs ++ y ∷ [])
AllNamed-append id db [] y h t = (t, tt)
AllNamed-append id db (x ∷ xs) y h t = (h.0, AllNamed-append id db xs y h.1 t)

AllNamed-Change :
    (id : String) (db db' : Db) (xs : List ProposalActivity)
    → Change db db'
    → AllNamed id db xs
    → AllNamed id db' xs
AllNamed-Change id db db' [] c h = tt
AllNamed-Change id db db' (x ∷ xs) c h =
    (Change-has_names (mutation_of id x) db db' c h.0, AllNamed-Change id db db' xs c h.1)

Consecutive-next :
    (xs : List ProposalActivity) (n : ℕ) (y : ProposalActivity)
    → Consecutive 1 (map activity_sequence xs)
    → n ≡ next_seq (map activity_sequence xs)
    → y.sequence ≡ n
    → Consecutive 1 (map activity_sequence (xs ++ y ∷ []))
Consecutive-next xs n y h e s =
    subst (Consecutive 1) (sym (map-append activity_sequence xs (y ∷ []))) (
      Consecutive-append 1 y.sequence (map activity_sequence xs) h
        (s ∙ e ∙ next_seq-Consecutive 0 (map activity_sequence xs) h refl ∙ omega arith))

grown_rows :
    (db db' : Db) (id : String) (m : ProposalMutation) (y : ProposalActivity)
    → db'.activity ≡ insert m.proposal_id y db.activity
    → (m.proposal_id == id) ≡ true
    → rows id db'.activity ≡ rows id db.activity ++ y ∷ []
grown_rows db db' id m y w t =
    ap (rows id) w ∙ rows-insert m.proposal_id id y db.activity ∙ rw t refl

own_Numbered :
    (db db' : Db) (id : String) (m : ProposalMutation) (y : ProposalActivity)
    → Paired db'
    → Change db db'
    → identity_exists m db' ≡ true
    → db'.activity ≡ insert m.proposal_id y db.activity
    → y.sequence ≡ next_seq (map activity_sequence (rows m.proposal_id db.activity))
    → mutation_of m.proposal_id y ≡ m
    → m.proposal_id ≡ id
    → Numbered id db
    → Numbered id db'
own_Numbered db db' id m y paired change known grows next names same n =
    let all : rows id db'.activity ≡ rows id db.activity ++ y ∷ [] =
      grown_rows db db' id m y grows ((eq_iff m.proposal_id id).1 same) in
    record {
      in_order =
          subst (λ rs. Consecutive 1 (map activity_sequence rs)) (sym all)
            (Consecutive-next (rows id db.activity) y.sequence y n.in_order
              (next ∙ ap (λ k. next_seq (map activity_sequence (rows k db.activity))) same) refl);
      all_named = subst (AllNamed id db') (sym all) (
          AllNamed-append id db' (rows id db.activity) y
            (AllNamed-Change id db db' (rows id db.activity) change n.all_named)
            (subst (λ k. exists (has_names k) (pairs db') ≡ true)
              (sym names ∙ ap (λ k. mutation_of k y) same)
              (sym (identity_exists-Paired m db' paired) ∙ known)));
    }

other_Numbered :
    (db db' : Db) (id : String) (m : ProposalMutation) (y : ProposalActivity)
    → Change db db'
    → db'.activity ≡ insert m.proposal_id y db.activity
    → (m.proposal_id == id) ≡ false
    → Numbered id db
    → Numbered id db'
other_Numbered db db' id m y change grows f n =
    let all : rows id db'.activity ≡ rows id db.activity =
      ap (rows id) grows ∙ rows-insert m.proposal_id id y db.activity ∙ rw f refl in
    record {
      in_order = subst (λ rs. Consecutive 1 (map activity_sequence rs)) (sym all) n.in_order;
      all_named =
          subst (AllNamed id db') (sym all)
            (AllNamed-Change id db db' (rows id db.activity) change n.all_named);
    }

module _ (env : Env) where
  call-Numbered :
      (c : Call) (db : Db) (id : String)
      → WellFormed db
      → Numbered id db
      → Numbered id (after db (call env c db))
  call-Numbered c db id w n = elim (call-Outcome env c db w.paired) [
    | inl same ↦ subst (Numbered id) (sym same) n
    | inr (m, change, paired, logged) ↦ elim (Bool-cases (m.proposal_id == id)) [
      | inl t ↦
          own_Numbered db (after db (call env c db)) id m _ paired change logged.known
            logged.activity_grows refl refl ((eq_iff m.proposal_id id).0 t) n
      | inr f ↦ other_Numbered db (after db (call env c db)) id m _ change logged.activity_grows f n
    ]
  ]

  run_calls-Numbered_from :
      (cs : List Call) (db : Db) (id : String)
      → WellFormed db
      → Numbered id db
      → Numbered id (run_calls env cs db)
  unfolding run_calls
  run_calls-Numbered_from [] db id w n = n
  run_calls-Numbered_from (c ∷ cs) db id w n =
      run_calls-Numbered_from cs (after db (call env c db)) id (call-WellFormed env c db w)
        (call-Numbered c db id w n)

-- Each record names a revision, its lifecycle and its approval that are in the tables.
abbrev pub AllExist : String → Db → List ProposalActivity → Type 0
AllExist id db [] = Unit
AllExist id db (a ∷ rest) = (identity_exists (mutation_of id a) db ≡ true) × AllExist id db rest

AllNamed-AllExist :
    (id : String) (db : Db) (xs : List ProposalActivity)
    → Paired db
    → AllNamed id db xs
    → AllExist id db xs
AllNamed-AllExist id db [] paired h = tt
AllNamed-AllExist id db (x ∷ xs) paired h = (
  identity_exists-Paired (mutation_of id x) db paired ∙ h.0,
  AllNamed-AllExist id db xs paired h.1,
)

abbrev dangling : String → Db → ProposalActivity → Bool
dangling id db a = not (identity_exists (mutation_of id a) db)

AllExist-dangling :
    (id : String) (db : Db) (xs : List ProposalActivity)
    → AllExist id db xs
    → exists (dangling id db) xs ≡ false
unfolding exists
AllExist-dangling id db [] h = refl
AllExist-dangling id db (x ∷ xs) h = rw h.0 (AllExist-dangling id db xs h.1)

-- The validation looks for a dangling record, in whatever order the records are.
validate_activity-exists :
    (id : String) (db : Db) (xs : List ProposalActivity)
    → validate_activity id xs db ≡ fail_if (exists (dangling id db) xs) record_corrupt
unfolding validate_activity validate_proposal_mutation_identity exists
validate_activity-exists id db [] = refl
validate_activity-exists id db (x ∷ xs) = ground (arith, validate_activity-exists id db xs)

list_proposal_activity-exists :
    (id : String) (p : Proposal) (db : Db)
    → is_identifier id ≡ true
    → lookup id db.proposals ≡ some p
    → list_proposal_activity id db ≡ (
        fail_if (exists (dangling id db) (rows id db.activity)) record_corrupt
        >> ok (order_by activity_sequence (rows id db.activity)))
unfolding list_proposal_activity
list_proposal_activity-exists id p db valid found =
    let those = rows id db.activity in
    rw
      (
        valid,
        found,
        validate_activity-exists id db (order_by activity_sequence those),
        exists-order_by activity_sequence (dangling id db) those,
      )
      refl

exists-single : {A : Type 0} (p : A → Bool) (x : A) → exists p (x ∷ []) ≡ p x
unfolding exists
exists-single p x = ground arith

dangling-insert :
    (id : String) (db : Db) (a : ProposalActivity) (those : List ProposalActivity)
    → AllExist id db those
    → exists (dangling id (record db { activity = insert id a db.activity })) (those ++ a ∷ [])
      ≡ not (identity_exists (mutation_of id a) db)
unfolding identity_exists
dangling-insert id db a those named =
    exists-append (dangling id db) those (a ∷ [])
    ∙ ap (λ b. b || exists (dangling id db) (a ∷ [])) (AllExist-dangling id db those named)
    ∙ exists-single (dangling id db) a

-- One more record of the proposal, whoever writes it.
list_proposal_activity-insert :
    (id : String) (p : Proposal) (db : Db) (a : ProposalActivity)
    → is_identifier id ≡ true
    → lookup id db.proposals ≡ some p
    → AllExist id db (rows id db.activity)
    → list_proposal_activity id (record db { activity = insert id a db.activity }) ≡ (
        if identity_exists (mutation_of id a) db
        then ok (order_by activity_sequence (rows id db.activity ++ a ∷ []))
        else err record_corrupt)
list_proposal_activity-insert id p db a valid found named =
    let tampered = record db { activity = insert id a db.activity } in
    let grows : rows id tampered.activity ≡ rows id db.activity ++ a ∷ [] =
      rows-insert id id a db.activity ∙ rw (eq_refl id) refl in
    list_proposal_activity-exists id p tampered valid found
    ∙ rw (grows, dangling-insert id db a (rows id db.activity) named)
        (elim (Bool-cases (identity_exists (mutation_of id a) db)) [
          | inl there ↦ rw there refl
          | inr missing ↦ rw missing refl
        ])

module _ (env : Env) where
  -- After any history of calls, the activity of a proposal that exists is listed in full and in order:
  -- its records are numbered from 1 without a gap, and each names a revision, with its lifecycle and
  -- its approval, that is in the tables. If one more record of the proposal is put into that table by
  -- hand, the query gives it with the others if what it names is in the tables, and otherwise it
  -- refuses the whole activity as corrupt.
  pub list_proposal_activity_complete :
      (cs : List Call) (id : String) (p : Proposal) (a : ProposalActivity)
      → is_identifier id ≡ true
      → lookup id (run_calls env cs empty).proposals ≡ some p
      → let db = run_calls env cs empty in
        (list_proposal_activity id db ≡ ok (rows id db.activity))
        × Consecutive 1 (map activity_sequence (rows id db.activity))
        × AllExist id db (rows id db.activity)
        × (list_proposal_activity id (record db { activity = insert id a db.activity }) ≡ (
            if identity_exists (mutation_of id a) db
            then ok (order_by activity_sequence (rows id db.activity ++ a ∷ []))
            else err record_corrupt))
  unfolding empty rows
  list_proposal_activity_complete cs id p a valid found =
      let db = run_calls env cs empty in
      let w = run_calls-WellFormed_proposals env cs in
      let n =
        run_calls-Numbered_from env cs empty id empty-WellFormed
          (record { in_order = tt; all_named = tt }) in
      let named = AllNamed-AllExist id db (rows id db.activity) w.paired n.all_named in
      let sorted =
        order_by-Ascending activity_sequence (rows id db.activity)
          (Consecutive-Ascending activity_sequence 1 (rows id db.activity) n.in_order) in
      (
        list_proposal_activity-exists id p db valid found
            ∙ rw (AllExist-dangling id db (rows id db.activity) named, sorted) refl,
        n.in_order,
        named,
        list_proposal_activity-insert id p db a valid found named,
      )
