-- ===== src/Proposals/Outcomes.antt =====
-- A mutation of internal/store/proposals.go that succeeds replays what is recorded under its key, or it
-- makes one of the four changes and records itself.
use ananke.Prelude.{ℕ, String, ◌≡◌, refl, ◌⊎◌, inl, inr}
use ananke.Prelude.Fallible.{Fallible-cases}
use ananke.Proposals.Rows.{Operation, ProposalMutation, Db, Env, ok, after}
use ananke.Proposals.Calls.{
  Request, create, append, decide, withdraw, Call, operation_of, resource_of, key_of, body_hash_of,
  mutate, call,
}
use ananke.Proposals.Pairs.{Paired}
use ananke.Proposals.Steps.{Outcome, Logged}
use ananke.Proposals.Changes.{Change, creation, appending, deciding, withdrawing}
use ananke.Proposals.Changes.Revisions.{
  create_proposal-Creation, append_proposal_revision-Appending,
}
use ananke.Proposals.Changes.Decisions.{decide_proposal_approval-Deciding}
use ananke.Proposals.Changes.Withdrawals.{withdraw_proposal-Withdrawing}

widen :
    {A B : Type 0} (operation : Operation) (resource key body_hash : String) (m : ProposalMutation)
    (now : ℕ) (db db' : Db)
    → (A → B)
    → Outcome operation resource key body_hash m now db db' A
    → Outcome operation resource key body_hash m now db db' B
widen operation resource key body_hash m now db db' f (inl replay) = inl replay
widen operation resource key body_hash m now db db' f (inr (a, p, l)) = inr (f a, p, l)

module _ (env : Env) where
  pub mutate-Outcome :
      (q : Request) (now : ℕ) (m : ProposalMutation) (db db' : Db)
      → Paired db
      → mutate env q now db ≡ ok (m, db')
      → Outcome
          (operation_of q)
          (resource_of q)
          (key_of q)
          (body_hash_of env q)
          m
          now
          db
          db'
          (Change db db')
  unfolding mutate
  mutate-Outcome (create i a r) now m db db' paired h =
      widen _ _ _ _ m now db db' creation (create_proposal-Creation env i a now r m db db' paired h)
  mutate-Outcome (append a r) now m db db' paired h =
      widen _ _ _ _ m now db db' appending
        (append_proposal_revision-Appending env a now r m db db' paired h)
  mutate-Outcome (decide r) now m db db' paired h =
      widen _ _ _ _ m now db db' (λ c. deciding c.0)
        (decide_proposal_approval-Deciding env now r m db db' paired h)
  mutate-Outcome (withdraw r) now m db db' paired h =
      widen _ _ _ _ m now db db' withdrawing
        (withdraw_proposal-Withdrawing env now r m db db' paired h)

  -- A call leaves the tables as they are, or it makes a change and records itself.
  pub call-Outcome :
      (c : Call) (db : Db)
      → Paired db
      → (after db (call env c db) ≡ db)
        ⊎ ((m : ProposalMutation) × Change db (after db (call env c db))
            × Paired (after db (call env c db))
            × Logged
                (operation_of c.request)
                (resource_of c.request)
                (key_of c.request)
                (body_hash_of env c.request)
                m
                c.now
                db
                (after db (call env c db)))
  unfolding call
  call-Outcome c db paired = elim (Fallible-cases (mutate env c.request c.now db)) [
    | inr (e, f) ↦ inl (rw f refl)
    | inl ((m, d), f) ↦ elim (mutate-Outcome c.request c.now m db d paired f) [
      | inl replay ↦ inl (rw f replay.1)
      | inr change ↦ inr (m, rw f change.0, rw f change.1, rw f change.2)
    ]
  ]
