-- ===== src/Proposals/Replay.antt =====
-- Idempotency of the mutations of internal/store/proposals.go.
use ananke.Prelude.{
  ℕ, String, ◌≡◌, ◌≢◌, refl, sym, ap, subst, ◌∙◌, inl, inr, true, false, some, List, [], ◌∷◌, arith,
  ◌==◌, eq_iff, eq_refl, Option-cases, exists, find-none, find, find-append, find_last,
}
use ananke.Proposals.Rows.{
  ProposalMutation, Operation, same_operation, IdempotencyRow, Db, Env, ok, err, after,
  idempotency_conflict,
}
use ananke.Proposals.Identity.{
  identity_exists, has_key, lookup_proposal_idempotency, validate_proposal_mutation_identity,
}
use ananke.Proposals.Mutations.{once}
use ananke.Proposals.Pairs.{pairs, Paired}
use ananke.Proposals.Steps.{Logged}
use ananke.Proposals.Calls.{
  Request, operation_of, resource_of, key_of, body_hash_of, mutate, Call, call, run_calls, empty,
}
use ananke.Proposals.Outcomes.{mutate-Outcome, call-Outcome}
use ananke.Proposals.Invariant.Histories.{
  Change-WellFormed, WellFormed, call-WellFormed, run_calls-WellFormed_proposals,
}
use ananke.Proposals.Names.{has_names, Change-has_names, identity_exists-Paired}
use ananke.Proposals.Calls.{create, append, decide, withdraw}
use ananke.Proposals.Mutations.{create_proposal, append_proposal_revision}
use ananke.Proposals.Decisions.{decide_proposal_approval, withdraw_proposal}
use ananke.Proposals.Rows.{Result}

-- The record of a mutation, and what it names.
pub record Remembered (operation : Operation) (resource key body_hash : String)
    (m : ProposalMutation) (db : Db) : Type 0 where
  pub row : IdempotencyRow
  pub stands : find (has_key operation resource key) db.idempotency ≡ some row
  pub same_hash : row.request_body_hash ≡ body_hash
  pub same_result : row.result ≡ m
  pub named : exists (has_names m) (pairs db) ≡ true

has_own_key :
    (operation : Operation) (resource key body_hash : String) (m : ProposalMutation)
    → has_key operation resource key (record {
      operation = operation;
      resource = resource;
      idempotency_key = key;
      request_body_hash = body_hash;
      result = m;
    })
      ≡ true
unfolding has_key same_operation
has_own_key operation resource key body_hash m = ground (arith, eq_refl resource, eq_refl key)

pub Logged-Remembered :
    (operation : Operation) (resource key body_hash : String) (m : ProposalMutation) (now : ℕ)
    (db db' : Db)
    → Paired db'
    → Logged operation resource key body_hash m now db db'
    → Remembered operation resource key body_hash m db'
Logged-Remembered operation resource key body_hash m now db db' paired l = record {
  row = _;
  stands =
      ap (find (has_key operation resource key)) l.idempotency_grows
      ∙ find_last (has_key operation resource key) db.idempotency _
          (find-none (has_key operation resource key) db.idempotency l.new_key)
          (has_own_key operation resource key body_hash m);
  same_hash = refl;
  same_result = refl;
  named = sym (identity_exists-Paired m db' paired) ∙ l.known;
}

-- A replay finds a record.
pub replay-Remembered :
    (operation : Operation) (resource key body_hash : String) (m : ProposalMutation) (db : Db)
    → Paired db
    → lookup_proposal_idempotency operation resource key body_hash db ≡ ok (some m)
    → Remembered operation resource key body_hash m db
unfolding lookup_proposal_idempotency validate_proposal_mutation_identity
replay-Remembered operation resource key body_hash m db paired h =
    elim (Option-cases (find (has_key operation resource key) db.idempotency)) [
      | inl n ↦ ground arith
      | inr (i, e) ↦
          let same : i.result ≡ m = ground arith in
          let known : identity_exists i.result db ≡ true = ground arith in
          record {
            row = i;
            stands = e;
            same_hash = ground (arith, eq_iff i.request_body_hash body_hash);
            same_result = same;
            named =
                sym (identity_exists-Paired m db paired)
                ∙ subst (λ n. identity_exists n db ≡ true) same known;
          }
    ]

-- A key that is remembered replays for the same body, and conflicts for another.
once-replays :
    (operation : Operation) (resource key body_hash : String) (m : ProposalMutation) (db : Db)
    (rest : Result (ProposalMutation × Db))
    → Paired db
    → Remembered operation resource key body_hash m db
    → once operation resource key body_hash db rest ≡ ok (m, db)
unfolding once lookup_proposal_idempotency validate_proposal_mutation_identity
once-replays operation resource key body_hash m db rest paired r =
    let known : identity_exists r.row.result db ≡ true =
      subst (λ n. identity_exists n db ≡ true) (sym r.same_result)
        (identity_exists-Paired m db paired ∙ r.named) in
    let agree : (r.row.request_body_hash == body_hash) ≡ true =
      (eq_iff r.row.request_body_hash body_hash).1 r.same_hash in
    ground (arith, r.stands, known, agree, r.same_result)

once-conflicts :
    (operation : Operation) (resource key body_hash other : String) (m : ProposalMutation) (db : Db)
    (rest : Result (ProposalMutation × Db))
    → Paired db
    → Remembered operation resource key body_hash m db
    → other ≢ body_hash
    → once operation resource key other db rest ≡ err idempotency_conflict
unfolding once lookup_proposal_idempotency validate_proposal_mutation_identity
once-conflicts operation resource key body_hash other m db rest paired r differ =
    let known : identity_exists r.row.result db ≡ true =
      subst (λ n. identity_exists n db ≡ true) (sym r.same_result)
        (identity_exists-Paired m db paired ∙ r.named) in
    let disagree : (r.row.request_body_hash == other) ≡ false =
      ground (arith, eq_iff r.row.request_body_hash other, r.same_hash) in
    ground (arith, r.stands, known, disagree)

-- The key of one request is that of another.
at_key :
    (o p : Operation) (r s k l body_hash : String) (m : ProposalMutation) (db : Db)
    → o ≡ p
    → r ≡ s
    → k ≡ l
    → Remembered p s l body_hash m db
    → Remembered o r k body_hash m db
at_key o p r s k l body_hash m db a b c h =
    subst (λ t. Remembered t r k body_hash m db) (sym a)
      (subst (λ t. Remembered p t k body_hash m db) (sym b)
        (subst (λ t. Remembered p s t body_hash m db) (sym c) h))

module _ (env : Env) where
  mutate-once :
      (q : Request) (now : ℕ) (db : Db)
      → (rest : Result (ProposalMutation × Db)) × (mutate env q now db
          ≡ once (operation_of q) (resource_of q) (key_of q) (body_hash_of env q) db rest)
  unfolding mutate create_proposal append_proposal_revision decide_proposal_approval
      withdraw_proposal
  mutate-once (create i a r) now db = (_, refl)
  mutate-once (append a r) now db = (_, refl)
  mutate-once (decide r) now db = (_, refl)
  mutate-once (withdraw r) now db = (_, refl)

  call-Remembered :
      (operation : Operation) (resource key body_hash : String) (m : ProposalMutation) (c : Call)
      (db : Db)
      → WellFormed db
      → Remembered operation resource key body_hash m db
      → Remembered operation resource key body_hash m (after db (call env c db))
  call-Remembered operation resource key body_hash m c db w r =
      elim (call-Outcome env c db w.paired) [
        | inl same ↦ subst (Remembered operation resource key body_hash m) (sym same) r
        | inr (n, change, paired, logged) ↦ record {
          row = r.row;
          stands =
              ap (find (has_key operation resource key)) logged.idempotency_grows
              ∙ find-append (has_key operation resource key) db.idempotency _ r.row r.stands;
          same_hash = r.same_hash;
          same_result = r.same_result;
          named = Change-has_names m db (after db (call env c db)) change r.named;
        }
      ]

  run_calls-Remembered :
      (operation : Operation) (resource key body_hash : String) (m : ProposalMutation)
      (cs : List Call) (db : Db)
      → WellFormed db
      → Remembered operation resource key body_hash m db
      → Remembered operation resource key body_hash m (run_calls env cs db)
        × WellFormed (run_calls env cs db)
  unfolding run_calls
  run_calls-Remembered operation resource key body_hash m [] db w r = (r, w)
  run_calls-Remembered operation resource key body_hash m (c ∷ cs) db w r =
      run_calls-Remembered operation resource key body_hash m cs (after db (call env c db))
        (call-WellFormed env c db w) (call-Remembered operation resource key body_hash m c db w r)

  mutate-Remembered :
      (q : Request) (now : ℕ) (m : ProposalMutation) (db db' : Db)
      → WellFormed db
      → mutate env q now db ≡ ok (m, db')
      → Remembered (operation_of q) (resource_of q) (key_of q) (body_hash_of env q) m db'
        × WellFormed db'
  mutate-Remembered q now m db db' w h = elim (mutate-Outcome env q now m db db' w.paired h) [
    | inl (found, same) ↦ (
      subst (Remembered (operation_of q) (resource_of q) (key_of q) (body_hash_of env q) m)
          (sym same) (replay-Remembered _ _ _ _ m db w.paired found),
      subst WellFormed (sym same) w,
    )
    | inr (change, paired, logged) ↦ (
      Logged-Remembered _ _ _ _ m now db db' paired logged,
      Change-WellFormed db db' change paired w,
    )
  ]

  recorded :
      (before later : List Call) (q : Request) (now : ℕ) (m : ProposalMutation) (db : Db)
      → mutate env q now (run_calls env before empty) ≡ ok (m, db)
      → Remembered
          (operation_of q)
          (resource_of q)
          (key_of q)
          (body_hash_of env q)
          m
          (run_calls env later db)
        × WellFormed (run_calls env later db)
  recorded before later q now m db h =
      let first =
        mutate-Remembered q now m (run_calls env before empty) db
          (run_calls-WellFormed_proposals env before) h in
      run_calls-Remembered (operation_of q) (resource_of q) (key_of q) (body_hash_of env q) m later
        db first.1 first.0

  -- A mutation that succeeded after any history of calls, with a key, answers every later request with
  -- the same operation, resource and key and the same body hash with the same result, whatever calls
  -- came between and whatever the state has become, and changes nothing.
  pub mutate_replayed :
      (before later : List Call) (q again : Request) (now next : ℕ) (m : ProposalMutation) (db : Db)
      → mutate env q now (run_calls env before empty) ≡ ok (m, db)
      → operation_of again ≡ operation_of q
      → resource_of again ≡ resource_of q
      → key_of again ≡ key_of q
      → body_hash_of env again ≡ body_hash_of env q
      → mutate env again next (run_calls env later db) ≡ ok (m, run_calls env later db)
  mutate_replayed before later q again now next m db h o r k b =
      let kept = recorded before later q now m db h in
      let (rest, e) = mutate-once again next (run_calls env later db) in
      e
      ∙ once-replays (operation_of again) (resource_of again) (key_of again)
          (body_hash_of env again) m (run_calls env later db) rest kept.1.paired
          (subst
            (λ t.
              Remembered (operation_of again) (resource_of again) (key_of again) t m
                (run_calls env later db))
            (sym b)
            (at_key _ _ _ _ _ _ (body_hash_of env q) m (run_calls env later db) o r k kept.0))

  -- The same key with another body hash is a conflict, whatever calls came between.
  pub mutate_conflicts :
      (before later : List Call) (q again : Request) (now next : ℕ) (m : ProposalMutation) (db : Db)
      → mutate env q now (run_calls env before empty) ≡ ok (m, db)
      → operation_of again ≡ operation_of q
      → resource_of again ≡ resource_of q
      → key_of again ≡ key_of q
      → body_hash_of env again ≢ body_hash_of env q
      → mutate env again next (run_calls env later db) ≡ err idempotency_conflict
  mutate_conflicts before later q again now next m db h o r k b =
      let kept = recorded before later q now m db h in
      let (rest, e) = mutate-once again next (run_calls env later db) in
      e
      ∙ once-conflicts (operation_of again) (resource_of again) (key_of again) (body_hash_of env q)
          (body_hash_of env again) m (run_calls env later db) rest kept.1.paired
          (at_key _ _ _ _ _ _ (body_hash_of env q) m (run_calls env later db) o r k kept.0) b
