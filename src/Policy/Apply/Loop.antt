-- ===== src/Policy/Apply/Loop.antt =====
-- The `while True` loop over the standard operators runs seven stages in a row, each of which may
-- go to a later one: no fuel runs out, and `continue` never goes back.
use fedservice.Prelude.{
  ℕ, suc, String, ◌≡◌, refl, none, some, List, arith, if◌then◌else◌, get_elem?, Result, ok, raised,
  ◌>>=◌, inl, inr, Bool-cases, string_dec,
}
use fedservice.Prelude.Dict.{has_key}
use fedservice.Policy.Combine.{MetadataPolicy, Metadata}
use fedservice.Policy.Operators.{
  PolicyOperator, OperatorKind, value, add, default, one_of, subset_of, superset_of, essential,
  name_of, new_operator, call, Outcome, construct_evaluation_sequence,
}
use fedservice.Policy.Apply.{Round, advance, go_on, round, apply_claim, claim_policy}

-- An operator that names a next one names its own `next`.
call-next :
    (k : OperatorKind) (next claim : String) (metadata : Metadata) (policy : MetadataPolicy)
    {n : String} {changed : Metadata}
    → call (record { kind = k; next = next }) claim metadata policy ≡ ok (some n, changed)
    → n ≡ next
unfolding call
call-next value next claim metadata policy h = ground arith
call-next add next claim metadata policy h = ground arith
call-next default next claim metadata policy h = ground arith
call-next one_of next claim metadata policy h = ground arith
call-next subset_of next claim metadata policy h = ground arith
call-next superset_of next claim metadata policy h = ground arith
call-next essential next claim metadata policy h = ground arith

-- An operator's turn: `jumped` follows where it names a next operator, `onward` where it does not
-- or the claim's policy does not have it.
abbrev pub stage :
    PolicyOperator
    → String
    → MetadataPolicy
    → (Metadata → Result Metadata)
    → (Metadata → Result Metadata)
    → Metadata
    → Result Metadata
stage op claim policy jumped onward metadata =
    if has_key (name_of op.kind) (claim_policy claim policy)
    then (call op claim metadata policy >>= λ (next, changed). elim next [
      | none ↦ onward changed
      | some n ↦ jumped changed
    ])
    else onward metadata

module _ (operators : List PolicyOperator) (claim : String) (policy : MetadataPolicy) (i : ℕ)
    (op : PolicyOperator) (at_i : get_elem? operators i ≡ some op)
    (continue : Round → Result Metadata) (jumped onward : Metadata → Result Metadata)
    (on : (m : Metadata) → continue (advance operators i m) ≡ onward m)
    (jump : (m : Metadata) → (go_on operators i (some op.next, m) >>= continue) ≡ jumped m) where
  round-stage :
      (metadata : Metadata)
      → (round operators claim policy i metadata >>= continue)
        ≡ stage op claim policy jumped onward metadata
  unfolding round
  round-stage metadata =
      rw at_i (elim (Bool-cases (has_key (name_of op.kind) (claim_policy claim policy))) [
        | inl has ↦ rw has (
            called (call op claim metadata policy)
              (λ n m. call-next op.kind op.next claim metadata policy))
        | inr not ↦ rw not (on metadata)
      ])
    where
      called :
          (r : Result Outcome)
          → ((n : String) (m : Metadata) → r ≡ ok (some n, m) → n ≡ op.next)
          → ((r >>= go_on operators i) >>= continue) ≡ (
              r >>= λ (next, changed). elim next [
                | none ↦ onward changed
                | some n ↦ jumped changed
              ])
      called (ok (none, m)) h = unfold go_on in on m
      called (ok (some n, m)) h = rw (h n m refl) (jump m)
      called (raised e) h = refl

-- The seven stages, last one first.
module _ (claim : String) (policy : MetadataPolicy) where
  abbrev turn :
      OperatorKind
      → (Metadata → Result Metadata)
      → (Metadata → Result Metadata)
      → Metadata
      → Result Metadata
  turn k = stage (new_operator k "") claim policy

  unfoldable pub run_essential : Metadata → Result Metadata
  run_essential = turn essential ok ok

  unfoldable pub run_superset_of : Metadata → Result Metadata
  run_superset_of = turn superset_of run_essential run_essential

  unfoldable pub run_subset_of : Metadata → Result Metadata
  run_subset_of = turn subset_of run_superset_of run_superset_of

  unfoldable pub run_one_of : Metadata → Result Metadata
  run_one_of = turn one_of run_essential run_subset_of

  unfoldable pub run_default : Metadata → Result Metadata
  run_default = turn default run_one_of run_one_of

  unfoldable pub run_add : Metadata → Result Metadata
  run_add = turn add run_default run_default

  unfoldable pub run_value : Metadata → Result Metadata
  run_value = turn value run_essential run_add

  abbrev loop : ℕ → ℕ → Metadata → Result Metadata
  loop f i metadata = apply_claim f construct_evaluation_sequence claim policy i metadata

  abbrev after : ℕ → Round → Result Metadata
  after f (next, changed) = elim next [ none ↦ ok changed | some j ↦ loop f j changed ]

  loop_essential : (f : ℕ) (m : Metadata) → loop (suc f) 6 m ≡ run_essential m
  unfolding apply_claim run_essential go_on string_dec
  loop_essential f m =
      round-stage construct_evaluation_sequence claim policy 6 (new_operator essential "") refl
        (after f) ok ok (λ m. refl) (λ m. refl) m

  loop_superset_of : (f : ℕ) (m : Metadata) → loop (suc (suc f)) 5 m ≡ run_superset_of m
  unfolding apply_claim run_superset_of go_on string_dec
  loop_superset_of f m =
      round-stage construct_evaluation_sequence claim policy 5 (new_operator superset_of "") refl
        (after (suc f)) run_essential run_essential (loop_essential f) (loop_essential f) m

  loop_subset_of : (f : ℕ) (m : Metadata) → loop (suc (suc (suc f))) 4 m ≡ run_subset_of m
  unfolding apply_claim run_subset_of go_on string_dec
  loop_subset_of f m =
      round-stage construct_evaluation_sequence claim policy 4 (new_operator subset_of "") refl
        (after (suc (suc f))) run_superset_of run_superset_of (loop_superset_of f)
        (loop_superset_of f) m

  loop_one_of : (f : ℕ) (m : Metadata) → loop (suc (suc (suc (suc f)))) 3 m ≡ run_one_of m
  unfolding apply_claim run_one_of go_on string_dec
  loop_one_of f m =
      round-stage construct_evaluation_sequence claim policy 3 (new_operator one_of "") refl
        (after (suc (suc (suc f)))) run_essential run_subset_of (loop_subset_of f)
        (loop_essential (suc (suc f))) m

  loop_default : (f : ℕ) (m : Metadata) → loop (suc (suc (suc (suc (suc f))))) 2 m ≡ run_default m
  unfolding apply_claim run_default go_on string_dec
  loop_default f m =
      round-stage construct_evaluation_sequence claim policy 2 (new_operator default "") refl
        (after (suc (suc (suc (suc f))))) run_one_of run_one_of (loop_one_of f) (loop_one_of f) m

  loop_add : (f : ℕ) (m : Metadata) → loop (suc (suc (suc (suc (suc (suc f)))))) 1 m ≡ run_add m
  unfolding apply_claim run_add go_on string_dec
  loop_add f m =
      round-stage construct_evaluation_sequence claim policy 1 (new_operator add "") refl
        (after (suc (suc (suc (suc (suc f)))))) run_default run_default (loop_default f)
        (loop_default f) m

  loop_value :
      (f : ℕ) (m : Metadata) → loop (suc (suc (suc (suc (suc (suc (suc f))))))) 0 m ≡ run_value m
  unfolding apply_claim run_value go_on string_dec
  loop_value f m =
      round-stage construct_evaluation_sequence claim policy 0 (new_operator value "") refl
        (after (suc (suc (suc (suc (suc (suc f))))))) run_essential run_add (loop_add f)
        (loop_essential (suc (suc (suc (suc (suc f)))))) m

-- With fuel for eight rounds the loop over the standard operators is the seven stages in a row,
-- `value` first; it ends, with the metadata or the exception that they give.
pub apply_claim-eq-run_value :
    (claim : String) (policy : MetadataPolicy) (metadata : Metadata)
    → apply_claim 8 construct_evaluation_sequence claim policy 0 metadata
      ≡ run_value claim policy metadata
apply_claim-eq-run_value claim policy metadata = loop_value claim policy 1 metadata
