-- ===== src/Policy/Apply/Bounds.antt =====
-- What the loop leaves in a claim that holds a list: no more than `subset_of` allows and no less than
-- `superset_of` asks for.
use fedservice.Policy.Apply.Loop.{
  run_superset_of, run_subset_of, run_one_of, run_default, run_add, run_value,
}
use fedservice.Policy.Apply.Effects.{
  run_essential-keeps, stage-Triple, CallTriple, Triple, operator_value-stated,
}
use fedservice.Prelude.{
  inr, inl, Option-cases, ◌&&◌, String, ◌≡◌, refl, Option, none, some, arith, ok, Result, true,
  false, >>=-eq-ok,
}
use fedservice.Prelude.Dict.{lookup, has_key, lookup-insert, has_key-eq-lookup}
use fedservice.Value.{
  null, union, Atom, Value, is_list, to_set, of_set, has, intersection, has-dedup, has-intersection,
  to_set-of_set, has-of-empty-difference,
}
use fedservice.Policy.Combine.{set_or_singleton, MetadataPolicy, Metadata}
use fedservice.Policy.Combine.Meaning.{member}
use fedservice.Policy.Operators.{
  call_superset_of, call_add, value, add, default, one_of, subset_of, superset_of, call,
  new_operator, operator_value, call_subset_of,
}
use fedservice.Policy.Apply.{ClaimPolicy, claim_policy}

module _ (claim : String) (policy : MetadataPolicy) (m changed : Metadata) (n : Option String)
    (l : Value) (there : lookup claim m ≡ some l) (listed : is_list l ≡ true) where
  add_list :
      call (new_operator add "") claim m policy ≡ ok (n, changed)
      → (n ≡ none) × ((r : Value) × (lookup claim changed ≡ some r) × (is_list r ≡ true))
  unfolding call of_set
  add_list h =
      let (v, _, more) =
        >>=-eq-ok (operator_value add claim policy) _ (rw (there, call_add) at h) in
      let (s, _, most) = >>=-eq-ok (set_or_singleton l) _ more in
      let (t, _, last) = >>=-eq-ok (set_or_singleton v) _ most in
      (
        ground arith,
        (
          of_set (union s t),
          ground (arith, lookup-insert claim claim (of_set (union s t)) m),
          refl,
        ),
      )

  default_list :
      call (new_operator default "") claim m policy ≡ ok (n, changed) → (n ≡ none) × (changed ≡ m)
  unfolding call
  default_list h = ground (arith, has_key-eq-lookup claim m)

  one_of_list :
      call (new_operator one_of "") claim m policy ≡ ok (n, changed) → (n ≡ none) × (changed ≡ m)
  unfolding call
  one_of_list h = ground arith

  subset_of_list :
      (v : Value)
      → lookup "subset_of" (claim_policy claim policy) ≡ some v
      → call (new_operator subset_of "") claim m policy ≡ ok (n, changed)
      → (n ≡ none)
        × ((r : Value) × (lookup claim changed ≡ some r)
            × (is_list r ≡ true)
            × ((x : Atom) → member x r ≡ (member x v && member x l)))
  unfolding call of_set
  subset_of_list v stated h =
      let (w, read, more) =
        >>=-eq-ok (operator_value subset_of claim policy) _
          (rw listed at (rw (there, call_subset_of) at h)) in
      let (s, es, most) = >>=-eq-ok (to_set w) _ more in
      let (t, et, last) = >>=-eq-ok (to_set l) _ most in
      let same = operator_value-stated subset_of claim policy v w stated read in
      (
        ground arith,
        (
          of_set (intersection s t),
          ground (arith, lookup-insert claim claim (of_set (intersection s t)) m),
          refl,
          λ x. ground (
            arith,
            to_set-of_set (intersection s t),
            has-dedup x (intersection s t),
            has-intersection x s t,
          ),
        ),
      )

  superset_of_list :
      (v : Value) (x : Atom)
      → lookup "superset_of" (claim_policy claim policy) ≡ some v
      → call (new_operator superset_of "") claim m policy ≡ ok (n, changed)
      → (n ≡ none) × (changed ≡ m) × (member x v ≡ true → member x l ≡ true)
  unfolding call
  superset_of_list v x stated h =
      let (w, read, more) =
        >>=-eq-ok (operator_value superset_of claim policy) _ (rw (there, call_superset_of) at h) in
      let (s, es, most) = >>=-eq-ok (to_set w) _ more in
      let (t, et, last) = >>=-eq-ok (to_set l) _ most in
      let same = operator_value-stated superset_of claim policy v w stated read in
      (ground arith, ground arith, ground (arith, has-of-empty-difference s t x))

module _ (claim : String) (policy : MetadataPolicy) where
  abbrev pub rule : ClaimPolicy
  rule = claim_policy claim policy

  abbrev pub HasList : Option Value → Type 0
  HasList o = (l : Value) × (o ≡ some l) × (is_list l ≡ true)

  -- A list with nothing that `subset_of` does not allow.
  abbrev Allowed : Option Value → Type 0
  Allowed o =
      (l : Value) × (o ≡ some l)
      × (is_list l ≡ true)
      × ((v : Value) (x : Atom)
          → lookup "subset_of" rule ≡ some v
          → member x l ≡ true
          → member x v ≡ true)

  -- Such a list with all that `superset_of` asks for.
  abbrev pub InBounds : Option Value → Type 0
  InBounds o =
      (l : Value) × (o ≡ some l)
      × (is_list l ≡ true)
      × ((v : Value) (x : Atom)
          → lookup "subset_of" rule ≡ some v
          → member x l ≡ true
          → member x v ≡ true)
      × ((v : Value) (x : Atom)
          → lookup "superset_of" rule ≡ some v
          → member x v ≡ true
          → member x l ≡ true)

  abbrev Never : Option Value → Type 0
  Never o = ⊥

  add-HasList : CallTriple claim policy HasList add HasList Never
  add-HasList m changed n (l, e, is) h =
      let (stop, r) = add_list claim policy m changed n l e is h in rw stop r

  default-HasList : CallTriple claim policy HasList default HasList Never
  default-HasList m changed n (l, e, is) h =
      let (stop, same) = default_list claim policy m changed n l e is h in
      rw (stop, same) (l, e, is)

  one_of-HasList : CallTriple claim policy HasList one_of HasList Never
  one_of-HasList m changed n (l, e, is) h =
      let (stop, same) = one_of_list claim policy m changed n l e is h in rw (stop, same) (l, e, is)

  subset_of-Allowed :
      has_key "subset_of" rule ≡ true → CallTriple claim policy HasList subset_of Allowed Never
  subset_of-Allowed has m changed n (l, e, is) h = elim (Option-cases (lookup "subset_of" rule)) [
    | inl absent ↦ absurd (ground (arith, has_key-eq-lookup "subset_of" rule))
    | inr (v, stated) ↦
        let (stop, (r, f, listed, inside)) =
          subset_of_list claim policy m changed n l e is v stated h in
        rw stop (r, f, listed, λ w x again mem. ground (arith, inside x))
  ]

  superset_of-InBounds :
      has_key "superset_of" rule ≡ true → CallTriple claim policy Allowed superset_of InBounds Never
  superset_of-InBounds has m changed n (l, e, is, inside) h =
      elim (Option-cases (lookup "superset_of" rule)) [
        | inl absent ↦ absurd (ground (arith, has_key-eq-lookup "superset_of" rule))
        | inr (v, stated) ↦
            let (stop, _, _) = superset_of_list claim policy m changed n l e is v null stated h in
            let (_, same, _) = superset_of_list claim policy m changed n l e is v null stated h in
            rw (stop, same)
              (
                l,
                e,
                is,
                inside,
                λ w x again mem.
                    ground
                      (arith, (superset_of_list claim policy m changed n l e is v x stated h).2),
              )
      ]

  never :
      (f : Metadata → Result Metadata) (Q : Option Value → Type 0) → Triple claim policy Never f Q
  never f Q m changed void h = absurd void

  absent_of :
      (name : String) (v : Value) → has_key name rule ≡ false → lookup name rule ≡ some v → ⊥
  absent_of name v h e = ground (arith, has_key-eq-lookup name rule)

  -- A claim that holds a list, under a rule with no `value`, ends within the rule's bounds.
  pub run_value-InBounds :
      lookup "value" rule ≡ none → Triple claim policy HasList (run_value claim policy) InBounds
  unfolding run_value run_add run_default run_one_of run_subset_of run_superset_of
  run_value-InBounds free =
      let sup : Triple claim policy Allowed (run_superset_of claim policy) InBounds =
        stage-Triple claim policy superset_of Allowed InBounds Never InBounds _ _
          superset_of-InBounds
          (λ absent o (l, e, is, inside).
            (l, e, is, inside, λ v x stated mem. absurd (absent_of "superset_of" v absent stated)))
          (never _ InBounds) (run_essential-keeps claim policy InBounds) in
      let sub : Triple claim policy HasList (run_subset_of claim policy) InBounds =
        stage-Triple claim policy subset_of HasList Allowed Never InBounds _ _ subset_of-Allowed
          (λ absent o (l, e, is).
            (l, e, is, λ v x stated mem. absurd (absent_of "subset_of" v absent stated)))
          (never _ InBounds) sup in
      let one =
        stage-Triple claim policy one_of HasList HasList Never InBounds _ _ (λ _. one_of-HasList)
          (λ _ o p. p) (never _ InBounds) sub in
      let def =
        stage-Triple claim policy default HasList HasList Never InBounds _ _ (λ _. default-HasList)
          (λ _ o p. p) (never _ InBounds) one in
      let plus =
        stage-Triple claim policy add HasList HasList Never InBounds _ _ (λ _. add-HasList)
          (λ _ o p. p) (never _ InBounds) def in
      stage-Triple claim policy value HasList HasList Never InBounds _ _
        (λ has. absurd (ground (arith, has_key-eq-lookup "value" rule))) (λ _ o p. p)
        (never _ InBounds) plus
