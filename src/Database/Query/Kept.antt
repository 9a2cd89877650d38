-- ===== src/Database/Query/Kept.antt =====
-- Which members the operations of a `QueryDatabase` leave alone.
use priston_tale_eu.Prelude.{
  ℕ, ◌≡◌, refl, ◌∙◌, subst, Bool, true, false, Option, none, some, List, [], ◌∷◌, if◌then◌else◌, ok,
  fault, null_pointer, ok-injective, >>=-eq-ok,
}
use priston_tale_eu.Database.Query.{
  Answer, answers, throws, QueryDatabase, direct_execute_query, prepare_query, executed,
  execute_query, get_result, next_of, moved, clear_parameters, print_exception, Operation, direct,
  prepare, execute, results, clear, operate, operate_all,
}

module _ {R : Type 0} where
  -- The connection and the name of the database stay.
  pub record Keeps (q q' : QueryDatabase R) : Type 0 where
    pub connection : q'.connection ≡ q.connection
    pub database : q'.database ≡ q.database

  unchanged :
      {q q' : QueryDatabase R}
      → q'.connection ≡ q.connection
      → q'.database ≡ q.database
      → Keeps q q'
  unchanged c d = record { connection = c; database = d }

  Keeps-of : (q q₁ q' : QueryDatabase R) → Keeps q q₁ → q₁ ≡ q' → Keeps q q'
  Keeps-of q q₁ q' k e = subst (Keeps q) e k

  print_exception-Keeps :
      (q q₁ q' : QueryDatabase R) (gone_away : Bool)
      → Keeps q q₁
      → print_exception gone_away q₁ ≡ ok q'
      → Keeps q q'
  unfolding print_exception
  print_exception-Keeps q q₁ q' true k e = cc
  print_exception-Keeps q q₁ q' false k e = Keeps-of q q₁ q' k (ok-injective e)

  direct-Keeps :
      (q q' : QueryDatabase R) (a : Answer Bool) → direct_execute_query q a ≡ ok q' → Keeps q q'
  unfolding direct_execute_query
  direct-Keeps q q' (answers r) e = subst (Keeps q) (ok-injective e) (unchanged refl refl)
  direct-Keeps q q' (throws gone_away) e =
      print_exception-Keeps q (record q { is_execute_result = false }) q' gone_away
        (unchanged refl refl) e

  prepare-Keeps :
      (q q' : QueryDatabase R) (text : List ℕ) (a : Answer (Unit {0}))
      → prepare_query q text a ≡ ok q'
      → Keeps q q'
  unfolding prepare_query
  prepare-Keeps q q' text (answers u) e = subst (Keeps q) (ok-injective e) (unchanged refl refl)
  prepare-Keeps q q' text (throws gone_away) e = cc

  executed-Keeps : (q q' : QueryDatabase R) (a : Answer R) → executed q a ≡ ok q' → Keeps q q'
  unfolding executed
  executed-Keeps q q' (answers r) e = subst (Keeps q) (ok-injective e) (unchanged refl refl)
  executed-Keeps q q' (throws gone_away) e =
      print_exception-Keeps q q q' gone_away (unchanged refl refl) e

  execute-Keeps :
      (q q' : QueryDatabase R) (connector : List ℕ → Answer R)
      → execute_query q connector ≡ ok q'
      → Keeps q q'
  unfolding execute_query
  execute-Keeps q q' connector e = prepared q.prepared_statement e
    where
      prepared :
          (s : Option (List ℕ))
          → (elim s [ none ↦ fault null_pointer | some text ↦ executed q (connector text) ]) ≡ ok q'
          → Keeps q q'
      prepared none e = cc
      prepared (some text) e = executed-Keeps q q' (connector text) e

  moved-Keeps : (q : QueryDatabase R) (r : Bool × R) → Keeps q (moved q r).1
  moved-Keeps q (true, r) = unchanged refl refl
  moved-Keeps q (false, r) = unchanged refl refl

  next_of-Keeps :
      (next : R → Bool × R) (q q' : QueryDatabase R) (r : Option R) (b : Bool)
      → next_of next q r ≡ ok (b, q')
      → Keeps q q'
  unfolding next_of
  next_of-Keeps next q q' none b e = cc
  next_of-Keeps next q q' (some r) b e =
      subst (λ (x : Bool × QueryDatabase R). Keeps q x.1) (ok-injective e) (moved-Keeps q (next r))

  get_result-Keeps :
      (next : R → Bool × R) (q q' : QueryDatabase R) (b : Bool)
      → get_result next q ≡ ok (b, q')
      → Keeps q q'
  unfolding get_result
  get_result-Keeps next q q' b e = flagged q.is_execute_result e
    where
      flagged :
          (f : Bool)
          → (if f then ok (q.execute_result, q) else next_of next q q.result_set) ≡ ok (b, q')
          → Keeps q q'
      flagged true e =
          subst (λ (x : Bool × QueryDatabase R). Keeps q x.1) (ok-injective e) (unchanged refl refl)
      flagged false e = next_of-Keeps next q q' q.result_set b e

  clear-Keeps : (q q' : QueryDatabase R) → clear_parameters q ≡ ok q' → Keeps q q'
  unfolding clear_parameters
  clear-Keeps q q' e = prepared q.prepared_statement e
    where
      prepared :
          (s : Option (List ℕ))
          → (elim s [
            | none ↦ fault null_pointer
            | some text ↦ ok (record q { is_execute_result = false })
          ])
            ≡ ok q'
          → Keeps q q'
      prepared none e = cc
      prepared (some text) e = subst (Keeps q) (ok-injective e) (unchanged refl refl)

  operate-Keeps :
      (next : R → Bool × R) (q q' : QueryDatabase R) (o : Operation R)
      → operate next q o ≡ ok q'
      → Keeps q q'
  unfolding operate
  operate-Keeps next q q' (direct a) e = direct-Keeps q q' a e
  operate-Keeps next q q' (prepare text a) e = prepare-Keeps q q' text a e
  operate-Keeps next q q' (execute connector) e = execute-Keeps q q' connector e
  operate-Keeps next q q' results e =
      let ((b, q₁), e₁, e₂) = >>=-eq-ok (get_result next q) _ e in
      Keeps-of q q₁ q' (get_result-Keeps next q q₁ b e₁) (ok-injective e₂)
  operate-Keeps next q q' clear e = clear-Keeps q q' e

  pub operate_all-Keeps :
      (next : R → Bool × R) (q q' : QueryDatabase R) (os : List (Operation R))
      → operate_all next q os ≡ ok q'
      → Keeps q q'
  unfolding operate_all
  operate_all-Keeps next q q' [] e = subst (Keeps q) (ok-injective e) (unchanged refl refl)
  operate_all-Keeps next q q' (o ∷ os) e =
      let (q₁, e₁, e₂) = >>=-eq-ok (operate next q o) _ e in
      let k = operate-Keeps next q q₁ o e₁ in
      let k' = operate_all-Keeps next q₁ q' os e₂ in
      unchanged (k'.connection ∙ k.connection) (k'.database ∙ k.database)
