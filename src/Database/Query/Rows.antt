-- ===== src/Database/Query/Rows.antt =====
-- Prepared queries of QueryDatabase.cpp and their results.
use priston_tale_eu.Prelude.{
  ℕ, ◌≡◌, refl, sym, ap, ◌∙◌, subst, Bool, true, false, Option, none, some, List, if◌then◌else◌,
  Outcome, ok, fault, null_pointer, ok-injective, ◌>>=◌,
}
use priston_tale_eu.Database.Query.{
  Answer, answers, throws, QueryDatabase, prepare_query, executed, execute_query, get_result,
  next_of, moved, print_exception,
}

module _ {R : Type 0} (next : R → Bool × R) (q : QueryDatabase R) where
  -- `PrepareQuery`, `ExecuteQuery` and `GetResult`, as the handlers call them.
  unfoldable pub select : List ℕ → (List ℕ → Answer R) → Outcome (Bool × QueryDatabase R)
  select text connector = do
    q₁ ← prepare_query q text (answers tt)
    q₂ ← execute_query q₁ connector
    get_result next q₂

  abbrev prepared : List ℕ → QueryDatabase R
  prepared text = record q { prepared_statement = some text; is_execute_result = false }

  select-executed :
      (text : List ℕ) (connector : List ℕ → Answer R) (a : Answer R)
      → connector text ≡ a
      → select text connector ≡ (executed (prepared text) a >>= get_result next)
  unfolding select prepare_query execute_query
  select-executed text connector a e =
      ap (λ (b : Answer R). executed (prepared text) b >>= get_result next) e

  next_of-once :
      (r : Option R) (q' : QueryDatabase R)
      → q.is_execute_result ≡ false
      → next_of next q r ≡ ok (true, q')
      → (q'.result_set ≡ none) × (q'.is_execute_result ≡ false)
  unfolding next_of
  next_of-once none q' f e = cc
  next_of-once (some r) q' f e = row (next r) (ok-injective e)
    where
      row :
          (x : Bool × R)
          → moved q x ≡ (true, q')
          → (q'.result_set ≡ none) × (q'.is_execute_result ≡ false)
      row (true, r') e =
          subst
            (λ (y : Bool × QueryDatabase R).
              (y.1.result_set ≡ none) × (y.1.is_execute_result ≡ false))
            e (refl, f)
      row (false, r') e = cc

get_result-rows :
    {R : Type 0} (next : R → Bool × R) (q : QueryDatabase R)
    → q.is_execute_result ≡ false
    → get_result next q ≡ next_of next q q.result_set
unfolding get_result
get_result-rows next q f =
    ap (λ (b : Bool). if b then ok (q.execute_result, q) else next_of next q q.result_set) f

get_result-null :
    {R : Type 0} (next : R → Bool × R) (q : QueryDatabase R)
    → q.is_execute_result ≡ false
    → q.result_set ≡ none
    → get_result next q ≡ fault null_pointer
unfolding next_of
get_result-null next q f n = get_result-rows next q f ∙ ap (next_of next q) n

-- A prepared query that the server refuses, on an object that has no rows left from before: the
-- exception is only printed, and then `GetResult` goes through a null pointer.
pub select-refused :
    {R : Type 0} (next : R → Bool × R) (q : QueryDatabase R) (text : List ℕ)
    (connector : List ℕ → Answer R)
    → q.result_set ≡ none
    → connector text ≡ throws false
    → select next q text connector ≡ fault null_pointer
unfolding executed print_exception
select-refused next q text connector n t =
    select-executed next q text connector (throws false) t
    ∙ get_result-null next (prepared next q text) refl n

-- The rows of a prepared query are there once: if `GetResult` finds a row, it moves the rows to the
-- `Result`, and the next `GetResult` goes through a null pointer.
get_result-once :
    {R : Type 0} (next : R → Bool × R) (q q' : QueryDatabase R)
    → q.is_execute_result ≡ false
    → get_result next q ≡ ok (true, q')
    → get_result next q' ≡ fault null_pointer
get_result-once next q q' f e =
    let (n, f') = next_of-once next q q.result_set q' f (sym (get_result-rows next q f) ∙ e) in
    get_result-null next q' f' n
