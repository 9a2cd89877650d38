-- ===== src/Threads/FunctionCallBack.antt =====
-- src/Shared/Platform/Thread/FunctionCallBack.h and FunctionCallBack.cpp. A function is a number; what
-- one does when it is called is not told.
use priston_tale_eu.Prelude.{ℕ, Option, none, some, List, [], ◌∷◌, ◌++◌}

pub record FunctionCallBack : Type 0 where
  pub call_back : List ℕ

unfoldable pub add_call_back : FunctionCallBack → ℕ → FunctionCallBack
add_call_back f function = record { call_back = f.call_back ++ function ∷ [] }

-- `back()`, and the list without it.
abbrev pub pop_back : ℕ → List ℕ → List ℕ × ℕ
pop_back x [] = ([], x)
pop_back x (y ∷ ys) = let (rest, last) = pop_back y ys in (x ∷ rest, last)

abbrev pub process : List ℕ → Option ℕ × FunctionCallBack
process [] = (none, record { call_back = [] })
process (x ∷ xs) = let (rest, last) = pop_back x xs in (some last, record { call_back = rest })

-- The function that is called, if there is one.
unfoldable pub process_functions : FunctionCallBack → Option ℕ × FunctionCallBack
process_functions f = process f.call_back
