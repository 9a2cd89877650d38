-- ===== src/Common/Strings.antt =====
-- src/Shared/Common/SharedDefines.cpp: `SplitString` and `StrSplit`.
pub mod Laws
use priston_tale_eu.Prelude.{
  ℕ, zero, suc, ◌+◌, ◌^◌, Bool, true, false, Option, none, some, List, [], ◌∷◌, ◌++◌, length, drop,
  take, get_elem?, str_eq, ◌==◌, ◌||◌, ltb, if◌then◌else◌, add_size, Outcome, ok, fault,
  out_of_bounds, ◌>>=◌,
}

-- `std::string::find` of one character.
unfoldable pub contains : List ℕ → ℕ → Bool
contains [] c = false
contains (x ∷ xs) c = x == c || contains xs c

-- The tokens so far, and the one that is being read.
abbrev pub Scan : Type 0
Scan = List (List ℕ) × List ℕ

abbrev pub is_empty : List ℕ → Bool
is_empty [] = true
is_empty (x ∷ xs) = false

-- A token is kept unless it is empty.
abbrev pub push_token : Scan → List (List ℕ)
push_token (tokens, token) = if is_empty token then tokens else tokens ++ token ∷ []

scan_char : List ℕ → Scan → ℕ → Scan
scan_char separator (tokens, token) c =
    if contains separator c then (push_token (tokens, token), []) else (tokens, token ++ c ∷ [])

scan : List ℕ → Scan → List ℕ → Scan
scan separator s [] = s
scan separator s (c ∷ cs) = scan separator (scan_char separator s c) cs

unfoldable pub str_split : List ℕ → List ℕ → List (List ℕ)
unfolding scan scan_char contains
str_split src separator = push_token (scan separator ([], []) src)

-- `std::string::find` of a string: the first position at which it starts, or npos.
abbrev pub npos : ℕ
npos = 0xFFFF_FFFF_FFFF_FFFF

find_from : List ℕ → List ℕ → ℕ → ℕ
find_from [] t i = if is_empty t then i else npos
find_from (c ∷ cs) t i =
    let later = find_from cs t (i + 1) in if str_eq (take (length t) (c ∷ cs)) t then i else later

-- The element at `size()` is the terminator; beyond it an index is out of range.
abbrev pub char_at : List ℕ → ℕ → Outcome ℕ
char_at [] zero = ok 0
char_at [] (suc i) = fault out_of_bounds
char_at (x ∷ xs) zero = ok x
char_at (x ∷ xs) (suc i) = char_at xs i

-- The characters up to a carriage return.
until_return : List ℕ → List ℕ
until_return [] = []
until_return (c ∷ cs) = if c == b'\r' then [] else c ∷ until_return cs

-- The source adds to the position that was found without a test for npos.
unfoldable pub split_string : List ℕ → List ℕ → Outcome (List ℕ)
unfolding find_from until_return
split_string string_data tokenizer = do
  let start = find_from string_data tokenizer 0
  let after = add_size start (length tokenizer)
  c ← char_at string_data after
  ok (if c == b'=' then until_return (drop (after + 1) string_data) else [])

-- `GetDate`: `localtime` gives the day, the month from 0 and the year from 1900, and `to_string` is the
-- printing of a number; both are arguments.
unfoldable pub get_date : (ℕ → List ℕ) → ℕ → ℕ → ℕ → List ℕ
get_date to_string day month year =
    to_string day ++ b'-' ∷ (to_string (month + 1) ++ b'-' ∷ to_string (year + 1900))
