-- ===== src/Config.antt =====
-- src/Shared/Config/Config.h and Config.cpp: the `name = value` lines of a file. The trimming and the
-- lower case of boost are arguments.
pub mod Laws
mod Tests
use priston_tale_eu.Prelude.{
  ℕ, Bool, true, false, Option, none, some, List, [], ◌∷◌, ◌++◌, ◌==◌, ◌||◌, str_eq, if◌then◌else◌,
  Outcome,
}

-- The functions of boost that the reader calls.
pub record Algorithm : Type 0 where
  pub trim_left : List ℕ → List ℕ
  pub trim : List ℕ → List ℕ
  pub trim_quotes : List ℕ → List ℕ
  pub to_lower : List ℕ → List ℕ

abbrev pub Entries : Type 0
Entries = List (List ℕ × List ℕ)

pub record Config : Type 0 where
  pub file_name : List ℕ
  pub entries : Entries

unfoldable pub find : Entries → List ℕ → Option (List ℕ)
find [] name = none
find ((k, v) ∷ m) name = if str_eq k name then some v else find m name

-- `m[name] = value`.
unfoldable pub assign : Entries → List ℕ → List ℕ → Entries
assign [] name value = (name, value) ∷ []
assign ((k, v) ∷ m) name value =
    let rest = assign m name value in if str_eq k name then (k, value) ∷ m else (k, v) ∷ rest

-- What `getline` returns until the stream is not good: the parts between the newlines.
abbrev pub prepend : ℕ → List (List ℕ) → List (List ℕ)
prepend c [] = (c ∷ []) ∷ []
prepend c (line ∷ lines) = (c ∷ line) ∷ lines

unfoldable pub lines : List ℕ → List (List ℕ)
lines [] = [] ∷ []
lines (c ∷ cs) = let rest = lines cs in if c == b'\n' then [] ∷ rest else prepend c rest

-- What stands before and after the first `=`.
abbrev pub before : ℕ → Option (List ℕ × List ℕ) → Option (List ℕ × List ℕ)
before c none = none
before c (some (name, value)) = some (c ∷ name, value)

unfoldable pub split_equals : List ℕ → Option (List ℕ × List ℕ)
split_equals [] = none
split_equals (c ∷ cs) = if c == b'=' then some ([], cs) else before c (split_equals cs)

pub data Line : Type 0 where
  skipped malformed : Line
  entry : (name value : List ℕ) → Line

module _ (boost : Algorithm) where
  unfoldable pub entry_of : Option (List ℕ × List ℕ) → Line
  entry_of none = malformed
  entry_of (some (name, value)) =
      entry (boost.trim (boost.to_lower name)) (boost.trim_quotes (boost.trim value))

  -- A line without its blanks in front.
  unfoldable pub classify : List ℕ → Line
  unfolding entry_of
  classify [] = skipped
  classify (c ∷ cs) = if c == b'#' || c == b'[' then skipped else entry_of (split_equals (c ∷ cs))

  unfoldable pub take_line : Entries → Line → Option Entries
  take_line m skipped = some m
  take_line m malformed = none
  take_line m (entry name value) = some (assign m name value)

  -- The loop over the lines; one that is malformed ends it.
  unfoldable pub parse : Entries → List (List ℕ) → Option Entries
  parse m [] = some m
  parse m (line ∷ rest) = elim (take_line m (classify (boost.trim_left line))) [
    | none ↦ none
    | some m' ↦ parse m' rest
  ]

  unfoldable pub replaced : Config → Option Entries → Bool × Config
  replaced c none = (false, c)
  replaced c (some m) = (true, record c { entries = m })

  -- `file` is the text of the file, if it can be opened.
  unfoldable pub reload : Config → Option (List ℕ) → Bool × Config
  unfolding replaced
  reload c none = (false, c)
  reload c (some text) = replaced c (parse [] (lines text))

  unfoldable pub set_file : Config → List ℕ → (List ℕ → Option (List ℕ)) → Bool × Config
  set_file c name open_file = reload (record c { file_name = name }) (open_file name)

  unfoldable pub is_set : Config → List ℕ → Bool
  is_set c name = elim (find c.entries (boost.to_lower name)) [ none ↦ false | some v ↦ true ]

  unfoldable pub get_string_default : Config → List ℕ → List ℕ → List ℕ
  get_string_default c name default = elim (find c.entries (boost.to_lower name)) [
    | none ↦ default
    | some v ↦ v
  ]

  abbrev pub is_true : List ℕ → Bool
  is_true value =
      str_eq value (b't' ∷ b'r' ∷ b'u' ∷ b'e' ∷ [])
      || str_eq value (b'1' ∷ [])
      || str_eq value (b'y' ∷ b'e' ∷ b's' ∷ [])

  -- `tolower` of each character is an argument.
  unfoldable pub get_bool_default : (List ℕ → List ℕ) → Config → List ℕ → Bool → Bool
  unfolding get_string_default
  get_bool_default lower c name default = is_true (
      lower (
        get_string_default c name (
          if default
          then (b't' ∷ b'r' ∷ b'u' ∷ b'e' ∷ [])
          else (b'f' ∷ b'a' ∷ b'l' ∷ b's' ∷ b'e' ∷ []))))

  -- `to_string` and `stoi`, which throws for what is no number or out of range, are arguments. An
  -- `int32` is given by its 32 bits.
  unfoldable pub get_int_default :
      (ℕ → List ℕ) → (List ℕ → Outcome ℕ) → Config → List ℕ → ℕ → Outcome ℕ
  unfolding get_string_default
  get_int_default to_string stoi c name default =
      stoi (get_string_default c name (to_string default))

  -- `F` are the floating-point numbers.
  unfoldable pub get_float_default :
      {F : Type 0} → (F → List ℕ) → (List ℕ → Outcome F) → Config → List ℕ → F → Outcome F
  unfolding get_string_default
  get_float_default to_string stof c name default =
      stof (get_string_default c name (to_string default))

  unfoldable pub get_filename : Config → List ℕ
  get_filename c = c.file_name
