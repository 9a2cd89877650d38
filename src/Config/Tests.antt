-- ===== src/Config/Tests.antt =====
-- A small configuration file, and the theorems at it.
use priston_tale_eu.Prelude.{ℕ, ◌≡◌, refl, List, [], ◌∷◌}
use priston_tale_eu.Config.{
  Algorithm, Config, find, assign, split_equals, entry_of, lines, classify, parse, take_line,
  replaced, reload, get_string_default,
}
use priston_tale_eu.Config.Laws.{get_string_default-reload, last_value}

-- Functions that leave the text alone.
abbrev plain : Algorithm
plain = record { trim_left = λ s. s; trim = λ s. s; trim_quotes = λ s. s; to_lower = λ s. s }

abbrev old : Config
old = record { file_name = []; entries = (b'p' ∷ [], b'1' ∷ []) ∷ [] }

-- `p=2`, a comment, `p=3`.
abbrev two_ports : List ℕ
two_ports = b'p' ∷ b'=' ∷ b'2' ∷ b'\n' ∷ b'#' ∷ b'\n' ∷ b'p' ∷ b'=' ∷ b'3' ∷ b'\n' ∷ []

abbrev new : Config
new = record old { entries = (b'p' ∷ [], b'3' ∷ []) ∷ [] }

get_string_default-reload_example : get_string_default plain new (b'p' ∷ []) [] ≡ b'3' ∷ []
unfolding reload replaced lines classify entry_of parse take_line assign split_equals
    get_string_default find last_value
get_string_default-reload_example =
    get_string_default-reload plain old new two_ports (b'p' ∷ []) [] refl
