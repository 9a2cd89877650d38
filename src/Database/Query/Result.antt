-- ===== src/Database/Query/Result.antt =====
-- src/Shared/Database/Result.h: the columns of the row that a result set stands at. What the connector
-- returns for a column is an argument.
use priston_tale_eu.Prelude.{
  ℕ, List, c_str, ◌%◌, ◌^◌, Bool, Option, none, some, Outcome, ok, fault, null_pointer, u8, u16,
}

-- A column read through a pointer that may be null.
abbrev column : {R A : Type 0} → Option R → (R → A) → Outcome A
column none get = fault null_pointer
column (some r) get = ok (get r)

-- The arguments `get_…` are the connector's getters of a row; a column is numbered by a `uint8`.
unfoldable pub get_string : {R : Type 0} → (R → ℕ → List ℕ) → Option R → ℕ → Outcome (List ℕ)
get_string get r i = column r (λ s. c_str (get s (u8 i)))

-- Signed numbers, Booleans and floating-point numbers `A` are passed on.
unfoldable pub get_column : {R A : Type 0} → (R → ℕ → A) → Option R → ℕ → Outcome A
get_column get r i = column r (λ s. get s (u8 i))

-- A `double` narrowed to a `float` by the argument `narrow`.
unfoldable pub get_float : {R D F : Type 0} → (D → F) → (R → ℕ → D) → Option R → ℕ → Outcome F
get_float narrow get r i = column r (λ s. narrow (get s (u8 i)))

unfoldable pub get_row_count : {R : Type 0} → (R → ℕ) → Option R → Outcome ℕ
get_row_count rows_count r = column r rows_count

module _ {R : Type 0} (get_uint : R → ℕ → ℕ) (get_uint64 : R → ℕ → ℕ) where
  unfoldable pub get_uint8 : Option R → ℕ → Outcome ℕ
  get_uint8 r i = column r (λ s. u8 (get_uint s (u8 i)))

  unfoldable pub get_uint16 : Option R → ℕ → Outcome ℕ
  get_uint16 r i = column r (λ s. u16 (get_uint s (u8 i)))

  unfoldable pub get_uint32 : Option R → ℕ → Outcome ℕ
  get_uint32 r i = column r (λ s. get_uint s (u8 i) % 2 ^ 32)

  -- The return type is `uint32`.
  unfoldable pub get_uint64_column : Option R → ℕ → Outcome ℕ
  get_uint64_column r i = column r (λ s. get_uint64 s (u8 i) % 2 ^ 64 % 2 ^ 32)

unfoldable pub get_next_result :
    {R : Type 0} → (R → Bool × R) → Option R → Outcome (Bool × Option R)
get_next_result next none = fault null_pointer
get_next_result next (some r) = let (more, r') = next r in ok (more, some r')
