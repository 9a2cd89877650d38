-- ===== src/Common/Layout.antt =====
-- How C++ lays a structure out in memory: each member at the next multiple of its alignment, and the
-- whole filled up to a multiple of the greatest alignment. A base class comes first, like a member.
pub mod Members
use priston_tale_eu.Prelude.{
  ℕ, zero, suc, ◌+◌, ◌-◌, ◌*◌, ◌%◌, ◌≡◌, max, List, [], ◌∷◌, ◌++◌, length,
}

-- The size and the alignment of a type.
pub record Shape : Type 0 where
  pub size : ℕ
  pub align : ℕ

abbrev pub scalar : ℕ → Shape
scalar n = record { size = n; align = n }

abbrev pub array : ℕ → Shape → Shape
array count t = record { size = count * t.size; align = t.align }

abbrev pub bool : Shape
bool = scalar 1

abbrev pub char : Shape
char = scalar 1

abbrev pub uint8 : Shape
uint8 = scalar 1

abbrev pub uint16 : Shape
uint16 = scalar 2

-- Also `int`, `int32` and an enumeration.
abbrev pub uint32 : Shape
uint32 = scalar 4

-- The bytes between `at` and the next multiple of an alignment.
abbrev pub pad : ℕ → ℕ → ℕ
pad at align = (align - at % align) % align

abbrev pub widest : List Shape → ℕ
widest [] = 1
widest (t ∷ ts) = max t.align (widest ts)

-- Where the members end that are laid out from `at` on, and where the member with index `i` starts.
abbrev pub end_from : ℕ → List Shape → ℕ
end_from at [] = at
end_from at (t ∷ ts) = end_from (at + pad at t.align + t.size) ts

abbrev pub offset_from : ℕ → List Shape → ℕ → ℕ
offset_from at [] i = at
offset_from at (t ∷ ts) zero = at + pad at t.align
offset_from at (t ∷ ts) (suc i) = offset_from (at + pad at t.align + t.size) ts i

abbrev pub offset_of : List Shape → ℕ → ℕ
offset_of members i = offset_from 0 members i

abbrev pub struct : List Shape → Shape
struct members = record {
  size = end_from 0 members + pad (end_from 0 members) (widest members);
  align = widest members;
}

-- Every member of a union starts at 0.
abbrev pub largest : List Shape → ℕ
largest [] = 0
largest (t ∷ ts) = max t.size (largest ts)

abbrev pub union : List Shape → Shape
union members = record {
  size = largest members + pad (largest members) (widest members);
  align = widest members;
}

-- What stands in memory when the members hold these bytes; `fill` tells the bytes of a gap.
module _ (fill : ℕ → List ℕ) where
  abbrev pub gap : ℕ → List ℕ
  gap zero = []
  gap (suc n) = fill (suc n)

  -- The members from `at` on, and what fills the structure up.
  abbrev pub image_from : ℕ → ℕ → List Shape → List (List ℕ) → List ℕ
  image_from align at [] values = gap (pad at align)
  image_from align at (t ∷ ts) [] = []
  image_from align at (t ∷ ts) (value ∷ values) =
      gap (pad at t.align) ++ (value ++ image_from align (at + pad at t.align + t.size) ts values)

  abbrev pub image : List Shape → List (List ℕ) → List ℕ
  image members values = image_from (widest members) 0 members values

-- Each member holds as many bytes as its type has.
abbrev pub Fits : List Shape → List (List ℕ) → Type 0
Fits [] [] = Unit {0}
Fits [] (value ∷ values) = ⊥
Fits (t ∷ ts) [] = ⊥
Fits (t ∷ ts) (value ∷ values) = (length value ≡ t.size) × Fits ts values
