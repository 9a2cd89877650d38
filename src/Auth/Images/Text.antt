-- ===== src/Auth/Images/Text.antt =====
-- Texts that `strcpy` puts into an array of a structure and that are read from there as C strings.
use priston_tale_eu.Prelude.{
  ℕ, zero, suc, ◌-◌, ◌≡◌, refl, sym, ap, ◌∙◌, some, List, [], ◌∷◌, ◌++◌, length, drop, get_elem?,
  ltb, ok, out_of_bounds, require, >>=-eq-ok, >>=-of-ok, ok-injective, append_assoc,
}
use priston_tale_eu.Common.Layout.{Shape, image, offset_of, Fits}
use priston_tale_eu.Common.Layout.Members.{drop-image}
use priston_tale_eu.Auth.Packets.{Junk, text_field}
use priston_tale_eu.Auth.Handlers.{c_string}

-- No byte of the text is zero.
abbrev pub NoZero : List ℕ → Type 0
NoZero [] = Unit {0}
NoZero (zero ∷ cs) = ⊥
NoZero (suc n ∷ cs) = NoZero cs

c_string-terminated : (text more : List ℕ) → NoZero text → c_string (text ++ 0 ∷ more) ≡ ok text
unfolding c_string
c_string-terminated [] more h = refl
c_string-terminated (zero ∷ cs) more h = absurd h
c_string-terminated (suc n ∷ cs) more h = >>=-of-ok _ _ (c_string-terminated cs more h)

module _ (junk : Junk) where
  pub c_string-text_field :
      (capacity : ℕ) (text field more : List ℕ)
      → text_field junk capacity text ≡ ok field
      → NoZero text
      → c_string (field ++ more) ≡ ok text
  unfolding text_field
  c_string-text_field capacity text field more e h =
      let (u, low, r) = >>=-eq-ok (require (ltb (length text) capacity) out_of_bounds) _ e in
      let rest = junk.bytes (capacity - 1 - length text) in
      ap (λ (xs : List ℕ). c_string (xs ++ more)) (sym (ok-injective r))
      ∙ ap c_string (append_assoc text (0 ∷ rest) more)
      ∙ c_string-terminated text (rest ++ more) h

  -- A text in a member of a structure is read back at the offset of the member.
  pub c_string-image :
      (members : List Shape) (values : List (List ℕ)) (rest : List ℕ) (i capacity : ℕ)
      (text field : List ℕ)
      → Fits members values
      → get_elem? values i ≡ some field
      → text_field junk capacity text ≡ ok field
      → NoZero text
      → c_string (drop (offset_of members i) (image junk.bytes members values ++ rest)) ≡ ok text
  c_string-image members values rest i capacity text field fits at e h =
      let (after, found) =
        drop-image junk.bytes junk.length-bytes members values rest i field fits at in
      ap c_string found ∙ c_string-text_field capacity text field after e h
