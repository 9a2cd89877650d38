-- ===== src/Common/Layout/Members.antt =====
-- Members of a structure in memory.
use priston_tale_eu.Prelude.{
  ℕ, zero, suc, ◌+◌, ◌≡◌, refl, sym, ap, ◌∙◌, some, List, [], ◌∷◌, ◌++◌, arith, length, drop,
  get_elem?, length-append, append_assoc, drop-append_add,
}
use priston_tale_eu.Common.Layout.{
  Shape, pad, offset_from, offset_of, image_from, image, Fits, gap, end_from, widest, struct,
}

some-injective : {v w : List ℕ} → some v ≡ some w → v ≡ w
some-injective e = cc

regroup : (a b c d e : List ℕ) → a ++ ((b ++ (c ++ d)) ++ e) ≡ (a ++ (b ++ c)) ++ (d ++ e)
regroup a b c d e =
    ap (λ (xs : List ℕ). a ++ (xs ++ e)) (sym (append_assoc b c d))
    ∙ ap (λ (xs : List ℕ). a ++ xs) (append_assoc (b ++ c) d e)
    ∙ sym (append_assoc a (b ++ c) (d ++ e))

module _ (fill : ℕ → List ℕ) (fill-length : (n : ℕ) → length (fill n) ≡ n) where
  length-gap : (n : ℕ) → length (gap fill n) ≡ n
  length-gap zero = refl
  length-gap (suc n) = fill-length (suc n)

  -- What lies from a member on: what was stored in it, and then the rest.
  pub drop-image_from :
      (w at : ℕ) (before rest : List ℕ) (ts : List Shape) (values : List (List ℕ)) (i : ℕ)
      (value : List ℕ)
      → length before ≡ at
      → Fits ts values
      → get_elem? values i ≡ some value
      → (after : List ℕ) × (drop
            (offset_from at ts i)
            (before ++ (image_from fill w at ts values ++ rest))
          ≡ value ++ after)
  drop-image_from w at before rest [] [] i value h f e = absurd (no_value i e)
    where
      no_value : (i : ℕ) → get_elem? {A = List ℕ} [] i ≡ some value → ⊥
      no_value i e = cc
  drop-image_from w at before rest [] (v ∷ vs) i value h f e = absurd f
  drop-image_from w at before rest (t ∷ ts) [] i value h f e = absurd f
  drop-image_from w at before rest (t ∷ ts) (v ∷ vs) zero value h f e =
      let p = pad at t.align in
      let more = image_from fill w (at + p + t.size) ts vs in
      let same : v ≡ value = some-injective e in
      (
        more ++ rest,
        drop-append_add (at + p) p before ((gap fill p ++ (v ++ more)) ++ rest) (omega (arith, h))
            ∙ ap (drop p) (append_assoc (gap fill p) (v ++ more) rest)
            ∙ drop-append_add p 0 (gap fill p) ((v ++ more) ++ rest) (omega (arith, length-gap p))
            ∙ append_assoc v more rest
            ∙ ap (λ (xs : List ℕ). xs ++ (more ++ rest)) same,
      )
  drop-image_from w at before rest (t ∷ ts) (v ∷ vs) (suc i) value h f e =
      let p = pad at t.align in
      let next = at + p + t.size in
      let more = image_from fill w next ts vs in
      let placed : length (before ++ (gap fill p ++ v)) ≡ next = omega (
        arith,
        h,
        f.0,
        length-gap p,
        length-append before (gap fill p ++ v),
        length-append (gap fill p) v,
      ) in
      let (after, found) =
        drop-image_from w next (before ++ (gap fill p ++ v)) rest ts vs i value placed f.1 e in
      (after, ap (drop (offset_from next ts i)) (regroup before (gap fill p) v more rest) ∙ found)

  -- The same in a whole structure, with anything after it.
  pub drop-image :
      (members : List Shape) (values : List (List ℕ)) (rest : List ℕ) (i : ℕ) (value : List ℕ)
      → Fits members values
      → get_elem? values i ≡ some value
      → (after : List ℕ) × (drop (offset_of members i) (image fill members values ++ rest)
          ≡ value ++ after)
  drop-image members values rest i value f e =
      drop-image_from (widest members) 0 [] rest members values i value refl f e

  length-image_from :
      (w at : ℕ) (ts : List Shape) (values : List (List ℕ))
      → Fits ts values
      → at + length (image_from fill w at ts values) ≡ end_from at ts + pad (end_from at ts) w
  length-image_from w at [] [] f = omega (arith, length-gap (pad at w))
  length-image_from w at [] (v ∷ vs) f = absurd f
  length-image_from w at (t ∷ ts) [] f = absurd f
  length-image_from w at (t ∷ ts) (v ∷ vs) f =
      let p = pad at t.align in
      let more = image_from fill w (at + p + t.size) ts vs in
      omega (
        arith,
        f.0,
        length-gap p,
        length-append (gap fill p) (v ++ more),
        length-append v more,
        length-image_from w (at + p + t.size) ts vs f.1,
      )

  -- A structure takes as much memory as `sizeof` tells.
  pub length-image :
      (members : List Shape) (values : List (List ℕ))
      → Fits members values
      → length (image fill members values) ≡ (struct members).size
  length-image members values f =
      omega (arith, length-image_from (widest members) 0 members values f)
