-- ===== src/Common/Hex/Laws.antt =====
-- The hexadecimal form of a digest.
use mathlib.Core.Path.{ap₂}
use priston_tale_eu.Prelude.{
  ℕ, zero, suc, ◌+◌, ◌<◌, ◌≡◌, refl, sym, ap, ◌∙◌, List, [], ◌∷◌, ◌++◌, arith, length, get_elem?,
  drop, ok, ok-injective, some,
}
use priston_tale_eu.Common.Hex.{calculate_sha1_hash, hex_byte, hex_from}

-- Two upper-case digits for each byte, in order.
abbrev pub hex_string : List ℕ → List ℕ
hex_string [] = []
hex_string (b ∷ bs) = hex_byte b ++ hex_string bs

abbrev pub AreBytes : List ℕ → Type 0
AreBytes [] = Unit {0}
AreBytes (b ∷ bs) = (b < 256) × AreBytes bs

drop-get :
    (bytes : List ℕ) (i : ℕ) (b : ℕ) (bs : List ℕ)
    → drop i bytes ≡ b ∷ bs
    → (get_elem? bytes i ≡ some b) × (drop (i + 1) bytes ≡ bs)
drop-get [] zero b bs e = cc
drop-get [] (suc i) b bs e = cc
drop-get (x ∷ xs) zero b bs e = ground arith
drop-get (x ∷ xs) (suc i) b bs e =
    let r = drop-get xs i b bs e in (r.0, ap (λ (n : ℕ). drop n (x ∷ xs)) (suc_add i) ∙ r.1)
  where
    suc_add : (i : ℕ) → suc i + 1 ≡ suc (i + 1)
    suc_add i = omega arith

hex_from-hex_string :
    (bytes rest : List ℕ) (i : ℕ)
    → drop i bytes ≡ rest
    → hex_from bytes i (length rest) ≡ ok (hex_string rest)
unfolding hex_from
hex_from-hex_string bytes [] i e = refl
hex_from-hex_string bytes (b ∷ rest) i e =
    let r = drop-get bytes i b rest e in
    ground (arith, r.0, hex_from-hex_string bytes rest (i + 1) r.1)

hex_byte-injective : (a b : ℕ) → a < 256 → b < 256 → hex_byte a ≡ hex_byte b → a ≡ b
hex_byte-injective a b h k e = ground arith

hex_string-injective :
    (xs ys : List ℕ) → AreBytes xs → AreBytes ys → hex_string xs ≡ hex_string ys → xs ≡ ys
hex_string-injective [] [] h k e = refl
hex_string-injective [] (y ∷ ys) h k e = cc
hex_string-injective (x ∷ xs) [] h k e = cc
hex_string-injective (x ∷ xs) (y ∷ ys) h k e =
    ap₂ ◌∷◌ (hex_byte-injective x y h.0 k.0 (ground arith))
      (hex_string-injective xs ys h.1 k.1 (ground arith))

-- The hash string is the upper-case hexadecimal form of the digest, and two contents with
-- the same string have the same digest, for a digest function that returns twenty bytes.
calculate_sha1_hash_lem :
    (sha1 : List ℕ → List ℕ)
    → ((s : List ℕ) → (length (sha1 s) ≡ 20) × AreBytes (sha1 s))
    → (a b : List ℕ)
    → (calculate_sha1_hash sha1 a ≡ ok (hex_string (sha1 a)))
      × (calculate_sha1_hash sha1 a ≡ calculate_sha1_hash sha1 b → sha1 a ≡ sha1 b)
unfolding calculate_sha1_hash
calculate_sha1_hash_lem sha1 digest a b =
    let form : (s : List ℕ) → calculate_sha1_hash sha1 s ≡ ok (hex_string (sha1 s)) = λ s.
      ap (hex_from (sha1 s) 0) (sym (digest s).0) ∙ hex_from-hex_string (sha1 s) (sha1 s) 0 refl in
    (
      form a,
      λ e.
          hex_string-injective (sha1 a) (sha1 b) (digest a).1 (digest b).1
            (ok-injective (sym (form a) ∙ e ∙ form b)),
    )
