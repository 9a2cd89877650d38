-- ===== src/Common/Wired/Rounds.antt =====
-- The loops of `EncodeWired` and `DecodeWired`, round by round.
use Prim.Native.Nat.{bit_or}
use native.Mathlib.Nat.{pow-suc, pow-le-pow_right}
use native.Mathlib.Numerals.{towards_suc}
use priston_tale_eu.Prelude.{
  ℕ, zero, suc, ◌+◌, ◌*◌, ◌/◌, ◌%◌, ◌^◌, ◌≤◌, ◌<◌, ◌≡◌, ap, ◌∙◌, true, List, [], ◌∷◌, ◌++◌, arith,
  length, drop, ltb, ok, Bool-cases, inl, inr,
}
use priston_tale_eu.Prelude.Bits.{shr, shl, low_bits, bit_or-shl}
use priston_tale_eu.Common.Strings.{char_at}
use priston_tale_eu.Common.Wired.{wired_digits, wired_loop, int32}

pow-add_six : (s k : ℕ) → k ≡ s + 6 → 2 ^ k ≡ 64 * 2 ^ s
pow-add_six s k e = rw e (simp towards_suc (omega (arith, pow-suc 2 s)))

char_at-drop :
    (buffer : List ℕ) (i c : ℕ) (rest : List ℕ)
    → drop i buffer ≡ c ∷ rest
    → (char_at buffer i ≡ ok c) × (drop (i + 1) buffer ≡ rest)
char_at-drop [] zero c rest e = cc
char_at-drop [] (suc i) c rest e = cc
char_at-drop (x ∷ xs) zero c rest e = ground arith
char_at-drop (x ∷ xs) (suc i) c rest e =
    let r = char_at-drop xs i c rest e in (r.0, ap (λ (n : ℕ). drop n (x ∷ xs)) (suc_add i) ∙ r.1)
  where
    suc_add : (i : ℕ) → suc i + 1 ≡ suc (i + 1)
    suc_add i = omega arith

-- One round: the six bits of a character go above the bits read so far.
round-value :
    (n s v : ℕ)
    → v < 2 ^ s
    → v + n * 2 ^ s < 2 ^ 31
    → int32 (bit_or v (shl (low_bits (64 + low_bits n 6) 6) s)) ≡ v + n % 64 * 2 ^ s
round-value n s v h k =
    ground (arith, bit_or-shl s v (n % 64) h, ap (λ (t : ℕ). t * 2 ^ s) (parts n))
  where
    parts : (n : ℕ) → n ≡ 64 * (n / 64) + n % 64
    parts n = omega arith

small_shift : (n s v : ℕ) → v + suc n * 2 ^ s < 2 ^ 31 → ltb s 32 ≡ true
small_shift n s v h = elim (Bool-cases (ltb s 32)) [
  | inl yes_ ↦ yes_
  | inr far ↦
      absurd (
        omega
          (arith, pow-le-pow_right {n = 2} (omega arith) {i = 32} {j = s} (ground (arith, far))))
]

wired_digits-suc :
    (f n : ℕ)
    → wired_digits (suc f) (suc n) ≡ (64 + low_bits (suc n) 6) ∷ wired_digits f (shr (suc n) 6)
unfolding wired_digits
wired_digits-suc f n = ground arith

below_64 : (r p : ℕ) → r ≤ 63 → r * p ≤ 63 * p
below_64 r p h = grind arith

-- What the rounds need of the value that is left: it fits behind the bits read so far.
pub record Left (n s v : ℕ) : Type 0 where
  pub low : v < 2 ^ s
  pub whole : v + n * 2 ^ s < 2 ^ 31

next_value : ℕ → ℕ → ℕ → ℕ
next_value n s v = v + n % 64 * 2 ^ s

split_value : (n p : ℕ) → n * p ≡ 64 * (n / 64 * p) + n % 64 * p
split_value n p = omega (arith, ap (λ (t : ℕ). t * p) (parts n))
  where
    parts : (n : ℕ) → n ≡ 64 * (n / 64) + n % 64
    parts n = omega arith

next-total : (n s v k : ℕ) → k ≡ s + 6 → next_value n s v + n / 64 * 2 ^ k ≡ v + n * 2 ^ s
unfolding next_value
next-total n s v k e =
    omega (arith, split_value n (2 ^ s), ap (λ (t : ℕ). n / 64 * t) (pow-add_six s k e))

next-Left : (n s v k : ℕ) → k ≡ s + 6 → Left n s v → Left (n / 64) k (next_value n s v)
next-Left n s v k e l = record {
  low =
      unfold next_value in
      omega (arith, l.low, pow-add_six s k e, below_64 (n % 64) (2 ^ s) (omega arith));
  whole = omega (arith, next-total n s v k e, l.whole);
}

wired_loop-suc :
    (buffer tail : List ℕ) (n b s position v rounds : ℕ)
    → drop position buffer ≡ (64 + low_bits (suc n) 6) ∷ tail
    → Left (suc n) s v
    → wired_loop buffer (suc rounds) b s position v
      ≡ wired_loop buffer rounds (b + 1) (2 + 6 * b) (position + 1) (next_value (suc n) s v)
unfolding wired_loop next_value
wired_loop-suc buffer tail n b s position v rounds e l = ground (
  arith,
  char_at-drop buffer position (64 + low_bits (suc n) 6) tail e,
  small_shift n s v l.whole,
  round-value (suc n) s v l.low l.whole,
)

pub wired_loop-digits :
    (f n b s position v : ℕ) (buffer tail : List ℕ)
    → drop position buffer ≡ wired_digits f n ++ tail
    → 2 + 6 * b ≡ s + 6
    → n < 64 ^ f
    → Left n s v
    → wired_loop buffer (length (wired_digits f n)) b s position v ≡ ok (v + n * 2 ^ s)
wired_loop-digits zero n b s position v buffer tail e a fits l =
    unfold wired_loop wired_digits in
    ap ok (omega (arith, ap (λ (t : ℕ). t * 2 ^ s) (zero_of n fits)))
  where
    zero_of : (n : ℕ) → n < 1 → n ≡ 0
    zero_of n h = omega arith
wired_loop-digits (suc f) zero b s position v buffer tail e a fits l =
    unfold wired_loop wired_digits in ap ok (omega arith)
wired_loop-digits (suc f) (suc n) b s position v buffer tail e a fits l =
    let d = wired_digits-suc f n in
    let e' : drop position buffer
        ≡ (64 + low_bits (suc n) 6) ∷ (wired_digits f (shr (suc n) 6) ++ tail) =
      e ∙ ap (λ (xs : List ℕ). xs ++ tail) d in
    rw d (
      wired_loop-suc buffer _ n b s position v _ e' l
      ∙ wired_loop-digits f (suc n / 64) (b + 1) (2 + 6 * b) (position + 1) (next_value (suc n) s v)
          buffer tail (char_at-drop buffer position _ _ e').1 (omega arith)
          (omega (arith, pow-suc 64 f)) (next-Left (suc n) s v (2 + 6 * b) a l)
      ∙ ap ok (next-total (suc n) s v (2 + 6 * b) a))

pub length-wired_digits : (f n k : ℕ) → n < 64 ^ k → length (wired_digits f n) ≤ k
length-wired_digits zero n k h = unfold wired_digits in omega arith
length-wired_digits (suc f) zero k h = unfold wired_digits in omega arith
length-wired_digits (suc f) (suc n) zero h = absurd (omega arith)
length-wired_digits (suc f) (suc n) (suc k) h =
    rw (wired_digits-suc f n)
      (omega (arith, length-wired_digits f (suc n / 64) k (omega (arith, pow-suc 64 k))))
