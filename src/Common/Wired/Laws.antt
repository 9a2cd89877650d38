-- ===== src/Common/Wired/Laws.antt =====
-- `EncodeWired` and then `DecodeWired`, of SharedDefines.cpp.
use Prim.Native.Nat.{bit_or}
use priston_tale_eu.Prelude.{
  ℕ, suc, ◌+◌, ◌*◌, ◌-◌, ◌/◌, ◌%◌, ◌^◌, ◌≤◌, ◌<◌, ◌≡◌, refl, sym, ap, ◌∙◌, Bool, true, false, zero,
  List, [], take, drop, ◌∷◌, ◌++◌, arith, length, ◌==◌, if◌then◌else◌, ok, ◌&&◌,
}
use priston_tale_eu.Prelude.Bits.{shr, shl, low_bits, all_below, all_below_sound}
use priston_tale_eu.Prelude.Int.{ℤ, pos, negsuc}
use priston_tale_eu.Common.Strings.{char_at}
use priston_tale_eu.Common.Wired.{
  wired_digits, wired_loop, has_zero, encode_wired, decode_wired, abs, negative_mask, signed32,
  negate32,
}
use priston_tale_eu.Common.Wired.Rounds.{wired_loop-digits, length-wired_digits}

-- The first byte, by its two low bits, its count of bytes and its sign.
abbrev first_byte : ℕ → ℕ → ℕ → ℕ
first_byte r bytes mask = bit_or (bit_or (64 + r) (shl bytes 3)) mask

abbrev first_fits : ℕ → Bool
first_fits c =
    let byte = first_byte (c % 4) (c / 4 % 7) (c / 28 * 4) in
    (low_bits byte 2 == c % 4)
    && (low_bits (shr byte 3) 3 == c / 4 % 7)
    && (low_bits (shr byte 2) 1 == c / 28)

first_table : all_below 56 first_fits ≡ true
first_table = refl

abbrev FirstByte : ℕ → ℕ → ℕ → ℕ → Type 0
FirstByte byte r bytes sign =
    (low_bits byte 2 ≡ r) × (low_bits (shr byte 3) 3 ≡ bytes) × (low_bits (shr byte 2) 1 ≡ sign)

first_fits-FirstByte :
    (c r bytes sign : ℕ)
    → c % 4 ≡ r
    → c / 4 % 7 ≡ bytes
    → c / 28 ≡ sign
    → first_fits c ≡ true
    → FirstByte (first_byte r bytes (sign * 4)) r bytes sign
first_fits-FirstByte c r bytes sign p q w h = rw (← p, ← q, ← w) (ground (arith, h))

first_byte_lem :
    (r bytes sign : ℕ)
    → r < 4
    → bytes < 7
    → sign < 2
    → FirstByte (first_byte r bytes (sign * 4)) r bytes sign
first_byte_lem r bytes sign h k l =
    let c : ℕ = r + 4 * bytes + 28 * sign in
    first_fits-FirstByte c r bytes sign (omega arith) (omega arith) (omega arith)
      (all_below_sound 56 first_fits c first_table (omega arith))

abbrev sign_bit : ℤ → ℕ
sign_bit (pos n) = 0
sign_bit (negsuc n) = 1

mask-eq : (z : ℤ) → (negative_mask z ≡ sign_bit z * 4) × (sign_bit z < 2)
mask-eq (pos n) = omega arith
mask-eq (negsuc n) = omega arith

signed-abs :
    (z : ℤ) → abs z < 2 ^ 31 → signed32 (if sign_bit z == 1 then negate32 (abs z) else abs z) ≡ z
signed-abs (pos n) h = ground arith
signed-abs (negsuc n) h = ground arith

abbrev digits_of : ℤ → List ℕ
digits_of z = wired_digits 11 (shr (abs z) 2)

encoded : ℤ → List ℕ
encoded z =
    first_byte (low_bits (abs z) 2) (suc (length (digits_of z))) (negative_mask z) ∷ digits_of z

short_digits : (z : ℤ) → abs z < 2 ^ 31 → length (digits_of z) ≤ 5
short_digits z h = length-wired_digits 11 (shr (abs z) 2) 5 (omega arith)

has_zero-drop :
    (xs : List ℕ) (n k : ℕ) → n ≤ k → has_zero (drop k xs) ≡ true → has_zero (drop n xs) ≡ true
has_zero-drop xs zero zero h e = e
has_zero-drop xs (suc n) zero h e = absurd (omega (arith, h))
has_zero-drop [] zero (suc k) h e = e
has_zero-drop (x ∷ xs) zero (suc k) h e = found (has_zero-drop xs zero k (omega arith) e) (x == 0)
  where
    found : has_zero xs ≡ true → (b : Bool) → (if b then true else has_zero xs) ≡ true
    found later true = refl
    found later false = later
has_zero-drop [] (suc n) (suc k) h e = e
has_zero-drop (x ∷ xs) (suc n) (suc k) h e = has_zero-drop xs n k (omega (arith, h)) e

-- The last byte of the array was zero.
abbrev pub EndsZero : List ℕ → Type 0
EndsZero unset = has_zero (drop 5 (take 6 unset)) ≡ true

few_digits : (z : ℤ) → abs z < 2 ^ 26 → length (digits_of z) ≤ 4
few_digits z h = length-wired_digits 11 (shr (abs z) 2) 4 (omega arith)

encode-encoded :
    (unset : List ℕ) (z : ℤ)
    → EndsZero unset
    → abs z < 2 ^ 26
    → encode_wired unset z ≡ ok (encoded z)
unfolding encode_wired encoded
encode-encoded unset z ends h =
    let few = few_digits z h in
    let seen =
      has_zero-drop (take 6 unset) (suc (length (digits_of z))) 5 (omega (arith, few)) ends in
    ground (arith, few, seen)

first-facts :
    (z : ℤ)
    → abs z < 2 ^ 31
    → FirstByte
        (first_byte (low_bits (abs z) 2) (suc (length (digits_of z))) (negative_mask z))
        (low_bits (abs z) 2)
        (suc (length (digits_of z)))
        (sign_bit z)
first-facts z h = rw (mask-eq z).0 (
    first_byte_lem (low_bits (abs z) 2) (suc (length (digits_of z))) (sign_bit z) (omega arith)
      (omega (arith, short_digits z h)) (mask-eq z).1)

decode-digits :
    (z : ℤ) (tail : List ℕ)
    → abs z < 2 ^ 31
    → wired_loop (encoded z ++ tail) (length (digits_of z)) 1 2 1 (low_bits (abs z) 2) ≡ ok (abs z)
unfolding encoded
decode-digits z tail h =
    wired_loop-digits 11 (shr (abs z) 2) 1 2 1 (low_bits (abs z) 2) _ tail refl refl (omega arith)
      (record { low = omega arith; whole = omega arith })
    ∙ ap ok (omega arith)

decode_wired_lem :
    (buffer : List ℕ) (first r k s v : ℕ)
    → char_at buffer 0 ≡ ok first
    → FirstByte first r (suc k) s
    → wired_loop buffer k 1 2 1 r ≡ ok v
    → decode_wired buffer ≡ ok (signed32 (if s == 1 then negate32 v else v))
unfolding decode_wired
decode_wired_lem buffer first r k s v c f l = rw c (rw (f.0, f.1, f.2) (rw (less_one k) (rw l)))
  where
    less_one : (k : ℕ) → suc k - 1 ≡ k
    less_one k = omega arith

char_at-encoded :
    (z : ℤ) (tail : List ℕ)
    → char_at (encoded z ++ tail) 0
      ≡ ok (first_byte (low_bits (abs z) 2) (suc (length (digits_of z))) (negative_mask z))
unfolding encoded
char_at-encoded z tail = refl

-- What is written does not depend on what the array held, as long as its last byte was zero.
pub encode_wired-same :
    (unset unset' : List ℕ) (z : ℤ) (bytes : List ℕ)
    → EndsZero unset
    → EndsZero unset'
    → abs z < 2 ^ 26
    → encode_wired unset z ≡ ok bytes
    → encode_wired unset' z ≡ ok bytes
encode_wired-same unset unset' z bytes ends ends' h e =
    encode-encoded unset' z ends' h ∙ sym (encode-encoded unset z ends h) ∙ e

-- If the last byte of the array that `EncodeWired` leaves uninitialised happens to be zero, then an
-- integer of an absolute value below 2 ^ 26 is written in at most five bytes, and reading these gives
-- it back whatever stands behind them.
pub decode-encode_wired :
    (unset : List ℕ) (z : ℤ) (tail : List ℕ)
    → EndsZero unset
    → abs z < 2 ^ 26
    → (bytes : List ℕ) × (encode_wired unset z ≡ ok bytes)
      × (length bytes ≤ 5)
      × (decode_wired (bytes ++ tail) ≡ ok z)
decode-encode_wired unset z tail ends h = (
  encoded z,
  encode-encoded unset z ends h,
  unfold encoded in omega (arith, few_digits z h),
  decode_wired_lem (encoded z ++ tail) _ (low_bits (abs z) 2) (length (digits_of z)) (sign_bit z)
        (abs z) (char_at-encoded z tail) (first-facts z (omega (arith, h)))
        (decode-digits z tail (omega (arith, h)))
      ∙ ap ok (signed-abs z (omega (arith, h))),
)
