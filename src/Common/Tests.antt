-- ===== src/Common/Tests.antt =====
-- Runs of the shared helpers, and their theorems at concrete inputs.
use priston_tale_eu.Prelude.{
  ℕ, ◌+◌, ◌%◌, ◌≤◌, ◌<◌, ◌≡◌, refl, true, List, [], ◌∷◌, ◌++◌, arith, length, replicate, ok,
}
use priston_tale_eu.Prelude.Int.{negsuc}
use priston_tale_eu.Common.Wired.{encode_wired, decode_wired, wired_digits}
use priston_tale_eu.Common.Wired.Laws.{decode-encode_wired}
use priston_tale_eu.Common.Strings.{str_split, contains}
use priston_tale_eu.Common.Strings.Laws.{str_split-join}
use priston_tale_eu.Common.Hex.{byte_array_to_hex_str}
use priston_tale_eu.Common.Hex.Laws.{AreBytes}
use priston_tale_eu.Common.Timer.{WorldTimer, get_server_time, tick}
use priston_tale_eu.Common.Timer.Laws.{tick_lem}

-- -17 is written as two characters.
minus_17 : encode_wired (replicate 6 0) (negsuc 16) ≡ ok (b'U' ∷ b'D' ∷ [])
unfolding encode_wired wired_digits
minus_17 = refl

decode-encode_wired_example :
    (bytes : List ℕ) × (encode_wired (replicate 6 0) (negsuc 16) ≡ ok bytes)
    × (length bytes ≤ 5)
    × (decode_wired (bytes ++ 7 ∷ []) ≡ ok (negsuc 16))
decode-encode_wired_example =
    decode-encode_wired (replicate 6 0) (negsuc 16) (7 ∷ []) refl (omega arith)

abbrev commas : List ℕ
commas = b',' ∷ b';' ∷ []

str_split-join_example :
    (str_split (1 ∷ 2 ∷ b';' ∷ 3 ∷ b';' ∷ 4 ∷ []) commas ≡ (1 ∷ 2 ∷ []) ∷ (3 ∷ []) ∷ (4 ∷ []) ∷ [])
    × (str_split (1 ∷ 2 ∷ b';' ∷ 3 ∷ b';' ∷ []) commas ≡ (1 ∷ 2 ∷ []) ∷ (3 ∷ []) ∷ [])
unfolding contains
str_split-join_example =
    str_split-join commas b';' ((1 ∷ 2 ∷ []) ∷ (3 ∷ []) ∷ []) (4 ∷ []) refl
      ((refl, (refl, tt)), (λ e. cc), ((refl, tt), (λ e. cc), tt)) (refl, tt) (λ e. cc)

-- In reverse only the first byte is printed.
reversed : byte_array_to_hex_str (0x1F ∷ 0xA0 ∷ 3 ∷ []) 3 true ≡ ok (b'1' ∷ b'F' ∷ [])
unfolding byte_array_to_hex_str
reversed = refl

-- A stand-in for the digest: twenty bytes that tell the length.
abbrev digest : List ℕ → List ℕ
digest s = replicate 20 (length s % 256)

digest_lem : (s : List ℕ) → (length (digest s) ≡ 20) × AreBytes (digest s)
digest_lem s =
    let low : length s % 256 < 256 = omega arith in
    (
      refl,
      (
        low,
        (
          low,
          (
            low,
            (
              low,
              (
                low,
                (
                  low,
                  (
                    low,
                    (
                      low,
                      (
                        low,
                        (
                          low,
                          (low, (low, (low, (low, (low, (low, (low, (low, (low, (low, tt)))))))))),
                        ),
                      ),
                    ),
                  ),
                ),
              ),
            ),
          ),
        ),
      ),
    )

abbrev late : WorldTimer
late = record { time = 0xFFFFFFFF; prev_time = 7 }

tick_lem_example :
    let (diff, t') = tick late (0xFFFFFFFF + 10) in
    (t'.prev_time ≡ 0xFFFFFFFF) × (t'.time ≡ get_server_time (0xFFFFFFFF + 10)) × (diff ≡ 9)
tick_lem_example = tick_lem late 0xFFFFFFFF 10 (unfold get_server_time in refl) (omega arith)
