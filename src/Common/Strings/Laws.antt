-- ===== src/Common/Strings/Laws.antt =====
-- `StrSplit` of SharedDefines.cpp on joined tokens.
use priston_tale_eu.Prelude.{
  ℕ, ◌≡◌, ◌≢◌, refl, sym, ap, ◌∙◌, true, false, List, [], ◌∷◌, ◌++◌, append-nil, append_assoc,
}
use priston_tale_eu.Common.Strings.{contains, push_token, scan, scan_char, str_split, Scan}

-- The characters that are no separators.
abbrev pub IsToken : List ℕ → List ℕ → Type 0
IsToken separator [] = Unit {0}
IsToken separator (c ∷ cs) = (contains separator c ≡ false) × IsToken separator cs

abbrev pub AreTokens : List ℕ → List (List ℕ) → Type 0
AreTokens separator [] = Unit {0}
AreTokens separator (t ∷ ts) = IsToken separator t × (t ≢ []) × AreTokens separator ts

-- The tokens with one separator character after each.
abbrev pub join : ℕ → List (List ℕ) → List ℕ
join c [] = []
join c (t ∷ ts) = t ++ c ∷ join c ts

module _ (separator : List ℕ) where
  scan_char-token :
      (tokens : List (List ℕ)) (token : List ℕ) (c : ℕ)
      → contains separator c ≡ false
      → scan_char separator (tokens, token) c ≡ (tokens, token ++ c ∷ [])
  unfolding scan_char
  scan_char-token tokens token c h = rw h

  scan_char-separator :
      (tokens : List (List ℕ)) (token : List ℕ) (c : ℕ)
      → contains separator c ≡ true
      → scan_char separator (tokens, token) c ≡ (push_token (tokens, token), [])
  unfolding scan_char
  scan_char-separator tokens token c h = rw h

  scan-token :
      (t rest token : List ℕ) (tokens : List (List ℕ))
      → IsToken separator t
      → scan separator (tokens, token) (t ++ rest) ≡ scan separator (tokens, token ++ t) rest
  unfolding scan
  scan-token [] rest token tokens h =
      ap (λ (x : List ℕ). scan separator (tokens, x) rest) (sym (append-nil token))
  scan-token (c ∷ cs) rest token tokens h =
      ap (λ (x : Scan). scan separator x (cs ++ rest)) (scan_char-token tokens token c h.0)
      ∙ (scan-token cs rest (token ++ c ∷ []) tokens h.1
          ∙ ap (λ (x : List ℕ). scan separator (tokens, x) rest) (append_assoc token (c ∷ []) cs))

  push_token-cons :
      (tokens : List (List ℕ)) (t : List ℕ) → t ≢ [] → push_token (tokens, t) ≡ tokens ++ t ∷ []
  push_token-cons tokens [] h = absurd (h refl)
  push_token-cons tokens (c ∷ cs) h = refl

  scan-join :
      (c : ℕ) (ts tokens : List (List ℕ)) (last : List ℕ)
      → contains separator c ≡ true
      → AreTokens separator ts
      → IsToken separator last
      → scan separator (tokens, []) (join c ts ++ last) ≡ (tokens ++ ts, last)
  unfolding scan
  scan-join c [] tokens last h ts k =
      ap (λ (x : List ℕ). scan separator (tokens, []) x) (sym (append-nil last))
      ∙ scan-token last [] [] tokens k
      ∙ ap (λ (x : List (List ℕ)). (x, last)) (sym (append-nil tokens))
  scan-join c (t ∷ ts) tokens last h k l =
      ap (scan separator (tokens, [])) (append_assoc t (c ∷ join c ts) last)
      ∙ scan-token t (c ∷ join c ts ++ last) [] tokens k.0
      ∙ ap (λ (x : Scan). scan separator x (join c ts ++ last)) (scan_char-separator tokens t c h)
      ∙ (ap (λ (x : List (List ℕ)). scan separator (x, []) (join c ts ++ last))
            (push_token-cons tokens t k.1)
          ∙ scan-join c ts (tokens ++ t ∷ []) last h k.2 l
          ∙ ap (λ (x : List (List ℕ)). (x, last)) (append_assoc tokens (t ∷ []) ts))

  -- Tokens that are not empty and hold no separator, joined by a separator character, come back from
  -- `StrSplit` in order; what stands behind the last separator is a token if it is not empty.
  pub str_split-join :
      (c : ℕ) (ts : List (List ℕ)) (last : List ℕ)
      → contains separator c ≡ true
      → AreTokens separator ts
      → IsToken separator last
      → last ≢ []
      → (str_split (join c ts ++ last) separator ≡ ts ++ last ∷ [])
        × (str_split (join c ts) separator ≡ ts)
  unfolding str_split
  str_split-join c ts last h k l m = (
    ap push_token (scan-join c ts [] last h k l) ∙ push_token-cons ts last m,
    ap (λ (x : List ℕ). push_token (scan separator ([], []) x)) (sym (append-nil (join c ts)))
        ∙ ap push_token (scan-join c ts [] [] h k tt),
  )
