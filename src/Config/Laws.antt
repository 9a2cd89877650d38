-- ===== src/Config/Laws.antt =====
-- What the values of a configuration are after it was read.
use priston_tale_eu.Prelude.{
  ℕ, ◌≡◌, ◌⊎◌, refl, sym, ap, ◌∙◌, Bool, true, false, Option, none, some, List, [], ◌∷◌, arith,
  str_eq, str_eq_sound, str_eq_join, if◌then◌else◌, Bool-cases, inl, inr,
}
use priston_tale_eu.Config.{
  Algorithm, Entries, Config, Line, skipped, malformed, entry, find, assign, lines, classify,
  take_line, parse, replaced, reload, get_string_default,
}

some-injective : {A : Type 0} {a b : A} → some a ≡ some b → a ≡ b
some-injective {a} e = ap (λ (x : Option _). elim x [ none ↦ a | some y ↦ y ]) e

-- A map with one more assignment.
find-assign :
    (m : Entries) (name value key : List ℕ)
    → find (assign m name value) key ≡ (if str_eq name key then some value else find m key)
unfolding find assign
find-assign [] name value key = refl
find-assign ((k, v) ∷ m) name value key = elim (Bool-cases (str_eq k name)) [
  | inl y ↦ ground (arith, y, ap (λ (x : List ℕ). str_eq x key) (str_eq_sound k name y))
  | inr n ↦ ground (arith, n, find-assign m name value key, str_eq_join k name key)
]

module _ (boost : Algorithm) where
  -- What one line says of a key.
  abbrev pub says : Line → List ℕ → Option (List ℕ)
  says skipped key = none
  says malformed key = none
  says (entry name value) key = if str_eq name key then some value else none

  abbrev pub later : Option (List ℕ) → Option (List ℕ) → Option (List ℕ)
  later none earlier = earlier
  later (some v) earlier = some v

  -- The value of the last line that sets a key, independently of any map.
  unfoldable pub last_value : List (List ℕ) → List ℕ → Option (List ℕ)
  last_value [] key = none
  last_value (line ∷ rest) key =
      later (last_value rest key) (says (classify boost (boost.trim_left line)) key)

  later_assoc : (a b c : Option (List ℕ)) → later a (later b c) ≡ later (later a b) c
  later_assoc none b c = refl
  later_assoc (some x) b c = refl

  later-none : (a : Option (List ℕ)) → later a none ≡ a
  later-none none = refl
  later-none (some v) = refl

  find-take_line :
      (m m' : Entries) (line : Line) (key : List ℕ)
      → take_line boost m line ≡ some m'
      → find m' key ≡ later (says line key) (find m key)
  unfolding take_line
  find-take_line m m' skipped key e = ap (λ (x : Entries). find x key) (sym (some-injective e))
  find-take_line m m' malformed key e = cc
  find-take_line m m' (entry name value) key e =
      ap (λ (x : Entries). find x key) (sym (some-injective e))
      ∙ find-assign m name value key
      ∙ ground arith

  find-parse :
      (text : List (List ℕ)) (m m' : Entries) (key : List ℕ)
      → parse boost m text ≡ some m'
      → find m' key ≡ later (last_value text key) (find m key)
  unfolding parse last_value
  find-parse [] m m' key e = ap (λ (x : Entries). find x key) (sym (some-injective e))
  find-parse (line ∷ rest) m m' key e =
      after (λ m₁. find-parse rest m₁ m' key) (take_line boost m said) refl e
    where
      said : Line
      said = classify boost (boost.trim_left line)

      after :
          ((m₁ : Entries)
            → parse boost m₁ rest ≡ some m'
            → find m' key ≡ later (last_value rest key) (find m₁ key))
          → (next : Option Entries) → take_line boost m said ≡ next
          → (elim next [ none ↦ none | some m₁ ↦ parse boost m₁ rest ]) ≡ some m'
          → find m' key ≡ later (later (last_value rest key) (says said key)) (find m key)
      after more none t e = cc
      after more (some m₁) t e =
          more m₁ e
          ∙ ap (later (last_value rest key)) (find-take_line m m₁ said key t)
          ∙ later_assoc (last_value rest key) (says said key) (find m key)

  abbrev pub or_default : List ℕ → Option (List ℕ) → List ℕ
  or_default d none = d
  or_default d (some v) = v

  -- A reading that succeeds leaves each key, whatever its value was before, with the value of the last
  -- line that sets it, and with the default if no line does.
  pub get_string_default-reload :
      (c c' : Config) (text name default : List ℕ)
      → reload boost c (some text) ≡ (true, c')
      → get_string_default boost c' name default
        ≡ or_default default (last_value (lines text) (boost.to_lower name))
  unfolding reload replaced get_string_default find last_value
  get_string_default-reload c c' text name default e = taken (parse boost [] (lines text)) refl e
    where
      taken :
          (p : Option Entries)
          → parse boost [] (lines text) ≡ p
          → replaced boost c p ≡ (true, c')
          → or_default default (find c'.entries (boost.to_lower name))
            ≡ or_default default (last_value (lines text) (boost.to_lower name))
      taken none p e = cc
      taken (some m) p e =
          ap (λ (x : Bool × Config). or_default default (find x.1.entries (boost.to_lower name)))
            (sym e)
          ∙ ap (or_default default)
              (find-parse (lines text) [] m (boost.to_lower name) p ∙ later-none _)

  -- A reading that fails, for want of the file or for a line without `=` that is neither blank nor a
  -- comment nor a section, keeps the values that were read before; no other reading fails.
  reload-keeps :
      (c c' : Config) (file : Option (List ℕ))
      → reload boost c file ≡ (false, c')
      → (c'.entries ≡ c.entries)
        × ((file ≡ none)
            ⊎ ((text : List ℕ) × (file ≡ some text) × (parse boost [] (lines text) ≡ none)))
  unfolding reload replaced
  reload-keeps c c' none e = (ap (λ (x : Bool × Config). x.1.entries) (sym e), inl refl)
  reload-keeps c c' (some text) e = kept (parse boost [] (lines text)) refl e
    where
      kept :
          (p : Option Entries)
          → parse boost [] (lines text) ≡ p
          → replaced boost c p ≡ (false, c')
          → (c'.entries ≡ c.entries)
            × ((some text ≡ none)
                ⊎ ((t : List ℕ) × (some text ≡ some t) × (parse boost [] (lines t) ≡ none)))
      kept none p e = (ap (λ (x : Bool × Config). x.1.entries) (sym e), inr (text, refl, p))
      kept (some m) p e = cc
