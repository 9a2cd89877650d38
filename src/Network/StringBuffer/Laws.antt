-- ===== src/Network/StringBuffer/Laws.antt =====
-- The contents of a builder of src/Shared/Network/StringBuffer.h after its operations.
use priston_tale_eu.Prelude.{
  ℕ, zero, suc, ◌+◌, ◌-◌, ◌^◌, ◌<◌, ◌≡◌, sym, ap, true, false, List, [], ◌∷◌, ◌++◌, arith, length,
  take, replicate, ltb, lt→ltb, le→leb, if◌then◌else◌, ok, add_size, append-nil, length-append,
  length-take, length-replicate, take-all, overwrite-end,
}
use priston_tale_eu.Network.StringBuffer.{
  StringBuffer, append, append_bytes, make_room, get_contents, append_string, append_sot,
  append_string_delimiter, append_buffer,
}

-- Nothing stands behind the write position.
abbrev pub IsFull : StringBuffer → Type 0
IsFull b = b.write_position ≡ length b.storage

abbrev fresh_room : ℕ → List ℕ
fresh_room n = replicate n 0

room-eq :
    (b : StringBuffer) (n : ℕ) → make_room b (length b.storage + n) ≡ b.storage ++ fresh_room n
room-eq b n =
    ground (arith, ap (λ (k : ℕ). b.storage ++ replicate k 0) (less n), append-nil b.storage)
  where
    less : (n : ℕ) → length b.storage + n - length b.storage ≡ n
    less n = omega arith

abbrev pub appended : StringBuffer → List ℕ → StringBuffer
appended b bytes = record b {
  storage = b.storage ++ bytes;
  write_position = length b.storage + length bytes;
}

append_bytes-appended :
    (b : StringBuffer) (bytes : List ℕ)
    → b.write_position ≡ length b.storage
    → length b.storage < 10000000
    → length bytes < 2 ^ 32
    → append_bytes b bytes ≡ ok (appended b bytes)
append_bytes-appended b bytes v small short =
    let n : ℕ = length bytes in
    let fits : add_size (length b.storage) n ≡ length b.storage + n = omega arith in
    let room = room-eq b n in
    let wide : length (b.storage ++ fresh_room n) ≡ length b.storage + n =
      omega (arith, length-append b.storage (fresh_room n), length-replicate {A = ℕ} n 0) in
    rw v (
      rw (lt→ltb (length b.storage) 10000000 small) (
        rw fits (
          rw room (
            rw
              (le→leb (length b.storage + n) (length (b.storage ++ fresh_room n))
                (omega (arith, wide)))
              (rw (overwrite-end b.storage (fresh_room n) bytes (length-replicate {A = ℕ} n 0)))))))

-- `Append` adds exactly its bytes at the end, for a buffer below the limit that it asserts.
pub append-appended :
    (b : StringBuffer) (bytes : List ℕ)
    → IsFull b
    → length b.storage < 10000000
    → length bytes < 2 ^ 32
    → append b bytes ≡ ok (appended b bytes)
unfolding append
append-appended b [] v small short = ground (arith, v, append-nil b.storage)
append-appended b (x ∷ xs) v small short = append_bytes-appended b (x ∷ xs) v small short

pub appended-IsFull : (b : StringBuffer) (bytes : List ℕ) → IsFull (appended b bytes)
appended-IsFull b bytes = sym (length-append b.storage bytes)

pub get_contents-appended :
    (b : StringBuffer) (bytes : List ℕ) → get_contents (appended b bytes) ≡ b.storage ++ bytes
get_contents-appended b bytes =
    take-all (length b.storage + length bytes) (b.storage ++ bytes)
      (omega (arith, length-append b.storage bytes))

append-taken :
    (b : StringBuffer) (n : ℕ) (s : List ℕ)
    → IsFull b
    → length b.storage < 10000000
    → length s < 2 ^ 32
    → (if ltb 0 n then append b (take n s) else ok b) ≡ ok (appended b (take n s))
unfolding append
append-taken b zero s v small o = ground (arith, v, append-nil b.storage)
append-taken b (suc n) s v small o =
    rw (lt→ltb 0 (suc n) (omega arith))
      (append-appended b (take (suc n) s) v small (omega (arith, length-take (suc n) s)))

-- The text operations of a full buffer, within the limit: `AppendString` adds its text and, if asked,
-- the character 2 after it, `AppendStringDelimiter` its text and its delimiter, and `Append` of
-- another buffer that buffer's contents; nothing that was there is changed.
append-texts :
    (b other : StringBuffer) (text delimiter : List ℕ)
    → IsFull b
    → length b.storage + length text < 10000000
    → length delimiter < 2 ^ 32
    → length other.storage < 2 ^ 32
    → (append_string b text true ≡ ok (appended (appended b text) (2 ∷ [])))
      × (append_string b text false ≡ ok (appended b text))
      × (append_string_delimiter b text delimiter ≡ ok (appended (appended b text) delimiter))
      × (append_buffer b other ≡ ok (appended b (get_contents other)))
unfolding append_string append_string_delimiter append_sot append_buffer
append-texts b other text delimiter v small d o =
    let first = append-appended b text v (omega arith) (omega arith) in
    let full = appended-IsFull b text in
    let limit : length (b.storage ++ text) < 10000000 =
      omega (arith, length-append b.storage text) in
    (
      rw first (append-appended (appended b text) (2 ∷ []) full limit (omega arith)),
      rw first,
      rw first (rw (append-appended (appended b text) delimiter full limit d)),
      append-taken b other.write_position other.storage v (omega arith) o,
    )
