-- ===== src/Network/PacketBuffer/Queue.antt =====
-- The packet buffer of PacketBuffer.cpp as a queue of bytes.
use priston_tale_eu.Prelude.{
  ℕ, ◌+◌, ◌-◌, ◌^◌, ◌≤◌, ◌<◌, ◌≡◌, refl, sym, ap, ◌∙◌, Bool, true, false, some, ltb, ◌⊎◌, inl, inr,
  Bool-cases, out_of_bounds, List, [], ◌∷◌, ◌++◌, arith, length, take, drop, grow, overwrite,
  replicate, Outcome, ok, fault, assertion, append-nil, append_assoc, ◌>>=◌, length-append,
  length-take, length-drop, length-replicate, length-overwrite, take-overwrite, add_size, le→leb,
  lt→ltb, take-append_le, drop-drop, drop-take, take-take, drop-append_le,
}
use priston_tale_eu.Network.PacketBuffer.{
  PacketBuffer, make, read, write, read_length_remaining, make_room,
}

-- The positions are in order and inside the store, and the store is far below the address space.
pub record IsValid (b : PacketBuffer) : Type 0 where
  pub ordered : b.read_position ≤ b.write_position
  pub inside : b.write_position ≤ length b.buffer
  pub small : length b.buffer < 2 ^ 63

-- The bytes written and not yet read.
abbrev pub pending : PacketBuffer → List ℕ
pending b = drop b.read_position (take b.write_position b.buffer)

pub length-pending :
    (b : PacketBuffer) → IsValid b → length (pending b) ≡ b.write_position - b.read_position
length-pending b v = omega (
  arith,
  length-drop b.read_position (take b.write_position b.buffer),
  length-take b.write_position b.buffer,
)

pub remaining-eq-length :
    (b : PacketBuffer) → IsValid b → read_length_remaining b ≡ length (pending b)
unfolding read_length_remaining
remaining-eq-length b v = omega (arith, length-pending b v)

pub make-IsValid : (size : ℕ) → size < 2 ^ 63 → IsValid (make size)
unfolding make
make-IsValid size h = omega (arith, length-replicate {A = ℕ} size 0)

length-grow : (xs : List ℕ) (n : ℕ) → length xs ≤ n → length (grow xs n) ≡ n
length-grow xs n h = omega (
  arith,
  length-append xs (replicate (n - length xs) 0),
  length-replicate {A = ℕ} (n - length xs) 0,
)

room-length :
    (b : PacketBuffer) (n : ℕ)
    → (length b.buffer ≤ length (make_room b n)) × (n ≤ length (make_room b n))
room-length b n = ground (arith, length-grow b.buffer n)

room-small : (b : PacketBuffer) (n k : ℕ) → length b.buffer < k → n < k → length (make_room b n) < k
room-small b n k h e = ground (arith, length-grow b.buffer n)

room-in_place : (b : PacketBuffer) (n : ℕ) → n ≤ length b.buffer → make_room b n ≡ b.buffer
room-in_place b n h = ground arith

room-take :
    (b : PacketBuffer) (n k : ℕ) → k ≤ length b.buffer → take k (make_room b n) ≡ take k b.buffer
room-take b n k h = ground (arith, take-append_le k b.buffer (replicate (n - length b.buffer) 0) h)

-- What `write` leaves behind.
pub record Wrote (b : PacketBuffer) (bytes : List ℕ) (b' : PacketBuffer) : Type 0 where
  pub valid : IsValid b'
  pub same_read : b'.read_position ≡ b.read_position
  pub moved : b'.write_position ≡ b.write_position + length bytes
  pub front : take b'.write_position b'.buffer ≡ take b.write_position b.buffer ++ bytes
  pub larger : length b.buffer ≤ length b'.buffer
  pub in_place :
      b.write_position + length bytes ≤ length b.buffer → length b'.buffer ≡ length b.buffer

-- The bytes have a place: there are some, or the store is not full.
abbrev pub Indexable : PacketBuffer → List ℕ → Type 0
Indexable b bytes = b.write_position < length b.buffer + length bytes

-- The state that `write` returns.
abbrev written : PacketBuffer → List ℕ → PacketBuffer
written b bytes = record b {
  write_position = b.write_position + length bytes;
  buffer = overwrite (make_room b (b.write_position + length bytes)) b.write_position bytes;
}

module _ (b : PacketBuffer) (bytes : List ℕ) (v : IsValid b)
    (fits : b.write_position + length bytes < 2 ^ 63) where
  no_wrap : add_size b.write_position (length bytes) ≡ b.write_position + length bytes
  no_wrap = omega arith

  write-written : Indexable b bytes → write b bytes ≡ ok (written b bytes)
  unfolding write
  write-written h =
      let n = b.write_position + length bytes in
      let k = room-length b n in
      let first : b.write_position < length (make_room b n) = omega (arith, h, k) in
      rw no_wrap (rw (le→leb n (length (make_room b n)) k.1, lt→ltb _ _ first) refl)

  -- An empty write to a full store is out of range.
  write-full :
      length b.buffer + length bytes ≤ b.write_position → write b bytes ≡ fault out_of_bounds
  unfolding write
  write-full h =
      let n = b.write_position + length bytes in
      let same : make_room b n ≡ b.buffer = room-in_place b n (omega (arith, h, v.inside)) in
      rw no_wrap (rw same (ground (arith, h)))

  pub write-Indexable : (b' : PacketBuffer) → write b bytes ≡ ok b' → Indexable b bytes
  write-Indexable b' e = elim (Bool-cases (ltb b.write_position (length b.buffer + length bytes))) [
    | inl y ↦ ground (arith, y)
    | inr n ↦ absurd (ground (arith, e, write-full (ground (arith, n))))
  ]

  written-length :
      length (written b bytes).buffer ≡ length (make_room b (b.write_position + length bytes))
  written-length =
      length-overwrite (make_room b (b.write_position + length bytes)) b.write_position bytes
        (room-length b (b.write_position + length bytes)).1

  written-Wrote : Wrote b bytes (written b bytes)
  written-Wrote = record {
    valid = omega (
      arith,
      written-length,
      room-length b (b.write_position + length bytes),
      room-small b (b.write_position + length bytes) (2 ^ 63) v.small fits,
    );
    same_read = refl;
    moved = refl;
    front =
        take-overwrite (make_room b (b.write_position + length bytes)) b.write_position _ bytes
          (omega (arith, room-length b (b.write_position + length bytes))) refl
        ∙ ap (λ (xs : List ℕ). xs ++ bytes)
            (room-take b (b.write_position + length bytes) b.write_position v.inside);
    larger = omega (arith, written-length, room-length b (b.write_position + length bytes));
    in_place =
        λ h. written-length ∙ ap length (room-in_place b (b.write_position + length bytes) h);
  }

  -- A write that has a place succeeds, keeps the buffer valid and appends its bytes.
  pub write-Wrote :
      Indexable b bytes → (b' : PacketBuffer) × (write b bytes ≡ ok b') × Wrote b bytes b'
  write-Wrote h = (written b bytes, write-written h, written-Wrote)

pub Wrote-pending :
    (b b' : PacketBuffer) (bytes : List ℕ)
    → IsValid b
    → Wrote b bytes b'
    → pending b' ≡ pending b ++ bytes
Wrote-pending b b' bytes v w =
    rw (w.same_read, w.front)
      (drop-append_le b.read_position (take b.write_position b.buffer) bytes
        (omega (arith, length-take b.write_position b.buffer)))

pub pending-view :
    (b : PacketBuffer)
    → IsValid b
    → pending b ≡ take (b.write_position - b.read_position) (drop b.read_position b.buffer)
pending-view b v = drop-take b.read_position b.write_position _ b.buffer (omega (arith, v.ordered))

take-pending :
    (b : PacketBuffer) (len : ℕ)
    → IsValid b
    → len ≤ length (pending b)
    → take len (drop b.read_position b.buffer) ≡ take len (pending b)
take-pending b len v h = sym (
    ap (take len) (pending-view b v)
    ∙ take-take len _ (drop b.read_position b.buffer) (omega (arith, length-pending b v)))

abbrev pub after_read : PacketBuffer → ℕ → PacketBuffer
after_read b len = record b { read_position = b.read_position + len }

pub read-some :
    (b : PacketBuffer) (len : ℕ)
    → IsValid b
    → b.read_position < length b.buffer
    → len ≤ length (pending b)
    → read b true len ≡ ok (some (take len (pending b)), after_read b len)
unfolding read
read-some b len v inside h = ground (arith, length-pending b v, take-pending b len v h)

-- A read of what is there returns the oldest bytes and removes exactly these; the store is not
-- changed, if the read position is inside it. A read of more than is there fails its assertion.
read_lem :
    (b : PacketBuffer) (len : ℕ)
    → IsValid b
    → b.read_position < length b.buffer
    → (len ≤ length (pending b)
        → (b' : PacketBuffer) × (read b true len ≡ ok (some (take len (pending b)), b'))
          × (pending b' ≡ drop len (pending b))
          × IsValid b'
          × (b'.buffer ≡ b.buffer))
      × (length (pending b) < len → read b true len ≡ fault assertion)
unfolding read
read_lem b len v inside = (
  λ h. (
    after_read b len,
    read-some b len v inside h,
    sym (drop-drop b.read_position len _ (take b.write_position b.buffer) refl),
    omega (arith, length-pending b v),
    refl,
  ),
  λ h. rw (lt→ltb (read_length_remaining b) len (rw (remaining-eq-length b v) h)),
)

-- A client's writes, one after the other.
unfoldable pub write_all : PacketBuffer → List (List ℕ) → Outcome PacketBuffer
write_all b [] = ok b
write_all b (chunk ∷ chunks) = do b' ← write b chunk; write_all b' chunks

abbrev pub concat : List (List ℕ) → List ℕ
concat [] = []
concat (chunk ∷ chunks) = chunk ++ concat chunks

abbrev has_empty : List (List ℕ) → Bool
has_empty [] = false
has_empty ([] ∷ chunks) = true
has_empty ((byte ∷ bytes) ∷ chunks) = has_empty chunks

has_empty-here :
    (chunk : List ℕ) (chunks : List (List ℕ)) → length chunk ≡ 0 → has_empty (chunk ∷ chunks) ≡ true
has_empty-here [] chunks h = refl
has_empty-here (x ∷ xs) chunks h = absurd (omega (arith, h))

has_empty-cons :
    (chunk : List ℕ) (chunks : List (List ℕ))
    → has_empty chunks ≡ true
    → has_empty (chunk ∷ chunks) ≡ true
has_empty-cons [] chunks h = refl
has_empty-cons (x ∷ xs) chunks h = h

-- After any writes that fit the address space, the buffer is valid and holds the old bytes and the new
-- ones in the order in which they were written; only if one of the writes is empty they may instead
-- meet an index out of range.
pub write_all-pending :
    (chunks : List (List ℕ)) (b : PacketBuffer)
    → IsValid b
    → b.write_position + length (concat chunks) < 2 ^ 63
    → ((b' : PacketBuffer) × (write_all b chunks ≡ ok b')
        × (pending b' ≡ pending b ++ concat chunks)
        × IsValid b')
      ⊎ ((has_empty chunks ≡ true) × (write_all b chunks ≡ fault out_of_bounds))
unfolding write_all
write_all-pending [] b v h = inl (b, refl, sym (append-nil (pending b)), v)
write_all-pending (chunk ∷ chunks) b v h =
    let count = length-append chunk (concat chunks) in
    let fits : b.write_position + length chunk < 2 ^ 63 = omega (arith, count, h) in
    elim (Bool-cases (ltb b.write_position (length b.buffer + length chunk))) [
      | inl y ↦
          let (b₁, e₁, w) = write-Wrote b chunk v fits (ground (arith, y)) in
          elim (write_all-pending chunks b₁ w.valid (omega (arith, count, w.moved, h))) [
            | inl (b₂, e₂, p, v₂) ↦ inl (
              b₂,
              rw e₁ e₂,
              p
                  ∙ ap (λ (xs : List ℕ). xs ++ concat chunks) (Wrote-pending b b₁ chunk v w)
                  ∙ append_assoc (pending b) chunk (concat chunks),
              v₂,
            )
            | inr (some_empty, e₂) ↦ inr (has_empty-cons chunk chunks some_empty, rw e₁ e₂)
          ]
      | inr n ↦
          let full : length b.buffer + length chunk ≤ b.write_position = ground (arith, n) in
          inr (
            has_empty-here chunk chunks (omega (arith, full, v.inside)),
            rw (write-full b chunk v fits full) refl,
          )
    ]
