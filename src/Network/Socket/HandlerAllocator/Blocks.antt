-- ===== src/Network/Socket/HandlerAllocator/Blocks.antt =====
-- The blocks that the handlers of a socket have at once.
use priston_tale_eu.Prelude.{
  ℕ, zero, suc, ◌+◌, ◌≤◌, ◌≡◌, refl, ap, Bool, true, false, Option, none, some, List, [], ◌∷◌,
  arith, ◌==◌, count, ◌&&◌, not, leb, get_elem?, if◌then◌else◌,
}
use priston_tale_eu.Network.Socket.HandlerAllocator.{
  buffer_size, HandlerAllocator, handler_allocator, allocate, deallocate, Memory, Request,
  asio_handler_allocate, asio_handler_deallocate, remove_at, give_back, serve, serve_all,
}

-- No block is with two handlers, and the flag says whether one has the block of the socket.
pub record Separate (m : Memory) : Type 0 where
  pub distinct : (p : ℕ) → count p m.live ≤ 1
  pub flagged : count m.allocator.buffer m.live ≡ (if m.allocator.in_use then 1 else 0)

count-remove_at :
    (xs : List ℕ) (i p q : ℕ)
    → get_elem? xs i ≡ some p
    → count q (remove_at xs i) + (if p == q then 1 else 0) ≡ count q xs
count-remove_at [] i p q e = cc
count-remove_at (x ∷ xs) zero p q e =
    let same : x ≡ p = ap (λ (o : Option ℕ). elim o [ none ↦ x | some y ↦ y ]) e in
    ground (arith, same)
count-remove_at (x ∷ xs) (suc i) p q e = ground (arith, count-remove_at xs i p q e)

own-Separate :
    (m : Memory)
    → Separate m
    → m.allocator.in_use ≡ false
    → Separate (record {
      allocator = record m.allocator { in_use = true };
      live = m.allocator.buffer ∷ m.live;
    })
own-Separate m v free =
    let none_yet : count m.allocator.buffer m.live ≡ 0 = ground (arith, v.flagged, free) in
    record {
      distinct = λ p. ground (arith, v.distinct p, none_yet);
      flagged = ground (arith, none_yet);
    }

heap-Separate :
    (m : Memory) (block : ℕ)
    → Separate m
    → count block (m.allocator.buffer ∷ m.live) ≡ 0
    → Separate (record m { live = block ∷ m.live })
heap-Separate m block v new = record {
  distinct = λ p. ground (arith, v.distinct p, new);
  flagged = ground (arith, v.flagged, new);
}

allocated-Separate :
    (m : Memory) (block : ℕ) (own : Bool)
    → Separate m
    → count block (m.allocator.buffer ∷ m.live) ≡ 0
    → (own ≡ true → m.allocator.in_use ≡ false)
    → let chosen : ℕ × HandlerAllocator =
        if own
        then (m.allocator.buffer, record m.allocator { in_use = true })
        else (block, m.allocator) in
      Separate (record { allocator = chosen.1; live = chosen.0 ∷ m.live })
allocated-Separate m block true v new free = own-Separate m v (free refl)
allocated-Separate m block false v new free = heap-Separate m block v new

returned-Separate :
    (m : Memory) (i p : ℕ) (own : Bool)
    → Separate m
    → get_elem? m.live i ≡ some p
    → (p == m.allocator.buffer) ≡ own
    → Separate (record {
      allocator = if own then record m.allocator { in_use = false } else m.allocator;
      live = remove_at m.live i;
    })
returned-Separate m i p true v e o = record {
  distinct = λ q. omega (arith, v.distinct q, count-remove_at m.live i p q e);
  flagged =
      ground
        (arith, o, v.distinct m.allocator.buffer, count-remove_at m.live i p m.allocator.buffer e);
}
returned-Separate m i p false v e o = record {
  distinct = λ q. omega (arith, v.distinct q, count-remove_at m.live i p q e);
  flagged = ground (arith, o, v.flagged, count-remove_at m.live i p m.allocator.buffer e);
}

module _ (heap : List ℕ → ℕ → ℕ)
    (fresh : (used : List ℕ) (size : ℕ) → count (heap used size) used ≡ 0) where
  given-Separate :
      (m : Memory) (i : ℕ) (pointer : Option ℕ)
      → Separate m
      → get_elem? m.live i ≡ pointer
      → Separate (give_back m i pointer)
  unfolding deallocate
  given-Separate m i none v e = v
  given-Separate m i (some p) v e = returned-Separate m i p (p == m.allocator.buffer) v e refl

  serve-Separate : (m : Memory) (r : Request) → Separate m → Separate (serve heap m r)
  unfolding serve allocate
  serve-Separate m (asio_handler_allocate size) v =
      allocated-Separate m _ (not m.allocator.in_use && leb size buffer_size) v
        (fresh (m.allocator.buffer ∷ m.live) size) (λ e. ground (arith, e))
  serve-Separate m (asio_handler_deallocate i) v = given-Separate m i (get_elem? m.live i) v refl

  serve_all-kept : (m : Memory) (rs : List Request) → Separate m → Separate (serve_all heap m rs)
  unfolding serve_all
  serve_all-kept m [] v = v
  serve_all-kept m (r ∷ rs) v = serve_all-kept (serve heap m r) rs (serve-Separate m r v)

  -- If the heap only returns blocks that nobody has, then in every history of requests, in which a
  -- handler's block is given back at any time: no block is ever with two handlers at once, and the
  -- flag says exactly whether a handler has the block of the socket.
  pub serve_all-Separate :
      (buffer : ℕ) (rs : List Request)
      → Separate (serve_all heap (record { allocator = handler_allocator buffer; live = [] }) rs)
  unfolding handler_allocator
  serve_all-Separate buffer rs =
      serve_all-kept (record { allocator = handler_allocator buffer; live = [] }) rs
        (record { distinct = λ p. omega arith; flagged = refl })
