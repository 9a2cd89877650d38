-- ===== src/Network/Socket/HandlerAllocator/Tests.antt =====
-- Requests of handlers, and the theorem at them.
use priston_tale_eu.Prelude.{ℕ, ◌+◌, ◌≤◌, ◌≡◌, refl, List, [], ◌∷◌, arith, count}
use priston_tale_eu.Network.Socket.HandlerAllocator.{
  Memory, handler_allocator, Request, asio_handler_allocate, asio_handler_deallocate, serve,
  serve_all, allocate, deallocate,
}
use priston_tale_eu.Network.Socket.HandlerAllocator.Blocks.{Separate, serve_all-Separate}

-- A heap that returns an address above all that are used.
abbrev above : List ℕ → ℕ
above [] = 0
above (x ∷ xs) = x + 1 + above xs

abbrev heap : List ℕ → ℕ → ℕ
heap used size = above used

count-above : (used : List ℕ) (n : ℕ) → above used ≤ n → count n used ≡ 0
count-above [] n h = refl
count-above (x ∷ xs) n h = ground (arith, count-above xs n (omega (arith, h)), h)

-- The block of the socket, then the heap, then the block again.
abbrev requests : List Request
requests =
    asio_handler_allocate 100
    ∷ asio_handler_allocate 100
    ∷ asio_handler_deallocate 1
    ∷ asio_handler_allocate 512
    ∷ asio_handler_allocate 513
    ∷ []

abbrev start : Memory
start = record { allocator = handler_allocator 7; live = [] }

served : (serve_all heap start requests).live ≡ 33 ∷ 7 ∷ 16 ∷ []
unfolding serve_all serve allocate deallocate handler_allocator
served = refl

serve_all-Separate_example : Separate (serve_all heap start requests)
serve_all-Separate_example =
    serve_all-Separate heap (λ used size. count-above used (above used) (omega arith)) 7 requests
