-- ===== src/Network/Socket/HandlerAllocator.antt =====
-- `handler_allocator` of src/Shared/Network/Socket.h: the memory of the handlers of a socket, one block
-- of its own and then the heap. A pointer is an address; what `operator new` returns is an argument.
pub mod Blocks
mod Tests
use priston_tale_eu.Prelude.{
  ℕ, zero, suc, Bool, true, false, Option, none, some, List, [], ◌∷◌, ◌==◌, ◌&&◌, not, leb,
  get_elem?, if◌then◌else◌,
}

abbrev pub buffer_size : ℕ
buffer_size = 512

-- `buffer` is the address of `mBuffer`.
pub record HandlerAllocator : Type 0 where
  pub buffer : ℕ
  pub in_use : Bool

unfoldable pub handler_allocator : ℕ → HandlerAllocator
handler_allocator buffer = record { buffer = buffer; in_use = false }

-- `block` is what the heap would return.
unfoldable pub allocate : HandlerAllocator → ℕ → ℕ → ℕ × HandlerAllocator
allocate a size block =
    if not a.in_use && leb size buffer_size
    then (a.buffer, record a { in_use = true })
    else (block, a)

unfoldable pub deallocate : HandlerAllocator → ℕ → HandlerAllocator
deallocate a pointer = if pointer == a.buffer then record a { in_use = false } else a

-- The allocator with the blocks that the handlers have, the newest first.
pub record Memory : Type 0 where
  pub allocator : HandlerAllocator
  pub live : List ℕ

pub data Request : Type 0 where
  asio_handler_allocate asio_handler_deallocate : ℕ → Request

abbrev pub remove_at : List ℕ → ℕ → List ℕ
remove_at [] i = []
remove_at (x ∷ xs) zero = xs
remove_at (x ∷ xs) (suc i) = x ∷ remove_at xs i

abbrev pub give_back : Memory → ℕ → Option ℕ → Memory
give_back m i none = m
give_back m i (some pointer) = record {
  allocator = deallocate m.allocator pointer;
  live = remove_at m.live i;
}

-- asio asks for a size, or gives back the block at an index. `heap` is `operator new`, which may
-- return any block that nobody has.
unfoldable pub serve : (List ℕ → ℕ → ℕ) → Memory → Request → Memory
unfolding allocate
serve heap m (asio_handler_allocate size) =
    let (pointer, a) = allocate m.allocator size (heap (m.allocator.buffer ∷ m.live) size) in
    record { allocator = a; live = pointer ∷ m.live }
serve heap m (asio_handler_deallocate i) = give_back m i (get_elem? m.live i)

unfoldable pub serve_all : (List ℕ → ℕ → ℕ) → Memory → List Request → Memory
serve_all heap m [] = m
serve_all heap m (r ∷ rs) = serve_all heap (serve heap m r) rs
