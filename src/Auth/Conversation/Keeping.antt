-- ===== src/Auth/Conversation/Keeping.antt =====
-- Steps of a socket that write some bytes and otherwise keep the writer of Socket.cpp in order.
use priston_tale_eu.Prelude.{
  ℕ, ◌+◌, ◌≤◌, ◌^◌, ◌<◌, ◌≡◌, sym, ap, subst, List, [], ◌++◌, arith, length, ok, append-nil,
  append_assoc, length-append, >>=-of-ok,
}
use priston_tale_eu.Network.Socket.State.{Socket, close_socket}
use priston_tale_eu.Network.Socket.Output.{write}
use priston_tale_eu.Network.Socket.InBuffer.{SameWriter}
use priston_tale_eu.Network.Socket.Stream.Ops.{Link, step}
use priston_tale_eu.Network.Socket.Stream.Invariant.{Inv, closes-Inv}
use priston_tale_eu.Network.Socket.Stream.Order.{step-writes-Inv}
use priston_tale_eu.Network.Socket.Stream.Answers.{SameWriter-Inv}

abbrev pub link : Socket → List ℕ → List ℕ → Link
link s written sent = record { socket = s; written = written; sent = sent }

-- At most `n` bytes are written on the way from one state to the other, in order.
pub record Keeps (s t : Socket) (n : ℕ) : Type 0 where
  pub bytes : List ℕ
  pub few : length bytes ≤ n
  pub keeps :
      (written sent : List ℕ)
      → Inv (link s written sent)
      → length (written ++ bytes) < 2 ^ 63
      → Inv (link t (written ++ bytes) sent)

pub Keeps-of_same : (s t : Socket) → SameWriter s t → Keeps s t 0
Keeps-of_same s t w = record {
  bytes = [];
  few = omega arith;
  keeps = λ written sent v small.
      subst (λ (xs : List ℕ). Inv (link t xs sent)) (sym (append-nil written))
        (SameWriter-Inv (link s written sent) t v w);
}

pub Keeps-close : (s : Socket) → Keeps s (close_socket s) 0
Keeps-close s = record {
  bytes = [];
  few = omega arith;
  keeps = λ written sent v small.
      subst (λ (xs : List ℕ). Inv (link (close_socket s) xs sent)) (sym (append-nil written))
        (closes-Inv (link s written sent) v);
}

pub Keeps-write :
    (s t : Socket) (xs : List ℕ) (n : ℕ) → length xs ≤ n → write s xs ≡ ok t → Keeps s t n
unfolding step
Keeps-write s t xs n h e = record {
  bytes = xs;
  few = h;
  keeps = λ written sent v small.
      step-writes-Inv (link s written sent) (link t (written ++ xs) sent) xs v
        (omega (arith, small, length-append written xs)) (>>=-of-ok _ _ e);
}

pub Keeps-trans : (s t u : Socket) (m n k : ℕ) → m + n ≤ k → Keeps s t m → Keeps t u n → Keeps s u k
Keeps-trans s t u m n k h a b = record {
  bytes = a.bytes ++ b.bytes;
  few = omega (arith, h, a.few, b.few, length-append a.bytes b.bytes);
  keeps = λ written sent v small.
      let joined = append_assoc written a.bytes b.bytes in
      let size = ap (length {A = ℕ}) joined in
      let size' = length-append (written ++ a.bytes) b.bytes in
      subst (λ (xs : List ℕ). Inv (link u xs sent)) joined
        (b.keeps (written ++ a.bytes) sent
          (a.keeps written sent v (omega (arith, small, size, size')))
          (omega (arith, small, size)));
}

pub Keeps-more : (s t : Socket) (m n : ℕ) → m ≤ n → Keeps s t m → Keeps s t n
Keeps-more s t m n h k = record { bytes = k.bytes; few = omega (arith, h, k.few); keeps = k.keeps }
