-- ===== src/Network/ClientPacket/Laws.antt =====
-- The builder of ServerPacket.h and the reader of ClientPacket.h on one packet.
use priston_tale_eu.Prelude.{
  ℕ, ◌%◌, ◌^◌, ◌≤◌, ◌<◌, ◌≡◌, refl, sym, ap, ◌∙◌, List, [], ◌∷◌, ◌++◌, arith, length, take, drop,
  Outcome, ok, add_size, append-nil, ◌>>=◌, length-append,
}
use priston_tale_eu.Prelude.Int.{ℤ}
use priston_tale_eu.Common.Base64.{encode_base64}
use priston_tale_eu.Common.Base64.Laws.{decode-encode_base64}
use priston_tale_eu.Common.Wired.{encode_wired, decode_wired, abs}
use priston_tale_eu.Common.Wired.Laws.{decode-encode_wired, encode_wired-same, EndsZero}
use priston_tale_eu.Network.StringBuffer.{
  StringBuffer, empty_buffer, append_wired, get_contents, server_packet,
}
use priston_tale_eu.Network.StringBuffer.Laws.{
  append-appended, appended, appended-IsFull, get_contents-appended,
}
use priston_tale_eu.Network.ClientPacket.{ClientPacket, client_packet, read_wired_int}

-- A server packet with one integer: header, then the integer in wired form.
unfoldable pub int_packet : ℕ → List ℕ → ℤ → Outcome StringBuffer
int_packet header unset value = do p ← server_packet header; append_wired p.buffer unset value

length-encode_base64 : (h : ℕ) → length (encode_base64 h) ≡ 2
unfolding encode_base64
length-encode_base64 h = refl

first_two : (xs ys : List ℕ) → length xs ≡ 2 → (take 2 (xs ++ ys) ≡ xs) × (drop 2 (xs ++ ys) ≡ ys)
first_two [] ys e = absurd (omega arith)
first_two (x ∷ []) ys e = absurd (omega arith)
first_two (x ∷ y ∷ []) ys e = (refl, refl)
first_two (x ∷ y ∷ z ∷ xs) ys e = absurd (omega arith)

abbrev packet_start : ℕ → StringBuffer
packet_start header = appended empty_buffer (encode_base64 header)

int_packet-appended :
    (header : ℕ) (unset : List ℕ) (value : ℤ) (bytes : List ℕ)
    → encode_wired unset value ≡ ok bytes
    → length bytes ≤ 6
    → int_packet header unset value ≡ ok (appended (packet_start header) bytes)
unfolding int_packet server_packet append_wired
int_packet-appended header unset value bytes e short =
    let two = length-encode_base64 header in
    rw (append-appended empty_buffer (encode_base64 header) refl (omega arith) (omega (arith, two)))
      (rw e (
        append-appended (packet_start header) bytes (appended-IsFull empty_buffer _)
          (omega (arith, two)) (omega arith)))

abbrev opened : ℕ → List ℕ → ClientPacket
opened header bytes = record { read_position = 0; content = bytes; header = header % 4096 }

client_packet-opened :
    (header : ℕ) (bytes : List ℕ)
    → client_packet (encode_base64 header ++ bytes) ≡ ok (opened header bytes)
unfolding client_packet
client_packet-opened header bytes =
    let two = length-encode_base64 header in
    let parts = first_two (encode_base64 header) bytes two in
    ground
      (arith, two, length-append (encode_base64 header) bytes, parts, decode-encode_base64 header)

read_wired_int-value :
    (header : ℕ) (unset : List ℕ) (value : ℤ) (bytes : List ℕ)
    → encode_wired unset value ≡ ok bytes
    → decode_wired bytes ≡ ok value
    → read_wired_int (opened header bytes) unset
      ≡ ok (value, record (opened header bytes) { read_position = add_size 0 (length bytes) })
unfolding read_wired_int
read_wired_int-value header unset value bytes e d = ground (arith, e, d)

-- A packet whose header and integer, of an absolute value below 2 ^ 26, the builder writes is read back:
-- the reader finds the header's low twelve bits and the integer, and stands at the end, if the
-- last byte of the array that `EncodeWired` leaves uninitialised happens to be zero both when it writes
-- and when it measures.
pub read-int_packet :
    (header : ℕ) (unset unset' : List ℕ) (value : ℤ)
    → EndsZero unset
    → EndsZero unset'
    → abs value < 2 ^ 26
    → (b : StringBuffer) × (c : ClientPacket) × (c' : ClientPacket) × (int_packet header unset value
        ≡ ok b)
      × (client_packet (get_contents b) ≡ ok c)
      × (c.header ≡ header % 4096)
      × (read_wired_int c unset' ≡ ok (value, c'))
      × (c'.read_position ≡ length c'.content)
read-int_packet header unset unset' value ends ends' h =
    let (bytes, e, short, d) = decode-encode_wired unset value [] ends h in
    let e' : encode_wired unset' value ≡ ok bytes =
      encode_wired-same unset unset' value bytes ends ends' h e in
    let d' : decode_wired bytes ≡ ok value = ap decode_wired (sym (append-nil bytes)) ∙ d in
    let seen : get_contents (appended (packet_start header) bytes) ≡ encode_base64 header ++ bytes =
      get_contents-appended (packet_start header) bytes in
    (
      appended (packet_start header) bytes,
      opened header bytes,
      record (opened header bytes) { read_position = add_size 0 (length bytes) },
      int_packet-appended header unset value bytes e (omega (arith, short)),
      ap client_packet seen ∙ client_packet-opened header bytes,
      refl,
      read_wired_int-value header unset' value bytes e' d',
      omega arith,
    )
