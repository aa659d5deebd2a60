-- ===== src/Connection/Flood.antt =====
-- The limit on packets of src/connection.cpp, within one second.
use baiakthunder.Base.{
  ℕ, zero, suc, ◌+◌, ◌-◌, ◌/◌, ◌%◌, ◌^◌, ◌<◌, ◌≤◌, ◌≡◌, refl, sym, subst, ap, true, false, ◌||◌,
  ltb, leb, ◌==◌, arith,
}
use baiakthunder.Message.{Message, set_length, get_body_buffer, get_length_header, max_size}
use baiakthunder.Connection.{
  Connection, Header, closed, packet, time_passed, restart_count, parse_header,
}

-- In the second in which the count began, after that many packets, with an acceptable length in front.
pub record HasCounted (c : Connection) (now n : ℕ) : Type 0 where
  pub is_open : c.is_open ≡ true
  pub same_second : c.time_connected ≡ now
  pub count : c.packets_sent ≡ n
  pub some_bytes : 0 < get_length_header c.msg
  pub not_too_many : get_length_header c.msg < max_size - 16

passed_one : (c : Connection) (now : ℕ) → c.time_connected ≡ now → time_passed c now ≡ 1
unfolding time_passed
passed_one c now h = omega (arith, h)

header_kept :
    (m : Message) (n : ℕ)
    → get_length_header (get_body_buffer (set_length m n)) ≡ get_length_header m
unfolding get_length_header get_body_buffer set_length
header_kept m n = refl

one_more :
    (c : Connection) (now n max_packets : ℕ)
    → HasCounted c now n
    → n < max_packets
    → max_packets < 2 ^ 32
    → ((parse_header false now max_packets c).0 ≡ packet (get_length_header c.msg))
      × HasCounted (parse_header false now max_packets c).1 now (n + 1)
unfolding parse_header restart_count
one_more c now n max_packets k lt small =
    let one = passed_one c now k.same_second in
    let size = get_length_header c.msg in
    let c1 : Connection = record c {
      packets_sent = n + 1;
      msg = get_body_buffer (set_length c.msg (size + 2));
    } in
    let count : (c.packets_sent + 1) % 2 ^ 32 ≡ n + 1 = omega (arith, k.count) in
    let fits : (size == 0 || leb (max_size - 16) size) ≡ false =
      ground (arith, k.some_bytes, k.not_too_many) in
    let whole : parse_header false now max_packets c ≡ (packet size, c1) =
      ground (arith, one, count, fits, k.is_open) in
    let header = header_kept c.msg (size + 2) in
    (
      ap (λ (r : Header × Connection). r.0) whole,
      subst (λ (r : Header × Connection). HasCounted r.1 now (n + 1)) (sym whole)
          (record {
            is_open = k.is_open;
            same_second = k.same_second;
            count = refl;
            some_bytes = omega (arith, header, k.some_bytes);
            not_too_many = omega (arith, header, k.not_too_many);
          }),
    )

one_too_many :
    (c : Connection) (now max_packets : ℕ)
    → HasCounted c now max_packets
    → max_packets + 1 < 2 ^ 32
    → (parse_header false now max_packets c).0 ≡ closed
unfolding parse_header
one_too_many c now max_packets k small =
    let one = passed_one c now k.same_second in
    let count : (c.packets_sent + 1) % 2 ^ 32 ≡ max_packets + 1 = omega (arith, k.count) in
    let over : ltb max_packets ((c.packets_sent + 1) % 2 ^ 32 / time_passed c now) ≡ true =
      rw (count, one) (ground arith) in
    ground (arith, over, k.is_open)

-- So many headers in one second, all with the length that stands there.
unfoldable pub headers : ℕ → ℕ → ℕ → Connection → Connection
headers zero now max_packets c = c
headers (suc n) now max_packets c =
    (parse_header false now max_packets (headers n now max_packets c)).1

headers-HasCounted :
    (n now max_packets : ℕ) (c : Connection)
    → HasCounted c now 0
    → n ≤ max_packets
    → max_packets < 2 ^ 32
    → HasCounted (headers n now max_packets c) now n
unfolding headers
headers-HasCounted zero now max_packets c k le small = k
headers-HasCounted (suc n) now max_packets c k le small =
    subst (HasCounted (headers (suc n) now max_packets c) now) (omega arith) (
      (one_more (headers n now max_packets c) now n max_packets
        (headers-HasCounted n now max_packets c k (omega arith) small) (omega arith) small).1)

-- In the second in which a connection's count begins, MAX_PACKETS_PER_SECOND headers with an acceptable
-- length are each taken as a packet of that length, and the next one closes the connection.
pub headers_limit :
    (n now max_packets : ℕ) (c : Connection)
    → HasCounted c now 0
    → n < max_packets
    → max_packets + 1 < 2 ^ 32
    → let taken = headers n now max_packets c in
      let full = headers max_packets now max_packets c in
      ((parse_header false now max_packets taken).0 ≡ packet (get_length_header taken.msg))
      × ((parse_header false now max_packets full).0 ≡ closed)
headers_limit n now max_packets c k lt small = (
  (one_more (headers n now max_packets c) now n max_packets
      (headers-HasCounted n now max_packets c k (omega arith) (omega arith)) lt (omega arith)).0,
  one_too_many (headers max_packets now max_packets c) now max_packets
      (headers-HasCounted max_packets now max_packets c k (omega arith) (omega arith)) small,
)
