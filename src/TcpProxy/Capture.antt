-- ===== src/TcpProxy/Capture.antt =====
-- From captured packets to payloads.
use tcp_1553_bus_analyzer.Prelude.{
  ℕ, ◌+◌, ◌*◌, ◌/◌, ◌%◌, ◌<◌, ◌≡◌, ◌≢◌, refl, ap, sym, ◌∙◌, [], ◌∷◌, ◌++◌, some, arith,
  if◌then◌else◌, length, get_or, drop, length-append, get_or-append, get_or-length_append,
  drop-length_append, ◌==◌, ltb,
}
use mathlib.Core.List.{append_assoc}
use tcp_1553_bus_analyzer.Protocol.{Bytes}
use tcp_1553_bus_analyzer.TcpProxy.{
  TcpProxy, link_offset, ip_header_len, tcp_header_len, payload_offset, packet_handler,
}

-- The parts of a captured TCP packet, each header as long as it says (40 bytes for IPv6), and what
-- is behind them: the payload of the TCP segment, and the padding of a short Ethernet frame.
pub record Capture : Type 0 where
  pub link : Bytes
  pub ip : Bytes
  pub tcp : Bytes
  pub behind : Bytes

pub record IsCapture (link_type : ℕ) (c : Capture) : Type 0 where
  pub known : link_offset link_type ≡ some (length c.link)
  pub ip_present : 0 < length c.ip
  pub ip_size : length c.ip ≡ (if get_or c.ip 0 0 / 16 == 4 then get_or c.ip 0 0 % 16 * 4 else 40)
  pub tcp_present : 12 < length c.tcp
  pub tcp_size : length c.tcp ≡ get_or c.tcp 12 0 / 16 * 4

abbrev pub captured : Capture → Bytes
captured c = c.link ++ (c.ip ++ (c.tcp ++ c.behind))

module _ (link_type : ℕ) (c : Capture) (v : IsCapture link_type c) where
  ip_header_len-captured : ip_header_len (captured c) (length c.link) ≡ length c.ip
  unfolding ip_header_len
  ip_header_len-captured =
      let rest = c.ip ++ (c.tcp ++ c.behind) in
      let first : get_or (captured c) (length c.link) 0 ≡ get_or c.ip 0 0 =
        ap (λ (k : ℕ). get_or (captured c) k 0) (omega arith)
        ∙ get_or-length_append c.link rest 0 0
        ∙ get_or-append c.ip (c.tcp ++ c.behind) 0 0 v.ip_present in
      ground (arith, first, v.ip_size)

  tcp_header_len-captured : tcp_header_len (captured c) (length c.link + length c.ip) ≡ length c.tcp
  unfolding tcp_header_len
  tcp_header_len-captured =
      let rest = c.tcp ++ c.behind in
      let e : length c.link + length c.ip + 12 ≡ length c.link + (length c.ip + 12) = omega arith in
      let flags : get_or (captured c) (length c.link + length c.ip + 12) 0 ≡ get_or c.tcp 12 0 =
        ap (λ (k : ℕ). get_or (captured c) k 0) e
        ∙ get_or-length_append c.link (c.ip ++ rest) (length c.ip + 12) 0
        ∙ get_or-length_append c.ip rest 12 0
        ∙ get_or-append c.tcp c.behind 12 0 v.tcp_present in
      rw flags (sym v.tcp_size)

  payload_offset-captured :
      payload_offset (captured c) (length c.link) ≡ length c.link + length c.ip + length c.tcp
  unfolding payload_offset
  payload_offset-captured = rw (ip_header_len-captured, tcp_header_len-captured) refl

  drop-captured : drop (length c.link + length c.ip + length c.tcp) (captured c) ≡ c.behind
  drop-captured =
      let headers = c.link ++ (c.ip ++ c.tcp) in
      let regroup : captured c ≡ headers ++ c.behind = simp append_assoc in
      ap (drop (length c.link + length c.ip + length c.tcp)) regroup
      ∙ drop-length_append _ headers c.behind
          (omega (arith, length-append c.link (c.ip ++ c.tcp), length-append c.ip c.tcp))

  -- The handler queues what is behind the headers, if there is anything.
  pub packet_handler-captured :
      (p : TcpProxy)
      → packet_handler link_type (captured c) p ≡ (
          if ltb 0 (length c.behind)
          then record p { payload_queue = p.payload_queue ++ c.behind ∷ [] }
          else p)
  unfolding packet_handler
  packet_handler-captured p = ground (
    arith,
    v.known,
    payload_offset-captured,
    drop-captured,
    length-append c.link (c.ip ++ (c.tcp ++ c.behind)),
    length-append c.ip (c.tcp ++ c.behind),
    length-append c.tcp c.behind,
  )

-- How long an IP packet says to be: its total length, or the 40 bytes of an IPv6 header with the
-- length of what follows it.
abbrev pub ip_length : Bytes → ℕ
ip_length ip =
    if get_or ip 0 0 / 16 == 4
    then get_or ip 2 0 * 256 + get_or ip 3 0
    else 40 + (get_or ip 4 0 * 256 + get_or ip 5 0)

-- Of a captured packet, its headers complete and of a link type that is known, whose IP header
-- gives the length of its headers and its payload, the handler queues one entry: the payload with
-- the padding behind it, and none where both are empty. So it queues the payload itself exactly
-- where the packet has no padding, which is where it is not longer than its IP header says.
pub packet_handler-padded :
    (link_type : ℕ) (c : Capture) (payload padding : Bytes) (p : TcpProxy)
    → IsCapture link_type c
    → c.behind ≡ payload ++ padding
    → ip_length c.ip ≡ length c.ip + length c.tcp + length payload
    → (packet_handler link_type (captured c) p ≡ (
        if ltb 0 (length payload + length padding)
        then record p { payload_queue = p.payload_queue ++ (payload ++ padding) ∷ [] }
        else p))
      × (ltb 0 (length padding) ≡ ltb (length c.link + ip_length c.ip) (length (captured c)))
packet_handler-padded link_type c payload padding p v e f =
    let behind = λ (bs : Bytes).
      if ltb 0 (length bs) then record p { payload_queue = p.payload_queue ++ bs ∷ [] } else p in
    let size : length c.behind ≡ length payload + length padding =
      ap length e ∙ length-append payload padding in
    (
      packet_handler-captured link_type c v p
          ∙ ap behind e
          ∙ ap
              (λ (n : ℕ).
                if ltb 0 n
                then record p { payload_queue = p.payload_queue ++ (payload ++ padding) ∷ [] }
                else p)
              (length-append payload padding),
      ground (
        arith,
        f,
        size,
        length-append c.link (c.ip ++ (c.tcp ++ c.behind)),
        length-append c.ip (c.tcp ++ c.behind),
        length-append c.tcp c.behind,
      ),
    )

-- A link type that the handler does not know leaves the queue as it is, whatever the packet holds.
pub packet_handler-unknown :
    (link_type : ℕ) (packet : Bytes) (p : TcpProxy)
    → link_type ≢ 0
    → link_type ≢ 1
    → link_type ≢ 113
    → packet_handler link_type packet p ≡ p
unfolding packet_handler link_offset
packet_handler-unknown link_type packet p a b c = ground arith
