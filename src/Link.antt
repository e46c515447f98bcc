-- ===== src/Link.antt =====
-- The controller and the monitor together: what passes between `BusController` and the simulator,
-- in both directions, and what `BM` reports of it, with TCP and the capture between them.
pub mod Interleaved
pub mod Lights
pub mod Mixed
pub mod Pass
use tcp_1553_bus_analyzer.Prelude.{
  ℕ, ◌≡◌, refl, ap, sym, ◌∙◌, ◌⊎◌, inl, inr, Bool, true, false, List, [], ◌∷◌, ◌++◌, Option, none,
  some, arith, length, take, take-length, Bool-cases, if◌then◌else◌,
}
use tcp_1553_bus_analyzer.Prelude.Int.{ℤ, pos, negsuc, is_negative}
use mathlib.Core.List.{append_assoc, append-nil}
use tcp_1553_bus_analyzer.Common.{FrameConfig, is_rt_to_bc}
use tcp_1553_bus_analyzer.Protocol.{Bytes, Packet, packet_bytes}
use tcp_1553_bus_analyzer.Parser.RoundTrip.{IsPacket, AllPackets, sent}
use tcp_1553_bus_analyzer.Bc.{BusController, Call, write, read}
use tcp_1553_bus_analyzer.Bc.Send.{SendAnswers, send_acyclic_frame, packet_of, total_size}
use tcp_1553_bus_analyzer.Bc.Payload.{packet_of-IsPacket, length-packet_of}

-- What the `read` of a send returns.
abbrev pub reply_bytes : SendAnswers → ℤ → Bytes
reply_bytes a (pos n) = take n a.reply
reply_bytes a (negsuc n) = []

-- The bytes that the calls of a send put on the connection: those that it writes, whole, and those
-- that it reads.
abbrev pub call_bytes : SendAnswers → List Call → Bytes
call_bytes a [] = []
call_bytes a (write fd b ∷ calls) = b ++ call_bytes a calls
call_bytes a (read fd n ∷ calls) = reply_bytes a a.reply_size ++ call_bytes a calls
call_bytes a (_ ∷ calls) = call_bytes a calls

-- A frame that is sent: the answers to its calls, its configuration, and the reply, if one came.
pub record Exchange : Type 0 where
  pub answers : SendAnswers
  pub config : FrameConfig
  pub reply : Option Packet

-- What passes over the connection while frames are sent, one after the other.
unfoldable pub exchanged : List Exchange → List ℕ → BusController → Bytes
exchanged [] received c = []
exchanged (x ∷ xs) received c =
    let r = send_acyclic_frame x.answers (some x.config) received c in
    call_bytes x.answers r.calls ++ exchanged xs r.received r.controller

-- Only a frame of mode RT_TO_BC is answered, by nothing or by a packet that the read returns whole.
abbrev pub IsReply : Exchange → Option Packet → Type 0
IsReply x none =
    (is_rt_to_bc x.config.mode ≡ false) ⊎ (reply_bytes x.answers x.answers.reply_size ≡ [])
IsReply x (some p) =
    (is_rt_to_bc x.config.mode ≡ true)
    × (reply_bytes x.answers x.answers.reply_size ≡ packet_bytes p)
    × IsPacket p

-- Every write takes the whole packet, and every reply is complete.
abbrev pub AllExchanged : List Exchange → Type 0
AllExchanged [] = Unit {0}
AllExchanged (x ∷ xs) = (x.answers.written ≡ pos total_size) × IsReply x x.reply × AllExchanged xs

abbrev pub reply_packets : Option Packet → List Packet
reply_packets none = []
reply_packets (some p) = p ∷ []

-- The packets of the frames, each followed by its reply.
abbrev pub traffic : List Exchange → List Packet
traffic [] = []
traffic (x ∷ xs) = packet_of x.config ∷ (reply_packets x.reply ++ traffic xs)

reply_sent :
    (x : Exchange) (q : Option Packet)
    → IsReply x q
    → (if is_rt_to_bc x.config.mode then reply_bytes x.answers x.answers.reply_size else [])
      ≡ sent (reply_packets q)
reply_sent x none v = ground arith
reply_sent x (some p) v = ground (arith, append-nil (packet_bytes p))

-- One send to a connected simulator puts the frame's packet and its reply on the connection, and
-- keeps it.
send_passes :
    (x : Exchange) (received : List ℕ) (c : BusController)
    → is_negative c.client_fd ≡ false
    → is_negative x.answers.written ≡ false
    → IsReply x x.reply
    → let r = send_acyclic_frame x.answers (some x.config) received c in
      (call_bytes x.answers r.calls
        ≡ packet_bytes (packet_of x.config) ++ sent (reply_packets x.reply))
      × (r.controller ≡ c)
unfolding send_acyclic_frame
send_passes x received c connected written v =
    let b = packet_bytes (packet_of x.config) in
    let whole : take total_size b ≡ b = take-length total_size b (length-packet_of x.config) in
    let back = reply_sent x x.reply v in
    let alone = append-nil (reply_bytes x.answers x.answers.reply_size) in
    ground (arith, whole, back, alone)

sent-append : (ps qs : List Packet) → sent (ps ++ qs) ≡ sent ps ++ sent qs
sent-append [] qs = refl
sent-append (p ∷ ps) qs =
    ap (◌++◌ (packet_bytes p)) (sent-append ps qs)
    ∙ sym (append_assoc (packet_bytes p) (sent ps) (sent qs))

-- The stream of a controller that stays connected is the packets of its frames, each with its
-- reply, in order.
pub exchanged-sent :
    (xs : List Exchange) (received : List ℕ) (c : BusController)
    → is_negative c.client_fd ≡ false
    → AllExchanged xs
    → exchanged xs received c ≡ sent (traffic xs)
unfolding exchanged
exchanged-sent [] received c connected v = refl
exchanged-sent (x ∷ xs) received c connected v =
    let r = send_acyclic_frame x.answers (some x.config) received c in
    let b = packet_bytes (packet_of x.config) in
    let (bytes, same) = send_passes x received c connected (ap is_negative v.0) v.1 in
    let ih =
      exchanged-sent xs r.received r.controller
        (ap (λ (d : BusController). is_negative d.client_fd) same ∙ connected) v.2 in
    ap (λ (l : Bytes). l ++ exchanged xs r.received r.controller) bytes
    ∙ ap (λ (l : Bytes). (b ++ sent (reply_packets x.reply)) ++ l) ih
    ∙ append_assoc b (sent (reply_packets x.reply)) (sent (traffic xs))
    ∙ ap (◌++◌ b) (sym (sent-append (reply_packets x.reply) (traffic xs)))

reply-AllPackets :
    (x : Exchange) (q : Option Packet) (ps : List Packet)
    → IsReply x q
    → AllPackets ps
    → AllPackets (reply_packets q ++ ps)
reply-AllPackets x none ps v w = w
reply-AllPackets x (some p) ps v w = (v.2, w)

pub traffic-AllPackets : (xs : List Exchange) → AllExchanged xs → AllPackets (traffic xs)
traffic-AllPackets [] v = tt
traffic-AllPackets (x ∷ xs) v = (
  packet_of-IsPacket x.config,
  reply-AllPackets x x.reply (traffic xs) v.1 (traffic-AllPackets xs v.2),
)
