-- ===== src/TcpProxy/Dispatch.antt =====
-- What the capture thread queues of the packets of its rounds.
use tcp_1553_bus_analyzer.Prelude.{
  ℕ, ◌≡◌, refl, ap, sym, ◌∙◌, Bool, true, false, List, [], ◌∷◌, ◌++◌, map, arith, if◌then◌else◌,
  length, ltb, if_true,
}
use mathlib.Core.List.{append_assoc, append-nil}
use tcp_1553_bus_analyzer.Protocol.{Bytes}
use tcp_1553_bus_analyzer.Parser.Chunks.{flatten}
use tcp_1553_bus_analyzer.TcpProxy.{TcpProxy, dispatch, capture_loop}
use tcp_1553_bus_analyzer.TcpProxy.Capture.{Capture, IsCapture, captured, packet_handler-captured}

-- The payloads of captures that are not empty.
abbrev pub payloads_of : List Capture → List Bytes
payloads_of [] = []
payloads_of (c ∷ cs) = if ltb 0 (length c.behind) then c.behind ∷ payloads_of cs else payloads_of cs

abbrev pub AllCaptures : ℕ → List Capture → Type 0
AllCaptures link_type [] = Unit {0}
AllCaptures link_type (c ∷ cs) = IsCapture link_type c × AllCaptures link_type cs

-- Rounds in which nobody stops the thread.
abbrev pub undisturbed : List (List Capture) → List (List Bytes × Bool)
undisturbed [] = []
undisturbed (cs ∷ rounds) = (map captured cs, false) ∷ undisturbed rounds

abbrev pub together : List (List Capture) → List Capture
together [] = []
together (cs ∷ rounds) = cs ++ together rounds

abbrev pub queueing : TcpProxy → List Bytes → TcpProxy
queueing p more = record p { payload_queue = p.payload_queue ++ more }

abbrev pub one : Capture → List Bytes
one c = if ltb 0 (length c.behind) then c.behind ∷ [] else []

pub queue_one :
    (b : Bool) (payload : Bytes) (p : TcpProxy)
    → (if b then record p { payload_queue = p.payload_queue ++ payload ∷ [] } else p)
      ≡ queueing p (if b then payload ∷ [] else [])
queue_one true payload p = refl
queue_one false payload p =
    ap (λ (q : List Bytes). record p { payload_queue = q }) (sym (append-nil p.payload_queue))

pub split_one :
    (b : Bool) (payload : Bytes) (rest : List Bytes)
    → (if b then payload ∷ [] else []) ++ rest ≡ (if b then payload ∷ rest else rest)
split_one true payload rest = refl
split_one false payload rest = refl

dispatch-captured :
    (link_type : ℕ) (cs : List Capture) (p : TcpProxy)
    → AllCaptures link_type cs
    → dispatch link_type (map captured cs) p ≡ queueing p (payloads_of cs)
unfolding dispatch
dispatch-captured link_type [] p v =
    ap (λ (q : List Bytes). record p { payload_queue = q }) (sym (append-nil p.payload_queue))
dispatch-captured link_type (c ∷ cs) p v =
    let some_byte = ltb 0 (length c.behind) in
    ap (dispatch link_type (map captured cs))
      (packet_handler-captured link_type c v.0 p ∙ queue_one some_byte c.behind p)
    ∙ dispatch-captured link_type cs (queueing p (one c)) v.1
    ∙ ap (λ (q : List Bytes). record p { payload_queue = q })
        (append_assoc p.payload_queue (one c) (payloads_of cs)
          ∙ ap (◌++◌ p.payload_queue) (split_one some_byte c.behind (payloads_of cs)))

payloads_of-append :
    (cs ds : List Capture) → payloads_of (cs ++ ds) ≡ payloads_of cs ++ payloads_of ds
payloads_of-append [] ds = refl
payloads_of-append (c ∷ cs) ds = ground (arith, payloads_of-append cs ds)

split_captures :
    (link_type : ℕ) (cs ds : List Capture)
    → AllCaptures link_type (cs ++ ds)
    → AllCaptures link_type cs × AllCaptures link_type ds
split_captures link_type [] ds v = (tt, v)
split_captures link_type (c ∷ cs) ds v =
    let (front, back) = split_captures link_type cs ds v.1 in ((v.0, front), back)

-- A running capture thread that nobody stops queues, behind what is there, the payloads of the TCP
-- segments that it captures in all its rounds, in order and each whole, and no empty one.
pub capture_loop-captured :
    (link_type : ℕ) (rounds : List (List Capture)) (p : TcpProxy)
    → AllCaptures link_type (together rounds)
    → p.running ≡ true
    → capture_loop link_type (undisturbed rounds) p ≡ queueing p (payloads_of (together rounds))
unfolding capture_loop
capture_loop-captured link_type [] p v on =
    ap (λ (q : List Bytes). record p { payload_queue = q }) (sym (append-nil p.payload_queue))
capture_loop-captured link_type (cs ∷ rounds) p v on =
    let (front, back) = split_captures link_type cs (together rounds) v in
    let q = dispatch link_type (map captured cs) p in
    let more = payloads_of (together rounds) in
    if_true p.running _ p on
    ∙ ap (λ (r : TcpProxy). capture_loop link_type (undisturbed rounds) r)
        (dispatch-captured link_type cs p front)
    ∙ capture_loop-captured link_type rounds (queueing p (payloads_of cs)) back on
    ∙ ap (λ (r : List Bytes). record p { payload_queue = r })
        (append_assoc p.payload_queue (payloads_of cs) more
          ∙ ap (◌++◌ p.payload_queue) (sym (payloads_of-append cs (together rounds))))

flatten_one :
    (payload : Bytes) (rest : List Bytes)
    → flatten (if ltb 0 (length payload) then payload ∷ rest else rest) ≡ payload ++ flatten rest
flatten_one [] rest = refl
flatten_one (x ∷ xs) rest = ground arith

-- The payloads of captures, one after the other.
abbrev pub stream_of : List Capture → Bytes
stream_of [] = []
stream_of (c ∷ cs) = c.behind ++ stream_of cs

pub flatten_payloads : (cs : List Capture) → flatten (payloads_of cs) ≡ stream_of cs
flatten_payloads [] = refl
flatten_payloads (c ∷ cs) =
    flatten_one c.behind (payloads_of cs) ∙ ap (◌++◌ c.behind) (flatten_payloads cs)
