-- ===== src/TcpProxy/Handles.antt =====
-- The life of the capture handle.
use tcp_1553_bus_analyzer.Prelude.{
  ℕ, ◌≡◌, true, false, List, [], ◌∷◌, ◌++◌, Option, none, some, arith,
}
use tcp_1553_bus_analyzer.Text.{Text}
use tcp_1553_bus_analyzer.TcpProxy.{
  TcpProxy, PcapCall, close, PcapAnswers, start_sniffing, terminate,
}

abbrev pub handle_closes : List PcapCall → List ℕ
handle_closes [] = []
handle_closes (close h ∷ calls) = h ∷ handle_closes calls
handle_closes (_ ∷ calls) = handle_closes calls

abbrev pub of_option : Option ℕ → List ℕ
of_option none = []
of_option (some h) = h ∷ []

-- Where `startSniffing` succeeds it closes nothing, keeps the queue and is running with the new
-- handle and its thread; `terminate` then closes that handle once, joins the thread and forgets it.
pub start_terminate :
    (a : PcapAnswers) (interface : Text) (port : ℕ) (p : TcpProxy)
    → (start_sniffing a interface port p).1 ≡ true
    → let (q, _, calls) = start_sniffing a interface port p in
      (handle_closes calls ≡ [])
      × (q.running ≡ true)
      × (q.capturing ≡ true)
      × (q.pcap_handle ≡ a.handle)
      × (q.payload_queue ≡ p.payload_queue)
      × (handle_closes (terminate q).1 ≡ of_option a.handle)
      × ((terminate q).0.pcap_handle ≡ none)
      × ((terminate q).0.capturing ≡ false)
unfolding start_sniffing terminate
start_terminate a interface port p h = ground arith

-- The bug: where a handle was opened and `startSniffing` fails, for the filter cannot be compiled
-- or set, it closes the handle and keeps the pointer to it, and the next `terminate` closes it
-- again.
pub start_fails_closes_twice :
    (a : PcapAnswers) (h : ℕ) (interface : Text) (port : ℕ) (p : TcpProxy)
    → a.handle ≡ some h
    → (start_sniffing a interface port p).1 ≡ false
    → let (q, _, calls) = start_sniffing a interface port p in
      handle_closes (calls ++ (terminate q).1) ≡ h ∷ h ∷ []
unfolding start_sniffing terminate
start_fails_closes_twice a h interface port p e f = ground arith

-- A second `terminate` calls nothing.
pub terminate-terminate : (p : TcpProxy) → terminate (terminate p).0 ≡ ((terminate p).0, [])
unfolding terminate
terminate-terminate p = ground arith
