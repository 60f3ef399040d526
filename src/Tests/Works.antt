-- ===== src/Tests/Works.antt =====
-- Tests of bastool/server_work.hpp, bastool/client_work.hpp and the proxy of examples/proxy.
use baserver.Base.{
  ◌≡◌, refl, List, [], ◌∷◌, none, some, ok, ◌>>=◌, arith, sub_word, Run, true, false, Returns,
}
use baserver.ErrorCode.{success, no_buffer_space}
use baserver.IoBuffer.{IoBuffer, clear, size, space, capacity}
use baserver.ServiceHandler.{EventState}
use baserver.Work.{
  StateCode, no_status, WorkCall, closes, parent_post, child_post, connects, make_event,
}
use baserver.Work.ServerWork.{
  ServerWork, do_io, do_client_write, do_client_open, connect_child, drop_child, does,
}
use baserver.Work.ClientWork.{ClientWork}
use baserver.Work.Buffers.{clear-Holds}
use baserver.Work.Echo.{Answered, answers, echo_all, echo_all_lem}
use baserver.Work.Proxy.{ProxyStorage}
use baserver.Work.Relay.{Relay, Ready, exchange}
use baserver.Work.Relay.Exchange.{Exchanged, exchange_lem}

abbrev four_bytes : IoBuffer
four_bytes = record { begin_offset = 0; end_offset = 0; buffer = 0 ∷ 0 ∷ 0 ∷ 0 ∷ [] }

abbrev server_work : ServerWork
server_work = record {
  status = no_status;
  has_client = true;
  child = some four_bytes;
  passive_close = false;
  read_buffer = four_bytes;
  calls = [];
}

abbrev client_work : ClientWork
client_work = record {
  has_parent = true;
  event = make_event EventState.open_state 0 success;
  passive_close = false;
  read_buffer = four_bytes;
  calls = [];
}

abbrev relay : Relay
relay = record { server = server_work; client = client_work }

abbrev storage : ProxyStorage
storage = record { local_endpoint = 1; peer_endpoint = 2 }

echo_all_lem_example :
    Returns
      (echo_all ((7 ∷ 8 ∷ []) ∷ (9 ∷ []) ∷ []) server_work)
      (Answered 4 (answers ((7 ∷ 8 ∷ []) ∷ (9 ∷ []) ∷ [])))
unfolding clear
echo_all_lem_example =
    echo_all_lem 4 ((7 ∷ 8 ∷ []) ∷ (9 ∷ []) ∷ []) server_work (omega arith, (omega arith, tt))
      (clear-Holds four_bytes (omega arith))

ready : Ready 4 4 relay
unfolding clear
ready = record {
  emptied = clear-Holds four_bytes (omega arith);
  child = four_bytes;
  has_child = refl;
  child_capacity = refl;
  small = omega arith;
  has_parent = refl;
}

exchange_lem_example :
    Returns
      (exchange storage (7 ∷ 8 ∷ []) (9 ∷ []) relay)
      (Exchanged 4 4 (7 ∷ 8 ∷ []) (9 ∷ []) relay)
exchange_lem_example =
    exchange_lem storage 4 4 (7 ∷ 8 ∷ []) (9 ∷ []) relay ready (omega arith) (omega arith)
      (omega arith) (omega arith)

-- The calls that `do_io` makes in a state.
calls_in : StateCode → ServerWork → Run (List WorkCall)
calls_in c w =
    do_io none (record w { status = record (w.status) { state = c } }) >>= λ v. ok v.calls

unknown_code : calls_in (StateCode.other_code 7) server_work ≡ ok (closes ∷ [])
unfolding calls_in do_io does
unknown_code = refl

-- The old child is told to close before the client is asked for a new one, which fails.
reopened :
    calls_in StateCode.do_client_open server_work
    ≡ ok (parent_post (make_event EventState.close_state 0 success) ∷ connects 0 0 ∷ closes ∷ [])
unfolding calls_in do_io does do_client_open connect_child drop_child
reopened = refl

-- A request that does not fit the child's buffer is refused.
too_long :
    calls_in StateCode.do_client_write_read (record server_work {
      read_buffer = record { begin_offset = 0; end_offset = 5; buffer = 1 ∷ 2 ∷ 3 ∷ 4 ∷ 5 ∷ [] };
    })
    ≡ ok (child_post (make_event EventState.write_state 0 no_buffer_space) ∷ [])
unfolding calls_in do_io does do_client_write clear size capacity sub_word space
too_long = refl
