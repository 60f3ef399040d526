-- ===== src/Work/Relay.antt =====
-- examples/proxy: the proxy's connection with the connection to the server behind it. Events are run in
-- the order in which they are posted.
pub mod Request
pub mod Reply
pub mod Exchange
use mathlib.Core.List.{append_assoc}
use baserver.Base.{
  ℕ, ◌≤◌, ◌<◌, ◌^◌, ◌≡◌, refl, ap, ◌∙◌, subst, List, [], ◌∷◌, ◌++◌, length, Option, none, some, Run,
  ok, ◌>>=◌, Returns, assert-holds, arith, true, false, ltb, if◌then◌else◌, sub_word,
}
use baserver.ErrorCode.{success}
use baserver.IoBuffer.{IoBuffer, produce, consume, crunch, unread, size, space, clear, capacity}
use baserver.ServiceHandler.{HandlerEvent, EventState}
use baserver.Work.{
  StateCode, set_status, WorkCall, async_read_some, async_write, parent_post, child_post,
  make_event, load, receive,
}
use baserver.Work.ServerWork
use baserver.Work.ServerWork.{ServerWork, do_io, process_io, do_client_write, on_child, with_child}
use baserver.Work.ClientWork
use baserver.Work.ClientWork.{ClientWork, on_parent}
use baserver.Work.Buffers.{Holds, Holds-size, receive-Holds, consume-Holds, load-Holds}
use baserver.Work.Proxy.{ProxyStorage, biz_proxy, relay_reply}

-- The two work handlers. The child of the server's is the client's service handler, so that its buffer
-- is the client's.
pub record Relay : Type 0 where
  pub server : ServerWork
  pub client : ClientWork

abbrev last_call : List WorkCall → Option WorkCall
last_call [] = none
last_call (c ∷ []) = some c
last_call (c ∷ d ∷ cs) = last_call (d ∷ cs)

-- An event for the client's work handler, or for the server's.
unfoldable pub route_to_client : Option WorkCall → IoBuffer → Relay → Run Relay
route_to_client (some (parent_post e)) b r =
    on_parent e (record (r.client) { read_buffer = b }) >>= λ c. ok (record r { client = c })
route_to_client _ b r = ok r

unfoldable pub route_to_server : ProxyStorage → Option WorkCall → Relay → Run Relay
route_to_server g (some (child_post e)) r =
    on_child (biz_proxy g) none g.peer_endpoint e
      (record (r.server) { child = some r.client.read_buffer })
    >>= λ s. ok (record r { server = s })
route_to_server g _ r = ok r

-- The client gets the event that the server has posted last, with the buffer that the server has
-- written; and the other way.
unfoldable pub to_client : Relay → Run Relay
to_client r = elim r.server.child [
  | none ↦ ok r
  | some b ↦ route_to_client (last_call r.server.calls) b r
]

unfoldable pub to_server : ProxyStorage → Relay → Run Relay
to_server g r = route_to_server g (last_call r.client.calls) r

-- The server's socket delivers a request.
unfoldable pub deliver : ProxyStorage → List ℕ → Relay → Run Relay
deliver g request r = do
  b ← receive request r.server.read_buffer
  s ← ServerWork.on_read (biz_proxy g) none (length request) (record (r.server) { read_buffer = b })
  ok (record r { server = s })

-- The client's socket has written the request, and delivers the reply.
unfoldable pub serve : List ℕ → List ℕ → Relay → Run Relay
serve request reply r = do
  c ← ClientWork.on_write (length request) r.client
  b ← receive reply c.read_buffer
  d ← ClientWork.on_read (length reply) (record c { read_buffer = b })
  ok (record r { client = d })

-- The server's socket has written the reply.
unfoldable pub written : ProxyStorage → List ℕ → Relay → Run Relay
written g reply r = do
  s ← ServerWork.on_write (biz_proxy g) none (length reply) r.server
  ok (record r { server = s })

unfoldable pub exchange : ProxyStorage → List ℕ → List ℕ → Relay → Run Relay
exchange g request reply r =
    deliver g request r >>= to_client >>= serve request reply >>= to_server g >>= written g reply

-- Both wait for the next request: the server's buffer of the capacity `m` is empty, and the client's
-- has the capacity `n`.
pub record Ready (m n : ℕ) (r : Relay) : Type 0 where
  pub emptied : Holds [] m r.server.read_buffer
  pub child : IoBuffer
  pub has_child : r.server.child ≡ some child
  pub child_capacity : length child.buffer ≡ n
  pub small : n < 2 ^ 63
  pub has_parent : r.client.has_parent ≡ true

abbrev forwards : HandlerEvent
forwards = make_event EventState.write_read_state 0 success

abbrev replied : ℕ → HandlerEvent
replied n = make_event EventState.read_state n success

last_call-append : (cs : List WorkCall) (c : WorkCall) → last_call (cs ++ c ∷ []) ≡ some c
last_call-append [] c = refl
last_call-append (d ∷ []) c = refl
last_call-append (d ∷ e ∷ cs) c = last_call-append (e ∷ cs) c
