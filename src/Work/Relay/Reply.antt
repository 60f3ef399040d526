-- ===== src/Work/Relay/Reply.antt =====
-- examples/proxy: the reply, on its way back through the proxy.
use baserver.Base.{ℕ, ◌≡◌, refl, ap, ◌∙◌, List, [], ◌∷◌, ◌++◌, length, none, some, ok, false, ltb}
use baserver.ErrorCode.{success}
use baserver.IoBuffer.{IoBuffer, consume, crunch, unread, size, capacity}
use baserver.Work.{StateCode, set_status, async_read_some, async_write, child_post, load}
use baserver.Work.ServerWork
use baserver.Work.ServerWork.{ServerWork, do_io, process_io, do_client_write, on_child, with_child}
use baserver.Work.ClientWork.{ClientWork}
use baserver.Work.Proxy.{ProxyStorage, biz_proxy, relay_reply}
use baserver.Work.Relay.{route_to_server, to_server, written, replied, last_call-append}
use baserver.Work.Relay.Request.{served}

-- The server's work handler, when it has the reply, and when it has written it.
abbrev pub replying : List ℕ → ServerWork → IoBuffer → IoBuffer → ServerWork
replying reply w b o = record w {
  status = record (w.status) {
    state = StateCode.do_write;
    bytes_transferred = length reply;
    ec = success;
  };
  child = some b;
  read_buffer = o;
  calls = w.calls ++ async_write reply ∷ [];
}

on_child-writes :
    (g : ProxyStorage) (reply : List ℕ) (w : ServerWork) (b o : IoBuffer)
    → ltb (capacity w.read_buffer) (size b) ≡ false
    → load (unread b) w.read_buffer ≡ ok o
    → unread o ≡ reply
    → on_child
        (biz_proxy g)
        none
        g.peer_endpoint
        (replied (length reply))
        (record w { child = some b })
      ≡ ok (replying reply w b o)
unfolding on_child with_child process_io biz_proxy relay_reply do_io set_status ServerWork.does
on_child-writes g reply w b o f h e =
    rw (f, h)
      (ap
        (λ u. ok (record w {
          status = record (w.status) {
            state = StateCode.do_write;
            bytes_transferred = length reply;
            ec = success;
          };
          child = some b;
          read_buffer = o;
          calls = w.calls ++ async_write u ∷ [];
        }))
        e)

pub to_server_lem :
    (g : ProxyStorage) (reply : List ℕ) (c : ClientWork) (s : ServerWork) (b o : IoBuffer)
    → ltb (capacity s.read_buffer) (size b) ≡ false
    → load (unread b) s.read_buffer ≡ ok o
    → unread o ≡ reply
    → to_server g (record { server = s; client = served reply c b })
      ≡ ok (record { server = replying reply s b o; client = served reply c b })
unfolding to_server route_to_server
to_server_lem g reply c s b o f h e =
    ap (λ o. route_to_server g o (record { server = s; client = served reply c b }))
      (last_call-append (c.calls ++ async_read_some ∷ []) (child_post (replied (length reply))))
    ∙ rw (on_child-writes g reply s b o f h e) refl

on_write-waits :
    (g : ProxyStorage) (n : ℕ) (w : ServerWork) (b : IoBuffer)
    → consume n w.read_buffer ≡ ok b
    → crunch b ≡ ok b
    → ServerWork.on_write (biz_proxy g) none n w
      ≡ ok (record w {
        status = record (w.status) {
          state = StateCode.do_read;
          bytes_transferred = n;
          ec = success;
        };
        read_buffer = b;
        calls = w.calls ++ async_read_some ∷ [];
      })
unfolding ServerWork.on_write process_io biz_proxy do_io set_status ServerWork.does
on_write-waits g n w b taken crunched = rw (taken, crunched) refl

-- The server's work handler after the exchange.
abbrev pub waiting : List ℕ → ServerWork → IoBuffer → ServerWork
waiting reply w b = record w {
  status = record (w.status) {
    state = StateCode.do_read;
    bytes_transferred = length reply;
    ec = success;
  };
  read_buffer = b;
  calls = w.calls ++ async_read_some ∷ [];
}

pub written_lem :
    (g : ProxyStorage) (reply : List ℕ) (w : ServerWork) (b : IoBuffer) (c : ClientWork)
    → consume (length reply) w.read_buffer ≡ ok b
    → crunch b ≡ ok b
    → written g reply (record { server = w; client = c })
      ≡ ok (record { server = waiting reply w b; client = c })
unfolding written
written_lem g reply w b c taken crunched =
    rw (on_write-waits g (length reply) w b taken crunched) refl
