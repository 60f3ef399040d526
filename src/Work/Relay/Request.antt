-- ===== src/Work/Relay/Request.antt =====
-- examples/proxy: a request through the proxy, to the reply of the server behind it.
use baserver.Base.{
  ℕ, ◌≤◌, ◌<◌, ◌^◌, ◌≡◌, refl, ap, ◌∙◌, subst, List, [], ◌∷◌, ◌++◌, length, none, some, ok,
  assert-holds, arith, true, false, ltb, if◌then◌else◌, sub_word,
}
use baserver.ErrorCode.{success}
use baserver.IoBuffer.{IoBuffer, produce, consume, crunch, unread, size, space, clear, capacity}
use baserver.ServiceHandler.{EventState}
use baserver.Work.{
  StateCode, set_status, async_read_some, async_write, parent_post, child_post, make_event, load,
}
use baserver.Work.ServerWork
use baserver.Work.ServerWork.{ServerWork, do_io, process_io, do_client_write, on_child, with_child}
use baserver.Work.ClientWork
use baserver.Work.ClientWork.{ClientWork, on_parent}
use baserver.Work.Buffers.{Holds, Holds-size, receive-Holds, consume-Holds, load-Holds}
use baserver.Work.Proxy.{ProxyStorage, biz_proxy}
use baserver.Work.Relay.{
  Relay, route_to_client, to_client, deliver, serve, Ready, forwards, replied, last_call-append,
}

-- The state of the server's work handler after each step.
abbrev pub forwarded : List ℕ → ServerWork → IoBuffer → IoBuffer → ServerWork
forwarded request w d l = record w {
  status = record (w.status) {
    state = StateCode.do_client_write_read;
    bytes_transferred = length request;
    ec = success;
  };
  read_buffer = d;
  child = some l;
  calls = w.calls ++ parent_post forwards ∷ [];
}

space-clear : (b : IoBuffer) → length b.buffer < 2 ^ 63 → space (clear b) ≡ length b.buffer
unfolding space clear capacity sub_word
space-clear b h = omega arith

do_client_write-forwards :
    (request : List ℕ) (w : ServerWork) (b l : IoBuffer)
    → w.child ≡ some b
    → ltb (space (clear b)) (size w.read_buffer) ≡ false
    → load (unread w.read_buffer) b ≡ ok l
    → do_client_write EventState.write_read_state w
      ≡ ok (record w { child = some l; calls = w.calls ++ parent_post forwards ∷ [] })
unfolding do_client_write ServerWork.does
do_client_write-forwards request w b l e f g = rw (e, do_client_write, f, g) refl

on_read-forwards :
    (g : ProxyStorage) (request : List ℕ) (w : ServerWork) (b c d l : IoBuffer)
    → produce (length request) c ≡ ok d
    → w.child ≡ some b
    → ltb (space (clear b)) (size d) ≡ false
    → load (unread d) b ≡ ok l
    → ServerWork.on_read (biz_proxy g) none (length request) (record w { read_buffer = c })
      ≡ ok (forwarded request w d l)
unfolding ServerWork.on_read process_io biz_proxy do_io set_status
on_read-forwards g request w b c d l run e f h = rw run (
    do_client_write-forwards request
      (record w {
        status = record (w.status) {
          state = StateCode.do_client_write_read;
          bytes_transferred = length request;
          ec = success;
        };
        read_buffer = d;
      })
      b l e f h)

pub deliver_lem :
    (g : ProxyStorage) (m n : ℕ) (request : List ℕ) (r : Relay)
    → Ready m n r
    → length request ≤ m
    → length request ≤ n
    → (d l : IoBuffer) × (deliver g request r
        ≡ ok (record r { server = forwarded request r.server d l }))
      × Holds request m d
      × Holds request n l
unfolding deliver
deliver_lem g m n request r v h k =
    let (c, d, received, made, full) = receive-Holds request m r.server.read_buffer v.emptied h in
    let small : length v.child.buffer < 2 ^ 63 = omega (arith, v.child_capacity, v.small) in
    let (l, loaded, there) =
      load-Holds request v.child (omega (arith, v.child_capacity, k)) small in
    let roomy : ltb (space (clear v.child)) (size d) ≡ false =
      ground (arith, space-clear v.child small, Holds-size request m d full, v.child_capacity, k) in
    (
      d,
      l,
      rw
          (
            received,
            on_read-forwards g request r.server v.child c d l made v.has_child roomy
                (ap (λ u. load u v.child) full.contents ∙ loaded),
          )
          refl,
      full,
      subst (λ j. Holds request j l) v.child_capacity there,
    )

-- The client's work handler, when it has the request, and when it has the reply.
abbrev pub asked : List ℕ → ClientWork → IoBuffer → ClientWork
asked request w l = record w {
  event = forwards;
  read_buffer = l;
  calls = w.calls ++ async_write request ∷ [];
}

abbrev pub served : List ℕ → ClientWork → IoBuffer → ClientWork
served reply w b = record w {
  read_buffer = b;
  calls = (w.calls ++ async_read_some ∷ []) ++ child_post (replied (length reply)) ∷ [];
}

on_parent-writes :
    (request : List ℕ) (w : ClientWork) (l : IoBuffer)
    → w.has_parent ≡ true
    → unread l ≡ request
    → on_parent forwards (record w { read_buffer = l }) ≡ ok (asked request w l)
unfolding on_parent ClientWork.does
on_parent-writes request w l h e =
    assert-holds w.has_parent _ h
    ∙ ap
        (λ u.
          ok
            (record w { event = forwards; read_buffer = l; calls = w.calls ++ async_write u ∷ [] }))
        e

pub to_client_lem :
    (request : List ℕ) (r : Relay) (d l : IoBuffer)
    → r.client.has_parent ≡ true
    → unread l ≡ request
    → to_client (record r { server = forwarded request r.server d l })
      ≡ ok (record r { server = forwarded request r.server d l; client = asked request r.client l })
unfolding to_client route_to_client
to_client_lem request r d l h e =
    ap (λ o. route_to_client o l (record r { server = forwarded request r.server d l }))
      (last_call-append r.server.calls (parent_post forwards))
    ∙ rw (on_parent-writes request r.client l h e) refl

on_write-reads :
    (n : ℕ) (w : ClientWork) (b : IoBuffer)
    → w.has_parent ≡ true
    → w.event ≡ forwards
    → consume n w.read_buffer ≡ ok b
    → crunch b ≡ ok b
    → ClientWork.on_write n w
      ≡ ok (record w { read_buffer = b; calls = w.calls ++ async_read_some ∷ [] })
unfolding ClientWork.on_write ClientWork.does
on_write-reads n w b h e taken crunched =
    assert-holds w.has_parent _ h
    ∙ rw (taken, crunched)
        (ap
          (λ v. ok (record w {
            read_buffer = b;
            calls =
                w.calls
                ++ (if ClientWork.wants_read v.state
                    then async_read_some
                    else child_post (make_event EventState.write_state n success))
                  ∷ [];
          }))
          e)

on_read-posts :
    (n : ℕ) (w : ClientWork) (b d : IoBuffer)
    → w.has_parent ≡ true
    → produce n b ≡ ok d
    → ClientWork.on_read n (record w { read_buffer = b })
      ≡ ok (record w { read_buffer = d; calls = w.calls ++ child_post (replied n) ∷ [] })
unfolding ClientWork.on_read ClientWork.does
on_read-posts n w b d h made = assert-holds w.has_parent _ h ∙ rw made refl

pub serve_lem :
    (n : ℕ) (request reply : List ℕ) (r : Relay) (s : ServerWork) (l : IoBuffer)
    → r.client.has_parent ≡ true
    → Holds request n l
    → length reply ≤ n
    → (b : IoBuffer) × (serve request reply
          (record { server = s; client = asked request r.client l })
        ≡ ok (record { server = s; client = served reply (asked request r.client l) b }))
      × Holds reply n b
unfolding serve
serve_lem n request reply r s l h v k =
    let (e, taken, crunched, left) = consume-Holds request n l v in
    let (c, b, received, made, full) = receive-Holds reply n e left k in
    let w = asked request r.client l in
    (
      b,
      rw
          (
            on_write-reads (length request) w e h refl taken crunched,
            received,
            on_read-posts (length reply)
                (record w { read_buffer = e; calls = w.calls ++ async_read_some ∷ [] }) c b h made,
          )
          refl,
      full,
    )
