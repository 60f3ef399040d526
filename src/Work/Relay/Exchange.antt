-- ===== src/Work/Relay/Exchange.antt =====
-- examples/proxy: an exchange through the proxy, from one request to the next.
use mathlib.Core.List.{append_assoc}
use baserver.Base.{
  ℕ, ◌≤◌, ◌≡◌, refl, ap, ◌∙◌, subst, List, [], ◌∷◌, ◌++◌, length, Returns, arith, false, ltb,
}
use baserver.IoBuffer.{IoBuffer, size, capacity}
use baserver.Work.{async_read_some, async_write, parent_post, child_post, load}
use baserver.Work.Buffers.{Holds, Holds-size, consume-Holds, load-Holds}
use baserver.Work.Proxy.{ProxyStorage}
use baserver.Work.Relay.{Relay, exchange, Ready, forwards, replied}
use baserver.Work.Relay.Request.{forwarded, deliver_lem, asked, served, to_client_lem, serve_lem}
use baserver.Work.Relay.Reply.{replying, waiting, to_server_lem, written_lem}

append_three {ℓ} :
    {A : Type ℓ}
    → (xs : List A) (a b c : A) → ((xs ++ a ∷ []) ++ b ∷ []) ++ c ∷ [] ≡ xs ++ a ∷ b ∷ c ∷ []
append_three xs a b c =
    append_assoc (xs ++ a ∷ []) (b ∷ []) (c ∷ []) ∙ append_assoc xs (a ∷ []) (b ∷ c ∷ [])

capacity-eq : (b : IoBuffer) → capacity b ≡ length b.buffer
unfolding capacity
capacity-eq b = refl

-- Both work handlers have made the calls of an exchange.
pub record Exchanged (m n : ℕ) (request reply : List ℕ) (r s : Relay) : Type 0 where
  pub server_calls :
      s.server.calls
      ≡ r.server.calls ++ parent_post forwards ∷ async_write reply ∷ async_read_some ∷ []
  pub client_calls :
      s.client.calls
      ≡ r.client.calls
        ++ async_write request ∷ async_read_some ∷ child_post (replied (length reply)) ∷ []
  pub ready : Ready m n s

-- On a relay that waits for a request, with room for the request and the reply in both buffers, an
-- exchange runs without a fault: the server behind the proxy is sent the bytes of the request, and the
-- proxy's client the bytes of the reply, and the relay waits for the next request.
pub exchange_lem :
    (g : ProxyStorage) (m n : ℕ) (request reply : List ℕ) (r : Relay)
    → Ready m n r
    → length request ≤ m
    → length request ≤ n
    → length reply ≤ m
    → length reply ≤ n
    → Returns (exchange g request reply r) (Exchanged m n request reply r)
unfolding exchange
exchange_lem g m n request reply r v h1 h2 h3 h4 =
    let (d, l, delivers, full, there) = deliver_lem g m n request r v h1 h2 in
    let s1 = forwarded request r.server d l in
    let (b, serves, held) = serve_lem n request reply r s1 l v.has_parent there h4 in
    let c1 = served reply (asked request r.client l) b in
    let (o, loaded, out) =
      load-Holds reply d (omega (arith, full.capacity, h3))
        (omega (arith, full.capacity, full.small)) in
    let fits : ltb (capacity d) (size b) ≡ false =
      ground (arith, capacity-eq d, Holds-size reply n b held, full.capacity, h3) in
    let (e, taken, crunched, left) = consume-Holds reply (length d.buffer) o out in
    let s2 = replying reply s1 b o in
    (
      record { server = waiting reply s2 e; client = c1 },
      rw
          (
            delivers,
            to_client_lem request r d l v.has_parent there.contents,
            serves,
            to_server_lem g reply (asked request r.client l) s1 b o fits
                (ap (λ u. load u d) held.contents ∙ loaded) out.contents,
          )
          (written_lem g reply s2 e c1 taken crunched),
      record {
        server_calls =
            append_three r.server.calls (parent_post forwards) (async_write reply) async_read_some;
        client_calls =
            append_three r.client.calls (async_write request) async_read_some
              (child_post (replied (length reply)));
        ready = record {
          emptied = subst (λ j. Holds [] j e) full.capacity left;
          child = b;
          has_child = refl;
          child_capacity = held.capacity;
          small = v.small;
          has_parent = v.has_parent;
        };
      },
    )
