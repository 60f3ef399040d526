-- ===== src/Work/Echo.antt =====
-- bastool/server_work.hpp: `biz_echo`, and the server that it makes of the work handler.
use mathlib.Core.List.{append_assoc, append-nil}
use baserver.Base.{
  ℕ, ◌≤◌, ◌≡◌, refl, ap, sym, ◌∙◌, List, [], ◌∷◌, ◌++◌, length, none, Run, ok, ◌>>=◌, Returns,
}
use baserver.ErrorCode.{success}
use baserver.IoBuffer.{IoBuffer, produce, consume, crunch, unread}
use baserver.Work.{StateCode, set_status, WorkCall, async_read_some, async_write, Process, receive}
use baserver.Work.ServerWork.{ServerWork, does, do_io, process_io, on_read, on_write}
use baserver.Work.Buffers.{Holds, receive-Holds, consume-Holds}

-- The code that `biz_echo::process` sets. What it prints is not modelled.
abbrev pub echo_code : StateCode → StateCode
echo_code StateCode.on_open = StateCode.do_read
echo_code StateCode.on_read = StateCode.do_write
echo_code StateCode.on_write = StateCode.do_read
echo_code StateCode.on_close = StateCode.on_close
echo_code _ = StateCode.do_close

unfoldable pub biz_echo : Process
biz_echo status input output = ok (record status { state = echo_code status.state }, output)

-- One request: the socket delivers the bytes, and writes all that it is given.
unfoldable pub echo_one : List ℕ → ServerWork → Run ServerWork
echo_one bytes w = do
  b ← receive bytes w.read_buffer
  t ← on_read biz_echo none (length bytes) (record w { read_buffer = b })
  on_write biz_echo none (length bytes) t

unfoldable pub echo_all : List (List ℕ) → ServerWork → Run ServerWork
echo_all [] w = ok w
echo_all (bytes ∷ rest) w = echo_one bytes w >>= echo_all rest

-- The calls that answer the requests.
abbrev pub answers : List (List ℕ) → List WorkCall
answers [] = []
answers (bytes ∷ rest) = async_write bytes ∷ async_read_some ∷ answers rest

abbrev pub AllWithin : ℕ → List (List ℕ) → Type 0
AllWithin room [] = Unit {0}
AllWithin room (bytes ∷ rest) = (length bytes ≤ room) × AllWithin room rest

-- The work handler has made the calls, and waits for the next request with an empty buffer.
pub record Answered (room : ℕ) (calls : List WorkCall) (w : ServerWork) : Type 0 where
  pub made : w.calls ≡ calls
  pub emptied : Holds [] room w.read_buffer

on_read-writes :
    (bytes : List ℕ) (w : ServerWork) (c d : IoBuffer)
    → produce (length bytes) c ≡ ok d
    → unread d ≡ bytes
    → on_read biz_echo none (length bytes) (record w { read_buffer = c })
      ≡ ok (record w {
        status = record (w.status) {
          state = StateCode.do_write;
          bytes_transferred = length bytes;
          ec = success;
        };
        read_buffer = d;
        calls = w.calls ++ async_write bytes ∷ [];
      })
unfolding on_read process_io biz_echo do_io does set_status
on_read-writes bytes w c d run e = rw run (
    ap
      (λ u. ok (record w {
        status = record (w.status) {
          state = StateCode.do_write;
          bytes_transferred = length bytes;
          ec = success;
        };
        read_buffer = d;
        calls = w.calls ++ async_write u ∷ [];
      }))
      e)

on_write-reads :
    (n : ℕ) (w : ServerWork) (c : IoBuffer)
    → consume n w.read_buffer ≡ ok c
    → crunch c ≡ ok c
    → on_write biz_echo none n w
      ≡ ok (record w {
        status = record (w.status) {
          state = StateCode.do_read;
          bytes_transferred = n;
          ec = success;
        };
        read_buffer = c;
        calls = w.calls ++ async_read_some ∷ [];
      })
unfolding on_write process_io biz_echo do_io does set_status
on_write-reads n w c run e = rw (run, e) refl

echo_one_lem :
    (room : ℕ) (bytes : List ℕ) (w : ServerWork)
    → length bytes ≤ room
    → Holds [] room w.read_buffer
    → Returns
        (echo_one bytes w)
        (Answered room (w.calls ++ async_write bytes ∷ async_read_some ∷ []))
unfolding echo_one
echo_one_lem room bytes w h v =
    let (c, d, received, made, full) = receive-Holds bytes room w.read_buffer v h in
    let (e, taken, crunched, left) = consume-Holds bytes room d full in
    let wrote = on_read-writes bytes w c d made full.contents in
    let t : ServerWork = record w {
      status = record (w.status) {
        state = StateCode.do_write;
        bytes_transferred = length bytes;
        ec = success;
      };
      read_buffer = d;
      calls = w.calls ++ async_write bytes ∷ [];
    } in
    (
      record t {
        status = record (t.status) {
          state = StateCode.do_read;
          bytes_transferred = length bytes;
          ec = success;
        };
        read_buffer = e;
        calls = t.calls ++ async_read_some ∷ [];
      },
      rw (received, wrote) (on_write-reads (length bytes) t e taken crunched),
      record {
        made = append_assoc w.calls (async_write bytes ∷ []) (async_read_some ∷ []);
        emptied = left;
      },
    )

-- With an empty buffer that has room for each request, the server answers every request with the same
-- bytes, in order, and reads again after each, without a fault.
pub echo_all_lem :
    (room : ℕ) (requests : List (List ℕ)) (w : ServerWork)
    → AllWithin room requests
    → Holds [] room w.read_buffer
    → Returns (echo_all requests w) (Answered room (w.calls ++ answers requests))
unfolding echo_all
echo_all_lem room [] w h v = (w, refl, record { made = sym (append-nil w.calls); emptied = v })
echo_all_lem room (bytes ∷ rest) w (h, k) v =
    let (t, run, a) = echo_one_lem room bytes w h v in
    let (u, runs, b) = echo_all_lem room rest t k a.emptied in
    (
      u,
      rw run runs,
      record {
        made =
            b.made
            ∙ ap (λ cs. cs ++ answers rest) a.made
            ∙ append_assoc w.calls (async_write bytes ∷ async_read_some ∷ []) (answers rest);
        emptied = b.emptied;
      },
    )
