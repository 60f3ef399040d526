-- ===== src/Work/Proxy.antt =====
-- examples/proxy/server/biz_proxy.hpp: the business object of the proxy.
use baserver.Base.{ℕ, ltb, if◌then◌else◌, ◌||◌, not, ok, ◌>>=◌}
use baserver.ErrorCode.{is_success}
use baserver.IoBuffer.{capacity, size, unread}
use baserver.Work.{StateCode, Status, Process, load}

-- `bgs_proxy`: the endpoints of the server behind the proxy.
pub record ProxyStorage : Type 0 where
  pub local_endpoint : ℕ
  pub peer_endpoint : ℕ

abbrev set_code : StateCode → Status → Status
set_code c status = record status { state = c }

-- The case of a reply from the server behind the proxy.
unfoldable pub relay_reply : Process
relay_reply status input output =
    if not (is_success status.ec) || ltb (capacity output) (size input)
    then ok (set_code StateCode.do_close status, output)
    else (load (unread input) output >>= λ b. ok (set_code StateCode.do_write status, b))

-- `biz_proxy::process`. What it prints is not modelled.
unfoldable pub biz_proxy : ProxyStorage → Process
biz_proxy g status input output = elim status.state [
  | StateCode.on_open ↦ ok (
    record status {
      state = StateCode.do_client_open;
      peer_endpoint = g.peer_endpoint;
      local_endpoint = g.local_endpoint;
    },
    output,
  )
  | StateCode.on_client_open ↦ ok (set_code StateCode.do_read status, output)
  | StateCode.on_read ↦ ok (set_code StateCode.do_client_write_read status, output)
  | StateCode.on_client_read ↦ relay_reply status input output
  | StateCode.on_client_write ↦ ok (set_code StateCode.do_close status, output)
  | StateCode.on_write ↦ ok (set_code StateCode.do_read status, output)
  | _ ↦ ok (set_code StateCode.do_close status, output)
]
