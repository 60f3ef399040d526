-- ===== src/ErrorCode.antt =====
-- `boost::system::error_code`, as far as the program looks at one: it names these codes, tests for
-- success, and passes every other code on.
use baserver.Base.{ℕ, Bool, true, false}

pub data ErrorCode : Type 0 where
  success eof connection_aborted connection_reset connection_refused timed_out : ErrorCode
  no_buffer_space operation_aborted shut_down already_started invalid_argument : ErrorCode
  other : ℕ → ErrorCode

-- `!ec`.
abbrev pub is_success : ErrorCode → Bool
is_success success = true
is_success _ = false

abbrev pub is_aborted : ErrorCode → Bool
is_aborted operation_aborted = true
is_aborted _ = false
