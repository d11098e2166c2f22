-- ===== src/Spinel/Errors.antt =====
-- The places where spinel.py raises `SpinelError`, one constructor for each.

pub data SpinelError : Type 0 where
  invalid_payload_length : SpinelError
  packed_out_of_range truncated_packed packed_too_large : SpinelError
  invalid_version_string : SpinelError
  unexpected_header not_ncp_version not_terminated not_utf8 : SpinelError
  response_timeout not_ready cannot_open : SpinelError
