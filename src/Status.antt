-- ===== src/Status.antt =====
-- include/minikv/Status.h and src/Status.cpp. A message is the bytes of its `std::string`.
use mini_kvstore.Prelude.{Bool, true, false, ◌++◌, Bytes, text, [], if◌then◌else◌}

pub data StatusCode : Type 0 where
  ok not_found invalid_argument io_error corruption closed : StatusCode

pub record Status : Type 0 where
  pub code : StatusCode
  pub message : Bytes

abbrev pub success : Status
success = record { code = ok; message = [] }

abbrev pub not_found_status : Bytes → Status
not_found_status message = record { code = not_found; message = message }

abbrev pub invalid_argument_status : Bytes → Status
invalid_argument_status message = record { code = invalid_argument; message = message }

abbrev pub io_error_status : Bytes → Status
io_error_status message = record { code = io_error; message = message }

abbrev pub corruption_status : Bytes → Status
corruption_status message = record { code = corruption; message = message }

abbrev pub closed_status : Bytes → Status
closed_status message = record { code = closed; message = message }

abbrev pub is_ok_code : StatusCode → Bool
is_ok_code ok = true
is_ok_code _ = false

-- Status::ok
abbrev pub is_ok : Status → Bool
is_ok s = is_ok_code s.code

unfoldable pub status_code_name : StatusCode → Bytes
status_code_name ok = text "OK"
status_code_name not_found = text "NOT_FOUND"
status_code_name invalid_argument = text "INVALID_ARGUMENT"
status_code_name io_error = text "IO_ERROR"
status_code_name corruption = text "CORRUPTION"
status_code_name closed = text "CLOSED"

-- Status::toString
unfoldable pub to_string : Status → Bytes
to_string s = if is_ok s then text "OK" else status_code_name s.code ++ text ": " ++ s.message
