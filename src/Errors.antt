-- ===== src/Errors.antt =====
-- The error values that the program makes, returns or compares, and gRPC's status codes.
use yamrp.Prelude.{ℕ, Bool, true, false, Option, none, some}

pub data Code : Type 0 where
  not_found deadline_exceeded unauthenticated : Code

pub data Error : Type 0 where
  -- io.EOF, io.ErrClosedPipe, net.ErrClosed and context.Canceled
  eof closed_pipe net_closed canceled : Error
  status : Code → Error
  -- any other, by a number: errors.New makes a value that is equal to itself alone
  other : ℕ → Error

-- err == io.EOF
abbrev pub is_eof : Error → Bool
is_eof eof = true
is_eof _ = false

-- err != nil && err != io.EOF
abbrev pub is_failure : Option Error → Bool
is_failure none = false
is_failure (some eof) = false
is_failure (some _) = true
