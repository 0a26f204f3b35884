-- ===== src/Socks.antt =====
-- socks.h: what the wrappers do to a socket, and to the signal of a broken pipe. The texts of errors are left out.
use epic_poold.Base.{ℕ, Bool, true, false, not, Option, some, if◌then◌else◌}

-- A socket of the system: the time it lingers, if that was set; whether both directions are shut down; and
-- whether it is open.
pub record Socket : Type 0 where
  pub linger : Option ℕ
  pub shut : Bool
  pub is_open : Bool

unfoldable pub sock_close : Socket → Socket
sock_close s = record s { is_open = false }

unfoldable pub soft_shutdown : Socket → Socket
soft_shutdown s = record s { shut = true }

-- With a time of 0, the close resets the connection.
unfoldable pub sock_abort : Socket → Socket
sock_abort s = record s { linger = some 0; is_open = false }

-- The static variable, and whether SIGPIPE is ignored.
pub record Signals : Type 0 where
  pub init : Bool
  pub pipe_ignored : Bool

-- `installs` tells whether sigaction succeeds.
unfoldable pub sock_init : Bool → Signals → Bool × Signals
sock_init installs s =
    if not s.init
    then (if not installs then (false, s) else (true, record { init = true; pipe_ignored = true }))
    else (true, s)
