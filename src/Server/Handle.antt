-- ===== src/Server/Handle.antt =====
-- `ServerHandle` of storage-core/include/server.hpp and storage-core/src/server.cpp. A server is a
-- number.
use iot_devices_ledger_audit.Prelude.{ℕ, Bool, true, false, Option, none, some, if◌then◌else◌}

pub record ServerHandle : Type 0 where
  pub srv : Option ℕ
  pub stopped : Bool

abbrev pub detached : ServerHandle
detached = record { srv = none; stopped = false }

-- The handle after the call, and the server on which `srv_->stop()` is called.
unfoldable pub stop : ServerHandle → ServerHandle × Option ℕ
stop h = (record h { stopped = true }, h.srv)

-- `true`: a stop was already asked for.
unfoldable pub attach : ServerHandle → ℕ → ServerHandle × Bool
attach h srv = if h.stopped then (h, true) else (record h { srv = some srv }, false)

unfoldable pub detach : ServerHandle → ServerHandle
detach h = record h { srv = none }
