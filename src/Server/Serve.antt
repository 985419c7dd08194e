-- ===== src/Server/Serve.antt =====
-- `serve` of storage-core/src/server.cpp. The library's `listen` blocks: what it answers, how many
-- stops come meanwhile, and what is logged meanwhile are arguments, like the clock.
use iot_devices_ledger_audit.Prelude.{
  ℕ, zero, suc, ◌≡◌, refl, ap, Bool, true, false, ◌||◌, List, ◌∷◌, ◌++◌, Option, none, some, ltb,
  arith, inl, inr, Bool-cases, if◌then◌else◌,
}
use iot_devices_ledger_audit.Prelude.Bytes.{Bytes, bytes}
use iot_devices_ledger_audit.Prelude.Int.{ℤ, pos, negsuc}
use iot_devices_ledger_audit.Prelude.Decimal.{to_string}
use iot_devices_ledger_audit.Log.{Logger, print_error, print_info}
use iot_devices_ledger_audit.Config.{Config}
use iot_devices_ledger_audit.Server.Handle.{ServerHandle, stop, attach, detach}

-- `std::to_string` of an `int`.
unfoldable pub port_text : ℤ → Bytes
port_text (pos n) = to_string n
port_text (negsuc n) = b'-' ∷ to_string (suc n)

-- One call of `listen`.
pub record Listening : Type 0 where
  pub ok : Bool
  pub stops : ℕ
  pub logged : List Bytes

unfoldable pub stopped_times : ℕ → ServerHandle → ServerHandle
stopped_times zero h = h
stopped_times (suc n) h = stopped_times n (stop h).0

unfoldable pub host_port : Bytes → ℤ → Bytes
unfolding port_text
host_port host port = host ++ (b':' ∷ port_text port)

unfoldable pub answered : (ℕ → ℕ) → Config → Bool → Logger → Bool × Logger
unfolding host_port
answered clock config true l = (true, l)
answered clock config false l = (
  false,
  print_error (clock 1) (bytes "failed to bind " ++ host_port config.bind_host config.bind_port) l,
)

unfoldable pub listened : (ℕ → ℕ) → Config → Listening → Logger → Bool × Logger
unfolding answered
listened clock config call l =
    answered clock config call.ok (record l { lines = l.lines ++ call.logged })

unfoldable pub detach_after : ServerHandle → Bool × Logger → Bool × Option ServerHandle × Logger
detach_after h (ok, l) = (ok, some (detach h), l)

unfoldable pub with_handle :
    Config
    → (ℕ → ℕ)
    → Listening
    → Logger
    → ServerHandle × Bool
    → Bool × Option ServerHandle × Logger
unfolding listened stopped_times detach_after
with_handle config clock call l (h, true) = (
  true,
  some h,
  print_info (clock 1) (bytes "stop requested before the server started listening") l,
)
with_handle config clock call l (h, false) =
    detach_after (stopped_times call.stops h) (listened clock config call l)

unfoldable pub without_handle : Bool × Logger → Bool × Option ServerHandle × Logger
without_handle (ok, l) = (ok, none, l)

-- The server `srv` on a handle, or on none: what `serve` returns, the handle and the log afterwards.
unfoldable pub serve :
    (ℕ → ℕ)
    → Config
    → Option ServerHandle
    → ℕ
    → Listening
    → Logger
    → Bool × Option ServerHandle × Logger
unfolding with_handle without_handle
serve clock config handle srv call l =
    let l' =
      print_info (clock 0) (bytes "listening on " ++ host_port config.bind_host config.bind_port)
        l in
    elim handle [
      | none ↦ without_handle (listened clock config call l')
      | some h ↦ with_handle config clock call l' (attach h srv)
    ]

stopped_times-stopped :
    (n : ℕ) (h : ServerHandle) → (stopped_times n h).stopped ≡ (h.stopped || ltb 0 n)
unfolding stopped_times stop
stopped_times-stopped zero h = ground arith
stopped_times-stopped (suc n) h = ground (arith, stopped_times-stopped n (stop h).0)

answered-ok :
    (clock : ℕ → ℕ) (config : Config) (ok : Bool) (l : Logger) → (answered clock config ok l).0 ≡ ok
unfolding answered
answered-ok clock config true l = refl
answered-ok clock config false l = refl

listened-ok :
    (clock : ℕ → ℕ) (config : Config) (call : Listening) (l : Logger)
    → (listened clock config call l).0 ≡ call.ok
unfolding listened
listened-ok clock config call l = answered-ok clock config call.ok _

-- With a handle on which a stop came, `serve` does not listen: it returns success, and the handle is
-- as it was. With another it returns what `listen` answers, and the handle has no server then and
-- has the stops that came meanwhile.
serve_lem :
    (clock : ℕ → ℕ) (config : Config) (h : ServerHandle) (srv : ℕ) (call : Listening) (l : Logger)
    → let out = serve clock config (some h) srv call l in
      (out.0 ≡ (h.stopped || call.ok))
      × (out.1 ≡ some (if h.stopped then h else record { srv = none; stopped = ltb 0 call.stops }))
unfolding serve attach detach
serve_lem clock config h srv call l = elim (Bool-cases h.stopped) [
  | inl late ↦ (rw (late, serve, attach), rw (late, serve, attach))
  | inr early ↦ (
    rw (early, serve, attach) (listened-ok clock config call _),
    rw (early, serve, attach)
        (ap (λ x. some (record { srv = none; stopped = x }))
          (stopped_times-stopped call.stops (record { srv = some srv; stopped = false }))),
  )
]
