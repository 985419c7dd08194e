-- ===== src/Process/Restart.antt =====
-- What a run of the process of storage-core/src/main.cpp leaves behind.
use mathlib.Core.List.{append-nil}
use iot_devices_ledger_audit.Prelude.{
  true, ℕ, ◌≡◌, ◌≢◌, refl, sym, ap, subst, ◌∙◌, inl, inr, false, List, [], ◌∷◌, ◌++◌, Option, none,
  some, Result, ok, err, All, some_inj, ok_inj, Result-cases, get_last?, is_empty,
}
use iot_devices_ledger_audit.Prelude.Bytes.{Bytes}
use iot_devices_ledger_audit.Json.{Library, Laws}
use iot_devices_ledger_audit.Error.{Exception}
use iot_devices_ledger_audit.Block.{Block}
use iot_devices_ledger_audit.Chain.{Chain, verify, size, latest, load}
use iot_devices_ledger_audit.Chain.Verdict.{passed}
use iot_devices_ledger_audit.Config.{Config, load_config}
use iot_devices_ledger_audit.Storage.{Stream, Disk, open_append, load_chain, seen}
use iot_devices_ledger_audit.Storage.Reload.{Encodes, nothing, line, IsStorable, load_chain-Encodes}
use iot_devices_ledger_audit.Queue
use iot_devices_ledger_audit.Broadcast.{no_subscribers}
use iot_devices_ledger_audit.Writer.{AppState}
use iot_devices_ledger_audit.Writer.Request
use iot_devices_ledger_audit.Startup.{is_fresh, boot, open_log, started, persist_genesis}
use iot_devices_ledger_audit.Startup.Boot.{IsBootable, seen-true, boot_lem, open_log-ok}
use iot_devices_ledger_audit.System.{System, Phase, Steps, Begins, begins, later, here, closes}
use iot_devices_ledger_audit.System.Invariant.{answered, made}
use iot_devices_ledger_audit.System.OnDisk.{OnDisk, OnDisk-Encodes}
use iot_devices_ledger_audit.System.Safety.{written_ahead, answered_in_order, reachable-Inv}
use iot_devices_ledger_audit.System.Progress.{Alone-Steps}
use iot_devices_ledger_audit.Process.Defs.{threads, Joined, joined, Ran, feed_fails, served}

module _ (lib : Library) (laws : Laws lib) where
  open lib use {Json}

  -- The threads are at rest: from the booted state to `t`, all that was taken has been answered.
  pub record Settled (app : AppState Json) (t : System Json) : Type 0 where
    pub all_answered : t.accepted ≡ answered t.replies
    pub grown : t.app.chain.blocks ≡ app.chain.blocks ++ made t.replies
    pub verifies : verify lib t.app.chain ≡ ok (passed (size t.app.chain) (size t.app.chain))
    pub on_disk : OnDisk lib t.log t.app.chain.blocks
    pub tail : Block Json
    pub tail_is : latest t.app.chain ≡ some tail

  -- What `run` booted from.
  pub record Booted (env : Bytes → Option Bytes) (disk : Bytes → Disk) : Type 0 where
    pub config : Config
    pub now : ℕ
    pub write : Option ℕ
    pub app : AppState Json
    pub log : Stream
    pub configured : load_config env ≡ ok config
    pub boots : boot lib now write (disk config.ledger_path) ≡ some (ok (app, log))

  is_empty-append : (xs : Bytes) (y : ℕ) (ys : Bytes) → is_empty (xs ++ y ∷ ys) ≡ false
  is_empty-append [] y ys = refl
  is_empty-append (x ∷ xs) y ys = refl

  Encodes-is_empty :
      (contents : Bytes) (bs : List (Block Json))
      → Encodes lib contents bs
      → bs ≢ []
      → is_empty contents ≡ false
  Encodes-is_empty contents bs nothing n = absurd (n refl)
  Encodes-is_empty contents bs (line {rest = rest} b text d e) n = is_empty-append text 10 rest

  started-queue :
      (c : Chain Json) (r : Option (Result Exception Stream)) (app : AppState Json) (log : Stream)
      → started lib c r ≡ some (ok (app, log))
      → app.write_queue ≡ some (Queue.empty Queue.default_capacity)
  unfolding started
  started-queue c none app log h = cc h
  started-queue c (some (err e)) app log h = cc h
  started-queue c (some (ok l)) app log h =
      ap (λ (p : AppState Json × Stream). p.0.write_queue) (sym (ok_inj (some_inj h)))

  boot-queue :
      (now : ℕ) (write : Option ℕ) (disk : Disk) (app : AppState Json) (log : Stream)
      → boot lib now write disk ≡ some (ok (app, log))
      → app.write_queue ≡ some (Queue.empty Queue.default_capacity)
  unfolding boot open_log
  boot-queue now write disk app log h =
      elim (Result-cases (load_chain lib now (seen disk.readable disk.file))) [
        | inr (e, p) ↦ absurd (cc (rw (p, boot) at h))
        | inl (c, p) ↦ elim (Result-cases (open_append disk)) [
          | inr (e, o) ↦ absurd (cc (rw (o, open_log) at (rw (p, boot) at h)))
          | inl (l, o) ↦
              started-queue c _ app log
                (sym (open_log-ok lib laws write disk c l o) ∙ (rw (p, boot) at h))
        ]
      ]

  -- A booted state is one that the threads begin on.
  boot-Begins :
      (now : ℕ) (write : Option ℕ) (disk : Disk) (app : AppState Json) (log : Stream)
      → IsBootable lib laws disk
      → boot lib now write disk ≡ some (ok (app, log))
      → Begins lib (threads app log) × Request.Inv lib app log × (log.failed ≡ false)
  boot-Begins now write disk app log r h = elim (boot_lem lib laws now write disk r) [
    | inl (e, x, o) ↦ absurd (cc (x, h))
    | inr (s, l, x, v, f, b) ↦
        let same = ok_inj (some_inj (sym x ∙ h)) in
        (
          begins app log Queue.default_capacity (boot-queue now write disk app log h),
          subst (λ (p : AppState Json × Stream). Request.Inv lib p.0 p.1) same v,
          ap (λ (p : AppState Json × Stream). p.1.failed) (sym same) ∙ f,
        )
  ]

  ended-Settled :
      (s u : System Json)
      → Begins lib s
      → Request.Inv lib s.app s.log
      → s.log.failed ≡ false
      → Steps lib s u
      → u.phase ≡ Phase.ended
      → Settled s.app u
  ended-Settled s u b v f p e =
      let (verifies, blocks, _, disk) = written_ahead lib s u b v f p in
      let i = reachable-Inv lib s u b v f p in
      record {
        all_answered = (answered_in_order lib s u b v f p).2 e;
        grown = (rw e at blocks) ∙ ap (λ l. s.app.chain.blocks ++ l) (append-nil (made u.replies));
        verifies = verifies;
        on_disk = rw (append-nil u.app.chain.blocks) at (rw e at disk);
        tail = i.shared.tail;
        tail_is = i.shared.tail_is;
      }

  Joined-Settled :
      (s t u : System Json)
      → Begins lib s
      → Request.Inv lib s.app s.log
      → s.log.failed ≡ false
      → Steps lib s t
      → Joined lib t u
      → Settled s.app u
  Joined-Settled s t u b v f p (joined q n _ k a e) =
      ended-Settled s u b v f (Alone-Steps lib s _ u n (later p (closes q k)) a) e

  -- However the process ran, if it started its threads on a ledger file that was missing, or that can be
  -- read and was empty or intact: when it exits, every request that the queue took has been answered; the chain is the one
  -- booted and then the blocks given in the answers, in their order; it verifies and is not empty;
  -- and the file begins with a line for each of its blocks, and has no more unless a write failed.
  pub run_settles :
      (env : Bytes → Option Bytes) (disk : Bytes → Disk) (code : ℕ) (t : System Json)
      → ((path : Bytes) → IsBootable lib laws (disk path))
      → Ran lib env disk code (some t)
      → (o : Booted env disk) × Settled o.app t
  run_settles env disk code t r (feed_fails config now write app log _ c b j) =
      let (begun, v, f) =
        boot-Begins now write (disk config.ledger_path) app log (r config.ledger_path) b in
      (
        record {
          config = config;
          now = now;
          write = write;
          app = app;
          log = log;
          configured = c;
          boots = b;
        },
        Joined-Settled (threads app log) (threads app log) t begun v f here j,
      )
  run_settles env disk code t r
        (served config now write app log handle clock srv call logger t' u h c b p j k) =
      let (begun, v, f) =
        boot-Begins now write (disk config.ledger_path) app log (r config.ledger_path) b in
      let x = Joined-Settled (threads app log) t' u begun v f p j in
      (
        record {
          config = config;
          now = now;
          write = write;
          app = app;
          log = log;
          configured = c;
          boots = b;
        },
        record {
          all_answered = x.all_answered;
          grown = x.grown;
          verifies = x.verifies;
          on_disk = x.on_disk;
          tail = x.tail;
          tail_is = x.tail_is;
        },
      )

  module _ (env : Bytes → Option Bytes) (disk : Bytes → Disk) (code : ℕ) (t : System Json)
      (r : (path : Bytes) → IsBootable lib laws (disk path)) (ran : Ran lib env disk code (some t))
      (f : t.log.failed ≡ false) (storable : All (IsStorable lib laws) t.app.chain.blocks) where
    -- If moreover no write has failed, and each block of the chain has a 64-bit index and metadata
    -- that a dump keeps, the next start on the file that the run left, whenever it can be read and the log
    -- can be opened, hands its writer exactly the chain of this run, and writes nothing.
    pub run_restarts :
        (now : ℕ) (write : Option ℕ) (next : Disk) (log : Stream)
        → next.file ≡ some t.log.contents
        → next.sized ≡ true
        → next.readable ≡ true
        → open_append next ≡ ok log
        → (app : AppState Json) × (boot lib now write next ≡ some (ok (app, log)))
          × (app.chain ≡ t.app.chain)
    unfolding boot load latest started persist_genesis is_fresh
    run_restarts now write next log file sized readable o =
        let (b, v) = run_settles env disk code t r ran in
        let nonempty : t.app.chain.blocks ≢ [] = λ z. cc (v.tail_is, ap get_last? z) in
        let e = OnDisk-Encodes lib t.log t.app.chain.blocks v.on_disk f in
        let loads : load_chain lib now (seen next.readable next.file)
            ≡ ok (load t.app.chain.blocks) =
          ap (load_chain lib now) (seen-true next.file readable ∙ file)
          ∙ load_chain-Encodes lib laws now t.log.contents t.app.chain.blocks nonempty storable e in
        let old : is_fresh (seen next.sized next.file) ≡ false =
          ap is_fresh (seen-true next.file sized ∙ file)
          ∙ Encodes-is_empty t.log.contents t.app.chain.blocks e nonempty in
        (
          record {
            chain = load t.app.chain.blocks;
            write_queue = some (Queue.empty Queue.default_capacity);
            broadcaster = some no_subscribers;
          },
          rw (loads, boot)
              (open_log-ok lib laws write next (load t.app.chain.blocks) log o
                ∙ ap
                    (λ z.
                      started lib (load t.app.chain.blocks)
                        (persist_genesis lib write z (load t.app.chain.blocks) log))
                    old),
          refl,
        )
