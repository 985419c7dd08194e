-- ===== src/Startup/Boot.antt =====
-- What `run` of storage-core/src/main.cpp hands to the writer thread.
use iot_devices_ledger_audit.Prelude.{
  ℕ, ◌≡◌, ◌≢◌, refl, sym, ap, subst, ◌∙◌, ◌⊎◌, inl, inr, Bool, true, false, List, [], ◌∷◌, Option,
  none, some, Result, ok, err, All, Result-cases, ok_inj, arith, >>=-eq-ok, map_err-eq-ok,
}
use iot_devices_ledger_audit.Prelude.Bytes.{Bytes}
use iot_devices_ledger_audit.Json.{Library, Laws}
use iot_devices_ledger_audit.Error.{Exception}
use iot_devices_ledger_audit.Block.{Block, genesis, zero_hash}
use iot_devices_ledger_audit.Chain.{Chain, latest, load, fresh}
use iot_devices_ledger_audit.Chain.Links.{IsLinked}
use iot_devices_ledger_audit.Chain.Growth.{IsIntact, fresh-IsIntact}
use iot_devices_ledger_audit.Storage.{
  Stream, Disk, open_append, make_parent, append_block, load_chain, load_loop, fresh_chain,
  or_fresh, lines, seen,
}
use iot_devices_ledger_audit.Storage.Reload.{
  Encodes, nothing, IsStorable, load_chain-Encodes, append_block-Encodes,
}
use iot_devices_ledger_audit.Broadcast.{no_subscribers}
use iot_devices_ledger_audit.Broadcast.Sound.{no_subscribers-IsSound}
use iot_devices_ledger_audit.Writer.{AppState}
use iot_devices_ledger_audit.Writer.Request.{Inv}
use iot_devices_ledger_audit.Startup.Defs.{
  is_fresh, written_or_thrown, persist_genesis, started, open_log, boot,
}

abbrev contents_of : Option Bytes → Bytes
contents_of none = []
contents_of (some s) = s

pub seen-true : {b : Bool} (file : Option Bytes) → b ≡ true → seen b file ≡ file
unfolding seen
seen-true file h = rw h refl

-- The log is opened behind what the file holds.
open_append-contents :
    (disk : Disk) (log : Stream)
    → open_append disk ≡ ok log
    → (log.contents ≡ contents_of disk.file) × (log.failed ≡ false)
unfolding open_append
open_append-contents disk log h =
    let (_, _, q) = >>=-eq-ok (make_parent disk) _ h in (ground arith, ground arith)

module _ (lib : Library) (laws : Laws lib) where
  open lib use {Json}

  -- The file is missing or empty, or it holds one line for each block of an intact ledger.
  pub data IsReady : Option Bytes → Type 0 where
    fresh_file : (file : Option Bytes) → is_fresh file ≡ true → IsReady file
    stored :
        (contents : Bytes) (bs : List (Block Json))
        → is_fresh (some contents) ≡ false
        → bs ≢ []
        → All (IsStorable lib laws) bs
        → Encodes lib contents bs
        → IsLinked lib zero_hash bs
        → IsReady (some contents)

  -- And `file_size` and `std::ifstream` see it, if there is one.
  pub record IsBootable (disk : Disk) : Type 0 where
    pub ready : IsReady disk.file
    pub is_sized : seen disk.sized disk.file ≡ disk.file
    pub is_readable : seen disk.readable disk.file ≡ disk.file

  -- What `load_chain` gives on a ready file.
  data Loaded (now : ℕ) (file : Option Bytes) (c : Chain Json) : Type 0 where
    seeded : is_fresh file ≡ true → fresh lib now ≡ ok c → contents_of file ≡ [] → Loaded now file c
    reloaded :
        (b : Block Json)
        → is_fresh file ≡ false
        → latest c ≡ some b
        → IsIntact lib c
        → Encodes lib (contents_of file) c.blocks
        → Loaded now file c

  last_of : (bs : List (Block Json)) → bs ≢ [] → (b : Block Json) × (latest (load bs) ≡ some b)
  unfolding latest load
  last_of [] h = absurd (h refl)
  last_of (b ∷ []) h = (b, refl)
  last_of (a ∷ b ∷ bs) h = last_of (b ∷ bs) (λ k. cc k)

  load_chain-fresh :
      (now : ℕ) (file : Option Bytes) (c : Chain Json)
      → is_fresh file ≡ true
      → load_chain lib now file ≡ ok c
      → Loaded now file c
  unfolding is_fresh load_chain fresh_chain load_loop or_fresh lines
  load_chain-fresh now none c h x = seeded refl (map_err-eq-ok _ (fresh lib now) x) refl
  load_chain-fresh now (some []) c h x = seeded refl (map_err-eq-ok _ (fresh lib now) x) refl
  load_chain-fresh now (some (a ∷ s)) c h x = absurd (cc h)

  load_chain-refused :
      (now : ℕ) (file : Option Bytes) (e : Exception)
      → IsReady file
      → load_chain lib now file ≡ err e
      → is_fresh file ≡ true
  load_chain-refused now file e (fresh_file f h) x = h
  load_chain-refused now file e (stored contents bs h n st d l) x =
      absurd (cc (load_chain-Encodes lib laws now contents bs n st d, x))

  load_chain-Loaded :
      (now : ℕ) (file : Option Bytes) (c : Chain Json)
      → IsReady file
      → load_chain lib now file ≡ ok c
      → Loaded now file c
  unfolding load
  load_chain-Loaded now file c (fresh_file f h) x = load_chain-fresh now file c h x
  load_chain-Loaded now file c (stored contents bs h n st e l) x =
      let same : load bs ≡ c =
        ok_inj (sym (load_chain-Encodes lib laws now contents bs n st e) ∙ x) in
      let (b, t) = last_of bs n in subst (Loaded now (some contents)) same (reloaded b h t l e)

  fresh-blocks :
      (now : ℕ) (c : Chain Json) → fresh lib now ≡ ok c → (b : Block Json) × (c.blocks ≡ b ∷ [])
  unfolding fresh
  fresh-blocks now c h =
      let (b, m, q) = >>=-eq-ok (genesis lib now) _ h in
      (b, sym (ap (λ (k : Chain Json). k.blocks) (ok_inj q)))

  abbrev Outcome : Disk → Option (Result Exception (AppState Json × Stream)) → Type 0
  Outcome disk r =
      ((e : Exception) × (r ≡ some (err e))
        × ((open_append disk ≡ err e) ⊎ (is_fresh disk.file ≡ true)))
      ⊎ ((s : AppState Json) × (log : Stream) × (r ≡ some (ok (s, log)))
          × Inv lib s log
          × (log.failed ≡ false)
          × (s.broadcaster ≡ some no_subscribers))

  started-Outcome :
      (disk : Disk) (c : Chain Json) (log : Stream) (b : Block Json)
      → latest c ≡ some b
      → IsIntact lib c
      → Encodes lib log.contents c.blocks
      → log.failed ≡ false
      → Outcome disk (started lib c (some (ok log)))
  unfolding started
  started-Outcome disk c log b t l x f = inr (
    _,
    log,
    refl,
    record { tail = b; tail_is = t; intact = l; on_disk = λ _. x; hub = no_subscribers-IsSound },
    f,
    refl,
  )

  written-Outcome :
      (disk : Disk) (write : Option ℕ) (c : Chain Json) (log : Stream) (b : Block Json)
      (r : Result Exception (Unit {0}) × Stream)
      → is_fresh disk.file ≡ true
      → append_block lib write log b ≡ r
      → log.contents ≡ []
      → c.blocks ≡ b ∷ []
      → IsIntact lib c
      → Outcome disk (started lib c (some (written_or_thrown lib r)))
  unfolding written_or_thrown started latest
  written-Outcome disk write c log b (err e, log') z h k d l = inl (e, refl, inr z)
  written-Outcome disk write c log b (ok u, log') z h k d l =
      let (x, f) =
        append_block-Encodes lib write log log' b [] h
          (subst (λ s. Encodes lib s []) (sym k) nothing) in
      started-Outcome disk c log' b (rw d refl) l (subst (Encodes lib log'.contents) (sym d) x) f

  persist_genesis-seeded :
      (write : Option ℕ) (c : Chain Json) (log : Stream) (b : Block Json)
      → latest c ≡ some b
      → persist_genesis lib write true c log
        ≡ some (written_or_thrown lib (append_block lib write log b))
  unfolding persist_genesis
  persist_genesis-seeded write c log b h = rw (h, persist_genesis) refl

  pub open_log-ok :
      (write : Option ℕ) (disk : Disk) (c : Chain Json) (log : Stream)
      → open_append disk ≡ ok log
      → open_log lib write disk c
        ≡ started lib c (persist_genesis lib write (is_fresh (seen disk.sized disk.file)) c log)
  unfolding open_log
  open_log-ok write disk c log o = rw (o, open_log) refl

  open_log-Outcome :
      (now : ℕ) (write : Option ℕ) (disk : Disk) (c : Chain Json) (log : Stream)
      → seen disk.sized disk.file ≡ disk.file
      → open_append disk ≡ ok log
      → Loaded now disk.file c
      → Outcome disk (open_log lib write disk c)
  unfolding latest persist_genesis
  open_log-Outcome now write disk c log z o (reloaded b h t l x) =
      let (k, f) = open_append-contents disk log o in
      let same : open_log lib write disk c ≡ started lib c (some (ok log)) =
        open_log-ok write disk c log o
        ∙ ap (λ y. started lib c (persist_genesis lib write y c log)) (ap is_fresh z ∙ h) in
      subst (Outcome disk) (sym same)
        (started-Outcome disk c log b t l (subst (λ s. Encodes lib s c.blocks) (sym k) x) f)
  open_log-Outcome now write disk c log z o (seeded h s n) =
      let (k, f) = open_append-contents disk log o in
      let (b, d) = fresh-blocks now c s in
      let same : open_log lib write disk c
          ≡ started lib c (some (written_or_thrown lib (append_block lib write log b))) =
        open_log-ok write disk c log o
        ∙ ap (λ y. started lib c (persist_genesis lib write y c log)) (ap is_fresh z ∙ h)
        ∙ ap (started lib c) (persist_genesis-seeded write c log b (rw d refl)) in
      subst (Outcome disk) (sym same) (
        written-Outcome disk write c log b (append_block lib write log b) h refl (k ∙ n) d
          ((fresh-IsIntact lib now c s).0))

  -- Whenever the file is missing, or it can be read and is empty or an intact ledger, the start does one of two things. It
  -- throws, only if the log cannot be opened or there is no ledger yet. Or it hands the writer a
  -- state and a log with which the chain is intact and not empty, the file holds it line by line,
  -- and the broadcaster has no subscriber.
  pub boot_lem :
      (now : ℕ) (write : Option ℕ) (disk : Disk)
      → IsBootable disk
      → ((e : Exception) × (boot lib now write disk ≡ some (err e))
          × ((open_append disk ≡ err e) ⊎ (is_fresh disk.file ≡ true)))
        ⊎ ((s : AppState Json) × (log : Stream) × (boot lib now write disk ≡ some (ok (s, log)))
            × Inv lib s log
            × (log.failed ≡ false)
            × (s.broadcaster ≡ some no_subscribers))
  unfolding boot open_log
  boot_lem now write disk r =
      let same = r.is_readable in
      elim (Result-cases (load_chain lib now (seen disk.readable disk.file))) [
        | inr (e, p) ↦ inl (
          e,
          rw (p, boot),
          inr (
              load_chain-refused now disk.file e r.ready
                (subst (λ f. load_chain lib now f ≡ err e) same p)),
        )
        | inl (c, p) ↦ elim (Result-cases (open_append disk)) [
          | inr (e, q) ↦ inl (e, rw (p, boot) (rw (q, open_log)), inl q)
          | inl (log, q) ↦
              rw (p, boot)
                (open_log-Outcome now write disk c log r.is_sized q (
                  load_chain-Loaded now disk.file c r.ready
                    (subst (λ f. load_chain lib now f ≡ ok c) same p)))
        ]
      ]
