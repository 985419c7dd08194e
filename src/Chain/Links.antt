-- ===== src/Chain/Links.antt =====
-- What the source calls an intact chain, said without a loop: each block names the hash before it
-- and carries the hash of its own contents.
use iot_devices_ledger_audit.Prelude.{◌≡◌, List, [], ◌∷◌, ◌++◌, ok}
use iot_devices_ledger_audit.Prelude.Bytes.{Bytes}
use iot_devices_ledger_audit.Json.{Library}
use iot_devices_ledger_audit.Block.{Block, compute_hash}

abbrev pub last_hash : {Json : Type 0} → Bytes → List (Block Json) → Bytes
last_hash p [] = p
last_hash p (b ∷ bs) = last_hash b.hash bs

module _ (lib : Library) where
  open lib use {Json}

  -- `b` follows a block of hash `p`.
  pub record Follows (p : Bytes) (b : Block Json) : Type 0 where
    pub linked : b.prev_hash ≡ p
    pub hashed : compute_hash lib b.index b.timestamp b.event b.prev_hash ≡ ok b.hash

  abbrev pub IsLinked : Bytes → List (Block Json) → Type 0
  IsLinked p [] = Unit {0}
  IsLinked p (b ∷ bs) = Follows p b × IsLinked b.hash bs

  pub IsLinked-concat :
      (p : Bytes) (bs : List (Block Json)) (b : Block Json)
      → IsLinked p bs
      → Follows (last_hash p bs) b
      → IsLinked p (bs ++ b ∷ [])
  IsLinked-concat p [] b h f = (f, tt)
  IsLinked-concat p (x ∷ bs) b h f = (h.0, IsLinked-concat x.hash bs b h.1 f)
