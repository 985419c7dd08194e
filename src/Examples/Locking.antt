-- ===== src/Examples/Locking.antt =====
-- The writer publishes while a connection closes: each holds one mutex, and one of them goes on.
use iot_devices_ledger_audit.Prelude.{◌⊎◌, refl, List, [], ◌∷◌, ◌++◌, map, All}
use iot_devices_ledger_audit.Locks.Defs.{
  of_conns, of_hub, of_subscription, Op, locks, unlocks, alone, Call, of_the_broadcaster,
  of_the_conns, publish, on_close, all_ops, Thread, starting, Step, takes, here, later,
}
use iot_devices_ledger_audit.Locks.Progress.{IsDone, never_stuck}

abbrev programs : List (List Call)
programs = (of_the_broadcaster (publish (0 ∷ [])) ∷ []) ∷ (of_the_conns (on_close 0) ∷ []) ∷ []

abbrev one_subscription : List Op
one_subscription = locks (alone (of_subscription 0)) ∷ unlocks ∷ []

abbrev publishing : Thread
publishing = record { held = alone of_hub ∷ []; rest = one_subscription ++ unlocks ∷ [] }

abbrev closing : Thread
closing = record { held = alone of_conns ∷ []; rest = unlocks ∷ one_subscription }

abbrev waiting_closer : Thread
waiting_closer = record { held = []; rest = locks (alone of_conns) ∷ unlocks ∷ one_subscription }

first_take : Step (map starting programs) (publishing ∷ waiting_closer ∷ [])
unfolding all_ops
first_take =
    takes [] (waiting_closer ∷ []) [] (alone of_hub) (one_subscription ++ unlocks ∷ []) refl refl
      (tt, (tt, tt))

second_take : Step (publishing ∷ waiting_closer ∷ []) (publishing ∷ closing ∷ [])
second_take =
    takes (publishing ∷ []) [] [] (alone of_conns) (unlocks ∷ one_subscription) refl refl
      ((λ c. cc (c.0), tt), (tt, tt))

never_stuck_example :
    All IsDone (publishing ∷ closing ∷ [])
    ⊎ ((us : List Thread) × Step (publishing ∷ closing ∷ []) us)
never_stuck_example =
    never_stuck programs (publishing ∷ closing ∷ []) (later (later here first_take) second_take)
