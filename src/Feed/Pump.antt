-- ===== src/Feed/Pump.antt =====
-- What `pump_loop` of storage-core/src/ws.cpp sends.
use mathlib.Core.List.{append_assoc, append-nil}
use iot_devices_ledger_audit.Prelude.{
  ℕ, suc, ◌+◌, ◌≡◌, refl, subst, sym, ap, ◌∙◌, true, List, [], ◌∷◌, ◌++◌, none, some, Result, ok,
  ◌>>=◌, length, replicate, >>=-eq-ok, ok_inj, arith,
}
use iot_devices_ledger_audit.Prelude.Bytes.{Bytes}
use iot_devices_ledger_audit.Json.{Library}
use iot_devices_ledger_audit.Block.{Block, block_to_json}
use iot_devices_ledger_audit.Broadcast.Subscriber.{Subscription, next}
use iot_devices_ledger_audit.Feed.Frames.{returned, notice, send_item, pump_loop}

module _ {ℓ} {A : Type ℓ} where
  -- A subscription in which `buffer` waits behind `lagged` lost blocks.
  abbrev holding : Subscription A → ℕ → List A → Subscription A
  holding s lagged buffer = record s { buffer = buffer; lagged = lagged }

  next-closed :
      (s : Subscription A) (n : ℕ)
      → s.closed ≡ true
      → next (holding s n []) ≡ some (none, holding s n [])
  unfolding next
  next-closed s n c = ground arith

  next-cons :
      (s : Subscription A) (n : ℕ) (b : A) (bs : List A)
      → next (holding s n (b ∷ bs)) ≡ some (some (record { block = b; lagged = n }), holding s 0 bs)
  unfolding next
  next-cons s n b bs = ground arith

  abbrev pub lag_after : ℕ → List A → ℕ
  lag_after n [] = n
  lag_after n (b ∷ bs) = 0

  lag_after_zero : (bs : List A) → lag_after 0 bs ≡ 0
  lag_after_zero [] = refl
  lag_after_zero (b ∷ bs) = refl

module _ (lib : Library) where
  open lib use {Json, dump}

  -- The frames of one block behind `lagged` lost ones: a notice if any were lost, then the block.
  unfoldable pub frames_of : ℕ → Block Json → Result Bytes (List Bytes)
  frames_of lagged b = notice lib lagged >>= λ first.
      dump (block_to_json lib b) >>= λ frame. ok (first ++ frame ∷ [])

  pub send_item-frames_of :
      (n : ℕ) (b : Block Json) (sent frames : List Bytes)
      → frames_of n b ≡ ok frames
      → send_item lib (record { block = b; lagged = n }) sent ≡ (none, sent ++ frames)
  unfolding frames_of send_item
  send_item-frames_of n b sent frames h =
      let (first, p, q) = >>=-eq-ok (notice lib n) _ h in
      let (frame, r, t) = >>=-eq-ok (dump (block_to_json lib b)) _ q in
      rw (p, send_item) (rw r (ap (λ fs. (none, sent ++ fs)) (ok_inj t)))

  -- The frames of waiting blocks, of which the first stands behind `lagged` lost ones.
  unfoldable pub all_frames : ℕ → List (Block Json) → Result Bytes (List Bytes)
  all_frames lagged [] = ok []
  all_frames lagged (b ∷ bs) =
      frames_of lagged b >>= λ first. all_frames 0 bs >>= λ later. ok (first ++ later)

  drain :
      (bs : List (Block Json)) (s : Subscription (Block Json)) (n : ℕ) (sent frames : List Bytes)
      → s.closed ≡ true
      → all_frames n bs ≡ ok frames
      → pump_loop lib (replicate (suc (length bs)) true) (holding s n bs) sent
        ≡ (returned, holding s (lag_after n bs) [], sent ++ frames)
  unfolding pump_loop all_frames
  drain [] s n sent frames c h =
      rw (next-closed s n c, pump_loop)
        (ap (λ fs. (returned, holding s n [], fs))
          (sym (append-nil sent) ∙ ap (λ fs. sent ++ fs) (ok_inj h)))
  drain (b ∷ bs) s n sent frames c h =
      let (first, p, q) = >>=-eq-ok (frames_of n b) _ h in
      let (later, r, t) = >>=-eq-ok (all_frames 0 bs) _ q in
      rw (next-cons s n b bs, pump_loop)
        (rw (ap (λ x. x.0) (send_item-frames_of n b sent first p)) (
          ap (pump_loop lib (replicate (suc (length bs)) true) (holding s 0 bs))
            (ap (λ x. x.1) (send_item-frames_of n b sent first p))
          ∙ drain bs s 0 (sent ++ first) later c r
          ∙ ap (λ k. (returned, holding s k [], (sent ++ first) ++ later)) (lag_after_zero bs)
          ∙ ap (λ fs. (returned, holding s 0 [], fs))
              (append_assoc sent first later ∙ ap (λ fs. sent ++ fs) (ok_inj t))))

  -- When the notice of the lost blocks, if there were any, and each waiting block can be dumped, the
  -- pump of a closed subscription whose socket lives ends: in one round more than blocks wait,
  -- it has sent each waiting block, in order, the first behind a notice of the lost blocks if there
  -- were any, and has returned; nothing waits any more, and the lag is reported.
  pub pump_loop_drains :
      (s : Subscription (Block Json)) (sent frames : List Bytes)
      → s.closed ≡ true
      → all_frames s.lagged s.buffer ≡ ok frames
      → pump_loop lib (replicate (length s.buffer + 1) true) s sent
        ≡ (returned, record s { buffer = []; lagged = lag_after s.lagged s.buffer }, sent ++ frames)
  pump_loop_drains s sent frames c h =
      let rounds : suc (length s.buffer) ≡ length s.buffer + 1 = omega arith in
      subst
        (λ k.
          pump_loop lib (replicate k true) s sent
          ≡ (returned, holding s (lag_after s.lagged s.buffer) [], sent ++ frames))
        rounds (drain s.buffer s s.lagged sent frames c h)
