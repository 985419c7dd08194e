-- ===== src/Writer/Request.antt =====
-- One iteration of the loop in `writer_loop`, storage-core/src/writer.cpp.
use iot_devices_ledger_audit.Prelude.{
  ℕ, ◌≡◌, refl, sym, ap, subst, ◌⊎◌, inl, inr, true, false, [], ◌∷◌, ◌++◌, Option, none, some,
  Result, ok, err, Result-cases, arith,
}
use iot_devices_ledger_audit.Json.{Library}
use iot_devices_ledger_audit.Error.{Exception, json_error}
use iot_devices_ledger_audit.Block.{EventPayload, Block, make_block, now_rfc3339}
use iot_devices_ledger_audit.Chain.{Chain, latest, size, push_persisted}
use iot_devices_ledger_audit.Chain.Growth.{
  make_block-Follows, IsIntact, push_persisted-IsIntact, latest-push_persisted,
}
use iot_devices_ledger_audit.Storage.{Stream, append_block}
use iot_devices_ledger_audit.Storage.Reload.{
  Encodes, append_block-Encodes, append_block-text, append_block-error,
}
use iot_devices_ledger_audit.Broadcast.{Broadcaster}
use iot_devices_ledger_audit.Broadcast.Sound.{IsSound, publish_fans_out}
use iot_devices_ledger_audit.Writer.Defs.{
  AppState, Surroundings, build_next, fan_out, push_reply, persisted, handle_request,
}

abbrev pub HubSound {ℓ} : {A : Type ℓ} → Option (Broadcaster A) → Type ℓ
HubSound none = Unit
HubSound (some h) = IsSound h

module _ (lib : Library) where
  open lib use {Json}

  -- Between two requests: the chain is intact and not empty, the file holds it unless the stream
  -- has failed, and the broadcaster is sound.
  pub record Inv (state : AppState Json) (os : Stream) : Type 0 where
    pub tail : Block Json
    pub tail_is : latest state.chain ≡ some tail
    pub intact : IsIntact lib state.chain
    pub on_disk : os.failed ≡ false → Encodes lib os.contents state.chain.blocks
    pub hub : HubSound state.broadcaster

  -- The block is on disk, in the chain and with the subscribers.
  pub record Appended (env : Surroundings) (event : EventPayload Json) (s s' : AppState Json)
      (os os' : Stream) (b : Block Json) : Type 0 where
    pub blocks : s'.chain.blocks ≡ s.chain.blocks ++ b ∷ []
    pub event_is : b.event ≡ event
    pub index_is : b.index ≡ size s.chain
    pub stamped : b.timestamp ≡ now_rfc3339 env.now
    pub healthy : os'.failed ≡ false
    pub published : fan_out lib (record s { chain = s'.chain }) b ≡ some s'
    pub kept : Inv s' os'

  pub fan_out-total :
      (s : AppState Json) (b : Block Json)
      → HubSound s.broadcaster
      → (s' : AppState Json) × (fan_out lib s b ≡ some s')
        × (s'.chain ≡ s.chain)
        × HubSound s'.broadcaster
  unfolding fan_out
  fan_out-total s b v = go s.broadcaster refl v
    where
      go :
          (o : Option (Broadcaster (Block Json)))
          → s.broadcaster ≡ o
          → HubSound o
          → (s' : AppState Json) × (fan_out lib s b ≡ some s')
            × (s'.chain ≡ s.chain)
            × HubSound s'.broadcaster
      go none e v = (s, ground arith, refl, rw e tt)
      go (some h) e v =
          let (h', p, _, _, sound) = publish_fans_out h b v in
          (record s { broadcaster = some h' }, ground arith, refl, sound)

  pub build_next-total :
      (now : ℕ) (s : AppState Json) (os : Stream) (event : EventPayload Json) (v : Inv s os)
      → build_next lib now s event ≡ some (make_block lib now (size s.chain) event v.tail.hash)
  unfolding build_next
  build_next-total now s os event v = rw (v.tail_is, build_next)

  -- After a successful append the block goes into the chain and to the subscribers.
  push_reply-Appended :
      (env : Surroundings) (event : EventPayload Json) (s : AppState Json) (os os' : Stream)
      (b : Block Json) (v : Inv s os)
      → make_block lib env.now (size s.chain) event v.tail.hash ≡ ok b
      → append_block lib env.disk os b ≡ (ok tt, os')
      → (s' : AppState Json) × (push_reply lib s os' b ≡ some (ok b, s', os'))
        × Appended env event s s' os os' b
  unfolding push_reply push_persisted
  push_reply-Appended env event s os os' b v m a =
      let c = push_persisted s.chain b in
      let (s', p, ch, hub) = fan_out-total (record s { chain = c }) b v.hub in
      let (pi, pt, pe, _) = make_block-Follows lib env.now (size s.chain) event v.tail.hash b m in
      let (_, _, _, _, f) = append_block-text lib env.disk os os' b a in
      let (enc, ok_stream) =
        append_block-Encodes lib env.disk os os' b s.chain.blocks a (v.on_disk f) in
      (
        s',
        rw (p, push_reply),
        record {
          blocks = ap (λ (k : Chain Json). k.blocks) ch;
          event_is = pe;
          index_is = pi;
          stamped = pt;
          healthy = ok_stream;
          published = subst (λ k. fan_out lib (record s { chain = k }) b ≡ some s') (sym ch) p;
          kept = record {
            tail = b;
            tail_is = rw ch (latest-push_persisted lib s.chain b);
            intact = rw ch (
                push_persisted-IsIntact lib s.chain v.tail b env.now (size s.chain) event v.tail_is
                  m v.intact);
            on_disk = λ _. rw ch enc;
            hub = hub;
          };
        },
      )

  -- What one iteration does: it answers with a block that is on disk, in the chain and with the
  -- subscribers; or it answers with an error and leaves the shared state as it was.
  pub data Handled (env : Surroundings) (event : EventPayload Json) (s : AppState Json)
      (os : Stream) (reply : Result Exception (Block Json)) (s' : AppState Json) (os' : Stream)
      : Type 0 where
    done :
        (b : Block Json)
        → reply ≡ ok b
        → Appended env event s s' os os' b
        → Handled env event s os reply s' os'
    refused :
        (e : Exception)
        → reply ≡ err e
        → s' ≡ s
        → (os' ≡ os) ⊎ (os'.failed ≡ true)
        → Handled env event s os reply s' os'

  Handled-Inv :
      {env : Surroundings} {event : EventPayload Json} {s s' : AppState Json} {os os' : Stream}
      {reply : Result Exception (Block Json)}
      → Inv s os
      → Handled env event s os reply s' os'
      → Inv s' os'
  Handled-Inv v (done b e a) = a.kept
  Handled-Inv {os = os} {os' = os'} v (refused e p q (inl same)) = rw (q, same) v
  Handled-Inv {os = os} {os' = os'} v (refused e p q (inr failed)) = rw q (record {
    tail = v.tail;
    tail_is = v.tail_is;
    intact = v.intact;
    on_disk = λ f. cc;
    hub = v.hub;
  })

  persisted-Handled :
      (env : Surroundings) (event : EventPayload Json) (s : AppState Json) (os os' : Stream)
      (b : Block Json) (r : Result Exception (Unit {0})) (v : Inv s os)
      → make_block lib env.now (size s.chain) event v.tail.hash ≡ ok b
      → append_block lib env.disk os b ≡ (r, os')
      → (reply : Result Exception (Block Json)) × (s' : AppState Json) × (persisted lib s b (r, os')
          ≡ some (reply, s', os'))
        × Handled env event s os reply s' os'
  unfolding persisted
  persisted-Handled env event s os os' b (ok u) v m a =
      let (s', p, d) = push_reply-Appended env event s os os' b v m a in
      (ok b, s', p, done b refl d)
  persisted-Handled env event s os os' b (err e) v m a =
      (err e, s, refl, refused e refl refl (append_block-error lib env.disk os os' b e a))

  -- One iteration of the writer's loop, from a sound state, is defined and gives a reply. Either the
  -- reply is the new block, which carries the event, the length of the chain as its index and the
  -- time of the clock, ends the chain, has its line on disk and was published to the subscribers;
  -- or the reply is an error and chain and subscribers are as before. The state is sound
  -- afterwards.
  pub handle_request_lem :
      (env : Surroundings) (event : EventPayload Json) (s : AppState Json) (os : Stream)
      → Inv s os
      → (reply : Result Exception (Block Json)) × (s' : AppState Json) × (os' : Stream)
        × (handle_request lib env s os event ≡ some (reply, s', os'))
        × Handled env event s os reply s' os'
        × Inv s' os'
  unfolding handle_request
  handle_request_lem env event s os v =
      elim (Result-cases (make_block lib env.now (size s.chain) event v.tail.hash)) [
        | inr (m, p) ↦ (
          err (json_error m),
          s,
          os,
          rw (build_next-total env.now s os event v, handle_request, p),
          refused _ refl refl (inl refl),
          v,
        )
        | inl (b, p) ↦
            let a = append_block lib env.disk os b in
            let (reply, s', q, h) = persisted-Handled env event s os a.1 b a.0 v p refl in
            (
              reply,
              s',
              a.1,
              rw (build_next-total env.now s os event v, handle_request, p) q,
              h,
              Handled-Inv v h,
            )
      ]
