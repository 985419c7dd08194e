-- ===== src/Feed/Release.antt =====
-- Histories of the feed of storage-core/src/ws.cpp: no subscription outlives its connection.
use iot_devices_ledger_audit.Prelude.{
  ℕ, ◌≡◌, refl, subst, ◌∙◌, Bool, true, false, not, ◌||◌, List, [], ◌∷◌, Option, none, some, length,
  arith, Option-cases, Bool-cases, inl, inr, some_inj,
}
use iot_devices_ledger_audit.Prelude.Bytes.{Bytes, str_eq}
use iot_devices_ledger_audit.Broadcast.Subscriber.{new, default_capacity}
use iot_devices_ledger_audit.Broadcast.{
  Broadcaster, no_subscribers, lock, expired, subscribe, publish, publish_loop, rebuild,
}
use iot_devices_ledger_audit.Broadcast.Ids.{mem, Distinct, mem-append, same}
use iot_devices_ledger_audit.Feed.Frames.{path_of, feed_path}
use iot_devices_ledger_audit.Feed.Defs.{
  Conn, WsServer, find, construct, finish, add_conn, on_open, on_close, finish_all, close_all,
  start, wind_down, stop, connection_count,
}
use iot_devices_ledger_audit.Feed.Expiry.{
  subscriptions, subscriptions-append, Distinct-snoc, mem-erase, Distinct-erase, expired-outside,
  expired-finish, expired-publish_loop, expired-append,
}

pub data Call {ℓ} (A : Type ℓ) : Type ℓ where
  opens : Bool → Bytes → Bytes → Call A
  closes : Bytes → Call A
  publishes : A → Call A

module _ {ℓ} {A : Type ℓ} where
  -- A subscription is held exactly while a connection has it, and by one connection only.
  pub record Held (s : WsServer A) : Type ℓ where
    pub held : (w : ℕ) → expired s.broadcaster.cells w ≡ not (mem w (subscriptions s.conns))
    pub distinct : Distinct (subscriptions s.conns)

  published : WsServer A → Option (Broadcaster A) → Option (WsServer A)
  published s none = none
  published s (some h) = some (record s { broadcaster = h })

  -- `none`: the process was ended.
  unfoldable pub step : WsServer A → Call A → Option (WsServer A)
  unfolding published
  step s (opens alive id uri) = (on_open alive id uri s).1
  step s (closes id) = some (on_close id s)
  step s (publishes b) = published s (publish s.broadcaster b)

  unfoldable pub run : WsServer A → List (Call A) → Option (WsServer A)
  run s [] = some s
  run s (c ∷ cs) = elim (step s c) [ none ↦ none | some s' ↦ run s' cs ]

  on_close-Held : (s : WsServer A) (id : Bytes) → Held s → Held (on_close id s)
  unfolding on_close
  on_close-Held s id v = elim (Option-cases (find s.conns id)) [
    | inl e ↦ rw (e, on_close) v
    | inr (c, e) ↦
        let (d, m) = Distinct-erase s.conns id c e v.distinct in
        rw (e, on_close)
          (record {
            held = λ w. ground (
              arith,
              expired-finish s.broadcaster c w,
              v.held w,
              mem-erase s.conns id c w e,
              m,
              same c.subscription w,
            );
            distinct = d;
          })
  ]

  unheld :
      (s : WsServer A) → Held s → mem (length s.broadcaster.cells) (subscriptions s.conns) ≡ false
  unheld s v = ground (
    arith,
    v.held (length s.broadcaster.cells),
    expired-outside s.broadcaster.cells (length s.broadcaster.cells) (omega arith),
  )

  add_conn-Held :
      (s s' : WsServer A) (id : Bytes)
      → add_conn s id (subscribe s.broadcaster default_capacity) ≡ some s'
      → Held s
      → Held s'
  unfolding add_conn subscribe
  add_conn-Held s s' id h v = elim (Option-cases (find s.conns id)) [
    | inr (c, e) ↦ absurd (cc (rw (e, add_conn) at h))
    | inl e ↦
        let cells = s.broadcaster.cells in
        let c : Conn = record { id = id; subscription = length cells } in
        subst Held (some_inj (rw (e, add_conn) at h)) (record {
          held = λ w.
              rw
                (
                  subscriptions-append s.conns c,
                  mem-append w (subscriptions s.conns) (length cells),
                )
                (ground (
                  arith,
                  expired-append cells (new {A = A} default_capacity) w,
                  v.held w,
                  unheld s v,
                ));
          distinct =
              rw (subscriptions-append s.conns c)
                (Distinct-snoc (subscriptions s.conns) (length cells) v.distinct (unheld s v));
        })
  ]

  publish-Held :
      (s s' : WsServer A) (b : A)
      → published s (publish s.broadcaster b) ≡ some s'
      → Held s
      → Held s'
  unfolding published publish rebuild
  publish-Held s s' b h v =
      elim (Option-cases (publish_loop s.broadcaster.cells s.broadcaster.subscribers b)) [
        | inl e ↦ absurd (cc (rw e at h))
        | inr ((cells, ws), e) ↦ subst Held (some_inj (rw e at h)) (record {
          held = λ w.
              expired-publish_loop s.broadcaster.cells s.broadcaster.subscribers b w cells ws e
              ∙ v.held w;
          distinct = v.distinct;
        })
      ]

  finish_all-expired :
      (h : Broadcaster A) (cs : List Conn) (w : ℕ)
      → expired (finish_all h cs).cells w ≡ mem w (subscriptions cs) || expired h.cells w
  unfolding finish_all mem
  finish_all-expired h [] w = refl
  finish_all-expired h (c ∷ cs) w =
      ground (arith, finish_all-expired (finish h c) cs w, expired-finish h c w)

  on_open-Held :
      (s s' : WsServer A) (alive : Bool) (id uri : Bytes)
      → (on_open alive id uri s).1 ≡ some s'
      → Held s
      → Held s'
  unfolding on_open
  on_open-Held s s' false id uri h v = subst Held (some_inj h) v
  on_open-Held s s' true id uri h v = elim (Bool-cases (str_eq (path_of uri) feed_path)) [
    | inl served ↦ add_conn-Held s s' id (rw served at h) v
    | inr refused ↦ subst Held (some_inj (rw refused at h)) v
  ]

  step-Held : (s s' : WsServer A) (c : Call A) → step s c ≡ some s' → Held s → Held s'
  unfolding step
  step-Held s s' (opens alive id uri) h v = on_open-Held s s' alive id uri h v
  step-Held s s' (closes id) h v = subst Held (some_inj h) (on_close-Held s id v)
  step-Held s s' (publishes b) h v = publish-Held s s' b h v

  run-Held : (s s' : WsServer A) (cs : List (Call A)) → run s cs ≡ some s' → Held s → Held s'
  unfolding run
  run-Held s s' [] h v = subst Held (some_inj h) v
  run-Held s s' (c ∷ cs) h v = elim (Option-cases (step s c)) [
    | inl e ↦ absurd (cc (rw (e, run) at h))
    | inr (t, e) ↦ run-Held t s' cs (rw (e, run) at h) (step-Held s t c e v)
  ]

  wind_down-Held : (ids : List Bytes) (s : WsServer A) → Held s → Held (wind_down ids s)
  unfolding wind_down
  wind_down-Held [] s v = v
  wind_down-Held (id ∷ ids) s v = wind_down-Held ids (on_close id s) (on_close-Held s id v)

  close_all-expired :
      (s : WsServer A) (w : ℕ) → Held s → expired (close_all s).broadcaster.cells w ≡ true
  unfolding close_all
  close_all-expired s w v = ground (arith, finish_all-expired s.broadcaster s.conns w, v.held w)

  -- After any history of openings, closings and publications that does not end the process, a
  -- subscription is held exactly while an open connection has it; and while the server runs, a stop,
  -- whichever connections wind down by themselves, leaves no connection and no held subscription.
  pub stop_releases :
      (calls : List (Call A)) (ids : List Bytes) (s : WsServer A)
      → run (start true (construct no_subscribers)).1 calls ≡ some s
      → s.running ≡ true
      → ((w : ℕ) → expired s.broadcaster.cells w ≡ not (mem w (subscriptions s.conns)))
        × (connection_count (stop ids s) ≡ 0)
        × ((w : ℕ) → expired (stop ids s).broadcaster.cells w ≡ true)
  unfolding start construct stop connection_count close_all expired lock mem
  stop_releases calls ids s h r =
      let first : Held (start {A = A} true (construct no_subscribers)).1 = record {
        held = λ w. refl;
        distinct = tt;
      } in
      let v = run-Held (start true (construct no_subscribers)).1 s calls h first in
      let quiet : WsServer A = record s { running = false } in
      let q : Held quiet = record { held = v.held; distinct = v.distinct } in
      (
        v.held,
        rw r refl,
        (λ w. rw r (close_all-expired (wind_down ids quiet) w (wind_down-Held ids quiet q))),
      )
