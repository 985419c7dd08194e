-- ===== src/Server/Stopping.antt =====
-- `ServerHandle` against `serve` of storage-core/src/server.cpp. A history interleaves stops from
-- any thread with the steps of servers, one after the other: a server begins (it is made and
-- attached), it listens, its `listen` returns, and it ends (it is detached and destroyed). The
-- `stop` of cpp-httplib does nothing on a server that is not running.
use iot_devices_ledger_audit.Prelude.{
  ℕ, ◌≡◌, refl, sym, subst, ◌⊎◌, inl, inr, Bool, true, false, List, [], ◌∷◌, ◌++◌, Option, none,
  some, All, All-append, Bool-cases, Option-cases, arith, ◌∙◌,
}
use iot_devices_ledger_audit.Server.Handle.{ServerHandle, detached, stop, attach, detach}

pub data Call : Type 0 where
  stops listens returns ends : Call
  begins : ℕ → Call

-- Where the call of `serve` is.
pub data Stage : Type 0 where
  attached listening returned : Stage

-- A stop, with the server that `ServerHandle::stop` calls, the one that exists, and its stage.
pub record Stop : Type 0 where
  pub target : Option ℕ
  pub alive : Option ℕ
  pub stage : Stage

-- `alive` is the server that exists; `told` says whether a stop has reached it while it ran.
pub record World : Type 0 where
  pub handle : ServerHandle
  pub alive : Option ℕ
  pub stage : Stage
  pub told : Bool
  pub stops_made : List Stop

hears : Bool → Option ℕ → Stage → Bool
hears told none stage = told
hears told (some s) listening = true
hears told (some s) attached = told
hears told (some s) returned = told

note_stop : World → ServerHandle × Option ℕ → World
unfolding hears
note_stop w (h, target) = record {
  handle = h;
  alive = w.alive;
  stage = w.stage;
  told = hears w.told target w.stage;
  stops_made = w.stops_made ++ record { target = target; alive = w.alive; stage = w.stage } ∷ [];
}

-- `serve` returns at once when `attach` says that a stop came first.
note_attach : World → ℕ → ServerHandle × Bool → World
note_attach w s (h, true) = record w { handle = h }
note_attach w s (h, false) = record w { handle = h; alive = some s; stage = attached; told = false }

listen_from : Stage → Stage
listen_from attached = listening
listen_from listening = listening
listen_from returned = returned

note_end : World → Stage → World
note_end w attached = w
note_end w listening = w
note_end w returned = record w { handle = detach w.handle; alive = none; told = false }

-- One server at a time: `begins` while one is alive does nothing.
pub step : World → Call → World
unfolding note_stop note_attach listen_from note_end
step w stops = note_stop w (stop w.handle)
step w (begins s) = elim w.alive [ none ↦ note_attach w s (attach w.handle s) | some t ↦ w ]
step w listens = record w { stage = listen_from w.stage }
step w returns = record w { stage = returned }
step w ends = note_end w w.stage

pub run : World → List Call → World
run w [] = w
run w (c ∷ cs) = run (step w c) cs

abbrev pub start : World
start = record { handle = detached; alive = none; stage = returned; told = false; stops_made = [] }

-- The target of a stop is no server, or the one alive.
abbrev pub OnlyAlive : Stop → Type 0
OnlyAlive x = (x.target ≡ none) ⊎ (x.target ≡ x.alive)

-- The stop went to the server, which did not run: not yet, or no more.
abbrev pub Missed : ℕ → Stop → Type 0
Missed s x = (x.target ≡ some s) × ((x.stage ≡ attached) ⊎ (x.stage ≡ returned))

record Inv (w : World) : Type 0 where
  attached_is : w.handle.srv ≡ w.alive
  unasked : w.handle.stopped ≡ false → w.stops_made ≡ []
  heard : (s : ℕ) → w.alive ≡ some s → (w.told ≡ true) ⊎ All (Missed s) w.stops_made
  safe : All OnlyAlive w.stops_made

step_busy : (w : World) (s t : ℕ) → w.alive ≡ some t → step w (begins s) ≡ w
unfolding step
step_busy w s t e = ground arith

step_late : (w : World) (s : ℕ) → w.alive ≡ none → w.handle.stopped ≡ true → step w (begins s) ≡ w
unfolding step attach
step_late w s e late = ground arith

step_early :
    (w : World) (s : ℕ)
    → w.alive ≡ none
    → w.handle.stopped ≡ false
    → step w (begins s) ≡ record w {
      handle = record (w.handle) { srv = some s };
      alive = some s;
      stage = attached;
      told = false;
    }
unfolding step attach
step_early w s e early = ground arith

stage_cases :
    (g : Stage) (told : Bool) (s : ℕ)
    → (hears told (some s) g ≡ true)
      ⊎ ((hears told (some s) g ≡ told) × ((g ≡ attached) ⊎ (g ≡ returned)))
unfolding hears
stage_cases attached told s = inr (refl, inl refl)
stage_cases listening told s = inl refl
stage_cases returned told s = inr (refl, inr refl)

-- A stop while the server `s` is alive: it is heard, or it is one more that was missed.
stop_heard :
    (w : World) (s : ℕ)
    → w.handle.srv ≡ some s
    → (w.told ≡ true) ⊎ All (Missed s) w.stops_made
    → ((step w stops).told ≡ true) ⊎ All (Missed s) (step w stops).stops_made
unfolding step stop
stop_heard w s a h = elim (stage_cases w.stage w.told s) [
  | inl now ↦ inl (rw a now)
  | inr (same, idle) ↦ elim h [
    | inl before ↦ inl (rw a (same ∙ before))
    | inr missed ↦ inr (All-append (Missed s) w.stops_made _ missed ((a, idle), tt))
  ]
]

note_end-Inv : (w : World) (g : Stage) → Inv w → Inv (note_end w g)
unfolding note_end detach
note_end-Inv w attached v = v
note_end-Inv w listening v = v
note_end-Inv w returned v = record {
  attached_is = refl;
  unasked = v.unasked;
  heard = λ s a. absurd (cc a);
  safe = v.safe;
}

step-Inv : (w : World) (c : Call) → Inv w → Inv (step w c)
unfolding step stop attach detach
step-Inv w stops v = record {
  attached_is = v.attached_is;
  unasked = λ h. cc;
  heard = λ s a. stop_heard w s (v.attached_is ∙ a) (v.heard s a);
  safe = All-append OnlyAlive w.stops_made _ v.safe (inr v.attached_is, tt);
}
step-Inv w (begins s) v = elim (Option-cases w.alive) [
  | inr (t, e) ↦ subst Inv (sym (step_busy w s t e)) v
  | inl e ↦ elim (Bool-cases w.handle.stopped) [
    | inl late ↦ subst Inv (sym (step_late w s e late)) v
    | inr early ↦ subst Inv (sym (step_early w s e early)) (record {
      attached_is = refl;
      unasked = v.unasked;
      heard = λ t a. inr (rw (v.unasked early) tt);
      safe = v.safe;
    })
  ]
]
step-Inv w listens v = record {
  attached_is = v.attached_is;
  unasked = v.unasked;
  heard = v.heard;
  safe = v.safe;
}
step-Inv w returns v = record {
  attached_is = v.attached_is;
  unasked = v.unasked;
  heard = v.heard;
  safe = v.safe;
}
step-Inv w ends v = note_end-Inv w w.stage v

run-Inv : (w : World) (cs : List Call) → Inv w → Inv (run w cs)
unfolding run
run-Inv w [] v = v
run-Inv w (c ∷ cs) v = run-Inv (step w c) cs (step-Inv w c v)

-- After any history, every stop went to no server or to the one that existed at that moment. While a
-- server exists, a stop has reached it while it ran, or else all stops ever made, if any, went to
-- it when it did not run: between `attach` and `listen`, or when `listen` had returned.
pub run_stops :
    (cs : List Call)
    → let w = run start cs in
      All OnlyAlive w.stops_made
      × ((s : ℕ) → w.alive ≡ some s → (w.told ≡ true) ⊎ All (Missed s) w.stops_made)
run_stops cs =
    let v = run-Inv start cs (record {
      attached_is = refl;
      unasked = λ h. refl;
      heard = λ s a. absurd (cc a);
      safe = tt;
    }) in
    (v.safe, v.heard)

-- A stop between `attach` and `listen` is lost: the server listens and has not been told.
lost_stop :
    let w = run start (begins 1 ∷ stops ∷ listens ∷ []) in
    (w.alive ≡ some 1) × (w.stage ≡ listening) × (w.told ≡ false)
unfolding run step stop attach
lost_stop = (refl, refl, refl)
