-- ===== src/Server/Answers.antt =====
-- What the handlers of storage-core/src/server.cpp answer, and what they leave of the shared state.
use iot_devices_ledger_audit.Prelude.{
  ℕ, ◌≡◌, refl, sym, ap, subst, ◌∙◌, ◌⊎◌, inl, inr, ◌≤◌, Option, arith, none, some, Result, ok, err,
  >>=-eq-ok, Option-cases, some_inj, ok_inj,
}
use iot_devices_ledger_audit.Prelude.Bytes.{Bytes, bytes}
use iot_devices_ledger_audit.Json.{Library}
use iot_devices_ledger_audit.Error.{Exception}
use iot_devices_ledger_audit.Block.{Block}
use iot_devices_ledger_audit.Writer.{AppState}
use iot_devices_ledger_audit.Server.Index.{Request, Response}
use iot_devices_ledger_audit.Server.Handlers.{add_cors, on_exception, respond, submit_event}
use iot_devices_ledger_audit.Server.Events.{
  submit_event-Submitted, invalid, unavailable, waits, queued,
}
use iot_devices_ledger_audit.Server.Routes.{
  Handler, preflight, health, events, blocks, verify, preflight_response, Outcome, finish,
  post_event, run_handler, Http, HttpLaws, set_or_ok,
}
use iot_devices_ledger_audit.Server.Statuses.{
  status_of, IsClientOrServer, Gives, on_exception-status, get_blocks-Gives, get_verify-Gives,
  get_health-Gives, finish_event-Gives, submit_event-status,
}

-- The status that a handler sets, without an error.
abbrev pub success : Handler → Option ℕ
success preflight = some 204
success health = none
success events = some 201
success blocks = none
success verify = none

-- What ranges make of it: part of the content where no status was set, or a refusal.
abbrev pub InRanges : Request → Option ℕ → ℕ → Type 0
InRanges req o n =
    ((v : Bytes) × (req.header (bytes "Range") ≡ some v)) × (((n ≡ 206) × (o ≡ none)) ⊎ (n ≡ 416))

abbrev pub Allowed : Request → Option Handler → Option ℕ → Type 0
Allowed req none s = (n : ℕ) × (s ≡ some n) × (400 ≤ n) × (n ≤ 599)
Allowed req (some h) s =
    (n : ℕ) × (s ≡ some n)
    × ((n ≡ set_or_ok (success h)) ⊎ (IsClientOrServer n ⊎ InRanges req (success h) n))

settled-success :
    (http : Http) (laws : HttpLaws http) (req : Request) (h : Handler) (x : Response)
    → x.status ≡ success h
    → Allowed req (some h) ((http.settle req x).status)
settled-success http laws req h x g = elim (laws.settled req x) [
  | inl s ↦ (set_or_ok x.status, s, inl (ap set_or_ok g))
  | inr (v, inl (s, unset)) ↦ (206, s, inr (inr (v, inl (refl, sym g ∙ unset))))
  | inr (v, inr (s, _)) ↦ (416, s, inr (inr (v, inr refl)))
]

-- The ranges of a request do not touch an error.
settled-error :
    (http : Http) (laws : HttpLaws http) (req : Request) (h : Handler) (x : Response) (n : ℕ)
    → x.status ≡ some n
    → IsClientOrServer n
    → Allowed req (some h) ((http.settle req x).status)
settled-error http laws req h x n e c = elim (laws.settled req x) [
  | inl s ↦ (n, s ∙ ap (λ o. some (set_or_ok o)) e, inr (inl c))
  | inr (v, inl (_, unset)) ↦ absurd (cc (unset, e))
  | inr (v, inr (_, small)) ↦ absurd (elim c [
    | inl is ↦ omega (arith, small, ap set_or_ok e, is)
    | inr is ↦ omega (arith, small, ap set_or_ok e, is)
  ])
]

module _ (lib : Library) where
  open lib use {Json}

  finish-state :
      (state : AppState Json) (promise : ℕ) (req : Request) (reply : Result Exception (Block Json))
      (r : Result Exception (AppState Json))
      → submit_event lib state promise req ≡ some r
      → ((e : Exception) → reply ≡ err e → IsClientOrServer (status_of e))
      → let out = finish lib state reply r in
        Gives lib (some 201) out.0
        × (out.1.chain ≡ state.chain)
        × (out.1.broadcaster ≡ state.broadcaster)
  unfolding finish
  finish-state state promise req reply (err e) h k =
      (submit_event-status lib state promise req e h, refl, refl)
  finish-state state promise req reply (ok state') h k =
      elim (submit_event-Submitted lib state promise req) [
        | invalid m r ↦ absurd (cc (h, r))
        | unavailable m _ r ↦ absurd (cc (h, r))
        | waits q _ _ _ r ↦ absurd (cc (h, r))
        | queued q event _ _ _ r ↦
            let same = ok_inj (some_inj (sym r ∙ h)) in
            (
              finish_event-Gives lib reply k,
              ap (λ (a : AppState Json). a.chain) (sym same),
              ap (λ (a : AppState Json). a.broadcaster) (sym same),
            )
      ]

  -- A handler gives the status of its route or an error, and only POST /events changes the state,
  -- though neither the chain nor the broadcaster.
  abbrev pub Kept : AppState Json → Handler → Outcome lib → Type 0
  Kept state h out =
      Gives lib (success h) out.0
      × (out.1.chain ≡ state.chain)
      × (out.1.broadcaster ≡ state.broadcaster)
      × ((out.1 ≡ state) ⊎ (h ≡ events))

  post_event-Kept :
      (state : AppState Json) (promise : ℕ) (reply : Result Exception (Block Json)) (req : Request)
      (out : Outcome lib)
      → ((e : Exception) → reply ≡ err e → IsClientOrServer (status_of e))
      → post_event lib state promise reply req ≡ some out
      → Kept state events out
  unfolding post_event
  post_event-Kept state promise reply req out k e =
      elim (Option-cases (submit_event lib state promise req)) [
        | inl n ↦ absurd (cc (rw (n, post_event) at e))
        | inr (r, h) ↦
            let (g, c, b) = finish-state state promise req reply r h k in
            subst (Kept state events) (some_inj (rw (h, post_event) at e)) (g, c, b, inr refl)
      ]

  pub run_handler-Kept :
      (h : Handler) (state : AppState Json) (promise now : ℕ)
      (reply : Result Exception (Block Json)) (req : Request) (out : Outcome lib)
      → ((e : Exception) → reply ≡ err e → IsClientOrServer (status_of e))
      → run_handler lib h state promise now reply req ≡ some out
      → Kept state h out
  unfolding run_handler preflight_response
  run_handler-Kept preflight state promise now reply req out k e =
      subst (Kept state preflight) (some_inj e) (refl, refl, refl, inl refl)
  run_handler-Kept health state promise now reply req out k e =
      subst (Kept state health) (some_inj e) (get_health-Gives lib, refl, refl, inl refl)
  run_handler-Kept blocks state promise now reply req out k e =
      subst (Kept state blocks) (some_inj e) (get_blocks-Gives lib state req, refl, refl, inl refl)
  run_handler-Kept verify state promise now reply req out k e =
      subst (Kept state verify) (some_inj e) (get_verify-Gives lib state now, refl, refl, inl refl)
  run_handler-Kept events state promise now reply req out k e =
      post_event-Kept state promise reply req out k e

  pub respond-Gives :
      (http : Http) (laws : HttpLaws http) (req : Request) (h : Handler)
      (r : Result Exception Response) (res : Response)
      → Gives lib (success h) r
      → respond lib (http.settle req) r ≡ ok res
      → Allowed req (some h) res.status × ((inner : Response) × (res ≡ add_cors inner))
  unfolding respond add_cors
  respond-Gives http laws req h (ok x) res g e = (
    subst (λ (y : Response). Allowed req (some h) y.status) (ok_inj e)
        (settled-success http laws req h x g),
    (http.settle req x, sym (ok_inj e)),
  )
  respond-Gives http laws req h (err x) res g e =
      let (y, p, q) = >>=-eq-ok (on_exception lib x) _ e in
      (
        subst (λ (z : Response). Allowed req (some h) z.status) (ok_inj q)
            (settled-error http laws req h y (status_of x) (on_exception-status lib x y p) g),
        (http.settle req y, sym (ok_inj q)),
      )
