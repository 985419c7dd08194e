-- ===== src/Server/Statuses.antt =====
-- The status of the responses of storage-core/src/server.cpp, by the route.
use iot_devices_ledger_audit.Prelude.{
  ℕ, ◌≡◌, refl, sym, ap, ◌∙◌, ◌⊎◌, inl, inr, List, Option, none, some, Result, ok, err, ◌>>=◌,
  Bool-cases, >>=-eq-ok, map_err-eq-err, some_inj, ok_inj, err_inj, ◌^◌, ◌-◌, ◌+◌, ◌%◌, length, ltb,
  min, map_err,
}
use iot_devices_ledger_audit.Prelude.Bytes.{Bytes, bytes}
use iot_devices_ledger_audit.Json.{Library}
use iot_devices_ledger_audit.Error.{
  Exception, api_error, json_error, storage_error, invalid_argument, out_of_range, foreign,
  ErrorResponse, error_body, error_response, to_error_response,
}
use iot_devices_ledger_audit.Block.{Block}
use iot_devices_ledger_audit.Writer.{AppState}
use iot_devices_ledger_audit.Server.Index.{Request, Response, parse_index}
use iot_devices_ledger_audit.Server.Handlers.{
  json_response, on_exception, select, submit_event, finish_event, get_blocks, get_verify,
  get_health,
}
use iot_devices_ledger_audit.Chain
use iot_devices_ledger_audit.Server.Events.{
  submit_event-Submitted, invalid, unavailable, waits, queued,
}
use iot_devices_ledger_audit.Server.Params.{parse_index-cases}

-- The status that `to_error_response` gives an exception.
abbrev pub status_of : Exception → ℕ
status_of (api_error status message) = status
status_of (storage_error message) = 500
status_of (json_error message) = 500
status_of (invalid_argument message) = 500
status_of (out_of_range message) = 500
status_of foreign = 500

abbrev pub IsClientOrServer : ℕ → Type 0
IsClientOrServer n = (n ≡ 400) ⊎ (n ≡ 500)

module _ (lib : Library) where
  open lib use {Json}

  error_response-status :
      (status : ℕ) (message : Bytes) (r : ErrorResponse)
      → error_response lib status message ≡ ok r
      → r.status ≡ status
  unfolding error_response
  error_response-status status message r h =
      let (_, _, q) = >>=-eq-ok (error_body lib message) _ h in
      ap (λ (x : ErrorResponse). x.status) (sym (ok_inj q))

  to_error_response-status :
      (e : Exception) (r : ErrorResponse) → to_error_response lib e ≡ ok r → r.status ≡ status_of e
  unfolding to_error_response
  to_error_response-status (api_error s m) r h = error_response-status s m r h
  to_error_response-status _ r h = error_response-status 500 (bytes "internal error") r h

  pub on_exception-status :
      (e : Exception) (res : Response)
      → on_exception lib e ≡ ok res
      → res.status ≡ some (status_of e)
  unfolding on_exception json_response
  on_exception-status e res h =
      let (r, u, w) = >>=-eq-ok (to_error_response lib e) _ h in
      ap (λ (y : Response). y.status) (sym (ok_inj w)) ∙ ap some (to_error_response-status e r u)

  -- A handler's outcome is a response with the status `n`, or with none set, or an exception of status 400 or 500.
  abbrev pub Gives : Option ℕ → Result Exception Response → Type 0
  Gives n (ok res) = res.status ≡ n
  Gives n (err e) = IsClientOrServer (status_of e)

  dumped-Gives :
      (n : Option ℕ) (r : Result Bytes Bytes)
      → Gives n (map_err json_error r >>= λ text. ok (json_response n text))
  unfolding json_response
  dumped-Gives n (ok text) = refl
  dumped-Gives n (err m) = inr refl

  bind-Gives :
      {A : Type 0} (n : Option ℕ) (r : Result Exception A) (f : A → Result Exception Response)
      → ((e : Exception) → r ≡ err e → IsClientOrServer (status_of e))
      → ((a : A) → Gives n (f a))
      → Gives n (r >>= f)
  bind-Gives n (ok a) f h k = k a
  bind-Gives n (err e) f h k = h e refl

  parse_index-status :
      (req : Request) (name : Bytes) (fallback : ℕ) (e : Exception)
      → parse_index req name fallback ≡ err e
      → IsClientOrServer (status_of e)
  parse_index-status req name fallback e h = elim (parse_index-cases req name fallback) [
    | inl (_, p) ↦ absurd (cc (p, h))
    | inr (_, _, inl (_, p)) ↦ absurd (cc (p, h))
    | inr (_, _, inr (_, (m, p))) ↦ inl (ap status_of (err_inj (sym h ∙ p)))
  ]

  select-status :
      {A : Type 0} (xs : List A) (from to : ℕ) (e : Exception)
      → select xs from to ≡ err e
      → IsClientOrServer (status_of e)
  unfolding select
  select-status xs from to e h =
      let last = (length xs + 2 ^ 64 - 1) % 2 ^ 64 in
      elim (Bool-cases (ltb (min to last) from)) [
        | inl outside ↦ inl (ap status_of (err_inj (sym (rw outside at h))))
        | inr inside ↦ absurd (cc (rw inside at h))
      ]

  pub get_blocks-Gives :
      (state : AppState Json) (req : Request) → Gives none (get_blocks lib state req)
  unfolding get_blocks
  get_blocks-Gives state req =
      bind-Gives none (parse_index req (bytes "from") 0) _ (parse_index-status req (bytes "from") 0)
        (λ from.
          bind-Gives none (parse_index req (bytes "to") (2 ^ 64 - 1)) _
            (parse_index-status req (bytes "to") (2 ^ 64 - 1))
            (λ to.
              bind-Gives none (select state.chain.blocks from to) _
                (select-status state.chain.blocks from to) (λ slice. dumped-Gives none _)))

  pub get_verify-Gives : (state : AppState Json) (now : ℕ) → Gives none (get_verify lib state now)
  unfolding get_verify
  get_verify-Gives state now =
      bind-Gives none (map_err json_error (Chain.verify lib state.chain)) _
        (λ e h. inr (ap status_of (map_err-eq-err json_error (Chain.verify lib state.chain) h).2))
        (λ result. dumped-Gives none _)

  pub get_health-Gives : Gives none (get_health lib)
  unfolding get_health
  get_health-Gives = dumped-Gives none _

  pub finish_event-Gives :
      (reply : Result Exception (Block Json))
      → ((e : Exception) → reply ≡ err e → IsClientOrServer (status_of e))
      → Gives (some 201) (finish_event lib reply)
  unfolding finish_event
  finish_event-Gives reply h = bind-Gives (some 201) reply _ h (λ b. dumped-Gives (some 201) _)

  pub submit_event-status :
      (state : AppState Json) (promise : ℕ) (req : Request) (e : Exception)
      → submit_event lib state promise req ≡ some (err e)
      → IsClientOrServer (status_of e)
  submit_event-status state promise req e h = elim (submit_event-Submitted lib state promise req) [
    | invalid m r ↦ inl (ap status_of (err_inj (some_inj (sym h ∙ r))))
    | unavailable m _ r ↦ inr (ap status_of (err_inj (some_inj (sym h ∙ r))))
    | waits q _ _ _ r ↦ absurd (cc (h, r))
    | queued q event _ _ _ r ↦ absurd (cc (h, r))
  ]
