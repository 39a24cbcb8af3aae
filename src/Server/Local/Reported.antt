-- ===== src/Server/Local/Reported.antt =====
-- What a request of a process on the same machine leaves.
use lanxfer.Base.{
  ℕ, ◌≤◌, ◌≡◌, ◌≢◌, ◌⊎◌, refl, sym, ap, subst, ◌∙◌, inl, inr, true, false, some, Text, arith,
  Bool-cases, Option-cases, Result-unit-cases, if◌then◌else◌, Result, ok, err, length, ◌==◌,
  text_eq, text_eq_iff,
}
use lanxfer.History.{Entry, AppendError, append, validate, dir_out}
use lanxfer.Server.Requests.{Config, Env, World, Request, Response, only, Limited, limit_read}
use lanxfer.Server.Uploads.Outcome.{limit_read_lem}
use lanxfer.Server.Local.{
  max_local_history_body, from_loopback, appended, report_entry, report_body, handle_local_history,
}

-- A version that was left out is read as 1.
abbrev pub versioned : Entry → Entry
versioned e = if e.v == 0 then record e { v = 1 } else e

-- A request that is heeded, with the entry that its body holds: it comes from a loopback address
-- under a loopback host name, names the device ID of this receiver and declares JSON; its body is
-- complete and within its limit, and the entry is valid and sent.
pub record IsReport (cfg : Config) (env : Env) (r : Request) (e : Entry) : Type 0 where
  pub local : from_loopback env r ≡ true
  pub same_id : r.from_id ≡ cfg.device_id
  pub declared : r.is_json ≡ true
  pub complete : r.body_ok ≡ true
  pub within : length r.body ≤ max_local_history_body
  pub decoded : env.codec.decode r.body ≡ some e
  pub valid : validate (versioned e) ≡ ok tt
  pub outgoing : (versioned e).dir ≡ dir_out

-- The one append of an entry decides the response.
abbrev pub Appended : Env → Entry → World → Response × World → Type 0
Appended env e w res =
    let out = append env.codec env.history_fs env.now e w.history in
    (res.1 ≡ record w { history = out.1 })
    × (((out.0 ≡ ok tt) × (res.0 ≡ only 204))
        ⊎ ((bad : AppendError) × (out.0 ≡ err bad) × (res.0 ≡ only 500)))

-- Nothing was appended.
abbrev pub Rejected : World → Response × World → Type 0
Rejected w res = (res.0.status ≢ 204) × (res.0.status ≢ 500) × (res.1 ≡ w)

abbrev pub LocalOutcome : Config → Env → Request → World → Response × World → Type 0
LocalOutcome cfg env r w res =
    ((e : Entry) × IsReport cfg env r e × Appended env (versioned e) w res)
    ⊎ (((e : Entry) → IsReport cfg env r e → ⊥) × Rejected w res)

rejected : (w : World) (status : ℕ) → status ≢ 204 → status ≢ 500 → Rejected w (only status, w)
rejected w status a b = (a, b, refl)

appended-Appended :
    (env : Env) (e : Entry) (w : World) (res : Result AppendError (Unit {0}) × Text)
    → res ≡ append env.codec env.history_fs env.now e w.history
    → Appended env e w (appended w res)
unfolding appended
appended-Appended env e w (ok u, after) h = (
  ap (λ (x : Result AppendError (Unit {0}) × Text). record w { history = x.1 }) h,
  inl (ap (λ (x : Result AppendError (Unit {0}) × Text). x.0) (sym h), refl),
)
appended-Appended env e w (err bad, after) h = (
  ap (λ (x : Result AppendError (Unit {0}) × Text). record w { history = x.1 }) h,
  inr (bad, ap (λ (x : Result AppendError (Unit {0}) × Text). x.0) (sym h), refl),
)

pub report_entry_sent :
    (env : Env) (e : Entry) (w : World)
    → validate (versioned e) ≡ ok tt
    → text_eq (versioned e).dir dir_out ≡ true
    → report_entry env e w
      ≡ appended w (append env.codec env.history_fs env.now (versioned e) w.history)
unfolding report_entry
report_entry_sent env e w v d = rw (v, d, report_entry) refl

report_entry-Appended :
    (env : Env) (e : Entry) (w : World)
    → ((validate (versioned e) ≡ ok tt)
        × ((versioned e).dir ≡ dir_out)
        × Appended env (versioned e) w (report_entry env e w))
      ⊎ ((validate (versioned e) ≡ ok tt → (versioned e).dir ≡ dir_out → ⊥)
          × Rejected w (report_entry env e w))
unfolding report_entry
report_entry-Appended env e w = elim (Result-unit-cases (validate (versioned e))) [
  | inr (bad, v) ↦
      rw (v, report_entry) (inr ((λ good d. cc), rejected w 400 (ground arith) (ground arith)))
  | inl v ↦ elim (Bool-cases (text_eq (versioned e).dir dir_out)) [
    | inr d ↦
        rw (v, d, report_entry)
          (inr (
            (λ good o. ground (arith, (text_eq_iff (versioned e).dir dir_out).1 o, d)),
            rejected w 400 (ground arith) (ground arith),
          ))
    | inl d ↦ inl (
      v,
      (text_eq_iff (versioned e).dir dir_out).0 d,
      subst (Appended env (versioned e) w) (sym (report_entry_sent env e w v d))
          (appended-Appended env (versioned e) w _ refl),
    )
  ]
]

pub limit_read-whole :
    (max : ℕ) (body : Text)
    → length body ≤ max
    → limit_read max body true ≡ record { bytes = body; complete = true; over = false }
unfolding limit_read
limit_read-whole max body h = ground (arith, h)

body-LocalOutcome :
    (cfg : Config) (env : Env) (r : Request) (w : World) (got : Limited)
    → got ≡ limit_read max_local_history_body r.body r.body_ok
    → from_loopback env r ≡ true
    → r.from_id ≡ cfg.device_id
    → r.is_json ≡ true
    → LocalOutcome cfg env r w (report_body env got w)
unfolding report_body
body-LocalOutcome cfg env r w got from l i j =
    let whole : (e : Entry)
        → IsReport cfg env r e
        → got ≡ record { bytes = r.body; complete = true; over = false } =
      λ e q.
        from
        ∙ ap (limit_read max_local_history_body r.body) q.complete
        ∙ limit_read-whole max_local_history_body r.body q.within in
    elim (Bool-cases got.complete) [
      | inr c ↦
          let not_whole : (e : Entry) → IsReport cfg env r e → ⊥ =
            λ e q. cc (c, ap (λ (x : Limited). x.complete) (whole e q)) in
          elim (Bool-cases got.over) [
            | inl o ↦
                rw (c, o, report_body)
                  (inr (not_whole, rejected w 413 (ground arith) (ground arith)))
            | inr o ↦
                rw (c, o, report_body)
                  (inr (not_whole, rejected w 400 (ground arith) (ground arith)))
          ]
      | inl c ↦
          let (same, fits, ended) =
            limit_read_lem max_local_history_body r.body r.body_ok
              (ap (λ (x : Limited). x.complete) (sym from) ∙ c) in
          let read : got.bytes ≡ r.body = ap (λ (x : Limited). x.bytes) from ∙ same in
          let decodes = ap env.codec.decode (sym read) in
          elim (Option-cases (env.codec.decode got.bytes)) [
            | inl d ↦
                rw (c, d, report_body)
                  (inr (
                    (λ e q. cc (decodes, d, q.decoded)),
                    rejected w 400 (ground arith) (ground arith),
                  ))
            | inr (e, d) ↦
                rw (c, d, report_body)
                  (elim (report_entry-Appended env e w) [
                    | inl (v, o, done) ↦ inl (
                      e,
                      record {
                        local = l;
                        same_id = i;
                        declared = j;
                        complete = ended;
                        within = fits;
                        decoded = decodes ∙ d;
                        valid = v;
                        outgoing = o;
                      },
                      done,
                    )
                    | inr (bad, un) ↦ inr (
                      (λ e' q.
                          let same_entry : e' ≡ e = cc (decodes, d, q.decoded) in
                          bad (ap (λ x. validate (versioned x)) (sym same_entry) ∙ q.valid)
                            (ap (λ x. (versioned x).dir) (sym same_entry) ∙ q.outgoing)),
                      un,
                    )
                  ])
          ]
    ]

pub handle_local_history_body :
    (cfg : Config) (env : Env) (r : Request) (w : World)
    → from_loopback env r ≡ true
    → text_eq r.from_id cfg.device_id ≡ true
    → r.is_json ≡ true
    → handle_local_history cfg env r w
      ≡ report_body env (limit_read max_local_history_body r.body r.body_ok) w
unfolding handle_local_history
handle_local_history_body cfg env r w l i j = rw (l, i, j, handle_local_history) refl

-- POST /local/history: a request is heeded exactly if it comes from a loopback address under a
-- loopback host name, names the device ID of this receiver and declares JSON, and its body is
-- complete, within its limit and read as an entry, which (with version 1 if it had none) is valid
-- and has the direction "out". Then that entry goes to Append once, which may change the history file
-- and nothing else, and the answer is 204 (No Content) if Append returns without an error and 500
-- if it fails. Any other request is answered with neither, and changes nothing.
pub handle_local_history-LocalOutcome :
    (cfg : Config) (env : Env) (r : Request) (w : World)
    → LocalOutcome cfg env r w (handle_local_history cfg env r w)
unfolding handle_local_history
handle_local_history-LocalOutcome cfg env r w =
    let got = limit_read max_local_history_body r.body r.body_ok in
    elim (Bool-cases (from_loopback env r)) [
      | inr l ↦
          rw (l, handle_local_history)
            (inr ((λ e q. cc (l, q.local)), rejected w 403 (ground arith) (ground arith)))
      | inl l ↦ elim (Bool-cases (text_eq r.from_id cfg.device_id)) [
        | inr i ↦
            rw (l, i, handle_local_history)
              (inr (
                (λ e q. cc (i, (text_eq_iff r.from_id cfg.device_id).1 q.same_id)),
                rejected w 409 (ground arith) (ground arith),
              ))
        | inl i ↦ elim (Bool-cases r.is_json) [
          | inr j ↦
              rw (l, i, j, handle_local_history)
                (inr ((λ e q. cc (j, q.declared)), rejected w 415 (ground arith) (ground arith)))
          | inl j ↦
              subst (LocalOutcome cfg env r w) (sym (handle_local_history_body cfg env r w l i j)) (
                body-LocalOutcome cfg env r w got refl l ((text_eq_iff r.from_id cfg.device_id).0 i)
                  j)
        ]
      ]
    ]
