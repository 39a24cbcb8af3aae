-- ===== src/Transfer/Updates.antt =====
-- The order of the updates of one item.
use lanxfer.Base.{
  ℕ, ◌≡◌, refl, ap, subst, ◌∙◌, sym, inl, inr, true, false, List, [], ◌∷◌, ◌++◌, arith, Bool-cases,
  ltb, ◌-◌, All, All-append,
}
use lanxfer.History.{Entry}
use lanxfer.Transfer.{Update, Item, emit_locked, begin, progress, finish, progress_interval}

-- The calls of the worker and of the HTTP client on an item, in the order in which they get its lock.
pub data Report : Type 0 where
  begun : Update → ℕ → Report
  progressed : ℕ → ℕ → Report

unfoldable pub report_step : Report → Item → Item
report_step (begun base now) it = begin base now it
report_step (progressed sent now) it = progress sent now it

unfoldable pub reports : List Report → Item → Item
reports [] it = it
reports (r ∷ rs) it = reports rs (report_step r it)

-- Only `finish` makes an update that is done.
abbrev pub IsPartial : Report → Type 0
IsPartial (begun base now) = base.done ≡ false
IsPartial (progressed sent now) = Unit

abbrev pub IsOpen : Update → Type 0
IsOpen u = u.done ≡ false

-- Open updates, then the one of the entry.
pub record Ended (e : Entry) (us : List Update) : Type 0 where
  pub front : List Update
  pub final : Update
  pub order : us ≡ front ++ final ∷ []
  pub open_before : All IsOpen front
  pub ended : final.done ≡ true
  pub same_status : final.status ≡ e.status
  pub same_error : final.error ≡ e.error

pub record IsRunning (it : Item) : Type 0 where
  pub going : it.done ≡ false
  pub base_open : IsOpen it.base
  pub all_open : All IsOpen it.shown

abbrev with_update : Update → Item → Item
with_update u it = record it { done = u.done; shown = it.shown ++ u ∷ [] }

emit_locked-running :
    (u : Update) (it : Item) → it.done ≡ false → emit_locked u it ≡ with_update u it
unfolding emit_locked
emit_locked-running u it e = ground (arith, e)

emit_locked-ended : (u : Update) (it : Item) → it.done ≡ true → emit_locked u it ≡ it
unfolding emit_locked
emit_locked-ended u it e = ground (arith, e)

emit_locked-IsRunning :
    (u : Update) (it : Item) → IsOpen u → IsRunning it → IsRunning (emit_locked u it)
emit_locked-IsRunning u it o h = subst IsRunning (sym (emit_locked-running u it h.going)) (record {
  going = o;
  base_open = h.base_open;
  all_open = All-append IsOpen it.shown (u ∷ []) (o, tt) h.all_open;
})

pub report_step-IsRunning :
    (r : Report) (it : Item) → IsPartial r → IsRunning it → IsRunning (report_step r it)
unfolding report_step begin progress
report_step-IsRunning (begun base now) it p h =
    emit_locked-IsRunning base (record it { base = base; last = now }) p
      (record { going = h.going; base_open = p; all_open = h.all_open })
report_step-IsRunning (progressed sent now) it p h =
    elim (Bool-cases (ltb (now - it.last) progress_interval)) [
      | inl e ↦
          simp (e, report_step, progress)
            (record { going = h.going; base_open = h.base_open; all_open = h.all_open })
      | inr e ↦
          simp (e, report_step, progress)
            (emit_locked-IsRunning (record it.base { sent = sent })
              (record it { sent = sent; last = now }) h.base_open
              (record { going = h.going; base_open = h.base_open; all_open = h.all_open }))
    ]

reports-IsRunning :
    (rs : List Report) (it : Item) → All IsPartial rs → IsRunning it → IsRunning (reports rs it)
unfolding reports
reports-IsRunning [] it p h = h
reports-IsRunning (r ∷ rs) it p h =
    reports-IsRunning rs (report_step r it) p.1 (report_step-IsRunning r it p.0 h)

-- Once an item is done, its updates are final.
pub report_step_done :
    (r : Report) (it : Item)
    → it.done ≡ true
    → ((report_step r it).shown ≡ it.shown) × ((report_step r it).done ≡ true)
unfolding report_step begin progress
report_step_done (begun base now) it d =
    let same = emit_locked-ended base (record it { base = base; last = now }) d in
    (ap (λ (i : Item). i.shown) same, ap (λ (i : Item). i.done) same ∙ d)
report_step_done (progressed sent now) it d =
    elim (Bool-cases (ltb (now - it.last) progress_interval)) [
      | inl e ↦ simp (e, report_step, progress) (refl, d)
      | inr e ↦
          let same =
            emit_locked-ended (record it.base { sent = sent })
              (record it { sent = sent; last = now }) d in
          simp (e, report_step, progress)
            (ap (λ (i : Item). i.shown) same, ap (λ (i : Item). i.done) same ∙ d)
    ]

reports_done : (rs : List Report) (it : Item) → it.done ≡ true → (reports rs it).shown ≡ it.shown
unfolding reports
reports_done [] it d = refl
reports_done (r ∷ rs) it d =
    let (same, still) = report_step_done r it d in reports_done rs (report_step r it) still ∙ same

pub finish-Ended :
    (e : Entry) (it : Item)
    → IsRunning it
    → ((finish e it).done ≡ true) × Ended e (finish e it).shown
unfolding finish
finish-Ended e it h =
    subst (λ (i : Item). (i.done ≡ true) × Ended e i.shown) (sym (emit_locked-running _ it h.going))
      (
        refl,
        record {
          front = it.shown;
          final = _;
          order = refl;
          open_before = h.all_open;
          ended = refl;
          same_status = refl;
          same_error = refl;
        },
      )

-- However the reports of an item are interleaved, also those that come after its end, its updates
-- are any number of partial ones and then exactly one that is done, with the outcome of the entry
-- that was recorded.
finish-reports :
    (before after : List Report) (e : Entry) (it : Item)
    → it.done ≡ false
    → IsOpen it.base
    → it.shown ≡ []
    → All IsPartial before
    → Ended e (reports after (finish e (reports before it))).shown
finish-reports before after e it fresh open_base none_shown partial =
    let running = reports-IsRunning before it partial (record {
      going = fresh;
      base_open = open_base;
      all_open = subst (All IsOpen) (sym none_shown) tt;
    }) in
    let (ended, last) = finish-Ended e (reports before it) running in
    subst (Ended e) (sym (reports_done after (finish e (reports before it)) ended)) last
