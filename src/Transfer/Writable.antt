-- ===== src/Transfer/Writable.antt =====
-- The entries of sends against the history file.
use lanxfer.Base.{
  ℕ, ◌≤◌, ◌^◌, ◌≡◌, refl, ◌∙◌, ◌⊎◌, inl, inr, Bool, true, false, Option, none, some, Text, arith,
  Bool-cases, length, ok,
}
use lanxfer.Netaddr.{Addr}
use lanxfer.Presence.{has_id}
use lanxfer.History.{
  Entry, validate, stamp, dir_out, kind_text, kind_file, kind_folder, status_ok, status_failed,
  status_cancelled,
}
use lanxfer.History.Valid.{validate-IsWritable_iff}
use lanxfer.Transfer.{
  Target, Answer, Plan, answer_id, fill_outcome, out_entry, with_plan, path_entry, text_entry,
}

-- What an outcome leaves, and the status that it sets.
record IsOutcome (e e' : Entry) : Type 0 where
  same_dir : e'.dir ≡ e.dir
  same_kind : e'.kind ≡ e.kind
  same_text : e'.text ≡ e.text
  ended : (e'.status ≡ status_ok) ⊎ (e'.status ≡ status_failed) ⊎ (e'.status ≡ status_cancelled)

pub record IsSame (e e' : Entry) : Type 0 where
  pub same_dir : e'.dir ≡ e.dir
  pub same_kind : e'.kind ≡ e.kind
  pub same_text : e'.text ≡ e.text

pub answer_id-IsSame : (res : Option Answer) (e : Entry) → IsSame e (answer_id res e)
unfolding answer_id
answer_id-IsSame none e = record { same_dir = refl; same_kind = refl; same_text = refl }
answer_id-IsSame (some res) e = elim (Bool-cases (has_id res.peer_id)) [
  | inl t ↦ simp (t, answer_id) (record { same_dir = refl; same_kind = refl; same_text = refl })
  | inr f ↦ simp (f, answer_id) (record { same_dir = refl; same_kind = refl; same_text = refl })
]

fill_outcome-IsOutcome :
    (cancelled : Bool) (e : Entry) (res : Option Answer) (error : Option Text)
    → IsOutcome e (fill_outcome cancelled e res error)
unfolding fill_outcome
fill_outcome-IsOutcome cancelled e none none = record {
  same_dir = refl;
  same_kind = refl;
  same_text = refl;
  ended = inl refl;
}
fill_outcome-IsOutcome cancelled e (some res) none =
    let s = answer_id-IsSame (some res) e in
    record {
      same_dir = s.same_dir;
      same_kind = s.same_kind;
      same_text = s.same_text;
      ended = inl refl;
    }
fill_outcome-IsOutcome true e res (some message) =
    let s = answer_id-IsSame res e in
    record {
      same_dir = s.same_dir;
      same_kind = s.same_kind;
      same_text = s.same_text;
      ended = inr (inr refl);
    }
fill_outcome-IsOutcome false e res (some message) =
    let s = answer_id-IsSame res e in
    record {
      same_dir = s.same_dir;
      same_kind = s.same_kind;
      same_text = s.same_text;
      ended = inr (inl refl);
    }

outcome_writable :
    (now : ℕ) (e e' : Entry)
    → IsOutcome e e'
    → e.dir ≡ dir_out
    → (e.kind ≡ kind_text) ⊎ (e.kind ≡ kind_file) ⊎ (e.kind ≡ kind_folder)
    → length e.text ≤ 2 ^ 20
    → validate (stamp now e') ≡ ok tt
outcome_writable now e e' o d k t = (validate-IsWritable_iff (stamp now e')).1 (
    unfold stamp in
    record {
      current = refl;
      directed = inr (o.same_dir ∙ d);
      of_kind = elim k [
        | inl a ↦ inl (o.same_kind ∙ a)
        | inr b ↦ elim b [
          | inl a ↦ inr (inl (o.same_kind ∙ a))
          | inr c ↦ inr (inr (o.same_kind ∙ c))
        ]
      ];
      ended = o.ended;
      bounded = ground (arith, t, o.same_text);
    })

path_entry-validate :
    (show : Addr → Text) (cancelled : Bool) (tg : Target) (res : Option Answer)
    (error : Option Text) (now : ℕ) (path name : Text) (size : ℕ) (plan : Option Plan)
    → validate (stamp now (path_entry show cancelled tg path name size plan res error)) ≡ ok tt
unfolding path_entry with_plan out_entry
path_entry-validate show cancelled tg res error now path name size none =
    let e : Entry = record (out_entry show tg) {
      kind = kind_file;
      name = name;
      path = path;
      size = size;
    } in
    outcome_writable now e _ (fill_outcome-IsOutcome cancelled e res error) refl (inr (inl refl))
      (ground arith)
path_entry-validate show cancelled tg res error now path name size (some plan) =
    let e =
      with_plan (some plan)
        (record (out_entry show tg) { kind = kind_file; name = name; path = path; size = size }) in
    outcome_writable now e _ (fill_outcome-IsOutcome cancelled e res error) refl (inr (inr refl))
      (ground arith)

pub entries-validate :
    (show : Addr → Text) (cancelled : Bool) (tg : Target) (res : Option Answer)
    (error : Option Text) (now : ℕ)
    → ((path name : Text) (size : ℕ) (plan : Option Plan)
        → validate (stamp now (path_entry show cancelled tg path name size plan res error)) ≡ ok tt)
      × ((text : Text)
          → length text ≤ 2 ^ 20
          → validate (stamp now (text_entry show cancelled tg text res error)) ≡ ok tt)
unfolding text_entry out_entry
entries-validate show cancelled tg res error now = (
  path_entry-validate show cancelled tg res error now,
  (λ text t.
      let e : Entry = record (out_entry show tg) { kind = kind_text; text = text } in
      outcome_writable now e _ (fill_outcome-IsOutcome cancelled e res error) refl (inl refl) t),
)
