-- ===== src/Transfer/Queue/Recorded.antt =====
-- The entries that the queue and the messages record.
pub mod Always
use lanxfer.Base.{
  ℕ, ◌≤◌, ◌≡◌, ◌^◌, inl, inr, refl, Bool, true, none, Text, Bool-cases, length, Result, ok, err,
}
use lanxfer.History.{Entry, validate, stamp, kind_folder}
use lanxfer.History.Valid.{validate-IsWritable_iff}
use lanxfer.Presence.{Peer}
use lanxfer.Transfer.Queue.{Os, Job}
use lanxfer.Transfer.Queue.Worker.{Info, Callbacks, Outcome, stat_kind, unsent_entry, outcome_entry}
use lanxfer.Transfer.Queue.Texts.{Call, say_to}
use lanxfer.Transfer.Writable.{entries-validate}

folder-validate :
    (now : ℕ) (e : Entry)
    → validate (stamp now e) ≡ ok tt
    → validate (stamp now (record e { kind = kind_folder })) ≡ ok tt
folder-validate now e h =
    let w = (validate-IsWritable_iff (stamp now e)).0 h in
    (validate-IsWritable_iff (stamp now (record e { kind = kind_folder }))).1 (
      unfold stamp in
      record {
        current = refl;
        directed = w.directed;
        of_kind = inr (inr refl);
        ended = w.ended;
        bounded = w.bounded;
      })

sized-validate :
    (now size : ℕ) (e : Entry)
    → validate (stamp now e) ≡ ok tt
    → validate (stamp now (record e { size = size })) ≡ ok tt
sized-validate now size e h =
    let w = (validate-IsWritable_iff (stamp now e)).0 h in
    (validate-IsWritable_iff (stamp now (record e { size = size }))).1 (
      unfold stamp in
      record {
        current = refl;
        directed = w.directed;
        of_kind = w.of_kind;
        ended = w.ended;
        bounded = w.bounded;
      })

stat_kind-validate :
    (now : ℕ) (stat : Result Text Info) (e : Entry)
    → validate (stamp now e) ≡ ok tt
    → validate (stamp now (stat_kind stat e)) ≡ ok tt
unfolding stat_kind
stat_kind-validate now (err x) e h = h
stat_kind-validate now (ok info) e h = elim (Bool-cases info.is_dir) [
  | inl d ↦ rw (d, stat_kind) (folder-validate now e h)
  | inr d ↦ rw (d, stat_kind) (sized-validate now info.size e h)
]

pub unsent_entry-validate :
    (os : Os) (p : Peer) (job : Job) (stat : Result Text Info) (now : ℕ)
    → validate (stamp now (unsent_entry os p job stat)) ≡ ok tt
unfolding unsent_entry
unsent_entry-validate os p job stat now =
    stat_kind-validate now stat _ ((entries-validate os.show true _ none _ now).0 _ _ 0 none)

pub outcome_entry-validate :
    (os : Os) (cancelled : Bool) (job : Job) (o : Outcome) (now : ℕ)
    → validate (stamp now (outcome_entry os cancelled job o)) ≡ ok tt
unfolding outcome_entry
outcome_entry-validate os cancelled job o now =
    let h = (entries-validate os.show cancelled o.tg o.res o.error now).0 _ _ o.size o.plan in
    elim (Bool-cases o.folder) [
      | inl d ↦ rw (d, outcome_entry) (folder-validate now _ h)
      | inr d ↦ rw (d, outcome_entry) h
    ]

pub said-validate :
    (os : Os) (now : ℕ) (cb : Callbacks) (show_duration : ℕ → Text) (timeout : ℕ) (p : Peer)
    (text : Text) (c : Call)
    → length text ≤ 2 ^ 20
    → let (error, e, notes) = say_to os cb show_duration timeout p text c in
      validate (stamp now e) ≡ ok tt
unfolding say_to
said-validate os now cb show_duration timeout p text c t =
    (entries-validate os.show c.stopped _ _ _ now).1 text t
