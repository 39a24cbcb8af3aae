-- ===== src/Transfer/Queue/Texts.antt =====
-- internal/transfer: `SendText`.
use lanxfer.Base.{
  ℕ, ◌*◌, ◌≡◌, ◌↔◌, ◌≢◌, ◌⊎◌, refl, ap, sym, subst, ◌∙◌, inl, inr, Bool, true, false, not, ◌&&◌,
  List, [], ◌∷◌, ◌++◌, Option, none, some, Text, codes, if◌then◌else◌, Result, ok, err, arith,
  Bool-cases, ◌==◌,
}
use lanxfer.Presence.{Peer}
use lanxfer.History.{Entry, kind_text, status_ok, status_cancelled}
use lanxfer.Transfer.{Target, Answer, text_entry, out_entry, fill_outcome, answer_id}
use lanxfer.Transfer.Writable.{answer_id-IsSame}
use lanxfer.Transfer.Queue.{Os, Manager, peer_target}
use lanxfer.Transfer.Queue.Worker.{Callbacks, Note, record_entry}
use lanxfer.Transfer.Queue.Orderly.Shape.{record_calls, record_calls-record_entry}

abbrev pub default_text_timeout : ℕ
default_text_timeout = 30 * 1000000000

unfoldable pub text_limit : ℕ → ℕ
text_limit timeout = if timeout == 0 then default_text_timeout else timeout

pub data TextError : Type 0 where
  manager_closed : TextError
  send_failed : Text → TextError

-- What happens during one call: the lookup, the answer to `Say` and its error, whether the deadline
-- ended the call, whether `Close` had been called then and when the entry is made, and the result of
-- Record.
pub record Call : Type 0 where
  pub found : Result Text Target
  pub answer : Option Answer
  pub failure : Option Text
  pub deadline : Bool
  pub stopped_then : Bool
  pub stopped : Bool
  pub stored : Bool

-- The target, the response and the error of the send.
unfoldable pub said : Peer → Call → Result Text Target → Target × Option Answer × Option Text
said p c (ok tg) = (tg, c.answer, c.failure)
said p c (err e) = (peer_target p, none, some e)

unfoldable pub explain : (ℕ → Text) → ℕ → Bool → Option Text → Option Text
explain show_duration limit timed_out none = none
explain show_duration limit timed_out (some e) =
    if timed_out
    then some (codes "no answer within " ++ show_duration limit ++ codes ": " ++ e)
    else some e

unfoldable pub to_error : Option Text → Option TextError
to_error none = none
to_error (some e) = some (send_failed e)

unfoldable pub say_to :
    Os → Callbacks → (ℕ → Text) → ℕ → Peer → Text → Call → Option TextError × Entry × List Note
unfolding said explain to_error text_limit text_entry record_entry
say_to os cb show_duration timeout p text c =
    let (tg, res, failure) = said p c c.found in
    let error =
      explain show_duration (text_limit timeout) (c.deadline && not c.stopped_then) failure in
    let e = text_entry os.show c.stopped tg text res error in
    (to_error error, e, record_entry cb c.stored e)

unfoldable pub send_text :
    Os → Callbacks → (ℕ → Text) → ℕ → Manager → Peer → Text → Call → Option TextError × List Note
unfolding say_to
send_text os cb show_duration timeout m p text c =
    if m.closed
    then (some manager_closed, [])
    else let (error, e, notes) = say_to os cb show_duration timeout p text c in (error, notes)

-- The entry of a message against the error that the caller sees.
pub record Matches (stopped : Bool) (text : Text) (error : Option TextError) (e : Entry)
    : Type 0 where
  pub of_text : (e.kind ≡ kind_text) × (e.text ≡ text)
  pub sent : (error ≡ none) ↔ (e.status ≡ status_ok)
  pub cancelled : (e.status ≡ status_cancelled) ↔ ((error ≢ none) × (stopped ≡ true))
  pub reason : (message : Text) → error ≡ some (send_failed message) → e.error ≡ message

fill_outcome-Matches :
    (stopped : Bool) (text : Text) (e : Entry) (res : Option Answer) (error : Option Text)
    → e.kind ≡ kind_text
    → e.text ≡ text
    → Matches stopped text (to_error error) (fill_outcome stopped e res error)
unfolding fill_outcome to_error answer_id
fill_outcome-Matches stopped text e none none k t = record {
  of_text = (k, t);
  sent = (λ _. refl, λ _. refl);
  cancelled = (λ h. absurd (ground (arith, h)), λ h. absurd (h.0 refl));
  reason = λ message h. absurd (cc);
}
fill_outcome-Matches stopped text e (some res) none k t =
    let s = answer_id-IsSame (some res) e in
    record {
      of_text = (s.same_kind ∙ k, s.same_text ∙ t);
      sent = (λ _. refl, λ _. refl);
      cancelled = (λ h. absurd (ground (arith, h)), λ h. absurd (h.0 refl));
      reason = λ message h. absurd (cc);
    }
fill_outcome-Matches true text e res (some message) k t =
    let s = answer_id-IsSame res e in
    record {
      of_text = (s.same_kind ∙ k, s.same_text ∙ t);
      sent = (λ h. absurd (cc), λ h. absurd (ground (arith, h)));
      cancelled = (λ _. (λ h. absurd (cc), refl), λ _. refl);
      reason = λ message' h. same_message h;
    }
  where
    same_message : {a b : Text} → some (send_failed a) ≡ some (send_failed b) → a ≡ b
    same_message h = cc
fill_outcome-Matches false text e res (some message) k t =
    let s = answer_id-IsSame res e in
    record {
      of_text = (s.same_kind ∙ k, s.same_text ∙ t);
      sent = (λ h. absurd (cc), λ h. absurd (ground (arith, h)));
      cancelled = (λ h. absurd (ground (arith, h)), λ h. absurd (ground (arith, h.1)));
      reason = λ message' h. same_message h;
    }
  where
    same_message : {a b : Text} → some (send_failed a) ≡ some (send_failed b) → a ≡ b
    same_message h = cc

abbrev pub TextOutcome : Callbacks → Manager → Call → Text → Option TextError → List Note → Type 0
TextOutcome cb m c text error notes =
    (m.closed ≡ true) × (error ≡ some manager_closed) × (notes ≡ [])
    ⊎ ((m.closed ≡ false)
        × ((e : Entry) × Matches c.stopped text error e
            × (record_calls notes ≡ (if cb.has_record then e ∷ [] else []))))

module _ (os : Os) (cb : Callbacks) (show_duration : ℕ → Text) (timeout : ℕ) where
  say_to-Matches :
      (p : Peer) (text : Text) (c : Call)
      → let (error, e, notes) = say_to os cb show_duration timeout p text c in
        Matches c.stopped text error e
  unfolding say_to text_entry out_entry
  say_to-Matches p text c = fill_outcome-Matches c.stopped text _ _ _ refl refl

  say_to_notes :
      (p : Peer) (text : Text) (c : Call)
      → let (error, e, notes) = say_to os cb show_duration timeout p text c in
        record_calls notes ≡ (if cb.has_record then e ∷ [] else [])
  unfolding say_to
  say_to_notes p text c = record_calls-record_entry cb c.stored _

  refused :
      (m : Manager) (p : Peer) (text : Text) (c : Call)
      → m.closed ≡ true
      → send_text os cb show_duration timeout m p text c ≡ (some manager_closed, [])
  unfolding send_text
  refused m p text c e = ground (arith, e)

  accepted :
      (m : Manager) (p : Peer) (text : Text) (c : Call)
      → m.closed ≡ false
      → let (error, e, notes) = say_to os cb show_duration timeout p text c in
        send_text os cb show_duration timeout m p text c ≡ (error, notes)
  unfolding send_text
  accepted m p text c e = ground (arith, e)

  -- After Close, `SendText` returns ErrClosed and records nothing. Before, it makes one entry with the
  -- text, which is recorded once if there is a callback for it. The caller sees no error exactly if
  -- the entry says that the message was sent, the entry says that it was cancelled exactly if there
  -- was an error and Close had been called, and otherwise carries the message of the error.
  pub send_text-TextOutcome :
      (m : Manager) (p : Peer) (text : Text) (c : Call)
      → let (error, notes) = send_text os cb show_duration timeout m p text c in
        TextOutcome cb m c text error notes
  send_text-TextOutcome m p text c = elim (Bool-cases m.closed) [
    | inl e ↦ let r = refused m p text c e in inl (e, ap (λ x. x.0) r, ap (λ x. x.1) r)
    | inr e ↦
        let r = accepted m p text c e in
        let entry = (say_to os cb show_duration timeout p text c).1 in
        inr (
          e,
          (
            entry,
            subst (λ error. Matches c.stopped text error entry) (sym (ap (λ x. x.0) r))
                (say_to-Matches p text c),
            ap (λ x. record_calls x.1) r ∙ say_to_notes p text c,
          ),
        )
  ]
