-- ===== src/Server/Messages/Delivered.antt =====
-- What a text message leaves.
pub mod Shown
use lanxfer.Base.{
  ℕ, ◌≤◌, ◌≡◌, ◌≢◌, ◌⊎◌, refl, sym, ap, subst, ◌∙◌, inl, inr, Bool, true, false, [], ◌∷◌, ◌++◌,
  none, some, Text, arith, Bool-cases, Option-cases, append-nil, Result, ok, err, length, ◌==◌,
}
use lanxfer.Netaddr.{AddrPort, unmap}
use lanxfer.History.{Entry, AppendError, append, version}
use lanxfer.Server.Terminal.{format_message}
use lanxfer.Server.Requests.{
  Config, Env, World, Request, Response, only, Limited, limit_read, SenderInfo, sender_of, notify,
}
use lanxfer.Server.Requests.Reports.{Reported, is_sighted, observe_sender-Reported}
use lanxfer.Server.Uploads.Outcome.{limit_read_lem}
use lanxfer.Server.Messages.{
  max_message_size, message_entry, shown, store, told, deliver, answered, handle_text,
  handle_message,
}
use lanxfer.Server.Messages.Delivered.Shown.{
  StoreOutcome, store-StoreOutcome, told-StoreOutcome, MessageOutcome,
}

refused :
    (utf8_valid : Text → Bool) (cfg : Config) (env : Env) (r : Request) (w : World) (status : ℕ)
    → status ≢ 204
    → MessageOutcome utf8_valid cfg env r w (only status, w)
refused utf8_valid cfg env r w status other = inr (
  other,
  record { same_dir = refl; same_printed = refl; same_notices = refl; same_sightings = refl },
  λ h. refl,
)

answered-MessageOutcome :
    (utf8_valid : Text → Bool) (cfg : Config) (env : Env) (r : Request) (w : World)
    (remote : AddrPort) (res : Bool × World)
    → env.net.parse_addr_port r.remote_addr ≡ some remote
    → (length r.body ≢ 0)
      × (length r.body ≤ max_message_size)
      × (r.body_ok ≡ true)
      × (utf8_valid r.body ≡ true)
    → StoreOutcome cfg.inbox_records cfg.has_notify env
        (message_entry env
          (sender_of env.net r).name
          (sender_of env.net r).id
          (unmap remote.addr)
          r.body)
        (sender_of env.net r)
        (format_message
          (env.show_time env.now)
          (sender_of env.net r).name
          (env.net.show (unmap remote.addr))
          r.body)
        w
        res
    → MessageOutcome utf8_valid cfg env r w (answered cfg (sender_of env.net r) res)
unfolding answered
answered-MessageOutcome utf8_valid cfg env r w remote (false, mid) from fit h =
    inr (ground arith, h, λ k. absurd (k refl))
answered-MessageOutcome utf8_valid cfg env r w remote (true, mid) from
      (some_text, fits, ended, valid) (kept, h) =
    inl (
      remote,
      refl,
      from,
      some_text,
      fits,
      ended,
      valid,
      (
        kept,
        observe_sender-Reported cfg.inbox_records cfg.has_notify cfg env _ (sender_of env.net r) _
            mid h,
      ),
    )

delivered-MessageOutcome :
    (utf8_valid : Text → Bool) (cfg : Config) (env : Env) (r : Request) (w : World)
    (remote : AddrPort)
    → env.net.parse_addr_port r.remote_addr ≡ some remote
    → (length r.body ≢ 0)
      × (length r.body ≤ max_message_size)
      × (r.body_ok ≡ true)
      × (utf8_valid r.body ≡ true)
    → MessageOutcome utf8_valid cfg env r w (
        answered cfg (sender_of env.net r) (
          deliver cfg env
            (sender_of env.net r).name
            (sender_of env.net r).id
            (unmap remote.addr)
            r.body
            w))
unfolding deliver
delivered-MessageOutcome utf8_valid cfg env r w remote e fit =
    answered-MessageOutcome utf8_valid cfg env r w remote _ e fit (
      told-StoreOutcome cfg cfg.inbox_records env _ (sender_of env.net r) _ w _
        (store-StoreOutcome cfg.inbox_records env _ (sender_of env.net r) _ w))

module _ (utf8_valid : Text → Bool) (cfg : Config) (env : Env) (r : Request) (got : Limited)
    (w : World) (c : got.complete ≡ true) (n : length got.bytes == 0 ≡ false)
    (v : utf8_valid got.bytes ≡ true) where
  handle_text_unaddressed :
      env.net.parse_addr_port r.remote_addr ≡ none
      → handle_text utf8_valid cfg env r got w ≡ (only 500, w)
  unfolding handle_text
  handle_text_unaddressed e = rw (c, n, v, e, handle_text) refl

  handle_text_valid :
      (remote : AddrPort)
      → env.net.parse_addr_port r.remote_addr ≡ some remote
      → handle_text utf8_valid cfg env r got w
        ≡ answered cfg (sender_of env.net r) (
            deliver cfg env
              (sender_of env.net r).name
              (sender_of env.net r).id
              (unmap remote.addr)
              got.bytes
              w)
  unfolding handle_text
  handle_text_valid remote e = rw (c, n, v, e, handle_text) refl

-- POST /messages: 204 (No Content) is answered exactly for a message that is shown. Then the body
-- was complete, not empty, within 1 MiB and valid UTF-8, and the sender's address could be read; the
-- message was recorded where there is a history, one block is printed after the earlier ones, and
-- the entry goes to the callback and the sender to the list of peers, as configured. Any other
-- answer shows and reports nothing, and only with 500 may the history file have changed.
pub handle_message-MessageOutcome :
    (utf8_valid : Text → Bool) (cfg : Config) (env : Env) (r : Request) (w : World)
    → MessageOutcome utf8_valid cfg env r w (handle_message utf8_valid cfg env r w)
unfolding handle_message handle_text
handle_message-MessageOutcome utf8_valid cfg env r w =
    let got = limit_read max_message_size r.body r.body_ok in
    elim (Bool-cases got.complete) [
      | inr c ↦ elim (Bool-cases got.over) [
        | inl o ↦ rw (c, o) (refused utf8_valid cfg env r w 413 (ground arith))
        | inr o ↦ rw (c, o) (refused utf8_valid cfg env r w 400 (ground arith))
      ]
      | inl c ↦
          let (same, fits, ended) = limit_read_lem max_message_size r.body r.body_ok c in
          elim (Bool-cases (length got.bytes == 0)) [
            | inl n ↦ rw (c, n) (refused utf8_valid cfg env r w 400 (ground arith))
            | inr n ↦ elim (Bool-cases (utf8_valid got.bytes)) [
              | inr v ↦ rw (c, n, v) (refused utf8_valid cfg env r w 400 (ground arith))
              | inl v ↦ elim (Option-cases (env.net.parse_addr_port r.remote_addr)) [
                | inl e ↦
                    subst (MessageOutcome utf8_valid cfg env r w)
                      (sym (handle_text_unaddressed utf8_valid cfg env r got w c n v e))
                      (refused utf8_valid cfg env r w 500 (ground arith))
                | inr (remote, e) ↦
                    subst (MessageOutcome utf8_valid cfg env r w)
                      (sym (
                        handle_text_valid utf8_valid cfg env r got w c n v remote e
                        ∙ ap
                            (λ b. answered cfg (sender_of env.net r) (
                              deliver cfg env (sender_of env.net r).name (sender_of env.net r).id
                                (unmap remote.addr) b w))
                            same))
                      (delivered-MessageOutcome utf8_valid cfg env r w remote e
                        (ground (arith, n, same), fits, ended, ap utf8_valid (sym same) ∙ v))
              ]
            ]
          ]
    ]
