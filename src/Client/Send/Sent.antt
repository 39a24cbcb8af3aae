-- ===== src/Client/Send/Sent.antt =====
-- A send of a file or a folder, and the receiver that answers it.
use lanxfer.Base.{
  ℕ, take, ◌≤◌, ◌≡◌, ◌≢◌, ◌⊎◌, refl, sym, ap, subst, ◌∙◌, inl, inr, Bool, true, false, not, [], ◌∷◌,
  ◌++◌, Option, none, some, Text, length, arith, if◌then◌else◌, Result, ok, err,
}
use lanxfer.History.{newline}
use lanxfer.Server.Storage.{file}
use lanxfer.Server.Storage.Save.{IsFresh}
use lanxfer.Server.Requests.{World, Response, put_file}
use lanxfer.Server.Uploads.{file_entry}
use lanxfer.Server.Uploads.Outcome.{PutOutcome, handle_put-PutOutcome}
use lanxfer.Server.Uploads.Outcome.Receipts.{Receipt, Kept, kept}
use lanxfer.Server.Handler.{dispatch}
use lanxfer.Client.Send.Receiver.{Connection, carried, reached, reply_of, answer_to, served}
use lanxfer.Client.Send.{
  SendResult, SendOptions, Outgoing, Answer, SendError, LocalFile, send_result, file_answer,
  bad_request, send_opened, send_examined, send, max_reply, outgoing, answered,
}

file_answer-created :
    (trim_space : Text → Text) (size : ℕ) (a : Answer)
    → a.status ≡ 201
    → file_answer trim_space size (some a) ≡ ok (send_result trim_space size a)
unfolding file_answer
file_answer-created trim_space size a h = ground (arith, h)

file_answer-refused :
    (trim_space : Text → Text) (size : ℕ) (a : Answer)
    → a.status ≢ 201
    → file_answer trim_space size (some a) ≡ err (answered a.status)
unfolding file_answer
file_answer-refused trim_space size a h = ground (arith, h)

send-opened :
    (trim_space : Text → Text) (is_valid : Outgoing → Bool) (exchange : Outgoing → Option Answer)
    (f : LocalFile) (name : Text) (opts : SendOptions) (size : ℕ)
    → f.stat ≡ some (true, size)
    → f.opens ≡ true
    → is_valid (outgoing put_file name size opts) ≡ true
    → send trim_space is_valid exchange f name opts
      ≡ file_answer trim_space size (exchange (outgoing put_file name size opts))
unfolding send_opened send_examined send
send-opened trim_space is_valid exchange f name opts size s o v =
    ap (send_examined trim_space is_valid exchange f.opens name opts) s
    ∙ ap (λ b. send_opened trim_space is_valid exchange b name opts true size) o
    ∙ ap
        (λ b.
          if not b
          then err bad_request
          else file_answer trim_space size (exchange (outgoing put_file name size opts)))
        v

module _ (trim_space : Text → Text) (is_valid : Outgoing → Bool) (c : Connection) (name : Text)
    (opts : SendOptions) where
  abbrev pub file_request : Outgoing
  file_request = outgoing put_file name (length c.body) opts

  -- The file of the body was received under a free name that the result tells, or the send failed
  -- and nothing has changed but for what could not be closed or removed.
  abbrev pub SendOutcome : Result SendError SendResult → Response × World → Type 0
  SendOutcome res after =
      ((got : SendResult) × (final : Text) × (res ≡ ok got)
        × (got.remote_name ≡ trim_space (take max_reply (final ++ newline ∷ [])))
        × (got.size ≡ length c.body)
        × (c.body ≢ [])
        × (length c.body ≤ c.cfg.max_size)
        × Receipt c.cfg c.env (carried c file_request) (file c.body)
            (file_entry c.env name final (length c.body)) final c.world after.1)
      ⊎ ((e : SendError) × (res ≡ err e) × Kept c.env.sys false c.world after.1)

  answered-SendOutcome :
      (after : Response × World)
      → c.declare 0 ≡ none
      → PutOutcome c.cfg c.env (carried c file_request) c.world after
      → SendOutcome (file_answer trim_space (length c.body) (some (reply_of c after.0))) after
  unfolding outgoing send_result
  answered-SendOutcome after unknown (inl (final, e, len, fits, whole, got)) = inl (
    send_result trim_space (length c.body) (reply_of c after.0),
    final,
    file_answer-created trim_space (length c.body) (reply_of c after.0)
        (ap (λ (r : Response). r.status) e),
    ap (λ (r : Response). trim_space (take max_reply (r.reply ++ newline ∷ []))) e,
    refl,
    (λ z. cc (sym unknown ∙ ap (λ (b : Text). c.declare (length b)) (sym z) ∙ len)),
    fits,
    got,
  )
  answered-SendOutcome after unknown (inr (other, same)) = inr (
    answered after.0.status,
    file_answer-refused trim_space (length c.body) (reply_of c after.0) other,
    same,
  )

  -- If the request and the answer of the receiver arrive whole, Send of a file that is regular, can
  -- be read and keeps its size while it is sent either returns without an error, and then the
  -- receiver has the bytes of the file, which are not none, under a name that was free and that the
  -- result tells but for spaces at its ends, and has recorded it; or it returns an error, and then
  -- the receiver has changed nothing, but that an empty placeholder may stay under one free name if
  -- its close failed, and the temporary file if its removal failed. net/http is assumed to send a
  -- request that has a body and length 0 without a length, and the receiver's system to make
  -- temporary names that are not in use and not to fail at removing a placeholder that it closed.
  pub send-SendOutcome :
      (f : LocalFile)
      → f.stat ≡ some (true, length c.body)
      → f.opens ≡ true
      → is_valid file_request ≡ true
      → c.declare 0 ≡ none
      → IsFresh c.env.sys c.world.dir
      → c.env.sys.remove_ok ≡ true
      → SendOutcome (send trim_space is_valid (answer_to c) f name opts) (reached c file_request)
  unfolding outgoing dispatch
  send-SendOutcome f s o v unknown fresh removes =
      subst (λ (res : Result SendError SendResult). SendOutcome res (reached c file_request))
        (sym (send-opened trim_space is_valid (answer_to c) f name opts (length c.body) s o v))
        (answered-SendOutcome (reached c file_request) unknown (
          served (PutOutcome c.cfg c.env (carried c file_request) c.world) c file_request
            (inr (ground arith, kept c.env.sys false c.world))
            (handle_put-PutOutcome c.cfg c.env (carried c file_request) c.world fresh removes)))
