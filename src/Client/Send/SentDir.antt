-- ===== src/Client/Send/SentDir.antt =====
-- A send of a folder, and the receiver that answers it.
use lanxfer.Base.{
  ℕ, take, ◌≤◌, ◌≡◌, ◌≢◌, ◌⊎◌, refl, sym, ap, subst, ◌∙◌, inl, inr, Bool, true, [], ◌∷◌, ◌++◌, some,
  Text, ◌==◌, arith, Bool-cases, Result, ok, err,
}
use lanxfer.History.{newline}
use lanxfer.Server.Storage.{folder}
use lanxfer.Server.Storage.Save.{IsFresh}
use lanxfer.Server.Extract.{Extractor}
use lanxfer.Server.Extract.Growth.{IsBounded}
use lanxfer.Server.Extract.Unpacked.{Unpacked}
use lanxfer.Server.SaveDir.{Received}
use lanxfer.Server.Requests.{Response, World, put_dir}
use lanxfer.Server.Uploads.{folder_entry}
use lanxfer.Server.Uploads.Outcome.{PutDirOutcome, handle_put_dir-PutDirOutcome}
use lanxfer.Server.Uploads.Outcome.Receipts.{Receipt, Kept, kept}
use lanxfer.Server.Handler.{dispatch}
use lanxfer.Client.{DirPlan}
use lanxfer.Client.Send.Receiver.{Connection, carried, reached, reply_of, answer_to, served}
use lanxfer.Client.Send.{
  SendResult, SendOptions, Outgoing, Answer, SendError, WriteEnd, send_result, dir_answer, send_dir,
  max_reply, outgoing, answered, dirs_unsupported,
}

module _ (trim_space : Text → Text) (size : ℕ) (end : WriteEnd) (a : Answer) where
  dir_answer-created :
      a.status ≡ 201 → dir_answer trim_space size end (some a) ≡ ok (send_result trim_space size a)
  unfolding dir_answer
  dir_answer-created h = ground (arith, h)

  dir_answer-refused :
      a.status ≢ 201 → (e : SendError) × (dir_answer trim_space size end (some a) ≡ err e)
  unfolding dir_answer
  dir_answer-refused h = elim (Bool-cases (a.status == 404)) [
    | inl m ↦ (dirs_unsupported, ground (arith, h, m))
    | inr m ↦ (answered a.status, ground (arith, h, m))
  ]

module _ (trim_space : Text → Text) (is_valid : Outgoing → Bool) (c : Connection) (plan : DirPlan)
    (opts : SendOptions) where
  abbrev pub dir_request : Outgoing
  dir_request = outgoing put_dir plan.name plan.tar_size opts

  -- The folder was received under a free name that the result tells, or the send failed and nothing
  -- has changed but for what could not be removed of the temporary folder.
  abbrev pub SendDirOutcome : Result SendError SendResult → Response × World → Type 0
  SendDirOutcome res after =
      ((got : SendResult) × (there : Received) × (ex : Extractor) × (res ≡ ok got)
        × (got.remote_name ≡ trim_space (take max_reply (there.final ++ newline ∷ [])))
        × (got.size ≡ plan.tar_size)
        × (c.stream.total ≡ plan.tar_size)
        × (plan.tar_size ≤ c.cfg.max_size)
        × Unpacked c.env.fs plan.tar_size there.files ex
        × (there.content ≡ ex.written)
        × Receipt c.cfg c.env (carried c dir_request) (folder ex.root)
            (folder_entry c.env plan.name there) there.final c.world after.1)
      ⊎ ((e : SendError) × (res ≡ err e) × Kept c.env.sys true c.world after.1)

  answered-SendDirOutcome :
      (end : WriteEnd) (after : Response × World)
      → c.declare plan.tar_size ≡ some plan.tar_size
      → PutDirOutcome c.cfg c.env (carried c dir_request) c.world after
      → SendDirOutcome (dir_answer trim_space plan.tar_size end (some (reply_of c after.0))) after
  unfolding outgoing send_result
  answered-SendDirOutcome end after declares
        (inl (there, ex, e, len, fits, unpacked, content, got)) =
      let whole : c.stream.total ≡ plan.tar_size = cc (sym declares ∙ len) in
      inl (
        send_result trim_space plan.tar_size (reply_of c after.0),
        there,
        ex,
        dir_answer-created trim_space plan.tar_size end (reply_of c after.0)
            (ap (λ (r : Response). r.status) e),
        ap (λ (r : Response). trim_space (take max_reply (r.reply ++ newline ∷ []))) e,
        refl,
        whole,
        subst (λ (n : ℕ). n ≤ c.cfg.max_size) whole fits,
        subst (λ (n : ℕ). Unpacked c.env.fs n there.files ex) whole unpacked,
        content,
        got,
      )
  answered-SendDirOutcome end after declares (inr (other, same)) =
      let (e, failed) =
        dir_answer-refused trim_space plan.tar_size end (reply_of c after.0) other in
      inr (e, failed, same)

  -- If the request and the answer of the receiver arrive whole, SendDir of a scanned folder either
  -- returns without an error, and then the receiver read a stream of exactly the planned length and
  -- has what it unpacked, within the limits of the stream, under a name that was free and that the
  -- result tells but for spaces at its ends, and has recorded it; or it returns an error, and then
  -- the receiver has changed nothing, but that what could not be removed of the temporary folder may
  -- stay at its name. net/http is assumed to send the length of the plan, the tar reader to yield at
  -- most the bytes that a header declares, and the receiver's system to make temporary names that are
  -- not in use and not to fail at removing the reserved placeholder.
  pub send_dir-SendDirOutcome :
      (end : WriteEnd)
      → is_valid dir_request ≡ true
      → c.declare plan.tar_size ≡ some plan.tar_size
      → IsBounded c.stream.items
      → IsFresh c.env.sys c.world.dir
      → c.env.sys.remove_ok ≡ true
      → SendDirOutcome
          (send_dir trim_space is_valid (answer_to c) plan end opts)
          (reached c dir_request)
  unfolding outgoing dispatch send_dir
  send_dir-SendDirOutcome end v declares bounded fresh removes = rw v (
      answered-SendDirOutcome end (reached c dir_request) declares (
        served (PutDirOutcome c.cfg c.env (carried c dir_request) c.world) c dir_request
          (inr (ground arith, kept c.env.sys true c.world))
          (handle_put_dir-PutDirOutcome c.cfg c.env (carried c dir_request) c.world bounded fresh
            removes)))
