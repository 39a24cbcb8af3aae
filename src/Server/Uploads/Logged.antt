-- ===== src/Server/Uploads/Logged.antt =====
-- An upload in the history file.
use lanxfer.Base.{
  ◌≡◌, refl, sym, ap, subst, ◌∙◌, inl, inr, Bool, true, [], ◌∷◌, ◌++◌, none, some, Text, arith,
  length, Result, ok, err, if◌then◌else◌,
}
use lanxfer.History.{Entry, Codec, AppendError, append, read_all, stamp, newline}
use lanxfer.History.Valid.{IsWritable}
use lanxfer.History.Append.{Added, AppendOutcome, append-AppendOutcome, append_total, IsLine}
use lanxfer.Server.Storage.Save.{IsFresh}
use lanxfer.Server.Requests.{Config, Env, World, Request, Response, sender_of, with_sender}
use lanxfer.Server.Uploads.{file_entry, handle_put}
use lanxfer.Server.Uploads.Outcome.{handle_put-PutOutcome}

-- encoding/json and the file system serve one entry.
pub record Recordable (env : Env) (e : Entry) : Type 0 where
  pub line : Text
  pub encoded : env.codec.encode e ≡ some line
  pub blank : (l : Text) → env.codec.decode (l ++ newline ∷ []) ≡ env.codec.decode l
  pub is_line : IsLine env.codec blank e line
  pub opens : env.history_fs.open_ok ≡ true
  pub inspects : env.history_fs.inspect_ok ≡ true
  pub writes : env.history_fs.write_cut ≡ none
  pub closes : env.history_fs.close_ok ≡ true

AppendOutcome-ok :
    (c : Codec) (e : Entry) (file : Text) (res : Result AppendError (Unit {0}) × Text)
    → AppendOutcome c e file res
    → res.0 ≡ ok tt
    → Added c e file res.1
AppendOutcome-ok c e file (ok _, after) o h = o
AppendOutcome-ok c e file (err bad, after) o h = cc

append-Recordable :
    (env : Env) (e : Entry) (file : Text)
    → IsWritable (stamp env.now e)
    → Recordable env (stamp env.now e)
    → Added env.codec (stamp env.now e) file (append env.codec env.history_fs env.now e file).1
append-Recordable env e file w k =
    let res = append env.codec env.history_fs env.now e file in
    let done : res.0 ≡ ok tt =
      append_total env.codec env.history_fs env.now e file k.line w k.encoded k.opens k.writes
        k.closes in
    AppendOutcome-ok env.codec (stamp env.now e) file res
      (append-AppendOutcome env.codec k.blank env.history_fs env.now e file k.inspects (λ l j.
        let same : k.line ≡ l = cc (j, k.encoded) in
        subst (IsLine env.codec k.blank (stamp env.now e)) same k.is_line))
      done

-- The entry of an upload, as the history keeps it.
abbrev pub upload_entry : Env → Request → Text → Entry
upload_entry env r final =
    stamp env.now
      (with_sender env (sender_of env.net r) (file_entry env r.name final (length r.body)))

upload_entry-IsWritable :
    (env : Env) (r : Request) (final : Text) → IsWritable (upload_entry env r final)
unfolding stamp with_sender file_entry
upload_entry-IsWritable env r final = record {
  current = refl;
  directed = inl refl;
  of_kind = inr (inl refl);
  ended = inl refl;
  bounded = ground arith;
}

pick_true : {b : Bool} → b ≡ true → (x y : Text) → (if b then x else y) ≡ x
pick_true e x y = rw e refl

logged_entry :
    (env : Env) (r : Request) (before after : Text) (final : Text)
    → Recordable env (upload_entry env r final)
    → after
      ≡ (append env.codec env.history_fs env.now
          (with_sender env (sender_of env.net r) (file_entry env r.name final (length r.body)))
          before).1
    → read_all env.codec after ≡ read_all env.codec before ++ upload_entry env r final ∷ []
logged_entry env r before after final k e =
    ap (read_all env.codec) e
    ∙ append-Recordable env
        (with_sender env (sender_of env.net r) (file_entry env r.name final (length r.body))) before
        (upload_entry-IsWritable env r final) k

-- After a PUT that is answered with 201, the history file reads as before and then has one more
-- entry, the one of the upload with its sender, if there is a history and JSON, the file and the disk
-- serve that entry. The operating system is assumed to make temporary names that are not in use, and
-- not to fail at removing the reserved placeholder.
pub handle_put-read_all :
    (cfg : Config) (env : Env) (r : Request) (w : World) (final : Text)
    → IsFresh env.sys w.dir
    → env.sys.remove_ok ≡ true
    → cfg.has_history ≡ true
    → Recordable env (upload_entry env r final)
    → (handle_put cfg env r w).0 ≡ record { status = 201; reply = final }
    → read_all env.codec (handle_put cfg env r w).1.history
      ≡ read_all env.codec w.history ++ upload_entry env r final ∷ []
handle_put-read_all cfg env r w final fresh removes has k created =
    elim (handle_put-PutOutcome cfg env r w fresh removes) [
      | inr (other, same) ↦ absurd (other (ap (λ (x : Response). x.status) created))
      | inl (got, answer, len, fits, ended, receipt) ↦
          let named : got ≡ final = ap (λ (x : Response). x.reply) (sym answer ∙ created) in
          logged_entry env r w.history (handle_put cfg env r w).1.history final k (
            receipt.1.logged
            ∙ pick_true has _ _
            ∙ ap
                (λ f.
                  (append env.codec env.history_fs env.now
                    (with_sender env (sender_of env.net r)
                      (file_entry env r.name f (length r.body)))
                    w.history).1)
                named)
    ]
