-- ===== src/Server/Uploads/Outcome.antt =====
-- What an upload leaves.
pub mod Receipts
use lanxfer.Base.{
  ℕ, ◌≤◌, ◌≡◌, ◌≢◌, ◌⊎◌, refl, sym, ap, subst, subst₂, ◌∙◌, inl, inr, Bool, true, false, some, Text,
  arith, Bool-cases, Option-cases, Result-unit-cases, Result, ok, err, length, ltb,
}
use lanxfer.History.{Entry}
use lanxfer.Server.Filename.{validate_filename}
use lanxfer.Server.Storage.{
  Dir, Node, file, folder, SaveError, invalid_filename, create_temp, write, incomplete, close_temp,
  reserve_failed, finalize_failed, collisions, save,
}
use lanxfer.Server.Storage.Save.{IsFresh, Stored, SaveOutcome, save-SaveOutcome}
use lanxfer.Server.Extract.Growth.{IsBounded}
use lanxfer.Server.Extract.Unpacked.{Unpacked}
use lanxfer.Server.Extract.{Extractor}
use lanxfer.Server.SaveDir.{SaveDirError, bad_stream, not_saved, Received, save_dir}
use lanxfer.Server.SaveDir.Whole.{SaveDirOutcome, save_dir-SaveDirOutcome}
use lanxfer.Server.Requests.{
  Config, Env, World, Request, Response, Limited, limit_read, sender_of, with_sender,
}
use lanxfer.Server.Requests.Reports.{Reported, is_sighted, report-Reported}
use lanxfer.Server.Uploads.{
  save_status, file_entry, folder_entry, received, file_saved, put_body, handle_put,
  save_dir_status, dir_saved, handle_put_dir,
}
use lanxfer.Server.Uploads.Outcome.Receipts.{
  kept, Receipt, received-Receipt, save_status_lem, save_dir_status_lem, Refused,
}

abbrev pub PutOutcome : Config → Env → Request → World → Response × World → Type 0
PutOutcome cfg env r w res =
    ((final : Text) × (res.0 ≡ record { status = 201; reply = final })
      × (r.content_length ≡ some (length r.body))
      × (length r.body ≤ cfg.max_size)
      × (r.body_ok ≡ true)
      × Receipt cfg env r (file r.body) (file_entry env r.name final (length r.body)) final w res.1)
    ⊎ Refused env.sys false w res

pub limit_read_lem :
    (max : ℕ) (body : Text) (body_ok : Bool)
    → (limit_read max body body_ok).complete ≡ true
    → ((limit_read max body body_ok).bytes ≡ body) × (length body ≤ max) × (body_ok ≡ true)
unfolding limit_read
limit_read_lem max body body_ok h = elim (Bool-cases (ltb max (length body))) [
  | inl over ↦ absurd (ground (arith, h, over))
  | inr fits ↦ (ground (arith, h, fits), ground (arith, h, fits), ground (arith, h, fits))
]

file_saved-PutOutcome :
    (cfg : Config) (env : Env) (r : Request) (size : ℕ) (b : Limited) (w : World)
    (res : Result SaveError Text × Dir)
    → b ≡ limit_read cfg.max_size r.body r.body_ok
    → r.content_length ≡ some size
    → SaveOutcome env.sys env.unicode env.goos r.name b.bytes b.complete size w.dir res
    → PutOutcome cfg env r w (file_saved cfg env r b w res)
unfolding file_saved received
file_saved-PutOutcome cfg env r size b w (ok got, d) from len
      (inl (final, e, valid, reads, whole, stored)) =
    let all : b.complete ≡ true
        → (b.bytes ≡ r.body) × (length r.body ≤ cfg.max_size) × (r.body_ok ≡ true) =
      subst
        (λ (l : Limited).
          l.complete ≡ true
          → (l.bytes ≡ r.body) × (length r.body ≤ cfg.max_size) × (r.body_ok ≡ true))
        (sym from) (limit_read_lem cfg.max_size r.body r.body_ok) in
    let (same, fits, ended) = all reads in
    let named : final ≡ got = cc e in
    inl (
      got,
      refl,
      len ∙ ap some (sym whole ∙ ap length same),
      fits,
      ended,
      subst
          (λ x.
            Receipt cfg env r (file x) (file_entry env r.name got (length x)) got w
              (received cfg env r (file_entry env r.name got (length b.bytes)) got
                (record w { dir = d })).1)
          same
          (received-Receipt cfg env r (file b.bytes) (file_entry env r.name got (length b.bytes))
            got w d (subst (λ f. Stored (file b.bytes) w.dir f d) named stored)),
    )
file_saved-PutOutcome cfg env r size b w (ok got, d) from len (inr (e, bad, same)) = cc
file_saved-PutOutcome cfg env r size b w (err e, d) from len (inl (final, ok_e, v, c, l, st)) = cc
file_saved-PutOutcome cfg env r size b w (err e, d) from len (inr (e', bad, same)) = inr (
  save_status_lem b.over e,
  record {
    same_dir = same;
    same_history = refl;
    same_printed = refl;
    same_notices = refl;
    same_sightings = refl;
  },
)

handle_put_valid :
    (cfg : Config) (env : Env) (r : Request) (w : World) (size : ℕ)
    → r.content_length ≡ some size
    → ltb cfg.max_size size ≡ false
    → validate_filename env.unicode r.name env.goos ≡ ok tt
    → handle_put cfg env r w ≡ put_body cfg env r size (limit_read cfg.max_size r.body r.body_ok) w
unfolding handle_put
handle_put_valid cfg env r w size e fits v = ground (arith, e, fits, v)

-- PUT /files: 201 (Created) is answered exactly for a receipt. Then the body was complete, of exactly
-- the declared length and within the limit, the file stands under the name in the answer, which was
-- free, every other file is as before, and one entry with its name and length goes to the history and
-- the callback, as configured, and the sender to the list of peers. Any other answer leaves the
-- folder, the history and the callbacks as they were, but that an empty placeholder may stay under
-- one free name if its close failed, and the temporary file if its removal failed. The operating
-- system is assumed to make temporary names that are not in use, and not to fail at removing a
-- placeholder that it closed.
pub handle_put-PutOutcome :
    (cfg : Config) (env : Env) (r : Request) (w : World)
    → IsFresh env.sys w.dir
    → env.sys.remove_ok ≡ true
    → PutOutcome cfg env r w (handle_put cfg env r w)
unfolding handle_put put_body
handle_put-PutOutcome cfg env r w fresh removes =
    let body = limit_read cfg.max_size r.body r.body_ok in
    elim (Option-cases r.content_length) [
      | inl e ↦ simp (e, handle_put) (inr (ground arith, kept env.sys false w))
      | inr (size, e) ↦ elim (Bool-cases (ltb cfg.max_size size)) [
        | inl over ↦ simp (e, over, handle_put) (inr (ground arith, kept env.sys false w))
        | inr fits ↦ elim (Result-unit-cases (validate_filename env.unicode r.name env.goos)) [
          | inr (bad, v) ↦ simp (e, fits, v, handle_put) (inr (ground arith, kept env.sys false w))
          | inl v ↦
              subst (PutOutcome cfg env r w) (sym (handle_put_valid cfg env r w size e fits v)) (
                file_saved-PutOutcome cfg env r size body w
                  (save env.sys env.unicode env.goos r.name body.bytes body.complete size w.dir)
                  refl e
                  (save-SaveOutcome env.sys env.unicode env.goos r.name body.bytes body.complete
                    size w.dir fresh removes))
        ]
      ]
    ]

abbrev pub PutDirOutcome : Config → Env → Request → World → Response × World → Type 0
PutDirOutcome cfg env r w res =
    ((got : Received) × (ex : Extractor) × (res.0 ≡ record { status = 201; reply = got.final })
      × (r.content_length ≡ some r.stream.total)
      × (r.stream.total ≤ cfg.max_size)
      × Unpacked env.fs r.stream.total got.files ex
      × (got.content ≡ ex.written)
      × Receipt cfg env r (folder ex.root) (folder_entry env r.name got) got.final w res.1)
    ⊎ Refused env.sys true w res

dir_saved-PutDirOutcome :
    (cfg : Config) (env : Env) (r : Request) (size : ℕ) (w : World)
    (res : Result SaveDirError Received × Dir)
    → r.content_length ≡ some size
    → size ≤ cfg.max_size
    → SaveDirOutcome env.sys env.fs env.unicode env.goos r.name r.stream size w.dir res
    → PutDirOutcome cfg env r w (dir_saved cfg env r w res)
unfolding dir_saved received
dir_saved-PutDirOutcome cfg env r size w (ok got, d) len fits
      (inl (got', ex, e, valid, un, whole, content, stored)) =
    let named : got' ≡ got = cc e in
    inl (
      got,
      ex,
      refl,
      len ∙ ap some (sym whole),
      subst (λ n. n ≤ cfg.max_size) (sym whole) fits,
      subst₂ (λ n g. Unpacked env.fs n g ex) (sym whole) (ap (λ (g : Received). g.files) named) un,
      ap (λ (g : Received). g.content) (sym named) ∙ content,
      received-Receipt cfg env r (folder ex.root) (folder_entry env r.name got) got.final w d (
          subst (λ f. Stored (folder ex.root) w.dir f d) (ap (λ (g : Received). g.final) named)
            stored),
    )
dir_saved-PutDirOutcome cfg env r size w (ok got, d) len fits (inr (e, bad, same)) = cc
dir_saved-PutDirOutcome cfg env r size w (err e, d) len fits
      (inl (got', ex, ok_e, v, un, t, c, st)) =
    cc
dir_saved-PutDirOutcome cfg env r size w (err e, d) len fits (inr (e', bad, same)) = inr (
  save_dir_status_lem e,
  record {
    same_dir = same;
    same_history = refl;
    same_printed = refl;
    same_notices = refl;
    same_sightings = refl;
  },
)

handle_put_dir_valid :
    (cfg : Config) (env : Env) (r : Request) (w : World) (size : ℕ)
    → r.content_length ≡ some size
    → ltb cfg.max_size size ≡ false
    → validate_filename env.unicode r.name env.goos ≡ ok tt
    → handle_put_dir cfg env r w
      ≡ dir_saved cfg env r w
          (save_dir env.sys env.fs env.unicode env.goos r.name r.stream size w.dir)
unfolding handle_put_dir
handle_put_dir_valid cfg env r w size e fits v = ground (arith, e, fits, v)

-- PUT /dirs: 201 (Created) is answered exactly for a receipt. Then the stream had exactly the declared
-- length, within the limit, the folder stands under the name in the answer, which was free, with only
-- safe paths and within the limits of its stream, everything else is as before, and one entry with
-- its counts of files and bytes goes to the history and the callback, as configured, and the sender
-- to the list of peers. Any other answer leaves the receive folder, the history and the callbacks as
-- they were, but that what could not be removed of the temporary folder may stay at its name. The tar
-- reader is assumed to yield at most the bytes that a header declares, and the operating system to
-- make temporary names that are not in use and not to fail at removing the reserved placeholder.
pub handle_put_dir-PutDirOutcome :
    (cfg : Config) (env : Env) (r : Request) (w : World)
    → IsBounded r.stream.items
    → IsFresh env.sys w.dir
    → env.sys.remove_ok ≡ true
    → PutDirOutcome cfg env r w (handle_put_dir cfg env r w)
unfolding handle_put_dir
handle_put_dir-PutDirOutcome cfg env r w bounded fresh removes =
    elim (Option-cases r.content_length) [
      | inl e ↦ simp (e, handle_put_dir) (inr (ground arith, kept env.sys true w))
      | inr (size, e) ↦ elim (Bool-cases (ltb cfg.max_size size)) [
        | inl over ↦ simp (e, over, handle_put_dir) (inr (ground arith, kept env.sys true w))
        | inr fits ↦ elim (Result-unit-cases (validate_filename env.unicode r.name env.goos)) [
          | inr (bad, v) ↦
              simp (e, fits, v, handle_put_dir) (inr (ground arith, kept env.sys true w))
          | inl v ↦
              subst (PutDirOutcome cfg env r w)
                (sym (handle_put_dir_valid cfg env r w size e fits v))
                (dir_saved-PutDirOutcome cfg env r size w
                  (save_dir env.sys env.fs env.unicode env.goos r.name r.stream size w.dir) e
                  (ground (arith, fits))
                  (save_dir-SaveDirOutcome env.sys env.fs env.unicode env.goos r.name r.stream size
                    w.dir bounded fresh removes))
        ]
      ]
    ]
