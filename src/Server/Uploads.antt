-- ===== src/Server/Uploads.antt =====
-- internal/server/server.go: `handlePut` and `handlePutDir`.
pub mod Outcome
pub mod Logged
use lanxfer.Base.{
  ℕ, ◌≡◌, refl, Bool, true, false, not, ◌&&◌, ◌||◌, List, [], ◌∷◌, ◌++◌, Option, none, some, Text,
  codes, ltb, ◌==◌, length, if◌then◌else◌, Result, ok, err,
}
use lanxfer.History.{Entry, blank, dir_in, kind_file, kind_folder, status_ok}
use lanxfer.Server.Filename.{validate_filename}
use lanxfer.Server.Storage.{
  Dir, SaveError, invalid_filename, create_temp, write, incomplete, close_temp, reserve_failed,
  finalize_failed, collisions, save,
}
use lanxfer.Server.Extract.{
  ExtractError, bad_header, sparse, path_too_long, too_deep, bad_part, file_and_folder, letter_case,
  too_many_folders, too_large, twice, wrong_type, read_failed, os_failed, incomplete_stream,
}
use lanxfer.Server.SaveDir.{SaveDirError, bad_stream, not_saved, Received, save_dir}
use lanxfer.Server.Requests.{
  Config, Env, World, Request, Response, only, Limited, limit_read, sender_of, record_receipt,
  observe_sender,
}

-- The switch on the error of `Save`; `over` tells that the body went over the limit.
unfoldable pub save_status : Bool → SaveError → ℕ
save_status over (invalid_filename e) = 400
save_status over write = if over then 413 else 500
save_status over create_temp = 500
save_status over incomplete = 500
save_status over close_temp = 500
save_status over reserve_failed = 500
save_status over finalize_failed = 500
save_status over collisions = 500

unfoldable pub file_entry : Env → Text → Text → ℕ → Entry
file_entry env name final size = record blank {
  dir = dir_in;
  kind = kind_file;
  name = name;
  saved_as = final;
  path = env.join final;
  size = size;
  status = status_ok;
}

-- What follows a receipt.
unfoldable pub received : Config → Env → Request → Entry → Text → World → Response × World
received cfg env r e final w =
    let snd = sender_of env.net r in
    (
      record { status = 201; reply = final },
      observe_sender cfg snd (record_receipt cfg env e snd w),
    )

unfoldable pub file_saved :
    Config → Env → Request → Limited → World → Result SaveError Text × Dir → Response × World
file_saved cfg env r body w (err e, d) = (only (save_status body.over e), record w { dir = d })
file_saved cfg env r body w (ok final, d) =
    received cfg env r (file_entry env r.name final (length body.bytes)) final
      (record w { dir = d })

unfoldable pub put_body : Config → Env → Request → ℕ → Limited → World → Response × World
put_body cfg env r size body w =
    file_saved cfg env r body w
      (save env.sys env.unicode env.goos r.name body.bytes body.complete size w.dir)

unfoldable pub handle_put : Config → Env → Request → World → Response × World
handle_put cfg env r w = elim r.content_length [
  | none ↦ (only 411, w)
  | some size ↦
      if ltb cfg.max_size size
      then (only 413, w)
      else elim (validate_filename env.unicode r.name env.goos) [
        | err e ↦ (only 400, w)
        | ok _ ↦ put_body cfg env r size (limit_read cfg.max_size r.body r.body_ok) w
      ]
]

-- Whether an error of the extractor is `ErrInvalidEntry`.
unfoldable pub is_invalid_entry : ExtractError → Bool
is_invalid_entry read_failed = false
is_invalid_entry os_failed = false
is_invalid_entry incomplete_stream = false
is_invalid_entry _ = true

unfoldable pub save_dir_status : SaveDirError → ℕ
save_dir_status (bad_stream e) = if is_invalid_entry e then 400 else 500
save_dir_status (not_saved e) = save_status false e

unfoldable pub folder_entry : Env → Text → Received → Entry
folder_entry env name got = record blank {
  dir = dir_in;
  kind = kind_folder;
  name = name;
  saved_as = got.final;
  path = env.join got.final;
  size = got.content;
  files = got.files;
  status = status_ok;
}

unfoldable pub dir_saved :
    Config → Env → Request → World → Result SaveDirError Received × Dir → Response × World
dir_saved cfg env r w (err e, d) = (only (save_dir_status e), record w { dir = d })
dir_saved cfg env r w (ok got, d) =
    received cfg env r (folder_entry env r.name got) got.final (record w { dir = d })

unfoldable pub handle_put_dir : Config → Env → Request → World → Response × World
handle_put_dir cfg env r w = elim r.content_length [
  | none ↦ (only 411, w)
  | some size ↦
      if ltb cfg.max_size size
      then (only 413, w)
      else elim (validate_filename env.unicode r.name env.goos) [
        | err e ↦ (only 400, w)
        | ok _ ↦
            dir_saved cfg env r w
              (save_dir env.sys env.fs env.unicode env.goos r.name r.stream size w.dir)
      ]
]
