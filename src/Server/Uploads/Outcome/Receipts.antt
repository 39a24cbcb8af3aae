-- ===== src/Server/Uploads/Outcome/Receipts.antt =====
-- A receipt, and a request that was refused.
use lanxfer.Base.{◌≡◌, ◌≢◌, refl, sym, subst, Bool, false, Text, arith}
use lanxfer.History.{Entry}
use lanxfer.Server.Storage.{
  Dir, Node, System, SaveError, invalid_filename, create_temp, write, incomplete, close_temp,
  reserve_failed, finalize_failed, collisions,
}
use lanxfer.Server.Storage.Save.{Stored, Remains, unchanged}
use lanxfer.Server.SaveDir.{SaveDirError, bad_stream, not_saved}
use lanxfer.Server.Requests.{Config, Env, World, Request, Response, sender_of, with_sender}
use lanxfer.Server.Requests.Reports.{Reported, is_sighted, report-Reported}
use lanxfer.Server.Uploads.{save_status, received, save_dir_status}

-- Nothing was stored, recorded or reported: the receive folder is unchanged but for what could not
-- be closed or removed.
pub record Kept (sys : System) (is_dir : Bool) (w w' : World) : Type 0 where
  pub same_dir : Remains sys is_dir w.dir w'.dir
  pub same_history : w'.history ≡ w.history
  pub same_printed : w'.printed ≡ w.printed
  pub same_notices : w'.notices ≡ w.notices
  pub same_sightings : w'.sightings ≡ w.sightings

abbrev pub kept : (sys : System) (is_dir : Bool) (w : World) → Kept sys is_dir w w
kept sys is_dir w = record {
  same_dir = unchanged sys is_dir w.dir;
  same_history = refl;
  same_printed = refl;
  same_notices = refl;
  same_sightings = refl;
}

-- The receipt of an entry under a final name that was free.
abbrev pub Receipt : Config → Env → Request → Node → Entry → Text → World → World → Type 0
Receipt cfg env r n e final w w' =
    let snd = sender_of env.net r in
    Stored n w.dir final w'.dir
    × Reported cfg.has_history cfg.has_notify (is_sighted cfg snd) env (with_sender env snd e) snd
        (record w { dir = w'.dir }) w'

pub received-Receipt :
    (cfg : Config) (env : Env) (r : Request) (n : Node) (e : Entry) (final : Text) (w : World)
    (d : Dir)
    → Stored n w.dir final d
    → Receipt cfg env r n e final w (received cfg env r e final (record w { dir = d })).1
unfolding received
received-Receipt cfg env r n e final w d stored =
    let snd = sender_of env.net r in
    let told = report-Reported cfg env e snd (record w { dir = d }) in
    (
      subst (Stored n w.dir final) (sym told.same_dir) stored,
      record {
        logged = told.logged;
        noticed = told.noticed;
        sighted = told.sighted;
        same_dir = refl;
        same_printed = told.same_printed;
      },
    )

pub save_status_lem : (over : Bool) (e : SaveError) → save_status over e ≢ 201
unfolding save_status
save_status_lem over (invalid_filename e) = ground arith
save_status_lem over write = ground arith
save_status_lem over create_temp = ground arith
save_status_lem over incomplete = ground arith
save_status_lem over close_temp = ground arith
save_status_lem over reserve_failed = ground arith
save_status_lem over finalize_failed = ground arith
save_status_lem over collisions = ground arith

pub save_dir_status_lem : (e : SaveDirError) → save_dir_status e ≢ 201
unfolding save_dir_status
save_dir_status_lem (bad_stream e) = ground arith
save_dir_status_lem (not_saved e) = save_status_lem false e

-- A response other than 201 (Created) to a request that left everything as it was, but for what
-- could not be closed or removed.
abbrev pub Refused : System → Bool → World → Response × World → Type 0
Refused sys is_dir w res = (res.0.status ≢ 201) × Kept sys is_dir w res.1
