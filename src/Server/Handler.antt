-- ===== src/Server/Handler.antt =====
-- internal/server/server.go: `Handler`, the guards in front of the router.
pub mod Guarded
use lanxfer.Base.{◌≡◌, refl, Bool, true, false, not, Text, if◌then◌else◌}
use lanxfer.Netguard.{is_allowed_remote}
use lanxfer.Server.Requests.{
  Config, Env, World, Request, Response, only, Route, put_file, put_dir, post_message, post_history,
  get_peers, unknown,
}
use lanxfer.Server.Uploads.{handle_put, handle_put_dir}
use lanxfer.Server.Messages.{handle_message}
use lanxfer.Server.Local.{handle_local_peers, handle_local_history}

-- What the router does not find is answered with 404.
unfoldable pub when : Bool → Response × World → World → Response × World
when true res w = res
when false res w = (only 404, w)

unfoldable pub dispatch :
    (Text → Bool) → Text → Route → Config → Env → Request → World → Response × World
dispatch utf8_valid peers_json put_file cfg env r w = handle_put cfg env r w
dispatch utf8_valid peers_json put_dir cfg env r w = handle_put_dir cfg env r w
dispatch utf8_valid peers_json post_message cfg env r w =
    when cfg.has_inbox (handle_message utf8_valid cfg env r w) w
dispatch utf8_valid peers_json post_history cfg env r w =
    when cfg.has_history (handle_local_history cfg env r w) w
dispatch utf8_valid peers_json get_peers cfg env r w =
    when cfg.has_peers (handle_local_peers env peers_json r w) w
dispatch utf8_valid peers_json unknown cfg env r w = (only 404, w)

unfoldable pub serve : (Text → Bool) → Text → Config → Env → Request → World → Response × World
serve utf8_valid peers_json cfg env r w =
    if not (is_allowed_remote env.net r.remote_addr)
    then (only 403, w)
    else if r.has_origin
    then (only 403, w)
    else dispatch utf8_valid peers_json r.route cfg env r w
