-- ===== src/Server/Local.antt =====
-- internal/server/local.go: the requests of processes on the same machine.
pub mod Reported
use lanxfer.Base.{
  ℕ, ◌*◌, ◌+◌, ◌^◌, ◌≡◌, refl, Bool, true, false, not, ◌&&◌, ◌||◌, List, [], ◌∷◌, ◌++◌, Option,
  none, some, Text, codes, ◌==◌, length, if◌then◌else◌, Result, ok, err, text_eq, trim_prefix,
  trim_suffix,
}
use lanxfer.Netaddr.{Addr, unmap}
use lanxfer.Netguard.{NetText, is_loopback, loopback}
use lanxfer.Unicode.{Unicode}
use lanxfer.History.{Entry, AppendError, append, validate, dir_out, max_text}
use lanxfer.Server.Requests.{Config, Env, World, Request, Response, only, Limited, limit_read}

abbrev pub max_local_history_body : ℕ
max_local_history_body = 6 * max_text + 64 * 1024

-- A port is cut off where there is one.
unfoldable pub host_name : NetText → Text → Text
host_name net host = elim (net.split_host_port host) [ none ↦ host | some h ↦ h ]

unfoldable pub loopback_host : NetText → Unicode → Text → Bool
loopback_host net u host =
    let h = trim_suffix (trim_prefix (host_name net host) (codes "[")) (codes "]") in
    if u.equal_fold h (codes "localhost")
    then true
    else elim (net.parse_addr h) [ none ↦ false | some ip ↦ loopback (unmap ip) ]

unfoldable pub from_loopback : Env → Request → Bool
from_loopback env r = is_loopback env.net r.remote_addr && loopback_host env.net env.unicode r.host

-- `handleLocalPeers`; the JSON of the peers is an argument of the reply.
unfoldable pub handle_local_peers : Env → Text → Request → World → Response × World
handle_local_peers env peers_json r w =
    if not (from_loopback env r)
    then (only 403, w)
    else if env.peers_encode
    then (record { status = 200; reply = peers_json }, w)
    else (only 500, w)

unfoldable pub appended : World → Result AppendError (Unit {0}) × Text → Response × World
appended w (ok _, file) = (only 204, record w { history = file })
appended w (err e, file) = (only 500, record w { history = file })

-- An entry that was decoded; a version left out is version 1.
unfoldable pub report_entry : Env → Entry → World → Response × World
report_entry env e w =
    let e' = if e.v == 0 then record e { v = 1 } else e in
    elim (validate e') [
      | err bad ↦ (only 400, w)
      | ok _ ↦
          if not (text_eq e'.dir dir_out)
          then (only 400, w)
          else appended w (append env.codec env.history_fs env.now e' w.history)
    ]

unfoldable pub report_body : Env → Limited → World → Response × World
report_body env got w =
    if not got.complete
    then (only (if got.over then 413 else 400), w)
    else elim (env.codec.decode got.bytes) [ none ↦ (only 400, w) | some e ↦ report_entry env e w ]

unfoldable pub handle_local_history : Config → Env → Request → World → Response × World
handle_local_history cfg env r w =
    if not (from_loopback env r)
    then (only 403, w)
    else if not (text_eq r.from_id cfg.device_id)
    then (only 409, w)
    else if not r.is_json
    then (only 415, w)
    else report_body env (limit_read max_local_history_body r.body r.body_ok) w
