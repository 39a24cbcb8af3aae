-- ===== src/Client/Send/Receiver.antt =====
-- What a receiver makes of the request of a send, and what the sender is answered.
use lanxfer.Base.{
  ℕ, refl, sym, subst, inl, inr, Bool, true, false, [], ◌∷◌, ◌++◌, Option, some, Text,
  if◌then◌else◌, Bool-cases,
}
use lanxfer.History.{newline}
use lanxfer.Netguard.{is_allowed_remote}
use lanxfer.Server.Extract.{Stream}
use lanxfer.Server.Requests.{Config, Env, World, Request, Response, only}
use lanxfer.Server.Handler.{dispatch, serve}
use lanxfer.Server.Handler.Guarded.{serve_admitted}
use lanxfer.Client.Send.{Outgoing, Answer}

-- A connection to a receiver. `declare` is what net/http makes of the length of a request with a
-- body; `remote` and `host` are what the receiver sees of the sender, and `body`, as a tar reader
-- reads it `stream`, is what the sender writes.
pub record Connection : Type 0 where
  pub utf8_valid : Text → Bool
  pub peers_json : Text
  pub cfg : Config
  pub env : Env
  pub world : World
  pub declare : ℕ → Option ℕ
  pub remote : Text
  pub host : Text
  pub body : Text
  pub stream : Stream

-- The request as the receiver gets it, with the whole body.
abbrev pub carried : Connection → Outgoing → Request
carried c o = record {
  route = o.route;
  name = o.name;
  remote_addr = c.remote;
  host = c.host;
  from = o.from;
  from_id = o.from_id;
  has_origin = false;
  is_json = false;
  content_length = c.declare o.content_length;
  body = c.body;
  body_ok = true;
  stream = c.stream;
}

-- What the receiver answers, and what it is then.
abbrev pub reached : Connection → Outgoing → Response × World
reached c o = serve c.utf8_valid c.peers_json c.cfg c.env (carried c o) c.world

-- Every address that is allowed is told the ID, and a reply ends with a newline.
abbrev pub reply_of : Connection → Response → Answer
reply_of c r = record {
  status = r.status;
  id = if is_allowed_remote c.env.net c.remote then c.cfg.device_id else [];
  body = r.reply ++ newline ∷ [];
}

abbrev pub answer_to : Connection → Outgoing → Option Answer
answer_to c o = some (reply_of c (reached c o).0)

-- A request is refused by the guards, or comes to its handler.
pub served :
    (P : Response × World → Type 0) (c : Connection) (o : Outgoing)
    → P (only 403, c.world)
    → P (dispatch c.utf8_valid c.peers_json o.route c.cfg c.env (carried c o) c.world)
    → P (reached c o)
unfolding serve
served P c o forbidden admitted = elim (Bool-cases (is_allowed_remote c.env.net c.remote)) [
  | inr a ↦ rw (a, serve) forbidden
  | inl a ↦
      subst P
        (sym (serve_admitted c.utf8_valid c.peers_json c.cfg c.env (carried c o) c.world a refl))
        admitted
]
