-- ===== src/Server/Handler/Guarded.antt =====
-- What a request can do at all.
use lanxfer.Base.{
  ◌≡◌, ◌⊎◌, refl, sym, ap, subst, ◌∙◌, inl, inr, Bool, true, false, some, Text, arith, Bool-cases,
  lookup, text_eq, text_eq_iff,
}
use lanxfer.Netaddr.{Addr, unmap}
use lanxfer.Netguard.{NetText, is_allowed_remote, parse_remote}
use lanxfer.Netguard.Ranges.{IsLocal, is_allowed_remote_iff}
use lanxfer.Server.Storage.{Dir, Node, System}
use lanxfer.Server.Storage.Save.{IsFresh, Stored, Remains}
use lanxfer.Server.Extract.Growth.{IsBounded}
use lanxfer.Server.Requests.{
  Config, Env, World, Request, Response, only, Route, put_file, put_dir, post_message, post_history,
  get_peers, unknown,
}
use lanxfer.Server.Uploads.Outcome.{
  PutOutcome, PutDirOutcome, handle_put-PutOutcome, handle_put_dir-PutDirOutcome,
}
use lanxfer.Server.Messages.Delivered.{handle_message-MessageOutcome}
use lanxfer.Server.Messages.Delivered.Shown.{MessageOutcome}
use lanxfer.Server.Local.{handle_local_peers}
use lanxfer.Server.Local.Reported.{handle_local_history-LocalOutcome, LocalOutcome}
use lanxfer.Server.Handler.{when, dispatch, serve}

-- Every entry of the receive folder is still there, unchanged.
abbrev pub Keeps : Dir → Dir → Type 0
Keeps d d' = (k : Text) (n : Node) → lookup k d ≡ some n → lookup k d' ≡ some n

Stored-Keeps : (n : Node) (d : Dir) (final : Text) (d' : Dir) → Stored n d final d' → Keeps d d'
Stored-Keeps n d final d' (was_free, after) k m h = elim (Bool-cases (text_eq final k)) [
  | inl e ↦
      let same : final ≡ k = (text_eq_iff final k).0 e in
      absurd (cc (h, ap (λ x. lookup x d) same, was_free))
  | inr e ↦ after k ∙ (rw e h)
]

Remains-Keeps : (sys : System) (is_dir : Bool) (d d' : Dir) → Remains sys is_dir d d' → Keeps d d'
Remains-Keeps sys is_dir d d' (p, left) k n h = elim (left k) [
  | inl same ↦ same ∙ h
  | inr (free, l) ↦ absurd (cc (h, free))
]

equal-Keeps : (d d' : Dir) → d' ≡ d → Keeps d d'
equal-Keeps d d' e k n h = ap (lookup k) e ∙ h

put-Keeps :
    (cfg : Config) (env : Env) (r : Request) (w : World) (res : Response × World)
    → PutOutcome cfg env r w res
    → Keeps w.dir res.1.dir
put-Keeps cfg env r w res (inl (final, a, l, f, b, (stored, told))) =
    Stored-Keeps _ _ final _ stored
put-Keeps cfg env r w res (inr (other, kept)) =
    Remains-Keeps env.sys false w.dir res.1.dir kept.same_dir

put_dir-Keeps :
    (cfg : Config) (env : Env) (r : Request) (w : World) (res : Response × World)
    → PutDirOutcome cfg env r w res
    → Keeps w.dir res.1.dir
put_dir-Keeps cfg env r w res (inl (got, ex, a, l, f, u, c, (stored, told))) =
    Stored-Keeps _ _ got.final _ stored
put_dir-Keeps cfg env r w res (inr (other, kept)) =
    Remains-Keeps env.sys true w.dir res.1.dir kept.same_dir

message-Keeps :
    (v : Text → Bool) (cfg : Config) (env : Env) (r : Request) (w : World) (res : Response × World)
    → MessageOutcome v cfg env r w res
    → res.1.dir ≡ w.dir
message-Keeps v cfg env r w res (inl (remote, a, b, c, d, e, f, (kept, told))) = told.same_dir
message-Keeps v cfg env r w res (inr (other, un, h)) = un.same_dir

local-Keeps :
    (cfg : Config) (env : Env) (r : Request) (w : World) (res : Response × World)
    → LocalOutcome cfg env r w res
    → res.1.dir ≡ w.dir
local-Keeps cfg env r w res (inl (e, q, (after, answered))) = ap (λ (z : World). z.dir) after
local-Keeps cfg env r w res (inr (un, (a, b, after))) = ap (λ (z : World). z.dir) after

when-Keeps :
    (b : Bool) (w : World) (res : Response × World)
    → Keeps w.dir res.1.dir
    → Keeps w.dir (when b res w).1.dir
unfolding when
when-Keeps true w res h = h
when-Keeps false w res h = λ k n e. e

peers_same :
    (env : Env) (peers_json : Text) (r : Request) (w : World)
    → (handle_local_peers env peers_json r w).1 ≡ w
unfolding handle_local_peers
peers_same env peers_json r w = ground arith

dispatch-Keeps :
    (v : Text → Bool) (peers_json : Text) (route : Route) (cfg : Config) (env : Env) (r : Request)
    (w : World)
    → IsBounded r.stream.items
    → IsFresh env.sys w.dir
    → env.sys.remove_ok ≡ true
    → Keeps w.dir (dispatch v peers_json route cfg env r w).1.dir
unfolding dispatch
dispatch-Keeps v pj put_file cfg env r w b fresh removes =
    put-Keeps cfg env r w _ (handle_put-PutOutcome cfg env r w fresh removes)
dispatch-Keeps v pj put_dir cfg env r w b fresh removes =
    put_dir-Keeps cfg env r w _ (handle_put_dir-PutDirOutcome cfg env r w b fresh removes)
dispatch-Keeps v pj post_message cfg env r w b fresh removes =
    when-Keeps cfg.has_inbox w _ (
      equal-Keeps _ _ (message-Keeps v cfg env r w _ (handle_message-MessageOutcome v cfg env r w)))
dispatch-Keeps v pj post_history cfg env r w b fresh removes =
    when-Keeps cfg.has_history w _
      (equal-Keeps _ _ (local-Keeps cfg env r w _ (handle_local_history-LocalOutcome cfg env r w)))
dispatch-Keeps v pj get_peers cfg env r w b fresh removes =
    when-Keeps cfg.has_peers w _
      (equal-Keeps _ _ (ap (λ (z : World). z.dir) (peers_same env pj r w)))
dispatch-Keeps v pj unknown cfg env r w b fresh removes = λ k n e. e

-- The requests that reach the router.
abbrev pub Admitted : NetText → Request → Type 0
Admitted net r =
    (r.has_origin ≡ false)
    × ((ip : Addr) × (parse_remote net r.remote_addr ≡ some ip) × IsLocal (unmap ip))

pub serve_admitted :
    (v : Text → Bool) (peers_json : Text) (cfg : Config) (env : Env) (r : Request) (w : World)
    → is_allowed_remote env.net r.remote_addr ≡ true
    → r.has_origin ≡ false
    → serve v peers_json cfg env r w ≡ dispatch v peers_json r.route cfg env r w
unfolding serve
serve_admitted v pj cfg env r w a o = rw (a, o, serve) refl

-- A request is either refused with 403 and leaves everything as it was, or it carries no Origin
-- header and comes from a private, loopback or link-local address; and whatever it asks for, every
-- file and folder that was received before is still there, unchanged. The tar reader is assumed to
-- yield at most the bytes that a header declares, and the operating system to make temporary names
-- that are not in use and not to fail at removing the reserved placeholder.
pub serve-Admitted :
    (v : Text → Bool) (peers_json : Text) (cfg : Config) (env : Env) (r : Request) (w : World)
    → IsBounded r.stream.items
    → IsFresh env.sys w.dir
    → env.sys.remove_ok ≡ true
    → ((serve v peers_json cfg env r w ≡ (only 403, w)) ⊎ Admitted env.net r)
      × Keeps w.dir (serve v peers_json cfg env r w).1.dir
unfolding serve
serve-Admitted v pj cfg env r w b fresh removes =
    elim (Bool-cases (is_allowed_remote env.net r.remote_addr)) [
      | inr a ↦ rw (a, serve) (inl refl, λ k n e. e)
      | inl a ↦ elim (Bool-cases r.has_origin) [
        | inl o ↦ rw (a, o, serve) (inl refl, λ k n e. e)
        | inr o ↦ (
          inr (o, (is_allowed_remote_iff env.net r.remote_addr).0 a),
          subst (λ (res : Response × World). Keeps w.dir res.1.dir)
              (sym (serve_admitted v pj cfg env r w a o))
              (dispatch-Keeps v pj r.route cfg env r w b fresh removes),
        )
      ]
    ]
