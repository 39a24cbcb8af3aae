-- ===== src/Server/Messages/Delivered/Shown.antt =====
-- What the inbox shows and records of a message.
use lanxfer.Base.{
  ◌≤◌, ◌≡◌, ◌≢◌, ◌⊎◌, refl, sym, ap, ◌∙◌, Bool, true, false, [], ◌∷◌, ◌++◌, some, Text, append-nil,
  Result, ok, err, length,
}
use lanxfer.Netaddr.{AddrPort, unmap}
use lanxfer.History.{Entry, AppendError, append, version}
use lanxfer.Server.Terminal.{format_message}
use lanxfer.Server.Requests.{
  Config, Env, World, Request, Response, only, SenderInfo, sender_of, notify,
}
use lanxfer.Server.Requests.Reports.{Reported, is_sighted}
use lanxfer.Server.Messages.{max_message_size, message_entry, shown, store, told}

abbrev pub with_block : Text → World → World
with_block block w = record w { printed = w.printed ++ block ∷ [] }

-- Nothing was shown or reported.
pub record Unshown (w w' : World) : Type 0 where
  pub same_dir : w'.dir ≡ w.dir
  pub same_printed : w'.printed ≡ w.printed
  pub same_notices : w'.notices ≡ w.notices
  pub same_sightings : w'.sightings ≡ w.sightings

-- Of an entry that is shown: it is in the history where there is one.
abbrev Shown : Bool → Bool → Bool → Env → Entry → SenderInfo → Text → World → World → Type 0
Shown keeps notice sight env e snd block w w' =
    (keeps ≡ true → (append env.codec env.history_fs env.now e w.history).0 ≡ ok tt)
    × Reported keeps notice sight env e snd (with_block block w) w'

abbrev pub StoreOutcome :
    Bool → Bool → Env → Entry → SenderInfo → Text → World → Bool × World → Type 0
StoreOutcome keeps notice env e snd block w (true, w') =
    Shown keeps notice false env e snd block w w'
StoreOutcome keeps notice env e snd block w (false, w') = Unshown w w'

shown-StoreOutcome :
    (env : Env) (e : Entry) (snd : SenderInfo) (block : Text) (w : World)
    (res : Result AppendError (Unit {0}) × Text)
    → res ≡ append env.codec env.history_fs env.now e w.history
    → StoreOutcome true false env e snd block w (shown block w res)
unfolding shown
shown-StoreOutcome env e snd block w (err bad, after) h = record {
  same_dir = refl;
  same_printed = refl;
  same_notices = refl;
  same_sightings = refl;
}
shown-StoreOutcome env e snd block w (ok u, after) h = (
  λ k. ap (λ (x : Result AppendError (Unit {0}) × Text). x.0) (sym h),
  record {
    logged = ap (λ (x : Result AppendError (Unit {0}) × Text). x.1) h;
    noticed = sym (append-nil w.notices);
    sighted = sym (append-nil w.sightings);
    same_dir = refl;
    same_printed = refl;
  },
)

pub store-StoreOutcome :
    (keeps : Bool) (env : Env) (e : Entry) (snd : SenderInfo) (block : Text) (w : World)
    → StoreOutcome keeps false env e snd block w (store keeps env e block w)
unfolding store
store-StoreOutcome true env e snd block w =
    shown-StoreOutcome env e snd block w (append env.codec env.history_fs env.now e w.history) refl
store-StoreOutcome false env e snd block w = (
  λ h. cc,
  record {
    logged = refl;
    noticed = sym (append-nil w.notices);
    sighted = sym (append-nil w.sightings);
    same_dir = refl;
    same_printed = refl;
  },
)

notify-Reported :
    (notice keeps : Bool) (env : Env) (e : Entry) (snd : SenderInfo) (w mid : World)
    → Reported keeps false false env e snd w mid
    → Reported keeps notice false env e snd w (notify notice e mid)
unfolding notify
notify-Reported true keeps env e snd w mid h = record {
  logged = h.logged;
  noticed = ap (λ ns. ns ++ record e { v = version } ∷ []) (h.noticed ∙ append-nil w.notices);
  sighted = h.sighted;
  same_dir = h.same_dir;
  same_printed = h.same_printed;
}
notify-Reported false keeps env e snd w mid h = h

pub told-StoreOutcome :
    (cfg : Config) (keeps : Bool) (env : Env) (e : Entry) (snd : SenderInfo) (block : Text)
    (w : World) (res : Bool × World)
    → StoreOutcome keeps false env e snd block w res
    → StoreOutcome keeps cfg.has_notify env e snd block w (told cfg e res)
unfolding told
told-StoreOutcome cfg keeps env e snd block w (true, mid) (kept, h) =
    (kept, notify-Reported cfg.has_notify keeps env e snd (with_block block w) mid h)
told-StoreOutcome cfg keeps env e snd block w (false, mid) h = h

-- The message of a request that is answered with 204 (No Content).
abbrev pub Delivered : Config → Env → Request → AddrPort → World → World → Type 0
Delivered cfg env r remote w w' =
    let snd = sender_of env.net r in
    let addr = unmap remote.addr in
    Shown cfg.inbox_records cfg.has_notify (is_sighted cfg snd) env
      (message_entry env snd.name snd.id addr r.body) snd
      (format_message (env.show_time env.now) snd.name (env.net.show addr) r.body) w w'

abbrev pub MessageOutcome :
    (Text → Bool) → Config → Env → Request → World → Response × World → Type 0
MessageOutcome utf8_valid cfg env r w res =
    ((remote : AddrPort) × (res.0 ≡ only 204)
      × (env.net.parse_addr_port r.remote_addr ≡ some remote)
      × (length r.body ≢ 0)
      × (length r.body ≤ max_message_size)
      × (r.body_ok ≡ true)
      × (utf8_valid r.body ≡ true)
      × Delivered cfg env r remote w res.1)
    ⊎ ((res.0.status ≢ 204) × Unshown w res.1 × (res.0.status ≢ 500 → res.1.history ≡ w.history))
