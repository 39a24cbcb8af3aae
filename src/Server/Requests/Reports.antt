-- ===== src/Server/Requests/Reports.antt =====
-- What a receipt leaves besides the file: an entry, a notification, a sighting.
use lanxfer.Base.{
  ◌≡◌, refl, sym, ap, subst, ◌∙◌, Bool, true, false, not, ◌&&◌, ◌||◌, [], ◌∷◌, ◌++◌, arith,
  if◌then◌else◌, append-nil,
}
use lanxfer.Netaddr.{addr_is_valid}
use lanxfer.Presence.{Sighting, has_id}
use lanxfer.History.{Entry, append, version}
use lanxfer.Server.Requests.{
  Config, Env, World, SenderInfo, with_sender, log_entry, notify, record_with, record_receipt,
  sight_unless, observe_sender,
}

abbrev pub sighting_of : SenderInfo → Sighting
sighting_of snd = record {
  id = snd.id;
  name = snd.name;
  os = [];
  addr = record { addr = snd.ip; port = 0 };
}

-- The entry goes to the history and to the callback where these are set, and the sender is reported
-- where that is wanted.
pub record Reported (history notice sight : Bool) (env : Env) (e : Entry) (snd : SenderInfo)
    (w w' : World) : Type 0 where
  pub logged :
      w'.history
      ≡ (if history then (append env.codec env.history_fs env.now e w.history).1 else w.history)
  pub noticed : w'.notices ≡ w.notices ++ (if notice then record e { v = version } ∷ [] else [])
  pub sighted : w'.sightings ≡ w.sightings ++ (if sight then sighting_of snd ∷ [] else [])
  pub same_dir : w'.dir ≡ w.dir
  pub same_printed : w'.printed ≡ w.printed

-- A sender is reported if the option is set, it gave a valid ID and its address is known.
abbrev pub is_sighted : Config → SenderInfo → Bool
is_sighted cfg snd = cfg.has_observe && (has_id snd.id && addr_is_valid snd.ip)

record_with-Reported :
    (history notice : Bool) (env : Env) (e : Entry) (snd : SenderInfo) (w : World)
    → Reported history notice false env e snd w (record_with history notice env e w)
unfolding record_with log_entry notify
record_with-Reported false false env e snd w = record {
  logged = refl;
  noticed = sym (append-nil w.notices);
  sighted = sym (append-nil w.sightings);
  same_dir = refl;
  same_printed = refl;
}
record_with-Reported true false env e snd w = record {
  logged = refl;
  noticed = sym (append-nil w.notices);
  sighted = sym (append-nil w.sightings);
  same_dir = refl;
  same_printed = refl;
}
record_with-Reported false true env e snd w = record {
  logged = refl;
  noticed = refl;
  sighted = sym (append-nil w.sightings);
  same_dir = refl;
  same_printed = refl;
}
record_with-Reported true true env e snd w = record {
  logged = refl;
  noticed = refl;
  sighted = sym (append-nil w.sightings);
  same_dir = refl;
  same_printed = refl;
}

-- `observe_sender` adds the sighting to what was reported before.
sight_unless-Reported :
    (b history notice : Bool) (env : Env) (e : Entry) (snd : SenderInfo) (w mid : World)
    → Reported history notice false env e snd w mid
    → Reported history notice (not b) env e snd w (sight_unless b snd mid)
unfolding sight_unless
sight_unless-Reported true history notice env e snd w mid h = h
sight_unless-Reported false history notice env e snd w mid h = record {
  logged = h.logged;
  noticed = h.noticed;
  sighted = ap (λ ss. ss ++ sighting_of snd ∷ []) (h.sighted ∙ append-nil w.sightings);
  same_dir = h.same_dir;
  same_printed = h.same_printed;
}

pub observe_sender-Reported :
    (history notice : Bool) (cfg : Config) (env : Env) (e : Entry) (snd : SenderInfo)
    (w mid : World)
    → Reported history notice false env e snd w mid
    → Reported history notice (is_sighted cfg snd) env e snd w (observe_sender cfg snd mid)
unfolding observe_sender
observe_sender-Reported history notice cfg env e snd w mid h =
    let b = not cfg.has_observe || (not (has_id snd.id) || not (addr_is_valid snd.ip)) in
    let test : not b ≡ is_sighted cfg snd = ground arith in
    subst (λ s. Reported history notice s env e snd w (observe_sender cfg snd mid)) test
      (sight_unless-Reported b history notice env e snd w mid h)

pub report-Reported :
    (cfg : Config) (env : Env) (e : Entry) (snd : SenderInfo) (w : World)
    → Reported cfg.has_history cfg.has_notify
        (is_sighted cfg snd)
        env
        (with_sender env snd e)
        snd
        w
        (observe_sender cfg snd (record_receipt cfg env e snd w))
unfolding record_receipt
report-Reported cfg env e snd w =
    observe_sender-Reported cfg.has_history cfg.has_notify cfg env (with_sender env snd e) snd w _
      (record_with-Reported cfg.has_history cfg.has_notify env (with_sender env snd e) snd w)
