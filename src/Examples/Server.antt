-- ===== src/Examples/Server.antt =====
-- internal/server's handlers: an upload, a message and a report from the local network.
use lanxfer.Base.{
  ℕ, ◌≡◌, refl, inl, inr, Bool, true, false, List, [], ◌∷◌, ◌++◌, ◌⊎◌, Option, none, some, Text,
  codes, ok, arith, ◌==◌, All, if◌then◌else◌,
}
use lanxfer.Netaddr.{Addr, AddrPort, v4, unmap}
use lanxfer.Netguard.{NetText}
use lanxfer.Unicode.{ascii}
use lanxfer.History.{Entry, Codec, newline, read_all, blank, dir_in, kind_file, status_ok, version}
use lanxfer.Server.Requests.{
  Config, Env, World, Request, Response, Route, put_file, put_dir, post_message, post_history,
}
use lanxfer.Server.Uploads.{handle_put, handle_put_dir}
use lanxfer.Server.Uploads.Outcome.{
  PutOutcome, PutDirOutcome, handle_put-PutOutcome, handle_put_dir-PutDirOutcome,
}
use lanxfer.Server.Uploads.Logged.{Recordable, upload_entry, handle_put-read_all}
use lanxfer.Server.Messages.{handle_message}
use lanxfer.Server.Messages.Delivered.{handle_message-MessageOutcome}
use lanxfer.Server.Messages.Delivered.Shown.{MessageOutcome}
use lanxfer.Server.Local.{handle_local_history}
use lanxfer.Server.Local.Reported.{LocalOutcome, handle_local_history-LocalOutcome}
use lanxfer.Server.Handler.{serve}
use lanxfer.Server.Handler.Guarded.{Admitted, Keeps, serve-Admitted}
use lanxfer.Examples.Storage.{quiet, received, received-IsFresh}
use lanxfer.Examples.Folders.{exact, upload}
use lanxfer.Examples.History.{working, one_line}

abbrev pub laptop : Addr
laptop = v4 0xC0A80102

-- A network with one peer.
abbrev pub home : NetText
home = record {
  split_host_port = λ s. some s;
  parse_ip = λ s. some laptop;
  parse_addr = λ s. none;
  parse_addr_port = λ s. some (record { addr = laptop; port = 52 });
  show = λ a. codes "192.168.1.2";
}

-- The entry of the upload below.
abbrev receipt : Entry
receipt = record blank {
  v = version;
  time = 7;
  dir = dir_in;
  kind = kind_file;
  name = codes "a.txt";
  saved_as = codes "a (1).txt";
  path = codes "a (1).txt";
  size = 3;
  status = status_ok;
  peer_name = codes "mac1";
  peer_addr = codes "192.168.1.2";
}

-- A codec that knows this entry.
abbrev decode_receipt : Text → Option Entry
decode_receipt [] = none
decode_receipt (c ∷ s) = if c == b'x' then some receipt else none

abbrev codec : Codec
codec = record { encode = λ e. some one_line; decode = decode_receipt }

abbrev pub evening : Env
evening = record {
  net = home;
  sys = quiet;
  fs = exact;
  unicode = ascii;
  goos = codes "linux";
  codec = codec;
  history_fs = working;
  now = 7;
  join = λ n. n;
  show_time = λ t. codes "12:00";
  peers_encode = true;
}

abbrev pub all_on : Config
all_on = record {
  max_size = 4096;
  device_id = codes "0";
  has_inbox = true;
  inbox_records = true;
  has_history = true;
  has_observe = true;
  has_peers = true;
  has_notify = true;
}

abbrev pub put : Request
put = record {
  route = put_file;
  name = codes "a.txt";
  remote_addr = codes "192.168.1.2:52";
  host = codes "box";
  from = codes "mac1";
  from_id = [];
  has_origin = false;
  is_json = false;
  content_length = some 3;
  body = codes "new";
  body_ok = true;
  stream = upload;
}

abbrev pub before : World
before = record { dir = received; history = []; printed = []; notices = []; sightings = [] }

handle_put-PutOutcome_example :
    PutOutcome all_on evening put before (handle_put all_on evening put before)
handle_put-PutOutcome_example =
    handle_put-PutOutcome all_on evening put before received-IsFresh refl

abbrev put_tools : Request
put_tools = record put { route = put_dir; name = codes "tools"; content_length = some 2048 }

handle_put_dir-PutDirOutcome_example :
    PutDirOutcome all_on evening put_tools before (handle_put_dir all_on evening put_tools before)
handle_put_dir-PutDirOutcome_example =
    handle_put_dir-PutDirOutcome all_on evening put_tools before (omega arith) received-IsFresh refl

blank_codec : (l : Text) → codec.decode (l ++ newline ∷ []) ≡ codec.decode l
blank_codec [] = refl
blank_codec (c ∷ l) = refl

recordable : Recordable evening (upload_entry evening put (codes "a (1).txt"))
unfolding lanxfer.History.stamp lanxfer.Server.Requests.with_sender
    lanxfer.Server.Uploads.file_entry lanxfer.Server.Requests.sender_of
    lanxfer.Netaddr.addr_is_valid lanxfer.Identity.valid lanxfer.Peername.validate
    lanxfer.Server.Requests.sender_ip lanxfer.Utf8.runes unmap lanxfer.Utf8.is_control
recordable = record {
  line = one_line;
  encoded = refl;
  blank = blank_codec;
  is_line = ((refl, tt), refl);
  opens = refl;
  inspects = refl;
  writes = refl;
  closes = refl;
}

created :
    (handle_put all_on evening put before).0 ≡ record { status = 201; reply = codes "a (1).txt" }
unfolding handle_put lanxfer.Server.Filename.validate_filename lanxfer.Base.text_eq
    lanxfer.Server.Filename.check_name_length lanxfer.Base.contains_any lanxfer.Utf8.runes
    lanxfer.Utf8.is_control lanxfer.Base.has_suffix ascii lanxfer.Server.Filename.is_part
    lanxfer.Server.Uploads.put_body lanxfer.Server.Uploads.file_saved lanxfer.Server.Storage.save
    lanxfer.Server.Storage.cleanup lanxfer.Server.Requests.limit_read lanxfer.Server.Storage.commit
    lanxfer.Base.lookup lanxfer.Base.delete lanxfer.Base.insert lanxfer.Base.trim_suffix
    lanxfer.Decimal.decimal lanxfer.Server.Numbered.ext lanxfer.Server.Numbered.numbered_name
    lanxfer.Server.Uploads.received
created = refl

handle_put-read_all_example :
    read_all codec (handle_put all_on evening put before).1.history
    ≡ read_all codec [] ++ upload_entry evening put (codes "a (1).txt") ∷ []
handle_put-read_all_example =
    handle_put-read_all all_on evening put before (codes "a (1).txt") received-IsFresh refl refl
      recordable created

abbrev valid_ascii : Text → Bool
valid_ascii s = true

abbrev message : Request
message = record put { route = post_message; body = codes "hi" }

handle_message-MessageOutcome_example :
    MessageOutcome valid_ascii all_on evening message before
      (handle_message valid_ascii all_on evening message before)
handle_message-MessageOutcome_example =
    handle_message-MessageOutcome valid_ascii all_on evening message before

abbrev report : Request
report = record put { route = post_history; is_json = true }

handle_local_history-LocalOutcome_example :
    LocalOutcome all_on evening report before (handle_local_history all_on evening report before)
handle_local_history-LocalOutcome_example =
    handle_local_history-LocalOutcome all_on evening report before

serve-Admitted_example :
    ((serve valid_ascii [] all_on evening put before
        ≡ (record { status = 403; reply = [] }, before))
      ⊎ Admitted home put)
    × Keeps received (serve valid_ascii [] all_on evening put before).1.dir
serve-Admitted_example =
    serve-Admitted valid_ascii [] all_on evening put before (omega arith) received-IsFresh refl
