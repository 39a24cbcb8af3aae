-- ===== src/History.antt =====
-- internal/history: the log of sends and receipts, one JSON object a line. Time 0 is Go's zero time.
pub mod Valid
pub mod Lines
pub mod Append
use lanxfer.Base.{
  ℕ, ◌^◌, ◌≡◌, Bool, true, false, not, ◌||◌, List, [], ◌∷◌, ◌++◌, Option, none, some, Text, codes,
  ltb, ◌==◌, length, take, if◌then◌else◌, Result, ok, err, ◌>>=◌, ◌>>◌, refuse_if, text_eq,
}

pub record Entry : Type 0 where
  pub v : ℕ
  pub time : ℕ
  pub dir : Text
  pub peer_id : Text
  pub peer_name : Text
  pub peer_addr : Text
  pub kind : Text
  pub text : Text
  pub name : Text
  pub saved_as : Text
  pub path : Text
  pub size : ℕ
  pub files : ℕ
  pub status : Text
  pub error : Text

-- `Entry{}`
abbrev pub blank : Entry
blank = record {
  v = 0;
  time = 0;
  dir = [];
  peer_id = [];
  peer_name = [];
  peer_addr = [];
  kind = [];
  text = [];
  name = [];
  saved_as = [];
  path = [];
  size = 0;
  files = 0;
  status = [];
  error = [];
}

abbrev pub dir_in : Text
dir_in = codes "in"

abbrev pub dir_out : Text
dir_out = codes "out"

abbrev pub kind_text : Text
kind_text = codes "text"

abbrev pub kind_file : Text
kind_file = codes "file"

abbrev pub kind_folder : Text
kind_folder = codes "folder"

abbrev pub status_ok : Text
status_ok = codes "ok"

abbrev pub status_failed : Text
status_failed = codes "failed"

abbrev pub status_cancelled : Text
status_cancelled = codes "cancelled"

abbrev pub max_text : ℕ
max_text = 2 ^ 20

abbrev pub version : ℕ
version = 1

pub data EntryError : Type 0 where
  bad_version bad_dir bad_kind bad_status text_too_long : EntryError

unfoldable pub validate : Entry → Result EntryError (Unit {0})
validate e = do
  refuse_if (not (e.v == version)) bad_version
  refuse_if (not (text_eq e.dir dir_in || text_eq e.dir dir_out)) bad_dir
  refuse_if
      (not (text_eq e.kind kind_text || (text_eq e.kind kind_file || text_eq e.kind kind_folder)))
      bad_kind
  refuse_if
      (not (
        text_eq e.status status_ok
        || (text_eq e.status status_failed || text_eq e.status status_cancelled)))
      bad_status
  refuse_if (ltb max_text (length e.text)) text_too_long
  ok tt

-- encoding/json on one entry: `encode` may fail, `decode` reads one line.
pub record Codec : Type 0 where
  pub encode : Entry → Option Text
  pub decode : Text → Option Entry

-- Which calls on the file fail; a write that fails leaves the number of bytes given.
pub record FileSystem : Type 0 where
  pub open_ok : Bool
  pub inspect_ok : Bool
  pub write_cut : Option ℕ
  pub close_ok : Bool

pub data AppendError : Type 0 where
  refused : EntryError → AppendError
  encode_failed open_failed write_failed close_failed : AppendError

abbrev pub newline : ℕ
newline = b'\n'

unfoldable pub last_byte : Text → Option ℕ
last_byte [] = none
last_byte (c ∷ []) = some c
last_byte (c ∷ d ∷ s) = last_byte (d ∷ s)

-- A fragment with no newline at its end is finished first.
unfoldable pub fresh_line : FileSystem → Text → Text → Text
fresh_line fs file line = elim (last_byte file) [
  | none ↦ line
  | some c ↦ if not (c == newline) then (if fs.inspect_ok then newline ∷ line else line) else line
]

unfoldable pub stamp : ℕ → Entry → Entry
stamp now e = record e { v = version; time = if e.time == 0 then now else e.time }

unfoldable pub write_line : FileSystem → Text → Text → Result AppendError (Unit {0}) × Text
write_line fs file line = elim fs.write_cut [
  | some n ↦ (err write_failed, file ++ take n line)
  | none ↦ ((if fs.close_ok then ok tt else err close_failed), file ++ line)
]

-- `Append` on the bytes of the file, none if it is missing.
unfoldable pub append : Codec → FileSystem → ℕ → Entry → Text → Result AppendError (Unit {0}) × Text
append c fs now e file = elim (validate (stamp now e)) [
  | err bad ↦ (err (refused bad), file)
  | ok _ ↦ elim (c.encode (stamp now e)) [
    | none ↦ (err encode_failed, file)
    | some line ↦
        if fs.open_ok
        then write_line fs file (fresh_line fs file (line ++ newline ∷ []))
        else (err open_failed, file)
  ]
]

-- What `ReadBytes` returns with io.EOF; no bytes are no line.
unfoldable pub rest_line : Text → List Text
rest_line [] = []
rest_line (c ∷ cur) = (c ∷ cur) ∷ []

-- `ReadBytes('\n')` again and again, behind the bytes `cur` of the current line.
unfoldable pub lines_from : Text → Text → List Text
lines_from cur [] = rest_line cur
lines_from cur (c ∷ s) = elim (c == newline) [
  | true ↦ (cur ++ c ∷ []) ∷ lines_from [] s
  | false ↦ lines_from (cur ++ c ∷ []) s
]

-- A line that is no JSON, or has an unknown version, is skipped.
unfoldable pub read_line : Codec → Text → List Entry
read_line c line = elim (c.decode line) [
  | none ↦ []
  | some e ↦ if e.v == version then e ∷ [] else []
]

unfoldable pub read_lines : Codec → List Text → List Entry
read_lines c [] = []
read_lines c (line ∷ lines) = read_line c line ++ read_lines c lines

unfoldable pub read_all : Codec → Text → List Entry
read_all c file = read_lines c (lines_from [] file)
