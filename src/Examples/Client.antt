-- ===== src/Examples/Client.antt =====
-- internal/client and cmd/lanxfer/record.go: a folder that is sent, and the entry of a send.
use lanxfer.Base.{
  ℕ, ◌≡◌, refl, true, false, [], ◌∷◌, Option, none, some, codes, ok, text_eq, contains_any,
  has_suffix,
}
use lanxfer.Unicode.{ascii}
use lanxfer.Utf8.{runes, is_control}
use lanxfer.Netaddr.{v4}
use lanxfer.History.{Entry, blank, dir_out, kind_file, status_ok}
use lanxfer.Server.Filename.{validate_filename, check_name_length, is_part}
use lanxfer.Server.Requests.{Env}
use lanxfer.Client.{
  FileInfo, Forest, leaf, folder, nil, cons, directory, regular_file, symbolic_link, PlanEntry,
  DirPlan, check_entry_path, count_byte, is_junk,
}
use lanxfer.Client.Scan.{Place, scan_dir}
use lanxfer.Client.Scanned.{IsReadBack, scan_dir-IsReadBack, scan_dir-StreamOutcome}
use lanxfer.Client.Stream.{Header, FileNow, StreamOutcome, tar_size}
use lanxfer.Examples.Server.{evening, home}

abbrev nine_bytes : FileInfo
nine_bytes = record { size = 9; mod_time = 5; exec = false }

-- A folder with a file, and beside it a link and a file of macOS.
abbrev photos : Forest
photos =
    cons (leaf (record { name = codes ".DS_Store"; type = regular_file; info = some nine_bytes })) (
      cons
        (folder (record { name = codes "b"; type = directory; info = some nine_bytes }) true
          (cons
            (leaf (record { name = codes "a.txt"; type = regular_file; info = some nine_bytes }))
            nil))
        (cons (leaf (record { name = codes "l"; type = symbolic_link; info = none })) nil))

abbrev album : Place
album = record {
  has_abs = true;
  base = codes "photos";
  resolves = true;
  stat = some true;
  is_found = true;
  is_readable = true;
  below = photos;
}

abbrev one_block : Header → Option ℕ
one_block h = some 512

abbrev photos_plan : DirPlan
photos_plan = record {
  name = codes "photos";
  files = 1;
  content_size = 9;
  tar_size = 2560;
  skipped = (codes ".DS_Store", codes "system file") ∷ (codes "l", codes "symbolic link") ∷ [];
  entries =
      record { rel = codes "b"; is_dir = true; size = 0; mod_time = 5; exec = false }
      ∷ record { rel = codes "b/a.txt"; is_dir = false; size = 9; mod_time = 5; exec = false }
      ∷ [];
}

photos_scanned : scan_dir ascii (codes "linux") (λ rel. false) one_block album ≡ ok photos_plan
unfolding scan_dir check_entry_path validate_filename is_junk text_eq check_name_length contains_any
    runes is_control has_suffix ascii is_part count_byte tar_size
photos_scanned = refl

scan_dir-IsReadBack_example : IsReadBack ascii (codes "linux") (λ rel. false) photos_plan
scan_dir-IsReadBack_example =
    scan_dir-IsReadBack ascii (codes "linux") (λ rel. false) one_block album photos_plan
      photos_scanned

-- The file has grown.
abbrev grown : PlanEntry → FileNow
grown e = record { opened = true; stat = some (true, 10); copied = true }

scan_dir-StreamOutcome_example : StreamOutcome one_block grown photos_plan.entries 2560
scan_dir-StreamOutcome_example =
    scan_dir-StreamOutcome ascii (codes "linux") (λ rel. false) one_block grown album photos_plan
      photos_scanned

abbrev outgoing : Entry
outgoing = record blank { dir = dir_out; kind = kind_file; status = status_ok }

-- The receiver of the same machine.
abbrev this_machine : Env
this_machine = record evening {
  net = record home {
    parse_ip = λ s. some (v4 0x7F000001);
    parse_addr = λ s. some (v4 0x7F000001);
    parse_addr_port = λ s. some (record { addr = v4 0x7F000001; port = 9 });
  };
  codec = record { encode = λ e. some (codes "x"); decode = λ s. some outgoing };
}
