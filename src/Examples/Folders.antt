-- ===== src/Examples/Folders.antt =====
-- A folder upload: a file in a folder, under a file system that tells letter case apart.
use lanxfer.Base.{
  ℕ, ◌≡◌, refl, true, false, [], ◌∷◌, some, Text, codes, ok, err, arith, lookup, text_eq, length,
}
use lanxfer.Unicode.{ascii}
use lanxfer.Server.Storage.{dir, regular}
use lanxfer.Server.Extract.{
  Files, Extractor, Entry, Item, entry, type_dir, type_reg, Stream, start, extract_items,
  extract_into,
}
use lanxfer.Server.Extract.Unpacked.{Unpacked, extract_into-Unpacked}
use lanxfer.Server.SaveDir.{save_dir}
use lanxfer.Server.SaveDir.Whole.{SaveDirOutcome, save_dir-SaveDirOutcome}
use lanxfer.Examples.Storage.{quiet, received, received-IsFresh}

abbrev pub exact : Files
exact = record { canon = λ p. p; mkdir_ok = λ _. true; open_ok = λ _. true; times_ok = true }

abbrev script : Entry
script = record {
  name = codes "./bin/run";
  type_flag = type_reg;
  size = 2;
  exec = true;
  is_sparse = false;
  content = codes "ls";
  content_ok = true;
}

abbrev pub upload : Stream
upload = record { items = entry script ∷ []; rest_ok = true; total = 2048 }

-- The tree after the upload.
abbrev unpacked : Extractor
unpacked = record (start 2048) {
  root = (codes "bin", dir) ∷ (codes "bin/run", regular true (codes "ls")) ∷ [];
  created = (codes "bin", true) ∷ (codes "bin/run", false) ∷ [];
  written = 2;
  folders = 1;
}

upload_run : extract_into exact ascii (codes "linux") upload 2048 ≡ ok (1, unpacked)
unfolding extract_into extract_items lanxfer.Server.Extract.take_entry
    lanxfer.Server.Extract.entry_path text_eq lanxfer.Base.trim_prefix lanxfer.Base.trim_suffix
    lanxfer.Base.split lanxfer.Server.Extract.check_parts lanxfer.Server.Filename.validate_filename
    lanxfer.Server.Filename.check_name_length lanxfer.Base.contains_any lanxfer.Utf8.runes
    lanxfer.Utf8.is_control lanxfer.Base.has_suffix ascii lanxfer.Server.Filename.is_part
    lanxfer.Base.insert lookup lanxfer.Base.contains lanxfer.Base.cut_prefix lanxfer.Base.has_prefix
    lanxfer.Base.split_from lanxfer.Server.Extract.folder_budget lanxfer.Server.Extract.make_dir
    lanxfer.Server.Extract.make_parent lanxfer.Server.Extract.mkdir_from
    lanxfer.Server.Extract.parent_from lanxfer.Server.Extract.put_file start
    lanxfer.Server.Extract.store_entry lanxfer.Server.Extract.write_entry
upload_run = refl

extract_into-Unpacked_example : Unpacked exact 2048 1 unpacked × (upload.total ≡ 2048)
extract_into-Unpacked_example =
    extract_into-Unpacked exact ascii (codes "linux") upload 2048 1 unpacked upload_run
      (omega arith)

save_dir-SaveDirOutcome_example :
    SaveDirOutcome quiet exact ascii
      (codes "linux")
      (codes "tools")
      upload
      2048
      received
      (save_dir quiet exact ascii (codes "linux") (codes "tools") upload 2048 received)
save_dir-SaveDirOutcome_example =
    save_dir-SaveDirOutcome quiet exact ascii (codes "linux") (codes "tools") upload 2048 received
      (omega arith) received-IsFresh refl
