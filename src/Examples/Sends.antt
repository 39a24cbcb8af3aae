-- ===== src/Examples/Sends.antt =====
-- internal/client: a file and a folder that are sent to a receiver.
use lanxfer.Base.{
  ℕ, refl, true, Option, none, some, Text, codes, arith, ◌==◌, trim_suffix, if◌then◌else◌, [],
}
use lanxfer.Client.{DirPlan}
use lanxfer.Client.Send.{SendOptions, LocalFile, written, send, send_dir}
use lanxfer.Client.Send.Receiver.{Connection, answer_to, reached}
use lanxfer.Client.Send.Sent.{SendOutcome, file_request, send-SendOutcome}
use lanxfer.Client.Send.SentDir.{SendDirOutcome, dir_request, send_dir-SendDirOutcome}
use lanxfer.Examples.Storage.{received-IsFresh}
use lanxfer.Examples.Folders.{upload}
use lanxfer.Examples.Server.{all_on, evening, before, put}

-- A body of length 0 has no declared length.
abbrev declared : ℕ → Option ℕ
declared n = if n == 0 then none else some n

abbrev lan : Connection
lan = record {
  utf8_valid = λ s. true;
  peers_json = codes "[]";
  cfg = all_on;
  env = evening;
  world = before;
  declare = declared;
  remote = put.remote_addr;
  host = put.host;
  body = codes "new";
  stream = upload;
}

abbrev me : SendOptions
me = record { from = codes "mac1"; from_id = codes "0123456789abcdef0123456789abcdef" }

abbrev trim : Text → Text
trim s = trim_suffix s (codes "\n")

abbrev note : LocalFile
note = record { stat = some (true, 3); opens = true }

send-SendOutcome_example :
    SendOutcome trim
      (λ o. true)
      lan
      (codes "a.txt")
      me
      (send trim (λ o. true) (answer_to lan) note (codes "a.txt") me)
      (reached lan (file_request trim (λ o. true) lan (codes "a.txt") me))
send-SendOutcome_example =
    send-SendOutcome trim (λ o. true) lan (codes "a.txt") me note refl refl refl refl
      received-IsFresh refl

abbrev tools : DirPlan
tools = record {
  name = codes "tools";
  files = 0;
  content_size = 0;
  tar_size = 2048;
  skipped = [];
  entries = [];
}

send_dir-SendDirOutcome_example :
    SendDirOutcome trim
      (λ o. true)
      lan
      tools
      me
      (send_dir trim (λ o. true) (answer_to lan) tools written me)
      (reached lan (dir_request trim (λ o. true) lan tools me))
send_dir-SendDirOutcome_example =
    send_dir-SendDirOutcome trim (λ o. true) lan tools me written refl refl (omega arith)
      received-IsFresh refl
