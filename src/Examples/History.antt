-- ===== src/Examples/History.antt =====
-- internal/history on one file.
use lanxfer.Base.{
  ℕ, ◌≡◌, refl, inl, inr, Bool, true, false, List, [], ◌∷◌, ◌++◌, Option, none, some, Text, codes,
  ok, arith, ◌==◌, All, if◌then◌else◌, sym, subst, ap,
}
use lanxfer.History.{
  Entry, Codec, FileSystem, newline, stamp, append, read_all, validate, dir_in, kind_text,
  status_ok, version,
}
use lanxfer.History.Valid.{IsWritable}
use lanxfer.History.Append.{append-AppendOutcome, Added}

abbrev greeting : Entry
greeting = record {
  v = 0;
  time = 0;
  dir = codes "in";
  peer_id = [];
  peer_name = [];
  peer_addr = [];
  kind = codes "text";
  text = codes "hi";
  name = [];
  saved_as = [];
  path = [];
  size = 0;
  files = 0;
  status = codes "ok";
  error = [];
}

-- A codec that knows one entry.
abbrev pub one_line : Text
one_line = codes "x"

abbrev decode_one : Text → Option Entry
decode_one [] = none
decode_one (c ∷ s) = if c == b'x' then some (stamp 7 greeting) else none

abbrev small : Codec
small = record { encode = λ e. some one_line; decode = decode_one }

abbrev pub working : FileSystem
working = record { open_ok = true; inspect_ok = true; write_cut = none; close_ok = true }

blank_small : (l : Text) → small.decode (l ++ newline ∷ []) ≡ small.decode l
blank_small [] = refl
blank_small (c ∷ l) = refl

abbrev IsSmallLine : Text → Type 0
IsSmallLine l = All (λ b. b == newline ≡ false) l × (small.decode l ≡ some (stamp 7 greeting))

lines_small : (l : Text) → small.encode (stamp 7 greeting) ≡ some l → IsSmallLine l
lines_small l h = subst IsSmallLine same ((refl, tt), refl)
  where
    same : one_line ≡ l
    same = cc

stamped-IsWritable : IsWritable (stamp 7 greeting)
unfolding stamp
stamped-IsWritable = record {
  current = refl;
  directed = inl refl;
  of_kind = inl refl;
  ended = inl refl;
  bounded = ground arith;
}

append-AppendOutcome_example :
    Added small
      (stamp 7 greeting)
      (codes "broken")
      (append small working 7 greeting (codes "broken")).1
unfolding append validate stamp lanxfer.Base.text_eq lanxfer.History.write_line
append-AppendOutcome_example =
    append-AppendOutcome small blank_small working 7 greeting (codes "broken") refl lines_small
