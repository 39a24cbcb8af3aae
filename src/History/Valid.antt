-- ===== src/History/Valid.antt =====
-- Which entries can be written.
use lanxfer.Base.{
  ◌≤◌, ◌≡◌, ◌⊎◌, ◌↔◌, ◌^◌, false, Text, arith, ok, length, text_eq, text_eq_iff, not, ◌||◌,
}
use lanxfer.History.{
  Entry, validate, dir_in, dir_out, kind_text, kind_file, kind_folder, status_ok, status_failed,
  status_cancelled,
}

pub record IsWritable (e : Entry) : Type 0 where
  pub current : e.v ≡ 1
  pub directed : (e.dir ≡ dir_in) ⊎ (e.dir ≡ dir_out)
  pub of_kind : (e.kind ≡ kind_text) ⊎ (e.kind ≡ kind_file) ⊎ (e.kind ≡ kind_folder)
  pub ended : (e.status ≡ status_ok) ⊎ (e.status ≡ status_failed) ⊎ (e.status ≡ status_cancelled)
  pub bounded : length e.text ≤ 2 ^ 20

one_of_two : (s a b : Text) → (not (text_eq s a || text_eq s b) ≡ false) ↔ ((s ≡ a) ⊎ (s ≡ b))
one_of_two s a b = (
  λ h. ground (arith, text_eq_iff s a, text_eq_iff s b),
  λ h. ground (arith, text_eq_iff s a, text_eq_iff s b),
)

one_of_three :
    (s a b c : Text)
    → (not (text_eq s a || (text_eq s b || text_eq s c)) ≡ false) ↔ ((s ≡ a) ⊎ (s ≡ b) ⊎ (s ≡ c))
one_of_three s a b c = (
  λ h. ground (arith, text_eq_iff s a, text_eq_iff s b, text_eq_iff s c),
  λ h. ground (arith, text_eq_iff s a, text_eq_iff s b, text_eq_iff s c),
)

-- `Validate` accepts exactly the entries of version 1 with one of the two directions, the three
-- kinds and the three outcomes, and with at most 1 MiB of text.
pub validate-IsWritable_iff : (e : Entry) → (validate e ≡ ok tt) ↔ IsWritable e
unfolding validate
validate-IsWritable_iff e = (there, back)
  where
    there : validate e ≡ ok tt → IsWritable e
    there h = record {
      current = ground arith;
      directed = (one_of_two e.dir dir_in dir_out).0 (ground arith);
      of_kind = (one_of_three e.kind kind_text kind_file kind_folder).0 (ground arith);
      ended = (one_of_three e.status status_ok status_failed status_cancelled).0 (ground arith);
      bounded = ground arith;
    }

    back : IsWritable e → validate e ≡ ok tt
    back w =
        let d = (one_of_two e.dir dir_in dir_out).1 w.directed in
        let k = (one_of_three e.kind kind_text kind_file kind_folder).1 w.of_kind in
        let s = (one_of_three e.status status_ok status_failed status_cancelled).1 w.ended in
        ground (arith, w.current, w.bounded, d, k, s)
