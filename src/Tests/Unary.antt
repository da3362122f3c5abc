-- ===== src/Tests/Unary.antt =====
-- A concrete reader and printer of the record's lines: a value is a list of numbers, printed in unary.
use mobux.External.{Json}
use mobux.Prelude.{
  ℕ, zero, suc, ◌+◌, ◌≡◌, refl, ◌∙◌, ap, Bool, true, false, List, [], ◌∷◌, Option, none, some,
  arith, ◌==◌, if◌then◌else◌, length, all, is_empty,
}
use mobux.SessionHistory.Entry.{HistoryEntry}
use mobux.SessionHistory.Store.Lines.{is_blank}
use mobux.SessionHistory.Store.ReadBack.{IsClean}
use mobux.Strings.Lines.{is_printed}
use mobux.SessionHistory.Store.Restart.{PrintsEntries, entry_seq, entry_session}
use mobux.SessionHistory.Store.{seq_of, command_tmux_session}
use mobux.Utf8.RoundTrip.{is_ascii, from_utf8-ascii}
use mobux.Utf8.{Bytes, Text, encode, trim_end, from_utf8, valid}

abbrev pub Value : Type 0
Value = List ℕ

-- A number is as many "a"s, and a "b".
print_number : ℕ → Bytes → Bytes
print_number zero rest = b'b' ∷ rest
print_number (suc n) rest = b'a' ∷ print_number n rest

unfoldable pub print_value : Value → Bytes
unfolding print_number
print_value [] = []
print_value (n ∷ v) = print_number n (print_value v)

unfoldable pub read_value : ℕ → Bytes → Value
read_value k [] = []
read_value k (b ∷ bytes) =
    let v = read_value 0 bytes in let w = read_value (k + 1) bytes in if b == b'b' then k ∷ v else w

read-print_number :
    (n k : ℕ) (rest : Bytes) → read_value k (print_number n rest) ≡ (k + n) ∷ read_value 0 rest
unfolding read_value print_number
read-print_number zero k rest = ap (λ i. i ∷ read_value 0 rest) (omega arith)
read-print_number (suc n) k rest =
    read-print_number n (k + 1) rest ∙ ap (λ i. i ∷ read_value 0 rest) (omega arith)

read-print_value : (v : Value) → read_value 0 (print_value v) ≡ v
unfolding print_value read_value
read-print_value [] = refl
read-print_value (n ∷ v) =
    read-print_number n 0 (print_value v) ∙ rw (read-print_value v) (ap (λ i. i ∷ v) (omega arith))

-- The fields, by the length of their names: the number, a mark of a command's line, and the session.
unfoldable pub get_field : Value → Bytes → Option Value
get_field [] key = none
get_field (seq ∷ v) key = elim v [
  | [] ↦ none
  | mark ∷ session ↦
      if length key == 3
      then some (seq ∷ [])
      else if length key == 7
      then (if mark == 1 then some [] else none)
      else if length key == 11
      then some session
      else none
]

abbrev pub first : Value → Option ℕ
first [] = none
first (n ∷ _) = some n

abbrev pub unary_json : Json
unary_json = record {
  Value = Value;
  from_slice = λ bytes. some (read_value 0 bytes);
  to_string = print_value;
  get = get_field;
  as_u64 = first;
  as_str = λ v. some v;
  insert = λ v key w. v;
  of_str = λ bytes. bytes;
  of_u64 = λ n. n ∷ [];
}

abbrev entry_value : HistoryEntry → Value
entry_value (HistoryEntry.command c) = c.seq ∷ 1 ∷ encode c.tmux_session
entry_value (HistoryEntry.raw r) = r.seq ∷ 0 ∷ []

unfoldable pub print_entry : HistoryEntry → Bytes
unfolding print_value
print_entry e = print_value (entry_value e)

all-print_number :
    (test : ℕ → Bool) (n : ℕ) (rest : Bytes)
    → test b'a' ≡ true
    → test b'b' ≡ true
    → all test rest ≡ true
    → all test (print_number n rest) ≡ true
unfolding print_number all
all-print_number test zero rest a b h = rw b h
all-print_number test (suc n) rest a b h = rw a (all-print_number test n rest a b h)

all-print_value :
    (test : ℕ → Bool) (v : Value)
    → test b'a' ≡ true
    → test b'b' ≡ true
    → all test (print_value v) ≡ true
unfolding print_value all
all-print_value test [] a b = refl
all-print_value test (n ∷ v) a b =
    all-print_number test n (print_value v) a b (all-print_value test v a b)

trim_end-a : (t : Text) → is_empty (trim_end (b'a' ∷ t)) ≡ false
unfolding trim_end
trim_end-a t = trimmed (trim_end t) refl
  where
    trimmed : (u : Text) → trim_end t ≡ u → is_empty (trim_end (b'a' ∷ t)) ≡ false
    trimmed [] e = rw (e, trim_end) refl
    trimmed (d ∷ u) e = rw (e, trim_end) refl

trim_end-b : (t : Text) → is_empty (trim_end (b'b' ∷ t)) ≡ false
unfolding trim_end
trim_end-b t = trimmed (trim_end t) refl
  where
    trimmed : (u : Text) → trim_end t ≡ u → is_empty (trim_end (b'b' ∷ t)) ≡ false
    trimmed [] e = rw (e, trim_end) refl
    trimmed (d ∷ u) e = rw (e, trim_end) refl

print_number-not_blank : (n : ℕ) (rest : Bytes) → is_empty (trim_end (print_number n rest)) ≡ false
unfolding print_number
print_number-not_blank zero rest = trim_end-b rest
print_number-not_blank (suc n) rest = trim_end-a (print_number n rest)

is_blank-text :
    (line : Bytes) → from_utf8 line ≡ valid line → is_blank line ≡ is_empty (trim_end line)
unfolding is_blank
is_blank-text line e = rw e refl

print_value-IsClean : (n : ℕ) (v : Value) → IsClean (print_value (n ∷ v))
print_value-IsClean n v =
    let line = print_value (n ∷ v) in
    let text : from_utf8 line ≡ valid line =
      from_utf8-ascii line (all-print_value is_ascii (n ∷ v) refl refl) in
    record {
      printed = all-print_value is_printed (n ∷ v) refl refl;
      text = line;
      is_text = text;
      not_blank =
          is_blank-text line text ∙ unfold print_value in print_number-not_blank n (print_value v);
    }

print_entry-IsClean : (e : HistoryEntry) → IsClean (print_entry e)
unfolding print_entry
print_entry-IsClean (HistoryEntry.command c) = print_value-IsClean c.seq (1 ∷ encode c.tmux_session)
print_entry-IsClean (HistoryEntry.raw r) = print_value-IsClean r.seq (0 ∷ [])

reads_seq : (e : HistoryEntry) → seq_of unary_json (entry_value e) ≡ some (entry_seq e)
unfolding get_field
reads_seq (HistoryEntry.command c) = refl
reads_seq (HistoryEntry.raw r) = refl

reads_session :
    (e : HistoryEntry) → command_tmux_session unary_json (entry_value e) ≡ entry_session e
unfolding get_field command_tmux_session
reads_session (HistoryEntry.command c) = refl
reads_session (HistoryEntry.raw r) = refl

pub print_entry-PrintsEntries : PrintsEntries unary_json print_entry
unfolding print_entry
print_entry-PrintsEntries = record {
  clean = print_entry-IsClean;
  value = entry_value;
  reads = λ e. ap some (read-print_value (entry_value e));
  reads_seq = reads_seq;
  reads_session = reads_session;
}
