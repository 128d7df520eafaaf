-- ===== src/Tests/Libraries.antt =====
-- Functions that meet the interfaces of the crates which the source uses: bounded strings, and a
-- text form of what the log stores. A number is written in unary, a character behind a mark.
use Prim.Native.Char.{Char, code}
use mathlib.Core.Path.{subst}
use raft_ebpf.Prelude.{
  ℕ, zero, suc, ◌+◌, ◌≤◌, ◌<◌, String, len, ◌+++◌, ◌≡◌, ◌≢◌, refl, Bool, Option, none, some, List,
  [], ◌∷◌, ◌++◌, length, ltb, leb, eqb, if◌then◌else◌, arith,
}
use raft_ebpf.Common.{Heapless, PersistentState}
use raft_ebpf.RaftLog.Format.{Json, DiskLogEntry}

abbrev bounded_push : ℕ → String → String → String
bounded_push n s t = if leb (len s + len t) n then s +++ t else s

abbrev bounded_byte : ℕ → List ℕ → ℕ → List ℕ
bounded_byte n v b = if ltb (length v) n then v ++ b ∷ [] else v

pub bounded_push_fits : (n : ℕ) (s t : String) → len s + len t ≤ n → bounded_push n s t ≡ s +++ t
bounded_push_fits n s t h = ground arith

pub bounded_push_full : (n : ℕ) (s t : String) → n < len s + len t → bounded_push n s t ≡ s
bounded_push_full n s t h = ground arith

pub bounded_byte_fits :
    (n : ℕ) (v : List ℕ) (b : ℕ) → length v < n → bounded_byte n v b ≡ v ++ b ∷ []
bounded_byte_fits n v b h = ground arith

pub bounded_byte_full : (n : ℕ) (v : List ℕ) (b : ℕ) → n ≤ length v → bounded_byte n v b ≡ v
bounded_byte_full n v b h = ground arith

instance abbrev pub bounded : Heapless
bounded = record {
  push_str = bounded_push;
  push_str_fits = bounded_push_fits;
  push_str_full = bounded_push_full;
  push = bounded_byte;
  push_fits = bounded_byte_fits;
  push_full = bounded_byte_full;
}

-- writers put their text in front of the rest
abbrev put_number : ℕ → String → String
put_number zero rest = String.◌∷◌ "." rest
put_number (suc n) rest = String.◌∷◌ "I" (put_number n rest)

abbrev put_text : String → String → String
put_text String.[] rest = String.◌∷◌ "." rest
put_text (String.◌∷◌ c s) rest = String.◌∷◌ "c" (String.◌∷◌ c (put_text s rest))

abbrev put_byte : ℕ → String → String
put_byte zero rest = String.◌∷◌ "0" rest
put_byte (suc n) rest = String.◌∷◌ "I" (put_byte n rest)

abbrev put_bytes : List ℕ → String → String
put_bytes [] rest = String.◌∷◌ "." rest
put_bytes (b ∷ bs) rest = put_byte b (put_bytes bs rest)

abbrev put_text? : Option String → String → String
put_text? none rest = String.◌∷◌ "n" rest
put_text? (some t) rest = String.◌∷◌ "s" (put_text t rest)

abbrev put_bytes? : Option (List ℕ) → String → String
put_bytes? none rest = String.◌∷◌ "n" rest
put_bytes? (some t) rest = String.◌∷◌ "s" (put_bytes t rest)

abbrev is_char : Char → Char → Bool
is_char c d = eqb (code c) (code d)

unfoldable pub read_number : String → ℕ × String
read_number String.[] = (0, "")
read_number (String.◌∷◌ c s) =
    if is_char c "." then (0, s) else (suc (read_number s).0, (read_number s).1)

unfoldable pub read_text : String → String × String
read_text String.[] = ("", "")
read_text (String.◌∷◌ c String.[]) = ("", "")
read_text (String.◌∷◌ c (String.◌∷◌ d s)) =
    if is_char c "." then ("", String.◌∷◌ d s) else (String.◌∷◌ d (read_text s).0, (read_text s).1)

abbrev bump : List ℕ → List ℕ
bump [] = []
bump (b ∷ bs) = suc b ∷ bs

unfoldable pub read_bytes : String → List ℕ × String
read_bytes String.[] = ([], "")
read_bytes (String.◌∷◌ c s) =
    if is_char c "."
    then ([], s)
    else if is_char c "0"
    then (0 ∷ (read_bytes s).0, (read_bytes s).1)
    else (bump (read_bytes s).0, (read_bytes s).1)

abbrev read_text? : String → Option String × String
read_text? String.[] = (none, "")
read_text? (String.◌∷◌ c s) =
    if is_char c "s" then (some (read_text s).0, (read_text s).1) else (none, s)

abbrev read_bytes? : String → Option (List ℕ) × String
read_bytes? String.[] = (none, "")
read_bytes? (String.◌∷◌ c s) =
    if is_char c "s" then (some (read_bytes s).0, (read_bytes s).1) else (none, s)

read-put_number : (n : ℕ) (rest : String) → read_number (put_number n rest) ≡ (n, rest)
unfolding read_number
read-put_number zero rest = refl
read-put_number (suc n) rest = rw (read-put_number n rest)

read-put_text : (t rest : String) → read_text (put_text t rest) ≡ (t, rest)
unfolding read_text
read-put_text String.[] String.[] = refl
read-put_text String.[] (String.◌∷◌ d rest) = refl
read-put_text (String.◌∷◌ c t) rest = rw (read-put_text t rest)

read-put_byte :
    (b : ℕ) (s : String) → read_bytes (put_byte b s) ≡ (b ∷ (read_bytes s).0, (read_bytes s).1)
unfolding read_bytes
read-put_byte zero s = refl
read-put_byte (suc b) s = rw (read-put_byte b s)

read-put_bytes : (bs : List ℕ) (rest : String) → read_bytes (put_bytes bs rest) ≡ (bs, rest)
unfolding read_bytes
read-put_bytes [] rest = refl
read-put_bytes (b ∷ bs) rest = rw (read-put_byte b (put_bytes bs rest), read-put_bytes bs rest)

read-put_text? : (t : Option String) (rest : String) → read_text? (put_text? t rest) ≡ (t, rest)
read-put_text? none rest = refl
read-put_text? (some t) rest = rw (read-put_text t rest)

read-put_bytes? :
    (t : Option (List ℕ)) (rest : String) → read_bytes? (put_bytes? t rest) ≡ (t, rest)
read-put_bytes? none rest = refl
read-put_bytes? (some t) rest = rw (read-put_bytes t rest)

abbrev write_line : DiskLogEntry → Option String
write_line d = some (
    put_number d.index
      (put_number d.term (put_text d.command_type (put_text? d.key (put_bytes? d.value "")))))

unfoldable pub read_line : String → Option DiskLogEntry
unfolding read_number read_text read_bytes
read_line s =
    let (index, s1) = read_number s in
    let (term, s2) = read_number s1 in
    let (command_type, s3) = read_text s2 in
    let (key, s4) = read_text? s3 in
    let (value, s5) = read_bytes? s4 in
    some
      (record { index = index; term = term; command_type = command_type; key = key; value = value })

abbrev write_persistent : PersistentState → Option String
write_persistent p = some (put_number p.current_term (put_text? p.voted_for ""))

unfoldable pub read_persistent : String → Option PersistentState
unfolding read_number read_text
read_persistent s =
    let (term, s1) = read_number s in
    let (vote, s2) = read_text? s1 in some (record { current_term = term; voted_for = vote })

same_text : {s t : String} → some s ≡ some t → s ≡ t
same_text e = cc

put_number-ne : (n : ℕ) (rest : String) → put_number n rest ≢ ""
put_number-ne zero rest e = cc
put_number-ne (suc n) rest e = cc

pub read-write_line : (d : DiskLogEntry) {s : String} → write_line d ≡ some s → read_line s ≡ some d
unfolding read_line
read-write_line d e =
    subst (λ (t : String). read_line t ≡ some d) (same_text e)
      (rw (
        read-put_number d.index _,
        read-put_number d.term _,
        read-put_text d.command_type _,
        read-put_text? d.key _,
        read-put_bytes? d.value "",
      ))

pub line_nonempty : (d : DiskLogEntry) {s : String} → write_line d ≡ some s → s ≢ ""
line_nonempty d e = subst (λ (t : String). t ≢ "") (same_text e) (put_number-ne d.index _)

pub read-write_persistent :
    (p : PersistentState) {s : String} → write_persistent p ≡ some s → read_persistent s ≡ some p
unfolding read_persistent
read-write_persistent p e =
    subst (λ (t : String). read_persistent t ≡ some p) (same_text e)
      (rw (read-put_number p.current_term _, read-put_text? p.voted_for ""))

instance abbrev pub unary : Json
unary = record {
  to_line = write_line;
  from_line = read_line;
  to_state = write_persistent;
  from_state = read_persistent;
  to_line_total = λ d. refl;
  from-to_line = read-write_line;
  to_line_nonempty = line_nonempty;
  to_state_total = λ p. refl;
  from-to_state = read-write_persistent;
}
