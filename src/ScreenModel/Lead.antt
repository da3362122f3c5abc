-- ===== src/ScreenModel/Lead.antt =====
-- src/screen_model.rs: `Lead`, `parse_lead` and `held_tail_start`.
use mobux.Prelude.{
  ℕ, suc, ◌+◌, ◌-◌, ◌*◌, Bool, true, false, ◌&&◌, ◌||◌, not, List, [], ◌∷◌, Option, none, some, ltb,
  ◌==◌, within, if◌then◌else◌, length, get_elem?, drop, is_empty, all, map,
}
use mobux.Utf8.{Bytes}

pub data Lead : Type 0 where
  csi : Bool → Bool → List ℕ → ℕ → ℕ → Lead
  esc : ℕ → Lead
  other : Lead

-- `Lead::len`
unfoldable pub len : Lead → ℕ
len (csi _ _ _ _ n) = n
len (esc _) = 2
len other = 0

abbrev or_zero : Option ℕ → ℕ
or_zero none = 0
or_zero (some n) = n

unfoldable pub param : Lead → ℕ → ℕ
param (csi _ _ params _ _) index = or_zero (get_elem? params index)
param (esc _) index = 0
param other index = 0

abbrev pub eq_bool : Bool → Bool → Bool
eq_bool true b = b
eq_bool false b = not b

unfoldable pub is_csi : Lead → Bool → ℕ → Bool
is_csi (csi private intermediate _ final_byte _) want_private want_final =
    not intermediate && (eq_bool private want_private && final_byte == want_final)
is_csi (esc _) want_private want_final = false
is_csi other want_private want_final = false

unfoldable pub is_alt_switch : Lead → ℕ → Bool
unfolding is_csi param
is_alt_switch lead final_byte =
    is_csi lead true final_byte
    && (param lead 0 == 47 || param lead 0 == 1047 || param lead 0 == 1049)

-- `matches!(lead, Lead::Esc { byte })`
unfoldable pub is_esc : Lead → ℕ → Bool
is_esc (esc b) byte = b == byte
is_esc (csi _ _ _ _ _) byte = false
is_esc other byte = false

-- The bytes at the front that pass the test, and the rest: a `while` loop over `run.get(i)`.
unfoldable pub span : (ℕ → Bool) → Bytes → Bytes × Bytes
span test [] = ([], [])
span test (b ∷ rest) =
    let (front, back) = span test rest in if test b then (b ∷ front, back) else ([], b ∷ rest)

abbrev cons_piece : ℕ → List Bytes → List Bytes
cons_piece b [] = (b ∷ []) ∷ []
cons_piece b (piece ∷ pieces) = (b ∷ piece) ∷ pieces

-- `split(separator)`: always at least one piece.
unfoldable pub split : ℕ → Bytes → List Bytes
split separator [] = [] ∷ []
split separator (b ∷ rest) =
    let pieces = split separator rest in if b == separator then [] ∷ pieces else cons_piece b pieces

abbrev first_piece : List Bytes → Bytes
first_piece [] = []
first_piece (piece ∷ _) = piece

unfoldable pub decimal : ℕ → Bytes → ℕ
decimal n [] = n
decimal n (x ∷ xs) = decimal (n * 10 + (x - b'0')) xs

-- `parse::<u16>().unwrap_or(0)`; a `+` does not get here, since no parameter byte is one.
unfoldable pub parse_u16 : Bytes → ℕ
unfolding decimal all
parse_u16 piece =
    if is_empty piece || not (all (within b'0' b'9') piece)
    then 0
    else if ltb (decimal 0 piece) 65536
    then decimal 0 piece
    else 0

-- `;` between parameters, and only what stands before a `:` in each. The bytes are ASCII.
unfoldable pub parse_params : Bytes → List ℕ
unfolding split parse_u16
parse_params bytes = map (λ piece. parse_u16 (first_piece (split b':' piece))) (split b';' bytes)

abbrev is_private_mark : ℕ → Bool
is_private_mark b = b == b'?' || b == b'<' || b == b'=' || b == b'>'

abbrev final_of : Bool → Bytes → Bytes → ℕ → Bytes → Lead
final_of private params intermediates at [] = other
final_of private params intermediates at (final ∷ _) =
    if within 0x40 0x7E final
    then csi private (not (is_empty intermediates)) (parse_params params) final (at + 1)
    else other

-- `parse_lead` behind `ESC [`, from index `i`.
unfoldable pub parse_csi : Bool → ℕ → Bytes → Lead
unfolding span parse_params
parse_csi private i rest =
    let (params, after) = span (within 0x30 0x3F) rest in
    let (intermediates, tail) = span (within 0x20 0x2F) after in
    final_of private params intermediates (i + length params + length intermediates) tail

abbrev csi_from : Bytes → Lead
csi_from [] = parse_csi false 2 []
csi_from (b ∷ rest) =
    if is_private_mark b then parse_csi true 3 rest else parse_csi false 2 (b ∷ rest)

unfoldable pub parse_lead : Bytes → Lead
unfolding parse_csi
parse_lead [] = other
parse_lead (x ∷ []) = other
parse_lead (x ∷ y ∷ rest) =
    if not (x == 0x1B) then other else if not (y == b'[') then esc y else csi_from rest

abbrev one_more : Option ℕ → Option ℕ
one_more none = none
one_more (some i) = some (suc i)

-- `rposition` of ESC
unfoldable pub last_esc : Bytes → Option ℕ
last_esc [] = none
last_esc (b ∷ rest) =
    let later = last_esc rest in
    elim later [ some i ↦ some (suc i) | none ↦ if b == 0x1B then some 0 else none ]

-- The test `partial_csi` on the tail that begins at the last ESC.
unfoldable pub is_partial : Bytes → Bool
unfolding all
is_partial [] = false
is_partial (e ∷ []) = true
is_partial (e ∷ b ∷ rest) =
    ltb (length (e ∷ b ∷ rest)) 32 && (b == b'[' && all (within 0x20 0x3F) rest)

unfoldable pub held_tail_start : Bytes → ℕ
unfolding last_esc is_partial
held_tail_start buf = elim (last_esc buf) [
  | none ↦ length buf
  | some i ↦ if is_partial (drop i buf) then i else length buf
]
