-- ===== src/Shared/Text.antt =====
-- What the program uses of Python's text: joining, decimal printing, ASCII case, the first line of
-- a text, and the search for a whole word. Texts that are folded are taken to be ASCII.
pub mod Decimal
use Prim.Native.Nat.{ℕ, zero, suc, ◌-◌, ◌/◌, ◌%◌}
use Prim.Native.Char.{Char, code}
use Prim.Native.String.{String, char_at}
use Prim.Native.String
use mathlib.Core.Bool.{Bool, true, false, ◌&&◌, ◌||◌, xor}
use mathlib.Core.Option.{Option, none, some}
use mathlib.Core.List.{List, [], ◌∷◌}
use sysadmin_assistant.Shared.Tests.{ltb, leb, ◌==◌, if◌then◌else◌}

-- An f-string is the concatenation of its pieces.
unfoldable pub concat : List String → String
concat [] = ""
concat (s ∷ ss) = String.◌++◌ s (concat ss)

-- `sep.join(parts)`
unfoldable pub join : String → List String → String
join sep [] = ""
join sep (s ∷ []) = s
join sep (s ∷ t ∷ ss) = String.◌++◌ s (String.◌++◌ sep (join sep (t ∷ ss)))

unfoldable pub digit : ℕ → String
digit d = String.◌∷◌ (char_at "0123456789" d) ""

unfoldable pub show_loop : ℕ → ℕ → String → String
unfolding digit
show_loop zero n acc = acc
show_loop (suc fuel) n acc =
    let rest = show_loop fuel (n / 10) (String.◌++◌ (digit (n % 10)) acc) in
    if ltb n 10 then String.◌++◌ (digit n) acc else rest

-- `str(n)` of a number.
unfoldable pub show : ℕ → String
unfolding show_loop
show n = show_loop (suc n) n ""

map_text : (Char → Char) → String → String
map_text f String.[] = ""
map_text f (String.◌∷◌ c s) = String.◌∷◌ (f c) (map_text f s)

lower_char : Char → Char
lower_char c =
    if leb b'A' (code c) && leb (code c) b'Z'
    then char_at "abcdefghijklmnopqrstuvwxyz" (code c - b'A')
    else c

upper_char : Char → Char
upper_char c =
    if leb b'a' (code c) && leb (code c) b'z'
    then char_at "ABCDEFGHIJKLMNOPQRSTUVWXYZ" (code c - b'a')
    else c

-- `s.lower()`
unfoldable pub lower : String → String
unfolding map_text lower_char
lower s = map_text lower_char s

-- `s.upper()`
unfoldable pub upper : String → String
unfolding map_text upper_char
upper s = map_text upper_char s

-- Where `splitlines` cuts an ASCII text.
is_line_end : Char → Bool
is_line_end c = (leb 10 (code c) && leb (code c) 13) || (leb 28 (code c) && leb (code c) 30)

line : String → String
unfolding is_line_end
line String.[] = ""
line (String.◌∷◌ c s) = if is_line_end c then "" else String.◌∷◌ c (line s)

-- `s.splitlines()[0]`, which raises an IndexError on the empty text.
unfoldable pub first_line : String → Option String
unfolding line
first_line String.[] = none
first_line (String.◌∷◌ c s) = some (line (String.◌∷◌ c s))

-- `\w` on ASCII.
unfoldable pub is_word_char : Char → Bool
is_word_char c =
    (leb b'a' (code c) && leb (code c) b'z')
    || (leb b'A' (code c) && leb (code c) b'Z')
    || (leb b'0' (code c) && leb (code c) b'9')
    || (code c == b'_')

begins_word : String → Bool
unfolding is_word_char
begins_word String.[] = false
begins_word (String.◌∷◌ c s) = is_word_char c

-- The text behind the prefix `p`, and whether the last character read is a word character.
after_prefix : Bool → String → String → Option (Bool × String)
unfolding is_word_char
after_prefix b String.[] s = some (b, s)
after_prefix b (String.◌∷◌ c p) String.[] = none
after_prefix b (String.◌∷◌ c p) (String.◌∷◌ d s) =
    let rest = after_prefix (is_word_char d) p s in if code c == code d then rest else none

-- Does `name` stand here, between two word boundaries?
word_here : Bool → String → String → Bool
unfolding after_prefix begins_word
word_here before name s = elim (after_prefix before name s) [
  | none ↦ false
  | some (b, rest) ↦ xor before (begins_word s) && xor b (begins_word rest)
]

word_from : Bool → String → String → Bool
unfolding word_here is_word_char
word_from before name String.[] = word_here before name ""
word_from before name (String.◌∷◌ c s) =
    let rest = word_from (is_word_char c) name s in
    if word_here before name (String.◌∷◌ c s) then true else rest

-- `re.search(rf"\b{re.escape(name)}\b", title)`
unfoldable pub contains_word : String → String → Bool
unfolding word_from
contains_word name title = word_from false name title

-- ASCII whitespace, as `split` and `\s` read it.
unfoldable pub is_space : Char → Bool
is_space c =
    code c == 32 || (leb 9 (code c) && leb (code c) 13) || (leb 28 (code c) && leb (code c) 31)

-- The word in front, and the words behind it.
unfoldable pub add_char : Char → Bool → List String → List String
add_char c joined [] = String.◌∷◌ c "" ∷ []
add_char c true (w ∷ ws) = String.◌∷◌ c w ∷ ws
add_char c false (w ∷ ws) = String.◌∷◌ c "" ∷ w ∷ ws

unfoldable pub starts_word : String → Bool
unfolding is_space
starts_word String.[] = false
starts_word (String.◌∷◌ c s) = if is_space c then false else true

-- `s.split()`
unfoldable pub words : String → List String
unfolding is_space add_char starts_word
words String.[] = []
words (String.◌∷◌ c s) =
    let rest = words s in if is_space c then rest else add_char c (starts_word s) rest

unfoldable pub is_empty : String → Bool
is_empty String.[] = true
is_empty (String.◌∷◌ c s) = false

-- `s.lstrip()`
unfoldable pub lstrip : String → String
lstrip String.[] = ""
lstrip (String.◌∷◌ c s) = let rest = lstrip s in if is_space c then rest else String.◌∷◌ c s

-- `s.rstrip()`
unfoldable pub rstrip : String → String
unfolding is_empty
rstrip String.[] = ""
rstrip (String.◌∷◌ c s) =
    let rest = rstrip s in if is_space c && is_empty rest then "" else String.◌∷◌ c rest

-- `len(s)`
abbrev pub text_length : String → ℕ
text_length String.[] = 0
text_length (String.◌∷◌ c s) = suc (text_length s)

-- `\d`
unfoldable pub is_digit : Char → Bool
is_digit c = leb b'0' (code c) && leb (code c) b'9'
