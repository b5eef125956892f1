-- ===== src/Regex/Pattern.antt =====
-- The text of a pattern, as Go's regexp.MustCompile reads it, for the syntax that the proxy uses:
-- literals, classes, escapes, groups, alternatives, repetitions and (?i) at the start.
use agentx_proxy.Prelude.{
  ℕ, ◌+◌, Bool, true, false, ◌&&◌, ◌||◌, not, Option, none, some, List, [], ◌∷◌, ◌++◌, Bytes, codes,
  drop, leb, ◌==◌, if◌then◌else◌,
}
use agentx_proxy.Prelude.Strings.{lower_byte, upper_byte, has_prefix}
use agentx_proxy.Regex.{
  Regex, eps, at_start, at_end, boundary, byte_in, seq, alt, star, group, is_word,
}

pub data Repeat : Type 0 where
  any_number one_or_more optional : Repeat

pub data Token : Type 0 where
  one_of : (ℕ → Bool) → Token
  line_start line_end word_edge open_group open_plain bar close : Token
  repeated : Repeat → Bool → Token

-- A class that is being read: its bytes so far, the last one, which may start a range, and whether an
-- escape or the end of a range comes next.
pub record Class : Type 0 where
  pub negated : Bool
  pub bytes : ℕ → Bool
  pub last : Option ℕ
  pub escaped : Bool
  pub ranging : Bool

pub data Lexing : Type 0 where
  plain escape opened opened_mark class_start : Lexing
  after_repeat : Repeat → Lexing
  in_class : Class → Lexing

-- `\d`, `\s`, `\w`, or the byte itself.
unfoldable pub escape_class : ℕ → ℕ → Bool
unfolding is_word
escape_class e c =
    if e == b'd'
    then leb b'0' c && leb c b'9'
    else if e == b's'
    then c == b' ' || (c == b'\t' || (c == b'\n' || (c == 12 || c == 13)))
    else if e == b'w'
    then is_word c
    else c == e

-- With (?i), a letter stands for both of its cases.
unfoldable pub folded : Bool → (ℕ → Bool) → ℕ → Bool
unfolding lower_byte upper_byte
folded fold p c = p c || fold && (p (lower_byte c) || p (upper_byte c))

abbrev empty_class : Bool → Class
empty_class negated = record {
  negated = negated;
  bytes = λ c. false;
  last = none;
  escaped = false;
  ranging = false;
}

abbrev end_class : Bool → Class → Token
end_class fold k =
    one_of (λ c. if k.negated then not (folded fold k.bytes c) else folded fold k.bytes c)

abbrev with_bytes : Class → (ℕ → Bool) → Option ℕ → Class
with_bytes k p last = record k {
  bytes = λ c. k.bytes c || p c;
  last = last;
  escaped = false;
  ranging = false;
}

abbrev range_from : Option ℕ → ℕ → ℕ → Bool
range_from none hi c = c == hi || c == b'-'
range_from (some lo) hi c = leb lo c && leb c hi

unfoldable pub class_step : Bool → Class → ℕ → Lexing × List Token
unfolding escape_class folded
class_step fold k c =
    if k.escaped
    then (in_class (with_bytes k (escape_class c) none), [])
    else if c == b']'
    then (plain, end_class fold (if k.ranging then with_bytes k (λ d. d == b'-') none else k) ∷ [])
    else if c == b'\\'
    then (in_class (record k { escaped = true }), [])
    else if k.ranging
    then (in_class (with_bytes k (range_from k.last c) none), [])
    else if c == b'-'
    then (in_class (record k { ranging = true }), [])
    else (in_class (with_bytes k (λ d. d == c) (some c)), [])

unfoldable pub plain_step : Bool → ℕ → Lexing × List Token
unfolding folded
plain_step fold c =
    if c == b'\\'
    then (escape, [])
    else if c == b'('
    then (opened, [])
    else if c == b'['
    then (class_start, [])
    else if c == b')'
    then (plain, close ∷ [])
    else if c == b'|'
    then (plain, bar ∷ [])
    else if c == b'^'
    then (plain, line_start ∷ [])
    else if c == b'$'
    then (plain, line_end ∷ [])
    else if c == b'.'
    then (plain, one_of (λ d. not (d == b'\n')) ∷ [])
    else if c == b'*'
    then (after_repeat any_number, [])
    else if c == b'+'
    then (after_repeat one_or_more, [])
    else if c == b'?'
    then (after_repeat optional, [])
    else (plain, one_of (folded fold (λ d. d == c)) ∷ [])

unfoldable pub lex_step : Bool → Lexing → ℕ → Lexing × List Token
unfolding plain_step class_step escape_class folded
lex_step fold plain c = plain_step fold c
lex_step fold escape c =
    if c == b'b'
    then (plain, word_edge ∷ [])
    else (plain, one_of (folded fold (escape_class c)) ∷ [])
lex_step fold opened c =
    if c == b'?'
    then (opened_mark, [])
    else (let (l, ts) = plain_step fold c in (l, open_group ∷ ts))
lex_step fold opened_mark c = (plain, open_plain ∷ [])
lex_step fold class_start c =
    if c == b'^' then (in_class (empty_class true), []) else class_step fold (empty_class false) c
lex_step fold (after_repeat r) c =
    if c == b'?'
    then (plain, repeated r false ∷ [])
    else (let (l, ts) = plain_step fold c in (l, repeated r true ∷ ts))
lex_step fold (in_class k) c = class_step fold k c

abbrev last_token : Lexing → List Token
last_token (after_repeat r) = repeated r true ∷ []
last_token _ = []

unfoldable pub tokens : Bool → Lexing → Bytes → List Token
unfolding lex_step
tokens fold l [] = last_token l
tokens fold l (c ∷ s) = let (l', ts) = lex_step fold l c in ts ++ tokens fold l' s

-- A group that is being read: its number, if it has one, the alternatives before, and the items of
-- the last one, the last item first.
pub record Frame : Type 0 where
  pub number : Option ℕ
  pub done : Option Regex
  pub items : List Regex

abbrev new_frame : Option ℕ → Frame
new_frame number = record { number = number; done = none; items = [] }

unfoldable pub in_order : Regex → List Regex → Regex
in_order r [] = r
in_order r (i ∷ items) = in_order (seq i r) items

abbrev alternatives : Frame → Regex
alternatives f =
    let last = in_order eps f.items in
    elim f.done as (λ _. Regex) [ none ↦ last | some r ↦ alt r last ]

abbrev group_of : Frame → Regex
group_of f = elim f.number as (λ _. Regex) [
  | none ↦ alternatives f
  | some i ↦ group i (alternatives f)
]

abbrev push : Regex → Frame → Frame
push r f = record f { items = r ∷ f.items }

abbrev repeat_item : Repeat → Bool → Regex → Regex
repeat_item any_number greedy r = star greedy r
repeat_item one_or_more greedy r = seq r (star greedy r)
repeat_item optional true r = alt r eps
repeat_item optional false r = alt eps r

abbrev repeat_last : Repeat → Bool → Frame → Frame
repeat_last k greedy f = elim f.items as (λ _. Frame) [
  | [] ↦ f
  | r ∷ rs ↦ record f { items = repeat_item k greedy r ∷ rs }
]

-- The tree, with the number of the next group and the groups around the one that is being read.
unfoldable pub build : ℕ → Frame → List Frame → List Token → Regex
unfolding in_order
build n f outer [] = alternatives f
build n f outer (one_of p ∷ ts) = build n (push (byte_in p) f) outer ts
build n f outer (line_start ∷ ts) = build n (push at_start f) outer ts
build n f outer (line_end ∷ ts) = build n (push at_end f) outer ts
build n f outer (word_edge ∷ ts) = build n (push boundary f) outer ts
build n f outer (open_group ∷ ts) = build (n + 1) (new_frame (some n)) (f ∷ outer) ts
build n f outer (open_plain ∷ ts) = build n (new_frame none) (f ∷ outer) ts
build n f outer (bar ∷ ts) =
    build n (record f { done = some (alternatives f); items = [] }) outer ts
build n f [] (close ∷ ts) = build n f [] ts
build n f (g ∷ outer) (close ∷ ts) = build n (push (group_of f) g) outer ts
build n f outer (repeated k greedy ∷ ts) = build n (repeat_last k greedy f) outer ts

abbrev compiled : Bool → Bytes → Regex
compiled fold s = build 1 (new_frame none) [] (tokens fold plain s)

-- `regexp.MustCompile`
unfoldable pub compile : Bytes → Regex
unfolding build tokens has_prefix
compile s = if has_prefix s (codes "(?i)") then compiled true (drop 4 s) else compiled false s
