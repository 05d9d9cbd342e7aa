-- ===== src/Server/RewriteUri/Examples.antt =====
-- Runs of `RegexReplaceString` (src/RewriteUri.c) and instances of its theorems, with a template's
-- matcher for placeholders of one digit.
use hetao.Base.{
  ℕ, suc, ◌+◌, ◌-◌, ◌≤◌, ◌<◌, ◌≡◌, refl, ◌&&◌, Option, none, some, List, [], ◌∷◌, arith, ◌==◌,
  if◌then◌else◌, get_or,
}
use hetao.Base.Int.{negsuc}
use hetao.Http.Parse.Runs.{text_at}
use hetao.Http.Transport.{bytes_from}
use hetao.Http.Types.{Memory}
use hetao.Server.RewriteUri.{
  Group, Match, matches, no_match, Replaced, rewritten, refused_with, replace_round, replace_loop,
  regex_replace_string,
}
use hetao.Server.RewriteUri.Round.{
  meant, CanReplace, round_text, replace_round-Replaces, replace_round-shorter,
}
use Prim.Native.String.{String}

abbrev group_of : ℕ → ℕ → Group
group_of a b = record { start = a; end = b }

abbrev find_placeholder : ℕ → List ℕ → Match
find_placeholder p [] = no_match
find_placeholder p (x ∷ xs) =
    let rest = find_placeholder (suc p) xs in
    if (x == b'(') && (get_or xs 1 0 == b')')
    then matches (group_of p (p + 3)) (group_of p (p + 3) ∷ [])
    else rest

-- The groups 0, 1 and 2 of a match in `abcdefgh`.
abbrev two_groups : ℕ → ℕ → List ℕ → Match
two_groups n k subject = matches (group_of 0 8) (group_of 0 n ∷ group_of n (n + k) ∷ [])

abbrev rewrite : ℕ → ℕ → String → ℕ → Replaced
rewrite n k template len =
    regex_replace_string (two_groups n k) (find_placeholder 0) (text_at "abcdefgh") 8
      (text_at template) len 32

abbrev shown : Replaced → Option (List ℕ)
shown (rewritten base n) = some (bytes_from base 0 n)
shown r = none

abbrev shows : String → ℕ → Option (List ℕ)
shows text n = some (bytes_from (text_at text) 0 n)

long_group : shown (rewrite 4 2 "/x(1)y" 6) ≡ shows "/xabcdy" 7
unfolding regex_replace_string replace_loop replace_round
long_group = refl

-- A group of one byte: `/axyz` is meant.
short_group : shown (rewrite 1 1 "/(1)xyz" 7) ≡ shows "/ax)x" 5
unfolding regex_replace_string replace_loop replace_round
short_group = refl

-- Of two placeholders side by side the second stays: `/abcdef` is meant.
side_by_side : shown (rewrite 3 3 "/(1)(2)" 7) ≡ shows "/abc(2)" 7
unfolding regex_replace_string replace_loop replace_round
side_by_side = refl

unknown_group : rewrite 3 3 "/(7)" 4 ≡ refused_with (negsuc 10)
unfolding regex_replace_string replace_loop replace_round
unknown_group = refl

abbrev stop_here : Memory → ℕ → ℕ → ℕ → Replaced
stop_here base p remain n = rewritten base n

abbrev groups_of : ℕ → List Group
groups_of n = group_of 0 8 ∷ group_of 0 n ∷ []

long_can :
    CanReplace stop_here (text_at "abcdefgh") (groups_of 4) 32 (text_at "/x(1)y") 0 6 (group_of 2 5)
long_can = record {
  is_ordered = omega arith;
  is_within = omega arith;
  names_group = omega arith;
  room_left = omega arith;
  stays_inside = refl;
}

abbrev long_text : Memory
long_text =
    round_text stop_here (text_at "abcdefgh") (groups_of 4) 32 (text_at "/x(1)y") 0 6 (group_of 2 5)

replace_round-Replaces_example :
    (replace_round stop_here
        (text_at "abcdefgh")
        (groups_of 4)
        32
        (text_at "/x(1)y")
        0
        6
        (group_of 2 5)
      ≡ rewritten long_text 7)
    × ((i : ℕ) → i < 7 → long_text i ≡ meant (text_at "/x(1)y") (text_at "abcdefgh") 2 5 0 4 i)
replace_round-Replaces_example =
    replace_round-Replaces stop_here (text_at "abcdefgh") (groups_of 4) 32 (text_at "/x(1)y") 0 6
      (group_of 2 5) long_can (omega arith)

short_can :
    CanReplace stop_here
      (text_at "abcdefgh")
      (groups_of 1)
      32
      (text_at "/(1)xyz")
      0
      7
      (group_of 1 4)
short_can = record {
  is_ordered = omega arith;
  is_within = omega arith;
  names_group = omega arith;
  room_left = omega arith;
  stays_inside = refl;
}

abbrev short_text : Memory
short_text =
    round_text stop_here (text_at "abcdefgh") (groups_of 1) 32 (text_at "/(1)xyz") 0 7
      (group_of 1 4)

replace_round-shorter_example :
    (replace_round stop_here
        (text_at "abcdefgh")
        (groups_of 1)
        32
        (text_at "/(1)xyz")
        0
        7
        (group_of 1 4)
      ≡ rewritten short_text 5)
    × (3 < 5)
    × ((i : ℕ)
        → 3 ≤ i
        → i < 5
        → (short_text i ≡ text_at "/(1)xyz" i)
          × (meant (text_at "/(1)xyz") (text_at "abcdefgh") 1 4 0 1 i
              ≡ text_at "/(1)xyz" (i + 3 - 1)))
replace_round-shorter_example =
    replace_round-shorter stop_here (text_at "abcdefgh") (groups_of 1) 32 (text_at "/(1)xyz") 0 7
      (group_of 1 4) short_can (omega arith)
