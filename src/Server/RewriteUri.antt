-- ===== src/Server/RewriteUri.antt =====
-- `RegexReplaceString` of src/RewriteUri.c: the placeholders of a template, such as `(1)`, are
-- replaced by what the groups of a pattern have matched. `pcre_exec` is a parameter.
pub mod Round
pub mod Examples
use hetao.Base.{
  ℕ, zero, suc, ◌+◌, ◌-◌, ◌*◌, Bool, not, ◌&&◌, ◌||◌, List, [], ◌∷◌, ltb, leb, ◌==◌, if◌then◌else◌,
  length, get_or,
}
use hetao.Base.Int.{ℤ, pos, negsuc}
use hetao.Http.Body.{memmove}
use hetao.Http.Transport.{bytes_from}
use hetao.Http.Types.{Memory}

-- A group's offsets in the subject, `ovector[2*i]` and `ovector[2*i+1]`. A group that took no part
-- in the match is an empty one.
pub record Group : Type 0 where
  pub start : ℕ
  pub end : ℕ

-- What `pcre_exec` returns: a number of groups above 0 with their offsets; 0 or
-- PCRE_ERROR_NOMATCH; or another error.
pub data Match : Type 0 where
  matches : Group → List Group → Match
  no_match match_error : Match

-- How the function ends: with 0, the new text and its length; with another code; in undefined
-- behaviour, where it reads or writes outside `new_uri`; or not within the rounds given.
pub data Replaced : Type 0 where
  rewritten : Memory → ℕ → Replaced
  refused_with : ℤ → Replaced
  out_of_bounds : Replaced
  rounds_used_up : Replaced

-- The template's pattern has digits only between the parentheses, so that no term is below zero:
-- `for( index = 0 , ... ; p_index < p_index_end ; p_index++ ) index = index * 10 + (*p_index)-'0' ;`
abbrev pub read_index : Memory → ℕ → ℕ → ℕ → ℕ
read_index base p zero index = index
read_index base p (suc n) index = read_index base (suc p) n (index * 10 + base p - b'0')

abbrev pub empty_group : Group
empty_group = record { start = 0; end = 0 }

-- `memmove` within `new_uri`, and `memcpy` from `uri`.
abbrev pub copy_from : Memory → ℕ → Memory → ℕ → ℕ → Memory
copy_from base at source from n i =
    if leb at i && ltb i (at + n) then source (from + (i - at)) else base i

-- The text where a round has replaced the placeholder from `p + t2` to `p + t3` by the bytes of
-- `uri` from `g` on, `n` of them; `old` and `new` are the lengths of the whole text.
abbrev pub replaced_text : Memory → Memory → ℕ → ℕ → ℕ → ℕ → ℕ → ℕ → Memory
replaced_text base uri p t2 t3 g n new =
    copy_from (if n == t3 - t2 then base else memmove base (p + t2 + n) (p + t3) (new - t3))
      (p + t2) uri g n

-- The whole text's new length, where `n` bytes stand for the placeholder.
abbrev pub new_length : ℕ → ℕ → Group → ℕ
new_length old n t = old + n - (t.end - t.start)

-- Whether `memmove` reads or writes outside the `size` bytes of the text, or has a length below 0.
abbrev pub leaves_text : ℕ → ℕ → ℕ → ℕ → Group → Bool
leaves_text size p new n t =
    not (n == t.end - t.start)
    && (ltb new t.end || (ltb size (p + new) || ltb size (p + t.start + n + (new - t.end))))

-- The first group of the template's match is the placeholder, and `g` the group that it names.
abbrev pub put_group :
    (Memory → ℕ → ℕ → ℕ → Replaced) → Memory → ℕ → Memory → ℕ → ℕ → Group → Group → Replaced
put_group go_on uri size base p old t g =
    let n = g.end - g.start in
    let new = new_length old n t in
    if leb size new
    then refused_with (negsuc 11)
    else if leaves_text size p new n t
    then out_of_bounds
    else go_on (replaced_text base uri p t.start t.end g.start n new) (p + t.start + n + 1)
        (new - n) new

unfoldable pub replace_round :
    (Memory → ℕ → ℕ → ℕ → Replaced) → Memory → List Group → ℕ → Memory → ℕ → ℕ → Group → Replaced
replace_round go_on uri groups size base p old t =
    let index = read_index base (p + t.start + 1) (t.end - 1 - (t.start + 1)) 0 in
    if leb (length groups) index
    then refused_with (negsuc 10)
    else put_group go_on uri size base p old t (get_or groups index empty_group)

-- What follows from the template's match; a match without groups has zeros in its vector.
abbrev pub after_match :
    (Memory → ℕ → ℕ → ℕ → Replaced) → Memory → List Group → ℕ → Memory → ℕ → ℕ → Match → Replaced
after_match go_on uri groups size base p old (matches whole []) =
    replace_round go_on uri groups size base p old empty_group
after_match go_on uri groups size base p old (matches whole (t ∷ _)) =
    replace_round go_on uri groups size base p old t
after_match go_on uri groups size base p old no_match = rewritten base old
after_match go_on uri groups size base p old match_error = refused_with (pos 1)

-- The loop over the placeholders: `p` is where the search goes on, over `remain` bytes.
unfoldable pub replace_loop :
    (List ℕ → Match) → Memory → List Group → ℕ → ℕ → Memory → ℕ → ℕ → ℕ → Replaced
replace_loop exec_template uri groups size zero base p remain old = rounds_used_up
replace_loop exec_template uri groups size (suc k) base p remain old =
    if ltb size (p + remain)
    then out_of_bounds
    else after_match (replace_loop exec_template uri groups size k) uri groups size base p old
        (exec_template (bytes_from base p remain))

abbrev pub when_matched : Match → (List Group → Replaced) → Replaced
when_matched (matches whole groups) go_on = go_on (whole ∷ groups)
when_matched no_match go_on = refused_with (pos 1)
when_matched match_error go_on = refused_with (negsuc 0)

-- `uri` of `uri_len` bytes; the template of `len` bytes in the `size` bytes of `new_uri`.
unfoldable pub regex_replace_string :
    (List ℕ → Match) → (List ℕ → Match) → Memory → ℕ → Memory → ℕ → ℕ → Replaced
regex_replace_string exec_pattern exec_template uri uri_len new_uri len size =
    when_matched (exec_pattern (bytes_from uri 0 uri_len))
      (λ groups. replace_loop exec_template uri groups size (size + 2) new_uri 0 len len)
