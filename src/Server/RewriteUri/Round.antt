-- ===== src/Server/RewriteUri/Round.antt =====
-- What one replacement of src/RewriteUri.c leaves in the text.
use hetao.Base.{
  ℕ, zero, suc, ◌+◌, ◌-◌, ◌≤◌, ◌<◌, ◌≡◌, ◌≢◌, inl, inr, false, List, [], ◌∷◌, arith, ltb, leb,
  if◌then◌else◌, gt→leb, ltb→ge, Bool-cases, length, get_or,
}
use hetao.Http.Transport.{bytes_from}
use hetao.Http.Types.{Memory}
use hetao.Server.RewriteUri.{
  Group, Match, matches, no_match, match_error, Replaced, rounds_used_up, read_index, empty_group,
  replaced_text, new_length, leaves_text, put_group, replace_round, after_match, replace_loop,
  when_matched, regex_replace_string,
}

-- The text with the placeholder replaced, as it is meant: `n` bytes of `uri` from `g` on stand for
-- those from `from` to `to`, and what is behind them is moved.
abbrev pub meant : Memory → Memory → ℕ → ℕ → ℕ → ℕ → ℕ → ℕ
meant base uri from to g n i =
    if ltb i from
    then base i
    else if ltb i (from + n)
    then uri (g + (i - from))
    else base (i + (to - from) - n)

module _ (go_on : Memory → ℕ → ℕ → ℕ → Replaced) (uri : Memory) (groups : List Group) (size : ℕ)
    (base : Memory) (p old : ℕ) (t : Group) where
  abbrev pub named_group : Group
  named_group =
      get_or groups (read_index base (p + t.start + 1) (t.end - 1 - (t.start + 1)) 0) empty_group

  abbrev pub named_length : ℕ
  named_length = named_group.end - named_group.start

  -- The placeholder is inside the text and names a group, and the new text fits.
  pub record CanReplace : Type 0 where
    pub is_ordered : t.start < t.end
    pub is_within : p + t.end ≤ old
    pub names_group :
        read_index base (p + t.start + 1) (t.end - 1 - (t.start + 1)) 0 < length groups
    pub room_left : new_length old named_length t < size
    pub stays_inside : leaves_text size p (new_length old named_length t) named_length t ≡ false

  abbrev pub round_text : Memory
  round_text =
      replaced_text base uri p t.start t.end named_group.start named_length
        (new_length old named_length t)

  -- Where what `memmove` has moved ends.
  abbrev pub moved_end : ℕ
  moved_end = p + t.start + named_length + (new_length old named_length t - t.end)

  replace_round-goes :
      CanReplace
      → replace_round go_on uri groups size base p old t
        ≡ go_on round_text
            (p + t.start + named_length + 1)
            (new_length old named_length t - named_length)
            (new_length old named_length t)
  unfolding replace_round
  replace_round-goes c = rw (gt→leb _ _ c.names_group, gt→leb _ _ c.room_left, c.stays_inside)

  -- The new text is the one that is meant.
  round_text-meant :
      CanReplace
      → t.end - t.start ≤ named_length + p
      → (i : ℕ) → i < new_length old named_length t
      → round_text i ≡ meant base uri (p + t.start) (p + t.end) named_group.start named_length i
  round_text-meant c l i h = ground (arith, c.is_ordered, c.is_within, c.stays_inside)

  -- One replacement of RegexReplaceString, where the placeholder names a group, the new text fits,
  -- and `memmove` stays inside `new_uri`: if the group is not shorter than the placeholder by more
  -- than what stands in front of the place where the search began, the text is as it is meant up to
  -- its new length, and the search goes on one byte behind the group.
  pub replace_round-Replaces :
      CanReplace
      → t.end - t.start ≤ named_length + p
      → (replace_round go_on uri groups size base p old t
          ≡ go_on round_text
              (p + t.start + named_length + 1)
              (new_length old named_length t - named_length)
              (new_length old named_length t))
        × ((i : ℕ)
            → i < new_length old named_length t
            → round_text i
              ≡ meant base uri (p + t.start) (p + t.end) named_group.start named_length i)
  replace_round-Replaces c l = (replace_round-goes c, round_text-meant c l)

  -- One replacement of RegexReplaceString, under the same conditions, by a group that is shorter
  -- than the placeholder by more than that: the search goes on in a text whose last bytes, one at
  -- least, are still the bytes that stood there, where bytes from further behind are meant.
  pub replace_round-shorter :
      CanReplace
      → named_length + p < t.end - t.start
      → (replace_round go_on uri groups size base p old t
          ≡ go_on round_text
              (p + t.start + named_length + 1)
              (new_length old named_length t - named_length)
              (new_length old named_length t))
        × (moved_end < new_length old named_length t)
        × ((i : ℕ)
            → moved_end ≤ i
            → i < new_length old named_length t
            → (round_text i ≡ base i)
              × (meant base uri (p + t.start) (p + t.end) named_group.start named_length i
                  ≡ base (i + (t.end - t.start) - named_length)))
  replace_round-shorter c l = (
    replace_round-goes c,
    ground (arith, c.is_ordered, c.is_within, c.stays_inside),
    λ i a b. (
      ground (arith, c.is_ordered, c.is_within, c.stays_inside),
      ground (arith, c.is_ordered, c.is_within, c.stays_inside),
    ),
  )

put_group-ends :
    (go_on : Memory → ℕ → ℕ → ℕ → Replaced) (uri : Memory) (size : ℕ) (base : Memory) (p old : ℕ)
    (t g : Group)
    → ((base : Memory) (p' remain old : ℕ) → p < p' → go_on base p' remain old ≢ rounds_used_up)
    → put_group go_on uri size base p old t g ≢ rounds_used_up
put_group-ends go_on uri size base p old t g rest =
    let n = g.end - g.start in
    let new = new_length old n t in
    elim (Bool-cases (leb size new)) [
      | inl e ↦ rw e (λ h. cc h)
      | inr e ↦ elim (Bool-cases (leaves_text size p new n t)) [
        | inl f ↦ rw (e, f) (λ h. cc h)
        | inr f ↦ rw (e, f) (rest _ (p + t.start + n + 1) (new - n) new (omega arith))
      ]
    ]

module _ (exec_template : List ℕ → Match) (uri : Memory) (groups : List Group) (size : ℕ) where
  replace_round-ends :
      (go_on : Memory → ℕ → ℕ → ℕ → Replaced) (base : Memory) (p old : ℕ) (t : Group)
      → ((base : Memory) (p' remain old : ℕ) → p < p' → go_on base p' remain old ≢ rounds_used_up)
      → replace_round go_on uri groups size base p old t ≢ rounds_used_up
  unfolding replace_round
  replace_round-ends go_on base p old t rest =
      let index = read_index base (p + t.start + 1) (t.end - 1 - (t.start + 1)) 0 in
      elim (Bool-cases (leb (length groups) index)) [
        | inl e ↦ rw e (λ h. cc h)
        | inr e ↦ rw e (put_group-ends go_on uri size base p old t _ rest)
      ]

  after_match-ends :
      (go_on : Memory → ℕ → ℕ → ℕ → Replaced) (base : Memory) (p old : ℕ) (m : Match)
      → ((base : Memory) (p' remain old : ℕ) → p < p' → go_on base p' remain old ≢ rounds_used_up)
      → after_match go_on uri groups size base p old m ≢ rounds_used_up
  after_match-ends go_on base p old (matches whole []) rest =
      replace_round-ends go_on base p old empty_group rest
  after_match-ends go_on base p old (matches whole (t ∷ _)) rest =
      replace_round-ends go_on base p old t rest
  after_match-ends go_on base p old no_match rest = λ h. cc h
  after_match-ends go_on base p old match_error rest = λ h. cc h

  replace_loop-ends :
      (k : ℕ) (base : Memory) (p remain old : ℕ)
      → 0 < k
      → size + 1 < k + p
      → replace_loop exec_template uri groups size k base p remain old ≢ rounds_used_up
  unfolding replace_loop
  replace_loop-ends zero base p remain old h l = elim h [ ]
  replace_loop-ends (suc k) base p remain old h l = elim (Bool-cases (ltb size (p + remain))) [
    | inl e ↦ rw e (λ x. cc x)
    | inr e ↦ rw e (
        after_match-ends (replace_loop exec_template uri groups size k) base p old _
          (λ base' p' remain' old' m.
            replace_loop-ends k base' p' remain' old' (omega (arith, ltb→ge _ _ e)) (omega arith)))
  ]

when_matched-ends :
    (m : Match) (go_on : List Group → Replaced)
    → ((groups : List Group) → go_on groups ≢ rounds_used_up)
    → when_matched m go_on ≢ rounds_used_up
when_matched-ends (matches whole groups) go_on h = h (whole ∷ groups)
when_matched-ends no_match go_on h = λ x. cc x
when_matched-ends match_error go_on h = λ x. cc x

-- RegexReplaceString comes to an end, whatever the two patterns match: two rounds more than
-- `new_uri` has bytes suffice.
pub regex_replace_string-ends :
    (exec_pattern exec_template : List ℕ → Match) (uri : Memory) (uri_len : ℕ) (new_uri : Memory)
    (len size : ℕ)
    → regex_replace_string exec_pattern exec_template uri uri_len new_uri len size ≢ rounds_used_up
unfolding regex_replace_string
regex_replace_string-ends exec_pattern exec_template uri uri_len new_uri len size =
    when_matched-ends (exec_pattern (bytes_from uri 0 uri_len)) _ (λ groups.
      replace_loop-ends exec_template uri groups size (size + 2) new_uri 0 len len (omega arith)
        (omega arith))
