-- ===== src/Git/Status/Told.antt =====
-- crates/hyperindex-git-state/src/status.rs: a line is read as its marks tell.
use repo_hyperindex.Base.{
  ℕ, ◌≡◌, ◌∙◌, refl, sym, Bool, true, false, ◌&&◌, none, some, List, [], ◌∷◌, is_some, arith,
  if◌then◌else◌, ltb, ◌==◌, any, All, All-imp,
}
use repo_hyperindex.Base.Order.{Ord}
use repo_hyperindex.Base.Text.{
  text_ord, Text, text, char_len_utf8, len_utf8, as_bytes, trim_start, strip_prefix, starts_with,
}
use repo_hyperindex.Git.{RepoRenamedPath, rename_ord}
use repo_hyperindex.Git.Status.{
  lines, split_at, normalize_git_path, Change, untracked, ignored, nothing, coded_change, code_has,
  payload_of, tracked_change, read_line,
}
use repo_hyperindex.Git.Status.Parsed.{
  says, IsRead, is_dirty_path, is_untracked, is_deleted, is_renamed, is_ignored,
}
use repo_hyperindex.Git.Status.Roles.{
  is_plain, is_blank, names_untracked, names_ignored, names_renamed, names_deleted, names_dirty,
  AreNamed,
}

plain_char : (c : ℕ) → ltb c 0x80 ≡ true → char_len_utf8 c ≡ 1
unfolding char_len_utf8
plain_char c h = ground arith

plain_code : (c d : ℕ) → ltb c 0x80 ≡ true → ltb d 0x80 ≡ true → as_bytes (c ∷ d ∷ []) ≡ c ∷ d ∷ []
unfolding as_bytes
plain_code c d h k = ground arith

split_at_zero : (t : Text) → split_at 0 t ≡ some ([], t)
unfolding split_at
split_at_zero [] = refl
split_at_zero (c ∷ cs) = refl

module _ (c d e : ℕ) (rest : Text) (h : is_plain (c ∷ d ∷ e ∷ rest) ≡ true) where
  split_at_two : split_at 2 (c ∷ d ∷ e ∷ rest) ≡ some (c ∷ d ∷ [], e ∷ rest)
  unfolding split_at
  split_at_two =
      let one : char_len_utf8 c ≡ 1 = plain_char c (ground arith) in
      let two : char_len_utf8 d ≡ 1 = plain_char d (ground arith) in rw (one, two) refl

  split_at_three : split_at 3 (c ∷ d ∷ e ∷ rest) ≡ some (c ∷ d ∷ e ∷ [], rest)
  unfolding split_at
  split_at_three =
      let one : char_len_utf8 c ≡ 1 = plain_char c (ground arith) in
      let two : char_len_utf8 d ≡ 1 = plain_char d (ground arith) in
      let three : char_len_utf8 e ≡ 1 = plain_char e (ground arith) in
      rw (one, two, three, split_at_zero rest) refl

  payload_plain : payload_of (c ∷ d ∷ e ∷ rest) ≡ trim_start rest
  payload_plain = ground (arith, split_at_three)

  tracked_plain : tracked_change (c ∷ d ∷ e ∷ rest) ≡ (
      if ltb (len_utf8 (c ∷ d ∷ e ∷ rest)) 4
      then some nothing
      else some (coded_change (c ∷ d ∷ []) (trim_start rest)))
  unfolding read_line
  tracked_plain = rw (split_at_two, payload_plain) refl

  code_plain : (k : ℕ) → code_has (c ∷ d ∷ []) k ≡ any (λ x. x == k) (c ∷ d ∷ [])
  code_plain k = rw (plain_code c d (ground arith) (ground arith)) (ground arith)

  marked_untracked :
      strip_prefix (text "?? ") (c ∷ d ∷ e ∷ rest)
      ≡ (if starts_with (text "?? ") (c ∷ d ∷ e ∷ rest) then some rest else none)
  unfolding strip_prefix starts_with
  marked_untracked = ground arith

  marked_ignored :
      strip_prefix (text "!! ") (c ∷ d ∷ e ∷ rest)
      ≡ (if starts_with (text "!! ") (c ∷ d ∷ e ∷ rest) then some rest else none)
  unfolding strip_prefix starts_with
  marked_ignored = ground arith

  -- The line as `read_line` takes it apart.
  abbrev plain_change : Change
  plain_change =
      let line = c ∷ d ∷ e ∷ rest in
      if is_blank line
      then nothing
      else if starts_with (text "?? ") line
      then untracked (normalize_git_path rest)
      else if starts_with (text "!! ") line
      then ignored (normalize_git_path rest)
      else if ltb (len_utf8 line) 4
      then nothing
      else coded_change (c ∷ d ∷ []) (trim_start rest)

  read_plain : read_line (c ∷ d ∷ e ∷ rest) ≡ some plain_change
  unfolding read_line
  read_plain = ground (arith, marked_untracked, marked_ignored, tracked_plain)

  says_plain : (p : Change → Bool) → says p (c ∷ d ∷ e ∷ rest) ≡ p plain_change
  says_plain p = ground (arith, read_plain)

  one_mark :
      (starts_with (text "?? ") (c ∷ d ∷ e ∷ rest) && starts_with (text "!! ") (c ∷ d ∷ e ∷ rest))
      ≡ false
  unfolding starts_with
  one_mark = ground arith

  untracked_plain :
      (path : Text) → is_untracked path plain_change ≡ names_untracked path (c ∷ d ∷ e ∷ rest)
  untracked_plain path = ground (arith, one_mark, code_plain b'R', code_plain b'D')

  ignored_plain :
      (path : Text) → is_ignored path plain_change ≡ names_ignored path (c ∷ d ∷ e ∷ rest)
  ignored_plain path = ground (arith, one_mark, code_plain b'R', code_plain b'D')

  renamed_plain :
      (move : RepoRenamedPath)
      → is_renamed move plain_change ≡ names_renamed move (c ∷ d ∷ e ∷ rest)
  renamed_plain move = ground (arith, one_mark, code_plain b'R', code_plain b'D')

  deleted_plain :
      (path : Text) → is_deleted path plain_change ≡ names_deleted path (c ∷ d ∷ e ∷ rest)
  deleted_plain path = ground (arith, one_mark, code_plain b'R', code_plain b'D')

  dirty_plain :
      (path : Text) → is_dirty_path path plain_change ≡ names_dirty path (c ∷ d ∷ e ∷ rest)
  dirty_plain path = ground (arith, one_mark, code_plain b'R', code_plain b'D')

any-same_test : (p q : Text → Bool) (ls : List Text) → All (λ l. p l ≡ q l) ls → any p ls ≡ any q ls
any-same_test p q [] h = refl
any-same_test p q (l ∷ ls) h = ground (arith, h.0, any-same_test p q ls h.1)

-- A line of fewer than three characters has no mark and is too short for a code.
record IsShort (line : Text) : Type 0 where
  short : ltb (len_utf8 line) 4 ≡ true
  no_question : starts_with (text "?? ") line ≡ false
  no_mark : starts_with (text "!! ") line ≡ false
  unmarked : (strip_prefix (text "?? ") line ≡ none) × (strip_prefix (text "!! ") line ≡ none)

IsShort-one : (c : ℕ) → ltb c 0x80 ≡ true → IsShort (c ∷ [])
unfolding len_utf8 starts_with strip_prefix
IsShort-one c h = record {
  short = rw (plain_char c h) refl;
  no_question = ground arith;
  no_mark = ground arith;
  unmarked = (ground arith, ground arith);
}

IsShort-two : (c d : ℕ) → ltb c 0x80 ≡ true → ltb d 0x80 ≡ true → IsShort (c ∷ d ∷ [])
unfolding len_utf8 starts_with strip_prefix
IsShort-two c d h k = record {
  short = rw (plain_char c h, plain_char d k) refl;
  no_question = ground arith;
  no_mark = ground arith;
  unmarked = (ground arith, ground arith);
}

IsShort-none : IsShort []
unfolding len_utf8 starts_with strip_prefix
IsShort-none = record { short = refl; no_question = refl; no_mark = refl; unmarked = (refl, refl) }

short_read : (line : Text) → IsShort line → read_line line ≡ some nothing
unfolding read_line
short_read line w = ground (arith, w.short, w.unmarked.0, w.unmarked.1)

short_says :
    (p : Change → Bool) (line : Text) → IsShort line → p nothing ≡ false → says p line ≡ false
short_says p line w h = ground (arith, h, short_read line w)

pub read_line-plain : (line : Text) → is_plain line ≡ true → is_some (read_line line) ≡ true
read_line-plain [] plain = rw (short_read [] IsShort-none) refl
read_line-plain (c ∷ []) plain = rw (short_read (c ∷ []) (IsShort-one c plain)) refl
read_line-plain (c ∷ d ∷ []) plain =
    rw (short_read (c ∷ d ∷ []) (IsShort-two c d (ground arith) (ground arith))) refl
read_line-plain (c ∷ d ∷ e ∷ rest) plain = rw (read_plain c d e rest plain) refl

-- What a line is read as agrees with its marks, in one role.
told :
    (p : Change → Bool) (names : Text → Bool)
    → p nothing ≡ false
    → ((line : Text) → IsShort line → names line ≡ false)
    → ((c d e : ℕ) (rest : Text) (h : is_plain (c ∷ d ∷ e ∷ rest) ≡ true)
        → p (plain_change c d e rest h) ≡ names (c ∷ d ∷ e ∷ rest))
    → (line : Text) → is_plain line ≡ true
    → says p line ≡ names line
told p names h short long [] plain = short_says p [] IsShort-none h ∙ sym (short [] IsShort-none)
told p names h short long (c ∷ []) plain =
    let w = IsShort-one c plain in short_says p (c ∷ []) w h ∙ sym (short (c ∷ []) w)
told p names h short long (c ∷ d ∷ []) plain =
    let w = IsShort-two c d (ground arith) (ground arith) in
    short_says p (c ∷ d ∷ []) w h ∙ sym (short (c ∷ d ∷ []) w)
told p names h short long (c ∷ d ∷ e ∷ rest) plain =
    says_plain c d e rest plain p ∙ long c d e rest plain

pub says-names_untracked :
    (path : Text) (line : Text)
    → is_plain line ≡ true
    → says (is_untracked path) line ≡ names_untracked path line
says-names_untracked path line h =
    told (is_untracked path) (names_untracked path) refl
      (λ line w. ground (arith, w.short, w.no_question, w.no_mark))
      (λ c d e rest h. untracked_plain c d e rest h path) line h

pub says-names_ignored :
    (path : Text) (line : Text)
    → is_plain line ≡ true
    → says (is_ignored path) line ≡ names_ignored path line
says-names_ignored path line h =
    told (is_ignored path) (names_ignored path) refl
      (λ line w. ground (arith, w.short, w.no_question, w.no_mark))
      (λ c d e rest h. ignored_plain c d e rest h path) line h

pub says-names_renamed :
    (move : RepoRenamedPath) (line : Text)
    → is_plain line ≡ true
    → says (is_renamed move) line ≡ names_renamed move line
says-names_renamed move line h =
    told (is_renamed move) (names_renamed move) refl
      (λ line w. ground (arith, w.short, w.no_question, w.no_mark))
      (λ c d e rest h. renamed_plain c d e rest h move) line h

pub says-names_deleted :
    (path : Text) (line : Text)
    → is_plain line ≡ true
    → says (is_deleted path) line ≡ names_deleted path line
says-names_deleted path line h =
    told (is_deleted path) (names_deleted path) refl
      (λ line w. ground (arith, w.short, w.no_question, w.no_mark))
      (λ c d e rest h. deleted_plain c d e rest h path) line h

pub says-names_dirty :
    (path : Text) (line : Text)
    → is_plain line ≡ true
    → says (is_dirty_path path) line ≡ names_dirty path line
says-names_dirty path line h =
    told (is_dirty_path path) (names_dirty path) refl
      (λ line w. ground (arith, w.short, w.no_question, w.no_mark))
      (λ c d e rest h. dirty_plain c d e rest h path) line h

module _ {ℓ} {K : Type ℓ} ⦃o : Ord K⦄ where
  pub IsRead-AreNamed :
      (xs : List K) (is_it : K → Change → Bool) (names : K → Text → Bool) (raw : Text)
      → ((k : K) (line : Text) → is_plain line ≡ true → says (is_it k) line ≡ names k line)
      → All (λ line. is_plain line ≡ true) (lines raw)
      → IsRead xs is_it raw
      → AreNamed xs names raw
  IsRead-AreNamed xs is_it names raw told plain (up, holds) = (
    up,
    λ k.
        holds k
        ∙ any-same_test (says (is_it k)) (names k) (lines raw) (All-imp (told k) (lines raw) plain),
  )
