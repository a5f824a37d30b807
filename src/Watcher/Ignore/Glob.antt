-- ===== src/Watcher/Ignore/Glob.antt =====
-- The reading of wildcards that crates/hyperindex-watcher/src/ignore.rs is held against: a matcher by
-- recursion on the pattern.
use repo_hyperindex.Base.{
  ℕ, zero, suc, ◌+◌, ◌≤◌, ◌≡◌, refl, ap, sym, ◌∙◌, Bool, true, false, not, ◌&&◌, ◌||◌, none, some,
  List, [], ◌∷◌, arith, if◌then◌else◌, ◌==◌, length, get_elem?, drop, all,
}

-- The test holds of the text or of what is left of it after some bytes.
abbrev pub at_some_end : (List ℕ → Bool) → List ℕ → Bool
at_some_end f [] = f []
at_some_end f (c ∷ text) = f (c ∷ text) || at_some_end f text

-- The usual reading of wildcards: `*` stands for any bytes, `?` for one, and any other byte for
-- itself.
unfoldable pub glob : List ℕ → List ℕ → Bool
glob [] [] = true
glob [] (c ∷ text) = false
glob (b ∷ pattern) [] = b == b'*' && glob pattern []
glob (b ∷ pattern) (c ∷ text) =
    if b == b'*'
    then at_some_end (glob pattern) (c ∷ text)
    else (b == b'?' || b == c) && glob pattern text

pub here : (f : List ℕ → Bool) (t : List ℕ) → f t ≡ true → at_some_end f t ≡ true
here f [] h = h
here f (c ∷ t) h = ground (arith, h)

abbrev pub tail : List ℕ → List ℕ
tail [] = []
tail (c ∷ t) = t

pub later :
    (f : List ℕ → Bool) (t : List ℕ) → at_some_end f (tail t) ≡ true → at_some_end f t ≡ true
later f [] h = h
later f (c ∷ t) h = ground (arith, h)

pub star_glob : (p t : List ℕ) → glob (b'*' ∷ p) t ≡ at_some_end (glob p) t
unfolding glob
star_glob p [] = ground arith
star_glob p (c ∷ t) = refl

pub star_again :
    (p t : List ℕ) → at_some_end (glob (b'*' ∷ p)) t ≡ true → at_some_end (glob p) t ≡ true
star_again p [] h = sym (star_glob p []) ∙ h
star_again p (c ∷ t) h = ground (arith, star_again p t, star_glob p (c ∷ t), h)

pub one_later :
    (b : ℕ) (p t : List ℕ)
    → (b == b'*') ≡ false
    → at_some_end (glob (b ∷ p)) t ≡ true
    → at_some_end (glob p) (tail t) ≡ true
unfolding glob
one_later b p [] n h = ground (arith, n, h)
one_later b p (c ∷ t) n h =
    ground (arith, one_later b p t n, here (glob p) t, later (glob p) t, n, h)

pub drop-cons : (xs : List ℕ) (i b : ℕ) → get_elem? xs i ≡ some b → drop i xs ≡ b ∷ drop (i + 1) xs
drop-cons [] i b h = cc
drop-cons (x ∷ xs) zero b h = ground (arith, h)
drop-cons (x ∷ xs) (suc i) b h =
    let next : suc i + 1 ≡ suc (i + 1) = omega arith in rw next (drop-cons xs i b h)

pub drop-past : (xs : List ℕ) (i : ℕ) → get_elem? xs i ≡ none → drop i xs ≡ []
drop-past [] zero h = refl
drop-past [] (suc i) h = refl
drop-past (x ∷ xs) zero h = cc
drop-past (x ∷ xs) (suc i) h = drop-past xs i h

pub all-glob : (p : List ℕ) → all (λ b. b == b'*') p ≡ glob p []
unfolding glob
all-glob [] = refl
all-glob (b ∷ p) = ap (λ r. b == b'*' && r) (all-glob p)

abbrev pub no_star : List ℕ → Bool
no_star text = all (λ c. not (c == b'*')) text

pub no_star-at :
    (t : List ℕ) (i c : ℕ) → no_star t ≡ true → get_elem? t i ≡ some c → (c == b'*') ≡ false
no_star-at [] i c n h = cc
no_star-at (x ∷ t) zero c n h = ground (arith, n, h)
no_star-at (x ∷ t) (suc i) c n h = no_star-at t i c (ground (arith, n)) h

pub get_elem-past : (xs : List ℕ) (i : ℕ) → length xs ≤ i → get_elem? xs i ≡ none
get_elem-past [] i h = refl
get_elem-past (x ∷ xs) zero h = absurd (omega (arith, h))
get_elem-past (x ∷ xs) (suc i) h = get_elem-past xs i (omega (arith, h))
