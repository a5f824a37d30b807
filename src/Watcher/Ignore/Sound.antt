-- ===== src/Watcher/Ignore/Sound.antt =====
-- crates/hyperindex-watcher/src/ignore.rs: what `wildcard_matches` accepts, against the usual reading
-- of wildcards.
use repo_hyperindex.Base.{
  ℕ, zero, suc, ◌+◌, ◌-◌, ◌*◌, ◌≤◌, ◌<◌, ◌≡◌, refl, ap, sym, ◌∙◌, subst, true, false, Option, none,
  some, List, [], ◌∷◌, ◌++◌, arith, ltb, ◌==◌, length, get_elem?, take, drop, all, inl, inr,
  Bool-cases, Option-cases, append-nil, append_assoc,
}
use repo_hyperindex.Base.Text.{Text, as_bytes}
use repo_hyperindex.Watcher.Ignore.{
  takes, is_at, wildcard_loop, wildcard_bytes, wildcard_matches, rounds,
}

-- A pattern matches a text, both read from the left: `*` stands for any bytes, `?` for one, and any
-- other byte for itself.
pub data Matches : List ℕ → List ℕ → Type 0 where
  nothing : Matches [] []
  same : (b : ℕ) (p t : List ℕ) → Matches p t → Matches (p ++ b ∷ []) (t ++ b ∷ [])
  one : (b : ℕ) (p t : List ℕ) → Matches p t → Matches (p ++ b'?' ∷ []) (t ++ b ∷ [])
  star : (p t : List ℕ) → Matches p t → Matches (p ++ b'*' ∷ []) t
  longer :
      (b : ℕ) (p t : List ℕ) → Matches (p ++ b'*' ∷ []) t → Matches (p ++ b'*' ∷ []) (t ++ b ∷ [])

take-snoc :
    (xs : List ℕ) (i b : ℕ) → get_elem? xs i ≡ some b → take (i + 1) xs ≡ take i xs ++ b ∷ []
take-snoc [] i b h = cc
take-snoc (x ∷ xs) zero b h = ground arith
take-snoc (x ∷ xs) (suc i) b h =
    let next : suc i + 1 ≡ suc (i + 1) = omega arith in
    rw next (ap (λ ys. x ∷ ys) (take-snoc xs i b h))

take-length : (xs : List ℕ) (i : ℕ) → length xs ≤ i → take i xs ≡ xs
take-length [] zero h = refl
take-length [] (suc i) h = refl
take-length (x ∷ xs) zero h = absurd (omega (arith, h))
take-length (x ∷ xs) (suc i) h = ap (λ ys. x ∷ ys) (take-length xs i (omega (arith, h)))

get_elem-in : (xs : List ℕ) (i : ℕ) → i < length xs → (b : ℕ) × (get_elem? xs i ≡ some b)
get_elem-in [] i h = absurd (omega (arith, h))
get_elem-in (x ∷ xs) zero h = (x, refl)
get_elem-in (x ∷ xs) (suc i) h = get_elem-in xs i (omega (arith, h))

is_at-get : (xs : List ℕ) (i byte : ℕ) → is_at xs i byte ≡ true → get_elem? xs i ≡ some byte
is_at-get xs i byte h = ground (arith, h)

star_round :
    (p t : List ℕ) (i : ℕ)
    → is_at p i b'*' ≡ true
    → Matches (take i p) t
    → Matches (take (i + 1) p) t
star_round p t i h m = rw (take-snoc p i b'*' (is_at-get p i b'*' h)) (star (take i p) t m)

back_round :
    (p t : List ℕ) (i j : ℕ)
    → is_at p i b'*' ≡ true
    → j < length t
    → Matches (take (i + 1) p) (take j t)
    → Matches (take (i + 1) p) (take (j + 1) t)
back_round p t i j h inside m =
    let (b, at_j) = get_elem-in t j inside in
    let split = take-snoc p i b'*' (is_at-get p i b'*' h) in
    rw (split, take-snoc t j b at_j)
      (longer b (take i p) (take j t) (subst (λ q. Matches q (take j t)) split m))

take_round :
    (p t : List ℕ) (i j : ℕ)
    → takes p t i j ≡ true
    → Matches (take i p) (take j t)
    → Matches (take (i + 1) p) (take (j + 1) t)
take_round p t i j h m = elim (Option-cases (get_elem? p i)) [
  | inl none_p ↦ ground (arith, h)
  | inr (b, at_i) ↦ elim (Option-cases (get_elem? t j)) [
    | inl none_t ↦ ground (arith, h)
    | inr (c, at_j) ↦
        rw (take-snoc p i b at_i, take-snoc t j c at_j)
          (elim (Bool-cases (b == b'?')) [
            | inl any_byte ↦
                let is_any : b ≡ b'?' = ground (arith, any_byte) in
                rw is_any (one c (take i p) (take j t) m)
            | inr other ↦
                let alike : b ≡ c = ground (arith, h, at_i, at_j, other) in
                rw alike (same c (take i p) (take j t) m)
          ])
  ]
]

stars_left :
    (front back t : List ℕ)
    → all (λ b. b == b'*') back ≡ true
    → Matches front t
    → Matches (front ++ back) t
stars_left front [] t h m = rw (append-nil front) m
stars_left front (b ∷ back) t h m =
    let is_star : b ≡ b'*' = ground (arith, h) in
    subst (λ p. Matches p t) (append_assoc front (b ∷ []) back)
      (stars_left (front ++ b ∷ []) back t (ground (arith, h)) (rw is_star (star front t m)))

take-drop : (i : ℕ) (xs : List ℕ) → take i xs ++ drop i xs ≡ xs
take-drop zero xs = refl
take-drop (suc i) [] = refl
take-drop (suc i) (x ∷ xs) = ap (λ ys. x ∷ ys) (take-drop i xs)

-- What the last `*` has stood for so far can be read as a match.
abbrev IsOpen : List ℕ → List ℕ → ℕ → Option ℕ → ℕ → Type 0
IsOpen p t ti none mi = Unit
IsOpen p t ti (some i) mi =
    (mi ≤ ti) × (is_at p i b'*' ≡ true) × Matches (take (i + 1) p) (take mi t)

opened_later :
    (p t : List ℕ) (ti : ℕ) (star : Option ℕ) (mi : ℕ)
    → IsOpen p t ti star mi
    → IsOpen p t (ti + 1) star mi
opened_later p t ti none mi h = tt
opened_later p t ti (some i) mi h = (omega (arith, h.0), h.1, h.2)

finished :
    (p t : List ℕ) (pi ti : ℕ)
    → length t ≤ ti
    → Matches (take pi p) (take ti t)
    → all (λ b. b == b'*') (drop pi p) ≡ true
    → Matches p t
finished p t pi ti over m stars =
    subst (λ q. Matches q t) (take-drop pi p)
      (stars_left (take pi p) (drop pi p) t stars
        (subst (λ u. Matches (take pi p) u) (take-length t ti over) m))

loop_sound :
    (fuel : ℕ) (p t : List ℕ) (pi ti : ℕ) (star_index : Option ℕ) (mi : ℕ)
    → Matches (take pi p) (take ti t)
    → IsOpen p t ti star_index mi
    → wildcard_loop fuel p t pi ti star_index mi ≡ some true
    → Matches p t
unfolding wildcard_loop
loop_sound zero p t pi ti star_index mi m o h = cc
loop_sound (suc fuel) p t pi ti star_index mi m o h = elim (Bool-cases (ltb ti (length t))) [
  | inr over ↦
      finished p t pi ti (ground (arith, over)) m (ground (arith, rw (over, wildcard_loop) at h))
  | inl more ↦ elim (Bool-cases (takes p t pi ti)) [
    | inl taken ↦
        loop_sound fuel p t (pi + 1) (ti + 1) star_index mi (take_round p t pi ti taken m)
          (opened_later p t ti star_index mi o) (rw (more, taken, wildcard_loop) at h)
    | inr kept ↦ elim (Bool-cases (is_at p pi b'*')) [
      | inl opened ↦
          let wider = star_round p (take ti t) pi opened m in
          loop_sound fuel p t (pi + 1) ti (some pi) ti wider (omega arith, opened, wider)
            (rw (more, kept, opened, wildcard_loop) at h)
      | inr closed ↦ elim (Option-cases star_index) [
        | inl none_open ↦ cc (rw (more, kept, closed, none_open, wildcard_loop) at h)
        | inr (i, open_at) ↦
            let (before, is_star, seen) = subst (λ x. IsOpen p t ti x mi) open_at o in
            let wider = back_round p t i mi is_star (ground (arith, more, before)) seen in
            loop_sound fuel p t (i + 1) (mi + 1) star_index (mi + 1) wider
              (subst (λ x. IsOpen p t (mi + 1) x (mi + 1)) (sym open_at)
                (omega arith, is_star, wider))
              (rw (more, kept, closed, open_at, wildcard_loop) at h)
      ]
    ]
  ]
]

-- When the matcher accepts, the pattern matches the text, byte by byte.
pub wildcard_matches_sound :
    (pattern text : Text)
    → wildcard_matches pattern text ≡ true
    → Matches (as_bytes pattern) (as_bytes text)
unfolding wildcard_matches wildcard_bytes
wildcard_matches_sound pattern text h =
    let p = as_bytes pattern in
    let t = as_bytes text in
    elim (Option-cases (wildcard_loop (rounds p t) p t 0 0 none 0)) [
      | inl out ↦ cc (rw (out, wildcard_matches) at h)
      | inr (b, answered) ↦
          let accepted : b ≡ true = rw (answered, wildcard_matches) at h in
          loop_sound (rounds p t) p t 0 0 none 0 nothing tt (answered ∙ ap some accepted)
    ]

end_at : (t : List ℕ) (n : ℕ) → get_elem? t n ≡ none → length t ≤ n
end_at [] n h = omega arith
end_at (x ∷ t) zero h = cc
end_at (x ∷ t) (suc n) h = omega (arith, end_at t n h)

past_end : (t : List ℕ) (n : ℕ) → get_elem? t n ≡ none → length t ≤ suc n
past_end t n h = omega (arith, end_at t n h)

star-Matches : (t : List ℕ) → Matches (b'*' ∷ []) t
star-Matches t =
    subst (λ u. Matches (b'*' ∷ []) u) (take-length t (length t) (omega arith)) (up_to t (length t))
  where
    up_to : (t : List ℕ) (n : ℕ) → Matches (b'*' ∷ []) (take n t)
    up_to t zero = star [] [] nothing
    up_to t (suc n) =
        let next : suc n ≡ n + 1 = omega arith in
        elim (Option-cases (get_elem? t n)) [
          | inl past ↦
              rw (take-length t (suc n) (past_end t n past))
                (subst (λ u. Matches (b'*' ∷ []) u) (take-length t n (end_at t n past)) (up_to t n))
          | inr (b, at_n) ↦ rw (next, take-snoc t n b at_n) (longer b [] (take n t) (up_to t n))
        ]

-- A text that begins with a star and goes on matches the pattern of one star, but the matcher refuses
-- it: it takes the star of the text for the one of the pattern.
pub wildcard_bytes-star :
    (b : ℕ) (rest : List ℕ)
    → Matches (b'*' ∷ []) (b'*' ∷ b ∷ rest)
      × (wildcard_bytes (b'*' ∷ []) (b'*' ∷ b ∷ rest) ≡ some false)
unfolding wildcard_bytes wildcard_loop
wildcard_bytes-star b rest =
    let t = b'*' ∷ b ∷ rest in
    let enough : rounds (b'*' ∷ []) t ≡ suc (suc (rounds (b'*' ∷ []) t - 2)) =
      at_least_two (length rest) in
    let first : ltb 0 (length t) ≡ true = ground arith in
    let second : ltb (0 + 1) (length t) ≡ true = ground arith in
    (star-Matches t, rw (enough, wildcard_bytes, first, second, wildcard_loop) refl)
  where
    at_least_two :
        (n : ℕ)
        → (suc (suc n) + 1) * (suc (suc n) + 1 + 2)
          ≡ suc (suc ((suc (suc n) + 1) * (suc (suc n) + 1 + 2) - 2))
    at_least_two n = grind arith
