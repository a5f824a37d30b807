-- ===== src/Watcher/Ignore/Fuel.antt =====
-- crates/hyperindex-watcher/src/ignore.rs: `wildcard_matches` ends.
use repo_hyperindex.Base.{
  ℕ, zero, suc, ◌+◌, ◌-◌, ◌*◌, ◌≤◌, ◌<◌, ◌≡◌, refl, true, Option, none, some, List, [], ◌∷◌, arith,
  ltb, length, get_elem?, is_some, inl, inr, Bool-cases, Option-cases,
}
use repo_hyperindex.Watcher.Ignore.{takes, is_at, wildcard_loop, wildcard_bytes, rounds}

get_elem-lt : (xs : List ℕ) (i b : ℕ) → get_elem? xs i ≡ some b → i < length xs
get_elem-lt [] i b h = cc
get_elem-lt (x ∷ xs) zero b h = omega arith
get_elem-lt (x ∷ xs) (suc i) b h = omega (arith, get_elem-lt xs i b h)

times_le : (a b w : ℕ) → a ≤ b → a * w ≤ b * w
times_le a b w h = rw h' (omega arith)
  where
    h' : b ≡ a + (b - a)
    h' = omega (arith, h)

times_pred : (a b w : ℕ) → a < b → (b - a) * w ≡ (b - (a + 1)) * w + w
times_pred a b w h = rw h' (omega arith)
  where
    h' : b - a ≡ suc (b - (a + 1))
    h' = omega (arith, h)

abbrev pub IsStar : List ℕ → Option ℕ → Type 0
IsStar pattern none = Unit
IsStar pattern (some i) = i < length pattern

at_lt : (xs : List ℕ) (i byte : ℕ) → is_at xs i byte ≡ true → i < length xs
at_lt [] i byte h = cc
at_lt (x ∷ xs) zero byte h = omega arith
at_lt (x ∷ xs) (suc i) byte h = omega (arith, at_lt xs i byte h)

takes_lt : (xs ys : List ℕ) (i j : ℕ) → takes xs ys i j ≡ true → i < length xs
takes_lt [] ys i j h = cc
takes_lt (x ∷ xs) ys zero j h = omega arith
takes_lt (x ∷ xs) ys (suc i) j h = omega (arith, takes_lt xs ys i j h)

loop-some :
    (fuel w : ℕ) (p t : List ℕ) (pi ti : ℕ) (star : Option ℕ) (mi : ℕ)
    → w ≡ length t + length p + 2
    → mi ≤ ti
    → ti ≤ length t
    → pi ≤ length p
    → IsStar p star
    → (length t - mi) * w + (length t - ti) + (length p - pi) < fuel
    → is_some (wildcard_loop fuel p t pi ti star mi) ≡ true
unfolding wildcard_loop
loop-some zero w p t pi ti star mi hw a b c s h = absurd (omega (arith, h))
loop-some (suc fuel) w p t pi ti star mi hw a b c s h = elim (Bool-cases (ltb ti (length t))) [
  | inr over ↦ rw (over, wildcard_loop) refl
  | inl more ↦
      let inside : ti < length t = ground (arith, more) in
      elim (Bool-cases (takes p t pi ti)) [
        | inl taken ↦
            let in_p = takes_lt p t pi ti taken in
            rw (more, taken, wildcard_loop)
              (loop-some fuel w p t (pi + 1) (ti + 1) star mi hw (omega (arith, a))
                (omega (arith, inside)) (omega (arith, in_p)) s (omega (arith, h, inside, in_p)))
        | inr kept ↦ elim (Bool-cases (is_at p pi b'*')) [
          | inl opened ↦
              let in_p = at_lt p pi b'*' opened in
              rw (more, kept, opened, wildcard_loop)
                (loop-some fuel w p t (pi + 1) ti (some pi) ti hw (omega arith) b
                  (omega (arith, in_p)) in_p
                  (omega (
                    arith,
                    h,
                    in_p,
                    times_le (length t - ti) (length t - mi) w (omega (arith, a)),
                  )))
          | inr closed ↦ elim (Option-cases star) [
            | inl none_open ↦ rw (more, kept, closed, none_open, wildcard_loop) refl
            | inr (i, open_at) ↦
                let in_p : i < length p = rw open_at at s in
                let shorter = times_pred mi (length t) w (omega (arith, a, inside)) in
                rw (more, kept, closed, open_at, wildcard_loop)
                  (loop-some fuel w p t (i + 1) (mi + 1) star (mi + 1) hw (omega arith)
                    (omega (arith, a, inside)) (omega (arith, in_p)) s
                    (omega (arith, h, hw, in_p, inside, a, shorter)))
          ]
        ]
      ]
]

-- The matcher always has an answer: its rounds do not run out, whatever the pattern and the text.
pub wildcard_bytes-some : (pattern text : List ℕ) → is_some (wildcard_bytes pattern text) ≡ true
unfolding wildcard_bytes
wildcard_bytes-some pattern text =
    let w = length text + length pattern + 2 in
    loop-some (rounds pattern text) w pattern text 0 0 none 0 refl (omega arith) (omega arith)
      (omega arith) tt (omega (arith, enough (length text) (length pattern)))
  where
    enough : (n m : ℕ) → (n - 0) * (n + m + 2) + (n - 0) + (m - 0) < (n + 1) * (n + m + 2)
    enough n m = grind arith
