-- ===== src/Watcher/Ignore/Exact.antt =====
-- crates/hyperindex-watcher/src/ignore.rs: `wildcard_matches` against a matcher by recursion.
use repo_hyperindex.Base.{
  ℕ, zero, suc, ◌+◌, ◌≤◌, ◌<◌, ◌≡◌, refl, ap, sym, ◌∙◌, subst, Bool, true, false, ◌&&◌, ◌||◌,
  Option, none, some, List, [], ◌∷◌, arith, ltb, ◌==◌, length, get_elem?, drop, all, inl, inr,
  Bool-cases, Option-cases,
}
use repo_hyperindex.Watcher.Ignore.{takes, is_at, wildcard_loop, wildcard_bytes, rounds}
use repo_hyperindex.Watcher.Ignore.Fuel.{wildcard_bytes-some}
use repo_hyperindex.Watcher.Ignore.Glob.{
  at_some_end, glob, no_star, here, star_glob, star_again, one_later, drop-cons, drop-past,
  all-glob, no_star-at, get_elem-past,
}

-- What the loop has settled: the answer is that of the current attempt, or of a later start for the
-- last star.
abbrev IsSettled : List ℕ → List ℕ → ℕ → ℕ → Option ℕ → ℕ → Type 0
IsSettled p t pi ti none mi = glob p t ≡ glob (drop pi p) (drop ti t)
IsSettled p t pi ti (some i) mi =
    (mi ≤ ti)
    × (glob p t ≡ at_some_end (glob (drop (i + 1) p)) (drop mi t))
    × (glob (drop (i + 1) p) (drop mi t) ≡ glob (drop pi p) (drop ti t))
    × (at_some_end (glob (drop (i + 1) p)) (drop mi t) ≡ true
        → at_some_end (glob (drop pi p)) (drop ti t) ≡ true)

module _ (p t : List ℕ) where
  settled_end :
      (pi ti : ℕ) (star : Option ℕ) (mi : ℕ)
      → length t ≤ ti
      → IsSettled p t pi ti star mi
      → glob p t ≡ glob (drop pi p) []
  settled_end pi ti none mi over s =
      s ∙ ap (glob (drop pi p)) (drop-past t ti (get_elem-past t ti over))
  settled_end pi ti (some i) mi over s =
      let ended = drop-past t ti (get_elem-past t ti over) in
      ground (arith, s.1, s.2, s.3, ended, here (glob (drop (i + 1) p)) (drop mi t))

  open-IsSettled :
      (pi ti : ℕ) (star : Option ℕ) (mi : ℕ)
      → get_elem? p pi ≡ some b'*'
      → IsSettled p t pi ti star mi
      → IsSettled p t (pi + 1) ti (some pi) ti
  open-IsSettled pi ti star mi at_star s = (omega arith, whole star s, refl, λ h. h)
    where
      split : drop pi p ≡ b'*' ∷ drop (pi + 1) p
      split = drop-cons p pi b'*' at_star

      whole :
          (star : Option ℕ)
          → IsSettled p t pi ti star mi
          → glob p t ≡ at_some_end (glob (drop (pi + 1) p)) (drop ti t)
      whole none s =
          s ∙ ap (λ q. glob q (drop ti t)) split ∙ star_glob (drop (pi + 1) p) (drop ti t)
      whole (some i) s = ground (
        arith,
        s.1,
        s.2,
        s.3,
        split,
        star_glob (drop (pi + 1) p) (drop ti t),
        star_again (drop (pi + 1) p) (drop ti t),
        here (glob (drop (i + 1) p)) (drop mi t),
      )

  glob_step :
      (pi ti b c : ℕ)
      → get_elem? p pi ≡ some b
      → get_elem? t ti ≡ some c
      → (b == b'*') ≡ false
      → glob (drop pi p) (drop ti t)
        ≡ ((b == b'?' || b == c) && glob (drop (pi + 1) p) (drop (ti + 1) t))
  unfolding glob
  glob_step pi ti b c at_b at_c plain =
      rw (drop-cons p pi b at_b, drop-cons t ti c at_c) (ground (arith, plain))

  advance-IsSettled :
      (pi ti b c : ℕ) (star : Option ℕ) (mi : ℕ)
      → get_elem? p pi ≡ some b
      → get_elem? t ti ≡ some c
      → (b == b'*') ≡ false
      → (b == b'?' || b == c) ≡ true
      → IsSettled p t pi ti star mi
      → IsSettled p t (pi + 1) (ti + 1) star mi
  advance-IsSettled pi ti b c none mi at_b at_c plain fits s =
      ground (arith, s, fits, glob_step pi ti b c at_b at_c plain)
  advance-IsSettled pi ti b c (some i) mi at_b at_c plain fits s = (
    omega (arith, s.0),
    s.1,
    ground (arith, s.2, fits, glob_step pi ti b c at_b at_c plain),
    λ h. one_later b (drop (pi + 1) p) (c ∷ drop (ti + 1) t) plain (
        subst (λ q. at_some_end (glob q) (c ∷ drop (ti + 1) t) ≡ true) (drop-cons p pi b at_b)
          (subst (λ u. at_some_end (glob (drop pi p)) u ≡ true) (drop-cons t ti c at_c) (s.3 h))),
  )

  missed :
      (pi ti c : ℕ)
      → get_elem? t ti ≡ some c
      → takes p t pi ti ≡ false
      → is_at p pi b'*' ≡ false
      → glob (drop pi p) (drop ti t) ≡ false
  unfolding glob
  missed pi ti c at_c kept closed = elim (Option-cases (get_elem? p pi)) [
    | inl past ↦ rw (drop-past p pi past, drop-cons t ti c at_c) refl
    | inr (b, at_b) ↦ ground (arith, kept, closed, at_b, at_c, glob_step pi ti b c at_b at_c)
  ]

  back-IsSettled :
      (pi ti i mi d : ℕ)
      → get_elem? t mi ≡ some d
      → glob (drop pi p) (drop ti t) ≡ false
      → IsSettled p t pi ti (some i) mi
      → IsSettled p t (i + 1) (mi + 1) (some i) (mi + 1)
  back-IsSettled pi ti i mi d at_d miss s =
      let split = drop-cons t mi d at_d in
      let next : at_some_end (glob (drop (i + 1) p)) (drop mi t) ≡ (
          glob (drop (i + 1) p) (drop mi t)
          || at_some_end (glob (drop (i + 1) p)) (drop (mi + 1) t)) =
        rw split refl in
      (omega arith, ground (arith, s.1, s.2, miss, next), refl, λ h. h)

  takes_bytes :
      (pi ti : ℕ)
      → takes p t pi ti ≡ true
      → (b : ℕ) × (c : ℕ) × (get_elem? p pi ≡ some b)
        × (get_elem? t ti ≡ some c)
        × ((b == b'?' || b == c) ≡ true)
  takes_bytes pi ti h = elim (Option-cases (get_elem? p pi)) [
    | inl past ↦ absurd (ground (arith, past, h))
    | inr (b, at_b) ↦ elim (Option-cases (get_elem? t ti)) [
      | inl past ↦ absurd (ground (arith, past, at_b, h))
      | inr (c, at_c) ↦ (b, c, at_b, at_c, ground (arith, at_b, at_c, h))
    ]
  ]

  plain_byte : (b c : ℕ) → (c == b'*') ≡ false → (b == b'?' || b == c) ≡ true → (b == b'*') ≡ false
  plain_byte b c h fits = ground (arith, h, fits)

  byte_in : (i : ℕ) → i < length t → (c : ℕ) × (get_elem? t i ≡ some c)
  byte_in i h = elim (Option-cases (get_elem? t i)) [
    | inl past ↦ absurd (omega (arith, h, end_at t i past))
    | inr found ↦ found
  ]
    where
      end_at : (t : List ℕ) (n : ℕ) → get_elem? t n ≡ none → length t ≤ n
      end_at [] n h = omega arith
      end_at (x ∷ t) zero h = cc
      end_at (x ∷ t) (suc n) h = omega (arith, end_at t n h)

  loop_exact :
      (fuel pi ti : ℕ) (star : Option ℕ) (mi : ℕ) (r : Bool)
      → no_star t ≡ true
      → IsSettled p t pi ti star mi
      → wildcard_loop fuel p t pi ti star mi ≡ some r
      → r ≡ glob p t
  unfolding wildcard_loop
  loop_exact zero pi ti star mi r n s h = cc
  loop_exact (suc fuel) pi ti star mi r n s h = elim (Bool-cases (ltb ti (length t))) [
    | inr over ↦
        let answer : some (all (λ b. b == b'*') (drop pi p)) ≡ some r =
          rw (over, wildcard_loop) at h in
        ground
          (arith, answer, all-glob (drop pi p), settled_end pi ti star mi (ground (arith, over)) s)
    | inl more ↦
        let (c, at_c) = byte_in ti (ground (arith, more)) in
        elim (Bool-cases (takes p t pi ti)) [
          | inl taken ↦
              let (b, d, at_b, at_d, fits) = takes_bytes pi ti taken in
              let plain = plain_byte b d (no_star-at t ti d n at_d) fits in
              loop_exact fuel (pi + 1) (ti + 1) star mi r n
                (advance-IsSettled pi ti b d star mi at_b at_d plain fits s)
                (rw (more, taken, wildcard_loop) at h)
          | inr kept ↦ elim (Bool-cases (is_at p pi b'*')) [
            | inl opened ↦
                loop_exact fuel (pi + 1) ti (some pi) ti r n
                  (open-IsSettled pi ti star mi (ground (arith, opened)) s)
                  (rw (more, kept, opened, wildcard_loop) at h)
            | inr closed ↦
                let miss = missed pi ti c at_c kept closed in
                elim (Option-cases star) [
                  | inl none_open ↦
                      let answer : some false ≡ some r =
                        rw (more, kept, closed, none_open, wildcard_loop) at h in
                      let settled = subst (λ x. IsSettled p t pi ti x mi) none_open s in
                      ground (arith, answer, settled, miss)
                  | inr (i, open_at) ↦
                      let settled = subst (λ x. IsSettled p t pi ti x mi) open_at s in
                      let (d, at_d) = byte_in mi (ground (arith, more, settled.0)) in
                      loop_exact fuel (i + 1) (mi + 1) star (mi + 1) r n
                        (subst (λ x. IsSettled p t (i + 1) (mi + 1) x (mi + 1)) (sym open_at)
                          (back-IsSettled pi ti i mi d at_d miss settled))
                        (rw (more, kept, closed, open_at, wildcard_loop) at h)
                ]
          ]
        ]
  ]

-- On a text without stars the matcher answers as the matcher by recursion does.
pub wildcard_bytes_exact :
    (pattern text : List ℕ)
    → no_star text ≡ true
    → wildcard_bytes pattern text ≡ some (glob pattern text)
unfolding wildcard_bytes
wildcard_bytes_exact pattern text n =
    elim (Option-cases (wildcard_loop (rounds pattern text) pattern text 0 0 none 0)) [
      | inl out ↦ absurd (ground (arith, out, wildcard_bytes-some pattern text))
      | inr (r, answered) ↦
          answered
          ∙ ap some (loop_exact pattern text (rounds pattern text) 0 0 none 0 r n refl answered)
    ]
