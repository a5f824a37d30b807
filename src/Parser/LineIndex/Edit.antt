-- ===== src/Parser/LineIndex/Edit.antt =====
-- crates/hyperindex-parser/src/line_index.rs: the edit window turns the old file into the new one.
use repo_hyperindex.Base.{
  ℕ, zero, suc, ◌+◌, ◌-◌, ◌≤◌, ◌<◌, ◌≡◌, refl, true, false, some, List, [], ◌∷◌, ◌++◌, arith,
  length, take, drop, get_elem?, Bool-cases, inl, inr,
}
use repo_hyperindex.Base.Order.{nat_ord, opt_beq}
use repo_hyperindex.Parser.LineIndex.{
  LineIndex, shared_prefix_len, suffix_goes_on, suffix_loop, shared_suffix_len, edit_from,
}

take-append-drop : (n : ℕ) (xs : List ℕ) → take n xs ++ drop n xs ≡ xs
take-append-drop zero xs = refl
take-append-drop (suc n) [] = refl
take-append-drop (suc n) (x ∷ xs) = rw (take-append-drop n xs)

take_nil : (n : ℕ) → take {A = ℕ} n [] ≡ []
take_nil zero = refl
take_nil (suc n) = refl

-- A list put together again from a prefix, a window and the rest.
splice : (p n : ℕ) (xs : List ℕ) → p ≤ n → take p xs ++ (take (n - p) (drop p xs) ++ drop n xs) ≡ xs
splice zero n xs h = let e : n - 0 ≡ n = omega arith in rw e (take-append-drop n xs)
splice (suc p) zero xs h = absurd (omega arith)
splice (suc p) (suc n) [] h =
    let e : suc n - suc p ≡ n - p = omega arith in rw (e, take_nil (n - p))
splice (suc p) (suc n) (x ∷ xs) h =
    let e : suc n - suc p ≡ n - p = omega arith in rw (e, splice p n xs (omega arith))

drop_get :
    (i : ℕ) (xs : List ℕ)
    → i < length xs
    → (x : ℕ) × (get_elem? xs i ≡ some x) × (drop i xs ≡ x ∷ drop (suc i) xs)
drop_get i [] h = absurd (omega arith)
drop_get zero (x ∷ xs) h = (x, refl, refl)
drop_get (suc i) (x ∷ xs) h = drop_get i xs (omega arith)

-- The shared prefix: the same bytes on both sides, and inside both.
take-shared_prefix_len :
    (l r : List ℕ) → take (shared_prefix_len l r) l ≡ take (shared_prefix_len l r) r
unfolding shared_prefix_len
take-shared_prefix_len [] [] = refl
take-shared_prefix_len [] (b ∷ r) = refl
take-shared_prefix_len (a ∷ l) [] = refl
take-shared_prefix_len (a ∷ l) (b ∷ r) = ground (arith, take-shared_prefix_len l r)

shared_prefix_len-le :
    (l r : List ℕ) → (shared_prefix_len l r ≤ length l) × (shared_prefix_len l r ≤ length r)
unfolding shared_prefix_len
shared_prefix_len-le [] r = omega arith
shared_prefix_len-le (a ∷ l) [] = omega arith
shared_prefix_len-le (a ∷ l) (b ∷ r) = ground (arith, shared_prefix_len-le l r)

-- What the loop of `shared_suffix_len` keeps: the suffixes of that length agree, and it fits beside
-- the prefix on both sides.
record Suffix (l r : List ℕ) (p s : ℕ) : Type 0 where
  agrees : drop (length l - s) l ≡ drop (length r - s) r
  fits_left : s + p ≤ length l
  fits_right : s + p ≤ length r

drop_whole : (xs : List ℕ) → drop (length xs) xs ≡ []
drop_whole [] = refl
drop_whole (x ∷ xs) = drop_whole xs

suffix_grows :
    (l r : List ℕ) (i j : ℕ)
    → i < length l
    → j < length r
    → opt_beq (get_elem? l i) (get_elem? r j) ≡ true
    → drop (suc i) l ≡ drop (suc j) r
    → drop i l ≡ drop j r
suffix_grows [] r i j hi hj t e = absurd (omega arith)
suffix_grows (x ∷ l) [] i j hi hj t e = absurd (omega arith)
suffix_grows (x ∷ l) (y ∷ r) zero zero hi hj t e = ground arith
suffix_grows (x ∷ l) (y ∷ r) zero (suc j) hi hj t e = grown x l (drop_get j r (omega arith)) t e
  where
    grown :
        (x : ℕ) (l : List ℕ)
        → (y : ℕ) × (get_elem? r j ≡ some y) × (drop j r ≡ y ∷ drop (suc j) r)
        → opt_beq (some x) (get_elem? r j) ≡ true
        → l ≡ drop (suc j) r
        → x ∷ l ≡ drop j r
    grown x l (y, g, d) t e = ground arith
suffix_grows (x ∷ l) r (suc i) j hi hj t e = suffix_grows l r i j (omega arith) hj t e

-- One byte more.
suffix_step :
    (l r : List ℕ) (p s : ℕ) → Suffix l r p s → suffix_goes_on l r p s ≡ true → Suffix l r p (s + 1)
suffix_step l r p s i t =
    let el : length l - (s + 1) ≡ length l - 1 - s = omega arith in
    let er : length r - (s + 1) ≡ length r - 1 - s = omega arith in
    let fl : s + p < length l = ground arith in
    let fr : s + p < length r = ground arith in
    let sl : suc (length l - 1 - s) ≡ length l - s = omega arith in
    let sr : suc (length r - 1 - s) ≡ length r - s = omega arith in
    record {
      agrees =
          rw (el, er)
            (suffix_grows l r (length l - 1 - s) (length r - 1 - s) (omega arith) (omega arith)
              (ground arith) (rw (sl, sr) i.agrees));
      fits_left = omega arith;
      fits_right = omega arith;
    }

-- The loop keeps that, and with enough fuel it ends because its test fails.
suffix_loop-Suffix :
    (fuel : ℕ) (l r : List ℕ) (p s : ℕ) → Suffix l r p s → Suffix l r p (suffix_loop fuel l r p s)
unfolding suffix_loop
suffix_loop-Suffix zero l r p s i = i
suffix_loop-Suffix (suc fuel) l r p s i = elim (Bool-cases (suffix_goes_on l r p s)) [
  | inl t ↦ rw t (suffix_loop-Suffix fuel l r p (s + 1) (suffix_step l r p s i t))
  | inr f ↦ rw f i
]

suffix_loop_stops :
    (fuel : ℕ) (l r : List ℕ) (p s : ℕ)
    → length l ≤ s + fuel
    → suffix_goes_on l r p (suffix_loop fuel l r p s) ≡ false
unfolding suffix_loop
suffix_loop_stops zero l r p s h = ground arith
suffix_loop_stops (suc fuel) l r p s h = ground (arith, suffix_loop_stops fuel l r p (s + 1))

-- The bytes just in front of the shared suffix differ in the two files, or one of the files has none
-- left beside the prefix.
pub shared_suffix_len_stops :
    (l r : List ℕ) (p : ℕ) → suffix_goes_on l r p (shared_suffix_len l r p) ≡ false
unfolding shared_suffix_len
shared_suffix_len_stops l r p = suffix_loop_stops (length l) l r p 0 (omega arith)

shared_suffix_len-Suffix :
    (l r : List ℕ) (p : ℕ) → p ≤ length l → p ≤ length r → Suffix l r p (shared_suffix_len l r p)
unfolding shared_suffix_len
shared_suffix_len-Suffix l r p hl hr = suffix_loop-Suffix (length l) l r p 0 (record {
  agrees =
      let el : length l - 0 ≡ length l = omega arith in
      let er : length r - 0 ≡ length r = omega arith in rw (el, er, drop_whole l, drop_whole r);
  fits_left = omega arith;
  fits_right = omega arith;
})

-- The window of an edit lies inside both files, and the old file with its window replaced by the
-- bytes of the window of the new file is the new file.
pub edit_from_applies :
    (index new_index : LineIndex) (old_bytes new_bytes : List ℕ)
    → let e = edit_from index old_bytes new_bytes new_index in
      (e.start_byte ≤ e.old_end_byte)
      × (e.old_end_byte ≤ length old_bytes)
      × (e.start_byte ≤ e.new_end_byte)
      × (e.new_end_byte ≤ length new_bytes)
      × (take e.start_byte old_bytes
            ++ (take (e.new_end_byte - e.start_byte) (drop e.start_byte new_bytes)
                ++ drop e.old_end_byte old_bytes)
          ≡ new_bytes)
unfolding edit_from
edit_from_applies index new_index old_bytes new_bytes =
    let p = shared_prefix_len old_bytes new_bytes in
    let s = shared_suffix_len old_bytes new_bytes p in
    let inside = shared_prefix_len-le old_bytes new_bytes in
    let fits = shared_suffix_len-Suffix old_bytes new_bytes p inside.0 inside.1 in
    let le_new : p ≤ length new_bytes - s = omega (arith, fits.fits_right) in
    (
      omega (arith, fits.fits_left),
      omega arith,
      le_new,
      omega arith,
      rw (take-shared_prefix_len old_bytes new_bytes, fits.agrees)
          (splice p (length new_bytes - s) new_bytes le_new),
    )
