-- ===== src/Paths/Normal.antt =====
-- crates/hyperindex-core/src/paths.rs: what a normalised path looks like, and that normalising it
-- again changes nothing.
use repo_hyperindex.Base.{
  ℕ, ◌≡◌, refl, ◌≢◌, ◌↔◌, Bool, true, false, ◌||◌, List, [], ◌∷◌, ◌++◌, map, arith, ◌==◌,
  if◌then◌else◌, All, any, Bool-cases, inl, inr, filter, not,
}
use repo_hyperindex.Base.Order.{beq, beq_iff}
use repo_hyperindex.Base.Text.{text_ord, Text, text, trim, split, join, cons_head}
use repo_hyperindex.Errors.{ok}
use repo_hyperindex.Paths.{
  Component, normal, component_of, body_components, leading_components, components, is_absolute,
  normal_parts, normalize_repo_relative_path, escapes_root, is_empty,
}

abbrev pub has : ℕ → Text → Bool
has sep w = any (λ c. c == sep) w

-- A piece of a repo-relative path: not empty, no separator inside, neither `.` nor `..`.
pub record IsPart (w : Text) : Type 0 where
  pub not_empty : beq w (text "") ≡ false
  pub not_dot : beq w (text ".") ≡ false
  pub not_dots : beq w (text "..") ≡ false
  pub no_slash : has b'/' w ≡ false

split_cons : (sep : ℕ) (t : Text) → split sep t ≢ []
unfolding split
split_cons sep [] h = cc
split_cons sep (c ∷ cs) h = ground (arith, split_cons sep cs)

split-cons_head :
    (sep c : ℕ) (ws : List Text)
    → (c == sep) ≡ false
    → ws ≢ []
    → All (λ w. has sep w ≡ false) ws
    → All (λ w. has sep w ≡ false) (cons_head c ws)
split-cons_head sep c [] e n h = absurd (n refl)
split-cons_head sep c (w ∷ ws) e n h = (ground arith, h.1)

-- The pieces of a split do not hold the separator.
split_pieces : (sep : ℕ) (t : Text) → All (λ w. has sep w ≡ false) (split sep t)
unfolding split
split_pieces sep [] = (refl, tt)
split_pieces sep (c ∷ cs) = elim (Bool-cases (c == sep)) [
  | inl e ↦ rw e (refl, split_pieces sep cs)
  | inr e ↦ rw e (split-cons_head sep c (split sep cs) e (split_cons sep cs) (split_pieces sep cs))
]

split_whole : (sep : ℕ) (w : Text) → has sep w ≡ false → split sep w ≡ w ∷ []
unfolding split
split_whole sep [] h = refl
split_whole sep (c ∷ cs) h = ground (arith, split_whole sep cs)

split-append :
    (sep : ℕ) (w t : Text) → has sep w ≡ false → split sep (w ++ sep ∷ t) ≡ w ∷ split sep t
unfolding split
split-append sep [] t h = ground arith
split-append sep (c ∷ cs) t h = ground (arith, split-append sep cs t)

-- Splitting undoes joining.
split-join :
    (w : Text) (ws : List Text)
    → All IsPart (w ∷ ws)
    → split b'/' (join (text "/") (w ∷ ws)) ≡ w ∷ ws
unfolding join
split-join w [] h = split_whole b'/' w h.0.no_slash
split-join w (v ∷ ws) h =
    rw (split-append b'/' w (join (text "/") (v ∷ ws)) h.0.no_slash, split-join v ws h.1)

component_of-part :
    (w : Text) (rest : List Component) → IsPart w → component_of w rest ≡ normal w ∷ rest
unfolding component_of
component_of-part w rest p = rw (p.not_empty, p.not_dot, p.not_dots)

body_components-parts : (ws : List Text) → All IsPart ws → body_components ws ≡ map normal ws
unfolding body_components
body_components-parts [] h = refl
body_components-parts (w ∷ ws) h =
    rw (component_of-part w (body_components ws) h.0, body_components-parts ws h.1)

not_absolute : (w t : Text) → IsPart w → is_absolute (w ++ t) ≡ false
not_absolute [] t p = absurd (ground (arith, p.not_empty))
not_absolute (c ∷ cs) t p = ground (arith, p.no_slash)

join_not_absolute :
    (w : Text) (ws : List Text) → IsPart w → is_absolute (join (text "/") (w ∷ ws)) ≡ false
unfolding join
join_not_absolute [] [] p = absurd (ground (arith, p.not_empty))
join_not_absolute (c ∷ cs) [] p = ground (arith, p.no_slash)
join_not_absolute w (v ∷ ws) p = not_absolute w (text "/" ++ join (text "/") (v ∷ ws)) p

components-join :
    (w : Text) (ws : List Text)
    → All IsPart (w ∷ ws)
    → components (join (text "/") (w ∷ ws)) ≡ map normal (w ∷ ws)
unfolding components
components-join w ws h =
    rw (join_not_absolute w ws h.0, split-join w ws h, h.0.not_dot)
      (body_components-parts (w ∷ ws) h)

normal_parts-map :
    (subject trimmed : Text) (ws : List Text) → normal_parts subject trimmed (map normal ws) ≡ ok ws
unfolding normal_parts
normal_parts-map subject trimmed [] = refl
normal_parts-map subject trimmed (w ∷ ws) = rw (normal_parts-map subject trimmed ws)

-- The pieces that normalising keeps, and those that it refuses.
abbrev pub is_kept : Text → Bool
is_kept w = not (beq w (text "") || beq w (text "."))

abbrev pub is_dots : Text → Bool
is_dots w = beq w (text "..")

-- The loop refuses any `..`, and keeps the pieces that name something.
normal_parts-body :
    (subject trimmed : Text) (ws : List Text)
    → normal_parts subject trimmed (body_components ws)
      ≡ (if any is_dots ws then escapes_root subject trimmed else ok (filter is_kept ws))
unfolding normal_parts body_components
normal_parts-body subject trimmed [] = refl
normal_parts-body subject trimmed (w ∷ ws) =
    ground (arith, normal_parts-body subject trimmed ws, beq_iff w (text ".."))

normal_parts-components :
    (subject trimmed : Text)
    → is_absolute trimmed ≡ false
    → normal_parts subject trimmed (components trimmed) ≡ (
        if any is_dots (split b'/' trimmed)
        then escapes_root subject trimmed
        else ok (filter is_kept (split b'/' trimmed)))
unfolding components normal_parts
normal_parts-components subject trimmed h = rw h (go (split b'/' trimmed))
  where
    go :
        (ws : List Text)
        → normal_parts subject trimmed (leading_components ws)
          ≡ (if any is_dots ws then escapes_root subject trimmed else ok (filter is_kept ws))
    go [] = refl
    go (w ∷ ws) = ground (
      arith,
      normal_parts-body subject trimmed ws,
      normal_parts-body subject trimmed (w ∷ ws),
      beq_iff w (text "."),
    )

kept-IsPart :
    (ws : List Text)
    → All (λ w. has b'/' w ≡ false) ws
    → any is_dots ws ≡ false
    → All IsPart (filter is_kept ws)
kept-IsPart [] h d = tt
kept-IsPart (w ∷ ws) h d = ground (arith, kept-IsPart ws h.1)

abbrev pub kept_pieces : Text → List Text
kept_pieces t = filter is_kept (split b'/' t)

abbrev no_parts : List Text → Bool
no_parts [] = true
no_parts (w ∷ ws) = false

-- The three refusals of `normalize_repo_relative_path`, and its result otherwise.
abbrev pub is_refused : Text → Bool
is_refused t = is_empty t || is_absolute t || any is_dots (split b'/' t) || no_parts (kept_pieces t)

join-IsPart :
    (ws : List Text)
    → no_parts ws ≡ false
    → All IsPart ws
    → All IsPart (split b'/' (join (text "/") ws))
join-IsPart [] n h = cc
join-IsPart (w ∷ ws) n h = rw (split-join w ws h) h

-- A path is refused exactly if, trimmed, it is empty or absolute, has a `..`, or has no piece but
-- empty ones and dots; otherwise the result is its other pieces, joined.
pub normalize-ok :
    (path subject q : Text)
    → (normalize_repo_relative_path path subject ≡ ok q)
      ↔ ((is_refused (trim path) ≡ false) × (q ≡ join (text "/") (kept_pieces (trim path))))
unfolding normalize_repo_relative_path
normalize-ok path subject q = ground (arith, normal_parts-components subject (trim path))

-- The result of normalising is a repo-relative path: each piece of it names a file or a folder.
pub normalize-IsPart :
    (path subject q : Text)
    → normalize_repo_relative_path path subject ≡ ok q
    → All IsPart (split b'/' q)
normalize-IsPart path subject q e =
    let h = (normalize-ok path subject q).0 e in
    rw h.1 (
      join-IsPart (kept_pieces (trim path)) (ground arith)
        (kept-IsPart (split b'/' (trim path)) (split_pieces b'/' (trim path)) (ground arith)))

kept_parts : (ws : List Text) → All IsPart ws → filter is_kept ws ≡ ws
kept_parts [] h = refl
kept_parts (w ∷ ws) h = rw (h.0.not_empty, h.0.not_dot, kept_parts ws h.1)

parts_not_dots : (ws : List Text) → All IsPart ws → any is_dots ws ≡ false
parts_not_dots [] h = refl
parts_not_dots (w ∷ ws) h = rw (h.0.not_dots, parts_not_dots ws h.1)

join_not_empty :
    (c : ℕ) (cs : Text) (ws : List Text) → is_empty (join (text "/") ((c ∷ cs) ∷ ws)) ≡ false
unfolding join
join_not_empty c cs [] = refl
join_not_empty c cs (w ∷ ws) = refl

join_not_refused :
    (ws : List Text)
    → no_parts ws ≡ false
    → All IsPart ws
    → (is_refused (join (text "/") ws) ≡ false) × (kept_pieces (join (text "/") ws) ≡ ws)
join_not_refused [] n h = cc
join_not_refused ([] ∷ ws) n h = absurd (ground (arith, h.0.not_empty))
join_not_refused ((c ∷ cs) ∷ ws) n h = ground (
  arith,
  split-join (c ∷ cs) ws h,
  kept_parts ((c ∷ cs) ∷ ws) h,
  parts_not_dots ((c ∷ cs) ∷ ws) h,
  join_not_absolute (c ∷ cs) ws h.0,
  join_not_empty c cs ws,
)

-- Normalising a normalised path changes nothing, whatever it is the path of, unless the first
-- result has white space at an end (which a second call would trim).
pub normalize_idem :
    (path subject subject' q : Text)
    → normalize_repo_relative_path path subject ≡ ok q
    → trim q ≡ q
    → normalize_repo_relative_path q subject' ≡ ok q
normalize_idem path subject subject' q e t =
    let h = (normalize-ok path subject q).0 e in
    let ws = kept_pieces (trim path) in
    let parts : All IsPart ws =
      kept-IsPart (split b'/' (trim path)) (split_pieces b'/' (trim path)) (ground arith) in
    let r = join_not_refused ws (ground arith) parts in
    (normalize-ok q subject' q).1 (rw t (ground (arith, r)), rw (t, h.1, r.1))
