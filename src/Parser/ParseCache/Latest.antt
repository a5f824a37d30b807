-- ===== src/Parser/ParseCache/Latest.antt =====
-- crates/hyperindex-parser/src/parse_cache.rs: what the cache holds after a series of upserts.
use repo_hyperindex.Base.{
  ◌≡◌, ◌∙◌, refl, ap, Bool, false, Option, none, some, List, [], ◌∷◌, arith, if◌then◌else◌,
  Option-cases, inl, inr,
}
use repo_hyperindex.Base.Order.{beq, beq_iff, beq_refl}
use repo_hyperindex.Base.Dict.{get, get-insert}
use repo_hyperindex.Base.Text.{text_ord, Text}
use repo_hyperindex.Parser.ParseCache.{
  ParseCacheKey, key_ord, ParseCache, new, upsert, get_key, latest_for_path,
}

paths_differ : (a b : ParseCacheKey) → beq a.path b.path ≡ false → beq a b ≡ false
paths_differ a b h = ground arith

module _ {ℓ} {ParseArtifact : Type ℓ} (cache_key : ParseArtifact → ParseCacheKey) where
  -- The key kept for a path is one of that path.
  abbrev IsFiled : ParseCache ParseArtifact → Type 0
  IsFiled cache =
      (path : Text) (key : ParseCacheKey)
      → get cache.latest_by_path path ≡ some key
      → key.path ≡ path

  upsert-IsFiled :
      (cache : ParseCache ParseArtifact) (artifact : ParseArtifact)
      → IsFiled cache
      → IsFiled (upsert cache_key cache artifact)
  unfolding upsert
  upsert-IsFiled cache artifact filed path key found = ground (
    arith,
    get-insert cache.latest_by_path (cache_key artifact).path path (cache_key artifact),
    beq_iff (cache_key artifact).path path,
    filed path key,
  )

  latest_for_path-upsert :
      (cache : ParseCache ParseArtifact) (artifact : ParseArtifact) (path : Text)
      → IsFiled cache
      → latest_for_path cache_key (upsert cache_key cache artifact) path ≡ (
          if beq (cache_key artifact).path path
          then some artifact
          else latest_for_path cache_key cache path)
  unfolding upsert
  latest_for_path-upsert cache artifact path filed =
      elim (Option-cases (get cache.latest_by_path path)) [
        | inl missing ↦ ground (
          arith,
          missing,
          get-insert cache.latest_by_path (cache_key artifact).path path (cache_key artifact),
          get-insert cache.entries (cache_key artifact) (cache_key artifact) artifact,
          beq_refl (cache_key artifact),
        )
        | inr (key, found) ↦ ground (
          arith,
          found,
          filed path key found,
          get-insert cache.latest_by_path (cache_key artifact).path path (cache_key artifact),
          get-insert cache.entries (cache_key artifact) (cache_key artifact) artifact,
          get-insert cache.entries (cache_key artifact) key artifact,
          beq_refl (cache_key artifact),
          paths_differ (cache_key artifact) key,
        )
      ]

  get_key-upsert :
      (cache : ParseCache ParseArtifact) (artifact : ParseArtifact) (key : ParseCacheKey)
      → get_key cache_key (upsert cache_key cache artifact) key
        ≡ (if beq (cache_key artifact) key then some artifact else get_key cache_key cache key)
  unfolding upsert
  get_key-upsert cache artifact key = get-insert cache.entries (cache_key artifact) key artifact

  unfoldable pub upsert_all :
      ParseCache ParseArtifact → List ParseArtifact → ParseCache ParseArtifact
  upsert_all cache [] = cache
  upsert_all cache (artifact ∷ rest) = upsert_all (upsert cache_key cache artifact) rest

  -- The last of a list that passes a test.
  abbrev pub last_such :
      (ParseArtifact → Bool) → Option ParseArtifact → List ParseArtifact → Option ParseArtifact
  last_such p before [] = before
  last_such p before (artifact ∷ rest) =
      last_such p (if p artifact then some artifact else before) rest

  get_key-upsert_all :
      (cache : ParseCache ParseArtifact) (artifacts : List ParseArtifact) (key : ParseCacheKey)
      → get_key cache_key (upsert_all cache artifacts) key
        ≡ last_such (λ a. beq (cache_key a) key) (get_key cache_key cache key) artifacts
  unfolding upsert_all
  get_key-upsert_all cache [] key = refl
  get_key-upsert_all cache (artifact ∷ rest) key =
      get_key-upsert_all (upsert cache_key cache artifact) rest key
      ∙ ap (λ before. last_such (λ a. beq (cache_key a) key) before rest)
          (get_key-upsert cache artifact key)

  latest_for_path-upsert_all :
      (cache : ParseCache ParseArtifact) (artifacts : List ParseArtifact) (path : Text)
      → IsFiled cache
      → latest_for_path cache_key (upsert_all cache artifacts) path
        ≡ last_such
            (λ a. beq (cache_key a).path path)
            (latest_for_path cache_key cache path)
            artifacts
  unfolding upsert_all
  latest_for_path-upsert_all cache [] path filed = refl
  latest_for_path-upsert_all cache (artifact ∷ rest) path filed =
      latest_for_path-upsert_all (upsert cache_key cache artifact) rest path
        (upsert-IsFiled cache artifact filed)
      ∙ ap (λ before. last_such (λ a. beq (cache_key a).path path) before rest)
          (latest_for_path-upsert cache artifact path filed)

  -- After a series of upserts into an empty cache, a key finds the last artifact with that key, and
  -- a path finds the last artifact of that path.
  pub upsert_exact :
      (artifacts : List ParseArtifact) (key : ParseCacheKey) (path : Text)
      → (get_key cache_key (upsert_all (new cache_key) artifacts) key
          ≡ last_such (λ a. beq (cache_key a) key) none artifacts)
        × (latest_for_path cache_key (upsert_all (new cache_key) artifacts) path
            ≡ last_such (λ a. beq (cache_key a).path path) none artifacts)
  unfolding get
  upsert_exact artifacts key path = (
    get_key-upsert_all (new cache_key) artifacts key,
    latest_for_path-upsert_all (new cache_key) artifacts path
        (λ path key found. absurd (ground arith)),
  )
