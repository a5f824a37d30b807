-- ===== src/Parser/ParseCache.antt =====
-- crates/hyperindex-parser/src/parse_cache.rs: parsed files by path and contents, and the latest one
-- of each path. A parsed file is of any type that tells its key; the digest in a key is SHA-256.
pub mod Latest
use repo_hyperindex.Base.{ℕ, ◌≡◌, ap₂, Option, none, some}
use repo_hyperindex.Base.Order.{Ord}
use repo_hyperindex.Base.Fields.{fields_ord}
use repo_hyperindex.Base.Dict.{Dict, empty, get, insert, len}
use repo_hyperindex.Base.Text.{text_ord, Text}

pub record ParseCacheKey : Type 0 where
  pub path : Text
  pub content_sha256 : Text

pub key_ext : (a b : ParseCacheKey) → a.path ≡ b.path → a.content_sha256 ≡ b.content_sha256 → a ≡ b
key_ext a b e f = ap₂ (λ x y. record { path = x; content_sha256 = y }) e f

instance abbrev pub key_ord : Ord ParseCacheKey
key_ord = fields_ord (λ k. k.path) (λ k. k.content_sha256) key_ext

-- `ParseCacheKey::from_contents`
abbrev pub from_contents : (Text → Text) → Text → Text → ParseCacheKey
from_contents sha256 path contents = record { path = path; content_sha256 = sha256 contents }

pub record ParseCache {ℓ} (ParseArtifact : Type ℓ) : Type ℓ where
  pub entries : Dict ParseCacheKey ParseArtifact
  pub latest_by_path : Dict Text ParseCacheKey

module _ {ℓ} {ParseArtifact : Type ℓ} (cache_key : ParseArtifact → ParseCacheKey) where
  abbrev pub new : ParseCache ParseArtifact
  new = record { entries = empty; latest_by_path = empty }

  unfoldable pub upsert : ParseCache ParseArtifact → ParseArtifact → ParseCache ParseArtifact
  unfolding insert
  upsert cache artifact = record {
    entries = insert cache.entries (cache_key artifact) artifact;
    latest_by_path = insert cache.latest_by_path (cache_key artifact).path (cache_key artifact);
  }

  abbrev pub get_key : ParseCache ParseArtifact → ParseCacheKey → Option ParseArtifact
  get_key cache key = get cache.entries key

  abbrev pub latest_for_path : ParseCache ParseArtifact → Text → Option ParseArtifact
  latest_for_path cache path = elim (get cache.latest_by_path path) [
    | none ↦ none
    | some key ↦ get cache.entries key
  ]

  abbrev pub count : ParseCache ParseArtifact → ℕ
  count cache = len cache.entries
