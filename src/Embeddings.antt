-- ===== src/Embeddings.antt =====
-- Embeddings and their cache (app/services/embedding_cache.py, app/repositories/embedding_cache.py
-- and `embed_with_cache` of app/services/embeddings.py). A vector is a value of a type that is an
-- argument, as are what the provider answers for a list of texts and the lengths of vectors. A time is
-- a number of microseconds; the cache's metadata are left out. The unique index of the table leaves one
-- row for each key.
pub mod Batches
pub mod Cached
mod Examples
use zyntry_backend.Prelude.{
  ℕ, suc, ◌+◌, ◌*◌, String, Option, none, some, Bool, true, false, not, ◌&&◌, ◌||◌, List, [], ◌∷◌,
  ◌++◌, leb, ltb, ◌==◌, length, map, find, keep, str_eq, if◌then◌else◌,
}
use zyntry_backend.Session.{Error, value_error, runtime_error, Result, ok, err}
use zyntry_backend.Embeddings.Batches.{split_into_batches}
use zyntry_backend.Chunking.{is_empty}

pub record EmbeddingMetadata : Type 0 where
  pub document_id : String
  pub chunk_id : String
  pub source : String
  pub content_hash : String
  pub embedding_version : String

-- The columns that a lookup compares.
pub record CacheKey : Type 0 where
  pub project_id : String
  pub content_hash : String
  pub embedding_version : String
  pub embedding_model : String
  pub provider : String

pub record EmbeddingCache (V : Type 0) : Type 0 where
  pub key : CacheKey
  pub vector : V
  pub dimensions : ℕ
  pub expires_at : Option ℕ

abbrev pub same_key : CacheKey → CacheKey → Bool
same_key a b =
    str_eq a.project_id b.project_id
    && str_eq a.content_hash b.content_hash
    && str_eq a.embedding_version b.embedding_version
    && str_eq a.embedding_model b.embedding_model
    && str_eq a.provider b.provider

abbrev pub is_active_at : ℕ → Option ℕ → Bool
is_active_at now none = true
is_active_at now (some until) = ltb now until

-- What a call reads: the time, the project, and the provider's name, model and answers.
pub record Embedder (V : Type 0) : Type 0 where
  pub now : ℕ
  pub project_id : String
  pub model_name : String
  pub provider_name : String
  pub embed : List String → Result (List V)
  pub dimensions_of : V → ℕ

-- An entry of `cached_results`, and a text that the cache does not have.
pub record Entry (V : Type 0) : Type 0 where
  pub index : ℕ
  pub vector : V

pub record Miss : Type 0 where
  pub index : ℕ
  pub text : String
  pub meta : EmbeddingMetadata

abbrev pub microseconds_per_day : ℕ
microseconds_per_day = 86400000000

abbrev pub expiry : ℕ → ℕ → Option ℕ
expiry now ttl_days = if ltb 0 ttl_days then some (now + ttl_days * microseconds_per_day) else none

abbrev pub zip_error : Error
zip_error = value_error "zip() arguments have different lengths"

-- No misses, one batch where they fit in one, or their split.
abbrev pub batches_of : ℕ → List Miss → Option (List (List Miss))
batches_of size misses =
    if is_empty misses
    then some []
    else if leb (length misses) size
    then some (misses ∷ [])
    else split_into_batches size misses

module _ {V : Type 0} where
  -- `EmbeddingCacheRepository.find_active`
  unfoldable pub find_active : ℕ → CacheKey → List (EmbeddingCache V) → Option (EmbeddingCache V)
  find_active now k rows = find (λ r. same_key r.key k && is_active_at now r.expires_at) rows

  -- `EmbeddingCacheRepository.upsert`
  unfoldable pub upsert_row : EmbeddingCache V → List (EmbeddingCache V) → List (EmbeddingCache V)
  upsert_row r [] = r ∷ []
  upsert_row r (x ∷ xs) = if same_key x.key r.key then r ∷ xs else x ∷ upsert_row r xs

  -- `delete_expired`: the number of rows, and the table without them.
  unfoldable pub delete_expired : ℕ → List (EmbeddingCache V) → ℕ × List (EmbeddingCache V)
  delete_expired now rows = (
    length (keep (λ r. not (is_active_at now r.expires_at)) rows),
    keep (λ r. is_active_at now r.expires_at) rows,
  )

  -- `EmbeddingCacheService.get`
  abbrev pub get : ℕ → CacheKey → List (EmbeddingCache V) → Option V
  get now k rows = elim (find_active now k rows) [ none ↦ none | some r ↦ some r.vector ]

  -- `EmbeddingCacheService.set`, with the number of days that a row lives.
  unfoldable pub set : ℕ → ℕ → CacheKey → V → ℕ → List (EmbeddingCache V) → List (EmbeddingCache V)
  unfolding upsert_row
  set now ttl_days k vector dimensions rows =
      upsert_row
        (record {
          key = k;
          vector = vector;
          dimensions = dimensions;
          expires_at = expiry now ttl_days;
        })
        rows

  abbrev pub key_for : Embedder V → EmbeddingMetadata → CacheKey
  key_for e m = record {
    project_id = e.project_id;
    content_hash = m.content_hash;
    embedding_version = m.embedding_version;
    embedding_model = e.model_name;
    provider = e.provider_name;
  }

  abbrev pub sorted_into :
      ℕ
      → String
      → EmbeddingMetadata
      → Option V
      → Result (List (Entry V) × List Miss)
      → Result (List (Entry V) × List Miss)
  sorted_into i t m cached (err x) = err x
  sorted_into i t m (some v) (ok (hits, misses)) =
      ok (record { index = i; vector = v } ∷ hits, misses)
  sorted_into i t m none (ok (hits, misses)) =
      ok (hits, record { index = i; text = t; meta = m } ∷ misses)

  -- The loop over texts and metadata, from an index on: what the cache has, and the misses.
  unfoldable pub scan :
      Embedder V
      → List (EmbeddingCache V)
      → ℕ
      → List String
      → List EmbeddingMetadata
      → Result (List (Entry V) × List Miss)
  unfolding find_active
  scan e rows i [] [] = ok ([], [])
  scan e rows i [] (m ∷ ms) = err zip_error
  scan e rows i (t ∷ ts) [] = err zip_error
  scan e rows i (t ∷ ts) (m ∷ ms) =
      sorted_into i t m (get e.now (key_for e m) rows) (scan e rows (suc i) ts ms)

  abbrev pub with_entry : Entry V → Result (List (Entry V)) → Result (List (Entry V))
  with_entry x (err e) = err e
  with_entry x (ok xs) = ok (x ∷ xs)

  -- The loop that stores a batch's vectors, for thirty days each.
  unfoldable pub store_batch :
      Embedder V
      → List Miss
      → List V
      → List (EmbeddingCache V)
      → Result (List (Entry V)) × List (EmbeddingCache V)
  unfolding set
  store_batch e [] [] rows = (ok [], rows)
  store_batch e [] (v ∷ vs) rows = (err zip_error, rows)
  store_batch e (m ∷ ms) [] rows = (err zip_error, rows)
  store_batch e (m ∷ ms) (v ∷ vs) rows =
      let (rest, last) =
        store_batch e ms vs (set e.now 30 (key_for e m.meta) v (e.dimensions_of v) rows) in
      (with_entry (record { index = m.index; vector = v }) rest, last)

  abbrev pub with_entries : List (Entry V) → Result (List (Entry V)) → Result (List (Entry V))
  with_entries xs (err e) = err e
  with_entries xs (ok ys) = ok (xs ++ ys)

  -- The batches of misses, in order; the first that raises ends the call.
  unfoldable pub embed_batches :
      Embedder V
      → List (List Miss)
      → List (EmbeddingCache V)
      → Result (List (Entry V)) × List (EmbeddingCache V)
  unfolding store_batch
  embed_batches e [] rows = (ok [], rows)
  embed_batches e (b ∷ bs) rows = elim (e.embed (map (λ m. m.text) b)) [
    | err x ↦ (err x, rows)
    | ok vs ↦
        let (stored, next) = store_batch e b vs rows in
        elim stored [
          | err x ↦ (err x, next)
          | ok entries ↦
              let (rest, last) = embed_batches e bs next in (with_entries entries rest, last)
        ]
  ]

  -- `cached_results[i]`
  abbrev pub entry_at : ℕ → List (Entry V) → Option V
  entry_at i [] = none
  entry_at i (x ∷ xs) = if x.index == i then some x.vector else entry_at i xs

  abbrev pub with_vector : Option V → Result (List V) → Result (List V)
  with_vector none rest = err (runtime_error "KeyError")
  with_vector (some v) (err x) = err x
  with_vector (some v) (ok vs) = ok (v ∷ vs)

  -- `[cached_results[i] for i in range(len(texts))]`, from an index on, for the texts that are left.
  unfoldable pub collect : List (Entry V) → ℕ → List String → Result (List V)
  collect entries i [] = ok []
  collect entries i (t ∷ ts) = with_vector (entry_at i entries) (collect entries (suc i) ts)

  -- `embed_with_cache`
  unfoldable pub embed_with_cache :
      Embedder V
      → Bool
      → ℕ
      → List String
      → List EmbeddingMetadata
      → List (EmbeddingCache V)
      → Result (List V) × List (EmbeddingCache V)
  unfolding scan embed_batches collect split_into_batches
  embed_with_cache e use_cache batch_size texts metadata rows =
      if not use_cache || is_empty texts
      then (e.embed texts, rows)
      else elim (scan e rows 0 texts metadata) [
        | err x ↦ (err x, rows)
        | ok (hits, misses) ↦ elim (batches_of batch_size misses) [
          | none ↦ (err (value_error "range() arg 3 must not be zero"), rows)
          | some bs ↦
              let (made, next) = embed_batches e bs rows in
              (elim made [ err x ↦ err x | ok entries ↦ collect (entries ++ hits) 0 texts ], next)
        ]
      ]
