-- ===== src/Embeddings/Cached.antt =====
-- The cache changes no embedding.
pub mod Entries
use mathlib.Core.Path.{subst}
use zyntry_backend.Prelude.{
  ℕ, suc, String, ◌≡◌, refl, sym, ap, ◌∙◌, none, some, Bool, true, not, ◌&&◌, ◌||◌, List, [], ◌∷◌,
  ◌++◌, ◌≤◌, All, arith, map, length, leb, Bool-cases, Option-cases, inl, inr, eq_iff,
}
use zyntry_backend.Session.{ok}
use zyntry_backend.Chunking.{is_empty}
use zyntry_backend.Embeddings.{
  EmbeddingMetadata, CacheKey, EmbeddingCache, same_key, is_active_at, Embedder, Entry, Miss,
  find_active, upsert_row, get, set, key_for, scan, store_batch, embed_batches, batches_of,
  entry_at, collect, embed_with_cache, with_entries,
}
use zyntry_backend.Embeddings.Batches.{split_into_batches-concat, concat}
use zyntry_backend.Embeddings.Cached.Entries.{
  entry_at-append, IsFrom, entry_at-before, IsFrom-weaken, collect-agree, same_key-eq, map-append,
  All-concat, concat-batches_of,
}

module _ {V : Type 0} where
  module _ (e : Embedder V) (hash : String → String) (f : String → V) where
    -- A row of the provider's model has the vector of each text with its hash.
    abbrev pub IsSound : EmbeddingCache V → Type 0
    IsSound r =
        r.key.provider ≡ e.provider_name
        → r.key.embedding_model ≡ e.model_name
        → (t : String) → hash t ≡ r.key.content_hash
        → r.vector ≡ f t

    -- Each text has its metadata, with its hash.
    abbrev pub AreDescribed : List String → List EmbeddingMetadata → Type 0
    AreDescribed [] [] = Unit
    AreDescribed [] (m ∷ ms) = ⊥
    AreDescribed (t ∷ ts) [] = ⊥
    AreDescribed (t ∷ ts) (m ∷ ms) = (hash t ≡ m.content_hash) × AreDescribed ts ms

    get_sound :
        (now : ℕ) (m : EmbeddingMetadata) (t : String) (rows : List (EmbeddingCache V)) {v : V}
        → All IsSound rows
        → hash t ≡ m.content_hash
        → get now (key_for e m) rows ≡ some v
        → v ≡ f t
    unfolding find_active
    get_sound now m t [] h k found = absurd (ground arith)
    get_sound now m t (r ∷ rows) {v = v} h k found =
        elim (Bool-cases (same_key r.key (key_for e m) && is_active_at now r.expires_at)) [
          | inr other ↦ get_sound now m t rows {v = v} h.1 k (ground (arith, other))
          | inl same ↦
              let keys = same_key-eq r.key (key_for e m) (ground arith) in
              let it : r.vector ≡ v = ground (arith, same) in
              sym it ∙ h.0 keys.2 keys.1 t (k ∙ sym keys.0)
        ]

    -- Texts with one hash have one vector, and the provider gives each text its own.
    pub record IsFaithful : Type 0 where
      pub one_vector : (a b : String) → hash a ≡ hash b → f a ≡ f b
      pub pointwise : (ts : List String) → e.embed ts ≡ ok (map f ts)

    upsert_row-IsSound :
        (r : EmbeddingCache V) (rows : List (EmbeddingCache V))
        → IsSound r
        → All IsSound rows
        → All IsSound (upsert_row r rows)
    unfolding upsert_row
    upsert_row-IsSound r [] k h = (k, tt)
    upsert_row-IsSound r (x ∷ xs) k h = elim (Bool-cases (same_key x.key r.key)) [
      | inl same ↦ let step : upsert_row r (x ∷ xs) ≡ r ∷ xs = ground arith in simp step (k, h.1)
      | inr other ↦
          let step : upsert_row r (x ∷ xs) ≡ x ∷ upsert_row r xs = ground arith in
          simp step (h.0, upsert_row-IsSound r xs k h.1)
    ]

    set-IsSound :
        (m : EmbeddingMetadata) (t : String) (n : ℕ) (rows : List (EmbeddingCache V))
        → IsFaithful
        → hash t ≡ m.content_hash
        → All IsSound rows
        → All IsSound (set e.now 30 (key_for e m) (f t) n rows)
    unfolding set
    set-IsSound m t n rows ok_f k h =
        upsert_row-IsSound _ rows (λ p q u same. ok_f.one_vector t u (k ∙ sym same)) h

    abbrev entry_of : Miss → Entry V
    entry_of m = record { index = m.index; vector = f m.text }

    collect-nil : (xs : List (Entry V)) (i : ℕ) → collect xs i [] ≡ ok []
    unfolding collect
    collect-nil xs i = refl

    -- The entries `ys` have the first text's vector, and are else those of `xs`.
    collect-cons :
        (t : String) (ts : List String) (i : ℕ) (xs ys : List (Entry V))
        → entry_at i ys ≡ some (f t)
        → ((j : ℕ) → suc i ≤ j → entry_at j ys ≡ entry_at j xs)
        → collect xs (suc i) ts ≡ ok (map f ts)
        → collect ys i (t ∷ ts) ≡ ok (map f (t ∷ ts))
    unfolding collect
    collect-cons t ts i xs ys here later rest =
        let same = collect-agree ys xs (suc i) ts later in ground (arith, here, same, rest)

    abbrev IsDescribed : Miss → Type 0
    IsDescribed m = hash m.text ≡ m.meta.content_hash

    store_batch-IsSound :
        (b : List Miss) (rows : List (EmbeddingCache V))
        → IsFaithful
        → All IsDescribed b
        → All IsSound rows
        → let done = store_batch e b (map f (map (λ m. m.text) b)) rows in
          (done.0 ≡ ok (map entry_of b)) × All IsSound done.1
    unfolding store_batch
    store_batch-IsSound [] rows ok_f d h = (refl, h)
    store_batch-IsSound (m ∷ ms) rows ok_f d h =
        let next = set-IsSound m.meta m.text (e.dimensions_of (f m.text)) rows ok_f d.0 h in
        let rest = store_batch-IsSound ms _ ok_f d.1 next in (ground (arith, rest.0), rest.1)

    embed_batches-IsSound :
        (bs : List (List Miss)) (rows : List (EmbeddingCache V))
        → IsFaithful
        → All (All IsDescribed) bs
        → All IsSound rows
        → let done = embed_batches e bs rows in
          (done.0 ≡ ok (map entry_of (concat bs))) × All IsSound done.1
    unfolding embed_batches
    embed_batches-IsSound [] rows ok_f d h = (refl, h)
    embed_batches-IsSound (b ∷ bs) rows ok_f d h =
        let vs = map f (map (λ m. m.text) b) in
        let asked = ok_f.pointwise (map (λ m. m.text) b) in
        let stored = store_batch-IsSound b rows ok_f d.0 h in
        let next = (store_batch e b vs rows).1 in
        let rest = embed_batches-IsSound bs next ok_f d.1 stored.1 in
        let made : (embed_batches e (b ∷ bs) rows).0
            ≡ with_entries (map entry_of b) (embed_batches e bs next).0 =
          ground (arith, asked, stored.0) in
        let left : (embed_batches e (b ∷ bs) rows).1 ≡ (embed_batches e bs next).1 =
          ground (arith, asked, stored.0) in
        (ground (arith, made, rest.0, map-append entry_of b (concat bs)), simp left rest.1)

    -- What the scan of texts comes to.
    record IsScanned (rows : List (EmbeddingCache V)) (i : ℕ) (ts : List String)
        (ms : List EmbeddingMetadata) : Type 0 where
      hits : List (Entry V)
      misses : List Miss
      scanned : scan e rows i ts ms ≡ ok (hits, misses)
      hits_from : All (IsFrom i) hits
      misses_from : All (IsFrom i) (map entry_of misses)
      described : All IsDescribed misses
      collected : collect (map entry_of misses ++ hits) i ts ≡ ok (map f ts)

    scan-IsScanned :
        (rows : List (EmbeddingCache V)) (i : ℕ) (ts : List String) (ms : List EmbeddingMetadata)
        → All IsSound rows
        → AreDescribed ts ms
        → IsScanned rows i ts ms
    unfolding scan
    scan-IsScanned rows i [] [] h d = record {
      hits = [];
      misses = [];
      scanned = refl;
      hits_from = tt;
      misses_from = tt;
      described = tt;
      collected = collect-nil [] i;
    }
    scan-IsScanned rows i [] (m ∷ ms) h d = absurd d
    scan-IsScanned rows i (t ∷ ts) [] h d = absurd d
    scan-IsScanned rows i (t ∷ ts) (m ∷ ms) h d =
        let rest = scan-IsScanned rows (suc i) ts ms h d.1 in
        let old = map entry_of rest.misses in
        elim (Option-cases (get e.now (key_for e m) rows)) [
          | inr (v, found) ↦
              let it : v ≡ f t = get_sound e.now m t rows {v = v} h d.0 found in
              let x : Entry V = record { index = i; vector = v } in
              record {
                hits = x ∷ rest.hits;
                misses = rest.misses;
                scanned = ground (arith, found, rest.scanned);
                hits_from = (omega arith, IsFrom-weaken i rest.hits rest.hits_from);
                misses_from = IsFrom-weaken i old rest.misses_from;
                described = rest.described;
                collected =
                    collect-cons t ts i (old ++ rest.hits) (old ++ x ∷ rest.hits)
                      (entry_at-append i old (x ∷ rest.hits)
                        ∙ ground (arith, entry_at-before i old rest.misses_from, it))
                      (λ j low. ground (
                        arith,
                        entry_at-append j old (x ∷ rest.hits),
                        entry_at-append j old rest.hits,
                      ))
                      rest.collected;
              }
          | inl missing ↦
              let x : Entry V = record { index = i; vector = f t } in
              record {
                hits = rest.hits;
                misses = record { index = i; text = t; meta = m } ∷ rest.misses;
                scanned = ground (arith, missing, rest.scanned);
                hits_from = IsFrom-weaken i rest.hits rest.hits_from;
                misses_from = (omega arith, IsFrom-weaken i old rest.misses_from);
                described = (d.0, rest.described);
                collected =
                    collect-cons t ts i (old ++ rest.hits) (x ∷ (old ++ rest.hits)) (ground arith)
                      (λ j low. ground arith) rest.collected;
              }
        ]

    -- Where each row of the cache has the vector of the texts with its hash, the texts come with their
    -- own hashes, and the provider gives each text a vector that its hash determines, then, whatever
    -- the cache holds and whether it is used, for batches of any size but zero, the vectors that
    -- come back are those of the texts, in order, and the rows of the cache that is left are right too.
    pub embed_with_cache-transparent :
        (use_cache : Bool) (batch_size : ℕ) (ts : List String) (ms : List EmbeddingMetadata)
        (rows : List (EmbeddingCache V))
        → IsFaithful
        → All IsSound rows
        → AreDescribed ts ms
        → 1 ≤ batch_size
        → let done = embed_with_cache e use_cache batch_size ts ms rows in
          (done.0 ≡ ok (map f ts)) × All IsSound done.1
    unfolding embed_with_cache
    embed_with_cache-transparent use_cache batch_size ts ms rows ok_f h d some_size =
        elim (Bool-cases (not use_cache || is_empty ts)) [
          | inl direct ↦
              let left : (embed_with_cache e use_cache batch_size ts ms rows).1 ≡ rows =
                ground (arith, direct) in
              (ground (arith, direct, ok_f.pointwise ts), simp left h)
          | inr cached ↦
              let seen = scan-IsScanned rows 0 ts ms h d in
              let (bs, cut) = concat-batches_of batch_size seen.misses some_size in
              let described = subst (All IsDescribed) (sym cut.1) seen.described in
              let made =
                embed_batches-IsSound bs rows ok_f (All-concat IsDescribed bs described) h in
              let entries : (embed_batches e bs rows).0 ≡ ok (map entry_of seen.misses) =
                made.0 ∙ ap (λ xs. ok (map entry_of xs)) cut.1 in
              let answer : (embed_with_cache e use_cache batch_size ts ms rows).0
                  ≡ collect (map entry_of seen.misses ++ seen.hits) 0 ts =
                ground (arith, cached, seen.scanned, cut.0, entries) in
              let left : (embed_with_cache e use_cache batch_size ts ms rows).1
                  ≡ (embed_batches e bs rows).1 =
                ground (arith, cached, seen.scanned, cut.0) in
              (answer ∙ seen.collected, simp left made.1)
        ]
