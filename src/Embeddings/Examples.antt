-- ===== src/Embeddings/Examples.antt =====
-- Texts of which the cache has one.
use Prim.Native.Char.{Char}
use zyntry_backend.Prelude.{
  String, ◌≡◌, refl, none, true, List, [], ◌∷◌, All, map, arith, length, ap, sym,
}
use zyntry_backend.Tokens.{chars}
use zyntry_backend.Session.{ok}
use zyntry_backend.Embeddings.{EmbeddingMetadata, EmbeddingCache, Embedder, embed_with_cache}
use zyntry_backend.Embeddings.Cached.{IsSound, embed_with_cache-transparent}

-- A vector is the characters of its text, and a hash the text.
abbrev vector : String → List Char
vector t = chars t

abbrev hash : String → String
hash t = t

abbrev embedder : Embedder (List Char)
embedder = record {
  now = 10;
  project_id = "p";
  model_name = "m";
  provider_name = "openai";
  embed = λ ts. ok (map vector ts);
  dimensions_of = λ v. length v;
}

abbrev metadata : String → EmbeddingMetadata
metadata t = record {
  document_id = "d";
  chunk_id = "c";
  source = "s";
  content_hash = t;
  embedding_version = "1";
}

abbrev row : EmbeddingCache (List Char)
row = record {
  key = record {
    project_id = "p";
    content_hash = "two";
    embedding_version = "1";
    embedding_model = "m";
    provider = "openai";
  };
  vector = chars "two";
  dimensions = 3;
  expires_at = none;
}

abbrev texts : List String
texts = "one" ∷ "two" ∷ "three" ∷ []

abbrev metadatas : List EmbeddingMetadata
metadatas = metadata "one" ∷ metadata "two" ∷ metadata "three" ∷ []

row-IsSound : IsSound embedder hash vector row
row-IsSound p m t same = sym (ap vector same)

embed_with_cache-transparent_example :
    let done = embed_with_cache embedder true 1 texts metadatas (row ∷ []) in
    (done.0 ≡ ok (map vector texts)) × All (IsSound embedder hash vector) done.1
embed_with_cache-transparent_example =
    embed_with_cache-transparent embedder hash vector true 1 texts metadatas (row ∷ [])
      (record { one_vector = λ a b same. ap vector same; pointwise = λ ts. refl }) (row-IsSound, tt)
      (refl, (refl, (refl, tt))) (omega arith)
