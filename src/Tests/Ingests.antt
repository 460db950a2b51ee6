-- ===== src/Tests/Ingests.antt =====
-- Tests and examples of the ingest of a text.
use context_lens.Prelude.{ℕ, ◌≡◌, refl, some, [], ◌∷◌, map, ok, err, value_error, length, arith}
use context_lens.Prelude.Text.{Str, codes, strip, text_eq}
use context_lens.Chunker.{pos, fixed, chunk_text}
use context_lens.Chunker.Fixed.{Covers}
use context_lens.Ingest.{
  Document, processed, failed, Store, Tools, Upload, prepare, ingest_text_file,
}
use context_lens.Ingest.Invariant.{WellIngested, chunks_of, chunk_data_of, ingest-WellIngested}
use context_lens.Ingest.Chunks.{ingest-Covers}

-- a parser that finds one text, and embeddings that are lengths
abbrev tools_with : ℕ → Tools ℕ
tools_with limit = record {
  parse_document = λ path. ok (codes "abcdef gh");
  embed_texts = λ texts. ok (map (λ (t : Str). length t) texts);
  max_text_length = limit;
  max_chunks_per_document = 5;
}

abbrev upload : Upload
upload = record {
  file_path = codes "a.txt";
  title = codes "A";
  source_type = codes "txt";
  chunk_strategy = fixed;
  chunk_size = pos 4;
  chunk_overlap = pos 1;
}

abbrev no_documents : Store ℕ
no_documents = record {
  documents = [];
  chunks = [];
  next_document_id = 1;
  files = codes "a.txt" ∷ [];
}

empty-WellIngested : (limit : ℕ) → WellIngested (tools_with limit) no_documents
empty-WellIngested limit = record { low_documents = tt; low_chunks = tt; settled = tt }

ingest-WellIngested_example :
    WellIngested (tools_with 100) ((ingest_text_file (tools_with 100) upload no_documents).1)
ingest-WellIngested_example =
    ingest-WellIngested (tools_with 100) upload no_documents (empty-WellIngested 100)

ingest-Covers_example :
    (doc : Document) × (store' : Store ℕ) × (ingest_text_file (tools_with 100) upload no_documents
      ≡ (ok doc, store'))
    × (doc.status ≡ processed)
    × (doc.raw_text ≡ some (codes "abcdef gh"))
    × Covers (strip (codes "abcdef gh")) 4 1 5 (chunk_data_of (chunks_of doc.id store'.chunks))
unfolding chunk_text strip
ingest-Covers_example =
    ingest-Covers (tools_with 100) upload no_documents (codes "abcdef gh") 4 1 5 102 refl refl refl
      (omega arith) refl (omega arith) refl (omega arith) refl refl (empty-WellIngested 100) refl
      refl

-- a text beyond the limit: a failed document, no chunks, and no file
too-long :
    ((ingest_text_file (tools_with 3) upload no_documents).0 ≡ err value_error)
    × ((ingest_text_file (tools_with 3) upload no_documents).1.chunks ≡ [])
    × ((ingest_text_file (tools_with 3) upload no_documents).1.files ≡ [])
    × (map
          (λ (d : Document). d.status)
          ((ingest_text_file (tools_with 3) upload no_documents).1.documents)
        ≡ failed ∷ [])
unfolding ingest_text_file prepare text_eq
too-long = (refl, refl, refl, refl)
