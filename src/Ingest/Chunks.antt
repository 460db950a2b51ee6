-- ===== src/Ingest/Chunks.antt =====
-- What an ingest stores of a text that the fixed strategy cuts:
-- backend/app/services/text_document_ingest.py with chunker.py.
use context_lens.Prelude.{
  ℕ, ◌≤◌, ◌<◌, ◌≡◌, refl, sym, ap, ◌∙◌, true, false, some, List, map, ok, length, get_elem?, arith,
  lt→ltb,
}
use context_lens.Prelude.Text.{Str, strip, is_space}
use context_lens.Chunker.{pos, ltb_ℤ, ChunkData, fixed, chunk_text}
use context_lens.Chunker.Fixed.{Covers, chunk_text-Covers}
use context_lens.Ingest.{
  Document, processed, StoredChunk, Store, Tools, Upload, Prepared, chunk_rows, prepare,
  new_document, commit_document, settle, ingest_text_file,
}
use context_lens.Ingest.Invariant.{
  WellIngested, chunks_of, chunk_data_of, chunk_rows-id, chunk_rows-data, new_rows,
}

module _ {V : Type 0} (tools : Tools V) (upload : Upload) where
  module _ (text : Str) (cds : List ChunkData) (vecs : List V) where
    abbrev prepared : Prepared V
    prepared = record { raw_text = text; chunk_data_list = cds; embeddings = vecs }

    prepare-ok :
        tools.parse_document upload.file_path ≡ ok text
        → length text ≤ tools.max_text_length
        → chunk_text text upload.chunk_strategy upload.chunk_size upload.chunk_overlap ≡ ok cds
        → length cds ≤ tools.max_chunks_per_document
        → tools.embed_texts (map (λ (cd : ChunkData). cd.content) cds) ≡ ok vecs
        → length vecs ≡ length cds
        → prepare tools upload ≡ ok prepared
    unfolding prepare
    prepare-ok parsed short chunked few embedded each = ground arith

    -- the stored chunks of the new document are those of the chunker
    stored-chunks :
        (store : Store V)
        → ltb_ℤ upload.chunk_overlap upload.chunk_size ≡ true
        → prepare tools upload ≡ ok prepared
        → length vecs ≡ length cds
        → WellIngested tools store
        → (doc : Document) × (store' : Store V) × (ingest_text_file tools upload store
            ≡ (ok doc, store'))
          × (doc.status ≡ processed)
          × (doc.raw_text ≡ some text)
          × (chunk_data_of (chunks_of doc.id store'.chunks) ≡ cds)
    unfolding ingest_text_file settle new_document commit_document
    stored-chunks store small done each old =
        let id = store.next_document_id in
        let rows = chunk_rows id cds vecs in
        let doc : Document = record (new_document tools upload store) {
          raw_text = some text;
          status = processed;
        } in
        (
          doc,
          commit_document tools upload doc rows store.files store,
          rw (small, done) refl,
          refl,
          refl,
          ap (λ (l : List (StoredChunk V)). chunk_data_of l)
                (new_rows id store.chunks rows old.low_chunks (chunk_rows-id id cds vecs))
              ∙ chunk_rows-data id cds vecs each,
        )

  -- On a text that can be read, within the limits and embedded chunk by chunk, an ingest with the
  -- fixed strategy and an overlap below the chunk size returns a processed document with that text,
  -- and every character of the stripped text that is not white space lies in the window of a chunk
  -- that is stored for the document.
  pub ingest-Covers :
      (store : Store V) (text : Str) (chunk_size overlap p c : ℕ) {cds : List ChunkData}
      {vecs : List V}
      → upload.chunk_strategy ≡ fixed
      → upload.chunk_size ≡ pos chunk_size
      → upload.chunk_overlap ≡ pos overlap
      → overlap < chunk_size
      → tools.parse_document upload.file_path ≡ ok text
      → length text ≤ tools.max_text_length
      → chunk_text text fixed (pos chunk_size) (pos overlap) ≡ ok cds
      → length cds ≤ tools.max_chunks_per_document
      → tools.embed_texts (map (λ (cd : ChunkData). cd.content) cds) ≡ ok vecs
      → length vecs ≡ length cds
      → WellIngested tools store
      → get_elem? (strip text) p ≡ some c
      → is_space c ≡ false
      → (doc : Document) × (store' : Store V) × (ingest_text_file tools upload store
          ≡ (ok doc, store'))
        × (doc.status ≡ processed)
        × (doc.raw_text ≡ some text)
        × Covers (strip text) chunk_size overlap p (chunk_data_of (chunks_of doc.id store'.chunks))
  ingest-Covers store text chunk_size overlap p c {cds} {vecs} strat size over lt parsed short
        chunked few embedded each old at ink =
      let (ds, found, covers) = chunk_text-Covers text chunk_size overlap p c lt at ink in
      let same : ds ≡ cds = cc in
      let small : ltb_ℤ upload.chunk_overlap upload.chunk_size ≡ true =
        rw (size, over) (lt→ltb overlap chunk_size lt) in
      let (doc, store', run, status, raw, stored) =
        stored-chunks text cds vecs store small
          (prepare-ok text cds vecs parsed short (rw (strat, size, over) chunked) few embedded each)
          each old in
      (doc, store', run, status, raw, rw (stored, sym same) covers)
