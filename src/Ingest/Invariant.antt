-- ===== src/Ingest/Invariant.antt =====
-- What the documents of backend/app/services/text_document_ingest.py have, whatever an ingest raises.
use context_lens.Prelude.{
  ℕ, ◌+◌, ◌≤◌, ◌<◌, ◌≡◌, refl, ap, ◌∙◌, Option, none, some, List, [], ◌∷◌, ◌++◌, map, Result, ok,
  err, length, arith, All, All-append, append-nil, Bool-cases, inl, inr,
}
use context_lens.Prelude.Text.{Str}
use context_lens.Trace.Store.{rows_of}
use context_lens.Trace.Store.Laws.{rows_of-append, rows_of-All, rows_of-none}
use context_lens.Chunker.{ℤ, ltb_ℤ, ChunkStrategy, ChunkData, chunk_text}
use context_lens.Ingest.{
  Document, DocumentStatus, processing, processed, failed, StoredChunk, Store, Tools, Upload,
  Prepared, chunk_rows, prepare, new_document, commit_document, settle, ingest_text_file,
}

module _ {V : Type 0} where
  abbrev pub chunks_of : ℕ → List (StoredChunk V) → List (StoredChunk V)
  chunks_of id chunks = rows_of (λ (c : StoredChunk V). c.document_id) id chunks

  abbrev pub chunk_data_of : List (StoredChunk V) → List ChunkData
  chunk_data_of rows = map (λ (c : StoredChunk V). c.chunk_data) rows

  module _ (tools : Tools V) where
    -- The text of a processed document is stored and within its limit, and its rows are what the
    -- chunker gives for that text, within their limit.
    abbrev pub IsProcessed : Option Str → List (StoredChunk V) → Type 0
    IsProcessed raw_text rows =
        (text : Str) × (strategy : ChunkStrategy) × (size : ℤ) × (overlap : ℤ) × (raw_text
          ≡ some text)
        × (length text ≤ tools.max_text_length)
        × (chunk_text text strategy size overlap ≡ ok (chunk_data_of rows))
        × (length rows ≤ tools.max_chunks_per_document)

    -- a document that no ingest is working on
    abbrev pub IsSettledAs : DocumentStatus → Option Str → List (StoredChunk V) → Type 0
    IsSettledAs processing raw_text rows = ⊥
    IsSettledAs failed raw_text rows = (raw_text ≡ none) × (rows ≡ [])
    IsSettledAs processed raw_text rows = IsProcessed raw_text rows

    abbrev pub IsSettled : List (StoredChunk V) → Document → Type 0
    IsSettled chunks doc = IsSettledAs doc.status doc.raw_text (chunks_of doc.id chunks)

    -- Ids are below the next one, and every document is settled.
    pub record WellIngested (store : Store V) : Type 0 where
      pub low_documents : All (λ (d : Document). d.id < store.next_document_id) store.documents
      pub low_chunks :
          All (λ (c : StoredChunk V). c.document_id < store.next_document_id) store.chunks
      pub settled : All (IsSettled store.chunks) store.documents

  pub chunk_rows-id :
      (id : ℕ) (cds : List ChunkData) (vecs : List V)
      → All (λ (c : StoredChunk V). c.document_id ≡ id) (chunk_rows id cds vecs)
  unfolding chunk_rows
  chunk_rows-id id [] vecs = tt
  chunk_rows-id id (cd ∷ cds) [] = tt
  chunk_rows-id id (cd ∷ cds) (vec ∷ vecs) = (refl, chunk_rows-id id cds vecs)

  pub chunk_rows-data :
      (id : ℕ) (cds : List ChunkData) (vecs : List V)
      → length vecs ≡ length cds
      → chunk_data_of (chunk_rows id cds vecs) ≡ cds
  unfolding chunk_rows
  chunk_rows-data id [] vecs h = refl
  chunk_rows-data id (cd ∷ cds) [] h = absurd (omega arith)
  chunk_rows-data id (cd ∷ cds) (vec ∷ vecs) h =
      ap (λ (l : List ChunkData). cd ∷ l) (chunk_rows-data id cds vecs (omega arith))

  chunk_rows-length :
      (id : ℕ) (cds : List ChunkData) (vecs : List V) → length (chunk_rows id cds vecs) ≤ length cds
  unfolding chunk_rows
  chunk_rows-length id [] vecs = omega arith
  chunk_rows-length id (cd ∷ cds) [] = omega arith
  chunk_rows-length id (cd ∷ cds) (vec ∷ vecs) = omega (arith, chunk_rows-length id cds vecs)

  low-none :
      (n : ℕ) (chunks : List (StoredChunk V))
      → All (λ (c : StoredChunk V). c.document_id < n) chunks
      → chunks_of n chunks ≡ []
  unfolding rows_of
  low-none n [] low = refl
  low-none n (c ∷ chunks) (lt, low) = ground (arith, low-none n chunks low)

  -- the chunks of an older document stay
  older_rows :
      (id n : ℕ) (chunks rows : List (StoredChunk V))
      → id < n
      → All (λ (c : StoredChunk V). c.document_id ≡ n) rows
      → chunks_of id (chunks ++ rows) ≡ chunks_of id chunks
  older_rows id n chunks rows lt new =
      rows_of-append (λ (c : StoredChunk V). c.document_id) id chunks rows
      ∙ ap (λ (l : List (StoredChunk V)). chunks_of id chunks ++ l)
          (rows_of-none (λ (c : StoredChunk V). c.document_id) n id rows (λ e. absurd (omega arith))
            new)
      ∙ append-nil (chunks_of id chunks)

  -- the chunks of the new document are its rows
  pub new_rows :
      (n : ℕ) (chunks rows : List (StoredChunk V))
      → All (λ (c : StoredChunk V). c.document_id < n) chunks
      → All (λ (c : StoredChunk V). c.document_id ≡ n) rows
      → chunks_of n (chunks ++ rows) ≡ rows
  new_rows n chunks rows low new =
      rows_of-append (λ (c : StoredChunk V). c.document_id) n chunks rows
      ∙ ap (λ (l : List (StoredChunk V)). l ++ chunks_of n rows) (low-none n chunks low)
      ∙ rows_of-All (λ (c : StoredChunk V). c.document_id) n rows new

module _ {V : Type 0} (tools : Tools V) (upload : Upload) where
  -- what the `try` block has checked
  abbrev IsPrepared : Prepared V → Type 0
  IsPrepared p =
      (length p.raw_text ≤ tools.max_text_length)
      × (chunk_text p.raw_text upload.chunk_strategy upload.chunk_size upload.chunk_overlap
          ≡ ok p.chunk_data_list)
      × (length p.chunk_data_list ≤ tools.max_chunks_per_document)
      × (length p.embeddings ≡ length p.chunk_data_list)

  prepare-IsPrepared : (p : Prepared V) → prepare tools upload ≡ ok p → IsPrepared p
  unfolding prepare
  prepare-IsPrepared p h = ground arith

  -- A commit of the new document, settled with its rows, keeps the invariant.
  commit-WellIngested :
      (doc : Document) (rows : List (StoredChunk V)) (files : List Str) (store : Store V)
      → doc.id ≡ store.next_document_id
      → All (λ (c : StoredChunk V). c.document_id ≡ store.next_document_id) rows
      → IsSettledAs tools doc.status doc.raw_text rows
      → WellIngested tools store
      → WellIngested tools (commit_document tools upload doc rows files store)
  unfolding commit_document
  commit-WellIngested doc rows files store same new now old = record {
    low_documents =
        All-append _ store.documents (doc ∷ []) (raise_documents store.documents old.low_documents)
          (omega arith, tt);
    low_chunks =
        All-append _ store.chunks rows (raise_chunks store.chunks old.low_chunks)
          (fresh_chunks rows new);
    settled =
        All-append _ store.documents (doc ∷ [])
          (still store.documents old.low_documents old.settled)
          (rw (same, new_rows store.next_document_id store.chunks rows old.low_chunks new) now, tt);
  }
    where
      raise_documents :
          (ds : List Document)
          → All (λ (d : Document). d.id < store.next_document_id) ds
          → All (λ (d : Document). d.id < store.next_document_id + 1) ds
      raise_documents [] h = tt
      raise_documents (d ∷ ds) (lt, h) = (omega arith, raise_documents ds h)

      raise_chunks :
          (cs : List (StoredChunk V))
          → All (λ (c : StoredChunk V). c.document_id < store.next_document_id) cs
          → All (λ (c : StoredChunk V). c.document_id < store.next_document_id + 1) cs
      raise_chunks [] h = tt
      raise_chunks (c ∷ cs) (lt, h) = (omega arith, raise_chunks cs h)

      fresh_chunks :
          (cs : List (StoredChunk V))
          → All (λ (c : StoredChunk V). c.document_id ≡ store.next_document_id) cs
          → All (λ (c : StoredChunk V). c.document_id < store.next_document_id + 1) cs
      fresh_chunks [] h = tt
      fresh_chunks (c ∷ cs) (e, h) = (omega arith, fresh_chunks cs h)

      still :
          (ds : List Document)
          → All (λ (d : Document). d.id < store.next_document_id) ds
          → All (IsSettled tools store.chunks) ds
          → All (IsSettled tools (store.chunks ++ rows)) ds
      still [] lows olds = tt
      still (d ∷ ds) (low, lows) (settled, olds) = (
        rw (older_rows d.id store.next_document_id store.chunks rows low new) settled,
        still ds lows olds,
      )

  settle-WellIngested :
      (ended : Result (Prepared V)) (store : Store V)
      → ((p : Prepared V) → ended ≡ ok p → IsPrepared p)
      → WellIngested tools store
      → WellIngested tools ((settle tools upload ended store).1)
  unfolding settle new_document
  settle-WellIngested (err e) store checked old =
      commit-WellIngested _ [] _ store refl tt (refl, refl) old
  settle-WellIngested (ok p) store checked old =
      let (short, chunked, few, each) = checked p refl in
      let id = store.next_document_id in
      let rows = chunk_rows id p.chunk_data_list p.embeddings in
      let same = chunk_rows-data id p.chunk_data_list p.embeddings each in
      commit-WellIngested _ rows _ store refl (chunk_rows-id id p.chunk_data_list p.embeddings)
        (
          p.raw_text,
          upload.chunk_strategy,
          upload.chunk_size,
          upload.chunk_overlap,
          refl,
          short,
          rw same chunked,
          omega (arith, few, chunk_rows-length id p.chunk_data_list p.embeddings),
        )
        old

  -- Whatever an ingest returns or raises, it keeps the invariant of the documents: ids are below the
  -- next one, no document is left as processing, a failed one has neither text nor chunks, and the
  -- chunks of a processed one are, in order, what the chunker gives for its stored text; text and
  -- chunks are within their limits.
  pub ingest-WellIngested :
      (store : Store V)
      → WellIngested tools store
      → WellIngested tools ((ingest_text_file tools upload store).1)
  unfolding ingest_text_file
  ingest-WellIngested store old = elim (Bool-cases (ltb_ℤ upload.chunk_overlap upload.chunk_size)) [
    | inl e ↦ rw e (settle-WellIngested (prepare tools upload) store prepare-IsPrepared old)
    | inr e ↦ rw e old
  ]
