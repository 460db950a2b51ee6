-- ===== src/Ingest.antt =====
-- The ingest of a file: `ingest_text_file` of backend/app/services/text_document_ingest.py, with
-- `commit=True`. The parser, the embedding model and the limits of the settings are parameters.
pub mod Invariant
pub mod Chunks
use context_lens.Prelude.{
  ℕ, ◌+◌, Bool, true, false, not, Option, none, some, List, [], ◌∷◌, ◌++◌, map, Exn, Result, ok,
  err, other, value_error, ◌>>=◌, ◌>>◌, require, if◌then◌else◌, ltb, ◌==◌, length,
}
use context_lens.Prelude.Text.{Str, text_eq}
use context_lens.Chunker.{ℤ, ltb_ℤ, ChunkStrategy, ChunkData, chunk_text}

-- the values that `document.status` takes here
pub data DocumentStatus : Type 0 where
  processing processed failed : DocumentStatus

pub record Document : Type 0 where
  pub id : ℕ
  pub title : Str
  pub source_type : Str
  pub file_path : Str
  pub raw_text : Option Str
  pub status : DocumentStatus

-- a row of `chunks`: its columns from the chunker, and its embedding
pub record StoredChunk (V : Type 0) : Type 0 where
  pub document_id : ℕ
  pub chunk_data : ChunkData
  pub embedding : V

-- the two tables, and the files of the upload directory
pub record Store (V : Type 0) : Type 0 where
  pub documents : List Document
  pub chunks : List (StoredChunk V)
  pub next_document_id : ℕ
  pub files : List Str

-- what the ingest takes from outside: `parse_document`, `embed_texts`, and two settings
pub record Tools (V : Type 0) : Type 0 where
  pub parse_document : Str → Result Str
  pub embed_texts : List Str → Result (List V)
  pub max_text_length : ℕ
  pub max_chunks_per_document : ℕ

-- the arguments of `ingest_text_file`
pub record Upload : Type 0 where
  pub file_path : Str
  pub title : Str
  pub source_type : Str
  pub chunk_strategy : ChunkStrategy
  pub chunk_size : ℤ
  pub chunk_overlap : ℤ

-- what the `try` block gives: the text, its chunks and their embeddings
pub record Prepared (V : Type 0) : Type 0 where
  pub raw_text : Str
  pub chunk_data_list : List ChunkData
  pub embeddings : List V

-- `file_path.unlink(missing_ok=True)`
unlink : Str → List Str → List Str
unlink path [] = []
unlink path (f ∷ files) = let rest = unlink path files in if text_eq f path then rest else f ∷ rest

module _ {V : Type 0} where
  -- the rows for `zip(chunk_data_list, embeddings)`
  pub chunk_rows : ℕ → List ChunkData → List V → List (StoredChunk V)
  chunk_rows id [] vecs = []
  chunk_rows id (cd ∷ cds) [] = []
  chunk_rows id (cd ∷ cds) (vec ∷ vecs) =
      record { document_id = id; chunk_data = cd; embedding = vec } ∷ chunk_rows id cds vecs

module _ {V : Type 0} (tools : Tools V) (upload : Upload) where
  -- the `try` block
  unfoldable pub prepare : Result (Prepared V)
  prepare = do
    raw_text ← tools.parse_document upload.file_path
    require (not (ltb tools.max_text_length (length raw_text))) value_error
    cds ← chunk_text raw_text upload.chunk_strategy upload.chunk_size upload.chunk_overlap
    require (not (ltb tools.max_chunks_per_document (length cds))) value_error
    vecs ← tools.embed_texts (map (λ (cd : ChunkData). cd.content) cds)
    require (length vecs == length cds) other
    ok (record { raw_text = raw_text; chunk_data_list = cds; embeddings = vecs })

  -- the row that is flushed before the `try` block
  pub new_document : Store V → Document
  new_document store = record {
    id = store.next_document_id;
    title = upload.title;
    source_type = upload.source_type;
    file_path = upload.file_path;
    raw_text = none;
    status = processing;
  }

  -- the commit of the document, with its chunks
  pub commit_document : Document → List (StoredChunk V) → List Str → Store V → Store V
  commit_document doc rows files store = record {
    documents = store.documents ++ doc ∷ [];
    chunks = store.chunks ++ rows;
    next_document_id = store.next_document_id + 1;
    files = files;
  }

  -- the rest of the ingest, after the `try` block
  pub settle : Result (Prepared V) → Store V → Result Document × Store V
  unfolding new_document commit_document chunk_rows unlink
  settle (err e) store =
      let doc = record (new_document store) { status = failed } in
      (err e, commit_document doc [] (unlink upload.file_path store.files) store)
  settle (ok p) store =
      let doc = record (new_document store) { raw_text = some p.raw_text; status = processed } in
      let rows = chunk_rows store.next_document_id p.chunk_data_list p.embeddings in
      (ok doc, commit_document doc rows store.files store)

  unfoldable pub ingest_text_file : Store V → Result Document × Store V
  unfolding settle
  ingest_text_file store =
      if not (ltb_ℤ upload.chunk_overlap upload.chunk_size)
      then (err value_error, store)
      else settle prepare store
