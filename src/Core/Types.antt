-- ===== src/Core/Types.antt =====
-- internal/core/types.go. IDs, titles and the other texts are Go strings; a kind is compared only
-- as a whole. A score is the bit pattern of its float64, which the program only passes on.
use kasane_mcp.Prelude.{ℕ, String, Str, List, Bool, ℤ}

pub record Memory : Type 0 where
  pub kind : String
  pub id : Str
  pub workspace_id : Str
  pub title : Str
  pub content : Str
  pub tags : List Str
  pub source : Str
  pub revision : ℕ
  pub indexed_revision : ℕ
  pub indexing_status : String
  pub created_at : ℕ
  pub updated_at : ℕ
  pub deleted : Bool
  pub score : ℕ

pub record RememberInput : Type 0 where
  pub kind : String
  pub id : Str
  pub title : Str
  pub content : Str
  pub tags : List Str
  pub source : Str
  pub expected_revision : ℤ
  pub idempotency_key : Str

pub record SearchInput : Type 0 where
  pub kind : String
  pub query : Str
  pub tag : Str
  pub limit : ℤ
  pub offset : ℤ

pub record SearchResult : Type 0 where
  pub memories : List Memory
  pub degraded : Bool
  pub total : ℕ

pub record Hit : Type 0 where
  pub id : Str
  pub revision : ℕ
  pub score : ℕ

pub record ContextResult : Type 0 where
  pub text : Str
  pub memory_ids : List Str
  pub characters : ℕ
  pub truncated : Bool
  pub degraded : Bool
