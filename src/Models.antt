-- ===== src/Models.antt =====
-- Types of src/models.rs that the index keeps. Times are seconds.
use obsidian_mcp.Common.{ℕ, Option, List}
use obsidian_mcp.Text.{Text}
use obsidian_mcp.Access.{Frontmatter}

-- `size` is a `u64`, so below 2 ^ 64.
pub record FileStat : Type 0 where
  pub size : ℕ
  pub created : Option ℕ
  pub modified : Option ℕ

pub record Heading : Type 0 where
  pub level : ℕ
  pub text : Text
  pub line : ℕ

pub record WikiLink : Type 0 where
  pub raw : Text
  pub target : Text
  pub heading : Option Text
  pub block_ref : Option Text
  pub alias : Option Text
  pub line : ℕ

pub record NoteMetadata : Type 0 where
  pub path : Text
  pub title : Text
  pub tags : List Text
  pub frontmatter : Option Frontmatter
  pub headings : List Heading
  pub links : List WikiLink
  pub block_refs : List Text
  pub stat : FileStat

pub record VaultStats : Type 0 where
  pub total_notes : ℕ
  pub total_files : ℕ
  pub total_tags : ℕ
  pub total_links : ℕ
  pub vault_size_bytes : ℕ
  pub excluded_notes : ℕ

pub data PatchOperation : Type 0 where
  append prepend replace : PatchOperation

pub data PatchTargetType : Type 0 where
  heading block frontmatter : PatchTargetType

pub record PatchRequest : Type 0 where
  pub operation : PatchOperation
  pub target_type : PatchTargetType
  pub target : Text
  pub content : Text
