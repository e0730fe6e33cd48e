-- ===== src/Lib.antt =====
-- Verification library of obsidian-mcp, a server that reads and writes the notes of an Obsidian
-- vault, keeps an index of them and answers searches.
--
-- Parts and files. Each file opens with the source that it is about.
-- - Text: Rust's str as its list of Unicode scalar values, with byte offsets in UTF-8, and what
--   the program uses of the standard library's text functions.
-- - Map: HashMap and HashSet with text keys, as association lists with one entry to a key.
-- - Errors: VaultError and VaultResult (src/error.rs).
-- - Path: vault-relative paths (src/vault/path.rs): VaultPath::parse is parse, VaultPath::entry
--   is entry, normalize_relative keeps its name.
-- - Wikilink: the link resolver (src/vault/wikilink.rs); the private insert is add_path.
-- - Access: the audience policy of private memory readers (src/access.rs); Access/Eligible has
--   private_source_eligible.
-- - Source: revisions and byte-bounded pages of a note (src/vault/source.rs); Source/Headings has
--   the pages of headings.
-- - Models: the types of src/models.rs that the index keeps.
-- - Json: JSON values, as far as the fields of an object are read and set.
-- - Frontmatter: the YAML block of a note (src/vault/frontmatter.rs), its fields and their
--   editing; Frontmatter/Body has SourceSnapshot::body_range of src/vault/source.rs.
-- - Patch: patches at headings (src/vault/patch.rs); Patch/Fields has patches of frontmatter
--   fields and Patch/Edits what they change, Patch/Blocks block references (src/vault/parser.rs), patches at them, and
--   apply_patch.
-- - Registry: the views of a vault in the daemon (src/daemon/vault_registry.rs). Registry has the
--   state, Registry/Holding the reservations and their end, Registry/Calls the steps of attach,
--   Registry/Runs the steps, which may follow one another in any order; the other children are
--   proofs.
-- - Upgrade: the services that an upgrade knows and starts anew (src/upgrade/orchestrator.rs and
--   src/upgrade/mod.rs).
-- - Exclude: exclusion policies (src/vault/exclude.rs). Exclude has the tests of a policy,
--   Exclude/Rules its compilation, with the glob package as Globset.
-- - Index: the in-memory index of a vault (src/vault/index.rs). Index has the state and the
--   removal of a note, Index/Backlinks the graph, statistics and queries, Index/Updates removal,
--   exclusion and sizes, Index/Entering what an observed file enters, Index/Observations the
--   application of an observation, Index/Files the reading of files from disk, Index/Queries the
--   questions and the release of waiting notes; the other children are proofs. Index/Reached says
--   what sequences of operations are. The index resolves links by Wikilink, hashes by Source, and
--   takes paths apart by Path.
-- - Tests: runs of the model, and the theorems at concrete inputs.
--
-- Parameters. Unicode normalisation (a third-party package) and the lower case of the standard
-- library's tables are functions that the definitions take. The index takes an Env: these two,
-- the hash function, the exclusion policy, the eligibility test of private notes and the parser
-- of a note; the answers of the full-text index are Tantivy, and those of the file system
-- Filesystem. Machine integers are natural numbers. A page of headings takes the headings of the
-- text and the sizes of encoded records, and a patch takes the headings of the text. Frontmatter
-- takes the YAML package as Yaml, and a patch of a field takes it as YamlPackage, with the laws of
-- its mappings as MappingLaws; a patch at a
-- block takes the matches of block identifiers. In the registry a call of attach is two steps,
-- one that reads the scope under its lock and one that publishes the context, or a failure; the
-- drawn identifiers of holders are taken to be new, and an opened context to be idle but for the
-- watcher that it was opened with. Message texts of errors are left out. Loops are recursion on
-- the list that they run through, so no fuel is used; only the reader that follows pages in
-- Source/Reading counts its rounds, and one more than the bytes of the range is enough. The
-- operations on an index are given paths without backslashes, as VaultPath makes them.
--
-- Not modelled: the SFTP transport, the file system adapters, the full-text index, the embedding
-- runtime, the daemon's bootstrap and process handling, the commands of an upgrade, and the tool
-- layer that turns protocol requests into calls, which are input and output, processes and third-
-- party calls first of all; and the parsing of notes, periodic notes, the table of vault roots,
-- the ranking of semantic results, the configuration and the daemon's protocol.
pub mod Common
pub mod Text
pub mod Errors
pub mod Map
pub mod Path
pub mod Wikilink
pub mod Access
pub mod Source
pub mod Models
pub mod Exclude
pub mod Json
pub mod Frontmatter
pub mod Patch
pub mod Registry
pub mod Upgrade
pub mod Index
mod Tests
