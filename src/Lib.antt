-- ===== src/Lib.antt =====
-- gemgraph: an embedded graph database on one data file and a write-ahead log.
--
-- The program is a stack of crates, each of which calls the one below it. `gemgraph-cypher` runs
-- queries on `gemgraph-graph`, which keeps nodes, edges and indexes in five B+trees of
-- `gemgraph-btree`, inside transactions of `gemgraph-mvcc`. The pages of the trees come from the
-- pager of `gemgraph-pager`, a page cache over the data file with a freelist and two meta pages, and
-- a commit is also recorded in the log of `gemgraph-wal`. This library models the pager, the log, the
-- trees, the transactions, the graph and the reading of queries.
--
--   Base    what the modules share: Boolean tests on numbers, lists measured by native numbers,
--           `Result` and the methods that may fail (`Method`, for `?` and `&mut self`), association
--           lists in the place of `HashMap`, and a checksum for the examples.
--   Bytes   byte buffers: `to_le_bytes`, `to_be_bytes` and their inverses, slices, `copy_from_slice`
--           (`write_at`), and the order of byte strings.
--   Wal     crates/gemgraph-wal/src: Record (record.rs), Frame (the bytes of a record in the log),
--           Device (the log file), Writer (writer.rs), Reader (reader.rs), Recovery (recovery.rs).
--   Pager   crates/gemgraph-pager/src: Page (page.rs), Meta (meta.rs), FreeList (freelist.rs), Disk
--           (the data file), Store (pager.rs).
--   BTree   crates/gemgraph-btree/src/node.rs: Leaf, the entries of a leaf, with Leaf/Page, their page,
--           and Internal, the separators and children of an internal node, with Internal/Page, its
--           page. crates/gemgraph-btree/src/tree.rs: Tree, the operations on the pages of a pager;
--           Tree/Model says what it is for pages to hold a tree, Tree/Replace and Tree/Update what
--           the change of one leaf does to it.
--   Mvcc    crates/gemgraph-mvcc/src: Catalog (catalog.rs), Database (database.rs), ReadTxn and WriteTxn
--           (txn.rs); Serves, InTxn and Writes say what transactions read and leave, Trees and
--           Three what a call on one of several trees leaves of the others, Commit what a commit does.
--   Graph   crates/gemgraph-graph/src/keys.rs: Keys, the keys of the adjacency and label indexes.
--           types.rs: Types; read_txn.rs: Read; write_txn.rs: Write; graph.rs: Db; Store is the
--           interface of the transactions of Mvcc that the graph uses; Steps, Create and Properties are
--           about the operations that create a node and set a property.
--   Cypher  crates/gemgraph-cypher/src/lexer.rs: Lexer; ast.rs: Ast; parser.rs: Tokens, the tests on
--           tokens, and Parser, with Parser/Expressions and Parser/Statements.
-- The lexer runs for a round for each character and one for the end, since every token takes the
-- character that it starts with. The loops of the parser take a token in each round and the
-- parentheses a token each, so that the number of tokens is enough for both. A descent in the tree
-- takes a round for each level; the theorems hold for any fuel above the height.
--
-- A function of the source has its name here, but for `open`, which is `open_log` and `open_file`,
-- `alloc` of the freelist, which is `pop`, and `new` of an internal node, which is `single`. A method
-- on `&mut self` is a function from the state to its result and the new state, so that what was changed
-- before an error stays changed. Integers are native natural numbers: an addition that may wrap is
-- written modulo 2^32 or 2^64, and what a conversion to bytes cuts off is cut off by `to_le_bytes`.
--
-- Files. Every access of the pager is to a whole page, so its file is a list of pages; the log is a
-- list of bytes. Both files carry a list of the faults to come, one for each call: a write that fails
-- may leave any page in its place, or any number of its first bytes. A crash is a fault behind which
-- nothing runs. A failure to open a file is not modelled, nor is a write that the system reports as
-- done and then loses.
--
-- The checksum crc32c stands for the crate of that name: it is a parameter of the definitions that
-- use it, with values below 2^32 where a theorem asks for that.
--
-- Fuel. Recovery runs for as many rounds as the file has bytes and one more, which is enough because
-- every record that is read takes nine bytes at least. The walk along the chain of the freelist runs for
-- two rounds more than the file has pages; the source loops for ever on a cyclic chain, and here the
-- fuel runs out, which is `none`.
--
--
-- What stands for std: `binary_search_by` is the search that its documentation describes, on sorted
-- entries with distinct keys; a `HashMap` is an association list. The character classes and the upper
-- case of Unicode and the parser of f64 are parameters of the lexer. The position in a parse error is
-- left out, and so is the depth of the stack. A panic of the source is an outcome of its own only where a
-- root page cannot be written or an id counter of the graph is missing (`panicked`, and `none` of
-- `new`); a slice out of range reads what is there.
--
-- bincode and f64 are parameters of the graph.
--
-- Not modelled: the executor of Cypher, which evaluates a parsed query by calls of the graph's
-- operations; the command line, the benchmarks and the re-exports of crates/gemgraph, which hold no
-- logic of their own.
pub mod Base
pub mod Bytes
pub mod Wal
pub mod Pager
pub mod BTree
pub mod Mvcc
pub mod Graph
pub mod Cypher
