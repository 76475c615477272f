-- ===== src/Lib.antt =====
-- A model of the markup and of the comments of shitposter: the package scum/, a tokenizer and
-- parser for tag-based markup that a program configures with a dictionary of tags, the dictionary
-- that sml/ gives it, the tree of comments that api/ builds, and the comments and votes that db/
-- stores.
--
-- The parts and how they interact
--
-- A program makes a dictionary and registers tags, an attribute signature and an escape trigger
-- (Scum.Dictionary; scum/dictionary.go, scum/limits.go, scum/add_tag.go, scum/add_universal_tag.go,
-- scum/set_attribute_signature.go, scum/set_escape_trigger.go, with the tags of scum/tag.go and
-- scum/tag_sequence.go in Scum.Tag). Each registered byte gets an action. The source keeps an
-- action as a closure; here it is the data that the closure holds, and `run_action` runs it
-- (Scum.Actions). The action of a tag is the plan that `CreateAction` makes of it (Scum.Plan;
-- scum/create_action.go, scum/plan.go), a list of steps (Scum.Steps and Scum.Checks;
-- scum/step_*.go, scum/warn_*.go, scum/check_*.go) over the action's context (Scum.Token). The
-- steps look for a tag's sequence with the prefix search of scum/utils.go (Scum.Search).
--
-- The tokenizer (Scum.Tokenizer; scum/tokenize.go) walks over the input, runs the action at each
-- registered byte, and collects tokens. The parser (Scum.Parser; scum/parse.go,
-- scum/parser_state.go, scum/parser_limits.go, scum/process_*.go, scum/close_tag.go,
-- scum/append_greedy_node.go) consumes the tokens, keeps three stacks (Scum.State), and writes
-- nodes and attributes to two arenas (Scum.Ast; scum/ast.go, scum/append_node.go,
-- scum/append_attribute.go, scum/text.go). Every part reports to one collector of warnings
-- (Scum.Warnings; scum/warnings.go), with the kinds of Scum.Issue (scum/issues.go,
-- scum/config_error.go). Sml.Eater builds the dictionary of the posts' markup (sml/eater.go).
-- Sml.Link decides which attributes a link keeps (sml/link.go), over the array that the source
-- overwrites while it reads; Sml.Render strips a tree and writes it as HTML
-- (sml/normalize_render_tree.go, sml/html.go). Apart from these, Api.Comments makes the tree of the
-- comments of a post from ordered rows (api/comments_utils.go), with indices for its pointers.
-- Scum.Serialization turns the warnings into what the API shows (scum/serializable_warning.go), a
-- description into the list of its pieces. Functions keep their names, in the spelling of this
-- library.
--
-- The store (Db) keeps comments and votes in tables (Db.Tables; db/sqlc/models.go, db/migration). A
-- method is a function from a database to a result and a database (Db.Monad), and may fail with an
-- error of Db.Error (db/sqlc/error.go). The statements that it sends act on the tables as their SQL
-- and the functions of db/migration say (Db.Queries, Db.VoteQueries; db/sqlc/comment.sql.go,
-- db/sqlc/comment_vote.sql.go). Db.Tx runs a body in a transaction (db/sqlc/exec_tx.go; Db.Atomic), Db.Insert,
-- Db.Delete and Db.Vote are the transactions (db/sqlc/tx_insert_comment.go,
-- db/sqlc/tx_delete_comment.go, db/sqlc/tx_vote_comment.go), and Db.Delete has the update of
-- db/sqlc/update_comment.go. What each of them does when it succeeds is in Db.Inserts, Db.Deletes,
-- Db.Votes and Db.Edits; Db.Admission and Db.Permission say when a call succeeds; Db.Sound is the
-- invariant of the tables, with Db.Threads, Db.Pruning, Db.Tallies and Db.Casting; Db.Reachable
-- runs any calls. Db.Users deletes users (db/sqlc/tx_soft_delete_user.go; Db.Farewell),
-- Db.Credentials checks the counter of a passkey (db/sqlc/record_credential_use.go; Db.Counters).
-- Api.Requests are handlers over the store (api/create_comment.go, api/delete_comment.go,
-- api/delete_user.go; Api.Welcome and Api.Answers), with the checks of a body (Api.Json and
-- Api.Validation; api/json_utils.go, api/validation_utils.go), their complaints (Api.Vomit;
-- api/vomit.go), and the statuses that Api.Resource gives to the store's errors
-- (api/resource_error.go). Of a body and of a path they take what the decoder and the parser of
-- numbers of Go's library find.
--
-- How the code is represented
--
-- A pointer that a function mutates is a value that it takes and returns: the collector of warnings
-- is a field of the contexts that share it. An error is `config_error` and a run-time panic
-- `panics`. Numbers of a Go `int` are natural numbers, without a largest one; those that the caller
-- may pass negative are integers until they are checked. A byte is a natural number. An index -1 is
-- `none`. A read out of bounds is 0.
--
-- A database carries the errors that its connection will meet (`ahead`): a statement that meets one
-- fails with it and does nothing, and so does a begin. The effects of the server on a transaction are
-- its documented ones: a rollback puts the tables back, and so does the server when the message does
-- not arrive and the session is lost; a commit whose answer is an error has done nothing, or has been
-- applied all the same (`applied`). The sequences of identifiers move on in transactions that are
-- rolled back. Calls run one after another: locks and the interleaving of statements are not modelled.
-- A text is one of Unicode; the database refuses one with NUL, and a new row whose difference of
-- counters is no BIGINT. Otherwise counters and votes are integers, identifiers and depths natural
-- numbers without a largest one. Left out are a vote that moves a counter beyond BIGINT, and a single
-- statement outside of the transactions that is applied although its answer is lost.
--
-- Bounds and fuel
--
-- The loop of the tokenizer has the input's length as fuel: each round moves by at least one byte.
-- The loops of the searches have the length of what they search, and the closing phase of the
-- parser the height of its stack: each round pops one.
--
-- What is not modelled
--
-- The Unicode classes of letters, numbers and punctuation are a parameter (`Unicode` of Scum.Utf8);
-- decoding is that of UTF-8. The capacities of reused slices and the pool of parser states are left
-- out, as are the texts of errors and issues. The case of letters, the trimming of spaces, the
-- count of runes and the parsing of URLs are a parameter of Sml.Link (`Strings`) and, with the
-- parsing of addresses, of Api.Validation (`Texts`), and what html.EscapeString is applied to is
-- marked. The serialization of trees, which gives Sml.Render its input, the rest of api/, the
-- methods of the store that create, update and read users or only read for display, the sessions in
-- Redis and the tokens for access are not modelled.
pub mod Prelude
pub mod Scum
pub mod Sml
pub mod Api
pub mod Db
pub mod Examples
pub mod StoreExamples
pub mod LinkExamples
