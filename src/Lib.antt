-- ===== src/Lib.antt =====
-- Supabase Lite (sblite): a backend in one Go program, with REST over SQLite, row level security,
-- realtime channels over WebSockets and a translator from PostgreSQL's SQL.
--
-- Prelude holds the shared names: numbers are the native ℕ, a string is a list of bytes (Text), a map
-- with string keys is an association list (Prelude/Maps) whose order stands for the order in which Go
-- happens to range over the map. Prelude/Cuts has the functions of Go's package strings that several
-- parts use. Values has the JSON values and the record of functions of strconv and fmt; Numbers has
-- signed integers and how %d prints them.
--
-- Pgtranslate models internal/pgtranslate/token.go. Token has the token types, with each constant's
-- name in snake case, and the table `keywords`. Lexer/State has the record Lexer, readChar and the
-- functions that skip; Lexer/Literals the functions readString to readIdentifier; Lexer/Scan the
-- switch of NextToken, cut at its cases, NextToken and Tokenize. The Go lexer keeps `input`, `pos`,
-- `readPos` and `ch`; the model keeps the rest of the input from `pos` on, with 0 for `ch` where it is
-- empty, and the position. skipWhitespace, NextToken and Tokenize call themselves; they run on fuel,
-- which is one more than the number of bytes left, and every round uses up at least one byte.
--
-- Realtime models internal/realtime. Protocol is protocol.go without JSON, Presence is presence.go,
-- Hub is hub.go with channel.go and Conn.Send, Conn is conn.go from handleMessage on. The state is
-- the record Hub: the maps of the hub, the connection objects by id, and for each connection its
-- buffered channel of messages as a list of at most 256. A handler is a function from hub to hub and
-- runs alone: handlers of two connections are not interleaved. Runs is the hub over time, with a step
-- for each connect, message, write and close. Consistent holds the proofs for the invariant, a module
-- for each kind of change; Delivery and Changes/Told those on what a connection is sent. Go's choice
-- in `select` is the field picks_send, the fresh reference of a presence entry and the answer of the
-- JWT library are arguments.
--
-- Realtime/Filter is filter.go. Realtime/Changes is the rest of hub.go: the matching of subscriptions,
-- checkRLSAccess and broadcastChange, which NotifyChange calls when the REST part has changed a row.
-- Rls is internal/rls/enforcer.go with SubstituteAuthFunctions of rewriter.go. Changes uses it, and
-- Changes/Access compares the two. Rls/Substitution reads the literals that it writes with the lexer
-- of Pgtranslate. What comes from the packages strconv, fmt and regexp and from the database is a
-- record of functions that the definitions take.
--
-- Rest models how internal/rest turns a request into SQL. Filters and Lists are the parsers of
-- query.go, with the errors as texts; Conditions is ToSQL and ToRelatedSQL, where a condition is its
-- text and its arguments; Builder has the clauses, and Builder/Statements the statements, of
-- builder.go. The modules named Bound count the parameters of these texts and compare them with the
-- arguments (Conditions/Params says what a parameter is); Builder/Order is about the order of a row's
-- fields, Builder/Policies about the place of the RLS condition, and Parsing about what the parsers
-- return. Relations is the SELECT with joins and EXISTS conditions, with FindRelationship of
-- relations.go. The loop over a JSON path runs on fuel, one more than the number of bytes left, and
-- every round takes at least one byte.
--
-- Storage/Tus models internal/storage/tus.go and tus_types.go. The record Store has the rows of the
-- table, with its constraints (internal/db/migrations.go), the temporary files, and the sessions that
-- GetUpload has given to a goroutine to delete. Sessions and Chunks are the calls; each gets the time,
-- and what fails in it as a record Faults, and runs alone. Invariant, Writes and Reachable are about
-- any calls with any errors, Uploading and Received about uploads where nothing fails, Answers and
-- Offsets about errors, offsets and the cleanup. UploadObject of the storage service is a field of
-- the record Objects.
--
-- Not modelled: of internal/rest the reading of foreign keys, the embedding of related rows,
-- ParseMatchFilter (encoding/json) and the handlers; of internal/storage the objects, buckets and
-- handlers; Encode and DecodeMessage (encoding/json), ReadPump and WritePump (sockets), Stats, the
-- parser, generator and translator of internal/pgtranslate, and the other packages of internal, most
-- of which run statements of database/sql or serve HTTP.
pub mod Prelude
pub mod Numbers
pub mod Pgtranslate
pub mod Realtime
pub mod Rest
pub mod Rls
pub mod Storage
pub mod Values
