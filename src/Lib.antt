-- ===== src/Lib.antt =====
-- myrest is a REST server in front of MySQL. Here are its reads, from the query string of a request
-- to the statement that runs; its writes, from the rows of a body to the statements and the
-- transaction around them; the schema cache that says which tables a role may use; and the tokens
-- that say which role a request has.
--
-- A request's query string is parsed into a Query (internal/readquery), the Range header narrows its
-- page (internal/readquery/range.go, called by internal/httpapi/read.go), and the MySQL adapter builds
-- a statement with placeholders and the list of their arguments (internal/mysqldb) for a table of the
-- schema cache (internal/schemacache), which is built from the catalogue of the database. A write is
-- checked by internal/writeexec, which runs the statements of internal/mysqldb/write.go. The role is
-- the one that internal/jwt reads from the token. The files here follow those parts:
--   * Prelude: shared names, lists on native numbers, and Result, a value or an error.
--   * Text: a Go string as its list of code points, with the functions of strings, strconv and unicode
--     that the code calls. The Unicode tables above ASCII are an instance argument, Text.Unicode.
--   * ReadQuery.Query: the records of query.go; ReadQuery.Failure: ParseFailure, one constructor for
--     each message.
--   * ReadQuery.Field: parseField and parseJSONPath of json_path.go.
--   * ReadQuery.Filter and ReadQuery.InList: parseFilter, its operators and values, of filter_parse.go.
--   * ReadQuery.Groups: parseGroup and splitTopLevel of filter_parse.go.
--   * ReadQuery.Order and ReadQuery.Select: the order, limit, offset and select parameters of parse.go.
--     ReadQuery.EmbedParams: its dotted parameters, with the place of an embed for the pointer to it.
--     ReadQuery.Presence: embed_presence.go and aggregate.go. ReadQuery.Parse: Parse as a whole.
--   * ReadQuery.Page: ApplyRange of range.go, the Range header of internal/httpapi/read.go, and pageRowSet of
--     shape.go. Arithmetic on uint64 is written with its wrap-around, modulo 2^64.
--   * Sql: quoteIdentifier of internal/mysqldb/read.go, and the builders of filter_sql.go and query_sql.go.
--     Sql.Marks is a lexer of MySQL statements (strings, quoted identifiers, placeholders), against
--     which the statements are measured. Sql.Known says when a statement can be built, and Sql.Values
--     what the values of filters change in it.
--   * Prefer: the Prefer request header of internal/prefer/prefer.go. A map of the source is the list of
--     the writes to it, the newest first.
--   * Dict: Go's maps and sets. Schema: internal/schemacache. Schema.Facts and Schema.Snapshot have the
--     catalogue and the snapshot built from it; Schema.Grants walks the role grants, with fuel for one
--     step per role that holds another, which Schema.Walk shows to be enough; Schema.Relationship
--     chooses the relationship of an embed, and Schema.Reload has the goroutines that replace
--     and read the snapshot of the cache under its lock, one step at a time, with a snapshot assigned
--     field by field by Schema.Copy.
--   * Json: what encoding/json decodes and writes. Write: the statements of internal/mysqldb/write.go for
--     the rows of internal/writequery; Write.Rows inserts row by row where only some rows bring their
--     key. Execute: the checks of internal/writeexec, and the transaction
--     of internal/mysqldb/tx.go around the statements, with the driver as a record of operations.
--   * Jwt: internal/jwt/token.go. The library that checks signatures is a field of Jwt.Verifier.Verifier,
--     and what a number is as a float64 the instance argument Jwt.Floats.
--   * Names: ParseRole and SplitPreRequest of internal/mysqlname/name.go.
--   * Tests: the theorems at concrete requests, and runs.
--
-- Go code that changes a query through a pointer returns the changed query here, and a pair of a value
-- and an error is a Result. parseJSONPath loops until the text is read: each round takes an arrow and a
-- leg off it, so the length of the text is its fuel. parseGroup calls itself on a part of the text
-- between its parentheses, and parseSelect on the text between those of an embed: the length of the
-- text is their fuel, too. resolveEmbedParam takes a step off the key in each round.
-- A type string of constants is a data type of its constants, so the branch for an operator outside
-- them is not there. Texts that are not valid UTF-8 are not modelled: a Go string is read code point
-- by code point.
--
-- Not modelled: HTTP handlers, the database driver, the queries of the catalogue, configuration and
-- procedure calls. Of a write, the rows and keys that are read back after its statement are not modelled;
-- the operations of the driver and readquery.Project are the fields of Execute.Transaction.Adapter, and
-- Execute.Quiet.IsTransactional says what is relied on of its transactions.
pub mod Prelude
pub mod Text
pub mod Dict
pub mod ReadQuery
pub mod Schema
pub mod Json
pub mod Write
pub mod Execute
pub mod Jwt
pub mod Sql
pub mod Prefer
pub mod Names
pub mod Tests
