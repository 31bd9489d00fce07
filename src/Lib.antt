-- ===== src/Lib.antt =====
-- pg2json turns the results of PostgreSQL queries into JSON, straight from the wire bytes. This library
-- models the parts that decide what bytes come out, in the order in which a result passes through them:
-- a RowDescription is compiled into a plan, each DataRow is cut into cells, each cell goes through the
-- encoder of its column, and strings go through the JSON escaper.
--
-- GoStd        what the source uses of Go's standard library: encoding/binary and strconv.AppendInt
-- JsonWriter   internal/jsonwriter: AppendNull, AppendBool, AppendString, AppendKey and appendEscape
--              (writer.go), the scalar escaper (escape_scalar.go) and, in JsonWriter.Swar, the escaper of
--              the build tag pg2json_simd (escape_swar.go). JsonWriter.Reader has a reader of JSON
--              strings that is written from RFC 8259 and independent of the escapers.
-- Json         the grammar of RFC 8259 as data types, which the output is measured against
-- Protocol     internal/protocol/oid.go
-- Types        internal/types: Text has the text-format encoders and Pick (encoder.go, numeric.go,
--              uuid.go, bytea.go, jsonpass.go); Binary, DateTime, Interval and NumericBin have the
--              binary-format scalars (binary.go, interval.go, numeric_bin.go), Array has arrays and
--              PickBinary (array.go, binary.go), Appending what each encoder does to a buffer
-- Rows         internal/rows: ParseRowDescription, the headers and the formats (plan.go), AppendObject
--              and AppendArray (datarow.go), AppendTOONRow (toon.go); Rows.Server has the
--              messages as the server writes them
-- Stream       pg2json/stream.go: outWriter as a record of operations, bufWriter and flushingWriter; the
--              contract that the query engine relies on is in Stream.Laws
-- Query        pg2json/query.go: checkCaps, writeHeader, writeRow, writeFooter, the draining of
--              abortOversize and consumeText, over a list of the server's messages; Query.Extended,
--              Prepare and Execute have the extended protocol (prepareAndDescribe, bindExecute and
--              runCached), Query.Run has runSimple and the retries of runQuery
-- Iter         pg2json/iter.go: RawQuery, NextRaw and Close
-- Args         pg2json/args.go
-- Wire         internal/wire/conn.go: ReadMessage, Begin, Finish and what fills a message
-- PgErr        internal/pgerr/pgerr.go
-- StmtCache    pg2json/stmtcache.go
-- Pool         pg2json/pool/pool.go: a function for each section under the mutex; Pool.System composes
--              them into the steps of the goroutines, in any order
-- Conn         pg2json/conn.go: the startup with its authentication, the TLS decision, the cancel request
--              and rejectNonSelect
-- Auth         internal/auth: SCRAM-SHA-256 (scram.go) and the MD5 answer (md5.go)
-- Scan         pg2json/scan.go: buildStructPlan, pickSetter with its setters, and fillStructRow; a
--              struct is the list of its fields' values
-- Examples     the theorems at concrete inputs
--
-- A byte slice is a list of numbers, and an `append` to `dst` is `◌++◌`: capacities and the reuse of
-- backing arrays are not modelled. A nil cell is `none`. Integers of a width keep their wrap-around:
-- `signed32` and its kin read a word as two's complement. The end of the message list is a failing
-- read. The loops recurse on their input; the outer loop of the SWAR escaper and the loop over the
-- fields of an error run on fuel, one more than the length of the input and the length itself, which is
-- enough because each round consumes a byte or ends. `strconv.AppendFloat` is a parameter of the float
-- encoders, and so are the io.Writer under a stream, the clock and the conversion of a float32 to a float64
-- in pg2json/scan.go, whose index of struct fields is an argument; so are the Scan methods that it calls. The hash functions, base64,
-- strconv.Atoi and strings.ToUpper are parameters too, and what crypto/rand, the context, the order of a
-- map's iteration and a failing Write decide is an argument. The two loops of rejectNonSelect over
-- comments run on the length of the query, which is enough because each comment has two bytes at least.
--
-- Not modelled: sockets, TLS handshakes, deadlines and the waiting for a context; Ping, the observer's
-- counters, the buffer pool and the defaults of the configuration; ParseDSN; the reflection over
-- structs and the query loops of pg2json/scan.go; the database/sql adapter and the commands.
pub mod Common
pub mod GoStd
pub mod Json
pub mod Protocol
pub mod Types
pub mod JsonWriter
pub mod Rows
pub mod Examples
pub mod Stream
pub mod Query
pub mod Wire
pub mod PgErr
pub mod Iter
pub mod Args
pub mod Scan
pub mod Conn
pub mod Auth
pub mod Pool
pub mod StmtCache
