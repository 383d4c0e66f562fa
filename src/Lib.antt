-- ===== src/Lib.antt =====
-- gqlgate: a GraphQL gateway over a MySQL or TiDB database. A YAML configuration names the
-- database and, for each role, what it may do with each table; the gateway introspects the schema,
-- builds one GraphQL schema for each role, and answers requests with SQL that is restricted by the
-- caller's role, row filters and presets.
--
-- A request passes through the parts as follows. The configuration (config/config.go) is read,
-- defaulted and validated once. The catalog (introspect/introspect.go) is filled from the database's
-- INFORMATION_SCHEMA, and the role's rules are resolved into the operations that the role is granted
-- on each table (rbac/rbac.go). The caller of a request is identified by its token (auth/auth.go),
-- with a role from a claim or from the database (auth/rolelookup.go). For a read, schema/sqlgen.go
-- translates the filter, order and page arguments into one parameterised query, conjoins the row
-- filter with the claims of the caller, and hands it to the database; schema/aggregate.go,
-- schema/vector.go and the connections of schema/builder.go and schema/cursor.go build on it; relation
-- fields go through a batching loader (schema/dataloader.go), and schema/scalars.go converts the
-- values. For a write, schema/sqlgen.go merges the client's values with the presets and runs hooks
-- (schema/hooks.go) and statements in one transaction.
--
-- Files, by part:
--   Base, Base/*        booleans, lists, texts (Go strings as lists of bytes), maps as association
--                       lists, Go's int as a signed number; Base/Spaces is TrimSpace, ToLower and
--                       EqualFold, Base/Numbers is the wrap-around of 64 bits, durations, and integers
--                       in decimal
--   Value               `any`: JSON tokens, GraphQL inputs and SQL arguments, with maps as entry lists
--   Results             Go's (value, error) results; an error is the place that reports it
--   Naming              schema/naming.go: graphqlName
--   Sql                 quoteIdent, condition, combineConds and placeholder lists of schema/sqlgen.go;
--                       Sql/Lexer is an independent reading of SQL text (quotes and placeholders)
--   Catalog             the data of introspect/introspect.go, and HasColumn
--   Introspect          Load, loadColumns, loadForeignKeys and TableColumns of introspect/introspect.go
--   Config              config/config.go: applyDefaults, applyDatabaseEnvOverrides, validate, and the
--                       end of Parse
--   Auth                auth/auth.go: New, loadPublicKey, Identify, Middleware; Auth/RoleLookup is
--                       auth/rolelookup.go, with its cache as explicit state
--   Rbac                rbac/rbac.go: LookupClaim; Rbac/Filter is CompileFilter and Filter.SQL;
--                       Rbac/Resolve is Preset.Value, resolveOp and Resolve
--   Schema              tableInfo of schema/builder.go, with the access check of schema/sqlgen.go
--   Schema/Scalars      scalarFor and bindValue of schema/scalars.go; Schema/Scalars/Coerce is the
--                       coercions of the scalars, Schema/Scalars/Convert is convertValue, and
--                       Schema/Scalars/Formats what they use of the standard library
--   Schema/Columns      columnCond;  Schema/Where  whereSQL;  Schema/Order  orderColumns, orderSQL and
--                       windowOrder;  Schema/Paging  extractListArgs, pageBounds, limitClause, applyPage
--   Schema/Queries      runSelect, runKeysetPage, runSelectByKeys, runCount up to the call of the
--                       database; Schema/Queries/Keys is keysetCondition, inCondition and pkCond
--   Schema/Loader       schema/dataloader.go: relLoader, groupByColumns
--   Schema/Selections   flattenFields and fieldNames of schema/aggregate.go
--   Schema/Aggregates   the rest of schema/aggregate.go
--   Schema/Nearest      schema/vector.go
--   Schema/Cursors      schema/cursor.go;  Schema/Connections  the resolver of addConnectionField of
--                       schema/builder.go
--   Schema/Objects      schema/builder.go: buildObjectType, relFieldName, addRelationFields
--   Schema/Mutations    mergedRowValues and setClause
--   Schema/Hooks        schema/hooks.go
--   Schema/Plans        what runInsert, runUpdate and runDelete prepare before their transaction
--   Schema/Transactions runInsert, runUpdate, runDelete and execInTx
--   Collisions          schema/builder.go: checkNameCollisions
--   Depth               server/depth.go: checkDepth on a parsed document
-- Each part has its tests and examples in a module Tests.
--
-- How the code is read. A Go map is the list of its entries in any order; where the code sorts the
-- keys, so does the model, and where it iterates in map order, the model takes the order of the
-- list. whereSQL translates the entries before it sorts them, which gives the same result and the
-- same first error, since a translation has no effects. A float64 and a time are opaque numbers.
-- ToLower maps the ASCII letters only, since what it is applied to are names of MySQL types. The text
-- of an error is left out, its cause is kept. Integers are unbounded where the code adds row counts
-- and compares limits, far below 2^63; where it converts, multiplies durations or parses, the
-- wrap-around of 64 bits is written out.
--
-- Recursion is structural, but for these loops. The exchange sort of presets counts its rounds, one
-- for each preset. The depth check and the flattening of selections run on the number of fragments
-- plus one, which is enough for acyclic fragments. The search for a free name of a relation runs on
-- the number of the fields that there are: that many names and one more are tried, all different, so
-- one of them is free. An integer is written with at most twenty digits, which 64 bits do not exceed.
--
-- Parameters, standing for code that is not in the repository: `Marshal` is json.Marshal; the
-- key signature of a loader is json.Marshal with fmt as its fallback; the load function of a loader is
-- the batch query with the database behind it; `Driver` is database/sql with its MySQL driver, on any
-- type of database states; hooks are functions of the embedding program on the state of the
-- transaction, and may fail. `TokenParser` is the JWT library, `KeySource` the key files with crypto/x509;
-- `Information` is the rows that INFORMATION_SCHEMA gives; `Formats` is what the scalars use of
-- strconv, math/big, time and encoding; `Codec` is JSON, base64 and the hash of a cursor. What a theorem
-- needs of one of them is a hypothesis of the theorem.
--
-- Not modelled: reading and parsing of YAML and of the environment (the model starts from the
-- decoded document), the construction of graphql-go types, of root fields and of the resolvers of
-- relations and mutations in the rest of schema/builder.go, HTTP serving (server/server.go) and the
-- GraphQL parser, hot reload (gqlgate.go), the registry of hook files, and the command line.

pub mod Base
pub mod Value
pub mod Results
pub mod Naming
pub mod Sql
pub mod Catalog
pub mod Config
pub mod Rbac
pub mod Schema
pub mod Auth
pub mod Collisions
pub mod Depth
pub mod Introspect
