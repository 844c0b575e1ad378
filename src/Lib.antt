-- ===== src/Lib.antt =====
-- A model of SnowDDL, which brings a Snowflake account in line with a declared config: it reads
-- the objects that exist, compares them with blueprints, and executes or suggests the DDL that is
-- missing.
--
-- Parts, and how they interact. A resolver (snowddl/resolver) handles the objects of one type.
-- `resolve` reads the existing objects, drops those without a blueprint, then splits the
-- blueprints into batches by their dependencies and creates or compares the objects of each batch
-- in threads. Statements go through the engine (snowddl/engine.py), which formats them
-- (snowddl/formatter.py), executes or suggests them, and holds the intention cache, by which one
-- resolver learns what another is about to drop. The revision guard (snowddl/revision_guard.py)
-- refuses objects that a revision outside the ancestry of the applied one has written, and records
-- what is written.
--
-- Files:
--   Prelude: names of the libraries, tests and equality (Tests), lists (Lists), Python's str,
--     dict, sorted and exceptions (Text, Alphabet, Dict, Sorted, Result), decimal numbers
--     (Number).
--   Blueprint: snowddl/blueprint: identifiers (Ident, from ident.py; Ident.Names and
--     Ident.Validation on their texts and parts), object types (ObjectType), the blueprint classes
--     and their bases (Class), base data types (BaseDataType), data types as they are read and
--     printed (DataType, from data_type.py), columns (Column, from column.py), grants (Grant, from
--     grant.py), patterns of identifiers (IdentPattern, from ident_pattern.py;
--     IdentPattern.Matching on what they match), permission models (PermissionModel, from
--     permission_model.py).
--   Formatter: snowddl/formatter.py; Literals and Identifiers have readers of the string constants
--     and the quoted names of SQL.
--   QueryBuilder: snowddl/query_builder.py.
--   Engine: snowddl/engine.py; State has the state, with the fields of SnowDDLEngine,
--     IntentionCache, RevisionGuard and the running resolver, and the monad `Action` of methods
--     that change it and may raise; Intention is snowddl/cache/intention_cache.py; Loops and Keeps
--     are on loops and on parts of the state that a method leaves alone.
--   RevisionGuard: snowddl/revision_guard.py; Refusal is on its rule.
--   Resolver: snowddl/resolver/abc_resolver.py, with `Methods` for the abstract methods of a
--     class; Batches is `_split_blueprints_into_batches`; Tasks, Complete, Drop, Remembered and
--     Guarded are on the loop over tasks, the two passes and the entry points. SchemaObject is
--     snowddl/resolver/abc_schema_object_resolver.py, whose `to_methods` makes a class of schema
--     objects an instance of `Methods` (Grants reconciles the grants; Holders reads the texts of
--     GRANT and REVOKE statements, Sent, Drift and Authoritative are on what is sent and when);
--     Cells reads the rows that the server answers with. Sequence is snowddl/resolver/sequence.py,
--     an instance of that in turn.
--   Resolver.Role: snowddl/resolver/abc_role_resolver.py, but for the reading of the existing
--     grants; Members is on lists compared by an equality of their class, Settles on when a
--     comparison finds nothing to do, Plan on what the methods send; Build has the grants on other
--     roles, Technical is snowddl/resolver/technical_role.py.
--   Resolver.Table: snowddl/resolver/table.py, another instance. Columns is the loop over the
--     columns in compare_object, with the clauses of ALTER TABLE as data (Alter, whose
--     `alter_text` is what the code formats); Existing reads SHOW TABLES and DESC TABLE (Collated
--     is on its collated types), Create is `_build_create_table`, Search the search optimization,
--     Compare the methods. Effect says what a clause does to the columns of a table; Acting,
--     Clauses, Apply, Column and Order are on such clauses, on single columns and on the order of
--     columns; Converges, Quiet and Settles are on one and on two comparisons; Framed and Methods
--     are on what the methods leave alone.
--   App: the prefix of the environment, from snowddl/app/base.py and snowddl/config.py; Prefix is
--     on the later checks of it.
--   Config: snowddl/config.py; Registry is on adding and removing blueprints.
--   Tests: small configs and the theorems at them.
--
-- Parameters. The server is a function from the statements sent so far and a new one to rows or an
-- error; git is a function from arguments to its output. The regular expressions that Python's
-- fnmatch makes of a pattern are a test of two texts. The executor is a schedule, which says in
-- what order the tasks of a batch run and on which threads; each task runs to its end before the
-- next, and `IsExecutor` says that each runs once. What a resolver class does for one object is a
-- method in `Methods`; `IsFramed` says that it leaves the results of the resolver and the drop
-- intentions to the code that runs the tasks.
--
-- Choices. The clauses of ALTER TABLE have the effect that Snowflake's manual gives them, and so
-- have GRANT, which adds a role to those that hold a privilege, and REVOKE, which takes one away;
-- a column whose default, expression, collation or comment is missing has none. The regular
-- expressions of data types, clustering keys and collated types are functions on ASCII texts
-- without line breaks. A template is a list of text and fields, since Python's string.Formatter
-- does the cutting. Upper case is that of ASCII, which identifiers are limited to. Exceptions
-- carry their class and no message. A dict is an association list in order of insertion; a set is
-- a list. The loop over batches runs on fuel, the number of blueprints: every round takes at least
-- one blueprint. Decimal numbers are printed on fuel, one more than the number.
--
-- Not modelled: logging, the pool of threads, file streams, the short hash of the query builder,
-- floating numbers in templates, the other resolver classes (the other makers of role grants,
-- databases, schemas, other kinds of tables, policies and so on), the schema cache, parsers,
-- validators, converters, the rest of the command line and encryption.
pub mod Prelude
pub mod Blueprint
pub mod Formatter
pub mod QueryBuilder
pub mod Engine
pub mod RevisionGuard
pub mod Resolver
pub mod App
pub mod Config
pub mod Tests
