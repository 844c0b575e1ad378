-- ===== src/QueryBuilder.antt =====
-- query_builder.py: a statement put together of formatted fragments, in lines. The short hash is
-- left out.
use Prim.Native.String.{String}
use snowddl.Prelude.{List, [], ◌∷◌, ◌++◌, map}
use snowddl.Prelude.Text.{join}
use snowddl.Prelude.Result.{Result, return, ◌>>=◌}
use snowddl.Formatter.{Template, format_sql}

-- `self.fragments`, with the last line apart
pub record QueryBuilder : Type 0 where
  pub lines : List (List String)
  pub last : List String

-- `SnowDDLQueryBuilder(formatter)`
abbrev pub new : QueryBuilder
new = record { lines = []; last = [] }

unfoldable pub append : Template → QueryBuilder → Result QueryBuilder
append sql query = do s ← format_sql sql; return (record query { last = query.last ++ s ∷ [] })

unfoldable pub append_nl : Template → QueryBuilder → Result QueryBuilder
append_nl sql query = do
  s ← format_sql sql
  return (record { lines = query.lines ++ query.last ∷ []; last = s ∷ [] })

-- `str(query)`
unfoldable pub str : QueryBuilder → String
str query = join "\n" (map (join " ") (query.lines ++ query.last ∷ []))
