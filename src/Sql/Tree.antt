-- ===== src/Sql/Tree.antt =====
-- What the two SQL parsers give to sql_query_api/repositories/sql_validators: the trees of sqlglot
-- and the tokens of sqlparse, with the attributes that the code reads.
use secure_db_access_gateway.Prelude.{String, Option, List, [], ◌∷◌, ◌++◌, In, here, there, refl}
use secure_db_access_gateway.Prelude.Member.{In-append_left, In-append_right}

-- The classes of sqlglot's nodes that the code tests for; a set operation is a `Query`, as a
-- `Select` is, and an `Anonymous` function is a `Func`.
pub data Kind : Type 0 where
  select set_operation : Kind
  insert update delete drop create alter command truncate_table merge into : Kind
  lock function table cte column star alias other : Kind

-- The attributes of a node: `name`, the qualifier `table` of a column, `catalog` and `db` of a
-- table, and `alias_or_name`. An attribute that is None or missing is empty.
pub record Label : Type 0 where
  pub kind : Kind
  pub name : String
  pub table : String
  pub catalog : String
  pub db : String
  pub alias_or_name : String

-- A node with its `selects` (those of a Select) and its other children.
mutual
  pub data Node : Type 0 where
    node : Label → (selects children : Nodes) → Node

  pub data Nodes : Type 0 where
    nil : Nodes
    cons : Node → Nodes → Nodes

abbrev pub label : Node → Label
label (node l ss cs) = l

abbrev pub selects : Node → Nodes
selects (node l ss cs) = ss

abbrev pub node_list : Nodes → List Node
node_list nil = []
node_list (cons n ns) = n ∷ node_list ns

-- node.walk(), with the labels of the nodes; the order does not matter to the code
unfoldable mutual
  pub walk : Node → List Label
  walk (node l ss cs) = l ∷ walk_all ss ++ walk_all cs

  pub walk_all : Nodes → List Label
  walk_all nil = []
  walk_all (cons n ns) = walk n ++ walk_all ns

-- A label stands somewhere in a tree.
mutual
  pub data Occurs (l : Label) : Node → Type 0 where
    root : {ss cs : Nodes} → Occurs l (node l ss cs)
    selected : {m : Label} {ss cs : Nodes} → OccursAmong l ss → Occurs l (node m ss cs)
    child : {m : Label} {ss cs : Nodes} → OccursAmong l cs → Occurs l (node m ss cs)

  pub data OccursAmong (l : Label) : Nodes → Type 0 where
    first : {n : Node} {ns : Nodes} → Occurs l n → OccursAmong l (cons n ns)
    later : {n : Node} {ns : Nodes} → OccursAmong l ns → OccursAmong l (cons n ns)

-- `walk` reaches every node.
mutual
  unfolding walk

  pub Occurs-walk : {l : Label} {n : Node} → Occurs l n → In l (walk n)
  Occurs-walk root = here refl
  Occurs-walk (selected {ss} {cs} o) = there (In-append_left (walk_all cs) (OccursAmong-walk o))
  Occurs-walk (child {ss} {cs} o) = there (In-append_right (walk_all ss) (OccursAmong-walk o))

  pub OccursAmong-walk : {l : Label} {ns : Nodes} → OccursAmong l ns → In l (walk_all ns)
  OccursAmong-walk (first {ns} o) = In-append_left (walk_all ns) (Occurs-walk o)
  OccursAmong-walk (later {n} o) = In-append_right (walk n) (OccursAmong-walk o)

-- The types of a token of sqlparse. `dcl` is `Keyword.DCL`, whose name ends in `.DCL`; `keyword_sub`
-- is any other type below `Keyword`. The hint comments are `Comment.Single.Hint` and
-- `Comment.Multiline.Hint`; `plain` is every type that no test of the source names.
pub data TokenType : Type 0 where
  keyword ddl dml dcl keyword_sub comment comment_single comment_multiline comment_single_hint
        comment_multiline_hint plain :
      TokenType

pub record Token : Type 0 where
  pub ttype : TokenType
  pub value : String

-- An identifier: `get_parent_name()` and `get_real_name()`.
pub record Name : Type 0 where
  pub parent_name : Option String
  pub real_name : Option String

-- The tokens at the top of a statement, with those that are groups.
pub data TopToken : Type 0 where
  leaf : Token → TopToken
  identifier : Name → TopToken
  identifier_list : List Name → TopToken
  function_call : (text : String) → TopToken
  group : TopToken

-- A statement: `get_type()`, `flatten()` and `tokens`.
pub record Statement : Type 0 where
  pub type_name : String
  pub flat : List Token
  pub tokens : List TopToken

-- sqlglot.parse in the PostgreSQL dialect and in the default one, sqlglot.parse_one, and
-- sqlparse.parse; `none` where the parser raises. A statement that sqlglot gives can be None.
pub record Parsers : Type 0 where
  pub parse_postgres : String → Option (List (Option Node))
  pub parse_default : String → Option (List (Option Node))
  pub parse_one : String → Option Node
  pub sqlparse : String → Option (List Statement)
