-- ===== src/Planner/Ast.antt =====
-- The syntax trees of the sqlparser crate as src/planner.rs takes them apart: the variants and the
-- fields that it names, and for all other variants of a type one constructor with the text that the
-- source puts into its message. A name of several parts is given as its `to_string`.
use volcano_db.Base.{Bool, String, Option, List}

pub data SqlValue : Type 0 where
  number : String → SqlValue
  single_quoted_string double_quoted_string : String → SqlValue
  boolean : Bool → SqlValue
  null : SqlValue
  other_value : String → SqlValue

pub data SqlBinaryOperator : Type 0 where
  plus minus multiply divide eq not_eq gt gt_eq lt lt_eq and or : SqlBinaryOperator
  other_operator : String → SqlBinaryOperator

mutual
  pub data SqlExpr : Type 0 where
    identifier : String → SqlExpr
    compound_identifier : List String → SqlExpr
    value : SqlValue → SqlExpr
    binary : SqlBinaryOperator → SqlExpr → SqlExpr → SqlExpr
    -- name, args
    function : String → FunctionArguments → SqlExpr
    other_expr : String → SqlExpr

  pub data FunctionArguments : Type 0 where
    no_arguments subquery : FunctionArguments
    argument_list : FunctionArgs → FunctionArguments

  pub data FunctionArgs : Type 0 where
    end : FunctionArgs
    arg : FunctionArg → FunctionArgs → FunctionArgs

  pub data FunctionArg : Type 0 where
    unnamed_wildcard : FunctionArg
    unnamed_expr : SqlExpr → FunctionArg
    other_arg : FunctionArg

pub data SqlDataType : Type 0 where
  int integer float double double_precision real varchar text string boolean bool : SqlDataType
  other_type : String → SqlDataType

pub data TableFactor : Type 0 where
  -- name, alias
  table : String → Option String → TableFactor
  other_factor : String → TableFactor

pub data JoinOperator : Type 0 where
  inner_on : SqlExpr → JoinOperator
  cross_join : JoinOperator
  other_join : String → JoinOperator

pub record Join : Type 0 where
  pub relation : TableFactor
  pub join_operator : JoinOperator

pub record TableWithJoins : Type 0 where
  pub relation : TableFactor
  pub joins : List Join

pub data SelectItem : Type 0 where
  unnamed_item : SqlExpr → SelectItem
  -- expr, alias
  expr_with_alias : SqlExpr → String → SelectItem
  wildcard : SelectItem
  other_item : String → SelectItem

pub data GroupByExpr : Type 0 where
  expressions : List SqlExpr → GroupByExpr
  all : GroupByExpr

pub record Select : Type 0 where
  pub from : List TableWithJoins
  pub selection : Option SqlExpr
  pub projection : List SelectItem
  pub group_by : GroupByExpr

pub data SetExpr : Type 0 where
  select : Select → SetExpr
  values : List (List SqlExpr) → SetExpr
  other_body : String → SetExpr

pub record OrderByExpr : Type 0 where
  pub expr : SqlExpr
  pub asc : Option Bool

pub record Query : Type 0 where
  pub body : SetExpr
  pub order_by : Option (List OrderByExpr)
  pub limit : Option SqlExpr
  pub offset : Option SqlExpr

pub record ColumnDef : Type 0 where
  pub name : String
  pub data_type : SqlDataType

pub data Statement : Type 0 where
  create_table : String → List ColumnDef → Statement
  -- table_name, source
  insert : String → Option Query → Statement
  query : Query → Statement
  other_statement : String → Statement
