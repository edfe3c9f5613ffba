-- ===== src/Syntax.antt =====
-- src/ast.rs and the token type of src/lexer.rs.
use Prim.Native.String.{String}
use glm.Prelude.{ℕ, Bool, List}

-- `StaticType`; an `Unknown` carries the number of its type variable.
pub data StaticType : Type 0 where
  integer float boolean string : StaticType
  table : StaticType → StaticType
  unknown : ℕ → StaticType

pub data BinOp : Type 0 where
  add sub mul div int_div mod_op : BinOp
  less_than greater_than less_eq greater_eq equal not_equal : BinOp
  and_op or_op : BinOp

pub data UnOp : Type 0 where
  neg not_op len : UnOp

-- The text of a float literal stands for its `f64`, which no modelled pass computes with. An integer
-- literal is not negative. A table constructor carries its site, the number that `number_sites` keeps
-- for the node's address; the parser leaves it 0.
mutual
  pub data Expr : Type 0 where
    integer : ℕ → Expr
    float : String → Expr
    boolean : Bool → Expr
    string : String → Expr
    nil : Expr
    table_ctor : ℕ → Entries → Expr
    identifier : String → Expr
    index : Expr → Expr → Expr
    binary_op : BinOp → Expr → Expr → Expr
    unary_op : UnOp → Expr → Expr
    sys_alloc_count : Expr

  -- `Vec<(i64, Expr)>`
  pub data Entries : Type 0 where
    no_entries : Entries
    entry : ℕ → Expr → Entries → Entries

mutual
  pub data Stmt : Type 0 where
    local_decl : List String → List Expr → Stmt
    assignment : String → Expr → Stmt
    index_assign : Expr → Expr → Expr → Stmt
    while_loop : Expr → Stmts → Stmt
    do_block : Stmts → Stmt
    if_else : Expr → Stmts → Stmts → Stmt
    print : List Expr → Stmt

  -- `Vec<Stmt>`
  pub data Stmts : Type 0 where
    no_stmts : Stmts
    stmt : Stmt → Stmts → Stmts

-- `Token`. A string token carries what stands between its quotes.
pub data Token : Type 0 where
  local assign do_tok end left_paren right_paren true_tok false_tok nil print : Token
  if_tok then_tok else_if else_tok while_tok not_tok and_tok or_tok : Token
  plus minus less_than less_eq greater_than greater_eq equal not_equal : Token
  star slash double_slash percent comma colon : Token
  left_brace right_brace left_bracket right_bracket len : Token
  identifier : String → Token
  integer : ℕ → Token
  float : String → Token
  string : String → Token

-- A number for each constructor of `Token`. A token without payload is equal to one of its kind.
abbrev pub kind : Token → ℕ
kind local = 0
kind assign = 1
kind do_tok = 2
kind end = 3
kind left_paren = 4
kind right_paren = 5
kind true_tok = 6
kind false_tok = 7
kind nil = 8
kind print = 9
kind if_tok = 10
kind then_tok = 11
kind else_if = 12
kind else_tok = 13
kind while_tok = 14
kind not_tok = 15
kind and_tok = 16
kind or_tok = 17
kind plus = 18
kind minus = 19
kind less_than = 20
kind less_eq = 21
kind greater_than = 22
kind greater_eq = 23
kind equal = 24
kind not_equal = 25
kind star = 26
kind slash = 27
kind double_slash = 28
kind percent = 29
kind comma = 30
kind colon = 31
kind left_brace = 32
kind right_brace = 33
kind left_bracket = 34
kind right_bracket = 35
kind len = 36
kind (identifier _) = 37
kind (integer _) = 38
kind (float _) = 39
kind (string _) = 40
