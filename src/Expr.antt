-- ===== src/Expr.antt =====
-- The debugger's expressions: ysyx-workbench/nemu/src/monitor/sdb/expr.c. A range of tokens from p to
-- q, both included, is kept as p and q + 1.
pub mod Tokens
pub mod Eval
pub mod Lexer
pub mod Tree
pub mod Brackets
pub mod MainOp
pub mod Meaning
