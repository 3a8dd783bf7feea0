-- ===== src/Debugger.antt =====
-- The debugger: ysyx-workbench/nemu/src/monitor/sdb/sdb.c. The lines that readline returns are a
-- list, and strtok is a parameter: for the text that is left and the delimiters, the next token and
-- the text behind it. What a command prints is a list of messages.
pub mod Commands
pub mod Session
pub mod Kept
pub mod Answers
use rv32i.Base.{
  ℕ, ◌+◌, ◌*◌, Bool, true, false, if◌then◌else◌, List, [], ◌∷◌, Option, none, some, codes,
}
use rv32i.Expr.Eval.{Libc}
use rv32i.Riscv.Reg.{same_text}

pub record Host : Type 0 where
  pub libc : Libc
  pub strtok : List ℕ → List ℕ → Option (List ℕ × List ℕ)

-- The handlers of cmd_table.
pub data Handler : Type 0 where
  cmd_help cmd_c cmd_q cmd_si cmd_info cmd_x cmd_p cmd_w cmd_d : Handler

pub record Cmd : Type 0 where
  pub name : List ℕ
  pub description : List ℕ
  pub handler : Handler

abbrev cmd : List ℕ → List ℕ → Handler → Cmd
cmd n t h = record { name = n; description = t; handler = h }

unfoldable pub cmd_table : List Cmd
cmd_table =
    cmd (codes "help") (codes "Display information about all supported commands") cmd_help
    ∷ cmd (codes "c") (codes "Continue the execution of the program") cmd_c
    ∷ cmd (codes "q") (codes "Exit NEMU") cmd_q
    ∷ cmd (codes "si")
        (codes "Single-step execution, with a parameter N. When N is not given, the default is 1")
        cmd_si
    ∷ cmd (codes "info")
        (codes "Print program status. r: print register info, w: print watchpoint info") cmd_info
    ∷ cmd (codes "x") (codes "Print N four-byte data entries starting with address EXPR") cmd_x
    ∷ cmd (codes "p") (codes "Expression evaluation") cmd_p
    ∷ cmd (codes "w") (codes "Set watchpoint") cmd_w
    ∷ cmd (codes "d") (codes "Delete watchpoint") cmd_d
    ∷ []

-- The row with the name.
unfoldable pub find_cmd : List ℕ → List Cmd → Option Cmd
unfolding same_text
find_cmd name [] = none
find_cmd name (c ∷ cs) = if same_text name c.name then some c else find_cmd name cs

-- What is printed.
pub data Message : Type 0 where
  no_argument invalid_argument not_enough registers watchpoints added : Message
  word : ℕ → ℕ → Message
  value : ℕ → Message
  outside : ℕ → Message
  usage : Cmd → Message
  unknown : List ℕ → Message
