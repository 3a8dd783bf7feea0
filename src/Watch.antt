-- ===== src/Watch.antt =====
-- The watchpoint pool: ysyx-workbench/nemu/src/monitor/sdb/watchpoint.c and the struct of sdb.h. A
-- pointer into wp_pool is an index of the table, and NULL is `none`.
pub mod Chain
pub mod Refine
pub mod Operations
pub mod Init
pub mod Check
pub mod Links
use rv32i.Base.{
  ℕ, zero, suc, ◌+◌, ◌-◌, Bool, true, false, ◌==◌, ◌||◌, not, if◌then◌else◌, List, [], ◌∷◌, Option,
  none, some, Outcome, ok, fail, assertion, out_of_fuel, and_then,
}
use rv32i.Machine.{update}

abbrev pub nr_wp : ℕ
nr_wp = 32

pub record Wp : Type 0 where
  pub no : ℕ
  pub next : Option ℕ
  pub type : ℕ
  pub str : List ℕ
  pub last_value : ℕ

abbrev pub Nodes : Type 0
Nodes = ℕ → Wp

pub record Pool : Type 0 where
  pub nodes : Nodes
  pub head : Option ℕ
  pub free_ : Option ℕ

-- wp->next = q
abbrev pub set_next : Nodes → ℕ → Option ℕ → Nodes
set_next nodes i q = update nodes i (record (nodes i) { next = q })

-- The loop of init_wp_pool, from index `i` on.
unfoldable pub init_nodes : ℕ → ℕ → Nodes → Nodes
init_nodes zero i nodes = nodes
init_nodes (suc rounds) i nodes = init_nodes rounds (i + 1) (
    update nodes i
      (record (nodes i) { no = i; next = if i == nr_wp - 1 then none else some (i + 1) }))

unfoldable pub init_wp_pool : Nodes → Pool
unfolding init_nodes
init_wp_pool nodes = record { nodes = init_nodes nr_wp 0 nodes; head = none; free_ = some 0 }

-- The free node `w` goes in front of the active ones.
abbrev pub activate : Pool → ℕ → Pool
activate p w = record { nodes = set_next p.nodes w p.head; head = some w; free_ = (p.nodes w).next }

unfoldable pub new_wp : Pool → Option ℕ × Pool
new_wp p = elim p.free_ [ none ↦ (none, p) | some w ↦ (some w, activate p w) ]

-- The loop of free_wp: on to the node in front of the one with number `n`, or to the last.
unfoldable pub find_pre : ℕ → ℕ → Nodes → ℕ → Outcome ℕ
find_pre zero n nodes wp_pre = fail out_of_fuel
find_pre (suc fuel) n nodes wp_pre = elim (nodes wp_pre).next [
  | none ↦ ok wp_pre
  | some w ↦ elim ((nodes w).no == n) [ true ↦ ok wp_pre | false ↦ find_pre fuel n nodes w ]
]

-- wp->next = free_; free_ = wp, with the given head.
abbrev pub release : Nodes → Option ℕ → Option ℕ → ℕ → Pool
release nodes head free_ wp = record {
  nodes = set_next nodes wp free_;
  head = head;
  free_ = some wp;
}

-- Behind the loop.
unfoldable pub detach : Pool → ℕ → Pool
detach p wp_pre = elim (p.nodes wp_pre).next [
  | none ↦ p
  | some w ↦ release (set_next p.nodes wp_pre (p.nodes w).next) p.head p.free_ w
]

unfoldable pub free_wp : ℕ → Pool → Outcome Pool
unfolding find_pre detach
free_wp n p = elim p.head [
  | none ↦ ok p
  | some h ↦
      (if n == (p.nodes h).no
        then ok (release p.nodes (p.nodes h).next p.free_ h)
        else and_then (find_pre nr_wp n p.nodes h) λ wp_pre. ok (detach p wp_pre))
]

-- The loop of check_wp; `expr` evaluates the text of a watchpoint in the static state of its file,
-- and says whether it could.
module _ {S : Type 0} (expr : List ℕ → S → Outcome (ℕ × Bool × S)) where
  unfoldable pub check_loop : ℕ → Nodes → Option ℕ → Bool → S → Outcome (Bool × Nodes × S)
  check_loop zero nodes wp triggered s = fail out_of_fuel
  check_loop (suc fuel) nodes none triggered s = ok (triggered, nodes, s)
  check_loop (suc fuel) nodes (some w) triggered s =
      and_then (expr (nodes w).str s) λ (val, success, s').
        let kept : Outcome (Bool × Nodes × S) = check_loop fuel nodes (nodes w).next triggered s' in
        let changed : Outcome (Bool × Nodes × S) =
          check_loop fuel (update nodes w (record (nodes w) { last_value = val })) (nodes w).next
            true s' in
        if success then (if val == (nodes w).last_value then kept else changed) else fail assertion

  unfoldable pub check_wp : Pool → S → Outcome (Bool × Pool × S)
  unfolding check_loop
  check_wp p s =
      and_then (check_loop (nr_wp + 1) p.nodes p.head false s)
        λ (triggered, nodes, s'). ok (triggered, record p { nodes = nodes }, s')
