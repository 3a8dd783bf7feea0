-- ===== src/Watch/Check.antt =====
-- check_wp: every active watchpoint is evaluated once, and its value is kept.
use rv32i.Base.{
  and_then, none, ℕ, zero, suc, ◌+◌, ◌<◌, ◌≡◌, refl, arith, Bool, true, false, ◌==◌, ◌||◌, not,
  if◌then◌else◌, List, [], ◌∷◌, Option, length, ap, ◌∙◌, Outcome, ok, Bool-cases, inl, inr, ==_iff,
}
use rv32i.Machine.{update}
use rv32i.Watch.{Nodes, Pool, nr_wp, check_loop, check_wp}
use rv32i.Watch.Chain.{has, Distinct, Chain, Chain-congr}
use rv32i.Watch.Refine.{IsPool}

-- Some watchpoint of the list has another value than the one it keeps.
abbrev pub any_changed : (ℕ → ℕ) → Nodes → List ℕ → Bool
any_changed v nodes [] = false
any_changed v nodes (w ∷ ws) = not (v w == (nodes w).last_value) || any_changed v nodes ws

-- The nodes behind the check: only the kept values of the list differ.
pub record Checked (v : ℕ → ℕ) (xs : List ℕ) (old new : Nodes) : Type 0 where
  pub kept : (i : ℕ) → (new i).last_value ≡ (if has i xs then v i else (old i).last_value)
  pub next : (i : ℕ) → (new i).next ≡ (old i).next
  pub no : (i : ℕ) → (new i).no ≡ (old i).no
  pub str : (i : ℕ) → (new i).str ≡ (old i).str

check_loop_of_none :
    {S : Type 0} (expr : List ℕ → S → Outcome (ℕ × Bool × S)) (fuel : ℕ) (nodes : Nodes)
    {wp : Option ℕ} (s : S)
    → wp ≡ none
    → check_loop expr (suc fuel) nodes wp false s ≡ ok (false, nodes, s)
unfolding check_loop
check_loop_of_none expr fuel nodes s e = rw (e, check_loop) refl

-- With no active watchpoint there is nothing to evaluate.
pub check_wp_of_none :
    {S : Type 0} (expr : List ℕ → S → Outcome (ℕ × Bool × S)) (p : Pool) (s : S)
    → p.head ≡ none
    → check_wp expr p s ≡ ok (false, p, s)
unfolding check_wp
check_wp_of_none expr p s e =
    ap (λ o. and_then o λ (triggered, nodes, s'). ok (triggered, record p { nodes = nodes }, s'))
      (check_loop_of_none expr nr_wp p.nodes s e)

any_changed-congr :
    (v : ℕ → ℕ) (f g : Nodes) (xs : List ℕ)
    → ((i : ℕ) → has i xs ≡ true → (f i).last_value ≡ (g i).last_value)
    → any_changed v f xs ≡ any_changed v g xs
any_changed-congr v f g [] h = refl
any_changed-congr v f g (x ∷ xs) h = rw (h x (ground arith)) (
    ap (λ b. not (v x == (g x).last_value) || b)
      (any_changed-congr v f g xs (λ i m. h i (ground arith))))

module _ {S : Type 0} (expr : List ℕ → S → Outcome (ℕ × Bool × S)) (v : ℕ → ℕ) where
  abbrev renewed : Nodes → ℕ → Nodes
  renewed nodes w = update nodes w (record (nodes w) { last_value = v w })

  same_str : (nodes : Nodes) (w i : ℕ) → (renewed nodes w i).str ≡ (nodes i).str
  same_str nodes w i = ground arith

  -- Every text of the list can be evaluated, in whatever state.
  abbrev pub Evaluates : Nodes → List ℕ → Type 0
  Evaluates nodes xs =
      (i : ℕ) (s : S) → has i xs ≡ true → (s' : S) × (expr (nodes i).str s ≡ ok (v i, true, s'))

  abbrev Checks : ℕ → Nodes → Option ℕ → List ℕ → Bool → S → Type 0
  Checks fuel nodes wp xs t s =
      (new : Nodes) × (s' : S) × (check_loop expr fuel nodes wp t s
        ≡ ok (t || any_changed v nodes xs, new, s'))
      × Checked v xs nodes new

  check_loop-Checked :
      (fuel : ℕ) (nodes : Nodes) (wp : Option ℕ) (xs : List ℕ) (t : Bool) (s : S)
      → length xs < fuel
      → Chain nodes wp xs
      → Distinct xs
      → Evaluates nodes xs
      → Checks fuel nodes wp xs t s
  unfolding check_loop
  check_loop-Checked zero nodes wp xs t s lt c d e = absurd (omega arith)
  check_loop-Checked (suc fuel) nodes wp [] t s lt c d e = (
    nodes,
    s,
    rw (c, check_loop) (ap (λ b. ok (b, nodes, s)) (ground arith)),
    record { kept = λ i. refl; next = λ i. refl; no = λ i. refl; str = λ i. refl },
  )
  check_loop-Checked (suc fuel) nodes wp (w ∷ ws) t s lt c d e =
      let (s₁, valued) = e w s (ground arith) in
      elim (Bool-cases (v w == (nodes w).last_value)) [
        | inl same ↦
            let (new, s₂, run, ck) =
              check_loop-Checked fuel nodes (nodes w).next ws t s₁ (omega arith) c.1 d.1
                (λ i r m. e i r (ground arith)) in
            (
              new,
              s₂,
              rw (c.0, check_loop, valued, same, run) refl,
              record {
                kept = λ i. elim (Bool-cases (i == w)) [
                  | inl at ↦ ground (arith, ck.kept w, d.0, (==_iff i w).0 at, same)
                  | inr off ↦ ground (arith, ck.kept i)
                ];
                next = ck.next;
                no = ck.no;
                str = ck.str;
              },
            )
        | inr differs ↦
            let (new, s₂, run, ck) =
              check_loop-Checked fuel (renewed nodes w) (nodes w).next ws true s₁ (omega arith)
                (Chain-congr nodes (renewed nodes w) _ ws (λ i m. ground arith) c.1) d.1
                (λ i r m.
                  let (r', q) = e i r (ground arith) in
                  (r', ap (λ t. expr t r) (same_str nodes w i) ∙ q)) in
            (
              new,
              s₂,
              rw (c.0, check_loop, valued, differs, run) (ap (λ b. ok (b, new, s₂)) (ground arith)),
              record {
                kept = λ i. elim (Bool-cases (i == w)) [
                  | inl at ↦ ground (arith, ck.kept w, d.0, (==_iff i w).0 at)
                  | inr off ↦ ground (arith, ck.kept i)
                ];
                next = λ i. ck.next i ∙ ground arith;
                no = λ i. ck.no i ∙ ground arith;
                str = λ i. ck.str i ∙ same_str nodes w i;
              },
            )
      ]

  -- With texts that can all be evaluated, check_wp ends, reports whether some active watchpoint has
  -- another value than the one it kept, and keeps the new value of every active watchpoint; the
  -- lists of active and free watchpoints, their numbers and their texts stay.
  pub check_wp-Checked :
      (p : Pool) (active free : List ℕ) (s : S)
      → IsPool p active free
      → Evaluates p.nodes active
      → (p' : Pool) × (s' : S) × (check_wp expr p s ≡ ok (any_changed v p.nodes active, p', s'))
        × IsPool p' active free
        × Checked v active p.nodes p'.nodes
  unfolding check_wp
  check_wp-Checked p active free s k e =
      let (new, s', run, ck) =
        check_loop-Checked (nr_wp + 1) p.nodes p.head active false s (omega (arith, k.total))
          k.active_chain k.active_distinct e in
      (
        record p { nodes = new },
        s',
        rw run refl,
        record {
          active_chain = Chain-congr p.nodes new p.head active (λ i _. ck.next i) k.active_chain;
          free_chain = Chain-congr p.nodes new p.free_ free (λ i _. ck.next i) k.free_chain;
          active_distinct = k.active_distinct;
          free_distinct = k.free_distinct;
          apart = k.apart;
          active_numbered = λ i m. ck.no i ∙ k.active_numbered i m;
          free_numbered = λ i m. ck.no i ∙ k.free_numbered i m;
          total = k.total;
        },
        ck,
      )
