-- ===== src/CpuTests/Functions.antt =====
-- The programs of ysyx-workbench/am-kernels/tests/cpu-tests/tests on one function: max, min3, add,
-- if-else, switch, leap-year and to-lower-case. An int is a 32-bit word.
use rv32i.Base.{
  ℕ, ◌+◌, ◌*◌, ◌-◌, ◌%◌, Bool, ◌==◌, ◌&&◌, ◌||◌, not, leb, if◌then◌else◌, List, [], ◌∷◌, Outcome,
  ok, and_then, of_bool,
}
use rv32i.Word.{u32, add32, slt32}
use rv32i.CpuTests.Check.{check, elem_at, for_each}

-- max.c
unfoldable pub max : ℕ → ℕ → ℕ
unfolding slt32
max x y = if slt32 y x then x else y

-- The main of max.c: every pair of the data.
abbrev max_test_data : List ℕ
max_test_data = 0 ∷ 1 ∷ 2 ∷ 0x7fffffff ∷ 0x80000000 ∷ 0x80000001 ∷ 0xfffffffe ∷ 0xffffffff ∷ []

abbrev max_ans : List ℕ
max_ans =
    0 ∷ 1 ∷ 2 ∷ 0x7fffffff ∷ 0 ∷ 0 ∷ 0 ∷ 0 ∷ 1 ∷ 1 ∷ 2 ∷ 0x7fffffff ∷ 1 ∷ 1 ∷ 1 ∷ 1 ∷ 2 ∷ 2 ∷ 2
    ∷ 0x7fffffff ∷ 2 ∷ 2 ∷ 2 ∷ 2 ∷ 0x7fffffff ∷ 0x7fffffff ∷ 0x7fffffff ∷ 0x7fffffff ∷ 0x7fffffff
    ∷ 0x7fffffff ∷ 0x7fffffff ∷ 0x7fffffff ∷ 0 ∷ 1 ∷ 2 ∷ 0x7fffffff ∷ 0x80000000 ∷ 0x80000001
    ∷ 0xfffffffe ∷ 0xffffffff ∷ 0 ∷ 1 ∷ 2 ∷ 0x7fffffff ∷ 0x80000001 ∷ 0x80000001 ∷ 0xfffffffe
    ∷ 0xffffffff ∷ 0 ∷ 1 ∷ 2 ∷ 0x7fffffff ∷ 0xfffffffe ∷ 0xfffffffe ∷ 0xfffffffe ∷ 0xffffffff ∷ 0
    ∷ 1 ∷ 2 ∷ 0x7fffffff ∷ 0xffffffff ∷ 0xffffffff ∷ 0xffffffff ∷ 0xffffffff ∷ []

unfoldable pub max_main : Outcome ℕ
unfolding check elem_at for_each max
max_main =
    and_then
      (for_each 8 0 λ i. for_each 8 0 λ j. and_then (elem_at max_test_data i) λ x.
        and_then (elem_at max_test_data j)
          λ y. and_then (elem_at max_ans (8 * i + j)) λ z. check (max x y == z))
      λ _. ok 0

-- min3.c
unfoldable pub min3 : ℕ → ℕ → ℕ → ℕ
unfolding slt32
min3 x y z = let m = if slt32 x y then x else y in if slt32 z m then z else m

-- The main of min3.c: every triple of the data.
abbrev min3_test_data : List ℕ
min3_test_data = 0 ∷ 0x7fffffff ∷ 0x80000000 ∷ 0xffffffff ∷ []

abbrev min3_ans : List ℕ
min3_ans =
    0 ∷ 0 ∷ 0x80000000 ∷ 0xffffffff ∷ 0 ∷ 0 ∷ 0x80000000 ∷ 0xffffffff ∷ 0x80000000 ∷ 0x80000000
    ∷ 0x80000000 ∷ 0x80000000 ∷ 0xffffffff ∷ 0xffffffff ∷ 0x80000000 ∷ 0xffffffff ∷ 0 ∷ 0
    ∷ 0x80000000 ∷ 0xffffffff ∷ 0 ∷ 0x7fffffff ∷ 0x80000000 ∷ 0xffffffff ∷ 0x80000000 ∷ 0x80000000
    ∷ 0x80000000 ∷ 0x80000000 ∷ 0xffffffff ∷ 0xffffffff ∷ 0x80000000 ∷ 0xffffffff ∷ 0x80000000
    ∷ 0x80000000 ∷ 0x80000000 ∷ 0x80000000 ∷ 0x80000000 ∷ 0x80000000 ∷ 0x80000000 ∷ 0x80000000
    ∷ 0x80000000 ∷ 0x80000000 ∷ 0x80000000 ∷ 0x80000000 ∷ 0x80000000 ∷ 0x80000000 ∷ 0x80000000
    ∷ 0x80000000 ∷ 0xffffffff ∷ 0xffffffff ∷ 0x80000000 ∷ 0xffffffff ∷ 0xffffffff ∷ 0xffffffff
    ∷ 0x80000000 ∷ 0xffffffff ∷ 0x80000000 ∷ 0x80000000 ∷ 0x80000000 ∷ 0x80000000 ∷ 0xffffffff
    ∷ 0xffffffff ∷ 0x80000000 ∷ 0xffffffff ∷ []

unfoldable pub min3_main : Outcome ℕ
unfolding check elem_at for_each min3
min3_main =
    and_then
      (for_each 4 0 λ i. for_each 4 0 λ j. for_each 4 0 λ k.
        and_then (elem_at min3_test_data i) λ x. and_then (elem_at min3_test_data j) λ y.
          and_then (elem_at min3_test_data k)
            λ z. and_then (elem_at min3_ans (16 * i + 4 * j + k)) λ r. check (min3 x y z == r))
      λ _. ok 0

-- add.c
unfoldable pub add : ℕ → ℕ → ℕ
unfolding add32
add a b = add32 a b

-- The main of add.c: every pair of the data.
abbrev add_test_data : List ℕ
add_test_data = 0 ∷ 1 ∷ 2 ∷ 0x7fffffff ∷ 0x80000000 ∷ 0x80000001 ∷ 0xfffffffe ∷ 0xffffffff ∷ []

abbrev add_ans : List ℕ
add_ans =
    0 ∷ 1 ∷ 2 ∷ 0x7fffffff ∷ 0x80000000 ∷ 0x80000001 ∷ 0xfffffffe ∷ 0xffffffff ∷ 1 ∷ 2 ∷ 3
    ∷ 0x80000000 ∷ 0x80000001 ∷ 0x80000002 ∷ 0xffffffff ∷ 0 ∷ 2 ∷ 3 ∷ 4 ∷ 0x80000001 ∷ 0x80000002
    ∷ 0x80000003 ∷ 0 ∷ 1 ∷ 0x7fffffff ∷ 0x80000000 ∷ 0x80000001 ∷ 0xfffffffe ∷ 0xffffffff ∷ 0
    ∷ 0x7ffffffd ∷ 0x7ffffffe ∷ 0x80000000 ∷ 0x80000001 ∷ 0x80000002 ∷ 0xffffffff ∷ 0 ∷ 1
    ∷ 0x7ffffffe ∷ 0x7fffffff ∷ 0x80000001 ∷ 0x80000002 ∷ 0x80000003 ∷ 0 ∷ 1 ∷ 2 ∷ 0x7fffffff
    ∷ 0x80000000 ∷ 0xfffffffe ∷ 0xffffffff ∷ 0 ∷ 0x7ffffffd ∷ 0x7ffffffe ∷ 0x7fffffff ∷ 0xfffffffc
    ∷ 0xfffffffd ∷ 0xffffffff ∷ 0 ∷ 1 ∷ 0x7ffffffe ∷ 0x7fffffff ∷ 0x80000000 ∷ 0xfffffffd
    ∷ 0xfffffffe ∷ []

unfoldable pub add_main : Outcome ℕ
unfolding check elem_at for_each add
add_main =
    and_then
      (for_each 8 0 λ i. for_each 8 0 λ j. and_then (elem_at add_test_data i) λ x.
        and_then (elem_at add_test_data j)
          λ y. and_then (elem_at add_ans (8 * i + j)) λ z. check (add x y == z))
      λ _. ok 0

-- if-else.c
unfoldable pub if_else : ℕ → ℕ
unfolding slt32
if_else n =
    if slt32 500 n
    then 150
    else (if slt32 300 n then 100 else (if slt32 100 n then 75 else (if slt32 50 n then 50 else 0)))

abbrev if_else_test_data : List ℕ
if_else_test_data =
    4294967295 ∷ 0 ∷ 49 ∷ 50 ∷ 51 ∷ 99 ∷ 100 ∷ 101 ∷ 299 ∷ 300 ∷ 301 ∷ 499 ∷ 500 ∷ 501 ∷ []

abbrev if_else_ans : List ℕ
if_else_ans = 0 ∷ 0 ∷ 0 ∷ 0 ∷ 50 ∷ 50 ∷ 50 ∷ 75 ∷ 75 ∷ 75 ∷ 100 ∷ 100 ∷ 100 ∷ 150 ∷ []

unfoldable pub if_else_main : Outcome ℕ
unfolding check elem_at for_each if_else
if_else_main =
    and_then
      (for_each 14 0 λ i.
        and_then (elem_at if_else_test_data i)
          λ x. and_then (elem_at if_else_ans i) λ z. check (if_else x == z))
      λ _. ok 0

-- switch.c
unfoldable pub switch_case : ℕ → ℕ
switch_case n =
    if n == 0
    then 0
    else (if n == 1
        then 2
        else (if n == 2 || n == 3
            then 5
            else (if leb 4 n && leb n 7
                then 8
                else (if leb 8 n && leb n 11 then 10 else (if n == 12 then 15 else u32 - 1)))))

abbrev switch_ans : List ℕ
switch_ans = 4294967295 ∷ 0 ∷ 2 ∷ 5 ∷ 5 ∷ 8 ∷ 8 ∷ 8 ∷ 8 ∷ 10 ∷ 10 ∷ 10 ∷ 10 ∷ 15 ∷ 4294967295 ∷ []

unfoldable pub switch_main : Outcome ℕ
unfolding check elem_at for_each switch_case
switch_main =
    and_then
      (for_each 15 0
        λ i. and_then (elem_at switch_ans i) λ z. check (switch_case ((i + u32 - 1) % u32) == z))
      λ _. ok 0

-- leap-year.c, for years that are not negative.
unfoldable pub is_leap_year : ℕ → Bool
is_leap_year n = (n % 4 == 0 && not (n % 100 == 0)) || n % 400 == 0

abbrev leap_year_ans : List ℕ
leap_year_ans =
    0 ∷ 0 ∷ 1 ∷ 0 ∷ 0 ∷ 0 ∷ 1 ∷ 0 ∷ 0 ∷ 0 ∷ 0 ∷ 0 ∷ 0 ∷ 0 ∷ 1 ∷ 0 ∷ 0 ∷ 0 ∷ 1 ∷ 0 ∷ 0 ∷ 0 ∷ 1 ∷ 0
    ∷ 0 ∷ 0 ∷ 1 ∷ 0 ∷ 0 ∷ 0 ∷ 1 ∷ 0 ∷ 0 ∷ 0 ∷ 1 ∷ 0 ∷ 0 ∷ 0 ∷ 1 ∷ 0 ∷ 0 ∷ 0 ∷ 1 ∷ 0 ∷ 0 ∷ 0 ∷ 1 ∷ 0
    ∷ 0 ∷ 0 ∷ 1 ∷ 0 ∷ 0 ∷ 0 ∷ 1 ∷ 0 ∷ 0 ∷ 0 ∷ 1 ∷ 0 ∷ 0 ∷ 0 ∷ 1 ∷ 0 ∷ 0 ∷ 0 ∷ 1 ∷ 0 ∷ 0 ∷ 0 ∷ 1 ∷ 0
    ∷ 0 ∷ 0 ∷ 1 ∷ 0 ∷ 0 ∷ 0 ∷ 1 ∷ 0 ∷ 0 ∷ 0 ∷ 1 ∷ 0 ∷ 0 ∷ 0 ∷ 1 ∷ 0 ∷ 0 ∷ 0 ∷ 1 ∷ 0 ∷ 0 ∷ 0 ∷ 1 ∷ 0
    ∷ 0 ∷ 0 ∷ 1 ∷ 0 ∷ 0 ∷ 0 ∷ 1 ∷ 0 ∷ 0 ∷ 0 ∷ 1 ∷ 0 ∷ 0 ∷ 0 ∷ 1 ∷ 0 ∷ 0 ∷ 0 ∷ 1 ∷ 0 ∷ 0 ∷ 0 ∷ 1 ∷ 0
    ∷ 0 ∷ 0 ∷ 1 ∷ 0 ∷ 0 ∷ []

unfoldable pub leap_year_main : Outcome ℕ
unfolding check elem_at for_each is_leap_year
leap_year_main =
    and_then
      (for_each 125 0
        λ i. and_then (elem_at leap_year_ans i) λ z. check (of_bool (is_leap_year (i + 1890)) == z))
      λ _. ok 0

-- to-lower-case.c, on characters below 128.
unfoldable pub to_lower_case : ℕ → ℕ
to_lower_case c = if leb b'A' c && leb c b'Z' then c + 32 else c

abbrev to_lower_case_ans : List ℕ
to_lower_case_ans =
    0 ∷ 1 ∷ 2 ∷ 3 ∷ 4 ∷ 5 ∷ 6 ∷ 7 ∷ 8 ∷ 9 ∷ 10 ∷ 11 ∷ 12 ∷ 13 ∷ 14 ∷ 15 ∷ 16 ∷ 17 ∷ 18 ∷ 19 ∷ 20
    ∷ 21 ∷ 22 ∷ 23 ∷ 24 ∷ 25 ∷ 26 ∷ 27 ∷ 28 ∷ 29 ∷ 30 ∷ 31 ∷ 32 ∷ 33 ∷ 34 ∷ 35 ∷ 36 ∷ 37 ∷ 38 ∷ 39
    ∷ 40 ∷ 41 ∷ 42 ∷ 43 ∷ 44 ∷ 45 ∷ 46 ∷ 47 ∷ 48 ∷ 49 ∷ 50 ∷ 51 ∷ 52 ∷ 53 ∷ 54 ∷ 55 ∷ 56 ∷ 57 ∷ 58
    ∷ 59 ∷ 60 ∷ 61 ∷ 62 ∷ 63 ∷ 64 ∷ 97 ∷ 98 ∷ 99 ∷ 100 ∷ 101 ∷ 102 ∷ 103 ∷ 104 ∷ 105 ∷ 106 ∷ 107
    ∷ 108 ∷ 109 ∷ 110 ∷ 111 ∷ 112 ∷ 113 ∷ 114 ∷ 115 ∷ 116 ∷ 117 ∷ 118 ∷ 119 ∷ 120 ∷ 121 ∷ 122 ∷ 91
    ∷ 92 ∷ 93 ∷ 94 ∷ 95 ∷ 96 ∷ 97 ∷ 98 ∷ 99 ∷ 100 ∷ 101 ∷ 102 ∷ 103 ∷ 104 ∷ 105 ∷ 106 ∷ 107 ∷ 108
    ∷ 109 ∷ 110 ∷ 111 ∷ 112 ∷ 113 ∷ 114 ∷ 115 ∷ 116 ∷ 117 ∷ 118 ∷ 119 ∷ 120 ∷ 121 ∷ 122 ∷ 123 ∷ 124
    ∷ 125 ∷ 126 ∷ 127 ∷ []

unfoldable pub to_lower_case_main : Outcome ℕ
unfolding check elem_at for_each to_lower_case
to_lower_case_main =
    and_then
      (for_each 128 0 λ i. and_then (elem_at to_lower_case_ans i) λ z. check (to_lower_case i == z))
      λ _. ok 0
