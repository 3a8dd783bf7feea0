-- ===== src/Tests/Pattern.antt =====
-- The pattern of `add`, and one that is too long.
use rv32i.Base.{ℕ, ◌≡◌, refl, arith, List, [], ok, codes, inl, inr}
use rv32i.Pattern.{Pattern, pattern_decode, matches}
use rv32i.Pattern.Agrees.{agrees, digits_onto}
use rv32i.Pattern.Decode.{pattern_decode-agrees}

abbrev sample : List ℕ
sample = codes "01? 1??"

pattern_decode-agrees_example :
    (p : Pattern) × (pattern_decode sample ≡ ok p)
    × ((x : ℕ) → matches p x ≡ agrees (digits_onto sample []) x)
pattern_decode-agrees_example =
    pattern_decode-agrees sample
      (
        inr (inl refl),
        (
          inr (inr (inl refl)),
          (
            inr (inr (inr refl)),
            (inl refl, (inr (inr (inl refl)), (inr (inr (inr refl)), (inr (inr (inr refl)), tt)))),
          ),
        ),
      )
      (omega arith)

sample_lem : pattern_decode sample ≡ ok (record { key = 5; mask = 13; shift = 2 })
unfolding pattern_decode
sample_lem = refl

-- 64 blanks.
abbrev blanks : List ℕ
blanks = codes "                                                                "
