-- ===== src/Car/Engine.antt =====
-- gt2_engine_parse reads back a number printed in decimal.
use gt2_recomp.Prelude.{
  ℕ, zero, suc, ◌+◌, ◌-◌, ◌*◌, ◌/◌, ◌%◌, ◌^◌, ◌<◌, ◌≡◌, refl, ◌∙◌, true, false, List, [], ◌∷◌,
  arith, ◌==◌, if◌then◌else◌, Bool-cases, inl, inr,
}
use gt2_recomp.Bytes.{u32}
use gt2_recomp.Car.{is_digit, parse_digits, engine_parse}

-- the decimal digits of `n` before `rest`; `n + 1` rounds are enough
unfoldable pub decimal_from : ℕ → ℕ → List ℕ → List ℕ
decimal_from zero n rest = rest
decimal_from (suc fuel) n rest =
    let more = decimal_from fuel (n / 10) ((0x30 + n % 10) ∷ rest) in
    if n / 10 == 0 then (0x30 + n % 10) ∷ rest else more

unfoldable pub decimal : ℕ → List ℕ → List ℕ
unfolding decimal_from
decimal n rest = decimal_from (suc n) n rest

-- the text does not go on with a digit
abbrev pub Ended : List ℕ → Type 0
Ended [] = Unit
Ended (c ∷ cs) = is_digit c ≡ false

parse_digits-cons :
    (v d n : ℕ) (rest : List ℕ)
    → d < 10
    → v * 10 + d ≡ n
    → n < 2 ^ 32
    → parse_digits v ((0x30 + d) ∷ rest) ≡ parse_digits n rest
unfolding parse_digits
parse_digits-cons v d n rest h e small =
    let digit : is_digit (0x30 + d) ≡ true = ground arith in
    let same : u32 (v * 10 + (0x30 + d - 0x30)) ≡ n = omega arith in rw (digit, same) refl

parse-decimal_from :
    (f n : ℕ) (rest : List ℕ)
    → n < f
    → n < 2 ^ 32
    → parse_digits 0 (decimal_from f n rest) ≡ parse_digits n rest
unfolding decimal_from
parse-decimal_from zero n rest h small = elim h [ ]
parse-decimal_from (suc f) n rest h small = elim (Bool-cases (n / 10 == 0)) [
  | inl last ↦
      let below : n / 10 ≡ 0 = ground (arith, last) in
      rw last (parse_digits-cons 0 (n % 10) n rest (omega arith) (omega arith) small)
  | inr more ↦
      let above : 0 < n / 10 = ground (arith, more) in
      rw more (parse-decimal_from f (n / 10) ((0x30 + n % 10) ∷ rest) (omega arith) (omega arith))
      ∙ parse_digits-cons (n / 10) (n % 10) n rest (omega arith) (omega arith) small
]

-- gt2_engine_parse returns the 32-bit number that stands in decimal at the front of the name, whatever
-- follows that is not a digit.
pub engine_parse-decimal :
    (n : ℕ) (rest : List ℕ) → n < 2 ^ 32 → Ended rest → engine_parse (decimal n rest) ≡ n
unfolding engine_parse decimal parse_digits
engine_parse-decimal n [] small ended = parse-decimal_from (suc n) n [] (omega arith) small
engine_parse-decimal n (c ∷ cs) small ended =
    parse-decimal_from (suc n) n (c ∷ cs) (omega arith) small ∙ rw ended refl
