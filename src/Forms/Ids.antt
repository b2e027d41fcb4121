-- ===== src/Forms/Ids.antt =====
-- `expect_id` of weasyl/forms.py reads exactly the default decimal form of an id.
use mathlib.Core.List.{append_assoc, append-nil}
use mathlib.Core.WellFounded.{fix, fix-eq, induction}
use mathlib.Core.Logic.{dite}
use native.Mathlib.Decide.{dec_lt}
use native.Mathlib.Nat.{pow-suc}
use weasyl.Prelude.{
  length-append, subst, ◌↔◌, ℕ, zero, suc, ◌+◌, ◌-◌, ◌*◌, ◌/◌, ◌%◌, ◌^◌, ◌≤◌, ◌<◌, ◌≡◌, refl, sym,
  ap, ◌∙◌, true, false, [], ◌∷◌, ◌++◌, arith, length, all, lt_wf,
}
use weasyl.Forms.{ok, int_from, expect_id, starts_with_zero}
use weasyl.Forms.Text.{Str, is_digit}

abbrev decimal_step : (n : ℕ) → ((m : ℕ) → m < n → Str) → Str
decimal_step n rec =
    dite (dec_lt 9 n) (λ h. rec (n / 10) (omega arith) ++ (b'0' + n % 10) ∷ [])
      (λ _. (b'0' + n) ∷ [])

-- The specification: the `%d` form of a number.
pub decimal : ℕ → Str
decimal = fix lt_wf decimal_step

decimal-digit : (n : ℕ) → n < 10 → decimal n ≡ (b'0' + n) ∷ []
unfolding decimal
decimal-digit n h = ground (arith, fix-eq lt_wf decimal_step n)

decimal_more : (n : ℕ) → 9 < n → decimal n ≡ decimal (n / 10) ++ (b'0' + n % 10) ∷ []
unfolding decimal
decimal_more n h = ground (arith, fix-eq lt_wf decimal_step n)

decimal-push : (n d : ℕ) → 0 < n → d < 10 → decimal (n * 10 + d) ≡ decimal n ++ (b'0' + d) ∷ []
decimal-push n d h k =
    let quotient : (n * 10 + d) / 10 ≡ n = omega arith in
    let digit : (n * 10 + d) % 10 ≡ d = omega arith in
    rw (decimal_more (n * 10 + d) (omega arith), quotient, digit)

-- Digits read behind a number above 0 are the digits printed behind it.
decimal-int_from :
    (acc : ℕ) (s : Str)
    → 0 < acc
    → all is_digit s ≡ true
    → decimal (int_from acc s) ≡ decimal acc ++ s
unfolding int_from
decimal-int_from acc [] h d = sym (append-nil (decimal acc))
decimal-int_from acc (c ∷ s) h d =
    let digit : c - b'0' < 10 = ground arith in
    let back : b'0' + (c - b'0') ≡ c = ground arith in
    rw (decimal-int_from (acc * 10 + (c - b'0')) s (omega arith) (ground arith))
      (rw (decimal-push acc (c - b'0') h digit, back) (append_assoc (decimal acc) (c ∷ []) s))

decimal-int :
    (s : Str)
    → 0 < length s
    → all is_digit s ≡ true
    → starts_with_zero s ≡ false
    → decimal (int_from 0 s) ≡ s
unfolding int_from
decimal-int [] h d z = absurd (omega arith)
decimal-int (c ∷ s) h d z =
    let digit : c - b'0' < 10 = ground arith in
    let back : b'0' + (c - b'0') ≡ c = ground arith in
    let start : 0 * 10 + (c - b'0') ≡ c - b'0' = omega arith in
    rw start (
      rw (decimal-int_from (c - b'0') s (ground arith) (ground arith))
        (rw (decimal-digit (c - b'0') digit, back)))

int_from-snoc :
    (acc : ℕ) (s : Str) (c : ℕ) → int_from acc (s ++ c ∷ []) ≡ int_from acc s * 10 + (c - b'0')
unfolding int_from
int_from-snoc acc [] c = refl
int_from-snoc acc (d ∷ s) c = int_from-snoc (acc * 10 + (d - b'0')) s c

all_snoc :
    (s : Str) (c : ℕ)
    → all is_digit s ≡ true
    → is_digit c ≡ true
    → all is_digit (s ++ c ∷ []) ≡ true
all_snoc [] c h k = rw k
all_snoc (d ∷ s) c h k = ground (arith, all_snoc s c)

-- What `expect_id` tests, of the decimal form of a number above 0.
record IsNumeral (n : ℕ) (s : Str) : Type 0 where
  some_digit : 0 < length s
  digits : all is_digit s ≡ true
  no_zero : starts_with_zero s ≡ false
  value : int_from 0 s ≡ n

starts_with_zero-append :
    (s t : Str) → 0 < length s → starts_with_zero s ≡ false → starts_with_zero (s ++ t) ≡ false
starts_with_zero-append [] t h z = absurd (omega arith)
starts_with_zero-append (c ∷ s) t h z = z

push-IsNumeral :
    (n d : ℕ) (s : Str) → IsNumeral n s → d < 10 → IsNumeral (n * 10 + d) (s ++ (b'0' + d) ∷ [])
push-IsNumeral n d s v h = record {
  some_digit = omega (arith, length-append s ((b'0' + d) ∷ []));
  digits = all_snoc s (b'0' + d) v.digits (ground arith);
  no_zero = starts_with_zero-append s _ v.some_digit v.no_zero;
  value = omega (arith, int_from-snoc 0 s (b'0' + d), v.value);
}

one-IsNumeral : (n : ℕ) → 0 < n → n < 10 → IsNumeral n ((b'0' + n) ∷ [])
unfolding int_from
one-IsNumeral n h k = record {
  some_digit = omega arith;
  digits = ground arith;
  no_zero = ground arith;
  value = omega arith;
}

decimal-IsNumeral : (n : ℕ) → 0 < n → IsNumeral n (decimal n)
decimal-IsNumeral n = induction lt_wf {C = λ k. 0 < k → IsNumeral k (decimal k)} n λ k ih pos.
    elim (dec_lt 9 k) [
      | yes more ↦
          let whole : k / 10 * 10 + k % 10 ≡ k = omega arith in
          rw (decimal_more k more) (
            subst (λ m. IsNumeral m (decimal (k / 10) ++ (b'0' + k % 10) ∷ [])) whole
              (push-IsNumeral (k / 10) (k % 10) (decimal (k / 10))
                (ih (k / 10) (omega arith) (omega arith)) (omega arith)))
      | no less ↦ rw (decimal-digit k (omega arith)) (one-IsNumeral k pos (omega arith))
    ]

length-decimal : (k n : ℕ) → n < 10 ^ suc k → length (decimal n) ≤ suc k
length-decimal zero n h = rw (decimal-digit n (omega arith)) (omega arith)
length-decimal (suc k) n h = elim (dec_lt 9 n) [
  | yes more ↦ rw (decimal_more n more) (
      omega (
        arith,
        length-append (decimal (n / 10)) ((b'0' + n % 10) ∷ []),
        length-decimal k (n / 10) (omega (arith, pow-suc 10 (suc k))),
      ))
  | no less ↦ rw (decimal-digit n (omega arith)) (omega arith)
]

-- The tests of `expect_id` in one record.
expect_id-IsNumeral :
    (s : Str) (n : ℕ) → expect_id s ≡ ok n → IsNumeral n s × (length s ≤ 10) × (n ≤ 2 ^ 31 - 1)
unfolding expect_id
expect_id-IsNumeral s n e = (
  record {
    some_digit = ground arith;
    digits = ground arith;
    no_zero = ground arith;
    value = ground arith;
  },
  ground arith,
  ground arith,
)

IsNumeral-expect_id :
    (s : Str) (n : ℕ) → IsNumeral n s → length s ≤ 10 → n ≤ 2 ^ 31 - 1 → expect_id s ≡ ok n
unfolding expect_id
IsNumeral-expect_id s n v short small = ground (arith, v.some_digit, v.digits, v.no_zero, v.value)

decimal-zero : (n : ℕ) → n ≡ 0 → starts_with_zero (decimal n) ≡ true
decimal-zero n e = rw (e, decimal-digit 0 (omega arith))

-- `expect_id` accepts a string and returns `n` exactly when the string is the default decimal form
-- of `n` and `n` is in the range of a generated identity, from 1 to 2 ^ 31 - 1.
pub expect_id_iff :
    (s : Str) (n : ℕ) → (expect_id s ≡ ok n) ↔ ((s ≡ decimal n) × (0 < n) × (n < 2 ^ 31))
expect_id_iff s n = (
  λ e.
      let (v, short, small) = expect_id-IsNumeral s n e in
      let same : decimal (int_from 0 s) ≡ s = decimal-int s v.some_digit v.digits v.no_zero in
      let printed : s ≡ decimal n = sym same ∙ ap decimal v.value in
      (
        printed,
        ground (arith, decimal-zero n, ap starts_with_zero printed, v.no_zero),
        omega arith,
      ),
  λ (printed, positive, small). rw printed (
      IsNumeral-expect_id (decimal n) n (decimal-IsNumeral n positive)
        (length-decimal 9 n (omega arith)) (omega arith)),
)

-- Two form fields that are read as the same id are the same string.
pub expect_id_injective : (a b : Str) {n : ℕ} → expect_id a ≡ ok n → expect_id b ≡ ok n → a ≡ b
expect_id_injective a b {n} p q = ((expect_id_iff a n).0 p).0 ∙ sym ((expect_id_iff b n).0 q).0
