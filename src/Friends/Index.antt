-- ===== src/Friends/Index.antt =====
-- The unique index of `frienduser` (libweasyl/models/tables.py) tells unordered pairs apart.
use Prim.Native.Nat.{bit_xor}
use mathlib.Core.Path.{fun_ext}
use weasyl.Prelude.{ℕ, ◌≡◌, ◌⊎◌, inl, inr, arith, min, leb, Bool-cases, sym, ◌∙◌, ap}
use weasyl.Prelude.Xor.{bit_xor_comm, bit_xor_cancel}
use weasyl.Friends.{in_conflict, is_between}

-- The least number of a pair and its exclusive or determine the pair up to its order.
pair_of_key :
    (a b c d : ℕ)
    → min a b ≡ min c d
    → bit_xor a b ≡ bit_xor c d
    → ((a ≡ c) × (b ≡ d)) ⊎ ((a ≡ d) × (b ≡ c))
pair_of_key a b c d m x = elim (Bool-cases (leb a b)) [
  | inl ab ↦ elim (Bool-cases (leb c d)) [
    | inl cd ↦
        let e : a ≡ c = ground arith in
        inl (e, bit_xor_cancel a b d (x ∙ ap (λ t. bit_xor t d) (sym e)))
    | inr dc ↦
        let e : a ≡ d = ground arith in
        inr (e, bit_xor_cancel a b c (x ∙ bit_xor_comm c d ∙ ap (λ t. bit_xor t c) (sym e)))
  ]
  | inr ba ↦ elim (Bool-cases (leb c d)) [
    | inl cd ↦
        let e : b ≡ c = ground arith in
        inr (bit_xor_cancel b a d (bit_xor_comm b a ∙ x ∙ ap (λ t. bit_xor t d) (sym e)), e)
    | inr dc ↦
        let e : b ≡ d = ground arith in
        inl (
          bit_xor_cancel b a c
              (bit_xor_comm b a ∙ x ∙ bit_xor_comm c d ∙ ap (λ t. bit_xor t c) (sym e)),
          e,
        )
  ]
]

-- The index is violated exactly by a row between the same two users, in either direction.
pub in_conflict-is_between :
    (userid otherid : ℕ) → in_conflict userid otherid ≡ is_between userid otherid
in_conflict-is_between userid otherid = fun_ext λ row.
    ground (arith, pair_of_key row.userid row.otherid userid otherid, bit_xor_comm userid otherid)
