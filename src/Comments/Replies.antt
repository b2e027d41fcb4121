-- ===== src/Comments/Replies.antt =====
-- The recursive query of `comment_remove` finds every comment below one.
use weasyl.Prelude.{
  ◌≡◌, refl, sym, ap, subst, inl, inr, ℕ, zero, suc, ◌≤◌, ◌<◌, arith, Bool, true, ◌&&◌, some, List,
  [], ◌∷◌, ◌++◌, map, ◌==◌, Bool-cases, All,
}
use weasyl.Sql.{exists, select, first, elem}
use weasyl.Comments.{Comment}
use weasyl.Comments.Removal.{last_id, recursive_rows, recursive_ids}

-- A comment of the table, or a reply to one that stands below it.
pub data IsBelow (rows : List Comment) (commentid : ℕ) : ℕ → Type 0 where
  itself :
      (c : Comment)
      → first (λ r. r.commentid == commentid) rows ≡ some c
      → IsBelow rows commentid commentid
  reply :
      (parentid id : ℕ)
      → IsBelow rows commentid parentid
      → exists (λ r. r.commentid == id && r.parentid == parentid) rows ≡ true
      → IsBelow rows commentid id

-- A reply has a greater id than its parent.
abbrev pub RepliesFollow : List Comment → Type 0
RepliesFollow rows = All (λ c. c.parentid < c.commentid) rows

-- The replies to the comments of a round.
abbrev next_round : List Comment → List ℕ → List ℕ
next_round rows ids = map (λ c. c.commentid) (select (λ c. elem c.parentid ids) rows)

elem-append_left : (x : ℕ) (xs ys : List ℕ) → elem x xs ≡ true → elem x (xs ++ ys) ≡ true
elem-append_left x [] ys h = cc
elem-append_left x (y ∷ xs) ys h = ground (arith, elem-append_left x xs ys)

elem-append_right : (x : ℕ) (xs ys : List ℕ) → elem x ys ≡ true → elem x (xs ++ ys) ≡ true
elem-append_right x [] ys h = h
elem-append_right x (y ∷ xs) ys h = ground (arith, elem-append_right x xs ys h)

elem-select :
    (rows : List Comment) (ids : List ℕ) (parentid id : ℕ)
    → elem parentid ids ≡ true
    → exists (λ r. r.commentid == id && r.parentid == parentid) rows ≡ true
    → elem id (next_round rows ids) ≡ true
elem-select [] ids parentid id h k = cc
elem-select (c ∷ rows) ids parentid id h k =
    elim (Bool-cases (c.commentid == id && c.parentid == parentid)) [
      | inl e ↦ ground arith
      | inr e ↦ ground (arith, elem-select rows ids parentid id h)
    ]

-- A row that a round finds.
select-row :
    (p : Comment → Bool) (rows : List Comment) (id : ℕ)
    → RepliesFollow rows
    → elem id (map (λ c. c.commentid) (select p rows)) ≡ true
    → (c : Comment) × (p c ≡ true) × (c.commentid ≡ id) × (id ≤ last_id rows) × (c.parentid < id)
unfolding last_id
select-row p [] id o h = absurd cc
select-row p (c ∷ rows) id o h = elim (Bool-cases (p c && id == c.commentid)) [
  | inl e ↦ (c, ground arith, ground arith, ground arith, ground (arith, o.0))
  | inr e ↦
      let rest : elem id (map (λ c. c.commentid) (select p rows)) ≡ true = ground arith in
      let (c', q, i, l, f) = select-row p rows id o.1 rest in (c', q, i, ground arith, f)
]

-- The rounds one by one.
nth : ℕ → List Comment → List ℕ → List ℕ
nth zero rows ids = ids
nth (suc k) rows ids = next_round rows (nth k rows ids)

nth-shift :
    (k : ℕ) (rows : List Comment) (ids : List ℕ)
    → nth (suc k) rows ids ≡ nth k rows (next_round rows ids)
unfolding nth
nth-shift zero rows ids = refl
nth-shift (suc k) rows ids = ap (next_round rows) (nth-shift k rows ids)

next_round-nil : (rows : List Comment) → next_round rows [] ≡ []
next_round-nil [] = refl
next_round-nil (c ∷ rows) = next_round-nil rows

nth-nil : (k : ℕ) (rows : List Comment) → nth k rows [] ≡ []
unfolding nth
nth-nil zero rows = refl
nth-nil (suc k) rows = rw (nth-nil k rows) (next_round-nil rows)

elem-nth_nil : (k : ℕ) (rows : List Comment) (id : ℕ) → elem id (nth k rows []) ≡ true → ⊥
elem-nth_nil k rows id h =
    let none : elem id [] ≡ true = subst (λ ids. elem id ids ≡ true) (nth-nil k rows) h in absurd cc

elem-recursive_rows :
    (k fuel : ℕ) (rows : List Comment) (ids : List ℕ) (id : ℕ)
    → k < fuel
    → elem id (nth k rows ids) ≡ true
    → elem id (recursive_rows fuel rows ids) ≡ true
unfolding recursive_rows nth
elem-recursive_rows k zero rows ids id l h = absurd (omega arith)
elem-recursive_rows k (suc fuel) rows [] id l h = absurd (elem-nth_nil k rows id h)
elem-recursive_rows zero (suc fuel) rows (x ∷ ids) id l h = elem-append_left id (x ∷ ids) _ h
elem-recursive_rows (suc k) (suc fuel) rows (x ∷ ids) id l h = elem-append_right id (x ∷ ids) _ (
    elem-recursive_rows k fuel rows (next_round rows (x ∷ ids)) id (omega arith)
      (rw (sym (nth-shift k rows (x ∷ ids))) h))

-- The ids of a round are as great as its number at least, and ids of the table.
nth-bounds :
    (rows : List Comment) (commentid k id : ℕ)
    → RepliesFollow rows
    → let start = map (λ c. c.commentid) (select (λ c. c.commentid == commentid) rows) in
      elem id (nth k rows start) ≡ true → (k ≤ id) × (id ≤ last_id rows)
unfolding nth
nth-bounds rows commentid zero id o h =
    let (c, q, i, l, f) = select-row (λ c. c.commentid == commentid) rows id o h in (omega arith, l)
nth-bounds rows commentid (suc k) id o h =
    let start = map (λ c. c.commentid) (select (λ c. c.commentid == commentid) rows) in
    let (c, q, i, l, f) = select-row (λ c. elem c.parentid (nth k rows start)) rows id o h in
    let (k_le, below) = nth-bounds rows commentid k c.parentid o q in (omega arith, l)

elem-first :
    (c : Comment) (rows : List Comment) (commentid : ℕ)
    → first (λ r. r.commentid == commentid) rows ≡ some c
    → elem commentid (map (λ c. c.commentid) (select (λ c. c.commentid == commentid) rows)) ≡ true
elem-first c [] commentid h = absurd cc
elem-first c (r ∷ rows) commentid h = ground (arith, elem-first c rows commentid)

-- A comment below another is in a round.
below-nth :
    (rows : List Comment) (commentid id : ℕ)
    → IsBelow rows commentid id
    → let start = map (λ c. c.commentid) (select (λ c. c.commentid == commentid) rows) in
      (k : ℕ) × (elem id (nth k rows start) ≡ true)
unfolding nth
below-nth rows commentid id (itself c f) = (zero, elem-first c rows commentid f)
below-nth rows commentid id (reply parentid i b e) =
    let start = map (λ c. c.commentid) (select (λ c. c.commentid == commentid) rows) in
    let (k, h) = below-nth rows commentid parentid b in
    (suc k, elem-select rows (nth k rows start) parentid id h e)

-- The recursive query finds every comment below.
pub elem-recursive_ids :
    (rows : List Comment) (commentid id : ℕ)
    → RepliesFollow rows
    → IsBelow rows commentid id
    → elem id (recursive_ids commentid rows) ≡ true
unfolding recursive_ids
elem-recursive_ids rows commentid id o b =
    let start = map (λ c. c.commentid) (select (λ c. c.commentid == commentid) rows) in
    let (k, h) = below-nth rows commentid id b in
    let (k_le, id_le) = nth-bounds rows commentid k id o h in
    elem-recursive_rows k (suc (last_id rows)) rows start id (omega arith) h
