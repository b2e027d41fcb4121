-- ===== src/Database/Retry.antt =====
-- `serializable_retry` of weasyl/define.py runs an action to its end once, or not at all.
use weasyl.Prelude.{
  ℕ, ◌+◌, ◌≤◌, ◌≡◌, Bool, ◌&&◌, List, [], ◌∷◌, ltb, if◌then◌else◌, arith, length, all,
}
use weasyl.Database.Actions.{
  ActionOn, operational_error, err, transaction, Fault, serialization_failure, other_failure,
  is_serialization, retry_from, retry_limit, serializable_retry,
}

-- Every fault is a conflict, and there are fewer of them than attempts.
abbrev pub gets_through : List Fault → Bool
gets_through faults = all is_serialization faults && ltb (length faults) retry_limit

retry_from_lem :
    {S A : Type 0} (limit i : ℕ) (faults : List Fault) (action : ActionOn S A) (db : S)
    → i ≤ limit
    → retry_from limit i faults action db ≡ (
        if all is_serialization faults && ltb (i + length faults) (limit + 1)
        then transaction action db
        else (err operational_error, db))
unfolding retry_from
retry_from_lem limit i [] action db h = ground arith
retry_from_lem limit i (serialization_failure ∷ faults) action db h =
    ground (arith, retry_from_lem limit (i + 1) faults action db)
retry_from_lem limit i (other_failure ∷ faults) action db h = ground arith

-- `serializable_retry` commits the action, run from the state before the call, exactly when the
-- database fails fewer attempts than the limit of 16, and those only by serialization conflicts. In
-- every other case it raises `OperationalError` and nothing is changed.
pub serializable_retry_lem :
    {S A : Type 0} (faults : List Fault) (action : ActionOn S A) (db : S)
    → serializable_retry faults action db
      ≡ (if gets_through faults then transaction action db else (err operational_error, db))
unfolding serializable_retry
serializable_retry_lem faults action db =
    ground (arith, retry_from_lem retry_limit 1 faults action db)
