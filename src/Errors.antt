-- ===== src/Errors.antt =====
-- Go error values as internal/outboxer uses them: leaves, trees built by errors.Join, the tests
-- errors.Is and errors.As, and the two walks of internal/outboxer/processor.go. A nil error is
-- `none`.
pub mod Join
use outboxer.Prelude.{
  ℕ, ◌+◌, String, Bool, true, false, ◌||◌, Option, none, some, List, [], ◌∷◌, if◌then◌else◌,
}

-- What a leaf is, as far as the program tells leaves apart: the two sentinels of the relay, the
-- context errors, a provider error with a code, and any other message.
pub data Cause : Type 0 where
  database_batch fatal_after_commit deadline_exceeded canceled : Cause
  api : String → String → Cause
  message : String → Cause

mutual
  pub data Error : Type 0 where
    leaf : Cause → Error
    joined : Errors → Error

  pub data Errors : Type 0 where
    nil : Errors
    cons : Error → Errors → Errors

-- A call that returns a value or an error.
pub data Outcome {ℓ} (A : Type ℓ) : Type ℓ where
  returned : A → Outcome A
  failed : Error → Outcome A

-- What holds of the value, if there is one.
abbrev pub Holds {ℓ κ} : {A : Type ℓ} → (A → Type κ) → Outcome A → Type κ
Holds P (returned a) = P a
Holds P (failed e) = Unit

abbrev present : Option Error → Errors → Errors
present none es = es
present (some e) es = cons e es

abbrev wrap : Errors → Option Error
wrap nil = none
wrap (cons e es) = some (joined (cons e es))

-- errors.Join of two errors: nil errors are dropped, and a join of nothing is nil.
unfoldable pub join : Option Error → Option Error → Option Error
join a b = wrap (present a (present b nil))

abbrev pub same_sentinel : Cause → Cause → Bool
same_sentinel database_batch database_batch = true
same_sentinel fatal_after_commit fatal_after_commit = true
same_sentinel deadline_exceeded deadline_exceeded = true
same_sentinel canceled canceled = true
same_sentinel _ _ = false

-- errors.Is for a sentinel
unfoldable mutual
  pub is : Error → Cause → Bool
  is (leaf c) t = same_sentinel c t
  is (joined es) t = is_any es t

  pub is_any : Errors → Cause → Bool
  is_any nil t = false
  is_any (cons e es) t = is e t || is_any es t

-- errors.Is of an error that may be nil
unfoldable pub is? : Option Error → Cause → Bool
is? none t = false
is? (some e) t = is e t

abbrev pub code_of : Cause → Option String
code_of (api code _) = some code
code_of _ = none

abbrev or_else : Option String → Option String → Option String
or_else (some c) _ = some c
or_else none o = o

-- errors.As for an error with a code: the first such leaf
unfoldable mutual
  pub error_code : Error → Option String
  error_code (leaf c) = code_of c
  error_code (joined es) = error_code_any es

  pub error_code_any : Errors → Option String
  error_code_any nil = none
  error_code_any (cons e es) = or_else (error_code e) (error_code_any es)

unfoldable mutual
  pub count_leaves : Error → ℕ
  count_leaves (leaf c) = 1
  count_leaves (joined es) = count_all es

  pub count_all : Errors → ℕ
  count_all nil = 0
  count_all (cons e es) = count_leaves e + count_all es

-- countJoinedErrors
unfoldable pub count_joined_errors : Option Error → ℕ
count_joined_errors none = 0
count_joined_errors (some e) = count_leaves e

-- firstLeafError: a join of nothing is returned as it is
unfoldable mutual
  pub first_leaf_error : Error → Error
  first_leaf_error (leaf c) = leaf c
  first_leaf_error (joined es) = first_of_all es

  pub first_of_all : Errors → Error
  first_of_all nil = joined nil
  first_of_all (cons e es) = first_leaf_error e

-- The loop of RunConcurrent and of processEventBatch over finished operations:
-- `joined = errors.Join(joined, err)` for each error that is not nil.
unfoldable pub join_all : Option Error → List (Option Error) → Option Error
unfolding join
join_all acc [] = acc
join_all acc (none ∷ rest) = join_all acc rest
join_all acc (some e ∷ rest) = join_all (join acc (some e)) rest

-- fmtDBError
unfoldable pub fmt_db_error : Error → Option Error
unfolding join
fmt_db_error e = join (some (leaf database_batch)) (some e)
