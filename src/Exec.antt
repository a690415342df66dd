-- ===== src/Exec.antt =====
-- Database functions and handlers as actions: an action takes the tables and gives a result and the
-- tables after it, beside an error too, since only a transaction takes statements back.
pub mod Keeps
use ullav_user_management.Prelude.{Option, none, some, Bool, true, false}
use ullav_user_management.Errors.{AppError, Result, ok, err}

abbrev pub Exec {ℓ} : Type ℓ → Type ℓ → Type ℓ
Exec Db Value = Db → Result Value × Db

-- A query: reads the tables.
abbrev pub gets {ℓ} : {Db Value : Type ℓ} → (Db → Value) → Exec Db Value
gets query db = (ok (query db), db)

-- A statement: changes the tables.
abbrev pub modify {ℓ} : {Db : Type ℓ} → (Db → Db) → Exec Db (Unit {ℓ})
modify statement db = (ok tt, statement db)

-- `Ok(value)` at the end of a function
abbrev pub pure {ℓ} : {Db Value : Type ℓ} → Value → Exec Db Value
pure value db = (ok value, db)

-- A check that does not use the tables.
abbrev pub lift {ℓ} : {Db Value : Type ℓ} → Result Value → Exec Db Value
lift checked db = (checked, db)

-- `return Err(e)` when the condition holds
abbrev pub fail_if {ℓ} : {Db : Type ℓ} → Bool → AppError → Exec Db (Unit {ℓ})
fail_if false failure db = (ok tt, db)
fail_if true failure db = (err failure, db)

-- `ok_or`
abbrev pub or_fail {ℓ} : {Db Value : Type ℓ} → Option Value → AppError → Exec Db Value
or_fail (some value) missing db = (ok value, db)
or_fail none missing db = (err missing, db)

-- `?` after a call: its error ends the function.
abbrev after_call {ℓ} :
    {Db Value Next : Type ℓ} → Db → Result Value → (Value → Exec Db Next) → Result Next × Db
after_call db (err failure) next = (err failure, db)
after_call db (ok value) next = next value db

infixl 5 ◌>>=◌
abbrev pub ◌>>=◌ {ℓ} :
    {Db Value Next : Type ℓ} → Exec Db Value → (Value → Exec Db Next) → Exec Db Next
◌>>=◌ call next db = after_call (call db).1 (call db).0 next

infixl 5 ◌>>◌
abbrev pub ◌>>◌ {ℓ} : {Db Value Next : Type ℓ} → Exec Db Value → Exec Db Next → Exec Db Next
◌>>◌ first second db = after_call (first db).1 (first db).0 (λ _. second)

-- `tx.commit()` on success; the tables as they were at the start on an error.
abbrev settle {ℓ} : {Db Value : Type ℓ} → Db → Result Value → Db → Result Value × Db
settle before (ok value) after = (ok value, after)
settle before (err failure) after = (err failure, before)

abbrev pub transaction {ℓ} : {Db Value : Type ℓ} → Exec Db Value → Exec Db Value
transaction body db = settle db (body db).0 (body db).1
