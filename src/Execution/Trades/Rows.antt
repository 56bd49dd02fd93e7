-- ===== src/Execution/Trades/Rows.antt =====
-- Which keys have a row in the table `trades` of services/execution-service/app/db.py.
use vix_75_platform.Base.{
  String, ◌≡◌, ◌≢◌, Bool, true, false, List, [], ◌∷◌, All, arith, is_some, Option-cases, inl, inr,
}
use vix_75_platform.Base.Dict.{Dict, lookup, insert, text_eq_iff}
use vix_75_platform.Execution.Trades.{
  ExecutionDatabase, StatusChange, StatusUpdate, Trade, set_status,
}

-- No text stands in the list twice.
abbrev pub IsDistinct : List String → Type 0
IsDistinct [] = Unit
IsDistinct (k ∷ keys) = All (λ i. i ≢ k) keys × IsDistinct keys

module _ {F : Type 0} where
  abbrev pub has_row : String → ExecutionDatabase F → Bool
  has_row key db = is_some (lookup key db.trades)

  -- No row is lost.
  abbrev pub KeepsRows : ExecutionDatabase F → ExecutionDatabase F → Type 0
  KeepsRows db db' = (key : String) → has_row key db ≡ true → has_row key db' ≡ true

  pub insert-KeepsRows :
      (k key : String) (row : Trade F) (d : Dict (Trade F))
      → is_some (lookup k d) ≡ true
      → is_some (lookup k (insert key row d)) ≡ true
  insert-KeepsRows k key row [] h = ground arith
  insert-KeepsRows k key row ((i, w) ∷ d) h =
      ground (arith, text_eq_iff i k, text_eq_iff i key, insert-KeepsRows k key row d)

  pub set_status-KeepsRows :
      (change : StatusChange) (now key : String) (u : StatusUpdate F) (db : ExecutionDatabase F)
      → KeepsRows db (set_status change now key u db)
  unfolding set_status
  set_status-KeepsRows change now key u db k h = elim (Option-cases (lookup key db.trades)) [
    | inl e ↦ rw (e, set_status) h
    | inr (row, e) ↦ rw (e, set_status) (insert-KeepsRows k key _ db.trades h)
  ]

  abbrev pub AreAdded : List String → ExecutionDatabase F → ExecutionDatabase F → Type 0
  AreAdded keys db db' = All (λ k. (has_row k db ≡ false) × (has_row k db' ≡ true)) keys

  -- Keys that differ from each other, without a row in the first database and with one in the last.
  abbrev pub AreNew : List String → ExecutionDatabase F → ExecutionDatabase F → Type 0
  AreNew keys db db' = AreAdded keys db db' × IsDistinct keys

  not_before :
      (k : String) (db db1 : ExecutionDatabase F)
      → KeepsRows db db1
      → has_row k db1 ≡ false
      → has_row k db ≡ false
  not_before k db db1 keeps h = ground (arith, keeps k)

  added_before :
      (keys : List String) (db db1 db2 : ExecutionDatabase F)
      → KeepsRows db db1
      → AreAdded keys db1 db2
      → AreAdded keys db db2
  added_before [] db db1 db2 keeps new = tt
  added_before (k ∷ keys) db db1 db2 keeps ((h, h'), new) =
      ((not_before k db db1 keeps h, h'), added_before keys db db1 db2 keeps new)

  pub new_before :
      (keys : List String) (db db1 db2 : ExecutionDatabase F)
      → KeepsRows db db1
      → AreNew keys db1 db2
      → AreNew keys db db2
  new_before keys db db1 db2 keeps (new, distinct) =
      (added_before keys db db1 db2 keeps new, distinct)

  pub others :
      (k : String) (keys : List String) (db1 db2 : ExecutionDatabase F)
      → has_row k db1 ≡ true
      → AreAdded keys db1 db2
      → All (λ i. i ≢ k) keys
  others k [] db1 db2 h new = tt
  others k (i ∷ keys) db1 db2 h ((n, _), new) = (λ e. cc, others k keys db1 db2 h new)
