-- ===== src/Tests/Stores.antt =====
-- The theorems on the store (store/src/lib.rs) over a database that is an association list.
use auto_pilot.Store.{notify_read, StoreState, waiting, serve}
use auto_pilot.Store.Waiting.{WaitsForAbsent, serve-WaitsForAbsent}
use auto_pilot.Prelude.{
  ◌==◌, ==_iff, Bool-cases, nat_eq, pair_eq, lookup, insert, lookup-insert, Result, ok, ℕ, ◌≡◌,
  refl, ap, ◌∙◌, inl, inr, false, Option, List, [], ◌∷◌,
}

abbrev Db : Type 0
Db = List (ℕ × ℕ)

abbrev get_db : Db → ℕ → Result ℕ (Option ℕ)
get_db db k = ok (lookup k db)

abbrev put_db : Db → ℕ → ℕ → Db
put_db db k v = insert k v db

-- Two senders wait for the key 7 and one for the key 8.
abbrev busy : StoreState Db ℕ
busy = record { db = (5, 50) ∷ []; obligations = (7, 1 ∷ 2 ∷ []) ∷ (8, 3 ∷ []) ∷ [] }

put_db-other :
    (db : Db) (i j : ℕ) (w : ℕ) → (j == i) ≡ false → get_db (put_db db i w) j ≡ get_db db j
put_db-other db i j w e = ap ok (lookup-insert i j w db ∙ rw e refl)

busy-WaitsForAbsent : WaitsForAbsent get_db put_db busy
unfolding waiting lookup
busy-WaitsForAbsent = record {
  absent = λ k sender senders e. elim (Bool-cases (k == 5)) [
    | inl five ↦ (let here : k ≡ 5 = (==_iff k 5).0 five in absurd (let bad = rw here at e in cc))
    | inr other ↦ rw other refl
  ];
}

serve-WaitsForAbsent_example :
    WaitsForAbsent get_db put_db (serve get_db put_db (notify_read 9 4) busy).0
serve-WaitsForAbsent_example =
    serve-WaitsForAbsent get_db put_db busy (notify_read 9 4) put_db-other busy-WaitsForAbsent
