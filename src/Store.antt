-- ===== src/Store.antt =====
-- store/src/lib.rs: the command loop of the store. The database is RocksDB, which the loop calls by
-- `get` and `put`; a `oneshot` sender is a number that names it.
use auto_pilot.Prelude.{
  ltb, leb, ◌==◌, if◌then◌else◌, ltb→lt, lt→ltb, le→ltb_false, lt→leb_false, leb→le, le→leb, ==_iff,
  Bool-cases, Option-cases, nat_eq, pair_beq, pair_beq_iff, pair_eq, Eq, length, get_elem?, filter,
  all, All, length-append, contains, IsDistinct, contains-append, IsDistinct-snoc, snoc_congr, keys,
  values, lookup, insert, contains_key, lookup-insert, ◌>>=◌, ◌>>◌, ensure, is_ok, Result, ok, err,
  ℕ, zero, suc, ◌+◌, ◌-◌, ◌*◌, ◌/◌, ◌%◌, ◌^◌, ◌≤◌, ◌<◌, ◌≡◌, refl, sym, ap, ◌∙◌, ◌≢◌, ◌↔◌, ◌⊎◌, inl,
  inr, Bool, true, false, not, ◌&&◌, ◌||◌, Option, none, some, List, [], ◌∷◌, ◌++◌, map, arith,
}
pub mod Waiting

abbrev pub Sender : Type 0
Sender = ℕ

pub data StoreCommand (K V : Type 0) : Type 0 where
  write : K → V → StoreCommand K V
  read : K → Sender → StoreCommand K V
  notify_read : K → Sender → StoreCommand K V

-- What goes out on the senders of `Read` and of `NotifyRead`.
pub data Reply (V E : Type 0) : Type 0 where
  read_reply : Sender → Result E (Option V) → Reply V E
  notify_reply : Sender → Result E V → Reply V E

-- The variables of the task.
pub record StoreState (Db K : Type 0) : Type 0 where
  pub db : Db
  pub obligations : List (K × List Sender)

-- `HashMap::remove`.
unfoldable pub remove : {K V : Type 0} ⦃q : Eq K⦄ → K → List (K × V) → List (K × V)
remove k [] = []
remove ⦃q⦄ k ((j, v) ∷ m) = let rest = remove k m in if q.beq k j then rest else (j, v) ∷ rest

abbrev pub senders_of : Option (List Sender) → List Sender
senders_of none = []
senders_of (some senders) = senders

-- The senders that wait for a key.
unfoldable pub waiting : {Db K : Type 0} ⦃q : Eq K⦄ → K → StoreState Db K → List Sender
unfolding lookup
waiting k s = senders_of (lookup k s.obligations)

module _ {Db K V E : Type 0} ⦃q : Eq K⦄ (get : Db → K → Result E (Option V))
    (put : Db → K → V → Db) where
  -- The `NotifyRead` case once the database has answered.
  unfoldable pub answer :
      K → Sender → Result E (Option V) → StoreState Db K → StoreState Db K × List (Reply V E)
  unfolding waiting insert
  answer k sender (ok none) s =
      (record s { obligations = insert k (waiting k s ++ sender ∷ []) s.obligations }, [])
  answer k sender (ok (some v)) s = (s, notify_reply sender (ok v) ∷ [])
  answer k sender (err e) s = (s, notify_reply sender (err e) ∷ [])

  -- One turn of the loop.
  unfoldable pub serve : StoreCommand K V → StoreState Db K → StoreState Db K × List (Reply V E)
  unfolding answer remove
  serve (write k v) s = (
    record { db = put s.db k v; obligations = remove k s.obligations },
    map (λ sender. notify_reply sender (ok v)) (waiting k s),
  )
  serve (read k sender) s = (s, read_reply sender (get s.db k) ∷ [])
  serve (notify_read k sender) s = answer k sender (get s.db k) s
